-- ===== src/Assets/Distinct.antt =====
-- The unique constraint of the assets (app/modules/assets/models.py) and what keeps it.
use soc360_pymes.Prelude.{
  ◌≤◌, ◌≡◌, refl, sym, ap, ◌∙◌, Bool, true, false, not, ◌&&◌, Option, none, some, List, [], ◌∷◌,
  ◌++◌, All, All-append, arith, Bool-cases, inl, inr, ltb, length, ◌==◌, any, str_eq, ==_refl,
  both→and, eq_iff,
}
use soc360_pymes.Sql.{update_where, delete_where, All-delete_where}
use soc360_pymes.Text.{codes_eq, codes_eq_refl}
use soc360_pymes.Database.{AssetKey}
use soc360_pymes.Security.Revocation.{true_not_false}
use soc360_pymes.Assets.Service.{AssetError, same_asset, flush_error}

-- One asset under two ids.
abbrev pub Same : AssetKey → AssetKey → Type 0
Same a b = (a.tenant_id ≡ b.tenant_id) × (a.asset_type ≡ b.asset_type) × (a.value ≡ b.value)

abbrev pub Apart : AssetKey → AssetKey → Type 0
Apart a b = ((b.id == a.id) ≡ false) × (Same a b → ⊥)

abbrev pub Pairwise : List AssetKey → Type 0
Pairwise [] = Unit
Pairwise (a ∷ rows) = All (Apart a) rows × Pairwise rows

pub Apart-sym : (a b : AssetKey) → Apart a b → Apart b a
Apart-sym a b (other, apart) = (ground (arith, other), λ (t, k, v). apart (sym t, sym k, sym v))

pub Same-same_asset : (a b : AssetKey) → Same a b → same_asset a b ≡ true
unfolding same_asset
Same-same_asset a b (t, k, v) =
    rw (t, k, v)
      (both→and (b.tenant_id == b.tenant_id && str_eq b.asset_type b.asset_type)
        (codes_eq b.value b.value)
        (both→and (b.tenant_id == b.tenant_id) (str_eq b.asset_type b.asset_type)
          (==_refl b.tenant_id) ((eq_iff b.asset_type b.asset_type).1 refl))
        (codes_eq_refl b.value))

-- what the unique constraint has found free
abbrev pub Free : AssetKey → AssetKey → Type 0
Free a r = (r.id == a.id) ≡ false → Same a r → ⊥

pub any-Free :
    (a : AssetKey) (rows : List AssetKey)
    → any (λ (r : AssetKey). not (r.id == a.id) && same_asset a r) rows ≡ false
    → All (Free a) rows
any-Free a [] h = tt
any-Free a (r ∷ rows) h = elim (Bool-cases (not (r.id == a.id) && same_asset a r)) [
  | inl e ↦ absurd (true_not_false (rw e at h))
  | inr e ↦ (
    λ other same. absurd (
        true_not_false (
          sym (
            both→and (not (r.id == a.id)) (same_asset a r) (ap not other)
              (Same-same_asset a r same))
          ∙ e)),
    any-Free a rows (rw e at h),
  )
]

pub Free-Apart :
    (a : AssetKey) (rows : List AssetKey)
    → any (λ (r : AssetKey). r.id == a.id) rows ≡ false
    → All (Free a) rows
    → All (λ r. Apart r a) rows
Free-Apart a [] h k = tt
Free-Apart a (r ∷ rows) h (k, ks) = elim (Bool-cases (r.id == a.id)) [
  | inl e ↦ absurd (true_not_false (rw e at h))
  | inr e ↦ (Apart-sym a r (e, k e), Free-Apart a rows (rw e at h) ks)
]

pub some_not_none : (x : AssetError) → Path (Option AssetError) (some x) none → ⊥
some_not_none x h = cc

pub flush-none :
    (a : AssetKey) (rows : List AssetKey)
    → flush_error a rows ≡ none
    → (length a.value ≤ 255) × All (Free a) rows
unfolding flush_error
flush-none a rows h = elim (Bool-cases (ltb 255 (length a.value))) [
  | inl e ↦ cc
  | inr e ↦ elim (Bool-cases (any (λ (r : AssetKey). not (r.id == a.id) && same_asset a r) rows)) [
    | inl q ↦ cc
    | inr q ↦ (ground (arith, e), any-Free a rows q)
  ]
]

pub Pairwise-delete :
    (p : AssetKey → Bool) (rows : List AssetKey) → Pairwise rows → Pairwise (delete_where p rows)
Pairwise-delete p [] h = tt
Pairwise-delete p (a ∷ rows) (h, k) = elim (Bool-cases (p a)) [
  | inl e ↦ rw e (Pairwise-delete p rows k)
  | inr e ↦ rw e (All-delete_where (Apart a) p rows h, Pairwise-delete p rows k)
]

pub Pairwise-append :
    (a : AssetKey) (rows : List AssetKey)
    → Pairwise rows
    → All (λ r. Apart r a) rows
    → Pairwise (rows ++ a ∷ [])
Pairwise-append a [] h k = (tt, tt)
Pairwise-append a (r ∷ rows) (h, hs) (k, ks) =
    (All-append (Apart r) rows (a ∷ []) h (k, tt), Pairwise-append a rows hs ks)

module _ (a : AssetKey) where
  abbrev pub put : List AssetKey → List AssetKey
  put rows = update_where (λ (r : AssetKey). r.id == a.id) (λ _. a) rows

  -- the row takes the place of one with its id, and the others have other ids
  pub All-put_taken :
      (x : AssetKey) (rows : List AssetKey)
      → (x.id == a.id) ≡ true
      → All (Apart x) rows
      → All (Free a) rows
      → All (Apart a) (put rows)
  All-put_taken x [] e h k = tt
  All-put_taken x (r ∷ rows) e (h, hs) (k, ks) =
      let other : (r.id == a.id) ≡ false = ground (arith, e, h.0) in
      rw other ((other, k other), All-put_taken x rows e hs ks)

  pub All-put_kept :
      (x : AssetKey) (rows : List AssetKey)
      → Apart x a
      → All (Apart x) rows
      → All (Apart x) (put rows)
  All-put_kept x [] e h = tt
  All-put_kept x (r ∷ rows) e (h, hs) = elim (Bool-cases (r.id == a.id)) [
    | inl q ↦ rw q (e, All-put_kept x rows e hs)
    | inr q ↦ rw q (h, All-put_kept x rows e hs)
  ]

  pub Pairwise-put :
      (rows : List AssetKey) → Pairwise rows → All (Free a) rows → Pairwise (put rows)
  Pairwise-put [] h k = tt
  Pairwise-put (x ∷ rows) (h, hs) (k, ks) = elim (Bool-cases (x.id == a.id)) [
    | inl q ↦ rw q (All-put_taken x rows q h ks, Pairwise-put rows hs ks)
    | inr q ↦ rw q (All-put_kept x rows (Apart-sym a x (q, k q)) h, Pairwise-put rows hs ks)
  ]
