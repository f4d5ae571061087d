-- ===== src/Assets/Links.antt =====
-- The foreign keys from findings to scans to assets, and the lists of rows they are tested on, for
-- app/modules/assets/service.py.
use mathlib.Core.Path.{subst}
use mathlib.Core.Option.{some-injective}
use soc360_pymes.Prelude.{
  ℕ, ◌≡◌, refl, sym, ◌∙◌, String, Bool, true, false, ◌&&◌, ◌||◌, Option, none, some, List, [], ◌∷◌,
  ◌++◌, All, arith, Bool-cases, inl, inr, ◌==◌, any, str_eq,
}
use soc360_pymes.Sql.{first, first-All, update_where, delete_where}
use soc360_pymes.Outcome.{Result, ok, ok-injective, err_not_ok}
use soc360_pymes.Events.{Event}
use soc360_pymes.Database.{Scan, Vulnerability, AssetKey, Db, World, Env, assets_of}
use soc360_pymes.Security.Revocation.{true_not_false}
use soc360_pymes.Assets.Values.{Text, unknown_asset_type}
use soc360_pymes.Assets.Service.{
  AssetError, invalid, Draft, get_asset, visible_to, take_value, take_type, commit_and_announce,
}
use soc360_pymes.Assets.Distinct.{Pairwise, Apart}

abbrev pub is_asset_of : Scan → AssetKey → Bool
is_asset_of s a = a.id == s.asset_id && a.tenant_id == s.tenant_id

abbrev pub is_scan_of : Vulnerability → Scan → Bool
is_scan_of v s = s.id == v.scan_id && s.tenant_id == v.tenant_id

abbrev pub ScansLinked : List AssetKey → List Scan → Type 0
ScansLinked assets scans = All (λ s. any (is_asset_of s) assets ≡ true) scans

-- Every scan has its asset, and every finding its scan, in its tenant.
abbrev pub Linked : Db → Type 0
Linked db =
    ScansLinked db.assets db.scans
    × All (λ v. any (is_scan_of v) db.scans ≡ true) db.vulnerabilities

abbrev pub BothLinked : World → Type 0
BothLinked w = Linked w.session.committed × Linked w.session.working

pub or_later : (b c : Bool) → c ≡ true → (b || c) ≡ true
or_later b c h = ground (arith, h)

module _ {A : Type 0} where
  pub any-append : (q : A → Bool) (xs ys : List A) → any q xs ≡ true → any q (xs ++ ys) ≡ true
  any-append q [] ys h = cc
  any-append q (x ∷ xs) ys h = ground (arith, any-append q xs ys, h)

  pub any-delete :
      (q p : A → Bool) (xs : List A)
      → All (λ x. q x ≡ true → p x ≡ false) xs
      → any q xs ≡ true
      → any q (delete_where p xs) ≡ true
  any-delete q p [] k h = h
  any-delete q p (x ∷ xs) (k, ks) h = elim (Bool-cases (q x)) [
    | inl e ↦ rw (k e) (rw e refl)
    | inr e ↦
        let rest = any-delete q p xs ks (rw e at h) in
        elim (Bool-cases (p x)) [ inl t ↦ rw t rest | inr t ↦ rw (t, e) rest ]
  ]

  pub any-update :
      (q p : A → Bool) (a : A) (xs : List A)
      → All (λ x. p x ≡ true → q x ≡ true → q a ≡ true) xs
      → any q xs ≡ true
      → any q (update_where p (λ _. a) xs) ≡ true
  any-update q p a [] k h = h
  any-update q p a (x ∷ xs) (k, ks) h = elim (Bool-cases (p x)) [
    | inl t ↦ elim (Bool-cases (q x)) [
      | inl e ↦ rw (t, k t e) refl
      | inr e ↦
          rw t (
            or_later (q a) (any q (update_where p (λ _. a) xs))
              (any-update q p a xs ks (rw e at h)))
    ]
    | inr t ↦ elim (Bool-cases (q x)) [
      | inl e ↦ rw (t, e) refl
      | inr e ↦ rw (t, e) (any-update q p a xs ks (rw e at h))
    ]
  ]

  pub any-others :
      (p q : A → Bool) (xs : List A)
      → any (λ x. p x && q x) xs ≡ false
      → All (λ x. q x ≡ true → p x ≡ false) xs
  any-others p q [] h = tt
  any-others p q (x ∷ xs) h = (ground (arith, h), any-others p q xs (ground (arith, h)))

  pub All-delete_hit :
      (P Q : A → Type 0) (p : A → Bool) (xs : List A)
      → ((x : A) → p x ≡ false → P x → Q x)
      → All P xs
      → All Q (delete_where p xs)
  All-delete_hit P Q p [] k h = tt
  All-delete_hit P Q p (x ∷ xs) k (h, hs) = elim (Bool-cases (p x)) [
    | inl e ↦ rw e (All-delete_hit P Q p xs k hs)
    | inr e ↦ rw e (k x e h, All-delete_hit P Q p xs k hs)
  ]

-- every row with the id of the asset found is in its tenant
abbrev pub Owned : AssetKey → List AssetKey → Type 0
Owned a rows = All (λ (r : AssetKey). (r.id == a.id) ≡ true → r.tenant_id ≡ a.tenant_id) rows

pub others_Owned : (a : AssetKey) (rows : List AssetKey) → All (Apart a) rows → Owned a rows
others_Owned a [] h = tt
others_Owned a (r ∷ rows) (h, hs) =
    (λ found. absurd (true_not_false (sym found ∙ h.0)), others_Owned a rows hs)

pub other_id : (x a : AssetKey) → Apart x a → (x.id == a.id) ≡ false
other_id x a (h, _) = ground (arith, h)

pub first-Owned :
    (q : AssetKey → Bool) (rows : List AssetKey) {a : AssetKey}
    → Pairwise rows
    → first q rows ≡ some a
    → Owned a rows
first-Owned q [] u e = tt
first-Owned q (x ∷ rows) {a} (u, us) e = elim (Bool-cases (q x)) [
  | inl t ↦
      let same : x ≡ a = some-injective x a (rw t at e) in
      subst (λ (b : AssetKey). Owned b (x ∷ rows)) same (λ _. refl, others_Owned x rows u)
  | inr t ↦ (
    λ found.
        absurd
          (true_not_false (sym found ∙ other_id x a (first-All (Apart x) q rows u (rw t at e)))),
    first-Owned q rows {a = a} us (rw t at e),
  )
]

pub get_asset-Owned :
    (k : ℕ) (tenant : Option ℕ) (w : World) {a : AssetKey}
    → Pairwise (assets_of w)
    → get_asset k tenant w ≡ some a
    → Owned a (assets_of w)
unfolding get_asset
get_asset-Owned k tenant w {a} u e =
    first-Owned (λ a. a.id == k && visible_to tenant a) (assets_of w) {a = a} u e

-- what a patch leaves of the keys
abbrev pub Kept : AssetKey → AssetKey → Type 0
Kept a b = (b.id ≡ a.id) × (b.tenant_id ≡ a.tenant_id)

pub ok-Kept :
    (a : AssetKey) (x y : Draft)
    → Path (Result AssetError Draft) (ok x) (ok y)
    → Kept a x.0
    → Kept a y.0
ok-Kept a x y e h = subst (λ (d : Draft). Kept a d.0) (ok-injective x y e) h

pub take_type-Kept :
    (t : Option (Option String)) (a : AssetKey) (d : Draft) → take_type t a ≡ ok d → Kept a d.0
take_type-Kept none a d h = ok-Kept a (a, []) d h (refl, refl)
take_type-Kept (some none) a d h = absurd (err_not_ok (invalid unknown_asset_type) d h)
take_type-Kept (some (some t)) a d h = elim (Bool-cases (str_eq t a.asset_type)) [
  | inl e ↦ ok-Kept a (a, []) d (rw e at h) (refl, refl)
  | inr e ↦ ok-Kept a (record a { asset_type = t }, "type" ∷ []) d (rw e at h) (refl, refl)
]

pub take_value-Kept : (v : Text) (d : Draft) → Kept d.0 (take_value v d).0
unfolding take_value
take_value-Kept v (a, changed) = ground arith

pub announced-BothLinked :
    {A : Type 0} (env : Env) (event : Event) (x : A) (w : World)
    → BothLinked w
    → BothLinked (commit_and_announce env event x w).1
unfolding commit_and_announce
announced-BothLinked env event x w (old, new) = elim (Bool-cases env.commit_goes) [
  | inr c ↦ rw c (old, old)
  | inl c ↦ elim (Bool-cases env.publish_goes) [
    | inr p ↦ rw (c, p) (new, new)
    | inl p ↦ rw (c, p) (new, new)
  ]
]
