-- ===== src/Assets/Stored.antt =====
-- What app/modules/assets/service.py keeps in the table: values that the validation returns, in the
-- column's length, with distinct ids and no asset twice in a tenant.
use mathlib.Core.Path.{subst}
use soc360_pymes.Prelude.{
  ℕ, ◌≤◌, ◌≡◌, refl, sym, ap, ◌∙◌, String, true, Option, none, some, List, [], ◌∷◌, ◌++◌, All,
  All-append, Bool-cases, Option-cases, inl, inr, length, ◌==◌, any, and→both, ==→eq,
}
use soc360_pymes.Sql.{All-update_where, All-delete_where}
use soc360_pymes.Outcome.{Result, ok, err, >>=-ok, Result-cases, ok-injective, err_not_ok}
use soc360_pymes.Text.{codes_eq}
use soc360_pymes.Events.{Event, asset_updated, asset_deleted}
use soc360_pymes.Database.{
  AssetKey, World, Env, assets_of, set_assets, set_working, committed_assets,
}
use soc360_pymes.Assets.Values.{Text, Libraries, ValueError, validate_asset_value}
use soc360_pymes.Assets.Service.{
  invalid, integrity_error, AssetUpdate, Draft, flush_error, insert_asset_error, get_asset,
  checked_value, or_invalid, take_value, patch_value, settle_value, patched_asset, take_type,
  new_asset, asset_created_event, insert_asset, create_asset, store_asset, update_asset,
  without_asset, delete_asset, commit_and_announce,
}
use soc360_pymes.Assets.Distinct.{
  Apart, Pairwise, Free-Apart, some_not_none, flush-none, Pairwise-delete, Pairwise-append, put,
  Pairwise-put,
}

codes_eq-eq : (a b : Text) → codes_eq a b ≡ true → a ≡ b
unfolding codes_eq
codes_eq-eq [] [] h = refl
codes_eq-eq [] (y ∷ b) h = cc
codes_eq-eq (x ∷ a) [] h = cc
codes_eq-eq (x ∷ a) (y ∷ b) h =
    let (e, q) = and→both (x == y) (codes_eq a b) h in
    ap (λ n. n ∷ a) (==→eq x y e) ∙ ap (λ (c : Text). y ∷ c) (codes_eq-eq a b q)

or_invalid-ok : (r : Result ValueError Text) (text : Text) → or_invalid r ≡ ok text → r ≡ ok text
or_invalid-ok (ok x) text h = ap ok (ok-injective x text h)
or_invalid-ok (err e) text h = absurd (err_not_ok (invalid e) text h)

pub data Request : Type 0 where
  create : String → Text → ℕ → Request
  update : ℕ → Option ℕ → AssetUpdate → Request
  delete : ℕ → Option ℕ → Request

module _ (lib : Libraries) where
  -- The value is the answer of the validation for the type, and fits into the column.
  abbrev pub IsStored : AssetKey → Type 0
  IsStored a =
      (length a.value ≤ 255)
      × ((raw : Text) × (validate_asset_value lib a.asset_type raw ≡ ok a.value))

  abbrev pub Rows : List AssetKey → Type 0
  Rows rows = All IsStored rows × Pairwise rows

  checked_ok :
      (asset_type : String) (v text : Text)
      → checked_value lib asset_type v ≡ ok text
      → validate_asset_value lib asset_type v ≡ ok text
  unfolding checked_value
  checked_ok asset_type v text h = or_invalid-ok (validate_asset_value lib asset_type v) text h

  take_value-value :
      (v : Text) (d : Draft)
      → ((take_value v d).0.value ≡ v) × ((take_value v d).0.asset_type ≡ d.0.asset_type)
  unfolding take_value
  take_value-value v (a, changed) = elim (Bool-cases (codes_eq v a.value)) [
    | inl e ↦ rw e (sym (codes_eq-eq v a.value e), refl)
    | inr e ↦ rw e (refl, refl)
  ]

  settled :
      (d d' : Draft)
      → settle_value lib d ≡ ok d'
      → (raw : Text) × (validate_asset_value lib d'.0.asset_type raw ≡ ok d'.0.value)
  unfolding settle_value
  settled d d' h =
      let (canonical, e, q) = >>=-ok (checked_value lib d.0.asset_type d.0.value) _ h in
      let (same, kind) = take_value-value canonical d in
      let valid = checked_ok d.0.asset_type d.0.value canonical e in
      subst
        (λ (x : Draft). (raw : Text) × (validate_asset_value lib x.0.asset_type raw ≡ ok x.0.value))
        (ok-injective (take_value canonical d) d' q) (d.0.value, rw (kind, same) valid)

  patched-valid :
      (p : AssetUpdate) (a : AssetKey) (d : Draft)
      → patched_asset lib p a ≡ ok d
      → (raw : Text) × (validate_asset_value lib d.0.asset_type raw ≡ ok d.0.value)
  unfolding patched_asset
  patched-valid p a d h =
      let (x, _, e) = >>=-ok (take_type p.asset_type a) _ h in
      let (y, _, q) = >>=-ok (patch_value lib p.value x) _ e in settled y d q

  -- Both what is committed and what the transaction sees.
  abbrev pub BothRows : World → Type 0
  BothRows w = Rows (committed_assets w) × Rows (assets_of w)

  commit_and_announce-BothRows :
      {A : Type 0} (env : Env) (event : Event) (x : A) (w : World)
      → BothRows w
      → BothRows (commit_and_announce env event x w).1
  unfolding commit_and_announce
  commit_and_announce-BothRows env event x w (old, new) = elim (Bool-cases env.commit_goes) [
    | inr c ↦ rw c (old, old)
    | inl c ↦ elim (Bool-cases env.publish_goes) [
      | inr p ↦ rw (c, p) (new, new)
      | inl p ↦ rw (c, p) (new, new)
    ]
  ]

  insert-none :
      (a : AssetKey) (w : World)
      → insert_asset_error a w ≡ none
      → (length a.value ≤ 255) × All (λ r. Apart r a) (assets_of w)
  unfolding insert_asset_error
  insert-none a w h = elim (Bool-cases (any (λ (r : AssetKey). r.id == a.id) (assets_of w))) [
    | inl e ↦ absurd (some_not_none integrity_error (rw (e, insert_asset_error) at h))
    | inr e ↦ elim (Option-cases (flush_error a (assets_of w))) [
      | inr (x, q) ↦ absurd (some_not_none x (rw (e, q, insert_asset_error) at h))
      | inl q ↦
          let (short, free) = flush-none a (assets_of w) q in
          (short, Free-Apart a (assets_of w) e free)
    ]
  ]

  insert_asset-BothRows :
      (env : Env) (a : AssetKey) (w : World)
      → ((raw : Text) × (validate_asset_value lib a.asset_type raw ≡ ok a.value))
      → BothRows w
      → BothRows (insert_asset lib env a w).1
  unfolding insert_asset
  insert_asset-BothRows env a w valid (old, (rows, apart)) =
      elim (Option-cases (insert_asset_error a w)) [
        | inr (x, e) ↦ rw (e, insert_asset) (old, (rows, apart))
        | inl e ↦
            let (short, other) = insert-none a w e in
            rw (e, insert_asset)
              (commit_and_announce-BothRows env (asset_created_event lib a) a
                (set_assets w (assets_of w ++ a ∷ []))
                (
                  old,
                  (
                    All-append IsStored (assets_of w) (a ∷ []) rows ((short, valid), tt),
                    Pairwise-append a (assets_of w) apart other,
                  ),
                ))
      ]

  create_asset-BothRows :
      (env : Env) (asset_type : String) (value : Text) (tenant : ℕ) (w : World)
      → BothRows w
      → BothRows (create_asset lib env asset_type value tenant w).1
  unfolding create_asset
  create_asset-BothRows env asset_type value tenant w h =
      elim (Result-cases (checked_value lib asset_type value)) [
        | inr (x, e) ↦ rw (e, create_asset) h
        | inl (canonical, e) ↦
            rw (e, create_asset)
              (insert_asset-BothRows env (new_asset lib env tenant asset_type canonical) w
                (value, checked_ok asset_type value canonical e) h)
      ]

  store_asset-BothRows :
      (env : Env) (a : AssetKey) (changed : List String) (w : World)
      → ((raw : Text) × (validate_asset_value lib a.asset_type raw ≡ ok a.value))
      → BothRows w
      → BothRows (store_asset lib env a changed w).1
  unfolding store_asset
  store_asset-BothRows env a changed w valid (old, (rows, apart)) =
      elim (Option-cases (flush_error a (assets_of w))) [
        | inr (x, e) ↦ rw (e, store_asset) (old, (rows, apart))
        | inl e ↦
            let (short, free) = flush-none a (assets_of w) e in
            rw (e, store_asset)
              (commit_and_announce-BothRows env (asset_updated a.tenant_id a.id changed) (some a)
                (set_assets w (put a (assets_of w)))
                (
                  old,
                  (
                    All-update_where IsStored (λ (r : AssetKey). r.id == a.id) (λ _. a)
                        (λ _ _ _. (short, valid)) (assets_of w) rows,
                    Pairwise-put a (assets_of w) apart free,
                  ),
                ))
      ]

  update_asset-BothRows :
      (env : Env) (k : ℕ) (tenant : Option ℕ) (p : AssetUpdate) (w : World)
      → BothRows w
      → BothRows (update_asset lib env k tenant p w).1
  unfolding update_asset
  update_asset-BothRows env k tenant p w h = elim (Option-cases (get_asset k tenant w)) [
    | inl e ↦ rw (e, update_asset) h
    | inr (a, e) ↦ elim (Result-cases (patched_asset lib p a)) [
      | inr (x, q) ↦ rw (e, q, update_asset) h
      | inl (d, q) ↦
          rw (e, q, update_asset) (store_asset-BothRows env d.0 d.1 w (patched-valid p a d q) h)
    ]
  ]

  delete_asset-BothRows :
      (env : Env) (k : ℕ) (tenant : Option ℕ) (w : World)
      → BothRows w
      → BothRows (delete_asset env k tenant w).1
  unfolding delete_asset without_asset
  delete_asset-BothRows env k tenant w (old, (rows, apart)) =
      elim (Option-cases (get_asset k tenant w)) [
        | inl e ↦ rw (e, delete_asset) (old, (rows, apart))
        | inr (a, e) ↦
            rw (e, delete_asset)
              (commit_and_announce-BothRows env (asset_deleted a.tenant_id a.id) true
                (set_working w (without_asset a w.session.working))
                (
                  old,
                  (
                    All-delete_where IsStored (λ (r : AssetKey). r.id == a.id) (assets_of w) rows,
                    Pairwise-delete (λ (r : AssetKey). r.id == a.id) (assets_of w) apart,
                  ),
                ))
      ]

  -- The calls that write assets, each with what it does not decide.
  abbrev pub call : Env × Request → World → World
  call (env, create asset_type value tenant) w = (create_asset lib env asset_type value tenant w).1
  call (env, update k tenant p) w = (update_asset lib env k tenant p w).1
  call (env, delete k tenant) w = (delete_asset env k tenant w).1

  abbrev pub calls : List (Env × Request) → World → World
  calls [] w = w
  calls (c ∷ cs) w = calls cs (call c w)

  pub call-BothRows : (c : Env × Request) (w : World) → BothRows w → BothRows (call c w)
  call-BothRows (env, create asset_type value tenant) w h =
      create_asset-BothRows env asset_type value tenant w h
  call-BothRows (env, update k tenant p) w h = update_asset-BothRows env k tenant p w h
  call-BothRows (env, delete k tenant) w h = delete_asset-BothRows env k tenant w h

  -- Whatever assets are created, updated and deleted, and whether or not the commits and the publishing go
  -- through: every asset holds an answer of the validation for its type, of at most 255 characters, the
  -- ids are distinct, and no two assets of a tenant have the same type and value, if that is so before
  -- of what is committed and of what the transaction sees.
  pub calls-BothRows : (cs : List (Env × Request)) (w : World) → BothRows w → BothRows (calls cs w)
  calls-BothRows [] w h = h
  calls-BothRows (c ∷ cs) w h = calls-BothRows cs (call c w) (call-BothRows c w h)
