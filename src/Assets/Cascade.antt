-- ===== src/Assets/Cascade.antt =====
-- The foreign keys of scans and findings under the calls of app/modules/assets/service.py: no call leaves
-- a scan without its asset, or a finding without its scan.
use mathlib.Core.Path.{subst}
use soc360_pymes.Prelude.{
  ℕ, ◌≡◌, refl, ◌∙◌, String, true, false, Option, none, some, List, [], ◌∷◌, ◌++◌, All,
  All-map_impl, arith, Option-cases, inl, inr, ◌==◌, any,
}
use soc360_pymes.Sql.{update_where, delete_where}
use soc360_pymes.Outcome.{ok, >>=-ok, Result-cases, ok-injective, err_not_ok}
use soc360_pymes.Events.{asset_updated, asset_deleted}
use soc360_pymes.Database.{Scan, AssetKey, Db, World, Env, assets_of, set_assets, set_working}
use soc360_pymes.Assets.Values.{Text, Libraries}
use soc360_pymes.Assets.Service.{
  validate_null, AssetUpdate, Draft, get_asset, flush_error, insert_asset_error, checked_value,
  take_value, patch_value, settle_value, patched_asset, take_type, new_asset, asset_created_event,
  insert_asset, create_asset, store_asset, update_asset, scan_of, finding_of, without_asset,
  delete_asset,
}
use soc360_pymes.Assets.Distinct.{Pairwise}
use soc360_pymes.Assets.Stored.{
  Request, create, update, delete, BothRows, call, calls, call-BothRows,
}
use soc360_pymes.Assets.Links.{
  is_asset_of, is_scan_of, Linked, BothLinked, any-append, any-delete, any-update, any-others,
  All-delete_hit, Owned, get_asset-Owned, Kept, ok-Kept, take_type-Kept, take_value-Kept,
  announced-BothLinked,
}

module _ (lib : Libraries) where
  patch_value-Kept :
      (v : Option (Option Text)) (d d' : Draft) → patch_value lib v d ≡ ok d' → Kept d.0 d'.0
  unfolding patch_value
  patch_value-Kept none d d' h = ok-Kept d.0 d d' h (refl, refl)
  patch_value-Kept (some none) d d' h = absurd (err_not_ok (validate_null d.0.asset_type) d' h)
  patch_value-Kept (some (some v)) d d' h =
      let (canonical, _, e) = >>=-ok (checked_value lib d.0.asset_type v) _ h in
      subst (λ (x : Draft). Kept d.0 x.0) (ok-injective (take_value canonical d) d' e)
        (take_value-Kept canonical d)

  settle_value-Kept : (d d' : Draft) → settle_value lib d ≡ ok d' → Kept d.0 d'.0
  unfolding settle_value
  settle_value-Kept d d' h =
      let (canonical, _, e) = >>=-ok (checked_value lib d.0.asset_type d.0.value) _ h in
      subst (λ (x : Draft). Kept d.0 x.0) (ok-injective (take_value canonical d) d' e)
        (take_value-Kept canonical d)

  patched_asset-Kept :
      (p : AssetUpdate) (a : AssetKey) (d : Draft) → patched_asset lib p a ≡ ok d → Kept a d.0
  unfolding patched_asset
  patched_asset-Kept p a d h =
      let (x, e₁, h₁) = >>=-ok (take_type p.asset_type a) _ h in
      let (y, e₂, h₂) = >>=-ok (patch_value lib p.value x) _ h₁ in
      let (i, t) = take_type-Kept p.asset_type a x e₁ in
      let (j, u) = patch_value-Kept p.value x y e₂ in
      let (k, v) = settle_value-Kept y d h₂ in (k ∙ j ∙ i, v ∙ u ∙ t)

  insert_asset-BothLinked :
      (env : Env) (a : AssetKey) (w : World)
      → BothLinked w
      → BothLinked (insert_asset lib env a w).1
  unfolding insert_asset
  insert_asset-BothLinked env a w (old, (scans, findings)) =
      elim (Option-cases (insert_asset_error a w)) [
        | inr (x, e) ↦ rw (e, insert_asset) (old, (scans, findings))
        | inl e ↦
            rw (e, insert_asset)
              (announced-BothLinked env (asset_created_event lib a) a
                (set_assets w (assets_of w ++ a ∷ []))
                (
                  old,
                  (
                    All-map_impl (λ s. any (is_asset_of s) (assets_of w) ≡ true)
                        (λ s. any (is_asset_of s) (assets_of w ++ a ∷ []) ≡ true)
                        (λ s h. any-append (is_asset_of s) (assets_of w) (a ∷ []) h)
                        w.session.working.scans scans,
                    findings,
                  ),
                ))
      ]

  create_asset-BothLinked :
      (env : Env) (asset_type : String) (value : Text) (tenant : ℕ) (w : World)
      → BothLinked w
      → BothLinked (create_asset lib env asset_type value tenant w).1
  unfolding create_asset
  create_asset-BothLinked env asset_type value tenant w h =
      elim (Result-cases (checked_value lib asset_type value)) [
        | inr (x, e) ↦ rw (e, create_asset) h
        | inl (canonical, e) ↦
            rw (e, create_asset)
              (insert_asset-BothLinked env (new_asset lib env tenant asset_type canonical) w h)
      ]

  -- the new row has the links of the one in whose place it stands
  still_linked :
      (a b : AssetKey) (s : Scan) (rows : List AssetKey)
      → Kept a b
      → Owned a rows
      → All (λ r. (r.id == b.id) ≡ true → is_asset_of s r ≡ true → is_asset_of s b ≡ true) rows
  still_linked a b s rows (i, t) owned =
      All-map_impl (λ (r : AssetKey). (r.id == a.id) ≡ true → r.tenant_id ≡ a.tenant_id)
        (λ r. (r.id == b.id) ≡ true → is_asset_of s r ≡ true → is_asset_of s b ≡ true)
        (λ r h same linked. ground (arith, h, same, linked, i, t)) rows owned

  store_asset-BothLinked :
      (env : Env) (a b : AssetKey) (changed : List String) (w : World)
      → Kept a b
      → Owned a (assets_of w)
      → BothLinked w
      → BothLinked (store_asset lib env b changed w).1
  unfolding store_asset
  store_asset-BothLinked env a b changed w kept owned (old, (scans, findings)) =
      elim (Option-cases (flush_error b (assets_of w))) [
        | inr (x, e) ↦ rw (e, store_asset) (old, (scans, findings))
        | inl e ↦
            let rows = update_where (λ (r : AssetKey). r.id == b.id) (λ _. b) (assets_of w) in
            rw (e, store_asset)
              (announced-BothLinked env (asset_updated b.tenant_id b.id changed) (some b)
                (set_assets w rows)
                (
                  old,
                  (
                    All-map_impl (λ s. any (is_asset_of s) (assets_of w) ≡ true)
                        (λ s. any (is_asset_of s) rows ≡ true)
                        (λ s h.
                          any-update (is_asset_of s) (λ (r : AssetKey). r.id == b.id) b
                            (assets_of w) (still_linked a b s (assets_of w) kept owned) h)
                        w.session.working.scans scans,
                    findings,
                  ),
                ))
      ]

  update_asset-BothLinked :
      (env : Env) (k : ℕ) (tenant : Option ℕ) (p : AssetUpdate) (w : World)
      → Pairwise (assets_of w)
      → BothLinked w
      → BothLinked (update_asset lib env k tenant p w).1
  unfolding update_asset
  update_asset-BothLinked env k tenant p w u h = elim (Option-cases (get_asset k tenant w)) [
    | inl e ↦ rw (e, update_asset) h
    | inr (a, e) ↦ elim (Result-cases (patched_asset lib p a)) [
      | inr (x, q) ↦ rw (e, q, update_asset) h
      | inl (d, q) ↦
          rw (e, q, update_asset)
            (store_asset-BothLinked env a d.0 d.1 w (patched_asset-Kept p a d q)
              (get_asset-Owned k tenant w u e) h)
    ]
  ]

kept_asset :
    (a : AssetKey) (s : Scan) (r : AssetKey)
    → scan_of a s ≡ false
    → ((r.id == a.id) ≡ true → r.tenant_id ≡ a.tenant_id)
    → is_asset_of s r ≡ true
    → (r.id == a.id) ≡ false
unfolding scan_of
kept_asset a s r kept owned mine = ground (arith, kept, owned, mine)

-- The cascade removes what would be left over.
without_asset-Linked :
    (a : AssetKey) (db : Db) → Owned a db.assets → Linked db → Linked (without_asset a db)
unfolding without_asset finding_of
without_asset-Linked a db owned (scans, findings) = (
  All-delete_hit (λ s. any (is_asset_of s) db.assets ≡ true)
      (λ s. any (is_asset_of s) (delete_where (λ (r : AssetKey). r.id == a.id) db.assets) ≡ true)
      (scan_of a) db.scans
      (λ s kept linked.
        any-delete (is_asset_of s) (λ (r : AssetKey). r.id == a.id) db.assets
          (All-map_impl (λ (r : AssetKey). (r.id == a.id) ≡ true → r.tenant_id ≡ a.tenant_id)
            (λ r. is_asset_of s r ≡ true → (r.id == a.id) ≡ false)
            (λ r h mine. kept_asset a s r kept h mine) db.assets owned)
          linked)
      scans,
  All-delete_hit (λ v. any (is_scan_of v) db.scans ≡ true)
      (λ v. any (is_scan_of v) (delete_where (scan_of a) db.scans) ≡ true) (finding_of a db.scans)
      db.vulnerabilities
      (λ v kept linked.
        any-delete (is_scan_of v) (scan_of a) db.scans
          (any-others (scan_of a) (is_scan_of v) db.scans kept) linked)
      findings,
)

delete_asset-BothLinked :
    (env : Env) (k : ℕ) (tenant : Option ℕ) (w : World)
    → Pairwise (assets_of w)
    → BothLinked w
    → BothLinked (delete_asset env k tenant w).1
unfolding delete_asset
delete_asset-BothLinked env k tenant w u (old, new) = elim (Option-cases (get_asset k tenant w)) [
  | inl e ↦ rw (e, delete_asset) (old, new)
  | inr (a, e) ↦
      rw (e, delete_asset)
        (announced-BothLinked env (asset_deleted a.tenant_id a.id) true
          (set_working w (without_asset a w.session.working))
          (old, without_asset-Linked a w.session.working (get_asset-Owned k tenant w u e) new))
]

module _ (lib : Libraries) where
  call-BothLinked :
      (c : Env × Request) (w : World) → BothRows lib w → BothLinked w → BothLinked (call lib c w)
  call-BothLinked (env, create asset_type value tenant) w u h =
      create_asset-BothLinked lib env asset_type value tenant w h
  call-BothLinked (env, update k tenant p) w u h =
      update_asset-BothLinked lib env k tenant p w u.1.1 h
  call-BothLinked (env, delete k tenant) w u h = delete_asset-BothLinked env k tenant w u.1.1 h

  -- Whatever assets are created, updated and deleted, and whether or not the commits and the publishing go
  -- through, every scan has its asset in its tenant and every finding its scan, if that is so before and
  -- the assets are stored as the service keeps them.
  pub calls-BothLinked :
      (cs : List (Env × Request)) (w : World)
      → BothRows lib w
      → BothLinked w
      → BothLinked (calls lib cs w)
  calls-BothLinked [] w u h = h
  calls-BothLinked (c ∷ cs) w u h =
      calls-BothLinked cs (call lib c w) (call-BothRows lib c w u) (call-BothLinked c w u h)
