-- ===== src/Scans/Tenancy.antt =====
-- Tenant isolation of every writing call of app/modules/scans/service.py.
use soc360_pymes.Prelude.{
  ℕ, ◌≡◌, refl, ap, ◌∙◌, ◌⊎◌, inl, inr, not, some, [], ◌∷◌, ◌++◌, arith, ◌==◌, Option-cases,
  ==_refl,
}
use soc360_pymes.Sql.{update_where, select-append_none}
use soc360_pymes.Outcome.{Result-cases}
use soc360_pymes.Json.{object, Fields}
use soc360_pymes.Database.{Scan, World, Env, scans_of, committed_scans}
use soc360_pymes.Scans.Config.{validate_scan_config}
use soc360_pymes.Scans.State.Outcomes.{UniqueIds}
use soc360_pymes.Scans.Service.{get_scan, cancel_scan, dispatch_scan, delete_scan, publish}
use soc360_pymes.Scans.Service.Isolation.{
  foreign, IsFresh, KeepsForeign, KeepsForeign-same, KeepsForeign-working, foreign-update, found_id,
  id_test, delete_scan-KeepsForeign, cancel_scan-KeepsForeign, dispatch_scan-KeepsForeign,
}
use soc360_pymes.Scans.Authoring.{
  ScanCreate, ScanPatch, create_scan, update_scan, insert_scan, new_scan, store_patch, patched,
  effective_config,
}

patched-tenant : (p : ScanPatch) (n : Fields) (r : Scan) → (patched p n r).tenant_id ≡ r.tenant_id
unfolding patched
patched-tenant p n r = refl

insert_committed :
    (env : Env) (r : Scan) (w : World)
    → (committed_scans (insert_scan env r w).1 ≡ committed_scans w)
      ⊎ (committed_scans (insert_scan env r w).1 ≡ scans_of w ++ r ∷ [])
unfolding insert_scan publish
insert_committed env r w = ground arith

store_committed :
    (env : Env) (p : ScanPatch) (n : Fields) (r : Scan) (w : World)
    → (committed_scans (store_patch env p n r w).1 ≡ committed_scans w)
      ⊎ (committed_scans (store_patch env p n r w).1
          ≡ update_where (λ q. q.id == r.id) (patched p n) (scans_of w))
unfolding store_patch publish
store_committed env p n r w = ground arith

module _ (t : ℕ) (w : World) (fresh : IsFresh w) (env : Env) where
  create_scan-KeepsForeign : (d : ScanCreate) → KeepsForeign t w (create_scan env d t w).1
  unfolding create_scan
  create_scan-KeepsForeign d =
      elim (Result-cases (validate_scan_config d.scan_type (object d.config))) [
        | inr (x, e) ↦ rw (e, create_scan) (KeepsForeign-same t w fresh w refl)
        | inl (n, e) ↦
            let r : Scan = new_scan env t d n in
            rw (e, create_scan)
              (elim (insert_committed env r w) [
                | inl same ↦ KeepsForeign-same t w fresh (insert_scan env r w).1 same
                | inr added ↦ KeepsForeign-working t w fresh (insert_scan env r w).1 (
                    ap (foreign t) added
                    ∙ select-append_none (λ q. not (q.tenant_id == t)) (scans_of w) r
                        (ap not (==_refl t)))
              ])
      ]

  update_scan-KeepsForeign :
      (scan_id : ℕ) (p : ScanPatch)
      → UniqueIds (scans_of w)
      → KeepsForeign t w (update_scan env scan_id (some t) p w).1
  unfolding update_scan get_scan
  update_scan-KeepsForeign scan_id p u = elim (Option-cases (get_scan scan_id (some t) w)) [
    | inl e ↦ rw (e, update_scan) (KeepsForeign-same t w fresh w refl)
    | inr (r, e) ↦ elim (Result-cases (effective_config p r)) [
      | inr (x, g) ↦ rw (e, update_scan, g) (KeepsForeign-same t w fresh w refl)
      | inl (n, g) ↦
          rw (e, update_scan, g)
            (elim (store_committed env p n r w) [
              | inl same ↦ KeepsForeign-same t w fresh (store_patch env p n r w).1 same
              | inr moved ↦ KeepsForeign-working t w fresh (store_patch env p n r w).1 (
                  ap (foreign t) moved
                  ∙ foreign-update t scan_id (scans_of w) u e (λ a. a.id == r.id) (patched p n)
                      (λ a h. id_test a.id r.id h scan_id (found_id t w fresh env scan_id u e))
                      (patched-tenant p n))
            ])
    ]
  ]

-- The writing calls of the service.
pub data Request : Type 0 where
  create : ScanCreate → Request
  update : ℕ → ScanPatch → Request
  cancel dispatch delete : ℕ → Request

-- the world after a call for one tenant
unfoldable pub handle : Env → ℕ → Request → World → World
handle env t (create d) w = (create_scan env d t w).1
handle env t (update scan_id p) w = (update_scan env scan_id (some t) p w).1
handle env t (cancel scan_id) w = (cancel_scan env scan_id (some t) w).1
handle env t (dispatch scan_id) w = (dispatch_scan env scan_id (some t) w).1
handle env t (delete scan_id) w = (delete_scan env scan_id (some t) w).1

-- Whatever a caller of one tenant asks for, and whether or not the commit and the publishing go
-- through, the committed scans of the other tenants are the same rows in the same order. The call
-- begins in a fresh transaction, over ids that name one row each.
pub handle-KeepsForeign :
    (env : Env) (t : ℕ) (request : Request) (w : World)
    → IsFresh w
    → UniqueIds (scans_of w)
    → foreign t (committed_scans (handle env t request w)) ≡ foreign t (committed_scans w)
unfolding handle
handle-KeepsForeign env t (create d) w fresh u = create_scan-KeepsForeign t w fresh env d
handle-KeepsForeign env t (update scan_id p) w fresh u =
    update_scan-KeepsForeign t w fresh env scan_id p u
handle-KeepsForeign env t (cancel scan_id) w fresh u =
    cancel_scan-KeepsForeign t w fresh env scan_id u
handle-KeepsForeign env t (dispatch scan_id) w fresh u =
    dispatch_scan-KeepsForeign t w fresh env scan_id u
handle-KeepsForeign env t (delete scan_id) w fresh u =
    delete_scan-KeepsForeign t w fresh env scan_id u
