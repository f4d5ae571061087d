-- ===== src/Scans/Service/Spent.antt =====
-- The rows that a dispatch passes over, under each writing call of app/modules/scans/service.py.
use soc360_pymes.Prelude.{
  ℕ, ◌≢◌, inl, inr, Bool, true, false, Option, none, some, [], ◌∷◌, ◌++◌, if◌then◌else◌, ◌==◌, ltb,
  is_empty, All-append, Bool-cases, Option-cases,
}
use soc360_pymes.Sql.{update_where, count_where, All-update_where, All-delete_where}
use soc360_pymes.Outcome.{ok, err, Result, Result-cases}
use soc360_pymes.Events.{Event, scan_created, scan_updated}
use soc360_pymes.Json.{object, Fields}
use soc360_pymes.Database.{Scan, Session, World, Env, scans_of, set_scans}
use soc360_pymes.Scans.Config.{validate_scan_config}
use soc360_pymes.Scans.State.{StateError, transition_scan}
use soc360_pymes.Scans.Service.{
  Reply, commit_failed, get_scan, cancel_scan, finish_cancel, dispatch_scan, delete_scan, publish,
  committed, rolled_back, is_dispatchable, dispatch_now, mark_dispatched, reserve, without_scan,
  counts_today,
}
use soc360_pymes.Scans.Service.Quota.{quota_of}
use soc360_pymes.Scans.Authoring.{
  ScanCreate, ScanPatch, create_scan, update_scan, insert_scan, insert_violation, new_scan,
  store_patch, patched, update_violation, effective_config, changed_fields,
}
use soc360_pymes.Scans.Service.Used.{
  Used, AllUsed, other_id-Used, patched-Used, dispatch_now-Used, transition_scan-AllUsed,
}

module _ (k : ℕ) where
  -- the calls of the service
  pub publish-AllUsed :
      {A : Type 0} (env : Env) (e : Event) (a : A) (w : World)
      → AllUsed k w.session
      → AllUsed k (publish env e a w).1.session
  unfolding publish
  publish-AllUsed env e a w h = elim (Bool-cases env.publish_goes) [
    | inl g ↦ rw (publish, g) h
    | inr g ↦ rw (publish, g) h
  ]

  -- a commit that goes through, or the rollback
  pub settled-AllUsed :
      {A : Type 0} (goes : Bool) (x y : Reply A)
      → AllUsed k x.1.session
      → AllUsed k y.1.session
      → AllUsed k (if goes then x else y).1.session
  settled-AllUsed true x y h k = h
  settled-AllUsed false x y h k = k

  pub insert_scan-AllUsed :
      (env : Env) (r : Scan) (w : World)
      → Used k r
      → AllUsed k w.session
      → AllUsed k (insert_scan env r w).1.session
  unfolding insert_scan
  insert_scan-AllUsed env r w new h = elim (Option-cases (insert_violation r w)) [
    | inr (v, e) ↦ rw (insert_scan, e) h
    | inl e ↦
        let rows = All-append (Used k) (scans_of w) (r ∷ []) h.0 (new, tt) in
        let w' : World = set_scans w (scans_of w ++ r ∷ []) in
        rw (insert_scan, e)
          (settled-AllUsed env.commit_goes
            (publish env (scan_created r.tenant_id r.id r.asset_id r.name r.scan_type r.created_at)
              r (committed w'))
            (err commit_failed, rolled_back w')
            (publish-AllUsed env
              (scan_created r.tenant_id r.id r.asset_id r.name r.scan_type r.created_at) r
              (committed w') (rows, rows))
            (h.1, h.1))
  ]

  pub create_scan-AllUsed :
      (env : Env) (d : ScanCreate) (tenant : ℕ) (w : World)
      → env.fresh_id ≢ k
      → AllUsed k w.session
      → AllUsed k (create_scan env d tenant w).1.session
  unfolding create_scan
  create_scan-AllUsed env d tenant w new h =
      elim (Result-cases (validate_scan_config d.scan_type (object d.config))) [
        | inr (x, e) ↦ rw (e, create_scan) h
        | inl (n, e) ↦
            let r : Scan = new_scan env tenant d n in
            rw (e, create_scan) (insert_scan-AllUsed env r w (other_id-Used k r new) h)
      ]

  pub store_patch-AllUsed :
      (env : Env) (p : ScanPatch) (n : Fields) (r : Scan) (w : World)
      → AllUsed k w.session
      → AllUsed k (store_patch env p n r w).1.session
  unfolding store_patch
  store_patch-AllUsed env p n r w h =
      let new : Scan = patched p n r in
      elim (Option-cases (update_violation p new w)) [
        | inr (v, e) ↦ rw (store_patch, e) h
        | inl e ↦
            let w' : World =
              set_scans w (update_where (λ q. q.id == r.id) (patched p n) (scans_of w)) in
            let event = scan_updated new.tenant_id new.id (changed_fields p n r) in
            let rows =
              All-update_where (Used k) (λ q. q.id == r.id) (patched p n)
                (λ a _ u. patched-Used k p n a u) (scans_of w) h.0 in
            let said : Reply (Option Scan) =
              if is_empty (changed_fields p n r)
              then (ok (some new), committed w')
              else publish env event (some new) (committed w') in
            rw (store_patch, e)
              (settled-AllUsed env.commit_goes said (err commit_failed, rolled_back w')
                (settled-AllUsed (is_empty (changed_fields p n r)) (ok (some new), committed w')
                  (publish env event (some new) (committed w')) (rows, rows)
                  (publish-AllUsed env event (some new) (committed w') (rows, rows)))
                (h.1, h.1))
      ]

  pub update_scan-AllUsed :
      (env : Env) (scan_id : ℕ) (tenant : Option ℕ) (p : ScanPatch) (w : World)
      → AllUsed k w.session
      → AllUsed k (update_scan env scan_id tenant p w).1.session
  unfolding update_scan
  update_scan-AllUsed env scan_id tenant p w h = elim (Option-cases (get_scan scan_id tenant w)) [
    | inl e ↦ rw (e, update_scan) h
    | inr (r, e) ↦ elim (Result-cases (effective_config p r)) [
      | inr (x, g) ↦ rw (e, update_scan, g) h
      | inl (n, g) ↦ rw (e, update_scan, g) (store_patch-AllUsed env p n r w h)
    ]
  ]

  pub finish_cancel-AllUsed :
      (env : Env) (r : Scan) (x : Result StateError Bool × Session) (w : World)
      → AllUsed k x.1
      → AllUsed k (finish_cancel env r x w).1.session
  unfolding finish_cancel
  finish_cancel-AllUsed env r (err e, s) w h = h
  finish_cancel-AllUsed env r (ok false, s) w h = (h.1, h.1)
  finish_cancel-AllUsed env r (ok true, s) w h = elim (Bool-cases env.commit_goes) [
    | inl g ↦ rw (finish_cancel, g) (h.0, h.0)
    | inr g ↦ rw (finish_cancel, g) (h.1, h.1)
  ]

  pub cancel_scan-AllUsed :
      (env : Env) (scan_id : ℕ) (tenant : Option ℕ) (w : World)
      → AllUsed k w.session
      → AllUsed k (cancel_scan env scan_id tenant w).1.session
  unfolding cancel_scan
  cancel_scan-AllUsed env scan_id tenant w h = elim (Option-cases (get_scan scan_id tenant w)) [
    | inl e ↦ rw (e, cancel_scan) h
    | inr (r, e) ↦
        rw (e, cancel_scan)
          (finish_cancel-AllUsed env r
            (transition_scan scan_id "cancelled" none none false env.now w.session) w
            (transition_scan-AllUsed k scan_id "cancelled" none none false env.now w.session h))
  ]

  pub reserve-AllUsed :
      (env : Env) (r : Scan) (limit : ℕ) (w : World)
      → AllUsed k w.session
      → AllUsed k (reserve env r limit w).1.session
  unfolding reserve mark_dispatched
  reserve-AllUsed env r limit w h =
      let rows =
        All-update_where (Used k) (is_dispatchable r.id) (dispatch_now env.now)
          (λ a _ _. dispatch_now-Used k env.now a) (scans_of w) h.0 in
      elim (Bool-cases (count_where (is_dispatchable r.id) (scans_of w) == 0)) [
        | inl e ↦ rw (reserve, e) (h.1, h.1)
        | inr e ↦
            elim (Bool-cases (
              ltb limit (
                count_where (counts_today env.now r.tenant_id)
                  (scans_of (mark_dispatched r.id env.now w))))) [
                    | inl f ↦ rw (reserve, e, f) (h.1, h.1)
                    | inr f ↦ elim (Bool-cases env.commit_goes) [
                      | inl g ↦ rw (reserve, e, f, g) (rows, rows)
                      | inr g ↦ rw (reserve, e, f, g) (h.1, h.1)
                    ]
                  ]
      ]

  pub dispatch_scan-AllUsed :
      (env : Env) (scan_id : ℕ) (tenant : Option ℕ) (w : World)
      → AllUsed k w.session
      → AllUsed k (dispatch_scan env scan_id tenant w).1.session
  unfolding dispatch_scan
  dispatch_scan-AllUsed env scan_id tenant w h = elim (Option-cases (get_scan scan_id tenant w)) [
    | inl e ↦ rw (e, dispatch_scan) h
    | inr (r, e) ↦ elim (Option-cases (quota_of r.tenant_id w)) [
      | inl n ↦ rw (e, dispatch_scan, n) h
      | inr (q, n) ↦ rw (e, dispatch_scan, n) (reserve-AllUsed env r q.scans_per_day w h)
    ]
  ]

  pub delete_scan-AllUsed :
      (env : Env) (scan_id : ℕ) (tenant : Option ℕ) (w : World)
      → AllUsed k w.session
      → AllUsed k (delete_scan env scan_id tenant w).1.session
  unfolding delete_scan without_scan
  delete_scan-AllUsed env scan_id tenant w h = elim (Option-cases (get_scan scan_id tenant w)) [
    | inl e ↦ rw (e, delete_scan) h
    | inr (r, e) ↦
        let rows = All-delete_where (Used k) (λ a. a.id == r.id) (scans_of w) h.0 in
        elim (Bool-cases env.commit_goes) [
          | inl g ↦ rw (e, delete_scan, g) (publish-AllUsed env _ true _ (rows, rows))
          | inr g ↦ rw (e, delete_scan, g) (h.1, h.1)
        ]
  ]
