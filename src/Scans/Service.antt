-- ===== src/Scans/Service.antt =====
-- The functions of app/modules/scans/service.py over a session and the event stream. A raise comes
-- back beside the world that it leaves; `rolled_back` is what the request's session does on it.
pub mod Isolation
pub mod Quota
pub mod Used
pub mod Spent
pub mod Once
use soc360_pymes.Prelude.{
  ℕ, ◌+◌, ◌-◌, ◌%◌, String, Bool, true, false, not, ◌&&◌, ◌||◌, Option, none, some, List, [], ◌∷◌,
  ◌++◌, if◌then◌else◌, str_eq, ltb, leb, ◌==◌, any, is_some, is_none, is_empty,
}
use soc360_pymes.Sql.{first, select, count_where, update_where, delete_where}
use soc360_pymes.Outcome.{Result, ok, err}
use soc360_pymes.Events.{Event, scan_created, scan_updated, scan_deleted}
use soc360_pymes.Json.{Value, object, null, Fields, value_eq}
use soc360_pymes.Database.{
  Scan, Db, Session, World, Env, commit, rollback, scans_of, set_scans, vulnerabilities_of,
  set_vulnerabilities, TenantQuota,
}
use soc360_pymes.Scans.Status.{ScanStatus, pending, failed, cancelled, status_eq}
use soc360_pymes.Scans.State.{transition_scan, StateError}
use soc360_pymes.Scans.Config.{ConfigError, unknown_scan_type, validate_scan_config}

pub data ServiceError : Type 0 where
  config_error : ConfigError → ServiceError
  state_error : StateError → ServiceError
  scan_duplicate scan_asset_not_found scan_not_cancellable scan_not_dispatchable : ServiceError
  scan_quota_exceeded : ServiceError
  -- what the services let through: another constraint, a missing row of `scalar_one`, a failed
  -- commit, a failed XADD
  integrity_error no_row_found commit_failed publish_failed : ServiceError

abbrev pub Reply : Type 0 → Type 0
Reply A = Result ServiceError A × World

-- `_add_tenant_predicate`: None is the superadmin's global view
unfoldable pub visible : Option ℕ → Scan → Bool
visible none r = true
visible (some tenant) r = r.tenant_id == tenant

unfoldable pub get_scan : ℕ → Option ℕ → World → Option Scan
unfolding visible
get_scan scan_id tenant w = first (λ r. r.id == scan_id && visible tenant r) (scans_of w)

abbrev pub rolled_back : World → World
rolled_back w = record w { session = rollback w.session }

abbrev pub committed : World → World
committed w = record w { session = commit w.session }

-- `await event_bus.publish(event, …)` as the last step before the return
unfoldable pub publish : {A : Type 0} → Env → Event → A → World → Reply A
publish env event a w =
    if env.publish_goes
    then (ok a, record w { events = w.events ++ event ∷ [] })
    else (err publish_failed, w)

-- `db.refresh(scan)`: the row as it now stands
unfoldable pub refreshed : ℕ → Scan → World → Scan
refreshed scan_id old w = elim (first (λ r. r.id == scan_id) (scans_of w)) [
  | none ↦ old
  | some r ↦ r
]

unfoldable pub finish_cancel :
    Env → Scan → Result StateError Bool × Session → World → Reply (Option Scan)
unfolding refreshed
finish_cancel env scan (err e, s) w = (err (state_error e), record w { session = s })
finish_cancel env scan (ok false, s) w =
    (err scan_not_cancellable, rolled_back (record w { session = s }))
finish_cancel env scan (ok true, s) w =
    let w' = record w { session = s } in
    if env.commit_goes
    then (ok (some (refreshed scan.id scan w')), committed w')
    else (err commit_failed, rolled_back w')

-- `cancel_scan`
unfoldable pub cancel_scan : Env → ℕ → Option ℕ → World → Reply (Option Scan)
unfolding get_scan finish_cancel
cancel_scan env scan_id tenant w = elim (get_scan scan_id tenant w) [
  | none ↦ (ok none, w)
  | some scan ↦
      finish_cancel env scan (transition_scan scan_id "cancelled" none none false env.now w.session)
        w
]

-- `date_trunc('day', now)`, with times in seconds
abbrev pub day_start : ℕ → ℕ
day_start now = now - now % 86400

abbrev pub failed_early : Scan → Bool
failed_early r = (status_eq r.status failed || status_eq r.status cancelled) && is_none r.started_at

-- the WHERE clause of the quota's count
unfoldable pub counts_today : ℕ → ℕ → Scan → Bool
unfolding status_eq
counts_today now tenant r =
    r.tenant_id == tenant
    && elim r.dispatched_at [ none ↦ false | some t ↦ leb (day_start now) t ]
    && not (failed_early r)

unfoldable pub is_dispatchable : ℕ → Scan → Bool
unfolding status_eq
is_dispatchable scan_id r = r.id == scan_id && status_eq r.status pending && is_none r.dispatched_at

abbrev pub dispatch_now : ℕ → Scan → Scan
dispatch_now now r = record r { dispatched_at = some now }

unfoldable pub mark_dispatched : ℕ → ℕ → World → World
unfolding is_dispatchable
mark_dispatched scan_id now w =
    set_scans w (update_where (is_dispatchable scan_id) (dispatch_now now) (scans_of w))

unfoldable pub reserve : Env → Scan → ℕ → World → Reply (Option Scan)
unfolding counts_today refreshed
reserve env scan limit w =
    if count_where (is_dispatchable scan.id) (scans_of w) == 0
    then (err scan_not_dispatchable, rolled_back w)
    else (let w' = mark_dispatched scan.id env.now w in
        if ltb limit (count_where (counts_today env.now scan.tenant_id) (scans_of w'))
        then (err scan_quota_exceeded, rolled_back w')
        else if env.commit_goes
        then (ok (some (refreshed scan.id scan w')), committed w')
        else (err commit_failed, rolled_back w'))

-- `dispatch_scan`. The lock on the tenant row keeps other dispatches of the tenant out until the
-- commit, so that the count is not stale.
unfoldable pub dispatch_scan : Env → ℕ → Option ℕ → World → Reply (Option Scan)
unfolding get_scan reserve
dispatch_scan env scan_id tenant w = elim (get_scan scan_id tenant w) [
  | none ↦ (ok none, w)
  | some scan ↦ elim (first (λ t. t.id == scan.tenant_id) w.session.working.tenants) [
    | none ↦ (err no_row_found, w)
    | some t ↦ reserve env scan t.scans_per_day w
  ]
]

-- the findings go with the scan: `fk_vulnerabilities_scan_tenant` with ON DELETE CASCADE
unfoldable pub without_scan : Scan → World → World
without_scan scan w =
    set_vulnerabilities (set_scans w (delete_where (λ r. r.id == scan.id) (scans_of w))) (
      delete_where (λ v. v.scan_id == scan.id && v.tenant_id == scan.tenant_id)
        (vulnerabilities_of w))

-- `delete_scan`: the event carries what was captured before the delete
unfoldable pub delete_scan : Env → ℕ → Option ℕ → World → Reply Bool
unfolding get_scan publish without_scan
delete_scan env scan_id tenant w = elim (get_scan scan_id tenant w) [
  | none ↦ (ok false, w)
  | some scan ↦
      let w' = without_scan scan w in
      if env.commit_goes
      then publish env (scan_deleted scan.tenant_id scan.id) true (committed w')
      else (err commit_failed, rolled_back w')
]
