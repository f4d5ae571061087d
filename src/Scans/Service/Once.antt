-- ===== src/Scans/Service/Once.antt =====
-- A scan's one dispatch over the calls of app/modules/scans/service.py and the statements of
-- app/modules/scans/state.py, each in a transaction of its own, in any order.
use soc360_pymes.Prelude.{ℕ, ◌≡◌, ◌≢◌, refl, inl, inr, Option, some, List, [], ◌∷◌, All, Bool-cases}
use soc360_pymes.Sql.{update_where, count_where}
use soc360_pymes.Outcome.{ok}
use soc360_pymes.Database.{Scan, World, Env, scans_of}
use soc360_pymes.Scans.State.Lifecycle.{Op, apply}
use soc360_pymes.Scans.Service.{
  cancel_scan, dispatch_scan, delete_scan, rolled_back, is_dispatchable, dispatch_now,
  mark_dispatched,
}
use soc360_pymes.Scans.Service.Quota.{first_dispatch, no_dispatch}
use soc360_pymes.Scans.Authoring.{ScanCreate, ScanPatch, create_scan, update_scan}
use soc360_pymes.Scans.Service.Used.{Used, AllUsed, dispatch_now-Used, apply-AllUsed}
use soc360_pymes.Scans.Service.Spent.{
  create_scan-AllUsed, update_scan-AllUsed, cancel_scan-AllUsed, dispatch_scan-AllUsed,
  delete_scan-AllUsed,
}

-- One transaction on the scans: a writing call of the service, by a tenant's user or (with no tenant)
-- by a superadmin, or a statement of the state machine.
pub data Call : Type 0 where
  create_call : Env → ℕ → ScanCreate → Call
  update_call : Env → Option ℕ → ℕ → ScanPatch → Call
  cancel_call dispatch_call delete_call : Env → Option ℕ → ℕ → Call
  operate : Op → Call

unfoldable pub call_after : Call → World → World
unfolding apply
call_after (create_call env tenant d) w = (create_scan env d tenant w).1
call_after (update_call env tenant scan_id p) w = (update_scan env scan_id tenant p w).1
call_after (cancel_call env tenant scan_id) w = (cancel_scan env scan_id tenant w).1
call_after (dispatch_call env tenant scan_id) w = (dispatch_scan env scan_id tenant w).1
call_after (delete_call env tenant scan_id) w = (delete_scan env scan_id tenant w).1
call_after (operate op) w = record w { session = apply op w.session }

-- Each call begins with a fresh transaction.
unfoldable pub after_calls : List Call → World → World
unfolding call_after
after_calls [] w = w
after_calls (c ∷ cs) w = after_calls cs (call_after c (rolled_back w))

-- `uuid4` does not give the id again
abbrev pub IsNew : ℕ → Call → Type 0
IsNew k (create_call env tenant d) = env.fresh_id ≢ k
IsNew k _ = Unit

module _ (k : ℕ) where
  call_after-AllUsed :
      (c : Call) (w : World) → IsNew k c → AllUsed k w.session → AllUsed k (call_after c w).session
  unfolding call_after
  call_after-AllUsed (create_call env tenant d) w new h = create_scan-AllUsed k env d tenant w new h
  call_after-AllUsed (update_call env tenant scan_id p) w new h =
      update_scan-AllUsed k env scan_id tenant p w h
  call_after-AllUsed (cancel_call env tenant scan_id) w new h =
      cancel_scan-AllUsed k env scan_id tenant w h
  call_after-AllUsed (dispatch_call env tenant scan_id) w new h =
      dispatch_scan-AllUsed k env scan_id tenant w h
  call_after-AllUsed (delete_call env tenant scan_id) w new h =
      delete_scan-AllUsed k env scan_id tenant w h
  call_after-AllUsed (operate op) w new h = apply-AllUsed k op w.session h

  after_calls-AllUsed :
      (cs : List Call) (w : World)
      → All (IsNew k) cs
      → AllUsed k w.session
      → AllUsed k (after_calls cs w).session
  unfolding after_calls
  after_calls-AllUsed [] w new h = h
  after_calls-AllUsed (c ∷ cs) w new h =
      after_calls-AllUsed cs (call_after c (rolled_back w)) new.1
        (call_after-AllUsed c (rolled_back w) new.0 (h.1, h.1))

  none_left : (xs : List Scan) → All (Used k) xs → count_where (is_dispatchable k) xs ≡ 0
  none_left [] h = refl
  none_left (x ∷ xs) h = rw h.0 (none_left xs h.1)

  -- the rows that a dispatch of the id marks, and those that it leaves
  marked-Used :
      (now : ℕ) (xs : List Scan)
      → All (Used k) (update_where (is_dispatchable k) (dispatch_now now) xs)
  marked-Used now [] = tt
  marked-Used now (x ∷ xs) = elim (Bool-cases (is_dispatchable k x)) [
    | inl e ↦ rw e (dispatch_now-Used k now x, marked-Used now xs)
    | inr e ↦ rw e (e, marked-Used now xs)
  ]

-- After a dispatch that answered with a scan, no later dispatch of the id answers with one, by the
-- tenant or a superadmin, whatever service calls and state-machine statements, each in a transaction
-- of its own, come between. Scans that are created in between have other ids.
pub dispatched_once :
    (env env' : Env) (scan_id : ℕ) (tenant tenant' : Option ℕ) (calls : List Call) (w : World)
    (x x' : Scan)
    → (dispatch_scan env scan_id tenant w).0 ≡ ok (some x)
    → All (IsNew scan_id) calls
    → (dispatch_scan env' scan_id tenant'
        (rolled_back (after_calls calls (dispatch_scan env scan_id tenant w).1))).0
      ≢ ok (some x')
unfolding mark_dispatched
dispatched_once env env' scan_id tenant tenant' calls w x x' h new =
    let marked = marked-Used scan_id env.now (scans_of w) in
    let start : AllUsed scan_id (dispatch_scan env scan_id tenant w).1.session =
      rw (first_dispatch env scan_id tenant w x h) (marked, marked) in
    let end = after_calls-AllUsed scan_id calls (dispatch_scan env scan_id tenant w).1 new start in
    no_dispatch env' scan_id tenant'
      (rolled_back (after_calls calls (dispatch_scan env scan_id tenant w).1)) x'
      (none_left scan_id
        (after_calls calls (dispatch_scan env scan_id tenant w).1).session.committed.scans end.1)
