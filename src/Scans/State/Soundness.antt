-- ===== src/Scans/State/Soundness.antt =====
-- What holds of every row of the scans table, and that the UPDATEs of app/modules/scans/state.py
-- keep it.
use soc360_pymes.Prelude.{ℕ, ◌≡◌, refl, String, true, false, Option, none, arith, [], ◌∷◌, is_some}
use soc360_pymes.Outcome.{ok}
use soc360_pymes.Database.{Scan}
use soc360_pymes.Scans.Status.{
  ScanStatus, pending, running, completed, failed, status_eq, is_in, terminal_statuses,
}
use soc360_pymes.Scans.State.Edges.{
  Edge, start, drop_pending, fail_pending, finish, fail_running, stop,
}
use soc360_pymes.Scans.State.Moves.{may_move-Edge}
use soc360_pymes.Scans.State.{
  check_transition, may_move, assign, too_long, char_count, is_ready, is_stale, start_run,
  lose_worker,
}

pub record IsSound (r : Scan) : Type 0 where
  pub pending_unstarted : r.status ≡ pending → r.started_at ≡ none
  pub running_dispatched : r.status ≡ running → is_some r.dispatched_at ≡ true
  pub running_started : r.status ≡ running → is_some r.started_at ≡ true
  pub completed_started : r.status ≡ completed → is_some r.started_at ≡ true
  pub terminal_completed : is_some r.completed_at ≡ is_in r.status terminal_statuses
  pub failed_reason : is_some r.failure_reason ≡ status_eq r.status failed
  pub reason_short : too_long r.failure_reason ≡ false
  pub output_finished :
      is_some r.raw_output ≡ true → is_in r.status (completed ∷ failed ∷ []) ≡ true

-- What the checks of `transition_scan` let through.
pub record IsChecked (t : ScanStatus) (reason output : Option String) : Type 0 where
  pub reason_given : is_some reason ≡ status_eq t failed
  pub reason_short : too_long reason ≡ false
  pub output_allowed : is_some output ≡ true → is_in t (completed ∷ failed ∷ []) ≡ true

pub check_transition-IsChecked :
    (to : String) (reason output : Option String) (t : ScanStatus)
    → check_transition to reason output ≡ ok t
    → IsChecked t reason output
unfolding check_transition
check_transition-IsChecked to reason output t h = record {
  reason_given = ground arith;
  reason_short = ground arith;
  output_allowed = ground arith;
}

assign_along :
    (reason output : Option String) (now : ℕ) (r : Scan) {from t : ScanStatus}
    → Edge from t
    → r.status ≡ from
    → IsChecked t reason output
    → (t ≡ running → is_some r.dispatched_at ≡ true)
    → IsSound r
    → IsSound (assign t reason output now r)
unfolding assign
assign_along reason output now r start e c d s = ground arith
assign_along reason output now r drop_pending e c d s = ground arith
assign_along reason output now r fail_pending e c d s = ground arith
assign_along reason output now r finish e c d s = ground arith
assign_along reason output now r fail_running e c d s = ground arith
assign_along reason output now r stop e c d s = ground arith

may_move-dispatched :
    (scan_id : ℕ) (t : ScanStatus) (r : Scan)
    → may_move scan_id t r ≡ true
    → t ≡ running
    → is_some r.dispatched_at ≡ true
unfolding may_move
may_move-dispatched scan_id t r m e = ground arith

pub assign-IsSound :
    (scan_id : ℕ) (t : ScanStatus) (reason output : Option String) (now : ℕ) (r : Scan)
    → IsChecked t reason output
    → may_move scan_id t r ≡ true
    → IsSound r
    → IsSound (assign t reason output now r)
assign-IsSound scan_id t reason output now r c m s =
    assign_along reason output now r (may_move-Edge scan_id t r m) refl c
      (may_move-dispatched scan_id t r m) s

pub start_run-IsSound :
    (now : ℕ) (r : Scan) → is_ready r ≡ true → IsSound r → IsSound (start_run now r)
unfolding is_ready is_in terminal_statuses
start_run-IsSound now r h s = ground arith

pub lose_worker-IsSound :
    (now older_than : ℕ) (r : Scan)
    → is_stale now older_than r ≡ true
    → IsSound r
    → IsSound (lose_worker now r)
unfolding is_stale is_in terminal_statuses char_count
lose_worker-IsSound now older_than r h s = ground arith
