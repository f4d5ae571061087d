-- ===== src/Pipeline/Finish.antt =====
-- A claimed scan comes to an end: `execute_scan` of app/modules/scans/executor.py.
use soc360_pymes.Prelude.{
  ℕ, ◌≡◌, ◌≢◌, inl, inr, refl, sym, String, Bool, true, false, Option, none, some, List, Bool-cases,
  arith,
}
use soc360_pymes.Outcome.{Result, ok, err, Result-cases}
use soc360_pymes.Scans.State.Lifecycle.{Op}
use soc360_pymes.Database.{Session, commit, rollback, Vulnerability, AssetKey}
use soc360_pymes.Scans.Status.{
  ScanStatus, failed, completed, cancelled, parse_status, status_eq, is_in, terminal_statuses,
}
use soc360_pymes.Scans.State.{StateError, transition_scan, check_transition, char_count}
use soc360_pymes.Scans.State.Moves.{transition_scan-err}
use soc360_pymes.Pipeline.Graph.{
  Step, done, raises, interrupted_before, interrupted_after, Raised, internal, cancelled_task,
  Tools, GraphState, has_error, run_agent_safely,
}
use soc360_pymes.Pipeline.Executor.{
  completed_scan, Cleanup, goes, breaks, goes_interrupted, Plan, Body, at_step, interleave,
  load_scan, fail_scan, fail_transition, shielded, cancel_running, reraise, complete, settled,
  conclude, run_claimed, scan_body, handled, execute_scan, with_findings, raw_of, reason_of,
  while_claimed, with_asset,
}
use soc360_pymes.Pipeline.Terminal.{
  Left, Ended, lost_Ended, transition_scan-uncommitted, transition_scan-Left, transition_scan-Ended,
  transition_scan-synced, run_all-Left,
}

module _ (scan_id : ℕ) (plan : Plan) where
  -- Where the body stops: with an outcome the row has ended; with a raise it was claimed and has
  -- left `pending`, which is what the cleanups need.
  abbrev pub Good : Body → Type 0
  Good (ok outcome, s) = Ended scan_id s.committed.scans
  Good (err (claimed, e), s) = (claimed ≡ true) × Left scan_id s.committed.scans

  shielded-Good :
      (interrupted : Bool) (moved : Result StateError Bool × Session)
      → Left scan_id moved.1.committed.scans
      → ((won : Bool) → moved.0 ≡ ok won → Ended scan_id moved.1.committed.scans)
      → Good (while_claimed (shielded interrupted moved))
  shielded-Good interrupted (err e, s) left ended = (refl, left)
  shielded-Good true (ok won, s) left ended = (refl, left)
  shielded-Good false (ok true, s) left ended = ended true refl
  shielded-Good false (ok false, s) left ended = ended false refl

  -- the target of a failure is `failed`, if the checks pass
  failed_target :
      (reason : String) (t : ScanStatus)
      → check_transition "failed" (some reason) none ≡ ok t
      → is_in t terminal_statuses ≡ true
  unfolding check_transition parse_status is_in terminal_statuses status_eq
  failed_target reason t e = ground arith

  module _ (reason : String) (s : Session) (h : Left scan_id s.committed.scans) where
    abbrev failing_moved : Result StateError Bool × Session
    failing_moved = fail_transition scan_id plan reason s

    failing_synced : failing_moved.1.committed ≡ failing_moved.1.working
    failing_synced =
        transition_scan-synced scan_id "failed" (some reason) none plan.ended_at (rollback s) refl

    fail_transition-Left : Left scan_id failing_moved.1.committed.scans
    fail_transition-Left =
        rw failing_synced (
          transition_scan-Left scan_id "failed" (some reason) none true plan.ended_at (rollback s)
            h)

    fail_transition-Ended :
        (t : ScanStatus)
        → check_transition "failed" (some reason) none ≡ ok t
        → Ended scan_id failing_moved.1.committed.scans
    fail_transition-Ended t e = rw failing_synced (
        transition_scan-Ended scan_id "failed" (some reason) none true plan.ended_at t (rollback s)
          e (failed_target reason t e) h)

    fail_transition-won :
        (won : Bool) → failing_moved.0 ≡ ok won → Ended scan_id failing_moved.1.committed.scans
    fail_transition-won won e = elim (Result-cases (check_transition "failed" (some reason) none)) [
      | inl (t, c) ↦ fail_transition-Ended t c
      | inr (x, c) ↦ absurd (
          cc (
            e,
            transition_scan-err scan_id "failed" (some reason) none true plan.ended_at (rollback s)
                c,
          ))
    ]

    -- a failure inside the `try` block
    fail_scan-Good : (c : Cleanup) → Good (while_claimed (fail_scan scan_id plan c reason s))
    unfolding fail_scan
    fail_scan-Good goes = shielded-Good false failing_moved fail_transition-Left fail_transition-won
    fail_scan-Good goes_interrupted =
        shielded-Good true failing_moved fail_transition-Left fail_transition-won
    fail_scan-Good breaks = (refl, h)

  shielded-state :
      (interrupted : Bool) (moved : Result StateError Bool × Session)
      → (shielded interrupted moved).1 ≡ moved.1
  shielded-state interrupted (err e, s) = refl
  shielded-state true (ok won, s) = refl
  shielded-state false (ok true, s) = refl
  shielded-state false (ok false, s) = refl

  reraise-state : (moved : Result StateError Bool × Session) → (reraise moved).1 ≡ moved.1
  reraise-state (err e, s) = refl
  reraise-state (ok won, s) = refl

  internal_error_checked : check_transition "failed" (some "internal_error") none ≡ ok failed
  unfolding check_transition char_count
  internal_error_checked = refl

  cancelled_checked : check_transition "cancelled" none none ≡ ok cancelled
  unfolding check_transition
  cancelled_checked = refl

  -- the cleanup of an exception
  recover-Ended :
      (c : Cleanup) (s : Session)
      → c ≢ breaks
      → Left scan_id s.committed.scans
      → Ended scan_id (fail_scan scan_id plan c "internal_error" s).1.committed.scans
  unfolding fail_scan
  recover-Ended goes s n h =
      rw (shielded-state false (failing_moved "internal_error" s h))
        (fail_transition-Ended "internal_error" s h failed internal_error_checked)
  recover-Ended goes_interrupted s n h =
      rw (shielded-state true (failing_moved "internal_error" s h))
        (fail_transition-Ended "internal_error" s h failed internal_error_checked)
  recover-Ended breaks s n h = absurd (n refl)

  -- the cleanup of a cancellation
  cancelling-Ended :
      (s : Session)
      → Left scan_id s.committed.scans
      → Ended scan_id
          (transition_scan scan_id "cancelled" none none true plan.ended_at
            (rollback s)).1.committed.scans
  unfolding is_in terminal_statuses
  cancelling-Ended s h =
      rw (transition_scan-synced scan_id "cancelled" none none plan.ended_at (rollback s) refl) (
        transition_scan-Ended scan_id "cancelled" none none true plan.ended_at cancelled
          (rollback s) cancelled_checked refl h)

  cancel-Ended :
      (c : Cleanup) (s : Session)
      → c ≢ breaks
      → Left scan_id s.committed.scans
      → Ended scan_id (cancel_running scan_id plan c s).1.committed.scans
  unfolding cancel_running
  cancel-Ended goes s n h =
      rw
        (reraise-state
          (transition_scan scan_id "cancelled" none none true plan.ended_at (rollback s)))
        (cancelling-Ended s h)
  cancel-Ended goes_interrupted s n h =
      rw
        (reraise-state
          (transition_scan scan_id "cancelled" none none true plan.ended_at (rollback s)))
        (cancelling-Ended s h)
  cancel-Ended breaks s n h = absurd (n refl)

  at_step-Good :
      (step : Step) (s s' : Session) (next : Body)
      → Left scan_id s.committed.scans
      → Left scan_id s'.committed.scans
      → Good next
      → Good (at_step step true s s' next)
  at_step-Good done s s' next h h' g = g
  at_step-Good raises s s' next h h' g = (refl, h)
  at_step-Good interrupted_before s s' next h h' g = (refl, h)
  at_step-Good interrupted_after s s' next h h' g = (refl, h')

  settled-Good :
      (moved : Result StateError Bool × Session)
      → Left scan_id moved.1.committed.scans
      → Left scan_id moved.1.working.scans
      → (moved.0 ≡ ok false → Ended scan_id moved.1.committed.scans)
      → (moved.0 ≡ ok true → Ended scan_id moved.1.working.scans)
      → Good (settled scan_id plan moved)
  settled-Good (err e, s) h k lost won = (refl, h)
  settled-Good (ok false, s) h k lost won = lost refl
  settled-Good (ok true, s) h k lost won =
      at_step-Good plan.committing s (commit s) (ok completed_scan, commit s) h k (won refl)

  completed_checked : (raw : String) → check_transition "completed" none (some raw) ≡ ok completed
  unfolding check_transition
  completed_checked raw = refl

  -- after a graph without an error
  complete-Good :
      (st : GraphState) (s : Session)
      → s.working.scans ≡ s.committed.scans
      → Left scan_id s.committed.scans
      → Good (complete scan_id plan st s)
  unfolding complete is_in terminal_statuses
  complete-Good st s e h =
      let moved =
        transition_scan scan_id "completed" none (some (raw_of st)) false plan.ended_at s in
      let kept =
        transition_scan-uncommitted scan_id "completed" none (some (raw_of st)) plan.ended_at s in
      let k : Left scan_id s.working.scans = rw e h in
      let k' =
        transition_scan-Left scan_id "completed" none (some (raw_of st)) false plan.ended_at s k in
      let h' : Left scan_id moved.1.committed.scans = rw kept h in
      at_step-Good plan.completing s moved.1 (settled scan_id plan moved) h h' (
        settled-Good moved h' k'
          (λ lost.
            rw (kept, sym e)
              (lost_Ended scan_id none (some (raw_of st)) false plan.ended_at s k lost))
          (λ won.
            transition_scan-Ended scan_id "completed" none (some (raw_of st)) false plan.ended_at
              completed s (completed_checked (raw_of st)) refl k))

  conclude-Good :
      (answer : Result Raised GraphState × List Vulnerability) (s : Session)
      → s.working.scans ≡ s.committed.scans
      → Left scan_id s.committed.scans
      → Good (conclude scan_id plan answer s)
  unfolding conclude
  conclude-Good (err e, rows) s w h = (refl, h)
  conclude-Good (ok st, rows) s w h = elim (Bool-cases (has_error st)) [
    | inl e ↦ rw e (fail_scan-Good (reason_of st) (with_findings rows s) h plan.failing)
    | inr e ↦ rw e (complete-Good st (with_findings rows s) w h)
  ]

  pub interleave-Left :
      (ops : List Op) (s : Session)
      → Left scan_id s.committed.scans
      → Left scan_id (interleave ops s).committed.scans
  unfolding interleave
  interleave-Left ops s h =
      run_all-Left scan_id ops (record { committed = s.committed; working = s.committed }) h

  interleave-same :
      (ops : List Op) (s : Session)
      → (interleave ops s).working.scans ≡ (interleave ops s).committed.scans
  unfolding interleave
  interleave-same ops s = refl

  module _ (tenant : ℕ) (tools : Tools) where
    run_claimed-Good :
        (asset : AssetKey) (s : Session)
        → Left scan_id s.committed.scans
        → Good (run_claimed scan_id plan tenant tools asset s)
    unfolding run_claimed
    run_claimed-Good asset s h = at_step-Good plan.preparing s s _ h h (
        conclude-Good
          (run_agent_safely tools scan_id tenant asset.asset_type asset.value
            s.working.vulnerabilities)
          (interleave plan.meanwhile s) (interleave-same plan.meanwhile s)
          (interleave-Left plan.meanwhile s h))

    with_asset-Good :
        (asset : Option AssetKey) (s : Session)
        → Left scan_id s.committed.scans
        → Good (with_asset scan_id plan tenant tools true asset s)
    with_asset-Good none s h = fail_scan-Good "asset_missing" s h plan.failing
    with_asset-Good (some asset) s h = run_claimed-Good asset s h

    pub scan_body-Good :
        (s : Session)
        → Left scan_id s.committed.scans
        → Good (scan_body scan_id plan tenant tools true s)
    unfolding scan_body
    scan_body-Good s h =
        at_step-Good plan.loading s s _ h h
          (with_asset-Good (load_scan scan_id tenant s.working) s h)

    handled-Ended :
        (body : Body)
        → plan.recovering ≢ breaks
        → plan.cancelling ≢ breaks
        → Good body
        → Ended scan_id (handled scan_id plan tenant tools body).1.committed.scans
    unfolding handled
    handled-Ended (ok outcome, s) n m g = g
    handled-Ended (err (false, e), s) n m g = absurd (cc (g.0))
    handled-Ended (err (true, internal), s) n m g = recover-Ended plan.recovering s n g.1
    handled-Ended (err (true, cancelled_task), s) n m g = cancel-Ended plan.cancelling s m g.1

    -- Where the two cleanups of the `except` blocks go through, the row of a claimed scan is
    -- terminal and committed when `execute_scan` returns or raises: whatever step raises or is
    -- cancelled, and whatever operations of the state machine other transactions commit while Nmap
    -- runs, if the row had left `pending` and ids are unique.
    pub execute_scan-Ended :
        (s : Session)
        → plan.recovering ≢ breaks
        → plan.cancelling ≢ breaks
        → Left scan_id s.committed.scans
        → Ended scan_id (execute_scan scan_id plan tenant tools true s).1.committed.scans
    unfolding execute_scan
    execute_scan-Ended s n m h =
        handled-Ended (scan_body scan_id plan tenant tools true s) n m (scan_body-Good s h)
