-- ===== src/Pipeline/Executor.antt =====
-- `execute_scan` of app/modules/scans/executor.py. The session's tenant context is left out.
use soc360_pymes.Prelude.{
  ℕ, String, Bool, true, false, ◌&&◌, Option, none, some, List, if◌then◌else◌, ◌==◌,
}
use soc360_pymes.Sql.{first}
use soc360_pymes.Outcome.{Result, ok, err}
use soc360_pymes.Database.{Scan, AssetKey, Vulnerability, Db, Session, commit, rollback}
use soc360_pymes.Scans.State.{StateError, transition_scan}
use soc360_pymes.Scans.State.Lifecycle.{Op, run_all}
use soc360_pymes.Pipeline.Graph.{
  Step, done, raises, interrupted_before, interrupted_after, Raised, internal, cancelled_task,
  Tools, GraphState, has_error, run_agent_safely,
}

pub data ScanOutcome : Type 0 where
  completed_scan failed_scan cancelled_scan skipped_scan : ScanOutcome

-- What a shielded cleanup does: it goes through, its database calls raise, or it goes through and
-- the cancellation that came meanwhile is raised afterwards.
pub data Cleanup : Type 0 where
  goes breaks goes_interrupted : Cleanup

-- What the call does not decide. `meanwhile` are the operations of the state machine that other
-- transactions commit while Nmap runs; a service call that creates, edits, dispatches or deletes a
-- scan meanwhile is left out.
pub record Plan : Type 0 where
  pub loading : Step
  pub claiming : Step
  pub preparing : Step
  pub meanwhile : List Op
  pub completing : Step
  pub committing : Step
  pub failing : Cleanup
  pub recovering : Cleanup
  pub cancelling : Cleanup
  pub claimed_at : ℕ
  pub ended_at : ℕ

-- What the body does: an outcome, or what it raises with the value of `claimed`.
abbrev pub Body : Type 0
Body = Result (Bool × Raised) ScanOutcome × Session

-- one awaited step, with the session before and after its effect
abbrev pub at_step : Step → Bool → Session → Session → Body → Body
at_step done claimed s s' next = next
at_step raises claimed s s' next = (err (claimed, internal), s)
at_step interrupted_before claimed s s' next = (err (claimed, cancelled_task), s)
at_step interrupted_after claimed s s' next = (err (claimed, cancelled_task), s')

abbrev pub with_scan_rows : List Scan → Session → Session
with_scan_rows rows s = record {
  committed = record s.committed { scans = rows };
  working = record s.working { scans = rows };
}

abbrev pub with_findings : List Vulnerability → Session → Session
with_findings rows s = record s { working = record s.working { vulnerabilities = rows } }

-- The state-machine operations of the others on the committed rows; this transaction has written no
-- scan yet.
unfoldable pub interleave : List Op → Session → Session
unfolding run_all
interleave ops s =
    with_scan_rows
      (run_all ops (record { committed = s.committed; working = s.committed })).working.scans s

abbrev pub reason_of : GraphState → String
reason_of st = elim st.error [ none ↦ "" | some t ↦ t ]

abbrev pub raw_of : GraphState → String
raw_of st = elim st.nmap_raw_xml [ none ↦ "" | some t ↦ t ]

-- `_load_scan`: the asset of the scan, of the same tenant
unfoldable pub load_scan : ℕ → ℕ → Db → Option AssetKey
load_scan scan_id tenant db =
    elim (first (λ r. r.id == scan_id && r.tenant_id == tenant) db.scans) [
      | none ↦ none
      | some r ↦ first (λ a. a.id == r.asset_id && a.tenant_id == r.tenant_id) db.assets
    ]

-- `_shielded` around a transition: an exception of the cleanup wins over the cancellation
abbrev pub shielded : Bool → Result StateError Bool × Session → Result Raised ScanOutcome × Session
shielded interrupted (err e, s) = (err internal, s)
shielded true (ok won, s) = (err cancelled_task, s)
shielded false (ok true, s) = (ok failed_scan, s)
shielded false (ok false, s) = (ok cancelled_scan, s)

abbrev pub reraise : Result StateError Bool × Session → Result Raised ScanOutcome × Session
reraise (err e, s) = (err internal, s)
reraise (ok won, s) = (err cancelled_task, s)

abbrev pub while_claimed : Result Raised ScanOutcome × Session → Body
while_claimed (ok outcome, s) = (ok outcome, s)
while_claimed (err e, s) = (err (true, e), s)

module _ (scan_id : ℕ) (plan : Plan) where
  abbrev pub fail_transition : String → Session → Result StateError Bool × Session
  fail_transition reason s =
      transition_scan scan_id "failed" (some reason) none true plan.ended_at (rollback s)

  -- the inner `fail`, shielded
  unfoldable pub fail_scan : Cleanup → String → Session → Result Raised ScanOutcome × Session
  unfolding transition_scan
  fail_scan goes reason s = shielded false (fail_transition reason s)
  fail_scan goes_interrupted reason s = shielded true (fail_transition reason s)
  fail_scan breaks reason s = (err internal, rollback s)

  -- the inner `cancel`, shielded, and the `raise` after it
  unfoldable pub cancel_running : Cleanup → Session → Result Raised ScanOutcome × Session
  unfolding transition_scan
  cancel_running breaks s = (err internal, rollback s)
  cancel_running _ s =
      reraise (transition_scan scan_id "cancelled" none none true plan.ended_at (rollback s))

  abbrev pub settled : Result StateError Bool × Session → Body
  settled (err e, s) = (err (true, internal), s)
  settled (ok false, s) = (ok cancelled_scan, rollback s)
  settled (ok true, s) = at_step plan.committing true s (commit s) (ok completed_scan, commit s)

  -- after the graph without an error
  unfoldable pub complete : GraphState → Session → Body
  unfolding transition_scan
  complete st s =
      let moved =
        transition_scan scan_id "completed" none (some (raw_of st)) false plan.ended_at s in
      at_step plan.completing true s moved.1 (settled moved)

  -- after the graph
  unfoldable pub conclude : Result Raised GraphState × List Vulnerability → Session → Body
  unfolding fail_scan complete
  conclude (err e, rows) s = (err (true, e), with_findings rows s)
  conclude (ok st, rows) s =
      if has_error st
      then while_claimed (fail_scan plan.failing (reason_of st) (with_findings rows s))
      else complete st (with_findings rows s)

  module _ (tenant : ℕ) (tools : Tools) where
    -- from the claim to the end of the `try` block
    unfoldable pub run_claimed : AssetKey → Session → Body
    unfolding conclude run_agent_safely interleave
    run_claimed asset s =
        let s' = interleave plan.meanwhile s in
        at_step plan.preparing true s s (
          conclude
            (run_agent_safely tools scan_id tenant asset.asset_type asset.value
              s.working.vulnerabilities)
            s')

    abbrev pub claimed_now : AssetKey → Result StateError Bool × Session → Body
    claimed_now asset (err e, s) = (err (false, internal), s)
    claimed_now asset (ok false, s) = (ok skipped_scan, s)
    claimed_now asset (ok true, s) = run_claimed asset s

    -- the claim of a caller that has none
    unfoldable pub claim_first : AssetKey → Session → Body
    unfolding transition_scan run_claimed
    claim_first asset s =
        let moved = transition_scan scan_id "running" none none true plan.claimed_at s in
        at_step plan.claiming false s moved.1 (claimed_now asset moved)

    abbrev pub with_asset : Bool → Option AssetKey → Session → Body
    with_asset true none s = while_claimed (fail_scan plan.failing "asset_missing" s)
    with_asset false none s = (ok skipped_scan, s)
    with_asset true (some asset) s = run_claimed asset s
    with_asset false (some asset) s = claim_first asset s

    -- the `try` block
    unfoldable pub scan_body : Bool → Session → Body
    unfolding load_scan fail_scan run_claimed claim_first
    scan_body claimed s =
        at_step plan.loading claimed s s (with_asset claimed (load_scan scan_id tenant s.working) s)

    -- the `except` blocks
    unfoldable pub handled : Body → Result Raised ScanOutcome × Session
    unfolding fail_scan cancel_running
    handled (ok outcome, s) = (ok outcome, s)
    handled (err (false, e), s) = (err e, s)
    handled (err (true, cancelled_task), s) = cancel_running plan.cancelling s
    handled (err (true, internal), s) = fail_scan plan.recovering "internal_error" s

    unfoldable pub execute_scan : Bool → Session → Result Raised ScanOutcome × Session
    unfolding scan_body handled
    execute_scan claimed s = handled (scan_body claimed s)
