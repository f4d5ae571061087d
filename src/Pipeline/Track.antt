-- ===== src/Pipeline/Track.antt =====
-- Findings and completion are committed together: `execute_scan` of app/modules/scans/executor.py.
use soc360_pymes.Prelude.{
  ℕ, ◌≡◌, ◌⊎◌, inl, inr, refl, sym, ◌∙◌, String, Bool, true, false, Option, none, some, List,
  Bool-cases,
}
use soc360_pymes.Outcome.{Result, ok, err}
use soc360_pymes.Database.{Db, Session, commit, rollback, Vulnerability, AssetKey}
use soc360_pymes.Scans.State.{StateError, transition_scan, assign}
use soc360_pymes.Scans.State.Lifecycle.{Op}
use soc360_pymes.Scans.State.Outcomes.{transition_scan_won}
use soc360_pymes.Pipeline.Graph.{
  Step, done, raises, interrupted_before, interrupted_after, Raised, internal, cancelled_task,
  Tools, GraphState, has_error, run_agent_safely,
}
use soc360_pymes.Pipeline.Executor.{
  ScanOutcome, completed_scan, failed_scan, cancelled_scan, skipped_scan, Cleanup, goes, breaks,
  goes_interrupted, Plan, Body, at_step, interleave, load_scan, fail_scan, fail_transition,
  shielded, cancel_running, reraise, complete, settled, conclude, run_claimed, scan_body, handled,
  execute_scan, with_findings, raw_of, reason_of, while_claimed, with_asset,
}
use soc360_pymes.Pipeline.Terminal.{Left, transition_scan-uncommitted, completed_parsed}
use soc360_pymes.Pipeline.Finish.{interleave-Left}
use soc360_pymes.Pipeline.Atomic.{Finished, Kept, cleanup-Kept, transition_scan-findings}

-- The committed findings are those before the run, or the run's, with its row completed; the
-- outcome `completed` says the second.
module _ (scan_id : ℕ) (before table : List Vulnerability) where
  abbrev pub AllOrNothing : Session → Type 0
  AllOrNothing s = (s.committed.vulnerabilities ≡ before) ⊎ Finished scan_id table s

  abbrev pub Track : {E : Type 0} → Result E ScanOutcome × Session → Type 0
  Track (ok completed_scan, s) = Finished scan_id table s
  Track (ok _, s) = AllOrNothing s
  Track (err e, s) = AllOrNothing s

  Kept-AllOrNothing : (s s' : Session) → Kept scan_id s s' → AllOrNothing s → AllOrNothing s'
  Kept-AllOrNothing s s' k (inl e) = inl (k.findings ∙ e)
  Kept-AllOrNothing s s' k (inr f) = inr (k.finished table f)

  shielded-Track :
      (interrupted : Bool) (moved : Result StateError Bool × Session)
      → AllOrNothing moved.1
      → Track (shielded interrupted moved)
  shielded-Track interrupted (err e, s) h = h
  shielded-Track true (ok won, s) h = h
  shielded-Track false (ok true, s) h = h
  shielded-Track false (ok false, s) h = h

  reraise-Track :
      (moved : Result StateError Bool × Session) → AllOrNothing moved.1 → Track (reraise moved)
  reraise-Track (err e, s) h = h
  reraise-Track (ok won, s) h = h

  while_claimed-Track :
      (answer : Result Raised ScanOutcome × Session) → Track answer → Track (while_claimed answer)
  while_claimed-Track (ok completed_scan, s) h = h
  while_claimed-Track (ok failed_scan, s) h = h
  while_claimed-Track (ok cancelled_scan, s) h = h
  while_claimed-Track (ok skipped_scan, s) h = h
  while_claimed-Track (err e, s) h = h

  module _ (plan : Plan) where
    fail_scan-Track :
        (c : Cleanup) (reason : String) (s : Session)
        → AllOrNothing s
        → Track (fail_scan scan_id plan c reason s)
    unfolding fail_scan
    fail_scan-Track goes reason s h = shielded-Track false (fail_transition scan_id plan reason s) (
        Kept-AllOrNothing s (fail_transition scan_id plan reason s).1
          (cleanup-Kept scan_id "failed" (some reason) none plan.ended_at s) h)
    fail_scan-Track goes_interrupted reason s h =
        shielded-Track true (fail_transition scan_id plan reason s) (
          Kept-AllOrNothing s (fail_transition scan_id plan reason s).1
            (cleanup-Kept scan_id "failed" (some reason) none plan.ended_at s) h)
    fail_scan-Track breaks reason s h = h

    cancel_running-Track :
        (c : Cleanup) (s : Session) → AllOrNothing s → Track (cancel_running scan_id plan c s)
    unfolding cancel_running
    cancel_running-Track goes s h =
        let moved = transition_scan scan_id "cancelled" none none true plan.ended_at (rollback s) in
        reraise-Track moved (
          Kept-AllOrNothing s moved.1 (cleanup-Kept scan_id "cancelled" none none plan.ended_at s)
            h)
    cancel_running-Track goes_interrupted s h =
        let moved = transition_scan scan_id "cancelled" none none true plan.ended_at (rollback s) in
        reraise-Track moved (
          Kept-AllOrNothing s moved.1 (cleanup-Kept scan_id "cancelled" none none plan.ended_at s)
            h)
    cancel_running-Track breaks s h = h

    at_step-Track :
        (step : Step) (claimed : Bool) (s s' : Session) (next : Body)
        → AllOrNothing s
        → AllOrNothing s'
        → Track next
        → Track (at_step step claimed s s' next)
    at_step-Track done claimed s s' next h h' t = t
    at_step-Track raises claimed s s' next h h' t = h
    at_step-Track interrupted_before claimed s s' next h h' t = h
    at_step-Track interrupted_after claimed s s' next h h' t = h'

    settled-Track :
        (moved : Result StateError Bool × Session)
        → AllOrNothing moved.1
        → (moved.0 ≡ ok true → Finished scan_id table (commit moved.1))
        → Track (settled scan_id plan moved)
    settled-Track (err e, s) h won = h
    settled-Track (ok false, s) h won = h
    settled-Track (ok true, s) h won =
        at_step-Track plan.committing true s (commit s) (ok completed_scan, commit s) h
          (inr (won refl)) (won refl)

    -- the row that a completion leaves, and the findings beside it
    completion-Finished :
        (raw : String) (s : Session)
        → s.working.vulnerabilities ≡ table
        → Left scan_id s.working.scans
        → (transition_scan scan_id "completed" none (some raw) false plan.ended_at s).0 ≡ ok true
        → Finished scan_id table
            (commit (transition_scan scan_id "completed" none (some raw) false plan.ended_at s).1)
    unfolding assign
    completion-Finished raw s e h won =
        let (t, row, parsed, found, edge, after) =
          transition_scan_won scan_id "completed" none (some raw) false plan.ended_at s h.unique
            won in
        (
          assign t none (some raw) plan.ended_at row,
          after,
          sym (completed_parsed t parsed),
          transition_scan-findings scan_id "completed" none (some raw) false plan.ended_at s ∙ e,
        )

    complete-Track :
        (st : GraphState) (s : Session)
        → s.committed.vulnerabilities ≡ before
        → s.working.vulnerabilities ≡ table
        → Left scan_id s.working.scans
        → Track (complete scan_id plan st s)
    unfolding complete
    complete-Track st s b e h =
        let moved =
          transition_scan scan_id "completed" none (some (raw_of st)) false plan.ended_at s in
        let h' : AllOrNothing moved.1 = inl (
          rw
            (transition_scan-uncommitted scan_id "completed" none (some (raw_of st)) plan.ended_at
              s)
            b) in
        at_step-Track plan.completing true s moved.1 (settled scan_id plan moved) (inl b) h'
          (settled-Track moved h' (completion-Finished (raw_of st) s e h))

    conclude-Track :
        (answer : Result Raised GraphState × List Vulnerability) (s : Session)
        → s.committed.vulnerabilities ≡ before
        → answer.1 ≡ table
        → Left scan_id s.working.scans
        → Track (conclude scan_id plan answer s)
    unfolding conclude
    conclude-Track (err e, rows) s b t h = inl b
    conclude-Track (ok st, rows) s b t h = elim (Bool-cases (has_error st)) [
      | inl e ↦ rw e (
          while_claimed-Track
            (fail_scan scan_id plan plan.failing (reason_of st) (with_findings rows s))
            (fail_scan-Track plan.failing (reason_of st) (with_findings rows s) (inl b)))
      | inr e ↦ rw e (complete-Track st (with_findings rows s) b t h)
    ]

abbrev pub fresh_session : Db → Session
fresh_session db = record { committed = db; working = db }

module _ (scan_id : ℕ) (plan : Plan) (tenant : ℕ) (tools : Tools) (db : Db) where
  -- the findings that the graph leaves for the asset of the scan
  abbrev pub findings_after : Option AssetKey → List Vulnerability
  findings_after none = db.vulnerabilities
  findings_after (some asset) =
      (run_agent_safely tools scan_id tenant asset.asset_type asset.value db.vulnerabilities).1

  abbrev OurTrack : Option AssetKey → {E : Type 0} → Result E ScanOutcome × Session → Type 0
  OurTrack asset = Track scan_id db.vulnerabilities (findings_after asset)

  interleave-findings :
      (ops : List Op)
      → ((interleave ops (fresh_session db)).committed.vulnerabilities ≡ db.vulnerabilities)
        × ((interleave ops (fresh_session db)).working.scans
            ≡ (interleave ops (fresh_session db)).committed.scans)
  unfolding interleave
  interleave-findings ops = (refl, refl)

  run_claimed-Track :
      (asset : AssetKey)
      → Left scan_id db.scans
      → OurTrack (some asset) (run_claimed scan_id plan tenant tools asset (fresh_session db))
  unfolding run_claimed
  run_claimed-Track asset h =
      let s = fresh_session db in
      let (b, w) = interleave-findings plan.meanwhile in
      let answer =
        run_agent_safely tools scan_id tenant asset.asset_type asset.value db.vulnerabilities in
      at_step-Track scan_id db.vulnerabilities answer.1 plan plan.preparing true s s
        (conclude scan_id plan answer (interleave plan.meanwhile s)) (inl refl) (inl refl)
        (conclude-Track scan_id db.vulnerabilities answer.1 plan answer
          (interleave plan.meanwhile s) b refl
          (rw w (interleave-Left scan_id plan plan.meanwhile s h)))

  with_asset-Track :
      (asset : Option AssetKey)
      → Left scan_id db.scans
      → OurTrack asset (with_asset scan_id plan tenant tools true asset (fresh_session db))
  with_asset-Track none h =
      let s = fresh_session db in
      while_claimed-Track scan_id db.vulnerabilities db.vulnerabilities
        (fail_scan scan_id plan plan.failing "asset_missing" s)
        (fail_scan-Track scan_id db.vulnerabilities db.vulnerabilities plan plan.failing
          "asset_missing" s (inl refl))
  with_asset-Track (some asset) h = run_claimed-Track asset h

  handled-Track :
      (asset : Option AssetKey) (body : Body)
      → OurTrack asset body
      → OurTrack asset (handled scan_id plan tenant tools body)
  unfolding handled
  handled-Track asset (ok completed_scan, s) h = h
  handled-Track asset (ok failed_scan, s) h = h
  handled-Track asset (ok cancelled_scan, s) h = h
  handled-Track asset (ok skipped_scan, s) h = h
  handled-Track asset (err (false, e), s) h = h
  handled-Track asset (err (true, internal), s) h =
      fail_scan-Track scan_id db.vulnerabilities (findings_after asset) plan plan.recovering
        "internal_error" s h
  handled-Track asset (err (true, cancelled_task), s) h =
      cancel_running-Track scan_id db.vulnerabilities (findings_after asset) plan plan.cancelling s
        h

  -- A claimed scan commits its findings exactly with its completion, if its row had left `pending`
  -- and ids are unique: after `execute_scan`, whatever raises or is cancelled, the committed
  -- findings are those before the call, or the row is completed and they are those that the graph
  -- leaves; the outcome `completed` says the second.
  pub execute_scan-Track :
      Left scan_id db.scans
      → Track scan_id db.vulnerabilities
          (findings_after (load_scan scan_id tenant db))
          (execute_scan scan_id plan tenant tools true (fresh_session db))
  unfolding execute_scan scan_body
  execute_scan-Track h =
      let s = fresh_session db in
      let asset = load_scan scan_id tenant db in
      handled-Track asset
        (at_step plan.loading true s s (with_asset scan_id plan tenant tools true asset s))
        (at_step-Track scan_id db.vulnerabilities (findings_after asset) plan plan.loading true s s
          (with_asset scan_id plan tenant tools true asset s) (inl refl) (inl refl)
          (with_asset-Track asset h))
