-- ===== src/Pipeline/Refines.antt =====
-- The pipeline, as operations of the scan state machine: `execute_scan` of
-- app/modules/scans/executor.py and `_wake` of app/worker/tasks.py.
use soc360_pymes.Prelude.{
  ℕ, ◌≡◌, refl, ap, sym, ◌∙◌, inl, inr, String, Bool, true, false, Option, none, some, List, [],
  ◌∷◌, ◌++◌, Bool-cases, All, All-append,
}
use soc360_pymes.Outcome.{Result, ok, err}
use soc360_pymes.Database.{Scan, Db, Session, commit, rollback, Vulnerability, AssetKey}
use soc360_pymes.Scans.State.{StateError, transition_scan}
use soc360_pymes.Scans.State.Lifecycle.{Op, transition}
use soc360_pymes.Pipeline.Graph.{
  Step, done, raises, interrupted_before, interrupted_after, Raised, internal, cancelled_task,
  Tools, GraphState, has_error, run_agent_safely,
}
use soc360_pymes.Pipeline.Executor.{
  ScanOutcome, completed_scan, Cleanup, goes, breaks, goes_interrupted, Plan, Body, at_step,
  interleave, load_scan, fail_scan, fail_transition, shielded, cancel_running, reraise, complete,
  settled, conclude, run_claimed, claim_first, claimed_now, scan_body, handled, execute_scan,
  with_findings, raw_of, reason_of, while_claimed, with_asset,
}
use soc360_pymes.Pipeline.Terminal.{transition_scan-synced, transition_scan-uncommitted}
use soc360_pymes.Pipeline.Rows.{
  rows_after, run_rows, transition_scan-rows, run_all-rows, run_rows-append,
}

-- The operations that a run may make, as a condition on them.
module _ (P : Op → Type 0) where
  -- The rows come from `start` by operations of the state machine that the condition lets through.
  abbrev pub Reached : List Scan → List Scan → Type 0
  Reached start rows = (ops : List Op) × All P ops × (rows ≡ run_rows ops start)

  pub Reached-refl : (start : List Scan) → Reached start start
  Reached-refl start = ([], tt, refl)

  pub Reached-All :
      (start rows rows' : List Scan) (ops : List Op)
      → All P ops
      → rows' ≡ run_rows ops rows
      → Reached start rows
      → Reached start rows'
  Reached-All start rows rows' ops may e (before, h, same) = (
    before ++ ops,
    All-append P before ops h may,
    e ∙ ap (run_rows ops) same ∙ sym (run_rows-append before ops start),
  )

-- what a run itself makes: transitions of its scan
abbrev pub OfScan : ℕ → Op → Type 0
OfScan k (transition scan_id to reason output commits now) = scan_id ≡ k
OfScan k _ = ⊥

module _ (P : Op → Type 0) (start : List Scan) where
  abbrev pub Sees : Session → Type 0
  Sees s = Reached P start s.committed.scans

  abbrev pub Follows : {E : Type 0} → Result E ScanOutcome × Session → Type 0
  Follows b = Sees b.1

  -- a transition that commits, as the cleanups and the claim make it
  committing-Sees :
      (scan_id : ℕ) (to : String) (reason output : Option String) (now : ℕ) (s : Session)
      → P (transition scan_id to reason output true now)
      → s.committed ≡ s.working
      → Sees s
      → Sees (transition_scan scan_id to reason output true now s).1
  committing-Sees scan_id to reason output now s may e h =
      Reached-All P start s.committed.scans
        (transition_scan scan_id to reason output true now s).1.committed.scans
        (transition scan_id to reason output true now ∷ []) (may, tt)
        (ap (λ (db : Db). db.scans) (transition_scan-synced scan_id to reason output now s e)
          ∙ transition_scan-rows scan_id to reason output true now s
          ∙ ap (λ (db : Db). rows_after (transition scan_id to reason output true now) db.scans)
              (sym e))
        h

  shielded-Sees :
      (interrupted : Bool) (moved : Result StateError Bool × Session)
      → Sees moved.1
      → Sees (shielded interrupted moved).1
  shielded-Sees interrupted (err e, s) h = h
  shielded-Sees true (ok won, s) h = h
  shielded-Sees false (ok true, s) h = h
  shielded-Sees false (ok false, s) h = h

  reraise-Sees : (moved : Result StateError Bool × Session) → Sees moved.1 → Sees (reraise moved).1
  reraise-Sees (err e, s) h = h
  reraise-Sees (ok won, s) h = h

  while_claimed-Sees :
      (answer : Result Raised ScanOutcome × Session) → Sees answer.1 → Sees (while_claimed answer).1
  while_claimed-Sees (ok outcome, s) h = h
  while_claimed-Sees (err e, s) h = h

  at_step-Sees :
      (step : Step) (claimed : Bool) (s s' : Session) (next : Body)
      → Sees s
      → Sees s'
      → Sees next.1
      → Sees (at_step step claimed s s' next).1
  at_step-Sees done claimed s s' next h h' t = t
  at_step-Sees raises claimed s s' next h h' t = h
  at_step-Sees interrupted_before claimed s s' next h h' t = h
  at_step-Sees interrupted_after claimed s s' next h h' t = h'

  module _ (scan_id : ℕ) (plan : Plan) (ours : (op : Op) → OfScan scan_id op → P op)
      (theirs : All P plan.meanwhile) where
    fail_scan-Sees :
        (c : Cleanup) (reason : String) (s : Session)
        → Sees s
        → Sees (fail_scan scan_id plan c reason s).1
    unfolding fail_scan
    fail_scan-Sees goes reason s h = shielded-Sees false (fail_transition scan_id plan reason s) (
        committing-Sees scan_id "failed" (some reason) none plan.ended_at (rollback s)
          (ours (transition scan_id _ _ _ _ _) refl) refl h)
    fail_scan-Sees goes_interrupted reason s h =
        shielded-Sees true (fail_transition scan_id plan reason s) (
          committing-Sees scan_id "failed" (some reason) none plan.ended_at (rollback s)
            (ours (transition scan_id _ _ _ _ _) refl) refl h)
    fail_scan-Sees breaks reason s h = h

    cancel_running-Sees :
        (c : Cleanup) (s : Session) → Sees s → Sees (cancel_running scan_id plan c s).1
    unfolding cancel_running
    cancel_running-Sees goes s h =
        reraise-Sees (transition_scan scan_id "cancelled" none none true plan.ended_at (rollback s))
          (committing-Sees scan_id "cancelled" none none plan.ended_at (rollback s)
            (ours (transition scan_id _ _ _ _ _) refl) refl h)
    cancel_running-Sees goes_interrupted s h =
        reraise-Sees (transition_scan scan_id "cancelled" none none true plan.ended_at (rollback s))
          (committing-Sees scan_id "cancelled" none none plan.ended_at (rollback s)
            (ours (transition scan_id _ _ _ _ _) refl) refl h)
    cancel_running-Sees breaks s h = h

    settled-Sees :
        (moved : Result StateError Bool × Session)
        → Sees moved.1
        → Sees (commit moved.1)
        → Sees (settled scan_id plan moved).1
    settled-Sees (err e, s) h k = h
    settled-Sees (ok false, s) h k = h
    settled-Sees (ok true, s) h k =
        at_step-Sees plan.committing true s (commit s) (ok completed_scan, commit s) h k k

    complete-Sees :
        (st : GraphState) (s : Session)
        → s.working.scans ≡ s.committed.scans
        → Sees s
        → Sees (complete scan_id plan st s).1
    unfolding complete
    complete-Sees st s w h =
        let moved =
          transition_scan scan_id "completed" none (some (raw_of st)) false plan.ended_at s in
        let h' : Sees moved.1 =
          rw
            (transition_scan-uncommitted scan_id "completed" none (some (raw_of st)) plan.ended_at
              s)
            h in
        let k : Sees (commit moved.1) =
          Reached-All P start s.committed.scans moved.1.working.scans
            (transition scan_id "completed" none (some (raw_of st)) false plan.ended_at ∷ [])
            (ours (transition scan_id _ _ _ _ _) refl, tt)
            (transition_scan-rows scan_id "completed" none (some (raw_of st)) false plan.ended_at s
              ∙ ap
                  (rows_after
                    (transition scan_id "completed" none (some (raw_of st)) false plan.ended_at))
                  w)
            h in
        at_step-Sees plan.completing true s moved.1 (settled scan_id plan moved) h h'
          (settled-Sees moved h' k)

    conclude-Sees :
        (answer : Result Raised GraphState × List Vulnerability) (s : Session)
        → s.working.scans ≡ s.committed.scans
        → Sees s
        → Sees (conclude scan_id plan answer s).1
    unfolding conclude
    conclude-Sees (err e, rows) s w h = h
    conclude-Sees (ok st, rows) s w h = elim (Bool-cases (has_error st)) [
      | inl e ↦ rw e (
          while_claimed-Sees
            (fail_scan scan_id plan plan.failing (reason_of st) (with_findings rows s))
            (fail_scan-Sees plan.failing (reason_of st) (with_findings rows s) h))
      | inr e ↦ rw e (complete-Sees st (with_findings rows s) w h)
    ]

    interleave-Sees :
        (ops : List Op) (s : Session)
        → All P ops
        → Sees s
        → Sees (interleave ops s)
          × ((interleave ops s).working.scans ≡ (interleave ops s).committed.scans)
    unfolding interleave
    interleave-Sees ops s may h = (
      Reached-All P start s.committed.scans (interleave ops s).committed.scans ops may
          (run_all-rows ops (record { committed = s.committed; working = s.committed })) h,
      refl,
    )

    module _ (tenant : ℕ) (tools : Tools) where
      run_claimed-Sees :
          (asset : AssetKey) (s : Session)
          → Sees s
          → Sees (run_claimed scan_id plan tenant tools asset s).1
      unfolding run_claimed
      run_claimed-Sees asset s h =
          let answer =
            run_agent_safely tools scan_id tenant asset.asset_type asset.value
              s.working.vulnerabilities in
          let (k, w) = interleave-Sees plan.meanwhile s theirs h in
          at_step-Sees plan.preparing true s s
            (conclude scan_id plan answer (interleave plan.meanwhile s)) h h
            (conclude-Sees answer (interleave plan.meanwhile s) w k)

      claimed_now-Sees :
          (asset : AssetKey) (moved : Result StateError Bool × Session)
          → Sees moved.1
          → Sees (claimed_now scan_id plan tenant tools asset moved).1
      claimed_now-Sees asset (err e, s) h = h
      claimed_now-Sees asset (ok false, s) h = h
      claimed_now-Sees asset (ok true, s) h = run_claimed-Sees asset s h

      with_asset-Sees :
          (claimed : Bool) (asset : Option AssetKey) (s : Session)
          → s.committed ≡ s.working
          → Sees s
          → Sees (with_asset scan_id plan tenant tools claimed asset s).1
      unfolding claim_first
      with_asset-Sees true none s e h =
          while_claimed-Sees (fail_scan scan_id plan plan.failing "asset_missing" s)
            (fail_scan-Sees plan.failing "asset_missing" s h)
      with_asset-Sees false none s e h = h
      with_asset-Sees true (some asset) s e h = run_claimed-Sees asset s h
      with_asset-Sees false (some asset) s e h =
          let moved = transition_scan scan_id "running" none none true plan.claimed_at s in
          let k =
            committing-Sees scan_id "running" none none plan.claimed_at s
              (ours (transition scan_id _ _ _ _ _) refl) e h in
          at_step-Sees plan.claiming false s moved.1
            (claimed_now scan_id plan tenant tools asset moved) h k (claimed_now-Sees asset moved k)

      handled-Sees : (body : Body) → Sees body.1 → Sees (handled scan_id plan tenant tools body).1
      unfolding handled
      handled-Sees (ok outcome, s) h = h
      handled-Sees (err (false, e), s) h = h
      handled-Sees (err (true, internal), s) h = fail_scan-Sees plan.recovering "internal_error" s h
      handled-Sees (err (true, cancelled_task), s) h = cancel_running-Sees plan.cancelling s h

      -- Whatever raises or is cancelled, `execute_scan` changes the committed scans by transitions
      -- of the scan and by the operations of the state machine that run meanwhile.
      pub execute_scan-Reached :
          (claimed : Bool) (s : Session)
          → s.committed ≡ s.working
          → Sees s
          → Sees (execute_scan scan_id plan tenant tools claimed s).1
      unfolding execute_scan scan_body
      execute_scan-Reached claimed s e h =
          let next =
            with_asset scan_id plan tenant tools claimed (load_scan scan_id tenant s.working) s in
          handled-Sees (at_step plan.loading claimed s s next) (
            at_step-Sees plan.loading claimed s s next h h
              (with_asset-Sees claimed (load_scan scan_id tenant s.working) s e h))
