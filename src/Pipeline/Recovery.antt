-- ===== src/Pipeline/Recovery.antt =====
-- The worker's tasks as operations of the scan state machine, and what the reaper makes of a run
-- that was lost: app/worker/tasks.py.
use mathlib.Core.List.{Mem, mem-cons_self, mem-cons_of_mem}
use soc360_pymes.Prelude.{
  ℕ, ◌+◌, ◌≤◌, ◌≡◌, ◌⊎◌, refl, ap, sym, ◌∙◌, All, inl, inr, Bool, true, false, Option, none, some,
  List, [], ◌∷◌, arith, Bool-cases, Option-cases,
}
use soc360_pymes.Sql.{update_where, Pointwise-update_where, by_key-Pointwise}
use soc360_pymes.Outcome.{Result, ok, err}
use soc360_pymes.Database.{Scan, Db, Session}
use soc360_pymes.Scans.Status.{status_eq, is_in, terminal_statuses}
use soc360_pymes.Scans.State.{
  oldest_ready, start_run, is_stale, lose_worker, claim_next_scan, reap_stale_scans,
}
use soc360_pymes.Scans.State.Outcomes.{scan_by_id, UniqueIds}
use soc360_pymes.Scans.State.Claim.{claim_next_scan-oldest}
use soc360_pymes.Scans.State.Lifecycle.{Op, claim}
use soc360_pymes.Pipeline.Graph.{Step, done, raises, interrupted_before, interrupted_after, Raised}
use soc360_pymes.Pipeline.Executor.{ScanOutcome, execute_scan}
use soc360_pymes.Pipeline.Flight.{in_flight, FlightKept, run_rows-FlightKept}
use soc360_pymes.Pipeline.Terminal.{Ended}
use soc360_pymes.Pipeline.Track.{fresh_session}
use soc360_pymes.Pipeline.Rows.{run_rows, claim_next_scan-rows}
use soc360_pymes.Pipeline.Refines.{Reached, Reached-refl, Reached-All, OfScan, execute_scan-Reached}
use soc360_pymes.Pipeline.Worker.{
  Run, woken, run_claim, after_claim, wake, reap_task, stale_scan_seconds,
}

-- what the claim and the reaper leave committed
claim-committed :
    (locked : ℕ → Bool) (now : ℕ) (db : Db)
    → (claim_next_scan locked now (fresh_session db)).1.committed
      ≡ (claim_next_scan locked now (fresh_session db)).1.working
unfolding claim_next_scan
claim-committed locked now db = elim (Option-cases (oldest_ready locked db.scans)) [
  | inl e ↦ rw (e, claim_next_scan) refl
  | inr (r, e) ↦ rw (e, claim_next_scan) refl
]

reap_task-rows :
    (now : ℕ) (db : Db)
    → (reap_task now db).1.scans
      ≡ update_where (is_stale now stale_scan_seconds) (lose_worker now) db.scans
unfolding reap_task reap_stale_scans
reap_task-rows now db = refl

-- a row in flight that the reaper meets late enough is terminal afterwards
abbrev Buried : ℕ → Scan → Scan → Type 0
Buried now a b = (b.id ≡ a.id) × (in_flight now a ≡ true → is_in b.status terminal_statuses ≡ true)

Buried-hit :
    (now later : ℕ) (a : Scan)
    → is_stale later stale_scan_seconds a ≡ true
    → Buried now a (lose_worker later a)
unfolding is_in terminal_statuses status_eq
Buried-hit now later a h = (refl, λ f. refl)

Buried-miss :
    (now later : ℕ) (a : Scan)
    → now + stale_scan_seconds ≤ later
    → is_stale later stale_scan_seconds a ≡ false
    → Buried now a a
unfolding is_stale
Buried-miss now later a l h = (refl, λ f. ground arith)

module _ (run : Run) (db : Db) where
  abbrev claimed : Option (ℕ × ℕ) × Session
  claimed = claim_next_scan run.locked run.now (fresh_session db)

  woken-db :
      (scan_id : ℕ) (end : Result Raised ScanOutcome × Session)
      → (woken run scan_id end).db ≡ end.1.committed
  woken-db scan_id (err e, s) = elim (Bool-cases run.watcher_first) [
    | inl e ↦ simp e refl
    | inr e ↦ simp e refl
  ]
  woken-db scan_id (ok outcome, s) = elim (Bool-cases run.watcher_first) [
    | inl e ↦ simp e refl
    | inr e ↦ simp e refl
  ]

  -- What the wake may do to the scans: its claim, transitions of the scan that it claims, and what
  -- runs meanwhile.
  abbrev pub MayDo : Op → Type 0
  MayDo op =
      (op ≡ claim run.locked run.now)
      ⊎ ((k : ℕ) × (tenant : ℕ) × (claimed.0 ≡ some (k, tenant)) × OfScan k op)
      ⊎ Mem op run.plan.meanwhile

  All-members : (Q : Op → Type 0) (ops : List Op) → ((op : Op) → Mem op ops → Q op) → All Q ops
  All-members Q [] f = tt
  All-members Q (op ∷ ops) f =
      (f op mem-cons_self, All-members Q ops (λ x m. f x (mem-cons_of_mem op m)))

  run_claim-Reached :
      (start : List Scan) (c : Option (ℕ × ℕ) × Session)
      → c.0 ≡ claimed.0
      → Reached MayDo start c.1.committed.scans
      → Reached MayDo start (run_claim run c).db.scans
  unfolding run_claim
  run_claim-Reached start (none, s) e h = h
  run_claim-Reached start (some (scan_id, tenant), s) e h =
      let end = execute_scan scan_id run.plan tenant run.tools true (fresh_session s.committed) in
      rw (woken-db scan_id end) (
        execute_scan-Reached MayDo start scan_id run.plan
          (λ op own. inr (inl (scan_id, tenant, sym e, own)))
          (All-members MayDo run.plan.meanwhile (λ op m. inr (inr m))) tenant run.tools true
          (fresh_session s.committed) refl h)

  claim-Reached : Reached MayDo db.scans claimed.1.committed.scans
  claim-Reached =
      Reached-All MayDo db.scans db.scans claimed.1.committed.scans (claim run.locked run.now ∷ [])
        (inl refl, tt)
        (ap (λ (d : Db). d.scans) (claim-committed run.locked run.now db)
          ∙ claim_next_scan-rows run.locked run.now (fresh_session db))
        (Reached-refl MayDo db.scans)

  after_claim-Reached :
      (step : Step) → Reached MayDo db.scans (after_claim step run claimed db).db.scans
  after_claim-Reached done = run_claim-Reached db.scans claimed refl claim-Reached
  after_claim-Reached raises = Reached-refl MayDo db.scans
  after_claim-Reached interrupted_before = Reached-refl MayDo db.scans
  after_claim-Reached interrupted_after = claim-Reached

  -- A wake changes the scans by its claim, by transitions of the scan that it claims, and by nothing
  -- else but the operations that other transactions run meanwhile, whatever raises or is cancelled.
  -- What others commit to the scans while Nmap runs are operations of the state machine, any of them.
  pub wake-Reached : Reached MayDo db.scans (wake run db).db.scans
  unfolding wake
  wake-Reached = elim (Bool-cases run.execution_enabled) [
    | inr off ↦ simp off (Reached-refl MayDo db.scans)
    | inl on ↦ simp on (after_claim-Reached run.claiming)
  ]

  -- The claim of the task is committed.
  abbrev pub ClaimGoes : Type 0
  ClaimGoes = (run.claiming ≡ done) ⊎ (run.claiming ≡ interrupted_after)

  from_claim :
      (step : Step)
      → (step ≡ done) ⊎ (step ≡ interrupted_after)
      → Reached MayDo claimed.1.committed.scans (after_claim step run claimed db).db.scans
  from_claim done h =
      run_claim-Reached claimed.1.committed.scans claimed refl (Reached-refl MayDo _)
  from_claim interrupted_after h = Reached-refl MayDo claimed.1.committed.scans
  from_claim raises (inl e) = cc
  from_claim raises (inr e) = cc
  from_claim interrupted_before (inl e) = cc
  from_claim interrupted_before (inr e) = cc

  wake-from_claim :
      run.execution_enabled ≡ true
      → ClaimGoes
      → Reached MayDo claimed.1.committed.scans (wake run db).db.scans
  unfolding wake
  wake-from_claim on h = simp on (from_claim run.claiming h)

  start_run-in_flight : (r : Scan) → in_flight run.now (start_run run.now r) ≡ true
  unfolding is_in terminal_statuses status_eq
  start_run-in_flight r = ground arith

  -- the claimed row is in flight when the task has ended, however it ended
  pub wake-in_flight :
      (k tenant : ℕ)
      → UniqueIds db.scans
      → run.execution_enabled ≡ true
      → ClaimGoes
      → claimed.0 ≡ some (k, tenant)
      → (row : Scan) × (scan_by_id k (wake run db).db.scans ≡ some row)
        × (in_flight run.now row ≡ true)
  wake-in_flight k tenant u on goes e =
      let (r, _, _, _, _, after) =
        claim_next_scan-oldest run.locked run.now (fresh_session db) k tenant u e in
      let found : scan_by_id k claimed.1.committed.scans ≡ some (start_run run.now r) =
        ap (λ (d : Db). scan_by_id k d.scans) (claim-committed run.locked run.now db) ∙ after in
      let (ops, _, same) = wake-from_claim on goes in
      let (row, there, kept) =
        by_key-Pointwise (λ x. x.id) (FlightKept run.now) (λ a b h. h.0) k claimed.1.committed.scans
          (run_rows ops claimed.1.committed.scans)
          (run_rows-FlightKept run.now ops claimed.1.committed.scans) found in
      (row, ap (scan_by_id k) same ∙ there, kept.1 (start_run-in_flight r))

-- A scan that a wake claims does not run for ever: however the wake ends, whatever raised or was
-- cancelled in it and whatever operations of the state machine ran meanwhile, its row is terminal after a reap that runs at least the stale time later. Ids
-- name one row each.
pub wake_reap-Ended :
    (run : Run) (db : Db) (k tenant later : ℕ)
    → UniqueIds db.scans
    → run.execution_enabled ≡ true
    → ClaimGoes run db
    → (claim_next_scan run.locked run.now (fresh_session db)).0 ≡ some (k, tenant)
    → run.now + stale_scan_seconds ≤ later
    → Ended k (reap_task later (wake run db).db).1.scans
wake_reap-Ended run db k tenant later u on goes e l =
    let (row, found, flying) = wake-in_flight run db k tenant u on goes e in
    let rows = (wake run db).db.scans in
    let (last, there, buried) =
      by_key-Pointwise (λ x. x.id) (Buried run.now) (λ a b h. h.0) k rows
        (update_where (is_stale later stale_scan_seconds) (lose_worker later) rows)
        (Pointwise-update_where (Buried run.now) (is_stale later stale_scan_seconds)
          (lose_worker later) (Buried-hit run.now later) (λ a h. Buried-miss run.now later a l h)
          rows)
        found in
    (last, ap (scan_by_id k) (reap_task-rows later (wake run db).db) ∙ there, buried.1 flying)
