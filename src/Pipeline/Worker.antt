-- ===== src/Pipeline/Worker.antt =====
-- The tasks of app/worker/tasks.py over the committed database: `_wake`, `_reap` and `_pump`. A
-- session begins with what is committed, and what it has not committed is gone when it closes.
use soc360_pymes.Prelude.{
  ℕ, zero, suc, ◌+◌, ◌*◌, Bool, true, not, ◌&&◌, Option, none, some, List, [], map, if◌then◌else◌,
  ◌==◌,
}
use soc360_pymes.Sql.{select}
use soc360_pymes.Outcome.{Result, ok, err}
use soc360_pymes.Database.{Db, Session, Vulnerability}
use soc360_pymes.Scans.State.{claim_next_scan, reap_stale_scans, count_ready_scans, StateError}
use soc360_pymes.Pipeline.Graph.{
  Step, done, raises, interrupted_before, interrupted_after, Raised, internal, cancelled_task,
  Tools,
}
use soc360_pymes.Pipeline.Executor.{ScanOutcome, completed_scan, cancelled_scan, Plan, execute_scan}
use soc360_pymes.Pipeline.Track.{fresh_session}

-- `hard_time_limit_seconds` and `STALE_SCAN_SECONDS` of app/worker/celery_app.py
abbrev pub hard_time_limit_seconds : ℕ
hard_time_limit_seconds = 3600 + 2 * 300

abbrev pub stale_scan_seconds : ℕ
stale_scan_seconds = hard_time_limit_seconds + 300

abbrev pub pump_max_bells : ℕ
pump_max_bells = 10

-- The settings of a run, and what it does not decide: the rows that other transactions have locked,
-- the clock of the claim, what the claim does, whether the watcher sees the cancellation before the
-- executor ends, and whether the lookup of the findings goes through.
pub record Run : Type 1 where
  pub execution_enabled : Bool
  pub enrichment_enabled : Bool
  pub locked : ℕ → Bool
  pub now : ℕ
  pub claiming : Step
  pub watcher_first : Bool
  pub lookup_goes : Bool
  pub plan : Plan
  pub tools : Tools

-- what the task returns
pub data Woken : Type 0 where
  disabled idle : Woken
  ended : ScanOutcome → Woken

-- The answer, the ids of the findings for which an enrichment is asked, and the committed database.
pub record Wake : Type 0 where
  pub answer : Result Raised Woken
  pub enqueued : List ℕ
  pub db : Db

abbrev pub nothing : Result Raised Woken → Db → Wake
nothing answer db = record { answer = answer; enqueued = []; db = db }

-- the ids that the lookup after a completion finds
abbrev pub findings_of : ℕ → Db → List ℕ
findings_of scan_id db =
    map (λ (v : Vulnerability). v.id) (select (λ v. v.scan_id == scan_id) db.vulnerabilities)

abbrev pub enqueued_after : Run → ℕ → ScanOutcome → Db → List ℕ
enqueued_after run scan_id completed_scan db =
    if run.enrichment_enabled && run.lookup_goes then findings_of scan_id db else []
enqueued_after run scan_id _ db = []

-- what the task makes of the executor's end
abbrev pub woken : Run → ℕ → Result Raised ScanOutcome × Session → Wake
woken run scan_id (err e, s) =
    if run.watcher_first
    then nothing (ok (ended cancelled_scan)) s.committed
    else nothing (err e) s.committed
woken run scan_id (ok outcome, s) =
    if run.watcher_first then nothing (ok (ended cancelled_scan)) s.committed else record {
      answer = ok (ended outcome);
      enqueued = enqueued_after run scan_id outcome s.committed;
      db = s.committed;
    }

unfoldable pub run_claim : Run → Option (ℕ × ℕ) × Session → Wake
unfolding execute_scan
run_claim run (none, s) = nothing (ok idle) s.committed
run_claim run (some (scan_id, tenant), s) =
    woken run scan_id
      (execute_scan scan_id run.plan tenant run.tools true (fresh_session s.committed))

-- what the claim's session does, then the run
abbrev pub after_claim : Step → Run → Option (ℕ × ℕ) × Session → Db → Wake
after_claim done run claimed db = run_claim run claimed
after_claim raises run claimed db = nothing (err internal) db
after_claim interrupted_before run claimed db = nothing (err cancelled_task) db
after_claim interrupted_after run claimed db = nothing (err cancelled_task) claimed.1.committed

-- `_wake`
unfoldable pub wake : Run → Db → Wake
unfolding run_claim claim_next_scan
wake run db =
    if not run.execution_enabled
    then nothing (ok disabled) db
    else after_claim run.claiming run (claim_next_scan run.locked run.now (fresh_session db)) db

-- `_reap`
unfoldable pub reap_task : ℕ → Db → Result StateError ℕ × Db
unfolding reap_stale_scans
reap_task now db =
    let (count, s) = reap_stale_scans now stale_scan_seconds (fresh_session db) in
    (count, s.committed)

-- `for _ in range(count): bell()`, as the number of bells
unfoldable pub ring : ℕ → ℕ → ℕ
ring zero bells = bells
ring (suc count) bells = ring count (bells + 1)

-- `_pump`: the count, the bells that were rung before and by it, and the database
abbrev pub rung : Result StateError ℕ × Session → ℕ → Result StateError ℕ × (ℕ × Db)
rung (err e, s) bells = (err e, (bells, s.committed))
rung (ok count, s) bells = (ok count, (ring count bells, s.committed))

unfoldable pub pump_task : Bool → Db → ℕ → Result StateError ℕ × (ℕ × Db)
unfolding count_ready_scans ring
pump_task execution_enabled db bells =
    if not execution_enabled
    then (ok 0, (bells, db))
    else rung (count_ready_scans pump_max_bells (fresh_session db)) bells
