-- ===== src/Scans/State.antt =====
-- The conditional UPDATEs of app/modules/scans/state.py. A function is one statement on the scans
-- table of the session, with the rowcount as its answer; times are the clock that it reads.
pub mod Edges
pub mod Moves
pub mod Outcomes
pub mod Soundness
pub mod Lifecycle
pub mod Claim
pub mod Ready
pub mod Reap
use soc360_pymes.Prelude.{
  ℕ, suc, ◌+◌, String, Bool, true, false, not, ◌&&◌, ◌||◌, Option, none, some, List, [], ◌∷◌,
  if◌then◌else◌, str_eq, ltb, leb, ◌==◌, is_some, is_empty, min,
}
use Prim.Native.String
use soc360_pymes.Sql.{count_where, update_where}
use soc360_pymes.Outcome.{Result, ok, err}
use soc360_pymes.Database.{Scan, Session, commit, with_scans}
use soc360_pymes.Scans.Status.{
  ScanStatus, pending, running, completed, failed, status_eq, parse_status, is_in,
  terminal_statuses, allowed_from,
}

-- `len` of a text: its characters
unfoldable pub char_count : String → ℕ
char_count String.[] = 0
char_count (String.◌∷◌ c s) = suc (char_count s)

-- the `ValueError`s, by their message
pub data StateError : Type 0 where
  limit_not_positive seconds_not_positive : StateError
  unknown_status unreachable_status : StateError
  reason_required reason_not_allowed reason_too_long output_not_allowed : StateError

unfoldable pub is_ready : Scan → Bool
unfolding status_eq
is_ready s = status_eq s.status pending && is_some s.dispatched_at

-- `count_ready_scans`: the subquery stops at `limit` rows
unfoldable pub count_ready_scans : ℕ → Session → Result StateError ℕ × Session
unfolding is_ready
count_ready_scans limit s =
    if leb limit 0
    then (err limit_not_positive, s)
    else (ok (min limit (count_where is_ready s.working.scans)), commit s)

-- ORDER BY dispatched_at, id, over ready rows, whose dispatch time is set
abbrev pub dispatch_time : Scan → ℕ
dispatch_time s = elim s.dispatched_at [ none ↦ 0 | some t ↦ t ]

unfoldable pub before : Scan → Scan → Bool
before a b =
    ltb (dispatch_time a) (dispatch_time b) || (dispatch_time a == dispatch_time b && leb a.id b.id)

abbrev pub older : Scan → Option Scan → Scan
older x none = x
older x (some y) = if before x y then x else y

-- The subquery of the claim: the first ready row that no other transaction has locked.
unfoldable pub oldest_ready : (ℕ → Bool) → List Scan → Option Scan
unfolding is_ready before
oldest_ready locked [] = none
oldest_ready locked (x ∷ xs) =
    let rest = oldest_ready locked xs in
    if is_ready x && not (locked x.id) then some (older x rest) else rest

abbrev pub start_run : ℕ → Scan → Scan
start_run now s = record s { status = running; started_at = some now }

unfoldable pub claim_next_scan : (ℕ → Bool) → ℕ → Session → Option (ℕ × ℕ) × Session
unfolding oldest_ready is_ready
claim_next_scan locked now s = elim (oldest_ready locked s.working.scans) [
  | none ↦ (none, commit s)
  | some oldest ↦ (
    some (oldest.id, oldest.tenant_id),
    commit (
        with_scans s
          (update_where (λ r. r.id == oldest.id && is_ready r) (start_run now) s.working.scans)),
  )
]

-- `started_at <= now() - older_than`; NULL compares to nothing
unfoldable pub is_stale : ℕ → ℕ → Scan → Bool
unfolding status_eq
is_stale now older_than s =
    status_eq s.status running
    && elim s.started_at [ none ↦ false | some t ↦ leb (t + older_than) now ]

abbrev pub lose_worker : ℕ → Scan → Scan
lose_worker now s = record s {
  status = failed;
  failure_reason = some "worker_lost";
  completed_at = some now;
}

unfoldable pub reap_stale_scans : ℕ → ℕ → Session → Result StateError ℕ × Session
unfolding is_stale
reap_stale_scans now older_than s = if leb older_than 0 then (err seconds_not_positive, s) else (
  ok (count_where (is_stale now older_than) s.working.scans),
  commit (with_scans s (update_where (is_stale now older_than) (lose_worker now) s.working.scans)),
)

abbrev pub is_blank : Option String → Bool
is_blank none = true
is_blank (some t) = str_eq t ""

abbrev pub too_long : Option String → Bool
too_long none = false
too_long (some t) = ltb 64 (char_count t)

-- The checks of `transition_scan` that come before any statement, in the source's order.
unfoldable pub check_transition :
    String → Option String → Option String → Result StateError ScanStatus
unfolding parse_status allowed_from status_eq is_in
check_transition to reason output = elim (parse_status to) [
  | none ↦ err unknown_status
  | some target ↦
      if is_empty (allowed_from target)
      then err unreachable_status
      else if status_eq target failed && is_blank reason
      then err reason_required
      else if not (status_eq target failed) && is_some reason
      then err reason_not_allowed
      else if too_long reason
      then err reason_too_long
      else if is_some output && not (is_in target (completed ∷ failed ∷ []))
      then err output_not_allowed
      else ok target
]

-- the `values` of the UPDATE
unfoldable pub assign : ScanStatus → Option String → Option String → ℕ → Scan → Scan
unfolding status_eq is_in terminal_statuses
assign target reason output now s = record s {
  status = target;
  raw_output = if is_some output then output else s.raw_output;
  started_at = if status_eq target running then some now else s.started_at;
  completed_at =
      if not (status_eq target running) && is_in target terminal_statuses
      then some now
      else s.completed_at;
  failure_reason = if status_eq target failed then reason else s.failure_reason;
}

-- the WHERE clause
unfoldable pub may_move : ℕ → ScanStatus → Scan → Bool
unfolding status_eq is_in allowed_from
may_move scan_id target s =
    s.id == scan_id
    && is_in s.status (allowed_from target)
    && (not (status_eq target running) || is_some s.dispatched_at)

abbrev pub commit_if : Bool → Session → Session
commit_if true s = commit s
commit_if false s = s

-- the statement, the optional commit and the rowcount test
unfoldable pub move_scan :
    ℕ → ScanStatus → Option String → Option String → Bool → ℕ → Session → Bool × Session
unfolding may_move assign
move_scan scan_id target reason output commits now s = (
  count_where (may_move scan_id target) s.working.scans == 1,
  commit_if commits (
      with_scans s
        (update_where (may_move scan_id target) (assign target reason output now) s.working.scans)),
)

unfoldable pub transition_scan :
    ℕ
    → String
    → Option String
    → Option String
    → Bool
    → ℕ
    → Session
    → Result StateError Bool × Session
transition_scan scan_id to reason output commits now s = elim (check_transition to reason output) [
  | err e ↦ (err e, s)
  | ok target ↦ let (won, s') = move_scan scan_id target reason output commits now s in (ok won, s')
]

-- `cancel_scan` of state.py
unfoldable pub cancel_scan : ℕ → ℕ → Session → Result StateError Bool × Session
unfolding transition_scan
cancel_scan scan_id now s = transition_scan scan_id "cancelled" none none true now s
