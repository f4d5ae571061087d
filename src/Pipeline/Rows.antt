-- ===== src/Pipeline/Rows.antt =====
-- The operations of app/modules/scans/state.py as functions of the scans table alone.
use soc360_pymes.Prelude.{
  ℕ, ◌≡◌, refl, ap, ◌∙◌, inl, inr, String, Bool, true, Option, none, some, List, [], ◌∷◌, ◌++◌,
  ◌==◌, ◌&&◌, leb, if◌then◌else◌, Option-cases, Bool-cases,
}
use soc360_pymes.Sql.{update_where}
use soc360_pymes.Outcome.{Result, ok, err, Result-cases}
use soc360_pymes.Database.{Scan, Session}
use soc360_pymes.Scans.State.{
  StateError, check_transition, may_move, assign, transition_scan, oldest_ready, is_ready,
  start_run, is_stale, lose_worker, count_ready_scans, claim_next_scan, reap_stale_scans,
  cancel_scan,
}
use soc360_pymes.Scans.Status.{ScanStatus}
use soc360_pymes.Scans.State.Moves.{move_scan-rows, transition_scan-ok, transition_scan-err}
use soc360_pymes.Scans.State.Lifecycle.{
  Op, count_ready, claim, reap, transition, cancel, apply, run_all,
}

abbrev moved_rows :
    ℕ → Option String → Option String → ℕ → Result StateError ScanStatus → List Scan → List Scan
moved_rows scan_id reason output now (err e) rows = rows
moved_rows scan_id reason output now (ok t) rows =
    update_where (may_move scan_id t) (assign t reason output now) rows

abbrev claimed_rows : ℕ → Option Scan → List Scan → List Scan
claimed_rows now none rows = rows
claimed_rows now (some r) rows = update_where (λ x. x.id == r.id && is_ready x) (start_run now) rows

abbrev pub rows_after : Op → List Scan → List Scan
rows_after (count_ready limit) rows = rows
rows_after (claim locked now) rows = claimed_rows now (oldest_ready locked rows) rows
rows_after (reap now older_than) rows =
    if leb older_than 0 then rows else update_where (is_stale now older_than) (lose_worker now) rows
rows_after (transition scan_id to reason output commits now) rows =
    moved_rows scan_id reason output now (check_transition to reason output) rows
rows_after (cancel scan_id now) rows =
    moved_rows scan_id none none now (check_transition "cancelled" none none) rows

abbrev pub run_rows : List Op → List Scan → List Scan
run_rows [] rows = rows
run_rows (op ∷ ops) rows = run_rows ops (rows_after op rows)

pub transition_scan-rows :
    (scan_id : ℕ) (to : String) (reason output : Option String) (commits : Bool) (now : ℕ)
    (s : Session)
    → (transition_scan scan_id to reason output commits now s).1.working.scans
      ≡ rows_after (transition scan_id to reason output commits now) s.working.scans
transition_scan-rows scan_id to reason output commits now s =
    elim (Result-cases (check_transition to reason output)) [
      | inl (t, c) ↦
          rw (transition_scan-ok scan_id to reason output commits now s c, c)
            (move_scan-rows scan_id t reason output commits now s)
      | inr (x, c) ↦ rw (transition_scan-err scan_id to reason output commits now s c, c) refl
    ]

pub claim_next_scan-rows :
    (locked : ℕ → Bool) (now : ℕ) (s : Session)
    → (claim_next_scan locked now s).1.working.scans ≡ rows_after (claim locked now) s.working.scans
unfolding claim_next_scan
claim_next_scan-rows locked now s = elim (Option-cases (oldest_ready locked s.working.scans)) [
  | inl e ↦ rw (e, claim_next_scan) refl
  | inr (r, e) ↦ rw (e, claim_next_scan) refl
]

pub apply-rows :
    (op : Op) (s : Session) → (apply op s).working.scans ≡ rows_after op s.working.scans
unfolding apply cancel_scan count_ready_scans reap_stale_scans
apply-rows (count_ready limit) s = elim (Bool-cases (leb limit 0)) [
  | inl e ↦ rw (e, apply, count_ready_scans) refl
  | inr e ↦ rw (e, apply, count_ready_scans) refl
]
apply-rows (claim locked now) s = claim_next_scan-rows locked now s
apply-rows (reap now older_than) s = elim (Bool-cases (leb older_than 0)) [
  | inl e ↦ rw (e, apply, reap_stale_scans) refl
  | inr e ↦ rw (e, apply, reap_stale_scans) refl
]
apply-rows (transition scan_id to reason output commits now) s =
    transition_scan-rows scan_id to reason output commits now s
apply-rows (cancel scan_id now) s = transition_scan-rows scan_id "cancelled" none none true now s

pub run_all-rows :
    (ops : List Op) (s : Session) → (run_all ops s).working.scans ≡ run_rows ops s.working.scans
unfolding run_all
run_all-rows [] s = refl
run_all-rows (op ∷ ops) s = run_all-rows ops (apply op s) ∙ ap (run_rows ops) (apply-rows op s)

pub run_rows-append :
    (ops ops' : List Op) (rows : List Scan)
    → run_rows (ops ++ ops') rows ≡ run_rows ops' (run_rows ops rows)
run_rows-append [] ops' rows = refl
run_rows-append (op ∷ ops) ops' rows = run_rows-append ops ops' (rows_after op rows)
