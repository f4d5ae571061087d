-- ===== src/Pipeline/Atomic.antt =====
-- Findings and completion are committed together: `execute_scan` of app/modules/scans/executor.py.
use soc360_pymes.Prelude.{
  ℕ, ◌≡◌, inl, inr, refl, ap, ◌∙◌, String, Bool, true, false, Option, some, List, arith,
  if◌then◌else◌,
}
use soc360_pymes.Outcome.{Result-cases}
use soc360_pymes.Database.{Scan, Session, rollback, Vulnerability}
use soc360_pymes.Scans.Status.{
  ScanStatus, completed, status_eq, is_in, allowed_from, scan_transitions,
}
use soc360_pymes.Scans.State.{
  transition_scan, move_scan, may_move, assign, check_transition, commit_if,
}
use soc360_pymes.Scans.State.Moves.{transition_scan-ok, transition_scan-err, move_scan-by_key}
use soc360_pymes.Scans.State.Outcomes.{scan_by_id}
use soc360_pymes.Pipeline.Terminal.{map_option-some, transition_scan-synced}

commit_if-findings :
    (b : Bool) (s : Session) → (commit_if b s).working.vulnerabilities ≡ s.working.vulnerabilities
commit_if-findings true s = refl
commit_if-findings false s = refl

completed_stays :
    (scan_id : ℕ) (t : ScanStatus) (reason output : Option String) (now : ℕ) (row : Scan)
    → row.status ≡ completed
    → (if may_move scan_id t row then assign t reason output now row else row) ≡ row
unfolding may_move is_in allowed_from scan_transitions status_eq
completed_stays scan_id t reason output now row e = ground arith

module _ (scan_id : ℕ) (to : String) (reason output : Option String) (commits : Bool) (now : ℕ)
    (s : Session) where
  pub transition_scan-findings :
      (transition_scan scan_id to reason output commits now s).1.working.vulnerabilities
      ≡ s.working.vulnerabilities
  unfolding move_scan
  transition_scan-findings = elim (Result-cases (check_transition to reason output)) [
    | inl (t, c) ↦
        rw (transition_scan-ok scan_id to reason output commits now s c)
          (commit_if-findings commits _)
    | inr (x, c) ↦ rw (transition_scan-err scan_id to reason output commits now s c) refl
  ]

  transition_scan-completed :
      (row : Scan)
      → scan_by_id scan_id s.working.scans ≡ some row
      → row.status ≡ completed
      → scan_by_id scan_id (transition_scan scan_id to reason output commits now s).1.working.scans
        ≡ some row
  transition_scan-completed row found e = elim (Result-cases (check_transition to reason output)) [
    | inl (t, c) ↦ rw (transition_scan-ok scan_id to reason output commits now s c) (
        move_scan-by_key scan_id t reason output commits now s scan_id
        ∙ map_option-some (λ a. if may_move scan_id t a then assign t reason output now a else a)
            (scan_by_id scan_id s.working.scans) found
        ∙ ap some (completed_stays scan_id t reason output now row e))
    | inr (x, c) ↦ rw (transition_scan-err scan_id to reason output commits now s c) found
  ]

-- The findings of a run and the completion of its row, both committed.
abbrev pub Finished : ℕ → List Vulnerability → Session → Type 0
Finished scan_id table s =
    (row : Scan) × (scan_by_id scan_id s.committed.scans ≡ some row)
    × (row.status ≡ completed)
    × (s.committed.vulnerabilities ≡ table)

-- what a statement of a cleanup keeps
pub record Kept (scan_id : ℕ) (s s' : Session) : Type 0 where
  pub findings : s'.committed.vulnerabilities ≡ s.committed.vulnerabilities
  pub finished : (table : List Vulnerability) → Finished scan_id table s → Finished scan_id table s'

pub cleanup-Kept :
    (scan_id : ℕ) (to : String) (reason output : Option String) (now : ℕ) (s : Session)
    → Kept scan_id s (transition_scan scan_id to reason output true now (rollback s)).1
cleanup-Kept scan_id to reason output now s =
    let synced = transition_scan-synced scan_id to reason output now (rollback s) refl in
    let same = transition_scan-findings scan_id to reason output true now (rollback s) in
    record {
      findings = rw synced same;
      finished = λ table f. (
        f.0,
        rw synced
            (transition_scan-completed scan_id to reason output true now (rollback s) f.0 f.1 f.2),
        f.2,
        rw synced (same ∙ f.3),
      );
    }
