-- ===== src/Pipeline/Terminal.antt =====
-- A claimed scan comes to an end: `execute_scan` of app/modules/scans/executor.py.
use mathlib.Core.Path.{subst}
use soc360_pymes.Prelude.{
  ℕ, ◌≡◌, inl, inr, refl, ap, ◌∙◌, String, Bool, true, false, Option, none, some, List, [], ◌∷◌,
  arith, if◌then◌else◌,
}
use soc360_pymes.Sql.{by_key-key, map_option, UniqueKeys-Pointwise, by_key-Pointwise}
use soc360_pymes.Outcome.{ok, Result-cases}
use soc360_pymes.Database.{Scan, Session}
use soc360_pymes.Scans.Status.{
  ScanStatus, pending, running, completed, failed, cancelled, status_eq, is_in, terminal_statuses,
  allowed_from, scan_transitions, parse_status,
}
use soc360_pymes.Scans.State.{transition_scan, move_scan, may_move, assign, check_transition}
use soc360_pymes.Scans.State.Edges.{Edge, finish}
use soc360_pymes.Scans.State.Moves.{move_scan-by_key, transition_scan-ok, transition_scan-err}
use soc360_pymes.Scans.State.Outcomes.{scan_by_id, UniqueIds, transition_scan_lost}
use soc360_pymes.Scans.State.Lifecycle.{Op, transition, apply, run_all, NotBack, run_all-NotBack}

-- The row at the id has left `pending`.
pub record Left (scan_id : ℕ) (rows : List Scan) : Type 0 where
  pub unique : UniqueIds rows
  pub row : Scan
  pub found : scan_by_id scan_id rows ≡ some row
  pub left : status_eq row.status pending ≡ false

-- The row at the id is terminal.
abbrev pub Ended : ℕ → List Scan → Type 0
Ended scan_id rows =
    (row : Scan) × (scan_by_id scan_id rows ≡ some row)
    × (is_in row.status terminal_statuses ≡ true)

-- a row that left `pending` is terminal, or runs and may move to any terminal status
moves_or_ended :
    (scan_id : ℕ) (t : ScanStatus) (reason output : Option String) (now : ℕ) (row : Scan)
    → row.id ≡ scan_id
    → is_in t terminal_statuses ≡ true
    → status_eq row.status pending ≡ false
    → is_in
        (if may_move scan_id t row then assign t reason output now row else row).status
        terminal_statuses
      ≡ true
unfolding may_move assign is_in terminal_statuses status_eq allowed_from scan_transitions
moves_or_ended scan_id t reason output now row e terminal left = ground arith

pub map_option-some :
    {A B : Type 0} (f : A → B) (o : Option A) {a : A} → o ≡ some a → map_option f o ≡ some (f a)
map_option-some f none e = cc
map_option-some f (some b) e = ap (map_option f) e

module _ (scan_id : ℕ) where
  pub move_scan-Ended :
      (t : ScanStatus) (reason output : Option String) (commits : Bool) (now : ℕ) (s : Session)
      → is_in t terminal_statuses ≡ true
      → Left scan_id s.working.scans
      → Ended scan_id (move_scan scan_id t reason output commits now s).1.working.scans
  move_scan-Ended t reason output commits now s terminal h = (
    _,
    move_scan-by_key scan_id t reason output commits now s scan_id
        ∙ map_option-some (λ a. if may_move scan_id t a then assign t reason output now a else a)
            (scan_by_id scan_id s.working.scans) h.found,
    moves_or_ended scan_id t reason output now h.row
        (by_key-key (λ r. r.id) scan_id s.working.scans h.found) terminal h.left,
  )

  pub run_all-Left :
      (ops : List Op) (s : Session)
      → Left scan_id s.working.scans
      → Left scan_id (run_all ops s).working.scans
  run_all-Left ops s h =
      let kept = run_all-NotBack ops s in
      let (row, found, r) =
        by_key-Pointwise (λ x. x.id) NotBack (λ a b n. n.0) scan_id s.working.scans
          (run_all ops s).working.scans kept h.found in
      record {
        unique =
            UniqueKeys-Pointwise (λ x. x.id) NotBack (λ a b n. n.0) s.working.scans
              (run_all ops s).working.scans kept h.unique;
        row = row;
        found = found;
        left = r.1 h.left;
      }

  module _ (to : String) (reason output : Option String) (commits : Bool) (now : ℕ) where
    pub transition_scan-Left :
        (s : Session)
        → Left scan_id s.working.scans
        → Left scan_id (transition_scan scan_id to reason output commits now s).1.working.scans
    unfolding run_all apply
    transition_scan-Left s h =
        run_all-Left (transition scan_id to reason output commits now ∷ []) s h

    pub transition_scan-Ended :
        (t : ScanStatus) (s : Session)
        → check_transition to reason output ≡ ok t
        → is_in t terminal_statuses ≡ true
        → Left scan_id s.working.scans
        → Ended scan_id (transition_scan scan_id to reason output commits now s).1.working.scans
    transition_scan-Ended t s e terminal h =
        rw (transition_scan-ok scan_id to reason output commits now s e)
          (move_scan-Ended t reason output commits now s terminal h)

  -- a statement that commits leaves what it wrote committed
  pub transition_scan-synced :
      (to : String) (reason output : Option String) (now : ℕ) (s : Session)
      → s.committed ≡ s.working
      → (transition_scan scan_id to reason output true now s).1.committed
        ≡ (transition_scan scan_id to reason output true now s).1.working
  unfolding move_scan
  transition_scan-synced to reason output now s e =
      elim (Result-cases (check_transition to reason output)) [
        | inl (t, c) ↦ rw (transition_scan-ok scan_id to reason output true now s c) refl
        | inr (x, c) ↦ rw (transition_scan-err scan_id to reason output true now s c) e
      ]

  -- a statement that does not commit leaves what is committed
  pub transition_scan-uncommitted :
      (to : String) (reason output : Option String) (now : ℕ) (s : Session)
      → (transition_scan scan_id to reason output false now s).1.committed ≡ s.committed
  unfolding move_scan
  transition_scan-uncommitted to reason output now s =
      elim (Result-cases (check_transition to reason output)) [
        | inl (t, c) ↦ rw (transition_scan-ok scan_id to reason output false now s c) refl
        | inr (x, c) ↦ rw (transition_scan-err scan_id to reason output false now s c) refl
      ]

running_or_ended :
    (t : ScanStatus)
    → status_eq t pending ≡ false
    → (Edge t completed → completed ≡ running)
    → is_in t terminal_statuses ≡ true
unfolding status_eq is_in terminal_statuses
running_or_ended pending left lost = cc
running_or_ended running left lost = absurd (cc (lost finish))
running_or_ended completed left lost = refl
running_or_ended failed left lost = refl
running_or_ended cancelled left lost = refl

pub completed_parsed : (t : ScanStatus) → parse_status "completed" ≡ some t → completed ≡ t
unfolding parse_status
completed_parsed t e = ground arith

-- A completion that is refused finds the row at its end.
pub lost_Ended :
    (scan_id : ℕ) (reason output : Option String) (commits : Bool) (now : ℕ) (s : Session)
    → Left scan_id s.working.scans
    → (transition_scan scan_id "completed" reason output commits now s).0 ≡ ok false
    → Ended scan_id s.working.scans
lost_Ended scan_id reason output commits now s h e =
    let (t, parsed, same, lost) =
      transition_scan_lost scan_id "completed" reason output commits now s h.unique e in
    let c = completed_parsed t parsed in
    (
      h.row,
      h.found,
      running_or_ended h.row.status h.left
          (λ edge. c ∙ (lost h.row h.found (subst (Edge h.row.status) c edge)).0),
    )
