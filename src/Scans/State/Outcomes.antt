-- ===== src/Scans/State/Outcomes.antt =====
-- The answer of `transition_scan` of app/modules/scans/state.py, read off the row at the id.
use soc360_pymes.Prelude.{
  ℕ, ◌≡◌, inl, inr, refl, ap, sym, ◌∙◌, String, Bool, true, false, Option, none, some, List, arith,
  if◌then◌else◌, ◌==◌,
}
use soc360_pymes.Sql.{by_key, by_key-key, UniqueKeys, hit, map_option}
use soc360_pymes.Outcome.{ok, Result-cases}
use soc360_pymes.Database.{Scan, Session}
use soc360_pymes.Scans.Status.{ScanStatus, running, status_eq, parse_status}
use soc360_pymes.Scans.State.{check_transition, may_move, assign, move_scan, transition_scan}
use soc360_pymes.Scans.State.Edges.{Edge, Edge→allowed_from}
use soc360_pymes.Scans.State.Moves.{
  may_move-Edge, move_scan-hit, move_scan-lost, move_scan-by_key, transition_scan-ok,
  transition_scan-err, check_transition-parse,
}

abbrev pub scan_by_id : ℕ → List Scan → Option Scan
scan_by_id = by_key (λ r. r.id)

abbrev pub UniqueIds : List Scan → Type 0
UniqueIds = UniqueKeys (λ r. r.id)

hit_one :
    (p : Scan → Bool) (o : Option Scan)
    → (hit p o == 1) ≡ true
    → (r : Scan) × (o ≡ some r) × (p r ≡ true)
hit_one p none h = cc
hit_one p (some r) h = (r, refl, ground arith)

hit_other :
    (p : Scan → Bool) (o : Option Scan)
    → (hit p o == 1) ≡ false
    → (r : Scan) → o ≡ some r
    → p r ≡ false
hit_other p none h r e = cc
hit_other p (some r) h r' e = ground arith

-- where `may_move` fails although the edge exists: a claim of a scan that was never dispatched
may_move_blocked :
    (scan_id : ℕ) (t : ScanStatus) (r : Scan)
    → r.id ≡ scan_id
    → Edge r.status t
    → may_move scan_id t r ≡ false
    → (t ≡ running) × (r.dispatched_at ≡ none)
unfolding may_move status_eq
may_move_blocked scan_id t r e g h = ground (arith, Edge→allowed_from g)

module _ (scan_id : ℕ) (reason output : Option String) (commits : Bool) (now : ℕ) (s : Session)
    (u : UniqueIds s.working.scans) where
  abbrev moved_row : ScanStatus → Scan → Scan
  moved_row t a = if may_move scan_id t a then assign t reason output now a else a

  move_scan_won :
      (t : ScanStatus)
      → (move_scan scan_id t reason output commits now s).0 ≡ true
      → (row : Scan) × (scan_by_id scan_id s.working.scans ≡ some row)
        × Edge row.status t
        × (scan_by_id scan_id (move_scan scan_id t reason output commits now s).1.working.scans
            ≡ some (assign t reason output now row))
  move_scan_won t h =
      let (r, found, moves) =
        hit_one (may_move scan_id t) (scan_by_id scan_id s.working.scans)
          (sym (move_scan-hit scan_id t reason output commits now s u) ∙ h) in
      (
        r,
        found,
        may_move-Edge scan_id t r moves,
        move_scan-by_key scan_id t reason output commits now s scan_id
            ∙ ap (map_option (moved_row t)) found
            ∙ ap (λ (b : Bool). some (if b then assign t reason output now r else r)) moves,
      )

  move_scan_lost :
      (t : ScanStatus)
      → (move_scan scan_id t reason output commits now s).0 ≡ false
      → (row : Scan) → scan_by_id scan_id s.working.scans ≡ some row
      → Edge row.status t
      → (t ≡ running) × (row.dispatched_at ≡ none)
  move_scan_lost t h row found edge =
      may_move_blocked scan_id t row (by_key-key (λ r. r.id) scan_id s.working.scans found) edge (
        hit_other (may_move scan_id t) (scan_by_id scan_id s.working.scans)
          (sym (move_scan-hit scan_id t reason output commits now s u) ∙ h) row found)

module _ (scan_id : ℕ) (to : String) (reason output : Option String) (commits : Bool) (now : ℕ)
    (s : Session) where
  -- With ids that name one row each, the answer True means that the row at the id stood at an edge
  -- to the target, and that it now is the row that the assignments of the target make of it.
  pub transition_scan_won :
      UniqueIds s.working.scans
      → (transition_scan scan_id to reason output commits now s).0 ≡ ok true
      → (t : ScanStatus) × (row : Scan) × (parse_status to ≡ some t)
        × (scan_by_id scan_id s.working.scans ≡ some row)
        × Edge row.status t
        × (scan_by_id scan_id
              (transition_scan scan_id to reason output commits now s).1.working.scans
            ≡ some (assign t reason output now row))
  transition_scan_won u h = elim (Result-cases (check_transition to reason output)) [
    | inl (t, e) ↦
        let eq = transition_scan-ok scan_id to reason output commits now s e in
        let (row, found, edge, after) =
          move_scan_won scan_id reason output commits now s u t (cc (h, eq)) in
        (
          t,
          row,
          check_transition-parse scan_id to reason output commits now s e,
          found,
          edge,
          rw eq after,
        )
    | inr (x, e) ↦ absurd (cc (h, transition_scan-err scan_id to reason output commits now s e))
  ]

  -- With ids that name one row each, the answer False means that the table is as it was, and that
  -- the row at the id, if there is one, had no edge to the target, or was never dispatched and
  -- the target is `running`.
  pub transition_scan_lost :
      UniqueIds s.working.scans
      → (transition_scan scan_id to reason output commits now s).0 ≡ ok false
      → (t : ScanStatus) × (parse_status to ≡ some t)
        × ((transition_scan scan_id to reason output commits now s).1.working.scans
            ≡ s.working.scans)
        × ((row : Scan)
            → scan_by_id scan_id s.working.scans ≡ some row
            → Edge row.status t
            → (t ≡ running) × (row.dispatched_at ≡ none))
  transition_scan_lost u h = elim (Result-cases (check_transition to reason output)) [
    | inl (t, e) ↦
        let eq = transition_scan-ok scan_id to reason output commits now s e in
        (
          t,
          check_transition-parse scan_id to reason output commits now s e,
          rw eq (move_scan-lost scan_id t reason output commits now s u (cc (h, eq))),
          move_scan_lost scan_id reason output commits now s u t (cc (h, eq)),
        )
    | inr (x, e) ↦ absurd (cc (h, transition_scan-err scan_id to reason output commits now s e))
  ]
