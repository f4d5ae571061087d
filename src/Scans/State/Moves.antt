-- ===== src/Scans/State/Moves.antt =====
-- What `transition_scan` of app/modules/scans/state.py does to the scans table.
use soc360_pymes.Prelude.{
  ℕ, ◌≡◌, ◌⊎◌, inl, inr, refl, ap, sym, ◌∙◌, String, Bool, true, false, Option, none, some, List,
  arith, if◌then◌else◌, ◌==◌, Pointwise, Pointwise-refl,
}
use soc360_pymes.Sql.{
  update_where, by_key, UniqueKeys, Pointwise-update_where, by_key-update_where, count_where-by_key,
  hit, update_where-none, map_option,
}
use soc360_pymes.Outcome.{ok, err, Result-cases}
use soc360_pymes.Database.{Scan, Session}
use soc360_pymes.Scans.Status.{ScanStatus, parse_status}
use soc360_pymes.Scans.State.{
  StateError, check_transition, may_move, assign, commit_if, move_scan, transition_scan,
}
use soc360_pymes.Scans.State.Edges.{Edge, allowed_from→Edge}

-- A row is left as it was, or is the one named and moves along an edge of the machine; its identity
-- stays.
abbrev pub Moved : ℕ → Scan → Scan → Type 0
Moved scan_id a b =
    (a ≡ b)
    ⊎ ((a.id ≡ scan_id)
        × (b.id ≡ a.id)
        × (b.tenant_id ≡ a.tenant_id)
        × (b.asset_id ≡ a.asset_id)
        × (b.name ≡ a.name)
        × Edge a.status b.status)

pub may_move-id :
    (scan_id : ℕ) (t : ScanStatus) (a : Scan) → may_move scan_id t a ≡ true → a.id ≡ scan_id
unfolding may_move
may_move-id scan_id t a h = ground arith

pub may_move-Edge :
    (scan_id : ℕ) (t : ScanStatus) (a : Scan) → may_move scan_id t a ≡ true → Edge a.status t
unfolding may_move
may_move-Edge scan_id t a h = allowed_from→Edge a.status t (ground arith)

commit_if-working : (b : Bool) (s : Session) → (commit_if b s).working ≡ s.working
commit_if-working true s = refl
commit_if-working false s = refl

module _ (scan_id : ℕ) (t : ScanStatus) (reason output : Option String) (commits : Bool) (now : ℕ)
    (s : Session) where
  abbrev pub rows : List Scan
  rows = s.working.scans

  pub move_scan-rows :
      (move_scan scan_id t reason output commits now s).1.working.scans
      ≡ update_where (may_move scan_id t) (assign t reason output now) rows
  unfolding move_scan
  move_scan-rows = rw commit_if-working

  move_scan-Moved :
      Pointwise
        (Moved scan_id)
        rows
        (move_scan scan_id t reason output commits now s).1.working.scans
  unfolding assign
  move_scan-Moved = rw move_scan-rows (
      Pointwise-update_where (Moved scan_id) (may_move scan_id t) (assign t reason output now)
        (λ a h.
          inr (may_move-id scan_id t a h, refl, refl, refl, refl, may_move-Edge scan_id t a h))
        (λ a h. inl refl) rows)

  -- The answer says whether the row at the id may move.
  pub move_scan-hit :
      UniqueKeys (λ (r : Scan). r.id) rows
      → (move_scan scan_id t reason output commits now s).0
        ≡ (hit (may_move scan_id t) (by_key (λ (r : Scan). r.id) scan_id rows) == 1)
  unfolding move_scan
  move_scan-hit u =
      ap (λ (n : ℕ). n == 1)
        (count_where-by_key (λ r. r.id) (may_move scan_id t) scan_id (may_move-id scan_id t) rows u)

  -- What stands at an id afterwards.
  pub move_scan-by_key :
      (k : ℕ)
      → by_key
          (λ (r : Scan). r.id)
          k
          (move_scan scan_id t reason output commits now s).1.working.scans
        ≡ map_option
            (λ a. if may_move scan_id t a then assign t reason output now a else a)
            (by_key (λ (r : Scan). r.id) k rows)
  unfolding assign
  move_scan-by_key k = rw move_scan-rows (
      by_key-update_where (λ r. r.id) (may_move scan_id t) (assign t reason output now) (λ a. refl)
        k rows)

-- The row at the id may not move: nothing is written.
hit-zero : (p : Scan → Bool) (o : Option Scan) → (hit p o == 1) ≡ false → hit p o ≡ 0
hit-zero p none h = refl
hit-zero p (some r) h = ground arith

pub move_scan-lost :
    (scan_id : ℕ) (t : ScanStatus) (reason output : Option String) (commits : Bool) (now : ℕ)
    (s : Session)
    → UniqueKeys (λ (r : Scan). r.id) s.working.scans
    → (move_scan scan_id t reason output commits now s).0 ≡ false
    → (move_scan scan_id t reason output commits now s).1.working.scans ≡ s.working.scans
move_scan-lost scan_id t reason output commits now s u h =
    move_scan-rows scan_id t reason output commits now s
    ∙ update_where-none (may_move scan_id t) (assign t reason output now) s.working.scans (
        count_where-by_key (λ r. r.id) (may_move scan_id t) scan_id (may_move-id scan_id t)
          s.working.scans u
        ∙ hit-zero (may_move scan_id t) (by_key (λ r. r.id) scan_id s.working.scans)
            (sym (move_scan-hit scan_id t reason output commits now s u) ∙ h))

module _ (scan_id : ℕ) (to : String) (reason output : Option String) (commits : Bool) (now : ℕ)
    (s : Session) where
  pub transition_scan-ok :
      {t : ScanStatus}
      → check_transition to reason output ≡ ok t
      → transition_scan scan_id to reason output commits now s ≡ (
        ok (move_scan scan_id t reason output commits now s).0,
        (move_scan scan_id t reason output commits now s).1,
      )
  unfolding transition_scan
  transition_scan-ok e = rw (e, transition_scan)

  pub transition_scan-err :
      {x : StateError}
      → check_transition to reason output ≡ err x
      → transition_scan scan_id to reason output commits now s ≡ (err x, s)
  unfolding transition_scan
  transition_scan-err e = rw (e, transition_scan)

  pub check_transition-parse :
      {t : ScanStatus} → check_transition to reason output ≡ ok t → parse_status to ≡ some t
  unfolding check_transition
  check_transition-parse e = ground arith

-- Every row of the table is unchanged or moves along an edge, whatever the arguments.
transition_scan-Moved :
    (scan_id : ℕ) (to : String) (reason output : Option String) (commits : Bool) (now : ℕ)
    (s : Session)
    → Pointwise
        (Moved scan_id)
        s.working.scans
        (transition_scan scan_id to reason output commits now s).1.working.scans
transition_scan-Moved scan_id to reason output commits now s =
    elim (Result-cases (check_transition to reason output)) [
      | inl (t, e) ↦
          rw (transition_scan-ok scan_id to reason output commits now s e)
            (move_scan-Moved scan_id t reason output commits now s)
      | inr (x, e) ↦
          rw (transition_scan-err scan_id to reason output commits now s e)
            (Pointwise-refl (Moved scan_id) (λ a. inl refl) s.working.scans)
    ]
