-- ===== src/Pipeline/Flight.antt =====
-- No operation of app/modules/scans/state.py puts a scan that runs, or has ended, back.
use soc360_pymes.Prelude.{
  ℕ, String, ◌≡◌, refl, ◌∙◌, inl, inr, Bool, true, false, ◌&&◌, ◌||◌, Option, none, some, List, [],
  ◌∷◌, ◌==◌, leb, arith, Pointwise, Pointwise-refl, Pointwise-trans, Bool-cases, Option-cases,
}
use soc360_pymes.Sql.{update_where, Pointwise-update_where}
use soc360_pymes.Outcome.{Result-cases}
use soc360_pymes.Database.{Scan}
use soc360_pymes.Scans.Status.{
  ScanStatus, running, status_eq, is_in, terminal_statuses, allowed_from, scan_transitions,
}
use soc360_pymes.Scans.State.{
  check_transition, may_move, assign, oldest_ready, is_ready, start_run, is_stale, lose_worker,
}
use soc360_pymes.Scans.State.Lifecycle.{Op, count_ready, claim, reap, transition, cancel}
use soc360_pymes.Pipeline.Rows.{rows_after, run_rows}

-- The row is terminal, or runs since the given time.
abbrev pub in_flight : ℕ → Scan → Bool
in_flight now a =
    is_in a.status terminal_statuses
    || status_eq a.status running && elim a.started_at [ none ↦ false | some t ↦ t == now ]

-- no operation puts a row out of flight
abbrev pub FlightKept : ℕ → Scan → Scan → Type 0
FlightKept now a b = (b.id ≡ a.id) × (in_flight now a ≡ true → in_flight now b ≡ true)

module _ (now : ℕ) where
  FlightKept-refl : (a : Scan) → FlightKept now a a
  FlightKept-refl a = (refl, λ h. h)

  FlightKept-trans : (a b c : Scan) → FlightKept now a b → FlightKept now b c → FlightKept now a c
  FlightKept-trans a b c h k = (k.0 ∙ h.0, λ f. k.1 (h.1 f))

  assign-FlightKept :
      (scan_id : ℕ) (t : ScanStatus) (reason output : Option String) (at : ℕ) (a : Scan)
      → may_move scan_id t a ≡ true
      → FlightKept now a (assign t reason output at a)
  unfolding may_move assign is_in terminal_statuses status_eq allowed_from scan_transitions
  assign-FlightKept scan_id t reason output at a h = (refl, λ f. ground arith)

  start_run-FlightKept :
      (id at : ℕ) (a : Scan) → (a.id == id && is_ready a) ≡ true → FlightKept now a (start_run at a)
  unfolding is_ready is_in terminal_statuses status_eq
  start_run-FlightKept id at a h = (refl, λ f. ground arith)

  lose_worker-FlightKept : (at : ℕ) (a : Scan) → FlightKept now a (lose_worker at a)
  unfolding is_in terminal_statuses status_eq
  lose_worker-FlightKept at a = (refl, λ f. refl)

  update-FlightKept :
      (p : Scan → Bool) (f : Scan → Scan)
      → ((a : Scan) → p a ≡ true → FlightKept now a (f a))
      → (rows : List Scan) → Pointwise (FlightKept now) rows (update_where p f rows)
  update-FlightKept p f keep rows =
      Pointwise-update_where (FlightKept now) p f keep (λ a h. FlightKept-refl a) rows

  moved-FlightKept :
      (scan_id : ℕ) (to : String) (reason output : Option String) (commits : Bool) (at : ℕ)
      (rows : List Scan)
      → Pointwise
          (FlightKept now)
          rows
          (rows_after (transition scan_id to reason output commits at) rows)
  moved-FlightKept scan_id to reason output commits at rows =
      elim (Result-cases (check_transition to reason output)) [
        | inl (t, c) ↦ rw c (
            update-FlightKept (may_move scan_id t) (assign t reason output at)
              (assign-FlightKept scan_id t reason output at) rows)
        | inr (x, c) ↦ rw c (Pointwise-refl (FlightKept now) FlightKept-refl rows)
      ]

  rows_after-FlightKept :
      (op : Op) (rows : List Scan) → Pointwise (FlightKept now) rows (rows_after op rows)
  rows_after-FlightKept (count_ready limit) rows =
      Pointwise-refl (FlightKept now) FlightKept-refl rows
  rows_after-FlightKept (claim locked at) rows = elim (Option-cases (oldest_ready locked rows)) [
    | inl e ↦ rw e (Pointwise-refl (FlightKept now) FlightKept-refl rows)
    | inr (r, e) ↦ rw e (
        update-FlightKept (λ x. x.id == r.id && is_ready x) (start_run at)
          (start_run-FlightKept r.id at) rows)
  ]
  rows_after-FlightKept (reap at older_than) rows = elim (Bool-cases (leb older_than 0)) [
    | inl e ↦ rw e (Pointwise-refl (FlightKept now) FlightKept-refl rows)
    | inr e ↦ rw e (
        update-FlightKept (is_stale at older_than) (lose_worker at)
          (λ a h. lose_worker-FlightKept at a) rows)
  ]
  rows_after-FlightKept (transition scan_id to reason output commits at) rows =
      moved-FlightKept scan_id to reason output commits at rows
  rows_after-FlightKept (cancel scan_id at) rows =
      moved-FlightKept scan_id "cancelled" none none true at rows

  pub run_rows-FlightKept :
      (ops : List Op) (rows : List Scan) → Pointwise (FlightKept now) rows (run_rows ops rows)
  run_rows-FlightKept [] rows = Pointwise-refl (FlightKept now) FlightKept-refl rows
  run_rows-FlightKept (op ∷ ops) rows =
      Pointwise-trans (FlightKept now) FlightKept-trans rows (rows_after op rows)
        (run_rows (op ∷ ops) rows) (rows_after-FlightKept op rows)
        (run_rows-FlightKept ops (rows_after op rows))
