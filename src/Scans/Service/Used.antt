-- ===== src/Scans/Service/Used.antt =====
-- The rows that a dispatch of app/modules/scans/service.py passes over, under the statements of
-- app/modules/scans/state.py.
use soc360_pymes.Prelude.{
  ℕ, ◌≡◌, ◌≢◌, refl, inl, inr, Bool, true, false, Option, none, arith, ◌==◌, ◌&&◌, leb, All,
  Bool-cases, Option-cases, String,
}
use soc360_pymes.Sql.{update_where, All-update_where}
use soc360_pymes.Outcome.{Result-cases}
use soc360_pymes.Json.{Fields}
use soc360_pymes.Database.{Scan, Session, commit, with_scans}
use soc360_pymes.Scans.Status.{ScanStatus, pending, status_eq}
use soc360_pymes.Scans.State.{
  StateError, check_transition, move_scan, may_move, assign, transition_scan, commit_if,
  count_ready_scans, claim_next_scan, reap_stale_scans, oldest_ready, is_ready, is_stale, start_run,
  lose_worker,
}
use soc360_pymes.Scans.State.Moves.{transition_scan-ok, transition_scan-err}
use soc360_pymes.Scans.State.Lifecycle.{
  Op, count_ready, claim, reap, transition, cancel, apply, assign-left,
}
use soc360_pymes.Scans.Service.{is_dispatchable, dispatch_now}
use soc360_pymes.Scans.Authoring.{ScanPatch, patched}

module _ (k : ℕ) where
  abbrev pub Used : Scan → Type 0
  Used x = is_dispatchable k x ≡ false

  abbrev pub AllUsed : Session → Type 0
  AllUsed s = All Used s.working.scans × All Used s.committed.scans

  pub not_pending-Used : (a : Scan) → status_eq a.status pending ≡ false → Used a
  unfolding is_dispatchable
  not_pending-Used a h = ground arith

  pub other_id-Used : (a : Scan) → a.id ≢ k → Used a
  unfolding is_dispatchable
  other_id-Used a h = ground arith

  pub start_run-Used : (now : ℕ) (a : Scan) → Used (start_run now a)
  unfolding status_eq
  start_run-Used now a = not_pending-Used (start_run now a) refl

  pub lose_worker-Used : (now : ℕ) (a : Scan) → Used (lose_worker now a)
  unfolding status_eq
  lose_worker-Used now a = not_pending-Used (lose_worker now a) refl

  pub patched-Used : (p : ScanPatch) (n : Fields) (a : Scan) → Used a → Used (patched p n a)
  unfolding is_dispatchable patched
  patched-Used p n a h = h

  pub dispatch_now-Used : (now : ℕ) (a : Scan) → Used (dispatch_now now a)
  unfolding is_dispatchable
  dispatch_now-Used now a = ground arith

  pub commit-AllUsed : (s : Session) → AllUsed s → AllUsed (commit s)
  commit-AllUsed s h = (h.0, h.0)

  -- an UPDATE, and its commit or none
  pub stored-AllUsed :
      (c : Bool) (s : Session) (p : Scan → Bool) (f : Scan → Scan)
      → ((a : Scan) → p a ≡ true → Used a → Used (f a))
      → AllUsed s
      → AllUsed (commit_if c (with_scans s (update_where p f s.working.scans)))
  stored-AllUsed true s p f keep h =
      let rows = All-update_where Used p f keep s.working.scans h.0 in (rows, rows)
  stored-AllUsed false s p f keep h = (All-update_where Used p f keep s.working.scans h.0, h.1)

  pub move_scan-AllUsed :
      (scan_id : ℕ) (t : ScanStatus) (reason output : Option String) (commits : Bool) (now : ℕ)
      (s : Session)
      → AllUsed s
      → AllUsed (move_scan scan_id t reason output commits now s).1
  unfolding move_scan
  move_scan-AllUsed scan_id t reason output commits now s h =
      stored-AllUsed commits s (may_move scan_id t) (assign t reason output now)
        (λ a m _.
          not_pending-Used (assign t reason output now a)
            (assign-left scan_id t reason output now a m))
        h

  pub transition_scan-AllUsed :
      (scan_id : ℕ) (to : String) (reason output : Option String) (commits : Bool) (now : ℕ)
      (s : Session)
      → AllUsed s
      → AllUsed (transition_scan scan_id to reason output commits now s).1
  transition_scan-AllUsed scan_id to reason output commits now s h =
      elim (Result-cases (check_transition to reason output)) [
        | inl (t, e) ↦
            rw (transition_scan-ok scan_id to reason output commits now s e)
              (move_scan-AllUsed scan_id t reason output commits now s h)
        | inr (x, e) ↦ rw (transition_scan-err scan_id to reason output commits now s e) h
      ]

  pub claim_next_scan-AllUsed :
      (locked : ℕ → Bool) (now : ℕ) (s : Session)
      → AllUsed s
      → AllUsed (claim_next_scan locked now s).1
  unfolding claim_next_scan
  claim_next_scan-AllUsed locked now s h =
      elim (Option-cases (oldest_ready locked s.working.scans)) [
        | inl e ↦ rw (e, claim_next_scan) (commit-AllUsed s h)
        | inr (r, e) ↦
            rw (e, claim_next_scan)
              (stored-AllUsed true s (λ x. x.id == r.id && is_ready x) (start_run now)
                (λ a _ _. start_run-Used now a) h)
      ]

  pub reap_stale_scans-AllUsed :
      (now older_than : ℕ) (s : Session) → AllUsed s → AllUsed (reap_stale_scans now older_than s).1
  unfolding reap_stale_scans
  reap_stale_scans-AllUsed now older_than s h = elim (Bool-cases (leb older_than 0)) [
    | inl e ↦ rw (e, reap_stale_scans) h
    | inr e ↦
        rw (e, reap_stale_scans)
          (stored-AllUsed true s (is_stale now older_than) (lose_worker now)
            (λ a _ _. lose_worker-Used now a) h)
  ]

  pub apply-AllUsed : (op : Op) (s : Session) → AllUsed s → AllUsed (apply op s)
  unfolding apply count_ready_scans soc360_pymes.Scans.State.cancel_scan transition_scan
  apply-AllUsed (count_ready limit) s h = elim (Bool-cases (leb limit 0)) [
    | inl e ↦ rw (apply, count_ready_scans, e) h
    | inr e ↦ rw (apply, count_ready_scans, e) (commit-AllUsed s h)
  ]
  apply-AllUsed (claim locked now) s h = claim_next_scan-AllUsed locked now s h
  apply-AllUsed (reap now older_than) s h = reap_stale_scans-AllUsed now older_than s h
  apply-AllUsed (transition scan_id to reason output commits now) s h =
      transition_scan-AllUsed scan_id to reason output commits now s h
  apply-AllUsed (cancel scan_id now) s h =
      transition_scan-AllUsed scan_id "cancelled" none none true now s h
