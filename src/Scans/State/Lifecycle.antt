-- ===== src/Scans/State/Lifecycle.antt =====
-- Runs of the operations of app/modules/scans/state.py, in any order and with any arguments: the
-- API, the workers and the reaper as interleaved committed statements.
use soc360_pymes.Prelude.{
  ℕ, ◌≡◌, inl, inr, refl, ◌∙◌, String, Bool, true, false, Option, none, List, [], ◌∷◌, arith, All,
  Pointwise, Pointwise-refl, Pointwise-trans, Option-cases, Bool-cases, leb, ◌==◌, ◌&&◌, and→both,
}
use soc360_pymes.Sql.{All-update_where, Pointwise-update_where, update_where}
use soc360_pymes.Outcome.{Result-cases}
use soc360_pymes.Database.{Scan, Session, with_scans, commit}
use soc360_pymes.Scans.Status.{ScanStatus, pending, status_eq, is_in, terminal_statuses}
use soc360_pymes.Scans.State.{
  count_ready_scans, claim_next_scan, reap_stale_scans, transition_scan, cancel_scan,
  check_transition, move_scan, may_move, assign, oldest_ready, is_ready, is_stale, start_run,
  lose_worker,
}
use soc360_pymes.Scans.State.Edges.{Edge-source_open, Edge-target}
use soc360_pymes.Scans.State.Moves.{
  may_move-Edge, move_scan-rows, transition_scan-ok, transition_scan-err,
}
use soc360_pymes.Scans.State.Soundness.{
  IsSound, check_transition-IsChecked, assign-IsSound, start_run-IsSound, lose_worker-IsSound,
}
use mathlib.Core.Path.{subst}

pub data Op : Type 0 where
  count_ready : ℕ → Op
  claim : (ℕ → Bool) → ℕ → Op
  reap : ℕ → ℕ → Op
  transition : ℕ → String → Option String → Option String → Bool → ℕ → Op
  cancel : ℕ → ℕ → Op

unfoldable pub apply : Op → Session → Session
apply (count_ready limit) s = (count_ready_scans limit s).1
apply (claim locked now) s = (claim_next_scan locked now s).1
apply (reap now older_than) s = (reap_stale_scans now older_than s).1
apply (transition scan_id to reason output commits now) s =
    (transition_scan scan_id to reason output commits now s).1
apply (cancel scan_id now) s = (cancel_scan scan_id now s).1

unfoldable pub run_all : List Op → Session → Session
unfolding apply
run_all [] s = s
run_all (op ∷ ops) s = run_all ops (apply op s)

-- A row that is terminal is left exactly as it is.
abbrev pub TerminalKept : Scan → Scan → Type 0
TerminalKept a b = is_in a.status terminal_statuses ≡ true → a ≡ b

-- A row keeps its id, and does not come back to `pending`.
abbrev pub NotBack : Scan → Scan → Type 0
NotBack a b =
    (b.id ≡ a.id) × (status_eq a.status pending ≡ false → status_eq b.status pending ≡ false)

-- The invariants of one operation, from what its UPDATE does to the rows that it matches.
record Keeps (s s' : Session) : Type 0 where
  sound : All IsSound s.working.scans → All IsSound s'.working.scans
  terminal : Pointwise TerminalKept s.working.scans s'.working.scans
  not_back : Pointwise NotBack s.working.scans s'.working.scans

Keeps-refl : (s : Session) → Keeps s s
Keeps-refl s = record {
  sound = λ h. h;
  terminal = Pointwise-refl TerminalKept (λ a h. refl) s.working.scans;
  not_back = Pointwise-refl NotBack (λ a. (refl, λ h. h)) s.working.scans;
}

Keeps-commit : (s : Session) → Keeps s (commit s)
Keeps-commit s = record {
  sound = λ h. h;
  terminal = Pointwise-refl TerminalKept (λ a h. refl) s.working.scans;
  not_back = Pointwise-refl NotBack (λ a. (refl, λ h. h)) s.working.scans;
}

Keeps-update :
    (p : Scan → Bool) (f : Scan → Scan) (s s' : Session)
    → s'.working.scans ≡ update_where p f s.working.scans
    → ((r : Scan) → p r ≡ true → is_in r.status terminal_statuses ≡ false)
    → ((r : Scan) → p r ≡ true → IsSound r → IsSound (f r))
    → ((r : Scan) → (f r).id ≡ r.id)
    → ((r : Scan) → p r ≡ true → status_eq (f r).status pending ≡ false)
    → Keeps s s'
Keeps-update p f s s' e open_only keep same_id left = record {
  sound = λ h. rw e (All-update_where IsSound p f keep s.working.scans h);
  terminal = rw e (
      Pointwise-update_where TerminalKept p f (λ r h t. absurd (cc (open_only r h, t)))
        (λ r h t. refl) s.working.scans);
  not_back = rw e (
      Pointwise-update_where NotBack p f (λ r h. (same_id r, λ _. left r h)) (λ r h. (refl, λ g. g))
        s.working.scans);
}

assign-id :
    (t : ScanStatus) (reason output : Option String) (now : ℕ) (r : Scan)
    → (assign t reason output now r).id ≡ r.id
unfolding assign
assign-id t reason output now r = refl

pub assign-left :
    (scan_id : ℕ) (t : ScanStatus) (reason output : Option String) (now : ℕ) (r : Scan)
    → may_move scan_id t r ≡ true
    → status_eq (assign t reason output now r).status pending ≡ false
unfolding assign
assign-left scan_id t reason output now r h = Edge-target (may_move-Edge scan_id t r h)

may_move-open :
    (scan_id : ℕ) (t : ScanStatus) (r : Scan)
    → may_move scan_id t r ≡ true
    → is_in r.status terminal_statuses ≡ false
may_move-open scan_id t r h = Edge-source_open (may_move-Edge scan_id t r h)

is_ready-open : (r : Scan) → is_ready r ≡ true → is_in r.status terminal_statuses ≡ false
unfolding is_ready is_in terminal_statuses
is_ready-open r h = ground arith

is_stale-open :
    (now older_than : ℕ) (r : Scan)
    → is_stale now older_than r ≡ true
    → is_in r.status terminal_statuses ≡ false
unfolding is_stale is_in terminal_statuses
is_stale-open now older_than r h = ground arith

transition_scan-Keeps :
    (scan_id : ℕ) (to : String) (reason output : Option String) (commits : Bool) (now : ℕ)
    (s : Session)
    → Keeps s (transition_scan scan_id to reason output commits now s).1
transition_scan-Keeps scan_id to reason output commits now s =
    elim (Result-cases (check_transition to reason output)) [
      | inl (t, e) ↦ rw (transition_scan-ok scan_id to reason output commits now s e) (
          Keeps-update (may_move scan_id t) (assign t reason output now) s
            (move_scan scan_id t reason output commits now s).1
            (move_scan-rows scan_id t reason output commits now s) (may_move-open scan_id t)
            (λ r m.
              assign-IsSound scan_id t reason output now r
                (check_transition-IsChecked to reason output t e) m)
            (assign-id t reason output now) (assign-left scan_id t reason output now))
      | inr (x, e) ↦
          rw (transition_scan-err scan_id to reason output commits now s e) (Keeps-refl s)
    ]

claim_next_scan-Keeps :
    (locked : ℕ → Bool) (now : ℕ) (s : Session) → Keeps s (claim_next_scan locked now s).1
unfolding claim_next_scan status_eq
claim_next_scan-Keeps locked now s = elim (Option-cases (oldest_ready locked s.working.scans)) [
  | inl e ↦ rw (e, claim_next_scan) (Keeps-commit s)
  | inr (r, e) ↦
      rw (e, claim_next_scan)
        (Keeps-update (λ x. x.id == r.id && is_ready x) (start_run now) s
          (commit (
            with_scans s
              (update_where (λ x. x.id == r.id && is_ready x) (start_run now) s.working.scans)))
          refl (λ x h. is_ready-open x (and→both (x.id == r.id) (is_ready x) h).1)
          (λ x h. start_run-IsSound now x (and→both (x.id == r.id) (is_ready x) h).1) (λ x. refl)
          (λ x h. refl))
]

reap_stale_scans-Keeps :
    (now older_than : ℕ) (s : Session) → Keeps s (reap_stale_scans now older_than s).1
unfolding reap_stale_scans status_eq
reap_stale_scans-Keeps now older_than s = elim (Bool-cases (leb older_than 0)) [
  | inl e ↦ rw (e, reap_stale_scans) (Keeps-refl s)
  | inr e ↦
      rw (e, reap_stale_scans)
        (Keeps-update (is_stale now older_than) (lose_worker now) s
          (commit (
            with_scans s
              (update_where (is_stale now older_than) (lose_worker now) s.working.scans)))
          refl (is_stale-open now older_than) (lose_worker-IsSound now older_than) (λ x. refl)
          (λ x h. refl))
]

count_ready_scans-Keeps : (limit : ℕ) (s : Session) → Keeps s (count_ready_scans limit s).1
unfolding count_ready_scans
count_ready_scans-Keeps limit s = elim (Bool-cases (leb limit 0)) [
  | inl e ↦ rw (e, count_ready_scans) (Keeps-refl s)
  | inr e ↦ rw (e, count_ready_scans) (Keeps-commit s)
]

apply-Keeps : (op : Op) (s : Session) → Keeps s (apply op s)
unfolding apply cancel_scan
apply-Keeps (count_ready limit) s = count_ready_scans-Keeps limit s
apply-Keeps (claim locked now) s = claim_next_scan-Keeps locked now s
apply-Keeps (reap now older_than) s = reap_stale_scans-Keeps now older_than s
apply-Keeps (transition scan_id to reason output commits now) s =
    transition_scan-Keeps scan_id to reason output commits now s
apply-Keeps (cancel scan_id now) s = transition_scan-Keeps scan_id "cancelled" none none true now s

-- Whatever operations run, in whatever order and with whatever arguments, from rows that are sound
-- (a running row was dispatched and started, a row has a completion time exactly if it is terminal
-- and a failure reason exactly if it failed, no reason is longer than 64 characters, raw output
-- stands only in completed and failed rows, a pending row is unstarted), all rows stay sound.
pub run_all-IsSound :
    (ops : List Op) (s : Session)
    → All IsSound s.working.scans
    → All IsSound (run_all ops s).working.scans
unfolding run_all
run_all-IsSound [] s h = h
run_all-IsSound (op ∷ ops) s h = run_all-IsSound ops (apply op s) ((apply-Keeps op s).sound h)

TerminalKept-trans : (a b c : Scan) → TerminalKept a b → TerminalKept b c → TerminalKept a c
TerminalKept-trans a b c h k t =
    h t ∙ k (subst (λ (x : Scan). is_in x.status terminal_statuses ≡ true) (h t) t)

-- Whatever operations run, every row that is terminal before is the same row afterwards.
pub run_all-TerminalKept :
    (ops : List Op) (s : Session)
    → Pointwise TerminalKept s.working.scans (run_all ops s).working.scans
unfolding run_all
run_all-TerminalKept [] s = Pointwise-refl TerminalKept (λ a h. refl) s.working.scans
run_all-TerminalKept (op ∷ ops) s =
    Pointwise-trans TerminalKept TerminalKept-trans s.working.scans (apply op s).working.scans
      (run_all ops (apply op s)).working.scans (apply-Keeps op s).terminal
      (run_all-TerminalKept ops (apply op s))

NotBack-trans : (a b c : Scan) → NotBack a b → NotBack b c → NotBack a c
NotBack-trans a b c h k = (k.0 ∙ h.0, λ g. k.1 (h.1 g))

pub claim-NotBack :
    (locked : ℕ → Bool) (now : ℕ) (s : Session)
    → Pointwise NotBack s.working.scans (claim_next_scan locked now s).1.working.scans
claim-NotBack locked now s = (claim_next_scan-Keeps locked now s).not_back

pub run_all-NotBack :
    (ops : List Op) (s : Session) → Pointwise NotBack s.working.scans (run_all ops s).working.scans
unfolding run_all
run_all-NotBack [] s = Pointwise-refl NotBack (λ a. (refl, λ h. h)) s.working.scans
run_all-NotBack (op ∷ ops) s =
    Pointwise-trans NotBack NotBack-trans s.working.scans (apply op s).working.scans
      (run_all ops (apply op s)).working.scans (apply-Keeps op s).not_back
      (run_all-NotBack ops (apply op s))
