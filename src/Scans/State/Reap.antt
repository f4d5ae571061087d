-- ===== src/Scans/State/Reap.antt =====
-- The reaper of app/modules/scans/state.py.
use soc360_pymes.Prelude.{
  ℕ, ◌+◌, ◌≡◌, refl, true, false, some, List, [], ◌∷◌, arith, ◌<◌, ◌≤◌, Pointwise, ap, Option-cases,
  inl, inr, leb,
}
use soc360_pymes.Sql.{count_where, update_where, Pointwise-update_where}
use soc360_pymes.Outcome.{ok}
use soc360_pymes.Database.{Scan, Session, commit, with_scans}
use soc360_pymes.Scans.Status.{running}
use soc360_pymes.Scans.State.{is_stale, lose_worker, reap_stale_scans}

-- Running since a time that lies at least `older_than` back.
abbrev pub IsLost : ℕ → ℕ → Scan → Type 0
IsLost now older_than r =
    (r.status ≡ running) × ((t : ℕ) × (r.started_at ≡ some t) × (t + older_than ≤ now))

stale→IsLost :
    (now older_than : ℕ) (r : Scan) → is_stale now older_than r ≡ true → IsLost now older_than r
unfolding is_stale
stale→IsLost now older_than r h = elim (Option-cases r.started_at) [
  | inl e ↦ ground arith
  | inr (t, e) ↦ (ground arith, (t, e, ground arith))
]

IsLost→stale :
    (now older_than : ℕ) (r : Scan) → IsLost now older_than r → is_stale now older_than r ≡ true
unfolding is_stale
IsLost→stale now older_than r (e, (t, s, l)) = ground arith

-- A lost row fails with the reason of the reaper; any other row stays.
pub record Reaped (now older_than : ℕ) (a b : Scan) : Type 0 where
  pub lost : IsLost now older_than a → b ≡ lose_worker now a
  pub kept : (IsLost now older_than a → ⊥) → b ≡ a

Reaped-hit :
    (now older_than : ℕ) (a : Scan)
    → is_stale now older_than a ≡ true
    → Reaped now older_than a (lose_worker now a)
Reaped-hit now older_than a h = record {
  lost = λ _. refl;
  kept = λ n. absurd (n (stale→IsLost now older_than a h));
}

Reaped-miss :
    (now older_than : ℕ) (a : Scan) → is_stale now older_than a ≡ false → Reaped now older_than a a
Reaped-miss now older_than a h = record {
  lost = λ l. absurd (cc (h, IsLost→stale now older_than a l));
  kept = λ _. refl;
}

lose_worker-stale :
    (now older_than : ℕ) (a : Scan) → is_stale now older_than (lose_worker now a) ≡ false
unfolding is_stale
lose_worker-stale now older_than a = refl

none_left :
    (now older_than : ℕ) (xs : List Scan)
    → count_where
        (is_stale now older_than)
        (update_where (is_stale now older_than) (lose_worker now) xs)
      ≡ 0
none_left now older_than [] = refl
none_left now older_than (x ∷ xs) =
    ground (arith, lose_worker-stale now older_than x, none_left now older_than xs)

reap_positive :
    (now older_than : ℕ) (s : Session)
    → 0 < older_than
    → reap_stale_scans now older_than s ≡ (
      ok (count_where (is_stale now older_than) s.working.scans),
      commit
          (with_scans s (update_where (is_stale now older_than) (lose_worker now) s.working.scans)),
    )
unfolding reap_stale_scans
reap_positive now older_than s h =
    let e : leb older_than 0 ≡ false = ground arith in rw (e, reap_stale_scans)

-- With a positive age the reaper answers with a number, fails exactly the rows that are running
-- since at least that age, with the reason `worker_lost` and the completion time, keeps every other
-- row, and leaves nothing for a second run at the same time.
pub reap_stale_scans-exact :
    (now older_than : ℕ) (s : Session)
    → 0 < older_than
    → (n : ℕ) × ((reap_stale_scans now older_than s).0 ≡ ok n)
      × Pointwise
          (Reaped now older_than)
          s.working.scans
          (reap_stale_scans now older_than s).1.working.scans
      × ((reap_stale_scans now older_than (reap_stale_scans now older_than s).1).0 ≡ ok 0)
reap_stale_scans-exact now older_than s h = (
  count_where (is_stale now older_than) s.working.scans,
  rw (reap_positive now older_than s h),
  rw (reap_positive now older_than s h) (
      Pointwise-update_where (Reaped now older_than) (is_stale now older_than) (lose_worker now)
        (Reaped-hit now older_than) (Reaped-miss now older_than) s.working.scans),
  rw (reap_positive now older_than s h) (
      rw
        (reap_positive now older_than
          (commit (
            with_scans s
              (update_where (is_stale now older_than) (lose_worker now) s.working.scans)))
          h)
        (ap ok (none_left now older_than s.working.scans))),
)
