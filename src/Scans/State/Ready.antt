-- ===== src/Scans/State/Ready.antt =====
-- The pump's count of app/modules/scans/state.py against the claim that each bell leads to.
use soc360_pymes.Prelude.{
  ℕ, ◌≡◌, ◌↔◌, refl, true, false, ◌&&◌, none, List, [], ◌∷◌, arith, All, ◌<◌, ◌≤◌, min, suc, zero,
}
use soc360_pymes.Sql.{count_where}
use soc360_pymes.Outcome.{ok}
use soc360_pymes.Database.{Scan, Session}
use soc360_pymes.Scans.State.{is_ready, count_ready_scans, claim_next_scan}
use soc360_pymes.Scans.State.Claim.{claim_next_scan-none}

count_zero_none :
    (xs : List Scan) → count_where is_ready xs ≡ 0 → All (λ x. (is_ready x && true) ≡ true → ⊥) xs
count_zero_none [] h = tt
count_zero_none (x ∷ xs) h = (ground arith, count_zero_none xs (ground arith))

none_count_zero :
    (xs : List Scan) → All (λ x. (is_ready x && true) ≡ true → ⊥) xs → count_where is_ready xs ≡ 0
none_count_zero [] h = refl
none_count_zero (x ∷ xs) h = ground (arith, none_count_zero xs)

-- With a positive limit the count of ready scans is at most the limit, and it is zero exactly if a
-- claim with no row locked comes back empty.
pub count_ready_scans-claim :
    (limit now : ℕ) (s : Session)
    → 0 < limit
    → (n : ℕ) × ((count_ready_scans limit s).0 ≡ ok n)
      × (n ≤ limit)
      × ((n ≡ 0) ↔ ((claim_next_scan (λ _. false) now s).0 ≡ none))
unfolding count_ready_scans
count_ready_scans-claim (suc m) now s h = (
  min (suc m) (count_where is_ready s.working.scans),
  ground arith,
  omega arith,
  (
    λ e.
        (claim_next_scan-none (λ _. false) now s).1 (count_zero_none s.working.scans (omega arith)),
    λ e.
        omega
          (arith, none_count_zero s.working.scans ((claim_next_scan-none (λ _. false) now s).0 e)),
  ),
)
count_ready_scans-claim zero now s h = elim h [ ]
