-- ===== src/RateLimit/Escalation.antt =====
-- The escalation table of app/core/rate_limit.py.
use soc360_pymes.Prelude.{ℕ, ◌≤◌, ◌≡◌, ◌↔◌, arith}
use soc360_pymes.RateLimit.{escalate, lockout_seconds}

-- A lockout is longer the more failures there are, at most a day, and there is none exactly up to the fifth
-- failure: the sixth is the first that locks.
pub lockout_seconds-staircase :
    (m n : ℕ)
    → m ≤ n
    → (lockout_seconds m ≤ lockout_seconds n)
      × (lockout_seconds m ≤ 86400)
      × ((lockout_seconds m ≡ 0) ↔ (m ≤ 5))
unfolding lockout_seconds escalate
lockout_seconds-staircase m n h = ground (arith, h)
