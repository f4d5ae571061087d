-- ===== src/RateLimit/Lockout.antt =====
-- What recorded failures do to later checks, app/core/rate_limit.py.
use soc360_pymes.Prelude.{ℕ, Bool, List, [], ◌∷◌, ◌==◌}
use soc360_pymes.RateLimit.{Entry, Limits, record_failure}

abbrev the_entry : ℕ → ℕ → Entry
the_entry f t = record { failures = f; locked_until = t }

-- a failed login
pub record Attempt : Type 0 where
  pub at : ℕ
  pub ip : ℕ
  pub email : ℕ

unfoldable pub record_all : List Attempt → Limits → Limits
unfolding record_failure
record_all [] l = l
record_all (a ∷ rest) l = record_all rest (record_failure a.at a.ip a.email l).1

abbrev pub of_ip : ℕ → Attempt → Bool
of_ip ip a = ip == a.ip

abbrev pub of_email : ℕ → Attempt → Bool
of_email email a = email == a.email
