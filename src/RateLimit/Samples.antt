-- ===== src/RateLimit/Samples.antt =====
-- An address and an email with five failures, and one more.
use soc360_pymes.Prelude.{List, [], ◌∷◌}
use soc360_pymes.RateLimit.{Limits}
use soc360_pymes.RateLimit.Lockout.{Attempt}

abbrev no_failures : Limits
no_failures = record {
  by_ip = λ k. record { failures = 0; locked_until = 0 };
  by_email = λ k. record { failures = 0; locked_until = 0 };
}

-- five times the address 1 with the email 2, and another user in between
abbrev five_each : List Attempt
five_each =
    record { at = 10; ip = 1; email = 2 }
    ∷ record { at = 20; ip = 1; email = 2 }
    ∷ record { at = 25; ip = 8; email = 9 }
    ∷ record { at = 30; ip = 1; email = 2 }
    ∷ record { at = 40; ip = 1; email = 2 }
    ∷ record { at = 50; ip = 1; email = 2 }
    ∷ []
