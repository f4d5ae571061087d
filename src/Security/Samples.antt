-- ===== src/Security/Samples.antt =====
-- Concrete token stores, and the theorems at them.
use soc360_pymes.Prelude.{ℕ, ◌≡◌, refl, Bool, true, false, not, [], ◌∷◌, arith, ◌==◌}
use soc360_pymes.Outcome.{ok}
use soc360_pymes.Security.Redis.{TokenStore, is_denied, is_tracked, revoke_all_user_access_tokens}
use soc360_pymes.Security.Revocation.{revoke_all_user_access_tokens-ok}

abbrev store : TokenStore
store = record {
  denied = [];
  active =
      record { user = 3; jti = 7 }
      ∷ record { user = 3; jti = 5 }
      ∷ record { user = 4; jti = 6 }
      ∷ [];
}

all_go : ℕ → Bool
all_go n = true

revoked_result : (revoke_all_user_access_tokens all_go 1000 3 900 store).0 ≡ ok tt
unfolding revoke_all_user_access_tokens all_go
revoked_result = refl

revoke_all_user_access_tokens-ok_example :
    (is_tracked store 3 7 ≡ true
      → is_denied (revoke_all_user_access_tokens all_go 1000 3 900 store).1 7 1500 ≡ true)
    × (is_tracked (revoke_all_user_access_tokens all_go 1000 3 900 store).1 3 7 ≡ false)
    × ((other : ℕ)
        → (3 == other) ≡ false
        → is_tracked (revoke_all_user_access_tokens all_go 1000 3 900 store).1 other 7
          ≡ is_tracked store other 7)
revoke_all_user_access_tokens-ok_example =
    revoke_all_user_access_tokens-ok all_go 1000 3 900 store revoked_result 7 1500 (omega arith)

-- the SMEMBERS and the first SET go through, the second SET does not
second_fails : ℕ → Bool
second_fails n = not (n == 3)
