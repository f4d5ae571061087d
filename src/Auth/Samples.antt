-- ===== src/Auth/Samples.antt =====
-- A user with sessions, and the theorems of the sessions at it.
use soc360_pymes.Prelude.{
  ℕ, ◌+◌, ◌≤◌, ◌<◌, ◌≡◌, ◌≢◌, refl, Bool, true, false, none, some, List, [], ◌∷◌, ◌++◌, arith, ◌==◌,
  All,
}
use soc360_pymes.Sql.{first, count_where}
use soc360_pymes.Outcome.{ok}
use soc360_pymes.Security.Redis.{track_jti}
use soc360_pymes.Auth.Tokens.{
  RefreshToken, is_active, is_unrevoked, oldest_unrevoked, older, make_room, create_refresh_token,
  User, get_active_user_by_id, check_tenant_active,
}
use soc360_pymes.Auth.Cap.{create_refresh_token-cap, create_refresh_token-excess}
use soc360_pymes.Auth.Sessions.{
  AuthWorld, AuthEnv, Issued, attempts_of, is_locked_out, login, open_session, finish_session,
  rotate_refresh_token, refresh_tokens, swap_access, retire_old, change_password,
}
use soc360_pymes.Auth.Calls.{Call, log_in, run_calls, refresh_tokens-once}
use soc360_pymes.Auth.Guards.{InService, login-guard, Ended, change_password-Ended}

abbrev session : ℕ → ℕ → RefreshToken
session id created = record {
  id = id;
  user_id = 3;
  token_hash = id + 100;
  expires_at = created + 604800;
  revoked_at = none;
  created_at = created;
}

abbrev five : List RefreshToken
five =
    session 1 900000
    ∷ session 2 900001
    ∷ session 3 900002
    ∷ session 4 900003
    ∷ session 5 900004
    ∷ []

abbrev with_stale : List RefreshToken
with_stale = session 9 10 ∷ five

abbrev made : List RefreshToken → List RefreshToken
made rows =
    make_room 1000000 3 rows
    ++ record {
      id = 6;
      user_id = 3;
      token_hash = 106;
      expires_at = 1604800;
      revoked_at = none;
      created_at = 1000000;
    }
      ∷ []

cap_result : create_refresh_token true 1000000 6 3 106 five ≡ ok (made five)
unfolding create_refresh_token
cap_result = refl

stale_oldest : oldest_unrevoked 3 with_stale ≡ some (session 9 10)
unfolding oldest_unrevoked older
stale_oldest = refl

stale_inactive : is_active 1000000 3 (session 9 10) ≡ false
unfolding is_active
stale_inactive = refl

excess_result : create_refresh_token true 1000000 6 3 106 with_stale ≡ ok (made with_stale)
unfolding create_refresh_token
excess_result = refl

create_refresh_token-excess_example :
    count_where (is_active 1000000 3) (made with_stale)
    ≡ count_where (is_active 1000000 3) with_stale + 1
create_refresh_token-excess_example =
    create_refresh_token-excess 1000000 6 3 106 with_stale
      (
        (refl, (refl, (refl, (refl, (refl, tt))))),
        (
          (refl, (refl, (refl, (refl, tt)))),
          ((refl, (refl, (refl, tt))), ((refl, (refl, tt)), ((refl, tt), (tt, tt)))),
        ),
      )
      (session 9 10) stale_oldest stale_inactive (made with_stale) excess_result

abbrev user : User
user = record {
  id = 3;
  email = 30;
  tenant_id = some 1;
  is_active = true;
  is_superadmin = false;
  password = 77;
}

abbrev world : AuthWorld
world = record {
  users = user ∷ [];
  tenants = record { id = 1; is_active = true } ∷ [];
  tokens = session 1 900000 ∷ [];
  attempts = [];
  store = record { denied = []; active = [] };
}

abbrev env : AuthEnv
env = record {
  now = 1000000;
  fresh_id = 6;
  fresh_hash = 106;
  fresh_jti = 40;
  healthy = true;
  locked = true;
  check_goes = true;
  record_goes = true;
  row_free = true;
  track_goes = true;
  untrack_goes = true;
  revoke_goes = true;
  token_seconds = 900;
}

abbrev tokens : Issued
tokens = record { user = 3; jti = 40; refresh_hash = 106 }

verify : ℕ → ℕ → Bool
verify password hash = password == hash

login_result : (login verify env 30 77 world).0 ≡ ok tokens
unfolding login verify is_locked_out check_tenant_active open_session finish_session track_jti
    create_refresh_token
login_result = refl

login-guard_example :
    (true ≡ true)
    × (attempts_of 30 [] < 10)
    × ((u : User) × (first (λ (x : User). x.email == 30) (user ∷ []) ≡ some u)
        × (u.is_active ≡ true)
        × (verify 77 u.password ≡ true)
        × InService world.tenants u
        × (3 ≡ u.id))
login-guard_example = login-guard verify env 30 77 world tokens login_result

refresh_result : (refresh_tokens env 101 none world).0 ≡ ok tokens
unfolding refresh_tokens rotate_refresh_token get_active_user_by_id check_tenant_active
    create_refresh_token retire_old track_jti swap_access
refresh_result = refl

abbrev calls : List Call
calls = log_in env 30 77 ∷ []

refresh_tokens-once_example :
    (refresh_tokens env 101 none
      (run_calls verify (λ p. p) (λ p. true) calls (refresh_tokens env 101 none world).1)).0
    ≢ ok tokens
refresh_tokens-once_example =
    refresh_tokens-once verify (λ p. p) (λ p. true) 101 env env none none world tokens tokens calls
      (tt, tt) refl (refl, tt) refresh_result

change_password-Ended_example :
    Ended verify
      (λ p. p)
      (λ p. true)
      env
      (λ n. true)
      3
      77
      88
      world
      (change_password verify (λ p. p) (λ p. true) env (λ n. true) 3 77 88 world)
change_password-Ended_example =
    change_password-Ended verify (λ p. p) (λ p. true) env (λ n. true) 3 77 88 world

five_current : All (λ r. is_unrevoked 3 r ≡ true → is_active 1000000 3 r ≡ true) five
unfolding is_active is_unrevoked
five_current = ((λ h. refl), ((λ h. refl), ((λ h. refl), ((λ h. refl), ((λ h. refl), tt)))))

create_refresh_token-cap_example : count_where (is_active 1000000 3) (made five) ≤ 5
unfolding is_active
create_refresh_token-cap_example =
    create_refresh_token-cap 1000000 6 3 106 five
      (
        (refl, (refl, (refl, (refl, tt)))),
        ((refl, (refl, (refl, tt))), ((refl, (refl, tt)), ((refl, tt), (tt, tt)))),
      )
      five_current (omega arith) (made five) cap_result
