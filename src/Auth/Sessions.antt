-- ===== src/Auth/Sessions.antt =====
-- `login`, `refresh_tokens`, `logout` and `change_password` of app/modules/auth/service.py over the refresh
-- tokens, the users, the login counters and the token store in Redis. bcrypt is a parameter: `verify`
-- says whether a password fits a hash, `hash` makes one. Access tokens stand as their jti: the errors of
-- `create_access_token` are left out, which the constraints on the users' rows rule out.
use soc360_pymes.Prelude.{
  ℕ, ◌+◌, Bool, not, ◌&&◌, ◌||◌, Option, none, some, List, [], ◌∷◌, if◌then◌else◌, ltb, leb, ◌==◌,
  is_none,
}
use soc360_pymes.Sql.{first, update_where}
use soc360_pymes.Outcome.{Result, ok, err}
use soc360_pymes.Security.Redis.{
  TokenStore, Answer, revoke_access_token, track_jti, untrack_jti, revoke_all_user_access_tokens,
}
use soc360_pymes.Auth.Tokens.{
  RefreshToken, AuthError, bad_credentials, bad_refresh_token, wrong_password, password_too_long,
  service_unavailable, redis_error, revoke_at, create_refresh_token, revoke_all_user_tokens, User,
  Tenant, tenant_by_id, check_tenant_active, get_active_user, get_active_user_by_id,
}

-- `login_attempts:{email}`: the newest entry of an email counts. Redis drops a counter at the end of its
-- window, between the calls.
pub record Attempts : Type 0 where
  pub email : ℕ
  pub count : ℕ

pub record AuthWorld : Type 0 where
  pub users : List User
  pub tenants : List Tenant
  pub tokens : List RefreshToken
  pub attempts : List Attempts
  pub store : TokenStore

-- what a call meets: the clock, new ids, the answers of Redis and of the advisory lock
pub record AuthEnv : Type 0 where
  pub now : ℕ
  pub fresh_id : ℕ
  pub fresh_hash : ℕ
  pub fresh_jti : ℕ
  pub healthy : Bool
  pub locked : Bool
  -- whether the counter can be read, and written
  pub check_goes : Bool
  pub record_goes : Bool
  -- whether no other transaction holds the row of the refresh token
  pub row_free : Bool
  pub track_goes : Bool
  pub untrack_goes : Bool
  pub revoke_goes : Bool
  pub token_seconds : ℕ

abbrev pub login_attempts_max : ℕ
login_attempts_max = 10

abbrev pub attempts_of : ℕ → List Attempts → ℕ
attempts_of email [] = 0
attempts_of email (a ∷ rest) = if a.email == email then a.count else attempts_of email rest

-- `_check_account_lockout`: closed where Redis does not answer
unfoldable pub is_locked_out : Bool → ℕ → List Attempts → Bool
is_locked_out goes email attempts = not goes || leb login_attempts_max (attempts_of email attempts)

-- `_record_failed_attempt` and `_clear_login_attempts`, best effort
unfoldable pub record_failed_attempt : Bool → ℕ → List Attempts → List Attempts
record_failed_attempt goes email attempts =
    if goes
    then record { email = email; count = attempts_of email attempts + 1 } ∷ attempts
    else attempts

unfoldable pub clear_login_attempts : Bool → ℕ → List Attempts → List Attempts
clear_login_attempts goes email attempts =
    if goes then record { email = email; count = 0 } ∷ attempts else attempts

-- what a successful login or refresh answers
pub record Issued : Type 0 where
  pub user : ℕ
  pub jti : ℕ
  pub refresh_hash : ℕ

abbrev pub Reply : Type 0 → Type 0
Reply A = Result AuthError A × AuthWorld

abbrev pub issued : AuthEnv → User → Issued
issued env u = record { user = u.id; jti = env.fresh_jti; refresh_hash = env.fresh_hash }

-- from the tracking of the jti on
unfoldable pub finish_session : AuthEnv → User → AuthWorld → Answer Unit → Reply Issued
finish_session env u w (err e, store) = (err redis_error, record w { store = store })
finish_session env u w (ok done, store) =
    elim (create_refresh_token env.locked env.now env.fresh_id u.id env.fresh_hash w.tokens) [
      | err e ↦ (err e, record w { store = store })
      | ok rows ↦ (ok (issued env u), record w { store = store; tokens = rows })
    ]

unfoldable pub open_session : AuthEnv → User → AuthWorld → Reply Issued
open_session env u w = finish_session env u w (track_jti env.track_goes u.id env.fresh_jti w.store)

module _ (verify : ℕ → ℕ → Bool) where
  unfoldable pub login : AuthEnv → ℕ → ℕ → AuthWorld → Reply Issued
  unfolding get_active_user
  login env email password w =
      if not env.healthy
      then (err service_unavailable, w)
      else if is_locked_out env.check_goes email w.attempts
      then (err bad_credentials, w)
      else elim (get_active_user email w.users) [
        | err e ↦ (err bad_credentials, w)
        | ok u ↦
            if not (verify password u.password)
            then (
              err bad_credentials,
              record w { attempts = record_failed_attempt env.record_goes email w.attempts },
            )
            else elim (check_tenant_active u (tenant_by_id u.tenant_id w.tenants)) [
              | err e ↦ (err e, w)
              | ok fine ↦
                  open_session env u
                    (record w { attempts = clear_login_attempts env.record_goes email w.attempts })
            ]
      ]

-- the row that `_rotate_refresh_token` locks
unfoldable pub is_usable : ℕ → ℕ → RefreshToken → Bool
is_usable now hash r = r.token_hash == hash && is_none r.revoked_at && ltb now r.expires_at

-- `_rotate_refresh_token`
unfoldable pub rotate_refresh_token :
    AuthEnv → ℕ → AuthWorld → Result AuthError (User × List RefreshToken)
unfolding is_usable
rotate_refresh_token env hash w =
    elim (first (λ r. is_usable env.now hash r && env.row_free) w.tokens) [
      | none ↦ err bad_refresh_token
      | some r ↦ elim (get_active_user_by_id r.user_id w.users) [
        | err e ↦ err e
        | ok u ↦ elim (check_tenant_active u (tenant_by_id u.tenant_id w.tenants)) [
          | err e ↦ err e
          | ok fine ↦
              elim (create_refresh_token env.locked env.now env.fresh_id u.id env.fresh_hash
                (update_where (λ q. q.id == r.id) (revoke_at env.now) w.tokens)) [
                  | err e ↦ err e
                  | ok rows ↦ ok (u, rows)
                ]
        ]
      ]
    ]

unfoldable pub untracked : AuthEnv → ℕ → ℕ → Answer Unit → Answer Unit
untracked env user jti (err e, s) = (err e, s)
untracked env user jti (ok done, s) = untrack_jti env.untrack_goes user jti s

-- the old access token, where the request names one
unfoldable pub retire_old : AuthEnv → ℕ → Option ℕ → TokenStore → Answer Unit
unfolding untracked
retire_old env user none store = (ok tt, store)
retire_old env user (some jti) store =
    untracked env user jti (revoke_access_token env.revoke_goes env.now jti env.token_seconds store)

-- After the rotation the old access token is retired and the new one tracked. A raise rolls the
-- rotation back.
unfoldable pub tracked : AuthEnv → User → List RefreshToken → AuthWorld → Answer Unit → Reply Issued
tracked env u rows w (err e, s) = (err redis_error, record w { store = s })
tracked env u rows w (ok done, s) = (ok (issued env u), record w { tokens = rows; store = s })

unfoldable pub retired : AuthEnv → User → List RefreshToken → AuthWorld → Answer Unit → Reply Issued
unfolding tracked
retired env u rows w (err e, s) = (err redis_error, record w { store = s })
retired env u rows w (ok done, s) =
    tracked env u rows w (track_jti env.track_goes u.id env.fresh_jti s)

unfoldable pub swap_access :
    AuthEnv → User → List RefreshToken → Option ℕ → AuthWorld → Reply Issued
unfolding retired
swap_access env u rows old_jti w = retired env u rows w (retire_old env u.id old_jti w.store)

-- `refresh_tokens`
unfoldable pub refresh_tokens : AuthEnv → ℕ → Option ℕ → AuthWorld → Reply Issued
unfolding swap_access
refresh_tokens env hash old_jti w =
    if not env.healthy
    then (err service_unavailable, w)
    else elim (rotate_refresh_token env hash w) [
      | err e ↦ (err e, w)
      | ok rotated ↦ swap_access env rotated.0 rotated.1 old_jti w
    ]

unfoldable pub finish_logout : AuthEnv → ℕ → AuthWorld → Answer Unit → Reply Unit
finish_logout env hash w (err e, s) = (err redis_error, record w { store = s })
finish_logout env hash w (ok done, s) = (
  ok tt,
  record w {
    store = s;
    tokens =
        update_where (λ q. q.token_hash == hash && is_none q.revoked_at) (revoke_at env.now)
          w.tokens;
  },
)

-- `logout`
unfoldable pub logout : AuthEnv → ℕ → ℕ → ℕ → AuthWorld → Reply Unit
unfolding finish_logout
logout env jti hash user w =
    if not env.healthy
    then (err service_unavailable, w)
    else finish_logout env hash w (retire_old env user (some jti) w.store)

-- The rows of a change of password: a raise in Redis rolls them back and keeps what Redis took.
unfoldable pub finish_change : AuthEnv → ℕ → ℕ → AuthWorld → Answer Unit → Reply Unit
finish_change env user password w (err e, s) = (err redis_error, record w { store = s })
finish_change env user password w (ok done, s) = (
  ok tt,
  record w {
    users =
        update_where (λ (q : User). q.id == user) (λ q. record q { password = password }) w.users;
    tokens = revoke_all_user_tokens env.now user w.tokens;
    store = s;
  },
)

module _ (verify : ℕ → ℕ → Bool) (hash : ℕ → ℕ) (fits : ℕ → Bool) where
  -- `change_password`: `goes` are the answers of the revocation's commands, `fits` the 72 bytes of
  -- `validate_password_length`.
  unfoldable pub change_password : AuthEnv → (ℕ → Bool) → ℕ → ℕ → ℕ → AuthWorld → Reply Unit
  unfolding get_active_user_by_id
  change_password env goes user current new w =
      if not env.healthy
      then (err service_unavailable, w)
      else elim (get_active_user_by_id user w.users) [
        | err e ↦ (err e, w)
        | ok u ↦
            if not (verify current u.password)
            then (err wrong_password, w)
            else if not (fits new)
            then (err password_too_long, w)
            else finish_change env user (hash new) w
                (revoke_all_user_access_tokens goes env.now user env.token_seconds w.store)
      ]
