-- ===== src/Auth/Tokens.antt =====
-- The refresh tokens of app/modules/auth/models.py, and the functions of app/modules/auth/service.py that
-- write them. Token hashes and users are numbers; the times of one call are all `now`. The advisory lock
-- of `_acquire_session_cap_lock` keeps other sessions of the user out until the commit: `locked`
-- says whether it was acquired in time.
use soc360_pymes.Prelude.{
  ℕ, ◌+◌, ◌*◌, Bool, false, ◌&&◌, Option, none, some, List, [], ◌∷◌, ◌++◌, if◌then◌else◌, ltb, leb,
  ◌==◌, is_none, any,
}
use soc360_pymes.Sql.{first, count_where, update_where}
use soc360_pymes.Outcome.{Result, ok, err}

pub record RefreshToken : Type 0 where
  pub id : ℕ
  pub user_id : ℕ
  pub token_hash : ℕ
  pub expires_at : ℕ
  pub revoked_at : Option ℕ
  pub created_at : ℕ

pub data AuthError : Type 0 where
  bad_credentials bad_refresh_token inactive_user wrong_password password_too_long : AuthError
  service_unavailable redis_error : AuthError

abbrev pub max_active_sessions : ℕ
max_active_sessions = 5

-- `timedelta(days=REFRESH_TOKEN_EXPIRE_DAYS)`, in seconds
abbrev pub refresh_lifetime : ℕ
refresh_lifetime = 7 * 86400

-- the WHERE clause of the count
unfoldable pub is_active : ℕ → ℕ → RefreshToken → Bool
is_active now user r = r.user_id == user && is_none r.revoked_at && ltb now r.expires_at

-- the WHERE clause of the oldest one, which does not ask for the expiry
unfoldable pub is_unrevoked : ℕ → RefreshToken → Bool
is_unrevoked user r = r.user_id == user && is_none r.revoked_at

unfoldable pub older : ℕ → RefreshToken → Option RefreshToken → Option RefreshToken
unfolding is_unrevoked
older user r none = if is_unrevoked user r then some r else none
older user r (some q) =
    if is_unrevoked user r && leb r.created_at q.created_at then some r else some q

-- `ORDER BY created_at ASC LIMIT 1`
unfoldable pub oldest_unrevoked : ℕ → List RefreshToken → Option RefreshToken
oldest_unrevoked user [] = none
oldest_unrevoked user (r ∷ rows) = older user r (oldest_unrevoked user rows)

abbrev pub revoke_at : ℕ → RefreshToken → RefreshToken
revoke_at now r = record r { revoked_at = some now }

abbrev pub new_token : ℕ → ℕ → ℕ → ℕ → RefreshToken
new_token now id user hash = record {
  id = id;
  user_id = user;
  token_hash = hash;
  expires_at = now + refresh_lifetime;
  revoked_at = none;
  created_at = now;
}

unfoldable pub make_room : ℕ → ℕ → List RefreshToken → List RefreshToken
make_room now user rows =
    if leb max_active_sessions (count_where (is_active now user) rows)
    then elim (oldest_unrevoked user rows) [
      | none ↦ rows
      | some oldest ↦ update_where (λ r. r.id == oldest.id) (revoke_at now) rows
    ]
    else rows

-- `_create_refresh_token`
unfoldable pub create_refresh_token :
    Bool → ℕ → ℕ → ℕ → ℕ → List RefreshToken → Result AuthError (List RefreshToken)
create_refresh_token locked now id user hash rows =
    if locked
    then ok (make_room now user rows ++ new_token now id user hash ∷ [])
    else err service_unavailable

-- `_revoke_all_user_tokens`
unfoldable pub revoke_all_user_tokens : ℕ → ℕ → List RefreshToken → List RefreshToken
revoke_all_user_tokens now user rows = update_where (is_unrevoked user) (revoke_at now) rows

pub record User : Type 0 where
  pub id : ℕ
  pub email : ℕ
  pub tenant_id : Option ℕ
  pub is_active : Bool
  pub is_superadmin : Bool
  pub password : ℕ

pub record Tenant : Type 0 where
  pub id : ℕ
  pub is_active : Bool

abbrev pub tenant_by_id : Option ℕ → List Tenant → Option Tenant
tenant_by_id none tenants = none
tenant_by_id (some k) tenants = first (λ (t : Tenant). t.id == k) tenants

-- `_revoke_all_user_tokens_for_tenant`
unfoldable pub revoke_all_user_tokens_for_tenant :
    ℕ → ℕ → List User → List RefreshToken → List RefreshToken
revoke_all_user_tokens_for_tenant now tenant users rows =
    update_where
      (λ r.
        any
          (λ (u : User).
            u.id == r.user_id && elim u.tenant_id [ none ↦ false | some k ↦ k == tenant ])
          users
        && is_none r.revoked_at)
      (revoke_at now) rows

abbrev pub tenant_serves : Option Tenant → Bool
tenant_serves none = false
tenant_serves (some t) = t.is_active

-- `_check_tenant_active`
unfoldable pub check_tenant_active : User → Option Tenant → Result {0, 0} AuthError Unit
check_tenant_active user tenant =
    if user.is_superadmin
    then ok tt
    else if tenant_serves tenant
    then ok tt
    else err bad_credentials

-- `_get_active_user` and `_get_active_user_by_id`
unfoldable pub get_active_user : ℕ → List User → Result AuthError User
get_active_user email users = elim (first (λ (u : User). u.email == email) users) [
  | none ↦ err bad_credentials
  | some u ↦ if u.is_active then ok u else err bad_credentials
]

unfoldable pub get_active_user_by_id : ℕ → List User → Result AuthError User
get_active_user_by_id user users = elim (first (λ (u : User). u.id == user) users) [
  | none ↦ err inactive_user
  | some u ↦ if u.is_active then ok u else err inactive_user
]
