-- ===== src/CurrentUser.antt =====
-- app/dependencies/auth.py: the user of a request, and the guards on the role. An issued token carries
-- identifiers, so that the answers to a `sub` that is no UUID and to an empty `jti` are left out.
pub mod Refused
mod Samples
use soc360_pymes.Prelude.{
  ℕ, String, Bool, true, false, not, Option, none, some, List, if◌then◌else◌, any, is_none, str_eq,
  ◌==◌,
}
use soc360_pymes.Sql.{first}
use soc360_pymes.Outcome.{Result, ok, err}
use soc360_pymes.Access.{TenantContext, elevated_context}
use soc360_pymes.Security.Roles.{has_minimum_role}
use soc360_pymes.Security.Redis.{TokenStore, RedisError, is_token_revoked}
use soc360_pymes.Security.Tokens.{Claims, decode_access_token}
use soc360_pymes.Auth.Tokens.{Tenant, tenant_by_id, tenant_serves}
use soc360_pymes.Users.Service.{UserRow}

-- the answers by their detail
pub data AuthFailure : Type 0 where
  bad_token revoked_token inactive_user inactive_tenant insufficient_role not_superadmin :
      AuthFailure
  service_unavailable redis_outage : AuthFailure

pub record Backend : Type 0 where
  pub users : List UserRow
  pub tenants : List Tenant
  pub redis : TokenStore

abbrev pub Reply : Type 0
Reply = Result AuthFailure UserRow × TenantContext

-- `set_tenant_context(db, user.tenant_id, False)`
abbrev pub tenant_context : UserRow → TenantContext
tenant_context u = record { tenant = u.tenant_id; elevated = false }

abbrev pub admit : Backend → UserRow → Reply
admit b u =
    if u.is_superadmin
    then (ok u, elevated_context)
    else if not (tenant_serves (tenant_by_id u.tenant_id b.tenants))
    then (err inactive_tenant, elevated_context)
    else if is_none u.tenant_id
    then (err inactive_user, elevated_context)
    else (ok u, tenant_context u)

-- the row, read under the elevated context
unfoldable pub look_up : Backend → ℕ → Reply
look_up b user = elim (first (λ (u : UserRow). u.id == user) b.users) [
  | none ↦ (err inactive_user, elevated_context)
  | some u ↦ if not u.is_active then (err inactive_user, elevated_context) else admit b u
]

-- after the denylist
unfoldable pub unless_revoked : Backend → Claims → TenantContext → Result RedisError Bool → Reply
unfolding look_up
unless_revoked b c context (err e) = (err redis_outage, context)
unless_revoked b c context (ok true) = (err revoked_token, context)
unless_revoked b c context (ok false) = look_up b c.sub

module _ (token_minutes : ℕ) {Token : Type 0} (jwt_encode : Claims → Token)
    (jwt_decode : Token → ℕ → Option Claims) where
  -- `get_current_user`: `healthy` is the answer of the PING, `goes` whether the EXISTS goes through
  unfoldable pub get_current_user : Bool → Bool → ℕ → Token → TenantContext → Backend → Reply
  unfolding decode_access_token is_token_revoked unless_revoked
  get_current_user healthy goes now token context b =
      elim (decode_access_token token_minutes jwt_encode jwt_decode token now) [
        | err e ↦ (err bad_token, context)
        | ok c ↦
            if not healthy
            then (err service_unavailable, context)
            else unless_revoked b c context (is_token_revoked goes now c.jti b.redis)
      ]

-- `require_role`
unfoldable pub require_role : String → UserRow → Result AuthFailure UserRow
unfolding has_minimum_role
require_role minimum u = if has_minimum_role u.role minimum then ok u else err insufficient_role

-- `require_any_role`
unfoldable pub require_any_role : List String → UserRow → Result AuthFailure UserRow
require_any_role roles u = if any (str_eq u.role) roles then ok u else err insufficient_role

-- `require_superadmin`
unfoldable pub require_superadmin : UserRow → Result AuthFailure UserRow
require_superadmin u = if u.is_superadmin then ok u else err not_superadmin
