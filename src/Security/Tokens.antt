-- ===== src/Security/Tokens.antt =====
-- `create_access_token`, `decode_access_token` and `get_token_remaining_seconds` of
-- app/core/security.py. `jwt_encode` and `jwt_decode` are the jwt package's, which checks the signature and,
-- at the given time, the expiry.
use soc360_pymes.Prelude.{
  ℕ, zero, suc, ◌+◌, ◌-◌, ◌*◌, String, Bool, not, ◌&&◌, Option, none, some, if◌then◌else◌, is_some,
  is_none,
}
use soc360_pymes.Outcome.{Result, ok, err}
use soc360_pymes.Security.Roles.{role_level}

pub record Claims : Type 0 where
  pub sub : ℕ
  pub jti : ℕ
  pub tenant_id : Option ℕ
  pub role : String
  pub is_superadmin : Bool
  pub iat : ℕ
  pub exp : ℕ

pub data TokenError : Type 0 where
  superadmin_with_tenant user_without_tenant unknown_role invalid_token : TokenError

module _ (token_minutes : ℕ) where
  -- The payload: the minutes are `settings.ACCESS_TOKEN_EXPIRE_MINUTES`; a given `expires_delta` is in
  -- seconds, and one of zero is falsy.
  unfoldable pub token_lifetime : Option ℕ → ℕ
  token_lifetime none = token_minutes * 60
  token_lifetime (some zero) = token_minutes * 60
  token_lifetime (some (suc n)) = suc n

  unfoldable pub access_claims :
      ℕ → ℕ → ℕ → Option ℕ → String → Bool → Option ℕ → Result TokenError Claims
  unfolding token_lifetime role_level
  access_claims now jti user tenant role is_superadmin delta =
      if is_superadmin && is_some tenant
      then err superadmin_with_tenant
      else if not is_superadmin && is_none tenant
      then err user_without_tenant
      else if is_none (role_level role)
      then err unknown_role
      else ok (record {
        sub = user;
        jti = jti;
        tenant_id = tenant;
        role = role;
        is_superadmin = is_superadmin;
        iat = now;
        exp = now + token_lifetime delta;
      })

-- `get_token_remaining_seconds`
unfoldable pub remaining_seconds : Claims → ℕ → ℕ
remaining_seconds c now = c.exp - now

module _ (token_minutes : ℕ) {Token : Type 0} (jwt_encode : Claims → Token)
    (jwt_decode : Token → ℕ → Option Claims) where
  unfoldable pub create_access_token :
      ℕ → ℕ → ℕ → Option ℕ → String → Bool → Option ℕ → Result TokenError (Token × ℕ)
  create_access_token now jti user tenant role is_superadmin delta =
      elim (access_claims token_minutes now jti user tenant role is_superadmin delta) [
        | err e ↦ err e
        | ok claims ↦ ok (jwt_encode claims, jti)
      ]

  unfoldable pub decode_access_token : Token → ℕ → Result TokenError Claims
  decode_access_token token now = elim (jwt_decode token now) [
    | none ↦ err invalid_token
    | some c ↦ ok c
  ]
