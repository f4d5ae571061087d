-- ===== src/CurrentUser/Samples.antt =====
-- A token of an analyst, before and after a revocation, and the theorems of the request's user at it.
use soc360_pymes.Prelude.{
  ℕ, ◌≡◌, ◌≢◌, refl, Bool, true, false, Option, none, some, [], ◌∷◌, arith, if◌then◌else◌, ltb,
}
use soc360_pymes.Outcome.{ok, err}
use soc360_pymes.Text.{codes}
use soc360_pymes.Access.{elevated_context}
use soc360_pymes.Security.Redis.{TokenStore, is_denied, revoke_all_user_access_tokens}
use soc360_pymes.Security.Tokens.{Claims, decode_access_token}
use soc360_pymes.Security.Roles.{role_level}
use soc360_pymes.Users.Service.{UserRow}
use soc360_pymes.CurrentUser.{Backend, insufficient_role, get_current_user, require_role}
use soc360_pymes.CurrentUser.Refused.{
  IsAdmitted, get_current_user-IsAdmitted, get_current_user-revoked,
}

abbrev bob : UserRow
bob = record {
  id = 3;
  tenant_id = some 7;
  email = codes "bob@example.com";
  full_name = codes "Bob";
  role = "analyst";
  is_active = true;
  is_superadmin = false;
  hashed_password = 10;
}

abbrev claims : Claims
claims = record {
  sub = 3;
  jti = 44;
  tenant_id = some 7;
  role = "analyst";
  is_superadmin = false;
  iat = 1000;
  exp = 1900;
}

-- a token is its claims
abbrev encode : Claims → Claims
encode c = c

abbrev decode : Claims → ℕ → Option Claims
decode c now = if ltb now c.exp then some c else none

abbrev tracked : TokenStore
tracked = record { denied = []; active = record { user = 3; jti = 44 } ∷ [] }

abbrev backend : TokenStore → Backend
backend store = record {
  users = bob ∷ [];
  tenants = record { id = 7; is_active = true } ∷ [];
  redis = store;
}

abbrev go : ℕ → Bool
go command = true

abbrev after : TokenStore
after = (revoke_all_user_access_tokens go 1100 3 900 tracked).1

answered :
    (get_current_user 15 encode decode true true 1100 claims elevated_context (backend tracked)).0
    ≡ ok bob
unfolding get_current_user
answered = refl

guard_test : require_role "admin" bob ≡ err insufficient_role
unfolding require_role role_level
guard_test = refl

get_current_user-IsAdmitted_example :
    (c : Claims) × (decode_access_token 15 encode decode claims 1100 ≡ ok c)
    × (is_denied tracked c.jti 1100 ≡ false)
    × IsAdmitted
        (backend tracked)
        c.sub
        bob
        (get_current_user 15 encode decode true true 1100 claims elevated_context
          (backend tracked)).1
get_current_user-IsAdmitted_example =
    get_current_user-IsAdmitted 15 encode decode true true 1100 claims elevated_context
      (backend tracked) bob answered

get_current_user-revoked_example :
    (get_current_user 15 encode decode true true 1500 claims elevated_context (backend after)).0
    ≢ ok bob
unfolding revoke_all_user_access_tokens decode_access_token
get_current_user-revoked_example =
    get_current_user-revoked 15 encode decode go 1100 900 tracked true true 1500 claims
      elevated_context (backend after) claims bob refl refl refl (omega arith) refl
