-- ===== src/Users/Service.antt =====
-- `create_user`, `update_user` and `deactivate_user` of app/modules/users/service.py, over the rows of the
-- open transaction and the token sets in Redis. A raise leaves the rows to the rollback of the request,
-- while what was written to Redis stays written.
use soc360_pymes.Prelude.{
  ℕ, String, Bool, true, false, not, ◌&&◌, Option, none, some, List, [], ◌∷◌, ◌++◌, if◌then◌else◌,
  ◌==◌, any, is_some, is_none,
}
use soc360_pymes.Sql.{first, update_where}
use soc360_pymes.Outcome.{Result, ok, err, ◌>>=◌}
use soc360_pymes.Text.{codes_eq, strip, lower}
use soc360_pymes.Access.{same_tenant}
use soc360_pymes.Assets.Values.{Text}
use soc360_pymes.Security.Roles.{role_level}
use soc360_pymes.Security.Redis.{TokenStore, Answer, revoke_all_user_access_tokens}
use soc360_pymes.Auth.Tokens.{Tenant, RefreshToken, revoke_all_user_tokens}

pub record UserRow : Type 0 where
  pub id : ℕ
  pub tenant_id : Option ℕ
  pub email : Text
  pub full_name : Text
  pub role : String
  pub is_active : Bool
  pub is_superadmin : Bool
  pub hashed_password : ℕ

pub record UserWorld : Type 0 where
  pub users : List UserRow
  pub tenants : List Tenant
  pub tokens : List RefreshToken
  pub redis : TokenStore

-- `UserError` by its message, then what the database, Redis and Python raise
pub data UserError : Type 0 where
  email_taken tenant_not_found tenant_inactive not_permitted already_inactive : UserError
  self_deactivation forbidden : UserError
  password_too_long integrity_error redis_outage attribute_error : UserError

abbrev pub Reply : Type 0 → Type 0
Reply A = Result UserError A × UserWorld

abbrev pub is_other : Option ℕ → UserRow → Bool
is_other none u = true
is_other (some k) u = not (u.id == k)

-- `_is_email_taken`
unfoldable pub is_email_taken : List UserRow → Text → Option ℕ → Bool
unfolding codes_eq lower
is_email_taken users email exclude =
    any (λ (u : UserRow). codes_eq (lower u.email) (lower email) && is_other exclude u) users

-- `_get_active_tenant`
unfoldable pub get_active_tenant : List Tenant → ℕ → Result {0, 0} UserError Unit
get_active_tenant tenants k = elim (first (λ (t : Tenant). t.id == k) tenants) [
  | none ↦ err tenant_not_found
  | some t ↦ if t.is_active then ok tt else err tenant_inactive
]

pub record UserCreate : Type 0 where
  pub email : Text
  pub password : ℕ
  pub full_name : Text
  pub role : String
  pub tenant_id : Option ℕ
  pub is_superadmin : Bool

abbrev pub check_tenant : UserCreate → List Tenant → Result {0, 0} UserError Unit
check_tenant d tenants =
    if d.is_superadmin
    then ok tt
    else elim d.tenant_id [ none ↦ ok tt | some k ↦ get_active_tenant tenants k ]

abbrev pub check_length : Bool → Result {0, 0} UserError Unit
check_length fits = if fits then ok tt else err password_too_long

abbrev pub check_email : Bool → Result {0, 0} UserError Unit
check_email taken = if taken then err email_taken else ok tt

-- `chk_superadmin_no_tenant`, `chk_user_has_tenant` and `chk_valid_role`
abbrev pub passes_checks : UserCreate → Bool
passes_checks d =
    (if d.is_superadmin then is_none d.tenant_id else is_some d.tenant_id)
    && is_some (role_level d.role)

abbrev pub check_row : Bool → Result {0, 0} UserError Unit
check_row passes = if passes then ok tt else err integrity_error

module _ (hash : ℕ → ℕ) (fits : ℕ → Bool) where
  abbrev pub new_user : ℕ → UserCreate → UserRow
  new_user id d = record {
    id = id;
    tenant_id = d.tenant_id;
    email = strip (lower d.email);
    full_name = d.full_name;
    role = d.role;
    is_active = true;
    is_superadmin = d.is_superadmin;
    hashed_password = hash d.password;
  }

  -- the tests before the flush, then the CHECKs and the unique index on the email
  unfoldable pub new_row : ℕ → UserCreate → UserWorld → Result UserError UserRow
  unfolding is_email_taken get_active_tenant codes_eq strip role_level
  new_row id d w = check_email (is_email_taken w.users d.email none) >>= (λ _.
      check_tenant d w.tenants >>= (λ _. check_length (fits d.password) >>= (λ _.
        check_row (passes_checks d) >>= (λ _.
          check_email (any (λ (u : UserRow). codes_eq u.email (strip (lower d.email))) w.users)
          >>= (λ _. ok (new_user id d))))))

  -- `create_user`
  unfoldable pub create_user : ℕ → UserCreate → UserWorld → Reply UserRow
  unfolding new_row
  create_user id d w = elim (new_row id d w) [
    | err e ↦ (err e, w)
    | ok u ↦ (ok u, record w { users = w.users ++ u ∷ [] })
  ]

-- a PATCH: a key is absent, null or has a value; the role is one of the enumeration
pub record UserUpdate : Type 0 where
  pub email : Option (Option Text)
  pub full_name : Option (Option Text)
  pub role : Option (Option String)
  pub is_active : Option (Option Bool)

unfoldable pub email_step :
    List UserRow → ℕ → Option (Option Text) → UserRow → Result UserError UserRow
unfolding is_email_taken strip lower
email_step users k none u = ok u
email_step users k (some none) u = err attribute_error
email_step users k (some (some email)) u =
    if is_email_taken users (strip (lower email)) (some k)
    then err email_taken
    else ok (record u { email = strip (lower email) })

unfoldable pub full_name_step : Option (Option Text) → UserRow → Result UserError UserRow
unfolding strip
full_name_step none u = ok u
full_name_step (some none) u = err attribute_error
full_name_step (some (some name)) u = ok (record u { full_name = strip name })

unfoldable pub role_step : Option (Option String) → UserRow → Result UserError UserRow
role_step none u = ok u
role_step (some none) u = err attribute_error
role_step (some (some role)) u = ok (record u { role = role })

-- a null violates the NOT NULL column at the flush
unfoldable pub active_step : Option (Option Bool) → UserRow → Result UserError UserRow
active_step none u = ok u
active_step (some none) u = err integrity_error
active_step (some (some on)) u = ok (record u { is_active = on })

unfoldable pub patched_user : List UserRow → UserUpdate → UserRow → Result UserError UserRow
unfolding email_step full_name_step role_step active_step
patched_user users p u = email_step users u.id p.email u >>= (λ a.
    full_name_step p.full_name a >>= (λ b. role_step p.role b >>= active_step p.is_active))

-- the transition from active to inactive
unfoldable pub is_deactivating : UserUpdate → UserRow → Bool
is_deactivating p u = elim p.is_active [
  | none ↦ false
  | some on ↦ elim on [ none ↦ false | some b ↦ not b && u.is_active ]
]

abbrev pub put_user : UserRow → UserWorld → UserWorld
put_user row w = record w {
  users = update_where (λ (u : UserRow). u.id == row.id) (λ _. row) w.users;
}

-- the default of `settings.ACCESS_TOKEN_EXPIRE_MINUTES`, in seconds
abbrev pub access_seconds : ℕ
access_seconds = 900

abbrev pub after_revocation : Answer Unit → UserRow → UserWorld → Reply UserRow
after_revocation (err e, r) row w = (err redis_outage, record w { redis = r })
after_revocation (ok done, r) row w = (ok row, record w { redis = r })

-- the refresh tokens in the database, then the access tokens in Redis
unfoldable pub end_sessions : (ℕ → Bool) → ℕ → UserRow → UserWorld → Reply UserRow
unfolding revoke_all_user_tokens revoke_all_user_access_tokens
end_sessions goes now row w =
    after_revocation (revoke_all_user_access_tokens goes now row.id access_seconds w.redis) row
      (record w { tokens = revoke_all_user_tokens now row.id w.tokens })

abbrev pub may_touch : UserRow → UserRow → Bool
may_touch caller target =
    if caller.is_superadmin then true else same_tenant target.tenant_id caller.tenant_id

-- `update_user`: the target is the row that the check of the dependency has found
unfoldable pub update_user :
    (ℕ → Bool) → ℕ → UserRow → UserRow → UserUpdate → UserWorld → Reply UserRow
unfolding patched_user is_deactivating end_sessions
update_user goes now caller target p w =
    if not (may_touch caller target)
    then (err not_permitted, w)
    else elim (patched_user w.users p target) [
      | err e ↦ (err e, w)
      | ok row ↦
          if is_deactivating p target
          then end_sessions goes now row (put_user row w)
          else (ok row, put_user row w)
    ]

-- `deactivate_user`
unfoldable pub deactivate_user : (ℕ → Bool) → ℕ → UserRow → UserRow → UserWorld → Reply UserRow
unfolding end_sessions
deactivate_user goes now caller target w =
    if not (may_touch caller target)
    then (err not_permitted, w)
    else if not target.is_active
    then (err already_inactive, w)
    else (let row = record target { is_active = false } in
        end_sessions goes now row (put_user row w))
