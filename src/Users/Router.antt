-- ===== src/Users/Router.antt =====
-- The policy of app/modules/users/router.py above the service: who may create, change and deactivate
-- whom. The target of a change is the row that the check of the dependency has found.
use soc360_pymes.Prelude.{
  ℕ, String, Bool, true, false, not, ◌&&◌, ◌||◌, Option, none, some, if◌then◌else◌, is_some, str_eq,
  ◌==◌,
}
use soc360_pymes.Outcome.{err}
use soc360_pymes.Access.{same_tenant}
use soc360_pymes.Security.Roles.{has_minimum_role}
use soc360_pymes.Users.Service.{
  UserRow, UserWorld, UserError, forbidden, self_deactivation, UserCreate, UserUpdate, Reply,
  create_user, update_user, deactivate_user,
}

-- the value under a key, None where the key is absent
abbrev pub value_of : {A : Type 0} → Option (Option A) → Option A
value_of none = none
value_of (some v) = v

abbrev pub is_admin : String → Bool
is_admin role = has_minimum_role role "admin"

-- `body.role is not None and has_minimum_role(body.role.value, "admin")`
abbrev pub gives_admin : Option String → Bool
gives_admin none = false
gives_admin (some role) = is_admin role

abbrev pub switches_off : Option Bool → Bool
switches_off none = false
switches_off (some on) = not on

abbrev pub may_create : UserRow → UserCreate → Bool
may_create caller d =
    if caller.is_superadmin
    then true
    else same_tenant d.tenant_id caller.tenant_id
      && not (str_eq d.role "admin" || str_eq d.role "superadmin")

-- `AdminDep` before the body of a handler; the public body has no `is_superadmin`
unfoldable pub post_user :
    (ℕ → ℕ) → (ℕ → Bool) → ℕ → UserRow → UserCreate → UserWorld → Reply UserRow
unfolding create_user has_minimum_role
post_user hash fits id caller d w =
    if not (is_admin caller.role)
    then (err forbidden, w)
    else if not (may_create caller d)
    then (err forbidden, w)
    else create_user hash fits id (record d { is_superadmin = false }) w

-- the answer of the tests of a PATCH, none where it may go on
unfoldable pub patch_refusal : UserRow → UserRow → UserUpdate → Option UserError
unfolding has_minimum_role
patch_refusal caller target p =
    let is_self = target.id == caller.id in
    if caller.is_superadmin
    then (if is_self && switches_off (value_of p.is_active) then some self_deactivation else none)
    else if is_self
    then (if is_some (value_of p.role) || is_some (value_of p.is_active)
        then some forbidden
        else none)
    else if is_admin caller.role
    then (if target.is_superadmin
        then some forbidden
        else if gives_admin (value_of p.role)
        then some forbidden
        else if is_some (value_of p.is_active) && is_admin target.role
        then some forbidden
        else none)
    else some forbidden

unfoldable pub patch_user :
    (ℕ → Bool) → ℕ → UserRow → UserRow → UserUpdate → UserWorld → Reply UserRow
unfolding patch_refusal update_user
patch_user goes now caller target p w = elim (patch_refusal caller target p) [
  | some e ↦ (err e, w)
  | none ↦ update_user goes now caller target p w
]

unfoldable pub delete_user : (ℕ → Bool) → ℕ → UserRow → UserRow → UserWorld → Reply UserRow
unfolding deactivate_user has_minimum_role
delete_user goes now caller target w =
    if not (is_admin caller.role)
    then (err forbidden, w)
    else if target.id == caller.id
    then (err self_deactivation, w)
    else if not caller.is_superadmin && (target.is_superadmin || is_admin target.role)
    then (err forbidden, w)
    else deactivate_user goes now caller target w
