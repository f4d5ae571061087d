-- ===== src/Access.antt =====
-- app/dependencies/cross_tenant.py: the checks before an administrator touches a user or a tenant, above the
-- row-level security that app/core/database.py's `set_tenant_context` steers.
pub mod Contract
mod Samples
use soc360_pymes.Prelude.{
  ℕ, Bool, true, false, not, ◌&&◌, ◌||◌, Option, none, some, List, [], ◌∷◌, ◌++◌, if◌then◌else◌,
  is_none, ◌==◌,
}
use soc360_pymes.Sql.{first}
use soc360_pymes.Outcome.{Result, ok, err}

pub record Account : Type 0 where
  pub id : ℕ
  pub tenant_id : Option ℕ
  pub is_superadmin : Bool

pub data HttpError : Type 0 where
  not_found forbidden : HttpError
  -- the ValueError of `set_tenant_context`
  tenant_required : HttpError

-- `app.is_superadmin` and `app.current_tenant` of the transaction
pub record TenantContext : Type 0 where
  pub tenant : Option ℕ
  pub elevated : Bool

-- the context, and the targets of `_log_cross_tenant_attempt`
pub record RequestState : Type 0 where
  pub context : TenantContext
  pub blocked : List ℕ

abbrev pub same_tenant : Option ℕ → Option ℕ → Bool
same_tenant none none = true
same_tenant (some a) (some b) = a == b
same_tenant _ _ = false

-- the policy on the users table, and on the tenants table, whose rows here are their ids
unfoldable pub shows_user : TenantContext → Account → Bool
shows_user c u = c.elevated || same_tenant u.tenant_id c.tenant

unfoldable pub shows_tenant : TenantContext → ℕ → Bool
shows_tenant c t = c.elevated || same_tenant (some t) c.tenant

abbrev pub elevated_context : TenantContext
elevated_context = record { tenant = none; elevated = true }

-- `set_tenant_context(db, tenant_id=current_user.tenant_id, is_superadmin=False)`
abbrev pub canonical : Account → TenantContext
canonical caller = record { tenant = caller.tenant_id; elevated = false }

abbrev pub select_user : TenantContext → ℕ → List Account → Option Account
select_user c user_id users = first (λ u. u.id == user_id && shows_user c u) users

abbrev pub Reply : Type 0 → Type 0
Reply A = Result HttpError A × RequestState

abbrev pub or_not_found : {A : Type 0} → Option A → RequestState → Reply A
or_not_found none s = (err not_found, s)
or_not_found (some a) s = (ok a, s)

-- the comparison that follows the elevated SELECT
unfoldable pub compare_tenant : Account → ℕ → Option Account → RequestState → Reply Account
compare_tenant caller user_id none s = (err not_found, s)
compare_tenant caller user_id (some row) s =
    if same_tenant row.tenant_id caller.tenant_id
    then (ok row, s)
    else (err forbidden, record s { blocked = s.blocked ++ user_id ∷ [] })

-- `_get_user_for_admin`
unfoldable pub get_user_for_admin : ℕ → Account → List Account → RequestState → Reply Account
unfolding shows_user compare_tenant
get_user_for_admin user_id caller users s =
    if caller.is_superadmin
    then or_not_found (select_user s.context user_id users) s
    else if is_none caller.tenant_id
    then (err tenant_required, record s { context = elevated_context })
    else compare_tenant caller user_id (select_user elevated_context user_id users)
        (record s { context = canonical caller })

-- `_get_tenant_for_admin`
unfoldable pub get_tenant_for_admin : ℕ → Account → List ℕ → RequestState → Reply ℕ
unfolding shows_tenant
get_tenant_for_admin tenant_id caller tenants s =
    if caller.is_superadmin
    then or_not_found (first (λ t. t == tenant_id && shows_tenant s.context t) tenants) s
    else if not (same_tenant (some tenant_id) caller.tenant_id)
    then (err forbidden, record s { blocked = s.blocked ++ tenant_id ∷ [] })
    else or_not_found (first (λ t. t == tenant_id && shows_tenant s.context t) tenants) s
