-- ===== src/Tenants/Samples.antt =====
-- A tenant with a user who is logged in, and the theorems of the tenants at it.
use soc360_pymes.Prelude.{
  ℕ, zero, suc, ◌≡◌, refl, Bool, true, false, not, ◌||◌, Option, none, some, List, [], ◌∷◌, arith,
  All,
}
use soc360_pymes.Sql.{first}
use soc360_pymes.Outcome.{ok, err}
use soc360_pymes.Text.{codes, codes_eq}
use soc360_pymes.Json.{Value, null}
use soc360_pymes.Assets.Values.{Text}
use soc360_pymes.Auth.Tokens.{User, RefreshToken}
use soc360_pymes.Tenants.Slug.{generate_slug, search_slug, data_error}
use soc360_pymes.Tenants.Service.{
  TenantRow, Tenancy, TenantCreate, TenantUpdate, plan_to_max_assets, create_tenant,
  deactivate_tenant,
}
use soc360_pymes.Tenants.Search.{candidates, or_exhausted, search_slug-first}
use soc360_pymes.Tenants.Deactivation.{IsShut, deactivate_tenant-IsShut}
use soc360_pymes.Tenants.Limits.{
  Call, create, update, deactivate, WithinPlan, calls, calls-WithinPlan,
}

abbrev acme_slug : Text
acme_slug = codes "acme"

abbrev acme : TenantRow
acme = record {
  id = 7;
  name = codes "Acme";
  slug = acme_slug;
  plan = "starter";
  is_active = true;
  max_assets = 25;
  settings = null;
}

abbrev other : TenantRow
other = record acme { id = 8; slug = codes "acme-2"; plan = "free"; max_assets = 10 }

abbrev ana : User
ana = record {
  id = 3;
  email = 30;
  tenant_id = some 7;
  is_active = true;
  is_superadmin = false;
  password = 99;
}

abbrev session : RefreshToken
session = record {
  id = 1;
  user_id = 3;
  token_hash = 101;
  expires_at = 5000;
  revoked_at = none;
  created_at = 900;
}

abbrev tenancy : Tenancy
tenancy = record {
  tenants = acme ∷ other ∷ [];
  users = ana ∷ [];
  tokens = session ∷ [];
  redis = record { denied = []; active = record { user = 3; jti = 44 } ∷ [] };
}

-- another tenant of the same name
abbrev request : TenantCreate
request = record { name = codes " Acme "; slug = none; plan = "free"; settings = null }

abbrev upgrade : TenantUpdate
upgrade = record {
  name = none;
  plan = some (some "pro");
  is_active = none;
  max_assets = some (some 60);
  settings = none;
}

abbrev same_text : Text → Text
same_text t = t

abbrev all_valid : Value → Option Value
all_valid v = some v

abbrev replaced : Value → Value → Option Value
replaced old new = some new

abbrev taken_here : Text → Bool
taken_here slug = codes_eq slug acme_slug || codes_eq slug (codes "acme-2")

slug_test : generate_slug same_text (codes " Café & Soc_360 -- ") ≡ ok (codes "caf-soc-360")
unfolding generate_slug
slug_test = refl

third_test : search_slug taken_here acme_slug 100 2 acme_slug ≡ some (ok (codes "acme-3"))
unfolding search_slug codes_eq
third_test = refl

search_slug-first_example :
    search_slug taken_here acme_slug 100 2 acme_slug
    ≡ some (or_exhausted (first (λ slug. not (taken_here slug)) (candidates acme_slug)))
search_slug-first_example = search_slug-first taken_here acme_slug

abbrev all_go : ℕ → ℕ → Bool
all_go user step = true

deactivated : (deactivate_tenant all_go 1000 7 tenancy).0 ≡ ok true
unfolding deactivate_tenant
deactivated = refl

deactivate_tenant-IsShut_example : IsShut 1000 7 tenancy (deactivate_tenant all_go 1000 7 tenancy).1
deactivate_tenant-IsShut_example = deactivate_tenant-IsShut all_go 1000 7 tenancy true deactivated

abbrev work : List Call
work = create 9 request ∷ update 8 upgrade ∷ deactivate 7 ∷ []

created_test :
    (create_tenant same_text all_valid 9 request tenancy).0
    ≡ ok record other { id = 9; slug = codes "acme-3" }
unfolding create_tenant
created_test = refl

tenancy-WithinPlan : All WithinPlan tenancy.tenants
unfolding plan_to_max_assets
tenancy-WithinPlan = ((25, refl, omega arith), ((10, refl, omega arith), tt))

calls-WithinPlan_example :
    All WithinPlan (calls same_text all_valid replaced all_go 1000 work tenancy).tenants
calls-WithinPlan_example =
    calls-WithinPlan same_text all_valid replaced all_go 1000 work tenancy tenancy-WithinPlan

-- a name that fills the column
abbrev long_name : ℕ → Text
long_name zero = []
long_name (suc n) = b'x' ∷ long_name n

long_test :
    (create_tenant same_text all_valid 9
      record request { name = long_name 100 }
      (record tenancy { tenants = record acme { slug = long_name 100 } ∷ [] })).0
    ≡ err data_error
unfolding create_tenant
long_test = refl
