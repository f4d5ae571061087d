-- ===== src/Access/Samples.antt =====
-- An administrator of one tenant and a user of another.
use soc360_pymes.Prelude.{refl, false, some, List, [], ◌∷◌, ◌==◌}
use soc360_pymes.Sql.{first}
use soc360_pymes.Access.{Account, RequestState, get_user_for_admin}
use soc360_pymes.Access.Contract.{Contract, get_user_for_admin-Contract}

abbrev admin : Account
admin = record { id = 1; tenant_id = some 10; is_superadmin = false }

abbrev accounts : List Account
accounts = admin ∷ record { id = 2; tenant_id = some 20; is_superadmin = false } ∷ []

abbrev state : RequestState
state = record { context = record { tenant = some 10; elevated = false }; blocked = [] }

get_user_for_admin-Contract_example :
    Contract 2 admin state
      (first (λ (u : Account). u.id == 2) accounts)
      (get_user_for_admin 2 admin accounts state)
get_user_for_admin-Contract_example = get_user_for_admin-Contract 2 admin accounts state refl refl
