-- ===== src/Users/Samples.antt =====
-- A tenant with an admin and an analyst, and the theorem of the users at them.
use soc360_pymes.Prelude.{ℕ, ◌≡◌, refl, Bool, true, false, none, some, List, [], ◌∷◌, ◌==◌}
use soc360_pymes.Outcome.{err}
use soc360_pymes.Text.{codes}
use soc360_pymes.Security.Roles.{role_level, has_minimum_role}
use soc360_pymes.Users.Service.{
  UserRow, UserWorld, UserCreate, UserUpdate, forbidden, attribute_error, email_taken,
}
use soc360_pymes.Users.Router.{post_user, patch_user}
use soc360_pymes.Users.Escalation.{
  Request, create, patch, delete, NoOthers, handle_all, handle_all-NoOthers,
}

abbrev ada : UserRow
ada = record {
  id = 1;
  tenant_id = some 7;
  email = codes "ada@example.com";
  full_name = codes "Ada";
  role = "admin";
  is_active = true;
  is_superadmin = false;
  hashed_password = 10;
}

abbrev bob : UserRow
bob = record ada {
  id = 2;
  email = codes "bob@example.com";
  full_name = codes "Bob";
  role = "analyst";
}

abbrev world : UserWorld
world = record {
  users = ada ∷ bob ∷ [];
  tenants = record { id = 7; is_active = true } ∷ [];
  tokens = [];
  redis = record { denied = []; active = [] };
}

abbrev unchanged : UserUpdate
unchanged = record { email = none; full_name = none; role = none; is_active = none }

abbrev promotion : UserUpdate
promotion = record unchanged { role = some (some "admin") }

abbrev eve : UserCreate
eve = record {
  email = codes "Eve@example.com";
  password = 5;
  full_name = codes "Eve";
  role = "viewer";
  tenant_id = some 7;
  is_superadmin = true;
}

abbrev all_fit : ℕ → Bool
all_fit password = true

abbrev all_go : ℕ → Bool
all_go step = true

abbrev same_hash : ℕ → ℕ
same_hash password = password

refused_test : (patch_user all_go 100 ada bob promotion world).0 ≡ err forbidden
unfolding patch_user role_level
refused_test = refl

-- a null passes the tests of the router and fails in the service
null_test :
    (patch_user all_go 100 ada ada (record unchanged { email = some none }) world).0
    ≡ err attribute_error
unfolding patch_user
null_test = refl

taken_test :
    (post_user same_hash all_fit 3 ada (record eve { email = codes "BOB@example.com" }) world).0
    ≡ err email_taken
unfolding post_user
taken_test = refl

abbrev requests : List (UserRow × Request)
requests =
    (ada, create 3 eve)
    ∷ (ada, patch 3 (record unchanged { role = some (some "analyst") }))
    ∷ (bob, patch 2 promotion)
    ∷ (ada, delete 2)
    ∷ []

abbrev only_ada : ℕ → Bool
only_ada k = k == 1

world-NoOthers : NoOthers only_ada world
unfolding has_minimum_role role_level
world-NoOthers = (λ _. refl, (λ h. h, tt))

handle_all-NoOthers_example :
    NoOthers only_ada (handle_all same_hash all_fit all_go 100 requests world)
handle_all-NoOthers_example =
    handle_all-NoOthers same_hash all_fit all_go 100 only_ada requests world
      (refl, (refl, (refl, (refl, tt)))) world-NoOthers
