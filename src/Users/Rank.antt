-- ===== src/Users/Rank.antt =====
-- The role and the flag of a row under the steps of app/modules/users/service.py, and what the tests of
-- app/modules/users/router.py let through.
use mathlib.Core.Path.{subst}
use soc360_pymes.Prelude.{
  ℕ, ◌≡◌, refl, ◌∙◌, String, Bool, true, false, not, ◌||◌, Option, none, some, List, arith,
  Bool-cases, inl, inr, is_some, str_eq, and→both, ◌==◌,
}
use soc360_pymes.Outcome.{Result, ok, >>=-ok, ok-injective, err_not_ok}
use soc360_pymes.Text.{strip, lower}
use soc360_pymes.Access.{same_tenant}
use soc360_pymes.Security.Roles.{role_level, has_minimum_role}
use soc360_pymes.Users.Service.{
  UserRow, UserError, forbidden, attribute_error, email_taken, integrity_error, UserCreate,
  UserUpdate, email_step, is_email_taken, full_name_step, role_step, active_step, patched_user,
}
use soc360_pymes.Users.Router.{value_of, is_admin, gives_admin, may_create, patch_refusal}

-- a role of the level of an admin, or the flag
abbrev pub is_powerful : UserRow → Bool
is_powerful u = is_admin u.role || u.is_superadmin

abbrev pub SameRank : UserRow → UserRow → Type 0
SameRank a b = (b.id ≡ a.id) × (b.role ≡ a.role) × (b.is_superadmin ≡ a.is_superadmin)

ok-SameRank :
    (u a b : UserRow) → Path (Result UserError UserRow) (ok a) (ok b) → SameRank u a → SameRank u b
ok-SameRank u a b e h = subst (SameRank u) (ok-injective a b e) h

email_step-SameRank :
    (users : List UserRow) (k : ℕ) (email : Option (Option (List ℕ))) (u u' : UserRow)
    → email_step users k email u ≡ ok u'
    → SameRank u u'
unfolding email_step
email_step-SameRank users k none u u' h = ok-SameRank u u u' h (refl, refl, refl)
email_step-SameRank users k (some none) u u' h = absurd (err_not_ok attribute_error u' h)
email_step-SameRank users k (some (some email)) u u' h =
    elim (Bool-cases (is_email_taken users (strip (lower email)) (some k))) [
      | inl t ↦ absurd (err_not_ok email_taken u' (rw t at h))
      | inr t ↦
          ok-SameRank u (record u { email = strip (lower email) }) u' (rw t at h) (refl, refl, refl)
    ]

full_name_step-SameRank :
    (name : Option (Option (List ℕ))) (u u' : UserRow)
    → full_name_step name u ≡ ok u'
    → SameRank u u'
unfolding full_name_step
full_name_step-SameRank none u u' h = ok-SameRank u u u' h (refl, refl, refl)
full_name_step-SameRank (some none) u u' h = absurd (err_not_ok attribute_error u' h)
full_name_step-SameRank (some (some name)) u u' h =
    subst (SameRank u) (ok-injective _ u' h) (refl, refl, refl)

active_step-SameRank :
    (on : Option (Option Bool)) (u u' : UserRow) → active_step on u ≡ ok u' → SameRank u u'
unfolding active_step
active_step-SameRank none u u' h = ok-SameRank u u u' h (refl, refl, refl)
active_step-SameRank (some none) u u' h = absurd (err_not_ok integrity_error u' h)
active_step-SameRank (some (some b)) u u' h =
    subst (SameRank u) (ok-injective _ u' h) (refl, refl, refl)

-- What the row is afterwards it was before, unless the role is given.
abbrev pub Unraised : UserRow → UserRow → Type 0
Unraised a b = (b.id ≡ a.id) × (is_powerful b ≡ true → is_powerful a ≡ true)

pub SameRank-Unraised : (a b : UserRow) → SameRank a b → Unraised a b
SameRank-Unraised a b (i, r, s) = (i, λ h. rw (← r, ← s) h)

Unraised-trans : (a b c : UserRow) → Unraised a b → Unraised b c → Unraised a c
Unraised-trans a b c (i, h) (j, k) = (j ∙ i, λ e. h (k e))

or_right : (a b c : Bool) → a ≡ false → (a || c) ≡ true → (b || c) ≡ true
or_right a b c h k = ground (arith, h, k)

role_step-Unraised :
    (role : Option (Option String)) (u u' : UserRow)
    → gives_admin (value_of role) ≡ false
    → role_step role u ≡ ok u'
    → Unraised u u'
unfolding role_step
role_step-Unraised none u u' g h = SameRank-Unraised u u' (ok-SameRank u u u' h (refl, refl, refl))
role_step-Unraised (some none) u u' g h = absurd (err_not_ok attribute_error u' h)
role_step-Unraised (some (some role)) u u' g h =
    subst (Unraised u) (ok-injective _ u' h)
      (refl, λ e. or_right (is_admin role) (is_admin u.role) u.is_superadmin g e)

pub patched_user-Unraised :
    (users : List UserRow) (p : UserUpdate) (u u' : UserRow)
    → gives_admin (value_of p.role) ≡ false
    → patched_user users p u ≡ ok u'
    → Unraised u u'
unfolding patched_user
patched_user-Unraised users p u u' g h =
    let (a, e₁, h₁) = >>=-ok (email_step users u.id p.email u) _ h in
    let (b, e₂, h₂) = >>=-ok (full_name_step p.full_name a) _ h₁ in
    let (c, e₃, h₃) = >>=-ok (role_step p.role b) _ h₂ in
    Unraised-trans u a u' (SameRank-Unraised u a (email_step-SameRank users u.id p.email u a e₁)) (
      Unraised-trans a b u' (SameRank-Unraised a b (full_name_step-SameRank p.full_name a b e₂)) (
        Unraised-trans b c u' (role_step-Unraised p.role b c g e₃)
          (SameRank-Unraised c u' (active_step-SameRank p.is_active c u' h₃))))

absent_plain : (role : Option String) → is_some role ≡ false → gives_admin role ≡ false
absent_plain none h = refl
absent_plain (some role) h = cc

some_not_none : (x : UserError) → Path (Option UserError) (some x) none → ⊥
some_not_none x h = cc

-- A PATCH of one who is not a superadmin gives no role of an admin.
pub patch_refusal-none :
    (caller target : UserRow) (p : UserUpdate)
    → caller.is_superadmin ≡ false
    → patch_refusal caller target p ≡ none
    → gives_admin (value_of p.role) ≡ false
unfolding patch_refusal
patch_refusal-none caller target p plain h = elim (Bool-cases (target.id == caller.id)) [
  | inl e ↦ elim (Bool-cases (is_some (value_of p.role))) [
    | inl r ↦ absurd (some_not_none forbidden (rw (plain, e, r) at h))
    | inr r ↦ absent_plain (value_of p.role) r
  ]
  | inr e ↦ elim (Bool-cases (gives_admin (value_of p.role))) [
    | inr g ↦ g
    | inl g ↦ elim (Bool-cases (is_admin caller.role)) [
      | inr a ↦ absurd (some_not_none forbidden (rw (plain, e, a) at h))
      | inl a ↦ elim (Bool-cases target.is_superadmin) [
        | inl s ↦ absurd (some_not_none forbidden (rw (plain, e, a, s) at h))
        | inr s ↦ absurd (some_not_none forbidden (rw (plain, e, a, s, g) at h))
      ]
    ]
  ]
]

not_admin :
    (role : String)
    → not (str_eq role "admin" || str_eq role "superadmin") ≡ true
    → is_admin role ≡ false
unfolding has_minimum_role role_level
not_admin role h = ground (arith, h)

-- a role that a new user may get
pub may_create-plain :
    (caller : UserRow) (d : UserCreate)
    → caller.is_superadmin ≡ false
    → may_create caller d ≡ true
    → is_admin d.role ≡ false
may_create-plain caller d plain h =
    let (_, other) =
      and→both (same_tenant d.tenant_id caller.tenant_id)
        (not (str_eq d.role "admin" || str_eq d.role "superadmin")) (rw plain at h) in
    not_admin d.role other
