-- ===== src/Security/Roles.antt =====
-- `ROLE_HIERARCHY`, `can_assign_role` and `has_minimum_role` of app/core/security.py. A level is one more
-- than the source's, so that the -1 of an unknown role is 0.
use mathlib.Core.Path.{subst}
use soc360_pymes.Prelude.{
  ℕ, String, ◌≡◌, refl, Bool, true, false, not, Option, none, some, arith, if◌then◌else◌, ltb, leb,
  str_eq, Bool-cases, sym, eq_iff, inl, inr,
}

unfoldable pub role_level : String → Option ℕ
role_level role =
    if str_eq role "viewer"
    then some 1
    else if str_eq role "analyst"
    then some 2
    else if str_eq role "ingestor"
    then some 2
    else if str_eq role "admin"
    then some 3
    else if str_eq role "superadmin"
    then some 100
    else none

-- `ROLE_HIERARCHY.get(role, -1)`
abbrev pub level_or_none : Option ℕ → ℕ
level_or_none none = 0
level_or_none (some n) = n

abbrev pub level : String → ℕ
level role = level_or_none (role_level role)

unfoldable pub can_assign_role : String → String → Bool
can_assign_role assigner target = ltb (level target) (level assigner)

unfoldable pub has_minimum_role : String → String → Bool
has_minimum_role user required = leb (level required) (level user)

complement : (x y : ℕ) → ltb x y ≡ not (leb y x)
complement x y = ground arith

irreflexive : (x : ℕ) → ltb x x ≡ false
irreflexive x = ground arith

leb_trans : (x y z : ℕ) → leb y x ≡ true → leb z y ≡ true → leb z x ≡ true
leb_trans x y z h k = ground arith

below_above : (x y z : ℕ) → leb y x ≡ true → ltb z y ≡ true → ltb z x ≡ true
below_above x y z h k = ground arith

-- A role may be assigned exactly by those who lie above it: the two tests are complementary, so that
-- nobody assigns their own role, and whoever passes a minimum passes every minimum, and may assign
-- every role, that this role passes and may assign.
can_assign_role-minimum :
    (a b c : String)
    → (can_assign_role a b ≡ not (has_minimum_role b a))
      × (can_assign_role a a ≡ false)
      × (has_minimum_role a b ≡ true → has_minimum_role b c ≡ true → has_minimum_role a c ≡ true)
      × (has_minimum_role a b ≡ true → can_assign_role b c ≡ true → can_assign_role a c ≡ true)
unfolding can_assign_role has_minimum_role
can_assign_role-minimum a b c = (
  complement (level b) (level a),
  irreflexive (level a),
  leb_trans (level a) (level b) (level c),
  below_above (level a) (level b) (level c),
)

text_is : (P : String → Type 0) (t role : String) → str_eq role t ≡ true → P t → P role
text_is P t role h p = subst P (sym ((eq_iff role t).0 h)) p

-- A property of a role that holds of the five roles and of every other.
by_role :
    (P : String → Type 0) (role : String)
    → P "viewer"
    → P "analyst"
    → P "ingestor"
    → P "admin"
    → P "superadmin"
    → (role_level role ≡ none → str_eq role "superadmin" ≡ false → P role)
    → P role
unfolding role_level
by_role P role viewer analyst ingestor admin superadmin other =
    elim (Bool-cases (str_eq role "viewer")) [
      | inl e ↦ text_is P "viewer" role e viewer
      | inr v ↦ elim (Bool-cases (str_eq role "analyst")) [
        | inl e ↦ text_is P "analyst" role e analyst
        | inr a ↦ elim (Bool-cases (str_eq role "ingestor")) [
          | inl e ↦ text_is P "ingestor" role e ingestor
          | inr i ↦ elim (Bool-cases (str_eq role "admin")) [
            | inl e ↦ text_is P "admin" role e admin
            | inr m ↦ elim (Bool-cases (str_eq role "superadmin")) [
              | inl e ↦ text_is P "superadmin" role e superadmin
              | inr s ↦ other (rw (v, a, i, m, s) refl) s
            ]
          ]
        ]
      ]
    ]

-- Nobody may assign the role of a superadmin, and only a superadmin that of an admin.
can_assign_role-top :
    (assigner : String)
    → (can_assign_role assigner "superadmin" ≡ false)
      × (can_assign_role assigner "admin" ≡ str_eq assigner "superadmin")
unfolding can_assign_role role_level
can_assign_role-top assigner =
    by_role (λ r. (ltb 100 (level r) ≡ false) × (ltb 3 (level r) ≡ str_eq r "superadmin")) assigner
      (refl, refl) (refl, refl) (refl, refl) (refl, refl) (refl, refl)
      (λ e f. rw (e, f) (refl, refl))
