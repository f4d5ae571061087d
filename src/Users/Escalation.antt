-- ===== src/Users/Escalation.antt =====
-- No privilege escalation through app/modules/users/router.py and service.py.
use mathlib.Core.Path.{subst}
use soc360_pymes.Prelude.{
  ℕ, ◌≡◌, refl, sym, ◌∙◌, Bool, true, false, not, ◌&&◌, ◌||◌, Option, none, some, List, [], ◌∷◌,
  All, All-append, Bool-cases, Option-cases, inl, inr, any, ◌==◌,
}
use soc360_pymes.Sql.{first, first-All, All-update_where}
use soc360_pymes.Outcome.{ok, err, >>=-ok, Result-cases, ok-injective}
use soc360_pymes.Text.{codes_eq, strip, lower}
use soc360_pymes.Security.Revocation.{true_not_false}
use soc360_pymes.Security.Redis.{Answer, revoke_all_user_access_tokens}
use soc360_pymes.Users.Service.{
  UserRow, UserWorld, UserCreate, UserUpdate, new_user, new_row, check_email, check_tenant,
  check_length, check_row, passes_checks, create_user, is_email_taken, patched_user,
  is_deactivating, put_user, access_seconds, after_revocation, end_sessions, may_touch, update_user,
  deactivate_user,
}
use soc360_pymes.Users.Router.{
  value_of, is_admin, gives_admin, may_create, post_user, patch_refusal, patch_user, delete_user,
}
use soc360_pymes.Users.Rank.{
  is_powerful, SameRank-Unraised, Unraised, patched_user-Unraised, patch_refusal-none,
  may_create-plain,
}

module _ (allowed : ℕ → Bool) where
  -- The powerful are among those who are allowed to be.
  abbrev pub IsAllowed : UserRow → Type 0
  IsAllowed u = is_powerful u ≡ true → allowed u.id ≡ true

  abbrev pub NoOthers : UserWorld → Type 0
  NoOthers w = All IsAllowed w.users

  put_user-NoOthers :
      (target row : UserRow) (w : UserWorld)
      → Unraised target row
      → IsAllowed target
      → NoOthers w
      → NoOthers (put_user row w)
  put_user-NoOthers target row w (i, h) k all =
      All-update_where IsAllowed (λ (u : UserRow). u.id == row.id) (λ _. row)
        (λ _ _ _ e. rw i (k (h e))) w.users all

  after-NoOthers :
      (answer : Answer Unit) (row : UserRow) (w : UserWorld)
      → NoOthers w
      → NoOthers (after_revocation answer row w).1
  after-NoOthers (err e, r) row w h = h
  after-NoOthers (ok done, r) row w h = h

  end_sessions-NoOthers :
      (goes : ℕ → Bool) (now : ℕ) (row : UserRow) (w : UserWorld)
      → NoOthers w
      → NoOthers (end_sessions goes now row w).1
  unfolding end_sessions
  end_sessions-NoOthers goes now row w h =
      after-NoOthers (revoke_all_user_access_tokens goes now row.id access_seconds w.redis) row _ h

  create_user-NoOthers :
      (hash : ℕ → ℕ) (fits : ℕ → Bool) (id : ℕ) (d : UserCreate) (w : UserWorld)
      → is_powerful (new_user hash fits id d) ≡ false
      → NoOthers w
      → NoOthers (create_user hash fits id d w).1
  unfolding create_user new_row
  create_user-NoOthers hash fits id d w plain h = elim (Result-cases (new_row hash fits id d w)) [
    | inr (x, e) ↦ rw (e, create_user) h
    | inl (u, e) ↦
        let (_, _, e₁) = >>=-ok (check_email (is_email_taken w.users d.email none)) _ e in
        let (_, _, e₂) = >>=-ok (check_tenant d w.tenants) _ e₁ in
        let (_, _, e₃) = >>=-ok (check_length (fits d.password)) _ e₂ in
        let (_, _, e₄) = >>=-ok (check_row (passes_checks d)) _ e₃ in
        let (_, _, e₅) =
          >>=-ok
            (check_email (any (λ (v : UserRow). codes_eq v.email (strip (lower d.email))) w.users))
            _ e₄ in
        rw (e, create_user)
          (All-append IsAllowed w.users (u ∷ []) h (
            subst IsAllowed (ok-injective (new_user hash fits id d) u e₅)
                (λ k. absurd (true_not_false (sym k ∙ plain))),
            tt,
          ))
  ]

  post_user-NoOthers :
      (hash : ℕ → ℕ) (fits : ℕ → Bool) (id : ℕ) (caller : UserRow) (d : UserCreate) (w : UserWorld)
      → caller.is_superadmin ≡ false
      → NoOthers w
      → NoOthers (post_user hash fits id caller d w).1
  unfolding post_user
  post_user-NoOthers hash fits id caller d w plain h = elim (Bool-cases (is_admin caller.role)) [
    | inr a ↦ rw (a, post_user) h
    | inl a ↦ elim (Bool-cases (may_create caller d)) [
      | inr m ↦ rw (a, m, post_user) h
      | inl m ↦
          rw (a, m, post_user)
            (create_user-NoOthers hash fits id (record d { is_superadmin = false }) w
              (rw (may_create-plain caller d plain m) refl) h)
    ]
  ]

  update_user-NoOthers :
      (goes : ℕ → Bool) (now : ℕ) (caller target : UserRow) (p : UserUpdate) (w : UserWorld)
      → gives_admin (value_of p.role) ≡ false
      → IsAllowed target
      → NoOthers w
      → NoOthers (update_user goes now caller target p w).1
  unfolding update_user
  update_user-NoOthers goes now caller target p w g k h =
      elim (Bool-cases (may_touch caller target)) [
        | inr m ↦ rw (m, update_user) h
        | inl m ↦ elim (Result-cases (patched_user w.users p target)) [
          | inr (x, e) ↦ rw (m, e, update_user) h
          | inl (row, e) ↦
              let put =
                put_user-NoOthers target row w (patched_user-Unraised w.users p target row g e) k
                  h in
              elim (Bool-cases (is_deactivating p target)) [
                | inl d ↦
                    rw (m, e, d, update_user)
                      (end_sessions-NoOthers goes now row (put_user row w) put)
                | inr d ↦ rw (m, e, d, update_user) put
              ]
        ]
      ]

  patch_user-NoOthers :
      (goes : ℕ → Bool) (now : ℕ) (caller target : UserRow) (p : UserUpdate) (w : UserWorld)
      → caller.is_superadmin ≡ false
      → IsAllowed target
      → NoOthers w
      → NoOthers (patch_user goes now caller target p w).1
  unfolding patch_user
  patch_user-NoOthers goes now caller target p w plain k h =
      elim (Option-cases (patch_refusal caller target p)) [
        | inr (x, e) ↦ rw (e, patch_user) h
        | inl e ↦
            rw (e, patch_user)
              (update_user-NoOthers goes now caller target p w
                (patch_refusal-none caller target p plain e) k h)
      ]

  deactivate_user-NoOthers :
      (goes : ℕ → Bool) (now : ℕ) (caller target : UserRow) (w : UserWorld)
      → IsAllowed target
      → NoOthers w
      → NoOthers (deactivate_user goes now caller target w).1
  unfolding deactivate_user
  deactivate_user-NoOthers goes now caller target w k h =
      elim (Bool-cases (may_touch caller target)) [
        | inr m ↦ rw (m, deactivate_user) h
        | inl m ↦ elim (Bool-cases target.is_active) [
          | inr a ↦ rw (m, a, deactivate_user) h
          | inl a ↦
              let row : UserRow = record target { is_active = false } in
              rw (m, a, deactivate_user)
                (end_sessions-NoOthers goes now row (put_user row w) (
                  put_user-NoOthers target row w (SameRank-Unraised target row (refl, refl, refl)) k
                    h))
        ]
      ]

  delete_user-NoOthers :
      (goes : ℕ → Bool) (now : ℕ) (caller target : UserRow) (w : UserWorld)
      → IsAllowed target
      → NoOthers w
      → NoOthers (delete_user goes now caller target w).1
  unfolding delete_user
  delete_user-NoOthers goes now caller target w k h = elim (Bool-cases (is_admin caller.role)) [
    | inr a ↦ rw (a, delete_user) h
    | inl a ↦ elim (Bool-cases (target.id == caller.id)) [
      | inl e ↦ rw (a, e, delete_user) h
      | inr e ↦
          elim (Bool-cases
            (not caller.is_superadmin && (target.is_superadmin || is_admin target.role))) [
              | inl q ↦ rw (a, e, q, delete_user) h
              | inr q ↦
                  rw (a, e, q, delete_user) (deactivate_user-NoOthers goes now caller target w k h)
            ]
    ]
  ]

-- A request with its caller; a change names a user by the id.
pub data Request : Type 0 where
  create : ℕ → UserCreate → Request
  patch : ℕ → UserUpdate → Request
  delete : ℕ → Request

abbrev pub with_target : Option UserRow → UserWorld → (UserRow → UserWorld) → UserWorld
with_target none w f = w
with_target (some u) w f = f u

module _ (hash : ℕ → ℕ) (fits : ℕ → Bool) (goes : ℕ → Bool) (now : ℕ) where
  abbrev pub handle : UserRow → Request → UserWorld → UserWorld
  handle caller (create id d) w = (post_user hash fits id caller d w).1
  handle caller (patch k p) w =
      with_target (first (λ (u : UserRow). u.id == k) w.users) w
        (λ u. (patch_user goes now caller u p w).1)
  handle caller (delete k) w =
      with_target (first (λ (u : UserRow). u.id == k) w.users) w
        (λ u. (delete_user goes now caller u w).1)

  abbrev pub handle_all : List (UserRow × Request) → UserWorld → UserWorld
  handle_all [] w = w
  handle_all ((caller, r) ∷ rs) w = handle_all rs (handle caller r w)

  with_target-NoOthers :
      (allowed : ℕ → Bool) (k : ℕ) (w : UserWorld) (f : UserRow → UserWorld)
      → ((u : UserRow) → IsAllowed allowed u → NoOthers allowed (f u))
      → NoOthers allowed w
      → NoOthers allowed (with_target (first (λ (u : UserRow). u.id == k) w.users) w f)
  with_target-NoOthers allowed k w f keep h =
      elim (Option-cases (first (λ (u : UserRow). u.id == k) w.users)) [
        | inl e ↦ rw e h
        | inr (u, e) ↦
            rw e (keep u (first-All (IsAllowed allowed) (λ (u : UserRow). u.id == k) w.users h e))
      ]

  handle-NoOthers :
      (allowed : ℕ → Bool) (caller : UserRow) (r : Request) (w : UserWorld)
      → caller.is_superadmin ≡ false
      → NoOthers allowed w
      → NoOthers allowed (handle caller r w)
  handle-NoOthers allowed caller (create id d) w plain h =
      post_user-NoOthers allowed hash fits id caller d w plain h
  handle-NoOthers allowed caller (patch k p) w plain h =
      with_target-NoOthers allowed k w (λ u. (patch_user goes now caller u p w).1)
        (λ u ok_u. patch_user-NoOthers allowed goes now caller u p w plain ok_u h) h
  handle-NoOthers allowed caller (delete k) w plain h =
      with_target-NoOthers allowed k w (λ u. (delete_user goes now caller u w).1)
        (λ u ok_u. delete_user-NoOthers allowed goes now caller u w ok_u h) h

  -- Whatever callers who are not superadmins ask, of users of any tenant, nobody gains power: if the users
  -- with a role of the level of an admin or with the superadmin flag are among certain ids before, they
  -- are afterwards.
  pub handle_all-NoOthers :
      (allowed : ℕ → Bool) (rs : List (UserRow × Request)) (w : UserWorld)
      → All (λ (r : UserRow × Request). r.0.is_superadmin ≡ false) rs
      → NoOthers allowed w
      → NoOthers allowed (handle_all rs w)
  handle_all-NoOthers allowed [] w plain h = h
  handle_all-NoOthers allowed ((caller, r) ∷ rs) w (p, plain) h =
      handle_all-NoOthers allowed rs (handle caller r w) plain
        (handle-NoOthers allowed caller r w p h)
