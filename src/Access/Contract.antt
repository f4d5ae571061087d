-- ===== src/Access/Contract.antt =====
-- The contract of app/dependencies/cross_tenant.py for callers who are not superadmins.
use mathlib.Core.Path.{subst}
use soc360_pymes.Prelude.{
  ℕ, ◌≡◌, refl, sym, ap, ◌⊎◌, inl, inr, true, false, Option, none, some, List, [], ◌∷◌, ◌++◌, arith,
  ◌==◌, Bool-cases, is_none,
}
use soc360_pymes.Sql.{first}
use soc360_pymes.Outcome.{ok, err}
use soc360_pymes.Access.{
  Account, not_found, forbidden, RequestState, Reply, same_tenant, shows_user, elevated_context,
  canonical, select_user, compare_tenant, get_user_for_admin,
}

elevated_first :
    (user_id : ℕ) (users : List Account)
    → select_user elevated_context user_id users ≡ first (λ (u : Account). u.id == user_id) users
unfolding shows_user
elevated_first user_id [] = refl
elevated_first user_id (u ∷ users) = ground (arith, elevated_first user_id users)

-- What a request for a user ends in, given the row at the id: the answer, the attempts on the log, and the
-- context that the request goes on under.
abbrev pub Contract : ℕ → Account → RequestState → Option Account → Reply Account → Type 0
Contract user_id caller s none (result, s') =
    (result ≡ err not_found) × (s'.blocked ≡ s.blocked) × (s'.context ≡ canonical caller)
Contract user_id caller s (some u) (result, s') =
    (s'.context ≡ canonical caller)
    × (((same_tenant u.tenant_id caller.tenant_id ≡ true)
          × (result ≡ ok u)
          × (s'.blocked ≡ s.blocked))
        ⊎ ((same_tenant u.tenant_id caller.tenant_id ≡ false)
            × (result ≡ err forbidden)
            × (s'.blocked ≡ s.blocked ++ user_id ∷ [])))

compare_tenant-Contract :
    (user_id : ℕ) (caller : Account) (s : RequestState) (o : Option Account)
    → Contract user_id caller s o
        (compare_tenant caller user_id o (record s { context = canonical caller }))
unfolding compare_tenant
compare_tenant-Contract user_id caller s none = (refl, refl, refl)
compare_tenant-Contract user_id caller s (some u) =
    elim (Bool-cases (same_tenant u.tenant_id caller.tenant_id)) [
      | inl e ↦ rw e (refl, inl (refl, refl, refl))
      | inr e ↦ rw e (refl, inr (refl, refl, refl))
    ]

compared :
    (user_id : ℕ) (caller : Account) (users : List Account) (s : RequestState)
    → caller.is_superadmin ≡ false
    → is_none caller.tenant_id ≡ false
    → compare_tenant caller user_id
        (first (λ (u : Account). u.id == user_id) users)
        (record s { context = canonical caller })
      ≡ get_user_for_admin user_id caller users s
unfolding get_user_for_admin
compared user_id caller users s plain member =
    simp (plain, member)
      (ap (λ o. compare_tenant caller user_id o (record s { context = canonical caller }))
        (sym (elevated_first user_id users)))

-- A caller who is not a superadmin and has a tenant gets a user of that tenant; is refused with 403, and
-- logged once, for a user of another tenant; and gets 404 exactly if no user has the id. In every case
-- the request goes on under the caller's own tenant.
pub get_user_for_admin-Contract :
    (user_id : ℕ) (caller : Account) (users : List Account) (s : RequestState)
    → caller.is_superadmin ≡ false
    → is_none caller.tenant_id ≡ false
    → Contract user_id caller s
        (first (λ (u : Account). u.id == user_id) users)
        (get_user_for_admin user_id caller users s)
get_user_for_admin-Contract user_id caller users s plain member =
    subst (Contract user_id caller s (first (λ (u : Account). u.id == user_id) users))
      (compared user_id caller users s plain member)
      (compare_tenant-Contract user_id caller s (first (λ (u : Account). u.id == user_id) users))
