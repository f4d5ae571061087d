-- ===== src/Tenants/Deactivation.antt =====
-- `deactivate_tenant` of app/modules/tenants/service.py with the revocations of app/core/security.py and
-- app/modules/auth/service.py.
use mathlib.Core.Path.{subst}
use soc360_pymes.Prelude.{
  ℕ, ◌+◌, ◌<◌, ◌≡◌, inl, inr, refl, sym, ap, ◌∙◌, Bool, true, false, ◌&&◌, some, List, [], ◌∷◌, All,
  arith, ◌==◌, any, is_none, Bool-cases, Option-cases, ==→eq,
}
use soc360_pymes.Sql.{first, update_where}
use soc360_pymes.Outcome.{Result, ok, Result-cases, err_not_ok}
use soc360_pymes.Security.Redis.{TokenStore, is_denied, is_tracked, revoke_all_user_access_tokens}
use soc360_pymes.Security.Revocation.{
  true_not_false, revoke_all_user_access_tokens-ok, revoke_all_user_access_tokens-err,
}
use soc360_pymes.Auth.Tokens.{User, RefreshToken, revoke_all_user_tokens_for_tenant, revoke_at}
use soc360_pymes.Tenants.Slug.{TenantError, not_found, already_inactive}
use soc360_pymes.Tenants.Service.{
  TenantRow, Tenancy, belongs, switch_off, tenant_off, revoke_each, access_seconds, user_ids,
  shut_down, revoked_redis, deactivate_tenant,
}

abbrev member : ℕ → List ℕ → Bool
member user users = any (λ u. u == user) users

module _ (goes : ℕ → ℕ → Bool) (now ttl : ℕ) where
  -- a denial outlasts the revocations of the other users
  each-denied :
      (users : List ℕ) (r : TokenStore) (j t : ℕ)
      → t < now + ttl
      → is_denied r j t ≡ true
      → is_denied (revoke_each goes now ttl users r).1 j t ≡ true
  unfolding revoke_each
  each-denied [] r j t alive h = h
  each-denied (user ∷ users) r j t alive h =
      each-denied users (revoke_all_user_access_tokens (goes user) now user ttl r).1 j t alive
        ((revoke_all_user_access_tokens-err (goes user) now user ttl r j t alive).1 h)

  -- the first revocation and the others, where all go through
  each_ok :
      (user : ℕ) (users : List ℕ) (r : TokenStore)
      → (revoke_each goes now ttl (user ∷ users) r).0 ≡ true
      → ((revoke_all_user_access_tokens (goes user) now user ttl r).0 ≡ ok tt)
        × ((revoke_each goes now ttl users
              (revoke_all_user_access_tokens (goes user) now user ttl r).1).0
            ≡ true)
  unfolding revoke_each
  each_ok user users r h =
      elim (Result-cases (revoke_all_user_access_tokens (goes user) now user ttl r).0) [
        | inl (u, e) ↦ (e, simp (e, revoke_each) at h)
        | inr (x, e) ↦ absurd (true_not_false (sym (simp (e, revoke_each) at h)))
      ]

  each-untracked :
      (other j t : ℕ) (users : List ℕ) (r : TokenStore)
      → t < now + ttl
      → (revoke_each goes now ttl users r).0 ≡ true
      → is_tracked r other j ≡ false
      → is_tracked (revoke_each goes now ttl users r).1 other j ≡ false
  unfolding revoke_each
  each-untracked other j t [] r alive h free = free
  each-untracked other j t (user ∷ users) r alive h free =
      let (e, rest) = each_ok user users r h in
      let (_, gone, same) =
        revoke_all_user_access_tokens-ok (goes user) now user ttl r e j t alive in
      let after = (revoke_all_user_access_tokens (goes user) now user ttl r).1 in
      each-untracked other j t users after alive rest (elim (Bool-cases (user == other)) [
        | inl q ↦ subst (λ (n : ℕ). is_tracked after n j ≡ false) (==→eq user other q) gone
        | inr q ↦ same other q ∙ free
      ])

  -- Every tracked token of the users is denied, and none is tracked any more.
  each-revoked :
      (other j t : ℕ) (users : List ℕ) (r : TokenStore)
      → t < now + ttl
      → (revoke_each goes now ttl users r).0 ≡ true
      → member other users ≡ true
      → (is_tracked r other j ≡ true → is_denied (revoke_each goes now ttl users r).1 j t ≡ true)
        × (is_tracked (revoke_each goes now ttl users r).1 other j ≡ false)
  unfolding revoke_each
  each-revoked other j t [] r alive h m = cc
  each-revoked other j t (user ∷ users) r alive h m =
      let (e, rest) = each_ok user users r h in
      let (denied, gone, same) =
        revoke_all_user_access_tokens-ok (goes user) now user ttl r e j t alive in
      let after = (revoke_all_user_access_tokens (goes user) now user ttl r).1 in
      elim (Bool-cases (user == other)) [
        | inl q ↦
            let eq = ==→eq user other q in
            (
              λ tracked.
                  each-denied users after j t alive
                    (denied (subst (λ (n : ℕ). is_tracked r n j ≡ true) (sym eq) tracked)),
              each-untracked other j t users after alive rest
                  (subst (λ (n : ℕ). is_tracked after n j ≡ false) eq gone),
            )
        | inr q ↦
            let (d, g) = each-revoked other j t users after alive rest (ground (arith, m, q)) in
            (λ tracked. d (same other q ∙ tracked), g)
      ]

All-updated :
    {A : Type 0} (Q : A → Type 0) (p : A → Bool) (f : A → A)
    → ((a : A) → p a ≡ true → Q (f a))
    → ((a : A) → p a ≡ false → Q a)
    → (xs : List A) → All Q (update_where p f xs)
All-updated Q p f hit miss [] = tt
All-updated Q p f hit miss (x ∷ xs) = elim (Bool-cases (p x)) [
  | inl e ↦ rw e (hit x e, All-updated Q p f hit miss xs)
  | inr e ↦ rw e (miss x e, All-updated Q p f hit miss xs)
]

abbrev owned : ℕ → List User → RefreshToken → Bool
owned tenant users r = any (λ (u : User). u.id == r.user_id && belongs tenant u) users

-- The tenant and its users are off, and none of their sessions is left.
pub record IsShut (now tenant : ℕ) (w w' : Tenancy) : Type 0 where
  pub tenant_inactive :
      All (λ (t : TenantRow). (t.id == tenant) ≡ true → t.is_active ≡ false) w'.tenants
  pub users_inactive : All (λ (u : User). belongs tenant u ≡ true → u.is_active ≡ false) w'.users
  pub no_refresh :
      All
        (λ (r : RefreshToken). owned tenant w'.users r ≡ true → is_none r.revoked_at ≡ false)
        w'.tokens
  pub no_access :
      (user j t : ℕ)
      → t < now + access_seconds
      → member user (user_ids tenant w'.users) ≡ true
      → (is_tracked w.redis user j ≡ true → is_denied w'.redis j t ≡ true)
        × (is_tracked w'.redis user j ≡ false)

module _ (now tenant : ℕ) (w : Tenancy) where
  abbrev off : Tenancy
  off = shut_down now tenant w

  shut_tenants : All (λ (t : TenantRow). (t.id == tenant) ≡ true → t.is_active ≡ false) off.tenants
  unfolding shut_down
  shut_tenants =
      All-updated (λ (t : TenantRow). (t.id == tenant) ≡ true → t.is_active ≡ false)
        (λ (t : TenantRow). t.id == tenant) tenant_off (λ t h _. refl)
        (λ t h e. absurd (true_not_false (sym e ∙ h))) w.tenants

  shut_users : All (λ (u : User). belongs tenant u ≡ true → u.is_active ≡ false) off.users
  unfolding shut_down
  shut_users =
      All-updated (λ (u : User). belongs tenant u ≡ true → u.is_active ≡ false) (belongs tenant)
        switch_off (λ u h _. refl) (λ u h e. absurd (true_not_false (sym e ∙ h))) w.users

  shut_tokens :
      All
        (λ (r : RefreshToken). owned tenant off.users r ≡ true → is_none r.revoked_at ≡ false)
        off.tokens
  unfolding shut_down revoke_all_user_tokens_for_tenant belongs
  shut_tokens =
      All-updated
        (λ (r : RefreshToken). owned tenant off.users r ≡ true → is_none r.revoked_at ≡ false)
        (λ r. owned tenant off.users r && is_none r.revoked_at) (revoke_at now) (λ r h _. refl)
        (λ r h e. ground (arith, h, e)) w.tokens

  revoked_redis-IsShut :
      (answer : Bool × TokenStore)
      → ((user j t : ℕ)
          → t < now + access_seconds
          → answer.0 ≡ true
          → member user (user_ids tenant off.users) ≡ true
          → (is_tracked w.redis user j ≡ true → is_denied answer.1 j t ≡ true)
            × (is_tracked answer.1 user j ≡ false))
      → (b : Bool) → (revoked_redis answer off).0 ≡ ok b
      → IsShut now tenant w (revoked_redis answer off).1
  revoked_redis-IsShut (true, r) h b e = record {
    tenant_inactive = shut_tenants;
    users_inactive = shut_users;
    no_refresh = shut_tokens;
    no_access = λ user j t alive m. h user j t alive refl m;
  }
  revoked_redis-IsShut (false, r) h b e = cc

abbrev all_revoked : (ℕ → ℕ → Bool) → ℕ → ℕ → Tenancy → Bool × TokenStore
all_revoked goes now tenant w =
    revoke_each goes now access_seconds (user_ids tenant (off now tenant w).users)
      (off now tenant w).redis

active_deactivation :
    (goes : ℕ → ℕ → Bool) (now tenant : ℕ) (w : Tenancy) (t : TenantRow)
    → first (λ (x : TenantRow). x.id == tenant) w.tenants ≡ some t
    → t.is_active ≡ true
    → deactivate_tenant goes now tenant w
      ≡ revoked_redis (all_revoked goes now tenant w) (off now tenant w)
unfolding deactivate_tenant
active_deactivation goes now tenant w t found on = rw (found, on, deactivate_tenant) refl

-- a deactivation that returns found an active tenant
deactivation_found :
    (goes : ℕ → ℕ → Bool) (now tenant : ℕ) (w : Tenancy) (b : Bool)
    → (deactivate_tenant goes now tenant w).0 ≡ ok b
    → (t : TenantRow) × (first (λ (x : TenantRow). x.id == tenant) w.tenants ≡ some t)
      × (t.is_active ≡ true)
unfolding deactivate_tenant
deactivation_found goes now tenant w b h =
    elim (Option-cases (first (λ (x : TenantRow). x.id == tenant) w.tenants)) [
      | inl e ↦ absurd (err_not_ok not_found b (simp (e, deactivate_tenant) at h))
      | inr (t, e) ↦ elim (Bool-cases t.is_active) [
        | inl on ↦ (t, e, on)
        | inr away ↦ absurd (err_not_ok already_inactive b (simp (e, away, deactivate_tenant) at h))
      ]
    ]

-- A deactivation that returns has shut the tenant: its row and its users are inactive, no refresh token of
-- a user of it is left unrevoked, and every access token tracked for one of them is denied for the
-- life of an access token, with none tracked any more; whatever the order of the users and the state of
-- Redis before.
pub deactivate_tenant-IsShut :
    (goes : ℕ → ℕ → Bool) (now tenant : ℕ) (w : Tenancy) (b : Bool)
    → (deactivate_tenant goes now tenant w).0 ≡ ok b
    → IsShut now tenant w (deactivate_tenant goes now tenant w).1
unfolding shut_down
deactivate_tenant-IsShut goes now tenant w b h =
    let (t, found, on) = deactivation_found goes now tenant w b h in
    let same = active_deactivation goes now tenant w t found on in
    rw same (
      revoked_redis-IsShut now tenant w (all_revoked goes now tenant w)
        (λ user j at alive all_ok m.
          each-revoked goes now access_seconds user j at (user_ids tenant (off now tenant w).users)
            w.redis alive all_ok m)
        b (sym (ap (λ (x : Result TenantError Bool × Tenancy). x.0) same) ∙ h))
