-- ===== src/Auth/Guards.antt =====
-- What a login has passed, and what a change of a password leaves behind, app/modules/auth/service.py.
use mathlib.Core.Path.{subst}
use soc360_pymes.Prelude.{
  ℕ, ◌+◌, ◌<◌, ◌≡◌, refl, sym, ap, ◌∙◌, ◌⊎◌, some, Option-cases, ◌==◌, Bool, true, false, List, [],
  ◌∷◌, arith, Bool-cases, inl, inr,
}
use soc360_pymes.Sql.{first, count_where}
use soc360_pymes.Outcome.{ok, err, Result-cases, err_not_ok, ok-injective}
use soc360_pymes.Security.Redis.{
  Answer, TokenStore, is_denied, is_tracked, revoke_all_user_access_tokens, track_jti, RedisError,
}
use soc360_pymes.Security.Revocation.{true_not_false, revoke_all_user_access_tokens-ok}
use soc360_pymes.Auth.Tokens.{
  RefreshToken, AuthError, bad_credentials, service_unavailable, wrong_password, password_too_long,
  redis_error, is_unrevoked, revoke_all_user_tokens, User, get_active_user, get_active_user_by_id,
  check_tenant_active, tenant_by_id, Tenant, tenant_serves, create_refresh_token,
}
use soc360_pymes.Auth.Sessions.{
  AuthWorld, AuthEnv, Issued, Reply, attempts_of, login_attempts_max, is_locked_out,
  clear_login_attempts, login, open_session, finish_session, finish_change, change_password,
}

finish_session-user :
    (env : AuthEnv) (u : User) (w : AuthWorld) (x : Answer Unit) (i : Issued)
    → (finish_session env u w x).0 ≡ ok i
    → i.user ≡ u.id
unfolding finish_session
finish_session-user env u w (err x, s) i e = absurd (err_not_ok redis_error i e)
finish_session-user env u w (ok done, s) i e =
    elim (Result-cases
      (create_refresh_token env.locked env.now env.fresh_id u.id env.fresh_hash w.tokens)) [
        | inr (x, g) ↦ absurd (err_not_ok x i (rw (finish_session, g) at e))
        | inl (rows, g) ↦
            sym (ap (λ (y : Issued). y.user) (ok-injective _ i (rw (finish_session, g) at e)))
      ]

open_session-user :
    (env : AuthEnv) (u : User) (w : AuthWorld) (i : Issued)
    → (open_session env u w).0 ≡ ok i
    → i.user ≡ u.id
unfolding open_session
open_session-user env u w =
    finish_session-user env u w (track_jti env.track_goes u.id env.fresh_jti w.store)

unlocked :
    (goes : Bool) (email : ℕ) (w : AuthWorld)
    → is_locked_out goes email w.attempts ≡ false
    → (goes ≡ true) × (attempts_of email w.attempts < 10)
unfolding is_locked_out
unlocked goes email w h = ground arith

-- the row of an email, which is active
active_row :
    (email : ℕ) (users : List User) (u : User)
    → get_active_user email users ≡ ok u
    → (first (λ (x : User). x.email == email) users ≡ some u) × (u.is_active ≡ true)
unfolding get_active_user
active_row email users u h = elim (Option-cases (first (λ (x : User). x.email == email) users)) [
  | inl e ↦ absurd (err_not_ok bad_credentials u (simp (e, get_active_user) at h))
  | inr (x, e) ↦ elim (Bool-cases x.is_active) [
    | inr a ↦ absurd (err_not_ok bad_credentials u (simp (e, a, get_active_user) at h))
    | inl a ↦
        let same : x ≡ u = ok-injective x u (simp (e, a, get_active_user) at h) in
        (e ∙ ap some same, subst (λ (y : User). y.is_active ≡ true) same a)
  ]
]

-- Tokens are given to superadmins, and to users whose tenant has a row and is active.
abbrev pub InService : List Tenant → User → Type 0
InService tenants u =
    (u.is_superadmin ≡ true)
    ⊎ ((k : ℕ) × (t : Tenant) × (u.tenant_id ≡ some k)
        × (first (λ (x : Tenant). x.id == k) tenants ≡ some t)
        × (t.is_active ≡ true))

tenant-InService :
    (tenants : List Tenant) (u : User) (k : ℕ)
    → u.tenant_id ≡ some k
    → tenant_serves (tenant_by_id (some k) tenants) ≡ true
    → InService tenants u
tenant-InService tenants u k e h = elim (Option-cases (first (λ (x : Tenant). x.id == k) tenants)) [
  | inl n ↦ absurd (true_not_false (sym (rw n at h)))
  | inr (t, n) ↦ inr (k, t, e, n, rw n at h)
]

check_tenant_active-InService :
    (tenants : List Tenant) (u : User)
    → check_tenant_active u (tenant_by_id u.tenant_id tenants) ≡ ok tt
    → InService tenants u
unfolding check_tenant_active
check_tenant_active-InService tenants u h = elim (Bool-cases u.is_superadmin) [
  | inl s ↦ inl s
  | inr s ↦ elim (Bool-cases (tenant_serves (tenant_by_id u.tenant_id tenants))) [
    | inr t ↦ absurd (err_not_ok bad_credentials tt (simp (s, t) at h))
    | inl t ↦ elim (Option-cases u.tenant_id) [
      | inl n ↦ absurd (true_not_false (sym (simp n at t)))
      | inr (k, n) ↦ tenant-InService tenants u k n (simp n at t)
    ]
  ]
]

-- A login that answers with tokens was of an email whose failed attempts could be read and are fewer
-- than ten; the first row with the email is active and its password hash fits the password; it is of a
-- superadmin, or of a tenant that has a row and is active; and the tokens are that user's.
pub login-guard :
    (verify : ℕ → ℕ → Bool) (env : AuthEnv) (email password : ℕ) (w : AuthWorld) (i : Issued)
    → (login verify env email password w).0 ≡ ok i
    → (env.check_goes ≡ true)
      × (attempts_of email w.attempts < login_attempts_max)
      × ((u : User) × (first (λ (x : User). x.email == email) w.users ≡ some u)
          × (u.is_active ≡ true)
          × (verify password u.password ≡ true)
          × InService w.tenants u
          × (i.user ≡ u.id))
unfolding login
login-guard verify env email password w i e = elim (Bool-cases env.healthy) [
  | inr a ↦ absurd (err_not_ok service_unavailable i (simp a at e))
  | inl a ↦ elim (Bool-cases (is_locked_out env.check_goes email w.attempts)) [
    | inl b ↦ absurd (err_not_ok bad_credentials i (simp (a, b) at e))
    | inr b ↦ elim (Result-cases (get_active_user email w.users)) [
      | inr (x, c) ↦ absurd (err_not_ok bad_credentials i (simp (a, b, c) at e))
      | inl (u, c) ↦ elim (Bool-cases (verify password u.password)) [
        | inr v ↦ absurd (err_not_ok bad_credentials i (simp (a, b, c, v) at e))
        | inl v ↦ elim (Result-cases (check_tenant_active u (tenant_by_id u.tenant_id w.tenants))) [
          | inr (x, t) ↦ absurd (err_not_ok x i (simp (a, b, c, v, t) at e))
          | inl (done, t) ↦
              let (readable, few) = unlocked env.check_goes email w b in
              let row = active_row email w.users u c in
              let cleared = record w {
                attempts = clear_login_attempts env.record_goes email w.attempts;
              } in
              (
                readable,
                few,
                (
                  u,
                  row.0,
                  row.1,
                  v,
                  check_tenant_active-InService w.tenants u t,
                  open_session-user env u cleared i (simp (a, b, c, v, t) at e),
                ),
              )
        ]
      ]
    ]
  ]
]

none_unrevoked :
    (now user : ℕ) (rows : List RefreshToken)
    → count_where (is_unrevoked user) (revoke_all_user_tokens now user rows) ≡ 0
unfolding revoke_all_user_tokens is_unrevoked
none_unrevoked now user [] = refl
none_unrevoked now user (r ∷ rows) = ground (arith, none_unrevoked now user rows)

module _ (verify : ℕ → ℕ → Bool) (hash : ℕ → ℕ) (fits : ℕ → Bool) (env : AuthEnv) (goes : ℕ → Bool)
    (user current new : ℕ) (w : AuthWorld) where
  abbrev changed : Reply Unit
  changed = change_password verify hash fits env goes user current new w

  abbrev answer : Answer Unit
  answer = revoke_all_user_access_tokens goes env.now user env.token_seconds w.store

  -- the two ways in which the call can end
  data Ending : Reply Unit → Type 0 where
    refused : (x : AuthError) (s : TokenStore) → Ending (err x, record w { store = s })
    done :
        (u : User)
        → get_active_user_by_id user w.users ≡ ok u
        → verify current u.password ≡ true
        → answer.0 ≡ ok tt
        → Ending (finish_change env user (hash new) w (ok tt, answer.1))

  refused_change :
      (x : RedisError) (s : TokenStore) → Ending (finish_change env user (hash new) w (err x, s))
  unfolding finish_change
  refused_change x s = refused redis_error s

  finish_change-Ending :
      (u : User)
      → get_active_user_by_id user w.users ≡ ok u
      → verify current u.password ≡ true
      → (x : Answer Unit) → answer ≡ x
      → Ending (finish_change env user (hash new) w x)
  finish_change-Ending u e v (err x, s) h = refused_change x s
  finish_change-Ending u e v (ok tt, s) h =
      subst (λ (y : TokenStore). Ending (finish_change env user (hash new) w (ok tt, y)))
        (ap (λ (y : Answer Unit). y.1) h) (done u e v (ap (λ (y : Answer Unit). y.0) h))

  ending : Ending changed
  unfolding change_password
  ending = elim (Bool-cases env.healthy) [
    | inr a ↦ simp a (refused service_unavailable w.store)
    | inl a ↦ elim (Result-cases (get_active_user_by_id user w.users)) [
      | inr (x, e) ↦ simp (a, e) (refused x w.store)
      | inl (u, e) ↦ elim (Bool-cases (verify current u.password)) [
        | inr v ↦ simp (a, e, v) (refused wrong_password w.store)
        | inl v ↦ elim (Bool-cases (fits new)) [
          | inr f ↦ simp (a, e, v, f) (refused password_too_long w.store)
          | inl f ↦ simp (a, e, v, f) (finish_change-Ending u e v answer refl)
        ]
      ]
    ]
  ]

  -- Nothing written to the database, or every session of the user ended.
  unfoldable pub Ended : Reply Unit → Type 0
  Ended (r, w') =
      ((x : AuthError) × (r ≡ err x) × (w'.users ≡ w.users) × (w'.tokens ≡ w.tokens))
      ⊎ ((r ≡ ok tt)
          × ((u : User) × (get_active_user_by_id user w.users ≡ ok u)
              × (verify current u.password ≡ true))
          × (count_where (is_unrevoked user) w'.tokens ≡ 0)
          × ((j t : ℕ)
              → t < env.now + env.token_seconds
              → (is_tracked w.store user j ≡ true → is_denied w'.store j t ≡ true)
                × (is_tracked w'.store user j ≡ false)))

  Ending-Ended : (x : Reply Unit) → Ending x → Ended x
  unfolding Ended finish_change
  Ending-Ended x (refused y s) = inl (y, refl, refl, refl)
  Ending-Ended x (done u e v all_set) = inr (
    refl,
    (u, e, v),
    none_unrevoked env.now user w.tokens,
    λ j t alive.
        let (d, n, o) =
          revoke_all_user_access_tokens-ok goes env.now user env.token_seconds w.store all_set j t
            alive in
        (d, n),
  )

  -- A change of password raises and leaves users and refresh tokens as they were; or it returns, and
  -- then the current password fitted an active user, the user has no unrevoked refresh token, and each
  -- access token tracked for the user is denied for the lifetime of a token and no longer tracked.
  pub change_password-Ended : Ended changed
  change_password-Ended = Ending-Ended changed ending
