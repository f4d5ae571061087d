-- ===== src/CurrentUser/Refused.antt =====
-- Whom `get_current_user` of app/dependencies/auth.py admits, and that it refuses revoked tokens.
use soc360_pymes.Prelude.{
  ℕ, ◌+◌, ◌<◌, ◌≡◌, ◌≢◌, ◌⊎◌, inl, inr, refl, sym, ap, ◌∙◌, Bool, true, false, Option, some,
  Bool-cases, Option-cases, is_none, ◌==◌,
}
use mathlib.Core.Path.{subst}
use soc360_pymes.Sql.{first}
use soc360_pymes.Outcome.{Result, ok, err, Result-cases, err_not_ok, ok-injective}
use soc360_pymes.Access.{TenantContext, elevated_context}
use soc360_pymes.Security.Redis.{
  TokenStore, RedisError, is_denied, is_tracked, is_token_revoked, revoke_all_user_access_tokens,
}
use soc360_pymes.Security.Revocation.{true_not_false, revoke_all_user_access_tokens-ok}
use soc360_pymes.Security.Tokens.{Claims, decode_access_token}
use soc360_pymes.Auth.Tokens.{tenant_by_id, tenant_serves}
use soc360_pymes.Users.Service.{UserRow}
use soc360_pymes.CurrentUser.{
  AuthFailure, bad_token, revoked_token, inactive_user, inactive_tenant, service_unavailable,
  redis_outage, Backend, Reply, admit, tenant_context, look_up, unless_revoked, get_current_user,
}

-- The row of the user, active, and either a superadmin under the elevated context or of an active tenant
-- under that tenant.
pub record IsAdmitted (b : Backend) (user : ℕ) (u : UserRow) (context : TenantContext)
    : Type 0 where
  pub found : first (λ (x : UserRow). x.id == user) b.users ≡ some u
  pub active : u.is_active ≡ true
  pub scope :
      ((u.is_superadmin ≡ true) × (context ≡ elevated_context))
      ⊎ ((u.is_superadmin ≡ false)
          × (tenant_serves (tenant_by_id u.tenant_id b.tenants) ≡ true)
          × (is_none u.tenant_id ≡ false)
          × (context ≡ tenant_context u))

module _ (b : Backend) (user : ℕ) where
  abbrev Sound : Reply → Type 0
  Sound reply = (u : UserRow) → reply.0 ≡ ok u → IsAdmitted b user u reply.1

  refused : (e : AuthFailure) (context : TenantContext) → Sound (err e, context)
  refused e context u h = absurd (err_not_ok e u h)

  admitted :
      (a : UserRow) (context : TenantContext) → IsAdmitted b user a context → Sound (ok a, context)
  admitted a context k u h =
      subst (λ (x : UserRow). IsAdmitted b user x context) (ok-injective a u h) k

  admit-Sound :
      (a : UserRow)
      → first (λ (x : UserRow). x.id == user) b.users ≡ some a
      → a.is_active ≡ true
      → Sound (admit b a)
  admit-Sound a found active = elim (Bool-cases a.is_superadmin) [
    | inl s ↦ simp s (
        admitted a elevated_context
          record { found = found; active = active; scope = inl (s, refl) })
    | inr s ↦ elim (Bool-cases (tenant_serves (tenant_by_id a.tenant_id b.tenants))) [
      | inr t ↦ simp (s, t) (refused inactive_tenant elevated_context)
      | inl t ↦ elim (Bool-cases (is_none a.tenant_id)) [
        | inl n ↦ simp (s, t, n) (refused inactive_user elevated_context)
        | inr n ↦
            simp (s, t, n)
              (admitted a (tenant_context a)
                record { found = found; active = active; scope = inr (s, t, n, refl) })
      ]
    ]
  ]

  look_up-Sound : Sound (look_up b user)
  unfolding look_up
  look_up-Sound = elim (Option-cases (first (λ (u : UserRow). u.id == user) b.users)) [
    | inl e ↦ simp (e, look_up) (refused inactive_user elevated_context)
    | inr (a, e) ↦ elim (Bool-cases a.is_active) [
      | inr away ↦ simp (e, away, look_up) (refused inactive_user elevated_context)
      | inl on ↦ simp (e, on, look_up) (admit-Sound a e on)
    ]
  ]

-- the denylist answers
not_denied :
    (b : Backend) (c : Claims) (context : TenantContext) (answer : Result RedisError Bool)
    (u : UserRow)
    → (unless_revoked b c context answer).0 ≡ ok u
    → (answer ≡ ok false) × IsAdmitted b c.sub u (unless_revoked b c context answer).1
unfolding unless_revoked
not_denied b c context (err e) u h = absurd (err_not_ok redis_outage u h)
not_denied b c context (ok true) u h = absurd (err_not_ok revoked_token u h)
not_denied b c context (ok false) u h = (refl, look_up-Sound b c.sub u h)

exists_answer :
    (goes : Bool) (now jti : ℕ) (r : TokenStore)
    → is_token_revoked goes now jti r ≡ ok false
    → is_denied r jti now ≡ false
unfolding is_token_revoked
exists_answer true now jti r h = ok-injective (is_denied r jti now) false h
exists_answer false now jti r h = cc

module _ (token_minutes : ℕ) {Token : Type 0} (jwt_encode : Claims → Token)
    (jwt_decode : Token → ℕ → Option Claims) where
  -- Whoever is answered with presented a token that decodes at that time, whose id is not denied, and whose
  -- subject is an active user; the request goes on elevated for a superadmin, and otherwise under the
  -- user's own tenant, which is active.
  pub get_current_user-IsAdmitted :
      (healthy goes : Bool) (now : ℕ) (token : Token) (context : TenantContext) (b : Backend)
      (u : UserRow)
      → (get_current_user token_minutes jwt_encode jwt_decode healthy goes now token context b).0
        ≡ ok u
      → (c : Claims) × (decode_access_token token_minutes jwt_encode jwt_decode token now ≡ ok c)
        × (is_denied b.redis c.jti now ≡ false)
        × IsAdmitted b c.sub u
            (get_current_user token_minutes jwt_encode jwt_decode healthy goes now token context
              b).1
  unfolding get_current_user
  get_current_user-IsAdmitted healthy goes now token context b u h =
      elim (Result-cases (decode_access_token token_minutes jwt_encode jwt_decode token now)) [
        | inr (x, e) ↦ absurd (err_not_ok bad_token u (rw (e, get_current_user) at h))
        | inl (c, e) ↦ elim (Bool-cases healthy) [
          | inr s ↦ absurd (err_not_ok service_unavailable u (rw (e, s, get_current_user) at h))
          | inl s ↦
              let (free, k) =
                not_denied b c context (is_token_revoked goes now c.jti b.redis) u
                  (rw (e, s, get_current_user) at h) in
              (c, e, exists_answer goes now c.jti b.redis free, rw (e, s, get_current_user) k)
        ]
      ]

  -- After a revocation of a user's access tokens that returned, no token of the user that was tracked
  -- then is answered with a user, for the life of the denials, whoever else is revoked or active.
  pub get_current_user-revoked :
      (commands : ℕ → Bool) (now ttl : ℕ) (r : TokenStore) (healthy goes : Bool) (t : ℕ)
      (token : Token) (context : TenantContext) (b : Backend) (c : Claims) (u : UserRow)
      → (revoke_all_user_access_tokens commands now c.sub ttl r).0 ≡ ok tt
      → b.redis ≡ (revoke_all_user_access_tokens commands now c.sub ttl r).1
      → is_tracked r c.sub c.jti ≡ true
      → t < now + ttl
      → decode_access_token token_minutes jwt_encode jwt_decode token t ≡ ok c
      → (get_current_user token_minutes jwt_encode jwt_decode healthy goes t token context b).0
        ≢ ok u
  get_current_user-revoked commands now ttl r healthy goes t token context b c u done store tracked
        alive decoded h =
      let (d, e, free, _) = get_current_user-IsAdmitted healthy goes t token context b u h in
      let same : c ≡ d = ok-injective c d (sym decoded ∙ e) in
      let denied =
        (revoke_all_user_access_tokens-ok commands now c.sub ttl r done c.jti t alive).0 tracked in
      absurd (
        true_not_false (
          sym denied
          ∙ ap (λ (x : TokenStore). is_denied x c.jti t) (sym store)
          ∙ ap (λ (x : Claims). is_denied b.redis x.jti t) same
          ∙ free))
