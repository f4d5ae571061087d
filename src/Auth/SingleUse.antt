-- ===== src/Auth/SingleUse.antt =====
-- A refresh token is used once: no call of app/modules/auth/service.py brings one back.
use mathlib.Core.Path.{subst}
use soc360_pymes.Prelude.{
  ℕ, ◌≡◌, inl, inr, Bool, false, ◌&&◌, Option, some, List, ◌==◌, is_none, Bool-cases, Option-cases,
}
use soc360_pymes.Sql.{first, update_where}
use soc360_pymes.Outcome.{ok, err, Result-cases, err_not_ok, ok-injective}
use soc360_pymes.Security.Redis.{Answer, revoke_all_user_access_tokens, track_jti}
use soc360_pymes.Auth.Tokens.{
  RefreshToken, bad_refresh_token, revoke_at, create_refresh_token, revoke_all_user_tokens,
  is_unrevoked, User, check_tenant_active, get_active_user, get_active_user_by_id, tenant_by_id,
}
use soc360_pymes.Auth.Sessions.{
  AuthWorld, AuthEnv, is_locked_out, open_session, login, is_usable, rotate_refresh_token,
  retire_old, swap_access, refresh_tokens, logout, change_password, clear_login_attempts,
  finish_session, tracked, retired, finish_logout, finish_change,
}
use soc360_pymes.Auth.Rotation.{Dead, create-Dead, revoke-Dead}

module _ (h : ℕ) (env : AuthEnv) (other : (env.fresh_hash == h) ≡ false) where
  finish_session-Dead :
      (u : User) (w : AuthWorld) (x : Answer Unit)
      → Dead h w.tokens
      → Dead h (finish_session env u w x).1.tokens
  unfolding finish_session
  finish_session-Dead u w (err e, s) d = d
  finish_session-Dead u w (ok done, s) d =
      elim (Result-cases
        (create_refresh_token env.locked env.now env.fresh_id u.id env.fresh_hash w.tokens)) [
          | inr (x, g) ↦ rw (finish_session, g) d
          | inl (rows, g) ↦
              rw (finish_session, g)
                (create-Dead h env.locked env.now env.fresh_id u.id env.fresh_hash w.tokens other g
                  d)
        ]

  open_session-Dead :
      (u : User) (w : AuthWorld) → Dead h w.tokens → Dead h (open_session env u w).1.tokens
  unfolding open_session
  open_session-Dead u w =
      finish_session-Dead u w (track_jti env.track_goes u.id env.fresh_jti w.store)

  pub login-Dead :
      (verify : ℕ → ℕ → Bool) (email password : ℕ) (w : AuthWorld)
      → Dead h w.tokens
      → Dead h (login verify env email password w).1.tokens
  unfolding login
  login-Dead verify email password w d = elim (Bool-cases env.healthy) [
    | inr a ↦ rw a d
    | inl a ↦ elim (Bool-cases (is_locked_out env.check_goes email w.attempts)) [
      | inl b ↦ rw (a, b) d
      | inr b ↦ elim (Result-cases (get_active_user email w.users)) [
        | inr (x, c) ↦ rw (a, b, c) d
        | inl (u, c) ↦ elim (Bool-cases (verify password u.password)) [
          | inr v ↦ rw (a, b, c, v) d
          | inl v ↦
              elim (Result-cases (check_tenant_active u (tenant_by_id u.tenant_id w.tenants))) [
                | inr (x, t) ↦ rw (a, b, c, v, t) d
                | inl (fine, t) ↦
                    rw (a, b, c, v, t)
                      (open_session-Dead u
                        (record w {
                          attempts = clear_login_attempts env.record_goes email w.attempts;
                        })
                        d)
              ]
        ]
      ]
    ]
  ]

  -- what a rotation answers is free of the hash, if the table was, or if it is the hash that is rotated
  pub rotate-Dead :
      (hash : ℕ) (w : AuthWorld)
      → ((o : RefreshToken)
          → first (λ r. is_usable env.now hash r && env.row_free) w.tokens ≡ some o
          → Dead h (update_where (λ q. q.id == o.id) (revoke_at env.now) w.tokens))
      → (x : User × List RefreshToken) → rotate_refresh_token env hash w ≡ ok x
      → Dead h x.1
  unfolding rotate_refresh_token
  rotate-Dead hash w after x e =
      elim (Option-cases (first (λ r. is_usable env.now hash r && env.row_free) w.tokens)) [
        | inl a ↦ absurd (err_not_ok bad_refresh_token x (rw (rotate_refresh_token, a) at e))
        | inr (o, a) ↦ elim (Result-cases (get_active_user_by_id o.user_id w.users)) [
          | inr (y, b) ↦ absurd (err_not_ok y x (rw (rotate_refresh_token, a, b) at e))
          | inl (u, b) ↦
              elim (Result-cases (check_tenant_active u (tenant_by_id u.tenant_id w.tenants))) [
                | inr (y, c) ↦ absurd (err_not_ok y x (rw (rotate_refresh_token, a, b, c) at e))
                | inl (fine, c) ↦
                    let rows =
                      update_where (λ (q : RefreshToken). q.id == o.id) (revoke_at env.now)
                        w.tokens in
                    elim (Result-cases (
                      create_refresh_token env.locked env.now env.fresh_id u.id env.fresh_hash
                        rows)) [
                          | inr (y, g) ↦
                              absurd (err_not_ok y x (rw (rotate_refresh_token, a, b, c, g) at e))
                          | inl (made, g) ↦
                              subst (λ (p : User × List RefreshToken). Dead h p.1)
                                (ok-injective (u, made) x
                                  (rw (rotate_refresh_token, a, b, c, g) at e))
                                (create-Dead h env.locked env.now env.fresh_id u.id env.fresh_hash
                                  rows other g (after o a))
                        ]
              ]
        ]
      ]

  tracked-Dead :
      (u : User) (rows : List RefreshToken) (w : AuthWorld) (x : Answer Unit)
      → Dead h w.tokens
      → Dead h rows
      → Dead h (tracked env u rows w x).1.tokens
  unfolding tracked
  tracked-Dead u rows w (err e, s) d n = d
  tracked-Dead u rows w (ok done, s) d n = n

  pub retired-Dead :
      (u : User) (rows : List RefreshToken) (w : AuthWorld) (x : Answer Unit)
      → Dead h w.tokens
      → Dead h rows
      → Dead h (retired env u rows w x).1.tokens
  unfolding retired
  retired-Dead u rows w (err e, s) d n = d
  retired-Dead u rows w (ok done, s) d n =
      tracked-Dead u rows w (track_jti env.track_goes u.id env.fresh_jti s) d n

  pub refresh-Dead :
      (hash : ℕ) (old_jti : Option ℕ) (w : AuthWorld)
      → Dead h w.tokens
      → Dead h (refresh_tokens env hash old_jti w).1.tokens
  unfolding refresh_tokens swap_access
  refresh-Dead hash old_jti w d = elim (Bool-cases env.healthy) [
    | inr a ↦ simp a d
    | inl a ↦ elim (Result-cases (rotate_refresh_token env hash w)) [
      | inr (x, e) ↦ simp a (rw e d)
      | inl (x, e) ↦ simp a (
          rw e (
            retired-Dead x.0 x.1 w (retire_old env x.0.id old_jti w.store) d (
              rotate-Dead hash w (λ o f. revoke-Dead h (λ q. q.id == o.id) env.now w.tokens d) x
                e)))
    ]
  ]

  finish_logout-Dead :
      (hash : ℕ) (w : AuthWorld) (x : Answer Unit)
      → Dead h w.tokens
      → Dead h (finish_logout env hash w x).1.tokens
  unfolding finish_logout
  finish_logout-Dead hash w (err e, s) d = d
  finish_logout-Dead hash w (ok done, s) d =
      revoke-Dead h (λ q. q.token_hash == hash && is_none q.revoked_at) env.now w.tokens d

  pub logout-Dead :
      (jti hash user : ℕ) (w : AuthWorld)
      → Dead h w.tokens
      → Dead h (logout env jti hash user w).1.tokens
  unfolding logout
  logout-Dead jti hash user w d = elim (Bool-cases env.healthy) [
    | inr a ↦ simp a d
    | inl a ↦ simp a (finish_logout-Dead hash w (retire_old env user (some jti) w.store) d)
  ]

  finish_change-Dead :
      (user : ℕ) (password : ℕ) (w : AuthWorld) (x : Answer Unit)
      → Dead h w.tokens
      → Dead h (finish_change env user password w x).1.tokens
  unfolding finish_change revoke_all_user_tokens
  finish_change-Dead user password w (err e, s) d = d
  finish_change-Dead user password w (ok done, s) d =
      revoke-Dead h (is_unrevoked user) env.now w.tokens d

  pub change-Dead :
      (verify : ℕ → ℕ → Bool) (hash : ℕ → ℕ) (fits : ℕ → Bool) (goes : ℕ → Bool)
      (user current new : ℕ) (w : AuthWorld)
      → Dead h w.tokens
      → Dead h (change_password verify hash fits env goes user current new w).1.tokens
  unfolding change_password
  change-Dead verify hash fits goes user current new w d = elim (Bool-cases env.healthy) [
    | inr a ↦ rw a d
    | inl a ↦ elim (Result-cases (get_active_user_by_id user w.users)) [
      | inr (x, e) ↦ rw (a, e) d
      | inl (u, e) ↦ elim (Bool-cases (verify current u.password)) [
        | inr v ↦ rw (a, e, v) d
        | inl v ↦ elim (Bool-cases (fits new)) [
          | inr f ↦ rw (a, e, v, f) d
          | inl f ↦
              rw (a, e, v, f)
                (finish_change-Dead user (hash new) w
                  (revoke_all_user_access_tokens goes env.now user env.token_seconds w.store) d)
        ]
      ]
    ]
  ]
