-- ===== src/Auth/Calls.antt =====
-- Sequences of calls of app/modules/auth/service.py, and what they mean for a refresh token that was used.
use mathlib.Core.Path.{subst}
use soc360_pymes.Prelude.{
  ℕ, ◌≡◌, ◌≢◌, refl, sym, Bool, false, Option, List, [], ◌∷◌, ◌==◌, All, Bool-cases, inl, inr,
}
use soc360_pymes.Sql.{UniqueKeys}
use soc360_pymes.Outcome.{ok, err, Result-cases, err_not_ok}
use soc360_pymes.Auth.Tokens.{
  RefreshToken, bad_refresh_token, service_unavailable, redis_error, User,
}
use soc360_pymes.Auth.Sessions.{
  AuthWorld, AuthEnv, Issued, login, rotate_refresh_token, swap_access, retired, retire_old,
  tracked, refresh_tokens, logout, change_password,
}
use soc360_pymes.Security.Redis.{Answer, track_jti}
use soc360_pymes.Auth.Rotation.{Dead, rotated-Dead, missed}
use soc360_pymes.Auth.SingleUse.{login-Dead, refresh-Dead, logout-Dead, change-Dead, rotate-Dead}

-- One call, with what it meets.
pub data Call : Type 0 where
  log_in : AuthEnv → ℕ → ℕ → Call
  refresh : AuthEnv → ℕ → Option ℕ → Call
  log_out : AuthEnv → ℕ → ℕ → ℕ → Call
  change : AuthEnv → (ℕ → Bool) → ℕ → ℕ → ℕ → Call

-- The hash that `secrets.token_urlsafe` leads to in this call.
abbrev pub fresh_hash_of : Call → ℕ
fresh_hash_of (log_in env email password) = env.fresh_hash
fresh_hash_of (refresh env hash old_jti) = env.fresh_hash
fresh_hash_of (log_out env jti hash user) = env.fresh_hash
fresh_hash_of (change env goes user current new) = env.fresh_hash

no_rotation :
    (h : ℕ) (env : AuthEnv) (w : AuthWorld)
    → Dead h w.tokens
    → rotate_refresh_token env h w ≡ err bad_refresh_token
unfolding rotate_refresh_token
no_rotation h env w d = rw (rotate_refresh_token, missed h env.now env.row_free w.tokens d) refl

retired-rows :
    (env : AuthEnv) (u : User) (rows : List RefreshToken) (w : AuthWorld) (x : Answer Unit)
    {i : Issued}
    → (retired env u rows w x).0 ≡ ok i
    → (retired env u rows w x).1.tokens ≡ rows
unfolding retired tracked
retired-rows env u rows w (err x, s) {i} e = absurd (err_not_ok redis_error i e)
retired-rows env u rows w (ok done, s) {i} e =
    tracked_rows (track_jti env.track_goes u.id env.fresh_jti s) e
  where
    tracked_rows :
        (x : Answer Unit)
        → (tracked env u rows w x).0 ≡ ok i
        → (tracked env u rows w x).1.tokens ≡ rows
    tracked_rows (err x, s) e = absurd (err_not_ok redis_error i e)
    tracked_rows (ok done, s) e = refl

refresh_tokens-Dead :
    (h : ℕ) (env : AuthEnv) (old_jti : Option ℕ) (w : AuthWorld)
    → Dead h w.tokens
    → (i : Issued) → (refresh_tokens env h old_jti w).0 ≢ ok i
unfolding refresh_tokens
refresh_tokens-Dead h env old_jti w d i e = elim (Bool-cases env.healthy) [
  | inr a ↦ err_not_ok service_unavailable i (simp a at e)
  | inl a ↦ err_not_ok bad_refresh_token i (simp (a, no_rotation h env w d) at e)
]

module _ (verify : ℕ → ℕ → Bool) (hash : ℕ → ℕ) (fits : ℕ → Bool) where
  abbrev pub after : Call → AuthWorld → AuthWorld
  after (log_in env email password) w = (login verify env email password w).1
  after (refresh env token old_jti) w = (refresh_tokens env token old_jti w).1
  after (log_out env jti token user) w = (logout env jti token user w).1
  after (change env goes user current new) w =
      (change_password verify hash fits env goes user current new w).1

  abbrev pub run_calls : List Call → AuthWorld → AuthWorld
  run_calls [] w = w
  run_calls (c ∷ cs) w = run_calls cs (after c w)

  after-Dead :
      (h : ℕ) (c : Call) (w : AuthWorld)
      → (fresh_hash_of c == h) ≡ false
      → Dead h w.tokens
      → Dead h (after c w).tokens
  after-Dead h (log_in env email password) w other d =
      login-Dead h env other verify email password w d
  after-Dead h (refresh env token old_jti) w other d = refresh-Dead h env other token old_jti w d
  after-Dead h (log_out env jti token user) w other d = logout-Dead h env other jti token user w d
  after-Dead h (change env goes user current new) w other d =
      change-Dead h env other verify hash fits goes user current new w d

  run_calls-Dead :
      (h : ℕ) (cs : List Call) (w : AuthWorld)
      → All (λ c. (fresh_hash_of c == h) ≡ false) cs
      → Dead h w.tokens
      → Dead h (run_calls cs w).tokens
  run_calls-Dead h [] w others d = d
  run_calls-Dead h (c ∷ cs) w others d =
      run_calls-Dead h cs (after c w) others.1 (after-Dead h c w others.0 d)

  used-Dead :
      (h : ℕ) (env : AuthEnv) (old_jti : Option ℕ) (w : AuthWorld) (i : Issued)
      → (env.fresh_hash == h) ≡ false
      → UniqueKeys (λ (r : RefreshToken). r.token_hash) w.tokens
      → (refresh_tokens env h old_jti w).0 ≡ ok i
      → Dead h (refresh_tokens env h old_jti w).1.tokens
  unfolding refresh_tokens swap_access
  used-Dead h env old_jti w i other u e = elim (Bool-cases env.healthy) [
    | inr a ↦ absurd (err_not_ok service_unavailable i (simp a at e))
    | inl a ↦ elim (Result-cases (rotate_refresh_token env h w)) [
      | inr (x, r) ↦ absurd (err_not_ok x i (simp (a, r) at e))
      | inl (x, r) ↦
          let live =
            rotate-Dead h env other h w
              (λ o f. rotated-Dead h env.now env.now env.row_free w.tokens u f) x r in
          simp (a, r)
            (subst (Dead h)
              (sym (
                retired-rows env x.0 x.1 w (retire_old env x.0.id old_jti w.store)
                  (simp (a, r) at e)))
              live)
    ]
  ]

  -- A refresh token is used once. If a refresh has answered with new tokens, then whatever logins,
  -- refreshes, logouts and changes of a password follow, no refresh with the same token answers with
  -- tokens again. The hashes of the table are distinct, and the new random tokens have another hash.
  pub refresh_tokens-once :
      (h : ℕ) (env env' : AuthEnv) (old_jti old_jti' : Option ℕ) (w : AuthWorld) (i j : Issued)
      (cs : List Call)
      → UniqueKeys (λ (r : RefreshToken). r.token_hash) w.tokens
      → (env.fresh_hash == h) ≡ false
      → All (λ c. (fresh_hash_of c == h) ≡ false) cs
      → (refresh_tokens env h old_jti w).0 ≡ ok i
      → (refresh_tokens env' h old_jti' (run_calls cs (refresh_tokens env h old_jti w).1)).0 ≢ ok j
  refresh_tokens-once h env env' old_jti old_jti' w i j cs u other others e =
      let w' = (refresh_tokens env h old_jti w).1 in
      refresh_tokens-Dead h env' old_jti' (run_calls cs w')
        (run_calls-Dead h cs w' others (used-Dead h env old_jti w i other u e)) j
