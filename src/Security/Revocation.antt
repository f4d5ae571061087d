-- ===== src/Security/Revocation.antt =====
-- What `revoke_all_user_access_tokens` of app/core/security.py leaves in Redis, whichever of its commands
-- raises.
use soc360_pymes.Prelude.{
  ℕ, ◌+◌, ◌<◌, ◌≡◌, refl, sym, ap, ◌∙◌, ◌⊎◌, inl, inr, Bool, true, false, not, ◌&&◌, List, [], ◌∷◌,
  arith, ◌==◌, any, is_empty, Bool-cases, ==_refl,
}
use mathlib.Core.Path.{subst}
use soc360_pymes.Sql.{delete_where}
use soc360_pymes.Outcome.{ok, err, err_not_ok}
use soc360_pymes.Security.Redis.{
  Tracked, TokenStore, redis_outage, Answer, is_denied, is_tracked, smembers, sorted, del_active,
  deny_each, drop_active, revoke_all_user_access_tokens,
}
use soc360_pymes.Security.Denials.{
  holds, holds-sorted, holds-smembers, each-keeps, each-ok, each-others, each-active,
}

pub true_not_false : Path {0} Bool true false → ⊥
true_not_false e = cc

jtis_of : (user j : ℕ) (r : TokenStore) → holds j (sorted (smembers user r)) ≡ is_tracked r user j
jtis_of user j r = holds-sorted j (smembers user r) ∙ holds-smembers j user r.active

-- after the DEL nothing of the user is tracked, and the others are as before
del_active-tracked :
    (user other j : ℕ) (r : TokenStore)
    → is_tracked (del_active user r) other j ≡ (not (user == other) && is_tracked r other j)
del_active-tracked user other j r = tracked_rows user other j r.active
  where
    tracked_rows :
        (user other j : ℕ) (rows : List Tracked)
        → any (λ t. t.user == other && t.jti == j) (delete_where (λ t. t.user == user) rows)
          ≡ (not (user == other) && any (λ t. t.user == other && t.jti == j) rows)
    tracked_rows user other j [] = ground arith
    tracked_rows user other j (t ∷ rows) = ground (arith, tracked_rows user other j rows)

none_held : (j : ℕ) (js : List ℕ) → is_empty js ≡ true → holds j js ≡ false
none_held j [] e = refl
none_held j (k ∷ js) e = cc

module _ (goes : ℕ → Bool) (now user ttl : ℕ) (r : TokenStore) where
  abbrev revoked : Answer Unit
  revoked = revoke_all_user_access_tokens goes now user ttl r

  abbrev jtis : List ℕ
  jtis = sorted (smembers user r)

  abbrev sets : Answer Unit
  sets = deny_each goes 2 now ttl jtis r

  -- the four ways in which the call can end
  data Shape : Answer Unit → Type 0 where
    unread : Shape (err redis_outage, r)
    untracked : is_empty jtis ≡ true → Shape (ok tt, r)
    stopped : Shape (err redis_outage, sets.1)
    finished : sets.0 ≡ ok tt → Shape (ok tt, del_active user sets.1)

  drop-Shape : (x : Answer Unit) → x ≡ sets → Shape (drop_active (goes 1) user x)
  unfolding drop_active
  drop-Shape (err redis_outage, s) h =
      subst (λ (y : TokenStore). Shape (err redis_outage, y))
        (sym (ap (λ (y : Answer Unit). y.1) h)) stopped
  drop-Shape (ok u, s) h = elim (Bool-cases (goes 1)) [
    | inl g ↦ rw g (
        subst (λ (y : TokenStore). Shape (ok tt, del_active user y))
          (sym (ap (λ (y : Answer Unit). y.1) h))
          (finished (sym (ap (λ (y : Answer Unit). y.0) h))))
    | inr g ↦ rw g (
        subst (λ (y : TokenStore). Shape (err redis_outage, y))
          (sym (ap (λ (y : Answer Unit). y.1) h)) stopped)
  ]

  shape : Shape revoked
  unfolding revoke_all_user_access_tokens
  shape = elim (Bool-cases (goes 0)) [
    | inr g ↦ rw g unread
    | inl g ↦ elim (Bool-cases (is_empty jtis)) [
      | inl z ↦ rw (g, z) (untracked z)
      | inr z ↦ rw (g, z) (drop-Shape sets refl)
    ]
  ]

  shape-ok :
      (x : Answer Unit)
      → Shape x
      → x.0 ≡ ok tt
      → (j t : ℕ) → t < now + ttl
      → (is_tracked r user j ≡ true → is_denied x.1 j t ≡ true)
        × (is_tracked x.1 user j ≡ false)
        × ((other : ℕ) → (user == other) ≡ false → is_tracked x.1 other j ≡ is_tracked r other j)
  unfolding is_denied
  shape-ok x unread e j t alive = absurd (err_not_ok redis_outage tt e)
  shape-ok x (untracked z) e j t alive =
      let missing = sym (jtis_of user j r) ∙ none_held j jtis z in
      (λ h. absurd (true_not_false (sym h ∙ missing)), missing, λ other h. refl)
  shape-ok x stopped e j t alive = absurd (err_not_ok redis_outage tt e)
  shape-ok x (finished all_set) e j t alive = (
    λ h. each-ok now ttl t alive goes 2 jtis r j all_set (jtis_of user j r ∙ h),
    del_active-tracked user user j sets.1 ∙ rw (==_refl user) refl,
    λ other h.
        del_active-tracked user other j sets.1
        ∙ rw h (
            ap (λ (rows : List Tracked). any (λ t. t.user == other && t.jti == j) rows)
              (each-active goes 2 now ttl jtis r)),
  )

  shape-err :
      (x : Answer Unit)
      → Shape x
      → (j t : ℕ) → t < now + ttl
      → ((x.0 ≡ ok tt) ⊎ ((x.0 ≡ err redis_outage) × (x.1.active ≡ r.active)))
        × (is_denied r j t ≡ true → is_denied x.1 j t ≡ true)
        × (is_tracked r user j ≡ false → is_denied x.1 j t ≡ is_denied r j t)
  unfolding is_denied
  shape-err x unread j t alive = (inr (refl, refl), λ h. h, λ h. refl)
  shape-err x (untracked z) j t alive = (inl refl, λ h. h, λ h. refl)
  shape-err x stopped j t alive = (
    inr (refl, each-active goes 2 now ttl jtis r),
    each-keeps now ttl t alive goes 2 jtis r j,
    λ h. each-others now ttl t alive goes 2 jtis r j (jtis_of user j r ∙ h),
  )
  shape-err x (finished all_set) j t alive = (
    inl refl,
    each-keeps now ttl t alive goes 2 jtis r j,
    λ h. each-others now ttl t alive goes 2 jtis r j (jtis_of user j r ∙ h),
  )

  -- A revocation that returns has denied every token tracked for the user, for the whole of the given
  -- time, and tracks none of them any more; the tokens tracked for other users are still tracked.
  pub revoke_all_user_access_tokens-ok :
      revoked.0 ≡ ok tt
      → (j t : ℕ) → t < now + ttl
      → (is_tracked r user j ≡ true → is_denied revoked.1 j t ≡ true)
        × (is_tracked revoked.1 user j ≡ false)
        × ((other : ℕ)
            → (user == other) ≡ false
            → is_tracked revoked.1 other j ≡ is_tracked r other j)
  revoke_all_user_access_tokens-ok e j t alive = shape-ok revoked shape e j t alive

  -- A revocation returns, or it raises and leaves every tracked set as it was, so that it can be run
  -- again. In both cases, at any time before the given seconds have passed, a token that was denied is
  -- denied, and one that is not tracked for the user is denied exactly if it was before.
  pub revoke_all_user_access_tokens-err :
      (j t : ℕ)
      → t < now + ttl
      → ((revoked.0 ≡ ok tt) ⊎ ((revoked.0 ≡ err redis_outage) × (revoked.1.active ≡ r.active)))
        × (is_denied r j t ≡ true → is_denied revoked.1 j t ≡ true)
        × (is_tracked r user j ≡ false → is_denied revoked.1 j t ≡ is_denied r j t)
  revoke_all_user_access_tokens-err j t alive = shape-err revoked shape j t alive
