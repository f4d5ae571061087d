-- ===== src/Auth/Rotation.antt =====
-- Refresh tokens are used once: `refresh_tokens`, `login`, `logout` and `change_password` of
-- app/modules/auth/service.py never bring a refresh token back.
use mathlib.Core.Path.{subst}
use mathlib.Core.Option.{some-injective}
use soc360_pymes.Prelude.{
  ℕ, ◌≡◌, refl, inl, inr, Bool, true, false, ◌&&◌, Option, none, some, List, [], ◌∷◌, ◌++◌, arith,
  if◌then◌else◌, leb, ◌==◌, All, All-append, is_none, Bool-cases, Option-cases, ==_refl,
}
use soc360_pymes.Sql.{first, count_where, update_where, UniqueKeys, All-update_where}
use soc360_pymes.Outcome.{ok, ok-injective}
use soc360_pymes.Auth.Tokens.{
  RefreshToken, max_active_sessions, is_active, revoke_at, new_token, make_room, oldest_unrevoked,
  create_refresh_token,
}
use soc360_pymes.Auth.Sessions.{is_usable}

module _ (h : ℕ) where
  abbrev pub IsDead : RefreshToken → Type 0
  IsDead r = (r.token_hash == h) ≡ true → is_none r.revoked_at ≡ false

  -- No row with this hash is unrevoked.
  abbrev pub Dead : List RefreshToken → Type 0
  Dead = All IsDead

  pub revoke-Dead :
      (p : RefreshToken → Bool) (now : ℕ) (rows : List RefreshToken)
      → Dead rows
      → Dead (update_where p (revoke_at now) rows)
  revoke-Dead p now = All-update_where IsDead p (revoke_at now) (λ r e d g. refl)

  make_room-Dead :
      (now user : ℕ) (rows : List RefreshToken) → Dead rows → Dead (make_room now user rows)
  unfolding make_room
  make_room-Dead now user rows d =
      elim (Bool-cases (leb max_active_sessions (count_where (is_active now user) rows))) [
        | inr f ↦ rw f d
        | inl f ↦ elim (Option-cases (oldest_unrevoked user rows)) [
          | inl e ↦ rw (f, e) d
          | inr (o, e) ↦ rw (f, e) (revoke-Dead (λ r. r.id == o.id) now rows d)
        ]
      ]

  pub create-Dead :
      (locked : Bool) (now id user hash : ℕ) (rows : List RefreshToken) {rows' : List RefreshToken}
      → (hash == h) ≡ false
      → create_refresh_token locked now id user hash rows ≡ ok rows'
      → Dead rows
      → Dead rows'
  unfolding create_refresh_token
  create-Dead true now id user hash rows {rows'} other e d =
      subst Dead (ok-injective (make_room now user rows ++ new_token now id user hash ∷ []) rows' e)
        (All-append IsDead (make_room now user rows) (new_token now id user hash ∷ [])
          (make_room-Dead now user rows d) (λ g. absurd (cc (g, other)), tt))
  create-Dead false now id user hash rows other e d = cc

  -- rows with other hashes have nothing to show
  vacuous : (rows : List RefreshToken) → All (λ r. (r.token_hash == h) ≡ false) rows → Dead rows
  vacuous [] u = tt
  vacuous (r ∷ rows) u = (λ g. absurd (cc (g, u.0)), vacuous rows u.1)

  others :
      (x : RefreshToken) (rows : List RefreshToken)
      → (x.token_hash == h) ≡ true
      → All (λ r. (r.token_hash == x.token_hash) ≡ false) rows
      → All (λ r. (r.token_hash == h) ≡ false) rows
  others x [] t u = tt
  others x (r ∷ rows) t u = (ground (arith, t, u.0), others x rows t u.1)

  pub missed :
      (now : ℕ) (free : Bool) (rows : List RefreshToken)
      → Dead rows
      → first (λ r. is_usable now h r && free) rows ≡ none
  unfolding is_usable
  missed now free [] d = refl
  missed now free (r ∷ rows) d = elim (Bool-cases (r.token_hash == h)) [
    | inl t ↦ rw (t, d.0 t) (missed now free rows d.1)
    | inr f ↦ rw f (missed now free rows d.1)
  ]

  not_usable :
      (now : ℕ) (free : Bool) (r : RefreshToken)
      → (r.token_hash == h) ≡ false
      → (is_usable now h r && free) ≡ false
  unfolding is_usable
  not_usable now free r f = rw f refl

  found_first :
      (b : Bool) (m : Option RefreshToken) (x : RefreshToken) {o : RefreshToken}
      → m ≡ none
      → (if b then some x else m) ≡ some o
      → x ≡ o
  found_first true m x e g = some-injective x _ g
  found_first false m x e g = cc

  -- revoking the row that a refresh has found leaves no live row with its hash
  pub rotated-Dead :
      (now t : ℕ) (free : Bool) (rows : List RefreshToken) {o : RefreshToken}
      → UniqueKeys (λ r. r.token_hash) rows
      → first (λ r. is_usable now h r && free) rows ≡ some o
      → Dead (update_where (λ q. q.id == o.id) (revoke_at t) rows)
  rotated-Dead now t free [] u e = tt
  rotated-Dead now t free (x ∷ rows) {o} u e = elim (Bool-cases (x.token_hash == h)) [
    | inl same ↦
        let rest = vacuous rows (others x rows same u.0) in
        let here =
          found_first (is_usable now h x && free) (first (λ r. is_usable now h r && free) rows) x
            {o = o} (missed now free rows rest) e in
        rw (subst (λ (y : RefreshToken). (x.id == y.id) ≡ true) here (==_refl x.id))
          (λ g. refl, revoke-Dead (λ q. q.id == o.id) t rows rest)
    | inr f ↦ (
      revoke_one (x.id == o.id) t x (λ g. absurd (cc (g, f))),
      rotated-Dead now t free rows {o = o} u.1 (rw (not_usable now free x f) at e),
    )
  ]
    where
      revoke_one :
          (b : Bool) (t : ℕ) (x : RefreshToken) → IsDead x → IsDead (if b then revoke_at t x else x)
      revoke_one true t x d = λ g. refl
      revoke_one false t x d = d
