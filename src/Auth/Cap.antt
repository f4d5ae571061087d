-- ===== src/Auth/Cap.antt =====
-- The cap of MAX_ACTIVE_SESSIONS in `_create_refresh_token`, app/modules/auth/service.py.
use mathlib.Core.Path.{subst}
use mathlib.Core.Option.{some-injective}
use soc360_pymes.Prelude.{
  ℕ, ◌+◌, ◌≤◌, ◌≡◌, refl, ap, ◌⊎◌, inl, inr, Bool, true, false, Option, none, some, List, [], ◌∷◌,
  ◌++◌, arith, if◌then◌else◌, leb, ◌==◌, All, Bool-cases, Option-cases, ==_refl, ==_sym, ==→eq,
}
use soc360_pymes.Sql.{count_where, update_where, UniqueKeys, by_key, count_where-append}
use soc360_pymes.Outcome.{ok, ok-injective}
use soc360_pymes.Auth.Tokens.{
  RefreshToken, max_active_sessions, is_active, is_unrevoked, older, oldest_unrevoked, revoke_at,
  new_token, make_room, create_refresh_token,
}

abbrev pub UniqueIds : List RefreshToken → Type 0
UniqueIds = UniqueKeys (λ r. r.id)

pub All-by_key :
    (P : RefreshToken → Type 0) (k : ℕ) (rows : List RefreshToken) {o : RefreshToken}
    → by_key (λ r. r.id) k rows ≡ some o
    → All P rows
    → P o
All-by_key P k [] e h = cc
All-by_key P k (r ∷ rows) {o} e h = elim (Bool-cases (r.id == k)) [
  | inl t ↦ subst P (some-injective r o (rw t at e)) h.0
  | inr f ↦ All-by_key P k rows {o = o} (rw f at e) h.1
]

older_cases :
    (user : ℕ) (r : RefreshToken) (m : Option RefreshToken) {o : RefreshToken}
    → older user r m ≡ some o
    → ((r ≡ o) × (is_unrevoked user r ≡ true)) ⊎ (m ≡ some o)
unfolding older is_unrevoked
older_cases user r none e = elim (Bool-cases (is_unrevoked user r)) [
  | inl t ↦ inl (some-injective r _ (rw t at e), t)
  | inr f ↦ absurd (cc (rw f at e))
]
older_cases user r (some q) e = elim (Bool-cases (is_unrevoked user r)) [
  | inr f ↦ inr (rw f at e)
  | inl t ↦ elim (Bool-cases (leb r.created_at q.created_at)) [
    | inl l ↦ inl (some-injective r _ (rw (t, l) at e), t)
    | inr g ↦ inr (rw (t, g) at e)
  ]
]

-- the oldest unrevoked row stands in the table, under its id
oldest_found :
    (user : ℕ) (rows : List RefreshToken) {o : RefreshToken}
    → UniqueIds rows
    → oldest_unrevoked user rows ≡ some o
    → (by_key (λ r. r.id) o.id rows ≡ some o) × (is_unrevoked user o ≡ true)
unfolding oldest_unrevoked
oldest_found user [] u e = cc
oldest_found user (r ∷ rows) {o} u e = elim (older_cases user r (oldest_unrevoked user rows) e) [
  | inl here ↦
      subst
        (λ x.
          (by_key (λ (q : RefreshToken). q.id) x.id (r ∷ rows) ≡ some x)
          × (is_unrevoked user x ≡ true))
        here.0 (rw (==_refl r.id) refl, here.1)
  | inr later ↦
      let (at_id, unrevoked) = oldest_found user rows {o = o} u.1 later in
      let apart = All-by_key (λ q. (q.id == r.id) ≡ false) o.id rows at_id u.0 in
      (rw (==_sym o.id r.id apart) at_id, unrevoked)
]

-- Revoking one row takes one off a count that the row is in, and leaves a count that it is not in.
others_kept :
    (q : RefreshToken → Bool) (now k : ℕ) (rows : List RefreshToken) (x : RefreshToken)
    → (x.id == k) ≡ true
    → All (λ r. (r.id == x.id) ≡ false) rows
    → update_where (λ r. r.id == k) (revoke_at now) rows ≡ rows
others_kept q now k [] x t u = refl
others_kept q now k (r ∷ rows) x t u =
    rw (subst (λ i. (r.id == i) ≡ false) (==→eq x.id k t) u.0)
      (ap (λ (rest : List RefreshToken). r ∷ rest) (others_kept q now k rows x t u.1))

count_revoked :
    (q : RefreshToken → Bool) (now k : ℕ)
    → ((r : RefreshToken) → q (revoke_at now r) ≡ false)
    → (rows : List RefreshToken) {o : RefreshToken} → UniqueIds rows
    → by_key (λ r. r.id) k rows ≡ some o
    → count_where q (update_where (λ r. r.id == k) (revoke_at now) rows) + (if q o then 1 else 0)
      ≡ count_where q rows
count_revoked q now k off [] u e = cc
count_revoked q now k off (r ∷ rows) {o} u e = elim (Bool-cases (r.id == k)) [
  | inl t ↦
      let same : r ≡ o = some-injective r o (rw t at e) in
      rw (t, others_kept q now k rows r t u.0, off r)
        (subst
          (λ (x : RefreshToken).
            count_where q rows + (if q x then 1 else 0) ≡ count_where q (r ∷ rows))
          same (ground arith))
  | inr f ↦ rw f (ground (arith, count_revoked q now k off rows {o = o} u.1 (rw f at e)))
]

active-unrevoked :
    (now user : ℕ) (r : RefreshToken) → is_active now user r ≡ true → is_unrevoked user r ≡ true
unfolding is_active is_unrevoked
active-unrevoked now user r h = ground arith

older-none :
    (user : ℕ) (r : RefreshToken) (m : Option RefreshToken)
    → older user r m ≡ none
    → (is_unrevoked user r ≡ false) × (m ≡ none)
unfolding older is_unrevoked
older-none user r none h = ground (arith, h)
older-none user r (some q) h = ground (arith, h)

none_active :
    (now user : ℕ) (rows : List RefreshToken)
    → oldest_unrevoked user rows ≡ none
    → count_where (is_active now user) rows ≡ 0
unfolding oldest_unrevoked
none_active now user [] h = refl
none_active now user (r ∷ rows) h = elim (Bool-cases (is_active now user r)) [
  | inr f ↦ rw f (none_active now user rows (older-none user r (oldest_unrevoked user rows) h).1)
  | inl t ↦
      absurd
        (cc (active-unrevoked now user r t, (older-none user r (oldest_unrevoked user rows) h).0))
]

revoked_inactive : (now user t : ℕ) (r : RefreshToken) → is_active now user (revoke_at t r) ≡ false
unfolding is_active
revoked_inactive now user t r = ground arith

module _ (now id user hash : ℕ) (rows : List RefreshToken) (u : UniqueIds rows) where
  abbrev active : List RefreshToken → ℕ
  active = count_where (is_active now user)

  -- what the revocation of the oldest takes off
  abbrev freed : Option RefreshToken → ℕ
  freed none = 0
  freed (some o) = if is_active now user o then 1 else 0

  room_made :
      leb max_active_sessions (active rows) ≡ true
      → active (make_room now user rows) + freed (oldest_unrevoked user rows) ≡ active rows
  unfolding make_room
  room_made full = elim (Option-cases (oldest_unrevoked user rows)) [
    | inl e ↦ rw (full, e) (omega arith)
    | inr (o, e) ↦
        rw (full, e)
          (count_revoked (is_active now user) now o.id (revoked_inactive now user now) rows u
            (oldest_found user rows u e).0)
  ]

  new_active : is_active now user (new_token now id user hash) ≡ true
  unfolding is_active
  new_active = ground arith

  added :
      {rows' : List RefreshToken}
      → create_refresh_token true now id user hash rows ≡ ok rows'
      → active rows' ≡ active (make_room now user rows) + 1
  unfolding create_refresh_token
  added {rows'} e =
      subst (λ (x : List RefreshToken). active x ≡ active (make_room now user rows) + 1)
        (ok-injective (make_room now user rows ++ new_token now id user hash ∷ []) rows' e)
        (ground (
          arith,
          new_active,
          count_where-append (is_active now user) (make_room now user rows)
              (new_token now id user hash ∷ []),
        ))

  no_room_made : leb max_active_sessions (active rows) ≡ false → make_room now user rows ≡ rows
  unfolding make_room
  no_room_made roomy = rw roomy refl

  -- If no unrevoked token of the user has expired, a table with at most five active sessions of the
  -- user, in which a new refresh token is made, has at most five afterwards.
  pub create_refresh_token-cap :
      All (λ r. is_unrevoked user r ≡ true → is_active now user r ≡ true) rows
      → active rows ≤ max_active_sessions
      → (rows' : List RefreshToken) → create_refresh_token true now id user hash rows ≡ ok rows'
      → active rows' ≤ max_active_sessions
  create_refresh_token-cap current few rows' e =
      elim (Bool-cases (leb max_active_sessions (active rows))) [
        | inr roomy ↦ ground (arith, added e, ap active (no_room_made roomy))
        | inl full ↦ elim (Option-cases (oldest_unrevoked user rows)) [
          | inl z ↦ absurd (ground (arith, none_active now user rows z))
          | inr (o, z) ↦
              let (at_id, unrevoked) = oldest_found user rows u z in
              let is_on =
                All-by_key (λ r. is_unrevoked user r ≡ true → is_active now user r ≡ true) o.id rows
                  at_id current unrevoked in
              let room = rw (z, is_on) at (room_made full) in omega (arith, room, added e, few)
        ]
      ]

  -- If the oldest unrevoked token of the user has expired, then making a refresh token revokes that one
  -- and no active session: the user has one active session more than before, whatever their number.
  pub create_refresh_token-excess :
      (o : RefreshToken)
      → oldest_unrevoked user rows ≡ some o
      → is_active now user o ≡ false
      → (rows' : List RefreshToken) → create_refresh_token true now id user hash rows ≡ ok rows'
      → active rows' ≡ active rows + 1
  create_refresh_token-excess o z off rows' e =
      elim (Bool-cases (leb max_active_sessions (active rows))) [
        | inr roomy ↦ ground (arith, added e, ap active (no_room_made roomy))
        | inl full ↦ let room = rw (z, off) at (room_made full) in omega (arith, room, added e)
      ]
