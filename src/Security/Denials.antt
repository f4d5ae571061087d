-- ===== src/Security/Denials.antt =====
-- The denylist of app/core/security.py after a run of SETs, of which any may raise.
use soc360_pymes.Prelude.{
  ℕ, ◌+◌, ◌<◌, ◌≡◌, refl, ◌∙◌, inl, inr, Bool, true, false, ◌&&◌, ◌||◌, List, [], ◌∷◌, map, arith,
  ltb, ◌==◌, any, Bool-cases, ==→eq,
}
use mathlib.Core.Path.{subst}
use soc360_pymes.Sql.{select, delete_where}
use soc360_pymes.Outcome.{ok, err_not_ok}
use soc360_pymes.Security.Redis.{
  Denial, Tracked, TokenStore, redis_outage, deny, is_denied, sorted, insert_jti, deny_each,
}

pub or_false : (a b : Bool) → (a || b) ≡ false → (a ≡ false) × (b ≡ false)
or_false a b h = ground arith

-- membership among the jtis
abbrev pub holds : ℕ → List ℕ → Bool
holds j js = any (λ k. k == j) js

pub holds-insert : (j k : ℕ) (js : List ℕ) → holds j (insert_jti k js) ≡ (k == j || holds j js)
holds-insert j k [] = refl
holds-insert j k (i ∷ js) = ground (arith, holds-insert j k js)

pub holds-sorted : (j : ℕ) (js : List ℕ) → holds j (sorted js) ≡ holds j js
holds-sorted j [] = refl
holds-sorted j (k ∷ js) = ground (arith, holds-insert j k (sorted js), holds-sorted j js)

pub holds-smembers :
    (j user : ℕ) (rows : List Tracked)
    → holds j (map (λ t. t.jti) (select (λ t. t.user == user) rows))
      ≡ any (λ t. t.user == user && t.jti == j) rows
holds-smembers j user [] = refl
holds-smembers j user (t ∷ rows) = ground (arith, holds-smembers j user rows)

-- an entry of another jti outlives the DEL that a SET begins with
pub denied_others :
    (k j t : ℕ) (rows : List Denial)
    → (k == j) ≡ false
    → any (λ d. d.jti == j && ltb t d.expires) (delete_where (λ d. d.jti == k) rows)
      ≡ any (λ d. d.jti == j && ltb t d.expires) rows
denied_others k j t [] h = refl
denied_others k j t (d ∷ rows) h = ground (arith, denied_others k j t rows)

module _ (now ttl t : ℕ) (alive : t < now + ttl) where
  pub deny-new : (j : ℕ) (r : TokenStore) → is_denied (deny now ttl j r) j t ≡ true
  unfolding is_denied
  deny-new j r = ground (arith, alive)

  pub deny-others :
      (k j : ℕ) (r : TokenStore)
      → (k == j) ≡ false
      → is_denied (deny now ttl k r) j t ≡ is_denied r j t
  unfolding is_denied
  deny-others k j r h = ground (arith, denied_others k j t r.denied h)

  pub deny-keeps :
      (k j : ℕ) (r : TokenStore) → is_denied r j t ≡ true → is_denied (deny now ttl k r) j t ≡ true
  deny-keeps k j r h = elim (Bool-cases (k == j)) [
    | inl e ↦ subst (λ i. is_denied (deny now ttl k r) i t ≡ true) (==→eq k j e) (deny-new k r)
    | inr e ↦ deny-others k j r e ∙ h
  ]

  pub each-keeps :
      (goes : ℕ → Bool) (n : ℕ) (js : List ℕ) (r : TokenStore) (j : ℕ)
      → is_denied r j t ≡ true
      → is_denied (deny_each goes n now ttl js r).1 j t ≡ true
  unfolding deny_each
  each-keeps goes n [] r j h = h
  each-keeps goes n (k ∷ js) r j h = elim (Bool-cases (goes n)) [
    | inl g ↦ rw g (each-keeps goes (n + 1) js (deny now ttl k r) j (deny-keeps k j r h))
    | inr g ↦ rw g h
  ]

  -- the SETs that all go through deny every jti of the list
  pub each-ok :
      (goes : ℕ → Bool) (n : ℕ) (js : List ℕ) (r : TokenStore) (j : ℕ)
      → (deny_each goes n now ttl js r).0 ≡ ok tt
      → holds j js ≡ true
      → is_denied (deny_each goes n now ttl js r).1 j t ≡ true
  unfolding deny_each
  each-ok goes n [] r j e h = cc
  each-ok goes n (k ∷ js) r j e h = elim (Bool-cases (goes n)) [
    | inr g ↦ absurd (err_not_ok redis_outage tt (rw g at e))
    | inl g ↦ elim (Bool-cases (k == j)) [
      | inl s ↦ rw g (
          each-keeps goes (n + 1) js (deny now ttl k r) j
            (subst (λ i. is_denied (deny now ttl k r) i t ≡ true) (==→eq k j s) (deny-new k r)))
      | inr s ↦ rw g (each-ok goes (n + 1) js (deny now ttl k r) j (rw g at e) (rw s at h))
    ]
  ]

  -- a jti that is not in the list keeps its state
  pub each-others :
      (goes : ℕ → Bool) (n : ℕ) (js : List ℕ) (r : TokenStore) (j : ℕ)
      → holds j js ≡ false
      → is_denied (deny_each goes n now ttl js r).1 j t ≡ is_denied r j t
  unfolding deny_each
  each-others goes n [] r j h = refl
  each-others goes n (k ∷ js) r j h = elim (Bool-cases (goes n)) [
    | inr g ↦ rw g refl
    | inl g ↦
        let (other, rest) = or_false (k == j) (holds j js) h in
        rw g (each-others goes (n + 1) js (deny now ttl k r) j rest ∙ deny-others k j r other)
  ]

pub each-active :
    (goes : ℕ → Bool) (n now ttl : ℕ) (js : List ℕ) (r : TokenStore)
    → (deny_each goes n now ttl js r).1.active ≡ r.active
unfolding deny_each
each-active goes n now ttl [] r = refl
each-active goes n now ttl (k ∷ js) r = elim (Bool-cases (goes n)) [
  | inl g ↦ rw g (each-active goes (n + 1) now ttl js (deny now ttl k r))
  | inr g ↦ rw g refl
]
