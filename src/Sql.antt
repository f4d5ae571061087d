-- ===== src/Sql.antt =====
-- The statements that the services run, over a table as the list of its rows:
-- `SELECT … WHERE`, `SELECT count(*)`, `UPDATE … WHERE` with its rowcount, `DELETE … WHERE`.
use soc360_pymes.Prelude.{
  ℕ, suc, ◌+◌, ◌≤◌, ◌≡◌, refl, ap, Bool, true, false, Option, none, some, List, [], ◌∷◌, ◌++◌,
  arith, if◌then◌else◌, length, All, Bool-cases, inl, inr, ◌&&◌, Pointwise, ◌==◌,
}
use mathlib.Core.Path.{subst}
use mathlib.Core.Option.{some-injective}

module _ {ℓ} {A : Type ℓ} where
  abbrev pub select : (A → Bool) → List A → List A
  select p [] = []
  select p (x ∷ xs) = let rest = select p xs in if p x then x ∷ rest else rest

  -- `scalar_one_or_none` over a primary key: the first row
  abbrev pub first : (A → Bool) → List A → Option A
  first p [] = none
  first p (x ∷ xs) = if p x then some x else first p xs

  abbrev pub count_where : (A → Bool) → List A → ℕ
  count_where p [] = 0
  count_where p (x ∷ xs) = let rest = count_where p xs in if p x then suc rest else rest

  abbrev pub update_where : (A → Bool) → (A → A) → List A → List A
  update_where p f [] = []
  update_where p f (x ∷ xs) = (if p x then f x else x) ∷ update_where p f xs

  abbrev pub delete_where : (A → Bool) → List A → List A
  delete_where p [] = []
  delete_where p (x ∷ xs) = let rest = delete_where p xs in if p x then rest else x ∷ rest

  -- An UPDATE that matches no row changes nothing.
  pub update_where-none :
      (p : A → Bool) (f : A → A) (xs : List A) → count_where p xs ≡ 0 → update_where p f xs ≡ xs
  update_where-none p f [] h = refl
  update_where-none p f (x ∷ xs) h = ground (arith, update_where-none p f xs)

  pub length-update_where :
      (p : A → Bool) (f : A → A) (xs : List A) → length (update_where p f xs) ≡ length xs
  length-update_where p f [] = refl
  length-update_where p f (x ∷ xs) = ap suc (length-update_where p f xs)

  pub count_where-le-length : (p : A → Bool) (xs : List A) → count_where p xs ≤ length xs
  count_where-le-length p [] = omega arith
  count_where-le-length p (x ∷ xs) = ground (arith, count_where-le-length p xs)

  pub count_where-append :
      (p : A → Bool) (xs ys : List A)
      → count_where p (xs ++ ys) ≡ count_where p xs + count_where p ys
  count_where-append p [] ys = omega arith
  count_where-append p (x ∷ xs) ys = ground (arith, count_where-append p xs ys)

module _ {ℓ κ} {A : Type ℓ} (P : A → Type κ) where
  -- A row property that the assignment keeps holds after the UPDATE.
  pub All-update_where :
      (p : A → Bool) (f : A → A)
      → ((a : A) → p a ≡ true → P a → P (f a))
      → (xs : List A) → All P xs
      → All P (update_where p f xs)
  All-update_where p f keep [] h = tt
  All-update_where p f keep (x ∷ xs) h = elim (Bool-cases (p x)) [
    | inl e ↦ rw e (keep x e h.0, All-update_where p f keep xs h.1)
    | inr e ↦ rw e (h.0, All-update_where p f keep xs h.1)
  ]

  pub All-delete_where : (p : A → Bool) (xs : List A) → All P xs → All P (delete_where p xs)
  All-delete_where p [] h = tt
  All-delete_where p (x ∷ xs) h = elim (Bool-cases (p x)) [
    | inl e ↦ rw e (All-delete_where p xs h.1)
    | inr e ↦ rw e (h.0, All-delete_where p xs h.1)
  ]

  -- the row that a SELECT finds
  pub first-All : (p : A → Bool) (xs : List A) {a : A} → All P xs → first p xs ≡ some a → P a
  first-All p [] h e = cc
  first-All p (x ∷ xs) {a} h e = elim (Bool-cases (p x)) [
    | inl q ↦ subst P (some-injective x a (rw q at e)) h.0
    | inr q ↦ first-All p xs h.1 (rw q at e)
  ]

module _ {ℓ κ} {A : Type ℓ} (R : A → A → Type κ) where
  -- Every row is related to what the UPDATE leaves in its place.
  pub Pointwise-update_where :
      (p : A → Bool) (f : A → A)
      → ((a : A) → p a ≡ true → R a (f a))
      → ((a : A) → p a ≡ false → R a a)
      → (xs : List A) → Pointwise R xs (update_where p f xs)
  Pointwise-update_where p f hit miss [] = tt
  Pointwise-update_where p f hit miss (x ∷ xs) = elim (Bool-cases (p x)) [
    | inl e ↦ rw e (hit x e, Pointwise-update_where p f hit miss xs)
    | inr e ↦ rw e (miss x e, Pointwise-update_where p f hit miss xs)
  ]

if_some {ℓ} :
    {A : Type ℓ} {x a : A} (b : Bool) (o : Option A)
    → b ≡ true
    → (if b then some x else o) ≡ some a
    → x ≡ a
if_some b o h e = ground arith

abbrev pub map_option {ℓ κ} : {A : Type ℓ} {B : Type κ} → (A → B) → Option A → Option B
map_option f none = none
map_option f (some a) = some (f a)

abbrev pub hit {ℓ} : {A : Type ℓ} → (A → Bool) → Option A → ℕ
hit p none = 0
hit p (some a) = if p a then 1 else 0

-- The rows of a table with a primary key.
module _ {ℓ} {A : Type ℓ} (key : A → ℕ) where
  abbrev pub UniqueKeys : List A → Type 0
  UniqueKeys [] = Unit
  UniqueKeys (x ∷ xs) = All (λ y. (key y == key x) ≡ false) xs × UniqueKeys xs

  abbrev pub by_key : ℕ → List A → Option A
  by_key k xs = first (λ x. key x == k) xs

  pub by_key-key : (k : ℕ) (xs : List A) {a : A} → by_key k xs ≡ some a → key a ≡ k
  by_key-key k [] h = cc
  by_key-key k (x ∷ xs) {a} h = ground (arith, by_key-key k xs {a = a})

  -- What an UPDATE that keeps the key leaves at a key.
  pub by_key-update_where :
      (p : A → Bool) (f : A → A)
      → ((a : A) → key (f a) ≡ key a)
      → (k : ℕ) (xs : List A)
      → by_key k (update_where p f xs) ≡ map_option (λ a. if p a then f a else a) (by_key k xs)
  by_key-update_where p f keep k [] = refl
  by_key-update_where p f keep k (x ∷ xs) =
      ground (arith, keep x, by_key-update_where p f keep k xs)

  no_row :
      (p : A → Bool) (k : ℕ)
      → ((a : A) → p a ≡ true → key a ≡ k)
      → (x : A) (xs : List A) → key x ≡ k
      → All (λ y. (key y == key x) ≡ false) xs
      → count_where p xs ≡ 0
  no_row p k only x [] e h = refl
  no_row p k only x (y ∷ ys) e h = ground (arith, only y, no_row p k only x ys)

  -- The rowcount of a statement on one key is read off the row at that key.
  pub count_where-by_key :
      (p : A → Bool) (k : ℕ)
      → ((a : A) → p a ≡ true → key a ≡ k)
      → (xs : List A) → UniqueKeys xs
      → count_where p xs ≡ hit p (by_key k xs)
  count_where-by_key p k only [] u = refl
  count_where-by_key p k only (x ∷ xs) u =
      ground (arith, only x, no_row p k only x xs, count_where-by_key p k only xs u.1)

-- Tables of one length whose rows are related place by place and keep their keys.
module _ {ℓ κ} {A : Type ℓ} (key : A → ℕ) (R : A → A → Type κ)
    (same : (a b : A) → R a b → key b ≡ key a) where
  same_keys :
      (x y : A) (xs ys : List A)
      → R x y
      → Pointwise R xs ys
      → All (λ z. (key z == key x) ≡ false) xs
      → All (λ z. (key z == key y) ≡ false) ys
  same_keys x y [] [] r h u = tt
  same_keys x y [] (z ∷ zs) r h u = absurd (h tt)
  same_keys x y (w ∷ ws) [] r h u = absurd (h tt)
  same_keys x y (w ∷ ws) (z ∷ zs) r h u =
      (rw (same w z h.0, same x y r) u.0, same_keys x y ws zs r h.1 u.1)

  pub UniqueKeys-Pointwise :
      (xs ys : List A) → Pointwise R xs ys → UniqueKeys key xs → UniqueKeys key ys
  UniqueKeys-Pointwise [] [] h u = tt
  UniqueKeys-Pointwise [] (y ∷ ys) h u = absurd (h tt)
  UniqueKeys-Pointwise (x ∷ xs) [] h u = absurd (h tt)
  UniqueKeys-Pointwise (x ∷ xs) (y ∷ ys) h u =
      (same_keys x y xs ys h.0 h.1 u.0, UniqueKeys-Pointwise xs ys h.1 u.1)

  pub by_key-Pointwise :
      (k : ℕ) (xs ys : List A) {a : A}
      → Pointwise R xs ys
      → by_key key k xs ≡ some a
      → (b : A) × (by_key key k ys ≡ some b) × R a b
  by_key-Pointwise k [] [] h e = cc
  by_key-Pointwise k [] (y ∷ ys) h e = absurd (h tt)
  by_key-Pointwise k (x ∷ xs) [] h e = absurd (h tt)
  by_key-Pointwise k (x ∷ xs) (y ∷ ys) {a} h e = elim (Bool-cases (key x == k)) [
    | inl t ↦ (
      y,
      rw (same x y h.0, t),
      subst (λ v. R v y) (if_some (key x == k) (by_key key k xs) t e) h.0,
    )
    | inr f ↦
        let (b, found, r) = by_key-Pointwise k xs ys {a = a} h.1 (rw f at e) in
        (b, rw (same x y h.0, f) found, r)
  ]

module _ {ℓ} {A : Type ℓ} (q : A → Bool) where
  -- A SELECT that neither sees the rows that an UPDATE hits, before or after, sees the same rows.
  pub select-update_where :
      (p : A → Bool) (f : A → A) (xs : List A)
      → All (λ a. p a ≡ true → (q a ≡ false) × (q (f a) ≡ false)) xs
      → select q (update_where p f xs) ≡ select q xs
  select-update_where p f [] h = refl
  select-update_where p f (x ∷ xs) h = elim (Bool-cases (p x)) [
    | inl e ↦ let (a, b) = h.0 e in rw (e, a, b) (select-update_where p f xs h.1)
    | inr e ↦
        rw e
          (ap (λ (rest : List A). if q x then x ∷ rest else rest) (select-update_where p f xs h.1))
  ]

  pub select-delete_where :
      (p : A → Bool) (xs : List A)
      → All (λ a. p a ≡ true → q a ≡ false) xs
      → select q (delete_where p xs) ≡ select q xs
  select-delete_where p [] h = refl
  select-delete_where p (x ∷ xs) h = elim (Bool-cases (p x)) [
    | inl e ↦ rw (e, h.0 e) (select-delete_where p xs h.1)
    | inr e ↦
        rw e (ap (λ (rest : List A). if q x then x ∷ rest else rest) (select-delete_where p xs h.1))
  ]

  pub select-append_none :
      (xs : List A) (y : A) → q y ≡ false → select q (xs ++ y ∷ []) ≡ select q xs
  select-append_none [] y e = rw e
  select-append_none (x ∷ xs) y e =
      ap (λ (rest : List A). if q x then x ∷ rest else rest) (select-append_none xs y e)

  found_here :
      (b : Bool) (o : Option A) (x : A) {r : A}
      → o ≡ none
      → (if b then some x else o) ≡ some r
      → b ≡ true
  found_here true o x e h = refl
  found_here false o x e h = cc

  vacuous :
      (key : A → ℕ) (k : ℕ) (xs : List A)
      → All (λ y. (key y == k) ≡ false) xs
      → All (λ a. (key a == k) ≡ true → q a ≡ true) xs
  vacuous key k [] h = tt
  vacuous key k (x ∷ xs) h = (λ t. absurd (cc (h.0, t)), vacuous key k xs h.1)

  others_miss :
      (key : A → ℕ) (k : ℕ) (x : A) (xs : List A)
      → (key x == k) ≡ true
      → All (λ y. (key y == key x) ≡ false) xs
      → All (λ y. (key y == k) ≡ false) xs
  others_miss key k x [] t h = tt
  others_miss key k x (y ∷ ys) t h = (ground (arith, h.0), others_miss key k x ys t h.1)

  missed :
      (key : A → ℕ) (k : ℕ) (xs : List A)
      → All (λ y. (key y == k) ≡ false) xs
      → first (λ a. key a == k && q a) xs ≡ none
  missed key k [] h = refl
  missed key k (x ∷ xs) h = rw h.0 (missed key k xs h.1)

  -- The row that a SELECT on a primary key finds is the only one at that key.
  pub only_row :
      (key : A → ℕ) (k : ℕ) (xs : List A) {r : A}
      → UniqueKeys key xs
      → first (λ a. key a == k && q a) xs ≡ some r
      → All (λ a. (key a == k) ≡ true → q a ≡ true) xs
  only_row key k [] u e = tt
  only_row key k (x ∷ xs) {r} u e = elim (Bool-cases (key x == k)) [
    | inl t ↦
        let miss = others_miss key k x xs t u.0 in
        (
          λ _.
              found_here (q x) (first (λ a. key a == k && q a) xs) x (missed key k xs miss)
                (rw t at e),
          vacuous key k xs miss,
        )
    | inr f ↦ (λ t. absurd (cc (f, t)), only_row key k xs u.1 (rw f at e))
  ]

pub first-key {ℓ} :
    {A : Type ℓ} (key : A → ℕ) (k : ℕ) (q : A → Bool) (xs : List A) {r : A}
    → first (λ a. key a == k && q a) xs ≡ some r
    → key r ≡ k
first-key key k q [] h = cc
first-key key k q (x ∷ xs) {r} h = ground (arith, first-key key k q xs {r = r})
