-- ===== src/Prelude/Lists.antt =====
-- Lists measured by native numbers, and predicates on lists by recursion.
use Prim.Native.Nat.{ℕ, zero, suc, ◌+◌, ◌≤◌}
use mathlib.Core.Path.{◌≡◌}
use mathlib.Core.Bool.{Bool, true, false, ◌&&◌, ◌||◌}
use mathlib.Core.List.{List, [], ◌∷◌, ◌++◌}
use native.Mathlib.Omega.{arith}

module _ {ℓ} {A : Type ℓ} where
  abbrev pub length : List A → ℕ
  length [] = 0
  length (x ∷ xs) = suc (length xs)

  abbrev pub take : ℕ → List A → List A
  take zero xs = []
  take (suc n) [] = []
  take (suc n) (x ∷ xs) = x ∷ take n xs

  abbrev pub drop : ℕ → List A → List A
  drop zero xs = xs
  drop (suc n) [] = []
  drop (suc n) (x ∷ xs) = drop n xs

  -- `not xs`
  abbrev pub is_empty : List A → Bool
  is_empty [] = true
  is_empty (x ∷ xs) = false

  -- Python's `any` and `all` over a generator
  abbrev pub any : (A → Bool) → List A → Bool
  any p [] = false
  any p (x ∷ xs) = p x || any p xs

  abbrev pub all : (A → Bool) → List A → Bool
  all p [] = true
  all p (x ∷ xs) = p x && all p xs

  pub length-append : (xs ys : List A) → length (xs ++ ys) ≡ length xs + length ys
  length-append [] ys = omega arith
  length-append (x ∷ xs) ys = omega (arith, length-append xs ys)

  pub length-take-le : (n : ℕ) (xs : List A) → length (take n xs) ≤ n
  length-take-le zero xs = omega arith
  length-take-le (suc n) [] = omega arith
  length-take-le (suc n) (x ∷ xs) = omega (arith, length-take-le n xs)

-- A predicate that holds of every element.
abbrev pub All {ℓ κ} : {A : Type ℓ} → (A → Type κ) → List A → Type κ
All P [] = Unit
All P (x ∷ xs) = P x × All P xs

-- Two lists of one length whose elements are related place by place.
abbrev pub Pointwise {ℓ κ} : {A : Type ℓ} → (A → A → Type κ) → List A → List A → Type κ
Pointwise R [] [] = Unit
Pointwise R [] (y ∷ ys) = Unit → ⊥
Pointwise R (x ∷ xs) [] = Unit → ⊥
Pointwise R (x ∷ xs) (y ∷ ys) = R x y × Pointwise R xs ys

module _ {ℓ κ} {A : Type ℓ} where
  pub All-append : (P : A → Type κ) (xs ys : List A) → All P xs → All P ys → All P (xs ++ ys)
  All-append P [] ys hx hy = hy
  All-append P (x ∷ xs) ys hx hy = (hx.0, All-append P xs ys hx.1 hy)

  pub All-map_impl :
      (P Q : A → Type κ) → ((a : A) → P a → Q a) → (xs : List A) → All P xs → All Q xs
  All-map_impl P Q f [] h = tt
  All-map_impl P Q f (x ∷ xs) h = (f x h.0, All-map_impl P Q f xs h.1)

  pub Pointwise-refl : (R : A → A → Type κ) → ((a : A) → R a a) → (xs : List A) → Pointwise R xs xs
  Pointwise-refl R r [] = tt
  Pointwise-refl R r (x ∷ xs) = (r x, Pointwise-refl R r xs)

  pub Pointwise-trans :
      (R : A → A → Type κ)
      → ((a b c : A) → R a b → R b c → R a c)
      → (xs ys zs : List A) → Pointwise R xs ys
      → Pointwise R ys zs
      → Pointwise R xs zs
  Pointwise-trans R t [] [] [] h k = tt
  Pointwise-trans R t [] [] (z ∷ zs) h k = absurd (k tt)
  Pointwise-trans R t [] (y ∷ ys) zs h k = absurd (h tt)
  Pointwise-trans R t (x ∷ xs) [] zs h k = absurd (h tt)
  Pointwise-trans R t (x ∷ xs) (y ∷ ys) [] h k = absurd (k tt)
  Pointwise-trans R t (x ∷ xs) (y ∷ ys) (z ∷ zs) h k =
      (t x y z h.0 k.0, Pointwise-trans R t xs ys zs h.1 k.1)
