-- ===== src/Text.antt =====
-- Texts as lists of code points, with the methods of Python's `str` that app/ calls on keys.
-- `lower` and `upper` treat the ASCII letters and leave every other character alone.
use Prim.Native.Nat.{◌/◌}
use Prim.Native.Char.{code}
use mathlib.Core.List.{reverse}
use soc360_pymes.Prelude.{
  ℕ, zero, suc, ◌+◌, ◌-◌, ◌%◌, String, ◌≡◌, refl, Bool, true, false, ◌&&◌, ◌||◌, List, [], ◌∷◌, map,
  arith, if◌then◌else◌, ltb, leb, ◌==◌,
}

abbrev pub codes : String → List ℕ
codes String.[] = []
codes (String.◌∷◌ c s) = code c ∷ codes s

unfoldable pub is_space : ℕ → Bool
is_space c =
    leb 9 c && leb c 13
    || leb 28 c && leb c 32
    || c == 0x85
    || c == 0xa0
    || c == 0x1680
    || leb 0x2000 c && leb c 0x200a
    || c == 0x2028
    || c == 0x2029
    || c == 0x202f
    || c == 0x205f
    || c == 0x3000

unfoldable pub lstrip : List ℕ → List ℕ
unfolding is_space
lstrip [] = []
lstrip (c ∷ cs) = let rest = lstrip cs in if is_space c then rest else c ∷ cs

unfoldable pub strip : List ℕ → List ℕ
unfolding lstrip
strip cs = reverse (lstrip (reverse (lstrip cs)))

unfoldable pub lower : List ℕ → List ℕ
lower = map (λ c. if leb b'A' c && leb c b'Z' then c + 32 else c)

unfoldable pub upper : List ℕ → List ℕ
upper = map (λ c. if leb b'a' c && leb c b'z' then c - 32 else c)

-- `str(n)`, most significant digit first, with fuel above the number of digits
unfoldable pub digits : ℕ → ℕ → List ℕ → List ℕ
digits zero n acc = acc
digits (suc f) n acc =
    let rest = digits f (n / 10) ((48 + n % 10) ∷ acc) in if ltb n 10 then (48 + n) ∷ acc else rest

unfoldable pub codes_eq : List ℕ → List ℕ → Bool
codes_eq [] [] = true
codes_eq (c ∷ cs) (d ∷ ds) = c == d && codes_eq cs ds
codes_eq _ _ = false

pub codes_eq_refl : (a : List ℕ) → codes_eq a a ≡ true
unfolding codes_eq
codes_eq_refl [] = refl
codes_eq_refl (c ∷ cs) = ground (arith, codes_eq_refl cs)

pub codes_eq-sym : (a b : List ℕ) → codes_eq a b ≡ codes_eq b a
unfolding codes_eq
codes_eq-sym [] [] = refl
codes_eq-sym [] (d ∷ ds) = refl
codes_eq-sym (c ∷ cs) [] = refl
codes_eq-sym (c ∷ cs) (d ∷ ds) = ground (arith, codes_eq-sym cs ds)

-- equal keys are the same to every third key
pub codes_eq_trans : (a b c : List ℕ) → codes_eq a b ≡ true → codes_eq c a ≡ codes_eq c b
unfolding codes_eq
codes_eq_trans [] [] c h = refl
codes_eq_trans [] (y ∷ ys) c h = cc
codes_eq_trans (x ∷ xs) [] c h = cc
codes_eq_trans (x ∷ xs) (y ∷ ys) [] h = refl
codes_eq_trans (x ∷ xs) (y ∷ ys) (z ∷ zs) h = ground (arith, codes_eq_trans xs ys zs)
