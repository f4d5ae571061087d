-- ===== src/Outcome.antt =====
-- What a Python function does: it returns a value or raises. A function that writes state returns
-- the state beside its result, since what was written before a raise stays written.
use soc360_pymes.Prelude.{◌≡◌, refl, ap, ◌⊎◌, inl, inr, Bool, true, false}

pub data Result {ℓ κ} (E : Type ℓ) (A : Type κ) : Type (ℓ ⊔ κ) where
  ok : A → Result E A
  err : E → Result E A

module _ {ℓ κ} {E : Type ℓ} {A : Type κ} where
  -- To split on a result and keep the equation.
  pub Result-cases : (r : Result E A) → ((a : A) × (r ≡ ok a)) ⊎ ((e : E) × (r ≡ err e))
  Result-cases (ok a) = inl (a, refl)
  Result-cases (err e) = inr (e, refl)

  pub err_not_ok : (e : E) (a : A) → Path {ℓ ⊔ κ} (Result E A) (err e) (ok a) → ⊥
  err_not_ok e a h = cc

  value_or : A → Result E A → A
  value_or d (ok a) = a
  value_or d (err e) = d

  pub ok-injective : (a b : A) → Path {ℓ ⊔ κ} (Result E A) (ok a) (ok b) → a ≡ b
  unfolding value_or
  ok-injective a b h = ap (value_or a) h

  abbrev pub is_ok : Result E A → Bool
  is_ok (ok a) = true
  is_ok (err e) = false

infixl 10 ◌>>=◌
abbrev pub ◌>>=◌ {ℓ κ ι} :
    {E : Type ℓ} {A : Type κ} {B : Type ι} → Result E A → (A → Result E B) → Result E B
ok a >>= f = f a
err e >>= f = err e

pub >>=-ok {ℓ κ ι} :
    {E : Type ℓ} {A : Type κ} {B : Type ι} (r : Result E A) (f : A → Result E B) {b : B}
    → (r >>= f) ≡ ok b
    → (a : A) × (r ≡ ok a) × (f a ≡ ok b)
>>=-ok (ok a) f h = (a, refl, h)
>>=-ok (err e) f h = cc
