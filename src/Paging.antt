-- ===== src/Paging.antt =====
-- The list queries of the services: `ORDER BY created_at DESC, id DESC OFFSET … LIMIT …` beside the
-- count of the same rows.
use soc360_pymes.Prelude.{
  ℕ, zero, suc, ◌≤◌, ◌≡◌, refl, ap, Bool, true, false, ◌&&◌, ◌||◌, List, [], ◌∷◌, arith,
  if◌then◌else◌, ltb, leb, ◌==◌, All, length, take, drop, Bool-cases, inl, inr,
}
use soc360_pymes.Sql.{select, count_where}

module _ {ℓ} {A : Type ℓ} (created id : A → ℕ) where
  abbrev pub newer_eq : A → A → Bool
  newer_eq a b = ltb (created b) (created a) || created a == created b && leb (id b) (id a)

  abbrev pub insert : A → List A → List A
  insert a [] = a ∷ []
  insert a (b ∷ bs) = let rest = insert a bs in if newer_eq a b then a ∷ b ∷ bs else b ∷ rest

  abbrev pub newest_first : List A → List A
  newest_first [] = []
  newest_first (a ∷ rows) = insert a (newest_first rows)

  -- `(items, total)`
  abbrev pub page_of : (A → Bool) → ℕ → ℕ → List A → List A × ℕ
  page_of shown limit offset rows =
      (take limit (drop offset (newest_first (select shown rows))), count_where shown rows)

  abbrev pub NewestFirst : List A → Type 0
  NewestFirst [] = Unit
  NewestFirst (a ∷ rows) = All (λ b. newer_eq a b ≡ true) rows × NewestFirst rows

  insert-All :
      (a x : A) (rows : List A)
      → newer_eq x a ≡ true
      → All (λ b. newer_eq x b ≡ true) rows
      → All (λ b. newer_eq x b ≡ true) (insert a rows)
  insert-All a x [] h k = (h, tt)
  insert-All a x (b ∷ bs) h k = elim (Bool-cases (newer_eq a b)) [
    | inl e ↦ rw e (h, k)
    | inr e ↦ rw e (k.0, insert-All a x bs h k.1)
  ]

  newer_trans : (a b c : A) → newer_eq a b ≡ true → newer_eq b c ≡ true → newer_eq a c ≡ true
  newer_trans a b c h k = ground arith

  newer_total : (a b : A) → newer_eq a b ≡ false → newer_eq b a ≡ true
  newer_total a b h = ground arith

  All-newer :
      (a b : A) (rows : List A)
      → newer_eq a b ≡ true
      → All (λ c. newer_eq b c ≡ true) rows
      → All (λ c. newer_eq a c ≡ true) rows
  All-newer a b [] h k = tt
  All-newer a b (c ∷ cs) h k = (newer_trans a b c h k.0, All-newer a b cs h k.1)

  insert-NewestFirst : (a : A) (rows : List A) → NewestFirst rows → NewestFirst (insert a rows)
  insert-NewestFirst a [] h = (tt, tt)
  insert-NewestFirst a (b ∷ bs) h = elim (Bool-cases (newer_eq a b)) [
    | inl e ↦ rw e ((e, All-newer a b bs e h.0), h)
    | inr e ↦ rw e (insert-All a b bs (newer_total a b e) h.0, insert-NewestFirst a bs h.1)
  ]

  pub newest_first-NewestFirst : (rows : List A) → NewestFirst (newest_first rows)
  newest_first-NewestFirst [] = tt
  newest_first-NewestFirst (a ∷ rows) =
      insert-NewestFirst a (newest_first rows) (newest_first-NewestFirst rows)

  count_where-insert :
      (q : A → Bool) (a : A) (rows : List A)
      → count_where q (insert a rows) ≡ count_where q (a ∷ rows)
  count_where-insert q a [] = refl
  count_where-insert q a (b ∷ bs) = ground (arith, count_where-insert q a bs)

  -- Sorting keeps how many rows pass any test.
  pub count_where-newest_first :
      (q : A → Bool) (rows : List A) → count_where q (newest_first rows) ≡ count_where q rows
  count_where-newest_first q [] = refl
  count_where-newest_first q (a ∷ rows) =
      ground (arith, count_where-insert q a (newest_first rows), count_where-newest_first q rows)

  length-insert : (a : A) (rows : List A) → length (insert a rows) ≡ suc (length rows)
  length-insert a [] = refl
  length-insert a (b ∷ bs) = ground (arith, length-insert a bs)

  pub length-newest_first : (rows : List A) → length (newest_first rows) ≡ length rows
  length-newest_first [] = refl
  length-newest_first (a ∷ rows) =
      ground (arith, length-insert a (newest_first rows), length-newest_first rows)

module _ {ℓ} {A : Type ℓ} where
  pub length-select : (p : A → Bool) (rows : List A) → length (select p rows) ≡ count_where p rows
  length-select p [] = refl
  length-select p (a ∷ rows) = ground (arith, length-select p rows)

  pub count_where-select :
      (q p : A → Bool) (rows : List A)
      → count_where q (select p rows) ≡ count_where (λ a. p a && q a) rows
  count_where-select q p [] = refl
  count_where-select q p (a ∷ rows) = ground (arith, count_where-select q p rows)

  pub take-length : (n : ℕ) (rows : List A) → length rows ≤ n → take n rows ≡ rows
  take-length zero [] h = refl
  take-length zero (a ∷ rows) h = absurd (omega (arith, h))
  take-length (suc n) [] h = refl
  take-length (suc n) (a ∷ rows) h =
      ap (λ (rest : List A). a ∷ rest) (take-length n rows (omega (arith, h)))
