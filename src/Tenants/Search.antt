-- ===== src/Tenants/Search.antt =====
-- The search for a free slug in `create_tenant` of app/modules/tenants/service.py.
use soc360_pymes.Prelude.{
  ℕ, zero, suc, ◌+◌, ◌≡◌, refl, Bool, true, false, not, Option, none, some, List, [], ◌∷◌, arith,
  ltb, Bool-cases, inl, inr,
}
use soc360_pymes.Sql.{first}
use soc360_pymes.Outcome.{Result, ok, err}
use soc360_pymes.Assets.Values.{Text}
use soc360_pymes.Tenants.Slug.{
  TenantError, slugs_exhausted, max_slug_attempts, suffixed, search_slug,
}

-- the slugs with `n` suffixes from a number on
unfoldable pub numbered : Text → ℕ → ℕ → List Text
numbered base suffix zero = []
numbered base suffix (suc n) = suffixed base suffix ∷ numbered base (suffix + 1) n

-- The slug itself, then with the suffixes 2 to 100.
abbrev pub candidates : Text → List Text
candidates base = base ∷ numbered base 2 99

abbrev pub or_exhausted : Option Text → Result TenantError Text
or_exhausted none = err slugs_exhausted
or_exhausted (some slug) = ok slug

module _ (taken : Text → Bool) (base : Text) where
  abbrev free : Text → Bool
  free slug = not (taken slug)

  search_from :
      (n suffix : ℕ) (slug : Text)
      → suffix + n ≡ 101
      → search_slug taken base (suc n) suffix slug
        ≡ some (or_exhausted (first free (slug ∷ numbered base suffix n)))
  unfolding search_slug numbered
  search_from zero suffix slug e = elim (Bool-cases (taken slug)) [
    | inr f ↦ rw (f, search_slug) refl
    | inl t ↦
        let over : ltb max_slug_attempts suffix ≡ true = ground (arith, e) in
        rw (t, over, search_slug) refl
  ]
  search_from (suc n) suffix slug e = elim (Bool-cases (taken slug)) [
    | inr f ↦ rw (f, search_slug) refl
    | inl t ↦
        let within : ltb max_slug_attempts suffix ≡ false = ground (arith, e) in
        rw (t, within, search_slug)
          (search_from n (suffix + 1) (suffixed base suffix) (omega (arith, e)))
  ]

  -- The search ends after a hundred tests at most: it answers with the first free slug among the base
  -- and the base with the suffixes 2 to 100, and raises exactly if all of these are taken.
  pub search_slug-first :
      search_slug taken base 100 2 base ≡ some (or_exhausted (first free (candidates base)))
  search_slug-first = search_from 99 2 base refl
