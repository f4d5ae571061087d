-- ===== src/Tenants/Slug.antt =====
-- The slugs of app/modules/tenants/service.py. `ascii_of` is the NFKD normalisation followed by the
-- encoding that drops what is not ASCII. The search runs on fuel; none is a loop that goes on.
use mathlib.Core.List.{reverse}
use soc360_pymes.Prelude.{
  ℕ, zero, suc, ◌+◌, Bool, true, false, not, ◌||◌, Option, none, some, [], ◌∷◌, ◌++◌, if◌then◌else◌,
  ltb, ◌==◌, take, is_empty,
}
use soc360_pymes.Sql.{select}
use soc360_pymes.Outcome.{Result, ok, err}
use soc360_pymes.Text.{strip, lower, digits, is_space}
use soc360_pymes.Assets.Values.{Text, is_alnum}

-- `TenantError` by its message, what the database raises, and an exception of another kind
pub data TenantError : Type 0 where
  no_slug bad_plan slug_taken slugs_exhausted not_found too_many_assets already_inactive :
      TenantError
  bad_settings data_error crashed partial_failure : TenantError

-- `[^\w\s-]`, over ASCII
abbrev pub is_kept_char : ℕ → Bool
is_kept_char c = is_alnum c || c == b'_' || is_space c || c == b'-'

-- `re.sub("[…]+", "-", s)`: every run becomes one dash; `inside` says that a run goes on
unfoldable pub squeeze : (ℕ → Bool) → Bool → Text → Text
squeeze p inside [] = []
squeeze p inside (c ∷ cs) =
    let run = squeeze p true cs in
    let free = squeeze p false cs in if p c then (if inside then run else b'-' ∷ run) else c ∷ free

unfoldable pub drop_dashes : Text → Text
drop_dashes [] = []
drop_dashes (c ∷ cs) = let rest = drop_dashes cs in if c == b'-' then rest else c ∷ cs

-- `slug.strip("-")`
unfoldable pub strip_dashes : Text → Text
unfolding drop_dashes
strip_dashes cs = reverse (drop_dashes (reverse (drop_dashes cs)))

module _ (ascii_of : Text → Text) where
  unfoldable pub slug_text : Text → Text
  unfolding strip lower is_space squeeze strip_dashes
  slug_text name =
      let plain = select is_kept_char (strip (lower (ascii_of name))) in
      strip_dashes
        (squeeze (λ c. c == b'-') false (squeeze (λ c. is_space c || c == b'_') false plain))

  -- `_generate_slug`
  unfoldable pub generate_slug : Text → Result TenantError Text
  unfolding slug_text
  generate_slug name =
      if is_empty (slug_text name) then err no_slug else ok (take 100 (slug_text name))

-- MAX_SLUG_ATTEMPTS
abbrev pub max_slug_attempts : ℕ
max_slug_attempts = 100

-- `f"{base_slug}-{suffix}"`
unfoldable pub suffixed : Text → ℕ → Text
unfolding digits
suffixed base n = base ++ (b'-' ∷ digits (suc n) n [])

-- the `while` loop of `create_tenant`
unfoldable pub search_slug : (Text → Bool) → Text → ℕ → ℕ → Text → Option (Result TenantError Text)
unfolding suffixed
search_slug taken base zero suffix slug = none
search_slug taken base (suc fuel) suffix slug =
    let rest = search_slug taken base fuel (suffix + 1) (suffixed base suffix) in
    if not (taken slug)
    then some (ok slug)
    else if ltb max_slug_attempts suffix
    then some (err slugs_exhausted)
    else rest
