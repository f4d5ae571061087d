-- ===== src/Scans/Config/Reading.antt =====
-- The reads and the writes of one key in `_validate_scan_config` of app/modules/scans/service.py.
use soc360_pymes.Prelude.{
  String, ◌≡◌, ◌↔◌, refl, sym, ◌∙◌, ap, inl, inr, Bool, true, false, not, ◌||◌, Option, none, some,
  List, [], ◌∷◌, arith, any, Bool-cases, Option-cases,
}
use soc360_pymes.Sql.{first}
use soc360_pymes.Outcome.{ok}
use soc360_pymes.Json.{Value, Fields, end, get_field, keys}
use soc360_pymes.Scans.Config.{
  sorted, insert_sorted, is_member, read_key, put_key, first_disallowed,
}

-- A key that the type takes is there, with a value that passes; any other key is left out.
pub record Reads (key : String) (good : Value → Bool) (allowed : List String) (config : Fields)
    (o : Option Value) : Type 0 where
  pub taken :
      is_member key allowed ≡ true
      → (v : Value) × (get_field key config ≡ some v) × (good v ≡ true) × (o ≡ some v)
  pub skipped : is_member key allowed ≡ false → o ≡ none

module _ (key : String) (good : Value → Bool) (t : String) (allowed : List String)
    (config : Fields) where
  pub read_key-Reads :
      {o : Option Value}
      → read_key key good t allowed config ≡ ok o
      → Reads key good allowed config o
  unfolding read_key
  read_key-Reads {o} h = elim (Option-cases (get_field key config)) [
    | inl e ↦ record { taken = λ m. absurd (ground arith); skipped = λ m. ground arith }
    | inr (v, e) ↦ record {
      taken = λ m. (v, e, ground arith, ground arith);
      skipped = λ m. ground arith;
    }
  ]

  pub Reads-read_key :
      {o : Option Value} (again : Fields)
      → Reads key good allowed config o
      → get_field key again ≡ o
      → read_key key good t allowed again ≡ ok o
  unfolding read_key
  Reads-read_key {o} again r e = elim (Bool-cases (is_member key allowed)) [
    | inl m ↦ let (v, _, g, o-v) = r.taken m in ground arith
    | inr m ↦ let n = r.skipped m in rw m (ap ok (sym n))
  ]

  pub Reads-member :
      {o : Option Value} {v : Value}
      → Reads key good allowed config o
      → o ≡ some v
      → is_member key allowed ≡ true
  Reads-member {o} r e = elim (Bool-cases (is_member key allowed)) [
    | inl m ↦ m
    | inr m ↦ absurd (cc (r.skipped m, e))
  ]

-- Sorting keeps what some key satisfies.
pub any-insert_sorted :
    (p : String → Bool) (k : String) (l : List String)
    → any p (insert_sorted k l) ≡ (p k || any p l)
unfolding insert_sorted
any-insert_sorted p k [] = refl
any-insert_sorted p k (j ∷ js) = ground (arith, any-insert_sorted p k js)

pub any-sorted : (p : String → Bool) (l : List String) → any p (sorted l) ≡ any p l
unfolding sorted
any-sorted p [] = refl
any-sorted p (k ∷ ks) =
    any-insert_sorted p k (sorted ks) ∙ ap (λ (b : Bool). p k || b) (any-sorted p ks)

pub first-none-any : (p : String → Bool) (l : List String) → first p l ≡ none → any p l ≡ false
first-none-any p [] h = refl
first-none-any p (k ∷ ks) h = ground (arith, first-none-any p ks)

pub any-false-first : (p : String → Bool) (l : List String) → any p l ≡ false → first p l ≡ none
any-false-first p [] h = refl
any-false-first p (k ∷ ks) h = ground (arith, any-false-first p ks)

abbrev pub is_foreign : List String → String → Bool
is_foreign allowed k = not (is_member k allowed)

pub first_disallowed-none :
    (allowed : List String) (config : Fields)
    → (first_disallowed allowed config ≡ none) ↔ (any (is_foreign allowed) (keys config) ≡ false)
unfolding first_disallowed
first_disallowed-none allowed config = (
  λ h.
      sym (any-sorted (is_foreign allowed) (keys config))
      ∙ first-none-any (is_foreign allowed) (sorted (keys config)) h,
  λ h.
      any-false-first (is_foreign allowed) (sorted (keys config))
        (any-sorted (is_foreign allowed) (keys config) ∙ h),
)

abbrev pub assembled : Option Value → Option Value → Option Value → Fields
assembled host checks paths =
    put_key "host_discovery" host (put_key "checks" checks (put_key "paths" paths end))

pub assembled-host : (a b c : Option Value) → get_field "host_discovery" (assembled a b c) ≡ a
unfolding get_field
assembled-host none none none = refl
assembled-host none none (some z) = refl
assembled-host none (some y) none = refl
assembled-host none (some y) (some z) = refl
assembled-host (some x) b c = refl

pub assembled-checks : (a b c : Option Value) → get_field "checks" (assembled a b c) ≡ b
unfolding get_field
assembled-checks none none none = refl
assembled-checks none none (some z) = refl
assembled-checks none (some y) c = refl
assembled-checks (some x) none none = refl
assembled-checks (some x) none (some z) = refl
assembled-checks (some x) (some y) c = refl

pub assembled-paths : (a b c : Option Value) → get_field "paths" (assembled a b c) ≡ c
unfolding get_field
assembled-paths none none none = refl
assembled-paths none none (some z) = refl
assembled-paths none (some y) none = refl
assembled-paths none (some y) (some z) = refl
assembled-paths (some x) none none = refl
assembled-paths (some x) none (some z) = refl
assembled-paths (some x) (some y) none = refl
assembled-paths (some x) (some y) (some z) = refl
