-- ===== src/Scans/Config/Accepted.antt =====
-- Which configurations `_validate_scan_config` of app/modules/scans/service.py accepts.
use soc360_pymes.Prelude.{
  String, ◌≡◌, refl, sym, inl, inr, Bool, true, false, Option, none, some, List, any, Bool-cases,
  Option-cases,
}
use mathlib.Core.Path.{subst}
use soc360_pymes.Outcome.{ok, >>=-ok}
use soc360_pymes.Json.{Value, object, Fields, get_field, keys}
use soc360_pymes.Scans.Config.{
  is_member, config_keys, is_boolean, is_list_of, is_filled_text, is_path, read_key, put_key,
  normalise, first_disallowed, validate_fields, validate_object, validate_scan_config,
}
use soc360_pymes.Scans.Config.Reading.{
  Reads, read_key-Reads, Reads-read_key, Reads-member, is_foreign, first_disallowed-none, assembled,
  assembled-host, assembled-checks, assembled-paths,
}

-- What stands in the filled dict stands under a key that the type takes.
foreign_of :
    (allowed : List String) (key : String) (o : Option Value)
    → ((v : Value) → o ≡ some v → is_member key allowed ≡ true)
    → (rest : Fields) → any (is_foreign allowed) (keys rest) ≡ false
    → any (is_foreign allowed) (keys (put_key key o rest)) ≡ false
unfolding keys
foreign_of allowed key none m rest h = h
foreign_of allowed key (some v) m rest h = rw (m v refl) h

-- What the dict holds that is filled from three reads.
pub record IsNormal (allowed : List String) (config out : Fields) : Type 0 where
  pub host : Reads "host_discovery" is_boolean allowed config (get_field "host_discovery" out)
  pub checks : Reads "checks" (is_list_of is_filled_text) allowed config (get_field "checks" out)
  pub paths : Reads "paths" (is_list_of is_path) allowed config (get_field "paths" out)
  pub no_foreign : any (is_foreign allowed) (keys out) ≡ false

module _ (t : String) (allowed : List String) (config : Fields) where
  normalise-parts :
      {out : Fields}
      → normalise t allowed config ≡ ok out
      → (a b c : Option Value) × (read_key "host_discovery" is_boolean t allowed config ≡ ok a)
        × (read_key "checks" (is_list_of is_filled_text) t allowed config ≡ ok b)
        × (read_key "paths" (is_list_of is_path) t allowed config ≡ ok c)
        × (out ≡ assembled a b c)
  unfolding normalise
  normalise-parts {out} h =
      let (a, ea, h₁) = >>=-ok (read_key "host_discovery" is_boolean t allowed config) _ h in
      let (b, eb, h₂) =
        >>=-ok (read_key "checks" (is_list_of is_filled_text) t allowed config) _ h₁ in
      let (c, ec, h₃) = >>=-ok (read_key "paths" (is_list_of is_path) t allowed config) _ h₂ in
      (a, b, c, ea, eb, ec, cc h₃)

  normalise-IsNormal :
      {out : Fields} → normalise t allowed config ≡ ok out → IsNormal allowed config out
  unfolding keys
  normalise-IsNormal {out} h =
      let (a, b, c, ea, eb, ec, same) = normalise-parts h in
      let ra = read_key-Reads "host_discovery" is_boolean t allowed config ea in
      let rb = read_key-Reads "checks" (is_list_of is_filled_text) t allowed config eb in
      let rc = read_key-Reads "paths" (is_list_of is_path) t allowed config ec in
      subst (IsNormal allowed config) (sym same) (record {
        host =
            subst (Reads "host_discovery" is_boolean allowed config) (sym (assembled-host a b c))
              ra;
        checks =
            subst (Reads "checks" (is_list_of is_filled_text) allowed config)
              (sym (assembled-checks a b c)) rb;
        paths =
            subst (Reads "paths" (is_list_of is_path) allowed config) (sym (assembled-paths a b c))
              rc;
        no_foreign =
            foreign_of allowed "host_discovery" a
              (λ v e. Reads-member "host_discovery" is_boolean t allowed config ra e) _
              (foreign_of allowed "checks" b
                (λ v e. Reads-member "checks" (is_list_of is_filled_text) t allowed config rb e) _
                (foreign_of allowed "paths" c
                  (λ v e. Reads-member "paths" (is_list_of is_path) t allowed config rc e) _ refl));
      })

  -- Reading again from what was filled gives the same.
  normalise_again :
      {out : Fields} → normalise t allowed config ≡ ok out → normalise t allowed out ≡ ok out
  unfolding normalise
  normalise_again {out} h =
      let (a, b, c, ea, eb, ec, same) = normalise-parts h in
      let ra = read_key-Reads "host_discovery" is_boolean t allowed config ea in
      let rb = read_key-Reads "checks" (is_list_of is_filled_text) t allowed config eb in
      let rc = read_key-Reads "paths" (is_list_of is_path) t allowed config ec in
      rw same (
        rw (
          Reads-read_key "host_discovery" is_boolean t allowed config (assembled a b c) ra
              (assembled-host a b c),
          Reads-read_key "checks" (is_list_of is_filled_text) t allowed config (assembled a b c) rb
              (assembled-checks a b c),
          Reads-read_key "paths" (is_list_of is_path) t allowed config (assembled a b c) rc
              (assembled-paths a b c),
        ))

validate_fields-ok :
    (t : String) (allowed : List String) (config : Fields) {out : Fields}
    → validate_fields t allowed config ≡ ok out
    → (first_disallowed allowed config ≡ none) × (normalise t allowed config ≡ ok out)
unfolding validate_fields
validate_fields-ok t allowed config {out} h =
    elim (Option-cases (first_disallowed allowed config)) [
      | inl e ↦ (e, rw (e, validate_fields) at h)
      | inr (k, e) ↦ absurd (cc (rw (e, validate_fields) at h))
    ]

fields_ok :
    (t : String) (allowed : List String) (config : Fields) {out : Fields}
    → first_disallowed allowed config ≡ none
    → normalise t allowed config ≡ ok out
    → validate_fields t allowed config ≡ ok out
unfolding validate_fields
fields_ok t allowed config e h = rw (e, validate_fields) h

object-ok :
    (t : String) (allowed : List String) (v : Value) {out : Fields}
    → validate_object t allowed v ≡ ok out
    → (config : Fields) × (v ≡ object config) × (validate_fields t allowed config ≡ ok out)
unfolding validate_object
object-ok t allowed (object config) h = (config, refl, h)
object-ok t allowed _ h = cc

validate-ok :
    (t : String) (v : Value) {out : Fields}
    → validate_scan_config t v ≡ ok out
    → (allowed : List String) × (config_keys t ≡ some allowed)
      × (validate_object t allowed v ≡ ok out)
unfolding validate_scan_config
validate-ok t v h = elim (Option-cases (config_keys t)) [
  | inl e ↦ absurd (cc (rw (e, validate_scan_config) at h))
  | inr (allowed, e) ↦ (allowed, e, rw (e, validate_scan_config) at h)
]

ok-validate :
    (t : String) (allowed : List String) (config : Fields) {out : Fields}
    → config_keys t ≡ some allowed
    → validate_fields t allowed config ≡ ok out
    → validate_scan_config t (object config) ≡ ok out
unfolding validate_scan_config validate_object
ok-validate t allowed config e h = rw (e, validate_scan_config) h

-- An accepted configuration is an object with no key but those of its scan type, and the result
-- holds, under each of the three keys, the checked value of the configuration if the type takes
-- the key and nothing otherwise, and no key besides.
pub validate_scan_config_sound :
    (t : String) (v : Value) (out : Fields)
    → validate_scan_config t v ≡ ok out
    → (allowed : List String) × (config : Fields) × (config_keys t ≡ some allowed)
      × (v ≡ object config)
      × (any (is_foreign allowed) (keys config) ≡ false)
      × IsNormal allowed config out
validate_scan_config_sound t v out h =
    let (allowed, e, h₁) = validate-ok t v h in
    let (config, same, h₂) = object-ok t allowed v h₁ in
    let (none_foreign, h₃) = validate_fields-ok t allowed config h₂ in
    (
      allowed,
      config,
      e,
      same,
      (first_disallowed-none allowed config).0 none_foreign,
      normalise-IsNormal t allowed config h₃,
    )

-- What is accepted once is accepted again, unchanged: the result is already in the normal form.
validate_scan_config-idempotent :
    (t : String) (v : Value) (out : Fields)
    → validate_scan_config t v ≡ ok out
    → validate_scan_config t (object out) ≡ ok out
validate_scan_config-idempotent t v out h =
    let (allowed, e, h₁) = validate-ok t v h in
    let (config, same, h₂) = object-ok t allowed v h₁ in
    let (none_foreign, h₃) = validate_fields-ok t allowed config h₂ in
    ok-validate t allowed out e (
      fields_ok t allowed out
        ((first_disallowed-none allowed out).1 (normalise-IsNormal t allowed config h₃).no_foreign)
        (normalise_again t allowed config h₃))

-- A key that the type takes has a value that passes.
abbrev pub HasKey : String → (Value → Bool) → List String → Fields → Type 0
HasKey key good allowed config =
    is_member key allowed ≡ true → (v : Value) × (get_field key config ≡ some v) × (good v ≡ true)

HasKey-read_key :
    (key : String) (good : Value → Bool) (t : String) (allowed : List String) (config : Fields)
    → HasKey key good allowed config
    → (o : Option Value) × (read_key key good t allowed config ≡ ok o)
unfolding read_key
HasKey-read_key key good t allowed config h = elim (Bool-cases (is_member key allowed)) [
  | inl m ↦ let (v, e, g) = h m in (some v, rw (m, e, g))
  | inr m ↦ (none, rw m)
]

-- Every configuration with no foreign key and with a passing value under each key that its scan
-- type takes is accepted.
validate_scan_config_complete :
    (t : String) (allowed : List String) (config : Fields)
    → config_keys t ≡ some allowed
    → any (is_foreign allowed) (keys config) ≡ false
    → HasKey "host_discovery" is_boolean allowed config
    → HasKey "checks" (is_list_of is_filled_text) allowed config
    → HasKey "paths" (is_list_of is_path) allowed config
    → (out : Fields) × (validate_scan_config t (object config) ≡ ok out)
unfolding normalise
validate_scan_config_complete t allowed config e no_foreign h c p =
    let (a, ea) = HasKey-read_key "host_discovery" is_boolean t allowed config h in
    let (b, eb) = HasKey-read_key "checks" (is_list_of is_filled_text) t allowed config c in
    let (d, ed) = HasKey-read_key "paths" (is_list_of is_path) t allowed config p in
    (
      assembled a b d,
      ok-validate t allowed config e (
          fields_ok t allowed config ((first_disallowed-none allowed config).1 no_foreign)
            (rw (ea, eb, ed))),
    )
