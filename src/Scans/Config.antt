-- ===== src/Scans/Config.antt =====
-- `_validate_scan_config` of app/modules/scans/service.py.
pub mod Reading
pub mod Accepted
use Prim.Native.String
use Prim.Native.Char.{code}
use soc360_pymes.Prelude.{
  ℕ, String, Bool, true, false, not, ◌&&◌, Option, none, some, List, [], ◌∷◌, if◌then◌else◌, str_eq,
  ltb, ◌==◌, any, all,
}
use soc360_pymes.Sql.{first}
use soc360_pymes.Outcome.{Result, ok, err, ◌>>=◌}
use soc360_pymes.Json.{
  Value, boolean, text, array, object, null, number, Items, nil, cons, Fields, end, field,
  get_field, keys,
}

-- the messages of `ScanConfigError`, with what they are formatted with
pub data ConfigError : Type 0 where
  unknown_scan_type : String → ConfigError
  not_an_object : String → ConfigError
  key_not_allowed : String → String → ConfigError
  key_required : String → String → ConfigError
  value_refused : String → String → ConfigError

-- Python's order of texts, by code point
unfoldable pub str_leb : String → String → Bool
str_leb String.[] t = true
str_leb (String.◌∷◌ c s) String.[] = false
str_leb (String.◌∷◌ c s) (String.◌∷◌ d t) =
    let rest = str_leb s t in if code c == code d then rest else ltb (code c) (code d)

unfoldable pub insert_sorted : String → List String → List String
insert_sorted k [] = k ∷ []
insert_sorted k (j ∷ js) =
    let rest = insert_sorted k js in if str_leb k j then k ∷ j ∷ js else j ∷ rest

unfoldable pub sorted : List String → List String
unfolding insert_sorted str_leb
sorted [] = []
sorted (k ∷ ks) = insert_sorted k (sorted ks)

abbrev pub is_member : String → List String → Bool
is_member k l = any (str_eq k) l

unfoldable pub config_keys : String → Option (List String)
config_keys scan_type =
    if str_eq scan_type "discovery"
    then some ("host_discovery" ∷ [])
    else if str_eq scan_type "vulnerability"
    then some ("checks" ∷ [])
    else if str_eq scan_type "web"
    then some ("paths" ∷ [])
    else if str_eq scan_type "full"
    then some ("host_discovery" ∷ "checks" ∷ "paths" ∷ [])
    else none

abbrev pub is_boolean : Value → Bool
is_boolean (boolean b) = true
is_boolean _ = false

abbrev pub all_items : (Value → Bool) → Items → Bool
all_items p nil = true
all_items p (cons v vs) = p v && all_items p vs

abbrev pub is_filled_text : Value → Bool
is_filled_text (text t) = not (str_eq t "")
is_filled_text _ = false

-- `item.startswith("/")`
unfoldable pub starts_with_slash : String → Bool
starts_with_slash String.[] = false
starts_with_slash (String.◌∷◌ c s) = code c == b'/'

abbrev pub is_path : Value → Bool
is_path (text t) = starts_with_slash t
is_path _ = false

-- a list, not empty, all of whose items pass
abbrev pub is_list_of : (Value → Bool) → Value → Bool
is_list_of p (array nil) = false
is_list_of p (array (cons v vs)) = p v && all_items p vs
is_list_of p _ = false

-- One block of the function: nothing if the type does not take the key, else its checked value.
unfoldable pub read_key :
    String → (Value → Bool) → String → List String → Fields → Result ConfigError (Option Value)
read_key key good scan_type allowed config =
    if is_member key allowed
    then elim (get_field key config) [
      | none ↦ err (key_required key scan_type)
      | some value ↦ if good value then ok (some value) else err (value_refused key scan_type)
    ]
    else ok none

abbrev pub put_key : String → Option Value → Fields → Fields
put_key key none rest = rest
put_key key (some value) rest = field key value rest

-- the dict that the three blocks fill, in their order
unfoldable pub normalise : String → List String → Fields → Result ConfigError Fields
unfolding read_key
normalise scan_type allowed config = do
  host_discovery ← read_key "host_discovery" is_boolean scan_type allowed config
  checks ← read_key "checks" (is_list_of is_filled_text) scan_type allowed config
  paths ← read_key "paths" (is_list_of is_path) scan_type allowed config
  ok (put_key "host_discovery" host_discovery (put_key "checks" checks (put_key "paths" paths end)))

-- the first key, in sorted order, that the type does not take
unfoldable pub first_disallowed : List String → Fields → Option String
unfolding sorted keys
first_disallowed allowed config = first (λ k. not (is_member k allowed)) (sorted (keys config))

unfoldable pub validate_fields : String → List String → Fields → Result ConfigError Fields
validate_fields scan_type allowed config = elim (first_disallowed allowed config) [
  | some key ↦ err (key_not_allowed key scan_type)
  | none ↦ normalise scan_type allowed config
]

unfoldable pub validate_object : String → List String → Value → Result ConfigError Fields
unfolding validate_fields
validate_object scan_type allowed (object config) = validate_fields scan_type allowed config
validate_object scan_type allowed _ = err (not_an_object scan_type)

unfoldable pub validate_scan_config : String → Value → Result ConfigError Fields
unfolding config_keys validate_object first_disallowed normalise
validate_scan_config scan_type config = elim (config_keys scan_type) [
  | none ↦ err (unknown_scan_type scan_type)
  | some allowed ↦ validate_object scan_type allowed config
]
