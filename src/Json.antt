-- ===== src/Json.antt =====
-- JSON values, as `JSONB` columns and request bodies hold them. Numbers are naturals: the services
-- only ask of a number that it is neither a text, a list nor a truth value.
use soc360_pymes.Prelude.{
  suc, true, false, ◌&&◌, ◌==◌, ℕ, String, Bool, List, [], ◌∷◌, Option, none, some, if◌then◌else◌,
  str_eq,
}

mutual
  pub data Value : Type 0 where
    null : Value
    boolean : Bool → Value
    number : ℕ → Value
    text : String → Value
    array : Items → Value
    object : Fields → Value

  pub data Items : Type 0 where
    nil : Items
    cons : Value → Items → Items

  pub data Fields : Type 0 where
    end : Fields
    field : String → Value → Fields → Fields

-- `d[key]`, `d.get(key)`, `key in d`
unfoldable pub get_field : String → Fields → Option Value
get_field key end = none
get_field key (field k v rest) = if str_eq k key then some v else get_field key rest

-- the keys, in the order of the document
unfoldable pub keys : Fields → List String
keys end = []
keys (field k v rest) = k ∷ keys rest

abbrev pub bool_number : Bool → ℕ
bool_number true = 1
bool_number false = 0

unfoldable pub field_count : Fields → ℕ
field_count end = 0
field_count (field k v rest) = suc (field_count rest)

-- Python's `==`: lists place by place, dicts whatever the order of their keys, and True as 1.
unfoldable mutual
  pub value_eq : Value → Value → Bool
  value_eq null null = true
  value_eq (boolean a) (boolean b) = bool_number a == bool_number b
  value_eq (boolean a) (number n) = bool_number a == n
  value_eq (number n) (boolean b) = n == bool_number b
  value_eq (number m) (number n) = m == n
  value_eq (text s) (text t) = str_eq s t
  value_eq (array xs) (array ys) = items_eq xs ys
  value_eq (object fs) (object gs) = fields_within fs gs && field_count fs == field_count gs
  value_eq _ _ = false

  pub items_eq : Items → Items → Bool
  items_eq nil nil = true
  items_eq (cons x xs) (cons y ys) = value_eq x y && items_eq xs ys
  items_eq _ _ = false

  pub fields_within : Fields → Fields → Bool
  fields_within end gs = true
  fields_within (field k v rest) gs =
      elim (get_field k gs) [ none ↦ false | some w ↦ value_eq v w ] && fields_within rest gs
