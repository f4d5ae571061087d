-- ===== src/Assets/Values.antt =====
-- `_validate_asset_value` of app/modules/assets/service.py. Texts are lists of code points. The
-- regular expressions are written out as the tests that they are; `$` also matches before a final
-- newline. The record stands for the modules ipaddress and urllib.parse and for pydantic's HttpUrl.
use mathlib.Core.List.{reverse}
use soc360_pymes.Prelude.{
  ℕ, zero, suc, Bool, false, not, ◌&&◌, ◌||◌, Option, none, some, List, [], ◌∷◌, if◌then◌else◌,
  length, all, is_empty, leb, ◌==◌, String, str_eq,
}
use soc360_pymes.Outcome.{Result, ok, err}
use soc360_pymes.Text.{codes, codes_eq, strip, lower}

abbrev pub Text : Type 0
Text = List ℕ

pub record Libraries : Type 1 where
  pub Address : Type 0
  pub Network : Type 0
  pub ip_address : Text → Option Address
  pub str_address : Address → Text
  pub is_global : Address → Bool
  pub is_loopback : Address → Bool
  pub is_link_local : Address → Bool
  pub is_multicast : Address → Bool
  pub is_unspecified : Address → Bool
  pub is_reserved : Address → Bool
  -- `ip_network(…, strict=False)`
  pub ip_network : Text → Option Network
  pub str_network : Network → Text
  pub is_global_network : Network → Bool
  pub num_addresses : Network → ℕ
  pub network_address : Network → Address
  pub broadcast_address : Network → Address
  pub contains : Network → Address → Bool
  pub version : Network → ℕ
  -- the scheme and the text of a parsed URL
  pub http_url : Text → Option (Text × Text)
  -- `urlsplit(…).hostname`
  pub hostname : Text → Option Text

abbrev pub is_letter : ℕ → Bool
is_letter c = leb b'a' c && leb c b'z' || leb b'A' c && leb c b'Z'

abbrev pub is_alnum : ℕ → Bool
is_alnum c = is_letter c || leb b'0' c && leb c b'9'

-- `v.split(c)`, which has one part at least
unfoldable pub split_on : ℕ → Text → List Text
split_on c [] = [] ∷ []
split_on c (x ∷ xs) = elim (split_on c xs) [
  | [] ↦ [] ∷ []
  | part ∷ parts ↦ if x == c then [] ∷ part ∷ parts else ((x ∷ part) ∷ parts)
]

-- where `$` looks: the text without one final newline
unfoldable pub before_end : Text → Text
before_end [] = []
before_end (c ∷ []) = if c == b'\n' then [] else c ∷ []
before_end (c ∷ d ∷ cs) = c ∷ before_end (d ∷ cs)

abbrev pub first_is : (ℕ → Bool) → Text → Bool
first_is p [] = false
first_is p (c ∷ cs) = p c

-- `[a-zA-Z0-9]([a-zA-Z0-9-]{0,61}[a-zA-Z0-9])?`
unfoldable pub is_label : Text → Bool
is_label cs =
    all (λ c. is_alnum c || c == b'-') cs
    && first_is is_alnum cs
    && first_is is_alnum (reverse cs)
    && leb (length cs) 63

-- `(?=.{1,253}$)`
abbrev pub fits : Text → Bool
fits cs = leb 1 (length cs) && leb (length cs) 253

-- `[a-zA-Z]{2,63}`
abbrev pub is_top : Text → Bool
is_top cs = all is_letter cs && leb 2 (length cs) && leb (length cs) 63

-- one label with its dot at least, then the top-level domain
unfoldable pub labels_then_top : List Text → Bool
unfolding is_label
labels_then_top [] = false
labels_then_top (top ∷ []) = false
labels_then_top (label ∷ top ∷ []) = is_label label && is_top top
labels_then_top (label ∷ next ∷ more ∷ parts) =
    is_label label && labels_then_top (next ∷ more ∷ parts)

-- `_FQDN_LABEL_RE.match`
unfoldable pub matches_label : Text → Bool
unfolding is_label before_end
matches_label cs = is_label (before_end cs)

-- `_FQDN_FULL_RE.match`
unfoldable pub matches_fqdn : Text → Bool
unfolding labels_then_top split_on before_end
matches_fqdn cs = fits (before_end cs) && labels_then_top (split_on b'.' (before_end cs))

-- `_HOSTNAME_RE.match`
unfoldable pub matches_hostname : Text → Bool
unfolding is_label split_on before_end
matches_hostname cs = fits (before_end cs) && all is_label (split_on b'.' (before_end cs))

-- `arn:`, two parts that are not empty, two that may be, and a rest with no newline inside
unfoldable pub arn_parts : List Text → Bool
unfolding before_end
arn_parts (arn ∷ partition ∷ service ∷ region ∷ account ∷ resource ∷ more) =
    codes_eq arn (codes "arn") && not (is_empty partition) && not (is_empty service)
arn_parts _ = false

-- what follows the first `n` colons
unfoldable pub after_colons : ℕ → Text → Text
after_colons zero cs = cs
after_colons (suc n) [] = []
after_colons (suc n) (c ∷ cs) = if c == b':' then after_colons n cs else after_colons (suc n) cs

-- `_ARN_RE.match`
unfoldable pub matches_arn : Text → Bool
unfolding arn_parts split_on after_colons before_end
matches_arn cs =
    let resource = before_end (after_colons 5 cs) in
    arn_parts (split_on b':' cs) && not (is_empty resource) && all (λ c. not (c == b'\n')) resource

-- `v.rstrip(".")`
unfoldable pub drop_dots : Text → Text
drop_dots [] = []
drop_dots (c ∷ cs) = let rest = drop_dots cs in if c == b'.' then rest else c ∷ cs

unfoldable pub rstrip_dots : Text → Text
unfolding drop_dots
rstrip_dots cs = reverse (drop_dots (reverse cs))

-- the `ValueError`s, by their message
pub data ValueError : Type 0 where
  not_an_address not_a_fqdn not_a_hostname not_a_url not_a_cidr not_an_arn : ValueError
  unknown_asset_type : ValueError

abbrev pub accept : Bool → ValueError → Text → Result ValueError Text
accept good e v = if good then ok v else err e

abbrev pub or_error {ℓ} : {A : Type ℓ} → Option A → ValueError → (A → Text) → Result ValueError Text
or_error none e f = err e
or_error (some a) e f = ok (f a)

module _ (lib : Libraries) where
  abbrev check_url : Text → Result ValueError Text
  check_url value = elim (lib.http_url value) [
    | none ↦ err not_a_url
    | some (scheme, url) ↦
        accept (codes_eq (lower scheme) (codes "http") || codes_eq (lower scheme) (codes "https"))
          not_a_url url
  ]

  -- `_validate_asset_value`
  unfoldable pub validate_asset_value : String → Text → Result ValueError Text
  unfolding strip lower rstrip_dots matches_fqdn matches_label matches_hostname matches_arn split_on
  validate_asset_value asset_type value =
      if str_eq asset_type "ip"
      then or_error (lib.ip_address value) not_an_address lib.str_address
      else if str_eq asset_type "domain"
      then (let v = lower (rstrip_dots (strip value)) in
          accept (not (is_empty v) && matches_fqdn v && all matches_label (split_on b'.' v))
            not_a_fqdn v)
      else if str_eq asset_type "hostname"
      then (let v = lower (strip value) in
          accept (not (is_empty v) && matches_hostname v) not_a_hostname v)
      else if str_eq asset_type "web_app"
      then check_url value
      else if str_eq asset_type "subnet"
      then or_error (lib.ip_network value) not_a_cidr lib.str_network
      else if str_eq asset_type "cloud_resource"
      then (let v = strip value in accept (matches_arn v) not_an_arn v)
      else err unknown_asset_type
