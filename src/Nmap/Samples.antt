-- ===== src/Nmap/Samples.antt =====
-- A toy ipaddress and resolver, a target, and the theorems of Nmap at them.
use soc360_pymes.Prelude.{
  ◌≡◌, ◌⊎◌, inl, inr, Bool-cases, refl, true, false, not, ◌&&◌, ◌||◌, Option, none, some, [], ◌∷◌,
  All, all, any, is_empty, leb, ◌==◌, if◌then◌else◌,
}
use soc360_pymes.Outcome.{ok}
use soc360_pymes.Text.{codes, codes_eq, is_space}
use soc360_pymes.Assets.Values.{Text, Libraries, validate_asset_value}
use soc360_pymes.Nmap.Targets.{
  Lookup, resolved, unresolvable, ScanTarget, public_ips, resolve_scan_target,
}
use soc360_pymes.Nmap.Command.{argv, build_nmap_command}
use soc360_pymes.Nmap.Allowed.{AllAllowed, resolve_scan_target-Allowed}
use soc360_pymes.Nmap.Argv.{Command, IsArgument, build_nmap_command-Argv}
use soc360_pymes.Nmap.Families.{IsPlain}

abbrev literal : Text → Option Text
literal t =
    if not (is_empty t) && all (λ c. leb b'0' c && leb c b'9' || c == b'.' || c == b':') t
    then some t
    else none

-- Addresses are their texts; those that begin with a 1 are private.
abbrev pub toy : Libraries
toy = record {
  Address = Text;
  Network = Text;
  ip_address = literal;
  str_address = λ t. t;
  is_global = λ t. elim t [ [] ↦ false | c ∷ cs ↦ not (c == b'1') ];
  is_loopback = λ t. false;
  is_link_local = λ t. false;
  is_multicast = λ t. false;
  is_unspecified = λ t. false;
  is_reserved = λ t. false;
  ip_network = literal;
  str_network = λ t. t;
  is_global_network = λ t. true;
  num_addresses = λ t. 1;
  network_address = λ t. t;
  broadcast_address = λ t. t;
  contains = λ n a. false;
  version = λ t. if any (λ c. c == b':') t then 6 else 4;
  http_url = λ t. none;
  hostname = λ t. none;
}

abbrev pub resolver : Text → Lookup
resolver host =
    if codes_eq host (codes "example.com")
    then resolved (codes "8.8.8.8" ∷ codes "2001:42" ∷ [])
    else unresolvable

abbrev pub target : ScanTarget
target = record {
  asset_type = "domain";
  original = codes "Example.com.";
  addresses = codes "8.8.8.8" ∷ codes "2001:42" ∷ [];
}

target_result : resolve_scan_target toy false resolver "domain" (codes "Example.com.") ≡ ok target
unfolding resolve_scan_target codes_eq public_ips
target_result = refl

resolve_scan_target-Allowed_example :
    (target.asset_type ≡ "domain")
    × (target.original ≡ codes "Example.com.")
    × AllAllowed toy false target.addresses
resolve_scan_target-Allowed_example =
    resolve_scan_target-Allowed toy false resolver "domain" (codes "Example.com.") target
      target_result

-- `$` of the patterns also matches before a final newline, which the strip leaves in front of a dot
newline_test :
    validate_asset_value toy "domain" (codes "example.com\n.") ≡ ok (codes "example.com\n")
unfolding validate_asset_value
newline_test = refl

newline_again_test :
    validate_asset_value toy "domain" (codes "example.com\n") ≡ ok (codes "example.com")
unfolding validate_asset_value
newline_again_test = refl

abbrev four : ScanTarget
four = record target { addresses = codes "8.8.8.8" ∷ [] }

abbrev path : Text
path = codes "nmap"

four_result :
    build_nmap_command toy false path four ≡ ok (argv toy false path (codes "8.8.8.8" ∷ []))
unfolding build_nmap_command
four_result = refl

toy-versions : (n : Text) → (toy.version n ≡ 4) ⊎ (toy.version n ≡ 6)
toy-versions n = elim (Bool-cases (any (λ c. c == b':') n)) [
  | inl e ↦ inr (rw e refl)
  | inr e ↦ inl (rw e refl)
]

build_nmap_command-Argv_example :
    Command toy false path four.addresses (argv toy false path four.addresses)
    × (is_empty four.addresses ≡ false)
    × All (IsArgument toy) four.addresses
build_nmap_command-Argv_example =
    build_nmap_command-Argv toy toy-versions false path four (argv toy false path four.addresses)
      four_result

addresses-IsPlain : All (IsPlain toy) target.addresses
unfolding is_space
addresses-IsPlain = ((refl, refl, refl), ((refl, refl, refl), tt))
