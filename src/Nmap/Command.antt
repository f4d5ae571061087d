-- ===== src/Nmap/Command.antt =====
-- `build_nmap_command` and `split_by_family` of app/modules/scans/nmap/command.py.
use soc360_pymes.Prelude.{
  ℕ, Bool, true, false, ◌||◌, Option, none, some, List, [], ◌∷◌, ◌++◌, if◌then◌else◌, any, is_empty,
  ltb, ◌==◌, length,
}
use soc360_pymes.Sql.{select}
use soc360_pymes.Outcome.{Result, ok, err}
use soc360_pymes.Text.{codes, is_space}
use soc360_pymes.Assets.Values.{Text, Libraries, first_is}
use soc360_pymes.Nmap.Targets.{ScanTarget}

abbrev pub nmap_profile : List Text
nmap_profile =
    codes "--privileged"
    ∷ codes "--host-timeout"
    ∷ codes "55m"
    ∷ codes "--script-timeout"
    ∷ codes "5m"
    ∷ codes "-sS"
    ∷ codes "-sU"
    ∷ codes "--top-ports"
    ∷ codes "1000"
    ∷ codes "-sV"
    ∷ codes "-O"
    ∷ codes "--script=vuln"
    ∷ codes "-oX"
    ∷ codes "-"
    ∷ []

abbrev pub nmap_demo_profile : List Text
nmap_demo_profile =
    codes "--privileged"
    ∷ codes "--host-timeout"
    ∷ codes "5m"
    ∷ codes "--script-timeout"
    ∷ codes "60s"
    ∷ codes "-sS"
    ∷ codes "-sU"
    ∷ codes "-p"
    ∷ codes "T:21,22,80,3306,U:53,161"
    ∷ codes "-sV"
    ∷ codes "-O"
    ∷ codes "--script=vuln"
    ∷ codes "-oX"
    ∷ codes "-"
    ∷ []

abbrev pub profile : Bool → List Text
profile demo = if demo then nmap_demo_profile else nmap_profile

-- the `ValueError`s, by their message, and the one that `ip_network` raises
pub data CommandError : Type 0 where
  invalid_path no_address invalid_address not_a_literal mixed_families : CommandError

abbrev pub has_nul : Text → Bool
has_nul t = any (λ c. c == 0) t

abbrev pub is_unsafe : Text → Bool
is_unsafe t = first_is (λ c. c == b'-') t || has_nul t || any is_space t

module _ (lib : Libraries) where
  -- the two nested attempts to parse a literal
  abbrev pub is_literal : Text → Bool
  is_literal t = elim (lib.ip_address t) [
    | some a ↦ true
    | none ↦ elim (lib.ip_network t) [ some n ↦ true | none ↦ false ]
  ]

  -- the loop over the addresses
  unfoldable pub check_addresses : List Text → Option CommandError
  unfolding is_space
  check_addresses [] = none
  check_addresses (t ∷ ts) =
      let rest = check_addresses ts in
      if is_unsafe t
      then some invalid_address
      else if is_literal t
      then rest
      else some not_a_literal

  -- `ip_network(address, strict=False).version`, over addresses that parse
  abbrev pub version_of : Text → ℕ
  version_of t = elim (lib.ip_network t) [ none ↦ 0 | some n ↦ lib.version n ]

  abbrev pub of_family : ℕ → List Text → List Text
  of_family v ts = select (λ t. version_of t == v) ts

  abbrev pub with_addresses : ScanTarget → List Text → ScanTarget
  with_addresses target ts = record target { addresses = ts }

  abbrev pub group : ScanTarget → List Text → List ScanTarget
  group target [] = []
  group target (t ∷ ts) = with_addresses target (t ∷ ts) ∷ []

  -- `split_by_family`; none where `ip_network` raises
  unfoldable pub split_by_family : ScanTarget → Option (List ScanTarget)
  split_by_family target =
      if any (λ t. elim (lib.ip_network t) [ none ↦ true | some n ↦ false ]) target.addresses
      then none
      else some (
          group target (of_family 4 target.addresses)
          ++ group target (of_family 6 target.addresses))

  abbrev pub six : Bool → List Text
  six true = codes "-6" ∷ []
  six false = []

  abbrev pub head_version : List Text → ℕ
  head_version [] = 0
  head_version (t ∷ ts) = version_of t

  abbrev pub argv : Bool → Text → List Text → List Text
  argv demo path ts = path ∷ (profile demo ++ (six (head_version ts == 6) ++ (codes "--" ∷ ts)))

  abbrev pub one_family :
      Bool → Text → ScanTarget → Option (List ScanTarget) → Result CommandError (List Text)
  one_family demo path target none = err not_a_literal
  one_family demo path target (some families) =
      if ltb 1 (length families) then err mixed_families else ok (argv demo path target.addresses)

  -- `build_nmap_command`
  unfoldable pub build_nmap_command : Bool → Text → ScanTarget → Result CommandError (List Text)
  unfolding check_addresses split_by_family
  build_nmap_command demo path target =
      if is_empty path || has_nul path
      then err invalid_path
      else if is_empty target.addresses
      then err no_address
      else elim (check_addresses target.addresses) [
        | some e ↦ err e
        | none ↦ one_family demo path target (split_by_family target)
      ]
