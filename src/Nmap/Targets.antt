-- ===== src/Nmap/Targets.antt =====
-- `resolve_scan_target` of app/modules/scans/targets.py. `demo` is the setting SCAN_DEMO_MODE.
use soc360_pymes.Prelude.{
  Bool, false, not, ◌&&◌, ◌||◌, Option, none, some, List, [], ◌∷◌, if◌then◌else◌, any, leb, ◌==◌,
  String, str_eq,
}
use soc360_pymes.Outcome.{Result, ok, err, ◌>>=◌}
use soc360_pymes.Text.{codes}
use soc360_pymes.Assets.Values.{Text, Libraries, ValueError, validate_asset_value, first_is}

-- What the resolver does: it answers, or one of the two errors that are caught, or another one.
pub data Lookup : Type 0 where
  resolved : List Text → Lookup
  timed_out unresolvable raises interrupted : Lookup

-- `TargetRejectedError` with its reason, another exception, or the cancellation of the task
pub data Failure : Type 0 where
  rejected : String → Failure
  exception cancelled_error : Failure

pub record ScanTarget : Type 0 where
  pub asset_type : String
  pub original : Text
  pub addresses : List Text

abbrev pub demo_private_networks : List Text
demo_private_networks =
    codes "10.0.0.0/8" ∷ codes "172.16.0.0/12" ∷ codes "192.168.0.0/16" ∷ codes "fc00::/7" ∷ []

abbrev pub demo_transition_networks : List Text
demo_transition_networks = codes "2002::/16" ∷ codes "64:ff9b::/96" ∷ codes "2001::/32" ∷ []

abbrev pub or_empty : Option Text → Text
or_empty none = []
or_empty (some t) = t

abbrev pub is_supported : String → Bool
is_supported t =
    str_eq t "ip"
    || str_eq t "subnet"
    || str_eq t "hostname"
    || str_eq t "domain"
    || str_eq t "web_app"

module _ (lib : Libraries) (demo : Bool) where
  -- `any(address in network for network in …)`
  abbrev pub in_any : lib.Address → List Text → Bool
  in_any a networks =
      any (λ text. elim (lib.ip_network text) [ none ↦ false | some n ↦ lib.contains n a ]) networks

  -- `_allowed_address`
  unfoldable pub allowed_address : lib.Address → Bool
  allowed_address a =
      if not demo
      then lib.is_global a
      else if lib.is_loopback a
          || lib.is_link_local a
          || lib.is_multicast a
          || lib.is_unspecified a
          || lib.is_reserved a
          || in_any a demo_transition_networks
      then false
      else lib.is_global a || in_any a demo_private_networks

  -- `_public_ip`
  unfoldable pub public_ip : Text → Result Failure Text
  unfolding allowed_address
  public_ip value = elim (lib.ip_address value) [
    | none ↦ err (rejected "target_invalid")
    | some a ↦
        if allowed_address a then ok (lib.str_address a) else err (rejected "target_not_global")
  ]

  -- `tuple(_public_ip(address) for address in resolved)`
  unfoldable pub public_ips : List Text → Result Failure (List Text)
  unfolding public_ip
  public_ips [] = ok []
  public_ips (x ∷ xs) = public_ip x >>= (λ a. public_ips xs >>= (λ rest. ok (a ∷ rest)))

  abbrev pub subnet_allowed : lib.Network → Bool
  subnet_allowed n =
      if demo
      then allowed_address (lib.network_address n) && allowed_address (lib.broadcast_address n)
      else lib.is_global_network n

  unfoldable pub subnet_addresses : Text → Result Failure (List Text)
  unfolding allowed_address
  subnet_addresses canonical = elim (lib.ip_network canonical) [
    | none ↦ err exception
    | some n ↦
        if not (leb (lib.num_addresses n) 256)
        then err (rejected "target_too_large")
        else if subnet_allowed n
        then ok (lib.str_network n ∷ [])
        else err (rejected "target_not_global")
  ]

  -- what is made of the resolver's answer
  abbrev pub looked_up : Lookup → Result Failure (List Text)
  looked_up timed_out = err (rejected "target_resolution_timeout")
  looked_up unresolvable = err (rejected "target_unresolvable")
  looked_up raises = err exception
  looked_up interrupted = err cancelled_error
  looked_up (resolved []) = err (rejected "target_unresolvable")
  looked_up (resolved (a ∷ rest)) = public_ips (a ∷ rest)

  unfoldable pub host_addresses : (Text → Lookup) → Text → Result Failure (List Text)
  host_addresses resolver host = looked_up (resolver host)

  unfoldable pub web_addresses : (Text → Lookup) → Text → Result Failure (List Text)
  unfolding host_addresses public_ip
  web_addresses resolver canonical =
      let host = or_empty (lib.hostname canonical) in
      elim (lib.ip_address host) [
        | none ↦ host_addresses resolver host
        | some a ↦ public_ip host >>= (λ text. ok (text ∷ []))
      ]

  -- the branches by type, over a canonical value
  unfoldable pub target_addresses : (Text → Lookup) → String → Text → Result Failure (List Text)
  unfolding public_ip subnet_addresses host_addresses web_addresses
  target_addresses resolver asset_type canonical =
      if first_is (λ c. c == b'-') canonical
      then err (rejected "target_invalid")
      else if str_eq asset_type "ip"
      then public_ip canonical >>= (λ text. ok (text ∷ []))
      else if str_eq asset_type "subnet"
      then subnet_addresses canonical
      else if str_eq asset_type "web_app"
      then web_addresses resolver canonical
      else host_addresses resolver canonical

  -- a `ValueError` of the validation is a rejection
  abbrev pub canonicalized :
      (Text → Lookup) → String → Result ValueError Text → Result Failure (List Text)
  canonicalized resolver asset_type (err e) = err (rejected "target_invalid")
  canonicalized resolver asset_type (ok canonical) = target_addresses resolver asset_type canonical

  abbrev pub addresses_of : (Text → Lookup) → String → Text → Result Failure (List Text)
  addresses_of resolver asset_type value =
      canonicalized resolver asset_type (validate_asset_value lib asset_type value)

  -- `resolve_scan_target`
  unfoldable pub resolve_scan_target : (Text → Lookup) → String → Text → Result Failure ScanTarget
  unfolding validate_asset_value target_addresses
  resolve_scan_target resolver asset_type value =
      if not (is_supported asset_type)
      then err (rejected "target_unsupported_type")
      else (addresses_of resolver asset_type value >>= (λ addresses.
          ok (record { asset_type = asset_type; original = value; addresses = addresses })))
