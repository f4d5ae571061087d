-- ===== src/Nmap/Allowed.antt =====
-- What `resolve_scan_target` of app/modules/scans/targets.py lets through.
use mathlib.Core.Path.{subst}
use soc360_pymes.Prelude.{
  ◌≡◌, ◌≤◌, ◌⊎◌, inl, inr, refl, String, Bool, true, false, List, [], ◌∷◌, All, Bool-cases,
  Option-cases, leb, leb→le, str_eq, is_empty, ◌==◌,
}
use soc360_pymes.Outcome.{Result, ok, err, ◌>>=◌, >>=-ok, ok-injective, err_not_ok}
use soc360_pymes.Assets.Values.{Text, Libraries, ValueError, validate_asset_value, first_is}
use soc360_pymes.Nmap.Targets.{
  Lookup, resolved, timed_out, unresolvable, raises, interrupted, rejected, ScanTarget,
  allowed_address, public_ip, public_ips, subnet_allowed, subnet_addresses, looked_up,
  host_addresses, or_empty, web_addresses, target_addresses, is_supported, canonicalized,
  addresses_of, resolve_scan_target,
}

module _ (lib : Libraries) (demo : Bool) where
  -- The text of an address that the policy allows, or of an allowed subnet of at most 256 addresses.
  abbrev pub IsAllowed : Text → Type 0
  IsAllowed t =
      ((a : lib.Address) × (allowed_address lib demo a ≡ true) × (lib.str_address a ≡ t))
      ⊎ ((n : lib.Network) × (lib.num_addresses n ≤ 256)
          × (subnet_allowed lib demo n ≡ true)
          × (lib.str_network n ≡ t))

  abbrev pub AllAllowed : List Text → Type 0
  AllAllowed ts = (is_empty ts ≡ false) × All IsAllowed ts

  public_ip-IsAllowed : (value t : Text) → public_ip lib demo value ≡ ok t → IsAllowed t
  unfolding public_ip
  public_ip-IsAllowed value t h = elim (Option-cases (lib.ip_address value)) [
    | inl e ↦ absurd (cc (h, e))
    | inr (a, e) ↦ elim (Bool-cases (allowed_address lib demo a)) [
      | inl good ↦
          inl (a, good, ok-injective (lib.str_address a) t (simp (e, good, public_ip) at h))
      | inr bad ↦
          absurd (err_not_ok (rejected "target_not_global") t (simp (e, bad, public_ip) at h))
    ]
  ]

  one-AllAllowed :
      (value : Text) (ts : List Text)
      → public_ip lib demo value >>= (λ text. ok (text ∷ [])) ≡ ok ts
      → AllAllowed ts
  one-AllAllowed value ts h =
      let (t, e, same) = >>=-ok (public_ip lib demo value) (λ text. ok (text ∷ [])) h in
      subst AllAllowed (ok-injective (t ∷ []) ts same) (refl, (public_ip-IsAllowed value t e, tt))

  public_ips-AllAllowed :
      (values ts : List Text)
      → public_ips lib demo values ≡ ok ts
      → (is_empty ts ≡ is_empty values) × All IsAllowed ts
  unfolding public_ips
  public_ips-AllAllowed [] ts h =
      subst (λ (xs : List Text). (is_empty xs ≡ true) × All IsAllowed xs) (ok-injective [] ts h)
        (refl, tt)
  public_ips-AllAllowed (v ∷ vs) ts h =
      let (t, e, h') =
        >>=-ok (public_ip lib demo v) (λ a. public_ips lib demo vs >>= (λ rest. ok (a ∷ rest))) h in
      let (rest, e', same) = >>=-ok (public_ips lib demo vs) (λ rest. ok (t ∷ rest)) h' in
      subst (λ (xs : List Text). (is_empty xs ≡ false) × All IsAllowed xs)
        (ok-injective (t ∷ rest) ts same)
        (refl, (public_ip-IsAllowed v t e, (public_ips-AllAllowed vs rest e').1))

  subnet-AllAllowed :
      (canonical : Text) (ts : List Text)
      → subnet_addresses lib demo canonical ≡ ok ts
      → AllAllowed ts
  unfolding subnet_addresses
  subnet-AllAllowed canonical ts h = elim (Option-cases (lib.ip_network canonical)) [
    | inl e ↦ absurd (cc (h, e))
    | inr (n, e) ↦ elim (Bool-cases (leb (lib.num_addresses n) 256)) [
      | inr large ↦
          absurd
            (err_not_ok (rejected "target_too_large") ts (simp (e, large, subnet_addresses) at h))
      | inl small ↦ elim (Bool-cases (subnet_allowed lib demo n)) [
        | inr bad ↦ absurd (
            err_not_ok (rejected "target_not_global") ts
              (simp (e, small, bad, subnet_addresses) at h))
        | inl good ↦
            subst AllAllowed
              (ok-injective (lib.str_network n ∷ []) ts
                (simp (e, small, good, subnet_addresses) at h))
              (refl, (inr (n, leb→le (lib.num_addresses n) 256 small, good, refl), tt))
      ]
    ]
  ]

  looked_up-AllAllowed :
      (found : Lookup) (ts : List Text) → looked_up lib demo found ≡ ok ts → AllAllowed ts
  looked_up-AllAllowed timed_out ts h = cc
  looked_up-AllAllowed unresolvable ts h = cc
  looked_up-AllAllowed raises ts h = cc
  looked_up-AllAllowed interrupted ts h = cc
  looked_up-AllAllowed (resolved []) ts h = cc
  looked_up-AllAllowed (resolved (a ∷ rest)) ts h = public_ips-AllAllowed (a ∷ rest) ts h

  host-AllAllowed :
      (resolver : Text → Lookup) (host : Text) (ts : List Text)
      → host_addresses lib demo resolver host ≡ ok ts
      → AllAllowed ts
  unfolding host_addresses
  host-AllAllowed resolver host ts h = looked_up-AllAllowed (resolver host) ts h

  web-AllAllowed :
      (resolver : Text → Lookup) (canonical : Text) (ts : List Text)
      → web_addresses lib demo resolver canonical ≡ ok ts
      → AllAllowed ts
  unfolding web_addresses
  web-AllAllowed resolver canonical ts h =
      let host = or_empty (lib.hostname canonical) in
      elim (Option-cases (lib.ip_address host)) [
        | inl e ↦ host-AllAllowed resolver host ts (simp (e, web_addresses) at h)
        | inr (a, e) ↦ one-AllAllowed host ts (simp (e, web_addresses) at h)
      ]

  target-AllAllowed :
      (resolver : Text → Lookup) (asset_type : String) (canonical : Text) (ts : List Text)
      → target_addresses lib demo resolver asset_type canonical ≡ ok ts
      → AllAllowed ts
  unfolding target_addresses
  target-AllAllowed resolver asset_type canonical ts h =
      elim (Bool-cases (first_is (λ c. c == b'-') canonical)) [
        | inl e ↦
            absurd (err_not_ok (rejected "target_invalid") ts (simp (e, target_addresses) at h))
        | inr e ↦ elim (Bool-cases (str_eq asset_type "ip")) [
          | inl ip ↦ one-AllAllowed canonical ts (simp (e, ip, target_addresses) at h)
          | inr ip ↦ elim (Bool-cases (str_eq asset_type "subnet")) [
            | inl net ↦ subnet-AllAllowed canonical ts (simp (e, ip, net, target_addresses) at h)
            | inr net ↦ elim (Bool-cases (str_eq asset_type "web_app")) [
              | inl web ↦
                  web-AllAllowed resolver canonical ts
                    (simp (e, ip, net, web, target_addresses) at h)
              | inr web ↦
                  host-AllAllowed resolver canonical ts
                    (simp (e, ip, net, web, target_addresses) at h)
            ]
          ]
        ]
      ]

  canonicalized-AllAllowed :
      (resolver : Text → Lookup) (asset_type : String) (value : Result ValueError Text)
      (ts : List Text)
      → canonicalized lib demo resolver asset_type value ≡ ok ts
      → AllAllowed ts
  canonicalized-AllAllowed resolver asset_type (err e) ts h = cc
  canonicalized-AllAllowed resolver asset_type (ok canonical) ts h =
      target-AllAllowed resolver asset_type canonical ts h

  -- A target that is resolved keeps the asset's type and text, and has at least one address; each is
  -- the text of an address that the policy allows or of an allowed subnet of at most 256 addresses,
  -- whatever the resolver answers.
  pub resolve_scan_target-Allowed :
      (resolver : Text → Lookup) (asset_type : String) (value : Text) (target : ScanTarget)
      → resolve_scan_target lib demo resolver asset_type value ≡ ok target
      → (target.asset_type ≡ asset_type) × (target.original ≡ value) × AllAllowed target.addresses
  unfolding resolve_scan_target
  resolve_scan_target-Allowed resolver asset_type value target h =
      elim (Bool-cases (is_supported asset_type)) [
        | inr e ↦ absurd (
            err_not_ok (rejected "target_unsupported_type") target
              (simp (e, resolve_scan_target) at h))
        | inl e ↦
            let (ts, found, same) =
              >>=-ok (addresses_of lib demo resolver asset_type value)
                (λ addresses.
                  ok (record { asset_type = asset_type; original = value; addresses = addresses }))
                (simp (e, resolve_scan_target) at h) in
            subst
              (λ (t : ScanTarget).
                (t.asset_type ≡ asset_type) × (t.original ≡ value) × AllAllowed t.addresses)
              (ok-injective _ target same)
              (
                refl,
                refl,
                canonicalized-AllAllowed resolver asset_type
                    (validate_asset_value lib asset_type value) ts found,
              )
      ]
