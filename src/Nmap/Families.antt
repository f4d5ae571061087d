-- ===== src/Nmap/Families.antt =====
-- One command per address family: `split_by_family` and `build_nmap_command` of
-- app/modules/scans/nmap/command.py, as `scan_node` of app/agents/scan_graph.py calls them.
use soc360_pymes.Prelude.{
  ◌+◌, ◌≡◌, ◌⊎◌, inl, inr, refl, ◌∙◌, Bool, true, false, ◌||◌, some, List, [], ◌∷◌, ◌++◌, All,
  All-append, arith, is_empty, any, ◌==◌, length, ltb,
}
use soc360_pymes.Sql.{count_where, count_where-append}
use soc360_pymes.Outcome.{ok}
use soc360_pymes.Assets.Values.{Text, Libraries}
use soc360_pymes.Nmap.Targets.{ScanTarget}
use soc360_pymes.Nmap.Command.{
  has_nul, is_unsafe, version_of, of_family, with_addresses, group, split_by_family, argv,
  one_family, build_nmap_command,
}
use soc360_pymes.Nmap.Argv.{
  OneFamily, IsSafe, IsSafe→check_addresses, families_of, unparsed, split_some, All-select,
  select-disjoint,
}

module _ (lib : Libraries) where
  -- A text that `ip_network` parses, of one of the two versions, and that is no option.
  abbrev pub IsPlain : Text → Type 0
  IsPlain t =
      (is_unsafe t ≡ false)
      × (unparsed lib t ≡ false)
      × ((version_of lib t == 4 || version_of lib t == 6) ≡ true)

  plain→IsSafe : (t : Text) → IsPlain t → IsSafe lib t
  plain→IsSafe t h = (h.0, ground (arith, h.1))

  plain-IsSafe : (ts : List Text) → All IsPlain ts → All (IsSafe lib) ts
  plain-IsSafe [] h = tt
  plain-IsSafe (t ∷ ts) h = (plain→IsSafe t h.0, plain-IsSafe ts h.1)

  plain-parsed : (ts : List Text) → All IsPlain ts → any (unparsed lib) ts ≡ false
  plain-parsed [] h = refl
  plain-parsed (t ∷ ts) h = ground (arith, h.0.1, plain-parsed ts h.1)

  four_not_six : (t : Text) → (version_of lib t == 4) ≡ true → (version_of lib t == 6) ≡ false
  four_not_six t h = ground arith

  six_not_four : (t : Text) → (version_of lib t == 6) ≡ true → (version_of lib t == 4) ≡ false
  six_not_four t h = ground arith

  group_one :
      (target : ScanTarget) (four six : List Text)
      → (four ≡ []) ⊎ (six ≡ [])
      → ltb 1 (length (group lib target four ++ group lib target six)) ≡ false
  group_one target [] [] h = refl
  group_one target [] (u ∷ us) h = refl
  group_one target (t ∷ ts) [] h = refl
  group_one target (t ∷ ts) (u ∷ us) (inl e) = cc
  group_one target (t ∷ ts) (u ∷ us) (inr e) = cc

  module _ (demo : Bool) (path : Text) (target : ScanTarget) where
    -- The command of the target with these addresses is built.
    abbrev pub Builds : ScanTarget → Type 0
    Builds family =
        build_nmap_command lib demo path family ≡ ok (argv lib demo path family.addresses)

    one_family_builds :
        (family : ScanTarget)
        → All IsPlain family.addresses
        → OneFamily lib family.addresses
        → one_family lib demo path family (split_by_family lib family)
          ≡ ok (argv lib demo path family.addresses)
    one_family_builds family plain one =
        rw
          (
            split_some lib family (plain-parsed family.addresses plain),
            group_one family (of_family lib 4 family.addresses) (of_family lib 6 family.addresses)
                one,
          )
          refl

    builds :
        (family : ScanTarget)
        → (is_empty path || has_nul path) ≡ false
        → is_empty family.addresses ≡ false
        → All IsPlain family.addresses
        → OneFamily lib family.addresses
        → Builds family
    unfolding build_nmap_command
    builds family p f plain one =
        rw
          (
            p,
            f,
            IsSafe→check_addresses lib family.addresses (plain-IsSafe family.addresses plain),
            build_nmap_command,
          )
          (one_family_builds family plain one)

    group-Builds :
        (ts : List Text)
        → (is_empty path || has_nul path) ≡ false
        → All IsPlain ts
        → OneFamily lib ts
        → All Builds (group lib target ts)
    group-Builds [] p plain one = tt
    group-Builds (t ∷ ts) p plain one =
        (builds (with_addresses lib target (t ∷ ts)) p refl plain one, tt)

    -- the addresses of the groups, in order
    abbrev pub addresses_in : List ScanTarget → List Text
    addresses_in [] = []
    addresses_in (f ∷ fs) = f.addresses ++ addresses_in fs

    count_group :
        (q : Text → Bool) (four six : List Text)
        → count_where q (addresses_in (group lib target four ++ group lib target six))
          ≡ count_where q four + count_where q six
    count_group q [] [] = refl
    count_group q [] (u ∷ us) = ground (arith, count_where-append q (u ∷ us) [])
    count_group q (t ∷ ts) [] = ground (arith, count_where-append q (t ∷ ts) [])
    count_group q (t ∷ ts) (u ∷ us) =
        omega
          (arith, count_where-append q (t ∷ ts) ((u ∷ us) ++ []), count_where-append q (u ∷ us) [])

  count_families :
      (q : Text → Bool) (ts : List Text)
      → All IsPlain ts
      → count_where q (of_family lib 4 ts) + count_where q (of_family lib 6 ts) ≡ count_where q ts
  count_families q [] h = refl
  count_families q (t ∷ ts) h = ground (arith, h.0.2, count_families q ts h.1)

  -- Where every address of a target is a plain literal of version 4 or 6 and the path is valid, the
  -- target is split, the command of every part is built, and the parts hold the addresses of the
  -- target, each as often as it stands there.
  split_by_family-Builds :
      (demo : Bool) (path : Text) (target : ScanTarget)
      → (is_empty path || has_nul path) ≡ false
      → All IsPlain target.addresses
      → (families : List ScanTarget) × (split_by_family lib target ≡ some families)
        × All (Builds demo path target) families
        × ((q : Text → Bool)
            → count_where q (addresses_in demo path target families)
              ≡ count_where q target.addresses)
  split_by_family-Builds demo path target p plain =
      let ts = target.addresses in
      let four = of_family lib 4 ts in
      let six = of_family lib 6 ts in
      (
        families_of lib target,
        split_some lib target (plain-parsed ts plain),
        All-append (Builds demo path target) (group lib target four) (group lib target six)
            (group-Builds demo path target four p
              (All-select IsPlain (λ t. version_of lib t == 4) ts plain)
              (inr (
                select-disjoint (λ t. version_of lib t == 4) (λ t. version_of lib t == 6)
                  four_not_six ts)))
            (group-Builds demo path target six p
              (All-select IsPlain (λ t. version_of lib t == 6) ts plain)
              (inl (
                select-disjoint (λ t. version_of lib t == 6) (λ t. version_of lib t == 4)
                  six_not_four ts))),
        λ q. count_group demo path target q four six ∙ count_families q ts plain,
      )
