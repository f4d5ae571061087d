-- ===== src/Nmap/Argv.antt =====
-- The command line of app/modules/scans/nmap/command.py.
use mathlib.Core.Path.{subst}
use soc360_pymes.Prelude.{
  ℕ, ◌==◌, ◌≡◌, ◌≢◌, ◌⊎◌, arith, All-map_impl, inl, inr, refl, sym, ap, ◌∙◌, Bool, true, false,
  ◌||◌, none, some, List, [], ◌∷◌, ◌++◌, All, Bool-cases, Option-cases, is_empty, any, ltb, length,
}
use soc360_pymes.Sql.{select}
use soc360_pymes.Outcome.{ok, ok-injective, err_not_ok}
use soc360_pymes.Security.Revocation.{true_not_false}
use soc360_pymes.Text.{codes, is_space}
use soc360_pymes.Assets.Values.{Text, Libraries, first_is}
use soc360_pymes.Nmap.Targets.{ScanTarget}
use soc360_pymes.Nmap.Command.{
  invalid_path, no_address, not_a_literal, mixed_families, has_nul, is_unsafe, is_literal,
  check_addresses, of_family, group, split_by_family, profile, head_version, version_of, six, argv,
  one_family, build_nmap_command,
}

module _ {ℓ} {A : Type ℓ} where
  pub All-select {κ} :
      (P : A → Type κ) (q : A → Bool) (xs : List A) → All P xs → All P (select q xs)
  All-select P q [] h = tt
  All-select P q (x ∷ xs) h = elim (Bool-cases (q x)) [
    | inl e ↦ rw e (h.0, All-select P q xs h.1)
    | inr e ↦ rw e (All-select P q xs h.1)
  ]

  pub select-disjoint :
      (q r : A → Bool)
      → ((x : A) → q x ≡ true → r x ≡ false)
      → (xs : List A) → select r (select q xs) ≡ []
  select-disjoint q r apart [] = refl
  select-disjoint q r apart (x ∷ xs) = elim (Bool-cases (q x)) [
    | inl e ↦ rw (e, apart x e) (select-disjoint q r apart xs)
    | inr e ↦ rw e (select-disjoint q r apart xs)
  ]

-- no dash in front
abbrev pub NoDash : Text → Type 0
NoDash [] = Unit
NoDash (c ∷ cs) = c ≢ b'-'

or_false : (a b : Bool) → (a || b) ≡ false → (a ≡ false) × (b ≡ false)
or_false a b h = ground arith

not_equal : (c d : ℕ) → (c == d) ≡ false → c ≢ d
not_equal c d h e = ground (arith, h, e)

not_first-NoDash : (t : Text) → first_is (λ c. c == b'-') t ≡ false → NoDash t
not_first-NoDash [] h = tt
not_first-NoDash (c ∷ cs) h = not_equal c b'-' h

clean :
    (t : Text)
    → has_nul t ≡ false
    → any is_space t ≡ false
    → All (λ c. (c ≢ 0) × (is_space c ≡ false)) t
clean [] h k = tt
clean (c ∷ cs) h k =
    let (a, hs) = or_false (c == 0) (has_nul cs) h in
    let (b, ks) = or_false (is_space c) (any is_space cs) k in
    ((not_equal c 0 a, b), clean cs hs ks)

module _ (lib : Libraries) where
  -- what follows the separator: a literal that cannot be read as an option
  abbrev pub IsSafe : Text → Type 0
  IsSafe t = (is_unsafe t ≡ false) × (is_literal lib t ≡ true)

  check_addresses→IsSafe : (ts : List Text) → check_addresses lib ts ≡ none → All IsSafe ts
  unfolding check_addresses
  check_addresses→IsSafe [] h = tt
  check_addresses→IsSafe (t ∷ ts) h = elim (Bool-cases (is_unsafe t)) [
    | inl e ↦ absurd (cc (h, e))
    | inr e ↦ elim (Bool-cases (is_literal lib t)) [
      | inl good ↦ ((e, good), check_addresses→IsSafe ts (simp (e, good) at h))
      | inr bad ↦ absurd (cc (h, e, bad))
    ]
  ]

  pub IsSafe→check_addresses : (ts : List Text) → All IsSafe ts → check_addresses lib ts ≡ none
  unfolding check_addresses
  IsSafe→check_addresses [] h = refl
  IsSafe→check_addresses (t ∷ ts) h = simp (h.0.0, h.0.1) (IsSafe→check_addresses ts h.1)

  -- Only one of the two address families stands among the literals.
  abbrev pub OneFamily : List Text → Type 0
  OneFamily ts = (of_family lib 4 ts ≡ []) ⊎ (of_family lib 6 ts ≡ [])

  grouped_once :
      (target : ScanTarget) (four six : List Text)
      → ltb 1 (length (group lib target four ++ group lib target six)) ≡ false
      → (four ≡ []) ⊎ (six ≡ [])
  grouped_once target [] six h = inl refl
  grouped_once target (t ∷ ts) [] h = inr refl
  grouped_once target (t ∷ ts) (u ∷ us) h = cc

  abbrev pub unparsed : Text → Bool
  unparsed t = elim (lib.ip_network t) [ none ↦ true | some n ↦ false ]

  pub split_some :
      (target : ScanTarget)
      → any unparsed target.addresses ≡ false
      → split_by_family lib target
        ≡ some (
            group lib target (of_family lib 4 target.addresses)
            ++ group lib target (of_family lib 6 target.addresses))
  unfolding split_by_family
  split_some target h = rw (h, split_by_family) refl

  split_none :
      (target : ScanTarget)
      → any unparsed target.addresses ≡ true
      → split_by_family lib target ≡ none
  unfolding split_by_family
  split_none target h = rw (h, split_by_family) refl

  abbrev pub families_of : ScanTarget → List ScanTarget
  families_of target =
      group lib target (of_family lib 4 target.addresses)
      ++ group lib target (of_family lib 6 target.addresses)

  one_family-Argv :
      (demo : Bool) (path : Text) (target : ScanTarget) (args : List Text)
      → one_family lib demo path target (split_by_family lib target) ≡ ok args
      → (args ≡ argv lib demo path target.addresses)
        × OneFamily target.addresses
        × (any unparsed target.addresses ≡ false)
  one_family-Argv demo path target args h = elim (Bool-cases (any unparsed target.addresses)) [
    | inl bad ↦ absurd (err_not_ok not_a_literal args (simp (split_none target bad) at h))
    | inr good ↦
        let h' : one_family lib demo path target (some (families_of target)) ≡ ok args =
          simp (split_some target good) at h in
        elim (Bool-cases (ltb 1 (length (families_of target)))) [
          | inl two ↦ absurd (err_not_ok mixed_families args (simp two at h'))
          | inr one ↦ (
            sym (ok-injective (argv lib demo path target.addresses) args (simp one at h')),
            grouped_once target (of_family lib 4 target.addresses)
                (of_family lib 6 target.addresses) one,
            good,
          )
        ]
  ]

  built :
      (demo : Bool) (path : Text) (target : ScanTarget) (args : List Text)
      → build_nmap_command lib demo path target ≡ ok args
      → (args ≡ argv lib demo path target.addresses)
        × (is_empty target.addresses ≡ false)
        × OneFamily target.addresses
        × (any unparsed target.addresses ≡ false)
        × All IsSafe target.addresses
  unfolding build_nmap_command
  built demo path target args h = elim (Bool-cases (is_empty path || has_nul path)) [
    | inl e ↦ absurd (err_not_ok invalid_path args (simp (e, build_nmap_command) at h))
    | inr e ↦ elim (Bool-cases (is_empty target.addresses)) [
      | inl f ↦ absurd (err_not_ok no_address args (simp (e, f, build_nmap_command) at h))
      | inr f ↦ elim (Option-cases (check_addresses lib target.addresses)) [
        | inr (x, g) ↦ absurd (err_not_ok x args (simp (e, f, g, build_nmap_command) at h))
        | inl g ↦
            let (same, one, parsed) =
              one_family-Argv demo path target args (simp (e, f, g, build_nmap_command) at h) in
            (same, f, one, parsed, check_addresses→IsSafe target.addresses g)
      ]
    ]
  ]

  -- An address is read as an address by Nmap: it is a literal, does not begin with a dash, and holds no
  -- NUL and no space.
  abbrev pub IsArgument : Text → Type 0
  IsArgument t =
      NoDash t
      × All (λ c. (c ≢ 0) × (is_space c ≡ false)) t
      × (((a : lib.Address) × (lib.ip_address t ≡ some a))
          ⊎ ((n : lib.Network) × (lib.ip_network t ≡ some n)))

  abbrev pub IsVersion : ℕ → Text → Type 0
  IsVersion v t = (n : lib.Network) × (lib.ip_network t ≡ some n) × (lib.version n ≡ v)

  no_literal :
      (t : Text) → lib.ip_address t ≡ none → lib.ip_network t ≡ none → is_literal lib t ≡ false
  no_literal t e f = rw (e, f, is_literal) refl

  literal-read :
      (t : Text)
      → is_literal lib t ≡ true
      → ((a : lib.Address) × (lib.ip_address t ≡ some a))
        ⊎ ((n : lib.Network) × (lib.ip_network t ≡ some n))
  literal-read t h = elim (Option-cases (lib.ip_address t)) [
    | inr (a, e) ↦ inl (a, e)
    | inl e ↦ elim (Option-cases (lib.ip_network t)) [
      | inr (n, f) ↦ inr (n, f)
      | inl f ↦ absurd (true_not_false (sym h ∙ no_literal t e f))
    ]
  ]

  safe-IsArgument : (t : Text) → IsSafe t → IsArgument t
  safe-IsArgument t (h, good) =
      let (front, space) = or_false (first_is (λ c. c == b'-') t || has_nul t) (any is_space t) h in
      let (dash, nul) = or_false (first_is (λ c. c == b'-') t) (has_nul t) front in
      (not_first-NoDash t dash, clean t nul space, literal-read t good)

  -- The command that the code means: the family decides about `-6`, and nothing but addresses follows the
  -- separator.
  abbrev pub Command : Bool → Text → List Text → List Text → Type 0
  Command demo path ts args =
      (All (IsVersion 6) ts × (args ≡ path ∷ (profile demo ++ codes "-6" ∷ codes "--" ∷ ts)))
      ⊎ (All (IsVersion 4) ts × (args ≡ path ∷ (profile demo ++ codes "--" ∷ ts)))

  not_parsed : (t : Text) → lib.ip_network t ≡ none → unparsed t ≡ true
  not_parsed t f = rw (f, unparsed) refl

  parsed_network : (t : Text) → unparsed t ≡ false → (n : lib.Network) × (lib.ip_network t ≡ some n)
  parsed_network t h = elim (Option-cases (lib.ip_network t)) [
    | inr (n, f) ↦ (n, f)
    | inl f ↦ absurd (true_not_false (sym (not_parsed t f) ∙ h))
  ]

  version_of_network :
      (t : Text) {n : lib.Network} → lib.ip_network t ≡ some n → version_of lib t ≡ lib.version n
  version_of_network t f = rw (f, version_of) refl

  versions :
      (v u : ℕ)
      → ((n : lib.Network) → (lib.version n ≡ v) ⊎ (lib.version n ≡ u))
      → (ts : List Text) → any unparsed ts ≡ false
      → of_family lib v ts ≡ []
      → All (IsVersion u) ts
  versions v u law [] h e = tt
  versions v u law (t ∷ ts) h e =
      let (here, later) = or_false (unparsed t) (any unparsed ts) h in
      let (n, f) = parsed_network t here in
      elim (Bool-cases (version_of lib t == v)) [
        | inl q ↦ absurd (cc (e, q))
        | inr q ↦ elim (law n) [
          | inr good ↦ ((n, f, good), versions v u law ts later (simp q at e))
          | inl bad ↦ absurd (not_equal (version_of lib t) v q (version_of_network t f ∙ bad))
        ]
      ]

  head_of :
      (v : ℕ) (ts : List Text)
      → is_empty ts ≡ false
      → All (IsVersion v) ts
      → head_version lib ts ≡ v
  head_of v [] e h = absurd (true_not_false e)
  head_of v (t ∷ ts) e h = let (n, f, same) = h.0 in version_of_network t f ∙ same

  argv-Command :
      (demo : Bool) (path : Text) (ts : List Text)
      → is_empty ts ≡ false
      → All (IsVersion 6) ts ⊎ All (IsVersion 4) ts
      → Command demo path ts (argv lib demo path ts)
  argv-Command demo path ts e (inl h) = inl (
    h,
    ap (λ v. path ∷ (profile demo ++ (six lib (v == 6) ++ codes "--" ∷ ts))) (head_of 6 ts e h),
  )
  argv-Command demo path ts e (inr h) = inr (
    h,
    ap (λ v. path ∷ (profile demo ++ (six lib (v == 6) ++ codes "--" ∷ ts))) (head_of 4 ts e h),
  )

  -- An argument vector that is built is the path, the fixed profile, `-6` where the addresses are of version
  -- 6 and not where they are of version 4, the separator, and then the addresses of the target: at least
  -- one, all of that one version, each a literal that does not begin with a dash and holds no space and
  -- no NUL. The hypothesis is the ipaddress module's: a network is of version 4 or 6.
  pub build_nmap_command-Argv :
      ((n : lib.Network) → (lib.version n ≡ 4) ⊎ (lib.version n ≡ 6))
      → (demo : Bool) (path : Text) (target : ScanTarget) (args : List Text)
      → build_nmap_command lib demo path target ≡ ok args
      → Command demo path target.addresses args
        × (is_empty target.addresses ≡ false)
        × All IsArgument target.addresses
  build_nmap_command-Argv law demo path target args h =
      let (same, filled, one, parsed, safe) = built demo path target args h in
      (
        subst (Command demo path target.addresses) (sym same) (
            argv-Command demo path target.addresses filled (elim one [
              | inl no_four ↦ inl (versions 4 6 law target.addresses parsed no_four)
              | inr no_six ↦ inr (
                  versions 6 4 (λ n. elim (law n) [ inl a ↦ inr a | inr b ↦ inl b ])
                    target.addresses parsed no_six)
            ])),
        filled,
        All-map_impl IsSafe IsArgument safe-IsArgument target.addresses safe,
      )
