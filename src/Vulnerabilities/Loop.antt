-- ===== src/Vulnerabilities/Loop.antt =====
-- The loop of `upsert_findings`, app/modules/vulnerabilities/service.py, round by round: how often a key was
-- seen, what was written, and which rows were added.
use soc360_pymes.Prelude.{
  ℕ, ◌+◌, ◌≤◌, ◌≡◌, refl, ap, true, false, List, [], ◌∷◌, ◌++◌, map, arith, length, All, All-append,
  both→and, ==_refl, ◌∙◌, ltb, ◌==◌, Bool-cases, inl, inr,
}
use soc360_pymes.Sql.{count_where, count_where-append}
use soc360_pymes.Text.{codes_eq, codes_eq_refl, codes_eq-sym, codes_eq_trans}
use soc360_pymes.Json.{Value}
use soc360_pymes.Database.{Vulnerability}
use soc360_pymes.Vulnerabilities.Identity.{FindingDraft, draft_key}
use soc360_pymes.Vulnerabilities.Upsert.{
  Progress, has, row_key, is_severity, new_finding, in_scan, upsert_one, upsert_loop, of_scan,
}

abbrev pub times : List ℕ → List (List ℕ) → ℕ
times k ks = count_where (codes_eq k) ks

pub has-times : (k : List ℕ) (ks : List (List ℕ)) → has k ks ≡ ltb 0 (times k ks)
has-times k [] = refl
has-times k (x ∷ ks) = ground (arith, has-times k ks)

unseen : (k : List ℕ) (ks : List (List ℕ)) → has k ks ≡ false → times k ks ≡ 0
unseen k ks h = ground (arith, has-times k ks)

times-same : (a b : List ℕ) (ks : List (List ℕ)) → codes_eq a b ≡ true → times a ks ≡ times b ks
times-same a b [] h = refl
times-same a b (x ∷ ks) h =
    ground (arith, times-same a b ks h, codes_eq_trans a b x h, codes_eq-sym x a, codes_eq-sym x b)

-- a key that is put in front of keys that do not hold it is there once
once-cons :
    (key : List ℕ) (ks : List (List ℕ))
    → has key ks ≡ false
    → ((k : List ℕ) → times k ks ≤ 1)
    → (k : List ℕ) → times k (key ∷ ks) ≤ 1
once-cons key ks h once k = ground (arith, once k, unseen key ks h, times-same k key ks)

module _ (repr : Value → List ℕ) where
  abbrev pub row_times : List ℕ → List Vulnerability → ℕ
  row_times k rows = count_where (λ v. codes_eq k (row_key repr v)) rows

  -- No finding stands twice among the rows.
  abbrev pub Once : List Vulnerability → Type 0
  Once rows = (k : List ℕ) → row_times k rows ≤ 1

  pub times-rows :
      (k : List ℕ) (rows : List Vulnerability)
      → times k (map (row_key repr) rows) ≡ row_times k rows
  times-rows k [] = refl
  times-rows k (v ∷ rows) = ground (arith, times-rows k rows)

module _ (repr : Value → List ℕ) (scan_id tenant fresh now : ℕ) where
  abbrev pub one : FindingDraft → Progress → Progress
  one = upsert_one repr scan_id tenant fresh now

  abbrev pub loop : List FindingDraft → Progress → Progress
  loop = upsert_loop repr scan_id tenant fresh now

  abbrev pub OnceSeen : Progress → Type 0
  OnceSeen s = (k : List ℕ) → times k s.seen ≤ 1

  one-OnceSeen : (d : FindingDraft) (s : Progress) → OnceSeen s → OnceSeen (one d s)
  unfolding upsert_one
  one-OnceSeen d s h = elim (Bool-cases (is_severity d.severity)) [
    | inr bad ↦ rw bad h
    | inl fine ↦ elim (Bool-cases (has (draft_key repr d) s.seen)) [
      | inl old ↦ rw (fine, old) h
      | inr new ↦ rw (fine, new) (once-cons (draft_key repr d) s.seen new h)
    ]
  ]

  pub loop-OnceSeen : (ds : List FindingDraft) (s : Progress) → OnceSeen s → OnceSeen (loop ds s)
  unfolding upsert_loop
  loop-OnceSeen [] s h = h
  loop-OnceSeen (d ∷ ds) s h = loop-OnceSeen ds (one d s) (one-OnceSeen d s h)

  -- what the loop adds to `seen` is what it adds to the rows
  balance :
      (k : List ℕ) (d : FindingDraft) (s : Progress)
      → times k (one d s).seen + row_times repr k s.added
        ≡ times k s.seen + row_times repr k (one d s).added
  unfolding upsert_one new_finding row_key
  balance k d s = elim (Bool-cases (is_severity d.severity)) [
    | inr bad ↦ rw bad refl
    | inl fine ↦ elim (Bool-cases (has (draft_key repr d) s.seen)) [
      | inl old ↦ rw (fine, old) refl
      | inr new ↦
          rw (fine, new)
            (ground (
              arith,
              count_where-append (λ v. codes_eq k (row_key repr v)) s.added
                  (new_finding repr scan_id tenant fresh now s.created d ∷ []),
            ))
    ]
  ]

  pub loop-balance :
      (k : List ℕ) (ds : List FindingDraft) (s : Progress)
      → times k (loop ds s).seen + row_times repr k s.added
        ≡ times k s.seen + row_times repr k (loop ds s).added
  unfolding upsert_loop
  loop-balance k [] s = refl
  loop-balance k (d ∷ ds) s = omega (arith, balance k d s, loop-balance k ds (one d s))

  -- a draft that the loop can write stands in the scan afterwards
  abbrev pub Written : List FindingDraft → Progress → Type 0
  Written ds s = All (λ d. is_severity d.severity ≡ true → has (draft_key repr d) s.seen ≡ true) ds

  one-has :
      (k : List ℕ) (d : FindingDraft) (s : Progress)
      → has k s.seen ≡ true
      → has k (one d s).seen ≡ true
  unfolding upsert_one
  one-has k d s h = ground (arith, h)

  loop-has :
      (k : List ℕ) (ds : List FindingDraft) (s : Progress)
      → has k s.seen ≡ true
      → has k (loop ds s).seen ≡ true
  unfolding upsert_loop
  loop-has k [] s h = h
  loop-has k (d ∷ ds) s h = loop-has k ds (one d s) (one-has k d s h)

  one-Written :
      (d : FindingDraft) (s : Progress)
      → is_severity d.severity ≡ true
      → has (draft_key repr d) (one d s).seen ≡ true
  unfolding upsert_one
  one-Written d s h = elim (Bool-cases (has (draft_key repr d) s.seen)) [
    | inl old ↦ rw (h, old) old
    | inr new ↦ rw (h, new, codes_eq_refl (draft_key repr d)) refl
  ]

  pub loop-Written : (ds : List FindingDraft) (s : Progress) → Written ds (loop ds s)
  unfolding upsert_loop
  loop-Written [] s = tt
  loop-Written (d ∷ ds) s =
      (λ h. loop-has (draft_key repr d) ds (one d s) (one-Written d s h), loop-Written ds (one d s))

  -- a run over drafts that stand already adds nothing
  abbrev pub idle : List FindingDraft → Progress → Progress
  idle ds s = record s { skipped = s.skipped + length ds }

  one-idle :
      (d : FindingDraft) (s : Progress)
      → (is_severity d.severity ≡ true → has (draft_key repr d) s.seen ≡ true)
      → one d s ≡ record s { skipped = s.skipped + 1 }
  unfolding upsert_one
  one-idle d s h = elim (Bool-cases (is_severity d.severity)) [
    | inr bad ↦ rw bad refl
    | inl fine ↦ rw (fine, h fine) refl
  ]

  pub loop-idle :
      (ds : List FindingDraft) (s : Progress)
      → Written ds s
      → ((loop ds s).created ≡ s.created) × ((loop ds s).added ≡ s.added)
  unfolding upsert_loop
  loop-idle [] s h = (refl, refl)
  loop-idle (d ∷ ds) s h =
      let e = one-idle d s h.0 in
      let (c, a) = loop-idle ds (record s { skipped = s.skipped + 1 }) h.1 in
      (
        ap (λ (x : Progress). (loop ds x).created) e ∙ c,
        ap (λ (x : Progress). (loop ds x).added) e ∙ a,
      )

  -- the rows that are added are rows of the scan
  abbrev pub Ours : List Vulnerability → Type 0
  Ours = All (λ v. in_scan scan_id tenant v ≡ true)

  one-Ours : (d : FindingDraft) (s : Progress) → Ours s.added → Ours (one d s).added
  unfolding upsert_one new_finding
  one-Ours d s h = elim (Bool-cases (is_severity d.severity)) [
    | inr bad ↦ rw bad h
    | inl fine ↦ elim (Bool-cases (has (draft_key repr d) s.seen)) [
      | inl old ↦ rw (fine, old) h
      | inr new ↦
          rw (fine, new)
            (All-append (λ v. in_scan scan_id tenant v ≡ true) s.added
              (new_finding repr scan_id tenant fresh now s.created d ∷ []) h
              (
                both→and (scan_id == scan_id) (tenant == tenant) (==_refl scan_id) (==_refl tenant),
                tt,
              ))
    ]
  ]

  pub loop-Ours : (ds : List FindingDraft) (s : Progress) → Ours s.added → Ours (loop ds s).added
  unfolding upsert_loop
  loop-Ours [] s h = h
  loop-Ours (d ∷ ds) s h = loop-Ours ds (one d s) (one-Ours d s h)

  pub select-Ours :
      (xs ys : List Vulnerability)
      → Ours ys
      → of_scan scan_id tenant (xs ++ ys) ≡ of_scan scan_id tenant xs ++ ys
  select-Ours [] [] h = refl
  select-Ours [] (y ∷ ys) h = rw (h.0, select-Ours [] ys h.1) refl
  select-Ours (x ∷ xs) ys h = elim (Bool-cases (in_scan scan_id tenant x)) [
    | inl e ↦ rw e (ap (λ (rest : List Vulnerability). x ∷ rest) (select-Ours xs ys h))
    | inr e ↦ rw e (select-Ours xs ys h)
  ]
