-- ===== src/Pipeline/Severities.antt =====
-- The findings that `parse_node` of app/agents/scan_graph.py takes from a report, before and after
-- `dedup_node`.
use mathlib.Core.Path.{subst}
use soc360_pymes.Prelude.{
  ℕ, ◌+◌, ◌≡◌, refl, String, true, Option, none, some, List, [], ◌∷◌, ◌++◌, All, All-append,
  Bool-cases, leb, ltb, Option-cases, inl, inr,
}
use soc360_pymes.Outcome.{ok, Result-cases, ok-injective, err_not_ok, >>=-ok}
use soc360_pymes.Database.{Vulnerability}
use soc360_pymes.Vulnerabilities.Identity.{FindingDraft}
use soc360_pymes.Vulnerabilities.Upsert.{is_severity, upsert_findings, dedup}
use soc360_pymes.Nmap.Findings.{
  Patterns, NmapReport, NmapHost, Placed, severity_from_cvss, draft_of, drafts_of, extract_all,
  extract_findings, verify_scan_types, or_text, address_of, placed,
}
use soc360_pymes.Pipeline.Graph.{Tools, parse_all}
use soc360_pymes.Pipeline.Dedup.{dedup-upsert_findings}

severity_from_cvss-is_severity : (score : Option ℕ) → is_severity (severity_from_cvss score) ≡ true
unfolding severity_from_cvss is_severity
severity_from_cvss-is_severity none = refl
severity_from_cvss-is_severity (some score) = elim (Bool-cases (leb 90 score)) [
  | inl a ↦ simp (a, severity_from_cvss) refl
  | inr a ↦ elim (Bool-cases (leb 70 score)) [
    | inl b ↦ simp (a, b, severity_from_cvss) refl
    | inr b ↦ elim (Bool-cases (leb 40 score)) [
      | inl c ↦ simp (a, b, c, severity_from_cvss) refl
      | inr c ↦ elim (Bool-cases (ltb 0 score)) [
        | inl d ↦ simp (a, b, c, d, severity_from_cvss) refl
        | inr d ↦ simp (a, b, c, d, severity_from_cvss) refl
      ]
    ]
  ]
]

-- every draft has one of the five severities
abbrev AllFine : List FindingDraft → Type 0
AllFine = All (λ d. is_severity d.severity ≡ true)

module _ (patterns : Patterns) where
  draft_of-fine :
      (address : String) (p : Placed) → is_severity (draft_of patterns address p).severity ≡ true
  unfolding draft_of
  draft_of-fine address p =
      severity_from_cvss-is_severity (patterns.cvss_tenths (or_text "" p.script.output))

  drafts_of-AllFine :
      (address : String) (ps : List Placed) → AllFine (drafts_of patterns address ps)
  unfolding drafts_of
  drafts_of-AllFine address [] = tt
  drafts_of-AllFine address (p ∷ ps) =
      elim (Bool-cases (patterns.is_positive (or_text "" p.script.output))) [
        | inl e ↦ rw e (draft_of-fine address p, drafts_of-AllFine address ps)
        | inr e ↦ rw e (drafts_of-AllFine address ps)
      ]

  extract_all-AllFine : (hosts : List NmapHost) → AllFine (extract_all patterns hosts)
  unfolding extract_all
  extract_all-AllFine [] = tt
  extract_all-AllFine (h ∷ hs) =
      All-append (λ d. is_severity d.severity ≡ true) (drafts_of patterns (address_of h) (placed h))
        (extract_all patterns hs) (drafts_of-AllFine (address_of h) (placed h))
        (extract_all-AllFine hs)

  extract_findings-AllFine : (report : NmapReport) → AllFine (extract_findings patterns report)
  unfolding extract_findings
  extract_findings-AllFine report = extract_all-AllFine report.hosts

module _ (tools : Tools) where
  parse_all-AllFine :
      (documents : List String) (drafts : List FindingDraft)
      → parse_all tools documents ≡ ok drafts
      → AllFine drafts
  unfolding parse_all
  parse_all-AllFine [] drafts h = subst AllFine (ok-injective [] drafts h) tt
  parse_all-AllFine (d ∷ ds) drafts h = elim (Result-cases (tools.parse_nmap_xml d)) [
    | inr (x, e) ↦ absurd (err_not_ok x drafts (simp (e, parse_all) at h))
    | inl (report, e) ↦ elim (Option-cases (verify_scan_types report)) [
      | inr (x, f) ↦ absurd (err_not_ok x drafts (simp (e, f, parse_all) at h))
      | inl f ↦
          let (rest, found, same) =
            >>=-ok (parse_all tools ds)
              (λ more. ok (extract_findings tools.patterns report ++ more))
              (simp (e, f, parse_all) at h) in
          subst AllFine (ok-injective (extract_findings tools.patterns report ++ rest) drafts same)
            (All-append (λ x. is_severity x.severity ≡ true)
              (extract_findings tools.patterns report) rest
              (extract_findings-AllFine tools.patterns report) (parse_all-AllFine ds rest found))
    ]
  ]

  -- For the drafts that documents parse to, the dedup node changes nothing but where repeats are
  -- counted: the upsert of the drafts that it keeps leaves the table and creates the number of rows
  -- that the upsert of all of them does, and what it drops is what that upsert would skip besides.
  pub parse_all-dedup :
      (documents : List String) (drafts : List FindingDraft) (scan_id tenant fresh now : ℕ)
      (table : List Vulnerability)
      → parse_all tools documents ≡ ok drafts
      → let kept =
          upsert_findings tools.repr scan_id tenant fresh now
            (dedup tools.repr drafts []).0
            table in
        let whole = upsert_findings tools.repr scan_id tenant fresh now drafts table in
        (kept.1 ≡ whole.1)
        × (kept.0.0 ≡ whole.0.0)
        × (kept.0.1 + (dedup tools.repr drafts []).1 ≡ whole.0.1)
  parse_all-dedup documents drafts scan_id tenant fresh now table h =
      dedup-upsert_findings tools.repr scan_id tenant fresh now drafts table
        (parse_all-AllFine documents drafts h)
