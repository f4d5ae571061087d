-- ===== src/Pipeline/Dedup.antt =====
-- `dedup_node` of app/agents/scan_graph.py before `upsert_findings` of
-- app/modules/vulnerabilities/service.py.
use soc360_pymes.Prelude.{
  ℕ, ◌+◌, ◌≡◌, refl, ap, ◌∙◌, true, List, [], ◌∷◌, ◌++◌, arith, All, Bool-cases, inl, inr,
}
use soc360_pymes.Text.{codes_eq, codes_eq-sym, codes_eq_trans}
use soc360_pymes.Json.{Value}
use soc360_pymes.Database.{Vulnerability}
use soc360_pymes.Vulnerabilities.Identity.{FindingDraft, draft_key}
use soc360_pymes.Vulnerabilities.Upsert.{
  Progress, has, is_severity, upsert_one, upsert_loop, start, upsert_findings, dedup,
}

-- Two runs of the loop that differ in the count of skipped drafts only, the second by `n` more.
pub record Shifted (n : ℕ) (a b : Progress) : Type 0 where
  pub seen : a.seen ≡ b.seen
  pub added : a.added ≡ b.added
  pub created : a.created ≡ b.created
  pub skipped : a.skipped + n ≡ b.skipped

Shifted-refl : (a : Progress) → Shifted 0 a a
Shifted-refl a = record { seen = refl; added = refl; created = refl; skipped = omega arith }

Shifted-trans : (n m : ℕ) {a b c : Progress} → Shifted n a b → Shifted m b c → Shifted (n + m) a c
Shifted-trans n m h k = record {
  seen = h.seen ∙ k.seen;
  added = h.added ∙ k.added;
  created = h.created ∙ k.created;
  skipped = omega (arith, h.skipped, k.skipped);
}

has-codes_eq :
    (a b : List ℕ) (ks : List (List ℕ)) → codes_eq a b ≡ true → has b ks ≡ true → has a ks ≡ true
has-codes_eq a b [] e h = cc
has-codes_eq a b (k ∷ ks) e h =
    let t : codes_eq a k ≡ codes_eq b k =
      codes_eq-sym a k ∙ codes_eq_trans a b k e ∙ codes_eq-sym k b in
    ground (arith, t, has-codes_eq a b ks e)

module _ (repr : Value → List ℕ) (scan_id tenant fresh now : ℕ) where
  abbrev one : FindingDraft → Progress → Progress
  one = upsert_one repr scan_id tenant fresh now

  abbrev loop : List FindingDraft → Progress → Progress
  loop = upsert_loop repr scan_id tenant fresh now

  -- every key that the node has seen is one that the loop has seen
  abbrev Covers : List (List ℕ) → Progress → Type 0
  Covers keys s = (k : List ℕ) → has k keys ≡ true → has k s.seen ≡ true

  abbrev pub Fine : List FindingDraft → Type 0
  Fine = All (λ d. is_severity d.severity ≡ true)

  one-Shifted :
      (n : ℕ) (d : FindingDraft) (a b : Progress) → Shifted n a b → Shifted n (one d a) (one d b)
  unfolding upsert_one
  one-Shifted n d a b h = elim (Bool-cases (is_severity d.severity)) [
    | inr bad ↦ rw bad (record {
      seen = h.seen;
      added = h.added;
      created = h.created;
      skipped = omega (arith, h.skipped);
    })
    | inl fine ↦ elim (Bool-cases (has (draft_key repr d) b.seen)) [
      | inl old ↦
          rw (fine, h.seen, old)
            (record {
              seen = refl;
              added = h.added;
              created = h.created;
              skipped = omega (arith, h.skipped);
            })
      | inr new ↦
          rw (fine, h.seen, new)
            (record {
              seen = refl;
              added = rw (h.added, h.created) refl;
              created = ap (λ (m : ℕ). m + 1) h.created;
              skipped = h.skipped;
            })
    ]
  ]

  loop-Shifted :
      (n : ℕ) (ds : List FindingDraft) (a b : Progress)
      → Shifted n a b
      → Shifted n (loop ds a) (loop ds b)
  unfolding upsert_loop
  loop-Shifted n [] a b h = h
  loop-Shifted n (d ∷ ds) a b h = loop-Shifted n ds (one d a) (one d b) (one-Shifted n d a b h)

  -- a draft of a seen key is skipped
  one-skips :
      (d : FindingDraft) (s : Progress)
      → is_severity d.severity ≡ true
      → has (draft_key repr d) s.seen ≡ true
      → Shifted 1 s (one d s)
  unfolding upsert_one
  one-skips d s fine old =
      rw (fine, old) (record { seen = refl; added = refl; created = refl; skipped = refl })

  one-Covers :
      (d : FindingDraft) (keys : List (List ℕ)) (s : Progress)
      → is_severity d.severity ≡ true
      → Covers keys s
      → Covers (draft_key repr d ∷ keys) (one d s)
  unfolding upsert_one
  one-Covers d keys s fine h k e = elim (Bool-cases (has (draft_key repr d) s.seen)) [
    | inl old ↦
        rw (fine, old) (ground (arith, h k, e, has-codes_eq k (draft_key repr d) s.seen, old))
    | inr new ↦ rw (fine, new) (ground (arith, h k, e))
  ]

  -- the loop over the drafts that the node keeps, against the loop over all of them
  loop-dedup :
      (ds : List FindingDraft) (keys : List (List ℕ)) (s : Progress)
      → Fine ds
      → Covers keys s
      → Shifted (dedup repr ds keys).1 (loop (dedup repr ds keys).0 s) (loop ds s)
  unfolding upsert_loop dedup
  loop-dedup [] keys s fine h = Shifted-refl s
  loop-dedup (d ∷ ds) keys s fine h = elim (Bool-cases (has (draft_key repr d) keys)) [
    | inl old ↦
        let skips = one-skips d s fine.0 (h (draft_key repr d) old) in
        rw old (
          Shifted-trans (dedup repr ds keys).1 1 (loop-dedup ds keys s fine.1 h)
            (loop-Shifted 1 ds s (one d s) skips))
    | inr new ↦
        rw new
          (loop-dedup ds (draft_key repr d ∷ keys) (one d s) fine.1 (one-Covers d keys s fine.0 h))
  ]

  -- Where every draft has one of the five severities, the node changes nothing but the count: the
  -- upsert of the drafts that it keeps leaves the table, and creates the number of rows, that the
  -- upsert of all of them does, and the drafts that it drops are those that the upsert would skip
  -- besides.
  pub dedup-upsert_findings :
      (drafts : List FindingDraft) (table : List Vulnerability)
      → Fine drafts
      → let kept = upsert_findings repr scan_id tenant fresh now (dedup repr drafts []).0 table in
        let all_drafts = upsert_findings repr scan_id tenant fresh now drafts table in
        (kept.1 ≡ all_drafts.1)
        × (kept.0.0 ≡ all_drafts.0.0)
        × (kept.0.1 + (dedup repr drafts []).1 ≡ all_drafts.0.1)
  unfolding upsert_findings
  dedup-upsert_findings drafts table fine =
      let h =
        loop-dedup drafts [] (start repr scan_id tenant fresh now table) fine (λ k e. absurd cc) in
      (ap (λ (rows : List Vulnerability). table ++ rows) h.added, h.created, h.skipped)
