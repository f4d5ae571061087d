-- ===== src/Vulnerabilities/Once.antt =====
-- How often a finding stands in a scan after `upsert_findings` of
-- app/modules/vulnerabilities/service.py.
use soc360_pymes.Prelude.{ℕ, ◌≡◌, ap, List, [], ◌∷◌, ◌++◌, map, arith, ◌∙◌}
use mathlib.Core.List.{append-nil}
use soc360_pymes.Sql.{count_where-append}
use soc360_pymes.Text.{codes_eq}
use soc360_pymes.Json.{Value}
use soc360_pymes.Database.{Vulnerability}
use soc360_pymes.Vulnerabilities.Identity.{FindingDraft, draft_key}
use soc360_pymes.Vulnerabilities.Upsert.{Progress, row_key, of_scan, start, upsert_findings}
use soc360_pymes.Vulnerabilities.Loop.{
  times, row_times, Once, Written, loop, has-times, times-rows, loop-OnceSeen, loop-balance,
  loop-Written, loop-idle, loop-Ours, select-Ours,
}

module _ (repr : Value → List ℕ) (scan_id tenant fresh now : ℕ) (drafts : List FindingDraft)
    (table : List Vulnerability) where
  abbrev upsert : (ℕ × ℕ) × List Vulnerability
  upsert = upsert_findings repr scan_id tenant fresh now drafts table

  abbrev final : Progress
  final = loop repr scan_id tenant fresh now drafts (start repr scan_id tenant fresh now table)

  scan_after : of_scan scan_id tenant upsert.1 ≡ of_scan scan_id tenant table ++ final.added
  unfolding upsert_findings
  scan_after = select-Ours repr scan_id tenant fresh now table final.added (
      loop-Ours repr scan_id tenant fresh now drafts (start repr scan_id tenant fresh now table) tt)

  -- a key stands in the scan afterwards as often as in `seen`
  times_after :
      (k : List ℕ) → row_times repr k (of_scan scan_id tenant upsert.1) ≡ times k final.seen
  times_after k = rw scan_after (
      ground (
        arith,
        count_where-append (λ v. codes_eq k (row_key repr v)) (of_scan scan_id tenant table)
            final.added,
        loop-balance repr scan_id tenant fresh now k drafts
            (start repr scan_id tenant fresh now table),
        times-rows repr k (of_scan scan_id tenant table),
      ))

  -- If no finding stands twice in the scan, none does after `upsert_findings`.
  upsert_findings-Once :
      Once repr (of_scan scan_id tenant table) → Once repr (of_scan scan_id tenant upsert.1)
  upsert_findings-Once h k = rw (times_after k) (
      loop-OnceSeen repr scan_id tenant fresh now drafts (start repr scan_id tenant fresh now table)
        (λ j. rw (times-rows repr j (of_scan scan_id tenant table)) (h j)) k)

  -- the second run finds every draft that the first could write
  again_Written :
      (ds : List FindingDraft)
      → Written repr scan_id tenant fresh now ds final
      → Written repr scan_id tenant fresh now ds (start repr scan_id tenant fresh now upsert.1)
  again_Written [] h = tt
  again_Written (d ∷ ds) h =
      let k = draft_key repr d in
      (
        λ fine. ground (
          arith,
          h.0 fine,
          has-times k final.seen,
          times_after k,
          times-rows repr k (of_scan scan_id tenant upsert.1),
          has-times k (map (row_key repr) (of_scan scan_id tenant upsert.1)),
        ),
        again_Written ds h.1,
      )

-- Running `upsert_findings` again on the same drafts, at any later time and with other ids, creates
-- nothing and leaves the table as it is.
pub upsert_findings-idempotent :
    (repr : Value → List ℕ) (scan_id tenant fresh now fresh' now' : ℕ) (drafts : List FindingDraft)
    (table : List Vulnerability)
    → let after = (upsert_findings repr scan_id tenant fresh now drafts table).1 in
      ((upsert_findings repr scan_id tenant fresh' now' drafts after).0.0 ≡ 0)
      × ((upsert_findings repr scan_id tenant fresh' now' drafts after).1 ≡ after)
unfolding upsert_findings
upsert_findings-idempotent repr scan_id tenant fresh now fresh' now' drafts table =
    let after = (upsert_findings repr scan_id tenant fresh now drafts table).1 in
    let written = again_Written repr scan_id tenant fresh now drafts table drafts (
      loop-Written repr scan_id tenant fresh now drafts
        (start repr scan_id tenant fresh now table)) in
    let (c, a) =
      loop-idle repr scan_id tenant fresh' now' drafts (start repr scan_id tenant fresh' now' after)
        written in
    (c, ap (λ (rows : List Vulnerability). after ++ rows) a ∙ append-nil after)
