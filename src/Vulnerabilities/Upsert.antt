-- ===== src/Vulnerabilities/Upsert.antt =====
-- `upsert_findings` of app/modules/vulnerabilities/service.py and `dedup_node` of
-- app/agents/scan_graph.py.
use soc360_pymes.Prelude.{
  ℕ, ◌+◌, String, Bool, not, ◌&&◌, ◌||◌, Option, none, some, List, [], ◌∷◌, ◌++◌, map,
  if◌then◌else◌, any, ◌==◌, str_eq,
}
use soc360_pymes.Sql.{select}
use soc360_pymes.Text.{codes_eq}
use soc360_pymes.Json.{Value, object, Fields, end}
use soc360_pymes.Database.{Vulnerability, open_finding}
use soc360_pymes.Vulnerabilities.Identity.{FindingDraft, finding_identity, draft_key}

-- `VALID_SEVERITIES`
unfoldable pub is_severity : String → Bool
is_severity s =
    str_eq s "critical" || str_eq s "high" || str_eq s "medium" || str_eq s "low" || str_eq s "info"

-- `metadata or {}`
abbrev pub fields_of : Option Value → Fields
fields_of (some (object fields)) = fields
fields_of _ = end

abbrev pub has : List ℕ → List (List ℕ) → Bool
has key seen = any (codes_eq key) seen

-- the loop's variables
pub record Progress : Type 0 where
  pub seen : List (List ℕ)
  pub added : List Vulnerability
  pub created : ℕ
  pub skipped : ℕ

module _ (repr : Value → List ℕ) where
  unfoldable pub row_key : Vulnerability → List ℕ
  row_key v = finding_identity repr (fields_of v.metadata) v.cve_id v.title

-- the rows of the scan that the first SELECT returns
abbrev pub in_scan : ℕ → ℕ → Vulnerability → Bool
in_scan scan_id tenant v = v.scan_id == scan_id && v.tenant_id == tenant

abbrev pub of_scan : ℕ → ℕ → List Vulnerability → List Vulnerability
of_scan scan_id tenant = select (in_scan scan_id tenant)

module _ (repr : Value → List ℕ) (scan_id tenant fresh now : ℕ) where
  -- the row that is added for a draft
  unfoldable pub new_finding : ℕ → FindingDraft → Vulnerability
  new_finding created d = record {
    id = fresh + created;
    tenant_id = tenant;
    scan_id = scan_id;
    title = d.title;
    description = some d.description;
    severity = d.severity;
    status = open_finding;
    closed_at = none;
    cve_id = d.cve_id;
    cvss_score = d.cvss_score;
    metadata = some (object d.metadata);
    created_at = now;
  }

  abbrev pub skip : Progress → Progress
  skip s = record s { skipped = s.skipped + 1 }

  -- one round of the loop
  unfoldable pub upsert_one : FindingDraft → Progress → Progress
  unfolding is_severity new_finding
  upsert_one d s =
      if not (is_severity d.severity)
      then skip s
      else if has (draft_key repr d) s.seen
      then skip s
      else record {
        seen = draft_key repr d ∷ s.seen;
        added = s.added ++ new_finding s.created d ∷ [];
        created = s.created + 1;
        skipped = s.skipped;
      }

  unfoldable pub upsert_loop : List FindingDraft → Progress → Progress
  unfolding upsert_one
  upsert_loop [] s = s
  upsert_loop (d ∷ ds) s = upsert_loop ds (upsert_one d s)

  abbrev pub start : List Vulnerability → Progress
  start table = record {
    seen = map (row_key repr) (of_scan scan_id tenant table);
    added = [];
    created = 0;
    skipped = 0;
  }

  -- the counts, and the table that the flush leaves
  unfoldable pub upsert_findings :
      List FindingDraft → List Vulnerability → (ℕ × ℕ) × List Vulnerability
  unfolding upsert_loop row_key
  upsert_findings drafts table =
      let s = upsert_loop drafts (start table) in ((s.created, s.skipped), table ++ s.added)

-- `dedup_node`: the findings kept, and how many were dropped
unfoldable pub dedup : (Value → List ℕ) → List FindingDraft → List (List ℕ) → List FindingDraft × ℕ
dedup repr [] seen = ([], 0)
dedup repr (d ∷ ds) seen =
    let (kept, skipped) =
      dedup repr ds (if has (draft_key repr d) seen then seen else draft_key repr d ∷ seen) in
    if has (draft_key repr d) seen then (kept, skipped + 1) else (d ∷ kept, skipped)
