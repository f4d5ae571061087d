-- ===== src/Vulnerabilities/Samples.antt =====
-- Concrete findings and sessions, and the theorems at them.
use soc360_pymes.Prelude.{ℕ, ◌≤◌, ◌≡◌, refl, true, String, none, some, List, [], ◌∷◌, arith}
use soc360_pymes.Json.{Value, text, field, end}
use soc360_pymes.Database.{
  Vulnerability, open_finding, fixed, Db, World, Env, committed_vulnerabilities,
}
use soc360_pymes.Vulnerabilities.Identity.{FindingDraft}
use soc360_pymes.Vulnerabilities.Upsert.{upsert_findings}
use soc360_pymes.Vulnerabilities.Once.{upsert_findings-idempotent}
use soc360_pymes.Vulnerabilities.Service.{VulnerabilityUpdate, list_vulnerabilities}
use soc360_pymes.Vulnerabilities.Closing.{Timed, update, world_after, world_after-Timed}
use soc360_pymes.Vulnerabilities.Isolation as Isolation
use soc360_pymes.Scans.Samples.{row}

-- no draft of these samples holds a list or a dict
repr : Value → List ℕ
repr v = []

abbrev draft : String → FindingDraft
draft host = record {
  title = "vulners";
  description = "VULNERABLE";
  severity = "high";
  cve_id = some "CVE-2021-44228";
  cvss_score = some 98;
  metadata = field "script_id" (text "vulners") (field "host" (text host) end);
}

abbrev drafts : List FindingDraft
drafts = draft "192.0.2.1" ∷ draft "192.0.2.1 " ∷ draft "192.0.2.2" ∷ []

abbrev found : ℕ → ℕ → Vulnerability
found id tenant = record {
  id = id;
  tenant_id = tenant;
  scan_id = 3;
  title = "weak cipher";
  description = none;
  severity = "low";
  status = open_finding;
  closed_at = none;
  cve_id = none;
  cvss_score = none;
  metadata = none;
  created_at = 10;
}

upsert_findings-idempotent_example :
    let after = (upsert_findings repr 3 1 100 50 drafts (found 9 1 ∷ [])).1 in
    ((upsert_findings repr 3 1 200 60 drafts after).0.0 ≡ 0)
    × ((upsert_findings repr 3 1 200 60 drafts after).1 ≡ after)
upsert_findings-idempotent_example =
    upsert_findings-idempotent repr 3 1 100 50 200 60 drafts (found 9 1 ∷ [])

abbrev db : Db
db = record {
  tenants = [];
  assets = [];
  scans = row 3 1 none ∷ [];
  vulnerabilities = found 8 1 ∷ found 9 2 ∷ [];
}

abbrev world : World
world = record { session = record { committed = db; working = db }; events = [] }

abbrev env : Env
env = record { now = 40; fresh_id = 50; commit_goes = true; publish_goes = true }

abbrev close : VulnerabilityUpdate
close = record { status = some fixed; description = none; cvss_score = none; metadata = none }

world_after-Timed_example :
    Timed (committed_vulnerabilities (world_after env (update 8 none close) world))
world_after-Timed_example =
    world_after-Timed env world (refl, (refl, tt)) (refl, (refl, tt)) (update 8 none close)

handle-Kept_example :
    Isolation.foreign 2
      (committed_vulnerabilities (Isolation.handle env 2 (Isolation.update 8 close) world))
    ≡ Isolation.foreign 2 (committed_vulnerabilities world)
handle-Kept_example =
    Isolation.handle-Kept env 2 world refl ((refl, tt), (tt, tt)) (Isolation.update 8 close)

total : (list_vulnerabilities none 5 0 none world).1 ≤ 5
unfolding list_vulnerabilities
total = omega arith
