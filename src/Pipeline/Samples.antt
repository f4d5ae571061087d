-- ===== src/Pipeline/Samples.antt =====
-- A worker with a toy Nmap, runs of it, and the theorems of Pipeline at them.
use soc360_pymes.Prelude.{◌+◌, ◌≡◌, ◌≢◌, inl, refl, true, false, none, some, List, [], ◌∷◌, arith}
use soc360_pymes.Outcome.{ok}
use soc360_pymes.Text.{codes, codes_eq}
use soc360_pymes.Database.{Db}
use soc360_pymes.Scans.Status.{running, status_eq}
use soc360_pymes.Scans.State.{claim_next_scan, check_transition, move_scan}
use soc360_pymes.Scans.State.Lifecycle.{cancel}
use soc360_pymes.Scans.Samples as Scans
use soc360_pymes.Vulnerabilities.Identity.{FindingDraft, finding_identity}
use soc360_pymes.Vulnerabilities.Upsert.{upsert_findings, dedup}
use soc360_pymes.Nmap.Targets.{public_ips}
use soc360_pymes.Nmap.Samples.{toy, resolver}
use soc360_pymes.Nmap.Findings.{NmapReport, ScriptFinding, Patterns, extract_findings}
use soc360_pymes.Pipeline.Graph.{done, raises, Tools, printed, parse_all}
use soc360_pymes.Pipeline.Executor.{completed_scan, Plan, goes, breaks, execute_scan, load_scan}
use soc360_pymes.Pipeline.Terminal.{Left, Ended}
use soc360_pymes.Pipeline.Finish.{execute_scan-Ended}
use soc360_pymes.Pipeline.Track.{fresh_session, Track, findings_after, execute_scan-Track}
use soc360_pymes.Pipeline.Refines.{Reached}
use soc360_pymes.Pipeline.Worker.{ended, Run, wake, reap_task}
use soc360_pymes.Pipeline.Recovery.{MayDo, wake-Reached, wake_reap-Ended}
use soc360_pymes.Pipeline.Severities.{parse_all-dedup}

abbrev script : ScriptFinding
script = record { script_id = some "vulners"; output = some "VULNERABLE" }

-- one host whose script is reported twice
abbrev report : NmapReport
report = record {
  scan_types = "syn" ∷ "udp" ∷ [];
  hosts =
      record {
        addresses = "8.8.8.8" ∷ [];
        hostnames = [];
        status = some "up";
        os_matches = [];
        ports = [];
        host_scripts = script ∷ script ∷ [];
      }
      ∷ [];
}

abbrev patterns : Patterns
patterns = record {
  is_positive = λ output. true;
  first_cve = λ output. none;
  cvss_tenths = λ output. some 75;
}

abbrev tools : Tools
tools = record {
  lib = toy;
  demo = false;
  resolver = resolver;
  nmap_path = codes "nmap";
  run = λ argv. printed "<nmaprun/>";
  parse_nmap_xml = λ document. ok report;
  patterns = patterns;
  repr = λ v. [];
  now = 40;
  fresh_id = 100;
  flush = done;
}

abbrev plan : Plan
plan = record {
  loading = done;
  claiming = done;
  preparing = done;
  meanwhile = [];
  completing = done;
  committing = done;
  failing = goes;
  recovering = goes;
  cancelling = goes;
  claimed_at = 30;
  ended_at = 50;
}

-- the scan's asset is a domain that the resolver knows
abbrev db : Db
db = record Scans.db {
  assets =
      record {
        id = 7;
        tenant_id = 1;
        asset_type = "domain";
        value = codes "example.com";
        created_at = 1;
      }
      ∷ [];
}

abbrev run : Run
run = record {
  execution_enabled = true;
  enrichment_enabled = true;
  locked = λ id. false;
  now = 30;
  claiming = done;
  watcher_first = false;
  lookup_goes = true;
  plan = plan;
  tools = tools;
}

-- every step after the claim raises, the cleanups too
abbrev lost : Run
lost = record run {
  plan = record plan { preparing = raises; failing = breaks; recovering = breaks };
}

claim_result : (claim_next_scan lost.locked lost.now (fresh_session db)).0 ≡ some (4, 1)
unfolding claim_next_scan
claim_result = refl

wake_reap-Ended_example : Ended 4 (reap_task 5000 (wake lost db).db).1.scans
wake_reap-Ended_example =
    wake_reap-Ended lost db 4 1 5000 Scans.unique refl (inl refl) claim_result (omega arith)

-- the scan is cancelled while Nmap runs
abbrev overtaken : Run
overtaken = record run { plan = record plan { meanwhile = cancel 4 35 ∷ [] } }

wake-Reached_example : Reached (MayDo overtaken db) db.scans (wake overtaken db).db.scans
wake-Reached_example = wake-Reached overtaken db

abbrev claimed_db : Db
claimed_db = record db {
  scans =
      record (Scans.row 4 1 (some 15)) { status = running; started_at = some 30 }
      ∷ Scans.row 5 1 none
      ∷ [];
}

claimed-Left : Left 4 claimed_db.scans
unfolding status_eq
claimed-Left = record {
  unique = ground arith;
  row = record (Scans.row 4 1 (some 15)) { status = running; started_at = some 30 };
  found = refl;
  left = refl;
}

-- what the run leaves where nothing raises: one finding, the completion, and the enrichment asked for
completed_test : (wake run db).answer ≡ ok (ended completed_scan)
unfolding wake execute_scan codes_eq public_ips check_transition move_scan
completed_test = refl

enqueued_test : (wake run db).enqueued ≡ 100 ∷ []
unfolding wake execute_scan codes_eq public_ips check_transition move_scan finding_identity
enqueued_test = refl

-- a plan whose commit raises, beside a cancellation by the user while Nmap runs
abbrev rough : Plan
rough = record plan { meanwhile = cancel 4 35 ∷ []; committing = raises }

rough_recovers : rough.recovering ≢ breaks
rough_recovers h = cc

rough_cancels : rough.cancelling ≢ breaks
rough_cancels h = cc

execute_scan-Ended_example :
    Ended 4 (execute_scan 4 rough 1 tools true (fresh_session claimed_db)).1.committed.scans
execute_scan-Ended_example =
    execute_scan-Ended 4 rough 1 tools (fresh_session claimed_db) rough_recovers rough_cancels
      claimed-Left

execute_scan-Track_example :
    Track 4 claimed_db.vulnerabilities
      (findings_after 4 plan 1 tools claimed_db (load_scan 4 1 claimed_db))
      (execute_scan 4 plan 1 tools true (fresh_session claimed_db))
execute_scan-Track_example = execute_scan-Track 4 plan 1 tools claimed_db claimed-Left

abbrev drafts : List FindingDraft
drafts = extract_findings patterns report

parsed : parse_all tools ("<nmaprun/>" ∷ []) ≡ ok drafts
unfolding parse_all
parsed = refl

parse_all-dedup_example :
    let kept = upsert_findings tools.repr 4 1 100 40 (dedup tools.repr drafts []).0 [] in
    let whole = upsert_findings tools.repr 4 1 100 40 drafts [] in
    (kept.1 ≡ whole.1)
    × (kept.0.0 ≡ whole.0.0)
    × (kept.0.1 + (dedup tools.repr drafts []).1 ≡ whole.0.1)
parse_all-dedup_example = parse_all-dedup tools ("<nmaprun/>" ∷ []) drafts 4 1 100 40 [] parsed
