-- ===== src/Pipeline/Graph.antt =====
-- The nodes of app/agents/scan_graph.py, the graph, and `run_agent_safely` of app/agents/runner.py.
-- `run` is the Nmap process and `parse_nmap_xml` the reading of its XML, of which nothing is assumed.
-- What the graph does to the database is the upsert.
use Prim.Native.String.{◌++◌ as append}
use soc360_pymes.Prelude.{
  ℕ, String, Bool, true, false, not, Option, none, some, List, [], ◌∷◌, ◌++◌, if◌then◌else◌, str_eq,
}
use soc360_pymes.Outcome.{Result, ok, err, ◌>>=◌}
use soc360_pymes.Json.{Value}
use soc360_pymes.Database.{Vulnerability}
use soc360_pymes.Assets.Values.{Text, Libraries}
use soc360_pymes.Nmap.Targets.{
  Lookup, Failure, rejected, exception, cancelled_error, ScanTarget, resolve_scan_target,
}
use soc360_pymes.Nmap.Findings.{NmapReport, Patterns, verify_scan_types, extract_findings}
use soc360_pymes.Nmap.Command.{build_nmap_command, split_by_family}
use soc360_pymes.Vulnerabilities.Identity.{FindingDraft}
use soc360_pymes.Vulnerabilities.Upsert.{upsert_findings, dedup}

-- What a step that the code awaits does: it is done, it raises, or the task is cancelled at it,
-- before or after its effect.
pub data Step : Type 0 where
  done raises interrupted_before interrupted_after : Step

-- what leaves a call: an exception, or the cancellation of the task
pub data Raised : Type 0 where
  internal cancelled_task : Raised

-- What `run(argv)` does: the decoded output, an NmapRunError with its reason, another exception, or
-- the cancellation of the task.
pub data NmapRun : Type 0 where
  printed : String → NmapRun
  run_error : String → NmapRun
  run_raises run_cancelled : NmapRun

pub record Tools : Type 1 where
  pub lib : Libraries
  pub demo : Bool
  pub resolver : Text → Lookup
  pub nmap_path : Text
  pub run : List Text → NmapRun
  -- the report, or the reason of an NmapParseError
  pub parse_nmap_xml : String → Result String NmapReport
  pub patterns : Patterns
  pub repr : Value → List ℕ
  -- the clock, the ids that the database gives, and what the flush of the upsert does
  pub now : ℕ
  pub fresh_id : ℕ
  pub flush : Step

-- `ScanState`, less the keys that are fixed for the run
pub record GraphState : Type 0 where
  pub nmap_documents : List String
  pub nmap_raw_xml : Option String
  pub raw_findings : List FindingDraft
  pub dedup_skipped : ℕ
  pub error : Option String
  pub is_completed : Bool

abbrev pub initial_state : GraphState
initial_state = record {
  nmap_documents = [];
  nmap_raw_xml = none;
  raw_findings = [];
  dedup_skipped = 0;
  error = none;
  is_completed = false;
}

abbrev pub with_error : String → GraphState → GraphState
with_error reason st = record st { error = some reason }

-- `state.get("error")` as a test
abbrev pub has_error : GraphState → Bool
has_error st = elim st.error [ none ↦ false | some t ↦ not (str_eq t "") ]

-- `"\n".join(documents)`
unfoldable pub join_lines : List String → String
join_lines [] = ""
join_lines (d ∷ []) = d
join_lines (d ∷ e ∷ ds) = append d (append "\n" (join_lines (e ∷ ds)))

module _ (tools : Tools) where
  -- one run per address family
  unfoldable pub collect : List ScanTarget → Result Failure (List String)
  unfolding build_nmap_command
  collect [] = ok []
  collect (family ∷ families) =
      let rest = collect families in
      elim (build_nmap_command tools.lib tools.demo tools.nmap_path family) [
        | err e ↦ err exception
        | ok argv ↦ elim (tools.run argv) [
          | printed document ↦ rest >>= (λ documents. ok (document ∷ documents))
          | run_error reason ↦ err (rejected reason)
          | run_raises ↦ err exception
          | run_cancelled ↦ err cancelled_error
        ]
      ]

  abbrev pub documents_of : Option (List ScanTarget) → Result Failure (List String)
  documents_of none = err exception
  documents_of (some families) = collect families

  -- a reason becomes the `error` of the state, anything else leaves the node
  abbrev pub scanned : Result Failure (List String) → GraphState → Result Raised GraphState
  scanned (err (rejected reason)) st = ok (with_error reason st)
  scanned (err exception) st = err internal
  scanned (err cancelled_error) st = err cancelled_task
  scanned (ok documents) st =
      ok (record st { nmap_documents = documents; nmap_raw_xml = some (join_lines documents) })

  unfoldable pub scan_node : String → Text → GraphState → Result Raised GraphState
  unfolding resolve_scan_target split_by_family collect
  scan_node asset_type value st =
      scanned
        (resolve_scan_target tools.lib tools.demo tools.resolver asset_type value
          >>= (λ target. documents_of (split_by_family tools.lib target)))
        st

  -- the loop of `parse_node`
  unfoldable pub parse_all : List String → Result String (List FindingDraft)
  unfolding verify_scan_types extract_findings
  parse_all [] = ok []
  parse_all (d ∷ ds) =
      let rest = parse_all ds in
      elim (tools.parse_nmap_xml d) [
        | err reason ↦ err reason
        | ok report ↦ elim (verify_scan_types report) [
          | some reason ↦ err reason
          | none ↦ rest >>= (λ drafts. ok (extract_findings tools.patterns report ++ drafts))
        ]
      ]

  abbrev parsed : Result String (List FindingDraft) → GraphState → GraphState
  parsed (err reason) st = with_error reason st
  parsed (ok drafts) st = record st { raw_findings = drafts }

  unfoldable pub parse_node : GraphState → GraphState
  unfolding parse_all
  parse_node st = parsed (parse_all st.nmap_documents) st

  unfoldable pub dedup_node : GraphState → GraphState
  unfolding dedup
  dedup_node st =
      let (kept, skipped) = dedup tools.repr st.raw_findings [] in
      record st { raw_findings = kept; dedup_skipped = skipped }

  abbrev pub stored : ℕ → ℕ → List FindingDraft → List Vulnerability → List Vulnerability
  stored scan_id tenant drafts table =
      (upsert_findings tools.repr scan_id tenant tools.fresh_id tools.now drafts table).1

  -- `persist_node`, with the table that it leaves
  unfoldable pub persist_node :
      ℕ → ℕ → GraphState → List Vulnerability → Result Raised GraphState × List Vulnerability
  unfolding upsert_findings
  persist_node scan_id tenant st table =
      let after = stored scan_id tenant st.raw_findings table in
      elim tools.flush [
        | done ↦ (ok (record st { is_completed = true }), after)
        | raises ↦ (err internal, table)
        | interrupted_before ↦ (err cancelled_task, table)
        | interrupted_after ↦ (err cancelled_task, after)
      ]

  -- the steps after `scan`, each behind the test `next_step`
  unfoldable pub after_parse :
      ℕ → ℕ → GraphState → List Vulnerability → Result Raised GraphState × List Vulnerability
  unfolding dedup_node persist_node
  after_parse scan_id tenant st table =
      if has_error st
      then (ok st, table)
      else if has_error (dedup_node st)
      then (ok (dedup_node st), table)
      else persist_node scan_id tenant (dedup_node st) table

  unfoldable pub after_scan :
      ℕ
      → ℕ
      → Result Raised GraphState
      → List Vulnerability
      → Result Raised GraphState × List Vulnerability
  unfolding parse_node after_parse
  after_scan scan_id tenant (err e) table = (err e, table)
  after_scan scan_id tenant (ok st) table =
      if has_error st then (ok st, table) else after_parse scan_id tenant (parse_node st) table

  -- `build_scan_graph` and the invocation of the graph
  unfoldable pub run_graph :
      ℕ → ℕ → String → Text → List Vulnerability → Result Raised GraphState × List Vulnerability
  unfolding scan_node after_scan
  run_graph scan_id tenant asset_type value table =
      after_scan scan_id tenant (scan_node asset_type value initial_state) table

  abbrev pub safely : Result Raised GraphState → Result Raised GraphState
  safely (ok st) = ok st
  safely (err internal) = ok (with_error "internal_error" initial_state)
  safely (err cancelled_task) = err cancelled_task

  -- `run_agent_safely`
  unfoldable pub run_agent_safely :
      ℕ → ℕ → String → Text → List Vulnerability → Result Raised GraphState × List Vulnerability
  unfolding run_graph
  run_agent_safely scan_id tenant asset_type value table =
      let (answer, after) = run_graph scan_id tenant asset_type value table in
      (safely answer, after)
