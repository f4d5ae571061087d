-- ===== src/Nmap/Findings.antt =====
-- The report of app/modules/scans/nmap/parser.py and its check, and the extraction of
-- app/modules/scans/nmap/findings.py. The regular expressions are a parameter; scores are in tenths.
use Prim.Native.String.{◌++◌ as append}
use Prim.Native.Nat.{◌/◌}
use soc360_pymes.Prelude.{
  ℕ, zero, suc, ◌%◌, String, Bool, Option, none, some, List, [], ◌∷◌, ◌++◌, if◌then◌else◌, all, any,
  str_eq, leb, ltb, ◌==◌,
}
use soc360_pymes.Json.{Value, null, number, text, Fields, end, field}
use soc360_pymes.Vulnerabilities.Identity.{FindingDraft}

pub record ScriptFinding : Type 0 where
  pub script_id : Option String
  pub output : Option String

pub record NmapService : Type 0 where
  pub name : Option String
  pub product : Option String
  pub version : Option String
  pub extrainfo : Option String

pub record NmapPort : Type 0 where
  pub protocol : Option String
  pub port_id : ℕ
  pub state : Option String
  pub service : Option NmapService
  pub scripts : List ScriptFinding

pub record NmapHost : Type 0 where
  pub addresses : List String
  pub hostnames : List String
  pub status : Option String
  pub os_matches : List String
  pub ports : List NmapPort
  pub host_scripts : List ScriptFinding

pub record NmapReport : Type 0 where
  pub scan_types : List String
  pub hosts : List NmapHost

-- REQUIRED_SCAN_TYPES of command.py
abbrev pub required_scan_types : List String
required_scan_types = "syn" ∷ "udp" ∷ []

-- `verify_scan_types`: the reason of the error, if it raises
unfoldable pub verify_scan_types : NmapReport → Option String
verify_scan_types report =
    if all (λ kind. any (str_eq kind) report.scan_types) required_scan_types
    then none
    else some "scan_type_mismatch"

-- What the regular expressions find in an output: whether it says VULNERABLE other than in NOT
-- VULNERABLE, the first CVE id, and the number after CVSS, in tenths, rounded and between 0 and 100.
pub record Patterns : Type 0 where
  pub is_positive : String → Bool
  pub first_cve : String → Option String
  pub cvss_tenths : String → Option ℕ

unfoldable pub severity_from_cvss : Option ℕ → String
severity_from_cvss none = "medium"
severity_from_cvss (some score) =
    if leb 90 score
    then "critical"
    else if leb 70 score
    then "high"
    else if leb 40 score
    then "medium"
    else if ltb 0 score
    then "low"
    else "info"

-- `s[:n]`
unfoldable pub prefix : ℕ → String → String
prefix zero s = ""
prefix (suc n) String.[] = ""
prefix (suc n) (String.◌∷◌ c s) = String.◌∷◌ c (prefix n s)

abbrev pub or_text : String → Option String → String
or_text default none = default
or_text default (some t) = t

-- a finding's script with the port it ran against
pub record Placed : Type 0 where
  pub script : ScriptFinding
  pub place : Option (ℕ × Option String)

abbrev pub host_placed : List ScriptFinding → List Placed
host_placed [] = []
host_placed (x ∷ xs) = record { script = x; place = none } ∷ host_placed xs

abbrev pub port_placed : NmapPort → List ScriptFinding → List Placed
port_placed port [] = []
port_placed port (x ∷ xs) =
    record { script = x; place = some (port.port_id, port.protocol) } ∷ port_placed port xs

abbrev pub ports_placed : List NmapPort → List Placed
ports_placed [] = []
ports_placed (p ∷ ps) = port_placed p p.scripts ++ ports_placed ps

-- `scripts` of the loop: those of the host, then those of its ports
abbrev pub placed : NmapHost → List Placed
placed host = host_placed host.host_scripts ++ ports_placed host.ports

-- `host.addresses[0] if host.addresses else "unknown"`
abbrev pub address_of : NmapHost → String
address_of host = elim host.addresses [ [] ↦ "unknown" | a ∷ rest ↦ a ]

abbrev pub digit : ℕ → String
digit n =
    if n == 0
    then "0"
    else if n == 1
    then "1"
    else if n == 2
    then "2"
    else if n == 3
    then "3"
    else if n == 4
    then "4"
    else if n == 5
    then "5"
    else if n == 6
    then "6"
    else if n == 7
    then "7"
    else if n == 8
    then "8"
    else "9"

-- `str(n)`, with fuel above the number of digits
unfoldable pub decimal : ℕ → ℕ → String → String
decimal zero n rest = rest
decimal (suc f) n rest =
    let longer = decimal f (n / 10) (append (digit (n % 10)) rest) in
    if ltb n 10 then append (digit n) rest else longer

abbrev pub suffix : Option (ℕ × Option String) → String
suffix none = ""
suffix (some (port, protocol)) =
    append ":" (decimal (suc port) port (append "/" (or_text "None" protocol)))

abbrev pub title_of : String → Placed → String
title_of address p =
    append (or_text "None" p.script.script_id) (append " on " (append address (suffix p.place)))

abbrev pub text_or_null : Option String → Value
text_or_null none = null
text_or_null (some t) = text t

abbrev pub port_value : Option (ℕ × Option String) → Value
port_value none = null
port_value (some (port, protocol)) = number port

abbrev pub protocol_value : Option (ℕ × Option String) → Value
protocol_value none = null
protocol_value (some (port, protocol)) = text_or_null protocol

abbrev pub severity_source : Option ℕ → String
severity_source none = "default"
severity_source (some score) = "cvss"

abbrev pub metadata_of : String → Placed → Option ℕ → Fields
metadata_of address p score = field "source" (text "nmap") (
    field "script_id" (text_or_null p.script.script_id) (
      field "host" (text address) (
        field "port" (port_value p.place) (
          field "protocol" (protocol_value p.place)
            (field "severity_source" (text (severity_source score)) end)))))

abbrev pub shorten : ℕ → Option String → Option String
shorten n none = none
shorten n (some t) = some (prefix n t)

module _ (patterns : Patterns) where
  unfoldable pub draft_of : String → Placed → FindingDraft
  unfolding prefix severity_from_cvss decimal
  draft_of address p =
      let output = or_text "" p.script.output in
      let score = patterns.cvss_tenths output in
      record {
        title = prefix 255 (title_of address p);
        description = prefix 8000 output;
        severity = severity_from_cvss score;
        cve_id = shorten 50 (patterns.first_cve output);
        cvss_score = score;
        metadata = metadata_of address p score;
      }

  -- the inner loop
  unfoldable pub drafts_of : String → List Placed → List FindingDraft
  unfolding draft_of
  drafts_of address [] = []
  drafts_of address (p ∷ ps) =
      let rest = drafts_of address ps in
      if patterns.is_positive (or_text "" p.script.output) then draft_of address p ∷ rest else rest

  -- the outer loop
  unfoldable pub extract_all : List NmapHost → List FindingDraft
  unfolding drafts_of
  extract_all [] = []
  extract_all (h ∷ hs) = drafts_of (address_of h) (placed h) ++ extract_all hs

  unfoldable pub extract_findings : NmapReport → List FindingDraft
  unfolding extract_all
  extract_findings report = extract_all report.hosts
