-- ===== src/Vulnerabilities/Service.antt =====
-- The service calls of app/modules/vulnerabilities/service.py, with the constraints of models.py that
-- fire at the flush of an INSERT. A raise comes back beside the world that it leaves.
use Prim.Native.Nat.{◌/◌, ◌^◌}
use soc360_pymes.Prelude.{
  ℕ, ◌+◌, ◌*◌, String, Bool, true, false, not, ◌&&◌, Option, none, some, List, [], ◌∷◌, ◌++◌,
  if◌then◌else◌, str_eq, ◌==◌, any, is_empty,
}
use soc360_pymes.Sql.{first, update_where, delete_where}
use soc360_pymes.Paging.{page_of}
use soc360_pymes.Outcome.{Result, ok, err}
use soc360_pymes.Events.{Event, vulnerability_created, vulnerability_updated, vulnerability_deleted}
use soc360_pymes.Json.{Value, value_eq}
use soc360_pymes.Database.{
  Scan, Vulnerability, FindingStatus, open_finding, fixed, accepted_risk, false_positive, World,
  Env, commit, rollback, scans_of, vulnerabilities_of, set_vulnerabilities,
}
use soc360_pymes.Vulnerabilities.Upsert.{is_severity}

pub data VulnerabilityError : Type 0 where
  vulnerability_scan_not_found integrity_error commit_failed publish_failed : VulnerabilityError

abbrev pub Reply : Type 0 → Type 0
Reply A = Result VulnerabilityError A × World

-- A float of the request as the decimal `units / 10 ^ scale` that `str` prints.
pub record Score : Type 0 where
  pub units : ℕ
  pub scale : ℕ

-- `quantize(Decimal("0.1"), rounding=ROUND_HALF_UP)`, in tenths; `Numeric(4, 1)` rounds the same way
unfoldable pub tenths : Score → ℕ
tenths s = (20 * s.units + 10 ^ s.scale) / (2 * 10 ^ s.scale)

abbrev pub tenths_of : Option Score → Option ℕ
tenths_of none = none
tenths_of (some s) = some (tenths s)

unfoldable pub status_eq : FindingStatus → FindingStatus → Bool
status_eq open_finding open_finding = true
status_eq fixed fixed = true
status_eq accepted_risk accepted_risk = true
status_eq false_positive false_positive = true
status_eq _ _ = false

abbrev pub committed : World → World
committed w = record w { session = commit w.session }

abbrev pub rolled_back : World → World
rolled_back w = record w { session = rollback w.session }

-- commit, and publish only after it
unfoldable pub commit_and_publish : {A : Type 0} → Env → Event → A → World → Reply A
commit_and_publish env event a w =
    if not env.commit_goes
    then (err commit_failed, rolled_back w)
    else if env.publish_goes
    then (ok a, record (committed w) { events = w.events ++ event ∷ [] })
    else (err publish_failed, committed w)

-- `_add_tenant_predicate`
unfoldable pub shown_to : Option ℕ → Vulnerability → Bool
shown_to none v = true
shown_to (some tenant) v = v.tenant_id == tenant

pub record VulnerabilityCreate : Type 0 where
  pub scan_id : ℕ
  pub title : String
  pub description : Option String
  pub severity : String
  pub cve_id : Option String
  pub cvss_score : Option Score
  pub metadata : Option Value

abbrev pub new_vulnerability : Env → ℕ → VulnerabilityCreate → Vulnerability
new_vulnerability env tenant d = record {
  id = env.fresh_id;
  tenant_id = tenant;
  scan_id = d.scan_id;
  title = d.title;
  description = d.description;
  severity = d.severity;
  status = open_finding;
  closed_at = none;
  cve_id = d.cve_id;
  cvss_score = tenths_of d.cvss_score;
  metadata = d.metadata;
  created_at = env.now;
}

-- the CHECK on the severity, then `fk_vulnerabilities_scan_tenant`
unfoldable pub insert_error : Vulnerability → World → Option VulnerabilityError
unfolding is_severity
insert_error v w =
    if not (is_severity v.severity)
    then some integrity_error
    else if not (any (λ (s : Scan). s.id == v.scan_id && s.tenant_id == v.tenant_id) (scans_of w))
    then some vulnerability_scan_not_found
    else none

unfoldable pub create_vulnerability : Env → VulnerabilityCreate → ℕ → World → Reply Vulnerability
unfolding insert_error commit_and_publish tenths
create_vulnerability env d tenant w =
    let v = new_vulnerability env tenant d in
    elim (insert_error v w) [
      | some e ↦ (err e, w)
      | none ↦
          commit_and_publish env
            (vulnerability_created v.tenant_id v.id v.scan_id v.title v.severity v.cve_id
              v.created_at)
            v (set_vulnerabilities w (vulnerabilities_of w ++ v ∷ []))
    ]

unfoldable pub get_vulnerability : ℕ → Option ℕ → World → Option Vulnerability
unfolding shown_to
get_vulnerability vulnerability_id tenant w =
    first (λ v. v.id == vulnerability_id && shown_to tenant v) (vulnerabilities_of w)

abbrev pub from_scan : Option ℕ → Vulnerability → Bool
from_scan none v = true
from_scan (some scan) v = v.scan_id == scan

unfoldable pub list_vulnerabilities : Option ℕ → ℕ → ℕ → Option ℕ → World → List Vulnerability × ℕ
unfolding shown_to
list_vulnerabilities tenant limit offset scan w =
    page_of (λ v. v.created_at) (λ v. v.id) (λ v. shown_to tenant v && from_scan scan v) limit
      offset (vulnerabilities_of w)

-- `model_dump(exclude_unset=True)`: a key is absent, or has a value, which for the last three may be
-- None. The schema rejects a null status.
pub record VulnerabilityUpdate : Type 0 where
  pub status : Option FindingStatus
  pub description : Option (Option String)
  pub cvss_score : Option (Option Score)
  pub metadata : Option (Option Value)

abbrev pub text_eq : Option String → Option String → Bool
text_eq none none = true
text_eq (some a) (some b) = str_eq a b
text_eq _ _ = false

abbrev pub score_eq : Option ℕ → Option ℕ → Bool
score_eq none none = true
score_eq (some a) (some b) = a == b
score_eq _ _ = false

abbrev pub metadata_eq : Option Value → Option Value → Bool
metadata_eq none none = true
metadata_eq (some a) (some b) = value_eq a b
metadata_eq _ _ = false

-- One field of the patch: the value kept or taken, and the changed fields it adds.
abbrev pub take_field : {A : Type 0} → (A → A → Bool) → String → Option A → A → A × List String
take_field same name none old = (old, [])
take_field same name (some new) old = if same new old then (old, []) else (new, name ∷ [])

-- the close time that goes with a status taken over
unfoldable pub close_time : ℕ → FindingStatus → Vulnerability → Option ℕ
unfolding status_eq
close_time now new v =
    if status_eq new open_finding
    then none
    else if status_eq v.status open_finding
    then some now
    else v.closed_at

unfoldable pub take_status : ℕ → Option FindingStatus → Vulnerability → Vulnerability × List String
unfolding close_time
take_status now none v = (v, [])
take_status now (some new) v =
    if status_eq new v.status
    then (v, [])
    else (record v { status = new; closed_at = close_time now new v }, "status" ∷ [])

abbrev pub normalized : Option (Option Score) → Option (Option ℕ)
normalized none = none
normalized (some s) = some (tenths_of s)

-- the assigned row and `changed_fields`
unfoldable pub apply_update : ℕ → VulnerabilityUpdate → Vulnerability → Vulnerability × List String
unfolding take_status tenths
apply_update now p v =
    let (v, first_changed) = take_status now p.status v in
    let (description, second) = take_field text_eq "description" p.description v.description in
    let (score, third) = take_field score_eq "cvss_score" (normalized p.cvss_score) v.cvss_score in
    let (kept, fourth) = take_field metadata_eq "vulnerability_metadata" p.metadata v.metadata in
    (
      record v { description = description; cvss_score = score; metadata = kept },
      first_changed ++ second ++ third ++ fourth,
    )

unfoldable pub store_update :
    Env → Vulnerability → List String → World → Reply (Option Vulnerability)
unfolding commit_and_publish
store_update env v changed w =
    let w' =
      set_vulnerabilities w (update_where (λ q. q.id == v.id) (λ _. v) (vulnerabilities_of w)) in
    if is_empty changed
    then (if env.commit_goes
        then (ok (some v), committed w')
        else (err commit_failed, rolled_back w'))
    else commit_and_publish env (vulnerability_updated v.tenant_id v.id changed) (some v) w'

unfoldable pub update_vulnerability :
    Env → ℕ → Option ℕ → VulnerabilityUpdate → World → Reply (Option Vulnerability)
unfolding get_vulnerability apply_update store_update
update_vulnerability env vulnerability_id tenant p w =
    elim (get_vulnerability vulnerability_id tenant w) [
      | none ↦ (ok none, w)
      | some v ↦ let (v', changed) = apply_update env.now p v in store_update env v' changed w
    ]

unfoldable pub delete_vulnerability : Env → ℕ → Option ℕ → World → Reply Bool
unfolding get_vulnerability commit_and_publish
delete_vulnerability env vulnerability_id tenant w =
    elim (get_vulnerability vulnerability_id tenant w) [
      | none ↦ (ok false, w)
      | some v ↦
          commit_and_publish env (vulnerability_deleted v.tenant_id v.id) true
            (set_vulnerabilities w (delete_where (λ q. q.id == v.id) (vulnerabilities_of w)))
    ]
