-- ===== src/Scans/Authoring.antt =====
-- `create_scan` and `update_scan` of app/modules/scans/service.py, with the constraints of
-- app/modules/scans/models.py that fire at their flush.
pub mod Outcomes
use soc360_pymes.Prelude.{
  ℕ, String, Bool, true, false, not, ◌&&◌, ◌||◌, Option, none, some, List, [], ◌∷◌, ◌++◌,
  if◌then◌else◌, str_eq, ◌==◌, any, is_empty,
}
use soc360_pymes.Sql.{update_where}
use soc360_pymes.Outcome.{Result, ok, err}
use soc360_pymes.Events.{scan_created, scan_updated}
use soc360_pymes.Json.{Value, object, null, Fields, value_eq}
use soc360_pymes.Database.{Scan, World, Env, AssetKey, TenantQuota, scans_of, set_scans}
use soc360_pymes.Scans.Status.{pending, status_eq}
use soc360_pymes.Scans.Config.{ConfigError, unknown_scan_type, validate_scan_config}
use soc360_pymes.Scans.Service.{
  ServiceError, config_error, scan_duplicate, scan_asset_not_found, integrity_error, commit_failed,
  Reply, get_scan, publish, committed, rolled_back,
}

-- what the INSERT's integrity error names
pub data Violation : Type 0 where
  open_name asset_key other : Violation

-- the partial unique index `uq_scans_tenant_asset_name_pending`: two rows that it would both hold
unfoldable pub clashes : Scan → Scan → Bool
unfolding status_eq
clashes r q =
    status_eq r.status pending
    && status_eq q.status pending
    && r.tenant_id == q.tenant_id
    && r.asset_id == q.asset_id
    && str_eq r.name q.name

-- The index is read at the row's insertion; the foreign keys at the end of the statement.
unfoldable pub insert_violation : Scan → World → Option Violation
unfolding clashes
insert_violation r w =
    if any (clashes r) (scans_of w)
    then some open_name
    else if not (
        any (λ (a : AssetKey). a.id == r.asset_id && a.tenant_id == r.tenant_id)
          w.session.working.assets)
    then some asset_key
    else if not (any (λ (t : TenantQuota). t.id == r.tenant_id) w.session.working.tenants)
    then some other
    else none

pub record ScanCreate : Type 0 where
  pub asset_id : ℕ
  pub name : String
  pub scan_type : String
  pub config : Fields

abbrev pub new_scan : Env → ℕ → ScanCreate → Fields → Scan
new_scan env tenant d normalised = record {
  id = env.fresh_id;
  tenant_id = tenant;
  asset_id = d.asset_id;
  name = d.name;
  scan_type = d.scan_type;
  status = pending;
  config = some (object normalised);
  dispatched_at = none;
  started_at = none;
  completed_at = none;
  failure_reason = none;
  raw_output = none;
  created_at = env.now;
}

abbrev pub violation_error : Violation → ServiceError
violation_error open_name = scan_duplicate
violation_error asset_key = scan_asset_not_found
violation_error other = integrity_error

-- flush, commit, publish
unfoldable pub insert_scan : Env → Scan → World → Reply Scan
insert_scan env r w = elim (insert_violation r w) [
  | some v ↦ (err (violation_error v), w)
  | none ↦
      let w' = set_scans w (scans_of w ++ r ∷ []) in
      if env.commit_goes
      then publish env (scan_created r.tenant_id r.id r.asset_id r.name r.scan_type r.created_at) r
          (committed w')
      else (err commit_failed, rolled_back w')
]

unfoldable pub create_scan : Env → ScanCreate → ℕ → World → Reply Scan
create_scan env d tenant w = elim (validate_scan_config d.scan_type (object d.config)) [
  | err e ↦ (err (config_error e), w)
  | ok normalised ↦ insert_scan env (new_scan env tenant d normalised) w
]

-- A key of `model_dump(exclude_unset=True)`: not sent, sent as null, sent with a value.
pub data Sent (A : Type 0) : Type 0 where
  unset : Sent A
  null_sent : Sent A
  given : A → Sent A

pub record ScanPatch : Type 0 where
  pub name : Sent String
  pub scan_type : Sent String
  pub config : Sent Fields

-- `update_data.get(key, old)`; none is Python's None
abbrev pub candidate : {A : Type 0} → Sent A → Option A → Option A
candidate unset old = old
candidate null_sent old = none
candidate (given a) old = some a

abbrev pub as_json : Option Value → Value
as_json none = null
as_json (some v) = v

abbrev pub sent_value : Sent Fields → Sent Value
sent_value unset = unset
sent_value null_sent = null_sent
sent_value (given f) = given (object f)

-- Phase 1: the effective pair; a type of None is no known type
unfoldable pub effective_config : ScanPatch → Scan → Result ConfigError Fields
effective_config p r = elim (candidate p.scan_type (some r.scan_type)) [
  | none ↦ err (unknown_scan_type "None")
  | some t ↦ validate_scan_config t (as_json (candidate (sent_value p.config) r.config))
]

abbrev pub same_text : Option String → String → Bool
same_text none t = false
same_text (some s) t = str_eq s t

abbrev pub same_config : Fields → Option Value → Bool
same_config f none = false
same_config f (some v) = value_eq (object f) v

abbrev pub note : Bool → String → List String → List String
note same key rest = if same then rest else key ∷ rest

-- Phase 2: the changed fields, in their fixed order
unfoldable pub changed_fields : ScanPatch → Fields → Scan → List String
changed_fields p normalised r = note (same_text (candidate p.name (some r.name)) r.name) "name" (
    note (same_text (candidate p.scan_type (some r.scan_type)) r.scan_type) "type"
      (note (same_config normalised r.config) "config" []))

abbrev pub or_old : Option String → String → String
or_old none old = old
or_old (some s) old = s

-- the assigned row; a name of None is caught by NOT NULL before it is stored
unfoldable pub patched : ScanPatch → Fields → Scan → Scan
patched p normalised r = record r {
  name = or_old (candidate p.name (some r.name)) r.name;
  scan_type = or_old (candidate p.scan_type (some r.scan_type)) r.scan_type;
  config = if same_config normalised r.config then r.config else some (object normalised);
}

abbrev pub is_null : {A : Type 0} → Sent A → Bool
is_null null_sent = true
is_null _ = false

-- what the UPDATE's flush runs into: NOT NULL on the name, then the index against the other rows
unfoldable pub update_violation : ScanPatch → Scan → World → Option Violation
unfolding clashes
update_violation p r w =
    if is_null p.name
    then some other
    else if any (λ q. not (q.id == r.id) && clashes r q) (scans_of w)
    then some open_name
    else none

unfoldable pub store_patch : Env → ScanPatch → Fields → Scan → World → Reply (Option Scan)
store_patch env p normalised scan w =
    let r = patched p normalised scan in
    let changed = changed_fields p normalised scan in
    elim (update_violation p r w) [
      | some v ↦ (err (violation_error v), w)
      | none ↦
          let w' =
            set_scans w (update_where (λ q. q.id == scan.id) (patched p normalised) (scans_of w)) in
          if env.commit_goes
          then (if is_empty changed
              then (ok (some r), committed w')
              else publish env (scan_updated r.tenant_id r.id changed) (some r) (committed w'))
          else (err commit_failed, rolled_back w')
    ]

unfoldable pub update_scan : Env → ℕ → Option ℕ → ScanPatch → World → Reply (Option Scan)
update_scan env scan_id tenant p w = elim (get_scan scan_id tenant w) [
  | none ↦ (ok none, w)
  | some scan ↦ elim (effective_config p scan) [
    | err e ↦ (err (config_error e), w)
    | ok normalised ↦ store_patch env p normalised scan w
  ]
]
