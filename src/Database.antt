-- ===== src/Database.antt =====
-- The rows of the domain tables (app/modules/*/models.py) that the services read and write, and the
-- session over them: what is committed, and what the open transaction sees.
-- `updated_at` is left out: it is written by every UPDATE and read by no service.
use soc360_pymes.Prelude.{ℕ, String, Option, List, Bool}
use soc360_pymes.Events.{Event}
use soc360_pymes.Json.{Value}
use soc360_pymes.Scans.Status.{ScanStatus}

pub record TenantQuota : Type 0 where
  pub id : ℕ
  pub scans_per_day : ℕ

pub record AssetKey : Type 0 where
  pub id : ℕ
  pub tenant_id : ℕ
  pub asset_type : String
  pub value : List ℕ
  pub created_at : ℕ

pub record Scan : Type 0 where
  pub id : ℕ
  pub tenant_id : ℕ
  pub asset_id : ℕ
  pub name : String
  pub scan_type : String
  pub status : ScanStatus
  pub config : Option Value
  pub dispatched_at : Option ℕ
  pub started_at : Option ℕ
  pub completed_at : Option ℕ
  pub failure_reason : Option String
  pub raw_output : Option String
  pub created_at : ℕ

-- the values that `chk_vulnerabilities_status` lets into the column
pub data FindingStatus : Type 0 where
  open_finding fixed accepted_risk false_positive : FindingStatus

-- Scores are in tenths, as `Numeric(4, 1)` holds them.
pub record Vulnerability : Type 0 where
  pub id : ℕ
  pub tenant_id : ℕ
  pub scan_id : ℕ
  pub title : String
  pub description : Option String
  pub severity : String
  pub status : FindingStatus
  pub closed_at : Option ℕ
  pub cve_id : Option String
  pub cvss_score : Option ℕ
  pub metadata : Option Value
  pub created_at : ℕ

pub record Db : Type 0 where
  pub tenants : List TenantQuota
  pub assets : List AssetKey
  pub scans : List Scan
  pub vulnerabilities : List Vulnerability

pub record Session : Type 0 where
  pub committed : Db
  pub working : Db

abbrev pub commit : Session → Session
commit s = record s { committed = s.working }

abbrev pub rollback : Session → Session
rollback s = record s { working = s.committed }

abbrev pub with_scans : Session → List Scan → Session
with_scans s rows = record s { working = record s.working { scans = rows } }

-- A session and the event stream beside it, which no rollback takes back.
pub record World : Type 0 where
  pub session : Session
  pub events : List Event

-- What the services do not decide: the clock, the id that the database or `uuid4` gives, and
-- whether the commit and the XADD of this call go through.
pub record Env : Type 0 where
  pub now : ℕ
  pub fresh_id : ℕ
  pub commit_goes : Bool
  pub publish_goes : Bool

abbrev pub scans_of : World → List Scan
scans_of w = w.session.working.scans

abbrev pub set_scans : World → List Scan → World
set_scans w rows = record w { session = with_scans w.session rows }

abbrev pub committed_scans : World → List Scan
committed_scans w = w.session.committed.scans

abbrev pub vulnerabilities_of : World → List Vulnerability
vulnerabilities_of w = w.session.working.vulnerabilities

abbrev pub set_vulnerabilities : World → List Vulnerability → World
set_vulnerabilities w rows = record w {
  session = record w.session { working = record w.session.working { vulnerabilities = rows } };
}

abbrev pub committed_vulnerabilities : World → List Vulnerability
committed_vulnerabilities w = w.session.committed.vulnerabilities

abbrev pub assets_of : World → List AssetKey
assets_of w = w.session.working.assets

abbrev pub set_working : World → Db → World
set_working w db = record w { session = record w.session { working = db } }

abbrev pub set_assets : World → List AssetKey → World
set_assets w rows = set_working w record w.session.working { assets = rows }

abbrev pub committed_assets : World → List AssetKey
committed_assets w = w.session.committed.assets
