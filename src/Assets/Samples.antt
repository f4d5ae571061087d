-- ===== src/Assets/Samples.antt =====
-- Assets of two tenants with a scan and a finding, and the theorems of the assets at them.
use soc360_pymes.Prelude.{ℕ, ◌≡◌, refl, true, false, none, some, List, [], ◌∷◌, arith}
use soc360_pymes.Outcome.{err}
use soc360_pymes.Text.{codes}
use soc360_pymes.Scans.Status.{pending}
use soc360_pymes.Database.{
  Scan, Vulnerability, open_finding, AssetKey, Db, World, Env, committed_assets,
}
use soc360_pymes.Assets.Values.{Text, Libraries, validate_asset_value}
use soc360_pymes.Assets.Service.{
  AssetUpdate, asset_duplicate, create_asset, update_asset, delete_asset,
}
use soc360_pymes.Assets.Distinct.{Same}
use soc360_pymes.Assets.Stored.{
  Rows, BothRows, Request, create, update, delete, calls, calls-BothRows,
}
use soc360_pymes.Assets.Cascade.{calls-BothLinked}
use soc360_pymes.Assets.Links.{Linked, BothLinked}

-- Every text is an address and no text is a URL.
abbrev lenient : Libraries
lenient = record {
  Address = Text;
  Network = Text;
  ip_address = λ t. some t;
  str_address = λ t. t;
  is_global = λ t. true;
  is_loopback = λ t. false;
  is_link_local = λ t. false;
  is_multicast = λ t. false;
  is_unspecified = λ t. false;
  is_reserved = λ t. false;
  ip_network = λ t. some t;
  str_network = λ t. t;
  is_global_network = λ t. true;
  num_addresses = λ t. 1;
  network_address = λ t. t;
  broadcast_address = λ t. t;
  contains = λ n a. false;
  version = λ t. 4;
  http_url = λ t. none;
  hostname = λ t. none;
}

abbrev site : AssetKey
site = record {
  id = 7;
  tenant_id = 1;
  asset_type = "domain";
  value = codes "example.com";
  created_at = 10;
}

abbrev host : AssetKey
host = record site { id = 8; tenant_id = 2 }

abbrev scan : Scan
scan = record {
  id = 20;
  tenant_id = 1;
  asset_id = 7;
  name = "weekly";
  scan_type = "port_scan";
  status = pending;
  config = none;
  dispatched_at = none;
  started_at = none;
  completed_at = none;
  failure_reason = none;
  raw_output = none;
  created_at = 20;
}

abbrev finding : Vulnerability
finding = record {
  id = 30;
  tenant_id = 1;
  scan_id = 20;
  title = "open port";
  description = none;
  severity = "low";
  status = open_finding;
  closed_at = none;
  cve_id = none;
  cvss_score = none;
  metadata = none;
  created_at = 30;
}

abbrev db : Db
db = record {
  tenants = record { id = 1; scans_per_day = 5 } ∷ record { id = 2; scans_per_day = 5 } ∷ [];
  assets = site ∷ host ∷ [];
  scans = scan ∷ [];
  vulnerabilities = finding ∷ [];
}

abbrev world : World
world = record { session = record { committed = db; working = db }; events = [] }

abbrev env : ℕ → Env
env id = record { now = 100; fresh_id = id; commit_goes = true; publish_goes = true }

abbrev patch : Text → AssetUpdate
patch v = record { asset_type = none; value = some (some v) }

duplicate_test :
    (create_asset lenient (env 9) "domain" (codes " Example.COM. ") 1 world).0 ≡ err asset_duplicate
unfolding create_asset
duplicate_test = refl

renamed_test :
    committed_assets
      (update_asset lenient (env 9) 7 (some 1) (patch (codes "a.example.com")) world).1
    ≡ record site { value = codes "a.example.com" } ∷ host ∷ []
unfolding update_asset
renamed_test = refl

cascade_test : (delete_asset (env 9) 7 (some 1) world).1.session.committed.vulnerabilities ≡ []
unfolding delete_asset
cascade_test = refl

abbrev work : List (Env × Request)
work =
    (env 9, create "ip" (codes "192.0.2.1") 1)
    ∷ (env 10, update 7 (some 1) (patch (codes "a.example.com")))
    ∷ (env 11, delete 7 (some 1))
    ∷ []

site-Apart : Same site host → ⊥
site-Apart (t, _, _) = omega (arith, t)

db-Rows : Rows lenient db.assets
unfolding validate_asset_value
db-Rows = (
  ((omega arith, (codes "example.com", refl)), ((omega arith, (codes "example.com", refl)), tt)),
  (((refl, site-Apart), tt), (tt, tt)),
)

calls-BothRows_example : BothRows lenient (calls lenient work world)
calls-BothRows_example = calls-BothRows lenient work world (db-Rows, db-Rows)

db-Linked : Linked db
db-Linked = ((refl, tt), (refl, tt))

calls-BothLinked_example : BothLinked (calls lenient work world)
calls-BothLinked_example =
    calls-BothLinked lenient work world (db-Rows, db-Rows) (db-Linked, db-Linked)
