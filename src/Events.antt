-- ===== src/Events.antt =====
-- The domain events of app/event_schemas.py that the services publish, without the random event id,
-- the score and the status of a new vulnerability, which the services read off the row.
use soc360_pymes.Prelude.{ℕ, String, List, Option}

pub data Event : Type 0 where
  -- tenant, asset, type, value, creation time
  asset_created : ℕ → ℕ → String → List ℕ → ℕ → Event
  -- tenant, asset, changed fields
  asset_updated : ℕ → ℕ → List String → Event
  -- tenant, asset
  asset_deleted : ℕ → ℕ → Event
  -- tenant, scan, asset, name, type, creation time
  scan_created : ℕ → ℕ → ℕ → String → String → ℕ → Event
  -- tenant, scan, changed fields
  scan_updated : ℕ → ℕ → List String → Event
  -- tenant, scan
  scan_deleted : ℕ → ℕ → Event
  -- tenant, vulnerability, scan, title, severity, CVE id, creation time
  vulnerability_created : ℕ → ℕ → ℕ → String → String → Option String → ℕ → Event
  -- tenant, vulnerability, changed fields
  vulnerability_updated : ℕ → ℕ → List String → Event
  -- tenant, vulnerability
  vulnerability_deleted : ℕ → ℕ → Event
