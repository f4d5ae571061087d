-- ===== src/Scans/State/Edges.antt =====
-- The edges of the scan state machine, as the text of app/modules/scans/state.py lists them, and
-- the reverse index that the module computes from its map.
use soc360_pymes.Prelude.{◌≡◌, refl, true, false, arith}
use soc360_pymes.Scans.Status.{
  ScanStatus, status_eq, pending, running, completed, failed, cancelled, is_in, allowed_from,
  terminal_statuses,
}

pub data Edge : ScanStatus → ScanStatus → Type 0 where
  start : Edge pending running
  drop_pending : Edge pending cancelled
  fail_pending : Edge pending failed
  finish : Edge running completed
  fail_running : Edge running failed
  stop : Edge running cancelled

ruleset edges = (start, drop_pending, fail_pending, finish, fail_running, stop)

pub allowed_from→Edge : (s t : ScanStatus) → is_in s (allowed_from t) ≡ true → Edge s t
unfolding is_in allowed_from
allowed_from→Edge s t h = grind (arith, edges)

pub Edge→allowed_from : {s t : ScanStatus} → Edge s t → is_in s (allowed_from t) ≡ true
unfolding is_in allowed_from
Edge→allowed_from start = refl
Edge→allowed_from drop_pending = refl
Edge→allowed_from fail_pending = refl
Edge→allowed_from finish = refl
Edge→allowed_from fail_running = refl
Edge→allowed_from stop = refl

abbrev pub IsTerminal : ScanStatus → Type 0
IsTerminal s = is_in s terminal_statuses ≡ true

-- No edge leaves a terminal status.
pub Edge-source_open : {s t : ScanStatus} → Edge s t → is_in s terminal_statuses ≡ false
unfolding is_in terminal_statuses
Edge-source_open start = refl
Edge-source_open drop_pending = refl
Edge-source_open fail_pending = refl
Edge-source_open finish = refl
Edge-source_open fail_running = refl
Edge-source_open stop = refl

-- No edge comes back to `pending`.
pub Edge-target : {s t : ScanStatus} → Edge s t → status_eq t pending ≡ false
unfolding status_eq
Edge-target start = refl
Edge-target drop_pending = refl
Edge-target fail_pending = refl
Edge-target finish = refl
Edge-target fail_running = refl
Edge-target stop = refl
