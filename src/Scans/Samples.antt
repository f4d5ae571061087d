-- ===== src/Scans/Samples.antt =====
-- Concrete sessions of the scan service, and its theorems at them.
use soc360_pymes.Prelude.{
  ℕ, ◌≡◌, ◌≢◌, refl, true, false, ◌&&◌, Option, none, some, List, [], ◌∷◌, arith, All, Pointwise,
}
use soc360_pymes.Outcome.{ok}
use soc360_pymes.Text.{codes}
use soc360_pymes.Database.{Scan, Db, Session}
use soc360_pymes.Scans.Status.{pending, is_in, status_eq, terminal_statuses}
use soc360_pymes.Scans.State.{
  transition_scan, claim_next_scan, reap_stale_scans, move_scan, check_transition, is_ready, before,
  start_run, cancel_scan,
}
use soc360_pymes.Scans.State.Reap.{Reaped, reap_stale_scans-exact}
use soc360_pymes.Scans.State.Outcomes.{scan_by_id, UniqueIds}
use soc360_pymes.Scans.State.Soundness.{IsSound}
use soc360_pymes.Scans.State.Lifecycle.{
  Op, claim, reap, transition, cancel, run_all, TerminalKept, run_all-IsSound, run_all-TerminalKept,
}
use soc360_pymes.Scans.State.Claim.{claim_next_scan-oldest, claimed_once}

abbrev pub row : ℕ → ℕ → Option ℕ → Scan
row id tenant dispatched = record {
  id = id;
  tenant_id = tenant;
  asset_id = 7;
  name = "weekly";
  scan_type = "discovery";
  status = pending;
  config = none;
  dispatched_at = dispatched;
  started_at = none;
  completed_at = none;
  failure_reason = none;
  raw_output = none;
  created_at = 10;
}

abbrev pub db : Db
db = record {
  tenants = record { id = 1; scans_per_day = 2 } ∷ [];
  assets =
      record { id = 7; tenant_id = 1; asset_type = "ip"; value = codes "192.0.2.1"; created_at = 1 }
      ∷ [];
  scans = row 3 1 (some 20) ∷ row 4 1 (some 15) ∷ row 5 1 none ∷ [];
  vulnerabilities = [];
}

abbrev pub session : Session
session = record { committed = db; working = db }

won_example_result : (transition_scan 4 "running" none none true 30 session).0 ≡ ok true
unfolding transition_scan check_transition move_scan
won_example_result = refl

pub unique : UniqueIds session.working.scans
unique = ground arith

row-IsSound : (id tenant : ℕ) (dispatched : Option ℕ) → IsSound (row id tenant dispatched)
unfolding is_in status_eq terminal_statuses
row-IsSound id tenant dispatched = ground arith

IsSound-rows : All IsSound session.working.scans
IsSound-rows = (row-IsSound 3 1 (some 20), (row-IsSound 4 1 (some 15), (row-IsSound 5 1 none, tt)))

lost_example_result : (transition_scan 5 "running" none none true 30 session).0 ≡ ok false
unfolding transition_scan check_transition move_scan
lost_example_result = refl

abbrev won : Session
won = (transition_scan 4 "running" none none true 30 session).1

abbrev busy : List Op
busy =
    claim (λ _. false) 30
    ∷ transition 4 "completed" none (some "<nmaprun/>") true 40
    ∷ cancel 4 50
    ∷ claim (λ _. false) 60
    ∷ reap 9000 100
    ∷ []

run_all-IsSound_example : All IsSound (run_all busy session).working.scans
run_all-IsSound_example = run_all-IsSound busy session IsSound-rows

run_all-TerminalKept_example :
    Pointwise TerminalKept session.working.scans (run_all busy session).working.scans
run_all-TerminalKept_example = run_all-TerminalKept busy session

claim_oldest_result : (claim_next_scan (λ _. false) 30 session).0 ≡ some (4, 1)
unfolding claim_next_scan
claim_oldest_result = refl

abbrev claimed : Session
claimed = (claim_next_scan (λ _. false) 30 session).1

claim_next_scan-oldest_example :
    (r : Scan) × (scan_by_id 4 session.working.scans ≡ some r)
    × (r.tenant_id ≡ 1)
    × (is_ready r && true ≡ true)
    × All (λ x. is_ready x && true ≡ true → before r x ≡ true) session.working.scans
    × (scan_by_id 4 claimed.working.scans ≡ some (start_run 30 r))
claim_next_scan-oldest_example =
    claim_next_scan-oldest (λ _. false) 30 session 4 1 unique claim_oldest_result

claim_again_result :
    (claim_next_scan (λ _. false) 70 (run_all (cancel 4 50 ∷ []) claimed)).0 ≡ some (3, 1)
unfolding claim_next_scan run_all cancel_scan transition_scan check_transition move_scan
claim_again_result = refl

claimed_once_example : ◌≢◌ {A = ℕ} 4 3
claimed_once_example =
    claimed_once (λ _. false) (λ _. false) 30 70 (cancel 4 50 ∷ []) session 4 1 3 1 unique
      claim_oldest_result claim_again_result

reap_stale_scans-exact_example :
    (n : ℕ) × ((reap_stale_scans 9000 100 claimed).0 ≡ ok n)
    × Pointwise
        (Reaped 9000 100)
        claimed.working.scans
        (reap_stale_scans 9000 100 claimed).1.working.scans
    × ((reap_stale_scans 9000 100 (reap_stale_scans 9000 100 claimed).1).0 ≡ ok 0)
reap_stale_scans-exact_example = reap_stale_scans-exact 9000 100 claimed (omega arith)
