-- ===== src/Scans/Status.antt =====
-- The transition map of app/modules/scans/state.py.
use soc360_pymes.Prelude.{
  String, Bool, true, false, Option, none, some, List, [], ◌∷◌, if◌then◌else◌, str_eq, any,
}
use soc360_pymes.Sql.{select}

-- the values that `chk_scans_status` lets into the column
pub data ScanStatus : Type 0 where
  pending running completed failed cancelled : ScanStatus

unfoldable pub status_eq : ScanStatus → ScanStatus → Bool
status_eq pending pending = true
status_eq running running = true
status_eq completed completed = true
status_eq failed failed = true
status_eq cancelled cancelled = true
status_eq _ _ = false

abbrev pub all_statuses : List ScanStatus
all_statuses = pending ∷ running ∷ completed ∷ failed ∷ cancelled ∷ []

-- a caller's text, if it is a key of the map
unfoldable pub parse_status : String → Option ScanStatus
parse_status text =
    if str_eq text "pending"
    then some pending
    else if str_eq text "running"
    then some running
    else if str_eq text "completed"
    then some completed
    else if str_eq text "failed"
    then some failed
    else if str_eq text "cancelled"
    then some cancelled
    else none

unfoldable pub scan_transitions : ScanStatus → List ScanStatus
scan_transitions pending = running ∷ cancelled ∷ failed ∷ []
scan_transitions running = completed ∷ failed ∷ cancelled ∷ []
scan_transitions _ = []

unfoldable pub is_in : ScanStatus → List ScanStatus → Bool
unfolding status_eq
is_in s l = any (status_eq s) l

unfoldable pub terminal_statuses : List ScanStatus
terminal_statuses = completed ∷ failed ∷ cancelled ∷ []

-- the reverse index, computed from the map as the comprehension does
unfoldable pub allowed_from : ScanStatus → List ScanStatus
unfolding is_in scan_transitions
allowed_from target = select (λ source. is_in target (scan_transitions source)) all_statuses
