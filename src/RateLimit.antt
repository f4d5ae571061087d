-- ===== src/RateLimit.antt =====
-- app/core/rate_limit.py: the lockout of a pair of an address and an email. The Redis hashes under the two
-- key prefixes are functions of the address and of the hashed email; a missing hash counts as no
-- failures and no lock. Times are whole seconds, and no hash expires between the calls.
pub mod Escalation
pub mod Lockout
mod Samples
use soc360_pymes.Prelude.{
  ℕ, ◌+◌, ◌-◌, ◌*◌, max, Bool, true, false, Option, none, some, List, [], ◌∷◌, if◌then◌else◌, ltb,
  ◌==◌,
}

-- `_LOCKOUT_TABLE`
abbrev pub lockout_table : List (ℕ × ℕ)
lockout_table =
    (5, 3 * 60) ∷ (10, 15 * 60) ∷ (15, 60 * 60) ∷ (20, 4 * 60 * 60) ∷ (25, 24 * 60 * 60) ∷ []

-- the loop, with `result` so far; the first threshold that is not exceeded ends it
unfoldable pub escalate : ℕ → ℕ → List (ℕ × ℕ) → ℕ
escalate failures result [] = result
escalate failures result ((threshold, seconds) ∷ rows) =
    let rest = escalate failures seconds rows in if ltb threshold failures then rest else result

-- `_get_lockout_seconds`
unfoldable pub lockout_seconds : ℕ → ℕ
unfolding escalate
lockout_seconds failures = escalate failures 0 lockout_table

pub record Entry : Type 0 where
  pub failures : ℕ
  pub locked_until : ℕ

pub record Limits : Type 0 where
  pub by_ip : ℕ → Entry
  pub by_email : ℕ → Entry

pub record LockoutStatus : Type 0 where
  pub is_locked : Bool
  pub retry_after : Option ℕ
  pub failures : ℕ

abbrev pub locked_status : ℕ → Entry → LockoutStatus
locked_status now e = record {
  is_locked = true;
  retry_after = some (e.locked_until - now);
  failures = e.failures;
}

-- `check`: the address first
unfoldable pub check : ℕ → ℕ → ℕ → Limits → LockoutStatus
check now ip email l =
    if ltb now (l.by_ip ip).locked_until
    then locked_status now (l.by_ip ip)
    else if ltb now (l.by_email email).locked_until
    then locked_status now (l.by_email email)
    else record {
      is_locked = false;
      retry_after = none;
      failures = max (l.by_ip ip).failures (l.by_email email).failures;
    }

-- one key of `record_failure`: HINCRBY, and the new end where there is a lockout
unfoldable pub count_failure : ℕ → Entry → Entry
count_failure now e =
    let failures = e.failures + 1 in
    let seconds = lockout_seconds failures in
    if ltb 0 seconds
    then record { failures = failures; locked_until = max now e.locked_until + seconds }
    else record e { failures = failures }

abbrev pub set_entry : (ℕ → Entry) → ℕ → Entry → ℕ → Entry
set_entry f key e k = if k == key then e else f k

unfoldable pub record_failure : ℕ → ℕ → ℕ → Limits → LockoutStatus × Limits
record_failure now ip email l =
    let after : Limits = record {
      by_ip = set_entry l.by_ip ip (count_failure now (l.by_ip ip));
      by_email = set_entry l.by_email email (count_failure now (l.by_email email));
    } in
    (check now ip email after, after)

-- `record_success`: both hashes are deleted
unfoldable pub record_success : ℕ → ℕ → Limits → Limits
record_success ip email l = record {
  by_ip = set_entry l.by_ip ip (record { failures = 0; locked_until = 0 });
  by_email = set_entry l.by_email email (record { failures = 0; locked_until = 0 });
}
