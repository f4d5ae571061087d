-- ===== src/Lock.antt =====
-- app/core/dist_lock.py: one lock key in Redis, with its expiry, and the processes that compete for it.
-- `build_lock_key` only names the key. A command takes effect or raises.
pub mod Held
mod Samples
use soc360_pymes.Prelude.{
  ℕ, ◌+◌, Bool, true, false, not, ◌&&◌, ◌||◌, Option, none, some, if◌then◌else◌, ltb, ◌==◌, is_some,
}
use soc360_pymes.Outcome.{Result, ok, err}

pub record Lease : Type 0 where
  pub token : ℕ
  pub expires : ℕ

-- the key's value, and of each process the token it has in `_ACTIVE_TOKENS` under the key
pub record LockWorld : Type 0 where
  pub lease : Option Lease
  pub active : ℕ → Option ℕ

pub data LockError : Type 0 where
  bad_ttl redis_outage lock_reentry lock_timeout : LockError

-- `GET`: an expired key is gone
unfoldable pub holder : Option Lease → ℕ → Option ℕ
holder none now = none
holder (some l) now = if ltb now l.expires then some l.token else none

abbrev pub set_active : LockWorld → ℕ → Option ℕ → LockWorld
set_active w process value = record w {
  active = λ p. let old = w.active p in if p == process then value else old;
}

abbrev pub set_lease : LockWorld → Option Lease → LockWorld
set_lease w lease = record w { lease = lease }

abbrev pub leased : ℕ → ℕ → ℕ → Option Lease
leased token ttl now = some (record { token = token; expires = now + ttl })

-- `SET key token NX PX`
unfoldable pub set_lock : ℕ → ℕ → ℕ → Option Lease → Bool × Option Lease
unfolding holder
set_lock token ttl now lease =
    if is_some (holder lease now) then (false, lease) else (true, leased token ttl now)

abbrev pub is_mine : ℕ → Option ℕ → Bool
is_mine token none = false
is_mine token (some t) = t == token

-- `RENEW_LUA` and `RELEASE_LUA`: nothing happens unless the key holds the caller's token
unfoldable pub renew_script : ℕ → ℕ → ℕ → Option Lease → Bool × Option Lease
unfolding holder
renew_script token ttl now lease =
    if is_mine token (holder lease now) then (true, leased token ttl now) else (false, lease)

unfoldable pub release_script : ℕ → ℕ → Option Lease → Bool × Option Lease
unfolding holder
release_script token now lease =
    if is_mine token (holder lease now) then (true, none) else (false, lease)

pub record LockHandle : Type 0 where
  pub process : ℕ
  pub token : ℕ
  pub ttl_seconds : ℕ
  pub lost : Bool
  pub released : Bool

abbrev pub new_handle : ℕ → ℕ → ℕ → LockHandle
new_handle process token ttl = record {
  process = process;
  token = token;
  ttl_seconds = ttl;
  lost = false;
  released = false;
}

-- after the first SET of `acquire_dist_lock`: a handle, or the caller waits for the retry
unfoldable pub first_set :
    ℕ → ℕ → ℕ → Bool × Option Lease → LockWorld → Result LockError (Option LockHandle) × LockWorld
first_set process token ttl (true, lease) w =
    (ok (some (new_handle process token ttl)), set_active (set_lease w lease) process (some token))
first_set process token ttl (false, lease) w =
    if is_some (w.active process) then (err lock_reentry, w) else (ok none, w)

unfoldable pub acquire :
    Bool → ℕ → ℕ → ℕ → ℕ → LockWorld → Result LockError (Option LockHandle) × LockWorld
unfolding set_lock first_set
acquire goes process token ttl now w =
    if ltb ttl 1
    then (err bad_ttl, w)
    else if goes
    then first_set process token ttl (set_lock token ttl now w.lease) w
    else (err redis_outage, w)

unfoldable pub second_set :
    Bool → ℕ → ℕ → ℕ → Bool × Option Lease → LockWorld → Result LockError LockHandle × LockWorld
second_set in_time process token ttl (won, lease) w =
    if in_time && won
    then (ok (new_handle process token ttl), set_active (set_lease w lease) process (some token))
    else (err lock_timeout, set_lease w lease)

-- The retry after the jitter. Where the wait ends first, the cancelled SET may have reached Redis all the
-- same: `goes` says whether it did, `in_time` whether its answer was there in time.
unfoldable pub retry :
    Bool → Bool → ℕ → ℕ → ℕ → ℕ → LockWorld → Result LockError LockHandle × LockWorld
unfolding set_lock second_set
retry goes in_time process token ttl now w =
    if goes
    then second_set in_time process token ttl (set_lock token ttl now w.lease) w
    else (err (if in_time then redis_outage else lock_timeout), w)

-- `_mark_lost`
unfoldable pub mark_lost : LockHandle → LockWorld → LockWorld
mark_lost h w = if is_mine h.token (w.active h.process) then set_active w h.process none else w

unfoldable pub renewed :
    LockHandle
    → ℕ
    → Bool × Option Lease
    → LockWorld
    → (Result LockError Bool × LockHandle) × LockWorld
unfolding mark_lost
renewed h ttl (true, lease) w = ((ok true, record h { ttl_seconds = ttl }), set_lease w lease)
renewed h ttl (false, lease) w = ((ok false, record h { lost = true }), mark_lost h w)

-- `renew`, with the time to live given or the handle's
unfoldable pub renew :
    Bool → ℕ → ℕ → LockHandle → LockWorld → (Result LockError Bool × LockHandle) × LockWorld
unfolding renew_script renewed
renew goes ttl now h w =
    if h.lost || h.released
    then ((ok false, h), w)
    else if ltb ttl 1
    then ((err bad_ttl, h), w)
    else if goes
    then renewed h ttl (renew_script h.token ttl now w.lease) w
    else ((err redis_outage, h), w)

unfoldable pub finish_release :
    LockHandle → Bool × Option Lease → LockWorld → (Result LockError Bool × LockHandle) × LockWorld
unfolding mark_lost
finish_release h (true, lease) w =
    ((ok true, record h { released = true }), set_active (set_lease w lease) h.process none)
finish_release h (false, lease) w =
    ((ok false, record h { released = true; lost = true }), mark_lost h w)

unfoldable pub release :
    Bool → ℕ → LockHandle → LockWorld → (Result LockError Bool × LockHandle) × LockWorld
unfolding release_script finish_release
release goes now h w =
    if h.released
    then ((ok false, h), w)
    else if h.lost
    then ((ok false, record h { released = true }), w)
    else if goes
    then finish_release h (release_script h.token now w.lease) w
    else ((err redis_outage, h), w)
