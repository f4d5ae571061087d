-- ===== src/Lock/Held.antt =====
-- Mutual exclusion of the lock, app/core/dist_lock.py: a lease that is held is not taken, prolonged or
-- deleted by anyone but its owner before it expires.
use mathlib.Core.Option.{some-injective}
use soc360_pymes.Prelude.{
  ℕ, ◌+◌, ◌<◌, ◌≡◌, refl, ap, sym, ◌∙◌, Bool, true, false, ◌||◌, Option, none, some, List, [], ◌∷◌,
  arith, All, ltb, ◌==◌, is_some, Bool-cases, Option-cases, inl, inr,
}
use soc360_pymes.Outcome.{ok, err_not_ok, ok-injective}
use soc360_pymes.Lock.{
  Lease, LockWorld, LockHandle, holder, set_lock, renew_script, release_script, first_set, leased,
  acquire, second_set, retry, mark_lost, renewed, renew, finish_release, release, bad_ttl,
  lock_reentry, redis_outage, lock_timeout, new_handle,
}

-- One step of one process.
pub data LockStep : Type 0 where
  take : Bool → ℕ → ℕ → ℕ → ℕ → LockStep
  take_again : Bool → Bool → ℕ → ℕ → ℕ → ℕ → LockStep
  prolong : Bool → ℕ → ℕ → LockHandle → LockStep
  give_back : Bool → ℕ → LockHandle → LockStep

abbrev pub run_step : LockStep → LockWorld → LockWorld
run_step (take goes process token ttl now) w = (acquire goes process token ttl now w).1
run_step (take_again goes in_time process token ttl now) w =
    (retry goes in_time process token ttl now w).1
run_step (prolong goes ttl now h) w = (renew goes ttl now h w).1
run_step (give_back goes now h) w = (release goes now h w).1

abbrev pub run_steps : List LockStep → LockWorld → LockWorld
run_steps [] w = w
run_steps (s ∷ steps) w = run_steps steps (run_step s w)

-- the token that a step acts for, and when
abbrev pub token_of : LockStep → ℕ
token_of (take goes process token ttl now) = token
token_of (take_again goes in_time process token ttl now) = token
token_of (prolong goes ttl now h) = h.token
token_of (give_back goes now h) = h.token

abbrev pub time_of : LockStep → ℕ
time_of (take goes process token ttl now) = now
time_of (take_again goes in_time process token ttl now) = now
time_of (prolong goes ttl now h) = now
time_of (give_back goes now h) = now

module _ (l : Lease) where
  live : (now : ℕ) → now < l.expires → holder (some l) now ≡ some l.token
  unfolding holder
  live now h = ground (arith, h)

  set_lock-live :
      (token ttl now : ℕ) → now < l.expires → set_lock token ttl now (some l) ≡ (false, some l)
  unfolding set_lock
  set_lock-live token ttl now h = rw (set_lock, live now h) refl

  renew_script-live :
      (token ttl now : ℕ)
      → now < l.expires
      → (l.token == token) ≡ false
      → renew_script token ttl now (some l) ≡ (false, some l)
  unfolding renew_script
  renew_script-live token ttl now h other = rw (renew_script, live now h, other) refl

  release_script-live :
      (token now : ℕ)
      → now < l.expires
      → (l.token == token) ≡ false
      → release_script token now (some l) ≡ (false, some l)
  unfolding release_script
  release_script-live token now h other = rw (release_script, live now h, other) refl

  mark_lost-lease : (h : LockHandle) (w : LockWorld) → (mark_lost h w).lease ≡ w.lease
  unfolding mark_lost
  mark_lost-lease h w = ground arith

  module _ (w : LockWorld) (e : w.lease ≡ some l) where
    first_set-kept :
        (process token ttl : ℕ) (x : Bool × Option Lease)
        → x ≡ (false, some l)
        → (first_set process token ttl x w).1.lease ≡ some l
    unfolding first_set
    first_set-kept process token ttl x h = rw h (ground (arith, e))

    second_set-kept :
        (in_time : Bool) (process token ttl : ℕ) (x : Bool × Option Lease)
        → x ≡ (false, some l)
        → (second_set in_time process token ttl x w).1.lease ≡ some l
    unfolding second_set
    second_set-kept in_time process token ttl x h = rw h (ground (arith, e))

    renewed-kept :
        (h : LockHandle) (ttl : ℕ) (x : Bool × Option Lease)
        → x ≡ (false, some l)
        → (renewed h ttl x w).1.lease ≡ some l
    unfolding renewed
    renewed-kept h ttl x g = rw g (mark_lost-lease h w ∙ e)

    finish_release-kept :
        (h : LockHandle) (x : Bool × Option Lease)
        → x ≡ (false, some l)
        → (finish_release h x w).1.lease ≡ some l
    unfolding finish_release
    finish_release-kept h x g = rw g (mark_lost-lease h w ∙ e)

    acquire-kept :
        (goes : Bool) (process token ttl now : ℕ)
        → now < l.expires
        → (acquire goes process token ttl now w).1.lease ≡ some l
    unfolding acquire
    acquire-kept goes process token ttl now h = elim (Bool-cases (ltb ttl 1)) [
      | inl a ↦ rw a e
      | inr a ↦ elim (Bool-cases goes) [
        | inr g ↦ rw (a, g) e
        | inl g ↦
            rw (a, g)
              (first_set-kept process token ttl (set_lock token ttl now w.lease)
                (ap (set_lock token ttl now) e ∙ set_lock-live token ttl now h))
      ]
    ]

    retry-kept :
        (goes in_time : Bool) (process token ttl now : ℕ)
        → now < l.expires
        → (retry goes in_time process token ttl now w).1.lease ≡ some l
    unfolding retry
    retry-kept true in_time process token ttl now h =
        second_set-kept in_time process token ttl (set_lock token ttl now w.lease)
          (ap (set_lock token ttl now) e ∙ set_lock-live token ttl now h)
    retry-kept false in_time process token ttl now h = e

    renew-kept :
        (goes : Bool) (ttl now : ℕ) (h : LockHandle)
        → now < l.expires
        → (l.token == h.token) ≡ false
        → (renew goes ttl now h w).1.lease ≡ some l
    unfolding renew
    renew-kept goes ttl now h early other = elim (Bool-cases (h.lost || h.released)) [
      | inl a ↦ rw a e
      | inr a ↦ elim (Bool-cases (ltb ttl 1)) [
        | inl b ↦ rw (a, b) e
        | inr b ↦ elim (Bool-cases goes) [
          | inr g ↦ rw (a, b, g) e
          | inl g ↦
              rw (a, b, g)
                (renewed-kept h ttl (renew_script h.token ttl now w.lease) (
                  ap (renew_script h.token ttl now) e
                  ∙ renew_script-live h.token ttl now early other))
        ]
      ]
    ]

    release-kept :
        (goes : Bool) (now : ℕ) (h : LockHandle)
        → now < l.expires
        → (l.token == h.token) ≡ false
        → (release goes now h w).1.lease ≡ some l
    unfolding release
    release-kept goes now h early other = elim (Bool-cases h.released) [
      | inl a ↦ simp a e
      | inr a ↦ elim (Bool-cases h.lost) [
        | inl b ↦ simp (a, b) e
        | inr b ↦ elim (Bool-cases goes) [
          | inr g ↦ simp (a, b, g) e
          | inl g ↦
              simp (a, b, g)
                (finish_release-kept h (release_script h.token now w.lease)
                  (ap (release_script h.token now) e ∙ release_script-live h.token now early other))
        ]
      ]
    ]

    step_kept :
        (s : LockStep)
        → time_of s < l.expires
        → (l.token == token_of s) ≡ false
        → (run_step s w).lease ≡ some l
    step_kept (take goes process token ttl now) early other =
        acquire-kept goes process token ttl now early
    step_kept (take_again goes in_time process token ttl now) early other =
        retry-kept goes in_time process token ttl now early
    step_kept (prolong goes ttl now h) early other = renew-kept goes ttl now h early other
    step_kept (give_back goes now h) early other = release-kept goes now h early other

  steps_kept :
      (steps : List LockStep) (w : LockWorld)
      → w.lease ≡ some l
      → All (λ s. (time_of s < l.expires) × ((l.token == token_of s) ≡ false)) steps
      → (run_steps steps w).lease ≡ some l
  steps_kept [] w e h = e
  steps_kept (s ∷ steps) w e h = steps_kept steps (run_step s w) (step_kept w e s h.0.0 h.0.1) h.1

no_win :
    (process token ttl : ℕ) (lease : Option Lease) (w : LockWorld) (h : LockHandle)
    → (first_set process token ttl (false, lease) w).0 ≡ ok (some h)
    → ⊥
unfolding first_set
no_win process token ttl lease w h e = elim (Bool-cases (is_some (w.active process))) [
  | inl a ↦ err_not_ok lock_reentry (some h) (rw a at e)
  | inr a ↦ cc (ok-injective none (some h) (rw a at e))
]

won_token :
    (process token ttl : ℕ) (lease : Option Lease) (w : LockWorld) (h : LockHandle)
    → (first_set process token ttl (true, lease) w).0 ≡ ok (some h)
    → h.token ≡ token
unfolding first_set
won_token process token ttl lease w h e = sym (
    ap (λ (x : LockHandle). x.token)
      (some-injective (new_handle process token ttl) h
        (ok-injective (some (new_handle process token ttl)) (some h) e)))

won_lease :
    (process token ttl now : ℕ) (w : LockWorld) (h : LockHandle)
    → (acquire true process token ttl now w).0 ≡ ok (some h)
    → ((acquire true process token ttl now w).1.lease
        ≡ some (record { token = token; expires = now + ttl }))
      × (holder w.lease now ≡ none)
      × (h.token ≡ token)
unfolding acquire set_lock first_set
won_lease process token ttl now w h e = elim (Bool-cases (ltb ttl 1)) [
  | inl a ↦ absurd (err_not_ok bad_ttl (some h) (rw a at e))
  | inr a ↦ elim (Option-cases (holder w.lease now)) [
    | inl free ↦
        rw (a, free)
          (refl, refl, won_token process token ttl (leased token ttl now) w h (rw (a, free) at e))
    | inr (k, held) ↦ absurd (no_win process token ttl w.lease w h (rw (a, held) at e))
  ]
]

second_lost :
    (in_time : Bool) (process token ttl : ℕ) (lease : Option Lease) (w : LockWorld) (h : LockHandle)
    → (second_set in_time process token ttl (false, lease) w).0 ≡ ok h
    → ⊥
unfolding second_set
second_lost true process token ttl lease w h e = err_not_ok lock_timeout h e
second_lost false process token ttl lease w h e = err_not_ok lock_timeout h e

second_token :
    (in_time : Bool) (process token ttl : ℕ) (lease : Option Lease) (w : LockWorld) (h : LockHandle)
    → (second_set in_time process token ttl (true, lease) w).0 ≡ ok h
    → ((second_set in_time process token ttl (true, lease) w).1.lease ≡ lease) × (h.token ≡ token)
unfolding second_set
second_token true process token ttl lease w h e =
    (refl, sym (ap (λ (x : LockHandle). x.token) (ok-injective (new_handle process token ttl) h e)))
second_token false process token ttl lease w h e = absurd (err_not_ok lock_timeout h e)

-- the retry that yields a handle won the key, and in time
second_lease :
    (goes in_time : Bool) (process token ttl now : ℕ) (w : LockWorld) (h : LockHandle)
    → (retry goes in_time process token ttl now w).0 ≡ ok h
    → ((retry goes in_time process token ttl now w).1.lease
        ≡ some (record { token = token; expires = now + ttl }))
      × (holder w.lease now ≡ none)
      × (h.token ≡ token)
unfolding retry set_lock second_set
second_lease false true process token ttl now w h e = absurd (err_not_ok redis_outage h e)
second_lease false false process token ttl now w h e = absurd (err_not_ok lock_timeout h e)
second_lease true in_time process token ttl now w h e = elim (Option-cases (holder w.lease now)) [
  | inr (k, held) ↦
      absurd (second_lost in_time process token ttl w.lease w h (rw (set_lock, held) at e))
  | inl free ↦
      let (kept, mine) =
        second_token in_time process token ttl (leased token ttl now) w h
          (rw (set_lock, free) at e) in
      rw (set_lock, free) (kept, refl, mine)
]

-- What the process of a step was answered: a handle, from the first SET or from the retry.
abbrev pub Gets : LockStep → LockWorld → LockHandle → Type 0
Gets (take goes process token ttl now) w h = (acquire goes process token ttl now w).0 ≡ ok (some h)
Gets (take_again goes in_time process token ttl now) w h =
    (retry goes in_time process token ttl now w).0 ≡ ok h
Gets (prolong goes ttl now handle) w h = ⊥
Gets (give_back goes now handle) w h = ⊥

-- when the time to live of the lease that a step asks for has passed
abbrev pub until : LockStep → ℕ
until (take goes process token ttl now) = now + ttl
until (take_again goes in_time process token ttl now) = now + ttl
until (prolong goes ttl now h) = now + ttl
until (give_back goes now h) = now

abbrev lease_of : LockStep → Lease
lease_of s = record { token = token_of s; expires = until s }

no_answer :
    (process token ttl now : ℕ) (w : LockWorld) (h : LockHandle)
    → (acquire false process token ttl now w).0 ≡ ok (some h)
    → ⊥
unfolding acquire
no_answer process token ttl now w h e = elim (Bool-cases (ltb ttl 1)) [
  | inl a ↦ err_not_ok bad_ttl (some h) (rw a at e)
  | inr a ↦ err_not_ok redis_outage (some h) (rw a at e)
]

Gets-lease :
    (s : LockStep) (w : LockWorld) (h : LockHandle)
    → Gets s w h
    → ((run_step s w).lease ≡ some (lease_of s))
      × (holder w.lease (time_of s) ≡ none)
      × (h.token ≡ token_of s)
Gets-lease (take true process token ttl now) w h e = won_lease process token ttl now w h e
Gets-lease (take false process token ttl now) w h e = absurd (no_answer process token ttl now w h e)
Gets-lease (take_again goes in_time process token ttl now) w h e =
    second_lease goes in_time process token ttl now w h e
Gets-lease (prolong goes ttl now handle) w h e = absurd e
Gets-lease (give_back goes now handle) w h e = absurd e

-- Mutual exclusion. A process that is answered with a handle, by the first SET or by the retry, holds the
-- key under the handle's token, and the key was free; and until the time to live has passed, whatever
-- acquisitions, retries, renewals and releases other owners make, the key still holds that token.
pub lock_held :
    (s : LockStep) (w : LockWorld) (h : LockHandle) (steps : List LockStep) (t : ℕ)
    → Gets s w h
    → All (λ x. (time_of x < until s) × ((h.token == token_of x) ≡ false)) steps
    → t < until s
    → (holder w.lease (time_of s) ≡ none)
      × (holder (run_steps steps (run_step s w)).lease t ≡ some h.token)
lock_held s w h steps t e others early =
    let (taken, free, mine) = Gets-lease s w h e in
    (
      free,
      ap (λ (x : Option Lease). holder x t)
            (steps_kept (lease_of s) steps (run_step s w) taken (rw mine at others))
          ∙ live (lease_of s) t early
          ∙ ap some (sym mine),
    )
