-- ===== src/Lock/Samples.antt =====
-- Two processes and one lock.
use soc360_pymes.Prelude.{◌≡◌, refl, true, false, none, some, List, [], ◌∷◌, arith}
use soc360_pymes.Outcome.{ok}
use soc360_pymes.Lock.{
  LockWorld, LockHandle, holder, acquire, retry, second_set, first_set, set_lock,
}
use soc360_pymes.Lock.Held.{LockStep, take, take_again, give_back, run_step, run_steps, lock_held}

abbrev idle : LockWorld
idle = record { lease = none; active = λ p. none }

abbrev handle : LockHandle
handle = record { process = 1; token = 11; ttl_seconds = 30; lost = false; released = false }

abbrev rival : LockHandle
rival = record { process = 2; token = 22; ttl_seconds = 30; lost = false; released = false }

acquired : (acquire true 1 11 30 100 idle).0 ≡ ok (some handle)
unfolding acquire first_set set_lock holder
acquired = refl

abbrev steps : List LockStep
steps = take true 2 22 30 105 ∷ take_again true true 2 22 30 106 ∷ give_back true 107 rival ∷ []

abbrev first_take : LockStep
first_take = take true 1 11 30 100

lock_held_example :
    (holder none 100 ≡ none)
    × (holder (run_steps steps (run_step first_take idle)).lease 129 ≡ some 11)
lock_held_example =
    lock_held first_take idle handle steps 129 acquired
      ((omega arith, refl), ((omega arith, refl), ((omega arith, refl), tt))) (omega arith)

-- the retry of the rival after the lease has passed
retried : (retry true true 2 22 30 131 (run_step first_take idle)).0 ≡ ok rival
unfolding retry acquire first_set second_set set_lock holder
retried = refl
