-- ===== src/Bus/Samples.antt =====
-- A stream with an event whose handler always raises, and the theorems of Bus at it.
use soc360_pymes.Prelude.{
  ℕ, ◌≡◌, refl, Bool, true, false, none, some, [], ◌∷◌, arith, ◌==◌, if◌then◌else◌,
}
use soc360_pymes.Bus.{Message, Stream, Commands, all_go, rounds}
use soc360_pymes.Bus.Delivery.{holds, is_kept, rounds-kept}
use soc360_pymes.Bus.Drain.{rounds-drained}

abbrev message : ℕ → Message
message id = record { id = id; carried_count = 0; payload = "auth.login" }

-- event 2 was tried once
abbrev stream : Stream
stream = record {
  undelivered = message 3 ∷ [];
  pending = message 1 ∷ message 2 ∷ [];
  dead_letters = [];
  counters = λ id. if id == 2 then some 1 else none;
}

-- the handler raises on event 2
abbrev fails : Message → Bool
fails m = m.id == 2

abbrev down : Commands
down = record {
  hget_goes = false;
  hincrby_goes = false;
  xadd_goes = false;
  delete_goes = false;
  xack_goes = false;
}

poison : (m : Message) → (2 == m.id) ≡ true → fails m ≡ true
poison m h = ground arith

rounds-kept_example : is_kept 2 (rounds fails (λ _. down) 5 stream) ≡ true
rounds-kept_example = rounds-kept fails 2 poison (λ _. down) 5 stream refl

rounds-drained_example :
    let s' = rounds fails (λ _. all_go) 11 stream in
    (s'.pending ≡ [])
    × (s'.undelivered ≡ [])
    × ((id : ℕ)
        → ((m : Message) → (id == m.id) ≡ true → fails m ≡ true)
        → is_kept id stream ≡ true
        → holds id s'.dead_letters ≡ true)
rounds-drained_example = rounds-drained fails 11 stream (omega arith)

drained_test : (rounds fails (λ _. all_go) 4 stream).dead_letters ≡ message 2 ∷ []
unfolding rounds
drained_test = refl
