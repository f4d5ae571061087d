-- ===== src/Bus/Delivery.antt =====
-- No event is lost: the rounds of `_consumer_loop` (app/main.py) over app/event_bus.
use mathlib.Core.Path.{subst}
use soc360_pymes.Prelude.{
  ℕ, zero, suc, ◌≡◌, inl, inr, refl, Bool, true, false, ◌||◌, List, [], ◌∷◌, ◌++◌, arith, ltb, ◌==◌,
  any, take, drop, is_empty, Bool-cases, ==_refl, ==→eq, sym,
}
use soc360_pymes.Sql.{delete_where}
use soc360_pymes.Outcome.{Result, ok, err}
use soc360_pymes.Bus.{
  Message, Stream, Commands, DispatchError, dispatch_event, give_up, cleanup_retry_key, count_retry,
  retry_count, ack, acknowledged, deliver, read, process, unless_raised, round, rounds, max_retries,
  add_dead_letter,
}

abbrev pub holds : ℕ → List Message → Bool
holds id xs = any (λ (m : Message). m.id == id) xs

-- The event waits in the stream or in the pending list, or is a dead letter.
abbrev pub is_kept : ℕ → Stream → Bool
is_kept id s = holds id s.undelivered || holds id s.pending || holds id s.dead_letters

holds-append : (id : ℕ) (xs ys : List Message) → holds id (xs ++ ys) ≡ (holds id xs || holds id ys)
holds-append id [] ys = refl
holds-append id (x ∷ xs) ys = ground (arith, holds-append id xs ys)

holds-delete_where :
    (id other : ℕ) (xs : List Message)
    → (id == other) ≡ false
    → holds id (delete_where (λ m. m.id == other) xs) ≡ holds id xs
holds-delete_where id other [] h = refl
holds-delete_where id other (x ∷ xs) h = ground (arith, holds-delete_where id other xs h)

holds-split :
    (id n : ℕ) (xs : List Message) → holds id xs ≡ (holds id (take n xs) || holds id (drop n xs))
holds-split id zero xs = refl
holds-split id (suc n) [] = refl
holds-split id (suc n) (x ∷ xs) = ground (arith, holds-split id n xs)

empty_holds : (id : ℕ) (xs : List Message) → is_empty xs ≡ true → holds id xs ≡ false
empty_holds id [] h = refl
empty_holds id (x ∷ xs) h = cc

-- what a dispatch leaves of the three lists
record Dispatched (s s' : Stream) : Type 0 where
  undelivered : s'.undelivered ≡ s.undelivered
  pending : s'.pending ≡ s.pending
  dead : (id : ℕ) → holds id s.dead_letters ≡ true → holds id s'.dead_letters ≡ true

Dispatched-refl : (s : Stream) → Dispatched s s
Dispatched-refl s = record { undelivered = refl; pending = refl; dead = λ id h. h }

cleanup-Dispatched :
    (go : Commands) (m : Message) (s : Stream) → Dispatched s (cleanup_retry_key go true true m s)
unfolding cleanup_retry_key
cleanup-Dispatched go m s = elim (Bool-cases go.delete_goes) [
  | inl e ↦ simp e (record { undelivered = refl; pending = refl; dead = λ id h. h })
  | inr e ↦ simp e (Dispatched-refl s)
]

count-Dispatched :
    (go : Commands) (m : Message) (s : Stream) → Dispatched s (count_retry go true true m s)
unfolding count_retry
count-Dispatched go m s = elim (Bool-cases go.hincrby_goes) [
  | inl e ↦ simp e (record { undelivered = refl; pending = refl; dead = λ id h. h })
  | inr e ↦ simp e (Dispatched-refl s)
]

-- the entry is a dead letter, and what was one still is
add-Dispatched :
    (go : Commands) (m : Message) (s : Stream)
    → Dispatched s (cleanup_retry_key go true true m (add_dead_letter m s))
      × (holds m.id (cleanup_retry_key go true true m (add_dead_letter m s)).dead_letters ≡ true)
add-Dispatched go m s =
    let c = cleanup-Dispatched go m (add_dead_letter m s) in
    (
      record {
        undelivered = c.undelivered;
        pending = c.pending;
        dead = λ id h. c.dead id (ground (arith, h, holds-append id s.dead_letters (m ∷ [])));
      },
      c.dead m.id (ground (arith, holds-append m.id s.dead_letters (m ∷ []), ==_refl m.id)),
    )

-- A dispatch of an entry whose handler raises: the three lists, and where it may be acknowledged.
abbrev Answered : Message → Stream → Result DispatchError Bool × Stream → Type 0
Answered m s answer =
    Dispatched s answer.1 × (answer.0 ≡ ok true → holds m.id answer.1.dead_letters ≡ true)

give_up-Answered :
    (go : Commands) (m : Message) (s : Stream) → Answered m s (give_up go true true m s)
unfolding give_up
give_up-Answered go m s = elim (Bool-cases go.xadd_goes) [
  | inl e ↦ let (d, h) = add-Dispatched go m s in simp e (d, λ _. h)
  | inr e ↦ simp e (Dispatched-refl s, λ h. cc)
]

dispatch-Answered :
    (fails : Message → Bool) (go : Commands) (m : Message) (s : Stream)
    → fails m ≡ true
    → Answered m s (dispatch_event fails go true true m s)
unfolding dispatch_event
dispatch-Answered fails go m s f =
    elim (Bool-cases (ltb (retry_count go true true m s) max_retries)) [
      | inl e ↦ rw (f, e, dispatch_event) (count-Dispatched go m s, λ h. cc)
      | inr e ↦ rw (f, e, dispatch_event) (give_up-Answered go m s)
    ]

dispatch-Dispatched :
    (fails : Message → Bool) (go : Commands) (m : Message) (s : Stream)
    → Dispatched s (dispatch_event fails go true true m s).1
unfolding dispatch_event
dispatch-Dispatched fails go m s = elim (Bool-cases (fails m)) [
  | inl f ↦ (dispatch-Answered fails go m s f).0
  | inr f ↦ rw (f, dispatch_event) (cleanup-Dispatched go m s)
]

Dispatched-kept :
    (id : ℕ) (s s' : Stream) → Dispatched s s' → is_kept id s ≡ true → is_kept id s' ≡ true
Dispatched-kept id s s' d h = rw (d.undelivered, d.pending) (ground (arith, d.dead id))

ack-kept :
    (id other : ℕ) (s : Stream)
    → ((id == other) ≡ true → holds id s.dead_letters ≡ true)
    → is_kept id s ≡ true
    → is_kept id (ack other s) ≡ true
unfolding ack
ack-kept id other s dead h = elim (Bool-cases (id == other)) [
  | inl e ↦ ground (arith, dead e)
  | inr e ↦ ground (arith, h, holds-delete_where id other s.pending e)
]

acknowledged-kept :
    (id : ℕ) (go : Commands) (m : Message) (answer : Result DispatchError Bool × Stream)
    → (answer.0 ≡ ok true → (id == m.id) ≡ true → holds id answer.1.dead_letters ≡ true)
    → is_kept id answer.1 ≡ true
    → is_kept id (acknowledged go m answer).1 ≡ true
acknowledged-kept id go m (err e, s) dead h = h
acknowledged-kept id go m (ok false, s) dead h = h
acknowledged-kept id go m (ok true, s) dead h = elim (Bool-cases go.xack_goes) [
  | inl e ↦ simp e (ack-kept id m.id s (dead refl) h)
  | inr e ↦ simp e h
]

module _ (fails : Message → Bool) (id : ℕ)
    (poison : (m : Message) → (id == m.id) ≡ true → fails m ≡ true) where
  deliver-kept :
      (go : Commands) (m : Message) (s : Stream)
      → is_kept id s ≡ true
      → is_kept id (deliver fails go m s).1 ≡ true
  unfolding deliver
  deliver-kept go m s h =
      let answer = dispatch_event fails go true true m s in
      acknowledged-kept id go m answer
        (λ won same.
          subst (λ (n : ℕ). holds n answer.1.dead_letters ≡ true) (sym (==→eq id m.id same))
            ((dispatch-Answered fails go m s (poison m same)).1 won))
        (Dispatched-kept id s answer.1 (dispatch-Dispatched fails go m s) h)

  unless_raised-kept :
      (here : Result DispatchError Bool × Stream) (rest : Stream)
      → is_kept id here.1 ≡ true
      → is_kept id rest ≡ true
      → is_kept id (unless_raised here rest) ≡ true
  unless_raised-kept (err e, s) rest h k = h
  unless_raised-kept (ok b, s) rest h k = k

  module _ (go : Message → Commands) where
    process-kept :
        (ms : List Message) (s : Stream)
        → is_kept id s ≡ true
        → is_kept id (process fails go ms s) ≡ true
    unfolding process
    process-kept [] s h = h
    process-kept (m ∷ ms) s h =
        let here = deliver fails (go m) m s in
        let k = deliver-kept (go m) m s h in
        unless_raised-kept here (process fails go ms here.1) k (process-kept ms here.1 k)

    read-kept : (s : Stream) → is_kept id s ≡ true → is_kept id (read s).1 ≡ true
    unfolding read
    read-kept s h = elim (Bool-cases (is_empty s.pending)) [
      | inl e ↦
          simp e (ground (arith, h, holds-split id 10 s.undelivered, empty_holds id s.pending e))
      | inr e ↦ simp e h
    ]

    -- An event whose handler always raises is never lost: after any number of rounds, whichever
    -- Redis commands raise in them, it still waits in the stream or in the pending list, or stands
    -- in the dead letter queue.
    pub rounds-kept :
        (n : ℕ) (s : Stream) → is_kept id s ≡ true → is_kept id (rounds fails go n s) ≡ true
    unfolding rounds round
    rounds-kept zero s h = h
    rounds-kept (suc n) s h =
        rounds-kept n (round fails go s) (process-kept (read s).0 (read s).1 (read-kept s h))
