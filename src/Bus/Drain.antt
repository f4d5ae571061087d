-- ===== src/Bus/Drain.antt =====
-- The rounds of `_consumer_loop` (app/main.py) come to an end of their work: the retries are bounded.
use soc360_pymes.Prelude.{
  ℕ, zero, suc, ◌+◌, ◌-◌, ◌*◌, ◌≤◌, ◌<◌, ◌≡◌, inl, inr, refl, Bool, true, ◌||◌, Option, none, some,
  List, [], ◌∷◌, arith, if◌then◌else◌, ltb, ltb→lt, ==→eq, ◌==◌, take, drop, Bool-cases, ◌∙◌, ap,
  length,
}
use soc360_pymes.Sql.{delete_where, count_where}
use soc360_pymes.Outcome.{Result, ok, err}
use soc360_pymes.Bus.{
  Message, Stream, Commands, all_go, DispatchError, dispatch_event, give_up, cleanup_retry_key,
  count_retry, retry_count, ack, deliver, read, process, unless_raised, round, rounds, max_retries,
  add_dead_letter, or_zero,
}
use soc360_pymes.Bus.Delivery.{holds, is_kept, rounds-kept}

-- the deliveries that an entry has left, its last one included
abbrev pub left_for : (ℕ → Option ℕ) → Message → ℕ
left_for counters m = suc (max_retries - or_zero (counters m.id))

abbrev pub total : (ℕ → Option ℕ) → List Message → ℕ
total counters [] = 0
total counters (m ∷ ms) = left_for counters m + total counters ms

-- the deliveries that the stream can still take at most
abbrev pub work : Stream → ℕ
work s = total s.counters s.pending + suc max_retries * length s.undelivered

-- a change of one counter
abbrev changed : ℕ → Option ℕ → (ℕ → Option ℕ) → ℕ → Option ℕ
changed id value counters k = if k == id then value else counters k

abbrev present : ℕ → List Message → ℕ
present id xs = count_where (λ (m : Message). m.id == id) xs

total-deleted :
    (id : ℕ) (counters : ℕ → Option ℕ) (xs : List Message)
    → total (changed id none counters) (delete_where (λ m. m.id == id) xs) + present id xs
      ≤ total counters xs
total-deleted id counters [] = omega arith
total-deleted id counters (x ∷ xs) = elim (Bool-cases (x.id == id)) [
  | inl e ↦ rw e (omega (arith, total-deleted id counters xs))
  | inr e ↦ rw (e, e) (omega (arith, total-deleted id counters xs))
]

total-counted :
    (id : ℕ) (counters : ℕ → Option ℕ) (xs : List Message)
    → or_zero (counters id) < max_retries
    → total (changed id (some (or_zero (counters id) + 1)) counters) xs + present id xs
      ≤ total counters xs
total-counted id counters [] l = omega arith
total-counted id counters (x ∷ xs) l = elim (Bool-cases (x.id == id)) [
  | inl e ↦
      let same = ap (λ (n : ℕ). or_zero (counters n)) (==→eq x.id id e) in
      rw e (omega (arith, l, same, total-counted id counters xs l))
  | inr e ↦ rw e (omega (arith, total-counted id counters xs l))
]

total-bound :
    (counters : ℕ → Option ℕ) (xs : List Message) → total counters xs ≤ suc max_retries * length xs
total-bound counters [] = omega arith
total-bound counters (x ∷ xs) = omega (arith, total-bound counters xs)

-- The pending list has taken `n` deliveries off its work; nothing else was read.
record Lighter (n : ℕ) (s s' : Stream) : Type 0 where
  lighter : total s'.counters s'.pending + n ≤ total s.counters s.pending
  undelivered : s'.undelivered ≡ s.undelivered

Lighter-trans : (n : ℕ) (s t u : Stream) → Lighter n s t → Lighter 0 t u → Lighter n s u
Lighter-trans n s t u h k = record {
  lighter = omega (arith, h.lighter, k.lighter);
  undelivered = k.undelivered ∙ h.undelivered;
}

Lighter-unless_raised :
    (n : ℕ) (s : Stream) (here : Result DispatchError Bool × Stream) (rest : Stream)
    → Lighter n s here.1
    → Lighter 0 here.1 rest
    → Lighter n s (unless_raised here rest)
Lighter-unless_raised n s (err e, t) rest h k = h
Lighter-unless_raised n s (ok b, t) rest h k = Lighter-trans n s t rest h k

-- the entry is acknowledged after its counter was cleared
cleared-Lighter :
    (m : Message) (s : Stream)
    → Lighter (present m.id s.pending) s (ack m.id (cleanup_retry_key all_go true true m s))
unfolding ack cleanup_retry_key
cleared-Lighter m s = record {
  lighter = total-deleted m.id s.counters s.pending;
  undelivered = refl;
}

dead-Lighter :
    (m : Message) (s : Stream)
    → Lighter
        (present m.id s.pending)
        s
        (ack m.id (cleanup_retry_key all_go true true m (add_dead_letter m s)))
unfolding ack cleanup_retry_key
dead-Lighter m s = record { lighter = total-deleted m.id s.counters s.pending; undelivered = refl }

counted-Lighter :
    (m : Message) (s : Stream)
    → or_zero (s.counters m.id) < max_retries
    → Lighter (present m.id s.pending) s (count_retry all_go true true m s)
unfolding count_retry
counted-Lighter m s l = record {
  lighter = total-counted m.id s.counters s.pending l;
  undelivered = refl;
}

module _ (fails : Message → Bool) where
  deliver-Lighter :
      (m : Message) (s : Stream) → Lighter (present m.id s.pending) s (deliver fails all_go m s).1
  unfolding deliver dispatch_event retry_count give_up
  deliver-Lighter m s = elim (Bool-cases (fails m)) [
    | inr f ↦ simp (f, deliver, dispatch_event) (cleared-Lighter m s)
    | inl f ↦ elim (Bool-cases (ltb (or_zero (s.counters m.id)) max_retries)) [
      | inl e ↦
          simp (f, e, deliver, dispatch_event)
            (counted-Lighter m s (ltb→lt (or_zero (s.counters m.id)) max_retries e))
      | inr e ↦ simp (f, e, deliver, dispatch_event) (dead-Lighter m s)
    ]
  ]

  abbrev go : Message → Commands
  go _ = all_go

  Lighter-weaken : (n : ℕ) (s t : Stream) → Lighter n s t → Lighter 0 s t
  Lighter-weaken n s t h = record {
    lighter = omega (arith, h.lighter);
    undelivered = h.undelivered;
  }

  process-Lighter : (ms : List Message) (s : Stream) → Lighter 0 s (process fails go ms s)
  unfolding process
  process-Lighter [] s = record { lighter = omega arith; undelivered = refl }
  process-Lighter (m ∷ ms) s =
      let here = deliver fails all_go m s in
      Lighter-unless_raised 0 s here (process fails go ms here.1)
        (Lighter-weaken (present m.id s.pending) s here.1 (deliver-Lighter m s))
        (process-Lighter ms here.1)

  -- a round whose first entry is pending takes a delivery off at least
  process_first :
      (m : Message) (ms rest : List Message) (s : Stream)
      → s.pending ≡ m ∷ rest
      → Lighter 1 s (process fails go (m ∷ ms) s)
  unfolding process
  process_first m ms rest s e =
      let here = deliver fails all_go m s in
      let once : 1 ≤ present m.id s.pending = rw e (ground arith) in
      let light = deliver-Lighter m s in
      Lighter-unless_raised 1 s here (process fails go ms here.1)
        (record { lighter = omega (arith, once, light.lighter); undelivered = light.undelivered })
        (process-Lighter ms here.1)

  length-split : (n : ℕ) (xs : List Message) → length (take n xs) + length (drop n xs) ≡ length xs
  length-split zero xs = omega arith
  length-split (suc n) [] = omega arith
  length-split (suc n) (x ∷ xs) = omega (arith, length-split n xs)

  abbrev stream : List Message → List Message → List Message → (ℕ → Option ℕ) → Stream
  stream pending undelivered dead counters = record {
    undelivered = undelivered;
    pending = pending;
    dead_letters = dead;
    counters = counters;
  }

  round_lists :
      (pending undelivered dead : List Message) (counters : ℕ → Option ℕ)
      → let s = stream pending undelivered dead counters in work (round fails go s) ≤ work s - 1
  unfolding round read process
  round_lists (m ∷ ms) undelivered dead counters =
      let s = stream (m ∷ ms) undelivered dead counters in
      let light = process_first m (take 99 ms) ms s refl in
      omega (arith, light.lighter, ap length light.undelivered)
  round_lists [] [] dead counters = omega arith
  round_lists [] (m ∷ ms) dead counters =
      let s = stream (m ∷ take 9 ms) (drop 9 ms) dead counters in
      let light = process_first m (take 9 ms) (take 9 ms) s refl in
      omega (
        arith,
        light.lighter,
        ap length light.undelivered,
        length-split 9 ms,
        total-bound counters (m ∷ take 9 ms),
      )

  -- a round takes a delivery off the work, if there is any
  round-less : (s : Stream) → work (round fails go s) ≤ work s - 1
  round-less s = round_lists s.pending s.undelivered s.dead_letters s.counters

  rounds-work : (n : ℕ) (s : Stream) → work (rounds fails go n s) ≤ work s - n
  unfolding rounds
  rounds-work zero s = omega arith
  rounds-work (suc n) s = omega (arith, round-less s, rounds-work n (round fails go s))

only_dead :
    (id : ℕ) (undelivered pending dead : List Message)
    → undelivered ≡ []
    → pending ≡ []
    → (holds id undelivered || holds id pending || holds id dead) ≡ true
    → holds id dead ≡ true
only_dead id [] [] dead u p h = h
only_dead id (m ∷ ms) pending dead u p h = cc
only_dead id [] (m ∷ ms) dead u p h = cc

no_entries : (xs : List Message) → (counters : ℕ → Option ℕ) → total counters xs ≡ 0 → xs ≡ []
no_entries [] counters h = refl
no_entries (x ∷ xs) counters h = absurd (omega (arith, h))

no_length : (xs : List Message) → length xs ≡ 0 → xs ≡ []
no_length [] h = refl
no_length (x ∷ xs) h = absurd (omega (arith, h))

-- While the Redis commands go through, the retries are bounded: after as many rounds as the stream
-- can take deliveries, four for an entry whose handler always raises and was never tried, nothing
-- waits any more, neither in the stream nor in the pending list; and an event whose handler always
-- raises stands in the dead letter queue then, if it was in the stream, pending or there before.
pub rounds-drained :
    (fails : Message → Bool) (n : ℕ) (s : Stream)
    → work s ≤ n
    → let s' = rounds fails (λ _. all_go) n s in
      (s'.pending ≡ [])
      × (s'.undelivered ≡ [])
      × ((id : ℕ)
          → ((m : Message) → (id == m.id) ≡ true → fails m ≡ true)
          → is_kept id s ≡ true
          → holds id s'.dead_letters ≡ true)
rounds-drained fails n s l =
    let s' = rounds fails (λ _. all_go) n s in
    let idle : work s' ≡ 0 = omega (arith, l, rounds-work fails n s) in
    let p = no_entries s'.pending s'.counters (omega (arith, idle)) in
    let u = no_length s'.undelivered (omega (arith, idle)) in
    (
      p,
      u,
      λ id poison kept.
          only_dead id s'.undelivered s'.pending s'.dead_letters u p
            (rounds-kept fails id poison (λ _. all_go) n s kept),
    )
