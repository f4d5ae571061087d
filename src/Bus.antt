-- ===== src/Bus.antt =====
-- The consumer side of the event bus: `EventBus._dispatch_event` of app/event_bus/bus.py,
-- app/event_bus/consumer.py and one round of `_consumer_loop` of app/main.py, over the Redis keys
-- that they use. A Redis command can raise; the expiry of a retry counter is left out.
pub mod Drain
pub mod Delivery
mod Samples
use soc360_pymes.Prelude.{
  ℕ, zero, suc, ◌+◌, String, Bool, true, false, not, ◌&&◌, Option, none, some, List, [], ◌∷◌, ◌++◌,
  if◌then◌else◌, ltb, ◌==◌, take, drop, is_empty, is_some,
}
use soc360_pymes.Sql.{delete_where}
use soc360_pymes.Outcome.{Result, ok, err}

-- a stream entry, with `int(data.get("_retry_count", 0))`
pub record Message : Type 0 where
  pub id : ℕ
  pub carried_count : ℕ
  pub payload : String

-- The entries not yet delivered to the group, those delivered and not acknowledged, the dead letters,
-- and the retry counters by message id.
pub record Stream : Type 0 where
  pub undelivered : List Message
  pub pending : List Message
  pub dead_letters : List Message
  pub counters : ℕ → Option ℕ

-- whether each Redis command of a call goes through
pub record Commands : Type 0 where
  pub hget_goes : Bool
  pub hincrby_goes : Bool
  pub xadd_goes : Bool
  pub delete_goes : Bool
  pub xack_goes : Bool

abbrev pub all_go : Commands
all_go = record {
  hget_goes = true;
  hincrby_goes = true;
  xadd_goes = true;
  delete_goes = true;
  xack_goes = true;
}

pub data DispatchError : Type 0 where
  handler_error dead_letter_outage acknowledge_outage : DispatchError

-- the default of `settings.EVENT_MAX_RETRIES`
abbrev pub max_retries : ℕ
max_retries = 3

abbrev pub or_zero : Option ℕ → ℕ
or_zero none = 0
or_zero (some n) = n

abbrev pub set_counter : ℕ → Option ℕ → Stream → Stream
set_counter id value s = record s { counters = λ k. if k == id then value else s.counters k }

-- The two arguments that may be missing: the Redis client, and the message id.
unfoldable pub retry_count : Commands → Bool → Bool → Message → Stream → ℕ
retry_count go client with_id m s =
    if client && with_id && go.hget_goes then or_zero (s.counters m.id) else m.carried_count

-- `_cleanup_retry_key`
unfoldable pub cleanup_retry_key : Commands → Bool → Bool → Message → Stream → Stream
cleanup_retry_key go client with_id m s =
    if client && with_id && go.delete_goes then set_counter m.id none s else s

-- HINCRBY; where it raises, the count that is kept in memory is gone with the delivery. A refresh of
-- the expiry that raises after it changes nothing.
unfoldable pub count_retry : Commands → Bool → Bool → Message → Stream → Stream
count_retry go client with_id m s =
    if client && with_id && go.hincrby_goes
    then set_counter m.id (some (or_zero (s.counters m.id) + 1)) s
    else s

abbrev pub add_dead_letter : Message → Stream → Stream
add_dead_letter m s = record s { dead_letters = s.dead_letters ++ m ∷ [] }

-- the last branch: the dead letter queue
unfoldable pub give_up :
    Commands → Bool → Bool → Message → Stream → Result DispatchError Bool × Stream
unfolding cleanup_retry_key
give_up go client with_id m s =
    if not client
    then (ok false, s)
    else if go.xadd_goes
    then (ok true, cleanup_retry_key go client with_id m (add_dead_letter m s))
    else (err dead_letter_outage, s)

-- `_dispatch_event`; `fails` says of which messages the handler raises
unfoldable pub dispatch_event :
    (Message → Bool)
    → Commands
    → Bool
    → Bool
    → Message
    → Stream
    → Result DispatchError Bool × Stream
unfolding retry_count cleanup_retry_key count_retry give_up
dispatch_event fails go client with_id m s =
    if not (fails m)
    then (ok true, cleanup_retry_key go client with_id m s)
    else if ltb (retry_count go client with_id m s) max_retries
    then (err handler_error, count_retry go client with_id m s)
    else give_up go client with_id m s

-- XACK: the entry leaves the pending list
unfoldable pub ack : ℕ → Stream → Stream
ack id s = record s { pending = delete_where (λ m. m.id == id) s.pending }

abbrev pub acknowledged :
    Commands → Message → Result DispatchError Bool × Stream → Result DispatchError Bool × Stream
acknowledged go m (err e, s) = (err e, s)
acknowledged go m (ok false, s) = (ok false, s)
acknowledged go m (ok true, s) =
    if go.xack_goes then (ok true, ack m.id s) else (err acknowledge_outage, s)

-- the body of the loop over the messages of a round
unfoldable pub deliver :
    (Message → Bool) → Commands → Message → Stream → Result DispatchError Bool × Stream
unfolding dispatch_event ack
deliver fails go m s = acknowledged go m (dispatch_event fails go true true m s)

-- `read_pending`, or `read_new` where nothing is pending, with their counts of 100 and 10; that the
-- commands that read raise is left out
unfoldable pub read : Stream → List Message × Stream
read s =
    if is_empty s.pending
    then (
      take 10 s.undelivered,
      record s { undelivered = drop 10 s.undelivered; pending = take 10 s.undelivered },
    )
    else (take 100 s.pending, s)

abbrev pub unless_raised : Result DispatchError Bool × Stream → Stream → Stream
unless_raised (err e, s) rest = s
unless_raised (ok b, s) rest = rest

module _ (fails : Message → Bool) (go : Message → Commands) where
  -- an exception ends the round
  unfoldable pub process : List Message → Stream → Stream
  unfolding deliver
  process [] s = s
  process (m ∷ ms) s =
      let here = deliver fails (go m) m s in let rest = process ms here.1 in unless_raised here rest

  -- one round of `_consumer_loop`
  unfoldable pub round : Stream → Stream
  unfolding read process
  round s = process (read s).0 (read s).1

  unfoldable pub rounds : ℕ → Stream → Stream
  unfolding round
  rounds zero s = s
  rounds (suc n) s = rounds n (round s)
