-- ===== src/Subscribe/Subscription.antt =====
-- runtime/canon-event-subscribe/src/subscription.rs: the bounded queue of a subscriber and the registry.
-- A subscriber's atomic fields and its channel are one record; each call is one step on it.
pub mod Moves
pub mod Sound
pub mod Stalled
use canon.Prelude.{
  ℕ, ◌+◌, ◌%◌, Bool, true, false, ◌&&◌, List, [], ◌∷◌, ◌++◌, length, min, ltb, leb, ◌==◌,
  if◌then◌else◌,
}
use canon.Prelude.Result.{Result, ok, err}
use canon.Bytes.{u64_mod}
use canon.Subscribe.EventCache.{CachedEvent}

abbrev pub hard_max_send_queue_depth : ℕ
hard_max_send_queue_depth = 65536

abbrev pub hard_max_subscriber_lag : ℕ
hard_max_subscriber_lag = 1000000

pub data DeliveryEvent : Type 0 where
  live : CachedEvent → DeliveryEvent
  shutdown : DeliveryEvent

pub data EnqueueOutcome : Type 0 where
  enqueued : EnqueueOutcome
  lagging : (lag : ℕ) → EnqueueOutcome
  lag_exceeded disconnected_outcome : EnqueueOutcome

-- The bounded channel is its capacity, the events in it, and whether the receiver stands.
pub record Subscriber : Type 0 where
  pub id : ℕ
  pub capacity : ℕ
  pub queue : List DeliveryEvent
  pub receiver_open : Bool
  pub lag : ℕ
  pub max_lag : ℕ
  pub last_delivered_seq : ℕ
  pub disconnected : Bool
  pub shutdown_requested : Bool

-- `clamp(1, HARD_MAX_SEND_QUEUE_DEPTH)`.
abbrev pub clamp_depth : ℕ → ℕ
clamp_depth queue_depth = if ltb queue_depth 1 then 1 else min queue_depth hard_max_send_queue_depth

unfoldable pub new_subscriber : (id queue_depth max_lag : ℕ) → Subscriber
new_subscriber id queue_depth max_lag = record {
  id = id;
  capacity = clamp_depth queue_depth;
  queue = [];
  receiver_open = true;
  lag = 0;
  max_lag = min max_lag hard_max_subscriber_lag;
  last_delivered_seq = 0;
  disconnected = false;
  shutdown_requested = false;
}

unfoldable pub mark_disconnected : Subscriber → Subscriber
mark_disconnected s = record s { disconnected = true }

unfoldable pub record_delivered : ℕ → Subscriber → Subscriber
record_delivered seq s = record s { last_delivered_seq = seq }

-- `try_send` of the channel: the three cases follow.
abbrev pub try_send :
    {A : Type 0} → DeliveryEvent → Subscriber → (sent : Subscriber → A) (full hung_up : A) → A
try_send event s sent full hung_up =
    if s.receiver_open
    then if leb s.capacity (length s.queue)
      then full
      else sent (record s { queue = s.queue ++ event ∷ [] })
    else hung_up

abbrev pub fall_behind : Subscriber → ℕ → Subscriber × EnqueueOutcome
fall_behind s new_lag =
    if ltb s.max_lag new_lag
    then (mark_disconnected (record s { lag = new_lag }), lag_exceeded)
    else (record s { lag = new_lag }, lagging new_lag)

unfoldable pub try_enqueue : CachedEvent → Subscriber → Subscriber × EnqueueOutcome
try_enqueue event s =
    if s.disconnected
    then (s, disconnected_outcome)
    else try_send (live event) s (λ t. (record t { lag = 0 }, enqueued))
        (fall_behind s ((s.lag + 1) % u64_mod)) (mark_disconnected s, disconnected_outcome)

unfoldable pub request_shutdown : Subscriber → Subscriber × EnqueueOutcome
request_shutdown s =
    if s.disconnected
    then (s, disconnected_outcome)
    else try_send shutdown (record s { shutdown_requested = true }) (λ t. (t, enqueued))
        (record s { shutdown_requested = true }, lagging s.lag)
        (mark_disconnected (record s { shutdown_requested = true }), disconnected_outcome)

pub record SubscriberRegistry : Type 0 where
  pub subscribers : List Subscriber
  pub next_id : ℕ
  pub max_subscribers : ℕ

pub data RegisterError : Type 0 where
  at_capacity : (active max : ℕ) → RegisterError

abbrev pub is_full : SubscriberRegistry → Bool
is_full r = if r.max_subscribers == 0 then false else leb r.max_subscribers (length r.subscribers)

unfoldable pub register :
    (queue_depth max_lag : ℕ)
    → SubscriberRegistry
    → SubscriberRegistry × Result RegisterError Subscriber
register queue_depth max_lag r =
    let sub = new_subscriber ((r.next_id + 1) % u64_mod) queue_depth max_lag in
    if is_full r then (r, err (at_capacity (length r.subscribers) r.max_subscribers)) else (
      record r { subscribers = r.subscribers ++ sub ∷ []; next_id = (r.next_id + 1) % u64_mod },
      ok sub,
    )

unfoldable pub without : ℕ → List Subscriber → List Subscriber
without id [] = []
without id (s ∷ subs) = let rest = without id subs in if s.id == id then rest else s ∷ rest

unfoldable pub unregister : Subscriber → SubscriberRegistry → SubscriberRegistry
unregister sub r = record r { subscribers = without sub.id r.subscribers }

pub record BroadcastSummary : Type 0 where
  pub enqueued_count : ℕ
  pub lagging_count : ℕ
  pub evicted_count : ℕ
  pub disconnected_count : ℕ

abbrev pub count_outcome : EnqueueOutcome → BroadcastSummary → BroadcastSummary
count_outcome enqueued c = record c { enqueued_count = c.enqueued_count + 1 }
count_outcome (lagging _) c = record c { lagging_count = c.lagging_count + 1 }
count_outcome lag_exceeded c = record c { evicted_count = c.evicted_count + 1 }
count_outcome disconnected_outcome c = record c { disconnected_count = c.disconnected_count + 1 }

-- The subscribers are shared, so that a step on the snapshot is one on the registry.
unfoldable pub broadcast_to_snapshot :
    CachedEvent → List Subscriber → BroadcastSummary → List Subscriber × BroadcastSummary
broadcast_to_snapshot event [] c = ([], c)
broadcast_to_snapshot event (s ∷ subs) c =
    let (after, outcome) = try_enqueue event s in
    let (rest, summary) = broadcast_to_snapshot event subs (count_outcome outcome c) in
    (after ∷ rest, summary)

unfoldable pub broadcast : CachedEvent → SubscriberRegistry → SubscriberRegistry × BroadcastSummary
broadcast event r =
    let none_yet : BroadcastSummary = record {
      enqueued_count = 0;
      lagging_count = 0;
      evicted_count = 0;
      disconnected_count = 0;
    } in
    let (subs, summary) = broadcast_to_snapshot event r.subscribers none_yet in
    (record r { subscribers = subs }, summary)

unfoldable pub shutdown_all : List Subscriber → List Subscriber
shutdown_all [] = []
shutdown_all (s ∷ subs) = (request_shutdown s).0 ∷ shutdown_all subs

unfoldable pub broadcast_shutdown : SubscriberRegistry → SubscriberRegistry
broadcast_shutdown r = record r { subscribers = shutdown_all r.subscribers }

unfoldable pub set_max_subscribers : ℕ → SubscriberRegistry → SubscriberRegistry
set_max_subscribers max r = record r { max_subscribers = max }

unfoldable pub with_max_subscribers : ℕ → SubscriberRegistry
with_max_subscribers max =
    set_max_subscribers max (record { subscribers = []; next_id = 0; max_subscribers = 0 })
