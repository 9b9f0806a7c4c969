-- ===== src/Subscribe/Subscription/Moves.antt =====
-- What happens to a subscriber: calls of the broadcaster and of its dispatch thread, in any order.
use canon.Prelude.{ℕ, false, List, [], ◌∷◌, ◌++◌}
use canon.Subscribe.EventCache.{CachedEvent}
use canon.Subscribe.Subscription.{
  DeliveryEvent, live, shutdown, EnqueueOutcome, enqueued, lagging, lag_exceeded,
  disconnected_outcome, Subscriber, mark_disconnected, record_delivered, new_subscriber,
  try_enqueue, request_shutdown,
}

pub data Move : Type 0 where
  broadcasted : CachedEvent → Move
  stopping received hung_up marked : Move
  delivered : (seq : ℕ) → Move

-- A subscriber with what its channel accepted and what its receiver took, from the start.
pub record Life : Type 0 where
  pub sub : Subscriber
  pub accepted : List DeliveryEvent
  pub taken : List DeliveryEvent

abbrev pub note : DeliveryEvent → Life → Subscriber × EnqueueOutcome → Life
note event l (s, enqueued) = record l { sub = s; accepted = l.accepted ++ event ∷ [] }
note event l (s, lagging _) = record l { sub = s }
note event l (s, lag_exceeded) = record l { sub = s }
note event l (s, disconnected_outcome) = record l { sub = s }

-- `recv`: the first event of the queue, if there is one.
abbrev pub receive : Life → List DeliveryEvent → Life
receive l [] = l
receive l (event ∷ rest) = record l {
  sub = record l.sub { queue = rest };
  taken = l.taken ++ event ∷ [];
}

unfoldable pub moved : Move → Life → Life
moved (broadcasted event) l = note (live event) l (try_enqueue event l.sub)
moved stopping l = note shutdown l (request_shutdown l.sub)
moved received l = receive l l.sub.queue
moved hung_up l = record l { sub = record l.sub { receiver_open = false } }
moved marked l = record l { sub = mark_disconnected l.sub }
moved (delivered seq) l = record l { sub = record_delivered seq l.sub }

unfoldable pub moved_all : List Move → Life → Life
moved_all [] l = l
moved_all (m ∷ moves) l = moved_all moves (moved m l)

abbrev pub start : (id queue_depth max_lag : ℕ) → Life
start id queue_depth max_lag = record {
  sub = new_subscriber id queue_depth max_lag;
  accepted = [];
  taken = [];
}
