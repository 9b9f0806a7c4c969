-- ===== src/Tests/Subscribing.antt =====
-- A subscriber of runtime/canon-event-subscribe with room for one event.
use canon.Prelude.{ℕ, ◌≡◌, refl, arith, true, false, List, [], ◌∷◌}
use canon.Subscribe.EventCache.{CachedEvent}
use canon.Subscribe.Subscription.{Subscriber, live, new_subscriber, try_enqueue, request_shutdown}
use canon.Subscribe.Subscription.Moves.{
  Move, broadcasted, received, stopping, moved, moved_all, start,
}
use canon.Subscribe.Subscription.Sound.{IsSound, moved_all-start}
use canon.Subscribe.Subscription.Stalled.{enqueue_all, enqueue_all-stalled}

abbrev event : ℕ → CachedEvent
event seq = record { seq = seq; payload = [] }

-- The second event meets a full queue and is lost; the third is delivered behind the first.
abbrev with_a_hole : List Move
with_a_hole =
    broadcasted (event 1)
    ∷ broadcasted (event 2)
    ∷ received
    ∷ broadcasted (event 3)
    ∷ received
    ∷ stopping
    ∷ []

hole : (moved_all with_a_hole (start 1 1 5)).taken ≡ live (event 1) ∷ live (event 3) ∷ []
unfolding moved_all moved try_enqueue request_shutdown new_subscriber
hole = refl

moved_all-start_example : IsSound (moved_all with_a_hole (start 1 1 5))
moved_all-start_example = moved_all-start 1 1 5 with_a_hole

abbrev stuck : Subscriber
stuck = record {
  id = 1;
  capacity = 1;
  queue = live (event 1) ∷ [];
  receiver_open = true;
  lag = 0;
  max_lag = 1;
  last_delivered_seq = 0;
  disconnected = false;
  shutdown_requested = false;
}

enqueue_all-stalled_example :
    (enqueue_all (event 2 ∷ event 3 ∷ []) stuck).0 ≡ record stuck { lag = 2; disconnected = true }
enqueue_all-stalled_example =
    enqueue_all-stalled (event 2 ∷ event 3 ∷ []) stuck refl refl refl (omega arith) (omega arith)
      (omega arith)
