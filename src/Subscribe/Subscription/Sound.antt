-- ===== src/Subscribe/Subscription/Sound.antt =====
-- The queue stays bounded and in order.
use canon.Prelude.{
  ℕ, ◌+◌, ◌%◌, ◌≤◌, ◌<◌, ◌≡◌, ◌⊎◌, inl, inr, refl, sym, ap, ◌∙◌, arith, if_cases, not_ltb→le,
  not_leb→lt, Bool, true, false, List, [], ◌∷◌, ◌++◌, append_assoc, length, length-append, ltb, leb,
}
use canon.Bytes.{u64_mod}
use canon.Subscribe.EventCache.{CachedEvent}
use canon.Subscribe.Subscription.{
  DeliveryEvent, live, shutdown, EnqueueOutcome, enqueued, Subscriber, mark_disconnected,
  record_delivered, new_subscriber, fall_behind, try_enqueue, request_shutdown,
  hard_max_send_queue_depth, hard_max_subscriber_lag,
}
use canon.Subscribe.Subscription.Moves.{
  Move, broadcasted, stopping, received, hung_up, marked, delivered, Life, note, receive, moved,
  moved_all, start,
}

-- The channel's and the policy's bounds, and the order of delivery.
pub record IsSound (l : Life) : Type 0 where
  pub bounded : length l.sub.queue ≤ l.sub.capacity
  pub capped : l.sub.capacity ≤ hard_max_send_queue_depth
  pub patience : l.sub.max_lag ≤ hard_max_subscriber_lag
  pub tolerated : l.sub.lag ≤ l.sub.max_lag + 1
  pub evicted : (l.sub.disconnected ≡ true) ⊎ (l.sub.lag ≤ l.sub.max_lag)
  pub in_order : l.accepted ≡ l.taken ++ l.sub.queue

start-IsSound : (id queue_depth max_lag : ℕ) → IsSound (start id queue_depth max_lag)
unfolding new_subscriber
start-IsSound id queue_depth max_lag = record {
  bounded = omega arith;
  capped = ground arith;
  patience = omega arith;
  tolerated = omega arith;
  evicted = inr (omega arith);
  in_order = refl;
}

receive-IsSound :
    (l : Life) (q : List DeliveryEvent) → l.sub.queue ≡ q → IsSound l → IsSound (receive l q)
receive-IsSound l [] e h = h
receive-IsSound l (event ∷ rest) e h = record {
  bounded = omega (arith, ap length e, h.bounded);
  capped = h.capped;
  patience = h.patience;
  tolerated = h.tolerated;
  evicted = h.evicted;
  in_order =
      h.in_order
      ∙ ap (λ (q : List DeliveryEvent). l.taken ++ q) e
      ∙ sym (append_assoc l.taken (event ∷ []) rest);
}

connected-lag : (l : Life) → IsSound l → l.sub.disconnected ≡ false → l.sub.lag ≤ l.sub.max_lag
connected-lag l h on = elim h.evicted [
  | inl off ↦ (let no : ⊥ = cc (on, off) in absurd no)
  | inr low ↦ low
]

fall_behind-IsSound :
    (event : DeliveryEvent) (l : Life)
    → IsSound l
    → l.sub.disconnected ≡ false
    → IsSound (note event l (fall_behind l.sub ((l.sub.lag + 1) % u64_mod)))
unfolding mark_disconnected
fall_behind-IsSound event l h on =
    let at_most = connected-lag l h on in
    let next : (l.sub.lag + 1) % u64_mod ≡ l.sub.lag + 1 = omega (arith, at_most, h.patience) in
    if_cases (λ (p : Subscriber × EnqueueOutcome). IsSound (note event l p))
      (ltb l.sub.max_lag ((l.sub.lag + 1) % u64_mod))
      (λ e. record {
        bounded = h.bounded;
        capped = h.capped;
        patience = h.patience;
        tolerated = omega (arith, next, at_most);
        evicted = inl refl;
        in_order = h.in_order;
      })
      (λ e. record {
        bounded = h.bounded;
        capped = h.capped;
        patience = h.patience;
        tolerated = omega (arith, next, at_most);
        evicted = inr (omega (arith, not_ltb→le _ _ e));
        in_order = h.in_order;
      })

-- The channel took an event.
sent-IsSound :
    (event : DeliveryEvent) (l : Life) (lag : ℕ) (s : Bool)
    → IsSound l
    → length l.sub.queue < l.sub.capacity
    → lag ≤ l.sub.lag
    → IsSound (
        note event l (
          record l.sub { queue = l.sub.queue ++ event ∷ []; lag = lag; shutdown_requested = s },
          enqueued,
        ))
sent-IsSound event l lag s h room less = record {
  bounded = omega (arith, length-append l.sub.queue (event ∷ []), room);
  capped = h.capped;
  patience = h.patience;
  tolerated = omega (arith, h.tolerated, less);
  evicted = elim h.evicted [ inl off ↦ inl off | inr low ↦ inr (omega (arith, low, less)) ];
  in_order =
      ap (λ (q : List DeliveryEvent). q ++ event ∷ []) h.in_order
      ∙ append_assoc l.taken l.sub.queue (event ∷ []);
}

-- Flags do not matter to the bounds, and a mark only frees the lag.
flags-IsSound :
    (l : Life) (s stands : Bool) (seq : ℕ) (d : Bool)
    → (d ≡ true) ⊎ (d ≡ l.sub.disconnected)
    → IsSound l
    → IsSound (record l {
      sub = record l.sub {
        shutdown_requested = s;
        receiver_open = stands;
        last_delivered_seq = seq;
        disconnected = d;
      };
    })
flags-IsSound l s stands seq d f h = record {
  bounded = h.bounded;
  capped = h.capped;
  patience = h.patience;
  tolerated = h.tolerated;
  evicted = elim f [
    | inl on ↦ inl on
    | inr same ↦ elim h.evicted [ inl off ↦ inl (same ∙ off) | inr low ↦ inr low ]
  ];
  in_order = h.in_order;
}

try_enqueue-IsSound :
    (event : CachedEvent) (l : Life)
    → IsSound l
    → IsSound (note (live event) l (try_enqueue event l.sub))
unfolding try_enqueue mark_disconnected
try_enqueue-IsSound event l h =
    let C : Subscriber × EnqueueOutcome → Type 0 = λ p. IsSound (note (live event) l p) in
    if_cases C l.sub.disconnected (λ _. h)
      (λ on.
        if_cases C l.sub.receiver_open
          (λ _.
            if_cases C (leb l.sub.capacity (length l.sub.queue))
              (λ _. fall_behind-IsSound (live event) l h on)
              (λ room.
                sent-IsSound (live event) l 0 l.sub.shutdown_requested h (not_leb→lt _ _ room)
                  (omega arith)))
          (λ _.
            flags-IsSound l l.sub.shutdown_requested l.sub.receiver_open l.sub.last_delivered_seq
              true (inl refl) h))

request_shutdown-IsSound :
    (l : Life) → IsSound l → IsSound (note shutdown l (request_shutdown l.sub))
unfolding request_shutdown mark_disconnected
request_shutdown-IsSound l h =
    let C : Subscriber × EnqueueOutcome → Type 0 = λ p. IsSound (note shutdown l p) in
    if_cases C l.sub.disconnected (λ _. h)
      (λ on.
        if_cases C l.sub.receiver_open
          (λ _.
            if_cases C (leb l.sub.capacity (length l.sub.queue))
              (λ _.
                flags-IsSound l true l.sub.receiver_open l.sub.last_delivered_seq l.sub.disconnected
                  (inr refl) h)
              (λ room.
                sent-IsSound shutdown l l.sub.lag true h (not_leb→lt _ _ room) (omega arith)))
          (λ _.
            flags-IsSound l true l.sub.receiver_open l.sub.last_delivered_seq true (inl refl) h))

moved-IsSound : (m : Move) (l : Life) → IsSound l → IsSound (moved m l)
unfolding moved mark_disconnected record_delivered
moved-IsSound (broadcasted event) l h = try_enqueue-IsSound event l h
moved-IsSound stopping l h = request_shutdown-IsSound l h
moved-IsSound received l h = receive-IsSound l l.sub.queue refl h
moved-IsSound hung_up l h =
    flags-IsSound l l.sub.shutdown_requested false l.sub.last_delivered_seq l.sub.disconnected
      (inr refl) h
moved-IsSound marked l h =
    flags-IsSound l l.sub.shutdown_requested l.sub.receiver_open l.sub.last_delivered_seq true
      (inl refl) h
moved-IsSound (delivered seq) l h =
    flags-IsSound l l.sub.shutdown_requested l.sub.receiver_open seq l.sub.disconnected (inr refl) h

moved_all-IsSound : (moves : List Move) (l : Life) → IsSound l → IsSound (moved_all moves l)
unfolding moved_all
moved_all-IsSound [] l h = h
moved_all-IsSound (m ∷ moves) l h = moved_all-IsSound moves (moved m l) (moved-IsSound m l h)

-- Whatever the broadcaster and the dispatch thread do, in any order: a subscriber's queue stays within
-- its capacity, which is at most 65536; its lag stays within its limit while it is connected; and what
-- the receiver took, followed by the queue, is what the channel accepted, in order.
pub moved_all-start :
    (id queue_depth max_lag : ℕ) (moves : List Move)
    → IsSound (moved_all moves (start id queue_depth max_lag))
moved_all-start id queue_depth max_lag moves =
    moved_all-IsSound moves (start id queue_depth max_lag) (start-IsSound id queue_depth max_lag)
