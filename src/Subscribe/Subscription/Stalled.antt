-- ===== src/Subscribe/Subscription/Stalled.antt =====
-- A subscriber that takes nothing from a full queue.
use canon.Prelude.{
  ℕ, ◌+◌, ◌%◌, ◌≤◌, ◌≡◌, sym, ap, ◌∙◌, subst, arith, if_cases, le→ltb, Bool, true, false, List, [],
  ◌∷◌, length, ltb, leb,
}
use canon.Bytes.{u64_mod}
use canon.Subscribe.EventCache.{CachedEvent}
use canon.Subscribe.Subscription.{
  EnqueueOutcome, Subscriber, mark_disconnected, fall_behind, try_enqueue, hard_max_subscriber_lag,
}

-- The outcomes of one event after the other, and the subscriber that they leave.
unfoldable pub enqueue_all : List CachedEvent → Subscriber → Subscriber × List EnqueueOutcome
enqueue_all [] s = (s, [])
enqueue_all (event ∷ events) s =
    let (after, outcome) = try_enqueue event s in
    let (last, outcomes) = enqueue_all events after in (last, outcome ∷ outcomes)

try_enqueue-full :
    (event : CachedEvent) (s : Subscriber)
    → s.disconnected ≡ false
    → s.receiver_open ≡ true
    → leb s.capacity (length s.queue) ≡ true
    → try_enqueue event s ≡ fall_behind s ((s.lag + 1) % u64_mod)
unfolding try_enqueue
try_enqueue-full event s on stands full = cc (on, stands, full)

no_wrap :
    (s : Subscriber)
    → s.max_lag ≤ hard_max_subscriber_lag
    → s.lag ≤ s.max_lag
    → (s.lag + 1) % u64_mod ≡ s.lag + 1
no_wrap s small low = omega (arith, small, low)

abbrev pub behind : Subscriber → ℕ → Subscriber
behind s n = record s { lag = n; disconnected = ltb s.max_lag n }

fall_behind-behind :
    (s : Subscriber) (n : ℕ) → s.disconnected ≡ false → (fall_behind s n).0 ≡ behind s n
unfolding mark_disconnected
fall_behind-behind s n on =
    if_cases (λ (p : Subscriber × EnqueueOutcome). p.0 ≡ behind s n) (ltb s.max_lag n)
      (λ e. ap (λ (b : Bool). record s { lag = n; disconnected = b }) (sym e))
      (λ e. ap (λ (b : Bool). record s { lag = n; disconnected = b }) (on ∙ sym e))

stepped :
    (event : CachedEvent) (s : Subscriber)
    → s.disconnected ≡ false
    → s.receiver_open ≡ true
    → leb s.capacity (length s.queue) ≡ true
    → s.max_lag ≤ hard_max_subscriber_lag
    → s.lag ≤ s.max_lag
    → (try_enqueue event s).0 ≡ behind s (s.lag + 1)
stepped event s on stands full small low =
    ap (λ (p : Subscriber × EnqueueOutcome). p.0) (try_enqueue-full event s on stands full)
    ∙ fall_behind-behind s ((s.lag + 1) % u64_mod) on
    ∙ ap (behind s) (no_wrap s small low)

-- A connected subscriber whose queue is full and stays so loses every event and keeps its queue as it
-- was; its lag counts the events, and it is marked disconnected when the lag passes its limit, not before.
-- Of the events, at most one passes the limit, which is at most 1000000.
pub enqueue_all-stalled :
    (events : List CachedEvent) (s : Subscriber)
    → s.disconnected ≡ false
    → s.receiver_open ≡ true
    → leb s.capacity (length s.queue) ≡ true
    → s.max_lag ≤ hard_max_subscriber_lag
    → s.lag + length events ≤ s.max_lag + 1
    → s.lag ≤ s.max_lag
    → (enqueue_all events s).0 ≡ record s {
      lag = s.lag + length events;
      disconnected = ltb s.max_lag (s.lag + length events);
    }
unfolding enqueue_all
enqueue_all-stalled [] s on stands full small sum low =
    let same : s.lag + 0 ≡ s.lag = omega arith in
    sym (
      ap (behind s) same
      ∙ ap (λ (b : Bool). record s { disconnected = b }) (le→ltb s.max_lag s.lag low ∙ sym on))
enqueue_all-stalled (event ∷ []) s on stands full small sum low =
    stepped event s on stands full small low
enqueue_all-stalled (event ∷ next ∷ events) s on stands full small sum low =
    let room : s.lag + 1 ≤ s.max_lag = omega (arith, sum) in
    subst
      (λ (t : Subscriber).
        (enqueue_all (next ∷ events) t).0 ≡ behind s (s.lag + length (event ∷ next ∷ events)))
      (sym (stepped event s on stands full small low))
      (enqueue_all-stalled (next ∷ events) (behind s (s.lag + 1))
          (le→ltb s.max_lag (s.lag + 1) room) stands full small (omega (arith, sum)) room
        ∙ ap (behind s) (omega arith))
