-- ===== src/Subscribe/EventCache.antt =====
-- runtime/canon-event-subscribe/src/event_cache.rs: the bounded cache of recent events from which a
-- resuming subscriber is backfilled. `&mut self` methods return the new cache.
pub mod History
pub mod Window
pub mod Hint
use canon.Prelude.{
  ℕ, ◌+◌, ◌-◌, ◌^◌, min, Bool, true, false, ◌||◌, ◌&&◌, Option, none, some, List, [], ◌∷◌, ◌++◌,
  length, front, back, pop_front, keep_if, ltb, leb, ◌==◌, if◌then◌else◌,
}
use canon.Prelude.Result.{Result, ok, err}

abbrev pub default_keep_history : ℕ
default_keep_history = 256

abbrev pub hard_max_keep_history : ℕ
hard_max_keep_history = 1_000_000

abbrev pub u64_max : ℕ
u64_max = 2 ^ 64 - 1

abbrev pub saturating_add : ℕ → ℕ → ℕ
saturating_add a b = min (a + b) u64_max

pub record CachedEvent : Type 0 where
  pub seq : ℕ
  pub payload : List ℕ

pub data RangeOutcome : Type 0 where
  in_window : (events : List CachedEvent) → RangeOutcome
  out_of_window : (oldest_available_seq : ℕ) → RangeOutcome
  at_live_tail : RangeOutcome

pub record EventCache : Type 0 where
  pub buffer : List CachedEvent
  pub capacity : ℕ
  pub last_pushed_seq : ℕ
  pub last_evicted_seq : Option ℕ

pub data PushError : Type 0 where
  out_of_order : (tried previous : ℕ) → PushError

pub data NewCacheError : Type 0 where
  zero_capacity : NewCacheError

unfoldable pub new : ℕ → Result NewCacheError EventCache
new capacity =
    if capacity == 0
    then err zero_capacity
    else ok (record {
      buffer = [];
      capacity = min capacity hard_max_keep_history;
      last_pushed_seq = 0;
      last_evicted_seq = none;
    })

abbrev seq_of : Option CachedEvent → Option ℕ
seq_of none = none
seq_of (some e) = some e.seq

unfoldable pub oldest_seq : EventCache → Option ℕ
oldest_seq c = seq_of (front c.buffer)

unfoldable pub newest_seq : EventCache → Option ℕ
newest_seq c = seq_of (back c.buffer)

-- `if let Some(evicted) = self.buffer.pop_front()`.
abbrev evict : Option CachedEvent → EventCache → EventCache
evict none c = c
evict (some evicted) c = record c {
  buffer = pop_front c.buffer;
  last_evicted_seq = some evicted.seq;
}

unfoldable pub make_room : EventCache → EventCache
make_room c = if length c.buffer == c.capacity then evict (front c.buffer) c else c

abbrev append : CachedEvent → EventCache → EventCache
append event c = record c { buffer = c.buffer ++ event ∷ []; last_pushed_seq = event.seq }

-- A refused push leaves the cache as it was.
unfoldable pub push : CachedEvent → EventCache → Result PushError EventCache
unfolding make_room
push event c =
    if event.seq == 0 || ltb event.seq c.last_pushed_seq
    then err (out_of_order event.seq c.last_pushed_seq)
    else ok (append event (make_room c))

abbrev same_seq : Option ℕ → Option CachedEvent → Bool
same_seq (some evicted) (some first) = evicted == first.seq
same_seq _ _ = false

unfoldable pub has_partial_front : EventCache → Bool
has_partial_front c = same_seq c.last_evicted_seq (front c.buffer)

-- The part of `range` behind the test for an empty buffer, at the seqs of its two ends.
unfoldable pub range_between : EventCache → ℕ → ℕ → ℕ → RangeOutcome
unfolding has_partial_front
range_between c from_seq oldest newest =
    if from_seq == 0
    then at_live_tail
    else if leb newest from_seq
    then at_live_tail
    else if ltb (saturating_add from_seq 1) oldest
    then out_of_window oldest
    else if has_partial_front c && ltb from_seq oldest
    then out_of_window (saturating_add oldest 1)
    else in_window (keep_if (λ e. ltb from_seq e.seq) c.buffer)

abbrev range_at : EventCache → ℕ → Option ℕ → Option ℕ → RangeOutcome
range_at c from_seq (some oldest) (some newest) = range_between c from_seq oldest newest
range_at c from_seq _ _ = at_live_tail

unfoldable pub range : EventCache → ℕ → RangeOutcome
unfolding oldest_seq newest_seq
range c from_seq = range_at c from_seq (oldest_seq c) (newest_seq c)

abbrev find_seq : ℕ → List CachedEvent → Option CachedEvent
find_seq seq [] = none
find_seq seq (e ∷ es) = if e.seq == seq then some e else find_seq seq es

unfoldable pub get : EventCache → ℕ → Option CachedEvent
get c seq = find_seq seq c.buffer
