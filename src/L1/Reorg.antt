-- ===== src/L1/Reorg.antt =====
-- runtime/canon-l1-ingest/src/reorg.rs: the sliding window of L1 block headers. A 32-byte hash
-- stands as the number that its bytes spell, since the code only compares hashes. `&mut self`
-- methods return the new window; an error leaves it as it was.
pub mod Chain
pub mod Outcome
pub mod Fork
pub mod Invariant
use canon.Prelude.{
  ℕ, ◌+◌, ◌-◌, ◌%◌, suc, Bool, true, false, ◌||◌, ◌&&◌, Option, none, some, List, [], ◌∷◌, ◌++◌,
  length, take, drop, front, back, pop_front, ltb, leb, ◌==◌, if◌then◌else◌,
}
use canon.Prelude.Result.{Result, ok, err}
use canon.Bytes.{u64_mod}

abbrev pub TopicHash : Type 0
TopicHash = ℕ

pub record BlockHeader : Type 0 where
  pub number : ℕ
  pub hash : TopicHash
  pub parent_hash : TopicHash

pub data ReorgError : Type 0 where
  deep_reorg : (incoming_number window_floor : ℕ) → ReorgError
  orphaned_parent : (incoming_number : ℕ) → ReorgError
  non_monotone : (incoming_number last_seen : ℕ) → ReorgError

pub data AdvanceOutcome : Type 0 where
  advanced : AdvanceOutcome
  reorged : (dropped_count dropped_from_number : ℕ) → AdvanceOutcome

pub record ReorgWindow : Type 0 where
  pub capacity : ℕ
  pub buffer : List BlockHeader

-- `assert!(capacity > 0)`: `none` is the panic.
unfoldable pub new : ℕ → Option ReorgWindow
new capacity = if ltb 0 capacity then some (record { capacity = capacity; buffer = [] }) else none

-- `pop_front` when full, then `push_back`.
unfoldable pub push_bounded : ℕ → List BlockHeader → BlockHeader → List BlockHeader
push_bounded capacity buffer h =
    (if length buffer == capacity then pop_front buffer else buffer) ++ h ∷ []

unfoldable pub seed_from : ℕ → List BlockHeader → List BlockHeader → List BlockHeader
seed_from capacity buffer [] = buffer
seed_from capacity buffer (h ∷ hs) = seed_from capacity (push_bounded capacity buffer h) hs

unfoldable pub seed : List BlockHeader → ReorgWindow → ReorgWindow
seed headers w = record w { buffer = seed_from w.capacity [] headers }

unfoldable pub head : ReorgWindow → Option BlockHeader
head w = back w.buffer

unfoldable pub tail : ReorgWindow → Option BlockHeader
tail w = front w.buffer

abbrev any_hash : TopicHash → List BlockHeader → Bool
any_hash hash [] = false
any_hash hash (h ∷ hs) = h.hash == hash || any_hash hash hs

unfoldable pub contains_hash : TopicHash → ReorgWindow → Bool
contains_hash hash w = any_hash hash w.buffer

-- `number + 1` of a `u64`, as the release build adds.
abbrev pub next_number : ℕ → ℕ
next_number n = (n + 1) % u64_mod

abbrev pub is_parent : BlockHeader → BlockHeader → Bool
is_parent incoming h = h.hash == incoming.parent_hash && next_number h.number == incoming.number

-- The index of the last header that the test accepts, counted from `i`: the walk goes backwards.
unfoldable pub rposition : (BlockHeader → Bool) → List BlockHeader → ℕ → Option ℕ
rposition accepts [] i = none
rposition accepts (h ∷ hs) i = elim (rposition accepts hs (i + 1)) [
  | some j ↦ some j
  | none ↦ if accepts h then some i else none
]

abbrev pub number_or : ℕ → Option BlockHeader → ℕ
number_or d none = d
number_or d (some h) = h.number

abbrev pub Answer : Type 0
Answer = ReorgWindow × Result ReorgError AdvanceOutcome

-- What follows the walk: the headers behind the parent make way for the incoming one.
unfoldable pub replace_after : BlockHeader → ReorgWindow → Option ℕ → Answer
replace_after incoming w none = (w, err (orphaned_parent incoming.number))
replace_after incoming w (some i) = (
  record w { buffer = take (i + 1) w.buffer ++ incoming ∷ [] },
  ok (
      reorged (length w.buffer - (i + 1))
        (number_or incoming.number (front (drop (i + 1) w.buffer)))),
)

unfoldable pub walk_back : BlockHeader → ReorgWindow → Answer
unfolding replace_after rposition
walk_back incoming w = replace_after incoming w (rposition (is_parent incoming) w.buffer 0)

-- `advance` on a window whose head is `last`.
unfoldable pub advance_onto : BlockHeader → ReorgWindow → BlockHeader → Answer
unfolding tail
advance_onto incoming w last =
    let window_floor = number_or last.number (tail w) in
    if leb incoming.number window_floor
    then (w, err (deep_reorg incoming.number window_floor))
    else if incoming.number == next_number last.number && incoming.parent_hash == last.hash
    then (record w { buffer = push_bounded w.capacity w.buffer incoming }, ok advanced)
    else if leb incoming.number last.number
    then walk_back incoming w
    else if ltb (next_number last.number) incoming.number
    then (w, err (non_monotone incoming.number last.number))
    else walk_back incoming w

abbrev advance_from : BlockHeader → ReorgWindow → Option BlockHeader → Answer
advance_from incoming w none = (record w { buffer = w.buffer ++ incoming ∷ [] }, ok advanced)
advance_from incoming w (some last) = advance_onto incoming w last

unfoldable pub advance : BlockHeader → ReorgWindow → Answer
unfolding head
advance incoming w = advance_from incoming w (head w)
