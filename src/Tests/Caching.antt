-- ===== src/Tests/Caching.antt =====
-- The event cache of runtime/canon-event-subscribe, filled past its capacity.
use canon.Prelude.{
  ℕ, ◌-◌, ◌≡◌, ◌≢◌, refl, min, arith, false, some, none, List, [], ◌∷◌, drop, length,
}
use canon.Prelude.Result.{ok}
use canon.Subscribe.EventCache.{
  CachedEvent, EventCache, hard_max_keep_history, new, push, has_partial_front, range,
  range_between, in_window, out_of_window,
}
use canon.Subscribe.EventCache.History.{
  Tracks, PushOutcome, push_all, push_all-new-Tracks, push_outcome, push_all-new,
}
use canon.Subscribe.EventCache.Window.{Answered, range-Answered}
use canon.Subscribe.EventCache.Hint.{retry-accepted, retry-not_smallest}

abbrev event : ℕ → CachedEvent
event n = record { seq = n; payload = n ∷ [] }

abbrev pushed : List CachedEvent
pushed = event 1 ∷ event 2 ∷ event 5 ∷ event 6 ∷ event 7 ∷ []

abbrev empty_cache : EventCache
empty_cache = record { buffer = []; capacity = 3; last_pushed_seq = 0; last_evicted_seq = none }

abbrev filled : EventCache
filled = record {
  buffer = event 5 ∷ event 6 ∷ event 7 ∷ [];
  capacity = 3;
  last_pushed_seq = 7;
  last_evicted_seq = some 2;
}

new_three : new 3 ≡ ok empty_cache
unfolding new
new_three = refl

fill_three : push_all pushed empty_cache ≡ ok filled
unfolding push_all push
fill_three = refl

filled-Tracks : Tracks pushed filled
filled-Tracks = push_all-new-Tracks 3 pushed empty_cache filled new_three fill_three

push_all-new_example :
    event 5 ∷ event 6 ∷ event 7 ∷ [] ≡ drop (length pushed - min 3 hard_max_keep_history) pushed
push_all-new_example = push_all-new 3 pushed empty_cache filled new_three fill_three

push_outcome_example : PushOutcome pushed (event 9) filled (push (event 9) filled)
push_outcome_example = push_outcome pushed (event 9) filled filled-Tracks

range-Answered_example : Answered pushed filled 4 (range filled 4)
range-Answered_example = range-Answered pushed filled 4 filled-Tracks (omega arith)

-- The run that drops nothing: `range` at 4 hands out what stands behind 4.
range_four : range filled 4 ≡ in_window (event 5 ∷ event 6 ∷ event 7 ∷ [])
unfolding range range_between
range_four = refl

range_two : range filled 2 ≡ out_of_window 5
unfolding range range_between
range_two = refl

retry-accepted_example : range filled 5 ≢ out_of_window 6
retry-accepted_example = retry-accepted pushed filled 2 5 6 filled-Tracks (omega arith) range_two

whole_front : has_partial_front filled ≡ false
unfolding has_partial_front
whole_front = refl

retry-not_smallest_example :
    (range filled (5 - 1) ≡ in_window filled.buffer) × (range filled 5 ≢ in_window filled.buffer)
retry-not_smallest_example =
    retry-not_smallest pushed filled 2 5 filled-Tracks (omega arith) whole_front range_two
