-- ===== src/Subscribe/EventCache/Window.antt =====
-- A backfill against the whole history: what `range` hands out, and what it withholds.
use canon.Prelude.{
  ℕ, ◌≤◌, ◌<◌, ◌≡◌, ◌≢◌, refl, sym, ap, ◌∙◌, subst, arith, true, false, inl, inr, ◌⊎◌, Option, some,
  List, [], ◌∷◌, ◌++◌, front, back_or, keep_if, length, ltb, leb, ◌==◌, ◌&&◌, Bool-cases, ==_iff,
  leb→le, ltb→lt,
}
use canon.Subscribe.EventCache.{
  CachedEvent, EventCache, RangeOutcome, in_window, out_of_window, at_live_tail, saturating_add,
  u64_max, same_seq, has_partial_front, range_between, range,
}
use canon.Subscribe.EventCache.History.{
  SortedFrom, last_seq, last_seq?, Tracks, SortedFrom-split, last_seq-ge, last_seq-append,
}

-- The events behind `from_seq`.
abbrev pub newer : ℕ → List CachedEvent → List CachedEvent
newer from_seq es = keep_if (λ e. ltb from_seq e.seq) es

newer-append : (n : ℕ) (xs ys : List CachedEvent) → newer n (xs ++ ys) ≡ newer n xs ++ newer n ys
newer-append n [] ys = refl
newer-append n (x ∷ xs) ys = ground (arith, newer-append n xs ys)

newer-none :
    (n lo : ℕ) (xs : List CachedEvent) → SortedFrom lo xs → last_seq lo xs ≤ n → newer n xs ≡ []
newer-none n lo [] h k = refl
newer-none n lo (x ∷ xs) h k = ground (arith, newer-none n x.seq xs h.1 k, last_seq-ge x.seq xs h.1)

pub back_or-last_seq :
    (x : CachedEvent) (xs : List CachedEvent) → (back_or x xs).seq ≡ last_seq x.seq xs
back_or-last_seq x [] = refl
back_or-last_seq x (y ∷ ys) = back_or-last_seq y ys

-- What each answer of `range_between` says of the numbers that it compared.
abbrev pub Compared : EventCache → ℕ → ℕ → ℕ → RangeOutcome → Type 0
Compared c n oldest newest (in_window evs) =
    (evs ≡ newer n c.buffer)
    × (1 ≤ n)
    × (n < newest)
    × (oldest ≤ saturating_add n 1)
    × ((has_partial_front c ≡ false) ⊎ (oldest ≤ n))
Compared c n oldest newest (out_of_window k) =
    (1 ≤ n)
    × (n < newest)
    × (((saturating_add n 1 < oldest) × (k ≡ oldest))
        ⊎ ((n < oldest) × (has_partial_front c ≡ true) × (k ≡ saturating_add oldest 1)))
Compared c n oldest newest at_live_tail = (n ≡ 0) ⊎ (newest ≤ n)

pub range_between-Compared :
    (c : EventCache) (n oldest newest : ℕ)
    → Compared c n oldest newest (range_between c n oldest newest)
unfolding range_between
range_between-Compared c n oldest newest = elim (Bool-cases (n == 0)) [
  | inl z ↦ rw z (inl ((==_iff n 0).0 z))
  | inr z ↦ rw z (elim (Bool-cases (leb newest n)) [
    | inl l ↦ rw l (inr (leb→le newest n l))
    | inr l ↦ rw l (elim (Bool-cases (ltb (saturating_add n 1) oldest)) [
      | inl o ↦ rw o (ground arith, ground arith, inl (ltb→lt (saturating_add n 1) oldest o, refl))
      | inr o ↦ rw o (elim (Bool-cases (has_partial_front c && ltb n oldest)) [
        | inl p ↦ rw p (ground arith, ground arith, inr (ground arith, ground arith, refl))
        | inr p ↦ rw p (refl, ground arith, ground arith, ground arith, ground arith)
      ])
    ])
  ])
]

-- The dropped events against the seq at the front of the buffer.
dropped_behind :
    (n oldest : ℕ) (lost : List CachedEvent) (evicted : Option ℕ) (first : CachedEvent)
    → evicted ≡ last_seq? lost
    → first.seq ≡ oldest
    → SortedFrom 1 lost
    → last_seq 1 lost ≤ oldest
    → oldest ≤ saturating_add n 1
    → (same_seq evicted (some first) ≡ false) ⊎ (oldest ≤ n)
    → newer n lost ≡ []
dropped_behind n oldest [] evicted first e f s l o p = refl
dropped_behind n oldest (g ∷ gs) evicted first e f s l o p =
    let partial : (same_seq (some (last_seq g.seq gs)) (some first) ≡ false) ⊎ (oldest ≤ n) =
      subst (λ v. (same_seq v (some first) ≡ false) ⊎ (oldest ≤ n)) e p in
    newer-none n 1 (g ∷ gs) s (ground (arith, partial))

-- The answers of `range`, against the history.
abbrev pub Answered : List CachedEvent → EventCache → ℕ → RangeOutcome → Type 0
Answered history c n (in_window evs) = (1 ≤ n) × (evs ≡ newer n history) × (evs ≢ [])
Answered history c n at_live_tail = (n ≡ 0) ⊎ (newer n history ≡ [])
Answered history c n (out_of_window k) = (1 ≤ n) × (n < k) × (newer n history ≢ [])

pub newer-some :
    (n : ℕ) (x : CachedEvent) (xs : List CachedEvent)
    → n < last_seq x.seq xs
    → newer n (x ∷ xs) ≢ []
newer-some n x [] h = ground arith
newer-some n x (y ∷ ys) h = ground (arith, newer-some n y ys h)

append-ne-nil : (xs ys : List CachedEvent) → ys ≢ [] → xs ++ ys ≢ []
append-ne-nil [] ys h = h
append-ne-nil (x ∷ xs) ys h = λ e. cc e

-- A cache whose buffer begins with `x`: the answers follow from what was compared.
module _ (history lost : List CachedEvent) (x : CachedEvent) (xs : List CachedEvent)
    (c : EventCache) (n : ℕ) (buffer : c.buffer ≡ x ∷ xs) (splits : history ≡ lost ++ (x ∷ xs))
    (sorted : SortedFrom 1 history) (evicted : c.last_evicted_seq ≡ last_seq? lost)
    (u64 : last_seq 1 history ≤ u64_max) where
  sorted_parts : SortedFrom 1 lost × (last_seq 1 lost ≤ x.seq) × SortedFrom x.seq xs
  sorted_parts =
      let (a, b) = SortedFrom-split 1 lost (x ∷ xs) (subst (SortedFrom 1) splits sorted) in
      (a, b.0, b.1)

  last_of_history : last_seq 1 history ≡ last_seq x.seq xs
  last_of_history = ap (last_seq 1) splits ∙ last_seq-append 1 lost (x ∷ xs)

  newer_parts : newer n history ≡ newer n lost ++ newer n (x ∷ xs)
  newer_parts = ap (newer n) splits ∙ newer-append n lost (x ∷ xs)

  newer_exists : n < last_seq x.seq xs → newer n history ≢ []
  newer_exists h e =
      append-ne-nil (newer n lost) (newer n (x ∷ xs)) (newer-some n x xs h) (sym newer_parts ∙ e)

  Compared-Answered :
      (r : RangeOutcome) → Compared c n x.seq (last_seq x.seq xs) r → Answered history c n r
  unfolding has_partial_front
  Compared-Answered (in_window evs) (taken, positive, below, low, partial) =
      let (sl, ll, sx) = sorted_parts in
      let front_of : (same_seq c.last_evicted_seq (some x) ≡ false) ⊎ (x.seq ≤ n) =
        subst (λ b. (same_seq c.last_evicted_seq (front b) ≡ false) ⊎ (x.seq ≤ n)) buffer partial in
      let none_lost =
        dropped_behind n x.seq lost c.last_evicted_seq x evicted refl sl ll low front_of in
      let all_taken : evs ≡ newer n (x ∷ xs) = taken ∙ ap (newer n) buffer in
      (
        positive,
        all_taken
            ∙ sym (newer_parts ∙ ap (λ (l : List CachedEvent). l ++ newer n (x ∷ xs)) none_lost),
        λ e. newer-some n x xs below (sym all_taken ∙ e),
      )
  Compared-Answered (out_of_window k) (positive, below, why) =
      let (sl, ll, sx) = sorted_parts in
      let top = last_seq-ge x.seq xs sx in
      (positive, ground (arith, why, last_of_history, u64, top), newer_exists below)
  Compared-Answered at_live_tail (inl zero_from) = inl zero_from
  Compared-Answered at_live_tail (inr past) =
      inr (newer-none n 1 history sorted (omega (arith, last_of_history, past)))

empty_history :
    (history lost : List CachedEvent) (cap : ℕ)
    → history ≡ lost ++ []
    → (length lost ≡ 0) ⊎ (0 ≡ cap)
    → 1 ≤ cap
    → history ≡ []
empty_history history [] cap e f r = e
empty_history history (x ∷ xs) cap e f r = absurd (ground (arith, f))

range_tracked :
    (history b : List CachedEvent) (cap last : ℕ) (evicted : Option ℕ) (n : ℕ)
    → Tracks history
        (record { buffer = b; capacity = cap; last_pushed_seq = last; last_evicted_seq = evicted })
    → last_seq 1 history ≤ u64_max
    → Answered history
        (record { buffer = b; capacity = cap; last_pushed_seq = last; last_evicted_seq = evicted })
        n
        (range
          (record {
            buffer = b;
            capacity = cap;
            last_pushed_seq = last;
            last_evicted_seq = evicted;
          })
          n)
unfolding range
range_tracked history [] cap last evicted n t u64 =
    inr (ap (newer n) (empty_history history t.dropped cap t.splits t.full t.room))
range_tracked history (x ∷ xs) cap last evicted n t u64 = rw (back_or-last_seq x xs) (
    Compared-Answered history t.dropped x xs _ n refl t.splits t.sorted t.evicted u64 _
      (range_between-Compared _ n x.seq (last_seq x.seq xs)))

-- For a cache that tracks a history of 64-bit seqs, a backfill from `n` answers as follows. In the
-- window `n` is at least 1, and it hands out all events of the history with a seq above `n`, in order
-- and at least one; at the live tail either `n` is 0 or no event of the history is above `n`; and out
-- of the window `n` is at least 1, the history has events above `n`, and the seq that is named is above
-- `n`. So 0 is answered with the live tail whatever is cached, where the comment on `range` promises
-- the full contents.
pub range-Answered :
    (history : List CachedEvent) (c : EventCache) (n : ℕ)
    → Tracks history c
    → last_seq 1 history ≤ u64_max
    → Answered history c n (range c n)
range-Answered history c n t u64 =
    range_tracked history c.buffer c.capacity c.last_pushed_seq c.last_evicted_seq n t u64
