-- ===== src/Subscribe/EventCache/History.antt =====
-- The cache against the list of all events that were ever pushed onto it.
use canon.Prelude.{
  ℕ, ◌+◌, ◌-◌, ◌≤◌, ◌<◌, ◌≡◌, refl, sym, ap, ◌∙◌, subst, min, arith, inl, inr, ◌⊎◌, Option, none,
  some, List, [], ◌∷◌, ◌++◌, append-nil, append_assoc, length, length-append, ==_iff, front, drop,
  drop-append, ltb, ◌==◌, ◌||◌, Bool-cases,
}
use canon.Prelude.Result.{Result, ok, err, ◌>>=◌}
use canon.Subscribe.EventCache.{
  CachedEvent, EventCache, PushError, out_of_order, hard_max_keep_history, new, make_room, push,
  evict, append,
}

-- Seqs do not decrease, and the first is at least `lo`.
abbrev pub SortedFrom : ℕ → List CachedEvent → Type 0
SortedFrom lo [] = Unit
SortedFrom lo (e ∷ es) = (lo ≤ e.seq) × SortedFrom e.seq es

-- The seq of the last event, or `lo` where there is none.
abbrev pub last_seq : ℕ → List CachedEvent → ℕ
last_seq lo [] = lo
last_seq lo (e ∷ es) = last_seq e.seq es

abbrev pub last_seq? : List CachedEvent → Option ℕ
last_seq? [] = none
last_seq? (e ∷ es) = some (last_seq e.seq es)

-- `history` is every event that was pushed; the cache holds its newest part, at most `capacity`
-- events, and all of it until the first eviction.
pub record Tracks (history : List CachedEvent) (c : EventCache) : Type 0 where
  pub dropped : List CachedEvent
  pub splits : history ≡ dropped ++ c.buffer
  pub sorted : SortedFrom 1 history
  pub evicted : c.last_evicted_seq ≡ last_seq? dropped
  pub pushed : c.last_pushed_seq ≡ last_seq 0 history
  pub bounded : length c.buffer ≤ c.capacity
  pub full : (length dropped ≡ 0) ⊎ (length c.buffer ≡ c.capacity)
  pub room : 1 ≤ c.capacity

pub last_seq-append :
    (lo : ℕ) (xs ys : List CachedEvent) → last_seq lo (xs ++ ys) ≡ last_seq (last_seq lo xs) ys
last_seq-append lo [] ys = refl
last_seq-append lo (x ∷ xs) ys = last_seq-append x.seq xs ys

pub last_seq?-append :
    (xs : List CachedEvent) (e : CachedEvent) → last_seq? (xs ++ e ∷ []) ≡ some e.seq
last_seq?-append [] e = refl
last_seq?-append (x ∷ xs) e = ap some (last_seq-append x.seq xs (e ∷ []))

pub SortedFrom-append :
    (lo : ℕ) (xs ys : List CachedEvent)
    → SortedFrom lo xs
    → SortedFrom (last_seq lo xs) ys
    → SortedFrom lo (xs ++ ys)
SortedFrom-append lo [] ys h k = k
SortedFrom-append lo (x ∷ xs) ys h k = (h.0, SortedFrom-append x.seq xs ys h.1 k)

pub SortedFrom-split :
    (lo : ℕ) (xs ys : List CachedEvent)
    → SortedFrom lo (xs ++ ys)
    → SortedFrom lo xs × SortedFrom (last_seq lo xs) ys
SortedFrom-split lo [] ys h = (tt, h)
SortedFrom-split lo (x ∷ xs) ys h = let (a, b) = SortedFrom-split x.seq xs ys h.1 in ((h.0, a), b)

pub last_seq-ge : (lo : ℕ) (xs : List CachedEvent) → SortedFrom lo xs → lo ≤ last_seq lo xs
last_seq-ge lo [] h = omega arith
last_seq-ge lo (x ∷ xs) h = omega (arith, last_seq-ge x.seq xs h.1)

last_seq-floor : (lo lo' : ℕ) (xs : List CachedEvent) → lo ≤ last_seq lo' xs → lo ≤ last_seq lo xs
last_seq-floor lo lo' [] h = omega arith
last_seq-floor lo lo' (x ∷ xs) h = h

-- A history never holds the reserved seq 0, so an empty one and a pushed one differ in their last.
last_seq-one :
    (history : List CachedEvent) (n : ℕ) → 1 ≤ n → last_seq 0 history ≤ n → last_seq 1 history ≤ n
last_seq-one [] n h k = h
last_seq-one (e ∷ es) n h k = k

-- Before the append: the room that `push` makes moves the oldest event to the dropped ones.
record Roomy (history : List CachedEvent) (c : EventCache) : Type 0 where
  dropped : List CachedEvent
  splits : history ≡ dropped ++ c.buffer
  evicted : c.last_evicted_seq ≡ last_seq? dropped
  below : length c.buffer < c.capacity
  full : (length dropped ≡ 0) ⊎ (length c.buffer + 1 ≡ c.capacity)

evicting :
    (history dropped b : List CachedEvent) (cap last : ℕ) (old_seq : Option ℕ)
    → history ≡ dropped ++ b
    → length b ≡ cap
    → 1 ≤ cap
    → Roomy history (
        evict (front b) (record {
          buffer = b;
          capacity = cap;
          last_pushed_seq = last;
          last_evicted_seq = old_seq;
        }))
evicting history dropped [] cap last old_seq split tight room = absurd (omega arith)
evicting history dropped (x ∷ rest) cap last old_seq split tight room = record {
  dropped = dropped ++ x ∷ [];
  splits = split ∙ sym (append_assoc dropped (x ∷ []) rest);
  evicted = sym (last_seq?-append dropped x);
  below = omega arith;
  full = inr (omega arith);
}

make_room-Roomy :
    (history : List CachedEvent) (c : EventCache) → Tracks history c → Roomy history (make_room c)
unfolding make_room
make_room-Roomy history c t = elim (Bool-cases (length c.buffer == c.capacity)) [
  | inl tight ↦ rw tight (
      evicting history t.dropped c.buffer c.capacity c.last_pushed_seq c.last_evicted_seq t.splits
        ((==_iff (length c.buffer) c.capacity).0 tight) t.room)
  | inr loose ↦ rw loose (record {
    dropped = t.dropped;
    splits = t.splits;
    evicted = t.evicted;
    below = ground (arith, t.bounded);
    full = ground (arith, t.full);
  })
]

capacity-make_room : (c : EventCache) → (make_room c).capacity ≡ c.capacity
unfolding make_room
capacity-make_room c = ground arith

append-Tracks :
    (history : List CachedEvent) (c : EventCache) (e : CachedEvent)
    → Roomy history c
    → SortedFrom 1 history
    → 1 ≤ e.seq
    → last_seq 0 history ≤ e.seq
    → Tracks (history ++ e ∷ []) (append e c)
append-Tracks history c e r sorted nonzero later = record {
  dropped = r.dropped;
  splits =
      ap (λ (h : List CachedEvent). h ++ e ∷ []) r.splits
      ∙ append_assoc r.dropped c.buffer (e ∷ []);
  sorted =
      SortedFrom-append 1 history (e ∷ []) sorted (last_seq-one history e.seq nonzero later, tt);
  evicted = r.evicted;
  pushed = sym (last_seq-append 0 history (e ∷ []));
  bounded = omega (arith, length-append c.buffer (e ∷ []), r.below);
  full = ground (arith, r.full, length-append c.buffer (e ∷ []));
  room = omega (arith, r.below);
}

-- What a push returns, as an extension of the history or a refusal.
abbrev pub PushOutcome :
    List CachedEvent → CachedEvent → EventCache → Result PushError EventCache → Type 0
PushOutcome history e c (ok c') =
    Tracks (history ++ e ∷ []) c'
    × (c'.capacity ≡ c.capacity)
    × (1 ≤ e.seq)
    × (last_seq 0 history ≤ e.seq)
PushOutcome history e c (err x) =
    (x ≡ out_of_order e.seq (last_seq 0 history)) × ((e.seq ≡ 0) ⊎ (e.seq < last_seq 0 history))

-- On a cache that tracks a history, a push is refused on seq 0 and on a seq below the last one
-- pushed, with that last seq, and leaves no new cache; any other push returns a cache of the same
-- capacity that tracks the history with the event at its end.
pub push_outcome :
    (history : List CachedEvent) (e : CachedEvent) (c : EventCache)
    → Tracks history c
    → PushOutcome history e c (push e c)
unfolding push
push_outcome history e c t = elim (Bool-cases (e.seq == 0 || ltb e.seq c.last_pushed_seq)) [
  | inl refused ↦ rw refused (ap (out_of_order e.seq) t.pushed, ground (arith, t.pushed))
  | inr fine ↦
      let nonzero : 1 ≤ e.seq = ground arith in
      let later : last_seq 0 history ≤ e.seq = ground (arith, t.pushed) in
      rw fine (
        append-Tracks history (make_room c) e (make_room-Roomy history c t) t.sorted nonzero later,
        capacity-make_room c,
        nonzero,
        later,
      )
]

-- The empty cache tracks the empty history.
pub new-Tracks : (capacity : ℕ) (c : EventCache) → new capacity ≡ ok c → Tracks [] c
unfolding new
new-Tracks capacity c h = record {
  dropped = [];
  splits = ground arith;
  sorted = tt;
  evicted = ground arith;
  pushed = ground arith;
  bounded = ground arith;
  full = inl refl;
  room = ground arith;
}

capacity-new :
    (capacity : ℕ) (c : EventCache)
    → new capacity ≡ ok c
    → c.capacity ≡ min capacity hard_max_keep_history
unfolding new
capacity-new capacity c h = ground arith

-- Any run of accepted pushes, from a new cache.
unfoldable pub push_all : List CachedEvent → EventCache → Result PushError EventCache
push_all [] c = ok c
push_all (e ∷ es) c = push e c >>= push_all es

continue :
    (history : List CachedEvent) (e : CachedEvent) (c c' : EventCache)
    (r : Result PushError EventCache) (k : EventCache → Result PushError EventCache)
    → PushOutcome history e c r
    → (r >>= k) ≡ ok c'
    → (d : EventCache) × Tracks (history ++ e ∷ []) d × (d.capacity ≡ c.capacity) × (k d ≡ ok c')
continue history e c c' (ok d) k o h = (d, o.0, o.1, h)
continue history e c c' (err x) k o h = cc h

push_all-Tracks :
    (history es : List CachedEvent) (c c' : EventCache)
    → Tracks history c
    → push_all es c ≡ ok c'
    → Tracks (history ++ es) c' × (c'.capacity ≡ c.capacity)
unfolding push_all
push_all-Tracks history [] c c' t h =
    let same : c ≡ c' = cc h in
    (subst (λ k. Tracks k c') (sym (append-nil history)) (subst (Tracks history) same t), cc same)
push_all-Tracks history (e ∷ es) c c' t h =
    let (d, t', cap, more) =
      continue history e c c' (push e c) (push_all es) (push_outcome history e c t) h in
    let (all, cap') = push_all-Tracks (history ++ e ∷ []) es d c' t' more in
    (subst (λ k. Tracks k c') (append_assoc history (e ∷ []) es) all, cap' ∙ cap)

-- From a new cache, a run of accepted pushes leaves a cache that tracks the run.
pub push_all-new-Tracks :
    (capacity : ℕ) (es : List CachedEvent) (c c' : EventCache)
    → new capacity ≡ ok c
    → push_all es c ≡ ok c'
    → Tracks es c'
push_all-new-Tracks capacity es c c' made ran =
    (push_all-Tracks [] es c c' (new-Tracks capacity c made) ran).0

newest_part :
    (history : List CachedEvent) (c : EventCache)
    → Tracks history c
    → c.buffer ≡ drop (length history - c.capacity) history
newest_part history c t =
    let sizes : length history ≡ length t.dropped + length c.buffer =
      ap length t.splits ∙ length-append t.dropped c.buffer in
    let cut : length history - c.capacity ≡ length t.dropped = ground (arith, t.full, t.bounded) in
    sym (
      ap (λ (n : ℕ). drop n history) cut
      ∙ ap (drop (length t.dropped)) t.splits
      ∙ drop-append t.dropped c.buffer)

-- After any run of accepted pushes onto a new cache of nonzero capacity, the cache holds exactly
-- the newest events, as many as the clamped capacity, in the order in which they were pushed.
pub push_all-new :
    (capacity : ℕ) (es : List CachedEvent) (c c' : EventCache)
    → new capacity ≡ ok c
    → push_all es c ≡ ok c'
    → c'.buffer ≡ drop (length es - min capacity hard_max_keep_history) es
push_all-new capacity es c c' made ran =
    let (t, cap) = push_all-Tracks [] es c c' (new-Tracks capacity c made) ran in
    newest_part es c' t
    ∙ ap (λ (n : ℕ). drop (length es - n) es) (cap ∙ capacity-new capacity c made)
