-- ===== src/Subscribe/EventCache/Hint.antt =====
-- The seq that a refused backfill names for the retry.
use canon.Prelude.{
  ℕ, ◌-◌, ◌≤◌, ◌<◌, ◌≡◌, ◌≢◌, refl, sym, ap, ◌∙◌, subst, arith, true, false, inl, inr, ◌⊎◌, List,
  [], ◌∷◌, ◌++◌, length, front, back,
}
use canon.Subscribe.EventCache.{
  CachedEvent, EventCache, in_window, out_of_window, at_live_tail, saturating_add, u64_max,
  has_partial_front, range_between, range_at, seq_of, range,
}
use canon.Subscribe.EventCache.History.{
  SortedFrom, last_seq, Tracks, SortedFrom-split, last_seq-ge, last_seq-append,
}
use canon.Subscribe.EventCache.Window.{newer, back_or-last_seq, Compared, range_between-Compared}

newer-all : (n lo : ℕ) (xs : List CachedEvent) → SortedFrom lo xs → n < lo → newer n xs ≡ xs
newer-all n lo [] s h = refl
newer-all n lo (x ∷ xs) s h = ground (arith, newer-all n x.seq xs s.1)

length-newer : (n : ℕ) (xs : List CachedEvent) → length (newer n xs) ≤ length xs
length-newer n [] = omega arith
length-newer n (x ∷ xs) = ground (arith, length-newer n xs)

-- What a cache with a first event `x` was refused for.
abbrev OutReason : EventCache → CachedEvent → ℕ → ℕ → Type 0
OutReason c x n k =
    (1 ≤ n)
    × (((saturating_add n 1 < x.seq) × (k ≡ x.seq))
        ⊎ ((n < x.seq) × (has_partial_front c ≡ true) × (k ≡ saturating_add x.seq 1)))

module _ (c : EventCache) (x : CachedEvent) (newest : ℕ) where
  refused_why : (n k : ℕ) → range_between c n x.seq newest ≡ out_of_window k → OutReason c x n k
  refused_why n k h =
      let r = subst (Compared c n x.seq newest) h (range_between-Compared c n x.seq newest) in
      (r.0, r.2)

  -- A second refusal at the named seq would need an oldest event above it.
  not_refused_again :
      (n k j : ℕ)
      → x.seq ≤ newest
      → newest ≤ u64_max
      → OutReason c x n k
      → range_between c k x.seq newest ≢ out_of_window j
  not_refused_again n k j low high why h =
      let r = subst (Compared c k x.seq newest) h (range_between-Compared c k x.seq newest) in
      ground (arith, r, why)

range_first :
    (c : EventCache) (x : CachedEvent) (xs : List CachedEvent) (n : ℕ)
    → c.buffer ≡ x ∷ xs
    → range c n ≡ range_between c n x.seq (last_seq x.seq xs)
unfolding range
range_first c x xs n e =
    ap (λ b. range_at c n (seq_of (front b)) (seq_of (back b))) e
    ∙ ap (λ (k : ℕ). range_between c n x.seq k) (back_or-last_seq x xs)

range_empty : (c : EventCache) (n : ℕ) → c.buffer ≡ [] → range c n ≡ at_live_tail
unfolding range
range_empty c n e = ap (λ b. range_at c n (seq_of (front b)) (seq_of (back b))) e

List-cases :
    (xs : List CachedEvent) → (xs ≡ []) ⊎ ((p : CachedEvent × List CachedEvent) × (xs ≡ p.0 ∷ p.1))
List-cases [] = inl refl
List-cases (x ∷ xs) = inr ((x, xs), refl)

buffer_sorted :
    (history : List CachedEvent) (c : EventCache) (x : CachedEvent) (xs : List CachedEvent)
    → Tracks history c
    → c.buffer ≡ x ∷ xs
    → SortedFrom x.seq xs × (last_seq 1 history ≡ last_seq x.seq xs)
buffer_sorted history c x xs t e =
    let whole = t.splits ∙ ap (λ (b : List CachedEvent). t.dropped ++ b) e in
    let (_, rest) = SortedFrom-split 1 t.dropped (x ∷ xs) (subst (SortedFrom 1) whole t.sorted) in
    (rest.1, ap (last_seq 1) whole ∙ last_seq-append 1 t.dropped (x ∷ xs))

-- A client that retries at the seq that a refusal names is not refused again.
pub retry-accepted :
    (history : List CachedEvent) (c : EventCache) (n k j : ℕ)
    → Tracks history c
    → last_seq 1 history ≤ u64_max
    → range c n ≡ out_of_window k
    → range c k ≢ out_of_window j
retry-accepted history c n k j t u64 h again = elim (List-cases c.buffer) [
  | inl none_cached ↦ cc (range_empty c n none_cached)
  | inr ((x, xs), e) ↦
      let (sorted, top) = buffer_sorted history c x xs t e in
      not_refused_again c x (last_seq x.seq xs) n k j (last_seq-ge x.seq xs sorted)
        (omega (arith, top, u64))
        (refused_why c x (last_seq x.seq xs) n k (sym (range_first c x xs n e) ∙ h))
        (sym (range_first c x xs k e) ∙ again)
]

uncut_refusal :
    (c : EventCache) (x : CachedEvent) (n k : ℕ) {newest : ℕ}
    → has_partial_front c ≡ false
    → OutReason c x n k
    → x.seq ≤ newest
    → newest ≤ u64_max
    → (k ≡ x.seq) × (2 ≤ x.seq)
uncut_refusal c x n k uncut (positive, inl (far, same)) low high =
    (same, ground (arith, far, positive))
uncut_refusal c x n k uncut (positive, inr (below, cut, other)) low high = cc (uncut, cut)

before_oldest :
    (c : EventCache) (oldest newest : ℕ)
    → has_partial_front c ≡ false
    → 2 ≤ oldest
    → oldest ≤ newest
    → newest ≤ u64_max
    → range_between c (oldest - 1) oldest newest ≡ in_window (newer (oldest - 1) c.buffer)
unfolding range_between
before_oldest c oldest newest uncut two low high = ground arith

-- At the oldest seq the first event is left out, so the answer is never the whole buffer.
whole_not_newer :
    (c : EventCache) (x : CachedEvent) (xs : List CachedEvent) (newest : ℕ)
    → c.buffer ≡ x ∷ xs
    → range_between c x.seq x.seq newest ≢ in_window c.buffer
whole_not_newer c x xs newest e h =
    let r = subst (Compared c x.seq x.seq newest) h (range_between-Compared c x.seq x.seq newest) in
    ground (arith, ap length (sym e ∙ r.0 ∙ ap (newer x.seq) e), length-newer x.seq xs)

-- Where no batch was cut at the front, the named seq `k` is not the smallest that works: a retry at
-- `k - 1` is handed the whole buffer, and one at `k` never is.
pub retry-not_smallest :
    (history : List CachedEvent) (c : EventCache) (n k : ℕ)
    → Tracks history c
    → last_seq 1 history ≤ u64_max
    → has_partial_front c ≡ false
    → range c n ≡ out_of_window k
    → (range c (k - 1) ≡ in_window c.buffer) × (range c k ≢ in_window c.buffer)
retry-not_smallest history c n k t u64 uncut h = elim (List-cases c.buffer) [
  | inl none_cached ↦ cc (range_empty c n none_cached)
  | inr ((x, xs), e) ↦
      let (sorted, top) = buffer_sorted history c x xs t e in
      let newest = last_seq x.seq xs in
      let why = refused_why c x newest n k (sym (range_first c x xs n e) ∙ h) in
      let high : newest ≤ u64_max = omega (arith, top, u64) in
      let (is_oldest, two) = uncut_refusal c x n k uncut why (last_seq-ge x.seq xs sorted) high in
      (
        range_first c x xs (k - 1) e
            ∙ ap (λ (o : ℕ). range_between c (o - 1) x.seq newest) is_oldest
            ∙ before_oldest c x.seq newest uncut two (last_seq-ge x.seq xs sorted) high
            ∙ ap in_window (
                ap (newer (x.seq - 1)) e
                ∙ newer-all (x.seq - 1) x.seq (x ∷ xs) (omega arith, sorted) (omega arith)
                ∙ sym e),
        λ all. whole_not_newer c x xs newest e (
            ap (λ (o : ℕ). range_between c o x.seq newest) (sym is_oldest)
            ∙ sym (range_first c x xs k e)
            ∙ all),
      )
]
