-- ===== src/L1/Reorg/Outcome.antt =====
-- What each answer of `advance` means for the chain.
use canon.Prelude.{
  ℕ, ◌+◌, ◌-◌, ◌≤◌, ◌<◌, ◌≡◌, ◌≢◌, refl, sym, ap, ◌∙◌, subst, arith, Bool, true, false, inl, inr,
  ◌⊎◌, Option, none, some, Bool-cases, List, [], ◌∷◌, ◌++◌, length, take, drop, front, back,
  back_or, All, leb, ltb, ◌==◌, ◌&&◌, leb→le,
}
use canon.Prelude.Result.{ok, err}
use canon.Bytes.{IsU64}
use canon.L1.Reorg.{
  BlockHeader, ReorgWindow, deep_reorg, orphaned_parent, non_monotone, advanced, reorged, Answer,
  push_bounded, next_number, number_or, is_parent, rposition, replace_after, walk_back,
  advance_onto, advance,
}
use canon.L1.Reorg.Chain.{
  LinksFrom, IsLinear, Found, rposition-Found, rposition-none, take-found, drop-found, length-found,
  IsLinear-middle, back-append,
}

pub record IsValid (w : ReorgWindow) : Type 0 where
  pub room : 1 ≤ w.capacity
  pub bounded : length w.buffer ≤ w.capacity
  pub linear : IsLinear w.buffer
  pub numbers : All (λ h. IsU64 h.number) w.buffer

-- `incoming` extends the chain at `h`.
abbrev pub Extends : BlockHeader → BlockHeader → Type 0
Extends incoming h = (incoming.parent_hash ≡ h.hash) × (incoming.number ≡ h.number + 1)

-- The window `w'` in which the headers behind an ancestor made way for `incoming`.
pub record Replaced (incoming : BlockHeader) (w w' : ReorgWindow) (dropped_count : ℕ) : Type 0 where
  pub kept : List BlockHeader
  pub ancestor : BlockHeader
  pub orphans : List BlockHeader
  pub before : w.buffer ≡ kept ++ ancestor ∷ orphans
  pub after : w'.buffer ≡ (kept ++ ancestor ∷ []) ++ incoming ∷ []
  pub extends : Extends incoming ancestor
  pub counted : dropped_count ≡ length orphans
  pub some_dropped : 1 ≤ dropped_count
  pub capacity : w'.capacity ≡ w.capacity

abbrev pub Explained : BlockHeader → ReorgWindow → Answer → Type 0
Explained incoming w (w', ok advanced) =
    ((w.buffer ≡ []) ⊎ ((last : BlockHeader) × (back w.buffer ≡ some last) × Extends incoming last))
    × (w'.buffer ≡ push_bounded w.capacity w.buffer incoming)
    × (w'.capacity ≡ w.capacity)
Explained incoming w (w', ok (reorged dropped_count dropped_from)) =
    Replaced incoming w w' dropped_count × (dropped_from ≡ incoming.number)
Explained incoming w (w', err (deep_reorg number floor)) =
    (w' ≡ w)
    × (number ≡ incoming.number)
    × (number_or (floor + 1) (front w.buffer) ≡ floor)
    × (incoming.number ≤ floor)
Explained incoming w (w', err (orphaned_parent number)) =
    (w' ≡ w)
    × (number ≡ incoming.number)
    × All (λ h. (incoming.parent_hash ≢ h.hash) ⊎ (incoming.number ≢ h.number + 1)) w.buffer
Explained incoming w (w', err (non_monotone number last_seen)) =
    (w' ≡ w)
    × (number ≡ incoming.number)
    × (number_or (last_seen + 1) (back w.buffer) ≡ last_seen)
    × (last_seen + 1 < incoming.number)

All-middle {ℓ} :
    (P : BlockHeader → Type ℓ) (xs : List BlockHeader) (x : BlockHeader) (ys : List BlockHeader)
    → All P (xs ++ x ∷ ys)
    → P x
All-middle P [] x ys h = h.0
All-middle P (y ∷ xs) x ys h = All-middle P xs x ys h.1

All-map {ℓ} :
    (P Q : BlockHeader → Type ℓ) (xs : List BlockHeader)
    → ((x : BlockHeader) → P x → Q x)
    → All P xs
    → All Q xs
All-map P Q [] f h = tt
All-map P Q (x ∷ xs) f h = (f x h.0, All-map P Q xs f h.1)

All-both {ℓ} :
    (P Q : BlockHeader → Type ℓ) (xs : List BlockHeader)
    → All P xs
    → All Q xs
    → All (λ x. P x × Q x) xs
All-both P Q [] h k = tt
All-both P Q (x ∷ xs) h k = ((h.0, k.0), All-both P Q xs h.1 k.1)

All-last {ℓ} :
    (P : BlockHeader → Type ℓ) (h : BlockHeader) (hs : List BlockHeader)
    → All P (h ∷ hs)
    → P (back_or h hs)
All-last P h [] a = a.0
All-last P h (x ∷ xs) a = All-last P x xs a.1

is_parent-Extends :
    (incoming h : BlockHeader)
    → IsU64 h.number
    → 0 < incoming.number
    → is_parent incoming h ≡ true
    → Extends incoming h
is_parent-Extends incoming h u pos e = ground arith

not_parent :
    (incoming h : BlockHeader)
    → IsU64 incoming.number
    → (is_parent incoming h ≡ false) × IsU64 h.number
    → (incoming.parent_hash ≢ h.hash) ⊎ (incoming.number ≢ h.number + 1)
not_parent incoming h u (e, v) = ground arith

orphans_exist :
    (accepts : BlockHeader → Bool) (h : BlockHeader) (hs before : List BlockHeader)
    (it : BlockHeader) (behind : List BlockHeader)
    → h ∷ hs ≡ before ++ it ∷ behind
    → accepts it ≡ true
    → accepts (back_or h hs) ≡ false
    → 1 ≤ length behind
orphans_exist accepts h hs before it [] e found not_last =
    let same : some (back_or h hs) ≡ some it = ap back e ∙ back-append before it in
    let is_it : back_or h hs ≡ it = cc same in cc (ap accepts is_it, found, not_last)
orphans_exist accepts h hs before it (x ∷ xs) e found not_last = omega arith

first_orphan :
    (incoming it : BlockHeader) (behind : List BlockHeader)
    → LinksFrom it behind
    → Extends incoming it
    → number_or incoming.number (front behind) ≡ incoming.number
first_orphan incoming it [] l x = refl
first_orphan incoming it (y ∷ ys) l x = omega (arith, l.1, x.1)

module _ (incoming h : BlockHeader) (hs : List BlockHeader) (cap : ℕ)
    (small : IsU64 incoming.number) where
  abbrev holding : ReorgWindow
  holding = record { capacity = cap; buffer = h ∷ hs }

  -- The walk found a parent, from which the last header is not the one.
  Found-Explained :
      (j : ℕ)
      → IsValid holding
      → h.number < incoming.number
      → is_parent incoming (back_or h hs) ≡ false
      → Found (is_parent incoming) (h ∷ hs) 0 j
      → Explained incoming holding (replace_after incoming holding (some j))
  unfolding replace_after
  Found-Explained j v above not_last f =
      let at_j : j ≡ length f.before = omega (arith, f.index) in
      let fits =
        All-middle (λ k. IsU64 k.number) f.before f.it f.behind
          (subst (All (λ k. IsU64 k.number)) f.splits v.numbers) in
      let extends = is_parent-Extends incoming f.it fits (omega (arith, above)) f.accepted in
      let counted =
        ap (λ (n : ℕ). length (h ∷ hs) - (n + 1)) at_j
        ∙ ap (λ (b : List BlockHeader). length b - (length f.before + 1)) f.splits
        ∙ length-found f.before f.it f.behind in
      let links = IsLinear-middle f.before f.it f.behind (subst IsLinear f.splits v.linear) in
      (
        record {
          kept = f.before;
          ancestor = f.it;
          orphans = f.behind;
          before = f.splits;
          after =
              ap (λ (b : List BlockHeader). b ++ incoming ∷ [])
                (ap (λ (n : ℕ). take (n + 1) (h ∷ hs)) at_j
                  ∙ ap (take (length f.before + 1)) f.splits
                  ∙ take-found f.before f.it f.behind);
          extends = extends;
          counted = counted;
          some_dropped =
              subst (λ n. 1 ≤ n) (sym counted)
                (orphans_exist (is_parent incoming) h hs f.before f.it f.behind f.splits f.accepted
                  not_last);
          capacity = refl;
        },
        ap (λ (b : List BlockHeader). number_or incoming.number (front b))
              (ap (λ (n : ℕ). drop (n + 1) (h ∷ hs)) at_j
                ∙ ap (drop (length f.before + 1)) f.splits
                ∙ drop-found f.before f.it f.behind)
            ∙ first_orphan incoming f.it f.behind links extends,
      )

  replace_after-Explained :
      (o : Option ℕ)
      → rposition (is_parent incoming) (h ∷ hs) 0 ≡ o
      → IsValid holding
      → h.number < incoming.number
      → is_parent incoming (back_or h hs) ≡ false
      → Explained incoming holding (replace_after incoming holding o)
  unfolding replace_after
  replace_after-Explained none e v above not_last = (
    refl,
    refl,
    All-map _ _ (h ∷ hs) (λ k. not_parent incoming k small)
        (All-both _ _ (h ∷ hs) (rposition-none (is_parent incoming) (h ∷ hs) 0 e) v.numbers),
  )
  replace_after-Explained (some j) e v above not_last =
      Found-Explained j v above not_last (rposition-Found (is_parent incoming) (h ∷ hs) 0 j e)

  walk_back-Explained :
      IsValid holding
      → h.number < incoming.number
      → is_parent incoming (back_or h hs) ≡ false
      → Explained incoming holding (walk_back incoming holding)
  unfolding walk_back
  walk_back-Explained = replace_after-Explained (rposition (is_parent incoming) (h ∷ hs) 0) refl

  last_fits : IsValid holding → IsU64 (back_or h hs).number
  last_fits v = All-last (λ k. IsU64 k.number) h hs v.numbers

  advance_onto-Explained :
      IsValid holding → Explained incoming holding (advance_onto incoming holding (back_or h hs))
  unfolding advance_onto
  advance_onto-Explained v =
      let last = back_or h hs in
      elim (Bool-cases (leb incoming.number h.number)) [
        | inl low ↦ rw low (refl, refl, refl, leb→le incoming.number h.number low)
        | inr high ↦
            rw high
              (elim (Bool-cases
                (incoming.number == next_number last.number && incoming.parent_hash == last.hash)) [
                  | inl linear ↦
                      rw linear (inr (last, refl, ground (arith, last_fits v)), refl, refl)
                  | inr other ↦
                      let above : h.number < incoming.number = ground arith in
                      let not_last : is_parent incoming last ≡ false = ground arith in
                      rw other (elim (Bool-cases (leb incoming.number last.number)) [
                        | inl seen ↦ rw seen (walk_back-Explained v above not_last)
                        | inr fresh ↦
                            rw fresh
                              (elim (Bool-cases (ltb (next_number last.number) incoming.number)) [
                                | inl gap ↦
                                    rw gap (refl, refl, refl, ground (arith, last_fits v, small))
                                | inr no_gap ↦ rw no_gap (walk_back-Explained v above not_last)
                              ])
                      ])
                ])
      ]

advance_cases :
    (incoming : BlockHeader) (cap : ℕ) (b : List BlockHeader)
    → IsU64 incoming.number
    → IsValid (record { capacity = cap; buffer = b })
    → Explained incoming
        (record { capacity = cap; buffer = b })
        (advance incoming (record { capacity = cap; buffer = b }))
unfolding advance push_bounded
advance_cases incoming cap [] small v = (inl refl, ground (arith, v.room), refl)
advance_cases incoming cap (h ∷ hs) small v = advance_onto-Explained incoming h hs cap small v

-- On a valid window and a 64-bit block number each answer of `advance` means what it says. An
-- advanced block extends the head, or starts an empty window, and is pushed, with the oldest header
-- dropped when full. A re-org replaces what stands behind the last header that the block extends:
-- it drops at least one header, reports how many, and the number reported is the block's own. An
-- error leaves the window alone: deep, the number is at or below the oldest one cached; orphaned,
-- the block extends no cached header; non-monotone, it leaves a gap above the head.
pub advance-Explained :
    (incoming : BlockHeader) (w : ReorgWindow)
    → IsU64 incoming.number
    → IsValid w
    → Explained incoming w (advance incoming w)
advance-Explained incoming w small v = advance_cases incoming w.capacity w.buffer small v
