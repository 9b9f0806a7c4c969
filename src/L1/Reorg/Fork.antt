-- ===== src/L1/Reorg/Fork.antt =====
-- A fork that shows above the head of the window.
use canon.Prelude.{
  ℕ, ◌+◌, ◌≡◌, ◌≢◌, sym, ap, ◌∙◌, subst, arith, inl, inr, some, List, [], ◌∷◌, back, back_or,
}
use mathlib.Core.Path.{ap₂}
use canon.Prelude.Result.{ok, err}
use canon.Bytes.{IsU64}
use canon.L1.Reorg.{
  BlockHeader, ReorgWindow, deep_reorg, orphaned_parent, non_monotone, advanced, reorged, Answer,
  advance,
}
use canon.L1.Reorg.Chain.{IsLinear, IsLinear-middle, back-middle, back_or-number}
use canon.L1.Reorg.Outcome.{IsValid, Replaced, Explained, advance-Explained}

-- A header behind the head cannot be the parent of a block just above it.
no_deeper_parent :
    (incoming h : BlockHeader) (hs : List BlockHeader) (w' : ReorgWindow) (cap n : ℕ)
    → IsLinear (h ∷ hs)
    → incoming.number ≡ (back_or h hs).number + 1
    → Replaced incoming (record { capacity = cap; buffer = h ∷ hs }) w' n
    → ⊥
no_deeper_parent incoming h hs w' cap n linear above r =
    let tops : some (back_or h hs) ≡ some (back_or r.ancestor r.orphans) =
      ap back r.before ∙ back-middle r.kept r.ancestor r.orphans in
    let same : back_or h hs ≡ back_or r.ancestor r.orphans = cc tops in
    let links = IsLinear-middle r.kept r.ancestor r.orphans (subst IsLinear r.before linear) in
    omega (
      arith,
      ap (λ (b : BlockHeader). b.number) same,
      back_or-number r.ancestor r.orphans links,
      r.counted,
      r.some_dropped,
      r.extends.1,
    )

module _ (incoming h : BlockHeader) (hs : List BlockHeader) (cap : ℕ)
    (v : IsValid (record { capacity = cap; buffer = h ∷ hs }))
    (above : incoming.number ≡ (back_or h hs).number + 1)
    (forks : incoming.parent_hash ≢ (back_or h hs).hash) where
  only_orphaned :
      (a : Answer)
      → Explained incoming (record { capacity = cap; buffer = h ∷ hs }) a
      → a ≡ (record { capacity = cap; buffer = h ∷ hs }, err (orphaned_parent incoming.number))
  only_orphaned (w', ok advanced) (inl e, _, _) = cc e
  only_orphaned (w', ok advanced) (inr (last, b, x), _, _) =
      let same : back_or h hs ≡ last = cc b in
      absurd (forks (x.0 ∙ ap (λ (k : BlockHeader). k.hash) (sym same)))
  only_orphaned (w', ok (reorged n m)) (r, _) =
      absurd (no_deeper_parent incoming h hs w' cap n v.linear above r)
  only_orphaned (w', err (deep_reorg n m)) (_, _, f, low) =
      absurd (omega (arith, f, low, above, back_or-number h hs v.linear))
  only_orphaned (w', err (orphaned_parent n)) (same, number, _) =
      ap₂ (λ (u : ReorgWindow) (k : ℕ). (u, err (orphaned_parent k))) same number
  only_orphaned (w', err (non_monotone n m)) (_, _, l, gap) = absurd (omega (arith, l, gap, above))

orphaned_cases :
    (incoming last : BlockHeader) (cap : ℕ) (b : List BlockHeader)
    → IsU64 incoming.number
    → IsValid (record { capacity = cap; buffer = b })
    → back b ≡ some last
    → incoming.number ≡ last.number + 1
    → incoming.parent_hash ≢ last.hash
    → advance incoming (record { capacity = cap; buffer = b })
      ≡ (record { capacity = cap; buffer = b }, err (orphaned_parent incoming.number))
orphaned_cases incoming last cap [] small v top above forks = cc top
orphaned_cases incoming last cap (h ∷ hs) small v top above forks =
    let same : last ≡ back_or h hs = cc top in
    only_orphaned incoming h hs cap v (above ∙ ap (λ (k : BlockHeader). k.number + 1) same)
      (λ e. forks (e ∙ ap (λ (k : BlockHeader). k.hash) (sym same)))
      (advance incoming (record { capacity = cap; buffer = h ∷ hs }))
      (advance-Explained incoming (record { capacity = cap; buffer = h ∷ hs }) small v)

-- On a valid window a block just above the head whose parent is not the head is always answered
-- with an orphaned parent and leaves the window alone: the walk for its parent finds none.
pub advance-fork_above_head :
    (incoming last : BlockHeader) (w : ReorgWindow)
    → IsU64 incoming.number
    → IsValid w
    → back w.buffer ≡ some last
    → incoming.number ≡ last.number + 1
    → incoming.parent_hash ≢ last.hash
    → advance incoming w ≡ (w, err (orphaned_parent incoming.number))
advance-fork_above_head incoming last w small v top above forks =
    orphaned_cases incoming last w.capacity w.buffer small v top above forks
