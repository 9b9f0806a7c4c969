-- ===== src/Tests/Reorgs.antt =====
-- The re-org window of runtime/canon-l1-ingest on a short chain.
use canon.Prelude.{ℕ, ◌≡◌, refl, arith, some, [], ◌∷◌}
use canon.Prelude.Result.{ok, err}
use canon.L1.Reorg.{
  BlockHeader, ReorgWindow, orphaned_parent, reorged, walk_back, advance_onto, new, advance,
}
use canon.L1.Reorg.Outcome.{IsValid, Explained, advance-Explained}
use canon.L1.Reorg.Fork.{advance-fork_above_head}
use canon.L1.Reorg.Invariant.{fresh, fed, advance-IsValid, Reachable-new}

abbrev block : ℕ → ℕ → ℕ → BlockHeader
block n h p = record { number = n; hash = h; parent_hash = p }

abbrev three : ReorgWindow
three = record { capacity = 4; buffer = block 10 100 99 ∷ block 11 101 100 ∷ block 12 102 101 ∷ [] }

three-IsValid : IsValid three
three-IsValid = record {
  room = omega arith;
  bounded = omega arith;
  linear = omega arith;
  numbers = omega arith;
}

abbrev sibling : BlockHeader
sibling = block 12 202 101

-- A sibling of the head takes its place.
advance-sibling : advance sibling three ≡ (
  record { capacity = 4; buffer = block 10 100 99 ∷ block 11 101 100 ∷ sibling ∷ [] },
  ok (reorged 1 12),
)
unfolding advance advance_onto walk_back
advance-sibling = refl

advance-Explained_example : Explained sibling three (advance sibling three)
advance-Explained_example = advance-Explained sibling three (omega arith) three-IsValid

advance-IsValid_example : IsValid (advance sibling three).0
advance-IsValid_example = advance-IsValid sibling three (omega arith) three-IsValid

abbrev empty_window : ReorgWindow
empty_window = record { capacity = 4; buffer = [] }

new_four : new 4 ≡ some empty_window
unfolding new
new_four = refl

Reachable-new_example : IsValid (advance (block 10 100 99) empty_window).0
Reachable-new_example =
    Reachable-new 4 empty_window (advance (block 10 100 99) empty_window).0 new_four
      (fed (block 10 100 99) fresh (omega arith))

advance-fork_above_head_example :
    advance (block 13 203 202) three ≡ (three, err (orphaned_parent 13))
advance-fork_above_head_example =
    advance-fork_above_head (block 13 203 202) (block 12 102 101) three (omega arith) three-IsValid
      refl refl (omega arith)
