-- ===== src/Indexer/Core/Cells.antt =====
-- What a batch of events asks of one cell, without a store: the reference for the two loops.
use canon.Prelude.{
  ℕ, ◌+◌, ◌≡◌, ◌⊎◌, inl, inr, refl, sym, ap, ◌∙◌, arith, Bool, true, false, Option, none, some,
  List, [], ◌∷◌, if◌then◌else◌,
}
use canon.Prelude.Result.{Result, ok}
use canon.Indexer.Event.{
  Event, balance_changed, reward_issued, withdrawal_requested, deposit_credited,
}
use canon.Indexer.Core.{same_cell, contains, bc_pairs}

abbrev pub only : ℕ → ℕ → ℕ → ℕ → ℕ → ℕ
only b q v a r = if same_cell b q a r then v else 0

-- What an event adds to the cell of actor `a` and resource `r`, and what it takes away.
abbrev pub amount_in : Event → ℕ → ℕ → ℕ
amount_in (reward_issued q b v) a r = only b q v a r
amount_in (deposit_credited q b v d) a r = only b q v a r
amount_in _ a r = 0

abbrev pub amount_out : Event → ℕ → ℕ → ℕ
amount_out (withdrawal_requested q b v l w) a r = only b q v a r
amount_out _ a r = 0

abbrev pub credits : List Event → ℕ → ℕ → ℕ
credits [] a r = 0
credits (e ∷ es) a r = amount_in e a r + credits es a r

abbrev pub debits : List Event → ℕ → ℕ → ℕ
debits [] a r = 0
debits (e ∷ es) a r = amount_out e a r + debits es a r

abbrev pub or_else {ℓ} : {A : Type ℓ} → Option A → Option A → Option A
or_else (some x) y = some x
or_else none y = y

abbrev pub set_by : Event → ℕ → ℕ → Option ℕ
set_by (balance_changed q b o n) a r = if same_cell b q a r then some n else none
set_by _ a r = none

-- The last balance that the batch reports for the cell.
abbrev pub last_set : List Event → ℕ → ℕ → Option ℕ
last_set [] a r = none
last_set (e ∷ es) a r = or_else (last_set es a r) (set_by e a r)

-- A balance moved by `c` up and by `d` down; a cell that nothing is asked of may be unreadable.
abbrev pub Shifted {ℓ} : {E : Type ℓ} → ℕ → ℕ → Result E ℕ → Result E ℕ → Type ℓ
Shifted c d x y =
    ((c ≡ 0) × (d ≡ 0) × (x ≡ y)) ⊎ ((v : ℕ) × (w : ℕ) × (x ≡ ok v) × (y ≡ ok w) × (w + d ≡ v + c))

pub Shifted-trans {ℓ} :
    {E : Type ℓ} (c d c' d' : ℕ) (x y z : Result E ℕ)
    → Shifted c d x y
    → Shifted c' d' y z
    → Shifted (c + c') (d + d') x z
Shifted-trans c d c' d' x y z (inl (p, q, e)) (inl (p', q', e')) =
    inl (omega arith, omega arith, e ∙ e')
Shifted-trans c d c' d' x y z (inl (p, q, e)) (inr (v, w, l, m, s)) =
    inr (v, w, e ∙ l, m, omega arith)
Shifted-trans c d c' d' x y z (inr (v, w, l, m, s)) (inl (p, q, e)) =
    inr (v, w, l, sym e ∙ m, omega arith)
Shifted-trans c d c' d' x y z (inr (v, w, l, m, s)) (inr (v', w', l', m', s')) =
    let same : w ≡ v' = cc (m, l') in inr (v, w', l, m', omega (arith, same))

pub same_cell_cases :
    (b q a r : ℕ)
    → ((same_cell b q a r ≡ true) × (b ≡ a) × (q ≡ r))
      ⊎ ((same_cell b q a r ≡ false) × ¬ ((b ≡ a) × (q ≡ r)))
same_cell_cases b q a r = ground arith

abbrev is_some {ℓ} : {A : Type ℓ} → Option A → Bool
is_some (some x) = true
is_some none = false

-- The covered pairs are those that the batch reports a balance for.
contains-bc_pairs :
    (es : List Event) (a r : ℕ) → contains (bc_pairs es) a r ≡ is_some (last_set es a r)
unfolding contains bc_pairs
contains-bc_pairs [] a r = refl
contains-bc_pairs (balance_changed q b o n ∷ es) a r = ground (arith, contains-bc_pairs es a r)
contains-bc_pairs (_ ∷ es) a r = ground (arith, contains-bc_pairs es a r)

pub contains-last_set :
    (es : List Event) (a r v : ℕ) → last_set es a r ≡ some v → contains (bc_pairs es) a r ≡ true
contains-last_set es a r v e = contains-bc_pairs es a r ∙ ap is_some e

pub contains-not_set :
    (es : List Event) (a r : ℕ) → last_set es a r ≡ none → contains (bc_pairs es) a r ≡ false
contains-not_set es a r e = contains-bc_pairs es a r ∙ ap is_some e
