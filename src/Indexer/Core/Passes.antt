-- ===== src/Indexer/Core/Passes.antt =====
-- The two loops of a batch against the reference on cells.
use canon.Prelude.{
  ℕ, ◌+◌, ◌≡◌, inl, inr, refl, ap, ◌∙◌, subst, arith, Bool, true, false, none, some, Option-cases,
  List, [], ◌∷◌, All,
}
use canon.Prelude.Result.{Result, ok}
use canon.Prelude.Stateful.{pure, continue-eq-ok}
use canon.Bytes.{IsU64}
use canon.Indexer.Event.{
  Event, IsTyped, balance_changed, nonce_advanced, identity_registered, identity_revoked,
  time_recorded, dispute_filed, dispute_withdrawn, verdict_applied, reward_issued,
  withdrawal_requested, deposit_credited, local_policy_declared, local_policy_revoked,
  fault_proof_game_opened, fault_proof_bisection_step, fault_proof_game_settled,
}
use canon.Indexer.Balance.{Storage, BalanceError}
use canon.Indexer.Balance.Store.{balance, set_balance, credit, debit}
use canon.Indexer.Progress.{cursor_key}
use canon.Indexer.Core.{
  contains, unless_covered, apply_semantic_event, apply_semantic_events, apply_sets,
}
use canon.Indexer.Core.Cells.{
  only, amount_in, amount_out, credits, debits, last_set, set_by, same_cell_cases,
}
use canon.Indexer.Core.Touch.{
  Amounts, Passes, nothing-Passes, Passes-trans, Passes-eq, skipped-Passes, Wrote-Passes, Wrote,
  Wrote-Holds, Wrote-cursor, Holds-Amounts, set_balance-Wrote, credit-eq-ok, debit-eq-ok,
}

only-zero : (b q a r : ℕ) → only b q 0 a r ≡ 0
only-zero b q a r = ground arith

module _ (S : Storage) where
  open S use {State, Error, read}

  credit-Passes :
      (b q v : ℕ) (pairs : List (ℕ × ℕ)) (c : Bool) (s t : State)
      → contains pairs b q ≡ c
      → IsU64 b
      → IsU64 q
      → unless_covered S c (credit S b q v) s ≡ (t, ok tt)
      → Passes S (only b q v) (λ a r. 0) pairs s t
  credit-Passes b q v pairs true s t inside hb hq h =
      subst (Passes S (only b q v) (λ a r. 0) pairs s)
        (ap (λ (p : State × Result (BalanceError Error) (Unit {0})). p.0) h)
        (Passes-eq S (only b q v) (only b q 0) (only b q v) (λ a r. 0) pairs s s (λ a r. refl)
          (only-zero b q) (skipped-Passes S b q v 0 pairs s inside))
  credit-Passes b q v pairs false s t outside hb hq h =
      let (u, n, run, rest) = continue-eq-ok (credit S b q v s) (λ _. pure tt) t tt h in
      let (cur, e, sum, small, wrote) = credit-eq-ok S b q v n s u run in
      subst (Passes S (only b q v) (λ a r. 0) pairs s)
        (ap (λ (p : State × Result (BalanceError Error) (Unit {0})). p.0) rest)
        (Passes-eq S (only b q v) (only b q 0) (only b q v) (λ a r. 0) pairs s u (λ a r. refl)
          (only-zero b q)
          (Wrote-Passes S b q cur n v 0 pairs s u hb hq small outside e (omega (arith, sum)) wrote))

  debit-Passes :
      (b q v : ℕ) (pairs : List (ℕ × ℕ)) (c : Bool) (s t : State)
      → contains pairs b q ≡ c
      → IsU64 b
      → IsU64 q
      → Amounts S s
      → unless_covered S c (debit S b q v) s ≡ (t, ok tt)
      → Passes S (λ a r. 0) (only b q v) pairs s t
  debit-Passes b q v pairs true s t inside hb hq typed h =
      subst (Passes S (λ a r. 0) (only b q v) pairs s)
        (ap (λ (p : State × Result (BalanceError Error) (Unit {0})). p.0) h)
        (Passes-eq S (only b q 0) (only b q v) (λ a r. 0) (only b q v) pairs s s (only-zero b q)
          (λ a r. refl) (skipped-Passes S b q 0 v pairs s inside))
  debit-Passes b q v pairs false s t outside hb hq typed h =
      let (u, n, run, rest) = continue-eq-ok (debit S b q v s) (λ _. pure tt) t tt h in
      let (cur, e, sum, wrote) = debit-eq-ok S b q v n s u run in
      subst (Passes S (λ a r. 0) (only b q v) pairs s)
        (ap (λ (p : State × Result (BalanceError Error) (Unit {0})). p.0) rest)
        (Passes-eq S (only b q 0) (only b q v) (λ a r. 0) (only b q v) pairs s u (only-zero b q)
          (λ a r. refl)
          (Wrote-Passes S b q cur n 0 v pairs s u hb hq (omega (arith, sum, typed b q cur hb hq e))
            outside e (omega (arith, sum)) wrote))

  still-Passes :
      (pairs : List (ℕ × ℕ)) (s t : State)
      → pure {E = BalanceError Error} tt s ≡ (t, ok tt)
      → Passes S (λ a r. 0) (λ a r. 0) pairs s t
  still-Passes pairs s t h =
      subst (Passes S (λ a r. 0) (λ a r. 0) pairs s)
        (ap (λ (p : State × Result (BalanceError Error) (Unit {0})). p.0) h)
        (nothing-Passes S pairs s)

  semantic_event-Passes :
      (pairs : List (ℕ × ℕ)) (e : Event) (s t : State)
      → IsTyped e
      → Amounts S s
      → apply_semantic_event S pairs e s ≡ (t, ok tt)
      → Passes S (amount_in e) (amount_out e) pairs s t
  unfolding apply_semantic_event
  semantic_event-Passes pairs (reward_issued q b v) s t h typed run =
      credit-Passes b q v pairs (contains pairs b q) s t refl h.1 h.0 run
  semantic_event-Passes pairs (withdrawal_requested q b v l w) s t h typed run =
      debit-Passes b q v pairs (contains pairs b q) s t refl h.1 h.0 typed run
  semantic_event-Passes pairs (deposit_credited q b v d) s t h typed run =
      credit-Passes b q v pairs (contains pairs b q) s t refl h.1 h.0 run
  semantic_event-Passes pairs (nonce_advanced x y z) s t h typed run = still-Passes pairs s t run
  semantic_event-Passes pairs (identity_registered x y) s t h typed run = still-Passes pairs s t run
  semantic_event-Passes pairs (identity_revoked x) s t h typed run = still-Passes pairs s t run
  semantic_event-Passes pairs (time_recorded x) s t h typed run = still-Passes pairs s t run
  semantic_event-Passes pairs (dispute_filed x y) s t h typed run = still-Passes pairs s t run
  semantic_event-Passes pairs (dispute_withdrawn x) s t h typed run = still-Passes pairs s t run
  semantic_event-Passes pairs (verdict_applied x y) s t h typed run = still-Passes pairs s t run
  semantic_event-Passes pairs (local_policy_declared x y) s t h typed run =
      still-Passes pairs s t run
  semantic_event-Passes pairs (local_policy_revoked x) s t h typed run = still-Passes pairs s t run
  semantic_event-Passes pairs (fault_proof_game_opened x y z u v) s t h typed run =
      still-Passes pairs s t run
  semantic_event-Passes pairs (fault_proof_bisection_step x y z u v) s t h typed run =
      still-Passes pairs s t run
  semantic_event-Passes pairs (fault_proof_game_settled x y z u) s t h typed run =
      still-Passes pairs s t run
  semantic_event-Passes pairs (balance_changed x y z u) s t h typed run = still-Passes pairs s t run

  -- The first loop moves each cell that the pairs do not cover by what the events ask of it.
  pub semantic_events-Passes :
      (pairs : List (ℕ × ℕ)) (es : List Event) (s t : State)
      → All IsTyped es
      → Amounts S s
      → apply_semantic_events S pairs es s ≡ (t, ok tt)
      → Passes S (credits es) (debits es) pairs s t
  unfolding apply_semantic_events
  semantic_events-Passes pairs [] s t h typed run =
      Passes-eq S (λ a r. 0) (λ a r. 0) (credits []) (debits []) pairs s t (λ a r. refl)
        (λ a r. refl) (still-Passes pairs s t run)
  semantic_events-Passes pairs (e ∷ es) s t h typed run =
      let (u, _, first, rest) =
        continue-eq-ok (apply_semantic_event S pairs e s) (λ _. apply_semantic_events S pairs es) t
          tt run in
      let p = semantic_event-Passes pairs e s u h.0 typed first in
      Passes-eq S (λ a r. amount_in e a r + credits es a r)
        (λ a r. amount_out e a r + debits es a r) (credits (e ∷ es)) (debits (e ∷ es)) pairs s t
        (λ a r. refl) (λ a r. refl)
        (Passes-trans S (amount_in e) (amount_out e) (credits es) (debits es) pairs s u t p
          (semantic_events-Passes pairs es u t h.1 (p.amounts typed) rest))

  -- What the second loop does: the reported balances are set, the other cells are kept.
  pub record Settled (es : List Event) (s t : State) : Type 0 where
    pub amounts : Amounts S s → Amounts S t
    pub cursor_kept : read t cursor_key ≡ read s cursor_key
    pub set_to : (a r v : ℕ) → IsU64 a → IsU64 r → last_set es a r ≡ some v → balance S a r t ≡ ok v
    pub kept :
        (a r : ℕ) → IsU64 a → IsU64 r → last_set es a r ≡ none → balance S a r t ≡ balance S a r s

  reported-Settled :
      (q b o n : ℕ) (es : List Event) (s u t : State)
      → IsTyped (balance_changed q b o n)
      → Wrote S b q n s u
      → Settled es u t
      → Settled (balance_changed q b o n ∷ es) s t
  reported-Settled q b o n es s u t h wrote rest =
      let held = Wrote-Holds S b q n s u h.1 h.0 h.3 wrote in
      record {
        amounts = λ typed. rest.amounts (Holds-Amounts S b q n s u h.3 held typed);
        cursor_kept = rest.cursor_kept ∙ Wrote-cursor S b q n s u wrote;
        set_to = λ a r v ha hr e. elim (Option-cases (last_set es a r)) [
          | inr (w, f) ↦ rest.set_to a r w ha hr f ∙ ap ok (cc (e, f))
          | inl f ↦ elim (same_cell_cases b q a r) [
            | inl (g, x, y) ↦ rest.kept a r ha hr f ∙ cc (x, y, held.0, e, f, g)
            | inr (g, ne) ↦ absurd (cc (e, f, g))
          ]
        ];
        kept = λ a r ha hr e. elim (Option-cases (last_set es a r)) [
          | inr (w, f) ↦ absurd (cc (e, f))
          | inl f ↦ elim (same_cell_cases b q a r) [
            | inl (g, x, y) ↦ absurd (cc (e, f, g))
            | inr (g, ne) ↦ rest.kept a r ha hr f ∙ held.1 a r ha hr ne
          ]
        ];
      }

  passed_by-Settled :
      (e : Event) (es : List Event) (s t : State)
      → ((a r : ℕ) → set_by e a r ≡ none)
      → Settled es s t
      → Settled (e ∷ es) s t
  passed_by-Settled e es s t silent rest = record {
    amounts = rest.amounts;
    cursor_kept = rest.cursor_kept;
    set_to = λ a r v ha hr f. elim (Option-cases (last_set es a r)) [
      | inr (w, g) ↦ rest.set_to a r w ha hr g ∙ ap ok (cc (f, g))
      | inl g ↦ absurd (cc (f, g, silent a r))
    ];
    kept = λ a r ha hr f. elim (Option-cases (last_set es a r)) [
      | inr (w, g) ↦ absurd (cc (f, g))
      | inl g ↦ rest.kept a r ha hr g
    ];
  }

  -- The second loop sets every cell to the last balance that the batch reports for it.
  pub sets-Settled :
      (es : List Event) (s t : State)
      → All IsTyped es
      → apply_sets S es s ≡ (t, ok tt)
      → Settled es s t
  unfolding apply_sets
  sets-Settled [] s t h run =
      subst (Settled [] s) (ap (λ (p : State × Result (BalanceError Error) (Unit {0})). p.0) run)
        (record {
          amounts = λ typed. typed;
          cursor_kept = refl;
          set_to = λ a r v ha hr f. cc f;
          kept = λ a r ha hr f. refl;
        })
  sets-Settled (balance_changed q b o n ∷ es) s t h run =
      let (u, _, first, rest) =
        continue-eq-ok (set_balance S b q n s) (λ _. apply_sets S es) t tt run in
      reported-Settled q b o n es s u t h.0 (set_balance-Wrote S b q n s u first)
        (sets-Settled es u t h.1 rest)
  sets-Settled (nonce_advanced x y z ∷ es) s t h run =
      passed_by-Settled (nonce_advanced x y z) es s t (λ a r. refl) (sets-Settled es s t h.1 run)
  sets-Settled (identity_registered x y ∷ es) s t h run =
      passed_by-Settled (identity_registered x y) es s t (λ a r. refl) (sets-Settled es s t h.1 run)
  sets-Settled (identity_revoked x ∷ es) s t h run =
      passed_by-Settled (identity_revoked x) es s t (λ a r. refl) (sets-Settled es s t h.1 run)
  sets-Settled (time_recorded x ∷ es) s t h run =
      passed_by-Settled (time_recorded x) es s t (λ a r. refl) (sets-Settled es s t h.1 run)
  sets-Settled (dispute_filed x y ∷ es) s t h run =
      passed_by-Settled (dispute_filed x y) es s t (λ a r. refl) (sets-Settled es s t h.1 run)
  sets-Settled (dispute_withdrawn x ∷ es) s t h run =
      passed_by-Settled (dispute_withdrawn x) es s t (λ a r. refl) (sets-Settled es s t h.1 run)
  sets-Settled (verdict_applied x y ∷ es) s t h run =
      passed_by-Settled (verdict_applied x y) es s t (λ a r. refl) (sets-Settled es s t h.1 run)
  sets-Settled (reward_issued x y z ∷ es) s t h run =
      passed_by-Settled (reward_issued x y z) es s t (λ a r. refl) (sets-Settled es s t h.1 run)
  sets-Settled (withdrawal_requested x y z u v ∷ es) s t h run =
      passed_by-Settled (withdrawal_requested x y z u v) es s t (λ a r. refl)
        (sets-Settled es s t h.1 run)
  sets-Settled (deposit_credited x y z u ∷ es) s t h run =
      passed_by-Settled (deposit_credited x y z u) es s t (λ a r. refl)
        (sets-Settled es s t h.1 run)
  sets-Settled (local_policy_declared x y ∷ es) s t h run =
      passed_by-Settled (local_policy_declared x y) es s t (λ a r. refl)
        (sets-Settled es s t h.1 run)
  sets-Settled (local_policy_revoked x ∷ es) s t h run =
      passed_by-Settled (local_policy_revoked x) es s t (λ a r. refl) (sets-Settled es s t h.1 run)
  sets-Settled (fault_proof_game_opened x y z u v ∷ es) s t h run =
      passed_by-Settled (fault_proof_game_opened x y z u v) es s t (λ a r. refl)
        (sets-Settled es s t h.1 run)
  sets-Settled (fault_proof_bisection_step x y z u v ∷ es) s t h run =
      passed_by-Settled (fault_proof_bisection_step x y z u v) es s t (λ a r. refl)
        (sets-Settled es s t h.1 run)
  sets-Settled (fault_proof_game_settled x y z u ∷ es) s t h run =
      passed_by-Settled (fault_proof_game_settled x y z u) es s t (λ a r. refl)
        (sets-Settled es s t h.1 run)
