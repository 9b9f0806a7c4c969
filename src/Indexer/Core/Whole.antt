-- ===== src/Indexer/Core/Whole.antt =====
-- What a batch does to the working view of its transaction.
use canon.Prelude.{ℕ, ◌≡◌, sym, ap, ◌∙◌, subst, none, some, List, All}
use canon.Prelude.Result.{ok}
use canon.Prelude.Stateful.{continue-eq-ok, or_err, or_err-eq-ok}
use canon.Bytes.{IsU64}
use canon.Indexer.Event.{Event, IsTyped}
use canon.Indexer.Balance.{Storage, balance_key}
use canon.Indexer.Balance.Store.{balance, decoded}
use canon.Indexer.Progress.{read_cursor, advance_cursor_in_tx}
use canon.Indexer.Progress.Advance.{advance_cursor_in_tx-Stands}
use canon.Indexer.Core.{
  bc_pairs, apply_semantic_events, apply_sets, apply_in_tx, IndexerError, cursor_failure,
}
use canon.Indexer.Core as Core
use canon.Indexer.Core.Cells.{Shifted, credits, debits, last_set, contains-not_set}
use canon.Indexer.Core.Touch.{Amounts, balance_key-ne-cursor_key}
use canon.Indexer.Core.Passes.{semantic_events-Passes, sets-Settled}

module _ (S : Storage) where
  open S use {State, Error, read}

  -- `t` is `s` with the whole batch applied and the cursor at `seq`. A cell that the batch reports a
  -- balance for has the last one; any other is moved by the credits and the debits.
  pub record Whole (seq : ℕ) (es : List Event) (s t : State) : Type 0 where
    pub set_to : (a r v : ℕ) → IsU64 a → IsU64 r → last_set es a r ≡ some v → balance S a r t ≡ ok v
    pub shifted :
        (a r : ℕ)
        → IsU64 a
        → IsU64 r
        → last_set es a r ≡ none
        → Shifted (credits es a r) (debits es a r) (balance S a r s) (balance S a r t)
    pub at : read_cursor S t ≡ ok seq
    pub amounts : Amounts S s → Amounts S t

  -- Balances depend on the cells of balances alone.
  pub balance-read :
      (a r : ℕ) (s t : State)
      → read t (balance_key a r) ≡ read s (balance_key a r)
      → balance S a r t ≡ balance S a r s
  unfolding balance
  balance-read a r s t e = ap (decoded S a r) e

  pub in_tx-Whole :
      (seq : ℕ) (es : List Event) (s t : State)
      → IsU64 seq
      → All IsTyped es
      → Amounts S s
      → apply_in_tx S seq es s ≡ (t, ok tt)
      → Whole seq es s t
  unfolding apply_in_tx
  in_tx-Whole seq es s t small typed amounts run =
      let (u, _, first, more) =
        continue-eq-ok (or_err Core.balance (apply_semantic_events S (bc_pairs es) es s)) _ t tt
          run in
      let (w, _, second, last) =
        continue-eq-ok (or_err Core.balance (apply_sets S es u)) _ t tt more in
      let p =
        semantic_events-Passes S (bc_pairs es) es s u typed amounts
          (or_err-eq-ok Core.balance (apply_semantic_events S (bc_pairs es) es s) u tt first) in
      let q =
        sets-Settled S es u w typed (or_err-eq-ok Core.balance (apply_sets S es u) w tt second) in
      let (old, _, _, moved) =
        advance_cursor_in_tx-Stands S seq w t small
          (or_err-eq-ok cursor_failure (advance_cursor_in_tx S seq w) t tt last) in
      let kept : (a r : ℕ) → balance S a r t ≡ balance S a r w = λ a r.
        balance-read a r w t
          (moved.others (balance_key a r) (λ e. balance_key-ne-cursor_key a r (sym e))) in
      record {
        set_to = λ a r v ha hr e. kept a r ∙ q.set_to a r v ha hr e;
        shifted = λ a r ha hr e.
            subst (Shifted (credits es a r) (debits es a r) (balance S a r s))
              (sym (kept a r ∙ q.kept a r ha hr e))
              (p.shifted a r ha hr (contains-not_set es a r e));
        at = moved.at;
        amounts = λ h a r v ha hr e. q.amounts (p.amounts h) a r v ha hr (sym (kept a r) ∙ e);
      }
