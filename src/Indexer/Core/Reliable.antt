-- ===== src/Indexer/Core/Reliable.antt =====
-- Over a store that does not fail, a batch that reports the balances it touches is applied.
use canon.Prelude.{
  ℕ, ◌<◌, ◌≤◌, ◌≡◌, refl, ap, ◌∙◌, arith, Bool, true, false, List, [], ◌∷◌, All, length, le→ltb,
  if◌then◌else◌,
}
use canon.Prelude.Result.{Result, ok, err}
use canon.Prelude.Stateful.{◌>>◌, continue, map_err, or_err}
use canon.Bytes.{to_be_bytes}
use canon.Indexer.Event.{
  Event, IsTyped, balance_changed, nonce_advanced, identity_registered, identity_revoked,
  time_recorded, dispute_filed, dispute_withdrawn, verdict_applied, reward_issued,
  withdrawal_requested, deposit_credited, local_policy_declared, local_policy_revoked,
  fault_proof_game_opened, fault_proof_bisection_step, fault_proof_game_settled,
}
use canon.Indexer.Balance.{Storage, BalanceError, balance_key, balance_value_len}
use canon.Indexer.Balance.Store.{set_balance, write_balance, credit, debit, then_answer}
use canon.Indexer.Database.{Database}
use canon.Indexer.Progress.{
  read_cursor, cursor_key, cursor_of, advance_cursor_in_tx, advance_from, non_monotonic_advance,
  write_cursor, stored,
}
use canon.Indexer.Core.{
  Indexer, IndexerError, balance, cursor_failure, contains, bc_pairs, unless_covered,
  apply_semantic_event, apply_semantic_events, apply_sets, apply_in_tx, apply_batch, committed,
  in_transaction, after_commit, indexer_max_batch_events,
}
use canon.Indexer.Core.Passes.{sets-Settled}
use canon.Indexer.Core.Applied.{IsSynced, cursor-begin}

-- The batch reports a balance for each cell that it moves.
abbrev pub IsCovered : List (ℕ × ℕ) → Event → Type 0
IsCovered pairs (reward_issued q b v) = contains pairs b q ≡ true
IsCovered pairs (withdrawal_requested q b v l w) = contains pairs b q ≡ true
IsCovered pairs (deposit_credited q b v d) = contains pairs b q ≡ true
IsCovered pairs _ = Unit

module _ (S : Storage) (D : Database S) where
  open S use {State, Error, read, put}
  open D use {begin, commit}

  pub record IsReliable : Type 0 where
    pub begins : (s : State) → (tx : State) × (begin s ≡ ok tx)
    pub puts : (s : State) (k v : List ℕ) → (put s k v).1 ≡ ok tt
    pub commits : (s tx : State) → (commit s tx).1 ≡ ok tt

  semantic_event-covered :
      (pairs : List (ℕ × ℕ)) (e : Event) (s : State)
      → IsCovered pairs e
      → apply_semantic_event S pairs e s ≡ (s, ok tt)
  unfolding apply_semantic_event
  semantic_event-covered pairs (reward_issued q b v) s h =
      ap (λ (c : Bool). unless_covered S c (credit S b q v) s) h
  semantic_event-covered pairs (withdrawal_requested q b v l w) s h =
      ap (λ (c : Bool). unless_covered S c (debit S b q v) s) h
  semantic_event-covered pairs (deposit_credited q b v d) s h =
      ap (λ (c : Bool). unless_covered S c (credit S b q v) s) h
  semantic_event-covered pairs (nonce_advanced x y z) s h = refl
  semantic_event-covered pairs (identity_registered x y) s h = refl
  semantic_event-covered pairs (identity_revoked x) s h = refl
  semantic_event-covered pairs (time_recorded x) s h = refl
  semantic_event-covered pairs (dispute_filed x y) s h = refl
  semantic_event-covered pairs (dispute_withdrawn x) s h = refl
  semantic_event-covered pairs (verdict_applied x y) s h = refl
  semantic_event-covered pairs (local_policy_declared x y) s h = refl
  semantic_event-covered pairs (local_policy_revoked x) s h = refl
  semantic_event-covered pairs (fault_proof_game_opened x y z u v) s h = refl
  semantic_event-covered pairs (fault_proof_bisection_step x y z u v) s h = refl
  semantic_event-covered pairs (fault_proof_game_settled x y z u) s h = refl
  semantic_event-covered pairs (balance_changed x y z u) s h = refl

  semantic_events-covered :
      (pairs : List (ℕ × ℕ)) (es : List Event) (s : State)
      → All (IsCovered pairs) es
      → apply_semantic_events S pairs es s ≡ (s, ok tt)
  unfolding apply_semantic_events
  semantic_events-covered pairs [] s h = refl
  semantic_events-covered pairs (e ∷ es) s h =
      ap
        (λ (p : State × Result (BalanceError Error) (Unit {0})).
          continue p (λ _. apply_semantic_events S pairs es))
        (semantic_event-covered pairs e s h.0)
      ∙ semantic_events-covered pairs es s h.1

  put_ok : (r : IsReliable) (s : State) (k v : List ℕ) → put s k v ≡ ((put s k v).0, ok tt)
  put_ok r s k v = cc (r.puts s k v)

  set_balance_ok :
      (r : IsReliable) (a q n : ℕ) (s : State) → (t : State) × (set_balance S a q n s ≡ (t, ok tt))
  unfolding set_balance write_balance
  set_balance_ok r a q n s = (
    _,
    ap (λ (p : State × Result Error (Unit {0})). then_answer S p (ok tt))
        (put_ok r s (balance_key a q) (to_be_bytes balance_value_len n)),
  )

  sets_ok :
      (r : IsReliable) (es : List Event) (s : State)
      → (t : State) × (apply_sets S es s ≡ (t, ok tt))
  unfolding apply_sets
  sets_ok r [] s = (s, refl)
  sets_ok r (balance_changed q b o n ∷ es) s =
      let (u, e) = set_balance_ok r b q n s in
      let (t, f) = sets_ok r es u in
      (
        t,
        ap
              (λ (p : State × Result (BalanceError Error) (Unit {0})).
                continue p (λ _. apply_sets S es))
              e
            ∙ f,
      )
  sets_ok r (nonce_advanced x y z ∷ es) s = sets_ok r es s
  sets_ok r (identity_registered x y ∷ es) s = sets_ok r es s
  sets_ok r (identity_revoked x ∷ es) s = sets_ok r es s
  sets_ok r (time_recorded x ∷ es) s = sets_ok r es s
  sets_ok r (dispute_filed x y ∷ es) s = sets_ok r es s
  sets_ok r (dispute_withdrawn x ∷ es) s = sets_ok r es s
  sets_ok r (verdict_applied x y ∷ es) s = sets_ok r es s
  sets_ok r (reward_issued x y z ∷ es) s = sets_ok r es s
  sets_ok r (withdrawal_requested x y z u v ∷ es) s = sets_ok r es s
  sets_ok r (deposit_credited x y z u ∷ es) s = sets_ok r es s
  sets_ok r (local_policy_declared x y ∷ es) s = sets_ok r es s
  sets_ok r (local_policy_revoked x ∷ es) s = sets_ok r es s
  sets_ok r (fault_proof_game_opened x y z u v ∷ es) s = sets_ok r es s
  sets_ok r (fault_proof_bisection_step x y z u v ∷ es) s = sets_ok r es s
  sets_ok r (fault_proof_game_settled x y z u ∷ es) s = sets_ok r es s

  advance_ok :
      (r : IsReliable) (n seq : ℕ) (s : State)
      → read_cursor S s ≡ ok n
      → n ≤ seq
      → (t : State) × (advance_cursor_in_tx S seq s ≡ (t, ok tt))
  unfolding advance_cursor_in_tx write_cursor
  advance_ok r n seq s at on = (
    _,
    ap (advance_from S seq s) at
        ∙ ap
            (λ (b : Bool).
              if b then (s, err (non_monotonic_advance n seq)) else write_cursor S seq s)
            (le→ltb seq n on)
        ∙ ap (stored S) (put_ok r s cursor_key (to_be_bytes 8 seq)),
  )

  in_tx_ok :
      (r : IsReliable) (n seq : ℕ) (es : List Event) (s : State)
      → All IsTyped es
      → All (IsCovered (bc_pairs es)) es
      → read_cursor S s ≡ ok n
      → n ≤ seq
      → (t : State) × (apply_in_tx S seq es s ≡ (t, ok tt))
  unfolding apply_in_tx read_cursor
  in_tx_ok r n seq es s typed reported at on =
      let (u, sets) = sets_ok r es s in
      let kept = (sets-Settled S es s u typed sets).cursor_kept in
      let (t, moved) = advance_ok r n seq u (ap (cursor_of S) kept ∙ at) on in
      let first = semantic_events-covered (bc_pairs es) es s reported in
      (
        t,
        ap
              (λ (p : State × Result (BalanceError Error) (Unit {0})).
                continue (or_err balance p) (λ _.
                  map_err balance (apply_sets S es)
                  >> map_err cursor_failure (advance_cursor_in_tx S seq)))
              first
            ∙ ap
                (λ (p : State × Result (BalanceError Error) (Unit {0})).
                  continue (or_err balance p)
                    (λ _. map_err cursor_failure (advance_cursor_in_tx S seq)))
                sets
            ∙ ap (or_err cursor_failure) moved,
      )

  after_commit_ok :
      (seq : ℕ) (ix : Indexer S) (p : State × Result Error (Unit {0}))
      → p.1 ≡ ok tt
      → (after_commit S D seq ix p).1 ≡ ok tt
  after_commit_ok seq ix (s, ok u) h = refl
  after_commit_ok seq ix (s, err e) h = cc h

  -- Over a reliable store, a healthy synced indexer applies every fresh batch of 1 to 1024 typed events
  -- in which each cell that is moved is also reported: the answer is no error.
  pub apply_batch_ok :
      (seq : ℕ) (es : List Event) (ix : Indexer S)
      → IsReliable
      → All IsTyped es
      → All (IsCovered (bc_pairs es)) es
      → IsSynced S D ix
      → ix.poisoned ≡ false
      → ix.cursor < seq
      → 1 ≤ length es
      → length es ≤ indexer_max_batch_events
      → (apply_batch S D seq es ix).1 ≡ ok tt
  unfolding apply_batch
  apply_batch_ok seq es ix r typed reported synced healthy fresh some_events few =
      let (tx, begun) = r.begins ix.store in
      let at : read_cursor S tx ≡ ok ix.cursor =
        cursor-begin S D ix.store tx begun ∙ synced healthy in
      let (u, done) = in_tx_ok r ix.cursor seq es tx typed reported at (omega arith) in
      let inside : (in_transaction S D seq es ix (begin ix.store)).1 ≡ ok tt =
        ap (λ (b : Result Error State). (in_transaction S D seq es ix b).1) begun
        ∙ ap (λ (p : State × Result (IndexerError Error) (Unit {0})). (committed S D seq ix p).1)
            done
        ∙ after_commit_ok seq ix (commit ix.store u) (r.commits ix.store u) in
      ground (arith, inside)
