-- ===== src/Indexer/Core/Applied.antt =====
-- What every answer of `apply_batch` means, and what holds over runs of batches.
use canon.Prelude.{
  ℕ, ◌<◌, ◌≤◌, ◌≡◌, ◌⊎◌, inl, inr, refl, sym, ap, ◌∙◌, subst, arith, true, false, Option, List, All,
  length, ltb, leb, leb→le, if_cases, ◌==◌,
}
use canon.Prelude.Result.{Result, ok, err}
use canon.Bytes.{IsU64}
use canon.Indexer.Event.{Event, IsTyped}
use canon.Indexer.Balance.{Storage, BalanceError, balance_key}
use canon.Indexer.Balance.Store.{balance}
use canon.Indexer.Database.{Database, ReadsAs}
use canon.Indexer.Progress.{CursorError, cursor_key, read_cursor, cursor_of}
use canon.Indexer.Core.{
  Indexer, IndexerError, Answer, storage, empty_batch, batch_too_large, stale_event,
  commit_ambiguous, cursor_recovery_failed, poisoned_before, indexer_max_batch_events, resynced,
  after_commit, committed, in_transaction, apply_in_tx, apply_batch,
}
use canon.Indexer.Core.Cells.{Shifted, credits, debits}
use canon.Indexer.Core.Touch.{Amounts}
use canon.Indexer.Core.Whole.{Whole, balance-read, in_tx-Whole}

module _ (S : Storage) (D : Database S) where
  open S use {State, Error, read}
  open D use {begin, commit, read-begin, read-commit, failed-commit}

  -- Why a batch is turned away before anything is written.
  pub data Guard (seq : ℕ) (es : List Event) (ix : Indexer S) : IndexerError Error → Type 0 where
    was_poisoned : ix.poisoned ≡ true → Guard seq es ix poisoned_before
    was_empty : length es ≡ 0 → Guard seq es ix empty_batch
    was_large :
        indexer_max_batch_events < length es
        → Guard seq es ix (batch_too_large (length es) indexer_max_batch_events)
    was_stale : seq ≤ ix.cursor → Guard seq es ix (stale_event seq ix.cursor)
    not_begun : (e : Error) → begin ix.store ≡ err e → Guard seq es ix (storage e)
    failed_inside :
        (e : IndexerError Error) (tx u : State)
        → begin ix.store ≡ ok tx
        → apply_in_tx S seq es tx ≡ (u, err e)
        → Guard seq es ix e

  -- The store holds the old state or the whole batch.
  abbrev pub EitherWay : ℕ → List Event → State → State → Type 0
  EitherWay seq es s t = ReadsAs S t s ⊎ ((u : State) × Whole S seq es s u × ReadsAs S t u)

  pub data Applied (seq : ℕ) (es : List Event) (ix : Indexer S) : Answer S D → Type 0 where
    refused : (e : IndexerError Error) → Guard seq es ix e → Applied seq es ix (ix, err e)
    applied :
        (t : State)
        → ix.cursor < seq
        → Whole S seq es ix.store t
        → Applied seq es ix (record ix { store = t; cursor = seq }, ok tt)
    ambiguous :
        (t u : State) (n : ℕ)
        → ix.cursor < seq
        → n ≡ seq
        → Whole S seq es ix.store u
        → ReadsAs S t u
        → read_cursor S t ≡ ok n
        → Applied seq es ix (record ix { store = t; cursor = n }, err (commit_ambiguous seq n))
    rolled_back :
        (t : State) (e : Error) (n : ℕ)
        → n ≡ ix.cursor
        → ReadsAs S t ix.store
        → read_cursor S t ≡ ok n
        → Applied seq es ix (record ix { store = t; cursor = n }, err (storage e))
    unknown :
        (t : State) (e : Error) (f : CursorError Error)
        → EitherWay seq es ix.store t
        → Applied seq es ix
            (record ix { store = t; poisoned = true }, err (cursor_recovery_failed seq e f))

  -- The cursor in memory is the one on disk, unless the indexer is poisoned.
  abbrev pub IsSynced : Indexer S → Type 0
  IsSynced ix = ix.poisoned ≡ false → read_cursor S ix.store ≡ ok ix.cursor

  pub cursor-begin : (s tx : State) → begin s ≡ ok tx → read_cursor S tx ≡ read_cursor S s
  unfolding read_cursor
  cursor-begin s tx e = ap (cursor_of S) (read-begin s tx cursor_key e)

  cursor-ReadsAs :
      (t s : State) (n m : ℕ)
      → ReadsAs S t s
      → read_cursor S t ≡ ok n
      → read_cursor S s ≡ ok m
      → n ≡ m
  unfolding read_cursor
  cursor-ReadsAs t s n m h e f = go (read t cursor_key) refl e
    where
      go :
          (x : Result Error (Option (List ℕ)))
          → read t cursor_key ≡ x
          → cursor_of S x ≡ ok n
          → n ≡ m
      go (ok v) r k = cc (h cursor_key v r, k, f)
      go (err z) r k = cc k

  -- A batch on the working view is one on the store that the view began from.
  begun-Whole :
      (seq : ℕ) (es : List Event) (s tx t : State)
      → begin s ≡ ok tx
      → Whole S seq es tx t
      → Whole S seq es s t
  begun-Whole seq es s tx t e w =
      let same = λ (a r : ℕ). balance-read S a r s tx (read-begin s tx (balance_key a r) e) in
      record {
        set_to = w.set_to;
        shifted = λ a r ha hr f.
            subst
              (λ (x : Result (BalanceError Error) ℕ).
                Shifted (credits es a r) (debits es a r) x (balance S a r t))
              (same a r) (w.shifted a r ha hr f);
        at = w.at;
        amounts = λ h. w.amounts (λ a r v ha hr f. h a r v ha hr (sym (same a r) ∙ f));
      }

  read-Whole :
      (seq : ℕ) (es : List Event) (s u t : State)
      → ((k : List ℕ) → read t k ≡ read u k)
      → Whole S seq es s u
      → Whole S seq es s t
  unfolding read_cursor
  read-Whole seq es s u t e w =
      let same = λ (a r : ℕ). balance-read S a r u t (e (balance_key a r)) in
      record {
        set_to = λ a r v ha hr f. same a r ∙ w.set_to a r v ha hr f;
        shifted = λ a r ha hr f.
            subst (Shifted (credits es a r) (debits es a r) (balance S a r s)) (sym (same a r))
              (w.shifted a r ha hr f);
        at = ap (cursor_of S) (e cursor_key) ∙ w.at;
        amounts = λ h a r v ha hr f. w.amounts h a r v ha hr (sym (same a r) ∙ f);
      }

  resynced-Applied :
      (seq : ℕ) (es : List Event) (ix : Indexer S) (u t : State) (e : Error)
      → ix.cursor < seq
      → read_cursor S ix.store ≡ ok ix.cursor
      → Whole S seq es ix.store u
      → ReadsAs S t ix.store ⊎ ReadsAs S t u
      → (x : Result (CursorError Error) ℕ) → read_cursor S t ≡ x
      → Applied seq es ix (resynced S D seq (record ix { store = t }) e x)
  resynced-Applied seq es ix u t e fresh at whole either (err f) r =
      unknown t e f (elim either [ inl old ↦ inl old | inr new ↦ inr (u, whole, new) ])
  resynced-Applied seq es ix u t e fresh at whole (inl old) (ok n) r =
      let same = cursor-ReadsAs t ix.store n ix.cursor old r at in
      if_cases
        (λ (a : Result (IndexerError Error) (Unit {0})).
          Applied seq es ix (record ix { store = t; cursor = n }, a))
        (leb seq n) (λ h. absurd (omega (arith, same, leb→le seq n h)))
        (λ h. rolled_back t e n same old r)
  resynced-Applied seq es ix u t e fresh at whole (inr new) (ok n) r =
      let same = cursor-ReadsAs t u n seq new r whole.at in
      if_cases
        (λ (a : Result (IndexerError Error) (Unit {0})).
          Applied seq es ix (record ix { store = t; cursor = n }, a))
        (leb seq n) (λ h. ambiguous t u n fresh same whole new r)
        (λ h. absurd (ground (arith, same)))

  after_commit-Applied :
      (seq : ℕ) (es : List Event) (ix : Indexer S) (u : State)
      → ix.cursor < seq
      → read_cursor S ix.store ≡ ok ix.cursor
      → Whole S seq es ix.store u
      → (p : State × Result Error (Unit {0})) → commit ix.store u ≡ p
      → Applied seq es ix (after_commit S D seq ix p)
  after_commit-Applied seq es ix u fresh at whole (t, ok _) e =
      applied t fresh (read-Whole seq es ix.store u t (λ k. committed_reads k) whole)
    where
      committed_reads : (k : List ℕ) → read t k ≡ read u k
      committed_reads k =
          ap (λ (p : State × Result Error (Unit {0})). read p.0 k) (sym e)
          ∙ read-commit ix.store u k (ap (λ (p : State × Result Error (Unit {0})). p.1) e)
  after_commit-Applied seq es ix u fresh at whole (t, err x) e =
      let left = failed-commit ix.store u x (ap (λ (p : State × Result Error (Unit {0})). p.1) e) in
      resynced-Applied seq es ix u t x fresh at whole
        (subst (λ (w : State). ReadsAs S w ix.store ⊎ ReadsAs S w u)
          (ap (λ (p : State × Result Error (Unit {0})). p.0) e) left)
        (read_cursor S t) refl

  committed-Applied :
      (seq : ℕ) (es : List Event) (ix : Indexer S) (tx : State)
      → IsU64 seq
      → All IsTyped es
      → Amounts S ix.store
      → ix.cursor < seq
      → read_cursor S ix.store ≡ ok ix.cursor
      → begin ix.store ≡ ok tx
      → (p : State × Result (IndexerError Error) (Unit {0})) → apply_in_tx S seq es tx ≡ p
      → Applied seq es ix (committed S D seq ix p)
  committed-Applied seq es ix tx small typed amounts fresh at b (u, err e) run =
      refused e (failed_inside e tx u b run)
  committed-Applied seq es ix tx small typed amounts fresh at b (u, ok _) run =
      let begun : Amounts S tx = λ a r v ha hr f.
        amounts a r v ha hr
          (sym (balance-read S a r ix.store tx (read-begin ix.store tx (balance_key a r) b)) ∙ f) in
      after_commit-Applied seq es ix u fresh at
        (begun-Whole seq es ix.store tx u b (in_tx-Whole S seq es tx u small typed begun run))
        (commit ix.store u) refl

  in_transaction-Applied :
      (seq : ℕ) (es : List Event) (ix : Indexer S)
      → IsU64 seq
      → All IsTyped es
      → Amounts S ix.store
      → ix.cursor < seq
      → read_cursor S ix.store ≡ ok ix.cursor
      → (b : Result Error State) → begin ix.store ≡ b
      → Applied seq es ix (in_transaction S D seq es ix b)
  in_transaction-Applied seq es ix small typed amounts fresh at (err e) b =
      refused (storage e) (not_begun e b)
  in_transaction-Applied seq es ix small typed amounts fresh at (ok tx) b =
      committed-Applied seq es ix tx small typed amounts fresh at b (apply_in_tx S seq es tx) refl

  -- Each answer of `apply_batch` on a synced indexer, for a batch of typed events.
  pub apply_batch-Applied :
      (seq : ℕ) (es : List Event) (ix : Indexer S)
      → IsU64 seq
      → All IsTyped es
      → Amounts S ix.store
      → IsSynced ix
      → Applied seq es ix (apply_batch S D seq es ix)
  unfolding apply_batch
  apply_batch-Applied seq es ix small typed amounts synced =
      if_cases (Applied seq es ix) ix.poisoned (λ h. refused _ (was_poisoned h))
        λ healthy.
          if_cases (Applied seq es ix) (length es == 0) (λ h. refused _ (was_empty (ground arith)))
            λ _.
              if_cases (Applied seq es ix) (ltb indexer_max_batch_events (length es))
                (λ h. refused _ (was_large (ground arith)))
                λ _.
                  if_cases (Applied seq es ix) (leb seq ix.cursor)
                    (λ h. refused _ (was_stale (ground arith)))
                    λ h.
                      in_transaction-Applied seq es ix small typed amounts (ground arith)
                        (synced healthy) (begin ix.store) refl
