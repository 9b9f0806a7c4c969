-- ===== src/Indexer/Core/Runs.antt =====
-- Runs of batches: the cursor, and what a replay does.
use canon.Prelude.{
  ℕ, ◌^◌, ◌<◌, ◌≤◌, ◌≡◌, inl, inr, refl, ap, ◌∙◌, subst, arith, Bool, false, Option, List, [], ◌∷◌,
  All, length,
}
use canon.Prelude.Result.{Result, ok, err}
use canon.Bytes.{IsU64}
use canon.Indexer.Event.{Event, IsTyped}
use canon.Indexer.Balance.{Storage, balance_key}
use canon.Indexer.Balance.Store.{balance, decoded}
use canon.Indexer.Database.{Database, ReadsAs}
use canon.Indexer.Progress.{CursorError, read_cursor, Moved, ensure_identifier}
use canon.Indexer.Core.{
  Indexer, Answer, opened_at, stale_event, indexer_max_batch_events, opened, open_indexer,
  apply_batch,
}
use canon.Indexer.Core.Touch.{Amounts}
use canon.Indexer.Core.Applied.{
  Applied, refused, applied, ambiguous, rolled_back, unknown, EitherWay, IsSynced,
  apply_batch-Applied,
}

module _ (S : Storage) (D : Database S) where
  open S use {State, Error, read}

  ReadsAs-Amounts : (t s : State) → ReadsAs S t s → Amounts S s → Amounts S t
  unfolding balance
  ReadsAs-Amounts t s h typed a r v ha hr e = go (read t (balance_key a r)) refl e
    where
      go :
          (x : Result Error (Option (List ℕ)))
          → read t (balance_key a r) ≡ x
          → decoded S a r x ≡ ok v
          → v < 2 ^ 128
      go (ok c) f k = typed a r v ha hr (ap (decoded S a r) (h (balance_key a r) c f) ∙ k)
      go (err z) f k = cc k

  -- A synced indexer over cells of `u128` amounts.
  pub record IsSound (ix : Indexer S) : Type 0 where
    pub synced : IsSynced S D ix
    pub amounts : Amounts S ix.store

  either-Amounts :
      (seq : ℕ) (es : List Event) (s t : State)
      → EitherWay S D seq es s t
      → Amounts S s
      → Amounts S t
  either-Amounts seq es s t (inl old) h = ReadsAs-Amounts t s old h
  either-Amounts seq es s t (inr (u, w, new)) h = ReadsAs-Amounts t u new (w.amounts h)

  Applied-IsSound :
      (seq : ℕ) (es : List Event) (ix : Indexer S) (a : Answer S D)
      → Applied S D seq es ix a
      → IsSound ix
      → IsSound a.0 × (ix.cursor ≤ a.0.cursor)
  Applied-IsSound seq es ix _ (refused e g) h = (h, omega arith)
  Applied-IsSound seq es ix _ (applied t fresh w) h =
      (record { synced = λ _. w.at; amounts = w.amounts h.amounts }, omega arith)
  Applied-IsSound seq es ix _ (ambiguous t u n fresh same w new at) h = (
    record { synced = λ _. at; amounts = ReadsAs-Amounts t u new (w.amounts h.amounts) },
    omega arith,
  )
  Applied-IsSound seq es ix _ (rolled_back t e n same old at) h =
      (record { synced = λ _. at; amounts = ReadsAs-Amounts t ix.store old h.amounts }, omega arith)
  Applied-IsSound seq es ix _ (unknown t e f either) h = (
    record { synced = λ p. cc p; amounts = either-Amounts seq es ix.store t either h.amounts },
    omega arith,
  )

  -- One batch after the other.
  abbrev pub fed : List (ℕ × List Event) → Indexer S → Indexer S
  fed [] ix = ix
  fed ((seq, es) ∷ batches) ix = fed batches (apply_batch S D seq es ix).0

  abbrev pub IsBatch : ℕ × List Event → Type 0
  IsBatch (seq, es) = IsU64 seq × All IsTyped es

  fed-IsSound :
      (batches : List (ℕ × List Event)) (ix : Indexer S)
      → All IsBatch batches
      → IsSound ix
      → IsSound (fed batches ix) × (ix.cursor ≤ (fed batches ix).cursor)
  fed-IsSound [] ix typed h = (h, omega arith)
  fed-IsSound ((seq, es) ∷ batches) ix typed h =
      let answer = apply_batch-Applied S D seq es ix typed.0.0 typed.0.1 h.amounts h.synced in
      let (sound, on) = Applied-IsSound seq es ix (apply_batch S D seq es ix) answer h in
      let (rest, further) = fed-IsSound batches (apply_batch S D seq es ix).0 typed.1 sound in
      (rest, omega arith)

  opened_at-IsSynced :
      (t s : State) (x : Result (CursorError Error) ℕ) (ix : Indexer S)
      → read_cursor S t ≡ x
      → opened_at S D t x ≡ (s, ok ix)
      → IsSynced S D ix
  opened_at-IsSynced t s (ok at) ix e k =
      let fresh : Indexer S = record { store = t; cursor = at; poisoned = false } in
      let same : fresh ≡ ix = cc k in subst (IsSynced S D) same (λ _. e)
  opened_at-IsSynced t s (err f) ix e k = cc k

  opened-IsSynced :
      (p : Moved S) (s : State) (ix : Indexer S) → opened S D p ≡ (s, ok ix) → IsSynced S D ix
  opened-IsSynced (t, err e) s ix h = cc h
  opened-IsSynced (t, ok u) s ix h = opened_at-IsSynced t s (read_cursor S t) ix refl h

  -- After an opening and any run of batches, of which some may fail, the cursor in memory is the one on
  -- disk unless the indexer is poisoned, and it has not gone back.
  pub fed-open :
      (is_utf8 : List ℕ → Bool) (identifier : List ℕ) (s t : State) (ix : Indexer S)
      (batches : List (ℕ × List Event))
      → open_indexer S D is_utf8 identifier s ≡ (t, ok ix)
      → Amounts S ix.store
      → All IsBatch batches
      → IsSynced S D (fed batches ix) × (ix.cursor ≤ (fed batches ix).cursor)
  unfolding open_indexer
  fed-open is_utf8 identifier s t ix batches e amounts typed =
      let first = opened-IsSynced (ensure_identifier S is_utf8 identifier s) t ix e in
      let (sound, on) =
        fed-IsSound batches ix typed (record { synced = first; amounts = amounts }) in
      (sound.synced, on)

  stale :
      (ix : Indexer S) (seq seq' : ℕ) (es : List Event)
      → ix.poisoned ≡ false
      → ix.cursor ≡ seq
      → seq' ≤ seq
      → 1 ≤ length es
      → length es ≤ indexer_max_batch_events
      → apply_batch S D seq' es ix ≡ (ix, err (stale_event seq' seq))
  unfolding apply_batch
  stale ix seq seq' es healthy at older some_events few = ground arith

  Applied-cursor :
      (seq : ℕ) (es : List Event) (ix : Indexer S) (a : Answer S D)
      → Applied S D seq es ix a
      → a.1 ≡ ok tt
      → (a.0.cursor ≡ seq) × (a.0.poisoned ≡ ix.poisoned)
  Applied-cursor seq es ix _ (refused e g) h = cc h
  Applied-cursor seq es ix _ (applied t fresh w) h = (refl, refl)
  Applied-cursor seq es ix _ (ambiguous t u n fresh same w new at) h = cc h
  Applied-cursor seq es ix _ (rolled_back t e n same old at) h = cc h
  Applied-cursor seq es ix _ (unknown t e f either) h = cc h

  -- After a batch that was applied, every batch of 1 to 1024 events at the same or an earlier seq is
  -- refused as stale, and leaves the indexer and the store.
  pub apply_batch-replayed :
      (seq seq' : ℕ) (es es' : List Event) (ix : Indexer S)
      → IsU64 seq
      → All IsTyped es
      → IsSound ix
      → ix.poisoned ≡ false
      → (apply_batch S D seq es ix).1 ≡ ok tt
      → seq' ≤ seq
      → 1 ≤ length es'
      → length es' ≤ indexer_max_batch_events
      → let ix' = (apply_batch S D seq es ix).0 in
        apply_batch S D seq' es' ix' ≡ (ix', err (stale_event seq' seq))
  apply_batch-replayed seq seq' es es' ix small typed h healthy done older some_events few =
      let (at, still) =
        Applied-cursor seq es ix (apply_batch S D seq es ix)
          (apply_batch-Applied S D seq es ix small typed h.amounts h.synced) done in
      stale (apply_batch S D seq es ix).0 seq seq' es' (still ∙ healthy) at older some_events few
