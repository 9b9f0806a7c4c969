-- ===== src/Indexer/Core.antt =====
-- runtime/canon-indexer/src/indexer.rs: the batches of events, applied to the balances and the cursor
-- in one transaction. An `Indexer` holds the state of the store that it borrows.
pub mod Cells
pub mod Touch
pub mod Passes
pub mod Whole
pub mod Applied
pub mod Runs
pub mod Reliable
use canon.Prelude.{
  ℕ, ◌≡◌, Bool, true, false, ◌&&◌, ◌||◌, Option, none, some, List, [], ◌∷◌, length, ltb, leb, ◌==◌,
  if◌then◌else◌,
}
use canon.Prelude.Result.{Result, ok, err}
use canon.Prelude.Stateful.{Run, pure, ◌>>=◌, ◌>>◌, map_err}
use canon.Indexer.Event.{
  Event, balance_changed, reward_issued, withdrawal_requested, deposit_credited,
}
use canon.Indexer.Cursor.{DecodeError}
use canon.Indexer.Balance.{Storage, BalanceError}
use canon.Indexer.Balance.Store.{set_balance, credit, debit}
use canon.Indexer.Database.{Database}
use canon.Indexer.Progress.{CursorError, read_cursor, advance_cursor_in_tx, ensure_identifier}

abbrev pub indexer_max_batch_events : ℕ
indexer_max_batch_events = 1024

pub data IndexerError (E : Type 0) : Type 0 where
  storage : E → IndexerError E
  balance : BalanceError E → IndexerError E
  cursor_failure : CursorError E → IndexerError E
  decode : (seq : ℕ) → DecodeError → IndexerError E
  empty_batch : IndexerError E
  batch_too_large : (size max_size : ℕ) → IndexerError E
  stale_event : (seq at_cursor : ℕ) → IndexerError E
  protocol_violation : (current_seq offending_seq : ℕ) → IndexerError E
  commit_ambiguous : (seq disk_cursor : ℕ) → IndexerError E
  cursor_recovery_failed : (seq : ℕ) → E → CursorError E → IndexerError E
  poisoned_before : IndexerError E

abbrev pub same_cell : ℕ → ℕ → ℕ → ℕ → Bool
same_cell b q a r = b == a && q == r

-- The pairs of the `HashSet`.
unfoldable pub bc_pairs : List Event → List (ℕ × ℕ)
bc_pairs [] = []
bc_pairs (balance_changed resource actor old_value new_value ∷ events) =
    (actor, resource) ∷ bc_pairs events
bc_pairs (_ ∷ events) = bc_pairs events

unfoldable pub contains : List (ℕ × ℕ) → ℕ → ℕ → Bool
contains [] a r = false
contains ((b, q) ∷ pairs) a r = same_cell b q a r || contains pairs a r

module _ (S : Storage) where
  open S use {State, Error}

  abbrev pub View : Type 0
  View = Run State (BalanceError Error) (Unit {0})

  -- `return Ok(())` for a covered pair, and the value of the method dropped otherwise.
  abbrev pub unless_covered : Bool → Run State (BalanceError Error) ℕ → View
  unless_covered true method = pure tt
  unless_covered false method = do method; pure tt

  unfoldable pub apply_semantic_event : List (ℕ × ℕ) → Event → View
  apply_semantic_event pairs (reward_issued resource recipient amount) =
      unless_covered (contains pairs recipient resource) (credit S recipient resource amount)
  apply_semantic_event pairs
        (withdrawal_requested resource sender amount recipient_l1 withdrawal_id) =
      unless_covered (contains pairs sender resource) (debit S sender resource amount)
  apply_semantic_event pairs (deposit_credited resource recipient amount deposit_id) =
      unless_covered (contains pairs recipient resource) (credit S recipient resource amount)
  apply_semantic_event pairs _ = pure tt

  -- The first loop.
  unfoldable pub apply_semantic_events : List (ℕ × ℕ) → List Event → View
  apply_semantic_events pairs [] = pure tt
  apply_semantic_events pairs (event ∷ events) = do
    apply_semantic_event pairs event
    apply_semantic_events pairs events

  -- The second loop.
  unfoldable pub apply_sets : List Event → View
  apply_sets [] = pure tt
  apply_sets (balance_changed resource actor old_value new_value ∷ events) = do
    set_balance S actor resource new_value
    apply_sets events
  apply_sets (_ ∷ events) = apply_sets events

  abbrev pub InTx : Type 0
  InTx = Run State (IndexerError Error) (Unit {0})

  -- What happens in the transaction, before the commit.
  unfoldable pub apply_in_tx : ℕ → List Event → InTx
  apply_in_tx seq events = do
    map_err balance (apply_semantic_events (bc_pairs events) events)
    map_err balance (apply_sets events)
    map_err cursor_failure (advance_cursor_in_tx S seq)

  pub record Indexer : Type 0 where
    pub store : State
    pub cursor : ℕ
    pub poisoned : Bool

  module _ (D : Database S) where
    open D use {begin, commit}

    abbrev pub Answer : Type 0
    Answer = Indexer × Result (IndexerError Error) (Unit {0})

    abbrev pub opened_at :
        State → Result (CursorError Error) ℕ → State × Result (IndexerError Error) Indexer
    opened_at s (ok at) = (s, ok (record { store = s; cursor = at; poisoned = false }))
    opened_at s (err e) = (s, err (cursor_failure e))

    abbrev pub opened :
        State × Result (CursorError Error) (Unit {0}) → State × Result (IndexerError Error) Indexer
    opened (s, ok u) = opened_at s (read_cursor S s)
    opened (s, err e) = (s, err (cursor_failure e))

    -- `Indexer::open`, with the identifier that the crate fixes and the test of `from_utf8`.
    unfoldable pub open_indexer :
        (List ℕ → Bool) → List ℕ → State → State × Result (IndexerError Error) Indexer
    open_indexer is_utf8 identifier s = opened (ensure_identifier S is_utf8 identifier s)

    -- The cursor on disk decides what a failed commit did.
    abbrev pub resynced : ℕ → Indexer → Error → Result (CursorError Error) ℕ → Answer
    resynced seq ix commit_err (ok disk_cursor) = (
      record ix { cursor = disk_cursor },
      if leb seq disk_cursor
          then err (commit_ambiguous seq disk_cursor)
          else err (storage commit_err),
    )
    resynced seq ix commit_err (err cursor_err) =
        (record ix { poisoned = true }, err (cursor_recovery_failed seq commit_err cursor_err))

    abbrev pub after_commit : ℕ → Indexer → State × Result Error (Unit {0}) → Answer
    after_commit seq ix (s, ok u) = (record ix { store = s; cursor = seq }, ok tt)
    after_commit seq ix (s, err e) = resynced seq (record ix { store = s }) e (read_cursor S s)

    -- A dropped transaction leaves the store.
    abbrev pub committed : ℕ → Indexer → State × Result (IndexerError Error) (Unit {0}) → Answer
    committed seq ix (tx, ok u) = after_commit seq ix (commit ix.store tx)
    committed seq ix (tx, err e) = (ix, err e)

    abbrev pub in_transaction : ℕ → List Event → Indexer → Result Error State → Answer
    in_transaction seq events ix (ok tx) = committed seq ix (apply_in_tx seq events tx)
    in_transaction seq events ix (err e) = (ix, err (storage e))

    unfoldable pub apply_batch : ℕ → List Event → Indexer → Answer
    apply_batch seq events ix =
        if ix.poisoned
        then (ix, err poisoned_before)
        else if length events == 0
        then (ix, err empty_batch)
        else if ltb indexer_max_batch_events (length events)
        then (ix, err (batch_too_large (length events) indexer_max_batch_events))
        else if leb seq ix.cursor
        then (ix, err (stale_event seq ix.cursor))
        else in_transaction seq events ix (begin ix.store)

    abbrev reloaded : Indexer → Result (CursorError Error) ℕ → Answer
    reloaded ix (ok at) = (record ix { cursor = at }, ok tt)
    reloaded ix (err e) = (ix, err (cursor_failure e))

    unfoldable pub reload_cursor : Indexer → Answer
    reload_cursor ix = reloaded ix (read_cursor S ix.store)
