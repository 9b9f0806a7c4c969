-- ===== src/Tests/Indexing.antt =====
-- The indexer of runtime/canon-indexer over a store in memory.
use canon.Prelude.{ℕ, ◌≡◌, ◌≤◌, refl, arith, true, false, List, [], ◌∷◌, if◌then◌else◌}
use canon.Prelude.Result.{ok, err}
use canon.Prelude.Maps.{get, insert}
use canon.Bytes.{same_bytes, to_be_bytes, to_le_bytes, from_be_bytes, from_le_bytes}
use canon.Indexer.Event.{Event, balance_changed, withdrawal_requested, deposit_credited}
use canon.Indexer.Balance.{balance_key, decode_cell, checked_add}
use canon.Indexer.Balance.Store.{balance, credit, debit, set_balance, write_balance}
use canon.Indexer.Progress.{
  identifier_key, identifier_mismatch, decode_cursor, read_cursor, advance_cursor_in_tx,
  write_cursor, ensure_identifier,
}
use canon.Indexer.Progress.Identifier.{ensure_identifier-again}
use canon.Indexer.Core.{
  Indexer, contains, bc_pairs, apply_semantic_event, apply_semantic_events, apply_sets, apply_in_tx,
  apply_batch, open_indexer, stale_event,
}
use canon.Indexer.Core.Touch.{Amounts}
use canon.Indexer.Core.Applied.{Applied, IsSynced, apply_batch-Applied}
use canon.Indexer.Core.Runs.{fed, fed-open, apply_batch-replayed}
use canon.Indexer.Core.Reliable.{IsReliable, apply_batch_ok}
use canon.Tests.Memory.{Rows, memory, disk}

abbrev identifier : List ℕ
identifier = b'c' ∷ b'a' ∷ b'n' ∷ b'o' ∷ b'n' ∷ []

abbrev marked_store : Rows
marked_store = (identifier_key, identifier) ∷ []

abbrev fresh : Indexer memory
fresh = record { store = marked_store; cursor = 0; poisoned = false }

open_fresh : open_indexer memory disk (λ b. true) identifier [] ≡ (marked_store, ok fresh)
unfolding open_indexer ensure_identifier read_cursor decode_cursor get insert
open_fresh = refl

fresh-Amounts : Amounts memory marked_store
unfolding balance balance_key get decode_cell
fresh-Amounts a r v ha hr e = let zero_is : 0 ≡ v = cc e in omega (arith, zero_is)

fresh-IsSynced : IsSynced memory disk fresh
unfolding read_cursor decode_cursor get
fresh-IsSynced = λ _. refl

abbrev address : List ℕ
address = 1 ∷ 1 ∷ 1 ∷ 1 ∷ 1 ∷ 1 ∷ 1 ∷ 1 ∷ 1 ∷ 1 ∷ 1 ∷ 1 ∷ 1 ∷ 1 ∷ 1 ∷ 1 ∷ 1 ∷ 1 ∷ 1 ∷ 1 ∷ []

-- The withdrawal would underflow, were it not for the balance that the batch reports.
abbrev batch : List Event
batch =
    withdrawal_requested 3 1 30 address 8
    ∷ deposit_credited 2 1 100 9
    ∷ balance_changed 3 1 50 20
    ∷ []

apply_batch-Applied_example :
    Applied memory disk 5 batch fresh (apply_batch memory disk 5 batch fresh)
apply_batch-Applied_example =
    apply_batch-Applied memory disk 5 batch fresh (omega arith) (omega arith) fresh-Amounts
      fresh-IsSynced

reliable : IsReliable memory disk
reliable = record { begins = λ s. (s, refl); puts = λ s k v. refl; commits = λ s tx. refl }

abbrev covered_batch : List Event
covered_batch = withdrawal_requested 3 1 30 address 8 ∷ balance_changed 3 1 50 20 ∷ []

batch-covered : contains (bc_pairs covered_batch) 1 3 ≡ true
unfolding contains bc_pairs
batch-covered = refl

apply_batch_ok_example : (apply_batch memory disk 5 covered_batch fresh).1 ≡ ok tt
apply_batch_ok_example =
    apply_batch_ok memory disk 5 covered_batch fresh reliable (omega arith)
      (batch-covered, (tt, tt)) fresh-IsSynced refl (omega arith) (omega arith) (omega arith)

-- The reported balance stands, and the deposit of the other cell is added.
applied_balances :
    let ix = (apply_batch memory disk 5 batch fresh).0 in
    (balance memory 1 3 ix.store ≡ ok 20)
    × (balance memory 1 2 ix.store ≡ ok 100)
    × (read_cursor memory ix.store ≡ ok 5)
unfolding apply_batch apply_in_tx apply_semantic_events apply_semantic_event apply_sets contains
    bc_pairs balance balance_key get insert decode_cell read_cursor decode_cursor
    advance_cursor_in_tx write_cursor credit debit set_balance write_balance checked_add to_be_bytes
    to_le_bytes from_be_bytes from_le_bytes
applied_balances = (refl, refl, refl)

batch_applied : (apply_batch memory disk 5 batch fresh).1 ≡ ok tt
unfolding apply_batch apply_in_tx apply_semantic_events apply_semantic_event apply_sets contains
    bc_pairs balance balance_key get insert decode_cell read_cursor decode_cursor
    advance_cursor_in_tx write_cursor credit debit set_balance write_balance checked_add to_be_bytes
    to_le_bytes from_be_bytes from_le_bytes
batch_applied = refl

apply_batch-replayed_example :
    let ix = (apply_batch memory disk 5 batch fresh).0 in
    apply_batch memory disk 4 batch ix ≡ (ix, err (stale_event 4 5))
apply_batch-replayed_example =
    apply_batch-replayed memory disk 5 4 batch batch fresh (omega arith) (omega arith)
      (record { synced = fresh-IsSynced; amounts = fresh-Amounts }) refl batch_applied (omega arith)
      (omega arith) (omega arith)

fed-open_example :
    let ix = fed memory disk ((5, batch) ∷ (5, batch) ∷ []) fresh in
    IsSynced memory disk ix × (0 ≤ ix.cursor)
fed-open_example =
    fed-open memory disk (λ b. true) identifier [] marked_store fresh ((5, batch) ∷ (5, batch) ∷ [])
      open_fresh fresh-Amounts (omega arith)

abbrev other_name : List ℕ
other_name = b'x' ∷ []

marks : ensure_identifier memory (λ b. true) identifier [] ≡ (marked_store, ok tt)
unfolding ensure_identifier get insert
marks = refl

ensure_identifier-again_example : ensure_identifier memory (λ b. true) other_name marked_store ≡ (
  marked_store,
  if same_bytes identifier other_name
      then ok tt
      else err (identifier_mismatch other_name identifier),
)
ensure_identifier-again_example =
    ensure_identifier-again memory (λ b. true) identifier other_name [] marked_store refl marks
