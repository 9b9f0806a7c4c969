-- ===== src/Lib.antt =====
-- A model of parts of the Canon host runtime (runtime/, in Rust), with the theorems that make
-- those parts correct.
--
-- The runtime stands around the kernel. The L1 ingestor (runtime/canon-l1-ingest) watches the
-- Ethereum chain through a window of block headers and turns contract events into signed actions;
-- the host (runtime/canon-host) passes such actions to the kernel; the event subscriber
-- (runtime/canon-event-subscribe) caches the events that the kernel emits and backfills clients that
-- resume; the indexer (runtime/canon-indexer) is such a client, and decodes the event payloads.
--
-- Files, and what they model:
--
--   Prelude, Bytes: shared names, lists over native numbers, Rust's Result, the fixed-width byte
--     orders of the standard library.
--   Indexer/Event: runtime/canon-indexer/src/event.rs. The enum is a data type; `IsTyped` says what
--     the field types of the source guarantee (64- and 128-bit ranges, byte elements, 20 bytes).
--   Indexer/Cursor, Encoder, Decoder: runtime/canon-indexer/src/decoder.rs. A method of Cursor is a
--     reader, a function from a cursor to a value with the new cursor or an error; `?` is the bind.
--     The writers take the output buffer last. Cursor/Reads and Cursor/Fields hold a rule for each
--     reader on what it reads back, Cursor/Takes and Decoder/Echo the converse, on what a success took.
--   Indexer/Balance: runtime/canon-indexer/src/balance.rs, the balances of actors and resources in a
--     key-value store. The store (runtime/canon-storage/src/storage.rs) is the record `Storage`, whose
--     laws are what is documented of `get` and `put`. `balance`, `set_balance`, `credit` and `debit` are
--     `get`, `set`, `credit` and `debit` of the two views, which have the same code; `scan_all` is the
--     method of BalanceView.
--   Indexer/Progress, Indexer/Database, Indexer/Core: runtime/canon-indexer/src/cursor.rs and indexer.rs,
--     the application of a batch in one transaction. Database adds to Storage the documented laws of a
--     transaction: its view is the store at its begin, and a commit that succeeds makes it the store.
--     `apply_batch` is the method, `in_transaction` and `after_commit` its parts. Cells gives the batch
--     a second reading, cell by cell; Touch, Passes, Whole and Applied prove the passes against it, Runs
--     and Reliable speak of sequences of batches and of a store that does not fail.
--   Subscribe/EventCache: runtime/canon-event-subscribe/src/event_cache.rs. `push`, `range`, `get` and
--     the queries have the names of the methods; History relates a cache to the list of all events
--     pushed, Window and Hint state `range` against it.
--   Subscribe/Frame: runtime/canon-event-subscribe/src/frame.rs. A socket is the list of the chunks that
--     its reads can give; `fill` is the loop that fills a buffer. Chunks, RoundTrip and Cut read encoded
--     and shortened streams under every cutting.
--   Subscribe/Subscription: runtime/canon-event-subscribe/src/subscription.rs. The atomics and the channel
--     of a subscriber are one record, and each call is one step on it; Moves lists the steps, which may
--     come in any order.
--   L1/Reorg: runtime/canon-l1-ingest/src/reorg.rs. `advance` is the method; `advance_onto` is its
--     part behind the test for an empty window, `walk_back` the search for a parent that it holds
--     twice. Chain, Outcome, Fork and Invariant hold the proofs.
--   L1/Action, L1/Encoding: runtime/canon-l1-ingest/src/action.rs and encoding.rs. `encode_action` is
--     the function, with the match on the action in `encode_action_fields`; a `do` block is a chain of
--     `?`. Fields writes every action as a list of self-delimiting fields, on which Injective and
--     Signing rest.
--   L1/AddressBook: runtime/canon-l1-ingest/src/address_book.rs. The maps are the association lists of
--     Prelude/Maps; `try_assign` returns the book that it leaves beside its answer.
--   L1/Events, L1/Events/Decode: runtime/canon-l1-ingest/src/events.rs. A topic is read as the 32 bytes
--     that spell it; Abi encodes events as a contract does.
--   L1/Translation: runtime/canon-l1-ingest/src/translation.rs, with the names of the functions.
--   L1/Journal: the records of runtime/canon-l1-ingest/src/state.rs and their replay. `replay_record` is
--     the match in the loop of `StateStore::replay`. Scan holds what each appended record does to the
--     replay.
--   L1/Watcher: `process_event` of runtime/canon-l1-ingest/src/watcher.rs and what it calls, over the
--     record `Environment`: the consumer, the keystore, keccak256 and the journal's file, of which only
--     an append changes the journal. The retry loop recurses on the retries left. Mirror relates the
--     state in memory to the journal; Once and Restart are about an event whose processing succeeded and
--     that is met again.
--   L1/Watcher/Blocks: `process_block` and `run_iteration`, over a node `L1Source` that answers from the
--     world. The window of headers stands beside the watcher's other state. Range describes a run over
--     consecutive blocks, Batch and Depth say which blocks an iteration takes.
--   Tests: concrete runs, over stores, a journal and a chain in memory.
--
-- Machine integers are natural numbers with their range as a hypothesis; an addition that can wrap
-- or saturate is written out. A byte is a number below 256, a vector a list, a 32-byte hash the
-- number that its bytes spell. No model needs fuel: every recursion is on a list, a width, or
-- a count that the source bounds (the retries, the blocks of an iteration).
--
-- Not modelled: sockets, files, processes, threads, TLS, SQLite, the cryptographic adaptors, command
-- lines, and the benchmark and fixture tools. They are input and output, third-party code or
-- tooling. The tracing calls and the error messages' texts are left out of the functions modelled.
pub mod Prelude
pub mod Bytes
pub mod Indexer
pub mod Subscribe
pub mod L1
mod Tests
