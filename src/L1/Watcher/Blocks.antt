-- ===== src/L1/Watcher/Blocks.antt =====
-- runtime/canon-l1-ingest/src/watcher.rs: the blocks of an iteration. The L1 node is a parameter: it
-- answers from a world that it may change, but for the journal.
pub mod Still
pub mod Range
pub mod Batch
pub mod Depth
use canon.Prelude.{
  ℕ, zero, suc, ◌+◌, ◌-◌, ◌^◌, ◌≡◌, Bool, true, false, Option, none, some, List, [], ◌∷◌, ◌++◌,
  length, min, ltb, leb, ◌==◌, if◌then◌else◌,
}
use canon.Prelude.Result.{Result, ok, err}
use canon.Prelude.Stateful.{Run, pure, ◌>>=◌, ◌>>◌, or_err}
use canon.Bytes.{same_bytes, from_be_bytes}
use canon.L1.Action.{EthAddress}
use canon.L1.Reorg.{
  TopicHash, BlockHeader, ReorgError, AdvanceOutcome, advanced, ReorgWindow, seed, advance,
}
use canon.L1.Events.{IngestedEvent, RawLog}
use canon.L1.Events.Decode.{DecodeError, decode_event}
use canon.L1.Journal.{StateError, StateRecord, confirmed, Line, WatcherState}
use canon.L1.Watcher.{
  Environment, Watcher, WatcherError, source, decode, reorg, state, process_event,
}

abbrev pub u64_max : ℕ
u64_max = 2 ^ 64 - 1

pub record L1Source (V : Environment) : Type 0 where
  pub latest_block_number : V.World → V.World × Result V.SourceError ℕ
  pub block_header_by_number : ℕ → V.World → V.World × Result V.SourceError BlockHeader
  pub logs_in_block_by_hash :
      TopicHash → EthAddress → V.World → V.World × Result V.SourceError (List RawLog)
  pub journal-latest : (w : V.World) → V.journal (latest_block_number w).0 ≡ V.journal w
  pub journal-header :
      (n : ℕ) (w : V.World) → V.journal (block_header_by_number n w).0 ≡ V.journal w
  pub journal-logs :
      (h : TopicHash) (a : EthAddress) (w : V.World)
      → V.journal (logs_in_block_by_hash h a w).0 ≡ V.journal w

pub record WatcherConfig : Type 0 where
  pub bridge_contract : EthAddress
  pub identity_registry_contract : EthAddress
  pub confirmation_depth : ℕ
  pub reorg_window_capacity : ℕ
  pub poll_interval_ms : ℕ
  pub deployment_id : List ℕ
  pub blocks_per_iteration : ℕ

-- `sort_by_key(|l| l.log_index)`, which is stable.
unfoldable pub insert_log : RawLog → List RawLog → List RawLog
insert_log log [] = log ∷ []
insert_log log (l ∷ logs) =
    let behind = insert_log log logs in
    if leb log.log_index l.log_index then log ∷ l ∷ logs else l ∷ behind

unfoldable pub sort_logs : List RawLog → List RawLog
sort_logs [] = []
sort_logs (log ∷ logs) = insert_log log (sort_logs logs)

abbrev pub saturating_add : ℕ → ℕ → ℕ
saturating_add a b = min (a + b) u64_max

module _ (V : Environment) (L : L1Source V) (config : WatcherConfig) where
  open V use {World, SourceError, keccak256, append}
  open L use {latest_block_number, block_header_by_number, logs_in_block_by_hash}

  -- The watcher with its re-org window.
  pub record WatcherLoop : Type 0 where
    pub core : Watcher V
    pub reorg_window : ReorgWindow

  abbrev pub Step : Type 0 → Type 0
  Step A = Run WatcherLoop (WatcherError V) A

  abbrev pub in_world : {A : Type 0} → WatcherLoop → World → A → WatcherLoop × A
  in_world l w a = (record l { core = record l.core { world = w } }, a)

  abbrev pub ask : {A : Type 0} → (World → World × Result SourceError A) → Step A
  ask question l = or_err source (in_world l (question l.core.world).0 (question l.core.world).1)

  abbrev pub with_core :
      WatcherLoop
      → Watcher V × Result (WatcherError V) (Unit {0})
      → WatcherLoop × Result (WatcherError V) (Unit {0})
  with_core l (c, r) = (record l { core = c }, r)

  abbrev pub handle_event : TopicHash → IngestedEvent → Step (Unit {0})
  handle_event block_hash event l =
      with_core l (process_event V config.deployment_id event block_hash l.core)

  abbrev pub handle_decoded :
      TopicHash → Result DecodeError (Option IngestedEvent) → Step (Unit {0})
  handle_decoded block_hash (ok (some event)) = handle_event block_hash event
  handle_decoded block_hash (ok none) = pure tt
  handle_decoded block_hash (err e) = λ l. (l, err (decode e))

  abbrev pub hash_of : List ℕ → TopicHash
  hash_of bytes = from_be_bytes (keccak256 bytes)

  unfoldable pub process_logs : TopicHash → List RawLog → Step (Unit {0})
  process_logs block_hash [] = pure tt
  process_logs block_hash (log ∷ logs) =
      handle_decoded block_hash (decode_event hash_of log) >> process_logs block_hash logs

  abbrev pub with_window :
      WatcherLoop
      → ReorgWindow × Result ReorgError AdvanceOutcome
      → WatcherLoop × Result (WatcherError V) (Unit {0})
  with_window l (window, ok outcome) = (record l { reorg_window = window }, ok tt)
  with_window l (window, err e) = (record l { reorg_window = window }, err (reorg e))

  -- The first header seeds an empty window.
  unfoldable pub feed_window : BlockHeader → Step (Unit {0})
  feed_window header l = with_window l (
      if length l.reorg_window.buffer == 0
      then (seed (header ∷ []) l.reorg_window, ok advanced)
      else advance header l.reorg_window)

  -- The second query is skipped where the two contracts are one.
  abbrev pub fetch_more : TopicHash → List RawLog → Step (List RawLog)
  fetch_more hash logs l =
      if same_bytes config.bridge_contract config.identity_registry_contract
      then pure logs l
      else (ask (logs_in_block_by_hash hash config.identity_registry_contract) >>= λ more.
            pure (logs ++ more))
          l

  unfoldable pub fetch_logs : TopicHash → Step (List RawLog)
  fetch_logs hash = ask (logs_in_block_by_hash hash config.bridge_contract) >>= fetch_more hash

  abbrev pub process_sorted : TopicHash → List RawLog → Step (Unit {0})
  process_sorted hash logs = process_logs hash (sort_logs logs)

  abbrev pub process_header : BlockHeader → Step (Unit {0})
  process_header header =
      feed_window header >> (fetch_logs header.hash >>= process_sorted header.hash)

  unfoldable pub process_block : ℕ → Step (Unit {0})
  process_block block_number = ask (block_header_by_number block_number) >>= process_header

  abbrev pub append_record : StateRecord → Step (Unit {0})
  append_record r l = or_err state (in_world l (append l.core.world r).0 (append l.core.world r).1)

  abbrev pub set_confirmed : ℕ → Step (Unit {0})
  set_confirmed block_number l = (
    record l {
      core = record l.core {
        in_memory = record l.core.in_memory { last_confirmed_block = some block_number };
      };
    },
    ok tt,
  )

  unfoldable pub confirm_block : ℕ → Step (Unit {0})
  confirm_block block_number =
      process_block block_number
      >> append_record (confirmed block_number)
      >> set_confirmed block_number

  -- The loop over the range, which has `count` numbers; it gives the number of blocks processed.
  unfoldable pub process_range : (count block_number processed : ℕ) → Step ℕ
  process_range zero block_number processed = pure processed
  process_range (suc count) block_number processed =
      confirm_block block_number >> process_range count (block_number + 1) (processed + 1)

  abbrev pub start_after : Option ℕ → ℕ
  start_after none = 0
  start_after (some b) = saturating_add b 1

  abbrev pub run_batch : (confirmed_head start_block : ℕ) → Step ℕ
  run_batch confirmed_head start_block =
      if ltb confirmed_head start_block
      then pure 0
      else if config.blocks_per_iteration == 0
      then pure 0
      else process_range
          (min (saturating_add (confirmed_head - start_block) 1) config.blocks_per_iteration)
          start_block 0

  abbrev pub run_to : ℕ → Step ℕ
  run_to latest l =
      if ltb latest config.confirmation_depth
      then pure 0 l
      else run_batch (latest - config.confirmation_depth)
          (start_after l.core.in_memory.last_confirmed_block) l

  unfoldable pub run_iteration : Step ℕ
  run_iteration = ask latest_block_number >>= run_to
