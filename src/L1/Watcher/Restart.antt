-- ===== src/L1/Watcher/Restart.antt =====
-- The watcher that opens its file again.
use canon.Prelude.{ℕ, ◌+◌, ◌≡◌, sym, ap, ◌∙◌, subst, List}
use canon.Prelude.Result.{ok}
use canon.Bytes.{IsU64}
use canon.L1.Reorg.{TopicHash}
use canon.L1.Events.{IngestedEvent}
use canon.L1.Translation.Commit.{IsSized}
use canon.L1.Journal.{has_key, WatcherState, replay}
use canon.L1.Journal.Scan.{IsKey}
use canon.L1.Watcher.{Environment, Watcher, key_of, process_event}
use canon.L1.Watcher.Mirror.{InStep, Written, process_event-replay}
use canon.L1.Watcher.Once.{process_event-Recorded, process_event-known}

module _ (V : Environment) (deployment_id : List ℕ) (event : IngestedEvent)
    (block_hash : TopicHash) where
  open V use {journal}

  -- After an event was processed, a watcher that replays the journal from the file and meets the event
  -- again sends, writes and changes nothing. The hashes have 32 bytes, the addresses 20, the counter of
  -- actor ids had room, and the state in memory was the journal's.
  pub process_event-restarted :
      (watcher : Watcher V) (s : WatcherState)
      → IsKey (key_of V event block_hash)
      → IsSized event
      → IsU64 (watcher.in_memory.address_book.next_actor_id + 1)
      → InStep V watcher
      → (process_event V deployment_id event block_hash watcher).1 ≡ ok tt
      → replay (journal (process_event V deployment_id event block_hash watcher).0.world) ≡ ok s
      → (let restarted : Watcher V = record {
        in_memory = s;
        world = (process_event V deployment_id event block_hash watcher).0.world;
      } in
          process_event V deployment_id event block_hash restarted ≡ (restarted, ok tt))
  process_event-restarted watcher s h size room m done opened =
      let written = subst (Written V) (sym done) tt in
      let same : (process_event V deployment_id event block_hash watcher).0.in_memory ≡ s = cc (
        process_event-replay V deployment_id event block_hash watcher h size room m written,
        opened,
      ) in
      process_event-known V deployment_id event block_hash _ (
        ap (λ (t : WatcherState). has_key (key_of V event block_hash) t.forwarded_keys) (sym same)
        ∙ process_event-Recorded V deployment_id event block_hash watcher done)
