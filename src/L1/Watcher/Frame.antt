-- ===== src/L1/Watcher/Frame.antt =====
-- What the processing of events leaves alone: the last confirmed block.
use canon.Prelude.{ℕ, ◌≡◌, if_cases, Option, none, some, List}
use canon.Prelude.Result.{Result, ok, err}
use canon.L1.Action.{EthAddress}
use canon.L1.Reorg.{TopicHash}
use canon.L1.AddressBook.{AddressBook}
use canon.L1.Events.{IngestedEvent}
use canon.L1.Translation.{
  Translated, no_action, emit, emit_with_assignment, CommitError, commit_assignment,
}
use canon.L1.Journal.{StateError, ForwardedKey, has_key, WatcherState}
use canon.L1.Watcher.{
  Environment, SignedAction, Watcher, WatcherError, Done, Sent, noted, committed, commit_pending,
  after_append, after_submit, send, forward_translated, key_of, process_event,
}

module _ (V : Environment) (k : ForwardedKey) (at : Option ℕ) where
  open V use {World}

  abbrev Stays : Done V → Type 0
  Stays out = out.0.in_memory.last_confirmed_block ≡ at

  abbrev At : Watcher V → Type 0
  At watcher = watcher.in_memory.last_confirmed_block ≡ at

  noted-Stays :
      (after : WatcherState) (p : World × Result StateError (Unit {0}))
      → after.last_confirmed_block ≡ at
      → Stays (noted V after p)
  noted-Stays after (w, ok _) h = h
  noted-Stays after (w, err x) h = h

  committed-Stays :
      (n : ℕ) (watcher : Watcher V) (p : AddressBook × Result CommitError ℕ)
      → At watcher
      → Stays (committed V k n watcher p)
  committed-Stays n watcher (book, ok id) h = h
  committed-Stays n watcher (book, err x) h = h

  commit_pending-Stays :
      (n : ℕ) (pending : Option (EthAddress × ℕ)) (watcher : Watcher V)
      → At watcher
      → Stays (commit_pending V k n pending watcher)
  commit_pending-Stays n none watcher h = h
  commit_pending-Stays n (some (addr, id)) watcher h =
      committed-Stays n watcher (commit_assignment addr id watcher.in_memory.address_book) h

  after_append-Stays :
      (n : ℕ) (pending : Option (EthAddress × ℕ)) (watcher : Watcher V)
      (p : World × Result StateError (Unit {0}))
      → At watcher
      → Stays (after_append V k n pending watcher p)
  after_append-Stays n pending watcher (w, ok _) h =
      commit_pending-Stays n pending (record watcher { world = w }) h
  after_append-Stays n pending watcher (w, err x) h = h

  after_submit-Stays :
      (pending : Option (EthAddress × ℕ)) (watcher : Watcher V) (p : Sent V)
      → At watcher
      → Stays (after_submit V k pending watcher p)
  after_submit-Stays pending watcher (w, ok _) h =
      after_append-Stays _ pending (record watcher { world = w }) _ h
  after_submit-Stays pending watcher (w, err x) h = h

  send-Stays :
      (pending : Option (EthAddress × ℕ)) (watcher : Watcher V)
      (r : Result (WatcherError V) SignedAction)
      → At watcher
      → Stays (send V k pending watcher r)
  send-Stays pending watcher (ok signed) h = after_submit-Stays pending watcher _ h
  send-Stays pending watcher (err x) h = h

  forward_translated-Stays :
      (deployment_id : List ℕ) (watcher : Watcher V) (t : Translated)
      → At watcher
      → Stays (forward_translated V deployment_id k watcher t)
  forward_translated-Stays deployment_id watcher no_action h = noted-Stays _ _ h
  forward_translated-Stays deployment_id watcher (emit u) h = send-Stays none watcher _ h
  forward_translated-Stays deployment_id watcher (emit_with_assignment u addr id) h =
      send-Stays (some (addr, id)) watcher _ h

pub process_event-Stays :
    (V : Environment) (deployment_id : List ℕ) (event : IngestedEvent) (block_hash : TopicHash)
    (watcher : Watcher V) (at : Option ℕ)
    → watcher.in_memory.last_confirmed_block ≡ at
    → (process_event V deployment_id event block_hash watcher).0.in_memory.last_confirmed_block ≡ at
unfolding process_event
process_event-Stays V deployment_id event block_hash watcher at h =
    if_cases (λ (out : Done V). out.0.in_memory.last_confirmed_block ≡ at)
      (has_key (key_of V event block_hash) watcher.in_memory.forwarded_keys) (λ _. h)
      (λ _. forward_translated-Stays V (key_of V event block_hash) at deployment_id watcher _ h)
