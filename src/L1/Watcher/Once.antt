-- ===== src/L1/Watcher/Once.antt =====
-- An event whose processing succeeded, met again.
use canon.Prelude.{
  ℕ, ◌≡◌, ap, arith, Bool, true, false, ◌||◌, if_cases, if◌then◌else◌, Option, none, some, List, [],
  ◌∷◌, ◌++◌,
}
use canon.Prelude.Result.{Result, ok, err}
use canon.L1.Action.{EthAddress}
use canon.L1.Reorg.{TopicHash}
use canon.L1.AddressBook.{AddressBook}
use canon.L1.Events.{IngestedEvent}
use canon.L1.Translation.{
  Translated, no_action, emit, emit_with_assignment, CommitError, preview_ingest, commit_assignment,
}
use canon.L1.Journal.{StateError, ForwardedKey, same_key, has_key, insert_key, WatcherState}
use canon.L1.Watcher.{
  Environment, SignedAction, Watcher, WatcherError, Done, Sent, noted, committed, commit_pending,
  after_append, after_submit, send, forward_translated, key_of, process_event,
}

same_key_refl : (k : ForwardedKey) → same_key k k ≡ true
same_key_refl k = ground arith

has_key-last : (k : ForwardedKey) (keys : List ForwardedKey) → has_key k (keys ++ k ∷ []) ≡ true
unfolding has_key
has_key-last k [] = ap (λ (b : Bool). b || false) (same_key_refl k)
has_key-last k (j ∷ keys) = ground (arith, has_key-last k keys)

pub has_key-insert_key :
    (k : ForwardedKey) (keys : List ForwardedKey) → has_key k (insert_key k keys) ≡ true
unfolding insert_key
has_key-insert_key k keys =
    if_cases (λ (ks : List ForwardedKey). has_key k ks ≡ true) (has_key k keys) (λ e. e)
      (λ _. has_key-last k keys)

module _ (V : Environment) (k : ForwardedKey) where
  open V use {World}

  -- The outcomes that say `Ok` have the key.
  abbrev pub Recorded : Done V → Type 0
  Recorded out = out.1 ≡ ok tt → has_key k out.0.in_memory.forwarded_keys ≡ true

  noted-Recorded :
      (after : WatcherState) (p : World × Result StateError (Unit {0}))
      → has_key k after.forwarded_keys ≡ true
      → Recorded (noted V after p)
  noted-Recorded after (w, ok _) h e = h
  noted-Recorded after (w, err x) h e = h

  committed-Recorded :
      (n : ℕ) (watcher : Watcher V) (p : AddressBook × Result CommitError ℕ)
      → Recorded (committed V k n watcher p)
  committed-Recorded n watcher (book, ok id) e = has_key-insert_key k _
  committed-Recorded n watcher (book, err x) e = cc e

  commit_pending-Recorded :
      (n : ℕ) (pending : Option (EthAddress × ℕ)) (watcher : Watcher V)
      → Recorded (commit_pending V k n pending watcher)
  commit_pending-Recorded n none watcher e = has_key-insert_key k _
  commit_pending-Recorded n (some (addr, id)) watcher e =
      committed-Recorded n watcher (commit_assignment addr id watcher.in_memory.address_book) e

  after_append-Recorded :
      (n : ℕ) (pending : Option (EthAddress × ℕ)) (watcher : Watcher V)
      (p : World × Result StateError (Unit {0}))
      → Recorded (after_append V k n pending watcher p)
  after_append-Recorded n pending watcher (w, ok _) e = commit_pending-Recorded n pending _ e
  after_append-Recorded n pending watcher (w, err x) e = cc e

  after_submit-Recorded :
      (pending : Option (EthAddress × ℕ)) (watcher : Watcher V) (p : Sent V)
      → Recorded (after_submit V k pending watcher p)
  after_submit-Recorded pending watcher (w, ok _) e =
      after_append-Recorded _ pending (record watcher { world = w }) _ e
  after_submit-Recorded pending watcher (w, err x) e = cc e

  send-Recorded :
      (pending : Option (EthAddress × ℕ)) (watcher : Watcher V)
      (r : Result (WatcherError V) SignedAction)
      → Recorded (send V k pending watcher r)
  send-Recorded pending watcher (ok signed) e = after_submit-Recorded pending watcher _ e
  send-Recorded pending watcher (err x) e = cc e

  forward_translated-Recorded :
      (deployment_id : List ℕ) (watcher : Watcher V) (t : Translated)
      → Recorded (forward_translated V deployment_id k watcher t)
  forward_translated-Recorded deployment_id watcher no_action e =
      noted-Recorded _ _ (has_key-insert_key k _) e
  forward_translated-Recorded deployment_id watcher (emit u) e = send-Recorded none watcher _ e
  forward_translated-Recorded deployment_id watcher (emit_with_assignment u addr id) e =
      send-Recorded (some (addr, id)) watcher _ e

module _ (V : Environment) (deployment_id : List ℕ) (event : IngestedEvent)
    (block_hash : TopicHash) where
  pub process_event-Recorded :
      (watcher : Watcher V)
      → Recorded V
          (key_of V event block_hash)
          (process_event V deployment_id event block_hash watcher)
  unfolding process_event
  process_event-Recorded watcher =
      if_cases (Recorded V (key_of V event block_hash))
        (has_key (key_of V event block_hash) watcher.in_memory.forwarded_keys) (λ h _. h)
        (λ _. forward_translated-Recorded V (key_of V event block_hash) deployment_id watcher _)

  pub process_event-known :
      (watcher : Watcher V)
      → has_key (key_of V event block_hash) watcher.in_memory.forwarded_keys ≡ true
      → process_event V deployment_id event block_hash watcher ≡ (watcher, ok tt)
  unfolding process_event
  process_event-known watcher h =
      ap
        (λ (b : Bool).
          if b
          then (watcher, ok tt)
          else forward_translated V deployment_id (key_of V event block_hash) watcher
              (preview_ingest watcher.in_memory.address_book event watcher.in_memory.next_nonce))
        h

  -- Once processing an event has succeeded, processing the same event of the same block again sends,
  -- writes and changes nothing.
  pub process_event-again :
      (watcher : Watcher V)
      → (process_event V deployment_id event block_hash watcher).1 ≡ ok tt
      → process_event V deployment_id event block_hash
          (process_event V deployment_id event block_hash watcher).0
        ≡ ((process_event V deployment_id event block_hash watcher).0, ok tt)
  process_event-again watcher e = process_event-known _ (process_event-Recorded watcher e)
