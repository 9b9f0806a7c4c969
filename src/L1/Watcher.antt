-- ===== src/L1/Watcher.antt =====
-- runtime/canon-l1-ingest/src/watcher.rs: the loop from L1 logs to submitted actions. The consumer, the
-- keystore, keccak256 and the file are an environment, a parameter.
pub mod Mirror
pub mod Once
pub mod Restart
pub mod Frame
pub mod Blocks
use canon.Prelude.{
  ℕ, zero, suc, ◌+◌, ◌-◌, ◌^◌, ◌≡◌, Bool, true, false, Option, none, some, List, [], ◌∷◌, ◌++◌, min,
  if◌then◌else◌,
}
use canon.Prelude.Result.{Result, ok, err, ◌>>=◌}
use canon.Bytes.{to_be_bytes}
use canon.L1.Action.{EthAddress}
use canon.L1.Reorg.{TopicHash, ReorgError}
use canon.L1.AddressBook.{AddressBook}
use canon.L1.Encoding.{EncodeError, signing_input}
use canon.L1.Events.{IngestedEvent, origin_key}
use canon.L1.Events.Decode.{DecodeError}
use canon.L1.Translation.{
  UnsignedAction, Translated, no_action, emit, emit_with_assignment, CommitError, preview_ingest,
  commit_assignment,
}
use canon.L1.Journal.{
  StateError, StateRecord, forwarded, confirmed, submitted, AddressAssignment, Line, parsed,
  ForwardedKey, has_key, insert_key, WatcherState,
}

-- runtime/canon-l1-ingest/src/submitter.rs.
pub data Verdict : Type 0 where
  admitted not_admissible_verdict parse_error_verdict busy : Verdict

pub data SubmitError : Type 0 where
  encode_failure : EncodeError → SubmitError
  unknown_verdict : (byte : ℕ) → SubmitError
  not_admissible parse_error transport : SubmitError

pub record SignedAction : Type 0 where
  pub unsigned : UnsignedAction
  pub signature : List ℕ

-- What the watcher calls. The journal changes by appends alone, and an append that succeeds puts the
-- record's line at the end.
pub record Environment : Type 1 where
  pub World : Type 0
  pub KeyError : Type 0
  pub SourceError : Type 0
  pub keccak256 : List ℕ → List ℕ
  pub sign_prehash : List ℕ → Result KeyError (List ℕ)
  pub submit : World → SignedAction → World × Result SubmitError Verdict
  pub sleep : World → ℕ → World
  pub append : World → StateRecord → World × Result StateError (Unit {0})
  pub journal : World → List Line
  pub journal-submit : (w : World) (a : SignedAction) → journal (submit w a).0 ≡ journal w
  pub journal-sleep : (w : World) (ms : ℕ) → journal (sleep w ms) ≡ journal w
  pub journal-append :
      (w : World) (r : StateRecord)
      → (append w r).1 ≡ ok tt
      → journal (append w r).0 ≡ journal w ++ parsed r ∷ []

abbrev pub max_retries : ℕ
max_retries = 16

abbrev pub max_backoff_ms : ℕ
max_backoff_ms = 60000

-- `saturating_mul(2).min(60_000)` of a value below 2 ^ 63.
abbrev pub next_backoff : ℕ → ℕ
next_backoff backoff_ms = min (backoff_ms + backoff_ms) max_backoff_ms

abbrev pub u128_max : ℕ
u128_max = 2 ^ 128 - 1

module _ (V : Environment) where
  open V use {World, KeyError, SourceError, keccak256, sign_prehash, submit, sleep, append}

  pub data WatcherError : Type 0 where
    source : SourceError → WatcherError
    decode : DecodeError → WatcherError
    reorg : ReorgError → WatcherError
    state : StateError → WatcherError
    encode : EncodeError → WatcherError
    key : KeyError → WatcherError
    submit_failure : SubmitError → WatcherError
    config : CommitError → WatcherError

  -- The watcher's fields that change; the journal is in the world.
  pub record Watcher : Type 0 where
    pub in_memory : WatcherState
    pub world : World

  abbrev pub Done : Type 0
  Done = Watcher × Result WatcherError (Unit {0})

  abbrev signed_by : UnsignedAction → Result KeyError (List ℕ) → Result WatcherError SignedAction
  signed_by unsigned (ok signature) = ok (record { unsigned = unsigned; signature = signature })
  signed_by unsigned (err e) = err (key e)

  abbrev sign_bytes :
      UnsignedAction → Result EncodeError (List ℕ) → Result WatcherError SignedAction
  sign_bytes unsigned (ok signing_bytes) =
      signed_by unsigned (sign_prehash (keccak256 signing_bytes))
  sign_bytes unsigned (err e) = err (encode e)

  unfoldable pub sign : List ℕ → UnsignedAction → Result WatcherError SignedAction
  sign deployment_id unsigned =
      sign_bytes unsigned
        (signing_input unsigned.action unsigned.signer unsigned.nonce deployment_id)

  abbrev pub Sent : Type 0
  Sent = World × Result WatcherError (Unit {0})

  -- The answers of one submission but `Busy`; `again` is what follows the wait.
  abbrev pub on_verdict : Sent → World × Result SubmitError Verdict → Sent
  on_verdict again (w, ok admitted) = (w, ok tt)
  on_verdict again (w, ok busy) = again
  on_verdict again (w, ok not_admissible_verdict) = (w, err (submit_failure not_admissible))
  on_verdict again (w, ok parse_error_verdict) = (w, err (submit_failure parse_error))
  on_verdict again (w, err e) = (w, err (submit_failure e))

  -- The retry loop, on the retries that are left.
  unfoldable pub submit_retrying : ℕ → ℕ → SignedAction → World → Sent
  submit_retrying zero backoff_ms signed w =
      on_verdict ((submit w signed).0, err (submit_failure transport)) (submit w signed)
  submit_retrying (suc retries_left) backoff_ms signed w =
      let again =
        submit_retrying retries_left (next_backoff backoff_ms) signed
          (sleep (submit w signed).0 backoff_ms) in
      on_verdict again (submit w signed)

  -- `HexBytes(hash.to_vec())`.
  abbrev pub hash_bytes : TopicHash → List ℕ
  hash_bytes hash = to_be_bytes 32 hash

  abbrev pub noted : WatcherState → World × Result StateError (Unit {0}) → Done
  noted after (w, ok u) = (record { in_memory = after; world = w }, ok tt)
  noted after (w, err e) = (record { in_memory = after; world = w }, err (state e))

  -- The key is in the set before the append, whatever the append gives.
  abbrev pub skip_event : ForwardedKey → Watcher → Done
  skip_event k watcher =
      noted
        (record watcher.in_memory {
          forwarded_keys = insert_key k watcher.in_memory.forwarded_keys;
        })
        (append watcher.world
          (forwarded (hash_bytes k.block_hash) (hash_bytes k.tx_hash) k.log_index))

  -- The updates behind a durable record of the submission.
  abbrev pub settle : ForwardedKey → ℕ → WatcherState → AddressBook → WatcherState
  settle k new_next_nonce s book = record s {
    address_book = book;
    next_nonce = new_next_nonce;
    forwarded_keys = insert_key k s.forwarded_keys;
  }

  abbrev pub committed : ForwardedKey → ℕ → Watcher → AddressBook × Result CommitError ℕ → Done
  committed k new_next_nonce watcher (book, ok id) =
      (record watcher { in_memory = settle k new_next_nonce watcher.in_memory book }, ok tt)
  committed k new_next_nonce watcher (book, err e) = (
    record watcher { in_memory = record watcher.in_memory { address_book = book } },
    err (config e),
  )

  abbrev pub commit_pending : ForwardedKey → ℕ → Option (EthAddress × ℕ) → Watcher → Done
  commit_pending k new_next_nonce none watcher = (
    record watcher {
      in_memory = settle k new_next_nonce watcher.in_memory watcher.in_memory.address_book;
    },
    ok tt,
  )
  commit_pending k new_next_nonce (some (address, new_actor_id)) watcher =
      committed k new_next_nonce watcher
        (commit_assignment address new_actor_id watcher.in_memory.address_book)

  abbrev pub after_append :
      ForwardedKey
      → ℕ
      → Option (EthAddress × ℕ)
      → Watcher
      → World × Result StateError (Unit {0})
      → Done
  after_append k new_next_nonce pending watcher (w, ok u) =
      commit_pending k new_next_nonce pending (record watcher { world = w })
  after_append k new_next_nonce pending watcher (w, err e) =
      (record watcher { world = w }, err (state e))

  abbrev pub assignment_of : Option (EthAddress × ℕ) → Option AddressAssignment
  assignment_of none = none
  assignment_of (some (address, actor_id)) =
      some (record { address = address; actor_id = actor_id })

  abbrev pub after_submit : ForwardedKey → Option (EthAddress × ℕ) → Watcher → Sent → Done
  after_submit k pending watcher (w, err e) = (record watcher { world = w }, err e)
  after_submit k pending watcher (w, ok u) =
      let new_next_nonce = min (watcher.in_memory.next_nonce + 1) u128_max in
      after_append k new_next_nonce pending (record watcher { world = w })
        (append w (
          submitted (hash_bytes k.block_hash) (hash_bytes k.tx_hash) k.log_index new_next_nonce
            (assignment_of pending)))

  abbrev pub send :
      ForwardedKey → Option (EthAddress × ℕ) → Watcher → Result WatcherError SignedAction → Done
  send k pending watcher (ok signed) =
      after_submit k pending watcher (submit_retrying max_retries 100 signed watcher.world)
  send k pending watcher (err e) = (watcher, err e)

  abbrev pub forward_translated : List ℕ → ForwardedKey → Watcher → Translated → Done
  forward_translated deployment_id k watcher no_action = skip_event k watcher
  forward_translated deployment_id k watcher (emit unsigned) =
      send k none watcher (sign deployment_id unsigned)
  forward_translated deployment_id k watcher (emit_with_assignment unsigned address new_actor_id) =
      send k (some (address, new_actor_id)) watcher (sign deployment_id unsigned)

  abbrev pub key_of : IngestedEvent → TopicHash → ForwardedKey
  key_of event block_hash = record {
    block_hash = block_hash;
    tx_hash = (origin_key event).1;
    log_index = (origin_key event).2;
  }

  unfoldable pub process_event : List ℕ → IngestedEvent → TopicHash → Watcher → Done
  process_event deployment_id event block_hash watcher =
      if has_key (key_of event block_hash) watcher.in_memory.forwarded_keys
      then (watcher, ok tt)
      else forward_translated deployment_id (key_of event block_hash) watcher
          (preview_ingest watcher.in_memory.address_book event watcher.in_memory.next_nonce)
