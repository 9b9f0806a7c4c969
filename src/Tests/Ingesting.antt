-- ===== src/Tests/Ingesting.antt =====
-- The watcher of runtime/canon-l1-ingest over a journal in memory.
use canon.Prelude.{
  ◌-◌, ◌^◌, ℕ, ◌+◌, ◌≡◌, ◌⊎◌, refl, sym, subst, arith, Option, none, some, List, [], ◌∷◌, ◌++◌, ◌≤◌,
  length,
}
use canon.Prelude.Result.{ok}
use canon.Prelude.Maps.{get, insert}
use canon.Bytes.{IsU64, to_be_bytes, from_be_bytes}
use canon.Bytes.Laws.{length-to_be_bytes, to_be_bytes-IsByte}
use canon.L1.Action.{EthAddress}
use canon.L1.Reorg.{seed, seed_from, advance, advance_onto, push_bounded}
use canon.L1.AddressBook.{new, lookup, try_assign, record_id}
use canon.L1.Encoding.{
  signing_input, encode_action, encode_action_fields, encode_byte_string, encode_bytes_checked,
  encode_amount, encode_u128_checked, signed_action_domain,
}
use canon.L1.Events.{
  IngestedEvent, registered_ecdsa, registered_ecdsa_topic, registered_eip1271_topic, revoked_topic,
  deposit_initiated_topic, topic_hash, from_hash, origin_key,
}
use canon.L1.Events.Decode.{
  decode_event, decode_known, decode_abi_address, decode_abi_bytes, read_slot, slice_or_end,
  small_slot, checked_add, within,
}
use canon.L1.Events.Abi.{TellsApart, log_of}
use canon.L1.Events.Abi.RoundTrip.{decode_event-log_of}
use canon.L1.Translation.{
  UnsignedAction, preview_registration, preview_ingest, commit_assignment, emit_with_assignment,
}
use canon.L1.Translation.Commit.{preview_ingest-commit}
use canon.L1.Journal.{Line, parsed, has_key, insert_key, WatcherState, default_state, replay}
use canon.L1.Journal.Scan.{default-Mirrors, IsKey}
use canon.L1.Watcher.{Environment, admitted, Watcher, key_of, process_event, sign, submit_retrying}
use canon.L1.Watcher.Mirror.{Written, process_event-replay}
use canon.L1.Watcher.Once.{process_event-again}
use canon.L1.Watcher.Restart.{process_event-restarted}
use canon.L1.Watcher.Blocks.{
  start_after, L1Source, WatcherConfig, WatcherLoop, run_iteration, process_range, confirm_block,
  process_block, feed_window, fetch_logs, sort_logs, insert_log, process_logs,
}
use canon.L1.Watcher.Blocks.Still.{last_of}
use canon.L1.Watcher.Blocks.Batch.{batch_size}
use canon.L1.Watcher.Blocks.Depth.{run_iteration-depth}

-- The journal is the world; the consumer admits every action.
abbrev desk : Environment
desk = record {
  World = List Line;
  KeyError = Unit;
  SourceError = Unit;
  keccak256 = λ bytes. bytes;
  sign_prehash = λ digest. ok digest;
  submit = λ w a. (w, ok admitted);
  sleep = λ w ms. w;
  append = λ w r. (w ++ parsed r ∷ [], ok tt);
  journal = λ w. w;
  journal-submit = λ w a. refl;
  journal-sleep = λ w ms. refl;
  journal-append = λ w r e. refl;
}

abbrev alice : EthAddress
alice = to_be_bytes 20 7

abbrev alice_registers : IngestedEvent
alice_registers = registered_ecdsa alice (1 ∷ 2 ∷ 3 ∷ []) 5 77 0

abbrev fresh_watcher : Watcher desk
fresh_watcher = record { in_memory = default_state; world = [] }

alice_action :
    (u : UnsignedAction) × (preview_ingest new alice_registers 0
      ≡ emit_with_assignment u alice new.next_actor_id)
unfolding preview_ingest new lookup preview_registration get
alice_action = (_, refl)

alice_sized : length alice ≡ 20
alice_sized = length-to_be_bytes 20 7

new_room : IsU64 (new.next_actor_id + 1)
unfolding new
new_room = omega arith

preview_ingest-commit_example :
    commit_assignment alice new.next_actor_id new
    ≡ (record_id alice new.next_actor_id new, ok new.next_actor_id)
preview_ingest-commit_example =
    preview_ingest-commit new alice_registers 0 new.next_actor_id alice_action.0 alice alice_sized
      new_room alice_action.1

default_room : IsU64 (default_state.address_book.next_actor_id + 1)
unfolding default_state new
default_room = omega arith

alice-IsKey : IsKey (key_of desk alice_registers 9)
unfolding origin_key
alice-IsKey = (omega arith, omega arith)

alice_done : (process_event desk [] alice_registers 9 fresh_watcher).1 ≡ ok tt
unfolding process_event default_state new has_key preview_ingest preview_registration lookup get
    submit_retrying sign signing_input encode_action encode_action_fields commit_assignment
    try_assign origin_key encode_byte_string encode_bytes_checked encode_amount encode_u128_checked
    insert signed_action_domain
alice_done = refl

process_event-again_example :
    process_event desk [] alice_registers 9
      (process_event desk [] alice_registers 9 fresh_watcher).0
    ≡ ((process_event desk [] alice_registers 9 fresh_watcher).0, ok tt)
process_event-again_example = process_event-again desk [] alice_registers 9 fresh_watcher alice_done

process_event-replay_example :
    replay (process_event desk [] alice_registers 9 fresh_watcher).0.world
    ≡ ok (process_event desk [] alice_registers 9 fresh_watcher).0.in_memory
process_event-replay_example =
    process_event-replay desk [] alice_registers 9 fresh_watcher alice-IsKey alice_sized
      default_room default-Mirrors (subst (Written desk) (sym alice_done) tt)

abbrev alice_after : WatcherState
alice_after = (process_event desk [] alice_registers 9 fresh_watcher).0.in_memory

abbrev reopened : Watcher desk
reopened = record {
  in_memory = alice_after;
  world = (process_event desk [] alice_registers 9 fresh_watcher).0.world;
}

process_event-replay_again : replay reopened.world ≡ ok alice_after
process_event-replay_again =
    process_event-replay desk [] alice_registers 9 fresh_watcher alice-IsKey alice_sized
      default_room default-Mirrors (subst (Written desk) (sym alice_done) tt)

process_event-restarted_example :
    process_event desk [] alice_registers 9 reopened ≡ (reopened, ok tt)
process_event-restarted_example =
    process_event-restarted desk [] alice_registers 9 fresh_watcher alice_after alice-IsKey
      alice_sized default_room default-Mirrors alice_done process_event-replay_again

-- A chain of 21 blocks, each with the registration in its logs.
abbrev chain : L1Source desk
chain = record {
  latest_block_number = λ w. (w, ok 20);
  block_header_by_number = λ n w. (w, ok (record { number = n; hash = n + 1; parent_hash = n }));
  logs_in_block_by_hash = λ h a w. (w, ok (log_of from_be_bytes a [] alice_registers ∷ []));
  journal-latest = λ w. refl;
  journal-header = λ n w. refl;
  journal-logs = λ h a w. refl;
}

abbrev settings : WatcherConfig
settings = record {
  bridge_contract = to_be_bytes 20 1;
  identity_registry_contract = to_be_bytes 20 2;
  confirmation_depth = 12;
  reorg_window_capacity = 16;
  poll_interval_ms = 12000;
  deployment_id = [];
  blocks_per_iteration = 4;
}

abbrev started : WatcherLoop desk chain settings
started = record { core = fresh_watcher; reorg_window = record { capacity = 16; buffer = [] } }

-- The largest block number is taken again, where nothing has to be buried.
abbrev shallow : WatcherConfig
shallow = record settings { confirmation_depth = 0 }

last_block_again :
    batch_size desk chain shallow (2 ^ 64 - 1) (start_after desk chain shallow (some (2 ^ 64 - 1)))
    ≡ 1
last_block_again = refl

iterated_last : last_of desk chain settings (run_iteration desk chain settings started).0 ≡ some 3
unfolding process_event default_state new has_key insert_key preview_ingest preview_registration
    lookup get submit_retrying sign signing_input encode_action encode_action_fields
    commit_assignment try_assign origin_key encode_byte_string encode_bytes_checked encode_amount
    encode_u128_checked insert signed_action_domain run_iteration process_range confirm_block
    process_block feed_window fetch_logs sort_logs insert_log process_logs decode_event decode_known
    from_hash topic_hash decode_abi_address decode_abi_bytes read_slot slice_or_end small_slot
    checked_add within to_be_bytes from_be_bytes seed advance push_bounded seed_from advance_onto
iterated_last = refl

run_iteration-depth_example : (let none_yet : Option ℕ = none in none_yet ≡ some 3) ⊎ (3 + 12 ≤ 20)
unfolding default_state
run_iteration-depth_example =
    run_iteration-depth desk chain settings 20 3 started (omega arith) (omega arith) refl
      iterated_last

tells_apart : TellsApart (λ bytes. length bytes)
unfolding topic_hash
tells_apart registered_ecdsa_topic registered_ecdsa_topic h = refl
tells_apart registered_ecdsa_topic registered_eip1271_topic h = absurd (omega (arith, h))
tells_apart registered_ecdsa_topic revoked_topic h = absurd (omega (arith, h))
tells_apart registered_ecdsa_topic deposit_initiated_topic h = absurd (omega (arith, h))
tells_apart registered_eip1271_topic registered_ecdsa_topic h = absurd (omega (arith, h))
tells_apart registered_eip1271_topic registered_eip1271_topic h = refl
tells_apart registered_eip1271_topic revoked_topic h = absurd (omega (arith, h))
tells_apart registered_eip1271_topic deposit_initiated_topic h = absurd (omega (arith, h))
tells_apart revoked_topic registered_ecdsa_topic h = absurd (omega (arith, h))
tells_apart revoked_topic registered_eip1271_topic h = absurd (omega (arith, h))
tells_apart revoked_topic revoked_topic h = refl
tells_apart revoked_topic deposit_initiated_topic h = absurd (omega (arith, h))
tells_apart deposit_initiated_topic registered_ecdsa_topic h = absurd (omega (arith, h))
tells_apart deposit_initiated_topic registered_eip1271_topic h = absurd (omega (arith, h))
tells_apart deposit_initiated_topic revoked_topic h = absurd (omega (arith, h))
tells_apart deposit_initiated_topic deposit_initiated_topic h = refl

decode_event-log_of_example :
    decode_event
      (λ bytes. length bytes)
      (log_of (λ bytes. length bytes) (to_be_bytes 20 1) (0 ∷ []) alice_registers)
    ≡ ok (some alice_registers)
decode_event-log_of_example =
    decode_event-log_of (λ bytes. length bytes) (to_be_bytes 20 1) (0 ∷ []) alice_registers
      tells_apart ((alice_sized, to_be_bytes-IsByte 20 7), omega arith)
