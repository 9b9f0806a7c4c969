-- ===== src/L1/Events/Decode.antt =====
-- runtime/canon-l1-ingest/src/events.rs: the ABI slots and fields of a log. A topic is read as the 32
-- bytes that spell it.
use canon.Prelude.{
  ℕ, ◌+◌, ◌-◌, ◌^◌, Bool, true, false, Option, none, some, List, [], ◌∷◌, length, take, drop, ltb,
  ◌==◌, if◌then◌else◌,
}
use canon.Prelude.Result.{Result, ok, err, ◌>>=◌}
use canon.Bytes.{u64_mod, from_be_bytes, to_be_bytes}
use canon.L1.Action.{EthAddress}
use canon.L1.Reorg.{TopicHash}
use canon.L1.Events.{
  IngestedEvent, registered_ecdsa, registered_eip1271, revoked, deposit_initiated, EventTopic,
  RawLog, from_hash,
}

pub data SlotLocation : Type 0 where
  topic_1 data_offset_0 data_offset_0_token : SlotLocation

pub data DecodeError : Type 0 where
  no_topics : DecodeError
  invalid_address : (location : SlotLocation) → DecodeError
  topic_count_mismatch : (event : EventTopic) (expected actual : ℕ) → DecodeError
  offset_out_of_range : (offset data_len : ℕ) → DecodeError
  length_overflow : (len offset : ℕ) → DecodeError
  unexpected_end : (offset needed : ℕ) → DecodeError
  uint64_overflow : (offset : ℕ) → DecodeError

abbrev pub usize_max : ℕ
usize_max = 2 ^ 64 - 1

-- `iter().any(|&b| b != 0)`.
abbrev pub any_nonzero : List ℕ → Bool
any_nonzero [] = false
any_nonzero (b ∷ bs) = if b == 0 then any_nonzero bs else true

unfoldable pub decode_abi_u64 : List ℕ → ℕ → Result DecodeError ℕ
decode_abi_u64 slot offset =
    if any_nonzero (take 24 slot)
    then err (uint64_overflow offset)
    else ok (from_be_bytes (drop 24 slot))

unfoldable pub decode_abi_address : List ℕ → SlotLocation → Result DecodeError EthAddress
decode_abi_address slot location =
    if any_nonzero (take 12 slot) then err (invalid_address location) else ok (drop 12 slot)

-- `checked_add` of a `usize`.
unfoldable pub checked_add : ℕ → ℕ → DecodeError → Result DecodeError ℕ
checked_add a b e = if ltb (a + b) u64_mod then ok (a + b) else err e

-- `data[start..stop]`, when it is there.
unfoldable pub slice_or_end : List ℕ → ℕ → ℕ → Result DecodeError (List ℕ)
slice_or_end bytes start stop =
    if ltb (length bytes) stop
    then err (unexpected_end start (stop - length bytes))
    else ok (take (stop - start) (drop start bytes))

unfoldable pub read_slot : List ℕ → ℕ → Result DecodeError (List ℕ)
read_slot bytes offset = do
  stop ← checked_add offset 32 (length_overflow 32 offset)
  slice_or_end bytes offset stop

unfoldable pub slot_to_u64 : List ℕ → ℕ → Result DecodeError ℕ
slot_to_u64 slot offset = decode_abi_u64 slot offset

-- The low 8 bytes of a slot whose other bytes are zero.
unfoldable pub small_slot : List ℕ → DecodeError → Result DecodeError ℕ
small_slot slot e = if any_nonzero (take 24 slot) then err e else ok (from_be_bytes (drop 24 slot))

unfoldable pub within : ℕ → List ℕ → Result DecodeError ℕ
within tail_offset bytes =
    if ltb (length bytes) tail_offset
    then err (offset_out_of_range tail_offset (length bytes))
    else ok tail_offset

unfoldable pub decode_abi_bytes : List ℕ → ℕ → Result DecodeError (List ℕ)
decode_abi_bytes bytes offset_pos = do
  header ← read_slot bytes offset_pos
  offset ← small_slot header (offset_out_of_range usize_max (length bytes))
  tail_offset ← within offset bytes
  length_slot ← read_slot bytes tail_offset
  len ← small_slot length_slot (length_overflow usize_max tail_offset)
  payload_start ← checked_add tail_offset 32 (length_overflow len tail_offset)
  payload_end ← checked_add payload_start len (length_overflow len payload_start)
  slice_or_end bytes payload_start payload_end

abbrev topic_bytes : TopicHash → List ℕ
topic_bytes topic = to_be_bytes 32 topic

-- The arms of `decode_event`, on the topics after the first; `n` topics in all.
abbrev pub decode_registered_ecdsa : RawLog → List TopicHash → Result DecodeError IngestedEvent
decode_registered_ecdsa log (topic1 ∷ []) = do
  actor ← decode_abi_address (topic_bytes topic1) topic_1
  pubkey ← decode_abi_bytes log.payload 0
  ok (registered_ecdsa actor pubkey log.block_number log.tx_hash log.log_index)
decode_registered_ecdsa log topics =
    err (topic_count_mismatch EventTopic.registered_ecdsa_topic 2 (length topics + 1))

abbrev pub decode_registered_eip1271 : RawLog → List TopicHash → Result DecodeError IngestedEvent
decode_registered_eip1271 log (topic1 ∷ []) = do
  actor ← decode_abi_address (topic_bytes topic1) topic_1
  slot ← read_slot log.payload 0
  contract_signer ← decode_abi_address slot data_offset_0
  ok (registered_eip1271 actor contract_signer log.block_number log.tx_hash log.log_index)
decode_registered_eip1271 log topics =
    err (topic_count_mismatch EventTopic.registered_eip1271_topic 2 (length topics + 1))

abbrev pub decode_revoked : RawLog → List TopicHash → Result DecodeError IngestedEvent
decode_revoked log (topic1 ∷ []) = do
  actor ← decode_abi_address (topic_bytes topic1) topic_1
  ok (revoked actor log.block_number log.tx_hash log.log_index)
decode_revoked log topics =
    err (topic_count_mismatch EventTopic.revoked_topic 2 (length topics + 1))

abbrev pub decode_deposit_initiated : RawLog → List TopicHash → Result DecodeError IngestedEvent
decode_deposit_initiated log (topic1 ∷ topic2 ∷ []) = do
  depositor ← decode_abi_address (topic_bytes topic1) topic_1
  resource_id ← slot_to_u64 (topic_bytes topic2) 0
  token_slot ← read_slot log.payload 0
  token ← decode_abi_address token_slot data_offset_0_token
  amount ← read_slot log.payload 32
  nonce_slot ← read_slot log.payload 64
  depositor_nonce ← decode_abi_u64 nonce_slot 64
  receipt_hash ← read_slot log.payload 96
  ok (
      deposit_initiated depositor resource_id token amount depositor_nonce
        (from_be_bytes receipt_hash) log.block_number log.tx_hash log.log_index)
decode_deposit_initiated log topics =
    err (topic_count_mismatch EventTopic.deposit_initiated_topic 3 (length topics + 1))

unfoldable pub decode_known :
    EventTopic → RawLog → List TopicHash → Result DecodeError IngestedEvent
decode_known EventTopic.registered_ecdsa_topic log topics = decode_registered_ecdsa log topics
decode_known EventTopic.registered_eip1271_topic log topics = decode_registered_eip1271 log topics
decode_known EventTopic.revoked_topic log topics = decode_revoked log topics
decode_known EventTopic.deposit_initiated_topic log topics = decode_deposit_initiated log topics

abbrev pub decode_topic :
    RawLog → List TopicHash → Option EventTopic → Result DecodeError (Option IngestedEvent)
decode_topic log topics none = ok none
decode_topic log topics (some event) = do decoded ← decode_known event log topics; ok (some decoded)

abbrev decode_topics :
    (List ℕ → TopicHash) → RawLog → List TopicHash → Result DecodeError (Option IngestedEvent)
decode_topics keccak256 log [] = err no_topics
decode_topics keccak256 log (topic0 ∷ topics) = decode_topic log topics (from_hash keccak256 topic0)

unfoldable pub decode_event :
    (List ℕ → TopicHash) → RawLog → Result DecodeError (Option IngestedEvent)
decode_event keccak256 log = decode_topics keccak256 log log.topics
