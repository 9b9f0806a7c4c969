-- ===== src/L1/Events/Abi.antt =====
-- The logs that a contract emits for the four events, and the decoder on them: a second description of
-- the ABI, by encoding.
pub mod Hashes
pub mod Slots
pub mod RoundTrip
use canon.Prelude.{
  ℕ, zero, suc, ◌+◌, ◌-◌, ◌<◌, ◌≤◌, ◌^◌, ◌≡◌, refl, ap, ◌∙◌, subst, arith, Bool, true, false, ◌==◌,
  if◌then◌else◌, if_cases, ==_iff, Option, some, List, [], ◌∷◌, ◌++◌, append_assoc, length, take,
  drop, length-append, take-append, drop-append, ltb, lt→ltb, le→ltb, All, All-append,
}
use canon.Prelude.Result.{Result, ok, err, ◌>>=◌, step_ok}
use canon.Bytes.{IsByte, IsU64, u64_mod, to_be_bytes, from_be_bytes}
use canon.Bytes.Laws.{
  length-to_be_bytes, from_be_bytes-to_be_bytes, to_be_bytes-from_be_bytes, to_be_bytes-IsByte,
}
use canon.L1.Action.{EthAddress}
use canon.L1.Reorg.{TopicHash}
use canon.L1.Events.{
  IngestedEvent, registered_ecdsa, registered_eip1271, revoked, deposit_initiated, EventTopic,
  registered_ecdsa_topic, registered_eip1271_topic, revoked_topic, deposit_initiated_topic, RawLog,
  topic_hash, find_hash, from_hash,
}
use canon.L1.Events.Decode.{
  DecodeError, unexpected_end, length_overflow, offset_out_of_range, within, small_slot,
  checked_add, usize_max, decode_abi_u64, decode_abi_address, read_slot, slice_or_end, slot_to_u64,
  decode_abi_bytes, SlotLocation, topic_1, data_offset_0, data_offset_0_token, decode_topic,
  decode_known, decode_event,
}

abbrev pub zeros : ℕ → List ℕ
zeros zero = []
zeros (suc n) = 0 ∷ zeros n

abbrev pub address_slot : EthAddress → List ℕ
address_slot a = zeros 12 ++ a

abbrev pub uint64_slot : ℕ → List ℕ
uint64_slot n = zeros 24 ++ to_be_bytes 8 n

-- The offset of the tail, the length, the payload and its padding.
abbrev pub bytes_field : List ℕ → List ℕ → List ℕ
bytes_field payload padding =
    uint64_slot 32 ++ (uint64_slot (length payload) ++ (payload ++ padding))

abbrev pub address_topic : EthAddress → TopicHash
address_topic a = from_be_bytes (address_slot a)

abbrev pub topic_of : IngestedEvent → EventTopic
topic_of (registered_ecdsa _ _ _ _ _) = registered_ecdsa_topic
topic_of (registered_eip1271 _ _ _ _ _) = registered_eip1271_topic
topic_of (revoked _ _ _ _) = revoked_topic
topic_of (deposit_initiated _ _ _ _ _ _ _ _ _) = deposit_initiated_topic

abbrev pub indexed_of : IngestedEvent → List TopicHash
indexed_of (registered_ecdsa actor _ _ _ _) = address_topic actor ∷ []
indexed_of (registered_eip1271 actor _ _ _ _) = address_topic actor ∷ []
indexed_of (revoked actor _ _ _) = address_topic actor ∷ []
indexed_of (deposit_initiated depositor resource_id _ _ _ _ _ _ _) =
    address_topic depositor ∷ from_be_bytes (uint64_slot resource_id) ∷ []

abbrev pub payload_of : List ℕ → IngestedEvent → List ℕ
payload_of padding (registered_ecdsa _ pubkey _ _ _) = bytes_field pubkey padding
payload_of padding (registered_eip1271 _ contract_signer _ _ _) =
    address_slot contract_signer ++ padding
payload_of padding (revoked _ _ _ _) = padding
payload_of padding (deposit_initiated _ _ token amount depositor_nonce receipt_hash _ _ _) =
    address_slot token
    ++ (amount ++ (uint64_slot depositor_nonce ++ (to_be_bytes 32 receipt_hash ++ padding)))

abbrev pub origin_of : IngestedEvent → ℕ × TopicHash × ℕ
origin_of (registered_ecdsa _ _ b t i) = (b, t, i)
origin_of (registered_eip1271 _ _ b t i) = (b, t, i)
origin_of (revoked _ b t i) = (b, t, i)
origin_of (deposit_initiated _ _ _ _ _ _ b t i) = (b, t, i)

-- What `contract` emits for an event.
abbrev pub log_of : (List ℕ → TopicHash) → EthAddress → List ℕ → IngestedEvent → RawLog
log_of keccak256 contract padding event = record {
  address = contract;
  topics = topic_hash keccak256 (topic_of event) ∷ indexed_of event;
  payload = payload_of padding event;
  block_number = (origin_of event).0;
  tx_hash = (origin_of event).1;
  log_index = (origin_of event).2;
}

abbrev pub IsAddress : EthAddress → Type 0
IsAddress a = (length a ≡ 20) × All IsByte a

abbrev pub IsEvent : IngestedEvent → Type 0
IsEvent (registered_ecdsa actor pubkey _ _ _) = IsAddress actor × (length pubkey + 64 < 2 ^ 64)
IsEvent (registered_eip1271 actor contract_signer _ _ _) =
    IsAddress actor × IsAddress contract_signer
IsEvent (revoked actor _ _ _) = IsAddress actor
IsEvent (deposit_initiated depositor resource_id token amount depositor_nonce receipt_hash _ _ _) =
    IsAddress depositor
    × IsU64 resource_id
    × IsAddress token
    × (length amount ≡ 32)
    × IsU64 depositor_nonce
    × (receipt_hash < 256 ^ 32)

-- The four signatures have different hashes.
abbrev pub TellsApart : (List ℕ → TopicHash) → Type 0
TellsApart keccak256 = (a b : EventTopic) → topic_hash keccak256 a ≡ topic_hash keccak256 b → a ≡ b
