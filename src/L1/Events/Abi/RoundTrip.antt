-- ===== src/L1/Events/Abi/RoundTrip.antt =====
-- Every event is read back from its log.
use canon.Prelude.{
  ℕ, ◌≡◌, refl, ap, ◌∙◌, subst, arith, some, List, ◌++◌, append_assoc, length, length-append,
}
use canon.Prelude.Result.{ok, step_ok}
use canon.Bytes.{IsU64, to_be_bytes, from_be_bytes}
use canon.Bytes.Laws.{length-to_be_bytes, from_be_bytes-to_be_bytes}
use canon.L1.Action.{EthAddress}
use canon.L1.Reorg.{TopicHash}
use canon.L1.Events.{
  IngestedEvent, registered_ecdsa, registered_eip1271, revoked, deposit_initiated,
}
use canon.L1.Events.Decode.{
  decode_abi_u64, read_slot, slot_to_u64, data_offset_0, data_offset_0_token, decode_topic,
  decode_known, decode_event,
}
use canon.L1.Events.Abi.{
  address_slot, uint64_slot, topic_of, indexed_of, log_of, IsEvent, TellsApart,
}
use canon.L1.Events.Abi.Hashes.{from_hash-topic_hash}
use canon.L1.Events.Abi.Slots.{
  decode_abi_address-slot, decode_abi_u64-slot, topic_address, length-uint64_slot,
  uint64_topic-slot, read_slot-append, first_slot, length-address_slot, bytes_field-decoded,
}

topic_u64 :
    (n : ℕ) → IsU64 n → slot_to_u64 (to_be_bytes 32 (from_be_bytes (uint64_slot n))) 0 ≡ ok n
unfolding slot_to_u64
topic_u64 n h =
    ap (λ (slot : List ℕ). decode_abi_u64 slot 0) (uint64_topic-slot n) ∙ decode_abi_u64-slot n 0 h

-- The third and the fourth of four slots.
slot_at_64 :
    (a b c behind : List ℕ)
    → length a ≡ 32
    → length b ≡ 32
    → length c ≡ 32
    → read_slot (a ++ (b ++ (c ++ behind))) 64 ≡ ok c
slot_at_64 a b c behind ha hb hc =
    subst (λ (bytes : List ℕ). read_slot bytes 64 ≡ ok c) (append_assoc a b (c ++ behind))
      (read_slot-append (a ++ b) c behind 64 (length-append a b ∙ omega (arith, ha, hb)) hc
        (omega arith))

slot_at_96 :
    (a b c d behind : List ℕ)
    → length a ≡ 32
    → length b ≡ 32
    → length c ≡ 32
    → length d ≡ 32
    → read_slot (a ++ (b ++ (c ++ (d ++ behind)))) 96 ≡ ok d
slot_at_96 a b c d behind ha hb hc hd =
    subst (λ (bytes : List ℕ). read_slot bytes 96 ≡ ok d)
      (append_assoc (a ++ b) c (d ++ behind) ∙ append_assoc a b (c ++ (d ++ behind)))
      (read_slot-append ((a ++ b) ++ c) d behind 96
        (length-append (a ++ b) c ∙ omega (arith, length-append a b, ha, hb, hc)) hd (omega arith))

-- The four events.
pub decode_known-log_of :
    (keccak256 : List ℕ → TopicHash) (contract : EthAddress) (padding : List ℕ)
    (event : IngestedEvent)
    → IsEvent event
    → decode_known (topic_of event) (log_of keccak256 contract padding event) (indexed_of event)
      ≡ ok event
unfolding decode_known
decode_known-log_of keccak256 contract padding (registered_ecdsa actor pubkey _ _ _) (h, small) =
    step_ok _ (topic_address actor h) (step_ok _ (bytes_field-decoded pubkey padding small) refl)
decode_known-log_of keccak256 contract padding (registered_eip1271 actor signer _ _ _) (h, k) =
    step_ok _ (topic_address actor h) (
      step_ok _ (first_slot (address_slot signer) padding (length-address_slot signer k))
        (step_ok _ (decode_abi_address-slot signer data_offset_0) refl))
decode_known-log_of keccak256 contract padding (revoked actor _ _ _) h =
    step_ok _ (topic_address actor h) refl
decode_known-log_of keccak256 contract padding
      (deposit_initiated depositor resource_id token amount depositor_nonce receipt_hash _ _ _)
      (h, small, k, size, fits, hash) =
    let token_slot = address_slot token in
    let nonce_slot = uint64_slot depositor_nonce in
    let hash_slot = to_be_bytes 32 receipt_hash in
    let token_size = length-address_slot token k in
    let nonce_size = length-uint64_slot depositor_nonce in
    let hash_size = length-to_be_bytes 32 receipt_hash in
    let read_token =
      first_slot token_slot (amount ++ (nonce_slot ++ (hash_slot ++ padding))) token_size in
    let read_amount =
      read_slot-append token_slot amount (nonce_slot ++ (hash_slot ++ padding)) 32 token_size size
        (omega arith) in
    let read_nonce =
      slot_at_64 token_slot amount nonce_slot (hash_slot ++ padding) token_size size nonce_size in
    let read_hash =
      slot_at_96 token_slot amount nonce_slot hash_slot padding token_size size nonce_size
        hash_size in
    rw (topic_address depositor h) (
      rw (topic_u64 resource_id small) (
        rw read_token (
          rw (decode_abi_address-slot token data_offset_0_token) (
            rw read_amount (
              rw read_nonce (
                rw (decode_abi_u64-slot depositor_nonce 64 fits)
                  (rw read_hash (rw (from_be_bytes-to_be_bytes 32 receipt_hash hash) refl))))))))

-- The decoder reads back every event from the log that the contract emits for it, whatever follows the
-- fields: addresses of 20 bytes, amounts of 32, and numbers, a hash and a key that their slots can hold.
-- The hash function tells the four signatures apart.
pub decode_event-log_of :
    (keccak256 : List ℕ → TopicHash) (contract : EthAddress) (padding : List ℕ)
    (event : IngestedEvent)
    → TellsApart keccak256
    → IsEvent event
    → decode_event keccak256 (log_of keccak256 contract padding event) ≡ ok (some event)
unfolding decode_event
decode_event-log_of keccak256 contract padding event apart h =
    ap (decode_topic (log_of keccak256 contract padding event) (indexed_of event))
      (from_hash-topic_hash keccak256 apart (topic_of event))
    ∙ step_ok _ (decode_known-log_of keccak256 contract padding event h) refl
