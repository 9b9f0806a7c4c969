-- ===== src/L1/Encoding.antt =====
-- runtime/canon-l1-ingest/src/encoding.rs: the CBE encoder of actions and signing inputs. `out ▷ w`
-- is the output buffer after a write; a chain of fallible writes is a `do` block.
pub mod Fields
pub mod Injective
pub mod Signing
use Prim.Native.Char.{code}
use Prim.Native.String.{String}
use Prim.Native.String
use canon.Prelude.{
  ℕ, ◌+◌, ◌%◌, ◌^◌, Option, none, some, List, [], ◌∷◌, ◌++◌, length, ltb, if◌then◌else◌,
}
use canon.Prelude.Result.{Result, ok, err, ◌>>=◌}
use canon.Bytes.{to_le_bytes, u64_mod}
use canon.L1.Action.{
  Action, EthAddress, tag, transfer, mint, burn, freeze_resource, replace_key, reward,
  distribute_others, proportional_dilute, dispute_withdraw, rollback, register_identity, deposit,
  withdraw, revoke_local_policy, fault_proof_challenge, fault_proof_resolution,
}

abbrev pub cbe_tag_uint : ℕ
cbe_tag_uint = 0x00

abbrev pub cbe_tag_bytes : ℕ
cbe_tag_bytes = 0x02

-- The bytes of an ASCII text.
abbrev codes : String → List ℕ
codes String.[] = []
codes (String.◌∷◌ c s) = code c ∷ codes s

unfoldable pub signed_action_domain : List ℕ
signed_action_domain = codes "legalkernel/v1/signedaction"

pub data EncodeError : Type 0 where
  field_exceeds_bound : (value : ℕ) → EncodeError
  length_exceeds_bound : (len : ℕ) → EncodeError

unfoldable pub write_u64_le : ℕ → List ℕ → List ℕ
write_u64_le n out = out ++ to_le_bytes 8 n

unfoldable pub write_head : ℕ → ℕ → List ℕ → List ℕ
unfolding write_u64_le
write_head tag n out = write_u64_le n (out ++ tag ∷ [])

unfoldable pub encode_u64 : ℕ → List ℕ
unfolding write_head
encode_u64 value = write_head cbe_tag_uint value []

-- `value as u64` behind the bound check.
unfoldable pub encode_u128_checked : ℕ → Option (List ℕ)
unfolding encode_u64
encode_u128_checked value = if ltb value u64_mod then some (encode_u64 (value % u64_mod)) else none

-- `u64::try_from(len)`.
unfoldable pub encode_bytes_checked : List ℕ → Option (List ℕ)
unfolding write_head
encode_bytes_checked bytes =
    if ltb (length bytes) u64_mod
    then some (write_head cbe_tag_bytes (length bytes) [] ++ bytes)
    else none

abbrev ok_or {ℓ} : {A : Type ℓ} → EncodeError → Option A → Result EncodeError A
ok_or e none = err e
ok_or e (some a) = ok a

unfoldable pub encode_amount : ℕ → Result EncodeError (List ℕ)
unfolding encode_u128_checked
encode_amount amount = ok_or (field_exceeds_bound amount) (encode_u128_checked amount)

unfoldable pub encode_byte_string : List ℕ → Result EncodeError (List ℕ)
unfolding encode_bytes_checked
encode_byte_string bytes = ok_or (length_exceeds_bound (length bytes)) (encode_bytes_checked bytes)

-- Appends the result of a fallible encoding.
abbrev extend : List ℕ → Result EncodeError (List ℕ) → Result EncodeError (List ℕ)
extend out (ok bytes) = ok (out ++ bytes)
extend out (err e) = err e

-- The fields after the tag.
unfoldable pub encode_action_fields : Action → List ℕ → Result EncodeError (List ℕ)
unfolding encode_u64 encode_amount encode_byte_string
encode_action_fields (transfer r sender receiver amount) out = do
  out ←
      extend (((out ++ encode_u64 r) ++ encode_u64 sender) ++ encode_u64 receiver)
        (encode_amount amount)
  ok out
encode_action_fields (mint r to amount) out = do
  out ← extend ((out ++ encode_u64 r) ++ encode_u64 to) (encode_amount amount)
  ok out
encode_action_fields (burn r from_actor amount) out = do
  out ← extend ((out ++ encode_u64 r) ++ encode_u64 from_actor) (encode_amount amount)
  ok out
encode_action_fields (freeze_resource r) out = ok (out ++ encode_u64 r)
encode_action_fields (replace_key actor new_key) out = do
  out ← extend (out ++ encode_u64 actor) (encode_byte_string new_key)
  ok out
encode_action_fields (reward r to amount) out = do
  out ← extend ((out ++ encode_u64 r) ++ encode_u64 to) (encode_amount amount)
  ok out
encode_action_fields (distribute_others r excluded amount) out = do
  out ← extend ((out ++ encode_u64 r) ++ encode_u64 excluded) (encode_amount amount)
  ok out
encode_action_fields (proportional_dilute r excluded total_reward) out = do
  out ← extend ((out ++ encode_u64 r) ++ encode_u64 excluded) (encode_amount total_reward)
  ok out
encode_action_fields (dispute_withdraw idx) out = ok (out ++ encode_u64 idx)
encode_action_fields (rollback target_idx) out = ok (out ++ encode_u64 target_idx)
encode_action_fields (register_identity actor pk) out = do
  out ← extend (out ++ encode_u64 actor) (encode_byte_string pk)
  ok out
encode_action_fields (deposit r recipient amount deposit_id) out = do
  out ← extend ((out ++ encode_u64 r) ++ encode_u64 recipient) (encode_amount amount)
  ok (out ++ encode_u64 deposit_id)
encode_action_fields (withdraw r sender amount recipient_l1) out = do
  out ← extend ((out ++ encode_u64 r) ++ encode_u64 sender) (encode_amount amount)
  out ← extend out (encode_byte_string recipient_l1)
  ok out
encode_action_fields revoke_local_policy out = ok out
encode_action_fields
      (fault_proof_challenge binding_hash disputed_start_idx disputed_end_idx challenger_commit)
      out =
    do
      out ← extend out (encode_byte_string binding_hash)
      out ←
          extend ((out ++ encode_u64 disputed_start_idx) ++ encode_u64 disputed_end_idx)
            (encode_byte_string challenger_commit)
      ok out
encode_action_fields (fault_proof_resolution binding_hash game_id winner revert_from_idx) out = do
  out ← extend out (encode_byte_string binding_hash)
  out ← extend out (encode_amount game_id)
  ok ((out ++ encode_u64 winner) ++ encode_u64 revert_from_idx)

unfoldable pub encode_action : Action → Result EncodeError (List ℕ)
unfolding encode_u64
encode_action action = encode_action_fields action ([] ++ encode_u64 (tag action))

unfoldable pub signing_input : Action → ℕ → ℕ → List ℕ → Result EncodeError (List ℕ)
unfolding encode_u64 encode_amount encode_byte_string
signing_input action signer nonce deployment_id = do
  out ← extend [] (encode_byte_string signed_action_domain)
  out ← extend out (encode_byte_string deployment_id)
  out ← extend out (encode_action action)
  extend (out ++ encode_u64 signer) (encode_amount nonce)

unfoldable pub encode_signed_action : Action → ℕ → ℕ → List ℕ → Result EncodeError (List ℕ)
unfolding encode_u64 encode_amount encode_byte_string
encode_signed_action action signer nonce sig = do
  out ← extend [] (encode_action action)
  out ← extend (out ++ encode_u64 signer) (encode_amount nonce)
  extend out (encode_byte_string sig)

-- `expect` panics on `None`.
unfoldable pub encode_eth_address : EthAddress → Option (List ℕ)
encode_eth_address addr = encode_bytes_checked addr
