-- ===== src/Indexer/Encoder.antt =====
-- runtime/canon-indexer/src/decoder.rs: the writers of event payloads. The output buffer that the
-- source appends to is the last argument, and `out ▷ w` is the buffer after the write `w`.
pub mod Checked
pub mod Layout
use mathlib.Core.Bool.{not}
use canon.Prelude.{ℕ, ◌%◌, ◌^◌, List, [], ◌∷◌, ◌++◌, length, ltb, if◌then◌else◌}
use canon.Prelude.Result.{Result, ok, err, ◌>>=◌}
use canon.Bytes.{to_le_bytes, u64_mod}
use canon.Indexer.Event.{
  Event, EthAddress, tag, balance_changed, nonce_advanced, identity_registered, identity_revoked,
  time_recorded, dispute_filed, dispute_withdrawn, verdict_applied, reward_issued,
  withdrawal_requested, deposit_credited, local_policy_declared, local_policy_revoked,
  fault_proof_game_opened, fault_proof_bisection_step, fault_proof_game_settled,
}
use canon.Indexer.Cursor.{cbe_tag_uint, cbe_tag_bytes}

infixl 10 ◌▷◌
abbrev pub ◌▷◌ {ℓ κ} : {A : Type ℓ} {B : Type κ} → A → (A → B) → B
out ▷ w = w out

pub data EncodeError : Type 0 where
  amount_exceeds_bound : (value : ℕ) → EncodeError

unfoldable pub write_uint : ℕ → List ℕ → List ℕ
write_uint n out = (out ++ cbe_tag_uint ∷ []) ++ to_le_bytes 8 n

unfoldable pub write_byte_string : List ℕ → List ℕ → List ℕ
write_byte_string payload out =
    ((out ++ cbe_tag_bytes ∷ []) ++ to_le_bytes 8 (length payload % u64_mod)) ++ payload

-- `amount & u64::MAX`: the low 64 bits.
unfoldable pub write_amount : ℕ → List ℕ → List ℕ
write_amount amount out = out ▷ write_uint (amount % u64_mod)

unfoldable pub write_amount_checked : ℕ → List ℕ → Result EncodeError (List ℕ)
write_amount_checked amount out =
    if not (ltb amount u64_mod)
    then err (amount_exceeds_bound amount)
    else ok (out ▷ write_uint (amount % u64_mod))

unfoldable pub write_eth_address : EthAddress → List ℕ → List ℕ
write_eth_address addr out = out ▷ write_byte_string addr

-- The fields after the tag.
unfoldable pub encode_fields : Event → List ℕ → List ℕ
encode_fields (balance_changed resource actor old_value new_value) out =
    out ▷ write_uint resource ▷ write_uint actor ▷ write_amount old_value ▷ write_amount new_value
encode_fields (nonce_advanced actor old_nonce new_nonce) out =
    out ▷ write_uint actor ▷ write_amount old_nonce ▷ write_amount new_nonce
encode_fields (identity_registered actor key) out = out ▷ write_uint actor ▷ write_byte_string key
encode_fields (identity_revoked actor) out = out ▷ write_uint actor
encode_fields (time_recorded time) out = out ▷ write_uint time
encode_fields (dispute_filed challenger target_idx) out =
    out ▷ write_uint challenger ▷ write_uint target_idx
encode_fields (dispute_withdrawn dispute_idx) out = out ▷ write_uint dispute_idx
encode_fields (verdict_applied dispute_idx outcome_tag) out =
    out ▷ write_uint dispute_idx ▷ write_uint outcome_tag
encode_fields (reward_issued resource recipient amount) out =
    out ▷ write_uint resource ▷ write_uint recipient ▷ write_amount amount
encode_fields (withdrawal_requested resource sender amount recipient_l1 withdrawal_id) out =
    out
    ▷ write_uint resource
    ▷ write_uint sender
    ▷ write_amount amount
    ▷ write_eth_address recipient_l1
    ▷ write_uint withdrawal_id
encode_fields (deposit_credited resource recipient amount deposit_id) out =
    out ▷ write_uint resource ▷ write_uint recipient ▷ write_amount amount ▷ write_uint deposit_id
encode_fields (local_policy_declared actor policy) out =
    out ▷ write_uint actor ▷ write_byte_string policy
encode_fields (local_policy_revoked actor) out = out ▷ write_uint actor
encode_fields
      (fault_proof_game_opened game_id challenger disputed_start_idx disputed_end_idx binding_hash)
      out =
    out
    ▷ write_uint game_id
    ▷ write_uint challenger
    ▷ write_uint disputed_start_idx
    ▷ write_uint disputed_end_idx
    ▷ write_byte_string binding_hash
encode_fields (fault_proof_bisection_step game_id round party idx commit) out =
    out
    ▷ write_uint game_id
    ▷ write_uint round
    ▷ write_uint party
    ▷ write_uint idx
    ▷ write_byte_string commit
encode_fields (fault_proof_game_settled game_id winner loser payout) out =
    out ▷ write_uint game_id ▷ write_uint winner ▷ write_uint loser ▷ write_amount payout

unfoldable pub encode_event : Event → List ℕ
encode_event event = [] ▷ write_uint (tag event) ▷ encode_fields event

unfoldable pub encode_fields_checked : Event → List ℕ → Result EncodeError (List ℕ)
encode_fields_checked (balance_changed resource actor old_value new_value) out = do
  out ← (out ▷ write_uint resource ▷ write_uint actor ▷ write_amount_checked old_value)
  out ← (out ▷ write_amount_checked new_value)
  ok out
encode_fields_checked (nonce_advanced actor old_nonce new_nonce) out = do
  out ← (out ▷ write_uint actor ▷ write_amount_checked old_nonce)
  out ← (out ▷ write_amount_checked new_nonce)
  ok out
encode_fields_checked (identity_registered actor key) out =
    ok (out ▷ write_uint actor ▷ write_byte_string key)
encode_fields_checked (identity_revoked actor) out = ok (out ▷ write_uint actor)
encode_fields_checked (time_recorded time) out = ok (out ▷ write_uint time)
encode_fields_checked (dispute_filed challenger target_idx) out =
    ok (out ▷ write_uint challenger ▷ write_uint target_idx)
encode_fields_checked (dispute_withdrawn dispute_idx) out = ok (out ▷ write_uint dispute_idx)
encode_fields_checked (verdict_applied dispute_idx outcome_tag) out =
    ok (out ▷ write_uint dispute_idx ▷ write_uint outcome_tag)
encode_fields_checked (reward_issued resource recipient amount) out = do
  out ← (out ▷ write_uint resource ▷ write_uint recipient ▷ write_amount_checked amount)
  ok out
encode_fields_checked (withdrawal_requested resource sender amount recipient_l1 withdrawal_id) out =
    do
      out ← (out ▷ write_uint resource ▷ write_uint sender ▷ write_amount_checked amount)
      ok (out ▷ write_eth_address recipient_l1 ▷ write_uint withdrawal_id)
encode_fields_checked (deposit_credited resource recipient amount deposit_id) out = do
  out ← (out ▷ write_uint resource ▷ write_uint recipient ▷ write_amount_checked amount)
  ok (out ▷ write_uint deposit_id)
encode_fields_checked (local_policy_declared actor policy) out =
    ok (out ▷ write_uint actor ▷ write_byte_string policy)
encode_fields_checked (local_policy_revoked actor) out = ok (out ▷ write_uint actor)
encode_fields_checked
      (fault_proof_game_opened game_id challenger disputed_start_idx disputed_end_idx binding_hash)
      out =
    ok (
      out
      ▷ write_uint game_id
      ▷ write_uint challenger
      ▷ write_uint disputed_start_idx
      ▷ write_uint disputed_end_idx
      ▷ write_byte_string binding_hash)
encode_fields_checked (fault_proof_bisection_step game_id round party idx commit) out = ok (
    out
    ▷ write_uint game_id
    ▷ write_uint round
    ▷ write_uint party
    ▷ write_uint idx
    ▷ write_byte_string commit)
encode_fields_checked (fault_proof_game_settled game_id winner loser payout) out = do
  out ←
      (out
        ▷ write_uint game_id
        ▷ write_uint winner
        ▷ write_uint loser
        ▷ write_amount_checked payout)
  ok out

unfoldable pub encode_event_checked : Event → Result EncodeError (List ℕ)
encode_event_checked event = [] ▷ write_uint (tag event) ▷ encode_fields_checked event
