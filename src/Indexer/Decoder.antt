-- ===== src/Indexer/Decoder.antt =====
-- runtime/canon-indexer/src/decoder.rs: `decode_event`.
pub mod RoundTrip
pub mod Errors
pub mod Canonical
pub mod Echo
use canon.Prelude.{ℕ, List, ◌==◌, if◌then◌else◌}
use canon.Prelude.Result.{Result}
use canon.Indexer.Event.{
  Event, balance_changed, nonce_advanced, identity_registered, identity_revoked, time_recorded,
  dispute_filed, dispute_withdrawn, verdict_applied, reward_issued, withdrawal_requested,
  deposit_credited, local_policy_declared, local_policy_revoked, fault_proof_game_opened,
  fault_proof_bisection_step, fault_proof_game_settled,
}
use canon.Indexer.Cursor.{
  DecodeError, unknown_tag, trailing_bytes, Cursor, Reader, ◌>>=◌, ◌>>◌, pure, fail, check_that,
  new, remaining, read_uint, read_amount, read_byte_string, read_eth_address,
}

-- The `match` on the tag. The source reads the fields in the order in which they are written.
unfoldable pub decode_fields : ℕ → Reader Event
decode_fields tag =
    if tag == 0
    then (do
      resource ← read_uint
      actor ← read_uint
      old_value ← read_amount
      new_value ← read_amount
      pure (balance_changed resource actor old_value new_value))
    else if tag == 1
    then (do
      actor ← read_uint
      old_nonce ← read_amount
      new_nonce ← read_amount
      pure (nonce_advanced actor old_nonce new_nonce))
    else if tag == 2
    then (do actor ← read_uint; key ← read_byte_string; pure (identity_registered actor key))
    else if tag == 3
    then (do actor ← read_uint; pure (identity_revoked actor))
    else if tag == 4
    then (do time ← read_uint; pure (time_recorded time))
    else if tag == 5
    then (do
      challenger ← read_uint
      target_idx ← read_uint
      pure (dispute_filed challenger target_idx))
    else if tag == 6
    then (do dispute_idx ← read_uint; pure (dispute_withdrawn dispute_idx))
    else if tag == 7
    then (do
      dispute_idx ← read_uint
      outcome_tag ← read_uint
      pure (verdict_applied dispute_idx outcome_tag))
    else if tag == 8
    then (do
      resource ← read_uint
      recipient ← read_uint
      amount ← read_amount
      pure (reward_issued resource recipient amount))
    else if tag == 9
    then (do
      resource ← read_uint
      sender ← read_uint
      amount ← read_amount
      recipient_l1 ← read_eth_address
      withdrawal_id ← read_uint
      pure (withdrawal_requested resource sender amount recipient_l1 withdrawal_id))
    else if tag == 10
    then (do
      resource ← read_uint
      recipient ← read_uint
      amount ← read_amount
      deposit_id ← read_uint
      pure (deposit_credited resource recipient amount deposit_id))
    else if tag == 11
    then (do
      actor ← read_uint
      policy ← read_byte_string
      pure (local_policy_declared actor policy))
    else if tag == 12
    then (do actor ← read_uint; pure (local_policy_revoked actor))
    else if tag == 13
    then (do
      game_id ← read_uint
      challenger ← read_uint
      disputed_start_idx ← read_uint
      disputed_end_idx ← read_uint
      binding_hash ← read_byte_string
      pure (
          fault_proof_game_opened game_id challenger disputed_start_idx disputed_end_idx
            binding_hash))
    else if tag == 14
    then (do
      game_id ← read_uint
      round ← read_uint
      party ← read_uint
      idx ← read_uint
      commit ← read_byte_string
      pure (fault_proof_bisection_step game_id round party idx commit))
    else if tag == 15
    then (do
      game_id ← read_uint
      winner ← read_uint
      loser ← read_uint
      payout ← read_amount
      pure (fault_proof_game_settled game_id winner loser payout))
    else fail (unknown_tag tag)

unfoldable pub remaining_now : Reader ℕ
remaining_now c = Result.ok (remaining c, c)

unfoldable pub decode_body : Reader Event
decode_body = do
  tag ← read_uint
  event ← decode_fields tag
  trailing ← remaining_now
  check_that (trailing == 0) (trailing_bytes trailing)
  pure event

abbrev value_of : Result DecodeError (Event × Cursor) → Result DecodeError Event
value_of (Result.ok (e, c)) = Result.ok e
value_of (Result.err x) = Result.err x

unfoldable pub decode_event : List ℕ → Result DecodeError Event
decode_event payload = value_of (decode_body (new payload))
