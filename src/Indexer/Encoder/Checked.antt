-- ===== src/Indexer/Encoder/Checked.antt =====
-- `encode_event_checked` against `encode_event`.
use canon.Prelude.{ℕ, ◌≡◌, arith, Option, none, some, List, [], ◌∷◌, ltb, if◌then◌else◌}
use canon.Prelude.Result.{Result, ok, err}
use canon.Bytes.{u64_mod}
use canon.Indexer.Event.{
  Event, tag, amounts, balance_changed, nonce_advanced, identity_registered, identity_revoked,
  time_recorded, dispute_filed, dispute_withdrawn, verdict_applied, reward_issued,
  withdrawal_requested, deposit_credited, local_policy_declared, local_policy_revoked,
  fault_proof_game_opened, fault_proof_bisection_step, fault_proof_game_settled,
}
use canon.Indexer.Encoder.{
  EncodeError, amount_exceeds_bound, write_uint, write_amount, write_amount_checked, encode_fields,
  encode_event, encode_fields_checked, encode_event_checked,
}

-- The first amount, in field order, that 64 bits do not hold.
unfoldable pub first_large : List ℕ → Option ℕ
first_large [] = none
first_large (v ∷ vs) = if ltb v u64_mod then first_large vs else some v

abbrev pub or_refused : Option ℕ → List ℕ → Result EncodeError (List ℕ)
or_refused none bytes = ok bytes
or_refused (some v) bytes = err (amount_exceeds_bound v)

encode_fields_checked_lem :
    (e : Event) (out : List ℕ)
    → encode_fields_checked e out ≡ or_refused (first_large (amounts e)) (encode_fields e out)
unfolding encode_fields_checked encode_fields write_amount_checked write_amount first_large
encode_fields_checked_lem (balance_changed x0 x1 x2 x3) out = ground arith
encode_fields_checked_lem (nonce_advanced x0 x1 x2) out = ground arith
encode_fields_checked_lem (identity_registered x0 x1) out = ground arith
encode_fields_checked_lem (identity_revoked x0) out = ground arith
encode_fields_checked_lem (time_recorded x0) out = ground arith
encode_fields_checked_lem (dispute_filed x0 x1) out = ground arith
encode_fields_checked_lem (dispute_withdrawn x0) out = ground arith
encode_fields_checked_lem (verdict_applied x0 x1) out = ground arith
encode_fields_checked_lem (reward_issued x0 x1 x2) out = ground arith
encode_fields_checked_lem (withdrawal_requested x0 x1 x2 x3 x4) out = ground arith
encode_fields_checked_lem (deposit_credited x0 x1 x2 x3) out = ground arith
encode_fields_checked_lem (local_policy_declared x0 x1) out = ground arith
encode_fields_checked_lem (local_policy_revoked x0) out = ground arith
encode_fields_checked_lem (fault_proof_game_opened x0 x1 x2 x3 x4) out = ground arith
encode_fields_checked_lem (fault_proof_bisection_step x0 x1 x2 x3 x4) out = ground arith
encode_fields_checked_lem (fault_proof_game_settled x0 x1 x2 x3) out = ground arith

-- The checked encoder refuses an event exactly when one of its amounts or nonces is at least 2 ^ 64,
-- naming the first of them in field order, and else writes the bytes of the unchecked encoder.
pub encode_event_checked_lem :
    (e : Event) → encode_event_checked e ≡ or_refused (first_large (amounts e)) (encode_event e)
unfolding encode_event_checked encode_event
encode_event_checked_lem e = encode_fields_checked_lem e (write_uint (tag e) [])
