-- ===== src/Indexer/Decoder/Echo/Events.antt =====
-- Each event against the bytes that the decoder takes for it.
use canon.Prelude.{ℕ, refl, arith, []}
use canon.Bytes.{IsU64, IsU128}
use canon.Indexer.Event.{
  tag, balance_changed, nonce_advanced, identity_registered, identity_revoked, time_recorded,
  dispute_filed, dispute_withdrawn, verdict_applied, reward_issued, withdrawal_requested,
  deposit_credited, local_policy_declared, local_policy_revoked, fault_proof_game_opened,
  fault_proof_bisection_step, fault_proof_game_settled,
}
use canon.Indexer.Cursor.{
  unknown_tag, ◌>>=◌, pure, read_uint, read_amount, read_byte_string, read_eth_address,
}
use canon.Indexer.Encoder.{write_uint, encode_fields, encode_event}
use canon.Indexer.Decoder.{decode_fields}
use canon.Indexer.Decoder.Echo.{
  Echo, Echo-pure, Echo-uint, Echo-amount, Echo-string, Echo-address, Echo-fail, Echo-case,
}

widen : (n : ℕ) → IsU64 n → IsU128 n
widen n h = omega arith

Echo-balance_changed : Echo (write_uint 0 []) (do
  x0 ← read_uint
  x1 ← read_uint
  x2 ← read_amount
  x3 ← read_amount
  pure (balance_changed x0 x1 x2 x3))
unfolding encode_event encode_fields tag
Echo-balance_changed = Echo-uint _ _ λ x0 h0. Echo-uint _ _ λ x1 h1. Echo-amount _ _ λ x2 h2.
    Echo-amount _ _
      λ x3 h3. Echo-pure _ _ refl (h0, h1, widen x2 h2, widen x3 h3) ((h2, (h3, tt)), tt)

Echo-nonce_advanced :
    Echo
      (write_uint 1 [])
      (do x0 ← read_uint; x1 ← read_amount; x2 ← read_amount; pure (nonce_advanced x0 x1 x2))
unfolding encode_event encode_fields tag
Echo-nonce_advanced = Echo-uint _ _ λ x0 h0. Echo-amount _ _ λ x1 h1.
    Echo-amount _ _ λ x2 h2. Echo-pure _ _ refl (h0, widen x1 h1, widen x2 h2) ((h1, (h2, tt)), tt)

Echo-identity_registered :
    Echo
      (write_uint 2 [])
      (do x0 ← read_uint; x1 ← read_byte_string; pure (identity_registered x0 x1))
unfolding encode_event encode_fields tag
Echo-identity_registered =
    Echo-uint _ _ λ x0 h0. Echo-string _ _ λ x1 l1 b1. Echo-pure _ _ refl (h0, b1) (tt, (l1, tt))

Echo-identity_revoked : Echo (write_uint 3 []) (do x0 ← read_uint; pure (identity_revoked x0))
unfolding encode_event encode_fields tag
Echo-identity_revoked = Echo-uint _ _ λ x0 h0. Echo-pure _ _ refl h0 (tt, tt)

Echo-time_recorded : Echo (write_uint 4 []) (do x0 ← read_uint; pure (time_recorded x0))
unfolding encode_event encode_fields tag
Echo-time_recorded = Echo-uint _ _ λ x0 h0. Echo-pure _ _ refl h0 (tt, tt)

Echo-dispute_filed :
    Echo (write_uint 5 []) (do x0 ← read_uint; x1 ← read_uint; pure (dispute_filed x0 x1))
unfolding encode_event encode_fields tag
Echo-dispute_filed =
    Echo-uint _ _ λ x0 h0. Echo-uint _ _ λ x1 h1. Echo-pure _ _ refl (h0, h1) (tt, tt)

Echo-dispute_withdrawn : Echo (write_uint 6 []) (do x0 ← read_uint; pure (dispute_withdrawn x0))
unfolding encode_event encode_fields tag
Echo-dispute_withdrawn = Echo-uint _ _ λ x0 h0. Echo-pure _ _ refl h0 (tt, tt)

Echo-verdict_applied :
    Echo (write_uint 7 []) (do x0 ← read_uint; x1 ← read_uint; pure (verdict_applied x0 x1))
unfolding encode_event encode_fields tag
Echo-verdict_applied =
    Echo-uint _ _ λ x0 h0. Echo-uint _ _ λ x1 h1. Echo-pure _ _ refl (h0, h1) (tt, tt)

Echo-reward_issued :
    Echo
      (write_uint 8 [])
      (do x0 ← read_uint; x1 ← read_uint; x2 ← read_amount; pure (reward_issued x0 x1 x2))
unfolding encode_event encode_fields tag
Echo-reward_issued = Echo-uint _ _ λ x0 h0.
    Echo-uint _ _
      λ x1 h1. Echo-amount _ _ λ x2 h2. Echo-pure _ _ refl (h0, h1, widen x2 h2) ((h2, tt), tt)

Echo-withdrawal_requested : Echo (write_uint 9 []) (do
  x0 ← read_uint
  x1 ← read_uint
  x2 ← read_amount
  x3 ← read_eth_address
  x4 ← read_uint
  pure (withdrawal_requested x0 x1 x2 x3 x4))
unfolding encode_event encode_fields tag
Echo-withdrawal_requested = Echo-uint _ _ λ x0 h0. Echo-uint _ _ λ x1 h1. Echo-amount _ _ λ x2 h2.
    Echo-address _ _ λ x3 l3 b3.
      Echo-uint _ _ λ x4 h4. Echo-pure _ _ refl (h0, h1, widen x2 h2, (b3, l3), h4) ((h2, tt), tt)

Echo-deposit_credited : Echo (write_uint 10 []) (do
  x0 ← read_uint
  x1 ← read_uint
  x2 ← read_amount
  x3 ← read_uint
  pure (deposit_credited x0 x1 x2 x3))
unfolding encode_event encode_fields tag
Echo-deposit_credited = Echo-uint _ _ λ x0 h0. Echo-uint _ _ λ x1 h1.
    Echo-amount _ _
      λ x2 h2. Echo-uint _ _ λ x3 h3. Echo-pure _ _ refl (h0, h1, widen x2 h2, h3) ((h2, tt), tt)

Echo-local_policy_declared :
    Echo
      (write_uint 11 [])
      (do x0 ← read_uint; x1 ← read_byte_string; pure (local_policy_declared x0 x1))
unfolding encode_event encode_fields tag
Echo-local_policy_declared =
    Echo-uint _ _ λ x0 h0. Echo-string _ _ λ x1 l1 b1. Echo-pure _ _ refl (h0, b1) (tt, (l1, tt))

Echo-local_policy_revoked :
    Echo (write_uint 12 []) (do x0 ← read_uint; pure (local_policy_revoked x0))
unfolding encode_event encode_fields tag
Echo-local_policy_revoked = Echo-uint _ _ λ x0 h0. Echo-pure _ _ refl h0 (tt, tt)

Echo-fault_proof_game_opened : Echo (write_uint 13 []) (do
  x0 ← read_uint
  x1 ← read_uint
  x2 ← read_uint
  x3 ← read_uint
  x4 ← read_byte_string
  pure (fault_proof_game_opened x0 x1 x2 x3 x4))
unfolding encode_event encode_fields tag
Echo-fault_proof_game_opened = Echo-uint _ _ λ x0 h0. Echo-uint _ _ λ x1 h1. Echo-uint _ _ λ x2 h2.
    Echo-uint _ _
      λ x3 h3. Echo-string _ _ λ x4 l4 b4. Echo-pure _ _ refl (h0, h1, h2, h3, b4) (tt, (l4, tt))

Echo-fault_proof_bisection_step : Echo (write_uint 14 []) (do
  x0 ← read_uint
  x1 ← read_uint
  x2 ← read_uint
  x3 ← read_uint
  x4 ← read_byte_string
  pure (fault_proof_bisection_step x0 x1 x2 x3 x4))
unfolding encode_event encode_fields tag
Echo-fault_proof_bisection_step = Echo-uint _ _ λ x0 h0. Echo-uint _ _ λ x1 h1.
    Echo-uint _ _ λ x2 h2.
      Echo-uint _ _
        λ x3 h3. Echo-string _ _ λ x4 l4 b4. Echo-pure _ _ refl (h0, h1, h2, h3, b4) (tt, (l4, tt))

Echo-fault_proof_game_settled : Echo (write_uint 15 []) (do
  x0 ← read_uint
  x1 ← read_uint
  x2 ← read_uint
  x3 ← read_amount
  pure (fault_proof_game_settled x0 x1 x2 x3))
unfolding encode_event encode_fields tag
Echo-fault_proof_game_settled = Echo-uint _ _ λ x0 h0. Echo-uint _ _ λ x1 h1.
    Echo-uint _ _
      λ x2 h2. Echo-amount _ _ λ x3 h3. Echo-pure _ _ refl (h0, h1, h2, widen x3 h3) ((h3, tt), tt)

pub Echo-decode_fields : (t : ℕ) → Echo (write_uint t []) (decode_fields t)
unfolding decode_fields
Echo-decode_fields t = Echo-case t 0 _ _ Echo-balance_changed (
    Echo-case t 1 _ _ Echo-nonce_advanced (
      Echo-case t 2 _ _ Echo-identity_registered (
        Echo-case t 3 _ _ Echo-identity_revoked (
          Echo-case t 4 _ _ Echo-time_recorded (
            Echo-case t 5 _ _ Echo-dispute_filed (
              Echo-case t 6 _ _ Echo-dispute_withdrawn (
                Echo-case t 7 _ _ Echo-verdict_applied (
                  Echo-case t 8 _ _ Echo-reward_issued (
                    Echo-case t 9 _ _ Echo-withdrawal_requested (
                      Echo-case t 10 _ _ Echo-deposit_credited (
                        Echo-case t 11 _ _ Echo-local_policy_declared (
                          Echo-case t 12 _ _ Echo-local_policy_revoked (
                            Echo-case t 13 _ _ Echo-fault_proof_game_opened (
                              Echo-case t 14 _ _ Echo-fault_proof_bisection_step (
                                Echo-case t 15 _ _ Echo-fault_proof_game_settled
                                  (Echo-fail _ (unknown_tag t)))))))))))))))))
