-- ===== src/Indexer/Encoder/Layout.antt =====
-- What each writer appends, as a byte list of its own.
use canon.Prelude.{
  ℕ, ◌+◌, ◌%◌, ◌<◌, ◌≡◌, refl, ap, ◌∙◌, arith, List, [], ◌∷◌, ◌++◌, append_assoc, length,
  length-append, All, All-append,
}
use canon.Bytes.{IsByte, to_le_bytes, u64_mod}
use canon.Bytes.Laws.{length-to_le_bytes, to_le_bytes-IsByte}
use canon.Indexer.Cursor.{cbe_tag_uint, cbe_tag_bytes}
use canon.Indexer.Event.{
  Event, tag, balance_changed, nonce_advanced, identity_registered, identity_revoked, time_recorded,
  dispute_filed, dispute_withdrawn, verdict_applied, reward_issued, withdrawal_requested,
  deposit_credited, local_policy_declared, local_policy_revoked, fault_proof_game_opened,
  fault_proof_bisection_step, fault_proof_game_settled,
}
use canon.Indexer.Encoder.{
  encode_fields, encode_event, write_uint, write_amount, write_byte_string, write_eth_address,
}

unfoldable pub head_bytes : ℕ → ℕ → List ℕ
head_bytes t n = t ∷ to_le_bytes 8 n

unfoldable pub uint_bytes : ℕ → List ℕ
unfolding head_bytes
uint_bytes n = head_bytes cbe_tag_uint n

unfoldable pub string_bytes : List ℕ → List ℕ
unfolding head_bytes
string_bytes s = head_bytes cbe_tag_bytes (length s % u64_mod) ++ s

pub write_uint-append : (n : ℕ) (out : List ℕ) → write_uint n out ≡ out ++ uint_bytes n
unfolding write_uint uint_bytes
write_uint-append n out = append_assoc out (cbe_tag_uint ∷ []) (to_le_bytes 8 n)

pub write_amount-append :
    (n : ℕ) (out : List ℕ) → write_amount n out ≡ out ++ uint_bytes (n % u64_mod)
unfolding write_amount
write_amount-append n out = write_uint-append (n % u64_mod) out

pub write_byte_string-append : (s out : List ℕ) → write_byte_string s out ≡ out ++ string_bytes s
unfolding write_byte_string string_bytes
write_byte_string-append s out = simp append_assoc

pub write_eth_address-append : (s out : List ℕ) → write_eth_address s out ≡ out ++ string_bytes s
unfolding write_eth_address
write_eth_address-append s out = write_byte_string-append s out

pub ruleset write_laws = (
  write_uint-append, write_amount-append, write_byte_string-append, write_eth_address-append,
  append_assoc,
)

pub length-head_bytes : (t n : ℕ) → length (head_bytes t n) ≡ 9
unfolding head_bytes
length-head_bytes t n = omega (arith, length-to_le_bytes 8 n)

pub length-uint_bytes : (n : ℕ) → length (uint_bytes n) ≡ 9
unfolding uint_bytes
length-uint_bytes n = omega (arith, length-to_le_bytes 8 n)

pub length-string_bytes : (s : List ℕ) → length (string_bytes s) ≡ 9 + length s
unfolding string_bytes
length-string_bytes s = omega (
  arith,
  length-append (to_le_bytes 8 (length s % u64_mod)) s,
  length-to_le_bytes 8 (length s % u64_mod),
)

pub uint_bytes-IsByte : (n : ℕ) → All IsByte (uint_bytes n)
unfolding uint_bytes
uint_bytes-IsByte n = (omega arith, to_le_bytes-IsByte 8 n)

pub string_bytes-IsByte : (s : List ℕ) → All IsByte s → All IsByte (string_bytes s)
unfolding string_bytes
string_bytes-IsByte s h = (
  omega arith,
  All-append IsByte (to_le_bytes 8 (length s % u64_mod)) s
      (to_le_bytes-IsByte 8 (length s % u64_mod)) h,
)

-- The fields are appended to what the buffer holds.
pub encode_fields-append :
    (e : Event) (out : List ℕ) → encode_fields e out ≡ out ++ encode_fields e []
unfolding encode_fields
encode_fields-append (balance_changed x0 x1 x2 x3) out = simp write_laws
encode_fields-append (nonce_advanced x0 x1 x2) out = simp write_laws
encode_fields-append (identity_registered x0 x1) out = simp write_laws
encode_fields-append (identity_revoked x0) out = simp write_laws
encode_fields-append (time_recorded x0) out = simp write_laws
encode_fields-append (dispute_filed x0 x1) out = simp write_laws
encode_fields-append (dispute_withdrawn x0) out = simp write_laws
encode_fields-append (verdict_applied x0 x1) out = simp write_laws
encode_fields-append (reward_issued x0 x1 x2) out = simp write_laws
encode_fields-append (withdrawal_requested x0 x1 x2 x3 x4) out = simp write_laws
encode_fields-append (deposit_credited x0 x1 x2 x3) out = simp write_laws
encode_fields-append (local_policy_declared x0 x1) out = simp write_laws
encode_fields-append (local_policy_revoked x0) out = simp write_laws
encode_fields-append (fault_proof_game_opened x0 x1 x2 x3 x4) out = simp write_laws
encode_fields-append (fault_proof_bisection_step x0 x1 x2 x3 x4) out = simp write_laws
encode_fields-append (fault_proof_game_settled x0 x1 x2 x3) out = simp write_laws

pub encode_event-eq : (e : Event) → encode_event e ≡ uint_bytes (tag e) ++ encode_fields e []
unfolding encode_event
encode_event-eq e = encode_fields-append e (write_uint (tag e) []) ∙ rw write_uint-append
