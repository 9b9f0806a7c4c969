-- ===== src/Tests/Decoding.antt =====
-- Events of runtime/canon-indexer, encoded and decoded.
use canon.Prelude.{ℕ, ◌+◌, ◌<◌, ◌≡◌, ◌≢◌, refl, ap, zero, suc, arith, List, [], ◌∷◌, ◌++◌, length}
use canon.Prelude.Result.{ok, err}
use canon.Bytes.{u64_mod, to_le_bytes, from_le_bytes}
use canon.Indexer.Event.{
  IsTyped, balance_changed, identity_revoked, identity_registered, withdrawal_requested, tag,
}
use canon.Indexer.Cursor.{
  trailing_bytes, byte_string_too_long, ◌>>=◌, pure, check_that, offset_now, new, remaining,
  read_bytes, read_head_raw, read_uint, hard_max_byte_string_len,
}
use canon.Indexer.Encoder.{
  amount_exceeds_bound, write_uint, encode_fields, encode_event, encode_event_checked,
}
use canon.Indexer.Encoder.Checked.{first_large, encode_event_checked_lem}
use canon.Indexer.Decoder.{decode_fields, decode_body, decode_event, remaining_now}
use canon.Indexer.Decoder.RoundTrip.{IsEncodable, decode_event-encode_event, decode_event-trailing}
use canon.Indexer.Decoder.Canonical.{decode_event-canonical}
use canon.Indexer.Decoder.Errors.{decode_event-prefix, decode_event-long_key, length-key_event}

abbrev revoked_bytes : List ℕ
revoked_bytes = 0 ∷ 3 ∷ 0 ∷ 0 ∷ 0 ∷ 0 ∷ 0 ∷ 0 ∷ 0 ∷ 0 ∷ 44 ∷ 1 ∷ 0 ∷ 0 ∷ 0 ∷ 0 ∷ 0 ∷ 0 ∷ []

encode_revoked : encode_event (identity_revoked 300) ≡ revoked_bytes
unfolding encode_event encode_fields write_uint tag to_le_bytes
encode_revoked = refl

decode_revoked : decode_event revoked_bytes ≡ ok (identity_revoked 300)
unfolding decode_event decode_body decode_fields remaining_now remaining ◌>>=◌ pure check_that
    offset_now new read_bytes read_head_raw read_uint from_le_bytes
decode_revoked = refl

decode_event-encode_event_example :
    decode_event (
      encode_event (
        withdrawal_requested 1 2 3
          (1 ∷ 1 ∷ 1 ∷ 1 ∷ 1 ∷ 1 ∷ 1 ∷ 1 ∷ 1 ∷ 1 ∷ 1 ∷ 1 ∷ 1 ∷ 1 ∷ 1 ∷ 1 ∷ 1 ∷ 1 ∷ 1 ∷ 1 ∷ [])
          4))
    ≡ ok (
        withdrawal_requested 1 2 3
          (1 ∷ 1 ∷ 1 ∷ 1 ∷ 1 ∷ 1 ∷ 1 ∷ 1 ∷ 1 ∷ 1 ∷ 1 ∷ 1 ∷ 1 ∷ 1 ∷ 1 ∷ 1 ∷ 1 ∷ 1 ∷ 1 ∷ 1 ∷ [])
          4)
decode_event-encode_event_example =
    decode_event-encode_event
      (withdrawal_requested 1 2 3
        (1 ∷ 1 ∷ 1 ∷ 1 ∷ 1 ∷ 1 ∷ 1 ∷ 1 ∷ 1 ∷ 1 ∷ 1 ∷ 1 ∷ 1 ∷ 1 ∷ 1 ∷ 1 ∷ 1 ∷ 1 ∷ 1 ∷ 1 ∷ []) 4)
      (omega arith) (omega arith)

short_payload : length (encode_event (identity_revoked 300) ++ (7 ∷ [])) < u64_mod
unfolding encode_event encode_fields write_uint tag to_le_bytes
short_payload = omega arith

decode_event-trailing_example :
    decode_event (encode_event (identity_revoked 300) ++ (7 ∷ [])) ≡ err (trailing_bytes (0 + 1))
decode_event-trailing_example =
    decode_event-trailing (identity_revoked 300) 7 [] (omega arith) (omega arith) short_payload

decode_event-canonical_example :
    (encode_event (identity_revoked 300) ≡ revoked_bytes)
    × IsTyped (identity_revoked 300)
    × IsEncodable (identity_revoked 300)
decode_event-canonical_example =
    decode_event-canonical revoked_bytes (identity_revoked 300) (omega arith) decode_revoked

decode_event-prefix_example : decode_event (0 ∷ 3 ∷ []) ≢ ok (identity_revoked 300)
decode_event-prefix_example =
    decode_event-prefix (identity_revoked 300) (0 ∷ 3 ∷ []) 0
      (0 ∷ 0 ∷ 0 ∷ 0 ∷ 0 ∷ 0 ∷ 0 ∷ 44 ∷ 1 ∷ 0 ∷ 0 ∷ 0 ∷ 0 ∷ 0 ∷ 0 ∷ []) (identity_revoked 300)
      (omega arith) (omega arith) (omega arith) encode_revoked

fill : ℕ → List ℕ
fill zero = []
fill (suc n) = 7 ∷ fill n

length-fill : (n : ℕ) → length (fill n) ≡ n
unfolding fill
length-fill zero = refl
length-fill (suc n) = ap suc (length-fill n)

decode_event-long_key_example :
    decode_event (encode_event (identity_registered 1 (fill 1_048_577)))
    ≡ err (byte_string_too_long 18 (length (fill 1_048_577)) hard_max_byte_string_len)
decode_event-long_key_example =
    decode_event-long_key 1 (fill 1_048_577) (omega arith) (omega (arith, length-fill 1_048_577))
      (omega (arith, length-fill 1_048_577, length-key_event 1 (fill 1_048_577)))

encode_event_checked_lem_example :
    encode_event_checked (balance_changed 0 0 5 18_446_744_073_709_551_616)
    ≡ err (amount_exceeds_bound 18_446_744_073_709_551_616)
unfolding first_large
encode_event_checked_lem_example =
    encode_event_checked_lem (balance_changed 0 0 5 18_446_744_073_709_551_616)
