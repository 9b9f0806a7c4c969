-- ===== src/Tests/Encoding.antt =====
-- Actions and signing inputs of runtime/canon-l1-ingest as bytes.
use canon.Prelude.{ℕ, ◌≡◌, refl, arith, List, [], ◌∷◌, ◌++◌, ◌^◌}
use canon.Prelude.Result.{ok, err}
use canon.Bytes.{to_le_bytes}
use canon.L1.Action.{tag, mint, to_hex, hex_nibble}
use canon.L1.Encoding.{
  field_exceeds_bound, write_u64_le, write_head, encode_u64, encode_u128_checked,
  encode_bytes_checked, encode_amount, encode_byte_string, encode_action_fields, encode_action,
  signing_input, encode_signed_action, signed_action_domain,
}
use canon.L1.Encoding.Fields.{encoded, id, fields, encode_action-encoded}
use canon.L1.Encoding.Injective.{encode_action-injective}
use canon.L1.Encoding.Signing.{signing_input-injective, encode_signed_action-injective}

abbrev minted : List ℕ
minted =
    0 ∷ 1 ∷ 0 ∷ 0 ∷ 0 ∷ 0 ∷ 0 ∷ 0 ∷ 0 ∷ 0 ∷ 7 ∷ 0 ∷ 0 ∷ 0 ∷ 0 ∷ 0 ∷ 0 ∷ 0 ∷ 0 ∷ 44 ∷ 1 ∷ 0 ∷ 0 ∷ 0
    ∷ 0 ∷ 0 ∷ 0 ∷ 0 ∷ 5 ∷ 0 ∷ 0 ∷ 0 ∷ 0 ∷ 0 ∷ 0 ∷ 0 ∷ []

encode_mint : encode_action (mint 7 300 5) ≡ ok minted
unfolding encode_action encode_action_fields encode_u64 encode_amount encode_u128_checked write_head
    write_u64_le to_le_bytes tag
encode_mint = refl

encode_large : encode_action (mint 7 300 (2 ^ 64)) ≡ err (field_exceeds_bound (2 ^ 64))
unfolding encode_action encode_action_fields encode_u64 encode_amount encode_u128_checked write_head
    write_u64_le to_le_bytes tag
encode_large = refl

hex_text : to_hex (10 ∷ 255 ∷ []) ≡ b'0' ∷ b'a' ∷ b'f' ∷ b'f' ∷ []
unfolding to_hex hex_nibble
hex_text = refl

encode_action-injective_example :
    (mint 7 300 5 ≡ mint 7 300 5) × (◌≡◌ {A = List ℕ} (1 ∷ []) (1 ∷ []))
encode_action-injective_example =
    encode_action-injective (mint 7 300 5) (mint 7 300 5) minted minted (1 ∷ []) (1 ∷ [])
      (omega arith) (omega arith) encode_mint encode_mint refl

abbrev the_signer : ℕ
the_signer = 3

abbrev the_nonce : ℕ
the_nonce = 4

abbrev domain_head : List ℕ
domain_head = 2 ∷ 27 ∷ 0 ∷ 0 ∷ 0 ∷ 0 ∷ 0 ∷ 0 ∷ 0 ∷ []

abbrev signed_mint : List ℕ
signed_mint =
    (domain_head ++ signed_action_domain)
    ++ ((2 ∷ 1 ∷ 0 ∷ 0 ∷ 0 ∷ 0 ∷ 0 ∷ 0 ∷ 0 ∷ 9 ∷ [])
        ++ (minted ++ (0 ∷ 3 ∷ 0 ∷ 0 ∷ 0 ∷ 0 ∷ 0 ∷ 0 ∷ 0 ∷ 0 ∷ 4 ∷ 0 ∷ 0 ∷ 0 ∷ 0 ∷ 0 ∷ 0 ∷ 0 ∷ [])))

sign_mint : signing_input (mint 7 300 5) 3 4 (9 ∷ []) ≡ ok signed_mint
unfolding signing_input encode_action encode_action_fields encode_u64 encode_amount
    encode_u128_checked encode_byte_string encode_bytes_checked signed_action_domain write_head
    write_u64_le to_le_bytes tag
sign_mint = refl

signing_input-injective_example :
    (mint 7 300 5 ≡ mint 7 300 5)
    × (the_signer ≡ the_signer)
    × (the_nonce ≡ the_nonce)
    × (◌≡◌ {A = List ℕ} (9 ∷ []) (9 ∷ []))
signing_input-injective_example =
    signing_input-injective (mint 7 300 5) (mint 7 300 5) the_signer the_signer the_nonce the_nonce
      (9 ∷ []) (9 ∷ []) signed_mint (omega arith) (omega arith) (omega arith) (omega arith)
      sign_mint sign_mint

abbrev sent_mint : List ℕ
sent_mint =
    minted
    ++ (0 ∷ 3 ∷ 0 ∷ 0 ∷ 0 ∷ 0 ∷ 0 ∷ 0 ∷ 0 ∷ 0 ∷ 4 ∷ 0 ∷ 0 ∷ 0 ∷ 0 ∷ 0 ∷ 0 ∷ 0 ∷ 2 ∷ 1 ∷ 0 ∷ 0 ∷ 0
        ∷ 0 ∷ 0 ∷ 0 ∷ 0 ∷ 9 ∷ [])

send_mint : encode_signed_action (mint 7 300 5) 3 4 (9 ∷ []) ≡ ok sent_mint
unfolding encode_signed_action encode_action encode_action_fields encode_u64 encode_amount
    encode_u128_checked encode_byte_string encode_bytes_checked write_head write_u64_le to_le_bytes
    tag
send_mint = refl

encode_signed_action-injective_example :
    (mint 7 300 5 ≡ mint 7 300 5)
    × (the_signer ≡ the_signer)
    × (the_nonce ≡ the_nonce)
    × (◌≡◌ {A = List ℕ} (9 ∷ []) (9 ∷ []))
encode_signed_action-injective_example =
    encode_signed_action-injective (mint 7 300 5) (mint 7 300 5) the_signer the_signer the_nonce
      the_nonce (9 ∷ []) (9 ∷ []) sent_mint (omega arith) (omega arith) (omega arith) (omega arith)
      send_mint send_mint

encode_action-encoded_example :
    encode_action (mint 7 300 5) ≡ encoded (id (tag (mint 7 300 5)) ∷ fields (mint 7 300 5))
encode_action-encoded_example = encode_action-encoded (mint 7 300 5)
