-- ===== src/L1/Encoding/Fields.antt =====
-- Every encoding as the bytes of a list of fields, each of which delimits itself.
use canon.Prelude.{
  ℕ, ◌%◌, ◌≡◌, sym, ap, ◌∙◌, arith, Option, none, some, List, [], ◌∷◌, ◌++◌, append_assoc,
  append-nil, length, ltb, if◌then◌else◌,
}
use canon.Prelude.Result.{Result, ok, err, ◌>>=◌}
use canon.Bytes.{to_le_bytes, u64_mod}
use canon.L1.Action.{
  Action, tag, transfer, mint, burn, freeze_resource, replace_key, reward, distribute_others,
  proportional_dilute, dispute_withdraw, rollback, register_identity, deposit, withdraw,
  revoke_local_policy, fault_proof_challenge, fault_proof_resolution,
}
use canon.L1.Encoding.{
  EncodeError, field_exceeds_bound, length_exceeds_bound, cbe_tag_uint, cbe_tag_bytes, write_head,
  encode_u64, encode_amount, encode_byte_string, extend, encode_action_fields, encode_action,
}

-- A `u64`, a `u128` that has to fit 64 bits, and a byte string.
pub data Field : Type 0 where
  id : ℕ → Field
  amount : ℕ → Field
  bytes : List ℕ → Field

abbrev pub fields : Action → List Field
fields (transfer x0 x1 x2 x3) = id x0 ∷ id x1 ∷ id x2 ∷ amount x3 ∷ []
fields (mint x0 x1 x2) = id x0 ∷ id x1 ∷ amount x2 ∷ []
fields (burn x0 x1 x2) = id x0 ∷ id x1 ∷ amount x2 ∷ []
fields (freeze_resource x0) = id x0 ∷ []
fields (replace_key x0 x1) = id x0 ∷ bytes x1 ∷ []
fields (reward x0 x1 x2) = id x0 ∷ id x1 ∷ amount x2 ∷ []
fields (distribute_others x0 x1 x2) = id x0 ∷ id x1 ∷ amount x2 ∷ []
fields (proportional_dilute x0 x1 x2) = id x0 ∷ id x1 ∷ amount x2 ∷ []
fields (dispute_withdraw x0) = id x0 ∷ []
fields (rollback x0) = id x0 ∷ []
fields (register_identity x0 x1) = id x0 ∷ bytes x1 ∷ []
fields (deposit x0 x1 x2 x3) = id x0 ∷ id x1 ∷ amount x2 ∷ id x3 ∷ []
fields (withdraw x0 x1 x2 x3) = id x0 ∷ id x1 ∷ amount x2 ∷ bytes x3 ∷ []
fields revoke_local_policy = []
fields (fault_proof_challenge x0 x1 x2 x3) = bytes x0 ∷ id x1 ∷ id x2 ∷ bytes x3 ∷ []
fields (fault_proof_resolution x0 x1 x2 x3) = bytes x0 ∷ amount x1 ∷ id x2 ∷ id x3 ∷ []

unfoldable pub field_bytes : Field → List ℕ
field_bytes (id n) = cbe_tag_uint ∷ to_le_bytes 8 n
field_bytes (amount n) = cbe_tag_uint ∷ to_le_bytes 8 (n % u64_mod)
field_bytes (bytes s) = cbe_tag_bytes ∷ (to_le_bytes 8 (length s) ++ s)

abbrev pub all_bytes : List Field → List ℕ
all_bytes [] = []
all_bytes (f ∷ fs) = field_bytes f ++ all_bytes fs

-- The first field that the wire cannot hold.
abbrev pub first_bad : List Field → Option EncodeError
first_bad [] = none
first_bad (id n ∷ fs) = first_bad fs
first_bad (amount n ∷ fs) = if ltb n u64_mod then first_bad fs else some (field_exceeds_bound n)
first_bad (bytes s ∷ fs) =
    if ltb (length s) u64_mod then first_bad fs else some (length_exceeds_bound (length s))

abbrev pub or_refused : Option EncodeError → List ℕ → Result EncodeError (List ℕ)
or_refused none out = ok out
or_refused (some e) out = err e

abbrev pub encoded : List Field → Result EncodeError (List ℕ)
encoded fs = or_refused (first_bad fs) (all_bytes fs)

-- Writing field after field.
unfoldable pub write_fields : List Field → List ℕ → Result EncodeError (List ℕ)
write_fields [] out = ok out
write_fields (id n ∷ fs) out = write_fields fs (out ++ encode_u64 n)
write_fields (amount n ∷ fs) out = extend out (encode_amount n) >>= write_fields fs
write_fields (bytes s ∷ fs) out = extend out (encode_byte_string s) >>= write_fields fs

write_fields_lem :
    (fs : List Field) (out : List ℕ)
    → write_fields fs out ≡ or_refused (first_bad fs) (out ++ all_bytes fs)
unfolding write_fields field_bytes encode_u64 encode_amount encode_byte_string
write_fields_lem [] out = ap ok (sym (append-nil out))
write_fields_lem (id n ∷ fs) out =
    write_fields_lem fs (out ++ encode_u64 n)
    ∙ ap (or_refused (first_bad fs)) (append_assoc out _ _)
write_fields_lem (amount n ∷ fs) out = ground (
  arith,
  write_fields_lem fs (out ++ encode_u64 (n % u64_mod)),
  append_assoc out (encode_u64 (n % u64_mod)) (all_bytes fs),
)
write_fields_lem (bytes s ∷ fs) out = ground (
  arith,
  write_fields_lem fs (out ++ (write_head cbe_tag_bytes (length s) [] ++ s)),
  append_assoc out (write_head cbe_tag_bytes (length s) [] ++ s) (all_bytes fs),
)

action-write_fields :
    (a : Action) (out : List ℕ) → encode_action_fields a out ≡ write_fields (fields a) out
unfolding encode_action_fields write_fields
action-write_fields (transfer x0 x1 x2 x3) out = ground arith
action-write_fields (mint x0 x1 x2) out = ground arith
action-write_fields (burn x0 x1 x2) out = ground arith
action-write_fields (freeze_resource x0) out = ground arith
action-write_fields (replace_key x0 x1) out = ground arith
action-write_fields (reward x0 x1 x2) out = ground arith
action-write_fields (distribute_others x0 x1 x2) out = ground arith
action-write_fields (proportional_dilute x0 x1 x2) out = ground arith
action-write_fields (dispute_withdraw x0) out = ground arith
action-write_fields (rollback x0) out = ground arith
action-write_fields (register_identity x0 x1) out = ground arith
action-write_fields (deposit x0 x1 x2 x3) out = ground arith
action-write_fields (withdraw x0 x1 x2 x3) out = ground arith
action-write_fields revoke_local_policy out = ground arith
action-write_fields (fault_proof_challenge x0 x1 x2 x3) out = ground arith
action-write_fields (fault_proof_resolution x0 x1 x2 x3) out = ground arith

-- `encode_action` writes the tag and the fields in declaration order, each in its own encoding, or
-- refuses the first amount of 2 ^ 64 or more, or byte string of that length.
pub encode_action-encoded : (a : Action) → encode_action a ≡ encoded (id (tag a) ∷ fields a)
unfolding encode_action field_bytes
encode_action-encoded a =
    action-write_fields a (encode_u64 (tag a)) ∙ write_fields_lem (fields a) (encode_u64 (tag a))
