-- ===== src/L1/Events/Abi/Slots.antt =====
-- The slots and the dynamic field that the encoding writes, read back.
use canon.Prelude.{
  ℕ, zero, suc, ◌+◌, ◌-◌, ◌<◌, ◌≤◌, ◌^◌, ◌≡◌, refl, ap, ◌∙◌, subst, arith, Bool, false,
  if◌then◌else◌, List, [], ◌++◌, append_assoc, length, take, drop, length-append, take-append,
  drop-append, ltb, lt→ltb, le→ltb, All, All-append,
}
use canon.Prelude.Result.{Result, ok, err, ◌>>=◌}
use canon.Bytes.{IsByte, IsU64, u64_mod, to_be_bytes, from_be_bytes}
use canon.Bytes.Laws.{
  length-to_be_bytes, from_be_bytes-to_be_bytes, to_be_bytes-from_be_bytes, to_be_bytes-IsByte,
}
use canon.L1.Action.{EthAddress}
use canon.L1.Events.Decode.{
  DecodeError, unexpected_end, length_overflow, offset_out_of_range, within, small_slot,
  checked_add, usize_max, decode_abi_u64, decode_abi_address, read_slot, slice_or_end,
  decode_abi_bytes, SlotLocation, topic_1,
}
use canon.L1.Events.Abi.{zeros, address_slot, uint64_slot, bytes_field, address_topic, IsAddress}

pub IsZeros : (n : ℕ) → All IsByte (zeros n)
IsZeros zero = tt
IsZeros (suc n) = (omega arith, IsZeros n)

pub decode_abi_address-slot :
    (a : EthAddress) (l : SlotLocation) → decode_abi_address (address_slot a) l ≡ ok a
unfolding decode_abi_address
decode_abi_address-slot a l = refl

pub decode_abi_u64-slot : (n offset : ℕ) → IsU64 n → decode_abi_u64 (uint64_slot n) offset ≡ ok n
unfolding decode_abi_u64
decode_abi_u64-slot n offset h = ap ok (from_be_bytes-to_be_bytes 8 n (omega (arith, h)))

pub address_topic-slot :
    (a : EthAddress) → IsAddress a → to_be_bytes 32 (address_topic a) ≡ address_slot a
address_topic-slot a (size, small) =
    to_be_bytes-from_be_bytes 32 (address_slot a) (omega (arith, size))
      (All-append IsByte (zeros 12) a (IsZeros 12) small)

pub topic_address :
    (a : EthAddress)
    → IsAddress a
    → decode_abi_address (to_be_bytes 32 (address_topic a)) topic_1 ≡ ok a
topic_address a h =
    ap (λ (slot : List ℕ). decode_abi_address slot topic_1) (address_topic-slot a h)
    ∙ decode_abi_address-slot a topic_1

pub length-uint64_slot : (n : ℕ) → length (uint64_slot n) ≡ 32
length-uint64_slot n = omega (arith, length-to_be_bytes 8 n)

pub uint64_topic-slot : (n : ℕ) → to_be_bytes 32 (from_be_bytes (uint64_slot n)) ≡ uint64_slot n
uint64_topic-slot n =
    to_be_bytes-from_be_bytes 32 (uint64_slot n) (length-uint64_slot n)
      (All-append IsByte (zeros 24) (to_be_bytes 8 n) (IsZeros 24) (to_be_bytes-IsByte 8 n))

pub slice_or_end-append :
    (before it behind : List ℕ)
    → slice_or_end (before ++ (it ++ behind)) (length before) (length before + length it) ≡ ok it
unfolding slice_or_end
slice_or_end-append before it behind =
    let all : List ℕ = before ++ (it ++ behind) in
    let stop = length before + length it in
    let fits : ltb (length all) stop ≡ false =
      le→ltb (length all) stop
        (omega (arith, length-append before (it ++ behind), length-append it behind)) in
    let width : stop - length before ≡ length it = omega arith in
    ap
      (λ (b : Bool).
        if b
        then err (unexpected_end (length before) (stop - length all))
        else ok (take (stop - length before) (drop (length before) all)))
      fits
    ∙ ap (λ (n : ℕ). ok (take n (drop (length before) all))) width
    ∙ ap (λ (rest : List ℕ). ok (take (length it) rest)) (drop-append before (it ++ behind))
    ∙ ap ok (take-append it behind)

pub checked_add_lem : (a b : ℕ) (e : DecodeError) → a + b < 2 ^ 64 → checked_add a b e ≡ ok (a + b)
unfolding checked_add
checked_add_lem a b e h =
    ap (λ (t : Bool). if t then ok (a + b) else err e) (lt→ltb (a + b) u64_mod h)

pub within_lem :
    (offset : ℕ) (bytes : List ℕ) → offset ≤ length bytes → within offset bytes ≡ ok offset
unfolding within
within_lem offset bytes h =
    ap (λ (t : Bool). if t then err (offset_out_of_range offset (length bytes)) else ok offset)
      (le→ltb (length bytes) offset h)

pub read_slot-append :
    (before it behind : List ℕ) (offset : ℕ)
    → length before ≡ offset
    → length it ≡ 32
    → offset + 32 < 2 ^ 64
    → read_slot (before ++ (it ++ behind)) offset ≡ ok it
unfolding read_slot
read_slot-append before it behind offset at size small =
    ap (λ (r : Result DecodeError ℕ). r >>= slice_or_end (before ++ (it ++ behind)) offset)
      (checked_add_lem offset 32 (length_overflow 32 offset) small)
    ∙ subst (λ (n : ℕ). slice_or_end (before ++ (it ++ behind)) n (n + 32) ≡ ok it) at
        (subst
          (λ (n : ℕ).
            slice_or_end (before ++ (it ++ behind)) (length before) (length before + n) ≡ ok it)
          size (slice_or_end-append before it behind))

-- One slot at the start of the payload.
pub first_slot : (it behind : List ℕ) → length it ≡ 32 → read_slot (it ++ behind) 0 ≡ ok it
first_slot it behind size = read_slot-append [] it behind 0 refl size (omega arith)

pub length-address_slot : (a : EthAddress) → IsAddress a → length (address_slot a) ≡ 32
length-address_slot a h = omega (arith, h.0)

pub small_slot-slot : (n : ℕ) (e : DecodeError) → IsU64 n → small_slot (uint64_slot n) e ≡ ok n
unfolding small_slot
small_slot-slot n e h = ap ok (from_be_bytes-to_be_bytes 8 n (omega (arith, h)))

pub payload_slice :
    (payload padding : List ℕ)
    → slice_or_end (bytes_field payload padding) 64 (64 + length payload) ≡ ok payload
payload_slice payload padding =
    let header : List ℕ = uint64_slot 32 ++ uint64_slot (length payload) in
    let size : length header ≡ 64 =
      length-append (uint64_slot 32) (uint64_slot (length payload))
      ∙ omega (arith, length-uint64_slot 32, length-uint64_slot (length payload)) in
    subst (λ (bytes : List ℕ). slice_or_end bytes 64 (64 + length payload) ≡ ok payload)
      (append_assoc (uint64_slot 32) (uint64_slot (length payload)) (payload ++ padding))
      (subst
        (λ (n : ℕ).
          slice_or_end (header ++ (payload ++ padding)) n (n + length payload) ≡ ok payload)
        size (slice_or_end-append header payload padding))

pub bytes_field-decoded :
    (payload padding : List ℕ)
    → length payload + 64 < 2 ^ 64
    → decode_abi_bytes (bytes_field payload padding) 0 ≡ ok payload
unfolding decode_abi_bytes
bytes_field-decoded payload padding h =
    let bytes = bytes_field payload padding in
    let len = length payload in
    let long : 32 ≤ length bytes = omega (
      arith,
      length-append (uint64_slot 32) (uint64_slot len ++ (payload ++ padding)),
      length-uint64_slot 32,
    ) in
    let inside = within_lem 32 bytes long in
    let start = checked_add_lem 32 32 (length_overflow len 32) (omega arith) in
    let stop = checked_add_lem 64 len (length_overflow len 64) (omega (arith, h)) in
    let read_header =
      first_slot (uint64_slot 32) (uint64_slot len ++ (payload ++ padding))
        (length-uint64_slot 32) in
    let read_length =
      read_slot-append (uint64_slot 32) (uint64_slot len) (payload ++ padding) 32
        (length-uint64_slot 32) (length-uint64_slot len) (omega arith) in
    let offset = small_slot-slot 32 (offset_out_of_range usize_max (length bytes)) (omega arith) in
    let size = small_slot-slot len (length_overflow usize_max 32) (omega (arith, h)) in
    rw read_header (
      rw offset
        (rw inside (rw read_length (rw size (rw start (rw stop (payload_slice payload padding)))))))
