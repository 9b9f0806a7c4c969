-- ===== src/Indexer/Cursor.antt =====
-- runtime/canon-indexer/src/decoder.rs: the forward-only `Cursor` over a payload and its readers.
-- A reader is a function of the cursor; its value comes back with the cursor that it leaves, and
-- on an error, as in the source, nothing reads the cursor again.
pub mod Reads
pub mod Fields
pub mod Takes
use canon.Prelude.{
  ℕ, zero, suc, ◌+◌, ◌-◌, ◌*◌, ◌^◌, List, [], ◌∷◌, length, take, drop, ltb, ◌==◌, if◌then◌else◌,
}
use mathlib.Core.Bool.{Bool, true, false, not}
use canon.Prelude.Result.{Result, ok, err}
use canon.Bytes.{from_le_bytes, u64_mod}
use canon.Indexer.Event.{EthAddress}

abbrev pub cbe_tag_uint : ℕ
cbe_tag_uint = 0x00

abbrev pub cbe_tag_bytes : ℕ
cbe_tag_bytes = 0x02

abbrev pub head_len : ℕ
head_len = 9

abbrev pub eth_address_bytes : ℕ
eth_address_bytes = 20

abbrev pub hard_max_byte_string_len : ℕ
hard_max_byte_string_len = 1024 * 1024

pub data DecodeError : Type 0 where
  truncated : (offset expected available : ℕ) → DecodeError
  bad_head_tag : (offset expected actual : ℕ) → DecodeError
  byte_string_too_long : (offset len cap : ℕ) → DecodeError
  unknown_tag : (tag : ℕ) → DecodeError
  trailing_bytes : (trailing : ℕ) → DecodeError
  bad_byte_string_length : (offset expected actual : ℕ) → DecodeError

pub record Cursor : Type 0 where
  pub bytes : List ℕ
  pub offset : ℕ

abbrev pub Reader : Type 0 → Type 0
Reader A = Cursor → Result DecodeError (A × Cursor)

abbrev proceed :
    {A B : Type 0}
    → Result DecodeError (A × Cursor)
    → (A → Reader B)
    → Result DecodeError (B × Cursor)
proceed (ok (a, c)) f = f a c
proceed (err e) f = err e

infixl 5 ◌>>=◌ ◌>>◌
unfoldable pub ◌>>=◌ : {A B : Type 0} → Reader A → (A → Reader B) → Reader B
◌>>=◌ m f c = proceed (m c) f

abbrev pub ◌>>◌ : {B : Type 0} → Reader (Unit {0}) → Reader B → Reader B
m >> k = m >>= λ _. k

unfoldable pub pure : {A : Type 0} → A → Reader A
pure a c = ok (a, c)

unfoldable pub fail : {A : Type 0} → DecodeError → Reader A
fail e c = err e

unfoldable pub offset_now : Reader ℕ
offset_now c = ok (c.offset, c)

-- `if !test { return Err(e) }`.
unfoldable pub check_that : Bool → DecodeError → Reader (Unit {0})
check_that true e c = ok (tt, c)
check_that false e c = err e

unfoldable pub new : List ℕ → Cursor
new bytes = record { bytes = bytes; offset = 0 }

-- `saturating_sub` is the truncated difference.
unfoldable pub remaining : Cursor → ℕ
remaining c = length c.bytes - c.offset

-- The second test is `checked_add` on a 64-bit `usize`.
unfoldable pub read_bytes : ℕ → Reader (List ℕ)
unfolding remaining
read_bytes n c =
    let available = remaining c in
    if ltb available n
    then err (truncated c.offset n available)
    else if ltb (c.offset + n) u64_mod
    then ok (take n (drop c.offset c.bytes), record c { offset = c.offset + n })
    else err (truncated c.offset n available)

-- `buf[0]` and `buf[1..9]`; the default is never taken, `read_bytes` gave nine bytes.
abbrev pub split_head : List ℕ → ℕ × ℕ
split_head [] = (0, 0)
split_head (b ∷ bs) = (b, from_le_bytes bs)

unfoldable pub read_head_raw : Reader (ℕ × ℕ)
read_head_raw = do buf ← read_bytes head_len; pure (split_head buf)

unfoldable pub read_uint : Reader ℕ
read_uint = do
  head_offset ← offset_now
  (tag, n) ← read_head_raw
  check_that (tag == cbe_tag_uint) (bad_head_tag head_offset cbe_tag_uint tag)
  pure n

-- `u128::from` keeps the value.
unfoldable pub read_amount : Reader ℕ
read_amount = read_uint

-- `usize::try_from` of a length that passed the cap cannot fail on a 64-bit host.
unfoldable pub read_byte_string : Reader (List ℕ)
read_byte_string = do
  head_offset ← offset_now
  (tag, len) ← read_head_raw
  check_that (tag == cbe_tag_bytes) (bad_head_tag head_offset cbe_tag_bytes tag)
  check_that (not (ltb hard_max_byte_string_len len))
      (byte_string_too_long head_offset len hard_max_byte_string_len)
  read_bytes len

unfoldable pub read_byte_string_exact : ℕ → Reader (List ℕ)
read_byte_string_exact expected = do
  head_offset ← offset_now
  (tag, len) ← read_head_raw
  check_that (tag == cbe_tag_bytes) (bad_head_tag head_offset cbe_tag_bytes tag)
  check_that (len == expected) (bad_byte_string_length head_offset expected len)
  read_bytes expected

unfoldable pub read_eth_address : Reader EthAddress
read_eth_address = read_byte_string_exact eth_address_bytes
