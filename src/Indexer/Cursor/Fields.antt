-- ===== src/Indexer/Cursor/Fields.antt =====
-- The rules of `Reads` for the readers of the field types.
use canon.Prelude.{ℕ, ◌%◌, ◌≤◌, ◌≡◌, refl, ap, arith, List, ◌++◌, append_assoc, length, le→ltb}
use canon.Bytes.{IsU64, u64_mod}
use canon.Bytes.Laws.{from_le_bytes-to_le_bytes}
use canon.Indexer.Cursor.{
  pure, split_head, read_bytes, read_head_raw, read_uint, read_amount, read_byte_string,
  read_byte_string_exact, read_eth_address, cbe_tag_uint, cbe_tag_bytes, hard_max_byte_string_len,
}
use canon.Indexer.Cursor.Reads.{
  Reads, Reads-pure, Reads-bind, Reads-check_that, Reads-offset_now, Reads-read_exactly,
}
use canon.Indexer.Encoder.Layout.{head_bytes, uint_bytes, string_bytes, length-head_bytes}

split_head-head_bytes : (t n : ℕ) → IsU64 n → split_head (head_bytes t n) ≡ (t, n)
unfolding head_bytes
split_head-head_bytes t n h = ap (λ (k : ℕ). (t, k)) (from_le_bytes-to_le_bytes 8 n h)

pub Reads-read_head_raw :
    (t n : ℕ) (r : List ℕ) → IsU64 n → Reads read_head_raw (head_bytes t n ++ r) (t, n) r
unfolding read_head_raw
Reads-read_head_raw t n r h =
    Reads-bind (read_bytes 9) (λ buf. pure (split_head buf))
      (Reads-read_exactly 9 (head_bytes t n) r (length-head_bytes t n))
      (rw (split_head-head_bytes t n h) (Reads-pure (t, n) r))

pub Reads-read_uint : (n : ℕ) (r : List ℕ) → IsU64 n → Reads read_uint (uint_bytes n ++ r) n r
unfolding read_uint uint_bytes
Reads-read_uint n r h = Reads-offset_now _ λ k.
    Reads-bind _ _ (Reads-read_head_raw cbe_tag_uint n r h)
      (Reads-bind _ _ (Reads-check_that _ _ r refl) (Reads-pure n r))

pub Reads-read_amount :
    (n : ℕ) (r : List ℕ) → IsU64 n → Reads read_amount (uint_bytes (n % u64_mod) ++ r) n r
unfolding read_amount
Reads-read_amount n r h = let e : n % u64_mod ≡ n = omega arith in rw e (Reads-read_uint n r h)

pub Reads-read_byte_string :
    (s r : List ℕ)
    → length s ≤ hard_max_byte_string_len
    → Reads read_byte_string (string_bytes s ++ r) s r
unfolding read_byte_string string_bytes
Reads-read_byte_string s r h =
    let e : length s % u64_mod ≡ length s = omega arith in
    rw (e, append_assoc)
      (Reads-offset_now _ λ k.
        Reads-bind _ _ (Reads-read_head_raw cbe_tag_bytes (length s) (s ++ r) (omega arith)) (
          Reads-bind _ _ (Reads-check_that _ _ (s ++ r) refl) (
            Reads-bind _ _
              (Reads-check_that _ _ (s ++ r) (rw (le→ltb hard_max_byte_string_len (length s) h)))
              (Reads-read_exactly (length s) s r refl))))

pub Reads-read_eth_address :
    (s r : List ℕ) → length s ≡ 20 → Reads read_eth_address (string_bytes s ++ r) s r
unfolding read_eth_address read_byte_string_exact string_bytes
Reads-read_eth_address s r h =
    let e : length s % u64_mod ≡ 20 = omega arith in
    rw (e, append_assoc)
      (Reads-offset_now _ λ k.
        Reads-bind _ _ (Reads-read_head_raw cbe_tag_bytes 20 (s ++ r) (omega arith)) (
          Reads-bind _ _ (Reads-check_that _ _ (s ++ r) refl)
            (Reads-bind _ _ (Reads-check_that _ _ (s ++ r) refl) (Reads-read_exactly 20 s r h))))
