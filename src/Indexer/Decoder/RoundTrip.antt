-- ===== src/Indexer/Decoder/RoundTrip.antt =====
-- What the encoder writes, the decoder reads back.
use canon.Prelude.Result.{Result, ok, err}
use canon.Prelude.{
  ◌+◌, ◌∙◌, ◌^◌, append-nil, length-append, if◌then◌else◌, ◌==◌, ap, length-drop, append_assoc, ℕ,
  ◌%◌, ◌<◌, ◌≤◌, ◌≡◌, arith, List, [], ◌∷◌, ◌++◌, All, length,
}
use canon.Bytes.{IsU64, u64_mod}
use canon.Indexer.Event.{
  Event, tag, event_tag_count, IsTyped, amounts, strings, balance_changed, nonce_advanced,
  identity_registered, identity_revoked, time_recorded, dispute_filed, dispute_withdrawn,
  verdict_applied, reward_issued, withdrawal_requested, deposit_credited, local_policy_declared,
  local_policy_revoked, fault_proof_game_opened, fault_proof_bisection_step,
  fault_proof_game_settled,
}
use canon.Indexer.Cursor.{
  Cursor, DecodeError, trailing_bytes, check_that, pure, remaining, new, Reader, ◌>>=◌, read_uint,
  read_amount, read_byte_string, read_eth_address, hard_max_byte_string_len,
}
use canon.Indexer.Cursor.Reads.{Reads, Reading, unread, Reads-pure, Reads-bind}
use canon.Indexer.Cursor.Fields.{
  Reads-read_uint, Reads-read_amount, Reads-read_byte_string, Reads-read_eth_address,
}
use canon.Indexer.Encoder.{encode_fields, encode_event}
use canon.Indexer.Encoder.Layout.{
  write_laws, length-uint_bytes, length-string_bytes, encode_event-eq, uint_bytes, string_bytes,
}
use canon.Indexer.Decoder.{decode_fields, decode_body, decode_event, remaining_now}

-- The amounts fit the 64 bits of the wire, and the byte strings the decoder's cap.
abbrev pub IsEncodable : Event → Type 0
IsEncodable e = All IsU64 (amounts e) × All (λ s. length s ≤ hard_max_byte_string_len) (strings e)

Reads-uint :
    (f : ℕ → Reader Event) (n : ℕ) (r : List ℕ) (e : Event) (w : List ℕ)
    → IsU64 n
    → Reads (f n) r e w
    → Reads (read_uint >>= f) (uint_bytes n ++ r) e w
Reads-uint f n r e w h = Reads-bind read_uint f (Reads-read_uint n r h)

Reads-amount :
    (f : ℕ → Reader Event) (n : ℕ) (r : List ℕ) (e : Event) (w : List ℕ)
    → IsU64 n
    → Reads (f n) r e w
    → Reads (read_amount >>= f) (uint_bytes (n % u64_mod) ++ r) e w
Reads-amount f n r e w h = Reads-bind read_amount f (Reads-read_amount n r h)

Reads-string :
    (f : List ℕ → Reader Event) (s : List ℕ) (r : List ℕ) (e : Event) (w : List ℕ)
    → length s ≤ hard_max_byte_string_len
    → Reads (f s) r e w
    → Reads (read_byte_string >>= f) (string_bytes s ++ r) e w
Reads-string f s r e w h = Reads-bind read_byte_string f (Reads-read_byte_string s r h)

Reads-address :
    (f : List ℕ → Reader Event) (s : List ℕ) (r : List ℕ) (e : Event) (w : List ℕ)
    → length s ≡ 20
    → Reads (f s) r e w
    → Reads (read_eth_address >>= f) (string_bytes s ++ r) e w
Reads-address f s r e w h = Reads-bind read_eth_address f (Reads-read_eth_address s r h)

length_append : (xs ys : List ℕ) → length (xs ++ ys) ≡ length xs + length ys
length_append = length-append

ruleset field_lengths = (arith, length_append, length-uint_bytes, length-string_bytes)

ruleset field_rules = (Reads-uint, Reads-amount, Reads-string, Reads-address, Reads-pure)

Reads-decode_fields :
    (e : Event) (r : List ℕ)
    → IsTyped e
    → IsEncodable e
    → Reads (decode_fields (tag e)) (encode_fields e [] ++ r) e r
unfolding decode_fields encode_fields tag
Reads-decode_fields (balance_changed x0 x1 x2 x3) rest (h0, h1, h2, h3) ((a0, (a1, _)), _) =
    simp write_laws (search field_rules depth 12)
Reads-decode_fields (nonce_advanced x0 x1 x2) rest (h0, h1, h2) ((a0, (a1, _)), _) =
    simp write_laws (search field_rules depth 12)
Reads-decode_fields (identity_registered x0 x1) rest (h0, h1) (_, (s0, _)) =
    simp write_laws (search field_rules depth 12)
Reads-decode_fields (identity_revoked x0) rest h0 (_, _) =
    simp write_laws (search field_rules depth 12)
Reads-decode_fields (time_recorded x0) rest h0 (_, _) =
    simp write_laws (search field_rules depth 12)
Reads-decode_fields (dispute_filed x0 x1) rest (h0, h1) (_, _) =
    simp write_laws (search field_rules depth 12)
Reads-decode_fields (dispute_withdrawn x0) rest h0 (_, _) =
    simp write_laws (search field_rules depth 12)
Reads-decode_fields (verdict_applied x0 x1) rest (h0, h1) (_, _) =
    simp write_laws (search field_rules depth 12)
Reads-decode_fields (reward_issued x0 x1 x2) rest (h0, h1, h2) ((a0, _), _) =
    simp write_laws (search field_rules depth 12)
Reads-decode_fields (withdrawal_requested x0 x1 x2 x3 x4) rest (h0, h1, h2, (_, h3), h4)
      ((a0, _), _) =
    simp write_laws (search field_rules depth 12)
Reads-decode_fields (deposit_credited x0 x1 x2 x3) rest (h0, h1, h2, h3) ((a0, _), _) =
    simp write_laws (search field_rules depth 12)
Reads-decode_fields (local_policy_declared x0 x1) rest (h0, h1) (_, (s0, _)) =
    simp write_laws (search field_rules depth 12)
Reads-decode_fields (local_policy_revoked x0) rest h0 (_, _) =
    simp write_laws (search field_rules depth 12)
Reads-decode_fields (fault_proof_game_opened x0 x1 x2 x3 x4) rest (h0, h1, h2, h3, h4)
      (_, (s0, _)) =
    simp write_laws (search field_rules depth 12)
Reads-decode_fields (fault_proof_bisection_step x0 x1 x2 x3 x4) rest (h0, h1, h2, h3, h4)
      (_, (s0, _)) =
    simp write_laws (search field_rules depth 12)
Reads-decode_fields (fault_proof_game_settled x0 x1 x2 x3) rest (h0, h1, h2, h3) ((a0, _), _) =
    simp write_laws (search field_rules depth 12)

tag-lt : (e : Event) → tag e < event_tag_count
unfolding tag
tag-lt (balance_changed x0 x1 x2 x3) = omega arith
tag-lt (nonce_advanced x0 x1 x2) = omega arith
tag-lt (identity_registered x0 x1) = omega arith
tag-lt (identity_revoked x0) = omega arith
tag-lt (time_recorded x0) = omega arith
tag-lt (dispute_filed x0 x1) = omega arith
tag-lt (dispute_withdrawn x0) = omega arith
tag-lt (verdict_applied x0 x1) = omega arith
tag-lt (reward_issued x0 x1 x2) = omega arith
tag-lt (withdrawal_requested x0 x1 x2 x3 x4) = omega arith
tag-lt (deposit_credited x0 x1 x2 x3) = omega arith
tag-lt (local_policy_declared x0 x1) = omega arith
tag-lt (local_policy_revoked x0) = omega arith
tag-lt (fault_proof_game_opened x0 x1 x2 x3 x4) = omega arith
tag-lt (fault_proof_bisection_step x0 x1 x2 x3 x4) = omega arith
tag-lt (fault_proof_game_settled x0 x1 x2 x3) = omega arith

remaining-unread : (c : Cursor) (w : List ℕ) → unread c ≡ w → remaining c ≡ length w
unfolding remaining
remaining-unread c w e = omega (arith, length-drop c.offset c.bytes, ap length e)

verdict_on : Event → List ℕ → Result DecodeError Event
verdict_on e extra = if length extra == 0 then ok e else err (trailing_bytes (length extra))

module _ (e : Event) (extra : List ℕ) (typed : IsTyped e) (fits : IsEncodable e) where
  after_tag : List ℕ
  after_tag = encode_fields e [] ++ extra

  -- The two readings that `decode_event` makes, from the start of the payload.
  tag_reading :
      length (encode_event e ++ extra) < u64_mod
      → Reading read_uint (tag e) (new (encode_event e ++ extra)) after_tag
  unfolding after_tag new
  tag_reading short =
      (Reads-read_uint (tag e) (encode_fields e [] ++ extra) (omega (arith, tag-lt e))).at
        (new (encode_event e ++ extra)) (record { in_memory = short; inside = omega arith })
        (rw (encode_event-eq, append_assoc))

  fields_reading :
      (short : length (encode_event e ++ extra) < u64_mod)
      → Reading (decode_fields (tag e)) e (tag_reading short).left extra
  unfolding after_tag
  fields_reading short =
      let p = tag_reading short in
      (Reads-decode_fields e extra typed fits).at p.left p.fits p.leaves

  decode_event-verdict :
      length (encode_event e ++ extra) < u64_mod
      → decode_event (encode_event e ++ extra) ≡ verdict_on e extra
  unfolding decode_event decode_body ◌>>=◌ remaining_now check_that pure verdict_on
  decode_event-verdict short =
      let p = tag_reading short in
      let q = fields_reading short in
      rw p.read (rw q.read (rw (remaining-unread q.left extra q.leaves) (ground arith)))

short_fields : (e : Event) → IsTyped e → IsEncodable e → length (encode_fields e []) ≤ 2 ^ 20 + 128
unfolding encode_fields
short_fields (balance_changed x0 x1 x2 x3) (h0, h1, h2, h3) ((a0, (a1, _)), _) =
    simp (write_laws, length_append) (omega field_lengths)
short_fields (nonce_advanced x0 x1 x2) (h0, h1, h2) ((a0, (a1, _)), _) =
    simp (write_laws, length_append) (omega field_lengths)
short_fields (identity_registered x0 x1) (h0, h1) (_, (s0, _)) =
    simp (write_laws, length_append) (omega field_lengths)
short_fields (identity_revoked x0) h0 (_, _) =
    simp (write_laws, length_append) (omega field_lengths)
short_fields (time_recorded x0) h0 (_, _) = simp (write_laws, length_append) (omega field_lengths)
short_fields (dispute_filed x0 x1) (h0, h1) (_, _) =
    simp (write_laws, length_append) (omega field_lengths)
short_fields (dispute_withdrawn x0) h0 (_, _) =
    simp (write_laws, length_append) (omega field_lengths)
short_fields (verdict_applied x0 x1) (h0, h1) (_, _) =
    simp (write_laws, length_append) (omega field_lengths)
short_fields (reward_issued x0 x1 x2) (h0, h1, h2) ((a0, _), _) =
    simp (write_laws, length_append) (omega field_lengths)
short_fields (withdrawal_requested x0 x1 x2 x3 x4) (h0, h1, h2, (_, h3), h4) ((a0, _), _) =
    simp (write_laws, length_append) (omega field_lengths)
short_fields (deposit_credited x0 x1 x2 x3) (h0, h1, h2, h3) ((a0, _), _) =
    simp (write_laws, length_append) (omega field_lengths)
short_fields (local_policy_declared x0 x1) (h0, h1) (_, (s0, _)) =
    simp (write_laws, length_append) (omega field_lengths)
short_fields (local_policy_revoked x0) h0 (_, _) =
    simp (write_laws, length_append) (omega field_lengths)
short_fields (fault_proof_game_opened x0 x1 x2 x3 x4) (h0, h1, h2, h3, h4) (_, (s0, _)) =
    simp (write_laws, length_append) (omega field_lengths)
short_fields (fault_proof_bisection_step x0 x1 x2 x3 x4) (h0, h1, h2, h3, h4) (_, (s0, _)) =
    simp (write_laws, length_append) (omega field_lengths)
short_fields (fault_proof_game_settled x0 x1 x2 x3) (h0, h1, h2, h3) ((a0, _), _) =
    simp (write_laws, length_append) (omega field_lengths)

pub short_event : (e : Event) → IsTyped e → IsEncodable e → length (encode_event e) < u64_mod
short_event e typed fits = rw encode_event-eq (
    omega (
      arith,
      length-append (uint_bytes (tag e)) (encode_fields e []),
      length-uint_bytes (tag e),
      short_fields e typed fits,
    ))

-- Every well-typed event whose amounts are below 2 ^ 64 and whose byte strings are within the
-- decoder's cap is decoded back from its encoding.
pub decode_event-encode_event :
    (e : Event) → IsTyped e → IsEncodable e → decode_event (encode_event e) ≡ ok e
unfolding verdict_on
decode_event-encode_event e typed fits = rw (append-nil (encode_event e)) at (
    decode_event-verdict e [] typed fits
      (rw (append-nil (encode_event e)) (short_event e typed fits)))

-- With bytes behind a complete encoding, the decoder answers how many bytes trail, as long as the
-- payload fits the address space.
pub decode_event-trailing :
    (e : Event) (b : ℕ) (extra : List ℕ)
    → IsTyped e
    → IsEncodable e
    → length (encode_event e ++ (b ∷ extra)) < u64_mod
    → decode_event (encode_event e ++ (b ∷ extra)) ≡ err (trailing_bytes (length extra + 1))
unfolding verdict_on
decode_event-trailing e b extra typed fits short =
    decode_event-verdict e (b ∷ extra) typed fits short ∙ ground arith
