-- ===== src/Indexer/Decoder/Errors.antt =====
-- What the decoder refuses.
use canon.Prelude.{
  ℕ, ◌%◌, ◌+◌, ◌≤◌, ◌<◌, ◌≡◌, ◌≢◌, refl, sym, ap, ◌∙◌, subst, arith, List, ◌∷◌, ◌++◌, length,
  length-append, length-drop, All, lt→ltb,
}
use canon.Prelude.Result.{ok, err}
use canon.Bytes.{IsByte, IsU64, u64_mod}
use canon.Indexer.Event.{Event, IsTyped, identity_registered, tag, event_tag_count}
use canon.Indexer.Cursor.{
  unknown_tag, byte_string_too_long, ◌>>=◌, fail, Cursor, check_that, new, offset_now,
  read_byte_string, cbe_tag_bytes, hard_max_byte_string_len,
}
use canon.Indexer.Cursor.Reads.{Fits, unread}
use canon.Indexer.Cursor.Fields.{Reads-read_uint, Reads-read_head_raw}
use canon.Indexer.Encoder.{encode_event, encode_fields}
use canon.Indexer.Encoder.Layout.{
  uint_bytes, string_bytes, head_bytes, write_laws, encode_event-eq, length-uint_bytes,
  length-string_bytes,
}
use canon.Indexer.Decoder.{decode_fields, decode_body, decode_event}
use canon.Indexer.Decoder.RoundTrip.{
  IsEncodable, decode_event-encode_event, decode_event-trailing, short_event,
}
use canon.Indexer.Decoder.Canonical.{decode_event-canonical}

-- No proper prefix of an encoded event is accepted.
pub decode_event-prefix :
    (e : Event) (front : List ℕ) (b : ℕ) (back : List ℕ) (x : Event)
    → IsTyped e
    → IsEncodable e
    → All IsByte front
    → encode_event e ≡ front ++ (b ∷ back)
    → decode_event front ≢ ok x
decode_event-prefix e front b back x typed fits bytes split h =
    let (same, x_typed, x_fits) = decode_event-canonical front x bytes h in
    let whole : encode_event e ≡ encode_event x ++ (b ∷ back) =
      split ∙ ap (λ (t : List ℕ). t ++ (b ∷ back)) (sym same) in
    let refused =
      decode_event-trailing x b back x_typed x_fits
        (subst (λ t. length t < u64_mod) whole (short_event e typed fits)) in
    cc (decode_event-encode_event e typed fits, refused, whole)

unknown_ladder : (t : ℕ) → event_tag_count ≤ t → decode_fields t ≡ fail (unknown_tag t)
unfolding decode_fields
unknown_ladder t h = ground arith

-- A constructor tag from 16 on is refused by its value, whatever follows it.
pub decode_event-unknown_tag :
    (t : ℕ) (rest : List ℕ)
    → IsU64 t
    → event_tag_count ≤ t
    → length (uint_bytes t ++ rest) < u64_mod
    → decode_event (uint_bytes t ++ rest) ≡ err (unknown_tag t)
unfolding decode_event decode_body ◌>>=◌ new fail
decode_event-unknown_tag t rest small high short =
    let r =
      (Reads-read_uint t rest small).at (new (uint_bytes t ++ rest))
        (record { in_memory = short; inside = omega arith }) refl in
    rw r.read (rw (unknown_ladder t high))

read_byte_string_long :
    (c : Cursor) (s : List ℕ)
    → Fits c
    → unread c ≡ string_bytes s
    → IsU64 (length s)
    → hard_max_byte_string_len < length s
    → read_byte_string c ≡ err (byte_string_too_long c.offset (length s) hard_max_byte_string_len)
unfolding read_byte_string ◌>>=◌ offset_now check_that string_bytes
read_byte_string_long c s fits e small long =
    let reduced : length s % u64_mod ≡ length s = omega arith in
    let head =
      (Reads-read_head_raw cbe_tag_bytes (length s) s small).at c fits
        (e ∙ ap (λ (k : ℕ). head_bytes cbe_tag_bytes k ++ s) reduced) in
    rw head.read (rw (lt→ltb hard_max_byte_string_len (length s) long))

key_layout :
    (actor : ℕ) (key : List ℕ)
    → encode_event (identity_registered actor key)
      ≡ uint_bytes 2 ++ (uint_bytes actor ++ string_bytes key)
unfolding encode_fields tag
key_layout actor key = encode_event-eq (identity_registered actor key) ∙ simp write_laws

pub length-key_event :
    (actor : ℕ) (key : List ℕ)
    → length (encode_event (identity_registered actor key)) ≡ 27 + length key
length-key_event actor key =
    ap length (key_layout actor key)
    ∙ omega (
      arith,
      length-append (uint_bytes 2) (uint_bytes actor ++ string_bytes key),
      length-append (uint_bytes actor) (string_bytes key),
      length-uint_bytes 2,
      length-uint_bytes actor,
      length-string_bytes key,
    )

-- A key longer than the cap, which the encoder writes without complaint, is refused at the offset
-- of its head.
pub decode_event-long_key :
    (actor : ℕ) (key : List ℕ)
    → IsU64 actor
    → hard_max_byte_string_len < length key
    → length (encode_event (identity_registered actor key)) < u64_mod
    → decode_event (encode_event (identity_registered actor key))
      ≡ err (byte_string_too_long 18 (length key) hard_max_byte_string_len)
unfolding decode_event decode_body decode_fields ◌>>=◌ new
decode_event-long_key actor key small long short =
    let payload = encode_event (identity_registered actor key) in
    let sizes = length-key_event actor key in
    let p =
      (Reads-read_uint 2 (uint_bytes actor ++ string_bytes key) (omega arith)).at (new payload)
        (record { in_memory = short; inside = omega arith }) (key_layout actor key) in
    let q = (Reads-read_uint actor (string_bytes key) small).at p.left p.fits p.leaves in
    let at_18 : q.left.offset ≡ 18 = omega (
      arith,
      q.fits.inside,
      length-drop q.left.offset q.left.bytes,
      ap length q.leaves,
      ap length (q.same ∙ p.same),
      length-string_bytes key,
    ) in
    let refused = read_byte_string_long q.left key q.fits q.leaves (omega arith) long in
    rw p.read (rw q.read (rw refused (rw at_18)))
