-- ===== src/Indexer/Decoder/Canonical.antt =====
-- The decoder accepts no bytes but those that the encoder writes.
use canon.Prelude.{
  ℕ, ◌-◌, ◌≡◌, refl, sym, ap, ◌∙◌, subst, arith, inl, inr, List, [], ◌∷◌, ◌++◌, append-nil, length,
  length-drop, All, ◌==◌, ==_iff, Bool-cases,
}
use canon.Prelude.Result.{Result, ok, err}
use canon.Bytes.{IsByte}
use canon.Indexer.Event.{Event, IsTyped}
use canon.Indexer.Cursor.{
  DecodeError, trailing_bytes, Cursor, ◌>>=◌, ◌>>◌, pure, check_that, new, remaining, read_uint,
}
use canon.Indexer.Cursor.Reads.{unread}
use canon.Indexer.Cursor.Takes.{>>=-eq-ok, read_uint-Took}
use canon.Indexer.Encoder.{encode_event}
use canon.Indexer.Encoder.Layout.{write_uint-append}
use canon.Indexer.Decoder.{decode_fields, decode_body, decode_event, remaining_now, value_of}
use canon.Indexer.Decoder.RoundTrip.{IsEncodable}
use canon.Indexer.Decoder.Echo.Events.{Echo-decode_fields}

empty-of-length : (xs : List ℕ) → length xs ≡ 0 → xs ≡ []
empty-of-length [] h = refl
empty-of-length (x ∷ xs) h = absurd (omega arith)

value_of-eq-ok :
    (r : Result DecodeError (Event × Cursor)) (e : Event)
    → value_of r ≡ ok e
    → (d : Cursor) × (r ≡ ok (e, d))
value_of-eq-ok (ok (x, d)) e h = (d, cc h)
value_of-eq-ok (err x) e h = cc h

-- What the checks behind the fields establish: no byte is left.
tail_checked :
    (event : Event) (c : Cursor) (e : Event) (d : Cursor)
    → (do
      trailing ← remaining_now
      check_that (trailing == 0) (trailing_bytes trailing)
      pure event)
        c
      ≡ ok (e, d)
    → (event ≡ e) × (unread c ≡ [])
unfolding ◌>>=◌ remaining_now check_that pure remaining
tail_checked event c e d h = elim (Bool-cases (length c.bytes - c.offset == 0)) [
  | inl none_left ↦ (
    cc (rw none_left at h),
    empty-of-length (unread c)
        (length-drop c.offset c.bytes ∙ (==_iff (length c.bytes - c.offset) 0).0 none_left),
  )
  | inr left ↦ cc (rw left at h)
]

-- Whatever payload of bytes the decoder accepts is, byte for byte, what the encoder writes for the
-- decoded event; and that event is well typed, with amounts below 2 ^ 64 and byte strings within
-- the cap.
pub decode_event-canonical :
    (payload : List ℕ) (e : Event)
    → All IsByte payload
    → decode_event payload ≡ ok e
    → (encode_event e ≡ payload) × IsTyped e × IsEncodable e
unfolding decode_event decode_body new
decode_event-canonical payload e bytes h =
    let (d, whole) = value_of-eq-ok (decode_body (new payload)) e h in
    let (t, c, got_tag, after_tag) = >>=-eq-ok read_uint _ (new payload) {b = e} {d = d} whole in
    let (event, c', got_fields, after_fields) =
      >>=-eq-ok (decode_fields t) _ c {b = e} {d = d} after_tag in
    let (is_e, nothing) = tail_checked event c' e d after_fields in
    let (took, small) = read_uint-Took (new payload) c t bytes got_tag in
    let r =
      (Echo-decode_fields t).at c c' event (subst (All IsByte) (sym took.same) bytes) got_fields in
    subst (λ x. (encode_event x ≡ payload) × IsTyped x × IsEncodable x) is_e
      (
        sym (append-nil (encode_event event))
            ∙ ap (λ (w : List ℕ). encode_event event ++ w) (sym nothing)
            ∙ r.bytes_of
            ∙ ap (λ (w : List ℕ). w ++ unread c) (write_uint-append t [])
            ∙ sym took.taken,
        r.typed,
        r.encodable,
      )

-- So two payloads that decode to the same event are the same bytes.
pub decode_event-injective :
    (p q : List ℕ) (e : Event)
    → All IsByte p
    → All IsByte q
    → decode_event p ≡ ok e
    → decode_event q ≡ ok e
    → p ≡ q
decode_event-injective p q e hp hq dp dq =
    sym (decode_event-canonical p e hp dp).0 ∙ (decode_event-canonical q e hq dq).0
