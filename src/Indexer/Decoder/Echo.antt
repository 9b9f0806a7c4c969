-- ===== src/Indexer/Decoder/Echo.antt =====
-- What a reader that ends in an event took, as the bytes of that event: the rules for each step.
pub mod Events
use canon.Prelude.{
  ℕ, ◌%◌, ◌-◌, ◌≤◌, ◌≡◌, refl, sym, ap, ◌∙◌, subst, arith, inl, inr, List, [], ◌∷◌, ◌++◌,
  append-nil, append_assoc, length, length-drop, All, ◌==◌, ==_iff, if◌then◌else◌, Bool-cases,
}
use canon.Prelude.Result.{Result, ok, err}
use canon.Bytes.{IsByte, IsU64, IsU128, u64_mod}
use canon.Indexer.Event.{
  Event, tag, IsTyped, balance_changed, nonce_advanced, identity_registered, identity_revoked,
  time_recorded, dispute_filed, dispute_withdrawn, verdict_applied, reward_issued,
  withdrawal_requested, deposit_credited, local_policy_declared, local_policy_revoked,
  fault_proof_game_opened, fault_proof_bisection_step, fault_proof_game_settled,
}
use canon.Indexer.Cursor.{
  DecodeError, unknown_tag, trailing_bytes, Cursor, Reader, ◌>>=◌, ◌>>◌, pure, fail, check_that,
  new, remaining, read_uint, read_amount, read_byte_string, read_eth_address,
  hard_max_byte_string_len,
}
use canon.Indexer.Cursor.Reads.{unread}
use canon.Indexer.Cursor.Takes.{
  Took, >>=-eq-ok, read_uint-Took, read_byte_string-Took, read_eth_address-Took,
}
use canon.Indexer.Encoder.{
  write_uint, write_amount, write_byte_string, write_eth_address, encode_fields, encode_event,
}
use canon.Indexer.Encoder.Layout.{
  uint_bytes, string_bytes, write_uint-append, write_amount-append, write_byte_string-append,
  write_eth_address-append,
}
use canon.Indexer.Decoder.{decode_fields, decode_body, decode_event, remaining_now, value_of}
use canon.Indexer.Decoder.RoundTrip.{IsEncodable}

-- An event read by `m` with the buffer `s` already accounted for: the encoder's bytes are `s` and
-- what `m` took, and the event is one that the encoder can write.
pub record Echoed (s : List ℕ) (c d : Cursor) (e : Event) : Type 0 where
  pub bytes_of : encode_event e ++ unread d ≡ s ++ unread c
  pub same : d.bytes ≡ c.bytes
  pub typed : IsTyped e
  pub encodable : IsEncodable e

pub record Echo (s : List ℕ) (m : Reader Event) : Type 0 where
  pub at : (c d : Cursor) (e : Event) → All IsByte c.bytes → m c ≡ ok (e, d) → Echoed s c d e

pub Echo-pure :
    (s : List ℕ) (e : Event) → encode_event e ≡ s → IsTyped e → IsEncodable e → Echo s (pure e)
unfolding pure
Echo-pure s e written typed fits = record {
  at = λ c d x bytes h.
      let v : e ≡ x = cc h in
      let stay : c ≡ d = cc h in
      subst (λ y. Echoed s c d y) v
        (subst (λ k. Echoed s c k e) stay
          (record {
            bytes_of = ap (λ (t : List ℕ). t ++ unread c) written;
            same = refl;
            typed = typed;
            encodable = fits;
          }));
}

-- One reader whose value stands for the bytes `w` that follow `s` in the buffer.
pub Echo-step :
    (s w s' : List ℕ) (m : Reader Event) (c c' d : Cursor) (e : Event)
    → All IsByte c.bytes
    → Took c c' w
    → s' ≡ s ++ w
    → Echo s' m
    → m c' ≡ ok (e, d)
    → Echoed s c d e
Echo-step s w s' m c c' d e bytes took grown echo h =
    let r = echo.at c' d e (subst (All IsByte) (sym took.same) bytes) h in
    record {
      bytes_of =
          r.bytes_of
          ∙ ap (λ (t : List ℕ). t ++ unread c') grown
          ∙ append_assoc s w (unread c')
          ∙ ap (λ (t : List ℕ). s ++ t) (sym took.taken);
      same = r.same ∙ took.same;
      typed = r.typed;
      encodable = r.encodable;
    }

pub Echo-uint :
    (s : List ℕ) (f : ℕ → Reader Event)
    → ((n : ℕ) → IsU64 n → Echo (write_uint n s) (f n))
    → Echo s (read_uint >>= f)
Echo-uint s f step = record {
  at = λ c d e bytes h.
      let (n, c', got, last) = >>=-eq-ok read_uint f c h in
      let (took, small) = read_uint-Took c c' n bytes got in
      Echo-step s (uint_bytes n) (write_uint n s) (f n) c c' d e bytes took (write_uint-append n s)
        (step n small) last;
}

pub Echo-amount :
    (s : List ℕ) (f : ℕ → Reader Event)
    → ((n : ℕ) → IsU64 n → Echo (write_amount n s) (f n))
    → Echo s (read_amount >>= f)
unfolding read_amount
Echo-amount s f step = record {
  at = λ c d e bytes h.
      let (n, c', got, last) = >>=-eq-ok read_uint f c h in
      let (took, small) = read_uint-Took c c' n bytes got in
      let whole : n % u64_mod ≡ n = omega arith in
      Echo-step s (uint_bytes n) (write_amount n s) (f n) c c' d e bytes took
        (write_amount-append n s ∙ ap (λ (k : ℕ). s ++ uint_bytes k) whole) (step n small) last;
}

pub Echo-string :
    (s : List ℕ) (f : List ℕ → Reader Event)
    → ((p : List ℕ)
        → length p ≤ hard_max_byte_string_len
        → All IsByte p
        → Echo (write_byte_string p s) (f p))
    → Echo s (read_byte_string >>= f)
Echo-string s f step = record {
  at = λ c d e bytes h.
      let (p, c', got, last) = >>=-eq-ok read_byte_string f c h in
      let (took, len, isb) = read_byte_string-Took c c' p bytes got in
      Echo-step s (string_bytes p) (write_byte_string p s) (f p) c c' d e bytes took
        (write_byte_string-append p s) (step p len isb) last;
}

pub Echo-address :
    (s : List ℕ) (f : List ℕ → Reader Event)
    → ((p : List ℕ) → length p ≡ 20 → All IsByte p → Echo (write_eth_address p s) (f p))
    → Echo s (read_eth_address >>= f)
Echo-address s f step = record {
  at = λ c d e bytes h.
      let (p, c', got, last) = >>=-eq-ok read_eth_address f c h in
      let (took, len, isb) = read_eth_address-Took c c' p bytes got in
      Echo-step s (string_bytes p) (write_eth_address p s) (f p) c c' d e bytes took
        (write_eth_address-append p s) (step p len isb) last;
}

pub Echo-fail : (s : List ℕ) (x : DecodeError) → Echo s (fail x)
unfolding fail
Echo-fail s x = record { at = λ c d e bytes h. cc h }

pub Echo-case :
    (t k : ℕ) (m n : Reader Event)
    → Echo (write_uint k []) m
    → Echo (write_uint t []) n
    → Echo (write_uint t []) (if t == k then m else n)
Echo-case t k m n hm hn = elim (Bool-cases (t == k)) [
  | inl e ↦ rw e (subst (λ j. Echo (write_uint j []) m) (sym ((==_iff t k).0 e)) hm)
  | inr e ↦ rw e hn
]
