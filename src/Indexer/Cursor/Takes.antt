-- ===== src/Indexer/Cursor/Takes.antt =====
-- What a successful reader took: the bytes that the writers produce for its value.
use canon.Prelude.{
  ℕ, ◌+◌, ◌-◌, ◌%◌, ◌≤◌, ◌<◌, ◌≡◌, refl, sym, ap, ◌∙◌, subst, arith, Bool, true, false, List, [],
  ◌∷◌, ◌++◌, append_assoc, length, take, drop-drop, take-append-drop, length-take, length-drop, All,
  All-take, All-drop, ltb, ◌==◌, ==_iff, ◌^◌,
}
use mathlib.Core.Bool.{not}
use canon.Prelude.Result.{Result, ok, err}
use canon.Bytes.{IsByte, IsU64, to_le_bytes, from_le_bytes, u64_mod}
use canon.Bytes.Laws.{to_le_bytes-from_le_bytes, from_le_bytes-lt}
use canon.Indexer.Cursor.{
  DecodeError, bad_head_tag, byte_string_too_long, bad_byte_string_length, Cursor, Reader, proceed,
  ◌>>=◌, ◌>>◌, pure, check_that, offset_now, split_head, read_bytes, read_head_raw, read_uint,
  read_byte_string, read_byte_string_exact, read_eth_address, cbe_tag_uint, cbe_tag_bytes,
  hard_max_byte_string_len,
}
use canon.Indexer.Cursor.Reads.{unread}
use canon.Indexer.Encoder.Layout.{head_bytes, uint_bytes, string_bytes}

pub record Took (c c' : Cursor) (w : List ℕ) : Type 0 where
  pub taken : unread c ≡ w ++ unread c'
  pub same : c'.bytes ≡ c.bytes

pub Took-none : (c : Cursor) → Took c c []
Took-none c = record { taken = refl; same = refl }

pub Took-trans : {c d e : Cursor} (v w : List ℕ) → Took c d v → Took d e w → Took c e (v ++ w)
Took-trans v w p q = record {
  taken = p.taken ∙ ap (λ (t : List ℕ). v ++ t) q.taken ∙ sym (append_assoc v w _);
  same = q.same ∙ p.same;
}

proceed-eq-ok :
    {A B : Type 0} (r : Result DecodeError (A × Cursor)) (f : A → Reader B) {b : B} {d : Cursor}
    → proceed r f ≡ ok (b, d)
    → (a : A) × (c' : Cursor) × (r ≡ ok (a, c')) × (f a c' ≡ ok (b, d))
proceed-eq-ok (ok (a, c')) f h = (a, c', refl, h)
proceed-eq-ok (err e) f h = cc

pub >>=-eq-ok :
    {A B : Type 0} (m : Reader A) (f : A → Reader B) (c : Cursor) {b : B} {d : Cursor}
    → (m >>= f) c ≡ ok (b, d)
    → (a : A) × (c' : Cursor) × (m c ≡ ok (a, c')) × (f a c' ≡ ok (b, d))
unfolding ◌>>=◌
>>=-eq-ok m f c h = proceed-eq-ok (m c) f h

pub check_that-eq-ok :
    (b : Bool) (x : DecodeError) (c : Cursor) {u : Unit {0}} {d : Cursor}
    → check_that b x c ≡ ok (u, d)
    → (b ≡ true) × (d ≡ c)
unfolding check_that
check_that-eq-ok true x c h = ground arith
check_that-eq-ok false x c h = cc

read_bytes-eq-ok :
    (n : ℕ) (c : Cursor) {w : List ℕ} {d : Cursor}
    → read_bytes n c ≡ ok (w, d)
    → (n ≤ length c.bytes - c.offset)
      × (w ≡ take n (unread c))
      × (d ≡ record c { offset = c.offset + n })
unfolding read_bytes
read_bytes-eq-ok n c h = ground arith

pub read_bytes-Took :
    (n : ℕ) (c d : Cursor) (w : List ℕ)
    → All IsByte c.bytes
    → read_bytes n c ≡ ok (w, d)
    → Took c d w × (length w ≡ n) × All IsByte w
read_bytes-Took n c d w bytes h =
    let (room, got, left) = read_bytes-eq-ok n c h in
    rw (got, left)
      (
        record {
          taken =
              sym (take-append-drop n (unread c))
              ∙ ap (λ (t : List ℕ). take n (unread c) ++ t) (sym (drop-drop c.offset n c.bytes));
          same = refl;
        },
        length-take n (unread c) (omega (arith, length-drop c.offset c.bytes)),
        All-take IsByte n (unread c) (All-drop IsByte c.offset c.bytes bytes),
      )

head_bytes-split_head :
    (buf : List ℕ)
    → length buf ≡ 9
    → All IsByte buf
    → (buf ≡ head_bytes (split_head buf).0 (split_head buf).1) × IsU64 (split_head buf).1
unfolding head_bytes
head_bytes-split_head [] e h = absurd (omega arith)
head_bytes-split_head (t ∷ bs) e h =
    let n : length bs ≡ 8 = omega arith in
    (
      ap (λ (r : List ℕ). t ∷ r)
          (sym (
            subst (λ w. to_le_bytes w (from_le_bytes bs) ≡ bs) n
              (to_le_bytes-from_le_bytes bs h.1))),
      subst (λ w. from_le_bytes bs < 256 ^ w) n (from_le_bytes-lt bs h.1),
    )

pub read_head_raw-Took :
    (c d : Cursor) (t n : ℕ)
    → All IsByte c.bytes
    → read_head_raw c ≡ ok ((t, n), d)
    → Took c d (head_bytes t n) × IsU64 n
unfolding read_head_raw pure
read_head_raw-Took c d t n bytes h =
    let (buf, c', got, last) = >>=-eq-ok (read_bytes 9) (λ buf. pure (split_head buf)) c h in
    let (took, nine, isb) = read_bytes-Took 9 c c' buf bytes got in
    let (whole, small) = head_bytes-split_head buf nine isb in
    let same : c' ≡ d = cc last in
    let fst : (split_head buf).0 ≡ t = cc last in
    let snd : (split_head buf).1 ≡ n = cc last in
    (
      subst (λ x. Took c x (head_bytes t n)) same (subst (Took c c') (whole ∙ cc (fst, snd)) took),
      subst IsU64 snd small,
    )

-- The shape that the readers of a field share: a head of the wanted tag, then the rest.
module _ {A : Type 0} (tag_wanted : ℕ) (x : ℕ → ℕ → DecodeError) (rest : ℕ → ℕ → Reader A) where
  abbrev pub tagged : Reader A
  tagged = do
    head_offset ← offset_now
    (tag, n) ← read_head_raw
    check_that (tag == tag_wanted) (x head_offset tag)
    rest head_offset n

  pub tagged-eq-ok :
      (c : Cursor) {a : A} {d : Cursor}
      → All IsByte c.bytes
      → tagged c ≡ ok (a, d)
      → (n : ℕ) × (c' : Cursor) × Took c c' (head_bytes tag_wanted n)
        × IsU64 n
        × (rest c.offset n c' ≡ ok (a, d))
  tagged-eq-ok c {a} {d} bytes h =
      let ((t, n), c', got, more) =
        >>=-eq-ok read_head_raw
          (λ p. check_that (p.0 == tag_wanted) (x c.offset p.0) >> rest c.offset p.1) c {b = a}
          {d = d} (unfold ◌>>=◌ offset_now in h) in
      let (u, c'', checked, last) =
        >>=-eq-ok (check_that (t == tag_wanted) (x c.offset t)) (λ _. rest c.offset n) c' more in
      let (right, stay) = check_that-eq-ok (t == tag_wanted) (x c.offset t) c' checked in
      let (took, small) = read_head_raw-Took c c' t n bytes got in
      let is_tag : t ≡ tag_wanted = (==_iff t tag_wanted).0 right in
      (
        n,
        c',
        subst (λ k. Took c c' (head_bytes k n)) is_tag took,
        small,
        subst (λ k. rest c.offset n k ≡ ok (a, d)) stay last,
      )

-- Each field reader takes what its writer writes, and its value is in the range of its type.
pub read_uint-Took :
    (c d : Cursor) (n : ℕ)
    → All IsByte c.bytes
    → read_uint c ≡ ok (n, d)
    → Took c d (uint_bytes n) × IsU64 n
unfolding read_uint uint_bytes pure
read_uint-Took c d n bytes h =
    let (m, c', took, small, last) =
      tagged-eq-ok cbe_tag_uint (λ k t. bad_head_tag k cbe_tag_uint t) (λ _ m. pure m) c bytes h in
    let e : m ≡ n = cc last in
    let stay : c' ≡ d = cc last in
    (
      subst (λ x. Took c x (head_bytes cbe_tag_uint n)) stay
          (subst (λ k. Took c c' (head_bytes cbe_tag_uint k)) e took),
      subst IsU64 e small,
    )

-- The payload behind a byte-string head.
string-Took :
    (c c' d : Cursor) (n : ℕ) (s : List ℕ)
    → IsU64 n
    → All IsByte c'.bytes
    → Took c c' (head_bytes cbe_tag_bytes n)
    → read_bytes n c' ≡ ok (s, d)
    → Took c d (string_bytes s) × (length s ≡ n) × All IsByte s
unfolding string_bytes
string-Took c c' d n s small bytes took got =
    let (payload, len, isb) = read_bytes-Took n c' d s bytes got in
    let e : n ≡ length s % u64_mod = omega arith in
    (
      Took-trans (head_bytes cbe_tag_bytes (length s % u64_mod)) s
          (subst (λ k. Took c c' (head_bytes cbe_tag_bytes k)) e took) payload,
      len,
      isb,
    )

pub read_byte_string-Took :
    (c d : Cursor) (s : List ℕ)
    → All IsByte c.bytes
    → read_byte_string c ≡ ok (s, d)
    → Took c d (string_bytes s) × (length s ≤ hard_max_byte_string_len) × All IsByte s
unfolding read_byte_string
read_byte_string-Took c d s bytes h =
    let (n, c', took, small, last) =
      tagged-eq-ok cbe_tag_bytes (λ k t. bad_head_tag k cbe_tag_bytes t)
        (λ k m.
          check_that (not (ltb hard_max_byte_string_len m))
            (byte_string_too_long k m hard_max_byte_string_len)
          >> read_bytes m)
        c bytes h in
    let (u, c'', checked, got) = >>=-eq-ok _ _ c' last in
    let (right, stay) = check_that-eq-ok _ _ c' checked in
    let (whole, len, isb) =
      string-Took c c' d n s small (subst (All IsByte) (sym took.same) bytes) took
        (subst (λ k. read_bytes n k ≡ ok (s, d)) stay got) in
    (whole, ground arith, isb)

pub read_eth_address-Took :
    (c d : Cursor) (s : List ℕ)
    → All IsByte c.bytes
    → read_eth_address c ≡ ok (s, d)
    → Took c d (string_bytes s) × (length s ≡ 20) × All IsByte s
unfolding read_eth_address read_byte_string_exact
read_eth_address-Took c d s bytes h =
    let (n, c', took, small, last) =
      tagged-eq-ok cbe_tag_bytes (λ k t. bad_head_tag k cbe_tag_bytes t)
        (λ k m. check_that (m == 20) (bad_byte_string_length k 20 m) >> read_bytes 20) c bytes h in
    let (u, c'', checked, got) = >>=-eq-ok _ _ c' last in
    let (right, stay) = check_that-eq-ok (n == 20) _ c' checked in
    let e : n ≡ 20 = (==_iff n 20).0 right in
    let (whole, len, isb) =
      string-Took c c' d 20 s (omega arith) (subst (All IsByte) (sym took.same) bytes)
        (subst (λ k. Took c c' (head_bytes cbe_tag_bytes k)) e took)
        (subst (λ k. read_bytes 20 k ≡ ok (s, d)) stay got) in
    (whole, len, isb)
