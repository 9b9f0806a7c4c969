-- ===== src/Indexer/Cursor/Reads.antt =====
-- What a reader takes from the front of the unread bytes, as a family with a rule for each reader.
use canon.Prelude.{
  ℕ, ◌+◌, ◌-◌, ◌≤◌, ◌<◌, ◌≡◌, refl, ap, ◌∙◌, subst, arith, Bool, true, List, ◌++◌, length,
  length-append, length-drop, drop, drop-drop, take-append, drop-append, lt→ltb, le→ltb,
}
use canon.Prelude.Result.{ok}
use canon.Bytes.{u64_mod}
use canon.Indexer.Cursor.{
  DecodeError, Cursor, Reader, ◌>>=◌, pure, check_that, offset_now, read_bytes,
}

-- The bytes from the offset on.
abbrev pub unread : Cursor → List ℕ
unread c = drop c.offset c.bytes

pub record Fits (c : Cursor) : Type 0 where
  pub in_memory : length c.bytes < u64_mod
  pub inside : c.offset ≤ length c.bytes

pub record Reading {A : Type 0} (m : Reader A) (a : A) (c : Cursor) (after : List ℕ) : Type 0 where
  pub left : Cursor
  pub read : m c ≡ ok (a, left)
  pub fits : Fits left
  pub same : left.bytes ≡ c.bytes
  pub leaves : unread left ≡ after

-- From unread bytes `before`, `m` gives `a` and leaves the unread bytes `after`.
pub record Reads {A : Type 0} (m : Reader A) (before : List ℕ) (a : A) (after : List ℕ)
    : Type 0 where
  pub at : (c : Cursor) → Fits c → unread c ≡ before → Reading m a c after

module _ {A : Type 0} where
  pub Reads-pure : (a : A) (w : List ℕ) → Reads (pure a) w a w
  unfolding pure
  Reads-pure a w = record {
    at = λ c h e. record { left = c; read = refl; fits = h; same = refl; leaves = e };
  }

pub Reads-check_that :
    (b : Bool) (x : DecodeError) (w : List ℕ) → b ≡ true → Reads (check_that b x) w tt w
unfolding check_that
Reads-check_that b x w t = record {
  at = λ c h e. record { left = c; read = rw t; fits = h; same = refl; leaves = e };
}

pub Reads-bind :
    {A B : Type 0} (m : Reader A) (f : A → Reader B) {u v w : List ℕ} {a : A} {b : B}
    → Reads m u a v
    → Reads (f a) v b w
    → Reads (m >>= f) u b w
unfolding ◌>>=◌
Reads-bind m f {a = a} hm hf = record {
  at = λ c h e.
      let p = hm.at c h e in
      let q = hf.at p.left p.fits p.leaves in
      record {
        left = q.left;
        read = rw p.read q.read;
        fits = q.fits;
        same = q.same ∙ p.same;
        leaves = q.leaves;
      };
}

unread-room :
    (c : Cursor) (w r : List ℕ)
    → Fits c
    → unread c ≡ w ++ r
    → c.offset + length w + length r ≡ length c.bytes
unread-room c w r h e =
    omega (arith, h.inside, length-drop c.offset c.bytes, length-append w r, ap length e)

-- `read_bytes` of the length of what stands in front takes just that.
pub Reads-read_bytes : (w r : List ℕ) → Reads (read_bytes (length w)) (w ++ r) w r
unfolding read_bytes
Reads-read_bytes w r = record {
  at = λ c h e.
      let room = unread-room c w r h e in
      record {
        left = record c { offset = c.offset + length w };
        read = rw (le→ltb (length c.bytes - c.offset) (length w) (omega arith)) (
            rw (lt→ltb (c.offset + length w) u64_mod (omega (arith, h.in_memory)))
              (rw e (rw (take-append w r))));
        fits = record { in_memory = h.in_memory; inside = omega arith };
        same = refl;
        leaves = drop-drop c.offset (length w) c.bytes ∙ ap (drop (length w)) e ∙ drop-append w r;
      };
}

module _ {A : Type 0} where
  -- Where a reader asks for the offset, its value only goes into an error.
  pub Reads-offset_now :
      (f : ℕ → Reader A) {u w : List ℕ} {a : A}
      → ((k : ℕ) → Reads (f k) u a w)
      → Reads (offset_now >>= f) u a w
  unfolding ◌>>=◌ offset_now
  Reads-offset_now f hf = record {
    at = λ c h e.
        let p = (hf c.offset).at c h e in
        record { left = p.left; read = p.read; fits = p.fits; same = p.same; leaves = p.leaves };
  }

pub Reads-read_exactly : (n : ℕ) (w r : List ℕ) → length w ≡ n → Reads (read_bytes n) (w ++ r) w r
Reads-read_exactly n w r e = subst (λ k. Reads (read_bytes k) (w ++ r) w r) e (Reads-read_bytes w r)
