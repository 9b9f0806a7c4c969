-- ===== src/Indexer/Progress/Advance.antt =====
-- What an advance of the cursor leaves.
use canon.Prelude.{
  ℕ, ◌≡◌, ◌≢◌, ◌≤◌, refl, sym, ap, ◌∙◌, arith, Bool-cases, inl, inr, some, List, ltb,
}
use canon.Prelude.Result.{Result, ok, err}
use canon.Bytes.{IsU64, to_be_bytes}
use canon.Bytes.Laws.{length-to_be_bytes, from_be_bytes-to_be_bytes}
use canon.Indexer.Balance.{Storage}
use canon.Indexer.Progress.{
  CursorError, cursor_key, decode_cursor, cursor_of, read_cursor, stored, write_cursor,
  advance_from, advance_cursor_in_tx,
}

decode_cursor-to_be_bytes :
    {E : Type 0} (n : ℕ) → IsU64 n → decode_cursor {E = E} (some (to_be_bytes 8 n)) ≡ ok n
unfolding decode_cursor
decode_cursor-to_be_bytes n h =
    ground (arith, length-to_be_bytes 8 n, from_be_bytes-to_be_bytes 8 n h)

module _ (S : Storage) where
  open S use {State, Error, read, put, read-put_self, read-put_ne}

  -- Where the cursor stands at `n`, and the other keys are as in `s`.
  pub record Stands (n : ℕ) (s t : State) : Type 0 where
    pub at : read_cursor S t ≡ ok n
    pub others : (k : List ℕ) → cursor_key ≢ k → read t k ≡ read s k

  pub stored-eq-ok :
      (p : State × Result Error (Unit {0})) (t : State) → stored S p ≡ (t, ok tt) → p ≡ (t, ok tt)
  stored-eq-ok (s, ok u) t h = cc h
  stored-eq-ok (s, err e) t h = cc h

  write_cursor-Stands :
      (n : ℕ) (s t : State) → IsU64 n → write_cursor S n s ≡ (t, ok tt) → Stands n s t
  unfolding write_cursor read_cursor
  write_cursor-Stands n s t hn run =
      let w = stored-eq-ok (put s cursor_key (to_be_bytes 8 n)) t run in
      let fine = ap (λ (p : State × Result Error (Unit {0})). p.1) w in
      let here = ap (λ (p : State × Result Error (Unit {0})). p.0) w in
      record {
        at =
            ap (λ (u : State). cursor_of S (read u cursor_key)) (sym here)
            ∙ ap (cursor_of S) (read-put_self s cursor_key (to_be_bytes 8 n) fine)
            ∙ decode_cursor-to_be_bytes {E = Error} n hn;
        others = λ k ne.
            ap (λ (u : State). read u k) (sym here)
            ∙ read-put_ne s cursor_key (to_be_bytes 8 n) k ne fine;
      }

  -- An advance that succeeds never goes back, and the cursor then stands at the new value.
  pub advance_cursor_in_tx-Stands :
      (n : ℕ) (s t : State)
      → IsU64 n
      → advance_cursor_in_tx S n s ≡ (t, ok tt)
      → (old : ℕ) × (read_cursor S s ≡ ok old) × (old ≤ n) × Stands n s t
  unfolding advance_cursor_in_tx
  advance_cursor_in_tx-Stands n s t hn run = go (read_cursor S s) refl run
    where
      go :
          (x : Result (CursorError Error) ℕ)
          → read_cursor S s ≡ x
          → advance_from S n s x ≡ (t, ok tt)
          → (old : ℕ) × (read_cursor S s ≡ ok old) × (old ≤ n) × Stands n s t
      go (ok old) e h = elim (Bool-cases (ltb n old)) [
        | inl back ↦ absurd (cc (back, h))
        | inr on ↦ (old, e, ground arith, write_cursor-Stands n s t hn (cc (on, h)))
      ]
      go (err x) e h = cc h
