-- ===== src/Indexer/Progress/Identifier.antt =====
-- The identifier of the program that a store belongs to.
use canon.Prelude.{
  ℕ, ◌≡◌, refl, sym, ap, ◌∙◌, Bool, true, Bool-cases, inl, inr, Option, none, some, List, length,
  if◌then◌else◌,
}
use canon.Prelude.Result.{Result, ok, err}
use canon.Bytes.{same_bytes}
use canon.Bytes.Laws.{same_bytes-eq}
use canon.Indexer.Balance.{Storage}
use canon.Indexer.Progress.{
  identifier_mismatch, identifier_not_utf8, identifier_key, ensured, ensure_identifier, hex_preview,
}
use canon.Indexer.Progress.Advance.{stored-eq-ok}

module _ (S : Storage) (is_utf8 : List ℕ → Bool) where
  open S use {State, Error, read, put, read-put_self}

  marked :
      (expected : List ℕ) (s t : State) (x : Result Error (Option (List ℕ)))
      → read s identifier_key ≡ x
      → ensured S is_utf8 expected s x ≡ (t, ok tt)
      → read t identifier_key ≡ ok (some expected)
  marked expected s t (err e) r h = cc h
  marked expected s t (ok none) r h =
      let w = stored-eq-ok S (put s identifier_key expected) t h in
      ap (λ (p : State × Result Error (Unit {0})). read p.0 identifier_key) (sym w)
      ∙ read-put_self s identifier_key expected
          (ap (λ (p : State × Result Error (Unit {0})). p.1) w)
  marked expected s t (ok (some found)) r h = elim (Bool-cases (is_utf8 found)) [
    | inr bad ↦ absurd (cc (bad, h))
    | inl good ↦ elim (Bool-cases (same_bytes found expected)) [
      | inr other ↦ absurd (cc (good, other, h))
      | inl same ↦ cc (same_bytes-eq found expected same, r, h)
    ]
  ]

  -- A store that accepted a UTF-8 identifier, fresh or not, accepts the same one again, and refuses any
  -- other as a mismatch with the first; either way nothing is written.
  pub ensure_identifier-again :
      (mine yours : List ℕ) (s t : State)
      → is_utf8 mine ≡ true
      → ensure_identifier S is_utf8 mine s ≡ (t, ok tt)
      → ensure_identifier S is_utf8 yours t
        ≡ (t, if same_bytes mine yours then ok tt else err (identifier_mismatch yours mine))
  unfolding ensure_identifier
  ensure_identifier-again mine yours s t good run =
      ap (ensured S is_utf8 yours t) (marked mine s t (read s identifier_key) refl run)
      ∙ ap
          (λ (b : Bool). (
            t,
            if b
                then if same_bytes mine yours then ok tt else err (identifier_mismatch yours mine)
                else err (identifier_not_utf8 (length mine) (hex_preview mine)),
          ))
          good
