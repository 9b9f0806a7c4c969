-- ===== src/Indexer/Progress.antt =====
-- runtime/canon-indexer/src/cursor.rs: the position of the indexer and its identifier, in two cells
-- of the key-value store. A text is its bytes.
pub mod Advance
pub mod Identifier
use canon.Prelude.{
  ℕ, ◌/◌, ◌%◌, ◌≡◌, Bool, Option, none, some, List, [], ◌∷◌, ◌++◌, length, take, ltb, ◌==◌,
  if◌then◌else◌, min,
}
use canon.Prelude.Result.{Result, ok, err}
use canon.Bytes.{to_be_bytes, from_be_bytes, same_bytes}
use canon.Indexer.Balance.{Storage}
use canon.L1.Action.{hex_nibble}

-- b"c/cursor"
abbrev pub cursor_key : List ℕ
cursor_key = b'c' ∷ b'/' ∷ b'c' ∷ b'u' ∷ b'r' ∷ b's' ∷ b'o' ∷ b'r' ∷ []

-- b"c/identifier"
abbrev pub identifier_key : List ℕ
identifier_key =
    b'c' ∷ b'/' ∷ b'i' ∷ b'd' ∷ b'e' ∷ b'n' ∷ b't' ∷ b'i' ∷ b'f' ∷ b'i' ∷ b'e' ∷ b'r' ∷ []

abbrev pub cursor_value_len : ℕ
cursor_value_len = 8

pub data CursorError (E : Type 0) : Type 0 where
  storage : E → CursorError E
  non_monotonic_advance : (current attempted : ℕ) → CursorError E
  corrupt_cell : (expected actual : ℕ) → CursorError E
  identifier_mismatch : (expected found : List ℕ) → CursorError E
  identifier_not_utf8 : (bytes_len : ℕ) (preview_hex : List ℕ) → CursorError E

-- Two lowercase digits for each byte.
abbrev hex_digits : List ℕ → List ℕ
hex_digits [] = []
hex_digits (b ∷ bs) = hex_nibble (b / 16) ∷ hex_nibble (b % 16) ∷ hex_digits bs

unfoldable pub hex_preview : List ℕ → List ℕ
hex_preview bytes =
    hex_digits (take (min (length bytes) 32) bytes)
    ++ (if ltb 32 (length bytes) then b'.' ∷ b'.' ∷ b'.' ∷ [] else [])

unfoldable pub decode_cursor : {E : Type 0} → Option (List ℕ) → Result (CursorError E) ℕ
decode_cursor none = ok 0
decode_cursor (some bytes) =
    if length bytes == cursor_value_len
    then ok (from_be_bytes bytes)
    else err (corrupt_cell cursor_value_len (length bytes))

module _ (S : Storage) where
  open S use {State, Error, read, put}

  abbrev pub Moved : Type 0
  Moved = State × Result (CursorError Error) (Unit {0})

  abbrev pub cursor_of : Result Error (Option (List ℕ)) → Result (CursorError Error) ℕ
  cursor_of (ok cell) = decode_cursor cell
  cursor_of (err e) = err (storage e)

  unfoldable pub read_cursor : State → Result (CursorError Error) ℕ
  read_cursor s = cursor_of (read s cursor_key)

  abbrev pub stored : State × Result Error (Unit {0}) → Moved
  stored (s, ok u) = (s, ok tt)
  stored (s, err e) = (s, err (storage e))

  unfoldable pub write_cursor : ℕ → State → Moved
  write_cursor value s = stored (put s cursor_key (to_be_bytes 8 value))

  abbrev pub advance_from : ℕ → State → Result (CursorError Error) ℕ → Moved
  advance_from new_value s (ok current) =
      if ltb new_value current
      then (s, err (non_monotonic_advance current new_value))
      else write_cursor new_value s
  advance_from new_value s (err e) = (s, err e)

  unfoldable pub advance_cursor : ℕ → State → Moved
  advance_cursor new_value s = advance_from new_value s (read_cursor s)

  -- The same on the working view of a transaction.
  unfoldable pub advance_cursor_in_tx : ℕ → State → Moved
  advance_cursor_in_tx new_value tx = advance_from new_value tx (read_cursor tx)

  -- `std::str::from_utf8` accepts the bytes for which the test holds.
  module _ (is_utf8 : List ℕ → Bool) where
    abbrev pub ensured : List ℕ → State → Result Error (Option (List ℕ)) → Moved
    ensured expected s (ok none) = stored (put s identifier_key expected)
    ensured expected s (ok (some found)) = (
      s,
      if is_utf8 found
          then if same_bytes found expected then ok tt else err (identifier_mismatch expected found)
          else err (identifier_not_utf8 (length found) (hex_preview found)),
    )
    ensured expected s (err e) = (s, err (storage e))

    unfoldable pub ensure_identifier : List ℕ → State → Moved
    ensure_identifier expected s = ensured expected s (read s identifier_key)
