-- ===== src/Indexer/Balance.antt =====
-- runtime/canon-indexer/src/balance.rs: balances of actors and resources in a key-value store. The
-- store (runtime/canon-storage/src/storage.rs) is a parameter. `BalanceView` and `BalanceTxView`
-- have the same code over the store and over a transaction's working view: one model serves both.
pub mod Keys
pub mod Scan
pub mod Store
pub mod Update
use canon.Prelude.{
  ℕ, ◌+◌, ◌-◌, ◌^◌, ◌<◌, ◌≡◌, ◌≢◌, Bool, true, false, ◌&&◌, Option, none, some, List, [], ◌∷◌, ◌++◌,
  length, take, drop, ltb, ◌==◌, if◌then◌else◌,
}
use canon.Prelude.Result.{Result, ok, err, ◌>>=◌}
use canon.Bytes.{to_be_bytes, from_be_bytes, u128_mod, same_bytes}

-- b"b/"
abbrev pub balance_key_prefix : List ℕ
balance_key_prefix = b'b' ∷ b'/' ∷ []

abbrev pub balance_key_len : ℕ
balance_key_len = 2 + 8 + 8

abbrev pub balance_value_len : ℕ
balance_value_len = 16

abbrev pub amount_max : ℕ
amount_max = 2 ^ 128 - 1

unfoldable pub balance_key : ℕ → ℕ → List ℕ
balance_key actor resource = balance_key_prefix ++ (to_be_bytes 8 actor ++ to_be_bytes 8 resource)

unfoldable pub parse_balance_key : List ℕ → Option (ℕ × ℕ)
parse_balance_key key =
    if length key == balance_key_len
    then if same_bytes (take 2 key) balance_key_prefix
      then some (from_be_bytes (take 8 (drop 2 key)), from_be_bytes (take 8 (drop 10 key)))
      else none
    else none

-- `get`, `put` and `scan` (the rows under a prefix). What is documented of `get` and `put`: a value
-- that was put is got back, and a put leaves the other keys alone.
pub record Storage : Type 1 where
  pub State : Type 0
  pub Error : Type 0
  pub read : State → List ℕ → Result Error (Option (List ℕ))
  pub put : State → List ℕ → List ℕ → State × Result Error (Unit {0})
  pub scan : State → List ℕ → Result Error (List (List ℕ × List ℕ))
  pub read-put_self :
      (s : State) (k v : List ℕ) → (put s k v).1 ≡ ok tt → read (put s k v).0 k ≡ ok (some v)
  pub read-put_ne :
      (s : State) (k v j : List ℕ) → k ≢ j → (put s k v).1 ≡ ok tt → read (put s k v).0 j ≡ read s j

pub data BalanceError (E : Type 0) : Type 0 where
  storage : E → BalanceError E
  credit_overflow : (actor resource delta : ℕ) → BalanceError E
  debit_underflow : (actor resource current delta : ℕ) → BalanceError E
  corrupt_cell : (actor resource expected actual : ℕ) → BalanceError E

unfoldable pub decode_cell : {E : Type 0} → ℕ → ℕ → Option (List ℕ) → Result (BalanceError E) ℕ
decode_cell actor resource none = ok 0
decode_cell actor resource (some bytes) =
    if length bytes == balance_value_len
    then ok (from_be_bytes bytes)
    else err (corrupt_cell actor resource balance_value_len (length bytes))

unfoldable pub checked_add : ℕ → ℕ → Option ℕ
checked_add a b = if ltb (a + b) u128_mod then some (a + b) else none

unfoldable pub checked_sub : ℕ → ℕ → Option ℕ
checked_sub a b = if ltb a b then none else some (a - b)

-- A row of the loop of `scan_all`, with what the rows behind it give.
abbrev pub scan_row :
    {E : Type 0}
    → Option (ℕ × ℕ)
    → List ℕ
    → Result (BalanceError E) (List (ℕ × ℕ × ℕ))
    → Result (BalanceError E) (List (ℕ × ℕ × ℕ))
scan_row none value rest = rest
scan_row (some (actor, resource)) value rest = do
  amount ← decode_cell actor resource (some value)
  out ← rest
  ok ((actor, resource, amount) ∷ out)

-- The loop of `scan_all`: it stops at the first corrupt cell.
unfoldable pub scan_rows :
    {E : Type 0} → List (List ℕ × List ℕ) → Result (BalanceError E) (List (ℕ × ℕ × ℕ))
scan_rows [] = ok []
scan_rows ((key, value) ∷ rows) = scan_row (parse_balance_key key) value (scan_rows rows)
