-- ===== src/Indexer/Balance/Store.antt =====
-- The methods of the balance views, over a store. A method returns the store that it leaves beside
-- its result, since the saturating write of an overflow stays when the error is returned.
use canon.Prelude.{ℕ, Option, none, some, List}
use canon.Prelude.Result.{Result, ok, err}
use canon.Bytes.{to_be_bytes}
use canon.Indexer.Balance.{
  Storage, BalanceError, storage, credit_overflow, debit_underflow, balance_key, decode_cell,
  checked_add, checked_sub, amount_max, balance_value_len, balance_key_prefix, scan_rows,
}

module _ (S : Storage) where
  open S use {State, Error, read, put, scan}

  abbrev pub Outcome : Type 0 → Type 0
  Outcome A = State × Result (BalanceError Error) A

  abbrev pub decoded : ℕ → ℕ → Result Error (Option (List ℕ)) → Result (BalanceError Error) ℕ
  decoded actor resource (ok cell) = decode_cell actor resource cell
  decoded actor resource (err e) = err (storage e)

  unfoldable pub balance : ℕ → ℕ → State → Result (BalanceError Error) ℕ
  balance actor resource s = decoded actor resource (read s (balance_key actor resource))

  -- The answer that a method gives behind its write, unless the write failed.
  abbrev pub then_answer :
      {A : Type 0} → State × Result Error (Unit {0}) → Result (BalanceError Error) A → Outcome A
  then_answer (s, ok u) r = (s, r)
  then_answer (s, err e) r = (s, err (storage e))

  unfoldable pub write_balance : ℕ → ℕ → ℕ → State → State × Result Error (Unit {0})
  write_balance actor resource value s =
      put s (balance_key actor resource) (to_be_bytes balance_value_len value)

  unfoldable pub set_balance : ℕ → ℕ → ℕ → State → Outcome (Unit {0})
  unfolding write_balance
  set_balance actor resource value s = then_answer (write_balance actor resource value s) (ok tt)

  -- `self.set(..)?` before the answer of `credit` and `debit`.
  abbrev pub then_return :
      {A : Type 0} → Outcome (Unit {0}) → Result (BalanceError Error) A → Outcome A
  then_return (s, ok u) r = (s, r)
  then_return (s, err e) r = (s, err e)

  abbrev pub credited : ℕ → ℕ → ℕ → State → Option ℕ → Outcome ℕ
  credited actor resource delta s (some sum) =
      then_return (set_balance actor resource sum s) (ok sum)
  credited actor resource delta s none =
      then_return (set_balance actor resource amount_max s)
        (err (credit_overflow actor resource delta))

  abbrev pub credit_to : ℕ → ℕ → ℕ → State → Result (BalanceError Error) ℕ → Outcome ℕ
  credit_to actor resource delta s (ok current) =
      credited actor resource delta s (checked_add current delta)
  credit_to actor resource delta s (err e) = (s, err e)

  unfoldable pub credit : ℕ → ℕ → ℕ → State → Outcome ℕ
  credit actor resource delta s = credit_to actor resource delta s (balance actor resource s)

  abbrev pub debited : ℕ → ℕ → ℕ → ℕ → State → Option ℕ → Outcome ℕ
  debited actor resource current delta s (some diff) =
      then_return (set_balance actor resource diff s) (ok diff)
  debited actor resource current delta s none =
      (s, err (debit_underflow actor resource current delta))

  abbrev pub debit_from : ℕ → ℕ → ℕ → State → Result (BalanceError Error) ℕ → Outcome ℕ
  debit_from actor resource delta s (ok current) =
      debited actor resource current delta s (checked_sub current delta)
  debit_from actor resource delta s (err e) = (s, err e)

  unfoldable pub debit : ℕ → ℕ → ℕ → State → Outcome ℕ
  debit actor resource delta s = debit_from actor resource delta s (balance actor resource s)

  abbrev scanned :
      Result Error (List (List ℕ × List ℕ)) → Result (BalanceError Error) (List (ℕ × ℕ × ℕ))
  scanned (ok rows) = scan_rows rows
  scanned (err e) = err (storage e)

  unfoldable pub scan_all : State → Result (BalanceError Error) (List (ℕ × ℕ × ℕ))
  scan_all s = scanned (scan s balance_key_prefix)
