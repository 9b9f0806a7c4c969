-- ===== src/Tests/Balances.antt =====
-- The balance views of runtime/canon-indexer over a store that is an association list.
use canon.Prelude.{ℕ, ◌+◌, ◌-◌, ◌≡◌, refl, arith, List, [], ◌∷◌, ltb, min, if◌then◌else◌}
use canon.Prelude.Result.{ok}
use canon.Prelude.Maps.{get}
use canon.Bytes.{to_be_bytes, to_le_bytes, from_be_bytes, from_le_bytes}
use canon.Indexer.Balance.{balance_key, balance_key_prefix, amount_max, decode_cell}
use canon.Indexer.Balance.Store.{balance, scan_all, credit, debit, write_balance}
use canon.Indexer.Balance.Update.{
  Accepts, Leaves, credit_answer, debit_answer, credit_lem, debit_lem,
}
use canon.Tests.Memory.{Rows, under, memory}
use canon.Indexer.Balance.Scan.{rows, scan_all-rows}

abbrev vault : Rows
vault = (balance_key 1 2, to_be_bytes 16 100) ∷ (balance_key 1 3, to_be_bytes 16 7) ∷ []

vault-reads : balance memory 1 2 vault ≡ ok 100
unfolding balance get balance_key to_be_bytes to_le_bytes decode_cell from_be_bytes from_le_bytes
vault-reads = refl

vault-Accepts : Accepts memory vault 1 2
unfolding write_balance
vault-Accepts = λ v. refl

-- A credit that overflows.
credit_lem_example :
    Leaves memory 1 2
      (min (100 + amount_max) amount_max)
      (credit_answer memory 1 2 100 amount_max)
      vault
      (credit memory 1 2 amount_max vault)
credit_lem_example =
    credit_lem memory 1 2 amount_max 100 vault (omega arith) (omega arith) (omega arith) vault-reads
      vault-Accepts

debit_lem_example :
    Leaves memory 1 2
      (if ltb 100 30 then 100 else 100 - 30)
      (debit_answer memory 1 2 100 30)
      vault
      (debit memory 1 2 30 vault)
debit_lem_example =
    debit_lem memory 1 2 30 100 vault (omega arith) (omega arith) (omega arith) vault-reads
      vault-Accepts

abbrev entries : List (ℕ × ℕ × ℕ)
entries = (1, 2, 100) ∷ (1, 3, 7) ∷ []

vault-scan : memory.scan vault balance_key_prefix ≡ ok (rows entries)
unfolding under balance_key
vault-scan = refl

scan_all-rows_example : scan_all memory vault ≡ ok entries
scan_all-rows_example = scan_all-rows memory vault entries (omega arith) vault-scan
