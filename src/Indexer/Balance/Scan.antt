-- ===== src/Indexer/Balance/Scan.antt =====
-- The rows of a scan against the balances that were written.
use canon.Prelude.{ℕ, ◌≡◌, refl, ap, ◌∙◌, Option, List, [], ◌∷◌, All}
use canon.Prelude.Result.{Result, ok, ◌>>=◌}
use canon.Bytes.{IsU64, IsU128, to_be_bytes}
use canon.Indexer.Balance.{
  Storage, BalanceError, scan_row, balance_key, balance_key_prefix, balance_value_len, scan_rows,
}
use canon.Indexer.Balance.Keys.{parse_balance_key-balance_key, decode_cell-to_be_bytes}
use canon.Indexer.Balance.Store.{scan_all}

-- The row that `set_balance` writes.
abbrev pub row : ℕ × ℕ × ℕ → List ℕ × List ℕ
row (actor, resource, amount) = (balance_key actor resource, to_be_bytes balance_value_len amount)

abbrev pub rows : List (ℕ × ℕ × ℕ) → List (List ℕ × List ℕ)
rows [] = []
rows (e ∷ es) = row e ∷ rows es

abbrev pub IsEntry : ℕ × ℕ × ℕ → Type 0
IsEntry (actor, resource, amount) = IsU64 actor × IsU64 resource × IsU128 amount

scan_rows-rows :
    {E : Type 0} (es : List (ℕ × ℕ × ℕ)) → All IsEntry es → scan_rows {E = E} (rows es) ≡ ok es
unfolding scan_rows
scan_rows-rows [] h = refl
scan_rows-rows {E = E} ((a, r, v) ∷ es) h =
    ap (λ (o : Option (ℕ × ℕ)). scan_row {E = E} o (row (a, r, v)).1 (scan_rows (rows es)))
      (parse_balance_key-balance_key a r h.0.0 h.0.1)
    ∙ ap
        (λ (c : Result (BalanceError E) ℕ).
          c >>= λ amount. scan_rows (rows es) >>= λ out. ok ((a, r, amount) ∷ out))
        (decode_cell-to_be_bytes {E = E} a r v h.0.2)
    ∙ ap (λ (c : Result (BalanceError E) (List (ℕ × ℕ × ℕ))). c >>= λ out. ok ((a, r, v) ∷ out))
        (scan_rows-rows es h.1)

module _ (S : Storage) where
  open S use {State, scan}

  -- A scan that finds the rows that `set` writes for some balances, of 64-bit actors and resources
  -- and 128-bit amounts, lists these balances in the order of the rows.
  pub scan_all-rows :
      (s : State) (es : List (ℕ × ℕ × ℕ))
      → All IsEntry es
      → scan s balance_key_prefix ≡ ok (rows es)
      → scan_all S s ≡ ok es
  unfolding scan_all
  scan_all-rows s es h e = cc (e, scan_rows-rows {E = S.Error} es h)
