-- ===== src/Indexer/Balance/Keys.antt =====
-- The keys and values of balance cells: they are read back, so different cells have different keys.
use canon.Prelude.{
  ℕ, ◌≡◌, ◌≢◌, sym, ap, ◌∙◌, subst, arith, some, List, [], ◌++◌, append-nil, length, length-append,
  take, drop, take-append, drop-append,
}
use canon.Prelude.Result.{ok}
use canon.Bytes.{IsU64, IsU128, to_be_bytes, from_be_bytes}
use canon.Bytes.Laws.{length-to_be_bytes, from_be_bytes-to_be_bytes}
use canon.Indexer.Balance.{
  balance_key, parse_balance_key, decode_cell, balance_value_len, balance_key_prefix,
}

take_all : (n : ℕ) (xs ys : List ℕ) → length xs ≡ n → take n (xs ++ ys) ≡ xs
take_all n xs ys e = subst (λ (k : ℕ). take k (xs ++ ys) ≡ xs) e (take-append xs ys)

drop_all : (n : ℕ) (xs ys : List ℕ) → length xs ≡ n → drop n (xs ++ ys) ≡ ys
drop_all n xs ys e = subst (λ (k : ℕ). drop k (xs ++ ys) ≡ ys) e (drop-append xs ys)

parsed :
    (xs ys : List ℕ)
    → length xs ≡ 8
    → length ys ≡ 8
    → parse_balance_key (balance_key_prefix ++ (xs ++ ys))
      ≡ some (from_be_bytes xs, from_be_bytes ys)
unfolding parse_balance_key
parsed xs ys hx hy = ground (
  arith,
  length-append xs ys,
  take_all 8 xs ys hx,
  drop_all 8 xs ys hx,
  take_all 8 ys [] hy,
  append-nil ys,
)

both : {x y : ℕ × ℕ} → some x ≡ some y → (x.0 ≡ y.0) × (x.1 ≡ y.1)
both e = (cc e, cc e)

-- The key of a cell of a 64-bit actor and resource is parsed back.
pub parse_balance_key-balance_key :
    (actor resource : ℕ)
    → IsU64 actor
    → IsU64 resource
    → parse_balance_key (balance_key actor resource) ≡ some (actor, resource)
unfolding parse_balance_key balance_key
parse_balance_key-balance_key actor resource ha hr =
    parsed (to_be_bytes 8 actor) (to_be_bytes 8 resource) (length-to_be_bytes 8 actor)
      (length-to_be_bytes 8 resource)
    ∙ cc (from_be_bytes-to_be_bytes 8 actor ha, from_be_bytes-to_be_bytes 8 resource hr)

-- Different cells have different keys.
pub balance_key-ne :
    (a r b t : ℕ)
    → IsU64 a
    → IsU64 r
    → IsU64 b
    → IsU64 t
    → ¬ ((a ≡ b) × (r ≡ t))
    → balance_key a r ≢ balance_key b t
balance_key-ne a r b t ha hr hb ht ne e = ne (
    both (
      sym (parse_balance_key-balance_key a r ha hr)
      ∙ ap parse_balance_key e
      ∙ parse_balance_key-balance_key b t hb ht))

-- A written amount is read back.
pub decode_cell-to_be_bytes :
    {E : Type 0} (a r v : ℕ)
    → IsU128 v
    → decode_cell {E = E} a r (some (to_be_bytes balance_value_len v)) ≡ ok v
unfolding decode_cell
decode_cell-to_be_bytes a r v h =
    ground (arith, length-to_be_bytes 16 v, from_be_bytes-to_be_bytes 16 v h)
