-- ===== src/Indexer/Balance/Update.antt =====
-- What the methods of the balance views do to the balances.
use canon.Prelude.{
  ℕ, ◌+◌, ◌-◌, ◌≡◌, refl, sym, ap, subst, arith, Bool-cases, inl, inr, Bool, min, ltb,
  if◌then◌else◌, none, some,
}
use canon.Prelude.Result.{Result, ok, err}
use canon.Bytes.{IsU64, IsU128, u128_mod, to_be_bytes}
use canon.Indexer.Balance.{
  Storage, BalanceError, credit_overflow, debit_underflow, balance_key, amount_max,
  balance_value_len, checked_add, checked_sub,
}
use canon.Indexer.Balance.Keys.{balance_key-ne, decode_cell-to_be_bytes}
use canon.Indexer.Balance.Store.{
  Outcome, then_answer, then_return, set_balance, credit_to, credited, debit_from, debited, balance,
  write_balance, credit, debit,
}

module _ (S : Storage) where
  open S use {State, Error, read, put, read-put_self, read-put_ne}

  -- The writes to a cell that the store accepts.
  abbrev pub Accepts : State → ℕ → ℕ → Type 0
  Accepts s a r = (v : ℕ) → (write_balance S a r v s).1 ≡ ok tt

  -- The cell of `a` and `r` holds `v` in `t`, and every other one what it holds in `s`.
  abbrev pub Holds : ℕ → ℕ → ℕ → State → State → Type 0
  Holds a r v s t =
      (balance S a r t ≡ ok v)
      × ((b q : ℕ) → IsU64 b → IsU64 q → ¬ ((a ≡ b) × (r ≡ q)) → balance S b q t ≡ balance S b q s)

  pub write_balance-Holds :
      (a r v : ℕ) (s : State)
      → IsU64 a
      → IsU64 r
      → IsU128 v
      → (write_balance S a r v s).1 ≡ ok tt
      → Holds a r v s (write_balance S a r v s).0
  unfolding balance write_balance
  write_balance-Holds a r v s ha hr hv w = (
    cc (
      read-put_self s (balance_key a r) (to_be_bytes balance_value_len v) w,
      decode_cell-to_be_bytes {E = Error} a r v hv,
    ),
    λ b q hb hq ne. cc (
        read-put_ne s (balance_key a r) (to_be_bytes balance_value_len v) (balance_key b q)
          (balance_key-ne a r b q ha hr hb hq ne) w),
  )

  then_answer_lem :
      {A : Type 0} (w : State × Result Error (Unit {0})) (x : Result (BalanceError Error) A)
      → w.1 ≡ ok tt
      → then_answer S w x ≡ (w.0, x)
  then_answer_lem (s, ok u) x h = refl
  then_answer_lem (s, err e) x h = cc h

  -- An outcome with the answer `x` that leaves `v` in the cell.
  abbrev pub Leaves : ℕ → ℕ → ℕ → Result (BalanceError Error) ℕ → State → Outcome S ℕ → Type 0
  Leaves a r v x s out = (out.1 ≡ x) × Holds a r v s out.0

  written :
      (a r v : ℕ) (x : Result (BalanceError Error) ℕ) (s : State)
      → IsU64 a
      → IsU64 r
      → IsU128 v
      → Accepts s a r
      → Leaves a r v x s (then_return S (set_balance S a r v s) x)
  unfolding set_balance
  written a r v x s ha hr hv w =
      subst (Leaves a r v x s)
        (sym (
          ap (λ (o : Outcome S (Unit {0})). then_return S o x)
            (then_answer_lem (write_balance S a r v s) (ok tt) (w v))))
        (refl, write_balance-Holds a r v s ha hr hv (w v))

  unwritten :
      (a r v : ℕ) (x : Result (BalanceError Error) ℕ) (s : State)
      → balance S a r s ≡ ok v
      → Leaves a r v x s (s, x)
  unwritten a r v x s e = (refl, (e, λ b q hb hq ne. refl))

  same :
      (a r : ℕ) (s : State) {v v' : ℕ} {x x' : Result (BalanceError Error) ℕ} {o o' : Outcome S ℕ}
      → v ≡ v'
      → x ≡ x'
      → o ≡ o'
      → Leaves a r v x s o
      → Leaves a r v' x' s o'
  same a r s {v = v} {x' = x'} {o = o} {o' = o'} p q w l =
      subst (λ (k : ℕ). Leaves a r k x' s o') p
        (subst (λ (y : Result (BalanceError Error) ℕ). Leaves a r v y s o') q
          (subst (Leaves a r v _ s) w l))

  -- What a credit answers.
  abbrev pub credit_answer : ℕ → ℕ → ℕ → ℕ → Result (BalanceError Error) ℕ
  credit_answer a r current delta =
      if ltb (current + delta) u128_mod
      then ok (current + delta)
      else err (credit_overflow a r delta)

  abbrev pub debit_answer : ℕ → ℕ → ℕ → ℕ → Result (BalanceError Error) ℕ
  debit_answer a r current delta =
      if ltb current delta then err (debit_underflow a r current delta) else ok (current - delta)

  -- A credit to a readable cell whose writes the store accepts answers the sum, or an overflow from
  -- 2 ^ 128 on; the cell then holds the sum cut off at 2 ^ 128 - 1, and the other cells are as before.
  pub credit_lem :
      (a r delta current : ℕ) (s : State)
      → IsU64 a
      → IsU64 r
      → IsU128 current
      → balance S a r s ≡ ok current
      → Accepts s a r
      → Leaves a r
          (min (current + delta) amount_max)
          (credit_answer a r current delta)
          s
          (credit S a r delta s)
  unfolding credit checked_add
  credit_lem a r delta current s ha hr hc e ok_to =
      subst (Leaves a r _ _ s) (sym (ap (credit_to S a r delta s) e))
        (elim (Bool-cases (ltb (current + delta) u128_mod)) [
          | inl h ↦
              same a r s (ground arith)
                (ap
                  (λ (b : Bool).
                    if b then ok (current + delta) else err (credit_overflow a r delta))
                  (sym h))
                (ap
                  (λ (b : Bool).
                    credited S a r delta s (if b then some (current + delta) else none))
                  (sym h))
                (written a r (current + delta) (ok (current + delta)) s ha hr (ground arith) ok_to)
          | inr h ↦
              same a r s (ground arith)
                (ap
                  (λ (b : Bool).
                    if b then ok (current + delta) else err (credit_overflow a r delta))
                  (sym h))
                (ap
                  (λ (b : Bool).
                    credited S a r delta s (if b then some (current + delta) else none))
                  (sym h))
                (written a r amount_max (err (credit_overflow a r delta)) s ha hr (ground arith)
                  ok_to)
        ])

  -- A debit from a readable cell whose writes the store accepts answers the difference, or an
  -- underflow if it is negative; the cell then holds the difference, or what it held, and the other
  -- cells are as before.
  pub debit_lem :
      (a r delta current : ℕ) (s : State)
      → IsU64 a
      → IsU64 r
      → IsU128 current
      → balance S a r s ≡ ok current
      → Accepts s a r
      → Leaves a r
          (if ltb current delta then current else current - delta)
          (debit_answer a r current delta)
          s
          (debit S a r delta s)
  unfolding debit checked_sub
  debit_lem a r delta current s ha hr hc e ok_to =
      subst (Leaves a r _ _ s) (sym (ap (debit_from S a r delta s) e))
        (elim (Bool-cases (ltb current delta)) [
          | inl h ↦
              same a r s (ap (λ (b : Bool). if b then current else current - delta) (sym h))
                (ap
                  (λ (b : Bool).
                    if b then err (debit_underflow a r current delta) else ok (current - delta))
                  (sym h))
                (ap
                  (λ (b : Bool).
                    debited S a r current delta s (if b then none else some (current - delta)))
                  (sym h))
                (unwritten a r current (err (debit_underflow a r current delta)) s e)
          | inr h ↦
              same a r s (ap (λ (b : Bool). if b then current else current - delta) (sym h))
                (ap
                  (λ (b : Bool).
                    if b then err (debit_underflow a r current delta) else ok (current - delta))
                  (sym h))
                (ap
                  (λ (b : Bool).
                    debited S a r current delta s (if b then none else some (current - delta)))
                  (sym h))
                (written a r (current - delta) (ok (current - delta)) s ha hr (ground arith) ok_to)
        ])
