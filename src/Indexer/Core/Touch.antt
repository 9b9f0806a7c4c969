-- ===== src/Indexer/Core/Touch.antt =====
-- What the steps of a transaction do to the cells and to the cursor.
use canon.Prelude.{
  ℕ, ◌+◌, ◌≡◌, ◌≢◌, inl, inr, refl, sym, ap, ◌∙◌, subst, arith, Bool, true, false, Option, none,
  some, List, [], ◌∷◌, if◌then◌else◌,
}
use canon.Prelude.Result.{Result, ok, err}
use canon.Bytes.{IsU64, IsU128, to_be_bytes}
use canon.Indexer.Balance.{
  Storage, BalanceError, balance_key, balance_value_len, checked_add, checked_sub, amount_max,
}
use canon.Indexer.Balance.Store.{
  balance, write_balance, set_balance, credit, credit_to, credited, debit, debit_from, debited,
  then_answer, then_return, Outcome,
}
use canon.Indexer.Balance.Update.{Holds, write_balance-Holds}
use canon.Indexer.Progress.{cursor_key}
use canon.Indexer.Core.{contains}
use canon.Indexer.Core.Cells.{only, Shifted, Shifted-trans, same_cell_cases}

first : List ℕ → ℕ
first [] = 0
first (b ∷ bs) = b

pub balance_key-ne-cursor_key : (a r : ℕ) → balance_key a r ≢ cursor_key
unfolding balance_key first
balance_key-ne-cursor_key a r e = omega (arith, ap first e)

checked_add-eq-some : (a b m : ℕ) → checked_add a b ≡ some m → (m ≡ a + b) × IsU128 m
unfolding checked_add
checked_add-eq-some a b m e = ground arith

checked_sub-eq-some : (a b m : ℕ) → checked_sub a b ≡ some m → m + b ≡ a
unfolding checked_sub
checked_sub-eq-some a b m e = ground arith

module _ (S : Storage) where
  open S use {State, Error, read, put, read-put_ne}

  -- A readable balance is a `u128`, as the bytes of its cell guarantee.
  abbrev pub Amounts : State → Type 0
  Amounts s = (a r v : ℕ) → IsU64 a → IsU64 r → balance S a r s ≡ ok v → IsU128 v

  -- A step that added `c` and took away `d` for each cell that the pairs do not cover.
  pub record Passes (c d : ℕ → ℕ → ℕ) (pairs : List (ℕ × ℕ)) (s t : State) : Type 0 where
    pub amounts : Amounts s → Amounts t
    pub cursor_kept : read t cursor_key ≡ read s cursor_key
    pub covered :
        (a r : ℕ)
        → IsU64 a
        → IsU64 r
        → contains pairs a r ≡ true
        → balance S a r t ≡ balance S a r s
    pub shifted :
        (a r : ℕ)
        → IsU64 a
        → IsU64 r
        → contains pairs a r ≡ false
        → Shifted (c a r) (d a r) (balance S a r s) (balance S a r t)

  pub nothing-Passes : (pairs : List (ℕ × ℕ)) (s : State) → Passes (λ a r. 0) (λ a r. 0) pairs s s
  nothing-Passes pairs s = record {
    amounts = λ h. h;
    cursor_kept = refl;
    covered = λ a r ha hr h. refl;
    shifted = λ a r ha hr h. inl (refl, refl, refl);
  }

  pub Passes-trans :
      (c d c' d' : ℕ → ℕ → ℕ) (pairs : List (ℕ × ℕ)) (s t u : State)
      → Passes c d pairs s t
      → Passes c' d' pairs t u
      → Passes (λ a r. c a r + c' a r) (λ a r. d a r + d' a r) pairs s u
  Passes-trans c d c' d' pairs s t u p q = record {
    amounts = λ h. q.amounts (p.amounts h);
    cursor_kept = q.cursor_kept ∙ p.cursor_kept;
    covered = λ a r ha hr h. q.covered a r ha hr h ∙ p.covered a r ha hr h;
    shifted = λ a r ha hr h.
        Shifted-trans (c a r) (d a r) (c' a r) (d' a r) (balance S a r s) (balance S a r t)
          (balance S a r u) (p.shifted a r ha hr h) (q.shifted a r ha hr h);
  }

  pub Passes-eq :
      (c d c' d' : ℕ → ℕ → ℕ) (pairs : List (ℕ × ℕ)) (s t : State)
      → ((a r : ℕ) → c a r ≡ c' a r)
      → ((a r : ℕ) → d a r ≡ d' a r)
      → Passes c d pairs s t
      → Passes c' d' pairs s t
  Passes-eq c d c' d' pairs s t e f p = record {
    amounts = p.amounts;
    cursor_kept = p.cursor_kept;
    covered = p.covered;
    shifted = λ a r ha hr h.
        subst (λ (n : ℕ). Shifted n (d' a r) (balance S a r s) (balance S a r t)) (e a r)
          (subst (λ (n : ℕ). Shifted (c a r) n (balance S a r s) (balance S a r t)) (f a r)
            (p.shifted a r ha hr h));
  }

  -- A covered pair is skipped.
  pub skipped-Passes :
      (b q v w : ℕ) (pairs : List (ℕ × ℕ)) (s : State)
      → contains pairs b q ≡ true
      → Passes (only b q v) (only b q w) pairs s s
  skipped-Passes b q v w pairs s inside = record {
    amounts = λ h. h;
    cursor_kept = refl;
    covered = λ a r ha hr h. refl;
    shifted = λ a r ha hr h. elim (same_cell_cases b q a r) [
      | inl (e, x, y) ↦ absurd (cc (x, y, inside, h))
      | inr (e, ne) ↦
          inl
            (ap (λ (t : Bool). if t then v else 0) e, ap (λ (t : Bool). if t then w else 0) e, refl)
    ];
  }

  -- A write that the store took.
  pub Wrote : ℕ → ℕ → ℕ → State → State → Type 0
  Wrote b q n s t = write_balance S b q n s ≡ (t, ok tt)

  pub Wrote-Holds :
      (b q n : ℕ) (s t : State) → IsU64 b → IsU64 q → IsU128 n → Wrote b q n s t → Holds S b q n s t
  unfolding Wrote
  Wrote-Holds b q n s t hb hq hn w =
      subst (Holds S b q n s) (ap (λ (p : State × Result Error (Unit {0})). p.0) w) (
        write_balance-Holds S b q n s hb hq hn
          (ap (λ (p : State × Result Error (Unit {0})). p.1) w))

  pub Wrote-cursor :
      (b q n : ℕ) (s t : State) → Wrote b q n s t → read t cursor_key ≡ read s cursor_key
  unfolding Wrote write_balance
  Wrote-cursor b q n s t w =
      ap (λ (p : State × Result Error (Unit {0})). read p.0 cursor_key) (sym w)
      ∙ read-put_ne s (balance_key b q) (to_be_bytes balance_value_len n) cursor_key
          (balance_key-ne-cursor_key b q) (ap (λ (p : State × Result Error (Unit {0})). p.1) w)

  pub Holds-Amounts :
      (b q n : ℕ) (s t : State) → IsU128 n → Holds S b q n s t → Amounts s → Amounts t
  Holds-Amounts b q n s t hn (here, others) typed a r v ha hr e = elim (same_cell_cases b q a r) [
    | inl (f, x, y) ↦ let same : n ≡ v = cc (x, y, here, e) in subst IsU128 same hn
    | inr (f, ne) ↦ typed a r v ha hr (sym (others a r ha hr ne) ∙ e)
  ]

  -- A cell that is read, moved and written.
  pub Wrote-Passes :
      (b q cur n v w : ℕ) (pairs : List (ℕ × ℕ)) (s t : State)
      → IsU64 b
      → IsU64 q
      → IsU128 n
      → contains pairs b q ≡ false
      → balance S b q s ≡ ok cur
      → n + w ≡ cur + v
      → Wrote b q n s t
      → Passes (only b q v) (only b q w) pairs s t
  Wrote-Passes b q cur n v w pairs s t hb hq hn outside e sum wrote =
      let (here, others) = Wrote-Holds b q n s t hb hq hn wrote in
      record {
        amounts = Holds-Amounts b q n s t hn (here, others);
        cursor_kept = Wrote-cursor b q n s t wrote;
        covered = λ a r ha hr h. elim (same_cell_cases b q a r) [
          | inl (f, x, y) ↦ absurd (cc (x, y, outside, h))
          | inr (f, ne) ↦ others a r ha hr ne
        ];
        shifted = λ a r ha hr h. elim (same_cell_cases b q a r) [
          | inl (f, x, y) ↦ inr (cur, n, cc (x, y, e), cc (x, y, here), ground arith)
          | inr (f, ne) ↦ inl (
            ap (λ (t : Bool). if t then v else 0) f,
            ap (λ (t : Bool). if t then w else 0) f,
            sym (others a r ha hr ne),
          )
        ];
      }

  then_answer-eq-ok :
      (p : State × Result Error (Unit {0})) (t : State)
      → then_answer S {A = Unit {0}} p (ok tt) ≡ (t, ok tt)
      → p ≡ (t, ok tt)
  then_answer-eq-ok (s, ok u) t h = cc h
  then_answer-eq-ok (s, err e) t h = cc h

  pub set_balance-Wrote :
      (b q n : ℕ) (s t : State) → set_balance S b q n s ≡ (t, ok tt) → Wrote b q n s t
  unfolding set_balance Wrote
  set_balance-Wrote b q n s t h = then_answer-eq-ok (write_balance S b q n s) t h

  then_return-eq-ok :
      (p : Outcome S (Unit {0})) (x : Result (BalanceError Error) ℕ) (t : State) (n : ℕ)
      → then_return S p x ≡ (t, ok n)
      → (p ≡ (t, ok tt)) × (x ≡ ok n)
  then_return-eq-ok (s, ok u) x t n h = (cc h, cc h)
  then_return-eq-ok (s, err e) x t n h = (cc h, cc h)

  credited-eq-ok :
      (b q cur v n : ℕ) (s t : State) (o : Option ℕ)
      → checked_add cur v ≡ o
      → credited S b q v s o ≡ (t, ok n)
      → (n ≡ cur + v) × IsU128 n × Wrote b q n s t
  credited-eq-ok b q cur v n s t (some m) e h =
      let (wrote, same) = then_return-eq-ok (set_balance S b q m s) (ok m) t n h in
      let (sum, small) = checked_add-eq-some cur v m e in
      let m_is_n : m ≡ n = cc same in
      (
        sym m_is_n ∙ sum,
        subst IsU128 m_is_n small,
        subst (λ (k : ℕ). Wrote b q k s t) m_is_n (set_balance-Wrote b q m s t wrote),
      )
  credited-eq-ok b q cur v n s t none e h =
      let (wrote, same) = then_return-eq-ok (set_balance S b q amount_max s) _ t n h in cc same

  -- What a credit that succeeds read and wrote.
  pub credit-eq-ok :
      (b q v n : ℕ) (s t : State)
      → credit S b q v s ≡ (t, ok n)
      → (cur : ℕ) × (balance S b q s ≡ ok cur) × (n ≡ cur + v) × IsU128 n × Wrote b q n s t
  unfolding credit
  credit-eq-ok b q v n s t h = go (balance S b q s) refl h
    where
      go :
          (x : Result (BalanceError Error) ℕ)
          → balance S b q s ≡ x
          → credit_to S b q v s x ≡ (t, ok n)
          → (cur : ℕ) × (balance S b q s ≡ ok cur) × (n ≡ cur + v) × IsU128 n × Wrote b q n s t
      go (ok cur) e k =
          let (sum, small, wrote) = credited-eq-ok b q cur v n s t (checked_add cur v) refl k in
          (cur, e, sum, small, wrote)
      go (err x) e k = cc k

  debited-eq-ok :
      (b q cur v n : ℕ) (s t : State) (o : Option ℕ)
      → checked_sub cur v ≡ o
      → debited S b q cur v s o ≡ (t, ok n)
      → (n + v ≡ cur) × Wrote b q n s t
  debited-eq-ok b q cur v n s t (some m) e h =
      let (wrote, same) = then_return-eq-ok (set_balance S b q m s) (ok m) t n h in
      let sum = checked_sub-eq-some cur v m e in
      let m_is_n : m ≡ n = cc same in
      (
        omega (arith, sum, m_is_n),
        subst (λ (k : ℕ). Wrote b q k s t) m_is_n (set_balance-Wrote b q m s t wrote),
      )
  debited-eq-ok b q cur v n s t none e h = cc h

  -- What a debit that succeeds read and wrote.
  pub debit-eq-ok :
      (b q v n : ℕ) (s t : State)
      → debit S b q v s ≡ (t, ok n)
      → (cur : ℕ) × (balance S b q s ≡ ok cur) × (n + v ≡ cur) × Wrote b q n s t
  unfolding debit
  debit-eq-ok b q v n s t h = go (balance S b q s) refl h
    where
      go :
          (x : Result (BalanceError Error) ℕ)
          → balance S b q s ≡ x
          → debit_from S b q v s x ≡ (t, ok n)
          → (cur : ℕ) × (balance S b q s ≡ ok cur) × (n + v ≡ cur) × Wrote b q n s t
      go (ok cur) e k =
          let (sum, wrote) = debited-eq-ok b q cur v n s t (checked_sub cur v) refl k in
          (cur, e, sum, wrote)
      go (err x) e k = cc k
