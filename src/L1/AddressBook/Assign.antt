-- ===== src/L1/AddressBook/Assign.antt =====
-- What an assignment answers and does, and the books that assignments lead to.
use canon.Prelude.{
  ℕ, ◌+◌, ◌≤◌, ◌<◌, ◌^◌, ◌≡◌, ◌≢◌, refl, sym, subst, arith, Bool, true, false, inl, inr, Option,
  none, some, Option-cases, Bool-cases, ltb, ◌==◌, if◌then◌else◌,
}
use canon.Prelude.Maps.{get-insert, get-insert_ne}
use canon.Prelude.Result.{Result, ok, err}
use canon.Bytes.{IsU64, u64_mod, same_bytes}
use canon.Bytes.Laws.{same_bytes_refl, same_bytes-eq}
use canon.L1.Action.{EthAddress}
use canon.L1.AddressBook.{
  AddressBook, AssignError, overflow, lookup, lookup_reverse, record_id, assign_fresh,
  assign_unless, try_assign,
}

same_id : (i : ℕ) → (i == i) ≡ true
same_id i = ground arith

same_id-eq : (i j : ℕ) → (i == j) ≡ true → i ≡ j
same_id-eq i j h = ground arith

lookup-record : (a : EthAddress) (i : ℕ) (b : AddressBook) → lookup a (record_id a i b) ≡ some i
unfolding lookup
lookup-record a i b = get-insert same_bytes same_bytes_refl same_bytes-eq b.forward a i

lookup-record_ne :
    (a c : EthAddress) (i : ℕ) (b : AddressBook) → a ≢ c → lookup c (record_id a i b) ≡ lookup c b
unfolding lookup
lookup-record_ne a c i b ne =
    get-insert_ne same_bytes same_bytes_refl same_bytes-eq b.forward a i c ne

reverse-record :
    (a : EthAddress) (i : ℕ) (b : AddressBook) → lookup_reverse i (record_id a i b) ≡ some a
unfolding lookup_reverse
reverse-record a i b = get-insert (λ x y. x == y) same_id same_id-eq b.reverse i a

reverse-record_ne :
    (a : EthAddress) (i j : ℕ) (b : AddressBook)
    → i ≢ j
    → lookup_reverse j (record_id a i b) ≡ lookup_reverse j b
unfolding lookup_reverse
reverse-record_ne a i j b ne = get-insert_ne (λ x y. x == y) same_id same_id-eq b.reverse i a j ne

-- The two directions mirror each other, and the ids given are those from 1 below the counter.
pub record IsBook (b : AddressBook) : Type 0 where
  pub to_reverse : (a : EthAddress) (i : ℕ) → lookup a b ≡ some i → lookup_reverse i b ≡ some a
  pub to_forward : (a : EthAddress) (i : ℕ) → lookup_reverse i b ≡ some a → lookup a b ≡ some i
  pub in_range : (a : EthAddress) (i : ℕ) → lookup a b ≡ some i → (1 ≤ i) × (i < b.next_actor_id)
  pub counter : (1 ≤ b.next_actor_id) × IsU64 b.next_actor_id

-- What the answer of an assignment to `a` on `b` means for the book `c` that it leaves.
pub data Assigned (a : EthAddress) (b : AddressBook)
    : AddressBook × Result AssignError (ℕ × Bool) → Type 0 where
  known : (i : ℕ) → lookup a b ≡ some i → Assigned a b (b, ok (i, false))
  fresh :
      (c : AddressBook)
      → lookup a b ≡ none
      → lookup a c ≡ some b.next_actor_id
      → ((x : EthAddress) → a ≢ x → lookup x c ≡ lookup x b)
      → lookup_reverse b.next_actor_id c ≡ some a
      → ((j : ℕ) → b.next_actor_id ≢ j → lookup_reverse j c ≡ lookup_reverse j b)
      → c.next_actor_id ≡ b.next_actor_id + 1
      → IsU64 c.next_actor_id
      → Assigned a b (c, ok (b.next_actor_id, true))
  exhausted : lookup a b ≡ none → 2 ^ 64 ≤ b.next_actor_id + 1 → Assigned a b (b, err overflow)

-- An assignment gives a known address its id again and leaves the book; it gives a new one the
-- counter, records it in both directions, leaves the other entries and counts on; and it refuses a
-- new one without a change when the counter is exhausted.
pub try_assign-Assigned : (a : EthAddress) (b : AddressBook) → Assigned a b (try_assign a b)
unfolding try_assign
try_assign-Assigned a b = elim (Option-cases (lookup a b)) [
  | inr (i, e) ↦ subst (λ (o : Option ℕ). Assigned a b (assign_unless a b o)) (sym e) (known i e)
  | inl e ↦
      subst (λ (o : Option ℕ). Assigned a b (assign_unless a b o)) (sym e)
        (elim (Bool-cases (ltb (b.next_actor_id + 1) u64_mod))
          as (λ _. Assigned a b (assign_fresh a b)) [
            | inl h ↦
                subst
                  (λ (t : Bool). Assigned a b (
                    if t
                    then (record_id a b.next_actor_id b, ok (b.next_actor_id, true))
                    else (b, err overflow)))
                  (sym h)
                  (fresh (record_id a b.next_actor_id b) e (lookup-record a b.next_actor_id b)
                    (λ x ne. lookup-record_ne a x b.next_actor_id b ne)
                    (reverse-record a b.next_actor_id b)
                    (λ j ne. reverse-record_ne a b.next_actor_id j b ne) refl (ground arith))
            | inr h ↦
                subst
                  (λ (t : Bool). Assigned a b (
                    if t
                    then (record_id a b.next_actor_id b, ok (b.next_actor_id, true))
                    else (b, err overflow)))
                  (sym h) (exhausted e (ground arith))
          ])
]
