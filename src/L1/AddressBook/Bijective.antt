-- ===== src/L1/AddressBook/Bijective.antt =====
-- The books that a run of assignments leads to.
use canon.Prelude.{
  ℕ, ◌≡◌, ◌≢◌, ◌⊎◌, sym, ◌∙◌, arith, Bool, inl, inr, some, List, [], ◌∷◌, Bool-cases,
}
use canon.Prelude.Maps.{get}
use canon.Prelude.Result.{Result}
use canon.Bytes.{same_bytes}
use canon.Bytes.Laws.{same_bytes_refl, same_bytes-eq}
use canon.L1.Action.{EthAddress}
use canon.L1.AddressBook.{AddressBook, AssignError, new, lookup, lookup_reverse, try_assign}
use canon.L1.AddressBook.Assign.{IsBook, Assigned, known, fresh, exhausted, try_assign-Assigned}

address_cases : (a x : EthAddress) → (a ≡ x) ⊎ (a ≢ x)
address_cases a x = elim (Bool-cases (same_bytes a x)) [
  | inl h ↦ inl (same_bytes-eq a x h)
  | inr h ↦ inr (λ e. cc (h, e, same_bytes_refl x))
]

id_cases : (i j : ℕ) → (i ≡ j) ⊎ (i ≢ j)
id_cases i j = ground arith

new-IsBook : IsBook new
unfolding new lookup lookup_reverse get
new-IsBook = record {
  to_reverse = λ a i e. cc e;
  to_forward = λ a i e. cc e;
  in_range = λ a i e. cc e;
  counter = omega arith;
}

Assigned-IsBook :
    (a : EthAddress) (b : AddressBook) (out : AddressBook × Result AssignError (ℕ × Bool))
    → Assigned a b out
    → IsBook b
    → IsBook out.0
Assigned-IsBook a b _ (known i e) h = h
Assigned-IsBook a b _ (exhausted e l) h = h
Assigned-IsBook a b _ (fresh c absent here others back_here back_others counted fits) h = record {
  to_reverse = λ x i e. elim (address_cases a x) [
    | inl p ↦ cc (p, e, here, back_here)
    | inr ne ↦
        let old : lookup x b ≡ some i = sym (others x ne) ∙ e in
        back_others i (omega (arith, (h.in_range x i old).1)) ∙ h.to_reverse x i old
  ];
  to_forward = λ x i e. elim (id_cases b.next_actor_id i) [
    | inl p ↦ cc (p, e, here, back_here)
    | inr ne ↦
        let old : lookup x b ≡ some i = h.to_forward x i (sym (back_others i ne) ∙ e) in
        others x (λ p. cc (p, old, absent)) ∙ old
  ];
  in_range = λ x i e. elim (address_cases a x) [
    | inl p ↦
        let q : b.next_actor_id ≡ i = cc (p, e, here) in
        (omega (arith, q, h.counter.0), omega (arith, q, counted))
    | inr ne ↦
        let old = h.in_range x i (sym (others x ne) ∙ e) in (old.0, omega (arith, old.1, counted))
  ];
  counter = (omega (arith, counted), fits);
}

-- Assignments one after the other.
abbrev pub assigned_all : List EthAddress → AddressBook → AddressBook
assigned_all [] b = b
assigned_all (a ∷ more) b = assigned_all more (try_assign a b).0

assigned_all-IsBook :
    (more : List EthAddress) (b : AddressBook) → IsBook b → IsBook (assigned_all more b)
assigned_all-IsBook [] b h = h
assigned_all-IsBook (a ∷ more) b h =
    assigned_all-IsBook more (try_assign a b).0
      (Assigned-IsBook a b (try_assign a b) (try_assign-Assigned a b) h)

-- After any run of assignments on a new book, refused ones included, the two maps are inverse to each
-- other, every id is from 1 up to below the counter, and the counter is a positive 64-bit number.
pub assigned_all-new : (addresses : List EthAddress) → IsBook (assigned_all addresses new)
assigned_all-new addresses = assigned_all-IsBook addresses new new-IsBook

kept :
    (a x : EthAddress) (b : AddressBook) (i : ℕ) (out : AddressBook × Result AssignError (ℕ × Bool))
    → Assigned a b out
    → lookup x b ≡ some i
    → lookup x out.0 ≡ some i
kept a x b i _ (known j e) l = l
kept a x b i _ (exhausted e g) l = l
kept a x b i _ (fresh c absent here others back_here back_others counted fits) l =
    others x (λ p. cc (p, l, absent)) ∙ l

-- An id once given to an address stays with it through any run of assignments.
pub lookup-assigned_all :
    (addresses : List EthAddress) (x : EthAddress) (b : AddressBook) (i : ℕ)
    → lookup x b ≡ some i
    → lookup x (assigned_all addresses b) ≡ some i
lookup-assigned_all [] x b i l = l
lookup-assigned_all (a ∷ more) x b i l =
    lookup-assigned_all more x (try_assign a b).0 i
      (kept a x b i (try_assign a b) (try_assign-Assigned a b) l)
