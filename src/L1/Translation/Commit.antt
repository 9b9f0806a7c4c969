-- ===== src/L1/Translation/Commit.antt =====
-- A previewed assignment and its commit fit together.
use canon.Prelude.{
  ℕ, ◌+◌, ◌≡◌, refl, sym, ap, ◌∙◌, subst, arith, Bool, true, Option, none, some, length, lt→ltb,
  ◌==◌, if◌then◌else◌,
}
use canon.Prelude.Result.{ok, err}
use canon.Bytes.{u64_mod, IsU64}
use canon.L1.Action.{EthAddress, PublicKey}
use canon.L1.AddressBook.{AddressBook, overflow, lookup, record_id, assign_unless, try_assign}
use canon.L1.Events.{
  IngestedEvent, registered_ecdsa, registered_eip1271, revoked, deposit_initiated,
}
use canon.L1.Translation.{
  UnsignedAction, emit_with_assignment, registration, preview_ingest, CommitError, check_assigned,
  commit_assignment,
}

-- A new address on a book whose counter has room.
pub fresh-assigned :
    (addr : EthAddress) (book : AddressBook)
    → lookup addr book ≡ none
    → IsU64 (book.next_actor_id + 1)
    → try_assign addr book ≡ (record_id addr book.next_actor_id book, ok (book.next_actor_id, true))
unfolding try_assign
fresh-assigned addr book e room =
    ap (assign_unless addr book) e
    ∙ ap
        (λ (b : Bool).
          if b
          then (record_id addr book.next_actor_id book, ok (book.next_actor_id, true))
          else (book, err overflow))
        (lt→ltb (book.next_actor_id + 1) u64_mod room)

fresh-committed :
    (addr : EthAddress) (book : AddressBook)
    → lookup addr book ≡ none
    → IsU64 (book.next_actor_id + 1)
    → commit_assignment addr book.next_actor_id book
      ≡ (record_id addr book.next_actor_id book, ok book.next_actor_id)
unfolding commit_assignment
fresh-committed addr book e room =
    let same : (book.next_actor_id == book.next_actor_id) ≡ true = ground arith in
    ap (check_assigned book.next_actor_id) (fresh-assigned addr book e room)
    ∙ ap
        (λ (b : Bool). (
          record_id addr book.next_actor_id book,
          if b
              then ok book.next_actor_id
              else err (CommitError.expected_id_mismatch book.next_actor_id book.next_actor_id),
        ))
        same

-- What the addresses of an event satisfy.
abbrev pub IsSized : IngestedEvent → Type 0
IsSized (registered_ecdsa actor _ _ _ _) = length actor ≡ 20
IsSized (registered_eip1271 actor _ _ _ _) = length actor ≡ 20
IsSized _ = Unit

previewed :
    (book : AddressBook) (actor : EthAddress) (pk : PublicKey) (n id : ℕ) (u : UnsignedAction)
    (addr : EthAddress) (o : Option ℕ)
    → lookup actor book ≡ o
    → registration book actor pk n o ≡ emit_with_assignment u addr id
    → (lookup addr book ≡ none) × (id ≡ book.next_actor_id) × (addr ≡ actor)
previewed book actor pk n id u addr none e h = (cc (e, h), cc h, cc h)
previewed book actor pk n id u addr (some i) e h = cc h

pub preview-fresh :
    (book : AddressBook) (event : IngestedEvent) (n id : ℕ) (u : UnsignedAction) (addr : EthAddress)
    → IsSized event
    → preview_ingest book event n ≡ emit_with_assignment u addr id
    → (lookup addr book ≡ none) × (id ≡ book.next_actor_id) × (length addr ≡ 20)
unfolding preview_ingest
preview-fresh book (registered_ecdsa actor pk _ _ _) n id u addr size h =
    let (absent, same, who) = previewed book actor pk n id u addr (lookup actor book) refl h in
    (absent, same, ap length who ∙ size)
preview-fresh book (registered_eip1271 actor pk _ _ _) n id u addr size h =
    let (absent, same, who) = previewed book actor pk n id u addr (lookup actor book) refl h in
    (absent, same, ap length who ∙ size)
preview-fresh book (revoked _ _ _ _) n id u addr size h = cc h
preview-fresh book (deposit_initiated _ _ _ _ _ _ _ _ _) n id u addr size h = cc h

-- While the counter has room, committing a previewed assignment on the same book succeeds with the
-- previewed id, and records the address under it.
pub preview_ingest-commit :
    (book : AddressBook) (event : IngestedEvent) (n id : ℕ) (u : UnsignedAction) (addr : EthAddress)
    → IsSized event
    → IsU64 (book.next_actor_id + 1)
    → preview_ingest book event n ≡ emit_with_assignment u addr id
    → commit_assignment addr id book ≡ (record_id addr id book, ok id)
preview_ingest-commit book event n id u addr size room h =
    let (absent, same, _) = preview-fresh book event n id u addr size h in
    subst (λ (i : ℕ). commit_assignment addr i book ≡ (record_id addr i book, ok i)) (sym same)
      (fresh-committed addr book absent room)
