-- ===== src/L1/AddressBook.antt =====
-- runtime/canon-l1-ingest/src/address_book.rs: the assignment of actor ids to Ethereum addresses. The
-- two `BTreeMap`s are association lists; a method that panics returns `none`.
pub mod Assign
pub mod Bijective
use canon.Prelude.{
  ℕ, ◌+◌, ◌≡◌, Bool, true, false, Option, none, some, List, [], length, ltb, ◌==◌, if◌then◌else◌,
}
use canon.Prelude.Maps.{get, insert}
use canon.Prelude.Result.{Result, ok, err}
use canon.Bytes.{u64_mod, same_bytes}
use canon.L1.Action.{EthAddress}

pub record AddressBook : Type 0 where
  pub forward : List (EthAddress × ℕ)
  pub reverse : List (ℕ × EthAddress)
  pub next_actor_id : ℕ

abbrev pub bridge_actor_id : ℕ
bridge_actor_id = 0

abbrev pub initial_next_actor_id : ℕ
initial_next_actor_id = 1

pub data AssignError : Type 0 where
  overflow : AssignError

unfoldable pub new : AddressBook
new = record { forward = []; reverse = []; next_actor_id = initial_next_actor_id }

unfoldable pub lookup : EthAddress → AddressBook → Option ℕ
lookup addr book = get same_bytes book.forward addr

unfoldable pub lookup_reverse : ℕ → AddressBook → Option EthAddress
lookup_reverse id book = get (λ i j. i == j) book.reverse id

abbrev pub record_id : EthAddress → ℕ → AddressBook → AddressBook
record_id addr fresh book = record {
  forward = insert same_bytes book.forward addr fresh;
  reverse = insert (λ i j. i == j) book.reverse fresh addr;
  next_actor_id = fresh + 1;
}

-- `checked_add(1)` of a `u64`.
abbrev pub assign_fresh : EthAddress → AddressBook → AddressBook × Result AssignError (ℕ × Bool)
assign_fresh addr book =
    if ltb (book.next_actor_id + 1) u64_mod
    then (record_id addr book.next_actor_id book, ok (book.next_actor_id, true))
    else (book, err overflow)

abbrev pub assign_unless :
    EthAddress → AddressBook → Option ℕ → AddressBook × Result AssignError (ℕ × Bool)
assign_unless addr book (some existing) = (book, ok (existing, false))
assign_unless addr book none = assign_fresh addr book

unfoldable pub try_assign : EthAddress → AddressBook → AddressBook × Result AssignError (ℕ × Bool)
try_assign addr book = assign_unless addr book (lookup addr book)

abbrev expect : AddressBook × Result AssignError (ℕ × Bool) → Option (AddressBook × (ℕ × Bool))
expect (book, ok answer) = some (book, answer)
expect (book, err e) = none

unfoldable pub assign : EthAddress → AddressBook → Option (AddressBook × (ℕ × Bool))
assign addr book = expect (try_assign addr book)

unfoldable pub len : AddressBook → ℕ
len book = length book.forward

unfoldable pub is_empty : AddressBook → Bool
is_empty book = length book.forward == 0
