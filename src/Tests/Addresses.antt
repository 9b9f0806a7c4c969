-- ===== src/Tests/Addresses.antt =====
-- The address book of runtime/canon-l1-ingest on three addresses.
use canon.Prelude.{◌≡◌, refl, some, [], ◌∷◌}
use canon.Prelude.Maps.{get, insert}
use canon.Prelude.Result.{err}
use canon.L1.Action.{EthAddress}
use canon.L1.AddressBook.{AddressBook, overflow, new, lookup, try_assign}
use canon.L1.AddressBook.Assign.{IsBook, Assigned, try_assign-Assigned}
use canon.L1.AddressBook.Bijective.{assigned_all, assigned_all-new, lookup-assigned_all}

abbrev alice : EthAddress
alice =
    10 ∷ 11 ∷ 12 ∷ 13 ∷ 14 ∷ 15 ∷ 16 ∷ 17 ∷ 18 ∷ 19 ∷ 20 ∷ 21 ∷ 22 ∷ 23 ∷ 24 ∷ 25 ∷ 26 ∷ 27 ∷ 28
    ∷ 29 ∷ []

abbrev bob : EthAddress
bob =
    10 ∷ 11 ∷ 12 ∷ 13 ∷ 14 ∷ 15 ∷ 16 ∷ 17 ∷ 18 ∷ 19 ∷ 20 ∷ 21 ∷ 22 ∷ 23 ∷ 24 ∷ 25 ∷ 26 ∷ 27 ∷ 28
    ∷ 30 ∷ []

abbrev two : AddressBook
two = record {
  forward = (alice, 1) ∷ (bob, 2) ∷ [];
  reverse = (1, alice) ∷ (2, bob) ∷ [];
  next_actor_id = 3;
}

two_assigned : assigned_all (alice ∷ bob ∷ alice ∷ []) new ≡ two
unfolding try_assign lookup new get insert
two_assigned = refl

-- The counter of a `u64` is not stepped past its range.
abbrev full : AddressBook
full = record { forward = []; reverse = []; next_actor_id = 18446744073709551615 }

full-refuses : try_assign alice full ≡ (full, err overflow)
unfolding try_assign lookup get
full-refuses = refl

try_assign-Assigned_example : Assigned bob two (try_assign bob two)
try_assign-Assigned_example = try_assign-Assigned bob two

assigned_all-new_example : IsBook (assigned_all (alice ∷ bob ∷ alice ∷ []) new)
assigned_all-new_example = assigned_all-new (alice ∷ bob ∷ alice ∷ [])

alice_known : lookup alice two ≡ some 1
unfolding lookup get
alice_known = refl

lookup-assigned_all_example : lookup alice (assigned_all (bob ∷ alice ∷ []) two) ≡ some 1
lookup-assigned_all_example = lookup-assigned_all (bob ∷ alice ∷ []) alice two 1 alice_known
