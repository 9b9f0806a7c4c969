-- ===== src/L1/Translation.antt =====
-- runtime/canon-l1-ingest/src/translation.rs: from contract events to unsigned actions. A preview reads
-- the address book; the assignment is committed once the action is accepted.
pub mod Commit
use canon.Prelude.{ℕ, Option, none, some, List, ◌==◌, if◌then◌else◌}
use canon.Prelude.Result.{Result, ok, err}
use canon.L1.Action.{Action, EthAddress, PublicKey, register_identity, replace_key}
use canon.L1.AddressBook.{AddressBook, AssignError, overflow, bridge_actor_id, lookup, try_assign}
use canon.L1.Events.{
  IngestedEvent, registered_ecdsa, registered_eip1271, revoked, deposit_initiated,
}

pub record UnsignedAction : Type 0 where
  pub action : Action
  pub signer : ℕ
  pub nonce : ℕ

-- `UnsignedAction::SIGNER`.
abbrev pub bridge_signer : ℕ
bridge_signer = bridge_actor_id

pub data Translated : Type 0 where
  no_action : Translated
  emit : UnsignedAction → Translated
  emit_with_assignment :
      (action : UnsignedAction) (address : EthAddress) (new_actor_id : ℕ) → Translated

abbrev pub registration : AddressBook → EthAddress → PublicKey → ℕ → Option ℕ → Translated
registration book actor_address pk current_nonce none =
    emit_with_assignment
      (record {
        action = register_identity book.next_actor_id pk;
        signer = bridge_signer;
        nonce = current_nonce;
      })
      actor_address book.next_actor_id
registration book actor_address pk current_nonce (some existing_id) =
    emit (record {
      action = replace_key existing_id pk;
      signer = bridge_signer;
      nonce = current_nonce;
    })

unfoldable pub preview_registration : AddressBook → EthAddress → PublicKey → ℕ → Translated
preview_registration book actor_address pk current_nonce =
    registration book actor_address pk current_nonce (lookup actor_address book)

unfoldable pub preview_ingest : AddressBook → IngestedEvent → ℕ → Translated
unfolding preview_registration
preview_ingest book (registered_ecdsa actor pubkey _ _ _) current_nonce =
    preview_registration book actor pubkey current_nonce
preview_ingest book (registered_eip1271 actor contract_signer _ _ _) current_nonce =
    preview_registration book actor contract_signer current_nonce
preview_ingest book (revoked _ _ _ _) current_nonce = no_action
preview_ingest book (deposit_initiated _ _ _ _ _ _ _ _ _) current_nonce = no_action

pub data CommitError : Type 0 where
  book_overflow : CommitError
  expected_id_mismatch : (expected actual : ℕ) → CommitError

-- `From<AssignError>`.
abbrev pub commit_error : AssignError → CommitError
commit_error overflow = book_overflow

abbrev pub check_assigned :
    {A : Type 0} → ℕ → AddressBook × Result AssignError (ℕ × A) → AddressBook × Result CommitError ℕ
check_assigned expected_id (book, ok (assigned, was_new)) = (
  book,
  if assigned == expected_id then ok assigned else err (expected_id_mismatch expected_id assigned),
)
check_assigned expected_id (book, err e) = (book, err (commit_error e))

unfoldable pub commit_assignment : EthAddress → ℕ → AddressBook → AddressBook × Result CommitError ℕ
commit_assignment address expected_id book = check_assigned expected_id (try_assign address book)

-- `none` is the panic of `expect`.
abbrev pub expect_commit :
    UnsignedAction
    → AddressBook × Result CommitError ℕ
    → Option (AddressBook × Option UnsignedAction)
expect_commit action (book, ok _) = some (book, some action)
expect_commit action (book, err _) = none

abbrev pub ingest_translated :
    AddressBook → Translated → Option (AddressBook × Option UnsignedAction)
ingest_translated book no_action = some (book, none)
ingest_translated book (emit action) = some (book, some action)
ingest_translated book (emit_with_assignment action address new_actor_id) =
    expect_commit action (commit_assignment address new_actor_id book)

unfoldable pub ingest :
    IngestedEvent → ℕ → AddressBook → Option (AddressBook × Option UnsignedAction)
ingest event current_nonce book = ingest_translated book (preview_ingest book event current_nonce)
