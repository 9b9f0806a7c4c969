-- ===== src/L1/Action.antt =====
-- runtime/canon-l1-ingest/src/action.rs: the actions that the ingestor encodes, and their frozen tags.
use canon.Prelude.{
  ℕ, ◌+◌, ◌-◌, ◌/◌, ◌%◌, Option, none, some, List, [], ◌∷◌, length, ltb, ◌==◌, if◌then◌else◌,
}

-- `[u8; 20]` and `Vec<u8>`, as byte lists.
abbrev pub EthAddress : Type 0
EthAddress = List ℕ

abbrev pub PublicKey : Type 0
PublicKey = List ℕ

-- `EthAddress::from_bytes`.
unfoldable pub from_bytes : List ℕ → Option EthAddress
from_bytes bytes = if length bytes == 20 then some bytes else none

-- An ASCII character is its code.
unfoldable pub hex_nibble : ℕ → ℕ
hex_nibble n = if ltb n 10 then b'0' + n else if ltb n 16 then b'a' + (n - 10) else b'?'

-- `EthAddress::to_hex`; `b >> 4` and `b & 0x0f` of a byte.
unfoldable pub to_hex : EthAddress → List ℕ
unfolding hex_nibble
to_hex [] = []
to_hex (b ∷ bs) = hex_nibble (b / 16) ∷ hex_nibble (b % 16) ∷ to_hex bs

pub data Action : Type 0 where
  transfer : (r : ℕ) (sender : ℕ) (receiver : ℕ) (amount : ℕ) → Action
  mint : (r : ℕ) (to : ℕ) (amount : ℕ) → Action
  burn : (r : ℕ) (from_actor : ℕ) (amount : ℕ) → Action
  freeze_resource : (r : ℕ) → Action
  replace_key : (actor : ℕ) (new_key : PublicKey) → Action
  reward : (r : ℕ) (to : ℕ) (amount : ℕ) → Action
  distribute_others : (r : ℕ) (excluded : ℕ) (amount : ℕ) → Action
  proportional_dilute : (r : ℕ) (excluded : ℕ) (total_reward : ℕ) → Action
  dispute_withdraw : (idx : ℕ) → Action
  rollback : (target_idx : ℕ) → Action
  register_identity : (actor : ℕ) (pk : PublicKey) → Action
  deposit : (r : ℕ) (recipient : ℕ) (amount : ℕ) (deposit_id : ℕ) → Action
  withdraw : (r : ℕ) (sender : ℕ) (amount : ℕ) (recipient_l1 : EthAddress) → Action
  revoke_local_policy : Action
  fault_proof_challenge :
      (binding_hash : List ℕ) (disputed_start_idx : ℕ) (disputed_end_idx : ℕ)
      (challenger_commit : List ℕ)
      → Action
  fault_proof_resolution :
      (binding_hash : List ℕ) (game_id : ℕ) (winner : ℕ) (revert_from_idx : ℕ) → Action

unfoldable pub tag : Action → ℕ
tag (transfer _ _ _ _) = 0
tag (mint _ _ _) = 1
tag (burn _ _ _) = 2
tag (freeze_resource _) = 3
tag (replace_key _ _) = 4
tag (reward _ _ _) = 5
tag (distribute_others _ _ _) = 6
tag (proportional_dilute _ _ _) = 7
tag (dispute_withdraw _) = 9
tag (rollback _) = 11
tag (register_identity _ _) = 12
tag (deposit _ _ _ _) = 13
tag (withdraw _ _ _ _) = 14
tag revoke_local_policy = 16
tag (fault_proof_challenge _ _ _ _) = 17
tag (fault_proof_resolution _ _ _ _) = 18
