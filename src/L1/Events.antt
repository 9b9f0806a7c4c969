-- ===== src/L1/Events.antt =====
-- runtime/canon-l1-ingest/src/events.rs: contract events and their decoding from log records. A 32-byte
-- hash is the number that its bytes spell.
pub mod Decode
pub mod Abi
use Prim.Native.String.{String}
use Prim.Native.String
use Prim.Native.Char.{code}
use canon.Prelude.{ℕ, ◌==◌, Option, none, some, List, [], ◌∷◌, if◌then◌else◌}
use canon.L1.Action.{EthAddress}
use canon.L1.Reorg.{TopicHash}

pub data IngestedEvent : Type 0 where
  registered_ecdsa :
      (actor : EthAddress) (pubkey : List ℕ) (block_number : ℕ) (tx_hash : TopicHash)
      (log_index : ℕ)
      → IngestedEvent
  registered_eip1271 :
      (actor contract_signer : EthAddress) (block_number : ℕ) (tx_hash : TopicHash) (log_index : ℕ)
      → IngestedEvent
  revoked :
      (actor : EthAddress) (block_number : ℕ) (tx_hash : TopicHash) (log_index : ℕ) → IngestedEvent
  deposit_initiated :
      (depositor : EthAddress) (resource_id : ℕ) (token : EthAddress) (amount : List ℕ)
      (depositor_nonce : ℕ) (receipt_hash : TopicHash) (block_number : ℕ) (tx_hash : TopicHash)
      (log_index : ℕ)
      → IngestedEvent

-- The block number, the transaction's hash and the index of the log.
unfoldable pub origin_key : IngestedEvent → ℕ × TopicHash × ℕ
origin_key (registered_ecdsa _ _ block_number tx_hash log_index) =
    (block_number, tx_hash, log_index)
origin_key (registered_eip1271 _ _ block_number tx_hash log_index) =
    (block_number, tx_hash, log_index)
origin_key (revoked _ block_number tx_hash log_index) = (block_number, tx_hash, log_index)
origin_key (deposit_initiated _ _ _ _ _ _ block_number tx_hash log_index) =
    (block_number, tx_hash, log_index)

-- The log's `data` is its payload here.
pub record RawLog : Type 0 where
  pub address : EthAddress
  pub topics : List TopicHash
  pub payload : List ℕ
  pub block_number : ℕ
  pub tx_hash : TopicHash
  pub log_index : ℕ

pub data EventTopic : Type 0 where
  registered_ecdsa_topic registered_eip1271_topic revoked_topic deposit_initiated_topic : EventTopic

abbrev codes : String → List ℕ
codes String.[] = []
codes (String.◌∷◌ c s) = code c ∷ codes s

abbrev pub signature : EventTopic → List ℕ
signature registered_ecdsa_topic = codes "RegisteredECDSA(address,bytes)"
signature registered_eip1271_topic = codes "RegisteredEIP1271(address,address)"
signature revoked_topic = codes "Revoked(address)"
signature deposit_initiated_topic =
    codes "DepositInitiated(address,uint64,address,uint256,uint64,bytes32)"

unfoldable pub topic_hash : (List ℕ → TopicHash) → EventTopic → TopicHash
topic_hash keccak256 event = keccak256 (signature event)

abbrev pub variants : List EventTopic
variants =
    registered_ecdsa_topic ∷ registered_eip1271_topic ∷ revoked_topic ∷ deposit_initiated_topic ∷ []

abbrev pub find_hash : (List ℕ → TopicHash) → TopicHash → List EventTopic → Option EventTopic
find_hash keccak256 hash [] = none
find_hash keccak256 hash (variant ∷ rest) =
    if topic_hash keccak256 variant == hash then some variant else find_hash keccak256 hash rest

unfoldable pub from_hash : (List ℕ → TopicHash) → TopicHash → Option EventTopic
from_hash keccak256 hash = find_hash keccak256 hash variants
