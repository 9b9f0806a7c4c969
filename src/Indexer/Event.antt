-- ===== src/Indexer/Event.antt =====
-- runtime/canon-indexer/src/event.rs: the events that the kernel emits, and their frozen tags.
-- A byte vector is a list of numbers; an Ethereum address is one of 20 bytes.
use canon.Prelude.{ℕ, ◌≡◌, Bool, true, false, Option, none, some, List, [], ◌∷◌, length, All}
use canon.Bytes.{IsByte, IsU64, IsU128}

abbrev pub EthAddress : Type 0
EthAddress = List ℕ

pub data Event : Type 0 where
  balance_changed : (resource actor old_value new_value : ℕ) → Event
  nonce_advanced : (actor old_nonce new_nonce : ℕ) → Event
  identity_registered : (actor : ℕ) (key : List ℕ) → Event
  identity_revoked : (actor : ℕ) → Event
  time_recorded : (time : ℕ) → Event
  dispute_filed : (challenger target_idx : ℕ) → Event
  dispute_withdrawn : (dispute_idx : ℕ) → Event
  verdict_applied : (dispute_idx outcome_tag : ℕ) → Event
  reward_issued : (resource recipient amount : ℕ) → Event
  withdrawal_requested :
      (resource sender amount : ℕ) (recipient_l1 : EthAddress) (withdrawal_id : ℕ) → Event
  deposit_credited : (resource recipient amount deposit_id : ℕ) → Event
  local_policy_declared : (actor : ℕ) (policy : List ℕ) → Event
  local_policy_revoked : (actor : ℕ) → Event
  fault_proof_game_opened :
      (game_id challenger disputed_start_idx disputed_end_idx : ℕ) (binding_hash : List ℕ) → Event
  fault_proof_bisection_step : (game_id round party idx : ℕ) (commit : List ℕ) → Event
  fault_proof_game_settled : (game_id winner loser payout : ℕ) → Event

unfoldable pub tag : Event → ℕ
tag (balance_changed _ _ _ _) = 0
tag (nonce_advanced _ _ _) = 1
tag (identity_registered _ _) = 2
tag (identity_revoked _) = 3
tag (time_recorded _) = 4
tag (dispute_filed _ _) = 5
tag (dispute_withdrawn _) = 6
tag (verdict_applied _ _) = 7
tag (reward_issued _ _ _) = 8
tag (withdrawal_requested _ _ _ _ _) = 9
tag (deposit_credited _ _ _ _) = 10
tag (local_policy_declared _ _) = 11
tag (local_policy_revoked _) = 12
tag (fault_proof_game_opened _ _ _ _ _) = 13
tag (fault_proof_bisection_step _ _ _ _ _) = 14
tag (fault_proof_game_settled _ _ _ _) = 15

-- The number of frozen constructors.
abbrev pub event_tag_count : ℕ
event_tag_count = 16

-- What Rust's field types guarantee: `u64` and `u128` ranges, byte elements, address width.
abbrev pub IsBytes : List ℕ → Type 0
IsBytes bs = All IsByte bs

abbrev pub IsEthAddress : List ℕ → Type 0
IsEthAddress bs = IsBytes bs × (length bs ≡ 20)

abbrev pub IsTyped : Event → Type 0
IsTyped (balance_changed r a o n) = IsU64 r × IsU64 a × IsU128 o × IsU128 n
IsTyped (nonce_advanced a o n) = IsU64 a × IsU128 o × IsU128 n
IsTyped (identity_registered a k) = IsU64 a × IsBytes k
IsTyped (identity_revoked a) = IsU64 a
IsTyped (time_recorded t) = IsU64 t
IsTyped (dispute_filed c t) = IsU64 c × IsU64 t
IsTyped (dispute_withdrawn d) = IsU64 d
IsTyped (verdict_applied d o) = IsU64 d × IsU64 o
IsTyped (reward_issued r a v) = IsU64 r × IsU64 a × IsU128 v
IsTyped (withdrawal_requested r s v l w) = IsU64 r × IsU64 s × IsU128 v × IsEthAddress l × IsU64 w
IsTyped (deposit_credited r a v d) = IsU64 r × IsU64 a × IsU128 v × IsU64 d
IsTyped (local_policy_declared a p) = IsU64 a × IsBytes p
IsTyped (local_policy_revoked a) = IsU64 a
IsTyped (fault_proof_game_opened g c s e b) = IsU64 g × IsU64 c × IsU64 s × IsU64 e × IsBytes b
IsTyped (fault_proof_bisection_step g r p i b) = IsU64 g × IsU64 r × IsU64 p × IsU64 i × IsBytes b
IsTyped (fault_proof_game_settled g w l p) = IsU64 g × IsU64 w × IsU64 l × IsU128 p

-- The amounts and nonces of an event, in field order: what the encoding bounds by 2 ^ 64.
abbrev pub amounts : Event → List ℕ
amounts (balance_changed r a o n) = o ∷ n ∷ []
amounts (nonce_advanced a o n) = o ∷ n ∷ []
amounts (reward_issued r a v) = v ∷ []
amounts (withdrawal_requested r s v l w) = v ∷ []
amounts (deposit_credited r a v d) = v ∷ []
amounts (fault_proof_game_settled g w l p) = p ∷ []
amounts _ = []

-- The byte strings of an event whose length the decoder caps.
abbrev pub strings : Event → List (List ℕ)
strings (identity_registered a k) = k ∷ []
strings (local_policy_declared a p) = p ∷ []
strings (fault_proof_game_opened g c s e b) = b ∷ []
strings (fault_proof_bisection_step g r p i b) = b ∷ []
strings _ = []

-- `Event::actor`, `Event::resource` and `Event::is_balance_change`.
unfoldable pub actor_of : Event → Option ℕ
actor_of (balance_changed r a o n) = some a
actor_of (nonce_advanced a o n) = some a
actor_of (identity_registered a k) = some a
actor_of (identity_revoked a) = some a
actor_of (dispute_filed c t) = some c
actor_of (reward_issued r a v) = some a
actor_of (withdrawal_requested r s v l w) = some s
actor_of (deposit_credited r a v d) = some a
actor_of (local_policy_declared a p) = some a
actor_of (local_policy_revoked a) = some a
actor_of (fault_proof_game_opened g c s e b) = some c
actor_of (fault_proof_bisection_step g r p i b) = some p
actor_of (fault_proof_game_settled g w l p) = some w
actor_of (time_recorded t) = none
actor_of (dispute_withdrawn d) = none
actor_of (verdict_applied d o) = none

unfoldable pub resource_of : Event → Option ℕ
resource_of (balance_changed r a o n) = some r
resource_of (reward_issued r a v) = some r
resource_of (withdrawal_requested r s v l w) = some r
resource_of (deposit_credited r a v d) = some r
resource_of _ = none

unfoldable pub is_balance_change : Event → Bool
is_balance_change (balance_changed r a o n) = true
is_balance_change _ = false
