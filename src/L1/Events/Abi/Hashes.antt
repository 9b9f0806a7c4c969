-- ===== src/L1/Events/Abi/Hashes.antt =====
-- The four signatures are found by their hashes.
use canon.Prelude.{
  ℕ, ◌≡◌, ap, arith, Bool, true, ◌==◌, if◌then◌else◌, if_cases, ==_iff, Option, some, List, [], ◌∷◌,
}
use canon.L1.Reorg.{TopicHash}
use canon.L1.Events.{
  EventTopic, registered_ecdsa_topic, registered_eip1271_topic, revoked_topic,
  deposit_initiated_topic, topic_hash, find_hash, from_hash,
}
use canon.L1.Events.Abi.{TellsApart}

module _ (keccak256 : List ℕ → TopicHash) (apart : TellsApart keccak256) where
  find_hash-here :
      (e : EventTopic) (rest : List EventTopic)
      → find_hash keccak256 (topic_hash keccak256 e) (e ∷ rest) ≡ some e
  find_hash-here e rest =
      let same : (topic_hash keccak256 e == topic_hash keccak256 e) ≡ true = ground arith in
      ap (λ (b : Bool). if b then some e else find_hash keccak256 (topic_hash keccak256 e) rest)
        same

  find_hash-behind :
      (v e : EventTopic) (rest : List EventTopic)
      → find_hash keccak256 (topic_hash keccak256 e) rest ≡ some e
      → find_hash keccak256 (topic_hash keccak256 e) (v ∷ rest) ≡ some e
  find_hash-behind v e rest h =
      if_cases (λ (o : Option EventTopic). o ≡ some e)
        (topic_hash keccak256 v == topic_hash keccak256 e)
        (λ t. ap some (apart v e ((==_iff _ _).0 t))) (λ _. h)

  abbrev after_eip1271 : List EventTopic
  after_eip1271 = revoked_topic ∷ deposit_initiated_topic ∷ []

  pub from_hash-topic_hash :
      (e : EventTopic) → from_hash keccak256 (topic_hash keccak256 e) ≡ some e
  unfolding from_hash
  from_hash-topic_hash registered_ecdsa_topic =
      find_hash-here registered_ecdsa_topic (registered_eip1271_topic ∷ after_eip1271)
  from_hash-topic_hash registered_eip1271_topic =
      find_hash-behind registered_ecdsa_topic registered_eip1271_topic
        (registered_eip1271_topic ∷ after_eip1271)
        (find_hash-here registered_eip1271_topic after_eip1271)
  from_hash-topic_hash revoked_topic =
      find_hash-behind registered_ecdsa_topic revoked_topic
        (registered_eip1271_topic ∷ after_eip1271)
        (find_hash-behind registered_eip1271_topic revoked_topic after_eip1271
          (find_hash-here revoked_topic (deposit_initiated_topic ∷ [])))
  from_hash-topic_hash deposit_initiated_topic =
      find_hash-behind registered_ecdsa_topic deposit_initiated_topic
        (registered_eip1271_topic ∷ after_eip1271)
        (find_hash-behind registered_eip1271_topic deposit_initiated_topic after_eip1271 (
          find_hash-behind revoked_topic deposit_initiated_topic (deposit_initiated_topic ∷ [])
            (find_hash-here deposit_initiated_topic [])))
