-- ===== src/Indexer/Database.antt =====
-- The transactions of runtime/canon-storage/src/storage.rs over a store. A transaction's working view
-- is a state of the same kind; dropping it leaves the store as it is.
use canon.Prelude.{ℕ, ◌≡◌, ◌⊎◌, Option, List}
use canon.Prelude.Result.{Result, ok, err}
use canon.Indexer.Balance.{Storage}

-- What a successful read finds in `t`, it finds in `s`.
abbrev pub ReadsAs : (S : Storage) → S.State → S.State → Type 0
ReadsAs S t s = (k : List ℕ) (v : Option (List ℕ)) → S.read t k ≡ ok v → S.read s k ≡ ok v

-- `transaction()` and `commit()`. A working view starts from the committed state; a commit makes the
-- view visible whole; one that reports a failure has left either state.
pub record Database (S : Storage) : Type 0 where
  pub begin : S.State → Result S.Error S.State
  pub commit : S.State → S.State → S.State × Result S.Error (Unit {0})
  pub read-begin : (s tx : S.State) (k : List ℕ) → begin s ≡ ok tx → S.read tx k ≡ S.read s k
  pub read-commit :
      (s tx : S.State) (k : List ℕ)
      → (commit s tx).1 ≡ ok tt
      → S.read (commit s tx).0 k ≡ S.read tx k
  pub failed-commit :
      (s tx : S.State) (e : S.Error)
      → (commit s tx).1 ≡ err e
      → ReadsAs S (commit s tx).0 s ⊎ ReadsAs S (commit s tx).0 tx
