-- ===== src/Tests/Memory.antt =====
-- A store in memory: an association list that never fails, with transactions on a copy.
use canon.Prelude.{ℕ, ◌≡◌, refl, ap, List, [], ◌∷◌, take, if◌then◌else◌}
use canon.Prelude.Result.{Result, ok, err}
use canon.Prelude.Maps.{get, insert, get-insert, get-insert_ne}
use canon.Bytes.Laws.{same_bytes_refl, same_bytes-eq}
use canon.Bytes.{same_bytes}
use canon.Indexer.Balance.{Storage}
use canon.Indexer.Database.{Database}

abbrev pub Rows : Type 0
Rows = List (List ℕ × List ℕ)

unfoldable pub under : List ℕ → Rows → Rows
under p [] = []
under p ((k, v) ∷ s) =
    let rest = under p s in if same_bytes (take 2 k) p then (k, v) ∷ rest else rest

abbrev pub memory : Storage
memory = record {
  State = Rows;
  Error = Unit;
  read = λ s k. ok (get same_bytes s k);
  put = λ s k v. (insert same_bytes s k v, ok tt);
  scan = λ s p. ok (under p s);
  read-put_self = λ s k v e. ap ok (get-insert same_bytes same_bytes_refl same_bytes-eq s k v);
  read-put_ne =
      λ s k v j ne e. ap ok (get-insert_ne same_bytes same_bytes_refl same_bytes-eq s k v j ne);
}

pub begun_same :
    (s tx : Rows) (k : List ℕ)
    → ◌≡◌ {A = Result (Unit {0}) Rows} (ok s) (ok tx)
    → memory.read tx k ≡ memory.read s k
begun_same s tx k e = cc e

pub never_fails :
    {A : Type 0} (x : Unit {0}) → ◌≡◌ {A = Result (Unit {0}) (Unit {0})} (ok tt) (err x) → A
never_fails x e = absurd (cc e)

abbrev pub disk : Database memory
disk = record {
  begin = λ s. ok s;
  commit = λ s tx. (tx, ok tt);
  read-begin = begun_same;
  read-commit = λ s tx k e. refl;
  failed-commit = λ s tx e f. never_fails e f;
}
