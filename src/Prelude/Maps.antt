-- ===== src/Prelude/Maps.antt =====
-- A map as an association list with one entry for each key, under a test for equal keys.
use mathlib.Core.Path.{◌≡◌}
use mathlib.Core.Logic.{◌≢◌}
use mathlib.Core.Bool.{Bool, true}
use mathlib.Core.Option.{Option, none, some}
use mathlib.Core.List.{List, [], ◌∷◌}
use native.Mathlib.Omega.{arith}
use canon.Prelude.Tests.{if◌then◌else◌}

module _ {ℓ κ} {K : Type ℓ} {V : Type κ} (same : K → K → Bool) where
  unfoldable pub get : List (K × V) → K → Option V
  get [] k = none
  get ((j, w) ∷ s) k = if same j k then some w else get s k

  -- The old value of the key, if there is one, is replaced.
  unfoldable pub insert : List (K × V) → K → V → List (K × V)
  insert [] k v = (k, v) ∷ []
  insert ((j, w) ∷ s) k v =
      let rest = insert s k v in if same j k then (k, v) ∷ s else (j, w) ∷ rest

  module _ (same_refl : (k : K) → same k k ≡ true)
      (same-eq : (j k : K) → same j k ≡ true → j ≡ k) where
    pub get-insert : (s : List (K × V)) (k : K) (v : V) → get (insert s k v) k ≡ some v
    unfolding get insert
    get-insert [] k v = ground (arith, same_refl k)
    get-insert ((j, w) ∷ s) k v = ground (arith, same_refl k, get-insert s k v)

    pub get-insert_ne :
        (s : List (K × V)) (k : K) (v : V) (j : K) → k ≢ j → get (insert s k v) j ≡ get s j
    unfolding get insert
    get-insert_ne [] k v j ne = ground (arith, ne, same-eq k j)
    get-insert_ne ((i, w) ∷ s) k v j ne =
        ground (arith, ne, same-eq k j, same-eq i j, same-eq i k, get-insert_ne s k v j ne)
