-- ===== src/Prelude/Result.antt =====
-- Rust's `Result`, with the error type first, and `?` as the monad's bind.
use mathlib.Core.Path.{◌≡◌, refl, ap, ◌∙◌}
use mathlib.Core.Bool.{Bool, true, false}

pub data Result {ℓ κ} (E : Type ℓ) (A : Type κ) : Type (ℓ ⊔ κ) where
  ok : A → Result E A
  err : E → Result E A

infixl 5 ◌>>=◌ ◌>>◌
abbrev pub ◌>>=◌ {ℓ κ ι} :
    {E : Type ℓ} {A : Type κ} {B : Type ι} → Result E A → (A → Result E B) → Result E B
ok a >>= f = f a
err e >>= f = err e

abbrev pub ◌>>◌ {ℓ κ} : {E : Type ℓ} {B : Type κ} → Result E (Unit {0}) → Result E B → Result E B
m >> k = m >>= λ _. k

-- `if !test { return Err(e) }`.
abbrev pub ensure {ℓ} : {E : Type ℓ} → Bool → E → Result E (Unit {0})
ensure true e = ok tt
ensure false e = err e

module _ {ℓ κ ι} {E : Type ℓ} {A : Type κ} {B : Type ι} where
  -- Where a chain succeeds, its first step did, and the rest on what that gave.
  pub >>=-eq-ok :
      (first : Result E A) (rest : A → Result E B) {out : B}
      → (first >>= rest) ≡ ok out
      → (it : A) × (first ≡ ok it) × (rest it ≡ ok out)
  >>=-eq-ok (err failure) rest done = cc done
  >>=-eq-ok (ok it) rest done = (it, refl, done)

  -- One step of a chain that succeeds.
  pub step_ok :
      {first : Result E A} {it : A} (rest : A → Result E B) {out : Result E B}
      → first ≡ ok it
      → rest it ≡ out
      → (first >>= rest) ≡ out
  step_ok rest done next = ap (λ m. m >>= rest) done ∙ next
