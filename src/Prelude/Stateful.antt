-- ===== src/Prelude/Stateful.antt =====
-- Fallible steps on a state, as functions from the state to the new state with a result: `&mut` code
-- with `?`. An error keeps the state that it was met in.
use mathlib.Core.Path.{◌≡◌, refl}
use canon.Prelude.Result.{Result, ok, err}

abbrev pub Run : Type 0 → Type 0 → Type 0 → Type 0
Run S E A = S → S × Result E A

abbrev pub pure : {S E A : Type 0} → A → Run S E A
pure a s = (s, ok a)

abbrev pub continue : {S E A B : Type 0} → S × Result E A → (A → Run S E B) → S × Result E B
continue (s, ok a) f = f a s
continue (s, err e) f = (s, err e)

infixl 5 ◌>>=◌ ◌>>◌
abbrev pub ◌>>=◌ : {S E A B : Type 0} → Run S E A → (A → Run S E B) → Run S E B
◌>>=◌ m f s = continue (m s) f

abbrev pub ◌>>◌ : {S E A B : Type 0} → Run S E A → Run S E B → Run S E B
m >> k = m >>= λ _. k

abbrev pub or_err : {S E F A : Type 0} → (E → F) → S × Result E A → S × Result F A
or_err f (s, ok a) = (s, ok a)
or_err f (s, err e) = (s, err (f e))

-- `?` with `From` for the error.
abbrev pub map_err : {S E F A : Type 0} → (E → F) → Run S E A → Run S F A
map_err f m s = or_err f (m s)

pub continue-eq-ok :
    {S E A B : Type 0} (p : S × Result E A) (f : A → Run S E B) (t : S) (b : B)
    → continue p f ≡ (t, ok b)
    → (s : S) × (a : A) × (p ≡ (s, ok a)) × (f a s ≡ (t, ok b))
continue-eq-ok (s, ok a) f t b h = (s, a, refl, h)
continue-eq-ok (s, err e) f t b h = cc h

pub or_err-eq-ok :
    {S E F A : Type 0} (f : E → F) (p : S × Result E A) (t : S) (a : A)
    → or_err f p ≡ (t, ok a)
    → p ≡ (t, ok a)
or_err-eq-ok f (s, ok b) t a h = cc h
or_err-eq-ok f (s, err e) t a h = cc h
