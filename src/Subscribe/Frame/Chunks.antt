-- ===== src/Subscribe/Frame/Chunks.antt =====
-- Reading from a stream that comes in chunks, whatever they are.
use canon.Prelude.{
  ℕ, zero, suc, ◌-◌, ◌≤◌, ◌<◌, ◌≡◌, refl, sym, ap, ◌∙◌, subst, arith, if_cases, ==_iff, leb→le,
  not_leb→lt, List, [], ◌∷◌, ◌++◌, length, take, drop, length-append, length-drop, leb, ◌==◌,
  if◌then◌else◌,
}
use canon.Prelude.Result.{Result, ok, err}
use canon.Subscribe.Frame.{bytes, failed, Reader, Stop, eof_after, more, fill}

-- The bytes that are still to come.
abbrev pub flat : Reader → List ℕ
flat [] = []
flat (failed ∷ chunks) = []
flat (bytes bs ∷ chunks) = bs ++ flat chunks

-- Every read gives some bytes, until the end of the stream.
abbrev pub IsClean : Reader → Type 0
IsClean [] = Unit
IsClean (failed ∷ chunks) = ⊥
IsClean (bytes [] ∷ chunks) = ⊥
IsClean (bytes (b ∷ bs) ∷ chunks) = IsClean chunks

take-over :
    (xs ys : List ℕ) (n : ℕ) → length xs ≤ n → take n (xs ++ ys) ≡ xs ++ take (n - length xs) ys
take-over [] ys n h = ground arith
take-over (x ∷ xs) ys zero h = absurd (omega arith)
take-over (x ∷ xs) ys (suc n) h = ground (arith, take-over xs ys n (omega arith))

drop-over : (xs ys : List ℕ) (n : ℕ) → length xs ≤ n → drop n (xs ++ ys) ≡ drop (n - length xs) ys
drop-over [] ys n h = ground arith
drop-over (x ∷ xs) ys zero h = absurd (omega arith)
drop-over (x ∷ xs) ys (suc n) h = ground (arith, drop-over xs ys n (omega arith))

take-within : (xs ys : List ℕ) (n : ℕ) → n ≤ length xs → take n (xs ++ ys) ≡ take n xs
take-within xs ys zero h = refl
take-within [] ys (suc n) h = absurd (omega arith)
take-within (x ∷ xs) ys (suc n) h = ap (λ (t : List ℕ). x ∷ t) (take-within xs ys n (omega arith))

drop-within : (xs ys : List ℕ) (n : ℕ) → n ≤ length xs → drop n (xs ++ ys) ≡ drop n xs ++ ys
drop-within xs ys zero h = refl
drop-within [] ys (suc n) h = absurd (omega arith)
drop-within (x ∷ xs) ys (suc n) h = drop-within xs ys n (omega arith)

-- The outcome of filling a buffer of `need` bytes.
pub record Filled (need : ℕ) (all : List ℕ) (out : Reader × Result Stop (List ℕ)) : Type 0 where
  pub rest : Reader
  pub gave : out ≡ (rest, ok (take need all))
  pub left : flat rest ≡ drop need all
  pub clean : IsClean rest

Filled-none : (all : List ℕ) (r : Reader) → flat r ≡ all → IsClean r → Filled 0 all (r, ok [])
Filled-none all r e h = record { rest = r; gave = refl; left = e; clean = h }

bytes-IsClean :
    (bs : List ℕ) (chunks : Reader) → 0 < length bs → IsClean chunks → IsClean (bytes bs ∷ chunks)
bytes-IsClean [] chunks h clean = absurd (omega arith)
bytes-IsClean (b ∷ bs) chunks h clean = clean

Filled-part :
    (need : ℕ) (bs : List ℕ) (chunks : Reader)
    → need < length bs
    → IsClean chunks
    → Filled need (bs ++ flat chunks) (bytes (drop need bs) ∷ chunks, ok (take need bs))
Filled-part need bs chunks h clean = record {
  rest = bytes (drop need bs) ∷ chunks;
  gave =
      ap (λ (got : List ℕ). (bytes (drop need bs) ∷ chunks, ok got))
        (sym (take-within bs (flat chunks) need (omega arith)));
  left = sym (drop-within bs (flat chunks) need (omega arith));
  clean = bytes-IsClean (drop need bs) chunks (omega (arith, length-drop need bs, h)) clean;
}

Filled-more :
    (need : ℕ) (bs : List ℕ) (all : List ℕ) (out : Reader × Result Stop (List ℕ))
    → length bs ≤ need
    → Filled (need - length bs) all out
    → Filled need (bs ++ all) (more bs out)
Filled-more need bs all out h f = record {
  rest = f.rest;
  gave =
      ap (more bs) f.gave ∙ ap (λ (got : List ℕ). (f.rest, ok got)) (sym (take-over bs all need h));
  left = f.left ∙ sym (drop-over bs all need h);
  clean = f.clean;
}

pub fill-Filled :
    (need : ℕ) (r : Reader)
    → IsClean r
    → need ≤ length (flat r)
    → Filled need (flat r) (fill need r)
unfolding fill
fill-Filled need [] clean h =
    let zero_is : 0 ≡ need = omega arith in
    subst (λ (n : ℕ). Filled n [] (if n == 0 then ([], ok []) else ([], err (eof_after 0)))) zero_is
      (Filled-none [] [] refl tt)
fill-Filled need (failed ∷ chunks) clean h = absurd clean
fill-Filled need (bytes [] ∷ chunks) clean h = absurd clean
fill-Filled need (bytes (b ∷ bs) ∷ chunks) clean h =
    if_cases (Filled need ((b ∷ bs) ++ flat chunks)) (need == 0)
      (λ e.
        subst (λ (n : ℕ). Filled n ((b ∷ bs) ++ flat chunks) (bytes (b ∷ bs) ∷ chunks, ok []))
          (sym ((==_iff need 0).0 e)) (Filled-none _ (bytes (b ∷ bs) ∷ chunks) refl clean))
      (λ _.
        if_cases (Filled need ((b ∷ bs) ++ flat chunks)) (leb (length (b ∷ bs)) need)
          (λ e.
            Filled-more need (b ∷ bs) (flat chunks) (fill (need - length (b ∷ bs)) chunks)
              (leb→le _ _ e)
              (fill-Filled (need - length (b ∷ bs)) chunks clean
                (omega (arith, length-append (b ∷ bs) (flat chunks)))))
          (λ e. Filled-part need (b ∷ bs) chunks (not_leb→lt _ _ e) clean))

-- A stream that ends before the buffer is full.
pub fill-short :
    (need : ℕ) (r : Reader)
    → IsClean r
    → length (flat r) < need
    → fill need r ≡ ([], err (eof_after (length (flat r))))
unfolding fill
fill-short need [] clean h = ground arith
fill-short need (failed ∷ chunks) clean h = absurd clean
fill-short need (bytes [] ∷ chunks) clean h = absurd clean
fill-short need (bytes (b ∷ bs) ∷ chunks) clean h =
    let size = length-append (b ∷ bs) (flat chunks) in
    let rest = fill-short (need - length (b ∷ bs)) chunks clean (omega (arith, size, h)) in
    let Goal : Reader × Result Stop (List ℕ) → Type 0 =
      λ out. out ≡ ([], err (eof_after (length ((b ∷ bs) ++ flat chunks)))) in
    if_cases Goal (need == 0) (λ e. absurd (omega (arith, h, (==_iff need 0).0 e)))
      (λ _.
        if_cases Goal (leb (length (b ∷ bs)) need)
          (λ _. ap (more (b ∷ bs)) rest ∙ ap (λ (n : ℕ). ([], err (eof_after n))) (sym size))
          (λ e. absurd (omega (arith, size, h, not_leb→lt _ _ e))))
