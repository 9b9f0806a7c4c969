-- ===== src/L1/Reorg/Chain.antt =====
-- Linked headers, and what the backwards walk finds among them.
use canon.Prelude.{
  ℕ, ◌+◌, ◌-◌, ◌≡◌, refl, sym, ap, ◌∙◌, subst, arith, Bool, true, false, inl, inr, none, some,
  Option-cases, Bool-cases, List, [], ◌∷◌, ◌++◌, length, length-append, append_assoc, take-append,
  drop-append, take, drop, back, back_or, All,
}
use canon.L1.Reorg.{BlockHeader, rposition}

-- Each header names the one before it as its parent, at the next number.
abbrev pub LinksFrom : BlockHeader → List BlockHeader → Type 0
LinksFrom h [] = Unit
LinksFrom h (k ∷ ks) = (k.parent_hash ≡ h.hash) × (k.number ≡ h.number + 1) × LinksFrom k ks

abbrev pub IsLinear : List BlockHeader → Type 0
IsLinear [] = Unit
IsLinear (h ∷ hs) = LinksFrom h hs

pub LinksFrom-append :
    (h : BlockHeader) (xs : List BlockHeader) (k : BlockHeader)
    → LinksFrom h xs
    → k.parent_hash ≡ (back_or h xs).hash
    → k.number ≡ (back_or h xs).number + 1
    → LinksFrom h (xs ++ k ∷ [])
LinksFrom-append h [] k l p n = (p, n, tt)
LinksFrom-append h (x ∷ xs) k l p n = (l.0, l.1, LinksFrom-append x xs k l.2 p n)

pub LinksFrom-front :
    (h : BlockHeader) (xs ys : List BlockHeader) → LinksFrom h (xs ++ ys) → LinksFrom h xs
LinksFrom-front h [] ys l = tt
LinksFrom-front h (x ∷ xs) ys l = (l.0, l.1, LinksFrom-front x xs ys l.2)

pub LinksFrom-back :
    (h : BlockHeader) (xs ys : List BlockHeader)
    → LinksFrom h (xs ++ ys)
    → LinksFrom (back_or h xs) ys
LinksFrom-back h [] ys l = l
LinksFrom-back h (x ∷ xs) ys l = LinksFrom-back x xs ys l.2

-- The numbers go up by one from header to header.
pub back_or-number :
    (h : BlockHeader) (xs : List BlockHeader)
    → LinksFrom h xs
    → (back_or h xs).number ≡ h.number + length xs
back_or-number h [] l = omega arith
back_or-number h (x ∷ xs) l = omega (arith, back_or-number x xs l.2, l.1)

pub back_or-append :
    (h : BlockHeader) (xs : List BlockHeader) (k : BlockHeader) → back_or h (xs ++ k ∷ []) ≡ k
back_or-append h [] k = refl
back_or-append h (x ∷ xs) k = back_or-append x xs k

-- A header found stands between the headers before it and those behind.
pub record Found (accepts : BlockHeader → Bool) (hs : List BlockHeader) (i j : ℕ) : Type 0 where
  pub before : List BlockHeader
  pub it : BlockHeader
  pub behind : List BlockHeader
  pub splits : hs ≡ before ++ it ∷ behind
  pub index : j ≡ i + length before
  pub accepted : accepts it ≡ true

pub rposition-Found :
    (accepts : BlockHeader → Bool) (hs : List BlockHeader) (i j : ℕ)
    → rposition accepts hs i ≡ some j
    → Found accepts hs i j
unfolding rposition
rposition-Found accepts [] i j e = cc e
rposition-Found accepts (h ∷ hs) i j e = elim (Option-cases (rposition accepts hs (i + 1))) [
  | inr (k, deeper) ↦
      let f = rposition-Found accepts hs (i + 1) k deeper in
      record {
        before = h ∷ f.before;
        it = f.it;
        behind = f.behind;
        splits = ap (λ (t : List BlockHeader). h ∷ t) f.splits;
        index = ground (arith, deeper, e, f.index);
        accepted = f.accepted;
      }
  | inl nothing ↦ elim (Bool-cases (accepts h)) [
    | inl yes_h ↦ record {
      before = [];
      it = h;
      behind = hs;
      splits = refl;
      index = ground (arith, nothing, e, yes_h);
      accepted = yes_h;
    }
    | inr not_h ↦ cc (rw not_h at (rw nothing at e))
  ]
]

pub rposition-none :
    (accepts : BlockHeader → Bool) (hs : List BlockHeader) (i : ℕ)
    → rposition accepts hs i ≡ none
    → All (λ h. accepts h ≡ false) hs
unfolding rposition
rposition-none accepts [] i e = tt
rposition-none accepts (h ∷ hs) i e = elim (Option-cases (rposition accepts hs (i + 1))) [
  | inr (k, deeper) ↦ cc (rw deeper at e)
  | inl nothing ↦ elim (Bool-cases (accepts h)) [
    | inl yes_h ↦ cc (rw yes_h at (rw nothing at e))
    | inr not_h ↦ (not_h, rposition-none accepts hs (i + 1) nothing)
  ]
]

-- The cuts that `truncate(i + 1)` and `get(i + 1)` make at the header found.
module _ (before : List BlockHeader) (it : BlockHeader) (behind : List BlockHeader) where
  regroup : before ++ it ∷ behind ≡ (before ++ it ∷ []) ++ behind
  regroup = sym (append_assoc before (it ∷ []) behind)

  size : length (before ++ it ∷ []) ≡ length before + 1
  size = length-append before (it ∷ []) ∙ omega arith

  pub take-found : take (length before + 1) (before ++ it ∷ behind) ≡ before ++ it ∷ []
  take-found =
      ap (λ (n : ℕ). take n (before ++ it ∷ behind)) (sym size)
      ∙ ap (take (length (before ++ it ∷ []))) regroup
      ∙ take-append (before ++ it ∷ []) behind

  pub drop-found : drop (length before + 1) (before ++ it ∷ behind) ≡ behind
  drop-found =
      ap (λ (n : ℕ). drop n (before ++ it ∷ behind)) (sym size)
      ∙ ap (drop (length (before ++ it ∷ []))) regroup
      ∙ drop-append (before ++ it ∷ []) behind

  pub length-found : length (before ++ it ∷ behind) - (length before + 1) ≡ length behind
  length-found = omega (arith, length-append before (it ∷ behind))

pub IsLinear-middle :
    (before : List BlockHeader) (it : BlockHeader) (behind : List BlockHeader)
    → IsLinear (before ++ it ∷ behind)
    → LinksFrom it behind
IsLinear-middle [] it behind l = l
IsLinear-middle (y ∷ ys) it behind l = (LinksFrom-back y ys (it ∷ behind) l).2

pub IsLinear-front :
    (xs : List BlockHeader) (it : BlockHeader) (behind : List BlockHeader) (k : BlockHeader)
    → IsLinear (xs ++ it ∷ behind)
    → k.parent_hash ≡ it.hash
    → k.number ≡ it.number + 1
    → IsLinear ((xs ++ it ∷ []) ++ k ∷ [])
IsLinear-front [] it behind k l p n = (p, n, tt)
IsLinear-front (y ∷ ys) it behind k l p n =
    let up_to =
      LinksFrom-front y (ys ++ it ∷ []) behind
        (subst (LinksFrom y) (sym (append_assoc ys (it ∷ []) behind)) l) in
    LinksFrom-append y (ys ++ it ∷ []) k up_to
      (p ∙ ap (λ (b : BlockHeader). b.hash) (sym (back_or-append y ys it)))
      (n ∙ ap (λ (b : BlockHeader). b.number + 1) (sym (back_or-append y ys it)))

pub back-append : (xs : List BlockHeader) (k : BlockHeader) → back (xs ++ k ∷ []) ≡ some k
back-append [] k = refl
back-append (x ∷ xs) k = ap some (back_or-append x xs k)

pub back-middle :
    (xs : List BlockHeader) (it : BlockHeader) (ys : List BlockHeader)
    → back (xs ++ it ∷ ys) ≡ some (back_or it ys)
back-middle [] it ys = refl
back-middle (x ∷ xs) it ys = ap some (go x xs)
  where
    go : (y : BlockHeader) (zs : List BlockHeader) → back_or y (zs ++ it ∷ ys) ≡ back_or it ys
    go y [] = refl
    go y (z ∷ zs) = go z zs
