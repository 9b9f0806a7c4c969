-- ===== src/L1/Reorg/Invariant.antt =====
-- The window invariant, over any run of `advance`.
use canon.Prelude.{
  ℕ, ◌-◌, ◌≤◌, ◌≡◌, refl, sym, ap, ◌∙◌, subst, arith, inl, inr, ◌⊎◌, some, Bool-cases, List, [],
  ◌∷◌, ◌++◌, append_assoc, length, length-append, pop_front, back, back_or, All, All-append, ◌==◌,
}
use canon.Prelude.Result.{ok, err}
use canon.Bytes.{IsU64}
use canon.L1.Reorg.{
  BlockHeader, ReorgWindow, deep_reorg, orphaned_parent, non_monotone, advanced, reorged, Answer,
  push_bounded, new, advance,
}
use canon.L1.Reorg.Chain.{IsLinear, LinksFrom-append, IsLinear-front}
use canon.L1.Reorg.Outcome.{IsValid, Extends, Replaced, Explained, advance-Explained}

abbrev U64s : List BlockHeader → Type 0
U64s hs = All (λ h. IsU64 h.number) hs

append-IsLinear :
    (hs : List BlockHeader) (k : BlockHeader)
    → IsLinear hs
    → ((last : BlockHeader) → back hs ≡ some last → Extends k last)
    → IsLinear (hs ++ k ∷ [])
append-IsLinear [] k l x = tt
append-IsLinear (h ∷ hs) k l x = let e = x (back_or h hs) refl in LinksFrom-append h hs k l e.0 e.1

popped-IsLinear : (hs : List BlockHeader) → IsLinear hs → IsLinear (pop_front hs)
popped-IsLinear [] l = tt
popped-IsLinear (h ∷ []) l = tt
popped-IsLinear (h ∷ x ∷ xs) l = l.2

popped-back :
    (hs : List BlockHeader) (last : BlockHeader)
    → back (pop_front hs) ≡ some last
    → back hs ≡ some last
popped-back [] last e = e
popped-back (h ∷ []) last e = cc e
popped-back (h ∷ x ∷ xs) last e = e

push_bounded-IsLinear :
    (cap : ℕ) (hs : List BlockHeader) (k : BlockHeader)
    → IsLinear hs
    → ((last : BlockHeader) → back hs ≡ some last → Extends k last)
    → IsLinear (push_bounded cap hs k)
unfolding push_bounded
push_bounded-IsLinear cap hs k l x = elim (Bool-cases (length hs == cap)) [
  | inl full ↦ rw full (
      append-IsLinear (pop_front hs) k (popped-IsLinear hs l)
        λ last e. x last (popped-back hs last e))
  | inr loose ↦ rw loose (append-IsLinear hs k l x)
]

popped-U64s : (hs : List BlockHeader) → U64s hs → U64s (pop_front hs)
popped-U64s [] a = a
popped-U64s (h ∷ hs) a = a.1

push_bounded-U64s :
    (cap : ℕ) (hs : List BlockHeader) (k : BlockHeader)
    → U64s hs
    → IsU64 k.number
    → U64s (push_bounded cap hs k)
unfolding push_bounded
push_bounded-U64s cap hs k a small = elim (Bool-cases (length hs == cap)) [
  | inl full ↦ rw full (
      All-append (λ (h : BlockHeader). IsU64 h.number) (pop_front hs) (k ∷ []) (popped-U64s hs a)
        (small, tt))
  | inr loose ↦
      rw loose (All-append (λ (h : BlockHeader). IsU64 h.number) hs (k ∷ []) a (small, tt))
]

length-pop_front : (hs : List BlockHeader) → length (pop_front hs) ≡ length hs - 1
length-pop_front [] = omega arith
length-pop_front (h ∷ hs) = omega arith

length-push_bounded :
    (cap : ℕ) (hs : List BlockHeader) (k : BlockHeader)
    → 1 ≤ cap
    → length hs ≤ cap
    → length (push_bounded cap hs k) ≤ cap
unfolding push_bounded
length-push_bounded cap hs k room h = elim (Bool-cases (length hs == cap)) [
  | inl full ↦
      rw full (ground (arith, full, length-append (pop_front hs) (k ∷ []), length-pop_front hs))
  | inr loose ↦ rw loose (ground (arith, loose, length-append hs (k ∷ [])))
]

empty_or_extended :
    (w : ReorgWindow) (k : BlockHeader)
    → (w.buffer ≡ []) ⊎ ((last : BlockHeader) × (back w.buffer ≡ some last) × Extends k last)
    → (last : BlockHeader) → back w.buffer ≡ some last
    → Extends k last
empty_or_extended w k (inl e) last h = cc (ap back e, h)
empty_or_extended w k (inr (l, b, x)) last h =
    let same : l ≡ last = cc (b, h) in subst (Extends k) same x

front-U64s : (xs ys : List BlockHeader) → U64s (xs ++ ys) → U64s xs
front-U64s [] ys a = tt
front-U64s (x ∷ xs) ys a = (a.0, front-U64s xs ys a.1)

Replaced-IsValid :
    (incoming : BlockHeader) (w w' : ReorgWindow) (n : ℕ)
    → IsU64 incoming.number
    → IsValid w
    → Replaced incoming w w' n
    → IsValid w'
Replaced-IsValid incoming w w' n small v r = record {
  room = omega (arith, v.room, r.capacity);
  bounded = omega (
    arith,
    v.bounded,
    r.capacity,
    r.counted,
    r.some_dropped,
    ap length r.before,
    ap length r.after,
    length-append r.kept (r.ancestor ∷ r.orphans),
    length-append (r.kept ++ r.ancestor ∷ []) (incoming ∷ []),
    length-append r.kept (r.ancestor ∷ []),
  );
  linear = subst IsLinear (sym r.after) (
      IsLinear-front r.kept r.ancestor r.orphans incoming (subst IsLinear r.before v.linear)
        r.extends.0 r.extends.1);
  numbers = subst U64s (sym r.after) (
      All-append (λ (h : BlockHeader). IsU64 h.number) (r.kept ++ r.ancestor ∷ []) (incoming ∷ [])
        (front-U64s (r.kept ++ r.ancestor ∷ []) r.orphans
          (subst U64s (r.before ∙ sym (append_assoc r.kept (r.ancestor ∷ []) r.orphans)) v.numbers))
        (small, tt));
}

Explained-IsValid :
    (incoming : BlockHeader) (w : ReorgWindow) (a : Answer)
    → IsU64 incoming.number
    → IsValid w
    → Explained incoming w a
    → IsValid a.0
Explained-IsValid incoming w (w', ok advanced) small v (why, b, c) = record {
  room = omega (arith, v.room, c);
  bounded =
      omega
        (arith, ap length b, c, length-push_bounded w.capacity w.buffer incoming v.room v.bounded);
  linear = subst IsLinear (sym b) (
      push_bounded-IsLinear w.capacity w.buffer incoming v.linear
        (empty_or_extended w incoming why));
  numbers = subst U64s (sym b) (push_bounded-U64s w.capacity w.buffer incoming v.numbers small);
}
Explained-IsValid incoming w (w', ok (reorged n m)) small v (r, _) =
    Replaced-IsValid incoming w w' n small v r
Explained-IsValid incoming w (w', err (deep_reorg n m)) small v x = subst IsValid (sym x.0) v
Explained-IsValid incoming w (w', err (orphaned_parent n)) small v x = subst IsValid (sym x.0) v
Explained-IsValid incoming w (w', err (non_monotone n m)) small v x = subst IsValid (sym x.0) v

-- Whatever the answer, a valid window stays valid: within its capacity, of 64-bit numbers, each
-- header linked to the one before by hash and by the next number.
pub advance-IsValid :
    (incoming : BlockHeader) (w : ReorgWindow)
    → IsU64 incoming.number
    → IsValid w
    → IsValid (advance incoming w).0
advance-IsValid incoming w small v =
    Explained-IsValid incoming w (advance incoming w) small v (advance-Explained incoming w small v)

-- The windows that a new one can become, whatever blocks the chain shows.
pub data Reachable (w : ReorgWindow) : ReorgWindow → Type 0 where
  fresh : Reachable w w
  fed :
      {u : ReorgWindow} (incoming : BlockHeader)
      → Reachable w u
      → IsU64 incoming.number
      → Reachable w (advance incoming u).0

Reachable-IsValid : {w u : ReorgWindow} → IsValid w → Reachable w u → IsValid u
Reachable-IsValid v fresh = v
Reachable-IsValid v (fed incoming r small) =
    advance-IsValid incoming _ small (Reachable-IsValid v r)

new-IsValid : (capacity : ℕ) (w : ReorgWindow) → new capacity ≡ some w → IsValid w
unfolding new
new-IsValid capacity w h = record {
  room = ground arith;
  bounded = ground arith;
  linear = subst IsLinear (let e : [] ≡ w.buffer = ground arith in e) tt;
  numbers = subst U64s (let e : [] ≡ w.buffer = ground arith in e) tt;
}

-- Every window that a new one becomes through any number of 64-bit blocks, answered in any way, is
-- within its capacity and holds a linked chain.
pub Reachable-new :
    (capacity : ℕ) (w u : ReorgWindow) → new capacity ≡ some w → Reachable w u → IsValid u
Reachable-new capacity w u made r = Reachable-IsValid (new-IsValid capacity w made) r
