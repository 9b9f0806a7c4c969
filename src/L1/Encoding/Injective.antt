-- ===== src/L1/Encoding/Injective.antt =====
-- Actions with the same bytes are the same action.
use canon.Prelude.{
  ℕ, ◌%◌, ◌≡◌, refl, sym, ap, ◌∙◌, arith, Option, none, some, List, [], ◌∷◌, ◌++◌, append_assoc,
  length, take, drop, take-append, drop-append, All,
}
use canon.Prelude.Result.{ok}
use canon.Bytes.{IsByte, IsU64, IsU128, to_le_bytes, from_le_bytes, u64_mod}
use canon.Bytes.Laws.{from_le_bytes-to_le_bytes, length-to_le_bytes}
use canon.L1.Action.{
  Action, tag, transfer, mint, burn, freeze_resource, replace_key, reward, distribute_others,
  proportional_dilute, dispute_withdraw, rollback, register_identity, deposit, withdraw,
  revoke_local_policy, fault_proof_challenge, fault_proof_resolution,
}
use canon.L1.Encoding.{EncodeError, cbe_tag_uint, cbe_tag_bytes, encode_action}
use canon.L1.Encoding.Fields.{
  Field, id, amount, bytes, fields, field_bytes, all_bytes, first_bad, or_refused, encoded,
  encode_action-encoded,
}

-- What Rust's types guarantee of a field, and what a written one satisfies.
abbrev pub FieldTyped : Field → Type 0
FieldTyped (id n) = IsU64 n
FieldTyped (amount n) = IsU128 n
FieldTyped (bytes s) = All IsByte s

abbrev pub IsTyped : Action → Type 0
IsTyped a = All FieldTyped (fields a)

abbrev pub IsWritten : Field → Type 0
IsWritten (id n) = IsU64 n
IsWritten (amount n) = IsU64 n
IsWritten (bytes s) = IsU64 (length s)

pub All-IsWritten : (fs : List Field) → All FieldTyped fs → first_bad fs ≡ none → All IsWritten fs
All-IsWritten [] t e = tt
All-IsWritten (id n ∷ fs) t e = (t.0, All-IsWritten fs t.1 e)
All-IsWritten (amount n ∷ fs) t e = (ground arith, All-IsWritten fs t.1 (ground arith))
All-IsWritten (bytes s ∷ fs) t e = (ground arith, All-IsWritten fs t.1 (ground arith))

pub encoded-eq-ok :
    (fs : List Field) (p : List ℕ) → encoded fs ≡ ok p → (first_bad fs ≡ none) × (p ≡ all_bytes fs)
encoded-eq-ok fs p e = go (first_bad fs) e
  where
    go :
        (o : Option EncodeError)
        → or_refused o (all_bytes fs) ≡ ok p
        → (o ≡ none) × (p ≡ all_bytes fs)
    go none h = (refl, cc h)
    go (some x) h = cc h

append_cancel :
    (xs ys u v : List ℕ) → length xs ≡ length ys → xs ++ u ≡ ys ++ v → (xs ≡ ys) × (u ≡ v)
append_cancel xs ys u v n e = (
  sym (take-append xs u)
      ∙ ap (take (length xs)) e
      ∙ ap (λ (k : ℕ). take k (ys ++ v)) n
      ∙ take-append ys v,
  sym (drop-append xs u)
      ∙ ap (drop (length xs)) e
      ∙ ap (λ (k : ℕ). drop k (ys ++ v)) n
      ∙ drop-append ys v,
)

-- The number of a head, and what follows the head.
head_cancel :
    (t n m : ℕ) (u v : List ℕ)
    → IsU64 n
    → IsU64 m
    → t ∷ (to_le_bytes 8 n ++ u) ≡ t ∷ (to_le_bytes 8 m ++ v)
    → (n ≡ m) × (u ≡ v)
head_cancel t n m u v hn hm e =
    let r =
      append_cancel (to_le_bytes 8 n) (to_le_bytes 8 m) u v
        (length-to_le_bytes 8 n ∙ sym (length-to_le_bytes 8 m)) (ap (drop 1) e) in
    (
      sym (from_le_bytes-to_le_bytes 8 n hn)
          ∙ ap from_le_bytes r.0
          ∙ from_le_bytes-to_le_bytes 8 m hm,
      r.1,
    )

pub data Kind : Type 0 where
  an_id an_amount some_bytes : Kind

abbrev pub kind : Field → Kind
kind (id n) = an_id
kind (amount n) = an_amount
kind (bytes s) = some_bytes

abbrev pub SameKinds : List Field → List Field → Type 0
SameKinds [] [] = Unit
SameKinds (f ∷ fs) (g ∷ gs) = (kind f ≡ kind g) × SameKinds fs gs
SameKinds _ _ = ⊥

field_cancel :
    (f g : Field) (x y : List ℕ)
    → kind f ≡ kind g
    → IsWritten f
    → IsWritten g
    → field_bytes f ++ x ≡ field_bytes g ++ y
    → (f ≡ g) × (x ≡ y)
unfolding field_bytes
field_cancel (id n) (id m) x y k hf hg e =
    let r = head_cancel cbe_tag_uint n m x y hf hg e in (ap id r.0, r.1)
field_cancel (amount n) (amount m) x y k hf hg e =
    let r =
      head_cancel cbe_tag_uint (n % u64_mod) (m % u64_mod) x y (omega arith) (omega arith) e in
    (ap amount (omega (arith, r.0)), r.1)
field_cancel (bytes s) (bytes t) x y k hf hg e =
    let r = head_cancel cbe_tag_bytes (length s) (length t) (s ++ x) (t ++ y) hf hg (
      ap (λ (w : List ℕ). cbe_tag_bytes ∷ w)
        (sym (append_assoc (to_le_bytes 8 (length s)) s x)
          ∙ ap (drop 1) e
          ∙ append_assoc (to_le_bytes 8 (length t)) t y)) in
    let q = append_cancel s t x y r.0 r.1 in (ap bytes q.0, q.1)
field_cancel (id n) (amount m) x y k hf hg e = cc k
field_cancel (id n) (bytes m) x y k hf hg e = cc k
field_cancel (amount n) (id m) x y k hf hg e = cc k
field_cancel (amount n) (bytes m) x y k hf hg e = cc k
field_cancel (bytes n) (id m) x y k hf hg e = cc k
field_cancel (bytes n) (amount m) x y k hf hg e = cc k

-- Field lists of the same kinds delimit themselves.
pub all_bytes-cancel :
    (fs gs : List Field) (x y : List ℕ)
    → SameKinds fs gs
    → All IsWritten fs
    → All IsWritten gs
    → all_bytes fs ++ x ≡ all_bytes gs ++ y
    → (fs ≡ gs) × (x ≡ y)
all_bytes-cancel [] [] x y k hf hg e = (refl, e)
all_bytes-cancel [] (g ∷ gs) x y k hf hg e = absurd k
all_bytes-cancel (f ∷ fs) [] x y k hf hg e = absurd k
all_bytes-cancel (f ∷ fs) (g ∷ gs) x y k hf hg e =
    let (first, rest) = field_cancel f g (all_bytes fs ++ x) (all_bytes gs ++ y) k.0 hf.0 hg.0 (
      sym (append_assoc (field_bytes f) (all_bytes fs) x)
      ∙ e
      ∙ append_assoc (field_bytes g) (all_bytes gs) y) in
    let (others, behind) = all_bytes-cancel fs gs x y k.1 hf.1 hg.1 rest in
    (cc (first, others), behind)

-- The tag decides the constructor, and so the kinds of the fields.
same_constructor :
    (a b : Action) → tag a ≡ tag b → SameKinds (fields a) (fields b) × (fields a ≡ fields b → a ≡ b)
unfolding tag
same_constructor (transfer x0 x1 x2 x3) (transfer y0 y1 y2 y3) t =
    ((refl, (refl, (refl, (refl, tt)))), λ e. cc e)
same_constructor (transfer x0 x1 x2 x3) _ t = absurd (omega arith)
same_constructor (mint x0 x1 x2) (mint y0 y1 y2) t = ((refl, (refl, (refl, tt))), λ e. cc e)
same_constructor (mint x0 x1 x2) _ t = absurd (omega arith)
same_constructor (burn x0 x1 x2) (burn y0 y1 y2) t = ((refl, (refl, (refl, tt))), λ e. cc e)
same_constructor (burn x0 x1 x2) _ t = absurd (omega arith)
same_constructor (freeze_resource x0) (freeze_resource y0) t = ((refl, tt), λ e. cc e)
same_constructor (freeze_resource x0) _ t = absurd (omega arith)
same_constructor (replace_key x0 x1) (replace_key y0 y1) t = ((refl, (refl, tt)), λ e. cc e)
same_constructor (replace_key x0 x1) _ t = absurd (omega arith)
same_constructor (reward x0 x1 x2) (reward y0 y1 y2) t = ((refl, (refl, (refl, tt))), λ e. cc e)
same_constructor (reward x0 x1 x2) _ t = absurd (omega arith)
same_constructor (distribute_others x0 x1 x2) (distribute_others y0 y1 y2) t =
    ((refl, (refl, (refl, tt))), λ e. cc e)
same_constructor (distribute_others x0 x1 x2) _ t = absurd (omega arith)
same_constructor (proportional_dilute x0 x1 x2) (proportional_dilute y0 y1 y2) t =
    ((refl, (refl, (refl, tt))), λ e. cc e)
same_constructor (proportional_dilute x0 x1 x2) _ t = absurd (omega arith)
same_constructor (dispute_withdraw x0) (dispute_withdraw y0) t = ((refl, tt), λ e. cc e)
same_constructor (dispute_withdraw x0) _ t = absurd (omega arith)
same_constructor (rollback x0) (rollback y0) t = ((refl, tt), λ e. cc e)
same_constructor (rollback x0) _ t = absurd (omega arith)
same_constructor (register_identity x0 x1) (register_identity y0 y1) t =
    ((refl, (refl, tt)), λ e. cc e)
same_constructor (register_identity x0 x1) _ t = absurd (omega arith)
same_constructor (deposit x0 x1 x2 x3) (deposit y0 y1 y2 y3) t =
    ((refl, (refl, (refl, (refl, tt)))), λ e. cc e)
same_constructor (deposit x0 x1 x2 x3) _ t = absurd (omega arith)
same_constructor (withdraw x0 x1 x2 x3) (withdraw y0 y1 y2 y3) t =
    ((refl, (refl, (refl, (refl, tt)))), λ e. cc e)
same_constructor (withdraw x0 x1 x2 x3) _ t = absurd (omega arith)
same_constructor revoke_local_policy revoke_local_policy t = (tt, λ e. refl)
same_constructor revoke_local_policy _ t = absurd (omega arith)
same_constructor (fault_proof_challenge x0 x1 x2 x3) (fault_proof_challenge y0 y1 y2 y3) t =
    ((refl, (refl, (refl, (refl, tt)))), λ e. cc e)
same_constructor (fault_proof_challenge x0 x1 x2 x3) _ t = absurd (omega arith)
same_constructor (fault_proof_resolution x0 x1 x2 x3) (fault_proof_resolution y0 y1 y2 y3) t =
    ((refl, (refl, (refl, (refl, tt)))), λ e. cc e)
same_constructor (fault_proof_resolution x0 x1 x2 x3) _ t = absurd (omega arith)

tag-IsU64 : (a : Action) → IsU64 (tag a)
unfolding tag
tag-IsU64 (transfer _ _ _ _) = omega arith
tag-IsU64 (mint _ _ _) = omega arith
tag-IsU64 (burn _ _ _) = omega arith
tag-IsU64 (freeze_resource _) = omega arith
tag-IsU64 (replace_key _ _) = omega arith
tag-IsU64 (reward _ _ _) = omega arith
tag-IsU64 (distribute_others _ _ _) = omega arith
tag-IsU64 (proportional_dilute _ _ _) = omega arith
tag-IsU64 (dispute_withdraw _) = omega arith
tag-IsU64 (rollback _) = omega arith
tag-IsU64 (register_identity _ _) = omega arith
tag-IsU64 (deposit _ _ _ _) = omega arith
tag-IsU64 (withdraw _ _ _ _) = omega arith
tag-IsU64 revoke_local_policy = omega arith
tag-IsU64 (fault_proof_challenge _ _ _ _) = omega arith
tag-IsU64 (fault_proof_resolution _ _ _ _) = omega arith

-- Two typed actions whose encodings, with anything behind them, agree are the same action with the
-- same bytes behind: encodings are injective and none is a proper prefix of another.
pub encode_action-injective :
    (a b : Action) (p q x y : List ℕ)
    → IsTyped a
    → IsTyped b
    → encode_action a ≡ ok p
    → encode_action b ≡ ok q
    → p ++ x ≡ q ++ y
    → (a ≡ b) × (x ≡ y)
encode_action-injective a b p q x y ta tb ea eb e =
    let (fine_a, pa) =
      encoded-eq-ok (id (tag a) ∷ fields a) p (sym (encode_action-encoded a) ∙ ea) in
    let (fine_b, qb) =
      encoded-eq-ok (id (tag b) ∷ fields b) q (sym (encode_action-encoded b) ∙ eb) in
    let whole : field_bytes (id (tag a)) ++ (all_bytes (fields a) ++ x)
        ≡ field_bytes (id (tag b)) ++ (all_bytes (fields b) ++ y) =
      sym (append_assoc (field_bytes (id (tag a))) (all_bytes (fields a)) x)
      ∙ ap (λ (w : List ℕ). w ++ x) (sym pa)
      ∙ e
      ∙ ap (λ (w : List ℕ). w ++ y) qb
      ∙ append_assoc (field_bytes (id (tag b))) (all_bytes (fields b)) y in
    let (tags, rest) =
      field_cancel (id (tag a)) (id (tag b)) _ _ refl (tag-IsU64 a) (tag-IsU64 b) whole in
    let (kinds, rebuild) = same_constructor a b (cc tags) in
    let (same, behind) =
      all_bytes-cancel (fields a) (fields b) x y kinds (All-IsWritten (fields a) ta fine_a)
        (All-IsWritten (fields b) tb fine_b) rest in
    (rebuild same, behind)
