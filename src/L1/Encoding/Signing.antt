-- ===== src/L1/Encoding/Signing.antt =====
-- The signing input tells its four parts apart, and so does the signed action.
use canon.Prelude.{
  ℕ, ◌≡◌, refl, sym, ap, ◌∙◌, arith, List, [], ◌∷◌, ◌++◌, append_assoc, append-nil, length,
}
use canon.Prelude.Result.{Result, ok, err, ◌>>=◌}
use canon.Bytes.{IsU64}
use canon.L1.Action.{Action}
use canon.L1.Encoding.{
  EncodeError, encode_u64, encode_amount, encode_byte_string, extend, encode_action, signing_input,
  encode_signed_action, signed_action_domain,
}
use canon.L1.Encoding.Fields.{id, amount, bytes, all_bytes, field_bytes}
use canon.L1.Encoding.Injective.{IsTyped, all_bytes-cancel, encode_action-injective}

encode_byte_string-eq-ok :
    (s p : List ℕ) → encode_byte_string s ≡ ok p → (p ≡ field_bytes (bytes s)) × IsU64 (length s)
unfolding encode_byte_string field_bytes
encode_byte_string-eq-ok s p e = ground arith

encode_amount-eq-ok :
    (n : ℕ) (p : List ℕ) → encode_amount n ≡ ok p → (p ≡ field_bytes (amount n)) × IsU64 n
unfolding encode_amount field_bytes
encode_amount-eq-ok n p e = ground arith

extend-eq-ok :
    (out p : List ℕ) (r : Result EncodeError (List ℕ)) (k : List ℕ → Result EncodeError (List ℕ))
    → (extend out r >>= k) ≡ ok p
    → (w : List ℕ) × (r ≡ ok w) × (k (out ++ w) ≡ ok p)
extend-eq-ok out p (ok w) k e = (w, refl, e)
extend-eq-ok out p (err x) k e = cc e

last-eq-ok :
    (out p : List ℕ) (r : Result EncodeError (List ℕ))
    → extend out r ≡ ok p
    → (w : List ℕ) × (r ≡ ok w) × (p ≡ out ++ w)
last-eq-ok out p (ok w) e = (w, refl, cc e)
last-eq-ok out p (err x) e = cc e

regroup : (a b c d e : List ℕ) → (((a ++ b) ++ c) ++ d) ++ e ≡ a ++ (b ++ (c ++ (d ++ (e ++ []))))
regroup a b c d e = simp (append_assoc, append-nil)

parts :
    {a a' b b' e e' : List ℕ} (c d : List ℕ)
    → a ≡ a'
    → b ≡ b'
    → e ≡ e'
    → a ++ (b ++ (c ++ (d ++ (e ++ [])))) ≡ a' ++ (b' ++ (c ++ (d ++ (e' ++ []))))
parts c d p q r = cc

-- What a signing input is made of.
record SigningParts (action : Action) (signer nonce : ℕ) (deployment_id p : List ℕ) : Type 0 where
  act : List ℕ
  encodes : encode_action action ≡ ok act
  layout :
      p
      ≡ field_bytes (bytes signed_action_domain)
        ++ (field_bytes (bytes deployment_id) ++ (act ++ all_bytes (id signer ∷ amount nonce ∷ [])))
  short : IsU64 (length deployment_id)
  small : IsU64 nonce

domain_short : IsU64 (length signed_action_domain)
unfolding signed_action_domain
domain_short = omega arith

two_fields :
    (s d x : List ℕ)
    → all_bytes (bytes s ∷ bytes d ∷ []) ++ x
      ≡ field_bytes (bytes s) ++ (field_bytes (bytes d) ++ x)
two_fields s d x = simp (append_assoc, append-nil)

signing_input-SigningParts :
    (action : Action) (signer nonce : ℕ) (deployment_id p : List ℕ)
    → signing_input action signer nonce deployment_id ≡ ok p
    → SigningParts action signer nonce deployment_id p
unfolding signing_input encode_u64 field_bytes
signing_input-SigningParts action signer nonce deployment_id p e =
    let (w1, e1, k1) = extend-eq-ok [] p (encode_byte_string signed_action_domain) _ e in
    let (w2, e2, k2) = extend-eq-ok w1 p (encode_byte_string deployment_id) _ k1 in
    let (w3, e3, k3) = extend-eq-ok (w1 ++ w2) p (encode_action action) _ k2 in
    let (w4, e4, k4) =
      last-eq-ok (((w1 ++ w2) ++ w3) ++ encode_u64 signer) p (encode_amount nonce) k3 in
    let (p1, _) = encode_byte_string-eq-ok signed_action_domain w1 e1 in
    let (p2, short) = encode_byte_string-eq-ok deployment_id w2 e2 in
    let (p4, small) = encode_amount-eq-ok nonce w4 e4 in
    record {
      act = w3;
      encodes = e3;
      layout = k4 ∙ regroup w1 w2 w3 (encode_u64 signer) w4 ∙ parts w3 (encode_u64 signer) p1 p2 p4;
      short = short;
      small = small;
    }

-- Two signing inputs of typed actions and 64-bit signers that agree as bytes come from the same
-- action, signer, nonce and deployment id.
pub signing_input-injective :
    (a b : Action) (s t n m : ℕ) (d e p : List ℕ)
    → IsTyped a
    → IsTyped b
    → IsU64 s
    → IsU64 t
    → signing_input a s n d ≡ ok p
    → signing_input b t m e ≡ ok p
    → (a ≡ b) × (s ≡ t) × (n ≡ m) × (d ≡ e)
signing_input-injective a b s t n m d e p ta tb us ut ha hb =
    let l = signing_input-SigningParts a s n d p ha in
    let r = signing_input-SigningParts b t m e p hb in
    let fixed : IsU64 (length signed_action_domain) = domain_short in
    let (domains, after) =
      all_bytes-cancel (bytes signed_action_domain ∷ bytes d ∷ [])
        (bytes signed_action_domain ∷ bytes e ∷ []) (l.act ++ all_bytes (id s ∷ amount n ∷ []))
        (r.act ++ all_bytes (id t ∷ amount m ∷ [])) (refl, (refl, tt)) (fixed, (l.short, tt))
        (fixed, (r.short, tt))
        (two_fields signed_action_domain d _
          ∙ sym l.layout
          ∙ r.layout
          ∙ sym (two_fields signed_action_domain e _)) in
    let (actions, rest) =
      encode_action-injective a b l.act r.act _ _ ta tb l.encodes r.encodes after in
    let (ends, _) =
      all_bytes-cancel (id s ∷ amount n ∷ []) (id t ∷ amount m ∷ []) [] [] (refl, (refl, tt))
        (us, (l.small, tt)) (ut, (r.small, tt)) (ap (λ (w : List ℕ). w ++ []) rest) in
    (actions, cc ends, cc ends, cc domains)

-- What an encoded signed action is made of.
record SignedParts (action : Action) (signer nonce : ℕ) (sig p : List ℕ) : Type 0 where
  act : List ℕ
  encodes : encode_action action ≡ ok act
  layout : p ≡ act ++ all_bytes (id signer ∷ amount nonce ∷ bytes sig ∷ [])
  small : IsU64 nonce
  short : IsU64 (length sig)

regroup_signed :
    (a b c d c' d' : List ℕ)
    → c ≡ c'
    → d ≡ d'
    → ((a ++ b) ++ c) ++ d ≡ a ++ (b ++ (c' ++ (d' ++ [])))
regroup_signed a b c d c' d' e f = simp (append_assoc, append-nil, e, f)

encode_signed_action-SignedParts :
    (action : Action) (signer nonce : ℕ) (sig p : List ℕ)
    → encode_signed_action action signer nonce sig ≡ ok p
    → SignedParts action signer nonce sig p
unfolding encode_signed_action encode_u64 field_bytes
encode_signed_action-SignedParts action signer nonce sig p e =
    let (w1, e1, k1) = extend-eq-ok [] p (encode_action action) _ e in
    let (w2, e2, k2) = extend-eq-ok (w1 ++ encode_u64 signer) p (encode_amount nonce) _ k1 in
    let (w3, e3, k3) = last-eq-ok ((w1 ++ encode_u64 signer) ++ w2) p (encode_byte_string sig) k2 in
    let (p2, small) = encode_amount-eq-ok nonce w2 e2 in
    let (p3, short) = encode_byte_string-eq-ok sig w3 e3 in
    record {
      act = w1;
      encodes = e1;
      layout = k3 ∙ regroup_signed w1 (encode_u64 signer) w2 w3 _ _ p2 p3;
      small = small;
      short = short;
    }

-- Two encoded signed actions of typed actions and 64-bit signers that agree as bytes come from the
-- same action, signer, nonce and signature.
pub encode_signed_action-injective :
    (a b : Action) (s t n m : ℕ) (g h p : List ℕ)
    → IsTyped a
    → IsTyped b
    → IsU64 s
    → IsU64 t
    → encode_signed_action a s n g ≡ ok p
    → encode_signed_action b t m h ≡ ok p
    → (a ≡ b) × (s ≡ t) × (n ≡ m) × (g ≡ h)
encode_signed_action-injective a b s t n m g h p ta tb us ut ea eb =
    let l = encode_signed_action-SignedParts a s n g p ea in
    let r = encode_signed_action-SignedParts b t m h p eb in
    let (actions, rest) =
      encode_action-injective a b l.act r.act _ _ ta tb l.encodes r.encodes
        (sym l.layout ∙ r.layout) in
    let (ends, _) =
      all_bytes-cancel (id s ∷ amount n ∷ bytes g ∷ []) (id t ∷ amount m ∷ bytes h ∷ []) [] []
        (refl, (refl, (refl, tt))) (us, (l.small, (l.short, tt))) (ut, (r.small, (r.short, tt)))
        (ap (λ (w : List ℕ). w ++ []) rest) in
    (actions, cc ends, cc ends, cc ends)
