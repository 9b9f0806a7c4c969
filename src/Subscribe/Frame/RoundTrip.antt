-- ===== src/Subscribe/Frame/RoundTrip.antt =====
-- Frames read back what was encoded, however the stream is cut into chunks.
use canon.Prelude.{
  ℕ, ◌+◌, ◌<◌, ◌≤◌, ◌^◌, ◌≡◌, refl, sym, ap, ◌∙◌, subst, arith, if_cases, not_ltb→le, not_leb→lt,
  le→ltb, Bool, List, [], ◌∷◌, ◌++◌, append-nil, append_assoc, length, take, drop, length-append,
  take-append, drop-append, min, ltb, leb, if◌then◌else◌,
}
use canon.Prelude.Result.{Result, ok}
use canon.Prelude.Stateful.{Run, pure, ◌>>=◌, continue, or_err}
use canon.Bytes.{IsU64, to_be_bytes, from_be_bytes}
use canon.Bytes.Laws.{length-to_be_bytes, from_be_bytes-to_be_bytes}
use canon.Subscribe.Frame.{
  Reader, fill, header_error, FrameError, Read, read_kind, read_exact_or_truncated, body_error,
  read_seq, subscribe, kind_subscribe, inbound_of, read_inbound, OutboundFrame, event_frame,
  lag_exceeded, truncated, server_shutdown, invalid_request, kind_event, kind_lag_exceeded,
  kind_truncated, kind_server_shutdown, kind_invalid_request, read_payload, read_event, outbound_of,
  read_outbound, encode_inbound, WriteFrameError, encode_event_frame, encode_outbound,
  hard_max_frame_size, refuse,
}
use canon.Subscribe.Frame.Chunks.{flat, IsClean, fill-Filled}

-- A reader's step that took what stood before `rest`.
pub record Took {E A : Type 0} (m : Run Reader E A) (r : Reader) (it : A) (rest : List ℕ)
    : Type 0 where
  pub left : Reader
  pub gave : m r ≡ (left, ok it)
  pub behind : flat left ≡ rest
  pub clean : IsClean left

abbrev pub Takes : {E A : Type 0} → Run Reader E A → List ℕ → A → Type 0
Takes m xs it = (r : Reader) (rest : List ℕ) → IsClean r → flat r ≡ xs ++ rest → Took m r it rest

fill-Takes : (xs : List ℕ) → Takes (fill (length xs)) xs xs
fill-Takes xs r rest clean e =
    let long : length xs ≤ length (flat r) = omega (arith, ap length e, length-append xs rest) in
    let f = fill-Filled (length xs) r clean long in
    record {
      left = f.rest;
      gave =
          f.gave
          ∙ ap (λ (got : List ℕ). (f.rest, ok got)) (ap (take (length xs)) e ∙ take-append xs rest);
      behind = f.left ∙ ap (drop (length xs)) e ∙ drop-append xs rest;
      clean = f.clean;
    }

pure-Takes : {E A : Type 0} (it : A) → Takes (let m : Run Reader E A = pure it in m) [] it
pure-Takes it r rest clean e = record { left = r; gave = refl; behind = e; clean = clean }

or_err-Takes :
    {E F A : Type 0} (f : E → F) (m : Run Reader E A) (xs : List ℕ) {it : A}
    → Takes m xs it
    → Takes (λ r. or_err f (m r)) xs it
or_err-Takes f m xs t r rest clean e =
    let took = t r rest clean e in
    record {
      left = took.left;
      gave = ap (or_err f) took.gave;
      behind = took.behind;
      clean = took.clean;
    }

>>=-Takes :
    {E A B : Type 0} (m : Run Reader E A) (f : A → Run Reader E B) (xs ys : List ℕ) {it : A}
    {out : B}
    → Takes m xs it
    → Takes (f it) ys out
    → Takes (m >>= f) (xs ++ ys) out
>>=-Takes m f xs ys t u r rest clean e =
    let took = t r (ys ++ rest) clean (e ∙ append_assoc xs ys rest) in
    let next = u took.left rest took.clean took.behind in
    record {
      left = next.left;
      gave = ap (λ p. continue p f) took.gave ∙ next.gave;
      behind = next.behind;
      clean = next.clean;
    }

read_exact-Takes :
    (xs : List ℕ) (len a b : ℕ) → length xs ≡ len → Takes (read_exact_or_truncated len a b) xs xs
unfolding read_exact_or_truncated
read_exact-Takes xs len a b size =
    subst (λ (n : ℕ). Takes (λ r. or_err (body_error a b) (fill n r)) xs xs) size
      (or_err-Takes (body_error a b) (fill (length xs)) xs (fill-Takes xs))

pub read_kind-Takes : (k : ℕ) → Takes read_kind (k ∷ []) k
unfolding read_kind from_be_bytes
read_kind-Takes k =
    let byte : from_be_bytes (k ∷ []) ≡ k = omega arith in
    or_err-Takes header_error (fill 1 >>= λ header. pure (from_be_bytes header)) (k ∷ []) (
      subst (λ (n : ℕ). Takes (fill 1 >>= λ header. pure (from_be_bytes header)) (k ∷ []) n) byte
        (>>=-Takes (fill 1) (λ header. pure (from_be_bytes header)) (k ∷ []) []
          (fill-Takes (k ∷ [])) (pure-Takes (from_be_bytes (k ∷ [])))))

read_seq-Takes : (total n : ℕ) → IsU64 n → Takes (read_seq total) (to_be_bytes 8 n) n
read_seq-Takes total n h =
    let value = from_be_bytes-to_be_bytes 8 n (omega (arith, h)) in
    subst (λ (xs : List ℕ). Takes (read_seq total) xs n) (append-nil (to_be_bytes 8 n))
      (>>=-Takes (read_exact_or_truncated 8 1 total) (λ buf. pure (from_be_bytes buf))
        (to_be_bytes 8 n) [] (read_exact-Takes (to_be_bytes 8 n) 8 1 total (length-to_be_bytes 8 n))
        (subst (λ (v : ℕ). Takes {E = FrameError} (pure (from_be_bytes (to_be_bytes 8 n))) [] v)
          value (pure-Takes (from_be_bytes (to_be_bytes 8 n)))))

-- A kind and a sequence number.
seq_frame-Takes :
    {A : Type 0} (n : ℕ) (make : ℕ → A)
    → IsU64 n
    → Takes (read_seq 9 >>= λ seq. pure (make seq)) (to_be_bytes 8 n) (make n)
seq_frame-Takes n make h =
    subst (λ (xs : List ℕ). Takes (read_seq 9 >>= λ seq. pure (make seq)) xs (make n))
      (append-nil (to_be_bytes 8 n))
      (>>=-Takes (read_seq 9) (λ seq. pure (make seq)) (to_be_bytes 8 n) [] (read_seq-Takes 9 n h)
        (pure-Takes (make n)))

payload-Takes :
    (seq max_payload : ℕ) (payload : List ℕ)
    → length payload ≤ max_payload
    → Takes (read_payload seq max_payload (length payload)) payload (event_frame seq payload)
payload-Takes seq max_payload payload h =
    let len = length payload in
    let body : Read OutboundFrame =
      read_exact_or_truncated len 13 (13 + len) >>= λ got. pure (event_frame seq got) in
    subst
      (λ (b : Bool).
        Takes (if b then refuse (FrameError.oversize_frame len max_payload) else body) payload
          (event_frame seq payload))
      (sym (le→ltb max_payload len h))
      (subst (λ (xs : List ℕ). Takes body xs (event_frame seq payload)) (append-nil payload)
        (>>=-Takes (read_exact_or_truncated len 13 (13 + len)) (λ got. pure (event_frame seq got))
          payload [] (read_exact-Takes payload len 13 (13 + len) refl)
          (pure-Takes (event_frame seq payload))))

event-Takes :
    (seq max_payload : ℕ) (payload : List ℕ)
    → IsU64 seq
    → length payload ≤ max_payload
    → length payload < 2 ^ 32
    → Takes
        (read_event max_payload)
        (to_be_bytes 8 seq ++ (to_be_bytes 4 (length payload) ++ payload))
        (event_frame seq payload)
event-Takes seq max_payload payload h fits small =
    let len = length payload in
    let read_length : ℕ → Read OutboundFrame = λ s.
      read_exact_or_truncated 4 9 13 >>= λ buf. read_payload s max_payload (from_be_bytes buf) in
    let value : from_be_bytes (to_be_bytes 4 len) ≡ len =
      from_be_bytes-to_be_bytes 4 len (omega (arith, small)) in
    >>=-Takes (read_seq 13) read_length (to_be_bytes 8 seq) (to_be_bytes 4 len ++ payload)
      (read_seq-Takes 13 seq h)
      (>>=-Takes (read_exact_or_truncated 4 9 13)
        (λ buf. read_payload seq max_payload (from_be_bytes buf)) (to_be_bytes 4 len) payload
        (read_exact-Takes (to_be_bytes 4 len) 4 9 13 (length-to_be_bytes 4 len))
        (subst (λ (n : ℕ). Takes (read_payload seq max_payload n) payload (event_frame seq payload))
          (sym value) (payload-Takes seq max_payload payload fits)))

-- The sequence numbers are `u64`s.
abbrev pub IsTyped : OutboundFrame → Type 0
IsTyped (event_frame seq payload) = IsU64 seq
IsTyped (lag_exceeded seq) = IsU64 seq
IsTyped (truncated seq) = IsU64 seq
IsTyped (server_shutdown seq) = IsU64 seq
IsTyped invalid_request = Unit

read_outbound-Takes :
    (max_payload k : ℕ) (xs : List ℕ) (frame : OutboundFrame)
    → Takes (outbound_of (min max_payload hard_max_frame_size) k) xs frame
    → Takes (read_outbound max_payload) (k ∷ xs) frame
unfolding read_outbound
read_outbound-Takes max_payload k xs frame t =
    >>=-Takes read_kind (outbound_of (min max_payload hard_max_frame_size)) (k ∷ []) xs
      (read_kind-Takes k) t

encoded-Takes :
    (max_payload k : ℕ) (xs out : List ℕ) (frame : OutboundFrame)
    → (let made : Result WriteFrameError (List ℕ) = ok (k ∷ xs) in made ≡ ok out)
    → Takes (outbound_of (min max_payload hard_max_frame_size) k) xs frame
    → Takes (read_outbound max_payload) out frame
encoded-Takes max_payload k xs out frame e t =
    let same : k ∷ xs ≡ out = cc e in
    subst (λ (ys : List ℕ). Takes (read_outbound max_payload) ys frame) same
      (read_outbound-Takes max_payload k xs frame t)

event_frame-Takes :
    (seq max_payload : ℕ) (payload out : List ℕ)
    → IsU64 seq
    → encode_event_frame seq (min max_payload hard_max_frame_size) payload ≡ ok out
    → Takes (read_outbound max_payload) out (event_frame seq payload)
event_frame-Takes seq max_payload payload out h =
    let M : Result WriteFrameError (List ℕ) → Type 0 =
      λ r. r ≡ ok out → Takes (read_outbound max_payload) out (event_frame seq payload) in
    let most = min max_payload hard_max_frame_size in
    if_cases M (ltb most (length payload)) (λ _ e. let no : ⊥ = cc e in absurd no)
      (λ fits.
        if_cases M (leb (2 ^ 32) (length payload)) (λ _ e. let no : ⊥ = cc e in absurd no)
          (λ small e.
            encoded-Takes max_payload kind_event
              (to_be_bytes 8 seq ++ (to_be_bytes 4 (length payload) ++ payload)) out
              (event_frame seq payload) e
              (event-Takes seq most payload h (not_ltb→le _ _ fits) (not_leb→lt _ _ small))))

outbound-Takes :
    (frame : OutboundFrame) (max_payload : ℕ) (out : List ℕ)
    → IsTyped frame
    → encode_outbound frame max_payload ≡ ok out
    → Takes (read_outbound max_payload) out frame
unfolding encode_outbound
outbound-Takes (event_frame seq payload) max_payload out h e =
    event_frame-Takes seq max_payload payload out h e
outbound-Takes (lag_exceeded seq) max_payload out h e =
    encoded-Takes max_payload kind_lag_exceeded (to_be_bytes 8 seq) out (lag_exceeded seq) e
      (seq_frame-Takes seq lag_exceeded h)
outbound-Takes (truncated seq) max_payload out h e =
    encoded-Takes max_payload kind_truncated (to_be_bytes 8 seq) out (truncated seq) e
      (seq_frame-Takes seq truncated h)
outbound-Takes (server_shutdown seq) max_payload out h e =
    encoded-Takes max_payload kind_server_shutdown (to_be_bytes 8 seq) out (server_shutdown seq) e
      (seq_frame-Takes seq server_shutdown h)
outbound-Takes invalid_request max_payload out h e =
    encoded-Takes max_payload kind_invalid_request (to_be_bytes 8 0) out invalid_request e
      (seq_frame-Takes 0 (λ _. invalid_request) (omega arith))

inbound-Takes :
    (resume_from : ℕ)
    → IsU64 resume_from
    → Takes read_inbound (encode_inbound (subscribe resume_from)) (subscribe resume_from)
unfolding read_inbound encode_inbound
inbound-Takes resume_from h =
    >>=-Takes read_kind inbound_of (kind_subscribe ∷ []) (to_be_bytes 8 resume_from)
      (read_kind-Takes kind_subscribe) (seq_frame-Takes resume_from subscribe h)

-- A frame that the server encodes is read back by the client, however the stream is cut into chunks, and
-- what stands behind it is left: the sequence numbers are `u64`s, and every read gives some bytes until
-- the end.
pub read_outbound-encode_outbound :
    (frame : OutboundFrame) (max_payload : ℕ) (out rest : List ℕ) (r : Reader)
    → IsTyped frame
    → encode_outbound frame max_payload ≡ ok out
    → IsClean r
    → flat r ≡ out ++ rest
    → Took (read_outbound max_payload) r frame rest
read_outbound-encode_outbound frame max_payload out rest r h e =
    outbound-Takes frame max_payload out h e r rest

-- A subscription request is read back by the server, however the stream is cut into chunks, and what
-- stands behind it is left. The sequence number is a `u64`, and every read gives some bytes until the
-- end.
pub read_inbound-encode_inbound :
    (resume_from : ℕ) (rest : List ℕ) (r : Reader)
    → IsU64 resume_from
    → IsClean r
    → flat r ≡ encode_inbound (subscribe resume_from) ++ rest
    → Took read_inbound r (subscribe resume_from) rest
read_inbound-encode_inbound resume_from rest r h = inbound-Takes resume_from h r rest
