-- ===== src/Subscribe/Frame/Cut.antt =====
-- Requests that the stream cuts short.
use canon.Prelude.{ℕ, ◌+◌, ◌<◌, ◌≡◌, sym, ap, ◌∙◌, subst, List, [], ◌∷◌, length}
use canon.Prelude.Result.{Result, err}
use canon.Prelude.Stateful.{continue, or_err, pure}
use canon.Bytes.{from_be_bytes}
use canon.Subscribe.Frame.{
  Reader, Stop, truncated_frame, body_error, read_exact_or_truncated, subscribe, kind_subscribe,
  inbound_of, read_inbound,
}
use canon.Subscribe.Frame.Chunks.{flat, IsClean, fill-short}
use canon.Subscribe.Frame.RoundTrip.{read_kind-Takes}

read_seq-short :
    (r : Reader)
    → IsClean r
    → length (flat r) < 8
    → inbound_of kind_subscribe r ≡ ([], err (truncated_frame (1 + length (flat r)) 9))
unfolding read_exact_or_truncated
read_seq-short r clean h =
    ap
      (λ (p : Reader × Result Stop (List ℕ)).
        continue (continue (or_err (body_error 1 9) p) (λ buf. pure (from_be_bytes buf)))
          (λ resume_from. pure (subscribe resume_from)))
      (fill-short 8 r clean h)

-- A request that ends behind its kind and before its ninth byte is refused as truncated, with the number
-- of bytes read, however the stream is cut into chunks. Every read gives some bytes until the end.
pub read_inbound-cut :
    (xs : List ℕ) (r : Reader)
    → IsClean r
    → flat r ≡ kind_subscribe ∷ xs
    → length xs < 8
    → read_inbound r ≡ ([], err (truncated_frame (1 + length xs) 9))
unfolding read_inbound
read_inbound-cut xs r clean e h =
    let took = read_kind-Takes kind_subscribe r xs clean e in
    let short : length (flat took.left) < 8 =
      subst (λ (ys : List ℕ). length ys < 8) (sym took.behind) h in
    ap (λ p. continue p inbound_of) took.gave
    ∙ read_seq-short took.left took.clean short
    ∙ ap (λ (ys : List ℕ). ([], err (truncated_frame (1 + length ys) 9))) took.behind
