-- ===== src/Tests/Framing.antt =====
-- Frames of runtime/canon-event-subscribe on a stream in three chunks.
use canon.Prelude.{ℕ, ◌≡◌, refl, arith, List, [], ◌∷◌}
use canon.Prelude.Result.{ok, err}
use canon.Bytes.{to_be_bytes}
use canon.Subscribe.Frame.{
  Reader, bytes, truncated_frame, event_frame, read_inbound, read_outbound, encode_outbound,
}
use canon.Subscribe.Frame.RoundTrip.{Took, read_outbound-encode_outbound}
use canon.Subscribe.Frame.Cut.{read_inbound-cut}

abbrev event_bytes : List ℕ
event_bytes = 1 ∷ 0 ∷ 0 ∷ 0 ∷ 0 ∷ 0 ∷ 0 ∷ 0 ∷ 7 ∷ 0 ∷ 0 ∷ 0 ∷ 2 ∷ 9 ∷ 8 ∷ []

event_encoded : encode_outbound (event_frame 7 (9 ∷ 8 ∷ [])) 10 ≡ ok event_bytes
unfolding encode_outbound to_be_bytes
event_encoded = refl

abbrev stream : Reader
stream =
    bytes (1 ∷ 0 ∷ 0 ∷ [])
    ∷ bytes (0 ∷ 0 ∷ 0 ∷ 0 ∷ 0 ∷ 7 ∷ 0 ∷ 0 ∷ 0 ∷ 2 ∷ [])
    ∷ bytes (9 ∷ 8 ∷ 4 ∷ [])
    ∷ []

read_outbound-encode_outbound_example :
    Took (read_outbound 10) stream (event_frame 7 (9 ∷ 8 ∷ [])) (4 ∷ [])
read_outbound-encode_outbound_example =
    read_outbound-encode_outbound (event_frame 7 (9 ∷ 8 ∷ [])) 10 event_bytes (4 ∷ []) stream
      (omega arith) event_encoded tt refl

abbrev cut_stream : Reader
cut_stream = bytes (0 ∷ 0 ∷ []) ∷ bytes (3 ∷ []) ∷ []

read_inbound-cut_example : read_inbound cut_stream ≡ ([], err (truncated_frame 3 9))
read_inbound-cut_example = read_inbound-cut (0 ∷ 3 ∷ []) cut_stream tt refl (omega arith)
