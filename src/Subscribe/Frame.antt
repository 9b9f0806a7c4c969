-- ===== src/Subscribe/Frame.antt =====
-- runtime/canon-event-subscribe/src/frame.rs: the frames between the server and a subscriber. A reader
-- is the list of what its next reads could give; a read takes at most what the buffer has room for.
pub mod Chunks
pub mod RoundTrip
pub mod Cut
use canon.Prelude.{
  ℕ, ◌+◌, ◌-◌, ◌*◌, ◌^◌, List, [], ◌∷◌, ◌++◌, length, take, drop, min, ltb, leb, ◌==◌,
  if◌then◌else◌,
}
use canon.Prelude.Result.{Result, ok, err}
use canon.Prelude.Stateful.{Run, pure, ◌>>=◌, or_err}
use canon.Bytes.{to_be_bytes, from_be_bytes}

abbrev pub hard_max_frame_size : ℕ
hard_max_frame_size = 16 * 1024 * 1024

abbrev pub kind_subscribe : ℕ
kind_subscribe = 0

abbrev pub kind_event : ℕ
kind_event = 1

abbrev pub kind_lag_exceeded : ℕ
kind_lag_exceeded = 2

abbrev pub kind_truncated : ℕ
kind_truncated = 3

abbrev pub kind_server_shutdown : ℕ
kind_server_shutdown = 4

abbrev pub kind_invalid_request : ℕ
kind_invalid_request = 5

pub data FrameError : Type 0 where
  io eof_before_header : FrameError
  truncated_frame : (bytes_read expected : ℕ) → FrameError
  unknown_kind : (kind : ℕ) → FrameError
  oversize_frame : (declared_length max : ℕ) → FrameError

pub data InboundFrame : Type 0 where
  subscribe : (resume_from : ℕ) → InboundFrame

pub data OutboundFrame : Type 0 where
  event_frame : (seq : ℕ) (payload : List ℕ) → OutboundFrame
  lag_exceeded : (last_delivered_seq : ℕ) → OutboundFrame
  truncated : (oldest_available_seq : ℕ) → OutboundFrame
  server_shutdown : (last_delivered_seq : ℕ) → OutboundFrame
  invalid_request : OutboundFrame

pub data WriteFrameError : Type 0 where
  write_io : WriteFrameError
  payload_oversize : (len max : ℕ) → WriteFrameError
  payload_too_large : (len : ℕ) → WriteFrameError

-- No bytes are the end of the stream.
pub data Chunk : Type 0 where
  bytes : List ℕ → Chunk
  failed : Chunk

abbrev pub Reader : Type 0
Reader = List Chunk

-- Why a buffer was not filled: an error, or the end after some bytes.
pub data Stop : Type 0 where
  io_stop : Stop
  eof_after : (filled : ℕ) → Stop

abbrev pub more : List ℕ → Reader × Result Stop (List ℕ) → Reader × Result Stop (List ℕ)
more got (r, ok rest) = (r, ok (got ++ rest))
more got (r, err io_stop) = (r, err io_stop)
more got (r, err (eof_after filled)) = (r, err (eof_after (length got + filled)))

-- The loop that fills the `need` bytes that are left of a buffer.
unfoldable pub fill : ℕ → Run Reader Stop (List ℕ)
fill need [] = if need == 0 then ([], ok []) else ([], err (eof_after 0))
fill need (failed ∷ chunks) = if need == 0 then (failed ∷ chunks, ok []) else (chunks, err io_stop)
fill need (bytes [] ∷ chunks) =
    if need == 0 then (bytes [] ∷ chunks, ok []) else (chunks, err (eof_after 0))
fill need (bytes (b ∷ bs) ∷ chunks) =
    let rest = fill (need - length (b ∷ bs)) chunks in
    if need == 0
    then (bytes (b ∷ bs) ∷ chunks, ok [])
    else if leb (length (b ∷ bs)) need
    then more (b ∷ bs) rest
    else (bytes (drop need (b ∷ bs)) ∷ chunks, ok (take need (b ∷ bs)))

abbrev pub header_error : Stop → FrameError
header_error io_stop = io
header_error (eof_after filled) = eof_before_header

abbrev pub body_error : (bytes_already_read expected_total : ℕ) → Stop → FrameError
body_error bytes_already_read expected_total io_stop = io
body_error bytes_already_read expected_total (eof_after filled) =
    truncated_frame (bytes_already_read + filled) expected_total

abbrev pub Read : Type 0 → Type 0
Read A = Run Reader FrameError A

abbrev pub refuse : {A : Type 0} → FrameError → Read A
refuse e r = (r, err e)

-- The header is its one byte.
unfoldable pub read_kind : Read ℕ
read_kind r = or_err header_error ((fill 1 >>= λ header. pure (from_be_bytes header)) r)

unfoldable pub read_exact_or_truncated : (len bytes_already_read expected_total : ℕ) → Read (List ℕ)
read_exact_or_truncated len bytes_already_read expected_total r =
    or_err (body_error bytes_already_read expected_total) (fill len r)

abbrev pub read_seq : (expected_total : ℕ) → Read ℕ
read_seq expected_total =
    read_exact_or_truncated 8 1 expected_total >>= λ buf. pure (from_be_bytes buf)

abbrev pub inbound_of : ℕ → Read InboundFrame
inbound_of kind =
    if kind == kind_subscribe
    then (read_seq 9 >>= λ resume_from. pure (subscribe resume_from))
    else refuse (unknown_kind kind)

unfoldable pub read_inbound : Read InboundFrame
read_inbound = read_kind >>= inbound_of

abbrev pub read_payload : (seq max_payload declared : ℕ) → Read OutboundFrame
read_payload seq max_payload declared =
    if ltb max_payload declared
    then refuse (oversize_frame declared max_payload)
    else read_exact_or_truncated declared 13 (13 + declared) >>= λ payload.
        pure (event_frame seq payload)

abbrev pub read_event : ℕ → Read OutboundFrame
read_event max_payload = read_seq 13 >>= λ seq. read_exact_or_truncated 4 9 13 >>= λ len_buf.
    read_payload seq max_payload (from_be_bytes len_buf)

abbrev pub outbound_of : (max_payload kind : ℕ) → Read OutboundFrame
outbound_of max_payload kind =
    if kind == kind_event
    then read_event max_payload
    else if kind == kind_lag_exceeded
    then (read_seq 9 >>= λ seq. pure (lag_exceeded seq))
    else if kind == kind_truncated
    then (read_seq 9 >>= λ seq. pure (truncated seq))
    else if kind == kind_server_shutdown
    then (read_seq 9 >>= λ seq. pure (server_shutdown seq))
    else if kind == kind_invalid_request
    then (read_seq 9 >>= λ _. pure invalid_request)
    else refuse (unknown_kind kind)

unfoldable pub read_outbound : ℕ → Read OutboundFrame
read_outbound max_payload = read_kind >>= outbound_of (min max_payload hard_max_frame_size)

unfoldable pub encode_inbound : InboundFrame → List ℕ
encode_inbound (subscribe resume_from) = kind_subscribe ∷ to_be_bytes 8 resume_from

abbrev pub encode_event_frame : (seq max_payload : ℕ) → List ℕ → Result WriteFrameError (List ℕ)
encode_event_frame seq max_payload payload =
    if ltb max_payload (length payload)
    then err (payload_oversize (length payload) max_payload)
    else if leb (2 ^ 32) (length payload)
    then err (payload_too_large (length payload))
    else ok
        ((kind_event ∷ []) ++ (to_be_bytes 8 seq ++ (to_be_bytes 4 (length payload) ++ payload)))

unfoldable pub encode_outbound : OutboundFrame → ℕ → Result WriteFrameError (List ℕ)
encode_outbound (event_frame seq payload) max_payload =
    encode_event_frame seq (min max_payload hard_max_frame_size) payload
encode_outbound (lag_exceeded last_delivered_seq) max_payload =
    ok (kind_lag_exceeded ∷ to_be_bytes 8 last_delivered_seq)
encode_outbound (truncated oldest_available_seq) max_payload =
    ok (kind_truncated ∷ to_be_bytes 8 oldest_available_seq)
encode_outbound (server_shutdown last_delivered_seq) max_payload =
    ok (kind_server_shutdown ∷ to_be_bytes 8 last_delivered_seq)
encode_outbound invalid_request max_payload = ok (kind_invalid_request ∷ to_be_bytes 8 0)
