-- ===== src/Codec.antt =====
-- infrastructure/peer/codec/frame.go: the frames. A FrameType is a uint8 and a stream ID a uint64,
-- both numbers here; a payload is a list of bytes, empty where the code has nil.
pub mod BigEndian
pub mod Reader
pub mod Writer
pub mod RoundTrip
pub mod Rejection
pub mod Acceptance
pub mod Body
mod Tests
use pluginprotocol.Errors.{GoError, sentinel, protocol_violation}
use pluginprotocol.Prelude.{
  ℕ, ◌-◌, ◌^◌, Bool, true, false, not, ◌&&◌, ◌||◌, Option, none, some, ltb, ◌==◌, if◌then◌else◌,
  Bytes, codes,
}

abbrev pub header_size : ℕ
header_size = 13

abbrev pub max_stream_id : ℕ
max_stream_id = 2 ^ 63 - 1

abbrev pub frame_open_call : ℕ
frame_open_call = 1

abbrev pub frame_call_result : ℕ
frame_call_result = 2

abbrev pub frame_open_stream : ℕ
frame_open_stream = 3

abbrev pub frame_stream_open_ack : ℕ
frame_stream_open_ack = 4

abbrev pub frame_data : ℕ
frame_data = 5

abbrev pub frame_close_send : ℕ
frame_close_send = 6

abbrev pub frame_stream_end : ℕ
frame_stream_end = 7

abbrev pub frame_ping : ℕ
frame_ping = 8

abbrev pub frame_pong : ℕ
frame_pong = 9

abbrev pub frame_close : ℕ
frame_close = 10

unfoldable pub string : ℕ → Bytes
string frame_type =
    if frame_type == frame_open_call
    then codes "open-call"
    else if frame_type == frame_call_result
    then codes "call-result"
    else if frame_type == frame_open_stream
    then codes "open-stream"
    else if frame_type == frame_stream_open_ack
    then codes "stream-open-ack"
    else if frame_type == frame_data
    then codes "data"
    else if frame_type == frame_close_send
    then codes "close-send"
    else if frame_type == frame_stream_end
    then codes "stream-end"
    else if frame_type == frame_ping
    then codes "ping"
    else if frame_type == frame_pong
    then codes "pong"
    else if frame_type == frame_close
    then codes "close"
    else codes "unknown"

-- Whether a frame belongs to a stream.
unfoldable pub scoped : ℕ → Bool
scoped frame_type =
    frame_type == frame_open_call
    || frame_type == frame_call_result
    || frame_type == frame_open_stream
    || frame_type == frame_stream_open_ack
    || frame_type == frame_data
    || frame_type == frame_close_send
    || frame_type == frame_stream_end

pub record Frame : Type 0 where
  pub frame_type : ℕ
  pub stream_id : ℕ
  pub payload : Bytes

unfoldable pub validate : Frame → Option GoError
unfolding scoped
validate frame =
    if ltb frame.frame_type frame_open_call || ltb frame_close frame.frame_type
    then some (sentinel protocol_violation)
    else if ltb max_stream_id frame.stream_id
    then some (sentinel protocol_violation)
    else if not (scoped frame.frame_type) && not (frame.stream_id == 0)
    then some (sentinel protocol_violation)
    else none
