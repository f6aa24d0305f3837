-- ===== src/Conn/Messages.antt =====
-- The messages of proto/liapoldus/peer/v1/peer.proto, and the frames of
-- infrastructure/peer/conn/dispatch.go that carry a status. The protobuf runtime is a parameter.
pub mod Failures
use pluginprotocol.Codec.{Frame, frame_stream_end}
use pluginprotocol.Codec.Body.{Proto, marshal, unmarshal}
use pluginprotocol.Errors.{GoError, sentinel, protocol_violation, Result, ok, err}
use pluginprotocol.Prelude.{ℕ, Option, none, some, [], Bytes, ltb, if◌then◌else◌}
use pluginprotocol.Status
use pluginprotocol.Status.{string}

pub record CallRequest : Type 0 where
  pub method : Bytes
  pub payload : Bytes

pub record CallResult : Type 0 where
  pub payload : Bytes

pub record WireStatus : Type 0 where
  pub code : ℕ
  pub message : Bytes

pub record Failure : Type 0 where
  pub status : Option WireStatus

pub record OpenStream : Type 0 where
  pub method : Bytes

pub record StreamAccepted : Type 0 where

pub record Data : Type 0 where
  pub payload : Bytes

pub record Ping : Type 0 where
  pub nonce : ℕ

pub record Pong : Type 0 where
  pub nonce : ℕ

-- The runtime's functions for each message type.
pub record Wire : Type 0 where
  pub call_request : Proto CallRequest
  pub call_result : Proto CallResult
  pub failure : Proto Failure
  pub open_stream : Proto OpenStream
  pub stream_accepted : Proto StreamAccepted
  pub data_message : Proto Data
  pub ping : Proto Ping
  pub pong : Proto Pong

-- The body of a terminal frame: the numeric code and its fixed label.
abbrev pub failure_message : ℕ → Failure
failure_message code = record { status = some (record { code = code; message = string code }) }

abbrev pub body_or_empty : Result Bytes → Bytes
body_or_empty (ok body) = body
body_or_empty (err e) = []

unfoldable pub end_frame : Wire → ℕ → ℕ → Frame
end_frame wire stream_id code = record {
  frame_type = frame_stream_end;
  stream_id = stream_id;
  payload = body_or_empty (marshal wire.failure (failure_message code));
}

-- The status of a decoded Failure.
unfoldable pub failure_of_status : Option WireStatus → Result (Option GoError)
failure_of_status none = err (sentinel protocol_violation)
failure_of_status (some status) =
    if ltb 255 status.code then err (sentinel protocol_violation) else ok (Status.err status.code)

abbrev pub failure_of_result : Result Failure → Result (Option GoError)
failure_of_result (err e) = err e
failure_of_result (ok failure) = failure_of_status failure.status

-- The failure that a terminal frame tells, `nil` for a success, or the error of a body that does
-- not tell one.
unfoldable pub decode_failure : Wire → Bytes → Result (Option GoError)
unfolding failure_of_status
decode_failure wire body = failure_of_result (unmarshal wire.failure body)
