-- ===== src/Conn/Dispatch/Replies.antt =====
-- infrastructure/peer/conn/dispatch.go: the frames that answer what this endpoint opened, or that
-- belong to a live stream.
use pluginprotocol.Codec.{
  Frame, frame_call_result, frame_stream_open_ack, frame_data, frame_close_send, frame_stream_end,
  frame_pong,
}
use pluginprotocol.Codec.Body.{marshal, unmarshal}
use pluginprotocol.Conn.Dispatch.Inbound.{send_end}
use pluginprotocol.Conn.Messages.{Data, Ping, CallResult, decode_failure}
use pluginprotocol.Conn.Session.{Session, Ports, on_stream, write_frame_or_end}
use pluginprotocol.Conn.Stream.{
  Stream, Delivery, delivered, refused, parks, deliver, close_inbound_half, finish_stream,
}
use pluginprotocol.Errors.{
  GoError, sentinel, is, message_too_large, protocol_violation, stream_closed, Result, ok, err,
}
use pluginprotocol.Prelude.{ℕ, Bool, Option, none, some, [], ◌∷◌, ◌++◌, ◌==◌, if◌then◌else◌, Bytes}
use pluginprotocol.Prelude.Store.{insert}
use pluginprotocol.Status.{status_message_too_large}

-- What dispatching a frame comes to for the read loop: it goes on, it ends the session, or it waits
-- for room in the queue of a stream, or for that stream's end.
pub data Flow : Type 0 where
  goes_on : Flow
  fails : GoError → Flow
  waits_for : ℕ → Bytes → Flow

abbrev pub flow_of : Option GoError → Flow
flow_of none = goes_on
flow_of (some e) = fails e

module _ {T H P Q : Type 0} where
  -- `pending <- outcome`
  abbrev pub send_outcome : ℕ → Result Bytes → Session T H P Q → Session T H P Q
  send_outcome channel outcome s = record s {
    call_outcomes = s.call_outcomes ++ (channel, outcome) ∷ [];
  }

  abbrev pub send_accepted : ℕ → Option GoError → Session T H P Q → Session T H P Q
  send_accepted channel outcome s = record s {
    open_outcomes = s.open_outcomes ++ (channel, outcome) ∷ [];
  }

  abbrev finish_ref : ℕ → GoError → Session T H P Q → Session T H P Q
  finish_ref ref e = on_stream ref (λ live. finish_stream live (some e))

  abbrev settle_call_result : ℕ → Session T H P Q → Result CallResult → Session T H P Q × Flow
  settle_call_result channel s (err e) = (send_outcome channel (err e) s, fails e)
  settle_call_result channel s (ok result) = (send_outcome channel (ok result.payload) s, goes_on)

  -- An `unaryOutcome` with neither payload nor error is an empty payload.
  abbrev settle_call_end : ℕ → Session T H P Q → Result (Option GoError) → Session T H P Q × Flow
  settle_call_end channel s (err e) = (send_outcome channel (err e) s, fails e)
  settle_call_end channel s (ok none) = (send_outcome channel (ok []) s, goes_on)
  settle_call_end channel s (ok (some failure)) = (send_outcome channel (err failure) s, goes_on)

  abbrev settle_open_end : ℕ → Session T H P Q → Result (Option GoError) → Session T H P Q × Flow
  settle_open_end channel s (err e) = (send_accepted channel (some e) s, fails e)
  settle_open_end channel s (ok failure) = (send_accepted channel failure s, goes_on)

  abbrev end_of_stream : ℕ → Session T H P Q → Result (Option GoError) → Session T H P Q × Flow
  end_of_stream ref s (err e) = (finish_ref ref e s, fails e)
  end_of_stream ref s (ok none) = (finish_ref ref (sentinel stream_closed) s, goes_on)
  end_of_stream ref s (ok (some failure)) = (finish_ref ref failure s, goes_on)

module _ {T H P Q : Type 0} (ports : Ports T H P Q) where
  unfoldable pub settle_call : ℕ → Session T H P Q → Frame → Session T H P Q × Flow
  unfolding decode_failure
  settle_call channel s frame =
      if frame.frame_type == frame_call_result
      then settle_call_result channel s (unmarshal ports.wire.call_result frame.payload)
      else if frame.frame_type == frame_stream_end
      then settle_call_end channel s (decode_failure ports.wire frame.payload)
      else (
        send_outcome channel (err (sentinel protocol_violation)) s,
        fails (sentinel protocol_violation),
      )

  unfoldable pub settle_open : ℕ → Session T H P Q → Frame → Session T H P Q × Flow
  unfolding decode_failure
  settle_open channel s frame =
      if frame.frame_type == frame_stream_open_ack
      then (send_accepted channel none s, goes_on)
      else if frame.frame_type == frame_stream_end
      then settle_open_end channel s (decode_failure ports.wire frame.payload)
      else (
        send_accepted channel (some (sentinel protocol_violation)) s,
        fails (sentinel protocol_violation),
      )

  -- What the read loop makes of a delivery into the stream `live` under `ref`.
  unfoldable pub after_delivery :
      ℕ → ℕ → Bytes → Session T H P Q → Delivery → Session T H P Q × Flow
  unfolding send_end is
  after_delivery ref id payload s (delivered live) =
      (record s { objects = insert ref live s.objects }, goes_on)
  after_delivery ref id payload s parks = (s, waits_for ref payload)
  after_delivery ref id payload s (refused e) =
      if is e message_too_large
      then (send_end ports (finish_ref ref e s) id status_message_too_large, goes_on)
      else (s, fails e)

  abbrev serve_data : ℕ → Bool → Session T H P Q → Stream → Result Data → Session T H P Q × Flow
  serve_data ref prefer s live (err e) = (finish_ref ref e s, fails e)
  serve_data ref prefer s live (ok m) =
      after_delivery ref live.id m.payload s (deliver s.limits prefer live m.payload)

  -- serveFrame, on the stream `live` under `ref`.
  unfoldable pub serve_frame : ℕ → Bool → Session T H P Q → Stream → Frame → Session T H P Q × Flow
  unfolding after_delivery decode_failure
  serve_frame ref prefer s live frame =
      if frame.frame_type == frame_data
      then serve_data ref prefer s live (unmarshal ports.wire.data_message frame.payload)
      else if frame.frame_type == frame_close_send
      then (on_stream ref close_inbound_half s, goes_on)
      else if frame.frame_type == frame_stream_end
      then end_of_stream ref s (decode_failure ports.wire frame.payload)
      else (finish_ref ref (sentinel protocol_violation) s, fails (sentinel protocol_violation))

  abbrev answer_written : Session T H P Q × Option GoError → Session T H P Q × Flow
  answer_written (s, e) = (s, flow_of e)

  abbrev answer_marshalled : Session T H P Q → Result Bytes → Session T H P Q × Flow
  answer_marshalled s (err e) = (s, fails e)
  answer_marshalled s (ok body) = answer_written (
      write_frame_or_end ports s
        (record { frame_type = frame_pong; stream_id = 0; payload = body }))

  abbrev answer_decoded : ℕ → Session T H P Q → Result Ping → Session T H P Q × Flow
  answer_decoded now s (err e) = (s, fails e)
  answer_decoded now s (ok ping) = elim (marshal ports.wire.pong (record { nonce = ping.nonce })) [
    | err e ↦ (s, fails e)
    | ok body ↦ answer_marshalled (record s { last_pong = now }) (ok body)
  ]

  unfoldable pub answer_ping : ℕ → Session T H P Q → Frame → Session T H P Q × Flow
  answer_ping now s frame = answer_decoded now s (unmarshal ports.wire.ping frame.payload)
