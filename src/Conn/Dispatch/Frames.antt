-- ===== src/Conn/Dispatch/Frames.antt =====
-- infrastructure/peer/conn/dispatch.go: dispatch and the read loop.
use pluginprotocol.Codec.{
  Frame, frame_open_call, frame_open_stream, frame_data, frame_close_send, frame_stream_end,
  frame_ping, frame_pong, frame_close, scoped,
}
use pluginprotocol.Conn.Dispatch.Inbound.{open_call, open_stream}
use pluginprotocol.Conn.Dispatch.Replies.{
  Flow, goes_on, fails, waits_for, settle_call, settle_open, serve_frame, after_delivery,
  answer_ping,
}
use pluginprotocol.Conn.Session.{
  Session, Ports, owns_stream_id, take_call, take_open, take_stream, find_stream, cancel_inflight,
  end,
}
use pluginprotocol.Conn.Stream.{deliver_select}
use pluginprotocol.Errors.{sentinel, eof, protocol_violation, Result, ok, err}
use pluginprotocol.Prelude.{ℕ, Bool, ◌||◌, Option, none, some, ◌==◌, if◌then◌else◌, Bytes}
use pluginprotocol.Prelude.Store.{lookup}

module _ {T H P Q : Type 0} (ports : Ports T H P Q) where
  -- serveFrame on the stream under a reference that a map gave.
  unfoldable pub serve_ref : Bool → Session T H P Q → Frame → ℕ → Session T H P Q × Flow
  unfolding serve_frame
  serve_ref prefer s frame ref = elim (lookup ref s.objects) [
    | none ↦ (s, goes_on)
    | some live ↦ serve_frame ports ref prefer s live frame
  ]

  -- FrameStreamEnd for no stream is the caller withdrawing an inbound call.
  unfoldable pub end_taken : Bool → Frame → Session T H P Q × Option ℕ → Session T H P Q × Flow
  unfolding serve_ref cancel_inflight
  end_taken prefer frame (s, none) = (cancel_inflight frame.stream_id s, goes_on)
  end_taken prefer frame (s, some ref) = serve_ref prefer s frame ref

  -- Below the pending requests: what stays alive, what ends, and replies that lost their race.
  unfoldable pub dispatch_stream : Bool → Frame → Session T H P Q → Session T H P Q × Flow
  unfolding serve_ref end_taken find_stream take_stream
  dispatch_stream prefer frame s =
      if frame.frame_type == frame_data || frame.frame_type == frame_close_send
      then elim (find_stream frame.stream_id s) [
        | none ↦ (s, goes_on)
        | some ref ↦ serve_ref prefer s frame ref
      ]
      else if frame.frame_type == frame_stream_end
      then end_taken prefer frame (take_stream frame.stream_id s)
      else (s, goes_on)

  unfoldable pub dispatch_open : Bool → Frame → Session T H P Q × Option ℕ → Session T H P Q × Flow
  unfolding dispatch_stream settle_open
  dispatch_open prefer frame (s, some channel) = settle_open ports channel s frame
  dispatch_open prefer frame (s, none) = dispatch_stream prefer frame s

  -- A pending request is matched first.
  unfoldable pub dispatch_reply : Bool → Frame → Session T H P Q × Option ℕ → Session T H P Q × Flow
  unfolding dispatch_open take_open settle_call
  dispatch_reply prefer frame (s, some channel) = settle_call ports channel s frame
  dispatch_reply prefer frame (s, none) = dispatch_open prefer frame (take_open frame.stream_id s)

  unfoldable pub dispatch_scoped : Bool → Session T H P Q → Frame → Session T H P Q × Flow
  unfolding dispatch_reply take_call owns_stream_id open_call open_stream
  dispatch_scoped prefer s frame =
      if frame.stream_id == 0
      then (s, fails (sentinel protocol_violation))
      else if frame.frame_type == frame_open_call
      then (if owns_stream_id s.role frame.stream_id
          then (s, fails (sentinel protocol_violation))
          else (open_call ports s frame.stream_id frame.payload, goes_on))
      else if frame.frame_type == frame_open_stream
      then (if owns_stream_id s.role frame.stream_id
          then (s, fails (sentinel protocol_violation))
          else (open_stream ports s frame.stream_id frame.payload, goes_on))
      else dispatch_reply prefer frame (take_call frame.stream_id s)

  unfoldable pub dispatch : ℕ → Bool → Session T H P Q → Frame → Session T H P Q × Flow
  unfolding dispatch_scoped answer_ping scoped end
  dispatch now prefer s frame =
      if frame.frame_type == frame_ping
      then answer_ping ports now s frame
      else if frame.frame_type == frame_pong
      then (record s { last_pong = now }, goes_on)
      else if frame.frame_type == frame_close
      then (end ports (some (sentinel eof)) s, fails (sentinel eof))
      else if scoped frame.frame_type
      then dispatch_scoped prefer s frame
      else (s, fails (sentinel protocol_violation))

  -- The read loop on what a frame came to: an error ends the session.
  unfoldable pub after_dispatch : Session T H P Q × Flow → Session T H P Q × Flow
  unfolding end
  after_dispatch (s, goes_on) = (s, goes_on)
  after_dispatch (s, waits_for ref payload) = (s, waits_for ref payload)
  after_dispatch (s, fails e) = (end ports (some e) s, fails e)

  -- One round of readLoop, on what ReadFrame gives.
  unfoldable pub read_round : ℕ → Bool → Session T H P Q → Result Frame → Session T H P Q × Flow
  unfolding after_dispatch dispatch
  read_round now prefer s (err e) = (end ports (some e) s, fails e)
  read_round now prefer s (ok frame) = after_dispatch (dispatch now prefer s frame)

  -- The read loop that waits in deliver looks again, when there is room or the stream has ended.
  unfoldable pub resume_delivery : Bool → Session T H P Q → ℕ → Bytes → Session T H P Q × Flow
  unfolding after_dispatch after_delivery deliver_select
  resume_delivery prefer s ref payload = elim (lookup ref s.objects) [
    | none ↦ (s, goes_on)
    | some live ↦
        after_dispatch
          (after_delivery ports ref live.id payload s (deliver_select prefer live payload))
  ]
