-- ===== src/Conn/Dispatch/Verdicts.antt =====
-- infrastructure/peer/conn/dispatch.go: which frames end a session, and which leave it alone.
use pluginprotocol.Codec.{
  Frame, frame_open_call, frame_open_stream, frame_ping, frame_pong, frame_close, scoped,
}
use pluginprotocol.Conn.Dispatch.Frames.{dispatch, dispatch_scoped, after_dispatch, read_round}
use pluginprotocol.Conn.Dispatch.Replies.{fails}
use pluginprotocol.Conn.Session.{
  Session, Ports, Role, role_client, role_server, settled, stream_cause, owns_stream_id, end,
}
use pluginprotocol.Conn.Session.Ending.{finish_streams_keeps}
use pluginprotocol.Errors.{GoError, sentinel, protocol_violation, ok}
use pluginprotocol.Prelude.{
  ℕ, ◌+◌, ◌*◌, ◌≤◌, ◌<◌, ◌⊎◌, inl, inr, refl, ap, Bool, true, false, ◌≡◌, some, ◌==◌, if◌then◌else◌,
  arith,
}

-- Frames that no peer may send: an unknown type, a scoped frame on stream 0, or a request that
-- opens work on the receiver's own half of the stream IDs.
unfoldable pub is_violation : Role → Frame → Bool
unfolding scoped owns_stream_id
is_violation role frame =
    if frame.frame_type == frame_ping
    then false
    else if frame.frame_type == frame_pong
    then false
    else if frame.frame_type == frame_close
    then false
    else if scoped frame.frame_type
    then (if frame.stream_id == 0
        then true
        else if frame.frame_type == frame_open_call
        then owns_stream_id role frame.stream_id
        else if frame.frame_type == frame_open_stream
        then owns_stream_id role frame.stream_id
        else false)
    else true

-- The same frames by the protocol's rules: the types are 1 to 10 and those up to 7 belong to a
-- stream, 1 opens a call and 3 a stream, and the client's IDs are odd, the server's even.
pub data IsForbidden (role : Role) (frame : Frame) : Type 0 where
  no_type : frame.frame_type ≡ 0 → IsForbidden role frame
  unknown_type : 10 < frame.frame_type → IsForbidden role frame
  no_stream :
      1 ≤ frame.frame_type → frame.frame_type ≤ 7 → frame.stream_id ≡ 0 → IsForbidden role frame
  client_half :
      (half : ℕ)
      → role ≡ role_client
      → (frame.frame_type ≡ 1) ⊎ (frame.frame_type ≡ 3)
      → frame.stream_id ≡ 2 * half + 1
      → IsForbidden role frame
  server_half :
      (half : ℕ)
      → role ≡ role_server
      → (frame.frame_type ≡ 1) ⊎ (frame.frame_type ≡ 3)
      → frame.stream_id ≡ 2 * half
      → IsForbidden role frame

IsForbidden-is_violation :
    (role : Role) (frame : Frame) → IsForbidden role frame → is_violation role frame ≡ true
unfolding is_violation scoped owns_stream_id
IsForbidden-is_violation role frame (no_type e) = ground arith
IsForbidden-is_violation role frame (unknown_type h) = ground arith
IsForbidden-is_violation role frame (no_stream low high e) = ground arith
IsForbidden-is_violation role_client frame (client_half half r (inl t) e) = ground arith
IsForbidden-is_violation role_client frame (client_half half r (inr t) e) = ground arith
IsForbidden-is_violation role_server frame (client_half half r t e) = absurd (ground arith)
IsForbidden-is_violation role_server frame (server_half half r (inl t) e) = ground arith
IsForbidden-is_violation role_server frame (server_half half r (inr t) e) = ground arith
IsForbidden-is_violation role_client frame (server_half half r t e) = absurd (ground arith)

-- The session's transport is closed as it stood, and its handler, what that serves and the two gates
-- are as they were.
pub record OnlyEnds {T H P Q : Type 0} (ports : Ports T H P Q) (s after : Session T H P Q)
    : Type 0 where
  pub transport : after.transport ≡ ports.close s.transport
  pub handler : after.handler ≡ s.handler
  pub serving : after.serving ≡ s.serving
  pub streaming : after.streaming ≡ s.streaming
  pub call_gate : after.call_gate ≡ s.call_gate
  pub stream_gate : after.stream_gate ≡ s.stream_gate

module _ {T H P Q : Type 0} (ports : Ports T H P Q) where
  dispatch_violation :
      (now : ℕ) (prefer : Bool) (s : Session T H P Q) (frame : Frame)
      → is_violation s.role frame ≡ true
      → dispatch ports now prefer s frame ≡ (s, fails (sentinel protocol_violation))
  unfolding dispatch dispatch_scoped is_violation
  dispatch_violation now prefer s frame h = ground arith

  end-OnlyEnds : (e : GoError) (s : Session T H P Q) → OnlyEnds ports s (end ports (some e) s)
  unfolding end settled
  end-OnlyEnds e s =
      let keeps =
        finish_streams_keeps s.streams (stream_cause (some e)) (settled ports (some e) s) in
      record {
        transport = ap (λ (x : Session T H P Q). x.transport) keeps;
        handler = ap (λ (x : Session T H P Q). x.handler) keeps;
        serving = ap (λ (x : Session T H P Q). x.serving) keeps;
        streaming = ap (λ (x : Session T H P Q). x.streaming) keeps;
        call_gate = ap (λ (x : Session T H P Q). x.call_gate) keeps;
        stream_gate = ap (λ (x : Session T H P Q). x.stream_gate) keeps;
      }

  -- A frame that no peer may send ends the session as a protocol violation: one of type 0 or above
  -- 10, one of the types 1 to 7 on stream 0, or one of type 1 or 3, which opens a call or a stream,
  -- with an odd ID where the receiver is the client or an even one where it is the server. Nothing
  -- is written before the transport is closed, and no handler is asked or started.
  pub read_round_violation :
      (now : ℕ) (prefer : Bool) (s : Session T H P Q) (frame : Frame)
      → IsForbidden s.role frame
      → let (after, flow) = read_round ports now prefer s (ok frame) in
        (flow ≡ fails (sentinel protocol_violation))
        × (after ≡ end ports (some (sentinel protocol_violation)) s)
        × OnlyEnds ports s after
  unfolding read_round after_dispatch
  read_round_violation now prefer s frame h =
      rw (dispatch_violation now prefer s frame (IsForbidden-is_violation s.role frame h))
        (refl, refl, end-OnlyEnds (sentinel protocol_violation) s)
