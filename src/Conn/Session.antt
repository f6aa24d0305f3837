-- ===== src/Conn/Session.antt =====
-- infrastructure/peer/conn/session.go and config.go: the state of a session and what it registers.
-- What the session holds by reference, a stream, the channel of a waiter or the context of an
-- inbound call, has a number of its own; the streams stand in a store under it. The connection, the
-- protobuf runtime and the handler are a parameter.
pub mod Ids
pub mod Ending
use pluginprotocol.Codec.{Frame}
use pluginprotocol.Codec.Writer.{writer_bound, write_frame}
use pluginprotocol.Conn.Messages.{Wire}
use pluginprotocol.Conn.Stream.{Stream, finish_stream}
use pluginprotocol.Errors.{
  canceled, GoError, sentinel, eof, connection_closed, short_write, is, Result, ok, err,
}
use pluginprotocol.Limits.{Limits, with_defaults}
use pluginprotocol.Prelude.{
  ℕ, ◌+◌, ◌-◌, ◌%◌, ◌^◌, Bool, true, false, Option, none, some, List, [], ◌∷◌, ◌++◌, map, ◌==◌,
  if◌then◌else◌, ltb, Bytes, ℤ, to_ℕ,
}
use pluginprotocol.Prelude.Store.{lookup, insert, delete}
use pluginprotocol.Router.{Call}

pub data Role : Type 0 where
  role_client role_server : Role

-- The first stream ID that a role may allocate.
unfoldable pub parity : Role → ℕ
parity role_client = 1
parity role_server = 2

-- The io.ReadWriteCloser under the session, of state `T`, the protobuf runtime, and the Handler, of
-- state `H`: what its Prepare functions return is a `P` for a call and a `Q` for a stream, and
-- `serve_call` and `serve_stream` run these.
pub record Ports (T H P Q : Type 0) : Type 0 where
  pub write : T → Bytes → T × ℤ × Option GoError
  pub close : T → T
  pub wire : Wire
  pub prepare_call : H → Option GoError → Bytes → Call → H × Result P
  pub prepare_stream : H → Bytes → Stream → H × Result Q
  pub serve_call : H → P → Call → H × Result Bytes

-- An inbound call that its handler is serving: its stream ID and what it was asked.
pub record Serving (P : Type 0) : Type 0 where
  pub stream_id : ℕ
  pub prepared : P
  pub request : Call

pub record Session (T H P Q : Type 0) : Type 0 where
  pub role : Role
  pub limits : Limits
  pub remote : Bytes
  pub transport : T
  pub handler : H
  pub next_stream_id : ℕ
  -- The store of the streams, and the next number of anything held by reference.
  pub objects : List (ℕ × Stream)
  pub next_ref : ℕ
  -- The maps of the session.
  pub streams : List (ℕ × ℕ)
  pub calls : List (ℕ × ℕ)
  pub opens : List (ℕ × ℕ)
  pub inflight : List (ℕ × ℕ)
  -- What was sent into the channels of the waiters, and the call contexts that were cancelled.
  pub call_outcomes : List (ℕ × Result Bytes)
  pub open_outcomes : List (ℕ × Option GoError)
  pub cancelled : List ℕ
  pub ctx_err : Option GoError
  pub final : Option GoError
  pub ended : Bool
  pub call_gate : ℕ
  pub stream_gate : ℕ
  -- The goroutines that serve calls, under their contexts, and streams, under their references.
  pub serving : List (ℕ × Serving P)
  pub streaming : List (ℕ × Q)
  pub last_pong : ℕ
  -- Whether closeOnce is done.
  pub closed : Bool

unfoldable pub owns_stream_id : Role → ℕ → Bool
owns_stream_id role_client stream_id = stream_id % 2 == 1
owns_stream_id role_server stream_id = if stream_id % 2 == 1 then false else true

module _ {T H P Q : Type 0} where
  unfoldable pub new_session : Role → Limits → Bytes → T → H → ℕ → Session T H P Q
  unfolding with_defaults parity
  new_session role limits remote transport handler now = record {
    role = role;
    limits = with_defaults limits;
    remote = remote;
    transport = transport;
    handler = handler;
    next_stream_id = parity role;
    objects = [];
    next_ref = 0;
    streams = [];
    calls = [];
    opens = [];
    inflight = [];
    call_outcomes = [];
    open_outcomes = [];
    cancelled = [];
    ctx_err = none;
    final = none;
    ended = false;
    call_gate = 0;
    stream_gate = 0;
    serving = [];
    streaming = [];
    last_pong = now;
    closed = false;
  }

  -- usable: why the session may not accept new work.
  unfoldable pub usable : Session T H P Q → Option GoError
  usable s = if s.ended then s.final else none

  unfoldable pub register_call : ℕ → ℕ → Session T H P Q → Session T H P Q
  register_call stream_id channel s = record s { calls = insert stream_id channel s.calls }

  unfoldable pub discard_call : ℕ → Session T H P Q → Session T H P Q
  discard_call stream_id s = record s { calls = delete stream_id s.calls }

  unfoldable pub track_inflight : ℕ → ℕ → Session T H P Q → Session T H P Q
  track_inflight stream_id context s = record s { inflight = insert stream_id context s.inflight }

  unfoldable pub release_inflight : ℕ → Session T H P Q → Session T H P Q
  release_inflight stream_id s = record s { inflight = delete stream_id s.inflight }

  unfoldable pub cancel_inflight : ℕ → Session T H P Q → Session T H P Q
  cancel_inflight stream_id s = elim (lookup stream_id s.inflight) [
    | none ↦ s
    | some context ↦ record s {
      inflight = delete stream_id s.inflight;
      cancelled = context ∷ s.cancelled;
    }
  ]

  unfoldable pub register_open : ℕ → ℕ → Session T H P Q → Session T H P Q
  register_open stream_id channel s = record s { opens = insert stream_id channel s.opens }

  unfoldable pub discard_open : ℕ → Session T H P Q → Session T H P Q
  discard_open stream_id s = record s { opens = delete stream_id s.opens }

  unfoldable pub register_stream : ℕ → ℕ → Session T H P Q → Session T H P Q
  register_stream stream_id ref s = record s { streams = insert stream_id ref s.streams }

  unfoldable pub discard_stream : ℕ → Session T H P Q → Session T H P Q
  discard_stream stream_id s = record s { streams = delete stream_id s.streams }

  -- `nextStreamID.Add(2) - 2`, a uint64.
  unfoldable pub allocate_stream_id : Session T H P Q → Session T H P Q × ℕ
  allocate_stream_id s =
      (record s { next_stream_id = (s.next_stream_id + 2) % 2 ^ 64 }, s.next_stream_id)

  unfoldable pub find_stream : ℕ → Session T H P Q → Option ℕ
  find_stream stream_id s = lookup stream_id s.streams

  unfoldable pub take_stream : ℕ → Session T H P Q → Session T H P Q × Option ℕ
  take_stream stream_id s = elim (lookup stream_id s.streams) [
    | none ↦ (s, none)
    | some ref ↦ (record s { streams = delete stream_id s.streams }, some ref)
  ]

  unfoldable pub take_open : ℕ → Session T H P Q → Session T H P Q × Option ℕ
  take_open stream_id s = elim (lookup stream_id s.opens) [
    | none ↦ (s, none)
    | some channel ↦ (record s { opens = delete stream_id s.opens }, some channel)
  ]

  unfoldable pub take_call : ℕ → Session T H P Q → Session T H P Q × Option ℕ
  take_call stream_id s = elim (lookup stream_id s.calls) [
    | none ↦ (s, none)
    | some channel ↦ (record s { calls = delete stream_id s.calls }, some channel)
  ]

  -- A method of a stream, on the stream that stands under a reference.
  unfoldable pub on_stream : ℕ → (Stream → Stream) → Session T H P Q → Session T H P Q
  on_stream ref f s = elim (lookup ref s.objects) [
    | none ↦ s
    | some live ↦ record s { objects = insert ref (f live) s.objects }
  ]

  -- finishStream of every stream of a map.
  unfoldable pub finish_streams : List (ℕ × ℕ) → Option GoError → Session T H P Q → Session T H P Q
  unfolding on_stream
  finish_streams [] cause s = s
  finish_streams ((stream_id, ref) ∷ rest) cause s =
      finish_streams rest cause (on_stream ref (λ live. finish_stream live cause) s)

-- terminalOf
unfoldable pub terminal_of : Option GoError → GoError
unfolding is
terminal_of none = sentinel connection_closed
terminal_of (some e) = if is e eof then sentinel connection_closed else e

-- What end tells the streams: a clean end is no cause.
unfoldable pub stream_cause : Option GoError → Option GoError
unfolding is
stream_cause none = none
stream_cause (some e) = if is e eof then none else some e

abbrev pub or_nil : Option GoError → GoError → GoError
or_nil none e = e
or_nil (some x) e = x

abbrev pub cancel_ctx : Option GoError → Option GoError
cancel_ctx none = some (sentinel canceled)
cancel_ctx (some e) = some e

module _ {T H P Q : Type 0} (ports : Ports T H P Q) where
  -- The terminal cause after an end for `cause`: the first one stays. `ended` and `terminal` are
  -- only ever set together, so an ended session has one.
  unfoldable pub final_after : Session T H P Q → Option GoError → GoError
  unfolding terminal_of
  final_after s cause = if s.ended then or_nil s.final (terminal_of cause) else terminal_of cause

  -- `end` up to its last loop.
  unfoldable pub settled : Option GoError → Session T H P Q → Session T H P Q
  unfolding final_after
  settled cause s =
      let failure = final_after s cause in
      record s {
        ctx_err = cancel_ctx s.ctx_err;
        transport = ports.close s.transport;
        ended = true;
        final = some failure;
        streams = [];
        calls = [];
        opens = [];
        inflight = [];
        call_outcomes = s.call_outcomes ++ map (λ (w : ℕ × ℕ). (w.1, Result.err failure)) s.calls;
        open_outcomes = s.open_outcomes ++ map (λ (w : ℕ × ℕ). (w.1, some failure)) s.opens;
        cancelled = s.cancelled ++ map (λ (w : ℕ × ℕ). w.1) s.inflight;
      }

  unfoldable pub end : Option GoError → Session T H P Q → Session T H P Q
  unfolding settled stream_cause finish_streams
  end cause s = finish_streams s.streams (stream_cause cause) (settled cause s)

  -- What a WriteFrame came to; the rounds never run out (Codec.Writer.Delivery).
  unfoldable pub after_write :
      Session T H P Q → Option (T × Option GoError) → Session T H P Q × Option GoError
  unfolding end
  after_write s none = (s, none)
  after_write s (some (t, none)) = (record s { transport = t }, none)
  after_write s (some (t, some e)) = (end (some e) (record s { transport = t }), some e)

  -- The session's writeFrame; sendFrame is it, its error ignored.
  unfoldable pub write_frame_or_end : Session T H P Q → Frame → Session T H P Q × Option GoError
  unfolding after_write write_frame
  write_frame_or_end s frame =
      after_write s
        (write_frame ports.write (writer_bound s.limits.max_message_bytes) s.transport frame)

  abbrev pub send_frame : Session T H P Q → Frame → Session T H P Q
  send_frame s frame = (write_frame_or_end s frame).0
