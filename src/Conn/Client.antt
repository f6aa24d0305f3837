-- ===== src/Conn/Client.antt =====
-- infrastructure/peer/conn/session.go and dispatch.go: what this endpoint starts itself. A call or
-- an open that waits is two functions, one up to its await and one from there.
pub mod Ended
mod Tests
use pluginprotocol.Codec.{Frame, frame_open_call, frame_open_stream, frame_ping, frame_close}
use pluginprotocol.Codec.Body.{marshal}
use pluginprotocol.Conn.Dispatch.Inbound.{send_end}
use pluginprotocol.Conn.Session.{
  Session, Ports, usable, register_call, discard_call, register_open, discard_open, register_stream,
  discard_stream, allocate_stream_id, find_stream, on_stream, write_frame_or_end, send_frame, end,
}
use pluginprotocol.Conn.Stream.{Stream, new_stream_within, finish_stream}
use pluginprotocol.Errors.{
  GoError, sentinel, canceled, connection_closed, message_too_large, method_not_found, is, Result,
  ok, err,
}
use pluginprotocol.Prelude.{
  ℕ, suc, ◌+◌, ◌*◌, ◌-◌, Bool, true, false, Option, none, some, [], ltb, if◌then◌else◌, Bytes,
  bytes_eq, exceeds, length,
}
use pluginprotocol.Prelude.Store.{lookup, insert}
use pluginprotocol.Status.{status_of, status_canceled}

-- What await comes to: it blocks, it gives the value, or the context ended.
pub data Awaited (A : Type 0) : Type 0 where
  waits : Awaited A
  receives : A → Awaited A
  gives_up : GoError → Awaited A

-- The `select` of await, on what the channel holds. The channels are never closed.
unfoldable pub await_select : {A : Type 0} → Bool → Option GoError → Option A → Awaited A
await_select prefer none none = waits
await_select prefer (some e) none = gives_up e
await_select prefer none (some value) = receives value
await_select prefer (some e) (some value) = if prefer then receives value else gives_up e

-- await, when it begins.
unfoldable pub await : {A : Type 0} → Option GoError → Option A → Awaited A
unfolding await_select
await (some e) value = gives_up e
await none value = await_select true none value

-- A request that waits: its stream ID, and the number of its channel or of its stream.
pub record Pending : Type 0 where
  pub stream_id : ℕ
  pub channel : ℕ

module _ {T H P Q : Type 0} (ports : Ports T H P Q) where
  unfoldable pub notify_cancelled : Session T H P Q → ℕ → GoError → Session T H P Q
  unfolding send_end is status_of
  notify_cancelled s stream_id cause =
      send_end ports s stream_id
        (if is cause canceled then status_canceled else status_of (some cause))

  unfoldable pub after_call_write :
      Pending → Session T H P Q × Option GoError → Session T H P Q × Result Pending
  unfolding discard_call
  after_call_write pending (s, none) = (s, ok pending)
  after_call_write pending (s, some e) = (discard_call pending.stream_id s, err e)

  unfoldable pub write_call : Session T H P Q × ℕ → Bytes → Session T H P Q × Result Pending
  unfolding after_call_write register_call
  write_call (s, stream_id) body =
      let pending : Pending = record { stream_id = stream_id; channel = s.next_ref } in
      after_call_write pending (
        write_frame_or_end ports
          (register_call stream_id s.next_ref (record s { next_ref = suc s.next_ref }))
          (record { frame_type = frame_open_call; stream_id = stream_id; payload = body }))

  -- Call up to its await.
  unfoldable pub call_begin : Session T H P Q → Bytes → Bytes → Session T H P Q × Result Pending
  unfolding usable write_call allocate_stream_id
  call_begin s method payload = elim (usable s) [
    | some e ↦ (s, err e)
    | none ↦
        if exceeds (length payload) s.limits.max_message_bytes
        then (s, err (sentinel message_too_large))
        else elim (marshal ports.wire.call_request
            (record { method = method; payload = payload })) [
              | err e ↦ (s, err e)
              | ok body ↦ write_call (allocate_stream_id s) body
            ]
  ]

  -- Call from its await on: `none` while it waits.
  unfoldable pub call_end :
      Session T H P Q → Pending → Awaited (Result Bytes) → Session T H P Q × Option (Result Bytes)
  unfolding discard_call notify_cancelled
  call_end s pending waits = (s, none)
  call_end s pending (gives_up e) =
      (discard_call pending.stream_id (notify_cancelled s pending.stream_id e), some (err e))
  call_end s pending (receives outcome) = (discard_call pending.stream_id s, some outcome)

  abbrev finish_local : ℕ → Option GoError → Session T H P Q → Session T H P Q
  finish_local ref cause = on_stream ref (λ live. finish_stream live cause)

  unfoldable pub after_open_write :
      Pending → ℕ → Session T H P Q × Option GoError → Session T H P Q × Result (Pending × ℕ)
  unfolding discard_open on_stream finish_stream
  after_open_write pending ref (s, none) = (s, ok (pending, ref))
  after_open_write pending ref (s, some e) =
      (discard_open pending.stream_id (finish_local ref (some e) s), err e)

  unfoldable pub write_open :
      Session T H P Q × ℕ → Bytes → Option GoError → Bytes → Session T H P Q × Result (Pending × ℕ)
  unfolding after_open_write register_stream register_open new_stream_within
  write_open (s, stream_id) method ctx_err body =
      let ref = s.next_ref in
      let pending : Pending = record { stream_id = stream_id; channel = suc ref } in
      let live = new_stream_within s.limits stream_id method ctx_err in
      after_open_write pending ref (
        write_frame_or_end ports
          (register_open stream_id (suc ref) (
            register_stream stream_id ref
              (record s { next_ref = suc (suc ref); objects = insert ref live s.objects })))
          (record { frame_type = frame_open_stream; stream_id = stream_id; payload = body }))

  -- OpenStream up to its await; `ctx_err` is what the caller's context gives.
  unfoldable pub open_begin :
      Session T H P Q → Bytes → Option GoError → Session T H P Q × Result (Pending × ℕ)
  unfolding usable write_open allocate_stream_id
  open_begin s method ctx_err = elim (usable s) [
    | some e ↦ (s, err e)
    | none ↦
        if bytes_eq method []
        then (s, err (sentinel method_not_found))
        else elim (marshal ports.wire.open_stream (record { method = method })) [
          | err e ↦ (s, err e)
          | ok body ↦ write_open (allocate_stream_id s) method ctx_err body
        ]
  ]

  -- OpenStream from its await on, which gives the number of the stream.
  unfoldable pub open_end :
      Session T H P Q → Pending → ℕ → Awaited (Option GoError) → Session T H P Q × Option (Result ℕ)
  unfolding discard_open on_stream finish_stream notify_cancelled
  open_end s pending ref waits = (s, none)
  open_end s pending ref (gives_up e) = (
    discard_open pending.stream_id
        (notify_cancelled (finish_local ref (some e) s) pending.stream_id e),
    some (err e),
  )
  open_end s pending ref (receives (some e)) =
      (discard_open pending.stream_id (finish_local ref (some e) s), some (err e))
  open_end s pending ref (receives none) = (discard_open pending.stream_id s, some (ok ref))

  abbrev stop_following : Session T H P Q → ℕ → ℕ → Option GoError → Session T H P Q
  stop_following s stream_id ref none = s
  stop_following s stream_id ref (some e) =
      notify_cancelled (finish_local ref (some e) (discard_stream stream_id s)) stream_id e

  -- The goroutine of followStreamContext, when it wakes.
  unfoldable pub follow_stream_context : Session T H P Q → ℕ → ℕ → Session T H P Q
  unfolding find_stream discard_stream on_stream finish_stream notify_cancelled
  follow_stream_context s stream_id ref = elim (find_stream stream_id s) [
    | none ↦ s
    | some other ↦ elim (lookup ref s.objects) [
      | none ↦ s
      | some live ↦ stop_following s stream_id ref live.ctx_err
    ]
  ]

  unfoldable pub close : Session T H P Q → Session T H P Q
  unfolding end
  close s =
      if s.closed
      then s
      else end ports none (
          send_frame ports (record s { closed = true })
            (record { frame_type = frame_close; stream_id = 0; payload = [] }))

  abbrev after_probe : ℕ → ℕ → Session T H P Q × Option GoError → Session T H P Q
  after_probe now keep_alive (s, some e) = end ports (some e) s
  after_probe now keep_alive (s, none) =
      if ltb (keep_alive * 2) (now - s.last_pong)
      then end ports (some (sentinel connection_closed)) s
      else s

  -- A tick of probeLoop. A time before the last pong is no silence.
  unfoldable pub probe_tick : ℕ → ℕ → Session T H P Q → Session T H P Q
  unfolding end
  probe_tick now keep_alive s = elim (marshal ports.wire.ping (record { nonce = now })) [
    | err e ↦ end ports (some e) s
    | ok body ↦ after_probe now keep_alive (
        write_frame_or_end ports s
          (record { frame_type = frame_ping; stream_id = 0; payload = body }))
  ]
