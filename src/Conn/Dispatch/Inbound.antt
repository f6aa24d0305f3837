-- ===== src/Conn/Dispatch/Inbound.antt =====
-- infrastructure/peer/conn/dispatch.go: openCall and openStream, with the goroutines that they start.
use pluginprotocol.Codec.{frame_call_result, frame_stream_open_ack}
use pluginprotocol.Codec.Body.{marshal, unmarshal}
use pluginprotocol.Conn.Messages.{CallRequest, OpenStream, end_frame}
use pluginprotocol.Conn.Session.{
  Session, Ports, Serving, track_inflight, release_inflight, register_stream, discard_stream,
  on_stream, write_frame_or_end, send_frame,
}
use pluginprotocol.Conn.Stream.{Stream, new_stream_within, finish_stream}
use pluginprotocol.Errors.{GoError, Result, ok, err}
use pluginprotocol.Prelude.{
  ℕ, suc, ◌+◌, ◌-◌, Option, none, some, [], ◌∷◌, ltb, if◌then◌else◌, Bytes, bytes_eq, to_ℕ,
}
use pluginprotocol.Prelude.Store.{lookup, insert, delete}
use pluginprotocol.Router.{Call}
use pluginprotocol.Status.{
  status_of, status_invalid_request, status_method_not_found, status_overloaded, status_internal,
}

module _ {T H P Q : Type 0} where
  -- acquire and release of the two gates, each a channel with room for its limit.
  unfoldable pub acquire_call : Session T H P Q → Option (Session T H P Q)
  acquire_call s =
      if ltb s.call_gate (to_ℕ s.limits.max_concurrent_calls)
      then some (record s { call_gate = s.call_gate + 1 })
      else none

  unfoldable pub release_call : Session T H P Q → Session T H P Q
  release_call s = record s { call_gate = s.call_gate - 1 }

  unfoldable pub acquire_stream : Session T H P Q → Option (Session T H P Q)
  acquire_stream s =
      if ltb s.stream_gate (to_ℕ s.limits.max_concurrent_streams)
      then some (record s { stream_gate = s.stream_gate + 1 })
      else none

  unfoldable pub release_stream : Session T H P Q → Session T H P Q
  release_stream s = record s { stream_gate = s.stream_gate - 1 }

module _ {T H P Q : Type 0} (ports : Ports T H P Q) where
  -- sendFrame of endFrame.
  unfoldable pub send_end : Session T H P Q → ℕ → ℕ → Session T H P Q
  send_end s stream_id code = send_frame ports s (end_frame ports.wire stream_id code)

  -- openCall after PrepareCall, at the handler's state after it.
  unfoldable pub after_prepare_call : Session T H P Q → ℕ → Call → H × Result P → Session T H P Q
  unfolding release_call send_end track_inflight
  after_prepare_call s stream_id call (h, err e) =
      send_end (release_call (record s { handler = h })) stream_id (status_of (some e))
  after_prepare_call s stream_id call (h, ok p) = track_inflight stream_id s.next_ref (record s {
    handler = h;
    next_ref = suc s.next_ref;
    serving =
        (s.next_ref, record { stream_id = stream_id; prepared = p; request = call }) ∷ s.serving;
  })

  unfoldable pub open_call_request : Session T H P Q → ℕ → CallRequest → Session T H P Q
  unfolding acquire_call after_prepare_call send_end
  open_call_request s stream_id request =
      let call : Call = record { method = request.method; payload = request.payload; from = [] } in
      if bytes_eq request.method []
      then send_end s stream_id status_method_not_found
      else elim (acquire_call s) [
        | none ↦ send_end s stream_id status_overloaded
        | some gated ↦
            after_prepare_call gated stream_id call
              (ports.prepare_call gated.handler gated.ctx_err gated.remote call)
      ]

  unfoldable pub open_call : Session T H P Q → ℕ → Bytes → Session T H P Q
  unfolding open_call_request send_end
  open_call s stream_id body = elim (unmarshal ports.wire.call_request body) [
    | err e ↦ send_end s stream_id status_invalid_request
    | ok request ↦ open_call_request s stream_id request
  ]

  -- The reply of the goroutine that serves a call.
  unfoldable pub reply_call : Session T H P Q → ℕ → Result Bytes → Session T H P Q
  unfolding send_end
  reply_call s stream_id (err e) = send_end s stream_id (status_of (some e))
  reply_call s stream_id (ok payload) =
      elim (marshal ports.wire.call_result (record { payload = payload })) [
        | err e ↦ send_end s stream_id status_internal
        | ok body ↦
            send_frame ports s
              (record { frame_type = frame_call_result; stream_id = stream_id; payload = body })
      ]

  -- Its deferred calls, and the end of the goroutine.
  unfoldable pub end_call : Session T H P Q → ℕ → Serving P → Session T H P Q
  unfolding release_call release_inflight
  end_call s context task = release_call (
      release_inflight task.stream_id
        (record s { cancelled = context ∷ s.cancelled; serving = delete context s.serving }))

  unfoldable pub after_serve_call :
      Session T H P Q → ℕ → Serving P → H × Result Bytes → Session T H P Q
  unfolding end_call reply_call
  after_serve_call s context task (h, answer) =
      end_call (reply_call (record s { handler = h }) task.stream_id answer) context task

  -- The goroutine that serves the call with this context, run to its end.
  unfoldable pub finish_call : Session T H P Q → ℕ → Session T H P Q
  unfolding after_serve_call
  finish_call s context = elim (lookup context s.serving) [
    | none ↦ s
    | some task ↦
        after_serve_call s context task (ports.serve_call s.handler task.prepared task.request)
  ]

  -- What openStream undoes of an accepted stream that it could not acknowledge.
  unfoldable pub abandon_stream : Session T H P Q → ℕ → ℕ → GoError → Session T H P Q
  unfolding release_stream discard_stream on_stream finish_stream
  abandon_stream s stream_id ref e =
      on_stream ref (λ live. finish_stream live (some e))
        (discard_stream stream_id (release_stream s))

  unfoldable pub after_ack : ℕ → ℕ → Q → Session T H P Q × Option GoError → Session T H P Q
  unfolding abandon_stream
  after_ack stream_id ref q (s, none) = record s { streaming = (ref, q) ∷ s.streaming }
  after_ack stream_id ref q (s, some e) = abandon_stream s stream_id ref e

  unfoldable pub acknowledge : Session T H P Q → ℕ → ℕ → Q → Session T H P Q
  unfolding after_ack abandon_stream send_end
  acknowledge s stream_id ref q = elim (marshal ports.wire.stream_accepted (record {})) [
    | err e ↦ send_end (abandon_stream s stream_id ref e) stream_id status_internal
    | ok ack ↦ after_ack stream_id ref q (
        write_frame_or_end ports s
          (record { frame_type = frame_stream_open_ack; stream_id = stream_id; payload = ack }))
  ]

  -- openStream after PrepareStream of the new stream `live`.
  unfoldable pub after_prepare_stream :
      Session T H P Q → ℕ → Stream → H × Result Q → Session T H P Q
  unfolding release_stream send_end register_stream acknowledge finish_stream
  after_prepare_stream s stream_id live (h, err e) =
      send_end
        (record (release_stream s) {
          handler = h;
          next_ref = suc s.next_ref;
          objects = insert s.next_ref (finish_stream live (some e)) s.objects;
        })
        stream_id (status_of (some e))
  after_prepare_stream s stream_id live (h, ok q) =
      acknowledge
        (register_stream stream_id s.next_ref (record s {
          handler = h;
          next_ref = suc s.next_ref;
          objects = insert s.next_ref live s.objects;
        }))
        stream_id s.next_ref q

  unfoldable pub open_stream_request : Session T H P Q → ℕ → OpenStream → Session T H P Q
  unfolding acquire_stream after_prepare_stream send_end new_stream_within
  open_stream_request s stream_id request =
      if bytes_eq request.method []
      then send_end s stream_id status_method_not_found
      else elim (acquire_stream s) [
        | none ↦ send_end s stream_id status_overloaded
        | some gated ↦
            let live = new_stream_within gated.limits stream_id request.method gated.ctx_err in
            after_prepare_stream gated stream_id live
              (ports.prepare_stream gated.handler gated.remote live)
      ]

  unfoldable pub open_stream : Session T H P Q → ℕ → Bytes → Session T H P Q
  unfolding open_stream_request send_end
  open_stream s stream_id body = elim (unmarshal ports.wire.open_stream body) [
    | err e ↦ send_end s stream_id status_invalid_request
    | ok request ↦ open_stream_request s stream_id request
  ]
