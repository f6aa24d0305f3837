-- ===== src/Conn/Dispatch/Gates.antt =====
-- infrastructure/peer/conn/dispatch.go: the gate of the inbound calls.
use pluginprotocol.Codec.{Frame, frame_call_result}
use pluginprotocol.Codec.Body.{marshal, unmarshal}
use pluginprotocol.Conn.Dispatch.Inbound.{
  acquire_call, release_call, send_end, after_prepare_call, open_call_request, open_call,
  finish_call, after_serve_call, end_call, reply_call,
}
use pluginprotocol.Conn.Messages.{CallRequest}
use pluginprotocol.Conn.Session.{
  Session, Ports, Serving, end, settled, stream_cause, after_write, write_frame_or_end, send_frame,
  release_inflight, track_inflight, release_inflight,
}
use pluginprotocol.Conn.Session.Ending.{finish_streams_keeps}
use pluginprotocol.Errors.{GoError, Result, ok, err}
use pluginprotocol.Prelude.{
  ℕ, ◌+◌, ◌-◌, ◌<◌, ◌≡◌, ◌∙◌, ◌⊎◌, inl, inr, refl, ap, Option, none, some, [], Bytes, bytes_eq, ltb,
  ltb→lt, ltb-false→le, ◌≢◌, bytes_eq→eq, arith, Bool-cases, to_ℕ,
}
use pluginprotocol.Prelude.Store.{lookup, delete, lookup-delete}
use pluginprotocol.Router.Calls.{named_of}
use pluginprotocol.Status.{
  status_of, status_invalid_request, status_internal, status_method_not_found, status_overloaded,
}
use pluginprotocol.Conn.Dispatch.Openings.{
  SameWork, call_of, Refused, malformed, unnamed, full, turned_down, Declined, OneMore,
}

module _ {T H P Q : Type 0} (ports : Ports T H P Q) where
  after_write-SameWork :
      (s : Session T H P Q) (r : Option (T × Option GoError)) → SameWork s (after_write ports s r).0
  unfolding after_write end settled
  after_write-SameWork s none = record { gate = refl; work = refl }
  after_write-SameWork s (some (t, none)) = record { gate = refl; work = refl }
  after_write-SameWork s (some (t, some e)) =
      let broken : Session T H P Q = record s { transport = t } in
      let keeps =
        finish_streams_keeps s.streams (stream_cause (some e)) (settled ports (some e) broken) in
      record {
        gate = ap (λ (x : Session T H P Q). x.call_gate) keeps;
        work = ap (λ (x : Session T H P Q). x.serving) keeps;
      }

  write-SameWork : (s : Session T H P Q) (frame : Frame) → SameWork s (send_frame ports s frame)
  unfolding write_frame_or_end
  write-SameWork s frame = after_write-SameWork s _

  send_end-SameWork :
      (s : Session T H P Q) (stream_id code : ℕ) → SameWork s (send_end ports s stream_id code)
  unfolding send_end write_frame_or_end
  send_end-SameWork s stream_id code = after_write-SameWork s _

  prepared_gate :
      (s : Session T H P Q) (stream_id : ℕ) (body : Bytes) (request : CallRequest)
      (answer : H × Result P)
      → unmarshal ports.wire.call_request body ≡ ok request
      → request.method ≢ []
      → s.call_gate < to_ℕ s.limits.max_concurrent_calls
      → ports.prepare_call s.handler s.ctx_err s.remote (call_of request) ≡ answer
      → let after =
          after_prepare_call ports
            (record s { call_gate = s.call_gate + 1 })
            stream_id
            (call_of request)
            answer in
        Declined ports s stream_id body after ⊎ OneMore ports s stream_id body after
  unfolding after_prepare_call release_call track_inflight
  prepared_gate s stream_id body request (h, err e) decoded named room asked =
      let back : s.call_gate + 1 - 1 ≡ s.call_gate = omega arith in
      inl (record {
        handler = h;
        code = status_of (some e);
        reason = turned_down request e decoded named room asked refl;
        told =
            ap
              (λ (n : ℕ).
                send_end ports (record s { handler = h; call_gate = n }) stream_id
                  (status_of (some e)))
              back;
        same =
            let told =
              send_end-SameWork (record s { handler = h; call_gate = s.call_gate + 1 - 1 })
                stream_id _ in
            record { gate = told.gate ∙ back; work = told.work };
      })
  prepared_gate s stream_id body request (h, ok p) decoded named room asked = inr (record {
    request = request;
    handler = h;
    prepared = p;
    decoded = decoded;
    named = named;
    room = room;
    accepted = asked;
    kept = refl;
    gate = refl;
    work = refl;
    tracked = refl;
  })

  declined :
      (s : Session T H P Q) (stream_id : ℕ) (body : Bytes) (code : ℕ)
      → Refused ports s body s.handler code
      → Declined ports s stream_id body (send_end ports s stream_id code)
  declined s stream_id body code reason = record {
    handler = s.handler;
    code = code;
    reason = reason;
    told = refl;
    same = send_end-SameWork s stream_id code;
  }

  request_gate :
      (s : Session T H P Q) (stream_id : ℕ) (body : Bytes) (request : CallRequest)
      → unmarshal ports.wire.call_request body ≡ ok request
      → let after = open_call_request ports s stream_id request in
        Declined ports s stream_id body after ⊎ OneMore ports s stream_id body after
  unfolding open_call_request acquire_call
  request_gate s stream_id body request decoded = elim (Bool-cases (bytes_eq request.method [])) [
    | inl nameless ↦
        rw (nameless, open_call_request)
          (inl (
            declined s stream_id body status_method_not_found
              (unnamed request decoded (bytes_eq→eq request.method [] nameless) refl refl)))
    | inr named ↦ elim (Bool-cases (ltb s.call_gate (to_ℕ s.limits.max_concurrent_calls))) [
      | inl room ↦
          rw (named, room, open_call_request)
            (prepared_gate s stream_id body request _ decoded (named_of request.method named)
              (ltb→lt _ _ room) refl)
      | inr shut ↦
          rw (named, shut, open_call_request)
            (inl (
              declined s stream_id body status_overloaded (
                full request decoded (named_of request.method named) (ltb-false→le _ _ shut) refl
                  refl)))
    ]
  ]

  -- An inbound call is refused or accepted. It is refused for a malformed body, for no method, with
  -- the session's gate full, or by the handler, each with the status that is then sent, at the
  -- handler's state after it; a refused call takes no slot and starts no handler. It is accepted only
  -- with a decoded body, a method and room at the gate, and when the handler agrees; it takes one
  -- slot, and what the handler prepared for that request, and nothing else, is started.
  pub open_call_gate :
      (s : Session T H P Q) (stream_id : ℕ) (body : Bytes)
      → let after = open_call ports s stream_id body in
        Declined ports s stream_id body after ⊎ OneMore ports s stream_id body after
  unfolding open_call
  open_call_gate s stream_id body = decoded_gate (unmarshal ports.wire.call_request body) refl
    where
      after_decoding : Result CallRequest → Session T H P Q
      after_decoding (err e) = send_end ports s stream_id status_invalid_request
      after_decoding (ok request) = open_call_request ports s stream_id request

      decoded_gate :
          (decoded : Result CallRequest)
          → unmarshal ports.wire.call_request body ≡ decoded
          → Declined ports s stream_id body (after_decoding decoded)
            ⊎ OneMore ports s stream_id body (after_decoding decoded)
      decoded_gate (err e) q =
          inl (declined s stream_id body status_invalid_request (malformed e q refl refl))
      decoded_gate (ok request) q = request_gate s stream_id body request q

  reply_call-SameWork :
      (s : Session T H P Q) (stream_id : ℕ) (answer : Result Bytes)
      → SameWork s (reply_call ports s stream_id answer)
  unfolding reply_call
  reply_call-SameWork s stream_id (err e) = send_end-SameWork s stream_id _
  reply_call-SameWork s stream_id (ok payload) =
      elim (marshal ports.wire.call_result (record { payload = payload }))
        as (λ encoded. SameWork s (elim encoded [
          | err e ↦ send_end ports s stream_id status_internal
          | ok body ↦
              send_frame ports s
                (record { frame_type = frame_call_result; stream_id = stream_id; payload = body })
        ])) [
          | err e ↦ send_end-SameWork s stream_id status_internal
          | ok body ↦
              write-SameWork s
                (record { frame_type = frame_call_result; stream_id = stream_id; payload = body })
        ]

  served_gate :
      (s : Session T H P Q) (context : ℕ) (task : Serving P) (answer : H × Result Bytes)
      → let after = after_serve_call ports s context task answer in
        (after.call_gate ≡ s.call_gate - 1)
        × (after.serving ≡ delete context s.serving)
        × (lookup task.stream_id after.inflight ≡ none)
  unfolding after_serve_call end_call release_call release_inflight
  served_gate s context task (h, answer) =
      let replied = reply_call-SameWork (record s { handler = h }) task.stream_id answer in
      (
        ap (λ (n : ℕ). n - 1) replied.gate,
        ap (delete context) replied.work,
        lookup-delete task.stream_id task.stream_id _ ∙ ground arith,
      )

  -- A call that is being served gives its slot back when its handler has returned, whatever that
  -- returned and whether or not the reply could be written: one slot less is taken, the call is no
  -- longer served, and its stream ID no longer cancels anything.
  finish_call_gate :
      (s : Session T H P Q) (context : ℕ) {task : Serving P}
      → lookup context s.serving ≡ some task
      → let after = finish_call ports s context in
        (after.call_gate ≡ s.call_gate - 1)
        × (after.serving ≡ delete context s.serving)
        × (lookup task.stream_id after.inflight ≡ none)
  unfolding finish_call
  finish_call_gate s context {task} found =
      rw (found, finish_call)
        (served_gate s context task (ports.serve_call s.handler task.prepared task.request))
