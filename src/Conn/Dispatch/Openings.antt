-- ===== src/Conn/Dispatch/Openings.antt =====
-- infrastructure/peer/conn/dispatch.go: what can become of an inbound call at openCall.
use pluginprotocol.Codec.Body.{unmarshal}
use pluginprotocol.Conn.Dispatch.Inbound.{send_end}
use pluginprotocol.Conn.Messages.{CallRequest}
use pluginprotocol.Conn.Session.{Session, Ports}
use pluginprotocol.Errors.{GoError, ok, err}
use pluginprotocol.Prelude.{ℕ, ◌+◌, ◌<◌, ◌≡◌, some, [], ◌∷◌, Bytes, ◌≤◌, ◌≢◌, to_ℕ}
use pluginprotocol.Prelude.Store.{insert}
use pluginprotocol.Router.{Call}
use pluginprotocol.Status.{
  status_of, status_invalid_request, status_method_not_found, status_overloaded,
}

module _ {T H P Q : Type 0} where
  -- The slots that are taken and the calls that are being served are those of another session.
  pub record SameWork (s s' : Session T H P Q) : Type 0 where
    pub gate : s'.call_gate ≡ s.call_gate
    pub work : s'.serving ≡ s.serving

abbrev pub call_of : CallRequest → Call
call_of request = record { method = request.method; payload = request.payload; from = [] }

-- Why an inbound call is refused: the handler's state after it, `h`, and the status that is sent.
pub data Refused {T H P Q : Type 0} (ports : Ports T H P Q) (s : Session T H P Q) (body : Bytes)
    (h : H) (code : ℕ) : Type 0 where
  malformed :
      (e : GoError)
      → unmarshal ports.wire.call_request body ≡ err e
      → h ≡ s.handler
      → code ≡ status_invalid_request
      → Refused ports s body h code
  unnamed :
      (request : CallRequest)
      → unmarshal ports.wire.call_request body ≡ ok request
      → request.method ≡ []
      → h ≡ s.handler
      → code ≡ status_method_not_found
      → Refused ports s body h code
  full :
      (request : CallRequest)
      → unmarshal ports.wire.call_request body ≡ ok request
      → request.method ≢ []
      → to_ℕ s.limits.max_concurrent_calls ≤ s.call_gate
      → h ≡ s.handler
      → code ≡ status_overloaded
      → Refused ports s body h code
  turned_down :
      (request : CallRequest) (e : GoError)
      → unmarshal ports.wire.call_request body ≡ ok request
      → request.method ≢ []
      → s.call_gate < to_ℕ s.limits.max_concurrent_calls
      → ports.prepare_call s.handler s.ctx_err s.remote (call_of request) ≡ (h, err e)
      → code ≡ status_of (some e)
      → Refused ports s body h code

-- A refused call: it is told why, and takes nothing.
pub record Declined {T H P Q : Type 0} (ports : Ports T H P Q) (s : Session T H P Q) (stream_id : ℕ)
    (body : Bytes) (after : Session T H P Q) : Type 0 where
  pub handler : H
  pub code : ℕ
  pub reason : Refused ports s body handler code
  pub told : after ≡ send_end ports (record s { handler = handler }) stream_id code
  pub same : SameWork s after

-- An accepted call: there was room for it, it takes one slot, and what the handler prepared for the
-- request that was decoded is being served and can be cancelled.
pub record OneMore {T H P Q : Type 0} (ports : Ports T H P Q) (s : Session T H P Q) (stream_id : ℕ)
    (body : Bytes) (after : Session T H P Q) : Type 0 where
  pub request : CallRequest
  pub handler : H
  pub prepared : P
  pub decoded : unmarshal ports.wire.call_request body ≡ ok request
  pub named : request.method ≢ []
  pub room : s.call_gate < to_ℕ s.limits.max_concurrent_calls
  pub accepted :
      ports.prepare_call s.handler s.ctx_err s.remote (call_of request) ≡ (handler, ok prepared)
  pub kept : after.handler ≡ handler
  pub gate : after.call_gate ≡ s.call_gate + 1
  pub work :
      after.serving
      ≡ (
        s.next_ref,
        record { stream_id = stream_id; prepared = prepared; request = call_of request },
      )
        ∷ s.serving
  pub tracked : after.inflight ≡ insert stream_id s.next_ref s.inflight
