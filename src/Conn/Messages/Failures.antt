-- ===== src/Conn/Messages/Failures.antt =====
-- infrastructure/peer/conn/dispatch.go: endFrame and decodeFailure.
use pluginprotocol.Codec.Body.{Proto, marshal, unmarshal}
use pluginprotocol.Conn.Messages.{
  body_or_empty, failure_message, Wire, end_frame, decode_failure, failure_of_status,
  failure_of_result,
}
use pluginprotocol.Errors.{Sentinel, GoError, sentinel, Result, ok}
use pluginprotocol.Prelude.{ℕ, ◌≤◌, ◌≡◌, ap, ◌∙◌, some, [], Bytes, ltb-false, arith}
use pluginprotocol.Status
use pluginprotocol.Status.{code_of, status_of, string}
use pluginprotocol.Status.Mapping.{err-code_of, code_of_range, Surfaces}

-- The runtime decodes this message from what it encodes it to, and finds no unknown field in it.
abbrev pub RoundTrips : {M : Type 0} → Proto M → M → Type 0
RoundTrips p m = (body : Bytes) × (p.encode m ≡ some body) × (p.decode body ≡ some (m, []))

-- What Marshal encodes, Unmarshal decodes.
pub unmarshal-marshal :
    {M : Type 0} (p : Proto M) (m : M)
    → RoundTrips p m
    → (body : Bytes) × (marshal p m ≡ ok body) × (unmarshal p body ≡ ok m)
unfolding marshal unmarshal
unmarshal-marshal p m (body, e, d) = (body, rw (e, marshal), rw (d, unmarshal))

-- Both peers observe the same failure: of the terminal frame that one peer builds for a code of the
-- taxonomy, the other reads the error of that code.
decode_failure-end_frame :
    (wire : Wire) (stream_id code : ℕ)
    → RoundTrips wire.failure (failure_message code)
    → code ≤ 255
    → decode_failure wire (end_frame wire stream_id code).payload ≡ ok (Status.err code)
unfolding decode_failure end_frame
decode_failure-end_frame wire stream_id code h small =
    let (body, e, d) = unmarshal-marshal wire.failure (failure_message code) h in
    let decoded : failure_of_status (failure_message code).status ≡ ok (Status.err code) =
      unfold failure_of_status in rw (ltb-false 255 code small) in
    ap (λ (r : Result Bytes). decode_failure wire (body_or_empty r)) e
    ∙ ap failure_of_result d
    ∙ decoded

-- An error of a handler reaches the caller as a sentinel that it is, as overload if it is a full
-- send queue, or as an internal failure if it is outside the taxonomy, and never as a success.
pub decode_failure-status_of :
    (wire : Wire)
    → (stream_id : ℕ) (e : GoError) → RoundTrips wire.failure (failure_message (status_of (some e)))
    → (s : Sentinel) × (decode_failure wire (end_frame wire stream_id (status_of (some e))).payload
        ≡ ok (some (sentinel s)))
      × Surfaces e s
decode_failure-status_of wire stream_id e h =
    let (s, seen, which) = err-code_of e in
    (
      s,
      unfold status_of in
          (decode_failure-end_frame wire stream_id (code_of e) h (omega (arith, code_of_range e))
            ∙ ap ok seen),
      which,
    )
