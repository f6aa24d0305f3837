-- ===== src/Status/Mapping.antt =====
-- domain/peer/status.go: the two directions of the mapping between errors and codes.
use pluginprotocol.Errors.{
  Sentinel, method_not_found, overloaded, message_too_large, send_queue_full, unauthorized,
  invalid_request, protocol_violation, internal, unavailable, connection_closed, deadline_exceeded,
  canceled, GoError, sentinel, is,
}
use pluginprotocol.Prelude.{
  ℕ, ◌<◌, ◌≤◌, ◌≡◌, ◌⊎◌, ◌||◌, true, false, some, arith, leb, if◌then◌else◌,
}
use pluginprotocol.Status.{
  err, code_of, status_of, status_protocol_violation, status_connection_closed,
}

-- Every code of the taxonomy survives the way to an error and back; any other byte that a peer
-- may put on the wire comes back as the code of a protocol violation.
status_of-err :
    (code : ℕ)
    → status_of (err code)
      ≡ (if leb code status_connection_closed then code else status_protocol_violation)
unfolding status_of err is
status_of-err code = ground arith

-- The code of any error is one of the taxonomy, and never the code of success.
pub code_of_range : (e : GoError) → (0 < code_of e) × (code_of e ≤ status_connection_closed)
unfolding code_of
code_of_range e = ground arith

-- An error that is none of the taxonomy's.
pub record IsOutside (e : GoError) : Type 0 where
  pub not_method_not_found : is e method_not_found ≡ false
  pub not_unauthorized : is e unauthorized ≡ false
  pub not_overloaded : is e overloaded ≡ false
  pub not_send_queue_full : is e send_queue_full ≡ false
  pub not_message_too_large : is e message_too_large ≡ false
  pub not_invalid_request : is e invalid_request ≡ false
  pub not_protocol_violation : is e protocol_violation ≡ false
  pub not_unavailable : is e unavailable ≡ false
  pub not_connection_closed : is e connection_closed ≡ false
  pub not_deadline_exceeded : is e deadline_exceeded ≡ false
  pub not_canceled : is e canceled ≡ false

abbrev pub Surfaces : GoError → Sentinel → Type 0
Surfaces e s =
    (is e s ≡ true)
    ⊎ ((s ≡ overloaded) × (is e send_queue_full ≡ true))
    ⊎ ((s ≡ internal) × IsOutside e)

-- The sentinel of a code that is no success.
abbrev pub sentinel_of : GoError → Sentinel
sentinel_of e =
    if is e method_not_found
    then method_not_found
    else if is e unauthorized
    then unauthorized
    else if is e overloaded || is e send_queue_full
    then overloaded
    else if is e message_too_large
    then message_too_large
    else if is e invalid_request
    then invalid_request
    else if is e protocol_violation
    then protocol_violation
    else if is e unavailable
    then unavailable
    else if is e connection_closed
    then connection_closed
    else if is e deadline_exceeded
    then deadline_exceeded
    else if is e canceled
    then canceled
    else internal

-- What a caller sees of an error that crossed the wire is a sentinel that the error itself is, but
-- for a full send queue, which is reported as overload, and an error outside the taxonomy, which
-- is reported as internal.
pub err-code_of :
    (e : GoError) → (s : Sentinel) × (err (code_of e) ≡ some (sentinel s)) × Surfaces e s
unfolding code_of err
err-code_of e = (sentinel_of e, ground arith, ground arith)
