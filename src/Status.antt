-- ===== src/Status.antt =====
-- domain/peer/status.go: the failure taxonomy that goes on the wire. A StatusCode is a uint8, here a
-- number.
pub mod Mapping
mod Tests
use pluginprotocol.Errors.{
  Sentinel, method_not_found, overloaded, message_too_large, send_queue_full, unauthorized,
  invalid_request, protocol_violation, internal, unavailable, connection_closed, deadline_exceeded,
  canceled, GoError, sentinel, is,
}
use pluginprotocol.Prelude.{ℕ, ◌||◌, Option, none, some, ◌==◌, if◌then◌else◌, Bytes, codes}

abbrev pub status_ok : ℕ
status_ok = 0

abbrev pub status_method_not_found : ℕ
status_method_not_found = 1

abbrev pub status_unauthorized : ℕ
status_unauthorized = 2

abbrev pub status_overloaded : ℕ
status_overloaded = 3

abbrev pub status_message_too_large : ℕ
status_message_too_large = 4

abbrev pub status_invalid_request : ℕ
status_invalid_request = 5

abbrev pub status_protocol_violation : ℕ
status_protocol_violation = 6

abbrev pub status_internal : ℕ
status_internal = 7

abbrev pub status_unavailable : ℕ
status_unavailable = 8

abbrev pub status_deadline_exceeded : ℕ
status_deadline_exceeded = 9

abbrev pub status_canceled : ℕ
status_canceled = 10

abbrev pub status_connection_closed : ℕ
status_connection_closed = 11

-- The fixed label of a code.
unfoldable pub string : ℕ → Bytes
string code =
    if code == status_ok
    then codes "ok"
    else if code == status_method_not_found
    then codes "method-not-found"
    else if code == status_unauthorized
    then codes "unauthorized"
    else if code == status_overloaded
    then codes "overloaded"
    else if code == status_message_too_large
    then codes "message-too-large"
    else if code == status_invalid_request
    then codes "invalid-request"
    else if code == status_protocol_violation
    then codes "protocol-violation"
    else if code == status_internal
    then codes "internal"
    else if code == status_unavailable
    then codes "unavailable"
    else if code == status_deadline_exceeded
    then codes "deadline-exceeded"
    else if code == status_canceled
    then codes "canceled"
    else if code == status_connection_closed
    then codes "connection-closed"
    else codes "unknown"

-- The generic error of a code, `nil` for StatusOK.
unfoldable pub err : ℕ → Option GoError
err code =
    if code == status_ok
    then none
    else if code == status_method_not_found
    then some (sentinel method_not_found)
    else if code == status_unauthorized
    then some (sentinel unauthorized)
    else if code == status_overloaded
    then some (sentinel overloaded)
    else if code == status_message_too_large
    then some (sentinel message_too_large)
    else if code == status_invalid_request
    then some (sentinel invalid_request)
    else if code == status_protocol_violation
    then some (sentinel protocol_violation)
    else if code == status_internal
    then some (sentinel internal)
    else if code == status_unavailable
    then some (sentinel unavailable)
    else if code == status_deadline_exceeded
    then some (sentinel deadline_exceeded)
    else if code == status_canceled
    then some (sentinel canceled)
    else if code == status_connection_closed
    then some (sentinel connection_closed)
    else some (sentinel protocol_violation)

-- The cases of the switch below its nil case, in order.
unfoldable pub code_of : GoError → ℕ
unfolding is
code_of e =
    if is e method_not_found
    then status_method_not_found
    else if is e unauthorized
    then status_unauthorized
    else if is e overloaded || is e send_queue_full
    then status_overloaded
    else if is e message_too_large
    then status_message_too_large
    else if is e invalid_request
    then status_invalid_request
    else if is e protocol_violation
    then status_protocol_violation
    else if is e unavailable
    then status_unavailable
    else if is e connection_closed
    then status_connection_closed
    else if is e deadline_exceeded
    then status_deadline_exceeded
    else if is e canceled
    then status_canceled
    else status_internal

unfoldable pub status_of : Option GoError → ℕ
unfolding code_of
status_of none = status_ok
status_of (some e) = code_of e
