-- ===== src/Errors.antt =====
-- domain/peer/peer.go: the error values. A Go `error` is an `Option GoError`, nil being `none`.
pub mod Guards
use pluginprotocol.Prelude.{ℕ, Bool, false, ◌||◌, ◌==◌, Bytes}

-- The distinct values of `errors.New` that the library compares with `errors.Is`: those of the
-- domain package, the two of package context and the three of package io.
pub data Sentinel : Type 0 where
  method_not_found duplicate_method invalid_registration overloaded message_too_large : Sentinel
  send_queue_full stream_closed unauthorized invalid_request protocol_violation : Sentinel
  internal unavailable connection_closed deadline_exceeded canceled : Sentinel
  eof unexpected_eof short_write : Sentinel

-- Each sentinel is a pointer of its own.
unfoldable pub address : Sentinel → ℕ
address method_not_found = 0
address duplicate_method = 1
address invalid_registration = 2
address overloaded = 3
address message_too_large = 4
address send_queue_full = 5
address stream_closed = 6
address unauthorized = 7
address invalid_request = 8
address protocol_violation = 9
address internal = 10
address unavailable = 11
address connection_closed = 12
address deadline_exceeded = 13
address canceled = 14
address eof = 15
address unexpected_eof = 16
address short_write = 17

-- `foreign` is any other error value, `wrap` is `fmt.Errorf("text: %w", err)` and `join` is
-- `errors.Join(a, b)`.
pub data GoError : Type 0 where
  sentinel : Sentinel → GoError
  foreign : Bytes → GoError
  wrap : Bytes → GoError → GoError
  join : GoError → GoError → GoError

-- `errors.Is(err, target)` for a sentinel target.
unfoldable pub is : GoError → Sentinel → Bool
unfolding address
is (sentinel s) t = address s == address t
is (foreign text) t = false
is (wrap text e) t = is e t
is (join a b) t = is a t || is b t

-- A value or a non-nil error: the `(T, error)` of a function that gives no value with an error.
pub data Result {ℓ} (A : Type ℓ) : Type ℓ where
  ok : A → Result A
  err : GoError → Result A
