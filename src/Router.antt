-- ===== src/Router.antt =====
-- application/peer/router.go. What the consumer supplies is a parameter: the handlers, as functions
-- of the call or the stream into what they come to, a panic included, and the authorizer. A call of
-- a router's method is one step on the router's state: the slots that are taken.
pub mod Budget
pub mod Calls
pub mod Open
pub mod Serving
pub mod Streams
mod Tests
use pluginprotocol.Errors.{
  GoError, sentinel, wrap, method_not_found, invalid_registration, overloaded, message_too_large,
  internal, Result, ok, err,
}
use pluginprotocol.Limits.{Limits, default_limits, with_defaults}
use pluginprotocol.Prelude.{
  ℕ, suc, zero, ◌+◌, ◌-◌, Bool, true, false, ◌≡◌, Option, none, some, [], ◌∷◌, if◌then◌else◌, ltb,
  Bytes, bytes_eq, codes, ℤ, to_ℕ, exceeds, length,
}
use pluginprotocol.Registry.{Registry, lookup_call, lookup_stream}

-- domain/peer: PeerIdentity is its URI.
pub record Call : Type 0 where
  pub method : Bytes
  pub payload : Bytes
  pub from : Bytes

-- What a function of the consumer comes to: its value, its error, or a panic.
pub data Outcome (A : Type 0) : Type 0 where
  returns : A → Outcome A
  fails : GoError → Outcome A
  panics : Outcome A

-- A CallHandler gives the payload of its result; a StreamHandler gives no value. `X` is the stream.
abbrev pub CallHandler : Type 0
CallHandler = Call → Outcome Bytes

abbrev pub StreamHandler : Type 0 → Type 0
StreamHandler X = X → Outcome (Unit {0})

pub record Authorizer : Type 0 where
  pub authorize_call : Bytes → Bytes → Outcome (Unit {0})
  pub authorize_stream : Bytes → Bytes → Outcome (Unit {0})

abbrev pub allow_all : Authorizer
allow_all = record {
  authorize_call = λ from method. returns tt;
  authorize_stream = λ from method. returns tt;
}

-- A channel of slots: what it holds and what it has room for.
pub record Slots : Type 0 where
  pub used : ℕ
  pub capacity : ℕ

-- `none` if the channel is full.
unfoldable pub acquire : Slots → Option Slots
acquire s = if ltb s.used s.capacity then some (record s { used = s.used + 1 }) else none

unfoldable pub release : Slots → Slots
release s = record s { used = s.used - 1 }

pub record Router (X : Type 0) : Type 0 where
  pub registry : Option (Registry CallHandler (StreamHandler X))
  pub limits : Limits
  pub authorizer : Authorizer
  pub call_slots : Slots
  pub stream_slots : Slots

-- What PrepareCall answers in place of an error: the function that serves the call, which is the
-- registered handler and the caller that it closes over.
pub record Prepared : Type 0 where
  pub handler : CallHandler
  pub caller : Bytes

-- What invokeSafely makes of what a handler came to: a panic becomes an error, and nothing of it is
-- told.
unfoldable pub recovered : Outcome Bytes → Result Bytes
recovered (returns payload) = ok payload
recovered (fails e) = err e
recovered panics = err (wrap (codes "handler panic") (sentinel internal))

unfoldable pub invoke_safely : CallHandler → Call → Result Bytes
unfolding recovered
invoke_safely handler call = recovered (handler call)

-- The bound on a result.
unfoldable pub within_limit : ℤ → Result Bytes → Result Bytes
within_limit bound (err e) = err e
within_limit bound (ok payload) =
    if exceeds (length payload) bound then err (sentinel message_too_large) else ok payload

unfoldable pub serve_stream_safely : {X : Type 0} → StreamHandler X → X → Option GoError
serve_stream_safely handler stream = elim (handler stream) [
  | returns _ ↦ none
  | fails e ↦ some e
  | panics ↦ some (wrap (codes "handler panic") (sentinel internal))
]

-- An authorizer's answer as PrepareCall and PrepareStream take it, a panic recovered.
unfoldable pub refusal : Outcome (Unit {0}) → Option GoError
refusal (returns _) = none
refusal (fails e) = some e
refusal panics = some (wrap (codes "authorization panic") (sentinel internal))

abbrev is_nil : {A : Type 0} → Option A → Bool
is_nil none = true
is_nil (some a) = false

module _ {X : Type 0} where
  unfoldable pub new_router :
      Option (Registry CallHandler (StreamHandler X)) → Limits → Option Authorizer → Router X
  unfolding with_defaults
  new_router registry limits authorizer =
      let resolved = with_defaults limits in
      record {
        registry = registry;
        limits = resolved;
        authorizer = elim authorizer [ none ↦ allow_all | some a ↦ a ];
        call_slots = record { used = 0; capacity = to_ℕ resolved.max_concurrent_calls };
        stream_slots = record { used = 0; capacity = to_ℕ resolved.max_concurrent_streams };
      }

  -- From the budget on: the slot is taken last.
  unfoldable pub admit_call : Router X → Bytes → CallHandler → Router X × Result Prepared
  unfolding acquire
  admit_call r from handler = elim (acquire r.call_slots) [
    | none ↦ (r, err (sentinel overloaded))
    | some slots ↦
        (record r { call_slots = slots }, ok (record { handler = handler; caller = from }))
  ]

  -- From the lookup on. `ctx_err` is what `ctx.Err()` gives.
  unfoldable pub authorize_call :
      Router X → Option GoError → Bytes → Bytes → Option CallHandler → Router X × Result Prepared
  unfolding refusal
  authorize_call r ctx_err from method none = (r, err (sentinel method_not_found))
  authorize_call r (some e) from method (some handler) = (r, err e)
  authorize_call r none from method (some handler) =
      elim (refusal (r.authorizer.authorize_call from method)) [
        | some e ↦ (r, err e)
        | none ↦ admit_call r from handler
      ]

  unfoldable pub prepare_call :
      Router X → Option GoError → Bytes → Call → Router X × Result Prepared
  prepare_call r ctx_err from call =
      if is_nil r.registry
      then (r, err (sentinel invalid_registration))
      else if bytes_eq call.method []
      then (r, err (sentinel method_not_found))
      else if exceeds (length call.payload) r.limits.max_message_bytes
      then (r, err (sentinel message_too_large))
      else authorize_call r ctx_err from call.method (lookup_call r.registry call.method)

  -- The function that PrepareCall returns, at the router as it is when it runs.
  unfoldable pub serve_call : Router X → Prepared → Call → Router X × Result Bytes
  unfolding release invoke_safely within_limit
  serve_call r p call = (
    record r { call_slots = release r.call_slots },
    within_limit r.limits.max_message_bytes
        (invoke_safely p.handler (record call { from = p.caller })),
  )

  unfoldable pub invoke_prepared : Call → Router X × Result Prepared → Router X × Result Bytes
  unfolding serve_call
  invoke_prepared call (r, err e) = (r, err e)
  invoke_prepared call (r, ok p) = serve_call r p call

  unfoldable pub invoke : Router X → Option GoError → Bytes → Call → Router X × Result Bytes
  unfolding invoke_prepared
  invoke r ctx_err from call = invoke_prepared call (prepare_call r ctx_err from call)

-- peer.Stream, as PrepareStream reads it.
module _ {X : Type 0} (method_of peer_of : X → Bytes) where
  unfoldable pub admit_stream : Router X → StreamHandler X → Router X × Result (StreamHandler X)
  unfolding acquire
  admit_stream r handler = elim (acquire r.stream_slots) [
    | none ↦ (r, err (sentinel overloaded))
    | some slots ↦ (record r { stream_slots = slots }, ok handler)
  ]

  unfoldable pub authorize_stream :
      Router X → X → Option (StreamHandler X) → Router X × Result (StreamHandler X)
  unfolding admit_stream refusal
  authorize_stream r stream none = (r, err (sentinel method_not_found))
  authorize_stream r stream (some handler) =
      elim (refusal (r.authorizer.authorize_stream (peer_of stream) (method_of stream))) [
        | some e ↦ (r, err e)
        | none ↦ admit_stream r handler
      ]

  -- A nil stream is `none`.
  unfoldable pub prepare_stream : Router X → Option X → Router X × Result (StreamHandler X)
  prepare_stream r none =
      if is_nil r.registry
      then (r, err (sentinel invalid_registration))
      else (r, err (sentinel method_not_found))
  prepare_stream r (some stream) =
      if is_nil r.registry
      then (r, err (sentinel invalid_registration))
      else if bytes_eq (method_of stream) []
      then (r, err (sentinel method_not_found))
      else authorize_stream r stream (lookup_stream r.registry (method_of stream))

  unfoldable pub serve_stream_prepared :
      X → Router X × Result (StreamHandler X) → Router X × Option GoError
  unfolding release serve_stream_safely
  serve_stream_prepared stream (r, err e) = (r, some e)
  serve_stream_prepared stream (r, ok handler) =
      (record r { stream_slots = release r.stream_slots }, serve_stream_safely handler stream)

  unfoldable pub serve_stream : Router X → X → Router X × Option GoError
  unfolding serve_stream_prepared
  serve_stream r stream = serve_stream_prepared stream (prepare_stream r (some stream))
