-- ===== src/Router/Tests.antt =====
-- Runs of application/peer/router.go at a concrete router.
use pluginprotocol.Errors.{ok, err, sentinel, overloaded}
use pluginprotocol.Limits.{default_limits, with_defaults}
use pluginprotocol.Prelude.{
  ◌<◌, ◌⊎◌, ◌≤◌, ◌≡◌, refl, false, Option, none, some, [], ◌∷◌, ◌++◌, Bytes, bytes_eq, codes, to_ℕ,
  exceeds, length, arith,
}
use pluginprotocol.Prelude.Table.{lookup}
use pluginprotocol.Registry.{Registry, lookup_call, lookup_stream}
use pluginprotocol.Router.{
  Call, returns, panics, CallHandler, StreamHandler, Router, Prepared, new_router, prepare_call,
  authorize_call, admit_call, invoke, prepare_stream, authorize_stream,
}
use pluginprotocol.Router.Budget.{
  World, Reach, here, next, call_begins, IsBounded, Reach-new_router,
}
use pluginprotocol.Router.Calls.{
  IsAdmitted, taken, prepare_call_ok, prepare_call_admits, invoke-router,
}
use pluginprotocol.Router.Open.{Reach-prepare_call}
use pluginprotocol.Router.Serving.{invoke_ok}
use pluginprotocol.Router.Streams.{taken_stream}

-- A call is answered with who calls and what was sent; a stream is its method.
abbrev echo : CallHandler
echo call = returns (call.from ++ call.payload)

abbrev watch : StreamHandler Bytes
watch stream = panics

abbrev handlers : Option (Registry CallHandler (StreamHandler Bytes))
handlers =
    some (record { calls = (codes "echo", echo) ∷ []; streams = (codes "watch", watch) ∷ [] })

abbrev method_of : Bytes → Bytes
method_of stream = stream

abbrev peer_of : Bytes → Bytes
peer_of stream = codes "spiffe://a"

unfoldable router : Router Bytes
unfolding new_router
router = new_router handlers default_limits none

abbrev request : Call
request = record { method = codes "echo"; payload = 1 ∷ 2 ∷ []; from = codes "spiffe://b" }

abbrev prepared : Prepared
prepared = record { handler = echo; caller = codes "spiffe://a" }

request-IsAdmitted : IsAdmitted router none (codes "spiffe://a") request prepared
unfolding router new_router lookup_call lookup bytes_eq
request-IsAdmitted = record {
  registered = refl;
  named = λ q. ground arith;
  fits = refl;
  alive = refl;
  allowed = refl;
  room = omega arith;
  authenticated = refl;
}

request_admitted :
    prepare_call router none (codes "spiffe://a") request ≡ (taken router, ok prepared)
request_admitted =
    prepare_call_admits router none (codes "spiffe://a") request prepared request-IsAdmitted

prepare_call_ok_example :
    IsAdmitted router none (codes "spiffe://a") request prepared × (taken router ≡ taken router)
prepare_call_ok_example =
    prepare_call_ok router none (codes "spiffe://a") request {r' = taken router} {p = prepared}
      (prepare_call_admits router none (codes "spiffe://a") request prepared request-IsAdmitted)

invoke-router_example : (invoke router none (codes "spiffe://a") request).0 ≡ router
invoke-router_example = invoke-router router none (codes "spiffe://a") request

answered :
    invoke router none (codes "spiffe://a") request
    ≡ (router, ok (codes "spiffe://a" ++ 1 ∷ 2 ∷ []))
unfolding router new_router invoke prepare_call lookup_call lookup bytes_eq authorize_call
    admit_call
answered = refl

invoke_ok_example :
    (p : Prepared) × IsAdmitted router none (codes "spiffe://a") request p
    × (p.handler (record request { from = codes "spiffe://a" })
        ≡ returns (codes "spiffe://a" ++ 1 ∷ 2 ∷ []))
    × (exceeds (length (codes "spiffe://a" ++ 1 ∷ 2 ∷ [])) router.limits.max_message_bytes ≡ false)
invoke_ok_example =
    invoke_ok router none (codes "spiffe://a") request {r' = router}
      {payload = codes "spiffe://a" ++ 1 ∷ 2 ∷ []} answered

opened :
    prepare_stream method_of peer_of router (some (codes "watch")) ≡ (taken_stream router, ok watch)
unfolding router new_router prepare_stream lookup_stream lookup bytes_eq authorize_stream
opened = refl

abbrev idle : World Bytes
idle = record { router = new_router handlers default_limits none; calls = []; streams = [] }

abbrev serving_one : World Bytes
serving_one = record {
  router = taken (new_router handlers default_limits none);
  calls = prepared ∷ [];
  streams = [];
}

one_call : Reach method_of peer_of idle serving_one
unfolding router
one_call =
    next here
      (call_begins none (codes "spiffe://a") request (taken router) prepared request_admitted refl)

Reach-new_router_example :
    IsBounded (new_router handlers default_limits none) serving_one
    × (length serving_one.calls ≤ to_ℕ (with_defaults default_limits).max_concurrent_calls)
    × (length serving_one.streams ≤ to_ℕ (with_defaults default_limits).max_concurrent_streams)
Reach-new_router_example =
    Reach-new_router method_of peer_of handlers default_limits none {w = serving_one} one_call

Reach-prepare_call_example :
    ((length serving_one.calls < to_ℕ (with_defaults default_limits).max_concurrent_calls)
      × (prepare_call serving_one.router none (codes "spiffe://b") request ≡ (
        taken serving_one.router,
        ok (record { handler = echo; caller = codes "spiffe://b" }),
      )))
    ⊎ ((length serving_one.calls ≡ to_ℕ (with_defaults default_limits).max_concurrent_calls)
        × (prepare_call serving_one.router none (codes "spiffe://b") request
            ≡ (serving_one.router, err (sentinel overloaded))))
unfolding lookup_call lookup bytes_eq with_defaults
Reach-prepare_call_example =
    Reach-prepare_call method_of peer_of handlers default_limits none {w = serving_one}
      (codes "spiffe://b") request echo one_call (λ q. ground arith) refl (omega arith) tt
