-- ===== src/Router/Budget.antt =====
-- application/peer/router.go: many callers of one router. Each of the router's steps is atomic (a
-- channel operation), and the served invocations end in any order.
use pluginprotocol.Errors.{GoError, ok, err}
use pluginprotocol.Limits.{Limits, with_defaults}
use pluginprotocol.Prelude.{
  sym, subst, ◌≤◌, ◌≡◌, refl, ap, Option, some, List, [], ◌∷◌, ◌++◌, Bytes, length, length-append,
  to_ℕ, arith,
}
use pluginprotocol.Registry.{Registry}
use pluginprotocol.Router.{
  Router, Authorizer, CallHandler, StreamHandler, Call, Prepared, new_router, prepare_call,
  serve_call, prepare_stream, serve_stream_prepared,
}
use pluginprotocol.Router.Calls.{prepare_call_ok, prepare_call_err}
use pluginprotocol.Router.Streams.{prepare_stream_ok, prepare_stream_err}

-- The router and the invocations that are being served.
pub record World (X : Type 0) : Type 0 where
  pub router : Router X
  pub calls : List Prepared
  pub streams : List (StreamHandler X)

module _ {X : Type 0} (method_of peer_of : X → Bytes) where
  pub data Step (w : World X) (w' : World X) : Type 0 where
    call_begins :
        (ctx_err : Option GoError) (from : Bytes) (call : Call) (r : Router X) (p : Prepared)
        → prepare_call w.router ctx_err from call ≡ (r, ok p)
        → w' ≡ record w { router = r; calls = p ∷ w.calls }
        → Step w w'
    call_refused :
        (ctx_err : Option GoError) (from : Bytes) (call : Call) (r : Router X) (e : GoError)
        → prepare_call w.router ctx_err from call ≡ (r, err e)
        → w' ≡ record w { router = r }
        → Step w w'
    call_ends :
        (call : Call) (front : List Prepared) (p : Prepared) (back : List Prepared)
        → w.calls ≡ front ++ p ∷ back
        → w' ≡ record w { router = (serve_call w.router p call).0; calls = front ++ back }
        → Step w w'
    stream_begins :
        (stream : X) (r : Router X) (h : StreamHandler X)
        → prepare_stream method_of peer_of w.router (some stream) ≡ (r, ok h)
        → w' ≡ record w { router = r; streams = h ∷ w.streams }
        → Step w w'
    stream_refused :
        (stream : Option X) (r : Router X) (e : GoError)
        → prepare_stream method_of peer_of w.router stream ≡ (r, err e)
        → w' ≡ record w { router = r }
        → Step w w'
    stream_ends :
        (stream : X) (front : List (StreamHandler X)) (h : StreamHandler X)
        (back : List (StreamHandler X))
        → w.streams ≡ front ++ h ∷ back
        → w' ≡ record w {
          router = (serve_stream_prepared method_of peer_of stream (w.router, ok h)).0;
          streams = front ++ back;
        }
        → Step w w'

  pub data Reach (s : World X) : World X → Type 0 where
    here : Reach s s
    next : {w w' : World X} → Reach s w → Step w w' → Reach s w'

-- As many slots are taken as invocations are being served, and no more than there are; the limits
-- and the policy are those that the router was built with.
pub record IsBounded {X : Type 0} (built : Router X) (w : World X) : Type 0 where
  pub calls_counted : w.router.call_slots.used ≡ length w.calls
  pub calls_bounded : length w.calls ≤ w.router.call_slots.capacity
  pub streams_counted : w.router.stream_slots.used ≡ length w.streams
  pub streams_bounded : length w.streams ≤ w.router.stream_slots.capacity
  pub same_calls : w.router.call_slots.capacity ≡ built.call_slots.capacity
  pub same_streams : w.router.stream_slots.capacity ≡ built.stream_slots.capacity
  pub same_policy : w.router.authorizer ≡ built.authorizer
  pub same_registry : w.router.registry ≡ built.registry
  pub same_limits : w.router.limits ≡ built.limits

module _ {X : Type 0} (method_of peer_of : X → Bytes) where
  pub Step-IsBounded :
      {built : Router X} {w w' : World X}
      → Step method_of peer_of w w'
      → IsBounded built w
      → IsBounded built w'
  Step-IsBounded {built} {w} {w'} (call_begins ctx_err from call r p e q) b =
      let (admitted, after) = prepare_call_ok w.router ctx_err from call e in
      let room = admitted.room in subst (IsBounded built) (sym q) (ground arith)
  Step-IsBounded {built} {w} {w'} (call_refused ctx_err from call r x e q) b =
      let after = prepare_call_err w.router ctx_err from call e in
      subst (IsBounded built) (sym q) (ground arith)
  Step-IsBounded {built} {w} {w'} (call_ends call front p back e q) b =
      let counted = ap length e in
      let split = length-append front (p ∷ back) in
      let joined = length-append front back in
      subst (IsBounded built) (sym q) (unfold serve_call in ground arith)
  Step-IsBounded {built} {w} {w'} (stream_begins stream r h e q) b =
      let (opened, after) = prepare_stream_ok method_of peer_of w.router stream e in
      let room = opened.room in subst (IsBounded built) (sym q) (ground arith)
  Step-IsBounded {built} {w} {w'} (stream_refused stream r x e q) b =
      let after = prepare_stream_err method_of peer_of w.router stream e in
      subst (IsBounded built) (sym q) (ground arith)
  Step-IsBounded {built} {w} {w'} (stream_ends stream front h back e q) b =
      let counted = ap length e in
      let split = length-append front (h ∷ back) in
      let joined = length-append front back in
      subst (IsBounded built) (sym q) (unfold serve_stream_prepared in ground arith)

  Reach-IsBounded :
      {built : Router X} {s w : World X}
      → IsBounded built s
      → Reach method_of peer_of s w
      → IsBounded built w
  Reach-IsBounded b here = b
  Reach-IsBounded b (next walk step) = Step-IsBounded step (Reach-IsBounded b walk)

  new_router-IsBounded :
      (registry : Option (Registry CallHandler (StreamHandler X))) (limits : Limits)
      (authorizer : Option Authorizer)
      → let built = new_router registry limits authorizer in
        IsBounded built (record { router = built; calls = []; streams = [] })
        × (built.call_slots.capacity ≡ to_ℕ (with_defaults limits).max_concurrent_calls)
        × (built.stream_slots.capacity ≡ to_ℕ (with_defaults limits).max_concurrent_streams)
  unfolding new_router
  new_router-IsBounded registry limits authorizer = (ground arith, refl, refl)

  -- However the callers of a new router interleave, it never serves more calls or more streams at
  -- once than its limits allow, its slots are those of the invocations being served, and its
  -- limits, its registry and its policy stay as it was built.
  pub Reach-new_router :
      (registry : Option (Registry CallHandler (StreamHandler X))) (limits : Limits)
      (authorizer : Option Authorizer) {w : World X}
      → let built = new_router registry limits authorizer in
        Reach method_of peer_of (record { router = built; calls = []; streams = [] }) w
        → IsBounded built w
          × (length w.calls ≤ to_ℕ (with_defaults limits).max_concurrent_calls)
          × (length w.streams ≤ to_ℕ (with_defaults limits).max_concurrent_streams)
  Reach-new_router registry limits authorizer walk =
      let (start, for_calls, for_streams) = new_router-IsBounded registry limits authorizer in
      let bounded = Reach-IsBounded start walk in
      (
        bounded,
        omega (arith, bounded.calls_bounded, bounded.same_calls, for_calls),
        omega (arith, bounded.streams_bounded, bounded.same_streams, for_streams),
      )
