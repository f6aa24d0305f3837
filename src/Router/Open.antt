-- ===== src/Router/Open.antt =====
-- application/peer/router.go: whom PrepareCall of a router in use turns away.
use pluginprotocol.Errors.{ok, err, sentinel, overloaded}
use pluginprotocol.Limits.{Limits, with_defaults}
use pluginprotocol.Limits.Defaults.{all-IsEffective}
use pluginprotocol.Prelude.{
  ℕ, ◌<◌, ◌≤◌, ◌≡◌, ◌≢◌, ◌⊎◌, ◌∙◌, sym, inl, inr, refl, false, Option, none, some, [], ℤ, pos,
  negsuc, Bytes, exceeds, length, to_ℕ, IsPositive, Bool-cases, ltb, ltb→lt, ltb-false→le,
  ltb-false, arith,
}
use pluginprotocol.Registry.{Registry, lookup_call}
use pluginprotocol.Router.{
  Router, Authorizer, CallHandler, StreamHandler, Call, returns, refusal, acquire, new_router,
  admit_call, authorize_call, prepare_call,
}
use pluginprotocol.Router.Budget.{World, Reach, Reach-new_router}
use pluginprotocol.Router.Calls.{taken, unnamed, is_nil-lookup_call}

-- What the consumer's policy says of a caller and a method; without one, everything is allowed.
abbrev pub Allows : Option Authorizer → Bytes → Bytes → Type 0
Allows none from method = Unit {0}
Allows (some policy) from method = policy.authorize_call from method ≡ returns tt

exceeds-false : (n : ℕ) (z : ℤ) → IsPositive z → n ≤ to_ℕ z → exceeds n z ≡ false
exceeds-false n (pos m) p h = ltb-false m n h
exceeds-false n (negsuc m) p h = absurd p

module _ {X : Type 0} where
  new_router-Allows :
      (registry : Option (Registry CallHandler (StreamHandler X))) (limits : Limits)
      (authorizer : Option Authorizer) (from method : Bytes)
      → Allows authorizer from method
      → (new_router registry limits authorizer).authorizer.authorize_call from method ≡ returns tt
  unfolding new_router
  new_router-Allows registry limits none from method h = refl
  new_router-Allows registry limits (some policy) from method h = h

  authorize_call-admit_call :
      (r : Router X) (from method : Bytes) (handler : CallHandler)
      → lookup_call r.registry method ≡ some handler
      → r.authorizer.authorize_call from method ≡ returns tt
      → authorize_call r none from method (lookup_call r.registry method)
        ≡ admit_call r from handler
  unfolding authorize_call refusal
  authorize_call-admit_call r from method handler registered allowed =
      rw (registered, allowed, authorize_call) refl

  -- Past its other checks, PrepareCall is the budget's.
  prepare_call-admit_call :
      (r : Router X) (from : Bytes) (call : Call) (handler : CallHandler)
      → lookup_call r.registry call.method ≡ some handler
      → call.method ≢ []
      → exceeds (length call.payload) r.limits.max_message_bytes ≡ false
      → r.authorizer.authorize_call from call.method ≡ returns tt
      → prepare_call r none from call ≡ admit_call r from handler
  unfolding prepare_call
  prepare_call-admit_call r from call handler registered named fits allowed =
      rw
        (
          is_nil-lookup_call r.registry call.method registered,
          unnamed call.method named,
          fits,
          prepare_call,
        )
        (authorize_call-admit_call r from call.method handler registered allowed)

  admit_call_either :
      (r : Router X) (from : Bytes) (handler : CallHandler)
      → r.call_slots.used ≤ r.call_slots.capacity
      → ((r.call_slots.used < r.call_slots.capacity)
          × (admit_call r from handler
              ≡ (taken r, ok (record { handler = handler; caller = from }))))
        ⊎ ((r.call_slots.used ≡ r.call_slots.capacity)
            × (admit_call r from handler ≡ (r, err (sentinel overloaded))))
  unfolding admit_call acquire
  admit_call_either r from handler h =
      elim (Bool-cases (ltb r.call_slots.used r.call_slots.capacity)) [
        | inl room ↦ inl (ltb→lt _ _ room, rw (room, admit_call) refl)
        | inr full ↦
            let above = ltb-false→le _ _ full in
            inr (omega (arith, above), rw (full, admit_call) refl)
      ]

  new_router-bound :
      (registry : Option (Registry CallHandler (StreamHandler X))) (limits : Limits)
      (authorizer : Option Authorizer)
      → let built = new_router registry limits authorizer in
        (built.registry ≡ registry)
        × (built.limits ≡ with_defaults limits)
        × (built.call_slots.capacity ≡ to_ℕ (with_defaults limits).max_concurrent_calls)
  unfolding new_router
  new_router-bound registry limits authorizer = (refl, refl, refl)

module _ {X : Type 0} (method_of peer_of : X → Bytes) where
  -- However a new router was used before, a call of a registered method that the policy allows its
  -- caller, with a payload within the limit and a live context, is turned away for no other reason
  -- than that as many calls as the limits allow are being served; while there are fewer, it gets the
  -- registered handler, bound to its caller, and one slot.
  pub Reach-prepare_call :
      (registry : Option (Registry CallHandler (StreamHandler X))) (limits : Limits)
      (authorizer : Option Authorizer) {w : World X} (from : Bytes) (call : Call)
      (handler : CallHandler)
      → Reach method_of peer_of
          (record { router = new_router registry limits authorizer; calls = []; streams = [] })
          w
      → call.method ≢ []
      → lookup_call registry call.method ≡ some handler
      → length call.payload ≤ to_ℕ (with_defaults limits).max_message_bytes
      → Allows authorizer from call.method
      → let most = to_ℕ (with_defaults limits).max_concurrent_calls in
        ((length w.calls < most)
          × (prepare_call w.router none from call
              ≡ (taken w.router, ok (record { handler = handler; caller = from }))))
        ⊎ ((length w.calls ≡ most)
            × (prepare_call w.router none from call ≡ (w.router, err (sentinel overloaded))))
  Reach-prepare_call registry limits authorizer {w} from call handler walk named registered fits
        allowed =
      let (b, _, _) = Reach-new_router method_of peer_of registry limits authorizer walk in
      let (same_registry, same_limits, most) = new_router-bound registry limits authorizer in
      let method = call.method in
      let found : lookup_call w.router.registry method ≡ some handler =
        rw (b.same_registry, same_registry) registered in
      let small : exceeds (length call.payload) w.router.limits.max_message_bytes ≡ false =
        rw (b.same_limits, same_limits)
          (exceeds-false (length call.payload) (with_defaults limits).max_message_bytes
            (all-IsEffective limits).message_bytes fits) in
      let permitted : w.router.authorizer.authorize_call from method ≡ returns tt =
        rw (b.same_policy) (new_router-Allows registry limits authorizer from method allowed) in
      let passes = prepare_call-admit_call w.router from call handler found named small permitted in
      let full = b.same_calls ∙ most in
      elim (admit_call_either w.router from handler
        (omega (arith, b.calls_counted, b.calls_bounded))) [
          | inl (room, taken_one) ↦
              inl (omega (arith, room, b.calls_counted, full), passes ∙ taken_one)
          | inr (none_left, refused) ↦
              inr (sym b.calls_counted ∙ none_left ∙ full, passes ∙ refused)
        ]
