-- ===== src/Router/Calls.antt =====
-- application/peer/router.go: PrepareCall and Invoke.
use pluginprotocol.Errors.{GoError, Result, ok, err}
use pluginprotocol.Prelude.{
  ◌∷◌, Option-cases, sym, lt→ltb, ◌+◌, ◌<◌, ◌≡◌, ◌≢◌, inl, inr, refl, ap, false, Option, none, some,
  [], Bytes, bytes_eq, exceeds, length, arith,
}
use pluginprotocol.Registry.{Registry, lookup_call}
use pluginprotocol.Router.{
  Router, CallHandler, StreamHandler, is_nil, Call, Prepared, Outcome, returns, fails, panics,
  acquire, refusal, admit_call, authorize_call, prepare_call, invoke_prepared, invoke,
}

-- What has to hold of a call for PrepareCall to hand out a handler.
pub record IsAdmitted {X : Type 0} (r : Router X) (ctx_err : Option GoError) (from : Bytes)
    (call : Call) (p : Prepared) : Type 0 where
  pub registered : lookup_call r.registry call.method ≡ some p.handler
  pub named : call.method ≢ []
  pub fits : exceeds (length call.payload) r.limits.max_message_bytes ≡ false
  pub alive : ctx_err ≡ none
  pub allowed : r.authorizer.authorize_call from call.method ≡ returns tt
  pub room : r.call_slots.used < r.call_slots.capacity
  pub authenticated : p.caller ≡ from

pub named_of : (method : Bytes) → bytes_eq method [] ≡ false → method ≢ []
unfolding bytes_eq
named_of [] h = cc
named_of (b ∷ bs) h = λ e. cc

pub unnamed : (method : Bytes) → method ≢ [] → bytes_eq method [] ≡ false
unfolding bytes_eq
unnamed [] h = absurd (h refl)
unnamed (b ∷ bs) h = refl

pub refusal-eq-none : (o : Outcome (Unit {0})) → refusal o ≡ none → o ≡ returns tt
unfolding refusal
refusal-eq-none (returns u) h = refl
refusal-eq-none (fails e) h = cc
refusal-eq-none panics h = cc

module _ {X : Type 0} where
  admit_call_ok :
      (r : Router X) (from : Bytes) (handler : Call → Outcome Bytes) {r' : Router X} {p : Prepared}
      → admit_call r from handler ≡ (r', ok p)
      → (r.call_slots.used < r.call_slots.capacity)
        × (p.handler ≡ handler)
        × (p.caller ≡ from)
        × (r' ≡ record r { call_slots = record r.call_slots { used = r.call_slots.used + 1 } })
  unfolding admit_call
  admit_call_ok r from handler e = (ground arith, ground arith, ground arith, ground arith)

  abbrev pub taken : Router X → Router X
  taken r = record r { call_slots = record r.call_slots { used = r.call_slots.used + 1 } }

  authorize_call_ok :
      (r : Router X) (ctx_err : Option GoError) (from method : Bytes)
      (found : Option (Call → Outcome Bytes)) {r' : Router X} {p : Prepared}
      → authorize_call r ctx_err from method found ≡ (r', ok p)
      → (found ≡ some p.handler)
        × (ctx_err ≡ none)
        × (r.authorizer.authorize_call from method ≡ returns tt)
        × (r.call_slots.used < r.call_slots.capacity)
        × (p.caller ≡ from)
        × (r' ≡ taken r)
  unfolding authorize_call
  authorize_call_ok r ctx_err from method none e = cc
  authorize_call_ok r (some x) from method (some handler) e = cc
  authorize_call_ok r none from method (some handler) {r'} {p} e =
      elim (Option-cases (refusal (r.authorizer.authorize_call from method))) [
        | inl fine ↦
            let (free, same, who, after) =
              admit_call_ok r from handler {r' = r'} {p = p} (rw (fine, authorize_call) at e) in
            (
              ap some (sym same),
              refl,
              refusal-eq-none (r.authorizer.authorize_call from method) fine,
              free,
              who,
              after,
            )
        | inr (x, refused) ↦ cc (rw (refused, authorize_call) at e)
      ]

  past_guards :
      (r : Router X) (ctx_err : Option GoError) (from : Bytes) (call : Call) {r' : Router X}
      {p : Prepared}
      → prepare_call r ctx_err from call ≡ (r', ok p)
      → (bytes_eq call.method [] ≡ false)
        × (exceeds (length call.payload) r.limits.max_message_bytes ≡ false)
        × (authorize_call r ctx_err from call.method (lookup_call r.registry call.method)
            ≡ (r', ok p))
  unfolding prepare_call
  past_guards r ctx_err from call e = (ground arith, ground arith, ground arith)

  -- PrepareCall hands out a handler only for a call that is admitted, and takes one slot for it.
  pub prepare_call_ok :
      (r : Router X) (ctx_err : Option GoError) (from : Bytes) (call : Call) {r' : Router X}
      {p : Prepared}
      → prepare_call r ctx_err from call ≡ (r', ok p)
      → IsAdmitted r ctx_err from call p × (r' ≡ taken r)
  prepare_call_ok r ctx_err from call e =
      let (name, small, authorized) = past_guards r ctx_err from call e in
      let (found, live, permitted, free, who, after) =
        authorize_call_ok r ctx_err from _ _ authorized in
      (
        record {
          registered = found;
          named = named_of call.method name;
          fits = small;
          alive = live;
          allowed = permitted;
          room = free;
          authenticated = who;
        },
        after,
      )

  authorize_call_err :
      (r : Router X) (ctx_err : Option GoError) (from method : Bytes)
      (found : Option (Call → Outcome Bytes)) {r' : Router X} {x : GoError}
      → authorize_call r ctx_err from method found ≡ (r', err x)
      → r' ≡ r
  unfolding authorize_call admit_call
  authorize_call_err r ctx_err from method none e = ground arith
  authorize_call_err r (some y) from method (some handler) e = ground arith
  authorize_call_err r none from method (some handler) e = ground arith

  -- A refused call leaves the router as it was.
  pub prepare_call_err :
      (r : Router X) (ctx_err : Option GoError) (from : Bytes) (call : Call) {r' : Router X}
      {x : GoError}
      → prepare_call r ctx_err from call ≡ (r', err x)
      → r' ≡ r
  unfolding prepare_call
  prepare_call_err r ctx_err from call {r'} {x} e = ground (
    arith,
    authorize_call_err r ctx_err from call.method (lookup_call r.registry call.method) {r' = r'}
        {x = x},
  )

  pub is_nil-lookup_call :
      (reg : Option (Registry CallHandler (StreamHandler X))) (method : Bytes) {h : CallHandler}
      → lookup_call reg method ≡ some h
      → is_nil reg ≡ false
  unfolding lookup_call
  is_nil-lookup_call none method e = cc
  is_nil-lookup_call (some reg) method e = refl

  authorize_call_admits :
      (r : Router X) (ctx_err : Option GoError) (from : Bytes) (call : Call) (p : Prepared)
      → IsAdmitted r ctx_err from call p
      → authorize_call r ctx_err from call.method (lookup_call r.registry call.method)
        ≡ (taken r, ok p)
  unfolding authorize_call admit_call refusal acquire
  authorize_call_admits r ctx_err from call p a =
      rw (a.registered, a.alive, a.allowed, authorize_call)
        (rw (lt→ltb _ _ a.room, admit_call) (rw (← a.authenticated) refl))

  -- An admitted call is never refused.
  pub prepare_call_admits :
      (r : Router X) (ctx_err : Option GoError) (from : Bytes) (call : Call) (p : Prepared)
      → IsAdmitted r ctx_err from call p
      → prepare_call r ctx_err from call ≡ (taken r, ok p)
  unfolding prepare_call
  prepare_call_admits r ctx_err from call p a =
      rw
        (
          is_nil-lookup_call r.registry call.method a.registered,
          unnamed call.method a.named,
          a.fits,
          prepare_call,
        )
        (authorize_call_admits r ctx_err from call p a)

  -- Invoke gives its slot back on every path: refused, failed, panicked, answered with too much or
  -- served, it leaves the router as it was.
  pub invoke-router :
      (r : Router X) (ctx_err : Option GoError) (from : Bytes) (call : Call)
      → (invoke r ctx_err from call).0 ≡ r
  unfolding invoke
  invoke-router r ctx_err from call = returned (prepare_call r ctx_err from call) refl
    where
      returned :
          (prepared : Router X × Result Prepared)
          → prepare_call r ctx_err from call ≡ prepared
          → (invoke_prepared call prepared).0 ≡ r
      returned (r', err x) e = prepare_call_err r ctx_err from call e
      returned (r', ok p) e = let q = (prepare_call_ok r ctx_err from call e).1 in ground (arith, q)
