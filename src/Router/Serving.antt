-- ===== src/Router/Serving.antt =====
-- application/peer/router.go: the function that PrepareCall returns, and Invoke through it.
use pluginprotocol.Errors.{GoError, Result, ok, err}
use pluginprotocol.Prelude.{
  ap, sym, ◌∙◌, ℤ, ◌≡◌, refl, false, Option, Bytes, exceeds, length, arith,
}
use pluginprotocol.Router.{
  recovered, within_limit, Router, Call, Prepared, Outcome, returns, fails, panics, prepare_call,
  serve_call, invoke_prepared, invoke,
}
use pluginprotocol.Router.Calls.{IsAdmitted, prepare_call_ok}

recovered_ok :
    (o : Outcome Bytes) {payload : Bytes} → recovered o ≡ ok payload → o ≡ returns payload
unfolding recovered
recovered_ok (returns answer) e = cc
recovered_ok (fails x) e = cc
recovered_ok panics e = cc

within_limit_ok :
    (bound : ℤ) (answer : Result Bytes) {payload : Bytes}
    → within_limit bound answer ≡ ok payload
    → (answer ≡ ok payload) × (exceeds (length payload) bound ≡ false)
unfolding within_limit
within_limit_ok bound (err x) e = cc
within_limit_ok bound (ok q) e = (ground arith, ground arith)

module _ {X : Type 0} where
  serve_call_ok :
      (r : Router X) (p : Prepared) (call : Call) {r' : Router X} {payload : Bytes}
      → serve_call r p call ≡ (r', ok payload)
      → (p.handler (record call { from = p.caller }) ≡ returns payload)
        × (exceeds (length payload) r.limits.max_message_bytes ≡ false)
  serve_call_ok r p call {r'} {payload} e =
      let answer = recovered (p.handler (record call { from = p.caller })) in
      let (safe, small) =
        within_limit_ok r.limits.max_message_bytes answer {payload = payload}
          (unfold serve_call in ap (λ (q : Router X × Result Bytes). q.1) e) in
      (recovered_ok _ safe, small)

  invoke_prepared_ok :
      (r : Router X) (ctx_err : Option GoError) (from : Bytes) (call : Call)
      (prepared : Router X × Result Prepared) {r' : Router X} {payload : Bytes}
      → prepare_call r ctx_err from call ≡ prepared
      → invoke_prepared call prepared ≡ (r', ok payload)
      → (p : Prepared) × IsAdmitted r ctx_err from call p
        × (p.handler (record call { from = from }) ≡ returns payload)
        × (exceeds (length payload) r.limits.max_message_bytes ≡ false)
  unfolding invoke_prepared
  invoke_prepared_ok r ctx_err from call (s, err x) q e = cc
  invoke_prepared_ok r ctx_err from call (s, ok p) {r'} {payload} q e =
      let (admitted, after) = prepare_call_ok r ctx_err from call q in
      let (answered, small) = serve_call_ok s p call {r' = r'} {payload = payload} e in
      (
        p,
        admitted,
        ap (λ (who : Bytes). p.handler (record call { from = who })) (sym admitted.authenticated)
            ∙ answered,
        ap (λ (t : Router X). exceeds (length payload) t.limits.max_message_bytes) (sym after)
            ∙ small,
      )

  serve_call-from :
      (r : Router X) (p : Prepared) (call : Call) (claimed : Bytes)
      → serve_call r p (record call { from = claimed }) ≡ serve_call r p call
  unfolding serve_call
  serve_call-from r p call claimed = refl

  -- A caller cannot name itself: whatever identity the request carries, Invoke does the same, on
  -- the identity that the session was authenticated as.
  invoke-from :
      (r : Router X) (ctx_err : Option GoError) (from : Bytes) (call : Call) (claimed : Bytes)
      → invoke r ctx_err from (record call { from = claimed }) ≡ invoke r ctx_err from call
  unfolding invoke prepare_call
  invoke-from r ctx_err from call claimed = same (prepare_call r ctx_err from call)
    where
      same :
          (prepared : Router X × Result Prepared)
          → invoke_prepared (record call { from = claimed }) prepared
            ≡ invoke_prepared call prepared
      same (r', err e) = refl
      same (r', ok p) = serve_call-from r' p call claimed

  -- A payload that Invoke answers with is what the handler that is registered for the method
  -- returned, given the caller as authenticated; the call was admitted, and the payload is
  -- within the limit.
  pub invoke_ok :
      (r : Router X) (ctx_err : Option GoError) (from : Bytes) (call : Call) {r' : Router X}
      {payload : Bytes}
      → invoke r ctx_err from call ≡ (r', ok payload)
      → (p : Prepared) × IsAdmitted r ctx_err from call p
        × (p.handler (record call { from = from }) ≡ returns payload)
        × (exceeds (length payload) r.limits.max_message_bytes ≡ false)
  unfolding invoke
  invoke_ok r ctx_err from call e = invoke_prepared_ok r ctx_err from call _ refl e
