-- ===== src/Router/Streams.antt =====
-- application/peer/router.go: PrepareStream and ServeStream.
use pluginprotocol.Errors.{GoError, Result, ok, err}
use pluginprotocol.Prelude.{
  ◌+◌, ◌<◌, ◌≡◌, ◌≢◌, refl, ap, sym, false, Option, none, some, [], Bytes, bytes_eq, Option-cases,
  inl, inr, arith,
}
use pluginprotocol.Registry.{lookup_stream}
use pluginprotocol.Router.{
  Router, StreamHandler, returns, refusal, admit_stream, authorize_stream, prepare_stream,
  serve_stream_prepared, serve_stream,
}
use pluginprotocol.Router.Calls.{refusal-eq-none, named_of}

-- What has to hold of a stream for PrepareStream to hand out a handler.
pub record IsOpened {X : Type 0} (method_of peer_of : X → Bytes) (r : Router X) (stream : X)
    (handler : StreamHandler X) : Type 0 where
  pub registered : lookup_stream r.registry (method_of stream) ≡ some handler
  pub named : method_of stream ≢ []
  pub allowed : r.authorizer.authorize_stream (peer_of stream) (method_of stream) ≡ returns tt
  pub room : r.stream_slots.used < r.stream_slots.capacity

abbrev pub taken_stream : {X : Type 0} → Router X → Router X
taken_stream r = record r {
  stream_slots = record r.stream_slots { used = r.stream_slots.used + 1 };
}

module _ {X : Type 0} (method_of peer_of : X → Bytes) where
  admit_stream_ok :
      (r : Router X) (handler : StreamHandler X) {r' : Router X} {h : StreamHandler X}
      → admit_stream method_of peer_of r handler ≡ (r', ok h)
      → (r.stream_slots.used < r.stream_slots.capacity) × (h ≡ handler) × (r' ≡ taken_stream r)
  unfolding admit_stream
  admit_stream_ok r handler e = (ground arith, ground arith, ground arith)

  authorize_stream_ok :
      (r : Router X) (stream : X) (found : Option (StreamHandler X)) {r' : Router X}
      {h : StreamHandler X}
      → authorize_stream method_of peer_of r stream found ≡ (r', ok h)
      → (found ≡ some h)
        × (r.authorizer.authorize_stream (peer_of stream) (method_of stream) ≡ returns tt)
        × (r.stream_slots.used < r.stream_slots.capacity)
        × (r' ≡ taken_stream r)
  unfolding authorize_stream
  authorize_stream_ok r stream none e = cc
  authorize_stream_ok r stream (some handler) {r'} {h} e =
      let asked = r.authorizer.authorize_stream (peer_of stream) (method_of stream) in
      elim (Option-cases (refusal asked)) [
        | inl fine ↦
            let (free, same, after) =
              admit_stream_ok r handler {r' = r'} {h = h} (rw (fine, authorize_stream) at e) in
            (ap some (sym same), refusal-eq-none asked fine, free, after)
        | inr (x, refused) ↦ cc (rw (refused, authorize_stream) at e)
      ]

  past_guards :
      (r : Router X) (stream : X) {r' : Router X} {h : StreamHandler X}
      → prepare_stream method_of peer_of r (some stream) ≡ (r', ok h)
      → (bytes_eq (method_of stream) [] ≡ false)
        × (authorize_stream method_of peer_of r stream (lookup_stream r.registry (method_of stream))
            ≡ (r', ok h))
  unfolding prepare_stream
  past_guards r stream e = (ground arith, ground arith)

  -- PrepareStream hands out a handler only for a stream of a registered method that the authorizer
  -- allows its peer, and takes one slot for it.
  pub prepare_stream_ok :
      (r : Router X) (stream : X) {r' : Router X} {h : StreamHandler X}
      → prepare_stream method_of peer_of r (some stream) ≡ (r', ok h)
      → IsOpened method_of peer_of r stream h × (r' ≡ taken_stream r)
  prepare_stream_ok r stream e =
      let (name, authorized) = past_guards r stream e in
      let (found, permitted, free, after) = authorize_stream_ok r stream _ authorized in
      (
        record {
          registered = found;
          named = named_of (method_of stream) name;
          allowed = permitted;
          room = free;
        },
        after,
      )

  authorize_stream_err :
      (r : Router X) (stream : X) (found : Option (StreamHandler X)) {r' : Router X} {x : GoError}
      → authorize_stream method_of peer_of r stream found ≡ (r', err x)
      → r' ≡ r
  unfolding authorize_stream admit_stream
  authorize_stream_err r stream none e = ground arith
  authorize_stream_err r stream (some handler) e = ground arith

  -- A refused stream leaves the router as it was.
  pub prepare_stream_err :
      (r : Router X) (stream : Option X) {r' : Router X} {x : GoError}
      → prepare_stream method_of peer_of r stream ≡ (r', err x)
      → r' ≡ r
  unfolding prepare_stream
  prepare_stream_err r none e = ground arith
  prepare_stream_err r (some stream) {r'} {x} e = ground (
    arith,
    authorize_stream_err r stream (lookup_stream r.registry (method_of stream)) {r' = r'} {x = x},
  )

  -- ServeStream gives its slot back on every path, a panic of the handler included.
  serve_stream-router :
      (r : Router X) (stream : X) → (serve_stream method_of peer_of r stream).0 ≡ r
  unfolding serve_stream
  serve_stream-router r stream = returned (prepare_stream method_of peer_of r (some stream)) refl
    where
      returned :
          (prepared : Router X × Result (StreamHandler X))
          → prepare_stream method_of peer_of r (some stream) ≡ prepared
          → (serve_stream_prepared method_of peer_of stream prepared).0 ≡ r
      returned (r', err x) e = prepare_stream_err r (some stream) e
      returned (r', ok h) e = let q = (prepare_stream_ok r stream e).1 in ground (arith, q)
