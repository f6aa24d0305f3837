-- ===== src/Builder/Refinement.antt =====
-- presentation/peer/registry.go: what a chain of registrations promises.
use pluginprotocol.Builder.{
  Handlers, RegistryBuilder, build, build_call, build_stream, new_builder, registered,
}
use pluginprotocol.Errors.{
  GoError, sentinel, invalid_registration, duplicate_method, Result, ok, err,
}
use pluginprotocol.Limits.{Limits}
use pluginprotocol.Prelude.{
  ◌≡◌, ◌∙◌, refl, sym, subst, Bool, true, false, Option, none, some, List, [], ◌∷◌, if◌then◌else◌,
  if_cases, Bytes, bytes_eq, bytes_eq→eq, arith,
}
use pluginprotocol.Prelude.Table.{contains, contains-keys, insert, is_some, keys, lookup}
use pluginprotocol.Registry.{
  lookup_call, lookup_stream, new_registry, register_call, register_stream,
}
use pluginprotocol.Router.{Authorizer, CallHandler, StreamHandler, Router, new_router}

-- A line of the chain; a nil handler is `none`.
pub data Registration (X : Type 0) : Type 0 where
  call : Bytes → Option CallHandler → Registration X
  stream : Bytes → Option (StreamHandler X) → Registration X

abbrev otherwise {ℓ} : {A : Type ℓ} → Option A → Option A → Option A
otherwise none other = other
otherwise (some a) other = some a

otherwise-none {ℓ} : {A : Type ℓ} (o : Option A) → o ≡ otherwise o none
otherwise-none none = refl
otherwise-none (some x) = refl

module _ {X : Type 0} where
  unfoldable pub register_all : List (Registration X) → RegistryBuilder X → RegistryBuilder X
  unfolding build_call build_stream
  register_all [] b = b
  register_all (call method handler ∷ lines) b = register_all lines (build_call method handler b)
  register_all (stream method handler ∷ lines) b =
      register_all lines (build_stream method handler b)

  -- Whether every line has a name and a handler, and no name is taken twice for the same kind.
  unfoldable pub accepts : List Bytes → List Bytes → List (Registration X) → Bool
  unfolding contains
  accepts calls streams [] = true
  accepts calls streams (call [] handler ∷ lines) = false
  accepts calls streams (call (c ∷ cs) none ∷ lines) = false
  accepts calls streams (call (c ∷ cs) (some handler) ∷ lines) =
      let rest = accepts ((c ∷ cs) ∷ calls) streams lines in
      if contains (c ∷ cs) calls then false else rest
  accepts calls streams (stream [] handler ∷ lines) = false
  accepts calls streams (stream (c ∷ cs) none ∷ lines) = false
  accepts calls streams (stream (c ∷ cs) (some handler) ∷ lines) =
      let rest = accepts calls ((c ∷ cs) ∷ streams) lines in
      if contains (c ∷ cs) streams then false else rest

  -- The handler of the first line that names the method.
  unfoldable pub bound_call : Bytes → List (Registration X) → Option CallHandler
  bound_call method [] = none
  bound_call method (call name handler ∷ lines) =
      let rest = bound_call method lines in if bytes_eq name method then handler else rest
  bound_call method (stream name handler ∷ lines) = bound_call method lines

  unfoldable pub bound_stream : Bytes → List (Registration X) → Option (StreamHandler X)
  bound_stream method [] = none
  bound_stream method (call name handler ∷ lines) = bound_stream method lines
  bound_stream method (stream name handler ∷ lines) =
      let rest = bound_stream method lines in if bytes_eq name method then handler else rest

  -- What the lines make of a registry.
  abbrev Outcome :
      Handlers X → List (Registration X) → Option (Handlers X) → Option GoError → Type 0
  Outcome r lines after (some e) = accepts (keys r.calls) (keys r.streams) lines ≡ false
  Outcome r lines after none =
      (accepts (keys r.calls) (keys r.streams) lines ≡ true)
      × ((m : Bytes) → lookup_call after m ≡ otherwise (lookup m r.calls) (bound_call m lines))
      × ((m : Bytes)
          → lookup_stream after m ≡ otherwise (lookup m r.streams) (bound_stream m lines))

  abbrev from : Handlers X → Limits → Option Authorizer → Option GoError → RegistryBuilder X
  from r limits authorizer failed = record {
    registry = some r;
    limits = limits;
    authorizer = authorizer;
    failed = failed;
  }

  -- After an error the rest of the chain does nothing.
  register_all-failed :
      (lines : List (Registration X)) (r : Handlers X) (limits : Limits) (a : Option Authorizer)
      (e : GoError)
      → register_all lines (from r limits a (some e)) ≡ from r limits a (some e)
  unfolding register_all
  register_all-failed [] r limits a e = refl
  register_all-failed (call method handler ∷ lines) r limits a e =
      register_all-failed lines r limits a e
  register_all-failed (stream method handler ∷ lines) r limits a e =
      register_all-failed lines r limits a e

  refused :
      (line : Registration X) (lines : List (Registration X)) (r : Handlers X) (limits : Limits)
      (a : Option Authorizer) (e : GoError)
      → accepts (keys r.calls) (keys r.streams) (line ∷ lines) ≡ false
      → let b = register_all lines (from r limits a (some e)) in
        Outcome r (line ∷ lines) b.registry b.failed
  refused line lines r limits a e h =
      subst (λ (b : RegistryBuilder X). Outcome r (line ∷ lines) b.registry b.failed)
        (sym (register_all-failed lines r limits a e)) h

  call_bound :
      (r : Handlers X) (name : Bytes) (handler : CallHandler) (lines : List (Registration X))
      (after : Option (Handlers X)) (failed : Option GoError)
      → contains name (keys r.calls) ≡ false
      → accepts (keys r.calls) (keys r.streams) (call name (some handler) ∷ lines)
        ≡ accepts (name ∷ keys r.calls) (keys r.streams) lines
      → Outcome (record r { calls = insert name handler r.calls }) lines after failed
      → Outcome r (call name (some handler) ∷ lines) after failed
  unfolding keys lookup bound_call bound_stream
  call_bound r name handler lines after (some e) fresh same h = same ∙ h
  call_bound r name handler lines after none fresh same (h, calls, streams) =
      let absent = contains-keys name r.calls in
      (same ∙ h, λ m. calls m ∙ ground (arith, absent, fresh, bytes_eq→eq name m), streams)

  stream_bound :
      (r : Handlers X) (name : Bytes) (handler : StreamHandler X) (lines : List (Registration X))
      (after : Option (Handlers X)) (failed : Option GoError)
      → contains name (keys r.streams) ≡ false
      → accepts (keys r.calls) (keys r.streams) (stream name (some handler) ∷ lines)
        ≡ accepts (keys r.calls) (name ∷ keys r.streams) lines
      → Outcome (record r { streams = insert name handler r.streams }) lines after failed
      → Outcome r (stream name (some handler) ∷ lines) after failed
  unfolding keys lookup bound_call bound_stream
  stream_bound r name handler lines after (some e) fresh same h = same ∙ h
  stream_bound r name handler lines after none fresh same (h, calls, streams) =
      let absent = contains-keys name r.streams in
      (same ∙ h, calls, λ m. streams m ∙ ground (arith, absent, fresh, bytes_eq→eq name m))

  call_step :
      (name : Bytes) (handler : CallHandler) (lines : List (Registration X)) (r : Handlers X)
      (limits : Limits) (a : Option Authorizer)
      → (accepts (keys r.calls) (keys r.streams) (call name (some handler) ∷ lines) ≡ (
          if contains name (keys r.calls)
          then false
          else accepts (name ∷ keys r.calls) (keys r.streams) lines))
      → (let b =
            register_all lines
              (from (record r { calls = insert name handler r.calls }) limits a none) in
          Outcome (record r { calls = insert name handler r.calls }) lines b.registry b.failed)
      → let b = register_all lines (
          registered (from r limits a none) (
            if is_some (lookup name r.calls)
            then (some r, some (sentinel duplicate_method))
            else (some (record r { calls = insert name handler r.calls }), none))) in
        Outcome r (call name (some handler) ∷ lines) b.registry b.failed
  call_step name handler lines r limits a e h =
      if_cases
        (λ (p : Option (Handlers X) × Option GoError).
          let b = register_all lines (registered (from r limits a none) p) in
          Outcome r (call name (some handler) ∷ lines) b.registry b.failed)
        (is_some (lookup name r.calls)) (some r, some (sentinel duplicate_method))
        (some (record r { calls = insert name handler r.calls }), none)
        (λ q.
          refused (call name (some handler)) lines r limits a (sentinel duplicate_method)
            (e ∙ rw (contains-keys name r.calls ∙ q) refl))
        (λ q.
          let fresh = contains-keys name r.calls ∙ q in
          call_bound r name handler lines _ _ fresh (e ∙ rw fresh refl) h)

  stream_step :
      (name : Bytes) (handler : StreamHandler X) (lines : List (Registration X)) (r : Handlers X)
      (limits : Limits) (a : Option Authorizer)
      → (accepts (keys r.calls) (keys r.streams) (stream name (some handler) ∷ lines) ≡ (
          if contains name (keys r.streams)
          then false
          else accepts (keys r.calls) (name ∷ keys r.streams) lines))
      → (let b =
            register_all lines
              (from (record r { streams = insert name handler r.streams }) limits a none) in
          Outcome (record r { streams = insert name handler r.streams }) lines b.registry b.failed)
      → let b = register_all lines (
          registered (from r limits a none) (
            if is_some (lookup name r.streams)
            then (some r, some (sentinel duplicate_method))
            else (some (record r { streams = insert name handler r.streams }), none))) in
        Outcome r (stream name (some handler) ∷ lines) b.registry b.failed
  stream_step name handler lines r limits a e h =
      if_cases
        (λ (p : Option (Handlers X) × Option GoError).
          let b = register_all lines (registered (from r limits a none) p) in
          Outcome r (stream name (some handler) ∷ lines) b.registry b.failed)
        (is_some (lookup name r.streams)) (some r, some (sentinel duplicate_method))
        (some (record r { streams = insert name handler r.streams }), none)
        (λ q.
          refused (stream name (some handler)) lines r limits a (sentinel duplicate_method)
            (e ∙ rw (contains-keys name r.streams ∙ q) refl))
        (λ q.
          let fresh = contains-keys name r.streams ∙ q in
          stream_bound r name handler lines _ _ fresh (e ∙ rw fresh refl) h)

  register_all-Outcome :
      (lines : List (Registration X)) (r : Handlers X) (limits : Limits) (a : Option Authorizer)
      → let b = register_all lines (from r limits a none) in Outcome r lines b.registry b.failed
  unfolding register_all accepts register_call register_stream lookup_call lookup_stream bound_call
      bound_stream
  register_all-Outcome [] r limits a =
      (refl, λ m. otherwise-none (lookup m r.calls), λ m. otherwise-none (lookup m r.streams))
  register_all-Outcome (call [] handler ∷ lines) r limits a =
      refused (call [] handler) lines r limits a (sentinel invalid_registration) refl
  register_all-Outcome (call (c ∷ cs) none ∷ lines) r limits a =
      refused (call (c ∷ cs) none) lines r limits a (sentinel invalid_registration) refl
  register_all-Outcome (call (c ∷ cs) (some handler) ∷ lines) r limits a =
      call_step (c ∷ cs) handler lines r limits a refl
        (register_all-Outcome lines (record r { calls = insert (c ∷ cs) handler r.calls }) limits a)
  register_all-Outcome (stream [] handler ∷ lines) r limits a =
      refused (stream [] handler) lines r limits a (sentinel invalid_registration) refl
  register_all-Outcome (stream (c ∷ cs) none ∷ lines) r limits a =
      refused (stream (c ∷ cs) none) lines r limits a (sentinel invalid_registration) refl
  register_all-Outcome (stream (c ∷ cs) (some handler) ∷ lines) r limits a =
      stream_step (c ∷ cs) handler lines r limits a refl (
        register_all-Outcome lines (record r { streams = insert (c ∷ cs) handler r.streams }) limits
          a)

  -- What the chain of registrations promises of the handler that Build returns.
  abbrev pub IsServing : List (Registration X) → Result (Router X) → Type 0
  IsServing lines (err e) = accepts [] [] lines ≡ false
  IsServing lines (ok router) =
      (accepts [] [] lines ≡ true)
      × ((method : Bytes) → lookup_call router.registry method ≡ bound_call method lines)
      × ((method : Bytes) → lookup_stream router.registry method ≡ bound_stream method lines)

  build-IsServing :
      (lines : List (Registration X)) (b : RegistryBuilder X)
      → Outcome new_registry lines b.registry b.failed
      → IsServing lines (build b)
  unfolding build new_router keys lookup
  build-IsServing lines b h = by_error b.failed refl h
    where
      by_error :
          (failed : Option GoError)
          → b.failed ≡ failed
          → Outcome new_registry lines b.registry failed
          → IsServing lines (build b)
      by_error none q h = rw (q, build) h
      by_error (some e) q h = rw (q, build) h

  -- The handler that a chain of registrations builds, whatever limits and authorizer it was given,
  -- resolves each method to the handler of the first line that names it, calls and streams apart; and
  -- there is one exactly if each line has a name and a handler, and no two lines of a kind have the
  -- same name.
  pub build_refines :
      (lines : List (Registration X)) (limits : Limits) (authorizer : Option Authorizer)
      → IsServing lines (
          build
            (register_all lines (record new_builder { limits = limits; authorizer = authorizer })))
  build_refines lines limits authorizer =
      build-IsServing lines (register_all lines (from new_registry limits authorizer none))
        (register_all-Outcome lines new_registry limits authorizer)
