-- ===== src/Builder.antt =====
-- presentation/peer/registry.go: RegistryBuilder. Its methods change the builder and return it.
pub mod Refinement
mod Tests
use pluginprotocol.Errors.{GoError, Result, ok, err}
use pluginprotocol.Limits.{Limits, default_limits, with_defaults}
use pluginprotocol.Prelude.{
  Bool, true, false, ◌&&◌, Option, none, some, List, [], ◌∷◌, if◌then◌else◌, Bytes, ℤ, pos, negsuc,
  ◌==◌,
}
use pluginprotocol.Registry.{Registry, new_registry, register_call, register_stream}
use pluginprotocol.Router.{Authorizer, CallHandler, StreamHandler, Router, new_router}

abbrev pub Handlers : Type 0 → Type 0
Handlers X = Registry CallHandler (StreamHandler X)

pub record RegistryBuilder (X : Type 0) : Type 0 where
  pub registry : Option (Handlers X)
  pub limits : Limits
  pub authorizer : Option Authorizer
  pub failed : Option GoError

-- domain.Limits{}
abbrev pub no_limits : Limits
no_limits = record {
  max_message_bytes = pos 0;
  max_stream_message_bytes = pos 0;
  max_concurrent_calls = pos 0;
  max_concurrent_streams = pos 0;
  max_stream_queue_depth = pos 0;
}

abbrev is_zero : ℤ → Bool
is_zero (pos n) = n == 0
is_zero (negsuc n) = false

abbrev is_unset : Limits → Bool
is_unset l =
    is_zero l.max_message_bytes
    && is_zero l.max_stream_message_bytes
    && is_zero l.max_concurrent_calls
    && is_zero l.max_concurrent_streams
    && is_zero l.max_stream_queue_depth

module _ {X : Type 0} where
  abbrev pub new_builder : RegistryBuilder X
  new_builder = record {
    registry = some new_registry;
    limits = no_limits;
    authorizer = none;
    failed = none;
  }

  -- WithLimits and WithAuthorizer
  unfoldable pub with_limits : Limits → RegistryBuilder X → RegistryBuilder X
  unfolding with_defaults
  with_limits limits b = record b { limits = with_defaults limits }

  abbrev pub with_authorizer : Option Authorizer → RegistryBuilder X → RegistryBuilder X
  with_authorizer authorizer b = record b { authorizer = authorizer }

  abbrev pub registered :
      RegistryBuilder X → Option (Handlers X) × Option GoError → RegistryBuilder X
  registered b (registry, failed) = record b { registry = registry; failed = failed }

  -- RegisterCall and RegisterStream
  unfoldable pub build_call : Bytes → Option CallHandler → RegistryBuilder X → RegistryBuilder X
  unfolding register_call
  build_call method handler b = elim b.failed [
    | some e ↦ b
    | none ↦ registered b (register_call b.registry method handler)
  ]

  unfoldable pub build_stream :
      Bytes → Option (StreamHandler X) → RegistryBuilder X → RegistryBuilder X
  unfolding register_stream
  build_stream method handler b = elim b.failed [
    | some e ↦ b
    | none ↦ registered b (register_stream b.registry method handler)
  ]

  unfoldable pub build : RegistryBuilder X → Result (Router X)
  unfolding new_router
  build b = elim b.failed [
    | some e ↦ err e
    | none ↦ ok (
        new_router b.registry (if is_unset b.limits then default_limits else b.limits) b.authorizer)
  ]
