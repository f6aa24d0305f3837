-- ===== src/Limits/Defaults.antt =====
-- domain/peer/peer.go: WithDefaults.
use pluginprotocol.Prelude.{◌≡◌, ◌⊎◌, ℤ, pos, IsPositive, arith}
use pluginprotocol.Limits.{Limits, with_defaults}

-- Every bound is in effect.
pub record IsEffective (l : Limits) : Type 0 where
  pub message_bytes : IsPositive l.max_message_bytes
  pub stream_message_bytes : IsPositive l.max_stream_message_bytes
  pub concurrent_calls : IsPositive l.max_concurrent_calls
  pub concurrent_streams : IsPositive l.max_concurrent_streams
  pub stream_queue_depth : IsPositive l.max_stream_queue_depth

-- A bound is the given one where that is positive, and the fallback where it is not.
abbrev IsResolved : ℤ → ℤ → ℤ → Type 0
IsResolved given fallback z =
    (IsPositive given × (z ≡ given)) ⊎ ((¬ IsPositive given) × (z ≡ fallback))

-- Every bound comes from the same bound of the given limits: 4 MiB for a message, 1 MiB for a
-- message of a stream, 64 calls, 32 streams and a queue of 64 stand in for what is not positive.
pub record IsCompleted (given l : Limits) : Type 0 where
  pub message_bytes : IsResolved given.max_message_bytes (pos 4_194_304) l.max_message_bytes
  pub stream_message_bytes :
      IsResolved given.max_stream_message_bytes (pos 1_048_576) l.max_stream_message_bytes
  pub concurrent_calls : IsResolved given.max_concurrent_calls (pos 64) l.max_concurrent_calls
  pub concurrent_streams : IsResolved given.max_concurrent_streams (pos 32) l.max_concurrent_streams
  pub stream_queue_depth : IsResolved given.max_stream_queue_depth (pos 64) l.max_stream_queue_depth

with_defaults-IsCompleted : (l : Limits) → IsCompleted l (with_defaults l)
unfolding with_defaults
with_defaults-IsCompleted l = ground arith

-- A Limits that is fully effective already is kept as it is.
with_defaults_of_IsEffective : (l : Limits) → IsEffective l → with_defaults l ≡ l
unfolding with_defaults
with_defaults_of_IsEffective l h = ground arith

pub all-IsEffective : (l : Limits) → IsEffective (with_defaults l)
unfolding with_defaults
all-IsEffective l = ground arith

-- A partially specified Limits becomes fully effective: each of its positive bounds is kept, each
-- other one is the default of the same field, and completing it again changes nothing.
pub with_defaults-IsEffective :
    (l : Limits)
    → IsCompleted l (with_defaults l)
      × IsEffective (with_defaults l)
      × (with_defaults (with_defaults l) ≡ with_defaults l)
with_defaults-IsEffective l = (
  with_defaults-IsCompleted l,
  all-IsEffective l,
  with_defaults_of_IsEffective (with_defaults l) (all-IsEffective l),
)
