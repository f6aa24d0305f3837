-- ===== src/Limits.antt =====
-- domain/peer/peer.go: Limits. A field is a Go `int`, which a caller may leave at zero or below.
pub mod Defaults
mod Tests
use pluginprotocol.Prelude.{ℕ, ◌*◌, Bool, ◌&&◌, ℤ, pos, is_non_positive, if◌then◌else◌}

pub record Limits : Type 0 where
  pub max_message_bytes : ℤ
  pub max_stream_message_bytes : ℤ
  pub max_concurrent_calls : ℤ
  pub max_concurrent_streams : ℤ
  pub max_stream_queue_depth : ℤ

abbrev pub default_limits : Limits
default_limits = record {
  max_message_bytes = pos 4_194_304;
  max_stream_message_bytes = pos 1_048_576;
  max_concurrent_calls = pos 64;
  max_concurrent_streams = pos 32;
  max_stream_queue_depth = pos 64;
}

-- `if field <= 0 { field = fallback }`
abbrev or_default : ℤ → ℤ → ℤ
or_default z fallback = if is_non_positive z then fallback else z

unfoldable pub with_defaults : Limits → Limits
with_defaults l = record {
  max_message_bytes = or_default l.max_message_bytes default_limits.max_message_bytes;
  max_stream_message_bytes =
      or_default l.max_stream_message_bytes default_limits.max_stream_message_bytes;
  max_concurrent_calls = or_default l.max_concurrent_calls default_limits.max_concurrent_calls;
  max_concurrent_streams =
      or_default l.max_concurrent_streams default_limits.max_concurrent_streams;
  max_stream_queue_depth =
      or_default l.max_stream_queue_depth default_limits.max_stream_queue_depth;
}
