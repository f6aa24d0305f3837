-- ===== src/Limits/Tests.antt =====
-- Runs of WithDefaults at concrete limits.
use pluginprotocol.Limits.{Limits, default_limits, with_defaults}
use pluginprotocol.Limits.Defaults.{IsEffective, IsCompleted, with_defaults-IsEffective}
use pluginprotocol.Prelude.{◌≡◌, pos, negsuc, arith}

abbrev partial : Limits
partial = record default_limits { max_message_bytes = pos 0; max_concurrent_calls = negsuc 4 }

with_defaults-IsEffective_example :
    IsCompleted partial (with_defaults partial)
    × IsEffective (with_defaults partial)
    × (with_defaults (with_defaults partial) ≡ with_defaults partial)
with_defaults-IsEffective_example = with_defaults-IsEffective partial

default_limits-IsEffective : IsEffective default_limits
default_limits-IsEffective = ground arith
