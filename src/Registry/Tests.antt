-- ===== src/Registry/Tests.antt =====
-- Runs of application/peer/registry.go at a concrete registry.
use pluginprotocol.Prelude.{ℕ, ◌≡◌, ◌||◌, Option, some, [], ◌∷◌, Bytes, codes}
use pluginprotocol.Prelude.Table.{is_some, contains}
use pluginprotocol.Registry.{Registry, methods, lookup_call, lookup_stream}
use pluginprotocol.Prelude.Strings.{Ascends}
use pluginprotocol.Registry.Order.{methods_lem}

-- Handlers are numbers here.
abbrev two_methods : Option (Registry ℕ ℕ)
two_methods =
    some (record {
      calls = (codes "read", 1) ∷ (codes "put", 2) ∷ [];
      streams = (codes "read", 3) ∷ [];
    })

methods_lem_example :
    Ascends (methods two_methods)
    × ((k : Bytes)
        → contains k (methods two_methods)
          ≡ (is_some (lookup_call two_methods k) || is_some (lookup_stream two_methods k)))
methods_lem_example = methods_lem two_methods
