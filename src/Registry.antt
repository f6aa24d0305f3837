-- ===== src/Registry.antt =====
-- application/peer/registry.go. A handler is a value of a parameter type, nil being `none`; a nil
-- *Registry is `none`. Each method holds the lock throughout, so a call is one step.
pub mod Lookup
pub mod Order
mod Tests
use pluginprotocol.Errors.{GoError, sentinel, invalid_registration, duplicate_method}
use pluginprotocol.Prelude.{
  Bool, true, false, ◌||◌, Option, none, some, List, [], ◌∷◌, ◌++◌, if◌then◌else◌, Bytes, bytes_eq,
}
use pluginprotocol.Prelude.Strings.{collect, sort_strings}
use pluginprotocol.Prelude.Table.{lookup, insert, keys, contains, is_some}

pub record Registry (C S : Type 0) : Type 0 where
  pub calls : List (Bytes × C)
  pub streams : List (Bytes × S)

module _ {C S : Type 0} where
  abbrev pub new_registry : Registry C S
  new_registry = record { calls = []; streams = [] }

  -- `registry == nil || method == "" || handler == nil` is what the clauses refuse first.
  unfoldable pub register_call :
      Option (Registry C S) → Bytes → Option C → Option (Registry C S) × Option GoError
  register_call none method handler = (none, some (sentinel invalid_registration))
  register_call (some r) [] handler = (some r, some (sentinel invalid_registration))
  register_call (some r) (b ∷ bs) none = (some r, some (sentinel invalid_registration))
  register_call (some r) (b ∷ bs) (some handler) =
      if is_some (lookup (b ∷ bs) r.calls)
      then (some r, some (sentinel duplicate_method))
      else (some (record r { calls = insert (b ∷ bs) handler r.calls }), none)

  unfoldable pub register_stream :
      Option (Registry C S) → Bytes → Option S → Option (Registry C S) × Option GoError
  register_stream none method handler = (none, some (sentinel invalid_registration))
  register_stream (some r) [] handler = (some r, some (sentinel invalid_registration))
  register_stream (some r) (b ∷ bs) none = (some r, some (sentinel invalid_registration))
  register_stream (some r) (b ∷ bs) (some handler) =
      if is_some (lookup (b ∷ bs) r.streams)
      then (some r, some (sentinel duplicate_method))
      else (some (record r { streams = insert (b ∷ bs) handler r.streams }), none)

  unfoldable pub methods : Option (Registry C S) → List Bytes
  unfolding collect sort_strings
  methods none = []
  methods (some r) = sort_strings (collect (keys r.streams) (collect (keys r.calls) []))

  unfoldable pub lookup_call : Option (Registry C S) → Bytes → Option C
  lookup_call none method = none
  lookup_call (some r) method = lookup method r.calls

  unfoldable pub lookup_stream : Option (Registry C S) → Bytes → Option S
  lookup_stream none method = none
  lookup_stream (some r) method = lookup method r.streams
