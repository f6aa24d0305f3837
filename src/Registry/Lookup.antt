-- ===== src/Registry/Lookup.antt =====
-- application/peer/registry.go: what a registration makes of the registry.
use pluginprotocol.Errors.{GoError, sentinel, invalid_registration, duplicate_method}
use pluginprotocol.Prelude.{
  true, ◌≡◌, ◌≢◌, ◌⊎◌, inl, inr, refl, Option-cases, Option, none, some, [], ◌∷◌, if◌then◌else◌,
  Bytes, bytes_eq,
}
use pluginprotocol.Prelude.Table.{lookup, is_some}
use pluginprotocol.Registry.{Registry, register_call, register_stream, lookup_call, lookup_stream}

-- What a registration of `method` for unary calls may come to: the method is bound to the handler
-- and every other binding is kept, with the method unbound before; or the registry is as it was,
-- with the error that says why.
abbrev pub CallRegistered :
    {C S : Type 0}
    → Option (Registry C S)
    → Bytes
    → Option C
    → Option (Registry C S)
    → Option GoError
    → Type 0
CallRegistered {C} {S} r method handler r' e =
    ((e ≡ none)
      × (method ≢ [])
      × (lookup_call r method ≡ none)
      × ((j : Bytes) → lookup_call r' j ≡ (if bytes_eq method j then handler else lookup_call r j))
      × ((j : Bytes) → lookup_stream r' j ≡ lookup_stream r j))
    ⊎ ((r' ≡ r) × (e ≡ some (sentinel duplicate_method)) × (is_some (lookup_call r method) ≡ true))
    ⊎ ((r' ≡ r)
        × (e ≡ some (sentinel invalid_registration))
        × ((r ≡ none) ⊎ (method ≡ []) ⊎ (handler ≡ none)))

-- What a registration of `method` for streams may come to: the method is bound to the handler
-- and every other binding is kept, with the method unbound before; or the registry is as it was,
-- with the error that says why.
abbrev pub StreamRegistered :
    {C S : Type 0}
    → Option (Registry C S)
    → Bytes
    → Option S
    → Option (Registry C S)
    → Option GoError
    → Type 0
StreamRegistered {C} {S} r method handler r' e =
    ((e ≡ none)
      × (method ≢ [])
      × (lookup_stream r method ≡ none)
      × ((j : Bytes)
          → lookup_stream r' j ≡ (if bytes_eq method j then handler else lookup_stream r j))
      × ((j : Bytes) → lookup_call r' j ≡ lookup_call r j))
    ⊎ ((r' ≡ r)
        × (e ≡ some (sentinel duplicate_method))
        × (is_some (lookup_stream r method) ≡ true))
    ⊎ ((r' ≡ r)
        × (e ≡ some (sentinel invalid_registration))
        × ((r ≡ none) ⊎ (method ≡ []) ⊎ (handler ≡ none)))

module _ {C S : Type 0} where
  -- A registration binds the method and nothing else, or it leaves the registry as it was and says
  -- why: the method is registered already, or the registration is unusable.
  register_call_lem :
      (r : Option (Registry C S)) (method : Bytes) (handler : Option C)
      → CallRegistered r method handler
          (register_call r method handler).0
          (register_call r method handler).1
  unfolding register_call lookup_call lookup_stream lookup
  register_call_lem none method handler = inr (inr (refl, refl, inl refl))
  register_call_lem (some r) [] handler = inr (inr (refl, refl, inr (inl refl)))
  register_call_lem (some r) (b ∷ bs) none = inr (inr (refl, refl, inr (inr refl)))
  register_call_lem (some r) (b ∷ bs) (some handler) =
      elim (Option-cases (lookup (b ∷ bs) r.calls)) [
        | inl fresh ↦ rw fresh (inl (refl, λ h. cc, refl, λ j. refl, λ j. refl))
        | inr (old, bound) ↦ rw bound (inr (inl (refl, refl, refl)))
      ]

  -- A stream registration binds the method and nothing else, or it leaves the registry as it was
  -- and says why: the method is registered already, or the registration is unusable.
  register_stream_lem :
      (r : Option (Registry C S)) (method : Bytes) (handler : Option S)
      → StreamRegistered r method handler
          (register_stream r method handler).0
          (register_stream r method handler).1
  unfolding register_stream lookup_call lookup_stream lookup
  register_stream_lem none method handler = inr (inr (refl, refl, inl refl))
  register_stream_lem (some r) [] handler = inr (inr (refl, refl, inr (inl refl)))
  register_stream_lem (some r) (b ∷ bs) none = inr (inr (refl, refl, inr (inr refl)))
  register_stream_lem (some r) (b ∷ bs) (some handler) =
      elim (Option-cases (lookup (b ∷ bs) r.streams)) [
        | inl fresh ↦ rw fresh (inl (refl, λ h. cc, refl, λ j. refl, λ j. refl))
        | inr (old, bound) ↦ rw bound (inr (inl (refl, refl, refl)))
      ]
