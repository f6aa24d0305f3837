-- ===== src/Registry/Order.antt =====
-- application/peer/registry.go: Methods.
use pluginprotocol.Prelude.{◌||◌, ◌≡◌, refl, Option, none, some, [], Bytes, arith}
use pluginprotocol.Prelude.Strings.{
  contains-collect, Distinct-collect, collect, Ascends, Ascends-sort_strings, contains-sort_strings,
}
use pluginprotocol.Prelude.Table.{keys, contains, is_some, contains-keys}
use pluginprotocol.Registry.{Registry, methods, lookup_call, lookup_stream}

-- Methods lists, in strictly ascending order and so each once, exactly the methods that are
-- registered for calls or for streams.
pub methods_lem :
    {C S : Type 0} (r : Option (Registry C S))
    → Ascends (methods r)
      × ((k : Bytes)
          → contains k (methods r) ≡ (is_some (lookup_call r k) || is_some (lookup_stream r k)))
unfolding methods lookup_call lookup_stream contains
methods_lem none = (tt, λ k. refl)
methods_lem (some r) =
    let calls = keys r.calls in
    let streams = keys r.streams in
    let seen = collect calls [] in
    (
      Ascends-sort_strings (collect streams seen)
          (Distinct-collect streams seen (Distinct-collect calls [] tt)),
      λ k. ground (
        arith,
        contains-sort_strings k (collect streams seen),
        contains-collect k streams seen,
        contains-collect k calls [],
        contains-keys k r.calls,
        contains-keys k r.streams,
      ),
    )
