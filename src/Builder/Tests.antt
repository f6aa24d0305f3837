-- ===== src/Builder/Tests.antt =====
-- Runs of the RegistryBuilder of presentation/peer/registry.go.
use pluginprotocol.Builder.{build, new_builder, no_limits}
use pluginprotocol.Builder.Refinement.{
  Registration, call, stream, IsServing, accepts, build_refines, register_all,
}
use pluginprotocol.Prelude.{
  ◌≡◌, refl, true, false, none, some, List, [], ◌∷◌, Bytes, bytes_eq, codes,
}
use pluginprotocol.Router.{returns, CallHandler, StreamHandler}

abbrev echo : CallHandler
echo request = returns request.payload

abbrev drain : StreamHandler Bytes
drain opened = returns tt

abbrev lines : List (Registration Bytes)
lines =
    call (codes "read") (some echo)
    ∷ stream (codes "read") (some drain)
    ∷ call (codes "write") (some echo)
    ∷ []

lines_accepted : accepts [] [] lines ≡ true
unfolding accepts bytes_eq
lines_accepted = refl

twice_refused : accepts [] [] (call (codes "write") (some echo) ∷ lines) ≡ false
unfolding accepts bytes_eq
twice_refused = refl

build_refines_example :
    IsServing lines
      (build (register_all lines (record new_builder { limits = no_limits; authorizer = none })))
build_refines_example = build_refines lines no_limits none
