-- ===== src/Errors/Guards.antt =====
-- Early returns: what holds when a call came past them.
use pluginprotocol.Errors.{GoError, Result, ok, err}
use pluginprotocol.Prelude.{◌≡◌, refl, Bool, true, false, Option, none, some, if◌then◌else◌}

module _ {A : Type 0} where
  -- `if test { return err }`
  pub guard_ok :
      (test : Bool) (e : GoError) (rest : Result A) {a : A}
      → (if test then err e else rest) ≡ ok a
      → (test ≡ false) × (rest ≡ ok a)
  guard_ok true e rest q = absurd cc
  guard_ok false e rest q = (refl, q)

  abbrev pub unless : Option GoError → Result A → Result A
  unless (some e) rest = err e
  unless none rest = rest

  -- `if err != nil { return err }`
  pub unless_ok :
      (o : Option GoError) (rest : Result A) {a : A}
      → unless o rest ≡ ok a
      → (o ≡ none) × (rest ≡ ok a)
  unless_ok (some e) rest q = absurd cc
  unless_ok none rest q = (refl, q)
