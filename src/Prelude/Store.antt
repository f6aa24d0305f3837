-- ===== src/Prelude/Store.antt =====
-- Go maps with a number for a key (stream IDs), as association lists.
use Prim.Native.Nat.{ℕ}
use mathlib.Core.Path.{◌≡◌, refl}
use mathlib.Core.List.{List, [], ◌∷◌}
use mathlib.Core.Option.{Option, none, some}
use native.Mathlib.Omega.{arith}
use pluginprotocol.Prelude.Tests.{◌==◌, if◌then◌else◌}

module _ {ℓ} {V : Type ℓ} where
  unfoldable pub lookup : ℕ → List (ℕ × V) → Option V
  lookup k [] = none
  lookup k ((j, v) ∷ m) = if j == k then some v else lookup k m

  unfoldable pub insert : ℕ → V → List (ℕ × V) → List (ℕ × V)
  insert k v [] = (k, v) ∷ []
  insert k v ((j, w) ∷ m) = if j == k then (k, v) ∷ m else (j, w) ∷ insert k v m

  unfoldable pub delete : ℕ → List (ℕ × V) → List (ℕ × V)
  delete k [] = []
  delete k ((j, w) ∷ m) = let rest = delete k m in if j == k then rest else (j, w) ∷ rest

module _ {ℓ} {V : Type ℓ} where
  pub lookup-insert :
      (key asked : ℕ) (value : V) (store : List (ℕ × V))
      → lookup asked (insert key value store)
        ≡ (if key == asked then some value else lookup asked store)
  unfolding lookup insert
  lookup-insert key asked value [] = refl
  lookup-insert key asked value ((at, held) ∷ store) =
      ground (arith, lookup-insert key asked value store)

  pub lookup-delete :
      (key asked : ℕ) (store : List (ℕ × V))
      → lookup asked (delete key store) ≡ (if key == asked then none else lookup asked store)
  unfolding lookup delete
  lookup-delete key asked [] = ground arith
  lookup-delete key asked ((at, held) ∷ store) = ground (arith, lookup-delete key asked store)
