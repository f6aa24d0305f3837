-- ===== src/Prelude/Table.antt =====
-- Go maps with a string for a key, as association lists.
use mathlib.Core.Path.{◌≡◌, refl}
use mathlib.Core.Bool.{Bool, true, false, ◌||◌}
use mathlib.Core.List.{List, [], ◌∷◌}
use mathlib.Core.Option.{Option, none, some}
use native.Mathlib.Omega.{arith}
use pluginprotocol.Prelude.Tests.{if◌then◌else◌}
use pluginprotocol.Prelude.Text.{Bytes, bytes_eq, bytes_eq→eq, bytes_eq_refl}

abbrev pub is_some {ℓ} : {A : Type ℓ} → Option A → Bool
is_some none = false
is_some (some a) = true

unfoldable pub contains : Bytes → List Bytes → Bool
contains k [] = false
contains k (x ∷ xs) = bytes_eq x k || contains k xs

module _ {ℓ} {V : Type ℓ} where
  unfoldable pub lookup : Bytes → List (Bytes × V) → Option V
  lookup k [] = none
  lookup k ((j, v) ∷ m) = if bytes_eq j k then some v else lookup k m

  abbrev pub insert : Bytes → V → List (Bytes × V) → List (Bytes × V)
  insert k v m = (k, v) ∷ m

  unfoldable pub keys : List (Bytes × V) → List Bytes
  keys [] = []
  keys ((k, v) ∷ m) = k ∷ keys m

  pub contains-keys :
      (k : Bytes) (m : List (Bytes × V)) → contains k (keys m) ≡ is_some (lookup k m)
  unfolding contains lookup keys
  contains-keys k [] = refl
  contains-keys k ((j, v) ∷ m) = ground (arith, contains-keys k m)

module _ {ℓ} {V : Type ℓ} where
  -- `m[k] = v` where the key may be there, and `delete(m, k)`.
  unfoldable pub put : Bytes → V → List (Bytes × V) → List (Bytes × V)
  put k v [] = (k, v) ∷ []
  put k v ((j, w) ∷ m) = let rest = put k v m in if bytes_eq j k then (k, v) ∷ m else (j, w) ∷ rest

  unfoldable pub remove : Bytes → List (Bytes × V) → List (Bytes × V)
  remove k [] = []
  remove k ((j, w) ∷ m) = let rest = remove k m in if bytes_eq j k then rest else (j, w) ∷ rest

  pub lookup-put :
      (k asked : Bytes) (v : V) (m : List (Bytes × V))
      → lookup asked (put k v m) ≡ (if bytes_eq k asked then some v else lookup asked m)
  unfolding lookup put
  lookup-put k asked v [] = refl
  lookup-put k asked v ((j, w) ∷ m) = ground (
    arith,
    lookup-put k asked v m,
    bytes_eq→eq j k,
    bytes_eq→eq k asked,
    bytes_eq→eq j asked,
    bytes_eq_refl k,
  )

  pub lookup-remove :
      (k asked : Bytes) (m : List (Bytes × V))
      → lookup asked (remove k m) ≡ (if bytes_eq k asked then none else lookup asked m)
  unfolding lookup remove
  lookup-remove k asked [] = ground arith
  lookup-remove k asked ((j, w) ∷ m) = ground (
    arith,
    lookup-remove k asked m,
    bytes_eq→eq j k,
    bytes_eq→eq k asked,
    bytes_eq→eq j asked,
    bytes_eq_refl k,
  )
