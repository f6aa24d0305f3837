-- ===== src/Prelude/Strings.antt =====
-- Go's sort.Strings, and sort.Slice by a string key, as insertion sorts.
use mathlib.Core.Path.{◌≡◌, refl, ap, ◌∙◌}
use mathlib.Core.Logic.{inl, inr}
use mathlib.Core.Bool.{Bool, true, false, ◌||◌}
use mathlib.Core.List.{List, [], ◌∷◌, ◌++◌}
use native.Mathlib.Omega.{arith}
use pluginprotocol.Prelude.Table.{contains}
use pluginprotocol.Prelude.Tests.{if◌then◌else◌, Bool-cases}
use pluginprotocol.Prelude.Text.{
  Bytes, bytes_eq, bytes_lt, bytes_eq_swap, bytes_lt_total, bytes_eq→eq,
}

-- A loop over strings that appends each one that is not there yet, as a Go map used as a set.
unfoldable pub collect : List Bytes → List Bytes → List Bytes
collect [] strings = strings
collect (k ∷ ks) strings = collect ks (if contains k strings then strings else strings ++ k ∷ [])

unfoldable pub insert_sorted : Bytes → List Bytes → List Bytes
insert_sorted k [] = k ∷ []
insert_sorted k (x ∷ xs) = if bytes_lt k x then k ∷ x ∷ xs else x ∷ insert_sorted k xs

unfoldable pub sort_strings : List Bytes → List Bytes
unfolding insert_sorted
sort_strings [] = []
sort_strings (k ∷ ks) = insert_sorted k (sort_strings ks)

module _ {ℓ} {A : Type ℓ} (key : A → Bytes) where
  unfoldable pub insert_by : A → List A → List A
  insert_by a [] = a ∷ []
  insert_by a (x ∷ xs) =
      let rest = insert_by a xs in if bytes_lt (key a) (key x) then a ∷ x ∷ xs else x ∷ rest

  unfoldable pub sort_by : List A → List A
  unfolding insert_by
  sort_by [] = []
  sort_by (a ∷ rest) = insert_by a (sort_by rest)

-- Every string is below the next.
abbrev pub Ascends : List Bytes → Type 0
Ascends [] = Unit {0}
Ascends (x ∷ []) = Unit {0}
Ascends (x ∷ y ∷ zs) = (bytes_lt x y ≡ true) × Ascends (y ∷ zs)

-- No string occurs twice.
abbrev pub Distinct : List Bytes → Type 0
Distinct [] = Unit {0}
Distinct (x ∷ xs) = (contains x xs ≡ false) × Distinct xs

pub contains-insert_sorted :
    (k x : Bytes) (xs : List Bytes)
    → contains k (insert_sorted x xs) ≡ (bytes_eq x k || contains k xs)
unfolding insert_sorted contains
contains-insert_sorted k x [] = refl
contains-insert_sorted k x (y ∷ xs) = ground (arith, contains-insert_sorted k x xs)

pub contains-sort_strings :
    (k : Bytes) (xs : List Bytes) → contains k (sort_strings xs) ≡ contains k xs
unfolding sort_strings contains
contains-sort_strings k [] = refl
contains-sort_strings k (x ∷ xs) =
    contains-insert_sorted k x (sort_strings xs)
    ∙ ap (λ (b : Bool). bytes_eq x k || b) (contains-sort_strings k xs)

pub Ascends-insert_sorted :
    (x : Bytes) (xs : List Bytes)
    → contains x xs ≡ false
    → Ascends xs
    → Ascends (insert_sorted x xs)
unfolding insert_sorted contains
Ascends-insert_sorted x [] h a = tt
Ascends-insert_sorted x (y ∷ []) h a = ground (arith, bytes_lt_total x y, bytes_eq_swap x y)
Ascends-insert_sorted x (y ∷ z ∷ zs) h a =
    ground (arith, bytes_lt_total x y, bytes_eq_swap x y, Ascends-insert_sorted x (z ∷ zs))

pub Ascends-sort_strings : (xs : List Bytes) → Distinct xs → Ascends (sort_strings xs)
unfolding sort_strings
Ascends-sort_strings [] d = tt
Ascends-sort_strings (x ∷ xs) d =
    Ascends-insert_sorted x (sort_strings xs) (contains-sort_strings x xs ∙ d.0)
      (Ascends-sort_strings xs d.1)

contains-append :
    (k x : Bytes) (xs : List Bytes) → contains k (xs ++ x ∷ []) ≡ (contains k xs || bytes_eq x k)
unfolding contains
contains-append k x [] = ground arith
contains-append k x (y ∷ xs) = ground (arith, contains-append k x xs)

pub contains-collect :
    (k : Bytes) (ks xs : List Bytes) → contains k (collect ks xs) ≡ (contains k ks || contains k xs)
unfolding collect contains
contains-collect k [] xs = refl
contains-collect k (x ∷ ks) xs = ground (
  arith,
  contains-collect k ks xs,
  contains-collect k ks (xs ++ x ∷ []),
  contains-append k x xs,
  bytes_eq→eq x k,
)

Distinct-append :
    (x : Bytes) (xs : List Bytes) → contains x xs ≡ false → Distinct xs → Distinct (xs ++ x ∷ [])
unfolding contains
Distinct-append x [] h d = (refl, tt)
Distinct-append x (y ∷ xs) h d = (
  ground (arith, contains-append y x xs, bytes_eq_swap x y),
  Distinct-append x xs (ground arith) d.1,
)

pub Distinct-collect : (ks xs : List Bytes) → Distinct xs → Distinct (collect ks xs)
unfolding collect
Distinct-collect [] xs d = d
Distinct-collect (k ∷ ks) xs d = elim (Bool-cases (contains k xs)) [
  | inl seen ↦ rw seen (Distinct-collect ks xs d)
  | inr fresh ↦ rw fresh (Distinct-collect ks (xs ++ k ∷ []) (Distinct-append k xs fresh d))
]
