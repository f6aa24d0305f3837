-- ===== src/Prelude/Order.antt =====
-- A strictly ascending list of strings is determined by its elements.
use mathlib.Core.Path.{◌≡◌, refl, ap₂}
use mathlib.Core.Bool.{false}
use mathlib.Core.List.{List, [], ◌∷◌}
use native.Mathlib.Omega.{arith}
use pluginprotocol.Prelude.Strings.{Ascends, Distinct}
use pluginprotocol.Prelude.Table.{contains}
use pluginprotocol.Prelude.Text.{
  Bytes, bytes_lt, bytes_eq_swap, bytes_eq_refl, bytes_eq→eq, bytes_lt_total, bytes_lt_irrefl,
  bytes_lt_trans,
}

-- What is not above the head of an ascending list is not in its tail.
below_tail :
    (k x : Bytes) (xs : List Bytes)
    → Ascends (x ∷ xs)
    → bytes_lt x k ≡ false
    → contains k xs ≡ false
unfolding contains
below_tail k x [] a h = refl
below_tail k x (y ∷ ys) a h =
    ground (arith, bytes_lt_trans x y k, below_tail k y ys a.1, bytes_eq→eq y k)

Ascends-tail : (x : Bytes) (xs : List Bytes) → Ascends (x ∷ xs) → Ascends xs
Ascends-tail x [] a = tt
Ascends-tail x (y ∷ ys) a = a.1

same_heads :
    (x y : Bytes) (xs ys : List Bytes)
    → Ascends (x ∷ xs)
    → Ascends (y ∷ ys)
    → ((k : Bytes) → contains k (x ∷ xs) ≡ contains k (y ∷ ys))
    → x ≡ y
unfolding contains
same_heads x y xs ys a b h = ground (
  arith,
  h x,
  h y,
  bytes_eq_refl x,
  bytes_eq_refl y,
  bytes_eq→eq x y,
  bytes_eq_swap x y,
  bytes_lt_total x y,
  below_tail y x xs a,
  below_tail x y ys b,
  bytes_lt_trans x y x,
  bytes_lt_irrefl x,
)

pub Ascends-ext :
    (xs ys : List Bytes)
    → Ascends xs
    → Ascends ys
    → ((k : Bytes) → contains k xs ≡ contains k ys)
    → xs ≡ ys
unfolding contains
Ascends-ext [] [] a b h = refl
Ascends-ext [] (y ∷ ys) a b h = absurd (ground (arith, h y, bytes_eq_refl y))
Ascends-ext (x ∷ xs) [] a b h = absurd (ground (arith, h x, bytes_eq_refl x))
Ascends-ext (x ∷ xs) (y ∷ ys) a b h =
    let head = same_heads x y xs ys a b h in
    ap₂ ◌∷◌ head (
      Ascends-ext xs ys (Ascends-tail x xs a) (Ascends-tail y ys b) (λ k. ground (
        arith,
        head,
        h k,
        below_tail x x xs a (bytes_lt_irrefl x),
        below_tail y y ys b (bytes_lt_irrefl y),
        bytes_eq→eq x k,
        bytes_eq→eq y k,
        bytes_eq_swap x y,
      )))

pub Ascends-Distinct : (xs : List Bytes) → Ascends xs → Distinct xs
Ascends-Distinct [] a = tt
Ascends-Distinct (x ∷ xs) a =
    (below_tail x x xs a (bytes_lt_irrefl x), Ascends-Distinct xs (Ascends-tail x xs a))
