-- ===== src/Codec/BigEndian.antt =====
-- encoding/binary's BigEndian, as infrastructure/peer/codec/frame.go uses it for the header.
use native.Mathlib.Nat.{
  pow-suc, mod-lt, mod-eq_of_lt, div-add-mod, mul-add-mod_self_right, mul-add-div_right,
  div-eq_of_lt,
}
use mathlib.Core.Path.{ap₂}
use pluginprotocol.Prelude.{
  ℕ, zero, suc, ◌+◌, ◌*◌, ◌/◌, ◌%◌, ◌^◌, ◌<◌, ◌≤◌, ◌≡◌, refl, ap, ◌∙◌, [], ◌∷◌, length, All, Bytes,
  arith,
}

abbrev pub IsByte : ℕ → Type 0
IsByte b = b < 256

-- The `k` low bytes of `v`, highest first.
unfoldable pub put_be : ℕ → ℕ → Bytes
put_be zero v = []
put_be (suc k) v = v / 256 ^ k % 256 ∷ put_be k v

unfoldable pub be_from : ℕ → Bytes → ℕ
be_from acc [] = acc
be_from acc (b ∷ bs) = be_from (acc * 256 + b) bs

abbrev pub be : Bytes → ℕ
be bs = be_from 0 bs

pub length-put_be : (k v : ℕ) → length (put_be k v) ≡ k
unfolding put_be
length-put_be zero v = refl
length-put_be (suc k) v = omega (arith, length-put_be k v)

pub put_be-IsByte : (k v : ℕ) → All IsByte (put_be k v)
unfolding put_be
put_be-IsByte zero v = tt
put_be-IsByte (suc k) v = (omega arith, put_be-IsByte k v)

pow_pos : (k : ℕ) → 0 < 256 ^ k
pow_pos zero = omega arith
pow_pos (suc k) = rw pow-suc (omega (arith, pow_pos k))

-- A number modulo 256 * p, as its digit at p and the rest below.
split_mod : (v p : ℕ) → 0 < p → v % (p * 256) ≡ v / p % 256 * p + v % p
split_mod v p h =
    let q = v / p in
    let w = q % 256 * p + v % p in
    let small : w < p * 256 = grind (arith, mod-lt v h, mod-lt q {m = 256}) in
    let whole : v ≡ q / 256 * (p * 256) + w =
      omega (arith, div-add-mod v p, ap (λ (t : ℕ). p * t) (div-add-mod q 256)) in
    ap (λ (t : ℕ). t % (p * 256)) whole
    ∙ mul-add-mod_self_right (q / 256) (p * 256) w
    ∙ mod-eq_of_lt small

pub be_from-put_be : (k v acc : ℕ) → be_from acc (put_be k v) ≡ acc * 256 ^ k + v % 256 ^ k
unfolding put_be be_from
be_from-put_be zero v acc = omega arith
be_from-put_be (suc k) v acc =
    be_from-put_be k v (acc * 256 + v / 256 ^ k % 256)
    ∙ rw pow-suc (omega (arith, split_mod v (256 ^ k) (pow_pos k)))

-- A number of `k` bytes is read back.
pub be-put_be : (k v : ℕ) → v < 256 ^ k → be (put_be k v) ≡ v
be-put_be k v h = omega (arith, be_from-put_be k v 0, mod-eq_of_lt h)

be_from-split : (bs : Bytes) (acc : ℕ) → be_from acc bs ≡ acc * 256 ^ length bs + be bs
unfolding be_from
be_from-split [] acc = omega arith
be_from-split (b ∷ bs) acc =
    rw pow-suc (omega (arith, be_from-split bs (acc * 256 + b), be_from-split bs (0 * 256 + b)))

pub be-lt : (bs : Bytes) → All IsByte bs → be bs < 256 ^ length bs
unfolding be_from
be-lt [] h = omega arith
be-lt (b ∷ bs) h =
    let top : b * 256 ^ length bs ≤ 255 * 256 ^ length bs = grind (arith, h.0) in
    rw pow-suc (omega (arith, top, be_from-split bs (0 * 256 + b), be-lt bs h.1))

digit_at : (a b p w : ℕ) → b < 256 → w < p → ((a * 256 + b) * p + w) / p % 256 ≡ b
digit_at a b p w hb hw =
    let top : ((a * 256 + b) * p + w) / p ≡ a * 256 + b =
      mul-add-div_right (omega arith) (a * 256 + b) w ∙ omega (arith, div-eq_of_lt hw) in
    rw top (omega arith)

-- The bytes that were read are those that the number is written with.
pub put_be-be_from :
    (bs : Bytes) (acc : ℕ) → All IsByte bs → put_be (length bs) (be_from acc bs) ≡ bs
unfolding put_be be_from
put_be-be_from [] acc h = refl
put_be-be_from (b ∷ bs) acc h =
    ap₂ ◌∷◌
      (rw (be_from-split bs (acc * 256 + b))
        (digit_at acc b (256 ^ length bs) (be bs) h.0 (be-lt bs h.1)))
      (put_be-be_from bs (acc * 256 + b) h.1)
