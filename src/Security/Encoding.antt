-- ===== src/Security/Encoding.antt =====
-- What infrastructure/peer/security/revocation.go uses of encoding/hex, math/big and time.
use Prim.Native.String.{String}
use pluginprotocol.Errors.{GoError, foreign}
use pluginprotocol.Prelude.{
  ℕ, zero, suc, ◌+◌, ◌-◌, ◌*◌, ◌/◌, ◌%◌, ◌<◌, ◌≤◌, ◌≡◌, ◌∙◌, refl, sym, ap, All, length, inl, inr,
  Bool-cases, ltb→lt, ltb-false→le, Bool, true, false, ◌&&◌, Option, none, some, [], ◌∷◌, ltb, leb,
  ◌==◌, if◌then◌else◌, Bytes, codes, ℤ, pos, negsuc, arith,
}

-- `errors.New` of a text that nothing compares.
abbrev pub security_error : String → GoError
security_error text = foreign (codes text)

-- hex.EncodeToString
unfoldable pub hex_digit : ℕ → ℕ
hex_digit n = if ltb n 10 then 48 + n else 87 + n

unfoldable pub hex_encode : Bytes → Bytes
unfolding hex_digit
hex_encode [] = []
hex_encode (b ∷ bs) = hex_digit (b / 16) ∷ hex_digit (b % 16) ∷ hex_encode bs

-- hex.DecodeString takes digits of either case.
unfoldable pub hex_value : ℕ → Option ℕ
hex_value c =
    if leb 48 c && leb c 57
    then some (c - 48)
    else if leb 97 c && leb c 102
    then some (c - 87)
    else if leb 65 c && leb c 70
    then some (c - 55)
    else none

abbrev hex_byte : Option ℕ → Option ℕ → Option ℕ
hex_byte (some high) (some low) = some (high * 16 + low)
hex_byte (some high) none = none
hex_byte none low = none

abbrev hex_cons : Option ℕ → Option Bytes → Option Bytes
hex_cons (some b) (some bs) = some (b ∷ bs)
hex_cons (some b) none = none
hex_cons none bs = none

unfoldable pub hex_decode : Bytes → Option Bytes
unfolding hex_value
hex_decode [] = some []
hex_decode (c ∷ []) = none
hex_decode (c ∷ d ∷ rest) = hex_cons (hex_byte (hex_value c) (hex_value d)) (hex_decode rest)

-- big.Int's String: the decimal digits, a number having no more of them than its value plus one.
unfoldable pub decimal_from : ℕ → ℕ → Bytes → Bytes
decimal_from zero n digits = digits
decimal_from (suc rounds) n digits =
    let rest = decimal_from rounds (n / 10) ((48 + n % 10) ∷ digits) in
    if ltb n 10 then (48 + n) ∷ digits else rest

unfoldable pub decimal : ℤ → Bytes
unfolding decimal_from
decimal (pos n) = decimal_from (suc n) n []
decimal (negsuc n) = 45 ∷ decimal_from (suc (suc n)) (suc n) []

-- big.Int's SetString in base 10: an optional sign and one digit at least.
unfoldable pub digits_value : ℕ → Bytes → Option ℕ
digits_value acc [] = some acc
digits_value acc (c ∷ cs) =
    let rest = digits_value (acc * 10 + (c - 48)) cs in if leb 48 c && leb c 57 then rest else none

unfoldable pub unsigned : Bytes → Option ℕ
unfolding digits_value
unsigned [] = none
unsigned (c ∷ cs) = digits_value 0 (c ∷ cs)

abbrev positive : Option ℕ → Option ℤ
positive none = none
positive (some n) = some (pos n)

abbrev negative : Option ℕ → Option ℤ
negative none = none
negative (some zero) = some (pos 0)
negative (some (suc n)) = some (negsuc n)

unfoldable pub parse_number : Bytes → Option ℤ
unfolding unsigned
parse_number [] = none
parse_number (c ∷ cs) =
    if c == 45
    then negative (unsigned cs)
    else if c == 43
    then positive (unsigned cs)
    else positive (unsigned (c ∷ cs))

-- `Sign() < 0`
abbrev pub is_negative : ℤ → Bool
is_negative (pos n) = false
is_negative (negsuc n) = true

-- `a.Cmp(b) < 0` and `a.Cmp(b) == 0`
abbrev pub is_below : ℤ → ℤ → Bool
is_below (pos a) (pos b) = ltb a b
is_below (pos a) (negsuc b) = false
is_below (negsuc a) (pos b) = true
is_below (negsuc a) (negsuc b) = ltb b a

abbrev pub is_same : ℤ → ℤ → Bool
is_same (pos a) (pos b) = a == b
is_same (pos a) (negsuc b) = false
is_same (negsuc a) (pos b) = false
is_same (negsuc a) (negsuc b) = a == b

digits_value-decimal_from :
    (rounds n : ℕ) (digits : Bytes)
    → n < rounds
    → digits_value 0 (decimal_from rounds n digits) ≡ digits_value n digits
unfolding digits_value decimal_from
digits_value-decimal_from zero n digits h = absurd (omega arith)
digits_value-decimal_from (suc rounds) n digits h =
    ground (arith, digits_value-decimal_from rounds (n / 10) ((48 + n % 10) ∷ digits))

unsigned_first :
    (c : ℕ) (cs : Bytes) (n : ℕ)
    → 48 ≤ c
    → c ≤ 57
    → decimal_from (suc n) n [] ≡ c ∷ cs
    → digits_value 0 (c ∷ cs) ≡ some n
    → parse_number (decimal_from (suc n) n []) ≡ some (pos n)
unfolding parse_number
unsigned_first c cs n low high e value =
    let not_minus : (c == 45) ≡ false = ground arith in
    let not_plus : (c == 43) ≡ false = ground arith in
    rw (e, not_minus, not_plus, parse_number) (ap positive value)

decimal_from-head :
    (rounds n : ℕ) (digits : Bytes)
    → n < rounds
    → (c : ℕ) × (cs : Bytes) × (decimal_from rounds n digits ≡ c ∷ cs) × (48 ≤ c) × (c ≤ 57)
unfolding decimal_from
decimal_from-head zero n digits h = absurd (omega arith)
decimal_from-head (suc rounds) n digits h = elim (Bool-cases (ltb n 10)) [
  | inl small ↦ (48 + n, digits, rw small, omega arith, omega (arith, ltb→lt n 10 small))
  | inr large ↦ rw large (
      decimal_from-head rounds (n / 10) ((48 + n % 10) ∷ digits)
        (omega (arith, ltb-false→le n 10 large)))
]

parse_number-decimal_pos : (n : ℕ) → parse_number (decimal_from (suc n) n []) ≡ some (pos n)
unfolding parse_number decimal
parse_number-decimal_pos n =
    let (c, cs, e, low, high) = decimal_from-head (suc n) n [] (omega arith) in
    let value = digits_value-decimal_from (suc n) n [] (omega arith) in
    unsigned_first c cs n low high e (sym (ap (digits_value 0) e) ∙ value)

unsigned_text :
    (n : ℕ) (c : ℕ) (cs : Bytes)
    → decimal_from (suc n) n [] ≡ c ∷ cs
    → unsigned (decimal_from (suc n) n []) ≡ some n
unfolding unsigned
unsigned_text n c cs q =
    rw q (sym (ap (digits_value 0) q) ∙ digits_value-decimal_from (suc n) n [] (omega arith))

-- A number that big.Int prints is read back.
pub parse_number-decimal : (z : ℤ) → parse_number (decimal z) ≡ some z
unfolding parse_number decimal
parse_number-decimal (pos n) = parse_number-decimal_pos n
parse_number-decimal (negsuc n) =
    let (c, cs, q, _, _) = decimal_from-head (suc (suc n)) (suc n) [] (omega arith) in
    ap negative (unsigned_text (suc n) c cs q)

hex_value-hex_digit : (n : ℕ) → n < 16 → hex_value (hex_digit n) ≡ some n
unfolding hex_value hex_digit
hex_value-hex_digit n h = ground arith

pub length-hex_encode : (bs : Bytes) → length (hex_encode bs) ≡ 2 * length bs
unfolding hex_encode
length-hex_encode [] = refl
length-hex_encode (b ∷ bs) = omega (arith, length-hex_encode bs)

-- Bytes that encoding/hex encodes are decoded to themselves.
pub hex_decode-hex_encode :
    (bs : Bytes) → All (λ b. b < 256) bs → hex_decode (hex_encode bs) ≡ some bs
unfolding hex_decode hex_encode
hex_decode-hex_encode [] h = refl
hex_decode-hex_encode (b ∷ bs) h =
    let whole : b / 16 * 16 + b % 16 ≡ b = omega arith in
    rw (
      hex_value-hex_digit (b / 16) (omega (arith, h.0)),
      hex_value-hex_digit (b % 16) (omega arith),
      hex_decode-hex_encode bs h.1,
      whole,
    )
