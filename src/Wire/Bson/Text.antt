-- ===== src/Wire/Bson/Text.antt =====
-- The texts that wire/bson.go writes and reads through encoding/hex and strconv.
use mlstore_db.Prelude.{
  ℕ, zero, suc, ◌+◌, ◌-◌, ◌*◌, ◌/◌, ◌%◌, ◌≤◌, ◌<◌, ◌≡◌, refl, Bool, false, ◌&&◌, ◌||◌, Option, none,
  some, [], ◌∷◌, arith, if◌then◌else◌, ltb, leb, ◌==◌, length, Bool-cases, ltb→lt, inl, inr,
}
use mlstore_db.Prelude.Bytes.{Bytes}
use mlstore_db.Prelude.Options.{◌>>=◌}

abbrev hex_digit : ℕ → ℕ
hex_digit n = if ltb n 10 then 48 + n else 87 + n

-- hex.EncodeToString
unfoldable pub hex_encode : Bytes → Bytes
hex_encode [] = []
hex_encode (b ∷ s) = hex_digit (b / 16) ∷ hex_digit (b % 16) ∷ hex_encode s

abbrev hex_value : ℕ → Option ℕ
hex_value c =
    if leb 48 c && leb c 57
    then some (c - 48)
    else if leb 97 c && leb c 102
    then some (c - 87)
    else if leb 65 c && leb c 70
    then some (c - 55)
    else none

-- hex.DecodeString
unfoldable pub hex_decode : Bytes → Option Bytes
hex_decode [] = some []
hex_decode (c ∷ []) = none
hex_decode (c ∷ d ∷ s) =
    hex_value c >>= λ h. hex_value d >>= λ l. hex_decode s >>= λ r. some ((16 * h + l) ∷ r)

abbrev pub AllBytes : Bytes → Type 0
AllBytes [] = Unit {0}
AllBytes (b ∷ s) = (b < 256) × AllBytes s

hex_value-digit : (n : ℕ) → n < 16 → hex_value (hex_digit n) ≡ some n
hex_value-digit n h = ground arith

pub hex_decode-encode : (s : Bytes) → AllBytes s → hex_decode (hex_encode s) ≡ some s
unfolding hex_decode hex_encode
hex_decode-encode [] h = refl
hex_decode-encode (b ∷ s) h =
    rw
      (
        hex_value-digit (b / 16) (omega (arith, h.0)),
        hex_value-digit (b % 16) (omega (arith, h.0)),
        hex_decode-encode s h.1,
      )
      (ground arith)

pub length-hex_encode : (s : Bytes) → length (hex_encode s) ≡ 2 * length s
unfolding hex_encode
length-hex_encode [] = omega arith
length-hex_encode (b ∷ s) = omega (arith, length-hex_encode s)

-- The digits of a number in front of a text, on fuel: 20 of them hold every 64-bit number.
unfoldable pub digits : ℕ → ℕ → Bytes → Bytes
digits zero n s = s
digits (suc f) n s =
    let rest = digits f (n / 10) ((48 + n % 10) ∷ s) in if ltb n 10 then (48 + n % 10) ∷ s else rest

-- strconv.FormatInt in base 10, at the bit pattern of an int64
unfoldable pub format_int : ℕ → Bytes
format_int v =
    if ltb v 9223372036854775808
    then digits 20 v []
    else 45 ∷ digits 20 (18446744073709551616 - v) []

-- strconv.Itoa of an index
unfoldable pub itoa : ℕ → Bytes
itoa n = digits 20 n []

parse_digits : Bytes → ℕ → Option ℕ
parse_digits [] n = some n
parse_digits (c ∷ s) n = if leb 48 c && leb c 57 then parse_digits s (n * 10 + (c - 48)) else none

-- strconv.ParseUint of at least one digit; a value that is out of range is refused by its callers.
parse_uint : Bytes → Option ℕ
unfolding parse_digits
parse_uint [] = none
parse_uint (c ∷ s) = parse_digits (c ∷ s) 0

abbrev int_of : ℕ → Option ℕ
int_of n = if ltb n 9223372036854775808 then some n else none

abbrev negative_of : ℕ → Option ℕ
negative_of n =
    if n == 0
    then some 0
    else if leb n 9223372036854775808
    then some (18446744073709551616 - n)
    else none

-- strconv.ParseInt in base 10 and 64 bits
unfoldable pub parse_int : Bytes → Option ℕ
unfolding parse_uint
parse_int [] = none
parse_int (c ∷ s) =
    if c == 45
    then parse_uint s >>= negative_of
    else if c == 43
    then parse_uint s >>= int_of
    else parse_uint (c ∷ s) >>= int_of

-- Numbers of at most so many digits.
abbrev FitsDigits : ℕ → ℕ → Type 0
FitsDigits zero n = n < 1
FitsDigits (suc f) n = FitsDigits f (n / 10)

parse_digits-digits :
    (f n : ℕ) (s : Bytes) → FitsDigits f n → parse_digits (digits f n s) 0 ≡ parse_digits s n
unfolding digits parse_digits
parse_digits-digits zero n s h = let e : n ≡ 0 = omega arith in rw e refl
parse_digits-digits (suc f) n s h = elim (Bool-cases (ltb n 10)) [
  | inl small ↦ rw small (ground arith)
  | inr big ↦ rw (big, parse_digits-digits f (n / 10) ((48 + n % 10) ∷ s) h) (ground arith)
]

abbrev StartsDigit : Bytes → Type 0
StartsDigit [] = ⊥
StartsDigit (c ∷ s) = (48 ≤ c) × (c ≤ 57)

digits-StartsDigit : (f n : ℕ) (s : Bytes) → StartsDigit s → StartsDigit (digits f n s)
unfolding digits
digits-StartsDigit zero n s h = h
digits-StartsDigit (suc f) n s h = elim (Bool-cases (ltb n 10)) [
  | inl small ↦ rw small (omega arith, omega arith)
  | inr big ↦ rw big (digits-StartsDigit f (n / 10) ((48 + n % 10) ∷ s) (omega arith, omega arith))
]

digits_start : (f n : ℕ) → StartsDigit (digits (suc f) n [])
unfolding digits
digits_start f n = elim (Bool-cases (ltb n 10)) [
  | inl small ↦ rw small (omega arith, omega arith)
  | inr big ↦ rw big (digits-StartsDigit f (n / 10) ((48 + n % 10) ∷ []) (omega arith, omega arith))
]

parse_uint_lem : (s : Bytes) → StartsDigit s → parse_uint s ≡ parse_digits s 0
unfolding parse_uint
parse_uint_lem [] h = elim h [ ]
parse_uint_lem (c ∷ s) h = refl

parse_int_positive : (s : Bytes) → StartsDigit s → parse_int s ≡ (parse_digits s 0 >>= int_of)
unfolding parse_int
parse_int_positive [] h = elim h [ ]
parse_int_positive (c ∷ s) h =
    let e : (c == 45) ≡ false = ground (arith, h.0) in
    let e' : (c == 43) ≡ false = ground (arith, h.0) in rw (e, e') refl

parse_int_negative : (s : Bytes) → parse_int (45 ∷ s) ≡ (parse_uint s >>= negative_of)
unfolding parse_int
parse_int_negative s = refl

parse_digits_nil : (n : ℕ) → parse_digits [] n ≡ some n
unfolding parse_digits
parse_digits_nil n = refl

pub parse_int-format_int : (v : ℕ) → v < 18446744073709551616 → parse_int (format_int v) ≡ some v
unfolding format_int
parse_int-format_int v h = elim (Bool-cases (ltb v 9223372036854775808)) [
  | inl small ↦
      rw
        (
          small,
          parse_int_positive (digits 20 v []) (digits_start 19 v),
          parse_digits-digits 20 v [] (omega (arith, ltb→lt v 9223372036854775808 small)),
          parse_digits_nil v,
          small,
        )
        refl
  | inr big ↦
      let w = 18446744073709551616 - v in
      rw
        (
          big,
          parse_int_negative (digits 20 w []),
          parse_uint_lem (digits 20 w []) (digits_start 19 w),
          parse_digits-digits 20 w [] (omega arith),
          parse_digits_nil w,
        )
        (ground arith)
]

-- strings.ContainsRune(key, 0)
unfoldable pub contains_nul : Bytes → Bool
contains_nul [] = false
contains_nul (c ∷ s) = c == 0 || contains_nul s

contains_nul-digits :
    (f n : ℕ) (s : Bytes) → contains_nul s ≡ false → contains_nul (digits f n s) ≡ false
unfolding digits contains_nul
contains_nul-digits zero n s h = h
contains_nul-digits (suc f) n s h =
    ground (arith, contains_nul-digits f (n / 10) ((48 + n % 10) ∷ s))

pub contains_nul-itoa : (n : ℕ) → contains_nul (itoa n) ≡ false
unfolding itoa contains_nul
contains_nul-itoa n = contains_nul-digits 20 n [] refl
