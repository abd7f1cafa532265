-- ===== src/Decimal.antt =====
-- What the code uses of strconv and fmt: decimal numerals of int64 values.
pub mod Laws
use stream_relay.Prelude.{
  ℕ, zero, suc, ◌+◌, ◌-◌, ◌*◌, ◌/◌, ◌%◌, Bool, true, false, ◌&&◌, Option, none, some, List, [], ◌∷◌,
  Bytes, codes, ltb, leb, ◌==◌, if◌then◌else◌,
}

-- Integers over the native numbers.
pub data ℤ : Type 0 where
  pos : ℕ → ℤ
  negsuc : ℕ → ℤ

-- 2 ^ 63
abbrev pub int64_bound : ℕ
int64_bound = 9223372036854775808

-- The value of 64 bits in two's complement.
unfoldable pub int64_of : ℕ → ℤ
int64_of n = if ltb n int64_bound then pos n else negsuc (2 * int64_bound - 1 - n)

-- The digits of a number in front of `behind`; `fuel` rounds are enough for a number below it.
unfoldable pub digits_from : ℕ → ℕ → Bytes → Bytes
digits_from zero n behind = behind
digits_from (suc fuel) n behind =
    let rest = digits_from fuel (n / 10) ((48 + n % 10) ∷ behind) in
    if ltb n 10 then (48 + n % 10) ∷ behind else rest

unfoldable pub format_nat : ℕ → Bytes
format_nat n = digits_from (suc n) n []

-- `strconv.FormatInt(n, 10)`, and the verb `%d`.
unfoldable pub format_int : ℤ → Bytes
format_int (pos n) = format_nat n
format_int (negsuc n) = 45 ∷ format_nat (suc n)

abbrev pub is_digit : ℕ → Bool
is_digit c = leb 48 c && leb c 57

-- The value of a numeral that goes on from the value `acc`.
unfoldable pub digits_value : ℕ → Bytes → Option ℕ
digits_value acc [] = some acc
digits_value acc (c ∷ cs) =
    let rest = digits_value (acc * 10 + (c - 48)) cs in if is_digit c then rest else none

unfoldable pub parse_nat : Bytes → Option ℕ
parse_nat [] = none
parse_nat (c ∷ cs) = digits_value 0 (c ∷ cs)

-- A value outside of the range of int64 is an error.
unfoldable pub positive : Option ℕ → Option ℤ
positive none = none
positive (some n) = if ltb n int64_bound then some (pos n) else none

unfoldable pub negative : Option ℕ → Option ℤ
negative none = none
negative (some zero) = some (pos 0)
negative (some (suc n)) = if ltb n int64_bound then some (negsuc n) else none

-- `strconv.ParseInt(s, 10, 64)`
unfoldable pub parse_int : Bytes → Option ℤ
parse_int [] = none
parse_int (c ∷ cs) =
    if c == 45
    then negative (parse_nat cs)
    else if c == 43
    then positive (parse_nat cs)
    else positive (parse_nat (c ∷ cs))
