-- ===== src/Decimal/Laws.antt =====
-- Numerals read back as the number that was printed.
use stream_relay.Prelude.{
  ℕ, zero, suc, ◌+◌, ◌*◌, ◌/◌, ◌%◌, ◌≤◌, ◌<◌, ◌≡◌, ◌≢◌, refl, ap, ◌∙◌, some, [], ◌∷◌, Bytes, ltb,
  arith, Bool-cases, inl, inr,
}
use stream_relay.Decimal.{
  ℤ, pos, negsuc, int64_bound, int64_of, digits_from, format_nat, format_int, digits_value,
  parse_nat, positive, negative, parse_int,
}

-- Every byte is a decimal digit.
abbrev pub Digits : Bytes → Type 0
Digits [] = Unit
Digits (c ∷ cs) = (48 ≤ c) × (c ≤ 57) × Digits cs

digits_value_step :
    (n : ℕ) (behind : Bytes) (v : ℕ)
    → digits_value v ((48 + n % 10) ∷ behind) ≡ digits_value (v * 10 + n % 10) behind
unfolding digits_value
digits_value_step n behind v = ground arith

digits_value-digits_from :
    (fuel n : ℕ) (behind : Bytes)
    → n < fuel
    → digits_value 0 (digits_from fuel n behind) ≡ digits_value n behind
unfolding digits_from
digits_value-digits_from zero n behind h = absurd (omega arith)
digits_value-digits_from (suc fuel) n behind h = elim (Bool-cases (ltb n 10)) [
  | inl small ↦ let e : n % 10 ≡ n = ground arith in ground (arith, digits_value_step n behind 0, e)
  | inr large ↦
      let ih = digits_value-digits_from fuel (n / 10) ((48 + n % 10) ∷ behind) (ground arith) in
      let e : n / 10 * 10 + n % 10 ≡ n = omega arith in
      let s = digits_value_step n behind (n / 10) in ground (arith, ih, e, s)
]

pub digits_from-Digits :
    (fuel n : ℕ) (behind : Bytes) → Digits behind → Digits (digits_from fuel n behind)
unfolding digits_from
digits_from-Digits zero n behind h = h
digits_from-Digits (suc fuel) n behind h =
    let here : Digits ((48 + n % 10) ∷ behind) = (omega arith, omega arith, h) in
    elim (Bool-cases (ltb n 10)) [
      | inl small ↦ rw small here
      | inr large ↦ rw large (digits_from-Digits fuel (n / 10) ((48 + n % 10) ∷ behind) here)
    ]

digits_from_nonempty : (fuel n : ℕ) (c : ℕ) (behind : Bytes) → digits_from fuel n (c ∷ behind) ≢ []
unfolding digits_from
digits_from_nonempty zero n c behind = λ e. cc
digits_from_nonempty (suc fuel) n c behind = elim (Bool-cases (ltb n 10)) [
  | inl small ↦ rw small (λ e. cc)
  | inr large ↦ rw large (digits_from_nonempty fuel (n / 10) (48 + n % 10) (c ∷ behind))
]

pub format_nat-Digits : (n : ℕ) → Digits (format_nat n)
unfolding format_nat
format_nat-Digits n = digits_from-Digits (suc n) n [] tt

pub format_nat_nonempty : (n : ℕ) → format_nat n ≢ []
unfolding format_nat digits_from
format_nat_nonempty n = elim (Bool-cases (ltb n 10)) [
  | inl small ↦ rw small (λ e. cc)
  | inr large ↦ rw large (digits_from_nonempty n (n / 10) (48 + n % 10) [])
]

pub digits_value-format_nat : (n : ℕ) → digits_value 0 (format_nat n) ≡ some n
unfolding format_nat digits_value
digits_value-format_nat n = digits_value-digits_from (suc n) n [] (omega arith)

parse_nat_of_nonempty : (cs : Bytes) → cs ≢ [] → parse_nat cs ≡ digits_value 0 cs
unfolding parse_nat
parse_nat_of_nonempty [] h = absurd (h refl)
parse_nat_of_nonempty (c ∷ cs) h = refl

pub parse_nat-format_nat : (n : ℕ) → parse_nat (format_nat n) ≡ some n
parse_nat-format_nat n =
    parse_nat_of_nonempty (format_nat n) (format_nat_nonempty n) ∙ digits_value-format_nat n

parse_int_of_Digits : (cs : Bytes) → Digits cs → cs ≢ [] → parse_int cs ≡ positive (parse_nat cs)
unfolding parse_int
parse_int_of_Digits [] d h = absurd (h refl)
parse_int_of_Digits (c ∷ cs) d h = let low = d.0 in ground arith

-- A value that int64 holds.
abbrev pub InInt64 : ℤ → Type 0
InInt64 (pos n) = n < int64_bound
InInt64 (negsuc n) = n < int64_bound

-- `ParseInt` reads what `FormatInt` prints as the number that was printed.
pub parse_int-format_int : (z : ℤ) → InInt64 z → parse_int (format_int z) ≡ some z
unfolding format_int parse_int positive negative
parse_int-format_int (pos n) h =
    parse_int_of_Digits (format_nat n) (format_nat-Digits n) (format_nat_nonempty n)
    ∙ ap positive (parse_nat-format_nat n)
    ∙ ground arith
parse_int-format_int (negsuc n) h = ap negative (parse_nat-format_nat (suc n)) ∙ ground arith

pub int64_of-InInt64 : (n : ℕ) → n < 2 * int64_bound → InInt64 (int64_of n)
unfolding int64_of
int64_of-InInt64 n h = ground arith
