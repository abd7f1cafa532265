-- ===== src/Memory/MessageIds/Order.antt =====
-- Message identifiers are read back as they were made, and compare by time and number.
use stream_relay.Prelude.{
  suc, ◌≡◌, ◌≢◌, refl, sym, ap, ◌∙◌, true, false, ◌||◌, some, [], ◌∷◌, ◌++◌, Bytes, ◌==◌,
  if◌then◌else◌, arith, append-nil, Option-cases, inl, inr,
}
use stream_relay.Decimal.{ℤ, pos, negsuc, is_digit, format_nat, format_int}
use stream_relay.Decimal.Laws.{
  Digits, InInt64, format_nat-Digits, format_nat_nonempty, parse_int-format_int,
}
use stream_relay.DirectRooms.Names.{string_lt_asym}
use stream_relay.Memory.MessageIds.{
  generate_message_id_from_time, is_space, skip_spaces, span_digits, scan_token, scan_int,
  scan_dash, parse_message_id, Ordering, less, equal, greater, int_lt, compare_parsed,
  compare_message_ids,
}

-- The text does not go on with a digit.
abbrev NoDigit : Bytes → Type 0
NoDigit [] = Unit
NoDigit (c ∷ cs) = is_digit c ≡ false

span_digits_nothing : (rest : Bytes) → NoDigit rest → span_digits rest ≡ ([], rest)
unfolding span_digits
span_digits_nothing [] h = refl
span_digits_nothing (c ∷ cs) h = rw h refl

span_digits-append :
    (ds rest : Bytes) → Digits ds → NoDigit rest → span_digits (ds ++ rest) ≡ (ds, rest)
unfolding span_digits
span_digits-append [] rest d h = span_digits_nothing rest h
span_digits-append (c ∷ cs) rest (low, high, d) h =
    let ih = span_digits-append cs rest d h in
    let e : is_digit c ≡ true = ground arith in rw (e, ih) refl

scan_token-Digits :
    (ds rest : Bytes)
    → Digits ds
    → ds ≢ []
    → NoDigit rest
    → (scan_token (ds ++ rest) ≡ (ds, rest)) × (skip_spaces (ds ++ rest) ≡ ds ++ rest)
unfolding scan_token skip_spaces
scan_token-Digits [] rest d h n = absurd (h refl)
scan_token-Digits (c ∷ cs) rest (low, high, d) h n =
    let whole = span_digits-append (c ∷ cs) rest (low, high, d) n in
    let e : (c == 45 || c == 43) ≡ false = ground arith in
    let f : is_space c ≡ false = ground arith in (rw e whole, rw f refl)

scan_token-format_int :
    (z : ℤ) (rest : Bytes)
    → NoDigit rest
    → (scan_token (format_int z ++ rest) ≡ (format_int z, rest))
      × (skip_spaces (format_int z ++ rest) ≡ format_int z ++ rest)
unfolding format_int scan_token skip_spaces
scan_token-format_int (pos n) rest h =
    scan_token-Digits (format_nat n) rest (format_nat-Digits n) (format_nat_nonempty n) h
scan_token-format_int (negsuc n) rest h =
    let e = span_digits-append (format_nat (suc n)) rest (format_nat-Digits (suc n)) h in
    (rw e refl, refl)

scan_int-format_int :
    (z : ℤ) (rest : Bytes)
    → InInt64 z
    → NoDigit rest
    → scan_int (format_int z ++ rest) ≡ some (z, rest)
unfolding scan_int
scan_int-format_int z rest h n =
    let (token, spaces) = scan_token-format_int z rest n in
    rw (spaces, token, parse_int-format_int z h) refl

-- `ParseMessageID` gives the time and the number that an identifier was made from.
pub parse_message_id-generate_message_id_from_time :
    (ts seq : ℤ)
    → InInt64 ts
    → InInt64 seq
    → parse_message_id (generate_message_id_from_time ts seq) ≡ some (ts, seq)
unfolding parse_message_id generate_message_id_from_time scan_dash
parse_message_id-generate_message_id_from_time ts seq h k =
    let first = scan_int-format_int ts (45 ∷ format_int seq) h refl in
    let second =
      ap scan_int (sym (append-nil (format_int seq))) ∙ scan_int-format_int seq [] k tt in
    rw (first, second) refl

-- Identifiers that were made compare by time, and by number where the times are the same.
pub compare_message_ids-generate_message_id_from_time :
    (ts_a seq_a ts_b seq_b : ℤ)
    → InInt64 ts_a
    → InInt64 seq_a
    → InInt64 ts_b
    → InInt64 seq_b
    → compare_message_ids
        (generate_message_id_from_time ts_a seq_a)
        (generate_message_id_from_time ts_b seq_b)
      ≡ (if int_lt ts_a ts_b
          then less
          else if int_lt ts_b ts_a
          then greater
          else if int_lt seq_a seq_b
          then less
          else if int_lt seq_b seq_a
          then greater
          else equal)
unfolding compare_message_ids compare_parsed
compare_message_ids-generate_message_id_from_time ts_a seq_a ts_b seq_b ha ka hb kb =
    rw
      (
        compare_message_ids,
        parse_message_id-generate_message_id_from_time ts_a seq_a ha ka,
        parse_message_id-generate_message_id_from_time ts_b seq_b hb kb,
      )
      refl

-- The other way round.
abbrev pub flipped : Ordering → Ordering
flipped less = greater
flipped equal = equal
flipped greater = less

int_lt_asym : (a b : ℤ) → int_lt a b ≡ true → int_lt b a ≡ false
int_lt_asym (pos m) (pos n) h = ground arith
int_lt_asym (pos m) (negsuc n) h = absurd cc
int_lt_asym (negsuc m) (pos n) h = refl
int_lt_asym (negsuc m) (negsuc n) h = ground arith

-- Comparing two identifiers the other way round gives the opposite, for any two texts.
pub compare_message_ids-flipped :
    (a b : Bytes) → compare_message_ids b a ≡ flipped (compare_message_ids a b)
unfolding compare_message_ids compare_parsed
compare_message_ids-flipped a b =
    let texts = string_lt_asym a b in
    elim (Option-cases (parse_message_id a)) [
      | inl e ↦ elim (Option-cases (parse_message_id b)) [
        | inl f ↦ ground arith
        | inr (q, f) ↦ ground arith
      ]
      | inr (p, e) ↦ elim (Option-cases (parse_message_id b)) [
        | inl f ↦ ground arith
        | inr (q, f) ↦
            let times = int_lt_asym p.0 q.0 in let numbers = int_lt_asym p.1 q.1 in ground arith
      ]
    ]
