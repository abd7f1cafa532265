-- ===== src/Memory/MessageIds.antt =====
-- Message identifiers (engine/memory_relay.go): a time in milliseconds and a number, with a dash.
pub mod Order
use stream_relay.Prelude.{
  ℕ, zero, suc, ◌+◌, ◌-◌, ◌%◌, Bool, true, false, ◌||◌, Option, none, some, List, [], ◌∷◌, ◌++◌,
  Bytes, ltb, leb, ◌==◌, if◌then◌else◌, ◌>>=◌,
}
use stream_relay.DirectRooms.{string_lt}
use stream_relay.Decimal.{ℤ, pos, negsuc, is_digit, format_int, parse_int}

-- `generateMessageID` gives `fmt.Sprintf("%d-%d", ts, seq)`, `GenerateMessageIDFromTime` the same
-- text by strconv.
unfoldable pub generate_message_id_from_time : ℤ → ℤ → Bytes
generate_message_id_from_time ts seq = format_int ts ++ (45 ∷ format_int seq)

-- The white space that fmt skips in front of a number, less what is not ASCII.
abbrev pub is_space : ℕ → Bool
is_space c = c == 9 || (c == 11 || (c == 12 || (c == 13 || c == 32)))

unfoldable pub skip_spaces : Bytes → Bytes
skip_spaces [] = []
skip_spaces (c ∷ cs) = let rest = skip_spaces cs in if is_space c then rest else c ∷ cs

-- The digits in front, and what is behind them.
unfoldable pub span_digits : Bytes → Bytes × Bytes
span_digits [] = ([], [])
span_digits (c ∷ cs) =
    let (digits, rest) = span_digits cs in if is_digit c then (c ∷ digits, rest) else ([], c ∷ cs)

-- The token of the verb `%d`: a sign, if there is one, and digits; it is read as `ParseInt` reads it,
-- which fails where there are no digits.
unfoldable pub scan_token : Bytes → Bytes × Bytes
scan_token [] = ([], [])
scan_token (c ∷ cs) =
    let (digits, rest) = span_digits cs in
    if c == 45 || c == 43 then (c ∷ digits, rest) else span_digits (c ∷ cs)

unfoldable pub scan_int : Bytes → Option (ℤ × Bytes)
scan_int text =
    let scanned = scan_token (skip_spaces text) in do n ← parse_int scanned.0; some (n, scanned.1)

-- The literal `-` of a format.
unfoldable pub scan_dash : Bytes → Option Bytes
scan_dash [] = none
scan_dash (c ∷ cs) = if c == 45 then some cs else none

-- `ParseMessageID`: `fmt.Sscanf(id, "%d-%d", &ts, &seq)`, which leaves unread what is behind.
unfoldable pub parse_message_id : Bytes → Option (ℤ × ℤ)
parse_message_id id = do
  (ts, rest) ← scan_int id
  behind ← scan_dash rest
  (seq, _) ← scan_int behind
  some (ts, seq)

pub data Ordering : Type 0 where
  less equal greater : Ordering

abbrev pub order : Bool → Bool → Ordering
order before after = if before then less else if after then greater else equal

-- `a < b` on int64 values.
abbrev pub int_lt : ℤ → ℤ → Bool
int_lt (pos m) (pos n) = ltb m n
int_lt (pos m) (negsuc n) = false
int_lt (negsuc m) (pos n) = true
int_lt (negsuc m) (negsuc n) = ltb n m

-- By time, and by number where the times are the same.
unfoldable pub compare_parsed : ℤ × ℤ → ℤ × ℤ → Ordering
compare_parsed (ts_a, seq_a) (ts_b, seq_b) =
    if int_lt ts_a ts_b
    then less
    else if int_lt ts_b ts_a
    then greater
    else order (int_lt seq_a seq_b) (int_lt seq_b seq_a)

-- -1, 0 and 1 are `less`, `equal` and `greater`.
unfoldable pub compare_message_ids : Bytes → Bytes → Ordering
compare_message_ids a b = elim (parse_message_id a) [
  | none ↦ order (string_lt a b) (string_lt b a)
  | some p ↦ elim (parse_message_id b) [
    | none ↦ order (string_lt a b) (string_lt b a)
    | some q ↦ compare_parsed p q
  ]
]
