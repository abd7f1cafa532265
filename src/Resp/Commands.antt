-- ===== src/Resp/Commands.antt =====
-- Commands on the wire are read back as they were written; and a negative length brings the reader
-- down.
use stream_relay.Prelude.{
  ℕ, zero, suc, ◌+◌, ◌*◌, ◌≤◌, ◌<◌, ◌≡◌, ◌≢◌, ◌⊎◌, inl, inr, refl, sym, ap, ◌∙◌, Bool, true, false,
  some, List, [], ◌∷◌, ◌++◌, Bytes, leb, ◌==◌, arith, length, get_or, drop, length-append,
  append_assoc, take-length-append,
}
use stream_relay.Decimal.{ℤ, pos, negsuc, int64_bound, format_nat, format_int}
use stream_relay.Decimal.Laws.{Digits, InInt64, format_nat-Digits, parse_int-format_int}
use stream_relay.Resp.{
  bulk_string, array, Value, value, Values, nil, cons, ok, as_string, as_array, strings_of,
  as_string_slice,
}
use stream_relay.Resp.Wire.{
  crlf, write_arguments, write_command, done, crashed, until_newline, chop_return, read_line,
  read_number, read_data, read_bulk_string, array_of, read_array, read_value, read_elements,
}

-- No byte of the text is a newline.
abbrev NoNewline : Bytes → Type 0
NoNewline [] = Unit
NoNewline (c ∷ cs) = (c ≢ 10) × NoNewline cs

Digits-NoNewline : (ds : Bytes) → Digits ds → NoNewline ds
Digits-NoNewline [] d = tt
Digits-NoNewline (c ∷ cs) (low, high, d) = (λ e. absurd (omega arith), Digits-NoNewline cs d)

format_int-NoNewline : (z : ℤ) → NoNewline (format_int z)
unfolding format_int
format_int-NoNewline (pos n) = Digits-NoNewline (format_nat n) (format_nat-Digits n)
format_int-NoNewline (negsuc n) =
    (λ e. absurd (omega arith), Digits-NoNewline (format_nat (suc n)) (format_nat-Digits (suc n)))

until_newline-append :
    (text rest : Bytes)
    → NoNewline text
    → until_newline (text ++ (crlf ++ rest)) ≡ some (text ++ 13 ∷ [], rest)
unfolding until_newline
until_newline-append [] rest h = refl
until_newline-append (c ∷ cs) rest h =
    let ih = until_newline-append cs rest h.1 in
    let differs : (c == 10) ≡ false = let d = h.0 in ground arith in rw (differs, ih) refl

chop_return-append : (text : Bytes) → chop_return (text ++ 13 ∷ []) ≡ some text
unfolding chop_return
chop_return-append [] = refl
chop_return-append (c ∷ []) = refl
chop_return-append (c ∷ d ∷ ds) = let ih = chop_return-append (d ∷ ds) in rw ih refl

read_line-append :
    (text rest : Bytes) → NoNewline text → read_line (text ++ (crlf ++ rest)) ≡ done text rest
unfolding read_line
read_line-append text rest h =
    rw (read_line, until_newline-append text rest h, chop_return-append text) refl

read_number-append :
    (z : ℤ) (rest : Bytes) → InInt64 z → read_number (format_int z ++ (crlf ++ rest)) ≡ done z rest
unfolding read_number
read_number-append z rest h =
    let line = read_line-append (format_int z) rest (format_int-NoNewline z) in
    let number = parse_int-format_int z h in ground arith

get_or-append : (xs ys : Bytes) (i : ℕ) → get_or (xs ++ ys) (length xs + i) 0 ≡ get_or ys i 0
get_or-append [] ys i = let e : 0 + i ≡ i = omega arith in ap (λ k. get_or ys k 0) e
get_or-append (x ∷ xs) ys i =
    let e : suc (length xs) + i ≡ suc (length xs + i) = omega arith in
    ap (λ k. get_or (x ∷ xs ++ ys) k 0) e ∙ get_or-append xs ys i

drop-append_more : (xs ys : Bytes) (i : ℕ) → drop (length xs + i) (xs ++ ys) ≡ drop i ys
drop-append_more [] ys i = let e : 0 + i ≡ i = omega arith in ap (λ k. drop k ys) e
drop-append_more (x ∷ xs) ys i =
    let e : suc (length xs) + i ≡ suc (length xs + i) = omega arith in
    ap (λ k. drop k (x ∷ xs ++ ys)) e ∙ drop-append_more xs ys i

-- A bulk string that holds the text.
abbrev pub bulk : Bytes → Value
bulk text = value bulk_string text (pos 0) nil false false

abbrev pub bulks : List Bytes → Values
bulks [] = nil
bulks (arg ∷ args) = cons (bulk arg) (bulks args)

read_data-append :
    (arg rest : Bytes) → read_data (length arg) (arg ++ (crlf ++ rest)) ≡ done (bulk arg) rest
unfolding read_data
read_data-append arg rest =
    let tail = crlf ++ rest in
    let n = length arg in
    let zero_more : n + 0 ≡ n = omega arith in
    let enough : leb (n + 2) (length (arg ++ tail)) ≡ true =
      ground (arith, length-append arg tail) in
    let first : get_or (arg ++ tail) n 0 ≡ 13 =
      ap (λ k. get_or (arg ++ tail) k 0) (sym zero_more) ∙ get_or-append arg tail 0 in
    let second : get_or (arg ++ tail) (n + 1) 0 ≡ 10 = get_or-append arg tail 1 in
    let behind : drop (n + 2) (arg ++ tail) ≡ rest = drop-append_more arg tail 2 in
    rw (read_data, enough, first, second, take-length-append arg tail, behind) refl

read_value_of_bulk :
    (fits : ℕ → Bool) (fuel : ℕ) (arg rest : Bytes)
    → fits (length arg + 2) ≡ true
    → length arg < int64_bound
    → read_value fits
        (suc fuel)
        (36 ∷ (format_nat (length arg) ++ (crlf ++ (arg ++ (crlf ++ rest)))))
      ≡ done (bulk arg) rest
unfolding read_value read_bulk_string format_int
read_value_of_bulk fits fuel arg rest room small =
    let sized = read_number-append (pos (length arg)) (arg ++ (crlf ++ rest)) small in
    rw (sized, room) (read_data-append arg rest)

-- Every argument has a length that the reader can take.
abbrev pub Readable : (ℕ → Bool) → List Bytes → Type 0
Readable fits [] = Unit
Readable fits (arg ∷ args) =
    (fits (length arg + 2) ≡ true) × (length arg < int64_bound) × Readable fits args

write_arguments-append :
    (arg : Bytes) (args : List Bytes) (rest : Bytes)
    → write_arguments (arg ∷ args) ++ rest
      ≡ 36
        ∷ (format_nat (length arg) ++ (crlf ++ (arg ++ (crlf ++ (write_arguments args ++ rest)))))
unfolding write_arguments
write_arguments-append arg args rest =
    let more = write_arguments args in
    ap (◌∷◌ 36) (
      append_assoc (format_nat (length arg)) (crlf ++ (arg ++ (crlf ++ more))) rest
      ∙ ap (λ xs. format_nat (length arg) ++ (crlf ++ xs)) (append_assoc arg (crlf ++ more) rest))

read_elements-write_arguments :
    (fits : ℕ → Bool) (fuel : ℕ) (args : List Bytes) (rest : Bytes)
    → Readable fits args
    → length args < fuel
    → read_elements fits fuel (length args) (write_arguments args ++ rest) ≡ done (bulks args) rest
unfolding write_arguments read_value
read_elements-write_arguments fits zero args rest h room = absurd (omega arith)
read_elements-write_arguments fits (suc fuel) [] rest h room = refl
read_elements-write_arguments fits (suc zero) (arg ∷ args) rest h room = absurd (omega arith)
read_elements-write_arguments fits (suc (suc fuel)) (arg ∷ args) rest (fit, small, h) room =
    let tail = write_arguments args ++ rest in
    let first = read_value_of_bulk fits fuel arg tail fit small in
    let others = read_elements-write_arguments fits (suc fuel) args rest h (omega arith) in
    let split = write_arguments-append arg args rest in
    ap (read_elements fits (suc (suc fuel)) (suc (length args))) split ∙ rw (first, others) refl

strings_of-bulks : (args : List Bytes) → strings_of (bulks args) ≡ ok args
unfolding strings_of as_string
strings_of-bulks [] = refl
strings_of-bulks (arg ∷ args) = rw (strings_of-bulks args) refl

whole :
    (fits : ℕ → Bool) (fuel : ℕ) (args : List Bytes) (rest : Bytes)
    → Readable fits args
    → fits (length args * 64) ≡ true
    → length args < int64_bound
    → length args < fuel
    → read_value fits (suc fuel) (write_command args ++ rest)
      ≡ done (value array [] (pos 0) (bulks args) false false) rest
unfolding read_value read_array array_of write_command format_int
whole fits fuel args rest h room small enough =
    let body = write_arguments args ++ rest in
    let sized = read_number-append (pos (length args)) body small in
    let split = append_assoc (format_nat (length args)) (crlf ++ write_arguments args) rest in
    let elements = read_elements-write_arguments fits fuel args rest h enough in
    rw (split, sized, room, elements) refl

-- What `WriteCommand` writes is read as an array, whose strings are the arguments; what follows on the
-- wire is left for the next read. This is so for any arguments, whatever bytes they hold, if their
-- number and lengths are int64 values and there is memory for them.
pub read_value-write_command :
    (fits : ℕ → Bool) (fuel : ℕ) (args : List Bytes) (rest : Bytes)
    → Readable fits args
    → fits (length args * 64) ≡ true
    → length args < int64_bound
    → length args + 2 ≤ fuel
    → (v : Value) × (read_value fits fuel (write_command args ++ rest) ≡ done v rest)
      × (as_string_slice v ≡ ok args)
unfolding as_string_slice as_array
read_value-write_command fits zero args rest h room small enough = absurd (omega arith)
read_value-write_command fits (suc fuel) args rest h room small enough = (
  value array [] (pos 0) (bulks args) false false,
  whole fits fuel args rest h room small (omega arith),
  strings_of-bulks args,
)

-- A length or a number of elements below -1 makes the reader panic.
read_value_of_negative :
    (fits : ℕ → Bool) (fuel c k : ℕ) (rest : Bytes)
    → (c ≡ bulk_string) ⊎ (c ≡ array)
    → suc k < int64_bound
    → read_value fits (suc fuel) (c ∷ (format_int (negsuc (suc k)) ++ (crlf ++ rest))) ≡ crashed
unfolding read_value read_bulk_string read_array
read_value_of_negative fits fuel c k rest (inl e) small =
    rw (e, read_number-append (negsuc (suc k)) rest small) refl
read_value_of_negative fits fuel c k rest (inr e) small =
    rw (e, read_number-append (negsuc (suc k)) rest small) refl
