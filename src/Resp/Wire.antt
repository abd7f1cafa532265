-- ===== src/Resp/Wire.antt =====
-- The writer and the reader of redis/resp.go. The bytes that are still to be read are passed on; they
-- are what the connection will ever deliver.
use stream_relay.Prelude.{
  ℕ, zero, suc, ◌+◌, ◌*◌, Bool, true, false, ◌&&◌, Option, none, some, List, [], ◌∷◌, ◌++◌, Bytes,
  leb, ◌==◌, if◌then◌else◌, length, get_or, take, drop,
}
use stream_relay.Decimal.{ℤ, pos, negsuc, format_nat, parse_int}
use stream_relay.Resp.{
  simple_string, error, integer, bulk_string, array, RespError, invalid_resp, end_of_input, Value,
  value, Values, nil, cons,
}

abbrev pub crlf : Bytes
crlf = 13 ∷ 10 ∷ []

-- The loop of `WriteCommand`.
unfoldable pub write_arguments : List Bytes → Bytes
write_arguments [] = []
write_arguments (arg ∷ args) =
    36 ∷ (format_nat (length arg) ++ (crlf ++ (arg ++ (crlf ++ write_arguments args))))

-- What `WriteCommand` writes, if the connection takes it.
unfoldable pub write_command : List Bytes → Bytes
write_command args = 42 ∷ (format_nat (length args) ++ (crlf ++ write_arguments args))

-- How a read ends: with a value and the bytes that are left, with an error, or with a panic. The model
-- adds `out_of_fuel`, which enough fuel excludes.
pub data Read (A : Type 0) : Type 0 where
  done : A → Bytes → Read A
  failed : RespError → Read A
  crashed out_of_fuel : Read A

infixl 10 ◌>>=◌
abbrev pub ◌>>=◌ : {A B : Type 0} → Read A → (A × Bytes → Read B) → Read B
done a rest >>= f = f (a, rest)
failed e >>= f = failed e
crashed >>= f = crashed
out_of_fuel >>= f = out_of_fuel

abbrev pub push : ℕ → Option (Bytes × Bytes) → Option (Bytes × Bytes)
push c none = none
push c (some (line, rest)) = some (c ∷ line, rest)

-- `ReadString('\n')`: the bytes in front of the first newline, and those behind it.
unfoldable pub until_newline : Bytes → Option (Bytes × Bytes)
until_newline [] = none
until_newline (c ∷ cs) =
    let more = until_newline cs in if c == 10 then some ([], cs) else push c more

-- The line without the carriage return that it must end with.
unfoldable pub chop_return : Bytes → Option Bytes
chop_return [] = none
chop_return (c ∷ []) = if c == 13 then some [] else none
chop_return (c ∷ d ∷ ds) =
    let more = chop_return (d ∷ ds) in elim more [ none ↦ none | some cs ↦ some (c ∷ cs) ]

unfoldable pub read_line : Bytes → Read Bytes
read_line input = elim (until_newline input) [
  | none ↦ failed end_of_input
  | some (line, rest) ↦ elim (chop_return line) [
    | none ↦ failed invalid_resp
    | some s ↦ done s rest
  ]
]

unfoldable pub read_simple_string : Bytes → Read Value
read_simple_string input = do
  (line, rest) ← read_line input
  done (value simple_string line (pos 0) nil false false) rest

unfoldable pub read_error : Bytes → Read Value
read_error input = do
  (line, rest) ← read_line input
  done (value error line (pos 0) nil false true) rest

-- A line that is read as a number.
unfoldable pub read_number : Bytes → Read ℤ
read_number input = do
  (line, rest) ← read_line input
  elim (parse_int line) [ none ↦ failed invalid_resp | some n ↦ done n rest ]

unfoldable pub read_integer : Bytes → Read Value
read_integer input = do
  (n, rest) ← read_number input
  done (value integer [] n nil false false) rest

-- `io.ReadFull` of `n` and two more bytes, which must be the end of a line.
unfoldable pub read_data : ℕ → Bytes → Read Value
read_data n input =
    if leb (n + 2) (length input)
    then if get_or input n 0 == 13 && get_or input (n + 1) 0 == 10
      then done (value bulk_string (take n input) (pos 0) nil false false) (drop (n + 2) input)
      else failed invalid_resp
    else failed end_of_input

-- The array of the elements that were read.
unfoldable pub array_of : Read Values → Read Value
array_of elements = do (vs, rest) ← elements; done (value array [] (pos 0) vs false false) rest

-- `fits` says how many bytes `make` has the memory for: it panics for more, and for a negative length.
-- A `Value` takes 64 bytes.
module _ (fits : ℕ → Bool) where
  unfoldable pub read_bulk_string : Bytes → Read Value
  read_bulk_string input = do
    (n, rest) ← read_number input
    elim n [
      | pos len ↦ if fits (len + 2) then read_data len rest else crashed
      | negsuc zero ↦ done (value bulk_string [] (pos 0) nil true false) rest
      | negsuc (suc _) ↦ crashed
    ]

  -- `readArray`, given its loop for a number of elements.
  unfoldable pub read_array : (ℕ → Bytes → Read Values) → Bytes → Read Value
  read_array elements input = do
    (n, rest) ← read_number input
    elim n [
      | pos count ↦ if fits (count * 64) then array_of (elements count rest) else crashed
      | negsuc zero ↦ done (value array [] (pos 0) nil true false) rest
      | negsuc (suc _) ↦ crashed
    ]

  -- `ReadValue`, and the loop of `readArray` for the elements that are left, on fuel: a call of either
  -- takes one.
  unfoldable mutual
    pub read_value : ℕ → Bytes → Read Value
    read_value zero input = out_of_fuel
    read_value (suc fuel) [] = failed end_of_input
    read_value (suc fuel) (c ∷ cs) =
        if c == simple_string
        then read_simple_string cs
        else if c == error
        then read_error cs
        else if c == integer
        then read_integer cs
        else if c == bulk_string
        then read_bulk_string cs
        else if c == array
        then read_array (λ count rest. read_elements fuel count rest) cs
        else failed invalid_resp

    pub read_elements : ℕ → ℕ → Bytes → Read Values
    read_elements zero zero input = done nil input
    read_elements zero (suc count) input = out_of_fuel
    read_elements (suc fuel) zero input = done nil input
    read_elements (suc fuel) (suc count) input = do
      (v, rest) ← read_value fuel input
      (vs, behind) ← read_elements fuel count rest
      done (cons v vs) behind
