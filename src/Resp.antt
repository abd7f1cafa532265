-- ===== src/Resp.antt =====
-- redis/resp.go: the values of the RESP protocol and their conversions.
pub mod Wire
pub mod Fuel
pub mod Totality
pub mod Commands
mod Tests
use stream_relay.Prelude.{
  ℕ, zero, suc, ◌+◌, ◌++◌, Bool, true, false, not, ◌&&◌, ◌||◌, Option, none, some, List, [], ◌∷◌,
  Bytes, codes, ◌==◌, if◌then◌else◌, Map, insert,
}
use stream_relay.Decimal.{ℤ, pos, negsuc, format_int, parse_int}

-- The type bytes `+`, `-`, `:`, `$` and `*`.
abbrev pub simple_string : ℕ
simple_string = 43

abbrev pub error : ℕ
error = 45

abbrev pub integer : ℕ
integer = 58

abbrev pub bulk_string : ℕ
bulk_string = 36

abbrev pub array : ℕ
array = 42

-- The error values, what `ParseInt` returns for a text that is no int64, what the reader returns at
-- the end of the input, and the error of `AsMap`.
pub data RespError : Type 0 where
  invalid_resp nil_response unexpected_type not_a_number end_of_input odd_array : RespError

pub data Answer (A : Type 0) : Type 0 where
  ok : A → Answer A
  err : RespError → Answer A

-- The fields `Type`, `Str`, `Int`, `Array`, `IsNull` and `IsError`, in this order.
mutual
  pub data Value : Type 0 where
    value : ℕ → Bytes → ℤ → Values → Bool → Bool → Value

  pub data Values : Type 0 where
    nil : Values
    cons : Value → Values → Values

-- The chains of `do` blocks on answers.
infixl 10 ◌>>=◌
abbrev pub ◌>>=◌ : {A B : Type 0} → Answer A → (A → Answer B) → Answer B
ok a >>= f = f a
err e >>= f = err e

-- `String`: what `%v` prints, and for an array what it prints of the elements, in brackets.
unfoldable mutual
  pub string : Value → Bytes
  string (value kind str int vs is_null is_error) =
      let elements = strings true vs in
      if kind == simple_string || kind == bulk_string || kind == error
      then str
      else if kind == integer
      then format_int int
      else if kind == array
      then codes "[" ++ elements ++ codes "]"
      else []

  -- The elements, with a blank before each but the first.
  pub strings : Bool → Values → Bytes
  strings first nil = []
  strings first (cons v vs) =
      let rest = strings false vs in
      let text = string v in (if first then [] else codes " ") ++ text ++ rest

unfoldable pub as_string : Value → Answer Bytes
as_string (value kind str int vs is_null is_error) =
    if is_null
    then err nil_response
    else if kind == simple_string || kind == bulk_string
    then ok str
    else if kind == integer
    then ok (format_int int)
    else err unexpected_type

abbrev pub number_or_error : Option ℤ → Answer ℤ
number_or_error none = err not_a_number
number_or_error (some n) = ok n

unfoldable pub as_int : Value → Answer ℤ
as_int (value kind str int vs is_null is_error) =
    if is_null
    then err nil_response
    else if kind == integer
    then ok int
    else if kind == bulk_string || kind == simple_string
    then number_or_error (parse_int str)
    else err unexpected_type

unfoldable pub as_array : Value → Answer Values
as_array (value kind str int vs is_null is_error) =
    if is_null then err nil_response else if kind == array then ok vs else err unexpected_type

-- The loop of `AsStringSlice`.
unfoldable pub strings_of : Values → Answer (List Bytes)
strings_of nil = ok []
strings_of (cons v vs) =
    let others = strings_of vs in do s ← as_string v; rest ← others; ok (s ∷ rest)

unfoldable pub as_string_slice : Value → Answer (List Bytes)
as_string_slice v = do vs ← as_array v; strings_of vs

-- The loop of `AsMap`, which writes into `result` from the first pair on. It is entered only with
-- pairs: the clause for one value that is left over is not reached.
unfoldable pub pairs_of : Values → Map Bytes → Answer (Map Bytes)
pairs_of nil result = ok result
pairs_of (cons v nil) result = err odd_array
pairs_of (cons k (cons v vs)) result = elim (as_string k) [
  | err e ↦ err e
  | ok key ↦ elim (as_string v) [ err e ↦ err e | ok val ↦ pairs_of vs (insert key val result) ]
]

-- `len(arr)%2 == 0`
unfoldable pub is_even : Values → Bool
is_even nil = true
is_even (cons v vs) = not (is_even vs)

unfoldable pub as_map : Value → Answer (Map Bytes)
as_map v = do vs ← as_array v; if is_even vs then pairs_of vs [] else err odd_array
