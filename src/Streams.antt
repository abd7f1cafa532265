-- ===== src/Streams.antt =====
-- redis/stream.go: the entries of Redis streams, and how they are read from replies.
pub mod Commands
pub mod Groups
pub mod Replies
use stream_relay.Prelude.{
  ℕ, Bool, true, false, Option, none, some, List, [], ◌∷◌, ◌++◌, Bytes, codes, if◌then◌else◌, Map,
}
use stream_relay.Decimal.{ℤ}
use stream_relay.Protocol.{Error, failure, Result, ok, err, ◌>>=◌}
use stream_relay.Resp
use stream_relay.Resp.{
  RespError, invalid_resp, nil_response, unexpected_type, not_a_number, end_of_input, odd_array,
  Value, value, Values, nil, cons, as_string, as_int, as_array, as_map,
}

-- An entry of a stream: its id, and its fields.
pub record StreamEntry : Type 0 where
  pub id : Bytes
  pub fields : Map Bytes

pub record StreamResult : Type 0 where
  pub stream : Bytes
  pub entries : List StreamEntry

-- What the errors of the protocol say; the text of `ParseInt` is without the numeral that it names.
unfoldable pub resp_error_text : RespError → Bytes
resp_error_text invalid_resp = codes "invalid RESP format"
resp_error_text nil_response = codes "nil response"
resp_error_text unexpected_type = codes "unexpected response type"
resp_error_text not_a_number = codes "invalid syntax"
resp_error_text end_of_input = codes "EOF"
resp_error_text odd_array = codes "array length must be even for map conversion"

-- The result of a conversion as one of the package.
abbrev pub of_answer : {A : Type 0} → Resp.Answer A → Result A
of_answer (Resp.ok a) = ok a
of_answer (Resp.err e) = err (failure (resp_error_text e))

abbrev pub text_of : Value → Bytes
text_of (value kind str int vs is_null is_error) = str

abbrev pub is_null_reply : Value → Bool
is_null_reply (value kind str int vs is_null is_error) = is_null

abbrev pub is_error_reply : Value → Bool
is_error_reply (value kind str int vs is_null is_error) = is_error

-- `errors.New(text)` for anything but an array of two.
abbrev pub two_or_error :
    {A : Type 0} → Bytes → (Value → Value → Result A) → Resp.Answer Values → Result A
two_or_error text f (Resp.ok (cons a (cons b nil))) = f a b
two_or_error text f _ = err (failure text)

unfoldable pub parse_single_entry : Value → Result StreamEntry
parse_single_entry reply =
    two_or_error (codes "invalid entry format")
      (λ a b. do
        id ← of_answer (as_string a)
        fields ← of_answer (as_map b)
        ok (record { id = id; fields = fields }))
      (as_array reply)

-- The loop of `parseEntries`, which ends with the first error.
unfoldable pub parse_each_entry : Values → Result (List StreamEntry)
parse_each_entry nil = ok []
parse_each_entry (cons v vs) =
    let others = parse_each_entry vs in
    do entry ← parse_single_entry v; rest ← others; ok (entry ∷ rest)

unfoldable pub parse_entries : Value → Result (List StreamEntry)
parse_entries reply = do vs ← of_answer (as_array reply); parse_each_entry vs

-- One round of the loop of `parseStreamResults`.
unfoldable pub parse_stream_result : Value → Result StreamResult
parse_stream_result reply =
    two_or_error (codes "invalid stream result format")
      (λ a b. do
        name ← of_answer (as_string a)
        entries ← parse_entries b
        ok (record { stream = name; entries = entries }))
      (as_array reply)

unfoldable pub parse_each_result : Values → Result (List StreamResult)
parse_each_result nil = ok []
parse_each_result (cons v vs) =
    let others = parse_each_result vs in
    do result ← parse_stream_result v; rest ← others; ok (result ∷ rest)

unfoldable pub parse_stream_results : Value → Result (List StreamResult)
parse_stream_results reply = do vs ← of_answer (as_array reply); parse_each_result vs
