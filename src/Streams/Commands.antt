-- ===== src/Streams/Commands.antt =====
-- The commands of `Stream` in redis/stream.go. `Client.Do` is the parameter `do_command`: it takes a
-- state of the server to the next one, and to a reply or an error.
use stream_relay.Prelude.{
  ℕ, zero, suc, Bool, Option, none, some, List, [], ◌∷◌, ◌++◌, Bytes, codes, if◌then◌else◌, Map,
  keys,
}
use stream_relay.Decimal.{ℤ, pos, format_int}
use stream_relay.Protocol.{failure, Result, ok, err, ◌>>=◌}
use stream_relay.Resp.{Value, as_string, as_int}
use stream_relay.Streams.{
  StreamEntry, StreamResult, of_answer, text_of, is_null_reply, is_error_reply, parse_entries,
  parse_stream_results,
}

-- The server behind a client: what it does with a command.
abbrev pub Do : Type 0 → Type 0
Do S = List Bytes → S → S × Result Value

-- `fmt.Errorf("XADD failed: %s", resp.Str)` for a reply that is an error, and otherwise what `f` makes
-- of it.
abbrev pub check_reply : {A : Type 0} → Bytes → (Value → Result A) → Value → Result A
check_reply name f reply =
    if is_error_reply reply
    then err (failure (name ++ codes " failed: " ++ text_of reply))
    else f reply

unfoldable pub unless_error : {A : Type 0} → Bytes → (Value → Result A) → Result Value → Result A
unless_error name f response = response >>= check_reply name f

abbrev pub string_reply : Bytes → Result Value → Result Bytes
string_reply name response = unless_error name (λ v. of_answer (as_string v)) response

abbrev pub int_reply : Bytes → Result Value → Result ℤ
int_reply name response = unless_error name (λ v. of_answer (as_int v)) response

abbrev pub unit_reply : Bytes → Result Value → Result (Unit {0})
unit_reply name response = unless_error name (λ v. ok tt) response

-- The loop over the fields of an entry, in the order of the map.
unfoldable pub field_arguments : Map Bytes → List Bytes
field_arguments [] = []
field_arguments ((k, v) ∷ fields) = k ∷ v ∷ field_arguments fields

abbrev pub values_of : Map Bytes → List Bytes
values_of [] = []
values_of ((k, v) ∷ m) = v ∷ values_of m

-- `COUNT`, for a count above 0.
abbrev pub count_arguments : ℕ → List Bytes
count_arguments zero = []
count_arguments (suc n) = codes "COUNT" ∷ format_int (pos (suc n)) ∷ []

-- `BLOCK` with its milliseconds; `none` is a duration below 0.
abbrev pub block_arguments : Option ℕ → List Bytes
block_arguments none = []
block_arguments (some ms) = codes "BLOCK" ∷ format_int (pos ms) ∷ []

abbrev pub approximate_arguments : Bool → List Bytes
approximate_arguments approximate = if approximate then codes "~" ∷ [] else []

-- No message for a reply that is null.
abbrev pub results_reply : Bytes → Result Value → Result (List StreamResult)
results_reply name response = response >>= λ reply.
    if is_null_reply reply then ok [] else check_reply name parse_stream_results reply

module _ {S : Type 0} (do_command : Do S) where
  unfoldable pub x_add : Bytes → Bytes → Map Bytes → S → S × Result Bytes
  x_add key id fields s =
      let (next, response) = do_command (codes "XADD" ∷ key ∷ id ∷ field_arguments fields) s in
      (next, string_reply (codes "XADD") response)

  unfoldable pub x_add_with_max_len : Bytes → ℤ → Bool → Bytes → Map Bytes → S → S × Result Bytes
  x_add_with_max_len key max_len approximate id fields s =
      let args =
        (codes "XADD" ∷ key ∷ codes "MAXLEN" ∷ approximate_arguments approximate)
        ++ (format_int max_len ∷ id ∷ field_arguments fields) in
      let (next, response) = do_command args s in (next, string_reply (codes "XADD") response)

  unfoldable pub x_read : ℕ → Option ℕ → Map Bytes → S → S × Result (List StreamResult)
  x_read count block streams s =
      let args =
        (codes "XREAD" ∷ count_arguments count)
        ++ (block_arguments block ++ (codes "STREAMS" ∷ (keys streams ++ values_of streams))) in
      let (next, response) = do_command args s in (next, results_reply (codes "XREAD") response)

  unfoldable pub x_range : Bytes → Bytes → Bytes → ℕ → S → S × Result (List StreamEntry)
  x_range key start end count s =
      let args = (codes "XRANGE" ∷ key ∷ start ∷ end ∷ []) ++ count_arguments count in
      let (next, response) = do_command args s in
      (next, unless_error (codes "XRANGE") parse_entries response)

  unfoldable pub x_rev_range : Bytes → Bytes → Bytes → ℕ → S → S × Result (List StreamEntry)
  x_rev_range key end start count s =
      let args = (codes "XREVRANGE" ∷ key ∷ end ∷ start ∷ []) ++ count_arguments count in
      let (next, response) = do_command args s in
      (next, unless_error (codes "XREVRANGE") parse_entries response)

  unfoldable pub x_len : Bytes → S → S × Result ℤ
  x_len key s =
      let (next, response) = do_command (codes "XLEN" ∷ key ∷ []) s in
      (next, int_reply (codes "XLEN") response)

  unfoldable pub x_trim : Bytes → ℤ → Bool → S → S × Result ℤ
  x_trim key max_len approximate s =
      let args =
        (codes "XTRIM" ∷ key ∷ codes "MAXLEN" ∷ approximate_arguments approximate)
        ++ (format_int max_len ∷ []) in
      let (next, response) = do_command args s in (next, int_reply (codes "XTRIM") response)

  unfoldable pub x_del : Bytes → List Bytes → S → S × Result ℤ
  x_del key ids s =
      let (next, response) = do_command (codes "XDEL" ∷ key ∷ ids) s in
      (next, int_reply (codes "XDEL") response)
