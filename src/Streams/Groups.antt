-- ===== src/Streams/Groups.antt =====
-- Consumer groups, and what a stream tells of itself, in redis/stream.go.
use stream_relay.Prelude.{
  ℕ, Bool, ◌||◌, Option, none, some, List, [], ◌∷◌, ◌++◌, Bytes, codes, str_eq, if◌then◌else◌,
  length, take, Map, keys, insert,
}
use stream_relay.Decimal.{ℤ, pos}
use stream_relay.Protocol.{failure, Result, ok, err, ◌>>=◌}
use stream_relay.Resp
use stream_relay.Resp.{Value, Values, nil, cons, as_string, as_int, as_array}
use stream_relay.Streams.{
  StreamEntry, StreamResult, of_answer, text_of, is_null_reply, is_error_reply, parse_single_entry,
}
use stream_relay.Streams.Commands.{
  Do, unless_error, int_reply, unit_reply, values_of, count_arguments, block_arguments,
  results_reply,
}

-- `strings.Contains`
unfoldable pub contains : Bytes → Bytes → Bool
contains [] part = str_eq part []
contains (c ∷ cs) part = str_eq (take (length part) (c ∷ cs)) part || contains cs part

-- `BUSYGROUP` says that the group is there already, and is no error.
abbrev pub created : Value → Result (Unit {0})
created reply =
    if is_error_reply reply
    then if contains (text_of reply) (codes "BUSYGROUP")
      then ok tt
      else err (failure (codes "XGROUP CREATE failed: " ++ text_of reply))
    else ok tt

abbrev pub created_reply : Result Value → Result (Unit {0})
created_reply response = response >>= created

-- What is left where an error is ignored; the bound that `ParseInt` gives for a numeral out of range is
-- 0 here.
abbrev pub int_or_zero : Resp.Answer ℤ → ℤ
int_or_zero (Resp.ok n) = n
int_or_zero (Resp.err e) = pos 0

abbrev pub string_or_empty : Resp.Answer Bytes → Bytes
string_or_empty (Resp.ok text) = text
string_or_empty (Resp.err e) = []

abbrev pub array_or_nil : Resp.Answer Values → Values
array_or_nil (Resp.ok vs) = vs
array_or_nil (Resp.err e) = nil

abbrev pub entry_or_blank : Result StreamEntry → StreamEntry
entry_or_blank (ok entry) = entry
entry_or_blank (err e) = record { id = []; fields = [] }

pub record Pending : Type 0 where
  pub count : ℤ
  pub min_id : Bytes
  pub max_id : Bytes
  pub consumers : Map ℤ

-- One consumer: a name and a number, or nothing.
abbrev pub add_consumer : Values → Map ℤ → Map ℤ
add_consumer (cons a (cons b nil)) consumers =
    insert (string_or_empty (as_string a)) (int_or_zero (as_int b)) consumers
add_consumer _ consumers = consumers

-- The loop of `XPending`.
unfoldable pub consumers_of : Values → Map ℤ → Map ℤ
consumers_of nil consumers = consumers
consumers_of (cons c cs) consumers =
    consumers_of cs (add_consumer (array_or_nil (as_array c)) consumers)

abbrev pub pending_of : Values → Result Pending
pending_of (cons a (cons b (cons c (cons d nil)))) = ok (record {
  count = int_or_zero (as_int a);
  min_id = string_or_empty (as_string b);
  max_id = string_or_empty (as_string c);
  consumers = if is_null_reply d then [] else consumers_of (array_or_nil (as_array d)) [];
})
pending_of _ = err (failure (codes "unexpected XPENDING response format"))

pub record StreamInfo : Type 0 where
  pub length : ℤ
  pub radix_tree_keys : ℤ
  pub radix_tree_nodes : ℤ
  pub last_generated_id : Bytes
  pub first_entry : Option StreamEntry
  pub last_entry : Option StreamEntry

abbrev pub blank_info : StreamInfo
blank_info = record {
  length = pos 0;
  radix_tree_keys = pos 0;
  radix_tree_nodes = pos 0;
  last_generated_id = [];
  first_entry = none;
  last_entry = none;
}

abbrev pub entry_if_any : Option StreamEntry → Value → Option StreamEntry
entry_if_any old v = if is_null_reply v then old else some (entry_or_blank (parse_single_entry v))

-- The `switch` of `XInfo`.
unfoldable pub set_info : Bytes → Value → StreamInfo → StreamInfo
set_info key v info =
    if str_eq key (codes "length")
    then record info { length = int_or_zero (as_int v) }
    else if str_eq key (codes "radix-tree-keys")
    then record info { radix_tree_keys = int_or_zero (as_int v) }
    else if str_eq key (codes "radix-tree-nodes")
    then record info { radix_tree_nodes = int_or_zero (as_int v) }
    else if str_eq key (codes "last-generated-id")
    then record info { last_generated_id = string_or_empty (as_string v) }
    else if str_eq key (codes "first-entry")
    then record info { first_entry = entry_if_any info.first_entry v }
    else if str_eq key (codes "last-entry")
    then record info { last_entry = entry_if_any info.last_entry v }
    else info

-- The loop of `XInfo`, which takes two values at a time and leaves a last single one alone.
unfoldable pub info_of : Values → StreamInfo → StreamInfo
info_of (cons k (cons v vs)) info = info_of vs (set_info (string_or_empty (as_string k)) v info)
info_of (cons k nil) info = info
info_of nil info = info

module _ {S : Type 0} (do_command : Do S) where
  unfoldable pub x_read_group :
      Bytes → Bytes → ℕ → Option ℕ → Bool → Map Bytes → S → S × Result (List StreamResult)
  x_read_group group consumer count block no_ack streams s =
      let args =
        (codes "XREADGROUP" ∷ codes "GROUP" ∷ group ∷ consumer ∷ count_arguments count)
        ++ (block_arguments block
            ++ ((if no_ack then codes "NOACK" ∷ [] else [])
                ++ (codes "STREAMS" ∷ (keys streams ++ values_of streams)))) in
      let (next, response) = do_command args s in
      (next, results_reply (codes "XREADGROUP") response)

  unfoldable pub x_group_create : Bytes → Bytes → Bytes → Bool → S → S × Result (Unit {0})
  x_group_create key group id mk_stream s =
      let args =
        (codes "XGROUP" ∷ codes "CREATE" ∷ key ∷ group ∷ id ∷ [])
        ++ (if mk_stream then codes "MKSTREAM" ∷ [] else []) in
      let (next, response) = do_command args s in (next, created_reply response)

  unfoldable pub x_group_destroy : Bytes → Bytes → S → S × Result ℤ
  x_group_destroy key group s =
      let (next, response) = do_command (codes "XGROUP" ∷ codes "DESTROY" ∷ key ∷ group ∷ []) s in
      (next, int_reply (codes "XGROUP DESTROY") response)

  unfoldable pub x_group_set_id : Bytes → Bytes → Bytes → S → S × Result (Unit {0})
  x_group_set_id key group id s =
      let (next, response) =
        do_command (codes "XGROUP" ∷ codes "SETID" ∷ key ∷ group ∷ id ∷ []) s in
      (next, unit_reply (codes "XGROUP SETID") response)

  unfoldable pub x_ack : Bytes → Bytes → List Bytes → S → S × Result ℤ
  x_ack key group ids s =
      let (next, response) = do_command (codes "XACK" ∷ key ∷ group ∷ ids) s in
      (next, int_reply (codes "XACK") response)

  unfoldable pub x_pending : Bytes → Bytes → S → S × Result Pending
  x_pending key group s =
      let (next, response) = do_command (codes "XPENDING" ∷ key ∷ group ∷ []) s in
      (
        next,
        unless_error (codes "XPENDING") (λ v. do vs ← of_answer (as_array v); pending_of vs)
            response,
      )

  unfoldable pub x_info : Bytes → S → S × Result StreamInfo
  x_info key s =
      let (next, response) = do_command (codes "XINFO" ∷ codes "STREAM" ∷ key ∷ []) s in
      (
        next,
        unless_error (codes "XINFO STREAM")
            (λ v. do vs ← of_answer (as_array v); ok (info_of vs blank_info)) response,
      )
