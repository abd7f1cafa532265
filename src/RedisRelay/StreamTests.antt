-- ===== src/RedisRelay/StreamTests.antt =====
-- A server with one stream, and the theorems on histories with it.
use stream_relay.Prelude.{
  ℕ, suc, ◌⊎◌, inr, ◌≡◌, ◌≢◌, refl, ap, true, false, Option, none, some, List, [], ◌∷◌, ◌++◌, Bytes,
  codes, str_eq, if◌then◌else◌, arith, Map, lookup, insert, length, take, Bytes-discrete,
}
use stream_relay.Decimal.{ℤ, pos, format_int, parse_int}
use stream_relay.Decimal.Laws.{parse_int-format_int}
use stream_relay.Protocol.{failure, Result, ok, err}
use stream_relay.Types.{Message, Subscriber, received}
use stream_relay.Resp.{
  Value, value, nil, bulk_string, as_array, as_string, as_map, is_even, pairs_of,
}
use stream_relay.Streams.{StreamEntry, parse_entries, parse_each_entry, parse_single_entry}
use stream_relay.Streams.Commands.{Do, field_arguments, x_add, x_range, unless_error}
use stream_relay.Streams.Replies.{bulk, array_of, entry_values}
use stream_relay.RedisRelay.{Relay, offset_key, stream_key, parse_stream_entry}
use stream_relay.RedisRelay.Recovery.{
  publish_to_stream, redis_recover_messages, redis_recover_and_deliver, recovery_start, get_offset,
  start_after, parse_each, deliver_recovered, save_offset,
}
use stream_relay.RedisRelay.History.{get_history_from_redis, inject_history_to_redis}
use stream_relay.RedisRelay.Injected.{
  IsRefused, range_command, KeepsStreams, ids_of, numbered, all_prepared,
}
use stream_relay.RedisRelay.Injecting.{get_history_from_redis-inject}

-- The fields that arguments name.
abbrev fields_of : List Bytes → Map Bytes
fields_of (k ∷ v ∷ args) = (k, v) ∷ fields_of args
fields_of _ = []

fields_of-field_arguments : (m : Map Bytes) → fields_of (field_arguments m) ≡ m
unfolding field_arguments
fields_of-field_arguments [] = refl
fields_of-field_arguments ((k, v) ∷ m) = let ih = fields_of-field_arguments m in rw ih refl

abbrev number_or_zero : Option ℤ → ℕ
number_or_zero (some (pos n)) = n
number_or_zero _ = 0

abbrev Entries : Type 0
Entries = List StreamEntry

abbrev new_entry : List Bytes → Entries → StreamEntry
new_entry args s = record { id = format_int (pos (length s)); fields = fields_of args }

-- `XADD` and `XRANGE` from the first entry to the last, on whatever key.
abbrev server : Do Entries
server (name ∷ key ∷ from ∷ args) s =
    if str_eq name (codes "XADD")
    then (s ++ new_entry args s ∷ [], ok (bulk (new_entry args s).id))
    else ranged args s
  where
    ranged : List Bytes → Entries → Entries × Result Value
    ranged (to ∷ count ∷ n ∷ rest) s =
        (s, ok (array_of (entry_values (take (number_or_zero (parse_int n)) s))))
    ranged _ s = (s, err (failure (codes "ERR syntax error")))
server _ s = (s, err (failure (codes "ERR syntax error")))

server-KeepsStreams : KeepsStreams server (λ s key. s)
unfolding Bytes-discrete
server-KeepsStreams = record {
  adds = λ key fields s. inr (
    format_int (pos (length s)),
    refl,
    ap (λ (m : Map Bytes). s ++ record { id = format_int (pos (length s)); fields = m } ∷ [])
        (fields_of-field_arguments fields),
  );
  ranges = λ key n s small. inr (
      ap (λ o. ok (array_of (entry_values (take (number_or_zero o) s))))
        (parse_int-format_int (pos (suc n)) small));
}

abbrev relay : Relay
relay = record {
  rooms = [];
  handled = false;
  running = true;
  start_time = 0;
  prefix = codes "sr:";
  total_messages = 0;
}

abbrev tags : Map Bytes
tags = (codes "lang", codes "en") ∷ []

-- An encoding that is right for these tags.
abbrev encode : Map Bytes → Bytes
encode m = codes "tags"

abbrev decode : Bytes → Map Bytes
decode text = tags

abbrev saying : Bytes → Message
saying text = record {
  id = [];
  room_id = [];
  sender_id = codes "bob";
  kind = codes "text";
  content = text;
  metadata = tags;
  timestamp = none;
}

abbrev stored : List Message
stored = saying (codes "hello") ∷ saying (codes "bye") ∷ []

encoded : codes "tags" ≢ []
encoded = λ e. absurd cc

program : Unit {0}
unfolding inject_history_to_redis publish_to_stream x_add unless_error as_string Bytes-discrete
program = tt

get_history_from_redis-inject_example :
    let (next, stamped, _) =
      inject_history_to_redis server encode 12 relay (codes "lobby") stored [] in
    (stamped ≡ all_prepared 12 (codes "lobby") stored)
    × (length (ids_of next) ≡ 2)
    × (IsRefused (server (range_command (stream_key relay (codes "lobby")) 9) next).1
        ⊎ ((get_history_from_redis server decode relay (codes "lobby") 10 next).1
            ≡ ok (numbered (ids_of next) stamped)))
unfolding program
get_history_from_redis-inject_example =
    get_history_from_redis-inject server (λ s key. s) server-KeepsStreams encode decode 12 relay
      (codes "lobby") stored 9 [] refl (omega arith) (omega arith)
      ((refl, encoded, 12, refl, omega arith), ((refl, encoded, 12, refl, omega arith), tt)) refl

abbrev null_reply : Value
null_reply = value bulk_string [] (pos 0) nil true false

abbrev text_reply : Option Bytes → Value
text_reply none = null_reply
text_reply (some text) = bulk text

-- A server with keys, and one entry in every stream.
abbrev key_server : Do (Map Bytes)
key_server (name ∷ key ∷ args) s =
    if str_eq name (codes "SET")
    then (insert key (first args) s, ok (bulk (codes "OK")))
    else if str_eq name (codes "GET")
    then (s, ok (text_reply (lookup key s)))
    else (s, ok (array_of (entry_values (entry ∷ []))))
  where
    first : List Bytes → Bytes
    first [] = []
    first (text ∷ rest) = text

    entry : StreamEntry
    entry = record { id = codes "5-0"; fields = (codes "content", codes "hello") ∷ [] }
key_server _ s = (s, err (failure (codes "ERR unknown command")))

abbrev ann : Subscriber
ann = record { user_id = codes "ann"; conn = 1; receive = λ msg attempt. received }

-- The offset that this leaves.
offset_left :
    (redis_recover_and_deliver key_server decode relay (codes "lobby") ann none []).0
    ≡ (codes "sr:offset:lobby:ann", codes "5-0") ∷ []
unfolding redis_recover_and_deliver redis_recover_messages recovery_start get_offset x_range
    unless_error parse_entries parse_each_entry parse_single_entry as_array as_string as_map is_even
    pairs_of insert lookup Bytes-discrete offset_key stream_key start_after parse_each
    parse_stream_entry deliver_recovered save_offset
offset_left = refl
