-- ===== src/Memory/Tests.antt =====
-- Runs of the memory relay, and its theorems at inputs that meet their hypotheses.
use stream_relay.Prelude.{
  ℕ, zero, suc, ◌≡◌, ◌≢◌, refl, Bool, true, false, none, some, List, [], ◌∷◌, ◌++◌, ◌≤◌, inl, arith,
  Bytes, codes, Bytes-discrete, lookup, insert, delete, Distinct, length, get_or, ap,
}
use stream_relay.Protocol.{delivery_panic, failure, Result, ok}
use stream_relay.Types.{
  Message, Subscriber, received, refused, panicked, DeliveryResult, delivery_success,
  delivery_failed, delivery_offline, RoomConfig, room_type_group, default_publish_options,
}
use stream_relay.Decimal.{
  pos, negsuc, parse_int, positive, negative, parse_nat, digits_value, int64_of, format_int,
  format_nat, digits_from,
}
use stream_relay.DirectRooms.{string_lt}
use stream_relay.RingBuffer
use stream_relay.RingBuffer.{RingBuffer, get_all, collect}
use stream_relay.RingBuffer.Window.{IsValid}
use stream_relay.Memory.{MemoryRoom, MemoryRelay}
use stream_relay.Memory.Rooms.{subscribe, unsubscribe, get_history, close_each, close_room}
use stream_relay.Memory.Deliveries.{
  attempts, safe_deliver, deliver_each, panics, offline_each, broadcast, drop_panicked,
}
use stream_relay.Memory.MessageIds.{
  generate_message_id_from_time, parse_message_id, scan_int, scan_token, skip_spaces, span_digits,
  scan_dash, compare_parsed, compare_message_ids, less, greater,
}
use stream_relay.Memory.Relays.{
  new_memory_relay, default_memory_config, next_seq, generate_message_id, create_room, get_room,
  stamped, stored, publish,
}
use stream_relay.Memory.Requests.{
  recover_messages, close_rooms, close_relay, get_history_with_fallback,
}
use stream_relay.Memory.Reachability.{started, stepped, created, Reachable-RoomsAreValid}
use stream_relay.Memory.RoomSets.{RoomsAreValid}
use stream_relay.Memory.Results.{results_for, broadcast_lem}
use stream_relay.Memory.Retries.{Delivery, safe_deliver-Delivery}
use stream_relay.Memory.Recovering.{recover_messages-publish}
use stream_relay.Memory.Series.{Posting, publish_each, AllSent, get_history-publish_each}
use stream_relay.Memory.Histories.{
  KeepsLimit, get_history_with_fallback_lem, compare_message_ids-generate_message_id,
}

abbrev ann : Subscriber
ann = record { user_id = codes "ann"; conn = 1; receive = λ msg n. received }

-- A connection that takes a message the third time it is offered, and one that panics.
abbrev slow : Subscriber
slow = record {
  user_id = codes "bob";
  conn = 2;
  receive = λ msg n. elim n [
    | zero ↦ refused (failure (codes "busy"))
    | suc zero ↦ refused (failure (codes "busy"))
    | suc (suc _) ↦ received
  ];
}

abbrev broken : Subscriber
broken = record {
  user_id = codes "cyn";
  conn = 3;
  receive = λ msg n. panicked (failure (codes "gone"));
}

abbrev config : RoomConfig
config = record {
  id = codes "lobby";
  kind = room_type_group;
  history_size = 3;
  history_ttl = 0;
  members = codes "ann" ∷ codes "dan" ∷ [];
}

abbrev hello : Message
hello = record {
  id = [];
  room_id = [];
  sender_id = codes "ann";
  kind = codes "text";
  content = codes "hello";
  metadata = [];
  timestamp = none;
}

abbrev seen : Message
seen = record hello { id = codes "7-1" }

abbrev history_of_one : RingBuffer Message
history_of_one = record { messages = some seen ∷ none ∷ none ∷ []; size = 3; head = 1; count = 1 }

abbrev lobby : MemoryRoom
lobby = record {
  config = config;
  subscribers = (codes "ann", ann) ∷ (codes "bob", slow) ∷ (codes "cyn", broken) ∷ [];
  presence = [];
  history = history_of_one;
  last_active = 0;
}

abbrev relay : MemoryRelay
relay = record {
  rooms = (codes "lobby", lobby) ∷ [];
  handled = true;
  running = true;
  start_time = 0;
  message_seq = 1;
  total_messages = 1;
  default_history_size = 100;
  default_history_ttl = 0;
}

abbrev everyone : Bytes → Bool
everyone user = true

abbrev dan_offline : DeliveryResult
dan_offline = record { user_id = codes "dan"; status = delivery_offline; error = none }

abbrev bob_success : DeliveryResult
bob_success = record { user_id = codes "bob"; status = delivery_success; error = none }

abbrev cyn_failed : DeliveryResult
cyn_failed = record {
  user_id = codes "cyn";
  status = delivery_failed;
  error = some (delivery_panic (codes "cyn") (failure (codes "gone")));
}

-- External storage that has one message for any room, and keeps to its limit.
abbrev storage : Bytes → ℕ → Result (List Message)
storage id zero = ok []
storage id (suc limit) = ok (hello ∷ [])

storage-KeepsLimit : KeepsLimit storage
storage-KeepsLimit id zero msgs e = ground arith
storage-KeepsLimit id (suc limit) msgs e = ground arith

history-IsValid : IsValid history_of_one
history-IsValid = record {
  slots_are_size = refl;
  positive = omega arith;
  head_in = omega arith;
  count_in = omega arith;
}

apart : (a b : Bytes) → get_or a 0 0 ≢ get_or b 0 0 → a ≢ b
apart a b h = λ e. h (ap (λ xs. get_or xs 0 0) e)

lobby-Distinct : Distinct lobby.subscribers
lobby-Distinct = (
  (
    apart (codes "ann") (codes "bob") (λ e. absurd (omega arith)),
    (apart (codes "ann") (codes "cyn") (λ e. absurd (omega arith)), tt),
  ),
  ((apart (codes "bob") (codes "cyn") (λ e. absurd (omega arith)), tt), (tt, tt)),
)

program : Unit {0}
unfolding parse_message_id scan_int parse_int scan_token skip_spaces span_digits positive negative
    parse_nat digits_value scan_dash compare_message_ids compare_parsed string_lt
    generate_message_id_from_time generate_message_id next_seq int64_of format_int format_nat
    digits_from lookup insert delete Bytes-discrete broadcast deliver_each offline_each panics
    safe_deliver attempts drop_panicked unsubscribe subscribe publish stamped stored get_room
    create_room close_relay close_rooms close_room close_each new_memory_relay
    default_publish_options default_memory_config RingBuffer.add get_all collect
program = tt

ids_read :
    (parse_message_id (codes "7-12") ≡ some (pos 7, pos 12))
    × (parse_message_id (codes "7") ≡ none)
    × (parse_message_id (codes " 7--3x") ≡ some (pos 7, negsuc 2))
unfolding program
ids_read = (refl, refl, refl)

-- A text that is no identifier is compared as a text, and so the order has a cycle.
ids_in_a_cycle :
    (compare_message_ids (codes "10-1") (codes "5") ≡ less)
    × (compare_message_ids (codes "5") (codes "9-1") ≡ less)
    × (compare_message_ids (codes "10-1") (codes "9-1") ≡ greater)
unfolding program
ids_in_a_cycle = (refl, refl, refl)

reported :
    broadcast everyone lobby hello (some default_publish_options)
    ≡ bob_success ∷ cyn_failed ∷ dan_offline ∷ []
unfolding program
reported = refl

abbrev first_room : MemoryRelay
first_room = (create_room 5 (new_memory_relay 0 default_memory_config) config).0

Reachable-RoomsAreValid_example : RoomsAreValid first_room.rooms
Reachable-RoomsAreValid_example =
    Reachable-RoomsAreValid first_room
      (stepped (started 0 default_memory_config) (created 5 config))

broadcast_lem_example :
    results_for (codes "dan") (broadcast everyone lobby hello (some default_publish_options))
    ≡ dan_offline ∷ []
unfolding program
broadcast_lem_example =
    broadcast_lem everyone lobby hello (some default_publish_options) (codes "dan") lobby-Distinct

safe_deliver-Delivery_example : Delivery (codes "bob") slow hello 0 3 (bob_success, false)
unfolding program
safe_deliver-Delivery_example = safe_deliver-Delivery (codes "bob") slow hello

abbrev sent : Message
sent = record hello { id = codes "9-2"; room_id = codes "lobby"; timestamp = some 9 }

-- Two calls whose messages are kept, and between them one for a room that is missing and one whose message
-- is not kept.
abbrev calls : List Posting
calls =
    record { now = 9; room = codes "lobby"; message = hello; options = none }
    ∷ record { now = 10; room = codes "den"; message = hello; options = none }
    ∷ record {
      now = 11;
      room = codes "lobby";
      message = hello;
      options = some (record { skip_sender = true; priority = 0; ttl = 0; persist = false });
    }
    ∷ record { now = 12; room = codes "lobby"; message = hello; options = none }
    ∷ []

abbrev sent_later : Message
sent_later = record hello { id = codes "12-4"; room_id = codes "lobby"; timestamp = some 12 }

get_history-publish_each_example :
    let (last, messages) = publish_each everyone relay calls in
    AllSent (codes "lobby") calls messages
    × (next : MemoryRoom) × (get_room last (codes "lobby") ≡ some next)
    × (get_history next 2 ≡ sent ∷ sent_later ∷ [])
unfolding program
get_history-publish_each_example =
    get_history-publish_each everyone relay (codes "lobby") lobby calls 2 refl history-IsValid

recover_messages-publish_example :
    recover_messages
      (publish everyone 9 relay (codes "lobby") hello (some default_publish_options)).relay
      (codes "lobby")
      (some (record { from_id = codes "7-1"; limit = 1; since = none }))
    ≡ ok (sent ∷ [])
unfolding program
recover_messages-publish_example =
    recover_messages-publish everyone 9 relay (codes "lobby") lobby hello default_publish_options
      (record { from_id = codes "7-1"; limit = 1; since = none }) [] [] seen refl history-IsValid
      refl refl tt refl refl (inl (omega arith))

get_history_with_fallback_lem_example :
    (msgs : List Message) × (get_history_with_fallback relay (codes "lobby") 5 (some storage)
      ≡ ok msgs)
    × ((external : List Message) × (msgs ≡ external ++ get_history lobby 5))
    × (length msgs ≤ 5)
unfolding program
get_history_with_fallback_lem_example =
    get_history_with_fallback_lem relay (codes "lobby") lobby 5 storage refl (omega arith)
      storage-KeepsLimit

compare_message_ids-generate_message_id_example :
    compare_message_ids (codes "5-2") (codes "6-3") ≡ less
unfolding program
compare_message_ids-generate_message_id_example =
    compare_message_ids-generate_message_id 5 6 relay (omega arith) (omega arith) (omega arith)
