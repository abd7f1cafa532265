-- ===== src/RedisRelay.antt =====
-- engine/relay.go: the relay on Redis, its rooms and what it writes to and reads from their streams. What
-- the stream answers is an argument, and so is the JSON encoding of metadata.
pub mod Entries
pub mod Twice
pub mod Recovery
pub mod History
pub mod Injected
pub mod Injecting
pub mod Offsets
pub mod Making
pub mod Failing
mod StreamTests
mod MakingTests
mod Tests
use stream_relay.Prelude.{
  ℕ, ◌+◌, ◌%◌, ◌*◌, Bool, true, false, Option, none, some, List, [], ◌∷◌, ◌++◌, Bytes, codes,
  str_eq, if◌then◌else◌, length, Map, keys, lookup, insert, delete,
}
use stream_relay.Protocol.{Error, room_not_found, room_exists, Result, ok, err}
use stream_relay.Types.{
  Message, Subscriber, DeliveryResult, RoomConfig, room_type_direct, PublishOptions,
  default_publish_options, Event, event_publish, publication, PresenceInfo, Effect,
}
use stream_relay.Decimal.{pos, negsuc, int64_bound, format_int, parse_int}
use stream_relay.DirectRooms.{generate_dm_room_id}
use stream_relay.Memory.Rooms.{emit}
use stream_relay.Streams.{StreamEntry}
use stream_relay.RedisRoom
use stream_relay.RedisRoom.{
  Room, new_redis_room, redis_room_presence, redis_broadcast, close_redis_room,
}

pub record Relay : Type 0 where
  pub rooms : Map Room
  pub handled : Bool
  pub running : Bool
  pub start_time : ℕ
  pub prefix : Bytes
  pub total_messages : ℕ

unfoldable pub stream_key : Relay → Bytes → Bytes
stream_key relay room_id = relay.prefix ++ codes "stream:" ++ room_id

unfoldable pub offset_key : Relay → Bytes → Bytes → Bytes
offset_key relay room_id user = relay.prefix ++ codes "offset:" ++ room_id ++ codes ":" ++ user

-- A room starts to listen as soon as it is there.
unfoldable pub create_redis_room : ℕ → Relay → RoomConfig → Relay × Result Room
create_redis_room now relay config =
    let room = RedisRoom.start (new_redis_room now config) in
    elim (lookup config.id relay.rooms) [
      | some _ ↦ (relay, err (room_exists config.id))
      | none ↦ (record relay { rooms = insert config.id room relay.rooms }, ok room)
    ]

unfoldable pub get_redis_room : Relay → Bytes → Option Room
get_redis_room relay id = lookup id relay.rooms

unfoldable pub get_or_create_redis_room : ℕ → Relay → RoomConfig → Relay × Result Room
get_or_create_redis_room now relay config = elim (get_redis_room relay config.id) [
  | some room ↦ (relay, ok room)
  | none ↦ create_redis_room now relay config
]

-- The next state, the effects, and the error.
abbrev pub Done : Type 0
Done = Relay × List Effect × Option Error

unfoldable pub delete_redis_room : Relay → Bytes → Done
delete_redis_room relay id = elim (get_redis_room relay id) [
  | none ↦ (relay, [], some (room_not_found id))
  | some room ↦ (record relay { rooms = delete id relay.rooms }, (close_redis_room room).1, none)
]

unfoldable pub list_redis_rooms : Relay → List Bytes
list_redis_rooms relay = keys relay.rooms

unfoldable pub redis_subscribe : ℕ → Relay → Bytes → Subscriber → Option PresenceInfo → Done
redis_subscribe now relay id sub info = elim (get_redis_room relay id) [
  | none ↦ (relay, [], some (room_not_found id))
  | some room ↦
      let (next, effects) = RedisRoom.subscribe relay.handled now room sub info in
      (record relay { rooms = insert id next relay.rooms }, effects, none)
]

unfoldable pub redis_unsubscribe : ℕ → Relay → Bytes → Bytes → Done
redis_unsubscribe now relay id user = elim (get_redis_room relay id) [
  | none ↦ (relay, [], some (room_not_found id))
  | some room ↦
      let (next, effects) = RedisRoom.unsubscribe relay.handled now room user in
      (record relay { rooms = insert id next relay.rooms }, effects, none)
]

-- `UnixMilli` of a timestamp; Go's zero time is the start of the year 1.
abbrev pub unix_milli : Option ℕ → Bytes
unix_milli none = format_int (negsuc 62135596799999)
unix_milli (some t) = format_int (pos t)

-- The metadata as text: none, or their JSON.
abbrev pub metadata_text : (Map Bytes → Bytes) → Map Bytes → Bytes
metadata_text encode [] = []
metadata_text encode (entry ∷ entries) = encode (entry ∷ entries)

-- The fields that `publishToStream` writes, in the order of its source. `XAdd` sends them in whatever order
-- it ranges over their map; the reader looks each up by its name.
unfoldable pub stream_fields : (Map Bytes → Bytes) → Message → Map Bytes
stream_fields encode msg =
    (codes "sender_id", msg.sender_id)
    ∷ (codes "type", msg.kind)
    ∷ (codes "content", msg.content)
    ∷ (codes "metadata", metadata_text encode msg.metadata)
    ∷ (codes "timestamp", unix_milli msg.timestamp)
    ∷ []

abbrev pub field_or_empty : Bytes → Map Bytes → Bytes
field_or_empty name fields = elim (lookup name fields) [ none ↦ [] | some v ↦ v ]

-- The timestamp of an entry: unset if the field is missing or no int64. A time before 1970 does not
-- exist in the model, and stays unset too.
abbrev pub parsed_timestamp : Option Bytes → Option ℕ
parsed_timestamp none = none
parsed_timestamp (some v) = elim (parse_int v) [
  | none ↦ none
  | some n ↦ elim n [ pos t ↦ some t | negsuc _ ↦ none ]
]

-- `decode` is what `json.Unmarshal` leaves in the metadata.
abbrev pub parsed_metadata : (Bytes → Map Bytes) → Bytes → Map Bytes
parsed_metadata decode [] = []
parsed_metadata decode (c ∷ cs) = decode (c ∷ cs)

unfoldable pub parse_stream_entry : (Bytes → Map Bytes) → Bytes → StreamEntry → Message
parse_stream_entry decode room_id entry = record {
  id = entry.id;
  room_id = room_id;
  sender_id = field_or_empty (codes "sender_id") entry.fields;
  kind = field_or_empty (codes "type") entry.fields;
  content = field_or_empty (codes "content") entry.fields;
  metadata = parsed_metadata decode (field_or_empty (codes "metadata") entry.fields);
  timestamp = parsed_timestamp (lookup (codes "timestamp") entry.fields);
}

-- What `Publish` leaves behind: the next state, the message, the effects and the results.
pub record Published : Type 0 where
  pub relay : Relay
  pub message : Message
  pub effects : List Effect
  pub results : Result (List DeliveryResult)

abbrev pub redis_options : Option PublishOptions → PublishOptions
redis_options none = default_publish_options
redis_options (some opts) = opts

abbrev pub time_or : ℕ → Option ℕ → Option ℕ
time_or now none = some now
time_or now (some t) = some t

-- The message with its room and a timestamp.
unfoldable pub addressed : ℕ → Bytes → Message → Message
addressed now id msg = record msg { timestamp = time_or now msg.timestamp; room_id = id }

-- The broadcast of a message that has its id, and what follows it.
unfoldable pub sent : (Bytes → Bool) → ℕ → Relay → Room → Message → PublishOptions → Published
sent in_time now relay room msg opts =
    let results = redis_broadcast in_time room msg (some opts) in
    let event : Event = record {
      kind = event_publish;
      room_id = msg.room_id;
      user_id = msg.sender_id;
      timestamp = now;
      payload = publication msg.id (length results);
    } in
    record {
      relay = record relay { total_messages = (relay.total_messages + 1) % (2 * int64_bound) };
      message = msg;
      effects = emit relay.handled event;
      results = ok results;
    }

-- `added` is what the stream answers to the entry: its id, or an error.
unfoldable pub redis_publish :
    (Bytes → Bool) → Result Bytes → ℕ → Relay → Bytes → Message → Option PublishOptions → Published
redis_publish in_time added now relay id msg opts =
    let options = redis_options opts in
    let ready = addressed now id msg in
    elim (get_redis_room relay id) [
      | none ↦ record {
        relay = relay;
        message = msg;
        effects = [];
        results = err (room_not_found id);
      }
      | some room ↦
          if options.persist
          then elim added [
            | err e ↦ record { relay = relay; message = ready; effects = []; results = err e }
            | ok new_id ↦ sent in_time now relay room (record ready { id = new_id }) options
          ]
          else sent in_time now relay room ready options
    ]

unfoldable pub redis_presence : Relay → Bytes → Result (List PresenceInfo)
redis_presence relay id = elim (get_redis_room relay id) [
  | none ↦ err (room_not_found id)
  | some room ↦ ok (redis_room_presence room)
]
