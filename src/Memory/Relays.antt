-- ===== src/Memory/Relays.antt =====
-- The methods of `MemoryRelay` (engine/memory_relay.go).
use stream_relay.Prelude.{
  ℕ, ◌+◌, ◌*◌, ◌%◌, Bool, true, false, Option, none, some, List, [], ◌∷◌, Bytes, ◌==◌,
  if◌then◌else◌, length, keys, lookup, insert, delete,
}
use stream_relay.Protocol.{Error, room_not_found, room_exists, Result, ok, err}
use stream_relay.Types.{
  Message, Subscriber, DeliveryResult, RoomConfig, room_type_direct, PublishOptions,
  default_publish_options, Event, event_publish, publication, PresenceInfo, Effect,
}
use stream_relay.Decimal.{int64_bound, int64_of, pos}
use stream_relay.DirectRooms.{generate_dm_room_id}
use stream_relay.RingBuffer.{add}
use stream_relay.Memory.{MemoryRoom, MemoryRelay, MemoryConfig}
use stream_relay.Memory.Rooms.{emit, new_room, subscribe, unsubscribe, close_room}
use stream_relay.Memory.Deliveries.{broadcast, panics}
use stream_relay.Memory.MessageIds.{generate_message_id_from_time}

unfoldable pub default_memory_config : MemoryConfig
default_memory_config = record {
  default_history_size = 100;
  default_history_ttl = 24 * 3600000;
  handled = false;
}

unfoldable pub new_memory_relay : ℕ → MemoryConfig → MemoryRelay
new_memory_relay now cfg = record {
  rooms = [];
  handled = cfg.handled;
  running = true;
  start_time = now;
  message_seq = 0;
  total_messages = 0;
  default_history_size = if cfg.default_history_size == 0 then 100 else cfg.default_history_size;
  default_history_ttl = cfg.default_history_ttl;
}

unfoldable pub set_event_handler : MemoryRelay → Bool → MemoryRelay
set_event_handler relay handled = record relay { handled = handled }

-- `messageSeq.Add(1)` wraps around.
unfoldable pub next_seq : MemoryRelay → ℕ
next_seq relay = (relay.message_seq + 1) % (2 * int64_bound)

unfoldable pub generate_message_id : ℕ → MemoryRelay → MemoryRelay × Bytes
generate_message_id now relay = (
  record relay { message_seq = next_seq relay },
  generate_message_id_from_time (pos now) (int64_of (next_seq relay)),
)

unfoldable pub create_room : ℕ → MemoryRelay → RoomConfig → MemoryRelay × Result MemoryRoom
create_room now relay config =
    let size =
      if config.history_size == 0 then relay.default_history_size else config.history_size in
    let room = new_room now config size in
    elim (lookup config.id relay.rooms) [
      | some _ ↦ (relay, err (room_exists config.id))
      | none ↦ (record relay { rooms = insert config.id room relay.rooms }, ok room)
    ]

unfoldable pub get_room : MemoryRelay → Bytes → Option MemoryRoom
get_room relay id = lookup id relay.rooms

unfoldable pub get_or_create_room : ℕ → MemoryRelay → RoomConfig → MemoryRelay × Result MemoryRoom
get_or_create_room now relay config = elim (get_room relay config.id) [
  | some room ↦ (relay, ok room)
  | none ↦ create_room now relay config
]

-- What a method that returns an error alone does: the next state, its effects, the error.
abbrev pub Done : Type 0
Done = MemoryRelay × List Effect × Option Error

unfoldable pub delete_room : MemoryRelay → Bytes → Done
delete_room relay id = elim (get_room relay id) [
  | none ↦ (relay, [], some (room_not_found id))
  | some room ↦ (record relay { rooms = delete id relay.rooms }, (close_room room).1, none)
]

unfoldable pub list_rooms : MemoryRelay → List Bytes
list_rooms relay = keys relay.rooms

-- The room at a key is changed in place.
abbrev pub put_room : MemoryRelay → Bytes → MemoryRoom → MemoryRelay
put_room relay id room = record relay { rooms = insert id room relay.rooms }

unfoldable pub relay_subscribe : ℕ → MemoryRelay → Bytes → Subscriber → Option PresenceInfo → Done
relay_subscribe now relay id sub info = elim (get_room relay id) [
  | none ↦ (relay, [], some (room_not_found id))
  | some room ↦
      let (next, effects) = subscribe relay.handled now room sub info in
      (put_room relay id next, effects, none)
]

unfoldable pub relay_unsubscribe : ℕ → MemoryRelay → Bytes → Bytes → Done
relay_unsubscribe now relay id user = elim (get_room relay id) [
  | none ↦ (relay, [], some (room_not_found id))
  | some room ↦
      let (next, effects) = unsubscribe relay.handled now room user in
      (put_room relay id next, effects, none)
]

-- What `Publish` leaves behind: the next state, the message with what it sets, the users whom panics
-- unsubscribe later, the calls of the event handler, and the results.
pub record Published : Type 0 where
  pub relay : MemoryRelay
  pub message : Message
  pub panicked : List Bytes
  pub effects : List Effect
  pub results : Result (List DeliveryResult)

abbrev pub options_or_default : Option PublishOptions → PublishOptions
options_or_default none = default_publish_options
options_or_default (some opts) = opts

-- The timestamp of a message that has none.
abbrev pub timestamp_or : ℕ → Option ℕ → Option ℕ
timestamp_or now none = some now
timestamp_or now (some t) = some t

-- The message with what `Publish` sets.
unfoldable pub stamped : ℕ → MemoryRelay → Bytes → Message → Message
stamped now relay id msg = record msg {
  timestamp = timestamp_or now msg.timestamp;
  room_id = id;
  id = (generate_message_id now relay).1;
}

-- The room, after the message is stored if that is asked for.
unfoldable pub stored : PublishOptions → Message → MemoryRoom → MemoryRoom
stored opts msg room =
    if opts.persist then record room { history = add room.history (some msg) } else room

unfoldable pub publish :
    (Bytes → Bool) → ℕ → MemoryRelay → Bytes → Message → Option PublishOptions → Published
publish in_time now relay id msg opts =
    let options = options_or_default opts in
    let sent = stamped now relay id msg in
    elim (get_room relay id) [
      | none ↦ record {
        relay = relay;
        message = msg;
        panicked = [];
        effects = [];
        results = err (room_not_found id);
      }
      | some room ↦
          let results = broadcast in_time room sent (some options) in
          let event : Event = record {
            kind = event_publish;
            room_id = id;
            user_id = sent.sender_id;
            timestamp = now;
            payload = publication sent.id (length results);
          } in
          record {
            relay = record relay {
              rooms = insert id (stored options sent room) relay.rooms;
              message_seq = next_seq relay;
              total_messages = (relay.total_messages + 1) % (2 * int64_bound);
            };
            message = sent;
            panicked = panics (some options) sent room.subscribers;
            effects = emit relay.handled event;
            results = ok results;
          }
    ]

unfoldable pub publish_direct :
    (Bytes → Bool) → ℕ → MemoryRelay → Bytes → Bytes → Message → Option PublishOptions → Published
publish_direct in_time now relay sender recipient msg opts =
    let id = generate_dm_room_id sender recipient in
    let config : RoomConfig = record {
      id = id;
      kind = room_type_direct;
      history_size = 0;
      history_ttl = 0;
      members = sender ∷ recipient ∷ [];
    } in
    let (next, made) = get_or_create_room now relay config in
    elim made [
      | err e ↦ record { relay = next; message = msg; panicked = []; effects = []; results = err e }
      | ok _ ↦ publish in_time now next id (record msg { room_id = id; sender_id = sender }) opts
    ]
