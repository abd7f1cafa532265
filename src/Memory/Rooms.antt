-- ===== src/Memory/Rooms.antt =====
-- The methods of `MemoryRoom` (engine/memory_relay.go), but for the delivery of messages.
use stream_relay.Prelude.{
  ℕ, Bool, true, false, Option, none, some, List, [], ◌∷◌, ◌++◌, Bytes, ◌==◌, if◌then◌else◌, length,
  Map, lookup, insert, delete,
}
use stream_relay.Types.{
  Message, Subscriber, RoomConfig, RoomType, PresenceInfo, Event, event_subscribe,
  event_unsubscribe, no_data, Effect, closed, emitted,
}
use stream_relay.RingBuffer.{RingBuffer, new_ring_buffer, add, get_all, get_last}
use stream_relay.Memory.{MemoryRoom}

-- A call of the event handler, if there is one.
abbrev pub emit : Bool → Event → List Effect
emit handled event = if handled then emitted event ∷ [] else []

-- A call of `Close` on the connection that a map read found.
abbrev pub close_found : Option Subscriber → List Effect
close_found none = []
close_found (some sub) = closed sub.conn ∷ []

unfoldable pub new_room : ℕ → RoomConfig → ℕ → MemoryRoom
new_room now config history_size = record {
  config = config;
  subscribers = [];
  presence = [];
  history = new_ring_buffer history_size;
  last_active = now;
}

unfoldable pub room_id : MemoryRoom → Bytes
room_id room = room.config.id

unfoldable pub room_type : MemoryRoom → RoomType
room_type room = room.config.kind

-- The presence of a subscriber that brings none.
abbrev pub presence_or_new : ℕ → Bytes → Option PresenceInfo → PresenceInfo
presence_or_new now user none = record {
  user_id = user;
  client_id = [];
  connected_at = some now;
  info = [];
}
presence_or_new now user (some info) = info

unfoldable pub subscribe :
    Bool → ℕ → MemoryRoom → Subscriber → Option PresenceInfo → MemoryRoom × List Effect
subscribe handled now room sub info =
    let user = sub.user_id in
    let existing = close_found (lookup user room.subscribers) in
    let event : Event = record {
      kind = event_subscribe;
      room_id = room.config.id;
      user_id = user;
      timestamp = now;
      payload = no_data;
    } in
    (
      record room {
        subscribers = insert user sub room.subscribers;
        presence = insert user (presence_or_new now user info) room.presence;
        last_active = now;
      },
      existing ++ emit handled event,
    )

unfoldable pub unsubscribe : Bool → ℕ → MemoryRoom → Bytes → MemoryRoom × List Effect
unsubscribe handled now room user =
    let event : Event = record {
      kind = event_unsubscribe;
      room_id = room.config.id;
      user_id = user;
      timestamp = now;
      payload = no_data;
    } in
    elim (lookup user room.subscribers) [
      | none ↦ (room, [])
      | some sub ↦ (
        record room {
          subscribers = delete user room.subscribers;
          presence = delete user room.presence;
        },
        closed sub.conn ∷ emit handled event,
      )
    ]

-- The loop of `GetPresence`.
unfoldable pub presence_infos : Map PresenceInfo → List PresenceInfo
presence_infos [] = []
presence_infos ((user, info) ∷ rest) = info ∷ presence_infos rest

unfoldable pub room_presence : MemoryRoom → List PresenceInfo
room_presence room = presence_infos room.presence

unfoldable pub subscriber_count : MemoryRoom → ℕ
subscriber_count room = length room.subscribers

unfoldable pub is_subscribed : MemoryRoom → Bytes → Bool
is_subscribed room user = elim (lookup user room.subscribers) [ none ↦ false | some _ ↦ true ]

-- A limit that is negative is 0 here: the code treats the two alike.
unfoldable pub get_history : MemoryRoom → ℕ → List Message
get_history room limit = if limit == 0 then get_all room.history else get_last room.history limit

-- The loop of `Close`.
unfoldable pub close_each : Map Subscriber → List Effect
close_each [] = []
close_each ((user, sub) ∷ rest) = closed sub.conn ∷ close_each rest

unfoldable pub close_room : MemoryRoom → MemoryRoom × List Effect
close_room room = (record room { subscribers = []; presence = [] }, close_each room.subscribers)

-- The loop of `LoadExternalMessages`.
unfoldable pub add_external : List (Option Message) → RingBuffer Message → RingBuffer Message
add_external [] history = history
add_external (msg ∷ msgs) history = add_external msgs (add history msg)

unfoldable pub load_external_messages : MemoryRoom → List (Option Message) → MemoryRoom
load_external_messages room msgs = record room { history = add_external msgs room.history }
