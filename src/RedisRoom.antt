-- ===== src/RedisRoom.antt =====
-- engine/room.go: a room of the relay on Redis. It delivers as the memory room does, with the same
-- loops, and listens to its stream besides.
pub mod Members
pub mod Listening
pub mod Rounds
mod Tests
use stream_relay.Prelude.{
  ℕ, suc, ◌+◌, ◌-◌, ◌*◌, min, Bool, true, false, not, ◌||◌, Option, none, some, List, [], ◌∷◌, ◌++◌,
  Bytes, str_eq, leb, if◌then◌else◌, length, Map, keys, lookup, insert, delete,
}
use stream_relay.Protocol.{Error, delivery_panic, Result, ok, err}
use stream_relay.Types.{
  Message, Subscriber, RoomType, RoomConfig, PublishOptions, PresenceInfo, DeliveryResult, Event,
  event_subscribe, event_unsubscribe, event_error, no_data, delivery_panicked, stream_errors,
  loop_panicked, Effect, closed,
}
use stream_relay.Memory.Rooms.{emit, close_found, presence_or_new, close_each, presence_infos}
use stream_relay.Memory.Deliveries.{safe_deliver, skips, deliver_each, offline_each}

-- `stop_closed` says whether `stopChan` is closed, and `loops` how many goroutines run `listenLoop`.
pub record Room : Type 0 where
  pub config : RoomConfig
  pub subscribers : Map Subscriber
  pub presence : Map PresenceInfo
  pub running : Bool
  pub stop_closed : Bool
  pub loops : ℕ
  pub last_active : ℕ

unfoldable pub new_redis_room : ℕ → RoomConfig → Room
new_redis_room now config = record {
  config = config;
  subscribers = [];
  presence = [];
  running = false;
  stop_closed = false;
  loops = 0;
  last_active = now;
}

unfoldable pub room_config : Room → RoomConfig
room_config room = room.config

unfoldable pub subscribe : Bool → ℕ → Room → Subscriber → Option PresenceInfo → Room × List Effect
subscribe handled now room sub info =
    let user = sub.user_id in
    let existing = close_found (lookup user room.subscribers) in
    let event : Event = record {
      kind = event_subscribe;
      room_id = room.config.id;
      user_id = user;
      timestamp = now;
      payload = no_data;
    } in
    (
      record room {
        subscribers = insert user sub room.subscribers;
        presence = insert user (presence_or_new now user info) room.presence;
        last_active = now;
      },
      existing ++ emit handled event,
    )

unfoldable pub unsubscribe : Bool → ℕ → Room → Bytes → Room × List Effect
unsubscribe handled now room user =
    let event : Event = record {
      kind = event_unsubscribe;
      room_id = room.config.id;
      user_id = user;
      timestamp = now;
      payload = no_data;
    } in
    elim (lookup user room.subscribers) [
      | none ↦ (room, [])
      | some sub ↦ (
        record room {
          subscribers = delete user room.subscribers;
          presence = delete user room.presence;
          last_active = now;
        },
        closed sub.conn ∷ emit handled event,
      )
    ]

unfoldable pub get_subscriber : Room → Bytes → Option Subscriber
get_subscriber room user = lookup user room.subscribers

-- The loop of `GetSubscribers`.
unfoldable pub subscribers_of : Map Subscriber → List Subscriber
subscribers_of [] = []
subscribers_of ((user, sub) ∷ rest) = sub ∷ subscribers_of rest

unfoldable pub get_subscribers : Room → List Subscriber
get_subscribers room = subscribers_of room.subscribers

unfoldable pub get_subscriber_ids : Room → List Bytes
get_subscriber_ids room = keys room.subscribers

unfoldable pub redis_subscriber_count : Room → ℕ
redis_subscriber_count room = length room.subscribers

unfoldable pub redis_is_subscribed : Room → Bytes → Bool
redis_is_subscribed room user = elim (get_subscriber room user) [ none ↦ false | some _ ↦ true ]

-- The loop of `IsMember` and `AddMember`.
unfoldable pub has_member : List Bytes → Bytes → Bool
has_member [] user = false
has_member (m ∷ ms) user = str_eq m user || has_member ms user

unfoldable pub is_member : Room → Bytes → Bool
is_member room user = has_member room.config.members user

abbrev pub with_members : Room → List Bytes → Room
with_members room members = record room { config = record room.config { members = members } }

unfoldable pub add_member : Room → Bytes → Room
add_member room user =
    if has_member room.config.members user
    then room
    else with_members room (room.config.members ++ user ∷ [])

-- The loop of `RemoveMember`.
unfoldable pub without_member : List Bytes → Bytes → List Bytes
without_member [] user = []
without_member (m ∷ ms) user =
    let rest = without_member ms user in if not (str_eq m user) then m ∷ rest else rest

unfoldable pub remove_member : Room → Bytes → Room × List Effect
remove_member room user =
    let next = with_members room (without_member room.config.members user) in
    elim (lookup user room.subscribers) [
      | none ↦ (next, [])
      | some sub ↦ (
        record next {
          subscribers = delete user room.subscribers;
          presence = delete user room.presence;
        },
        closed sub.conn ∷ [],
      )
    ]

unfoldable pub redis_room_presence : Room → List PresenceInfo
redis_room_presence room = presence_infos room.presence

unfoldable pub redis_broadcast :
    (Bytes → Bool) → Room → Message → Option PublishOptions → List DeliveryResult
redis_broadcast in_time room msg opts =
    deliver_each in_time opts msg room.subscribers
    ++ offline_each opts msg room.subscribers room.config.members

-- What was recovered from the panic that an error tells of.
abbrev pub recovered_of : Option Error → Option Error
recovered_of (some (delivery_panic user recovered)) = some recovered
recovered_of _ = none

-- The event of a delivery that panicked, with what was recovered.
abbrev pub panic_event : Bool → ℕ → Room → Message → DeliveryResult → List Effect
panic_event handled now room msg result = elim (recovered_of result.error) [
  | none ↦ []
  | some e ↦ emit handled (record {
    kind = event_error;
    room_id = room.config.id;
    user_id = result.user_id;
    timestamp = now;
    payload = delivery_panicked e msg.id;
  })
]

-- The events of the deliveries that panic, each of which also unsubscribes its user.
unfoldable pub panic_events :
    Bool → ℕ → Room → Option PublishOptions → Message → Map Subscriber → List Effect
panic_events handled now room opts msg [] = []
panic_events handled now room opts msg ((user, sub) ∷ rest) =
    let events = panic_events handled now room opts msg rest in
    let (result, broke) = safe_deliver user sub msg in
    if skips opts msg user
    then events
    else if broke
    then panic_event handled now room msg result ++ events
    else events

unfoldable pub start : Room → Room
start room =
    if room.running
    then room
    else record room { running = true; stop_closed = false; loops = suc room.loops }

unfoldable pub stop : Room → Room
stop room = if room.running then record room { running = false; stop_closed = true } else room

-- A goroutine of `listenLoop` comes to its `select`, and returns if `stopChan` is closed by then.
unfoldable pub check_stop : Room → Room
check_stop room = if room.stop_closed then record room { loops = room.loops - 1 } else room

-- A goroutine of `listenLoop` panics: another takes its place if the room runs.
unfoldable pub restart_loop : Room → Room
restart_loop room = if room.running then room else record room { loops = room.loops - 1 }

-- The same with the event that tells of it.
unfoldable pub listen_panicked : Bool → ℕ → Room → Error → Room × List Effect
listen_panicked handled now room recovered =
    let event : Event = record {
      kind = event_error;
      room_id = room.config.id;
      user_id = [];
      timestamp = now;
      payload = loop_panicked recovered;
    } in
    (restart_loop room, emit handled event)

unfoldable pub close_redis_room : Room → Room × List Effect
close_redis_room room =
    (record (stop room) { subscribers = []; presence = [] }, close_each room.subscribers)
