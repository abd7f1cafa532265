-- ===== src/Memory/Closing.antt =====
-- Which connections the memory relay closes, and when.
use stream_relay.Prelude.{
  ℕ, ◌≡◌, refl, ap, ap₂, ◌∙◌, Bool, true, false, Option, none, some, List, [], ◌∷◌, ◌++◌, Bytes,
  str_eq, arith, if◌then◌else◌, ◌==◌, Map, lookup, insert, append-nil, lookup-insert, lookup-delete,
  Option-cases, inl, inr,
}
use stream_relay.Types.{
  Subscriber, RoomConfig, PresenceInfo, Event, event_subscribe, event_unsubscribe, no_data, Effect,
  closed, emitted,
}
use stream_relay.Memory.{MemoryRoom, MemoryRelay}
use stream_relay.Memory.Rooms.{
  emit, close_found, subscribe, unsubscribe, close_each, close_room, new_room,
}
use stream_relay.Memory.Relays.{create_room, get_room}
use stream_relay.Memory.Requests.{close_rooms, close_relay}

-- The connections that are closed, in order.
abbrev pub closed_in : List Effect → List ℕ
closed_in [] = []
closed_in (closed conn ∷ effects) = conn ∷ closed_in effects
closed_in (emitted event ∷ effects) = closed_in effects

abbrev pub conns : Map Subscriber → List ℕ
conns [] = []
conns ((user, sub) ∷ rest) = sub.conn ∷ conns rest

abbrev pub all_conns : Map MemoryRoom → List ℕ
all_conns [] = []
all_conns ((id, room) ∷ rest) = conns room.subscribers ++ all_conns rest

-- The connection that a user has in a room.
abbrev pub conn_of : Bytes → MemoryRoom → List ℕ
conn_of user room = elim (lookup user room.subscribers) [ none ↦ [] | some sub ↦ sub.conn ∷ [] ]

closed_in-append : (xs ys : List Effect) → closed_in (xs ++ ys) ≡ closed_in xs ++ closed_in ys
closed_in-append [] ys = refl
closed_in-append (closed conn ∷ xs) ys = ap (◌∷◌ conn) (closed_in-append xs ys)
closed_in-append (emitted event ∷ xs) ys = closed_in-append xs ys

closed_in-emit : (handled : Bool) (event : Event) → closed_in (emit handled event) ≡ []
closed_in-emit true event = refl
closed_in-emit false event = refl

closed_in-close_found :
    (user : Bytes) (room : MemoryRoom)
    → closed_in (close_found (lookup user room.subscribers)) ≡ conn_of user room
closed_in-close_found user room = ground arith

-- `Subscribe` closes the connection that the user had in the room, if there was one, and no other;
-- afterwards the room has the new connection of the user, and those of all others as before.
pub subscribe_lem :
    (handled : Bool) (now : ℕ) (room : MemoryRoom) (sub : Subscriber) (info : Option PresenceInfo)
    (other : Bytes)
    → let (next, effects) = subscribe handled now room sub info in
      (closed_in effects ≡ conn_of sub.user_id room)
      × (lookup other next.subscribers
          ≡ (if str_eq other sub.user_id then some sub else lookup other room.subscribers))
unfolding subscribe
subscribe_lem handled now room sub info other =
    let user = sub.user_id in
    let event : Event = record {
      kind = event_subscribe;
      room_id = room.config.id;
      user_id = user;
      timestamp = now;
      payload = no_data;
    } in
    let first = closed_in-close_found user room in
    let no_more = closed_in-emit handled event in
    let split =
      closed_in-append (close_found (lookup user room.subscribers)) (emit handled event) in
    let law = lookup-insert other user sub room.subscribers in
    (split ∙ ap₂ (λ xs ys. xs ++ ys) first no_more ∙ append-nil (conn_of user room), ground arith)

-- `Unsubscribe` closes the connection of the user in the room, if there is one, and no other;
-- afterwards the user has none, and all others have theirs.
pub unsubscribe_lem :
    (handled : Bool) (now : ℕ) (room : MemoryRoom) (user other : Bytes)
    → let (next, effects) = unsubscribe handled now room user in
      (closed_in effects ≡ conn_of user room)
      × (lookup other next.subscribers
          ≡ (if str_eq other user then none else lookup other room.subscribers))
unfolding unsubscribe
unsubscribe_lem handled now room user other =
    let event : Event = record {
      kind = event_unsubscribe;
      room_id = room.config.id;
      user_id = user;
      timestamp = now;
      payload = no_data;
    } in
    let no_more = closed_in-emit handled event in
    let law = lookup-delete other user room.subscribers in
    elim (Option-cases (lookup user room.subscribers)) [
      | inl e ↦ (ground arith, ground arith)
      | inr (sub, e) ↦ (ground arith, ground arith)
    ]

closed_in-close_each : (subs : Map Subscriber) → closed_in (close_each subs) ≡ conns subs
unfolding close_each
closed_in-close_each [] = refl
closed_in-close_each ((user, sub) ∷ rest) = ap (◌∷◌ sub.conn) (closed_in-close_each rest)

closed_in-close_room : (room : MemoryRoom) → closed_in (close_room room).1 ≡ conns room.subscribers
unfolding close_room
closed_in-close_room room = closed_in-close_each room.subscribers

closed_in-close_rooms : (rooms : Map MemoryRoom) → closed_in (close_rooms rooms) ≡ all_conns rooms
unfolding close_rooms
closed_in-close_rooms [] = refl
closed_in-close_rooms ((id, room) ∷ rest) =
    closed_in-append (close_room room).1 (close_rooms rest)
    ∙ ap₂ (λ xs ys. xs ++ ys) (closed_in-close_room room) (closed_in-close_rooms rest)

-- The first `Close` of a relay closes every connection of every room, once for each room that it is
-- in, and leaves no room.
pub close_relay_lem :
    (relay : MemoryRelay)
    → relay.running ≡ true
    → (closed_in (close_relay relay).1 ≡ all_conns relay.rooms)
      × ((close_relay relay).0.rooms ≡ [])
      × ((close_relay relay).0.running ≡ false)
unfolding close_relay
close_relay_lem relay e = rw (close_relay, e) ((closed_in-close_rooms relay.rooms, refl, refl))

lookup_self : (id : Bytes) (room : MemoryRoom) → lookup id ((id, room) ∷ []) ≡ some room
unfolding lookup
lookup_self id room = ground arith

create_after_close :
    (now : ℕ) (relay : MemoryRelay) (config : RoomConfig)
    → let again = (create_room now (record relay { running = false; rooms = [] }) config).0 in
      (close_relay again ≡ (again, []))
      × ((room : MemoryRoom) × (get_room again config.id ≡ some room) × (room.config ≡ config))
unfolding close_relay create_room get_room lookup insert new_room
create_after_close now relay config =
    let size =
      if config.history_size == 0 then relay.default_history_size else config.history_size in
    let room = new_room now config size in (refl, (room, lookup_self config.id room, refl))

-- A relay that was closed still creates rooms, and a second `Close` leaves the rooms that it has as
-- they are and closes nothing.
pub close_relay-create_room :
    (now : ℕ) (relay : MemoryRelay) (config : RoomConfig)
    → relay.running ≡ true
    → let again = (create_room now (close_relay relay).0 config).0 in
      (close_relay again ≡ (again, []))
      × ((room : MemoryRoom) × (get_room again config.id ≡ some room) × (room.config ≡ config))
unfolding close_relay
close_relay-create_room now relay config e =
    rw (close_relay, e) (create_after_close now relay config)
