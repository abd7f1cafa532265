-- ===== src/Memory/Requests.antt =====
-- The methods of `MemoryRelay` (engine/memory_relay.go) that recover messages, report, and shut down.
use stream_relay.Prelude.{
  ℕ, ◌+◌, ◌-◌, ◌/◌, false, not, ◌&&◌, Option, none, some, List, [], ◌∷◌, ◌++◌, Bytes, str_eq, ltb,
  if◌then◌else◌, length, drop, Map,
}
use stream_relay.Protocol.{Error, room_not_found, Result, ok, err}
use stream_relay.Types.{
  Message, Subscriber, received, refused, panicked, RecoveryOptions, Stats, PresenceInfo, Effect,
}
use stream_relay.RingBuffer.{get_all, get_since}
use stream_relay.Memory.{MemoryRoom, MemoryRelay}
use stream_relay.Memory.Rooms.{room_presence, subscriber_count, get_history, close_room}
use stream_relay.Memory.Relays.{get_room}

abbrev pub recovery_or_default : Option RecoveryOptions → RecoveryOptions
recovery_or_default none = record { from_id = []; limit = 100; since = none }
recovery_or_default (some opts) = opts

-- The last `limit` of the messages, all of them for the limit 0.
unfoldable pub limited : ℕ → List Message → List Message
limited limit msgs =
    if ltb 0 limit && ltb limit (length msgs) then drop (length msgs - limit) msgs else msgs

unfoldable pub recover_messages :
    MemoryRelay → Bytes → Option RecoveryOptions → Result (List Message)
recover_messages relay id opts =
    let options = recovery_or_default opts in
    elim (get_room relay id) [
      | none ↦ err (room_not_found id)
      | some room ↦ ok (
          limited options.limit (
            if str_eq options.from_id []
            then get_all room.history
            else get_since (λ (m : Message). m.id) room.history options.from_id))
    ]

-- How a loop of deliveries ends: it returns no error, it returns one, or it panics.
pub data Ending : Type 0 where
  finished : Ending
  stopped crashed : Error → Ending

-- The loop of `RecoverAndDeliver`; it offers each message once, in order.
unfoldable pub deliver_history : Subscriber → List Message → Ending
deliver_history sub [] = finished
deliver_history sub (msg ∷ msgs) = elim (sub.receive msg 0) [
  | received ↦ deliver_history sub msgs
  | refused e ↦ stopped e
  | panicked e ↦ crashed e
]

unfoldable pub recover_and_deliver :
    MemoryRelay → Bytes → Subscriber → Option RecoveryOptions → Ending
recover_and_deliver relay id sub opts = elim (recover_messages relay id opts) [
  | err e ↦ stopped e
  | ok msgs ↦ deliver_history sub msgs
]

unfoldable pub get_presence : MemoryRelay → Bytes → Result (List PresenceInfo)
get_presence relay id = elim (get_room relay id) [
  | none ↦ err (room_not_found id)
  | some room ↦ ok (room_presence room)
]

-- The loop of `Stats`.
unfoldable pub total_subscribers : Map MemoryRoom → ℕ
total_subscribers [] = 0
total_subscribers ((id, room) ∷ rest) = subscriber_count room + total_subscribers rest

unfoldable pub stats : ℕ → MemoryRelay → Stats
stats now relay = record {
  active_rooms = length relay.rooms;
  active_subscribers = total_subscribers relay.rooms;
  total_messages = relay.total_messages;
  messages_per_second = 0;
  pending_deliveries = 0;
  uptime = (now - relay.start_time) / 1000;
}

-- The loop of `Close`.
unfoldable pub close_rooms : Map MemoryRoom → List Effect
close_rooms [] = []
close_rooms ((id, room) ∷ rest) = (close_room room).1 ++ close_rooms rest

unfoldable pub close_relay : MemoryRelay → MemoryRelay × List Effect
close_relay relay =
    if not relay.running
    then (relay, [])
    else (record relay { running = false; rooms = [] }, close_rooms relay.rooms)

-- What external storage gives for a room and a limit; `none` where there is no such function.
abbrev pub Loader : Type 0
Loader = Option (Bytes → ℕ → Result (List Message))

-- External messages go in front, if the loader gives any.
abbrev pub prepended : Result (List Message) → List Message → List Message
prepended (ok external) msgs = external ++ msgs
prepended (err e) msgs = msgs

unfoldable pub get_history_with_fallback : MemoryRelay → Bytes → ℕ → Loader → Result (List Message)
get_history_with_fallback relay id limit loader = elim (get_room relay id) [
  | none ↦ elim loader [ none ↦ err (room_not_found id) | some load ↦ load id limit ]
  | some room ↦
      let msgs = get_history room limit in
      elim loader [
        | none ↦ ok msgs
        | some load ↦
            if ltb (length msgs) limit
            then ok (prepended (load id (limit - length msgs)) msgs)
            else ok msgs
      ]
]
