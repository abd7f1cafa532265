-- ===== src/Memory/Reachability.antt =====
-- The states that the memory relay reaches by its methods, one after the other, and what holds in all
-- of them.
use stream_relay.Prelude.{ℕ, ◌≡◌, Bool, Option, some, List, Bytes, lookup}
use stream_relay.Types.{Message, Subscriber, RoomConfig, PublishOptions, PresenceInfo}
use stream_relay.Memory.{MemoryRoom, MemoryRelay, MemoryConfig}
use stream_relay.Memory.Rooms.{load_external_messages}
use stream_relay.Memory.RoomInvariant.{load_external_messages-IsValid}
use stream_relay.Memory.Relays.{
  new_memory_relay, create_room, get_room, get_or_create_room, delete_room, put_room,
  relay_subscribe, relay_unsubscribe, publish, publish_direct, set_event_handler,
}
use stream_relay.Memory.Requests.{close_relay}
use stream_relay.Memory.RoomSets.{
  RoomsAreValid, create_room-RoomsAreValid, get_or_create_room-RoomsAreValid,
  delete_room-RoomsAreValid, put_room-RoomsAreValid, relay_subscribe-RoomsAreValid,
  relay_unsubscribe-RoomsAreValid, publish-RoomsAreValid, close_relay-RoomsAreValid,
  publish_direct-RoomsAreValid, config-load_external_messages,
}

-- One method call; `load` is `LoadExternalMessages` on a room of the relay, and what a panic in a
-- delivery starts is an `unsubscribed`.
pub data Step (relay : MemoryRelay) : MemoryRelay → Type 0 where
  created : (now : ℕ) (config : RoomConfig) → Step relay (create_room now relay config).0
  got_or_created :
      (now : ℕ) (config : RoomConfig) → Step relay (get_or_create_room now relay config).0
  deleted : (id : Bytes) → Step relay (delete_room relay id).0
  subscribed :
      (now : ℕ) (id : Bytes) (sub : Subscriber) (info : Option PresenceInfo)
      → Step relay (relay_subscribe now relay id sub info).0
  unsubscribed : (now : ℕ) (id user : Bytes) → Step relay (relay_unsubscribe now relay id user).0
  published :
      (in_time : Bytes → Bool) (now : ℕ) (id : Bytes) (msg : Message) (opts : Option PublishOptions)
      → Step relay (publish in_time now relay id msg opts).relay
  published_direct :
      (in_time : Bytes → Bool) (now : ℕ) (sender recipient : Bytes) (msg : Message)
      (opts : Option PublishOptions)
      → Step relay (publish_direct in_time now relay sender recipient msg opts).relay
  loaded :
      (id : Bytes) (room : MemoryRoom) (msgs : List (Option Message))
      → get_room relay id ≡ some room
      → Step relay (put_room relay id (load_external_messages room msgs))
  handler_set : (handled : Bool) → Step relay (set_event_handler relay handled)
  shut : Step relay (close_relay relay).0

pub data Reachable : MemoryRelay → Type 0 where
  started : (now : ℕ) (cfg : MemoryConfig) → Reachable (new_memory_relay now cfg)
  stepped : {relay next : MemoryRelay} → Reachable relay → Step relay next → Reachable next

Step-RoomsAreValid :
    (old next : MemoryRelay) → Step old next → RoomsAreValid old.rooms → RoomsAreValid next.rooms
unfolding set_event_handler
Step-RoomsAreValid old next (created now config) h = create_room-RoomsAreValid old h now config
Step-RoomsAreValid old next (got_or_created now config) h =
    get_or_create_room-RoomsAreValid old h now config
Step-RoomsAreValid old next (deleted id) h = delete_room-RoomsAreValid old h id
Step-RoomsAreValid old next (subscribed now id sub info) h =
    relay_subscribe-RoomsAreValid old h now id sub info
Step-RoomsAreValid old next (unsubscribed now id user) h =
    relay_unsubscribe-RoomsAreValid old h now id user
Step-RoomsAreValid old next (published in_time now id msg opts) h =
    publish-RoomsAreValid old h in_time now id msg opts
Step-RoomsAreValid old next (published_direct in_time now sender recipient msg opts) h =
    publish_direct-RoomsAreValid in_time now old sender recipient msg opts h
Step-RoomsAreValid old next (loaded id room msgs e) h =
    put_room-RoomsAreValid old h id room (load_external_messages room msgs) e
      (load_external_messages-IsValid room msgs) (config-load_external_messages room msgs)
Step-RoomsAreValid old next (handler_set handled) h = h
Step-RoomsAreValid old next shut h = close_relay-RoomsAreValid old h

-- In every state that the methods reach, each room is there once, under its own id; in each room each
-- user is there once, presence and subscribers name the same users, and the history is a valid
-- buffer.
pub Reachable-RoomsAreValid : (relay : MemoryRelay) → Reachable relay → RoomsAreValid relay.rooms
unfolding new_memory_relay lookup
Reachable-RoomsAreValid relay (started now cfg) = (tt, λ id room found. cc)
Reachable-RoomsAreValid relay (stepped {relay = old} before step) =
    Step-RoomsAreValid old relay step (Reachable-RoomsAreValid old before)
