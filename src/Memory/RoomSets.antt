-- ===== src/Memory/RoomSets.antt =====
-- The rooms of the memory relay: each is there once, under its own id, and valid, and every method keeps
-- that.
use stream_relay.Prelude.{
  ℕ, ◌≡◌, refl, ap, ◌∙◌, subst, Bool, Option, some, List, [], ◌∷◌, Bytes, arith, ◌==◌,
  if◌then◌else◌, Map, lookup, insert, delete, Distinct, lookup-insert_cases, lookup-delete-some,
  insert-Distinct, delete-Distinct, Option-cases, Bool-cases, inl, inr,
}
use stream_relay.Protocol.{Result-cases}
use stream_relay.Types.{
  Message, Subscriber, RoomConfig, PublishOptions, PresenceInfo, room_type_direct,
}
use stream_relay.DirectRooms.{generate_dm_room_id}
use stream_relay.RingBuffer.{add}
use stream_relay.RingBuffer.Refine.{add-IsValid}
use stream_relay.Memory.{MemoryRoom, MemoryRelay}
use stream_relay.Memory.Rooms.{new_room, subscribe, unsubscribe, load_external_messages}
use stream_relay.Memory.RoomInvariant.{
  RoomIsValid, new_room-IsValid, subscribe-IsValid, unsubscribe-IsValid, with_history-IsValid,
}
use stream_relay.Memory.Relays.{
  create_room, get_room, get_or_create_room, delete_room, relay_subscribe, relay_unsubscribe,
  options_or_default, stamped, stored, publish, publish_direct,
}
use stream_relay.Memory.Requests.{close_relay}

-- A room under its own id.
abbrev pub RoomAt : Bytes → MemoryRoom → Type 0
RoomAt id room = RoomIsValid room × (room.config.id ≡ id)

-- Each room is there once, under its own id, and is valid.
abbrev pub RoomsAreValid : Map MemoryRoom → Type 0
RoomsAreValid rooms =
    Distinct rooms
    × ((id : Bytes) (room : MemoryRoom) → lookup id rooms ≡ some room → RoomAt id room)

insert-RoomsAreValid :
    (id : Bytes) (room : MemoryRoom) (rooms : Map MemoryRoom)
    → RoomAt id room
    → RoomsAreValid rooms
    → RoomsAreValid (insert id room rooms)
insert-RoomsAreValid id room rooms fits (distinct, each) = (
  insert-Distinct id room rooms distinct,
  λ other found e. elim (lookup-insert_cases other id room found rooms e) [
    | inl (here, same) ↦ subst (RoomAt other) same (subst (λ k. RoomAt k room) here fits)
    | inr (_, old) ↦ each other found old
  ],
)

delete-RoomsAreValid :
    (id : Bytes) (rooms : Map MemoryRoom) → RoomsAreValid rooms → RoomsAreValid (delete id rooms)
delete-RoomsAreValid id rooms (distinct, each) = (
  delete-Distinct id rooms distinct,
  λ other found e. each other found (lookup-delete-some other id found rooms e).1,
)

new_room-id :
    (now : ℕ) (config : RoomConfig) (size : ℕ) → (new_room now config size).config.id ≡ config.id
unfolding new_room
new_room-id now config size = refl

-- No method of a room changes its configuration.
config-subscribe :
    (handled : Bool) (now : ℕ) (room : MemoryRoom) (sub : Subscriber) (info : Option PresenceInfo)
    → (subscribe handled now room sub info).0.config ≡ room.config
unfolding subscribe
config-subscribe handled now room sub info = refl

config-unsubscribe :
    (handled : Bool) (now : ℕ) (room : MemoryRoom) (user : Bytes)
    → (unsubscribe handled now room user).0.config ≡ room.config
unfolding unsubscribe
config-unsubscribe handled now room user = ground arith

pub config-load_external_messages :
    (room : MemoryRoom) (msgs : List (Option Message))
    → (load_external_messages room msgs).config ≡ room.config
unfolding load_external_messages
config-load_external_messages room msgs = refl

config-stored :
    (opts : PublishOptions) (msg : Message) (room : MemoryRoom)
    → (stored opts msg room).config ≡ room.config
unfolding stored
config-stored opts msg room = ground arith

stored-IsValid :
    (opts : PublishOptions) (msg : Message) (room : MemoryRoom)
    → RoomIsValid room
    → RoomIsValid (stored opts msg room)
unfolding stored
stored-IsValid opts msg room h = elim (Bool-cases opts.persist) [
  | inl e ↦
      rw (stored, e)
        (with_history-IsValid room (add room.history (some msg)) h
          (add-IsValid room.history (some msg) h.valid_history))
  | inr e ↦ rw (stored, e) h
]

-- The methods keep the rooms valid.
module _ (relay : MemoryRelay) (h : RoomsAreValid relay.rooms) where
  pub create_room-RoomsAreValid :
      (now : ℕ) (config : RoomConfig) → RoomsAreValid (create_room now relay config).0.rooms
  unfolding create_room
  create_room-RoomsAreValid now config =
      let size =
        if config.history_size == 0 then relay.default_history_size else config.history_size in
      elim (Option-cases (lookup config.id relay.rooms)) [
        | inl e ↦
            rw (create_room, e)
              (insert-RoomsAreValid config.id (new_room now config size) relay.rooms
                (new_room-IsValid now config size, new_room-id now config size) h)
        | inr (room, e) ↦ rw (create_room, e) h
      ]

  pub get_or_create_room-RoomsAreValid :
      (now : ℕ) (config : RoomConfig) → RoomsAreValid (get_or_create_room now relay config).0.rooms
  unfolding get_or_create_room
  get_or_create_room-RoomsAreValid now config = elim (Option-cases (get_room relay config.id)) [
    | inl e ↦ rw (get_or_create_room, e) (create_room-RoomsAreValid now config)
    | inr (room, e) ↦ rw (get_or_create_room, e) h
  ]

  pub delete_room-RoomsAreValid : (id : Bytes) → RoomsAreValid (delete_room relay id).0.rooms
  unfolding delete_room
  delete_room-RoomsAreValid id = elim (Option-cases (get_room relay id)) [
    | inl e ↦ rw (delete_room, e) h
    | inr (room, e) ↦ rw (delete_room, e) (delete-RoomsAreValid id relay.rooms h)
  ]

  pub put_room-RoomsAreValid :
      (id : Bytes) (room next : MemoryRoom)
      → get_room relay id ≡ some room
      → (RoomIsValid room → RoomIsValid next)
      → next.config ≡ room.config
      → RoomsAreValid (insert id next relay.rooms)
  unfolding get_room
  put_room-RoomsAreValid id room next e keeps same =
      let (valid, own) = h.1 id room e in
      insert-RoomsAreValid id next relay.rooms (keeps valid, ap (λ c. c.id) same ∙ own) h

  pub relay_subscribe-RoomsAreValid :
      (now : ℕ) (id : Bytes) (sub : Subscriber) (info : Option PresenceInfo)
      → RoomsAreValid (relay_subscribe now relay id sub info).0.rooms
  unfolding relay_subscribe
  relay_subscribe-RoomsAreValid now id sub info = elim (Option-cases (get_room relay id)) [
    | inl e ↦ rw (relay_subscribe, e) h
    | inr (room, e) ↦
        rw (relay_subscribe, e)
          (put_room-RoomsAreValid id room (subscribe relay.handled now room sub info).0 e
            (subscribe-IsValid relay.handled now room sub info)
            (config-subscribe relay.handled now room sub info))
  ]

  pub relay_unsubscribe-RoomsAreValid :
      (now : ℕ) (id user : Bytes) → RoomsAreValid (relay_unsubscribe now relay id user).0.rooms
  unfolding relay_unsubscribe
  relay_unsubscribe-RoomsAreValid now id user = elim (Option-cases (get_room relay id)) [
    | inl e ↦ rw (relay_unsubscribe, e) h
    | inr (room, e) ↦
        rw (relay_unsubscribe, e)
          (put_room-RoomsAreValid id room (unsubscribe relay.handled now room user).0 e
            (unsubscribe-IsValid relay.handled now room user)
            (config-unsubscribe relay.handled now room user))
  ]

  pub publish-RoomsAreValid :
      (in_time : Bytes → Bool) (now : ℕ) (id : Bytes) (msg : Message) (opts : Option PublishOptions)
      → RoomsAreValid (publish in_time now relay id msg opts).relay.rooms
  unfolding publish
  publish-RoomsAreValid in_time now id msg opts =
      let options = options_or_default opts in
      let sent = stamped now relay id msg in
      elim (Option-cases (get_room relay id)) [
        | inl e ↦ rw (publish, e) h
        | inr (room, e) ↦
            rw (publish, e)
              (put_room-RoomsAreValid id room (stored options sent room) e
                (stored-IsValid options sent room) (config-stored options sent room))
      ]

  pub close_relay-RoomsAreValid : RoomsAreValid (close_relay relay).0.rooms
  unfolding close_relay lookup
  close_relay-RoomsAreValid = elim (Bool-cases relay.running) [
    | inl e ↦ rw (close_relay, e) ((tt, λ id room found. cc))
    | inr e ↦ rw (close_relay, e) h
  ]

pub publish_direct-RoomsAreValid :
    (in_time : Bytes → Bool) (now : ℕ) (relay : MemoryRelay) (sender recipient : Bytes)
    (msg : Message) (opts : Option PublishOptions)
    → RoomsAreValid relay.rooms
    → RoomsAreValid (publish_direct in_time now relay sender recipient msg opts).relay.rooms
unfolding publish_direct
publish_direct-RoomsAreValid in_time now relay sender recipient msg opts h =
    let id = generate_dm_room_id sender recipient in
    let config : RoomConfig = record {
      id = id;
      kind = room_type_direct;
      history_size = 0;
      history_ttl = 0;
      members = sender ∷ recipient ∷ [];
    } in
    let made = get_or_create_room now relay config in
    let valid = get_or_create_room-RoomsAreValid relay h now config in
    elim (Result-cases made.1) [
      | inl (room, e) ↦
          rw (publish_direct, e)
            (publish-RoomsAreValid made.0 valid in_time now id
              (record msg { room_id = id; sender_id = sender }) opts)
      | inr (e, p) ↦ rw (publish_direct, p) valid
    ]
