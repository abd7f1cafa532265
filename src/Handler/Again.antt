-- ===== src/Handler/Again.antt =====
-- What the methods of a room that close its subscriber do to the handler that called them
-- (engine/handler.go and engine/room.go).
use stream_relay.Prelude.{
  ℕ, ◌≡◌, refl, ap, inl, inr, Bool, true, false, Bool-cases, Option, none, some, Option-cases, List,
  [], ◌∷◌, Bytes, arith, ◌==◌, Map, keys, lookup, insert, lookup-insert, Bytes-discrete, ite,
}
use stream_relay.Protocol.{Result, ok}
use stream_relay.Protocol.Messages.{Command}
use stream_relay.Types.{Effect, Subscriber, PresenceInfo, RoomConfig}
use stream_relay.Permissions.Bits.{Permission}
use stream_relay.Namespaces.{get_by_channel, validate_channel}
use stream_relay.Streams.Commands.{Do}
use stream_relay.RedisRoom
use stream_relay.RedisRoom.{Room}
use stream_relay.RedisRelay.{
  Relay, get_redis_room, get_or_create_redis_room, redis_subscribe, redis_unsubscribe,
}
use stream_relay.Handler.{Surroundings, ClientHandler, Session, deadlocked, as_subscriber}
use stream_relay.Handler.Closing.{
  Held, holds, is_stuck, leave_each, close_handler, run_effects, join_room,
}
use stream_relay.Handler.Connecting.{on_channel}
use stream_relay.Handler.Subscribing.{
  decoded_subscribe, presence_of, config_for, is_full, enter_room, handle_subscribe,
}
use stream_relay.Handler.Rights.{IsReady}

-- The relay has a room of the channel.
abbrev HasRoom : Relay → Bytes → Type 0
HasRoom relay channel = (room : Room) × (get_redis_room relay channel ≡ some room)

redis_unsubscribe-HasRoom :
    (now : ℕ) (relay : Relay) (channel other user : Bytes)
    → HasRoom relay other
    → HasRoom (redis_unsubscribe now relay channel user).0 other
unfolding redis_unsubscribe get_redis_room
redis_unsubscribe-HasRoom now relay channel other user (room, has) =
    elim (Option-cases (lookup channel relay.rooms)) [
      | inl e ↦ rw (redis_unsubscribe, get_redis_room, e) (room, has)
      | inr (old, e) ↦
          let next = (RedisRoom.unsubscribe relay.handled now old user).0 in
          let found = lookup-insert other channel next relay.rooms in
          rw (redis_unsubscribe, get_redis_room, e)
            (elim (Bytes-discrete channel other) [
              | yes same ↦ (next, ground (arith, found))
              | no differs ↦ (room, ground (arith, found))
            ])
    ]

-- A loop that is not stuck at a room does not hold its lock.
holds_unstuck :
    (blocks : Bytes → ℕ → Bool) (held : Held) (conn : ℕ) (channel : Bytes) (effects : List Effect)
    → is_stuck blocks held conn channel effects ≡ false
    → holds held channel ≡ false
unfolding is_stuck
holds_unstuck blocks held conn channel effects e = elim (Bool-cases (holds held channel)) [
  | inl h ↦ absurd (ground (arith, e, h))
  | inr h ↦ h
]

-- The loop of `Close` that comes to the room whose lock is held does not end.
leave_each_held :
    (blocks : Bytes → ℕ → Bool) (now conn : ℕ) (user id : Bytes) (subs : Map Permission)
    (perm : Permission) (relay : Relay)
    → HasRoom relay id
    → lookup id subs ≡ some perm
    → leave_each blocks (some id) now conn user (keys subs) relay ≡ none
unfolding leave_each lookup
leave_each_held blocks now conn user id [] perm relay has found = cc
leave_each_held blocks now conn user id ((c, p) ∷ subs) perm relay has found =
    let next = (redis_unsubscribe now relay c user).0 in
    let effects = (redis_unsubscribe now relay c user).1 in
    let kept = redis_unsubscribe-HasRoom now relay c id user has in
    elim (Option-cases (get_redis_room relay c)) [
      | inl e ↦
          elim (Bytes-discrete id c)
              as (λ d.
                ite d (some p) (lookup id subs) ≡ some perm
                → leave_each blocks (some id) now conn user (c ∷ keys subs) relay ≡ none) [
                  | yes same ↦ λ _. let (room, e') = has in cc
                  | no differs ↦ λ f.
                      rw (leave_each, e)
                        (leave_each_held blocks now conn user id subs perm relay has f)
                ]
            found
      | inr (room, e) ↦ elim (Bool-cases (is_stuck blocks (some id) conn c effects)) [
        | inl h ↦ rw (leave_each, e, h) refl
        | inr h ↦
            let passes = holds_unstuck blocks (some id) conn c effects h in
            let rest : lookup id subs ≡ some perm = ground (arith, found, passes) in
            rw (leave_each, e, h, leave_each_held blocks now conn user id subs perm next kept rest)
              refl
      ]
    ]

-- A room where the handler is the subscriber of its user closes it, when that user subscribes again.
join_room_own :
    (blocks : Bytes → ℕ → Bool) (now : ℕ) (h : ClientHandler) (relay : Relay) (channel : Bytes)
    (sub old : Subscriber) (info : Option PresenceInfo) (room : Room) (perm : Permission)
    → get_redis_room relay channel ≡ some room
    → lookup sub.user_id room.subscribers ≡ some old
    → (old.conn == h.conn) ≡ true
    → h.closed ≡ false
    → lookup channel h.subscriptions ≡ some perm
    → join_room blocks now h relay channel sub info ≡ none
unfolding join_room redis_subscribe RedisRoom.subscribe get_redis_room run_effects close_handler
join_room_own blocks now h relay channel sub old info room perm has own same is_open subscribed =
    let next = (RedisRoom.subscribe relay.handled now room sub info).0 in
    let after : Relay = record relay { rooms = insert channel next relay.rooms } in
    let found : HasRoom after channel =
      let law = lookup-insert channel channel next relay.rooms in (next, ground (arith, law)) in
    let held =
      leave_each_held blocks now h.conn h.user_id channel h.subscriptions perm after found
        subscribed in
    rw
      (
        join_room, redis_subscribe, get_redis_room, has, RedisRoom.subscribe, own, run_effects,
        same, close_handler, is_open, held,
      )
      refl

get_or_create_found :
    (now : ℕ) (relay : Relay) (config : RoomConfig) (room : Room)
    → get_redis_room relay config.id ≡ some room
    → get_or_create_redis_room now relay config ≡ (relay, ok room)
unfolding get_or_create_redis_room
get_or_create_found now relay config room e = rw (get_or_create_redis_room, e) refl

-- A connected client whose handler is not closed and is subscribed to a channel, in a room that knows it
-- under its user, and that subscribes to it once more with every check passed, waits for ever for the
-- lock of the room, which it holds itself.
pub handle_subscribe-again :
    {S : Type 0} (do_command : Do S) (env : Surroundings) (cmd : Command) (s : Session S)
    (room : Room) (own : Subscriber) (old perm : Permission)
    → IsReady cmd s
    → s.handler.closed ≡ false
    → lookup cmd.channel s.handler.subscriptions ≡ some old
    → get_redis_room s.relay cmd.channel ≡ some room
    → lookup s.handler.user_id room.subscribers ≡ some own
    → (own.conn == s.handler.conn) ≡ true
    → validate_channel (get_by_channel env.namespaces cmd.channel) cmd.channel ≡ ok tt
    → env.checker.check_subscribe s.handler.user_id cmd.channel
        (decoded_subscribe env cmd.payload).token
      ≡ ok perm
    → is_full (get_by_channel env.namespaces cmd.channel) room ≡ false
    → handle_subscribe do_command env cmd s ≡ deadlocked
unfolding handle_subscribe on_channel enter_room
handle_subscribe-again do_command env cmd s room own old perm ready is_open subscribed has mine same
      valid checked space =
    let again =
      join_room_own env.blocks env.now s.handler s.relay cmd.channel (as_subscriber env s.handler)
        own (some (presence_of env.now s.handler)) room old has mine same is_open subscribed in
    let ns = get_by_channel env.namespaces cmd.channel in
    let got = get_or_create_found env.now s.relay (config_for cmd.channel ns) room has in
    let same_relay = ap (λ (r : Relay × Result Room). r.0) got in
    let same_room = ap (λ (r : Relay × Result Room). r.1) got in
    rw
      (
        handle_subscribe, on_channel, ready.0, ready.1, valid, checked, enter_room, same_room,
        space, same_relay, again,
      )
      refl
