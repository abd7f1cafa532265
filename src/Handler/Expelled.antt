-- ===== src/Handler/Expelled.antt =====
-- What unsubscribing from a channel comes to for a handler that is in its room (engine/handler.go,
-- engine/room.go).
use stream_relay.Prelude.{
  ℕ, ◌≡◌, refl, ap, append_assoc, ◌&&◌, ◌∙◌, Bool, true, false, Option, none, some, List, [], ◌∷◌,
  ◌++◌, Bytes, arith, ◌==◌, if◌then◌else◌, lookup, insert, delete, lookup-delete,
}
use stream_relay.Protocol.{Error}
use stream_relay.Protocol.Messages.{Command, unsubscribe_answer}
use stream_relay.Types.{emitted, Event, event_unsubscribe, no_data, Subscriber}
use stream_relay.Permissions.Bits.{Permission, has as has_bits, perm_join_leave}
use stream_relay.Namespaces.{get_by_channel}
use stream_relay.Streams.Commands.{Do}
use stream_relay.Memory.Rooms.{emit}
use stream_relay.RedisRoom
use stream_relay.RedisRoom.{Room}
use stream_relay.RedisRelay.{Relay, get_redis_room, redis_unsubscribe}
use stream_relay.Handler.{
  Surroundings, ClientHandler, Session, Act, transport_closed, relayed, ended, send_result,
}
use stream_relay.Handler.Closing.{close_handler, run_effects, leave_room, shut}
use stream_relay.Handler.Connecting.{on_channel}
use stream_relay.Handler.Subscribing.{broadcast_leave, without_subscription, handle_unsubscribe}
use stream_relay.Handler.Rights.{IsReady}
use stream_relay.Handler.Leaving.{AllGone, leave_each-AllLeft, lookup-NotHeld}

-- The event of a room leaves the handler alone.
run_effects-emit :
    (blocks : Bytes → ℕ → Bool) (channel : Bytes) (now : ℕ) (h : ClientHandler) (relay : Relay)
    (handled : Bool) (event : Event)
    → (acts : List Act) × (run_effects blocks channel now h relay (emit handled event)
        ≡ some (h, relay, acts))
unfolding run_effects
run_effects-emit blocks channel now h relay true event = (relayed (emitted event) ∷ [], refl)
run_effects-emit blocks channel now h relay false event = ([], refl)

-- What unsubscribing from a room that has the handler as its subscriber comes to: it closes the handler.
leave_room_own :
    (blocks : Bytes → ℕ → Bool) (now : ℕ) (h : ClientHandler) (relay : Relay) (channel : Bytes)
    (own : Subscriber) (room : Room)
    → ((id : Bytes) (c : ℕ) → blocks id c ≡ false)
    → get_redis_room relay channel ≡ some room
    → lookup h.user_id room.subscribers ≡ some own
    → (own.conn == h.conn) ≡ true
    → h.closed ≡ false
    → lookup channel h.subscriptions ≡ none
    → (next : Relay) × (before after : List Act) × (leave_room blocks now h relay channel
        ≡ some (shut h, next, (before ++ transport_closed ∷ []) ++ after))
      × AllGone h.user_id h.subscriptions next
unfolding leave_room redis_unsubscribe RedisRoom.unsubscribe get_redis_room run_effects
    close_handler
leave_room_own blocks now h relay channel own room free has mine same is_open apart =
    let left : Room = record room {
      subscribers = delete h.user_id room.subscribers;
      presence = delete h.user_id room.presence;
      last_active = now;
    } in
    let start : Relay = record relay { rooms = insert channel left relay.rooms } in
    let (next, acts, end, kept, gone) =
      leave_each-AllLeft blocks (some channel) now h.conn h.user_id h.subscriptions start free
        (lookup-NotHeld channel h.subscriptions apart) in
    let event : Event = record {
      kind = event_unsubscribe;
      room_id = room.config.id;
      user_id = h.user_id;
      timestamp = now;
      payload = no_data;
    } in
    let (after, told) = run_effects-emit blocks channel now (shut h) next relay.handled event in
    (
      next,
      acts,
      after,
      rw
          (
            leave_room, redis_unsubscribe, get_redis_room, has, RedisRoom.unsubscribe, mine,
            run_effects, same, close_handler, is_open, end, told,
          )
          refl,
      gone,
    )

-- A connected client whose handler is not closed and is the subscriber of its user in the room of a
-- channel, and that unsubscribes from that channel while no other connection waits for a lock, is closed
-- as a whole: its transport is closed, and the user is out of the room of every other subscription.
pub handle_unsubscribe_closes :
    {S : Type 0} (do_command : Do S) (env : Surroundings) (cmd : Command) (s : Session S)
    (room : Room) (own : Subscriber) (perm : Permission)
    → ((id : Bytes) (c : ℕ) → env.blocks id c ≡ false)
    → IsReady cmd s
    → s.handler.closed ≡ false
    → lookup cmd.channel s.handler.subscriptions ≡ some perm
    → get_redis_room s.relay cmd.channel ≡ some room
    → lookup s.handler.user_id room.subscribers ≡ some own
    → (own.conn == s.handler.conn) ≡ true
    → (next : Session S) × (before after : List Act) × (error : Option Error) × (handle_unsubscribe
          do_command env cmd s
        ≡ ended next ((before ++ transport_closed ∷ []) ++ after) error)
      × (next.handler.closed ≡ true)
      × AllGone s.handler.user_id (delete cmd.channel s.handler.subscriptions) next.relay
unfolding handle_unsubscribe on_channel
handle_unsubscribe_closes do_command env cmd s room own perm free ready is_open subscribed has mine
      same =
    let h = without_subscription cmd.channel s.handler in
    let gone_law = lookup-delete cmd.channel cmd.channel s.handler.subscriptions in
    let apart : lookup cmd.channel h.subscriptions ≡ none = ground (arith, gone_law) in
    let (relay, before, after, left, gone) =
      leave_room_own env.blocks env.now h s.relay cmd.channel own room free has mine same is_open
        apart in
    let next = record s { handler = shut h; relay = relay } in
    let ns = get_by_channel env.namespaces cmd.channel in
    let leaves =
      if ns.options.join_leave && has_bits perm perm_join_leave
      then broadcast_leave env (shut h) relay cmd.channel
      else [] in
    let sent = send_result env cmd.id unsubscribe_answer in
    (
      next,
      before,
      after ++ (leaves ++ sent.0),
      sent.1,
      rw (handle_unsubscribe, on_channel, ready.0, ready.1, subscribed, left)
          (ap (λ acts. ended next acts sent.1)
            (append_assoc ((before ++ transport_closed ∷ []) ++ after) leaves sent.0
              ∙ append_assoc (before ++ transport_closed ∷ []) after (leaves ++ sent.0))),
      refl,
      gone,
    )
