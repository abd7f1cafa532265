-- ===== src/Handler/Subscribing.antt =====
-- Subscribing and unsubscribing in engine/handler.go.
use stream_relay.Prelude.{
  ℕ, ◌*◌, ◌==◌, Bool, true, false, not, ◌&&◌, Option, none, some, List, [], ◌∷◌, ◌++◌, Bytes, codes,
  str_eq, ltb, leb, if◌then◌else◌, lookup, insert, delete,
}
use stream_relay.Protocol.{Error, unauthorized, error_text, Result, ok, err}
use stream_relay.Protocol.Messages.{
  Command, Push, ClientInfo, Publication, SubscribeRequest, SubscribeResult, subscribe_answer,
  unsubscribe_answer, new_join_push, new_leave_push, code_bad_request, code_unauthorized,
  code_permission_denied, code_not_found, code_internal,
}
use stream_relay.Types.{
  Message, Subscriber, RoomConfig, room_type_group, RecoveryOptions, PresenceInfo,
}
use stream_relay.Permissions.Bits.{Permission, perm_join_leave, has}
use stream_relay.Namespaces.{Namespace, get_by_channel, validate_channel}
use stream_relay.Streams.Commands.{Do}
use stream_relay.RedisRoom.{Room, get_subscribers, redis_subscriber_count}
use stream_relay.RedisRelay.{Relay, get_redis_room, get_or_create_redis_room}
use stream_relay.RedisRelay.Recovery.{redis_recover_messages}
use stream_relay.Handler.{
  Surroundings, ClientHandler, Session, Act, pushed_to, Ended, deadlocked, publication_of,
  as_subscriber, send_result,
}
use stream_relay.Handler.Closing.{join_room, leave_room}
use stream_relay.Handler.Connecting.{ends_with, refuse, on_channel}

abbrev pub blank_subscribe_request : SubscribeRequest
blank_subscribe_request = record {
  token = [];
  recover = false;
  offset = [];
  epoch = [];
  payload = none;
}

-- The code that a refused subscription is answered with.
abbrev pub refusal_code : Error → ℕ
refusal_code unauthorized = code_unauthorized
refusal_code _ = code_permission_denied

abbrev pub config_for : Bytes → Namespace → RoomConfig
config_for channel ns = record {
  id = channel;
  kind = room_type_group;
  history_size = ns.options.history_size;
  history_ttl = ns.options.history_ttl * 1000;
  members = [];
}

-- The test for `MaxSubscribers`.
abbrev pub is_full : Namespace → Room → Bool
is_full ns room =
    ltb 0 ns.options.max_subscribers && leb ns.options.max_subscribers (redis_subscriber_count room)

abbrev pub presence_of : ℕ → ClientHandler → PresenceInfo
presence_of now h = record {
  user_id = h.user_id;
  client_id = h.client_id;
  connected_at = some now;
  info = [];
}

-- The loops that make publications of messages.
unfoldable pub publications_of : List Message → List Publication
publications_of [] = []
publications_of (msg ∷ msgs) = publication_of msg ∷ publications_of msgs

-- `messages[len(messages)-1].ID`, or what was there before.
unfoldable pub last_offset : Bytes → List Message → Bytes
last_offset offset [] = offset
last_offset offset (msg ∷ msgs) = last_offset msg.id msgs

abbrev pub subscribe_result : Namespace → SubscribeResult
subscribe_result ns = record {
  expires = 0;
  ttl = 0;
  recoverable = ns.options.history_recover;
  offset = [];
  epoch = [];
  publications = [];
  recovered = false;
  payload = none;
  was_recovering = false;
}

-- A recovery that gives messages is told in the result.
abbrev pub with_recovered : SubscribeResult → Result (List Message) → SubscribeResult
with_recovered result (err e) = result
with_recovered result (ok []) = result
with_recovered result (ok (msg ∷ msgs)) = record result {
  recovered = true;
  was_recovering = true;
  publications = publications_of (msg ∷ msgs);
  offset = last_offset [] (msg ∷ msgs);
}

abbrev pub client_info : ClientHandler → ClientInfo
client_info h = record {
  user = h.user_id;
  client = h.client_id;
  conn_info = none;
  chan_info = none;
}

-- `sub.ID()`: a handler has its present id, whatever it was when it subscribed.
abbrev pub current_id : ClientHandler → Subscriber → Bytes
current_id h sub = if sub.conn == h.conn then h.user_id else sub.user_id

-- The loops of `broadcastJoin` and `broadcastLeave`, over the subscribers that are handlers; the first
-- leaves out the user itself.
unfoldable pub push_to_each : (ℕ → Bool) → (Subscriber → Bool) → Push → List Subscriber → List Act
push_to_each is_handler wanted push [] = []
push_to_each is_handler wanted push (sub ∷ subs) =
    let acts = push_to_each is_handler wanted push subs in
    if wanted sub && is_handler sub.conn then pushed_to sub.conn push ∷ acts else acts

module _ (env : Surroundings) where
  abbrev pub decoded_subscribe : Option Bytes → SubscribeRequest
  decoded_subscribe none = blank_subscribe_request
  decoded_subscribe (some text) = env.json.decode_subscribe text

  -- A push that cannot be made or encoded is not sent.
  abbrev pub push_if_encoded : (Subscriber → Bool) → List Subscriber → Result Push → List Act
  push_if_encoded wanted subs (err e) = []
  push_if_encoded wanted subs (ok push) = elim (env.json.encode_push push) [
    | err e ↦ []
    | ok text ↦ push_to_each env.is_handler wanted push subs
  ]

  unfoldable pub broadcast_join : ClientHandler → Relay → Bytes → List Act
  broadcast_join h relay channel = elim (get_redis_room relay channel) [
    | none ↦ []
    | some room ↦
        push_if_encoded (λ sub. not (str_eq (current_id h sub) h.user_id)) (get_subscribers room)
          (new_join_push env.json channel (client_info h))
  ]

  unfoldable pub broadcast_leave : ClientHandler → Relay → Bytes → List Act
  broadcast_leave h relay channel = elim (get_redis_room relay channel) [
    | none ↦ []
    | some room ↦
        push_if_encoded (λ sub. true) (get_subscribers room)
          (new_leave_push env.json channel (client_info h))
  ]

-- The entries of the two maps for a subscription.
abbrev pub with_subscription : Bytes → Permission → SubscribeRequest → ClientHandler → ClientHandler
with_subscription channel perm req h = record h {
  subscriptions = insert channel perm h.subscriptions;
  chan_info = insert channel req.payload h.chan_info;
}

abbrev pub without_subscription : Bytes → ClientHandler → ClientHandler
without_subscription channel h = record h {
  subscriptions = delete channel h.subscriptions;
  chan_info = delete channel h.chan_info;
}

module _ {S : Type 0} (do_command : Do S) (env : Surroundings) where
  -- The recovery of a subscription.
  unfoldable pub recovery :
      ClientHandler → Relay → Namespace → Bytes → SubscribeRequest → S → S × SubscribeResult
  recovery h relay ns channel req s =
      let options : RecoveryOptions = record { from_id = req.offset; limit = 100; since = none } in
      let (next, messages) =
        redis_recover_messages do_command env.decode_metadata relay channel h.user_id (some options)
          s in
      if req.recover && ns.options.history_recover && not (str_eq req.offset [])
      then (next, with_recovered (subscribe_result ns) messages)
      else (s, subscribe_result ns)

  -- What follows when the handler is in the room.
  unfoldable pub subscribed :
      Command → Namespace → Permission → SubscribeRequest → Session S → List Act → Ended S
  subscribed cmd ns perm req s acts =
      let h = with_subscription cmd.channel perm req s.handler in
      let (server, result) = recovery h s.relay ns cmd.channel req s.server in
      let joins =
        if ns.options.join_leave && has perm perm_join_leave
        then broadcast_join env h s.relay cmd.channel
        else [] in
      ends_with env (record s { handler = h; server = server }) (acts ++ joins)
        (send_result env cmd.id (subscribe_answer result))

  -- What follows when the permission is given.
  unfoldable pub enter_room :
      Command → Namespace → Permission → SubscribeRequest → Session S → Ended S
  enter_room cmd ns perm req s =
      let (relay, found) = get_or_create_redis_room env.now s.relay (config_for cmd.channel ns) in
      let entered = record s { relay = relay } in
      elim found [
        | err e ↦ refuse env cmd entered code_internal (codes "failed to access channel")
        | ok room ↦
            if is_full ns room
            then refuse env cmd entered code_permission_denied (codes "channel is full")
            else elim (join_room env.blocks env.now s.handler relay cmd.channel
                (as_subscriber env s.handler) (some (presence_of env.now s.handler))) [
                  | none ↦ deadlocked
                  | some (h, next, acts) ↦
                      subscribed cmd ns perm req (record s { handler = h; relay = next }) acts
                ]
      ]

  unfoldable pub handle_subscribe : Command → Session S → Ended S
  handle_subscribe cmd s =
      let req = decoded_subscribe env cmd.payload in
      let ns = get_by_channel env.namespaces cmd.channel in
      on_channel env cmd s (elim (validate_channel ns cmd.channel) [
        | err e ↦ refuse env cmd s code_bad_request (codes "invalid channel name")
        | ok _ ↦ elim (env.checker.check_subscribe s.handler.user_id cmd.channel req.token) [
          | err e ↦ refuse env cmd s (refusal_code e) (error_text e)
          | ok perm ↦ enter_room cmd ns perm req s
        ]
      ])

  unfoldable pub handle_unsubscribe : Command → Session S → Ended S
  handle_unsubscribe cmd s =
      let ns = get_by_channel env.namespaces cmd.channel in
      on_channel env cmd s (elim (lookup cmd.channel s.handler.subscriptions) [
        | none ↦ refuse env cmd s code_not_found (codes "not subscribed")
        | some perm ↦
            elim (leave_room env.blocks env.now (without_subscription cmd.channel s.handler) s.relay
              cmd.channel) [
                | none ↦ deadlocked
                | some (h, relay, acts) ↦
                    let leaves =
                      if ns.options.join_leave && has perm perm_join_leave
                      then broadcast_leave env h relay cmd.channel
                      else [] in
                    ends_with env (record s { handler = h; relay = relay }) (acts ++ leaves)
                      (send_result env cmd.id unsubscribe_answer)
              ]
      ])
