-- ===== src/Handler/Requesting.antt =====
-- Publishing, presence and history in engine/handler.go, and the dispatch of commands.
use stream_relay.Prelude.{
  ℕ, ◌==◌, Bool, true, false, not, ◌&&◌, ◌||◌, Option, none, some, List, [], ◌∷◌, Bytes, codes,
  str_eq, ltb, if◌then◌else◌, Map, lookup, insert,
}
use stream_relay.Protocol.{ok, err}
use stream_relay.Protocol.Messages.{
  Command, ClientInfo, HistoryRequest, publish_answer, presence_answer, history_answer,
  parse_command, cmd_connect, cmd_subscribe, cmd_unsubscribe, cmd_publish, cmd_presence,
  cmd_history, cmd_ping, code_bad_request, code_permission_denied, code_internal,
}
use stream_relay.Types.{
  Message, message_type_text, PublishOptions, RecoveryOptions, PresenceInfo, Effect,
}
use stream_relay.Permissions.Bits.{
  Permission, perm_none, perm_publish, perm_presence, perm_history, has,
}
use stream_relay.Namespaces.{get_by_channel}
use stream_relay.Streams.Commands.{Do}
use stream_relay.RedisRelay.{redis_presence}
use stream_relay.RedisRelay.Recovery.{publish_with, redis_recover_messages}
use stream_relay.Handler.{
  Surroundings, ClientHandler, Session, Act, relayed, Ended, send_error, send_result,
}
use stream_relay.Handler.Connecting.{
  granted, ends_with, refuse, on_channel, handle_connect, handle_ping,
}
use stream_relay.Handler.Subscribing.{
  publications_of, last_offset, handle_subscribe, handle_unsubscribe,
}

-- `perm, subscribed := h.subscriptions[channel]`
abbrev pub subscription : ClientHandler → Bytes → Option Permission
subscription h channel = lookup channel h.subscriptions

abbrev pub permission_or_none : Option Permission → Permission
permission_or_none none = perm_none
permission_or_none (some perm) = perm

abbrev pub is_missing : Option Permission → Bool
is_missing none = true
is_missing (some perm) = false

unfoldable pub message_from : ℕ → ClientHandler → Bytes → Bytes → Message
message_from now h channel content = record {
  id = [];
  room_id = channel;
  sender_id = h.user_id;
  kind = message_type_text;
  content = content;
  metadata = [];
  timestamp = some now;
}

unfoldable pub relayed_each : List Effect → List Act
relayed_each [] = []
relayed_each (effect ∷ effects) = relayed effect ∷ relayed_each effects

-- The loop of `handlePresence`.
unfoldable pub presence_map : List PresenceInfo → Map ClientInfo → Map ClientInfo
presence_map [] infos = infos
presence_map (p ∷ ps) infos = presence_map ps (
    insert p.client_id
      (record { user = p.user_id; client = p.client_id; conn_info = none; chan_info = none }) infos)

-- A limit of 0 or less, or above 100, is 100.
abbrev pub history_limit : ℕ → ℕ
history_limit limit = if limit == 0 || ltb 100 limit then 100 else limit

abbrev pub blank_history_request : HistoryRequest
blank_history_request = record { limit = 0; since = []; reverse = false }

abbrev pub decoded_history : Surroundings → Option Bytes → HistoryRequest
decoded_history env none = blank_history_request
decoded_history env (some text) = env.json.decode_history text

abbrev pub payload_text : Option Bytes → Bytes
payload_text none = []
payload_text (some text) = text

-- The test for the right to publish: the permission of the subscription, or the checker.
abbrev pub may_publish : Surroundings → ClientHandler → Bytes → Permission → Bool
may_publish env h channel perm =
    has perm perm_publish || granted (env.checker.check_publish h.user_id channel)

module _ {S : Type 0} (do_command : Do S) (env : Surroundings) where
  -- What follows when the message may be published.
  unfoldable pub publish_message : Command → Bool → Bytes → Session S → Ended S
  publish_message cmd persist content s =
      let options : PublishOptions = record {
        skip_sender = true;
        priority = 0;
        ttl = 0;
        persist = persist;
      } in
      let msg = message_from env.now s.handler cmd.channel content in
      let (server, published) =
        publish_with do_command env.encode_metadata env.in_time env.now s.relay cmd.channel msg
          (some options) s.server in
      let next = record s { relay = published.relay; server = server } in
      let acts = relayed_each published.effects in
      elim published.results [
        | err e ↦
            ends_with env next acts
              (send_error env cmd.id code_internal (codes "failed to publish"))
        | ok results ↦
            ends_with env next acts
              (send_result env cmd.id (publish_answer (record { offset = published.message.id })))
      ]

  unfoldable pub handle_publish : Command → Session S → Ended S
  handle_publish cmd s =
      let ns = get_by_channel env.namespaces cmd.channel in
      let found = subscription s.handler cmd.channel in
      on_channel env cmd s (elim (env.json.decode_publish (payload_text cmd.payload)) [
        | err e ↦ refuse env cmd s code_bad_request (codes "invalid publish request")
        | ok req ↦
            if not ns.options.publish
            then refuse env cmd s code_permission_denied (codes "publishing not allowed")
            else if ns.options.subscribe_to_publish && is_missing found
            then refuse env cmd s code_permission_denied (codes "must subscribe to publish")
            else if not (may_publish env s.handler cmd.channel (permission_or_none found))
            then refuse env cmd s code_permission_denied (codes "publish not allowed")
            else publish_message cmd (ltb 0 ns.options.history_size) req.content s
      ])

  -- The tests of `handlePresence` and `handleHistory`.
  unfoldable pub with_right : Command → Permission → Bytes → Session S → Ended S → Ended S
  with_right cmd right text s continued = elim (subscription s.handler cmd.channel) [
    | none ↦ refuse env cmd s code_permission_denied (codes "not subscribed")
    | some perm ↦
        if not (has perm right) then refuse env cmd s code_permission_denied text else continued
  ]

  unfoldable pub handle_presence : Command → Session S → Ended S
  handle_presence cmd s = on_channel env cmd s (
      with_right cmd perm_presence (codes "presence not allowed") s
        (elim (redis_presence s.relay cmd.channel) [
          | err e ↦ refuse env cmd s code_internal (codes "failed to get presence")
          | ok infos ↦ ends_with env s [] (
              send_result env cmd.id
                (presence_answer (record { presence = presence_map infos [] })))
        ]))

  unfoldable pub handle_history : Command → Session S → Ended S
  handle_history cmd s =
      let req = decoded_history env cmd.payload in
      let options : RecoveryOptions = record {
        from_id = req.since;
        limit = history_limit req.limit;
        since = none;
      } in
      let (server, messages) =
        redis_recover_messages do_command env.decode_metadata s.relay cmd.channel s.handler.user_id
          (some options) s.server in
      let asked = record s { server = server } in
      on_channel env cmd s (
        with_right cmd perm_history (codes "history not allowed") s (elim messages [
          | err e ↦ refuse env cmd asked code_internal (codes "failed to get history")
          | ok msgs ↦ ends_with env asked [] (
              send_result env cmd.id (
                history_answer (record {
                  publications = publications_of msgs;
                  offset = last_offset [] msgs;
                  epoch = [];
                })))
        ]))

  unfoldable pub handle_command : Command → Session S → Ended S
  handle_command cmd s =
      if str_eq cmd.kind cmd_connect
      then handle_connect env cmd s
      else if str_eq cmd.kind cmd_subscribe
      then handle_subscribe do_command env cmd s
      else if str_eq cmd.kind cmd_unsubscribe
      then handle_unsubscribe do_command env cmd s
      else if str_eq cmd.kind cmd_publish
      then handle_publish cmd s
      else if str_eq cmd.kind cmd_presence
      then handle_presence cmd s
      else if str_eq cmd.kind cmd_history
      then handle_history cmd s
      else if str_eq cmd.kind cmd_ping
      then handle_ping env cmd s
      else refuse env cmd s code_bad_request (codes "unknown command type")

  -- The time of the message is kept, whether it is a command or not.
  abbrev pub heard : Session S → Session S
  heard s = record s { handler = record s.handler { last_activity = some env.now } }

  unfoldable pub handle_message : Bytes → Session S → Ended S
  handle_message text s = elim (parse_command env.json text) [
    | err e ↦
        ends_with env (heard s) []
          (send_error env 0 code_bad_request (codes "invalid command format"))
    | ok cmd ↦ handle_command cmd (heard s)
  ]
