-- ===== src/Handler/Changes.antt =====
-- What a command does to the handler itself, in engine/handler.go.
use stream_relay.Prelude.{
  ◌≡◌, [], inl, inr, Bool, true, not, ◌&&◌, Bool-cases, Option, some, none, Option-cases, List,
  Bytes, str_eq, lookup,
}
use stream_relay.Protocol.{Error, ok, Result-cases}
use stream_relay.Protocol.Messages.{
  Command, ConnectRequest, SubscribeRequest, cmd_connect, cmd_subscribe, cmd_unsubscribe,
}
use stream_relay.Types.{RecoveryOptions, PublishOptions}
use stream_relay.Permissions.Bits.{Permission, has, perm_presence, perm_history}
use stream_relay.Namespaces.{get_by_channel}
use stream_relay.Streams.Commands.{Do}
use stream_relay.RedisRelay.{redis_presence}
use stream_relay.RedisRelay.Recovery.{publish_with, redis_recover_messages}
use stream_relay.Handler.{
  Surroundings, ClientHandler, Session, Act, Ended, ended, deadlocked, is_connected,
}
use stream_relay.Handler.Connecting.{
  decoded_connect, extract_user_from_token, granted, start_ping_timer, connected_as, on_channel,
  handle_connect, handle_ping,
}
use stream_relay.Handler.Subscribing.{with_subscription, without_subscription, decoded_subscribe}
use stream_relay.Handler.Requesting.{
  payload_text, decoded_history, history_limit, message_from, is_missing, may_publish,
  permission_or_none, subscription, with_right, publish_message, handle_publish, handle_presence,
  handle_history,
}
use stream_relay.Handler.Rights.{chosen}
use stream_relay.Handler.Upkeep.{SameOrShut}

-- What a command may do to a handler: nothing, or what a ping, a connection, a subscription or its end
-- does. In the last two the handler may be shut on the way.
pub data Change (env : Surroundings) (cmd : Command) (h : ClientHandler)
    : ClientHandler → Type 0 where
  kept : Change env cmd h h
  pinged : Change env cmd h (record h { last_activity = some env.now })
  connects :
      (req : ConnectRequest)
      → str_eq cmd.kind cmd_connect ≡ true
      → decoded_connect env cmd.payload ≡ ok req
      → granted (env.checker.check_connect (extract_user_from_token req.token) req.token) ≡ true
      → Change env cmd h
          (start_ping_timer (connected_as env.now (extract_user_from_token req.token) req h))
  subscribes :
      (after : ClientHandler) (perm : Permission) (req : SubscribeRequest)
      → h.connected ≡ true
      → str_eq cmd.kind cmd_subscribe ≡ true
      → env.checker.check_subscribe h.user_id cmd.channel (decoded_subscribe env cmd.payload).token
        ≡ ok perm
      → SameOrShut h after
      → Change env cmd h (with_subscription cmd.channel perm req after)
  unsubscribes :
      (after : ClientHandler) (perm : Permission)
      → h.connected ≡ true
      → str_eq cmd.kind cmd_unsubscribe ≡ true
      → lookup cmd.channel h.subscriptions ≡ some perm
      → SameOrShut (without_subscription cmd.channel h) after
      → Change env cmd h after

-- A call ends with a handler that is changed so, or never.
pub data EndsIn {S : Type 0} (env : Surroundings) (cmd : Command) (h : ClientHandler)
    : Ended S → Type 0 where
  changed :
      {next : Session S} {acts : List Act} {error : Option Error}
      → Change env cmd h next.handler
      → EndsIn env cmd h (ended next acts error)
  never : EndsIn env cmd h deadlocked

module _ {S : Type 0} (do_command : Do S) (env : Surroundings) (cmd : Command) (s : Session S) where
  -- How the commands end for the handler.
  abbrev Ends : Ended S → Type 0
  Ends = EndsIn env cmd s.handler

  pub on_channel-EndsIn :
      (continued : Ended S)
      → (s.handler.connected ≡ true → Ends continued)
      → Ends (on_channel env cmd s continued)
  unfolding on_channel is_connected
  on_channel-EndsIn continued h = elim (Bool-cases s.handler.connected) [
    | inr e ↦ simp (on_channel, e) (changed kept)
    | inl e ↦ elim (Bool-cases (str_eq cmd.channel [])) [
      | inl e' ↦ simp (on_channel, e, e') (changed kept)
      | inr e' ↦ simp (on_channel, e, e') (h e)
    ]
  ]

  with_right-EndsIn :
      (right : Permission) (text : Bytes) (continued : Ended S)
      → Ends continued
      → Ends (with_right do_command env cmd right text s continued)
  unfolding with_right
  with_right-EndsIn right text continued h =
      elim (Option-cases (subscription s.handler cmd.channel)) [
        | inl e ↦ rw (with_right, e) (changed kept)
        | inr (perm, e) ↦ elim (Bool-cases (has perm right)) [
          | inr e' ↦ rw (with_right, e, e') (changed kept)
          | inl e' ↦ rw (with_right, e, e') h
        ]
      ]

  pub handle_connect-EndsIn : str_eq cmd.kind cmd_connect ≡ true → Ends (handle_connect env cmd s)
  unfolding handle_connect
  handle_connect-EndsIn kind = elim (Result-cases (decoded_connect env cmd.payload)) [
    | inr (error, e) ↦ rw (handle_connect, e) (changed kept)
    | inl (req, e) ↦
        let user = extract_user_from_token req.token in
        elim (Bool-cases (granted (env.checker.check_connect user req.token))) [
          | inr e' ↦ rw (handle_connect, e, e') (changed kept)
          | inl e' ↦ rw (handle_connect, e, e') (changed (connects req kind e e'))
        ]
  ]

  pub handle_presence-EndsIn : Ends (handle_presence do_command env cmd s)
  unfolding handle_presence
  handle_presence-EndsIn = on_channel-EndsIn _ λ is_in.
      with_right-EndsIn perm_presence _ _
        (elim (Result-cases (redis_presence s.relay cmd.channel)) [
          | inl (infos, e) ↦ rw e (changed kept)
          | inr (error, e) ↦ rw e (changed kept)
        ])

  pub handle_history-EndsIn : Ends (handle_history do_command env cmd s)
  unfolding handle_history
  handle_history-EndsIn =
      let req = decoded_history env cmd.payload in
      let options : RecoveryOptions = record {
        from_id = req.since;
        limit = history_limit req.limit;
        since = none;
      } in
      let messages =
        (redis_recover_messages do_command env.decode_metadata s.relay cmd.channel s.handler.user_id
          (some options) s.server).1 in
      on_channel-EndsIn _ λ is_in.
        with_right-EndsIn perm_history _ _ (elim (Result-cases messages) [
          | inl (msgs, e) ↦ rw e (changed kept)
          | inr (error, e) ↦ rw e (changed kept)
        ])

  publish_message-EndsIn :
      (persist : Bool) (content : Bytes)
      → Ends (publish_message do_command env cmd persist content s)
  unfolding publish_message
  publish_message-EndsIn persist content =
      let options : PublishOptions = record {
        skip_sender = true;
        priority = 0;
        ttl = 0;
        persist = persist;
      } in
      let msg = message_from env.now s.handler cmd.channel content in
      let published =
        (publish_with do_command env.encode_metadata env.in_time env.now s.relay cmd.channel msg
          (some options) s.server).1 in
      elim (Result-cases published.results) [
        | inl (results, e) ↦ rw (publish_message, e) (changed kept)
        | inr (error, e) ↦ rw (publish_message, e) (changed kept)
      ]

  pub handle_publish-EndsIn : Ends (handle_publish do_command env cmd s)
  unfolding handle_publish
  handle_publish-EndsIn =
      let ns = get_by_channel env.namespaces cmd.channel in
      let found = subscription s.handler cmd.channel in
      on_channel-EndsIn _ λ is_in.
        elim (Result-cases (env.json.decode_publish (payload_text cmd.payload))) [
          | inr (error, e) ↦ rw e (changed kept)
          | inl (req, e) ↦ rw e (
              chosen Ends (not ns.options.publish) _ _ (λ _. changed kept)
                λ _.
                  chosen Ends (ns.options.subscribe_to_publish && is_missing found) _ _
                    (λ _. changed kept)
                    λ _.
                      chosen Ends
                        (not (may_publish env s.handler cmd.channel (permission_or_none found))) _ _
                        (λ _. changed kept) λ _. publish_message-EndsIn _ req.content)
        ]

  pub handle_ping-EndsIn : Ends (handle_ping env cmd s)
  unfolding handle_ping
  handle_ping-EndsIn = changed pinged
