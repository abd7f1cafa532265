-- ===== src/Handler/Dispatch.antt =====
-- The commands on rooms, and the dispatch, in engine/handler.go: each command is answered once.
use stream_relay.Prelude.{
  ◌≡◌, refl, inl, inr, Bool, true, false, not, ◌&&◌, Bool-cases, none, some, Option-cases, List, [],
  Bytes, arith, str_eq, lookup,
}
use stream_relay.Protocol.{Result-cases}
use stream_relay.Protocol.Messages.{
  Command, cmd_connect, cmd_subscribe, cmd_unsubscribe, cmd_publish, cmd_presence, cmd_history,
  cmd_ping, SubscribeRequest,
}
use stream_relay.Types.{PublishOptions, RecoveryOptions}
use stream_relay.Permissions.Bits.{Permission, has, perm_join_leave, perm_history}
use stream_relay.Namespaces.{Namespace, get_by_channel, validate_channel}
use stream_relay.Streams.Commands.{Do}
use stream_relay.RedisRelay.{get_or_create_redis_room}
use stream_relay.RedisRelay.Recovery.{publish_with, redis_recover_messages}
use stream_relay.Handler.{Surroundings, Session, Act, as_subscriber}
use stream_relay.Handler.Closing.{leave_room, join_room}
use stream_relay.Handler.Subscribing.{
  is_full, config_for, presence_of, with_subscription, without_subscription, decoded_subscribe,
  subscribed, enter_room, handle_subscribe, handle_unsubscribe,
}
use stream_relay.Handler.Requesting.{
  is_missing, may_publish, permission_or_none, message_from, subscription, payload_text,
  decoded_history, history_limit, publish_message, handle_publish, handle_history, handle_command,
}
use stream_relay.Handler.Silence.{replies, silent_append}
use stream_relay.Handler.Answers.{
  if-AnswersOnce, AnswersOnce, answered, stuck, error-RepliesOrFails, result-RepliesOrFails,
  refuse-AnswersOnce, on_channel-AnswersOnce, handle_connect-AnswersOnce, with_right-AnswersOnce,
  handle_presence-AnswersOnce,
}
use stream_relay.Handler.Hushed.{
  replies-relayed_each, replies-broadcast_join, replies-broadcast_leave, join_room-IsSilent,
  leave_room-IsSilent, replies-if,
}

module _ {S : Type 0} (do_command : Do S) (env : Surroundings) where
  handle_history-AnswersOnce :
      (cmd : Command) (s : Session S)
      → AnswersOnce env.json cmd.id (handle_history do_command env cmd s)
  unfolding handle_history
  handle_history-AnswersOnce cmd s =
      let req = decoded_history env cmd.payload in
      let options : RecoveryOptions = record {
        from_id = req.since;
        limit = history_limit req.limit;
        since = none;
      } in
      let messages =
        (redis_recover_messages do_command env.decode_metadata s.relay cmd.channel s.handler.user_id
          (some options) s.server).1 in
      on_channel-AnswersOnce env cmd s _ (
        with_right-AnswersOnce env do_command cmd perm_history _ s _ (elim (Result-cases messages) [
          | inl (msgs, e) ↦ rw e (answered (result-RepliesOrFails env [] cmd.id _ refl))
          | inr (error, e) ↦ rw e (answered (error-RepliesOrFails env [] cmd.id _ _ refl))
        ]))

  publish_message-AnswersOnce :
      (cmd : Command) (persist : Bool) (content : Bytes) (s : Session S)
      → AnswersOnce env.json cmd.id (publish_message do_command env cmd persist content s)
  unfolding publish_message
  publish_message-AnswersOnce cmd persist content s =
      let options : PublishOptions = record {
        skip_sender = true;
        priority = 0;
        ttl = 0;
        persist = persist;
      } in
      let msg = message_from env.now s.handler cmd.channel content in
      let published =
        (publish_with do_command env.encode_metadata env.in_time env.now s.relay cmd.channel msg
          (some options) s.server).1 in
      let quiet = replies-relayed_each published.effects in
      elim (Result-cases published.results) [
        | inl (results, e) ↦
            rw (publish_message, e) (answered (result-RepliesOrFails env _ cmd.id _ quiet))
        | inr (error, e) ↦
            rw (publish_message, e) (answered (error-RepliesOrFails env _ cmd.id _ _ quiet))
      ]

  handle_publish-AnswersOnce :
      (cmd : Command) (s : Session S)
      → AnswersOnce env.json cmd.id (handle_publish do_command env cmd s)
  unfolding handle_publish
  handle_publish-AnswersOnce cmd s =
      let refused = refuse-AnswersOnce env cmd s in
      let ns = get_by_channel env.namespaces cmd.channel in
      let found = subscription s.handler cmd.channel in
      on_channel-AnswersOnce env cmd s _
        (elim (Result-cases (env.json.decode_publish (payload_text cmd.payload))) [
          | inr (error, e) ↦ rw e (refused _ _)
          | inl (req, e) ↦ rw e (
              if-AnswersOnce (not ns.options.publish) cmd.id _ _ (refused _ _) (
                if-AnswersOnce (ns.options.subscribe_to_publish && is_missing found) cmd.id _ _
                  (refused _ _)
                  (if-AnswersOnce
                    (not (may_publish env s.handler cmd.channel (permission_or_none found))) cmd.id
                    _ _ (refused _ _) (publish_message-AnswersOnce cmd _ req.content s))))
        ])

  subscribed-AnswersOnce :
      (cmd : Command) (ns : Namespace) (perm : Permission) (req : SubscribeRequest) (s : Session S)
      (acts : List Act)
      → replies acts ≡ []
      → AnswersOnce env.json cmd.id (subscribed do_command env cmd ns perm req s acts)
  unfolding subscribed
  subscribed-AnswersOnce cmd ns perm req s acts quiet =
      let h = with_subscription cmd.channel perm req s.handler in
      let joins =
        replies-if (ns.options.join_leave && has perm perm_join_leave) _
          (replies-broadcast_join env h s.relay cmd.channel) in
      answered (result-RepliesOrFails env _ cmd.id _ (silent_append acts _ quiet joins))

  enter_room-AnswersOnce :
      (cmd : Command) (ns : Namespace) (perm : Permission) (req : SubscribeRequest) (s : Session S)
      → AnswersOnce env.json cmd.id (enter_room do_command env cmd ns perm req s)
  unfolding enter_room
  enter_room-AnswersOnce cmd ns perm req s =
      let (relay, found) = get_or_create_redis_room env.now s.relay (config_for cmd.channel ns) in
      let refused = refuse-AnswersOnce env cmd (record s { relay = relay }) in
      let joined =
        join_room env.blocks env.now s.handler relay cmd.channel (as_subscriber env s.handler)
          (some (presence_of env.now s.handler)) in
      let quiet =
        join_room-IsSilent env.blocks env.now s.handler relay cmd.channel
          (as_subscriber env s.handler) (some (presence_of env.now s.handler)) in
      elim (Result-cases found) [
        | inr (error, e) ↦ rw (enter_room, e) (refused _ _)
        | inl (room, e) ↦ elim (Bool-cases (is_full ns room)) [
          | inl full ↦ rw (enter_room, e, full) (refused _ _)
          | inr space ↦ elim (Option-cases joined) [
            | inl no_end ↦ rw (enter_room, e, space, no_end) stuck
            | inr ((h, next, acts), e') ↦
                let before : replies acts ≡ [] = ground (arith, quiet, e') in
                rw (enter_room, e, space, e')
                  (subscribed-AnswersOnce cmd ns perm req (record s { handler = h; relay = next })
                    acts before)
          ]
        ]
      ]

  handle_subscribe-AnswersOnce :
      (cmd : Command) (s : Session S)
      → AnswersOnce env.json cmd.id (handle_subscribe do_command env cmd s)
  unfolding handle_subscribe
  handle_subscribe-AnswersOnce cmd s =
      let refused = refuse-AnswersOnce env cmd s in
      let req = decoded_subscribe env cmd.payload in
      let ns = get_by_channel env.namespaces cmd.channel in
      on_channel-AnswersOnce env cmd s _ (elim (Result-cases (validate_channel ns cmd.channel)) [
        | inr (error, e) ↦ rw e (refused _ _)
        | inl (u, e) ↦
            elim (Result-cases
              (env.checker.check_subscribe s.handler.user_id cmd.channel req.token)) [
                | inr (error, e') ↦ rw (e, e') (refused _ _)
                | inl (perm, e') ↦ rw (e, e') (enter_room-AnswersOnce cmd ns perm req s)
              ]
      ])

  handle_unsubscribe-AnswersOnce :
      (cmd : Command) (s : Session S)
      → AnswersOnce env.json cmd.id (handle_unsubscribe do_command env cmd s)
  unfolding handle_unsubscribe
  handle_unsubscribe-AnswersOnce cmd s =
      let ns = get_by_channel env.namespaces cmd.channel in
      let next = without_subscription cmd.channel s.handler in
      let quiet = leave_room-IsSilent env.blocks env.now next s.relay cmd.channel in
      on_channel-AnswersOnce env cmd s _
        (elim (Option-cases (lookup cmd.channel s.handler.subscriptions)) [
          | inl e ↦ rw e (answered (error-RepliesOrFails env [] cmd.id _ _ refl))
          | inr (perm, e) ↦
              elim (Option-cases (leave_room env.blocks env.now next s.relay cmd.channel)) [
                | inl no_end ↦ rw (e, no_end) stuck
                | inr ((h, relay, acts), e') ↦
                    let before : replies acts ≡ [] = ground (arith, quiet, e') in
                    let leaves =
                      replies-if (ns.options.join_leave && has perm perm_join_leave) _
                        (replies-broadcast_leave env h relay cmd.channel) in
                    rw (e, e')
                      (answered
                        (result-RepliesOrFails env _ cmd.id _ (silent_append acts _ before leaves)))
              ]
        ])

  -- Every command but a ping that ends is answered by one reply, which has the id of the command and is
  -- the last thing that happens; or by none, and then the JSON of that reply or of a result cannot be made,
  -- and the call returns the error of that.
  pub handle_command-AnswersOnce :
      (cmd : Command) (s : Session S)
      → str_eq cmd.kind cmd_ping ≡ false
      → AnswersOnce env.json cmd.id (handle_command do_command env cmd s)
  unfolding handle_command
  handle_command-AnswersOnce cmd s no_ping =
      rw (handle_command, no_ping)
        (if-AnswersOnce (str_eq cmd.kind cmd_connect) cmd.id _ _
          (handle_connect-AnswersOnce env cmd s)
          (if-AnswersOnce (str_eq cmd.kind cmd_subscribe) cmd.id _ _
            (handle_subscribe-AnswersOnce cmd s)
            (if-AnswersOnce (str_eq cmd.kind cmd_unsubscribe) cmd.id _ _
              (handle_unsubscribe-AnswersOnce cmd s)
              (if-AnswersOnce (str_eq cmd.kind cmd_publish) cmd.id _ _
                (handle_publish-AnswersOnce cmd s)
                (if-AnswersOnce (str_eq cmd.kind cmd_presence) cmd.id _ _
                  (handle_presence-AnswersOnce env do_command cmd s)
                  (if-AnswersOnce (str_eq cmd.kind cmd_history) cmd.id _ _
                    (handle_history-AnswersOnce cmd s) (refuse-AnswersOnce env cmd s _ _)))))))
