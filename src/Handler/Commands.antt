-- ===== src/Handler/Commands.antt =====
-- Subscribing, unsubscribing and the dispatch of commands in engine/handler.go: what they do to the
-- handler itself.
use stream_relay.Prelude.{
  ◌≡◌, subst, inl, inr, true, Bool-cases, some, Option-cases, List, str_eq, lookup,
}
use stream_relay.Protocol.{ok, Result-cases}
use stream_relay.Protocol.Messages.{
  Command, SubscribeRequest, cmd_connect, cmd_subscribe, cmd_unsubscribe, cmd_publish, cmd_presence,
  cmd_history, cmd_ping,
}
use stream_relay.Permissions.Bits.{Permission}
use stream_relay.Namespaces.{Namespace, get_by_channel, validate_channel}
use stream_relay.Streams.Commands.{Do}
use stream_relay.RedisRelay.{Relay, get_or_create_redis_room, redis_subscribe, redis_unsubscribe}
use stream_relay.Handler.{Surroundings, ClientHandler, Session, Act, Ended, as_subscriber}
use stream_relay.Handler.Closing.{leave_room, join_room}
use stream_relay.Handler.Subscribing.{
  is_full, config_for, presence_of, without_subscription, decoded_subscribe, subscribed, enter_room,
  handle_subscribe, handle_unsubscribe,
}
use stream_relay.Handler.Requesting.{handle_command}
use stream_relay.Handler.Rights.{chosen}
use stream_relay.Handler.Upkeep.{ShutOf, SameOrShut, run_effects-ShutOf}
use stream_relay.Handler.Changes.{
  kept, subscribes, unsubscribes, EndsIn, changed, never, on_channel-EndsIn, handle_connect-EndsIn,
  handle_presence-EndsIn, handle_history-EndsIn, handle_publish-EndsIn, handle_ping-EndsIn,
}

module _ {S : Type 0} (do_command : Do S) (env : Surroundings) (cmd : Command) (s : Session S) where
  -- How the commands end for the handler.
  abbrev Ends : Ended S → Type 0
  Ends = EndsIn env cmd s.handler

  subscribed-EndsIn :
      (ns : Namespace) (perm : Permission) (req : SubscribeRequest) (h : ClientHandler)
      (relay : Relay) (acts : List Act)
      → s.handler.connected ≡ true
      → str_eq cmd.kind cmd_subscribe ≡ true
      → env.checker.check_subscribe s.handler.user_id cmd.channel
          (decoded_subscribe env cmd.payload).token
        ≡ ok perm
      → SameOrShut s.handler h
      → Ends
          (subscribed do_command env cmd ns perm req (record s { handler = h; relay = relay }) acts)
  unfolding subscribed
  subscribed-EndsIn ns perm req h relay acts is_in kind may same =
      changed (subscribes h perm req is_in kind may same)

  enter_room-EndsIn :
      (ns : Namespace) (perm : Permission) (req : SubscribeRequest)
      → s.handler.connected ≡ true
      → str_eq cmd.kind cmd_subscribe ≡ true
      → env.checker.check_subscribe s.handler.user_id cmd.channel
          (decoded_subscribe env cmd.payload).token
        ≡ ok perm
      → Ends (enter_room do_command env cmd ns perm req s)
  unfolding enter_room join_room
  enter_room-EndsIn ns perm req is_in kind may =
      let (relay, found) = get_or_create_redis_room env.now s.relay (config_for cmd.channel ns) in
      let sub = as_subscriber env s.handler in
      let info = some (presence_of env.now s.handler) in
      let (after, effects, _) = redis_subscribe env.now relay cmd.channel sub info in
      let shutting = run_effects-ShutOf env.blocks cmd.channel env.now s.handler after effects in
      elim (Result-cases found) [
        | inr (error, e) ↦ rw (enter_room, e) (changed kept)
        | inl (room, e) ↦ elim (Bool-cases (is_full ns room)) [
          | inl full ↦ rw (enter_room, e, full) (changed kept)
          | inr space ↦
              elim (Option-cases
                (join_room env.blocks env.now s.handler relay cmd.channel sub info)) [
                  | inl stuck ↦ rw (enter_room, e, space, stuck) never
                  | inr ((h, next, acts), e') ↦
                      rw (enter_room, e, space, e')
                        (subscribed-EndsIn ns perm req h next acts is_in kind may
                          (subst (ShutOf s.handler) e' shutting))
                ]
        ]
      ]

  handle_subscribe-EndsIn :
      str_eq cmd.kind cmd_subscribe ≡ true → Ends (handle_subscribe do_command env cmd s)
  unfolding handle_subscribe
  handle_subscribe-EndsIn kind =
      let req = decoded_subscribe env cmd.payload in
      let ns = get_by_channel env.namespaces cmd.channel in
      on_channel-EndsIn do_command env cmd s _ λ is_in.
        elim (Result-cases (validate_channel ns cmd.channel)) [
          | inr (error, e) ↦ rw e (changed kept)
          | inl (u, e) ↦
              elim (Result-cases
                (env.checker.check_subscribe s.handler.user_id cmd.channel req.token)) [
                  | inr (error, e') ↦ rw (e, e') (changed kept)
                  | inl (perm, e') ↦ rw (e, e') (enter_room-EndsIn ns perm req is_in kind e')
                ]
        ]

  handle_unsubscribe-EndsIn :
      str_eq cmd.kind cmd_unsubscribe ≡ true → Ends (handle_unsubscribe do_command env cmd s)
  unfolding handle_unsubscribe leave_room
  handle_unsubscribe-EndsIn kind =
      let apart = without_subscription cmd.channel s.handler in
      let (after, effects, _) = redis_unsubscribe env.now s.relay cmd.channel s.handler.user_id in
      let shutting = run_effects-ShutOf env.blocks cmd.channel env.now apart after effects in
      on_channel-EndsIn do_command env cmd s _ λ is_in.
        elim (Option-cases (lookup cmd.channel s.handler.subscriptions)) [
          | inl e ↦ rw e (changed kept)
          | inr (perm, e) ↦
              elim (Option-cases (leave_room env.blocks env.now apart s.relay cmd.channel)) [
                | inl stuck ↦ rw (e, stuck) never
                | inr ((h, relay, acts), e') ↦
                    rw (e, e')
                      (changed
                        (unsubscribes h perm is_in kind e (subst (ShutOf apart) e' shutting)))
              ]
        ]

  pub handle_command-EndsIn : Ends (handle_command do_command env cmd s)
  unfolding handle_command
  handle_command-EndsIn =
      chosen Ends (str_eq cmd.kind cmd_connect) _ _ (handle_connect-EndsIn do_command env cmd s)
        λ _. chosen Ends (str_eq cmd.kind cmd_subscribe) _ _ handle_subscribe-EndsIn λ _.
          chosen Ends (str_eq cmd.kind cmd_unsubscribe) _ _ handle_unsubscribe-EndsIn λ _.
            chosen Ends (str_eq cmd.kind cmd_publish) _ _
              (λ _. handle_publish-EndsIn do_command env cmd s)
              λ _.
                chosen Ends (str_eq cmd.kind cmd_presence) _ _
                  (λ _. handle_presence-EndsIn do_command env cmd s)
                  λ _.
                    chosen Ends (str_eq cmd.kind cmd_history) _ _
                      (λ _. handle_history-EndsIn do_command env cmd s)
                      λ _.
                        chosen Ends (str_eq cmd.kind cmd_ping) _ _
                          (λ _. handle_ping-EndsIn do_command env cmd s) λ _. changed kept
