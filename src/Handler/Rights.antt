-- ===== src/Handler/Rights.antt =====
-- What a client may do, in engine/handler.go: a command is refused, or there is a right to it.
use stream_relay.Prelude.{
  ℕ, ◌≡◌, refl, ◌⊎◌, inl, inr, Bool, true, false, not, ◌&&◌, Bool-cases, some, Option-cases, [],
  Bytes, arith, str_eq, if◌then◌else◌, lookup,
}
use stream_relay.Protocol.{Result, ok, err, Result-cases}
use stream_relay.Protocol.Messages.{
  Command, cmd_connect, cmd_subscribe, cmd_unsubscribe, cmd_publish, cmd_presence, cmd_history,
  cmd_ping,
}
use stream_relay.Permissions.Bits.{Permission, has, perm_publish, perm_presence, perm_history}
use stream_relay.Namespaces.{get_by_channel, validate_channel}
use stream_relay.Streams.Commands.{Do}
use stream_relay.Handler.{Surroundings, Session, Ended, is_connected}
use stream_relay.Handler.Connecting.{granted, refuse, on_channel}
use stream_relay.Handler.Subscribing.{decoded_subscribe, handle_subscribe, handle_unsubscribe}
use stream_relay.Handler.Requesting.{
  payload_text, is_missing, permission_or_none, subscription, may_publish, with_right,
  handle_publish, handle_presence, handle_history, handle_command,
}

-- The command is answered with an error, and nothing else happens.
abbrev pub Refused : {S : Type 0} → Surroundings → Command → Session S → Ended S → Type 0
Refused env cmd s r = (code : ℕ) × (text : Bytes) × (r ≡ refuse env cmd s code text)

-- The handler is connected, and the command names a channel.
abbrev pub IsReady : {S : Type 0} → Command → Session S → Type 0
IsReady cmd s = (is_connected s.handler ≡ true) × (str_eq cmd.channel [] ≡ false)

-- The right to a command, by its type.
pub data Right {S : Type 0} (env : Surroundings) (cmd : Command) (s : Session S) : Type 0 where
  -- Anyone may connect, and ping.
  to_connect : str_eq cmd.kind cmd_connect ≡ true → Right env cmd s
  to_ping : str_eq cmd.kind cmd_ping ≡ true → Right env cmd s
  -- The channel is valid, and the checker gives permissions for it.
  to_subscribe :
      (perm : Permission)
      → str_eq cmd.kind cmd_subscribe ≡ true
      → IsReady cmd s
      → validate_channel (get_by_channel env.namespaces cmd.channel) cmd.channel ≡ ok tt
      → env.checker.check_subscribe s.handler.user_id cmd.channel
          (decoded_subscribe env cmd.payload).token
        ≡ ok perm
      → Right env cmd s
  -- There is a subscription.
  to_unsubscribe :
      (perm : Permission)
      → str_eq cmd.kind cmd_unsubscribe ≡ true
      → IsReady cmd s
      → subscription s.handler cmd.channel ≡ some perm
      → Right env cmd s
  -- The namespace lets clients publish, to subscribers only where it says so, and the permission of
  -- the subscription or the checker gives the right.
  to_publish :
      str_eq cmd.kind cmd_publish ≡ true
      → IsReady cmd s
      → (get_by_channel env.namespaces cmd.channel).options.publish ≡ true
      → ((get_by_channel env.namespaces cmd.channel).options.subscribe_to_publish ≡ false)
        ⊎ (is_missing (subscription s.handler cmd.channel) ≡ false)
      → (has (permission_or_none (subscription s.handler cmd.channel)) perm_publish ≡ true)
        ⊎ (env.checker.check_publish s.handler.user_id cmd.channel ≡ ok true)
      → Right env cmd s
  -- There is a subscription whose permission has the right.
  to_presence :
      (perm : Permission)
      → str_eq cmd.kind cmd_presence ≡ true
      → IsReady cmd s
      → subscription s.handler cmd.channel ≡ some perm
      → has perm perm_presence ≡ true
      → Right env cmd s
  to_history :
      (perm : Permission)
      → str_eq cmd.kind cmd_history ≡ true
      → IsReady cmd s
      → subscription s.handler cmd.channel ≡ some perm
      → has perm perm_history ≡ true
      → Right env cmd s

granted_lem : (r : Result Bool) → granted r ≡ true → r ≡ ok true
granted_lem (ok true) h = refl
granted_lem (ok false) h = cc
granted_lem (err e) h = cc

not_both : (a b : Bool) → (a && b) ≡ false → (a ≡ false) ⊎ (b ≡ false)
not_both true b h = inr h
not_both false b h = inl refl

unnegated : (a : Bool) → not a ≡ false → a ≡ true
unnegated true h = refl
unnegated false h = cc

-- What a command comes to: it is refused, or `R` holds.
abbrev OrRight : {S : Type 0} → Surroundings → Command → Session S → Type 0 → Ended S → Type 0
OrRight env cmd s R r = Refused env cmd s r ⊎ R

module _ {S : Type 0} (env : Surroundings) (cmd : Command) (s : Session S) where
  on_channel-OrRight :
      (R : Type 0) (continued : Ended S)
      → (IsReady cmd s → OrRight env cmd s R continued)
      → OrRight env cmd s R (on_channel env cmd s continued)
  unfolding on_channel
  on_channel-OrRight R continued h = elim (Bool-cases (is_connected s.handler)) [
    | inr e ↦ rw (on_channel, e) (inl (_, _, refl))
    | inl e ↦ elim (Bool-cases (str_eq cmd.channel [])) [
      | inl e' ↦ rw (on_channel, e, e') (inl (_, _, refl))
      | inr e' ↦ rw (on_channel, e, e') (h (e, e'))
    ]
  ]

  with_right-OrRight :
      (do_command : Do S) (right : Permission) (text : Bytes) (R : Type 0) (continued : Ended S)
      → ((perm : Permission)
          → subscription s.handler cmd.channel ≡ some perm
          → has perm right ≡ true
          → R)
      → OrRight env cmd s R (with_right do_command env cmd right text s continued)
  unfolding with_right
  with_right-OrRight do_command right text R continued h =
      elim (Option-cases (subscription s.handler cmd.channel)) [
        | inl e ↦ rw (with_right, e) (inl (_, _, refl))
        | inr (perm, e) ↦ elim (Bool-cases (has perm right)) [
          | inr e' ↦ rw (with_right, e, e') (inl (_, _, refl))
          | inl e' ↦ inr (h perm e e')
        ]
      ]

-- Of two ends, the one that a test chooses.
pub chosen :
    {S : Type 0} (P : Ended S → Type 0) (c : Bool) (a b : Ended S)
    → (c ≡ true → P a)
    → (c ≡ false → P b)
    → P (if c then a else b)
chosen P true a b x y = x refl
chosen P false a b x y = y refl

module _ {S : Type 0} (do_command : Do S) (env : Surroundings) (cmd : Command) (s : Session S) where
  handle_subscribe-Right :
      str_eq cmd.kind cmd_subscribe ≡ true
      → OrRight env cmd s (Right env cmd s) (handle_subscribe do_command env cmd s)
  unfolding handle_subscribe
  handle_subscribe-Right kind =
      let ns = get_by_channel env.namespaces cmd.channel in
      on_channel-OrRight env cmd s (Right env cmd s) _ λ ready.
        elim (Result-cases (validate_channel ns cmd.channel)) [
          | inr (error, e) ↦ rw e (inl (_, _, refl))
          | inl (tt, valid) ↦
              elim (Result-cases (
                env.checker.check_subscribe s.handler.user_id cmd.channel
                  (decoded_subscribe env cmd.payload).token)) [
                    | inr (error, e) ↦ rw (valid, e) (inl (_, _, refl))
                    | inl (perm, e) ↦ inr (to_subscribe perm kind ready valid e)
                  ]
        ]

  handle_unsubscribe-Right :
      str_eq cmd.kind cmd_unsubscribe ≡ true
      → OrRight env cmd s (Right env cmd s) (handle_unsubscribe do_command env cmd s)
  unfolding handle_unsubscribe
  handle_unsubscribe-Right kind = on_channel-OrRight env cmd s (Right env cmd s) _ λ ready.
      elim (Option-cases (lookup cmd.channel s.handler.subscriptions)) [
        | inl e ↦ rw e (inl (_, _, refl))
        | inr (perm, e) ↦ inr (to_unsubscribe perm kind ready e)
      ]

  may_publish_cases :
      (perm : Permission)
      → may_publish env s.handler cmd.channel perm ≡ true
      → (has perm perm_publish ≡ true)
        ⊎ (env.checker.check_publish s.handler.user_id cmd.channel ≡ ok true)
  may_publish_cases perm h = elim (Bool-cases (has perm perm_publish)) [
    | inl e ↦ inl e
    | inr e ↦
        let given : granted (env.checker.check_publish s.handler.user_id cmd.channel) ≡ true =
          ground (arith, h, e) in
        inr (granted_lem _ given)
  ]

  handle_publish-Right :
      str_eq cmd.kind cmd_publish ≡ true
      → OrRight env cmd s (Right env cmd s) (handle_publish do_command env cmd s)
  unfolding handle_publish
  handle_publish-Right kind =
      let ns = get_by_channel env.namespaces cmd.channel in
      let found = subscription s.handler cmd.channel in
      let perm = permission_or_none found in
      let P = OrRight env cmd s (Right env cmd s) in
      on_channel-OrRight env cmd s (Right env cmd s) _ λ ready.
        elim (Result-cases (env.json.decode_publish (payload_text cmd.payload))) [
          | inr (error, e) ↦ rw e (inl (_, _, refl))
          | inl (req, e) ↦ rw e (
              chosen P (not ns.options.publish) _ _ (λ h. inl (_, _, refl))
                λ public.
                  chosen P (ns.options.subscribe_to_publish && is_missing found) _ _
                    (λ h. inl (_, _, refl))
                    λ member.
                      chosen P (not (may_publish env s.handler cmd.channel perm)) _ _
                        (λ h. inl (_, _, refl))
                        λ may. inr (
                          to_publish kind ready (unnegated _ public) (not_both _ _ member)
                            (may_publish_cases perm (unnegated _ may))))
        ]

  handle_presence-Right :
      str_eq cmd.kind cmd_presence ≡ true
      → OrRight env cmd s (Right env cmd s) (handle_presence do_command env cmd s)
  unfolding handle_presence
  handle_presence-Right kind = on_channel-OrRight env cmd s (Right env cmd s) _ λ ready.
      with_right-OrRight env cmd s do_command perm_presence _ (Right env cmd s) _
        λ perm e may. to_presence perm kind ready e may

  handle_history-Right :
      str_eq cmd.kind cmd_history ≡ true
      → OrRight env cmd s (Right env cmd s) (handle_history do_command env cmd s)
  unfolding handle_history
  handle_history-Right kind = on_channel-OrRight env cmd s (Right env cmd s) _ λ ready.
      with_right-OrRight env cmd s do_command perm_history _ (Right env cmd s) _
        λ perm e may. to_history perm kind ready e may

  -- A command is refused, which changes nothing and only writes an error, or there is a right to it.
  pub handle_command-Right :
      Refused env cmd s (handle_command do_command env cmd s) ⊎ Right env cmd s
  unfolding handle_command
  handle_command-Right =
      let P = OrRight env cmd s (Right env cmd s) in
      chosen P (str_eq cmd.kind cmd_connect) _ _ (λ e. inr (to_connect e))
        λ _. chosen P (str_eq cmd.kind cmd_subscribe) _ _ handle_subscribe-Right λ _.
          chosen P (str_eq cmd.kind cmd_unsubscribe) _ _ handle_unsubscribe-Right λ _.
            chosen P (str_eq cmd.kind cmd_publish) _ _ handle_publish-Right λ _.
              chosen P (str_eq cmd.kind cmd_presence) _ _ handle_presence-Right λ _.
                chosen P (str_eq cmd.kind cmd_history) _ _ handle_history-Right λ _.
                  chosen P (str_eq cmd.kind cmd_ping) _ _ (λ e. inr (to_ping e))
                    λ _. inl (_, _, refl)
