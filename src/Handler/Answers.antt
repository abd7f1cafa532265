-- ===== src/Handler/Answers.antt =====
-- Every command of a client gets its reply (engine/handler.go).
use stream_relay.Prelude.{
  if◌then◌else◌, ℕ, ◌≡◌, ◌⊎◌, refl, inl, inr, Bool, true, false, Bool-cases, Option, none, some,
  Option-cases, List, [], ◌∷◌, ◌++◌, Bytes, str_eq, lookup,
}
use stream_relay.Protocol.{err, Result-cases, Error}
use stream_relay.Protocol.Messages.{Command, Reply, Answer, Json, error_reply, success_reply}
use stream_relay.Permissions.Bits.{Permission, has, perm_presence}
use stream_relay.Streams.Commands.{Do}
use stream_relay.RedisRelay.{redis_presence}
use stream_relay.Handler.{
  Surroundings, Session, Act, replied, Ended, ended, deadlocked, write_encoded, is_connected,
  send_reply, send_error, send_result,
}
use stream_relay.Handler.Connecting.{
  decoded_connect, extract_user_from_token, granted, refuse, on_channel, handle_connect,
}
use stream_relay.Handler.Requesting.{with_right, handle_presence}
use stream_relay.Handler.Silence.{replies, silent_append}

-- What happened ends with a reply of that id, and there is no other reply.
abbrev pub RepliesOnce : ℕ → List Act → Type 0
RepliesOnce id acts =
    (before : List Act) × (reply : Reply) × (acts ≡ before ++ replied reply ∷ [])
    × (replies before ≡ [])
    × (reply.id ≡ id)

-- The error is that of an encoding: of a result, or of a reply of that id.
abbrev pub Unencoded : Json → ℕ → Option Error → Type 0
Unencoded json id error =
    (e : Error) × (error ≡ some e)
    × (((answer : Answer) × (json.encode_answer answer ≡ err e))
        ⊎ ((reply : Reply) × (reply.id ≡ id) × (json.encode_reply reply ≡ err e)))

-- The reply is sent last, or there is none, since it cannot be encoded.
abbrev pub RepliesOrFails : Json → ℕ → List Act → Option Error → Type 0
RepliesOrFails json id acts error =
    RepliesOnce id acts ⊎ ((replies acts ≡ []) × Unencoded json id error)

-- The call ends so, or it never ends.
pub data AnswersOnce {S : Type 0} (json : Json) (id : ℕ) : Ended S → Type 0 where
  answered :
      {s : Session S} {acts : List Act} {error : Option Error}
      → RepliesOrFails json id acts error
      → AnswersOnce json id (ended s acts error)
  stuck : AnswersOnce json id deadlocked

pub if-AnswersOnce :
    {S : Type 0} {json : Json} (c : Bool) (id : ℕ) (a b : Ended S)
    → AnswersOnce json id a
    → AnswersOnce json id b
    → AnswersOnce json id (if c then a else b)
if-AnswersOnce true id a b x y = x
if-AnswersOnce false id a b x y = y

module _ (env : Surroundings) where
  -- Sending a reply behind acts that hold none.
  send_reply-RepliesOrFails :
      (acts : List Act) (reply : Reply)
      → replies acts ≡ []
      → RepliesOrFails env.json reply.id (acts ++ (send_reply env reply).0) (send_reply env reply).1
  unfolding send_reply write_encoded
  send_reply-RepliesOrFails acts reply quiet = elim (Result-cases (env.json.encode_reply reply)) [
    | inl (text, e) ↦ rw (send_reply, e) (inl (acts, reply, refl, quiet, refl))
    | inr (error, e) ↦
        rw (send_reply, e)
          (inr (silent_append acts [] quiet refl, (error, refl, inr (reply, refl, e))))
  ]

  pub error-RepliesOrFails :
      (acts : List Act) (id code : ℕ) (text : Bytes)
      → replies acts ≡ []
      → RepliesOrFails env.json id
          (acts ++ (send_error env id code text).0)
          (send_error env id code text).1
  unfolding send_error error_reply
  error-RepliesOrFails acts id code text quiet =
      send_reply-RepliesOrFails acts (error_reply id code text) quiet

  pub result-RepliesOrFails :
      (acts : List Act) (id : ℕ) (answer : Answer)
      → replies acts ≡ []
      → RepliesOrFails env.json id
          (acts ++ (send_result env id answer).0)
          (send_result env id answer).1
  unfolding send_result success_reply
  result-RepliesOrFails acts id answer quiet = elim (Result-cases (env.json.encode_answer answer)) [
    | inl (result, e) ↦
        rw (send_result, success_reply, e)
          (send_reply-RepliesOrFails acts (record { id = id; error = none; result = some result })
            quiet)
    | inr (error, e) ↦
        rw (send_result, success_reply, e)
          (inr (silent_append acts [] quiet refl, (error, refl, inl (answer, e))))
  ]

module _ {S : Type 0} (env : Surroundings) where
  pub refuse-AnswersOnce :
      (cmd : Command) (s : Session S) (code : ℕ) (text : Bytes)
      → AnswersOnce env.json cmd.id (refuse env cmd s code text)
  refuse-AnswersOnce cmd s code text = answered (error-RepliesOrFails env [] cmd.id code text refl)

  pub on_channel-AnswersOnce :
      (cmd : Command) (s : Session S) (continued : Ended S)
      → AnswersOnce env.json cmd.id continued
      → AnswersOnce env.json cmd.id (on_channel env cmd s continued)
  unfolding on_channel
  on_channel-AnswersOnce cmd s continued h = elim (Bool-cases (is_connected s.handler)) [
    | inr e ↦ rw (on_channel, e) (refuse-AnswersOnce cmd s _ _)
    | inl e ↦ elim (Bool-cases (str_eq cmd.channel [])) [
      | inl e' ↦ rw (on_channel, e, e') (refuse-AnswersOnce cmd s _ _)
      | inr e' ↦ rw (on_channel, e, e') h
    ]
  ]

  pub handle_connect-AnswersOnce :
      (cmd : Command) (s : Session S) → AnswersOnce env.json cmd.id (handle_connect env cmd s)
  unfolding handle_connect
  handle_connect-AnswersOnce cmd s = elim (Result-cases (decoded_connect env cmd.payload)) [
    | inr (e, bad) ↦ rw (handle_connect, bad) (refuse-AnswersOnce cmd s _ _)
    | inl (req, good) ↦
        let user = extract_user_from_token req.token in
        elim (Bool-cases (granted (env.checker.check_connect user req.token))) [
          | inr barred ↦ rw (handle_connect, good, barred) (refuse-AnswersOnce cmd s _ _)
          | inl may ↦
              rw (handle_connect, good, may) (answered (result-RepliesOrFails env [] cmd.id _ refl))
        ]
  ]

  pub with_right-AnswersOnce :
      (do_command : Do S) (cmd : Command) (right : Permission) (text : Bytes) (s : Session S)
      (continued : Ended S)
      → AnswersOnce env.json cmd.id continued
      → AnswersOnce env.json cmd.id (with_right do_command env cmd right text s continued)
  unfolding with_right
  with_right-AnswersOnce do_command cmd right text s continued h =
      elim (Option-cases (lookup cmd.channel s.handler.subscriptions)) [
        | inl e ↦ rw (with_right, e) (refuse-AnswersOnce cmd s _ _)
        | inr (perm, e) ↦ elim (Bool-cases (has perm right)) [
          | inr barred ↦ rw (with_right, e, barred) (refuse-AnswersOnce cmd s _ _)
          | inl may ↦ rw (with_right, e, may) h
        ]
      ]

  pub handle_presence-AnswersOnce :
      (do_command : Do S) (cmd : Command) (s : Session S)
      → AnswersOnce env.json cmd.id (handle_presence do_command env cmd s)
  unfolding handle_presence
  handle_presence-AnswersOnce do_command cmd s = on_channel-AnswersOnce cmd s _ (
      with_right-AnswersOnce do_command cmd perm_presence _ s _
        (elim (Result-cases (redis_presence s.relay cmd.channel)) [
          | inl (infos, e) ↦ rw e (answered (result-RepliesOrFails env [] cmd.id _ refl))
          | inr (error, e) ↦ rw e (refuse-AnswersOnce cmd s _ _)
        ]))
