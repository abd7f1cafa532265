-- ===== src/Handler/Endings.antt =====
-- What every call of a handler, its timer and its rooms do to it (engine/handler.go).
use stream_relay.Prelude.{
  ℕ, subst, inl, inr, Bool, true, Bool-cases, Option, none, some, Option-cases, Bytes, List,
}
use stream_relay.Protocol.{Error, Result-cases}
use stream_relay.Protocol.Messages.{Command, parse_command}
use stream_relay.Streams.Commands.{Do}
use stream_relay.Permissions.Checking.{PermissionChecker}
use stream_relay.Handler.{Surroundings, ClientHandler, Session, Act, Ended, ended, deadlocked}
use stream_relay.Handler.Closing.{close_handler, close}
use stream_relay.Handler.Connecting.{is_silent, ping_timer_fired}
use stream_relay.Handler.Requesting.{handle_message}
use stream_relay.Handler.Upkeep.{ShutOf, SameOrShut, close_handler-ShutOf}
use stream_relay.Handler.Changes.{Change, EndsIn, changed, never}
use stream_relay.Handler.Commands.{handle_command-EndsIn}

abbrev pub heard_at : ℕ → ClientHandler → ClientHandler
heard_at now h = record h { last_activity = some now }

-- A message is heard and may hold a command, for which a checker is asked, the timer goes on, or the
-- handler may be shut.
pub data Evolves (asked : PermissionChecker → Type 0) (h : ClientHandler)
    : ClientHandler → Type 0 where
  heard_only : (env : Surroundings) → Evolves asked h (heard_at env.now h)
  commanded :
      (env : Surroundings) (cmd : Command) (next : ClientHandler)
      → asked env.checker
      → Change env cmd (heard_at env.now h) next
      → Evolves asked h next
  timed : Evolves asked h (record h { ping_timer = true })
  shutting : (next : ClientHandler) → SameOrShut h next → Evolves asked h next

-- A call ends with a handler that has evolved so, or never.
pub data Ends {S : Type 0} (asked : PermissionChecker → Type 0) (h : ClientHandler)
    : Ended S → Type 0 where
  evolved :
      {next : Session S} {acts : List Act} {error : Option Error}
      → Evolves asked h next.handler
      → Ends asked h (ended next acts error)
  hangs : Ends asked h deadlocked

EndsIn-Ends :
    {S : Type 0} {asked : PermissionChecker → Type 0} {env : Surroundings} {cmd : Command}
    {h : ClientHandler} {r : Ended S}
    → asked env.checker
    → EndsIn env cmd (heard_at env.now h) r
    → Ends asked h r
EndsIn-Ends {env} {cmd} known (changed {next} change) =
    evolved (commanded env cmd next.handler known change)
EndsIn-Ends known never = hangs

module _ {S : Type 0} (do_command : Do S) (asked : PermissionChecker → Type 0) (s : Session S) where
  pub handle_message-Ends :
      (env : Surroundings) (text : Bytes)
      → asked env.checker
      → Ends asked s.handler (handle_message do_command env text s)
  unfolding handle_message
  handle_message-Ends env text known =
      let h = heard_at env.now s.handler in
      elim (Result-cases (parse_command env.json text)) [
        | inr (error, e) ↦ rw (handle_message, e) (evolved (heard_only env))
        | inl (cmd, e) ↦
            rw (handle_message, e)
              (EndsIn-Ends known
                (handle_command-EndsIn do_command env cmd (record s { handler = h })))
      ]

  pub close-Ends :
      (blocks : Bytes → ℕ → Bool) (now : ℕ) (close_error : Option Error)
      → Ends asked s.handler (close blocks now close_error s)
  unfolding close
  close-Ends blocks now close_error =
      let may_shut = close_handler-ShutOf blocks none now s.handler s.relay in
      elim (Option-cases (close_handler blocks none now s.handler s.relay)) [
        | inl stuck ↦ rw (close, stuck) hangs
        | inr ((h, relay, acts), e) ↦
            rw (close, e) (evolved (shutting h (subst (ShutOf s.handler) e may_shut)))
      ]

  pub ping_timer_fired-Ends : (env : Surroundings) → Ends asked s.handler (ping_timer_fired env s)
  unfolding ping_timer_fired
  ping_timer_fired-Ends env = elim (Bool-cases (is_silent env s.handler)) [
    | inl e ↦ rw (ping_timer_fired, e) (close-Ends env.blocks env.now env.close_error)
    | inr e ↦ rw (ping_timer_fired, e) (evolved timed)
  ]
