-- ===== src/Handler/Moves.antt =====
-- The handler of a client (engine/handler.go) against its specification: what a command does to the
-- account of the client.
use stream_relay.Prelude.{◌≡◌, subst, Option, List}
use stream_relay.Protocol.{Error}
use stream_relay.Protocol.Messages.{Command}
use stream_relay.Streams.Commands.{Do}
use stream_relay.Handler.{Surroundings, ClientHandler, Session, Act, ended}
use stream_relay.Handler.Requesting.{handle_command}
use stream_relay.Handler.Changes.{Change, EndsIn, changed}
use stream_relay.Handler.Commands.{handle_command-EndsIn}
use stream_relay.Handler.Accounts.{account_of, Move, Change-Move}

Change-of_EndsIn :
    {S : Type 0} {env : Surroundings} {cmd : Command} {h : ClientHandler} (next : Session S)
    (acts : List Act) (error : Option Error)
    → EndsIn env cmd h (ended next acts error)
    → Change env cmd h next.handler
Change-of_EndsIn next acts error (changed change) = change

-- A command that ends does to the account of its client what the specification lets it do: nothing, or
-- it makes the client the user of a token that the checker grants, gives a client that is somebody the
-- permission on the channel that the checker allows that user, or takes all rights on a channel on which
-- there were some; the last two may shut it besides.
pub handle_command-Move :
    {S : Type 0} (do_command : Do S) (env : Surroundings) (cmd : Command) (s next : Session S)
    (acts : List Act) (error : Option Error)
    → handle_command do_command env cmd s ≡ ended next acts error
    → Move env cmd (account_of s.handler) (account_of next.handler)
handle_command-Move do_command env cmd s next acts error e = Change-Move (
    Change-of_EndsIn next acts error
      (subst (EndsIn env cmd s.handler) e (handle_command-EndsIn do_command env cmd s)))
