-- ===== src/Handler/Lives.antt =====
-- The life of a session, from a new handler on (engine/handler.go).
use stream_relay.Prelude.{ℕ, ◌≡◌, ◌∙◌, subst, inl, inr, Bool, Option, some, List, Bytes, refl}
use stream_relay.Protocol.{Error}
use stream_relay.Protocol.Messages.{Command}
use stream_relay.Streams.Commands.{Do}
use stream_relay.RedisRelay.{Relay}
use stream_relay.Permissions.Checking.{PermissionChecker}
use stream_relay.Handler.{Surroundings, ClientHandler, Session, Act, ended, new_client_handler}
use stream_relay.Handler.Closing.{close_handler, close, Held}
use stream_relay.Handler.Connecting.{ping_timer_fired}
use stream_relay.Handler.Subscribing.{without_subscription}
use stream_relay.Handler.Requesting.{handle_message}
use stream_relay.Handler.Upkeep.{
  IsWellFormed, with_subscription-IsWellFormed, without_subscription-IsWellFormed, ShutOf,
  close_handler-ShutOf, SameOrShut-IsWellFormed, connected_as-IsWellFormed,
}
use stream_relay.Handler.Changes.{Change, kept, pinged, connects, subscribes, unsubscribes}
use stream_relay.Handler.Endings.{
  heard_at, Evolves, heard_only, commanded, timed, shutting, Ends, evolved, handle_message-Ends,
  close-Ends, ping_timer_fired-Ends,
}

-- One step in the life of a session: a message of the client, its ping timer, a `Close` from outside or
-- from a room, and whatever else happens to the relay and the server.
pub data Step {S : Type 0} (do_command : Do S) (s : Session S) : Session S → Type 0 where
  on_message :
      (env : Surroundings) (text : Bytes) (next : Session S) (acts : List Act)
      (error : Option Error)
      → handle_message do_command env text s ≡ ended next acts error
      → Step do_command s next
  on_timer :
      (env : Surroundings) (next : Session S) (acts : List Act) (error : Option Error)
      → ping_timer_fired env s ≡ ended next acts error
      → Step do_command s next
  on_close :
      (blocks : Bytes → ℕ → Bool) (now : ℕ) (close_error : Option Error) (next : Session S)
      (acts : List Act) (error : Option Error)
      → close blocks now close_error s ≡ ended next acts error
      → Step do_command s next
  closed_in_room :
      (blocks : Bytes → ℕ → Bool) (held : Held) (now : ℕ) (h : ClientHandler) (relay : Relay)
      (acts : List Act)
      → close_handler blocks held now s.handler s.relay ≡ some (h, relay, acts)
      → Step do_command s (record s { handler = h; relay = relay })
  elsewhere :
      (relay : Relay) (server : S) → Step do_command s (record s { relay = relay; server = server })

-- The sessions that a new handler comes to.
pub data Reachable {S : Type 0} (do_command : Do S) : Session S → Type 0 where
  begun :
      (client_id : Bytes) (conn interval timeout : ℕ) (relay : Relay) (server : S)
      → Reachable do_command (record {
        handler = new_client_handler client_id conn interval timeout;
        relay = relay;
        server = server;
      })
  stepped :
      {s t : Session S} → Reachable do_command s → Step do_command s t → Reachable do_command t

-- The checkers that the handler asks in a step are such ones.
abbrev pub AskedIn :
    {S : Type 0} {do_command : Do S} {s t : Session S}
    → (PermissionChecker → Type 0)
    → Step do_command s t
    → Type 0
AskedIn asked (on_message env text next acts error e) = asked env.checker
AskedIn asked _ = Unit

Ends-Evolves :
    {S : Type 0} {asked : PermissionChecker → Type 0} {h : ClientHandler} (next : Session S)
    (acts : List Act) (error : Option Error)
    → Ends asked h (ended next acts error)
    → Evolves asked h next.handler
Ends-Evolves next acts error (evolved change) = change

-- A step changes the handler as a call does.
pub Step-Evolves :
    {S : Type 0} (do_command : Do S) (asked : PermissionChecker → Type 0) {s t : Session S}
    (step : Step do_command s t)
    → AskedIn asked step
    → Evolves asked s.handler t.handler
Step-Evolves do_command asked {s} (on_message env text next acts error e) known =
    Ends-Evolves next acts error
      (subst (Ends asked s.handler) e (handle_message-Ends do_command asked s env text known))
Step-Evolves do_command asked {s} (on_timer env next acts error e) known =
    Ends-Evolves next acts error
      (subst (Ends asked s.handler) e (ping_timer_fired-Ends do_command asked s env))
Step-Evolves do_command asked {s} (on_close blocks now close_error next acts error e) known =
    Ends-Evolves next acts error
      (subst (Ends asked s.handler) e (close-Ends do_command asked s blocks now close_error))
Step-Evolves do_command asked {s} (closed_in_room blocks held now h relay acts e) known =
    shutting h (subst (ShutOf s.handler) e (close_handler-ShutOf blocks held now s.handler s.relay))
Step-Evolves do_command asked {s} (elsewhere relay server) known = shutting s.handler (inl refl)

-- Any checker will do.
abbrev AnyChecker : PermissionChecker → Type 0
AnyChecker checker = Unit

asked_of_any :
    {S : Type 0} {do_command : Do S} {s t : Session S} (step : Step do_command s t)
    → AskedIn AnyChecker step
asked_of_any (on_message env text next acts error e) = tt
asked_of_any (on_timer env next acts error e) = tt
asked_of_any (on_close blocks now close_error next acts error e) = tt
asked_of_any (closed_in_room blocks held now h relay acts e) = tt
asked_of_any (elsewhere relay server) = tt

heard_at-IsWellFormed :
    (now : ℕ) (h : ClientHandler) → IsWellFormed h → IsWellFormed (heard_at now h)
heard_at-IsWellFormed now h v = record {
  once = v.once;
  paired = v.paired;
  admitted = v.admitted;
  named = v.named;
}

Change-IsWellFormed :
    {env : Surroundings} {cmd : Command} {h next : ClientHandler}
    → Change env cmd h next
    → IsWellFormed h
    → IsWellFormed next
Change-IsWellFormed kept v = v
Change-IsWellFormed {env} {h} pinged v = heard_at-IsWellFormed env.now h v
Change-IsWellFormed {env} {h} (connects req kind decodes may) v =
    connected_as-IsWellFormed env.now req h v
Change-IsWellFormed {cmd} {h} (subscribes after perm req is_in kind may same) v =
    let (w, stays) = SameOrShut-IsWellFormed h after same v in
    with_subscription-IsWellFormed cmd.channel perm req after (stays ∙ is_in) w
Change-IsWellFormed {cmd} {h} (unsubscribes after perm is_in kind had same) v =
    (SameOrShut-IsWellFormed (without_subscription cmd.channel h) after same
      (without_subscription-IsWellFormed cmd.channel h v)).0

Evolves-IsWellFormed :
    {asked : PermissionChecker → Type 0} {h next : ClientHandler}
    → Evolves asked h next
    → IsWellFormed h
    → IsWellFormed next
Evolves-IsWellFormed {h} (heard_only env) v = heard_at-IsWellFormed env.now h v
Evolves-IsWellFormed {h} (commanded env cmd next known change) v =
    Change-IsWellFormed change (heard_at-IsWellFormed env.now h v)
Evolves-IsWellFormed timed v = record {
  once = v.once;
  paired = v.paired;
  admitted = v.admitted;
  named = v.named;
}
Evolves-IsWellFormed {h} (shutting next same) v = (SameOrShut-IsWellFormed h next same v).0

-- In every session that a new handler comes to, each channel is subscribed once, the information on
-- channels is on the subscribed ones, a client that has not connected has no subscription, and one that
-- has connected is somebody.
pub Reachable-IsWellFormed :
    {S : Type 0} (do_command : Do S) {s : Session S}
    → Reachable do_command s
    → IsWellFormed s.handler
unfolding new_client_handler
Reachable-IsWellFormed do_command (begun client_id conn interval timeout relay server) = record {
  once = tt;
  paired = refl;
  admitted = inr refl;
  named = inl refl;
}
Reachable-IsWellFormed do_command (stepped before step) =
    Evolves-IsWellFormed (Step-Evolves do_command AnyChecker step (asked_of_any step))
      (Reachable-IsWellFormed do_command before)
