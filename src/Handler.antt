-- ===== src/Handler.antt =====
-- engine/handler.go: the state of a client's handler, what it does to the world, and how it writes to
-- its client.
pub mod Closing
pub mod Connecting
pub mod Subscribing
pub mod Requesting
pub mod Silence
pub mod Answers
pub mod Hushed
pub mod Dispatch
pub mod Rights
pub mod Leaving
pub mod Identity
pub mod Accounts
pub mod Changes
pub mod Commands
pub mod Moves
pub mod Granted
pub mod Again
pub mod Expelled
pub mod Upkeep
pub mod Endings
pub mod Lives
pub mod Anonymous
mod Tests
mod LifeTests
use stream_relay.Prelude.{
  ℕ, zero, suc, ◌==◌, Bool, true, false, Option, none, some, List, [], ◌∷◌, Bytes, codes, str_eq,
  if◌then◌else◌, Map,
}
use stream_relay.Protocol.{Error, failure, Result, ok, err, ◌>>=◌}
use stream_relay.Protocol.Messages.{
  Reply, Push, ClientInfo, Publication, Answer, Json, error_reply, success_reply,
  new_publication_push,
}
use stream_relay.Types.{Message, Subscriber, Outcome, received, refused, Effect, PresenceInfo}
use stream_relay.Permissions.Bits.{Permission}
use stream_relay.Permissions.Checking.{PermissionChecker}
use stream_relay.Namespaces.{NamespaceManager}
use stream_relay.Streams.{StreamEntry}
use stream_relay.Streams.Commands.{Do}
use stream_relay.RedisRelay.{Relay}

-- What a handler has to do with and does not change, at the time of one call: the JSON of its messages
-- and of metadata, what the transport answers to `Write` and to `Close`, the checker and the namespaces,
-- the clock, which deliveries of a broadcast are in time, and which connections are handlers. `blocks`
-- says of which other connections `Close` does not return while the lock of a room is held: it does not
-- of a handler that is subscribed to that room, which waits for the lock.
pub record Surroundings : Type 0 where
  pub json : Json
  pub encode_metadata : Map Bytes → Bytes
  pub decode_metadata : Bytes → Map Bytes
  pub write : Bytes → Option Error
  pub close_error : Option Error
  pub checker : PermissionChecker
  pub namespaces : NamespaceManager
  pub now : ℕ
  pub in_time : Bytes → Bool
  pub is_handler : ℕ → Bool
  pub blocks : Bytes → ℕ → Bool

-- The fields of `ClientHandler` that change, with the ids and durations; `conn` is the connection as the
-- rooms know it. Times and durations are in milliseconds, and a ping interval is not negative.
pub record ClientHandler : Type 0 where
  pub client_id : Bytes
  pub user_id : Bytes
  pub conn : ℕ
  pub connected : Bool
  pub connected_at : Option ℕ
  pub last_activity : Option ℕ
  pub subscriptions : Map Permission
  pub chan_info : Map (Option Bytes)
  pub conn_info : Option Bytes
  pub ping_interval : ℕ
  pub pong_timeout : ℕ
  pub ping_timer : Bool
  pub closed : Bool

-- A handler, and the relay and the server that it works on.
pub record Session (S : Type 0) : Type 0 where
  pub handler : ClientHandler
  pub relay : Relay
  pub server : S

-- What happens, in order: the own transport is given a reply, a push, or is closed; another handler's
-- transport is given a push; a room or the relay has an effect.
pub data Act : Type 0 where
  replied : Reply → Act
  pushed : Push → Act
  transport_closed : Act
  pushed_to : ℕ → Push → Act
  relayed : Effect → Act

-- How a call ends: with the next state, what happened, and the error that it returns; or not at all,
-- since it waits for the lock of a room that it holds itself, or for a connection that does.
pub data Ended (S : Type 0) : Type 0 where
  ended : Session S → List Act → Option Error → Ended S
  deadlocked : Ended S

abbrev pub duration_or : ℕ → ℕ → ℕ
duration_or default zero = default
duration_or default (suc n) = suc n

-- The checker and the namespaces of the configuration, or the defaults, are in the surroundings.
unfoldable pub new_client_handler : Bytes → ℕ → ℕ → ℕ → ClientHandler
new_client_handler client_id conn ping_interval pong_timeout = record {
  client_id = client_id;
  user_id = [];
  conn = conn;
  connected = false;
  connected_at = none;
  last_activity = none;
  subscriptions = [];
  chan_info = [];
  conn_info = none;
  ping_interval = duration_or 25000 ping_interval;
  pong_timeout = duration_or 10000 pong_timeout;
  ping_timer = false;
  closed = false;
}

unfoldable pub is_connected : ClientHandler → Bool
is_connected h = h.connected

abbrev pub sender_info : Bytes → Option ClientInfo
sender_info [] = none
sender_info (c ∷ cs) =
    some (record { user = c ∷ cs; client = []; conn_info = none; chan_info = none })

-- A message as it is shown to a client.
unfoldable pub publication_of : Message → Publication
publication_of msg = record {
  offset = msg.id;
  content = msg.content;
  info = sender_info msg.sender_id;
  tags = [];
}

abbrev pub err_closed : Error
err_closed = failure (codes "client handler closed")

abbrev pub outcome_of : Option Error → Outcome
outcome_of none = received
outcome_of (some e) = refused e

-- A write to the transport, of what `act` says: it happens if the encoding gives bytes.
unfoldable pub write_encoded : (Bytes → Option Error) → Result Bytes → Act → List Act × Option Error
write_encoded write (ok text) act = (act ∷ [], write text)
write_encoded write (err e) act = ([], some e)

module _ (env : Surroundings) where
  -- The encoded message is written, and what comes back is the outcome.
  abbrev pub received_push : Result Push → Outcome
  received_push (err e) = refused e
  received_push (ok push) =
      outcome_of (write_encoded env.write (env.json.encode_push push) (pushed push)).1

  unfoldable pub receive : ClientHandler → Message → Outcome
  receive h msg =
      if h.closed
      then refused err_closed
      else received_push (new_publication_push env.json msg.room_id (publication_of msg))

  -- A handler as the subscriber of a room. It is the handler of the moment at which it subscribes: what a
  -- room gives it later is answered as then, though the handler may have been closed in between.
  abbrev pub as_subscriber : ClientHandler → Subscriber
  as_subscriber h = record {
    user_id = h.user_id;
    conn = h.conn;
    receive = λ msg attempt. receive h msg;
  }

  unfoldable pub send_reply : Reply → List Act × Option Error
  send_reply reply = write_encoded env.write (env.json.encode_reply reply) (replied reply)

  unfoldable pub send_push : Push → List Act × Option Error
  send_push push = write_encoded env.write (env.json.encode_push push) (pushed push)

  unfoldable pub send_error : ℕ → ℕ → Bytes → List Act × Option Error
  send_error id code text = send_reply (error_reply id code text)

  abbrev pub sent_result : Result Reply → List Act × Option Error
  sent_result (ok reply) = send_reply reply
  sent_result (err e) = ([], some e)

  unfoldable pub send_result : ℕ → Answer → List Act × Option Error
  send_result id answer = sent_result (success_reply env.json id answer)
