-- ===== src/Handler/LifeTests.antt =====
-- The lives of sessions, and what the specification says of them, at concrete sessions.
use stream_relay.Prelude.{
  ◌≡◌, Option, List, ◌≢◌, refl, true, false, none, some, [], ◌∷◌, codes, lookup, insert, delete,
  Bytes-discrete,
}
use stream_relay.Protocol.Messages.{cmd_subscribe, success_reply, error_reply}
use stream_relay.Permissions.Bits.{perm_standard, has}
use stream_relay.Permissions.Pattern.{match_pattern}
use stream_relay.Permissions.Checker.{
  new_permission_checker, check_subscribe, check_connect, find_rule, find_rule_from, add_roles,
  own_permission,
}
use stream_relay.Namespaces.{get_by_channel, get_by_channel_from, validate_channel}
use stream_relay.RedisRoom.{Room, redis_subscriber_count}
use stream_relay.Handler.{
  Surroundings, Act, ended, ClientHandler, Session, new_client_handler, is_connected, send_result,
  send_reply, write_encoded,
}
use stream_relay.Handler.Connecting.{
  on_channel, handle_connect, extract_user_from_token, start_ping_timer,
}
use stream_relay.Handler.Requesting.{handle_command, handle_message}
use stream_relay.Handler.Upkeep.{IsWellFormed}
use stream_relay.Handler.Lives.{Reachable, begun, stepped, on_message, Reachable-IsWellFormed}
use stream_relay.Protocol.{Error, ok, err, unauthorized}
use stream_relay.Handler.Anonymous.{Reachable-check_subscribe}
use stream_relay.RedisRoom
use stream_relay.RedisRelay.{
  get_redis_room, get_or_create_redis_room, redis_subscribe, redis_unsubscribe,
}
use stream_relay.Handler.Closing.{
  join_room, leave_room, run_effects, close_handler, leave_each, is_stuck, blocked,
}
use stream_relay.Handler.Subscribing.{
  handle_subscribe, handle_unsubscribe, enter_room, subscribed, recovery,
}
use stream_relay.Handler.Granted.{IsGranted, Reachable-IsGranted}
use stream_relay.Handler.Tests.{silent, connecting, json, env, relay, session, unsubscribing}
use stream_relay.Handler.Accounts.{account_of, Move}
use stream_relay.Handler.Moves.{handle_command-Move}

program : Unit {0}
unfolding lookup Bytes-discrete has match_pattern check_subscribe check_connect find_rule
    find_rule_from add_roles own_permission get_by_channel get_by_channel_from validate_channel
    redis_subscriber_count get_redis_room new_client_handler is_connected send_result send_reply
    write_encoded handle_connect extract_user_from_token start_ping_timer handle_command
    handle_message success_reply error_reply
program = tt

-- A new handler whose first message is the connect command.
abbrev fresh : Session (Unit {0})
fresh = record { handler = new_client_handler (codes "1-1") 1 0 0; relay = relay; server = tt }

abbrev joined : Session (Unit {0})
joined = record {
  handler = record {
    client_id = codes "1-1";
    user_id = codes "anonymous";
    conn = 1;
    connected = true;
    connected_at = some 7;
    last_activity = some 7;
    subscriptions = [];
    chan_info = [];
    conn_info = none;
    ping_interval = 25000;
    pong_timeout = 10000;
    ping_timer = true;
    closed = false;
  };
  relay = relay;
  server = tt;
}

joined-Reachable : Reachable silent joined
unfolding program
joined-Reachable =
    stepped (begun (codes "1-1") 1 0 0 relay tt) (on_message env [] joined _ none refl)

Reachable-IsWellFormed_example : IsWellFormed joined.handler
Reachable-IsWellFormed_example = Reachable-IsWellFormed silent joined-Reachable

Reachable-check_subscribe_example :
    check_subscribe new_permission_checker (codes "anonymous") (codes "lobby") [] ≢ err unauthorized
Reachable-check_subscribe_example =
    Reachable-check_subscribe silent new_permission_checker (codes "lobby") [] joined-Reachable refl

-- The handler of ann, who has left one of two channels, and was closed by the room for that.
abbrev left : ClientHandler
left = record session.handler {
  subscriptions = (codes "news", perm_standard) ∷ [];
  chan_info = (codes "news", none) ∷ [];
  ping_timer = false;
  closed = true;
}

handle_command-Move_example : Move env unsubscribing (account_of session.handler) (account_of left)
unfolding program handle_unsubscribe on_channel leave_room run_effects redis_unsubscribe
    RedisRoom.unsubscribe close_handler leave_each delete insert is_stuck blocked
handle_command-Move_example = handle_command-Move silent env unsubscribing session _ _ _ refl

-- The JSON of a client that subscribes, and the handler of one that has done so.
abbrev subscribing_env : Surroundings
subscribing_env = record env {
  json = record json {
    decode_command = λ text.
        ok (record { id = 2; kind = cmd_subscribe; channel = codes "lobby"; payload = none });
  };
}

abbrev subscribed_handler : ClientHandler
subscribed_handler = record joined.handler {
  subscriptions = (codes "lobby", perm_standard) ∷ [];
  chan_info = (codes "lobby", none) ∷ [];
}

Reachable-IsGranted_example : IsGranted env.checker (codes "lobby") perm_standard
unfolding program handle_subscribe on_channel enter_room get_or_create_redis_room join_room
    run_effects redis_subscribe RedisRoom.subscribe subscribed insert recovery
Reachable-IsGranted_example =
    Reachable-IsGranted silent env.checker
      (stepped (stepped (begun (codes "1-1") 1 0 0 relay tt) (on_message env [] joined _ none refl))
        (on_message subscribing_env []
          (record { handler = subscribed_handler; relay = _; server = tt }) _ none refl))
      (codes "lobby") perm_standard ((tt, refl), refl) refl

-- Ann connects again without a token: she is somebody else, with the rights of ann.
connected_again :
    (acts : List Act) × (error : Option Error) × (handle_connect env connecting session
      ≡ ended
          (record session {
            handler = record session.handler { user_id = codes "anonymous"; connected_at = some 7 };
          })
          acts
          error)
unfolding program
connected_again = (_, _, refl)
