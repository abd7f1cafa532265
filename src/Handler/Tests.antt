-- ===== src/Handler/Tests.antt =====
-- The theorems on the handler at inputs that meet their hypotheses.
use stream_relay.Prelude.{
  delete, ◌≡◌, ◌⊎◌, refl, true, false, Option, none, some, List, [], ◌∷◌, ◌++◌, Bytes, codes,
  lookup, Bytes-discrete,
}
use stream_relay.Protocol.{Error, failure, ok, err}
use stream_relay.Protocol.Messages.{
  Command, Json, cmd_connect, cmd_subscribe, cmd_unsubscribe, success_reply, error_reply,
}
use stream_relay.Types.{Subscriber, received, room_type_group}
use stream_relay.Permissions.Bits.{perm_standard, has}
use stream_relay.Permissions.Pattern.{match_pattern}
use stream_relay.Permissions.Checking.{default_checker}
use stream_relay.Permissions.Checker.{
  new_permission_checker, check_subscribe, check_connect, find_rule, find_rule_from, add_roles,
  own_permission,
}
use stream_relay.Namespaces.{
  new_namespace_manager, get_by_channel, get_by_channel_from, validate_channel,
}
use stream_relay.Streams.Commands.{Do}
use stream_relay.RedisRoom.{Room, redis_subscriber_count}
use stream_relay.RedisRelay.{Relay, get_redis_room}
use stream_relay.Handler.{
  Surroundings, ClientHandler, Session, Act, transport_closed, ended, deadlocked,
  new_client_handler, is_connected, send_result, send_reply, write_encoded,
}
use stream_relay.Handler.Closing.{close}
use stream_relay.Handler.Connecting.{handle_connect, extract_user_from_token, start_ping_timer}
use stream_relay.Handler.Subscribing.{blank_subscribe_request, handle_subscribe, handle_unsubscribe}
use stream_relay.Handler.Requesting.{blank_history_request, handle_command, handle_message}
use stream_relay.Handler.Answers.{AnswersOnce}
use stream_relay.Handler.Dispatch.{handle_command-AnswersOnce}
use stream_relay.Handler.Rights.{Refused, Right, handle_command-Right}
use stream_relay.Handler.Leaving.{AllGone, close-Gone}
use stream_relay.Handler.Identity.{HasConnected, handle_connect-HasConnected}
use stream_relay.Handler.Again.{handle_subscribe-again}
use stream_relay.Handler.Expelled.{handle_unsubscribe_closes}

program : Unit {0}
unfolding lookup Bytes-discrete has match_pattern check_subscribe check_connect find_rule
    find_rule_from add_roles own_permission get_by_channel get_by_channel_from validate_channel
    redis_subscriber_count get_redis_room new_client_handler is_connected send_result send_reply
    write_encoded handle_connect extract_user_from_token start_ping_timer handle_command
    handle_message success_reply error_reply
program = tt

-- A server that answers nothing.
abbrev pub silent : Do (Unit {0})
silent args s = (s, err (failure (codes "timeout")))

abbrev pub connecting : Command
connecting = record { id = 1; kind = cmd_connect; channel = []; payload = none }

-- The JSON of a client that connects without a token, and that encodes everything as one text.
abbrev pub json : Json
json = record {
  decode_command = λ text. ok connecting;
  decode_connect = λ text. ok (record { token = []; payload = none; name = []; version = [] });
  decode_subscribe = λ text. blank_subscribe_request;
  decode_publish = λ text. ok (record { content = text });
  decode_history = λ text. blank_history_request;
  encode_answer = λ answer. ok (codes "{}");
  encode_publication = λ publication. ok (codes "{}");
  encode_join_push = λ push. ok (codes "{}");
  encode_leave_push = λ push. ok (codes "{}");
  encode_disconnect_push = λ push. ok (codes "{}");
  encode_reply = λ reply. ok (codes "{}");
  encode_push = λ push. ok (codes "{}");
}

abbrev pub env : Surroundings
env = record {
  json = json;
  encode_metadata = λ metadata. [];
  decode_metadata = λ text. [];
  write = λ text. none;
  close_error = none;
  checker = default_checker new_permission_checker;
  namespaces = new_namespace_manager;
  now = 7;
  in_time = λ user. true;
  is_handler = λ conn. true;
  blocks = λ id conn. false;
}

abbrev pub ann : Subscriber
ann = record { user_id = codes "ann"; conn = 1; receive = λ msg attempt. received }

abbrev pub room : Bytes → Room
room id = record {
  config = record {
    id = id;
    kind = room_type_group;
    history_size = 100;
    history_ttl = 0;
    members = [];
  };
  subscribers = (codes "ann", ann) ∷ [];
  presence = [];
  running = true;
  stop_closed = false;
  loops = 1;
  last_active = 0;
}

abbrev pub relay : Relay
relay = record {
  rooms = (codes "lobby", room (codes "lobby")) ∷ (codes "news", room (codes "news")) ∷ [];
  handled = true;
  running = true;
  start_time = 0;
  prefix = codes "sr:";
  total_messages = 0;
}

-- The handler of ann, who is subscribed to two channels.
abbrev pub session : Session (Unit {0})
session = record {
  handler = record {
    client_id = codes "1-1";
    user_id = codes "ann";
    conn = 1;
    connected = true;
    connected_at = some 3;
    last_activity = some 6;
    subscriptions = (codes "lobby", perm_standard) ∷ (codes "news", perm_standard) ∷ [];
    chan_info = (codes "lobby", none) ∷ (codes "news", none) ∷ [];
    conn_info = none;
    ping_interval = 25000;
    pong_timeout = 10000;
    ping_timer = true;
    closed = false;
  };
  relay = relay;
  server = tt;
}

abbrev subscribing : Command
subscribing = record { id = 2; kind = cmd_subscribe; channel = codes "lobby"; payload = none }

abbrev pub unsubscribing : Command
unsubscribing = record { id = 3; kind = cmd_unsubscribe; channel = codes "lobby"; payload = none }

handle_command-AnswersOnce_example :
    AnswersOnce json 3 (handle_command silent env unsubscribing session)
unfolding program
handle_command-AnswersOnce_example =
    handle_command-AnswersOnce silent env unsubscribing session refl

handle_command-Right_example :
    Refused env unsubscribing session (handle_command silent env unsubscribing session)
    ⊎ Right env unsubscribing session
handle_command-Right_example = handle_command-Right silent env unsubscribing session

close-Gone_example :
    (next : Session (Unit {0})) × (acts : List Act) × (close (λ id conn. false) 8 none session
      ≡ ended next (acts ++ transport_closed ∷ []) none)
    × (next.handler.closed ≡ true)
    × AllGone (codes "ann") session.handler.subscriptions next.relay
unfolding program
close-Gone_example = close-Gone (λ id conn. false) 8 none session (λ id c. refl) refl

handle_connect-HasConnected_example :
    (h : ClientHandler) × (acts : List Act) × (error : Option Error) × (handle_connect env
        connecting session
      ≡ ended (record session { handler = h }) acts error)
    × HasConnected [] session.handler h
handle_connect-HasConnected_example =
    handle_connect-HasConnected env connecting session
      (record { token = []; payload = none; name = []; version = [] }) new_permission_checker refl
      refl

handle_subscribe-again_example : handle_subscribe silent env subscribing session ≡ deadlocked
unfolding program
handle_subscribe-again_example =
    handle_subscribe-again silent env subscribing session (room (codes "lobby")) ann perm_standard
      perm_standard (refl, refl) refl refl refl refl refl refl refl refl

handle_unsubscribe_closes_example :
    (next : Session (Unit {0})) × (before after : List Act) × (error : Option Error)
    × (handle_unsubscribe silent env unsubscribing session
        ≡ ended next ((before ++ transport_closed ∷ []) ++ after) error)
    × (next.handler.closed ≡ true)
    × AllGone (codes "ann") (delete (codes "lobby") session.handler.subscriptions) next.relay
unfolding program
handle_unsubscribe_closes_example =
    handle_unsubscribe_closes silent env unsubscribing session (room (codes "lobby")) ann
      perm_standard (λ id c. refl) (refl, refl) refl refl refl refl refl
