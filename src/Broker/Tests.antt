-- ===== src/Broker/Tests.antt =====
-- The theorems on the broker at inputs that meet their hypotheses, and runs of it.
use stream_relay.Prelude.{
  ◌≡◌, ◌↔◌, ◌⊎◌, refl, true, false, none, some, List, [], ◌∷◌, Bytes, codes, arith, Bytes-discrete,
  lookup,
}
use stream_relay.Decimal.{pos, format_nat, digits_from}
use stream_relay.Protocol.{Error, failure, Result, ok, err}
use stream_relay.Types.{Message, room_type_group}
use stream_relay.Dedupe.{new_dedupe_cache, is_duplicate}
use stream_relay.Dedupe.Keeping.{new_dedupe_cache-IsValid}
use stream_relay.Resp.{Value, value, integer, nil}
use stream_relay.Streams.Commands.{Do}
use stream_relay.Pool.Clients.{PubSubMessage}
use stream_relay.RedisRoom.{Room, redis_broadcast}
use stream_relay.RedisRelay.{Relay, get_redis_room}
use stream_relay.Broker.{
  NodeJson, BrokerMessage, RedisBroker, RedisBrokerConfig, new_redis_broker, idle_broker,
  node_message_of, publish_message, publish, try_each, subscribe_broker, close_broker,
  generate_node_id,
}
use stream_relay.Broker.Reading.{
  check_done, connect_round, offer, hear_node, hear_envelope, hear, read_round, next_message,
}
use stream_relay.Broker.Cluster.{
  ClusterRelay, cluster_options, handle_broker_message, listen_broker_round,
}
use stream_relay.Broker.Heard.{Brings}
use stream_relay.Broker.Hearing.{hear_each, hear-hear_each}
use stream_relay.Broker.Retrying.{Taken, Exhausted, publish_attempts}
use stream_relay.Broker.Panics.{SendsToClosed, hear_panics_iff}
use stream_relay.Broker.Nodes.{Carries, handle_broker_message-publish_message}
use stream_relay.Broker.Waiting.{IsSound}
use stream_relay.Broker.Turns.{
  subscribes, connects, reads, takes, closes, looks, Reachable, built, turned, Reachable-IsSound,
}

abbrev hello : Message
hello = record {
  id = codes "5-0";
  room_id = codes "news";
  sender_id = codes "ann";
  kind = codes "text";
  content = codes "hello";
  metadata = [];
  timestamp = some 5;
}

-- The JSON of one message of the node `a`.
abbrev json : NodeJson
json = record {
  encode_envelope = λ envelope. ok (codes "{n,d}");
  decode_envelope = λ text. ok (record { node_id = codes "a"; payload = codes "{m}" });
  encode_node = λ msg. ok (codes "{m}");
  decode_node = λ text. ok (node_message_of (codes "a") hello);
}

abbrev carries : Carries json (codes "a") hello
carries = record {
  payload = codes "{m}";
  text = codes "{n,d}";
  node_encoded = refl;
  node_decoded = refl;
  envelope_encoded = refl;
  envelope_decoded = refl;
}

abbrev config : Bytes → RedisBrokerConfig
config node = record {
  has_client = true;
  node_id = node;
  prefix = [];
  buffer_size = 2;
  dedupe_size = 3;
  dedupe_ttl = 10;
  max_retries = 0;
  retry_delay = 0;
}

abbrev node_a : RedisBroker
node_a = idle_broker [] (config (codes "a"))

abbrev room : Room
room = record {
  config = record {
    id = codes "news";
    kind = room_type_group;
    history_size = 0;
    history_ttl = 0;
    members = codes "bob" ∷ [];
  };
  subscribers = [];
  presence = [];
  running = true;
  stop_closed = false;
  loops = 1;
  last_active = 0;
}

abbrev relay : Relay
relay = record {
  rooms = (codes "news", room) ∷ [];
  handled = true;
  running = true;
  start_time = 0;
  prefix = codes "sr:";
  total_messages = 0;
}

abbrev node_b : ClusterRelay
node_b = record { relay = relay; broker = idle_broker [] (config (codes "b")) }

-- A server that notes the commands that it is given, and takes the second of them.
abbrev one : Value
one = value integer [] (pos 1) nil false false

abbrev lost : Error
lost = failure (codes "EOF")

abbrev answer : List (List Bytes) → Result Value
answer [] = err lost
answer (args ∷ before) = ok one

abbrev server : Do (List (List Bytes))
server args before = (args ∷ before, answer before)

abbrev heard : PubSubMessage
heard = record {
  kind = codes "pmessage";
  pattern = codes "sr:pub:*";
  channel = codes "sr:pub:news";
  payload = codes "{n,d}";
}

-- The first attempt fails, and the second one succeeds, after one wait.
published_twice :
    let args = codes "PUBLISH" ∷ codes "sr:pub:news" ∷ codes "{n,d}" ∷ [] in
    publish_message server (λ attempt. none) node_a json hello []
    ≡ (args ∷ args ∷ [], 100 ∷ [], none)
unfolding publish_message publish try_each
published_twice = refl

publish_attempts_example :
    let args = codes "PUBLISH" ∷ codes "sr:pub:news" ∷ codes "{n,d}" ∷ [] in
    Taken server node_a args 3 0 []
      (publish server (λ attempt. none) node_a json (codes "news") (codes "{m}") [])
    ⊎ Exhausted server node_a args 3 0 []
        (publish server (λ attempt. none) node_a json (codes "news") (codes "{m}") [])
publish_attempts_example =
    publish_attempts server (λ attempt. none) node_a json (codes "news") (codes "{m}")
      (codes "{n,d}") [] (λ attempt. refl) refl

handle_broker_message-publish_message_example :
    (publish_message server (λ attempt. none) node_a json hello ([] ∷ [])
      ≡ ((codes "PUBLISH" ∷ codes "sr:pub:news" ∷ codes "{n,d}" ∷ []) ∷ [] ∷ [], [], none))
    × (told : BrokerMessage) × (next : RedisBroker) × (hear json 7 heard node_b.broker ≡ some next)
    × (next.msg_chan ≡ told ∷ [])
    × (handle_broker_message json (λ user. true) (record node_b { broker = next }) told
        ≡ some (redis_broadcast (λ user. true) room hello (some cluster_options)))
unfolding is_duplicate new_dedupe_cache get_redis_room lookup Bytes-discrete
handle_broker_message-publish_message_example =
    handle_broker_message-publish_message server (λ attempt. none) json (λ user. true) 7 node_a
      node_b hello (codes "sr:pub:*") 5 2 ([] ∷ []) one room carries refl refl refl refl refl refl
      (omega arith) refl

brought : Brings json (codes "b") heard (codes "5-0")
unfolding Bytes-discrete node_message_of
brought = (
  record { node_id = codes "a"; payload = codes "{m}" },
  node_message_of (codes "a") hello,
  refl,
  refl,
  refl,
  refl,
  refl,
)

-- The same message comes twice, and its second coming is dropped.
hear-hear_each_example :
    (after last : RedisBroker) × (hear_each json ((7, heard) ∷ []) node_b.broker ≡ some after)
    × (hear json 9 heard after ≡ some last)
    × (last.msg_chan ≡ after.msg_chan)
unfolding is_duplicate new_dedupe_cache lookup Bytes-discrete node_message_of
hear-hear_each_example =
    hear-hear_each json 7 9 node_b.broker heard heard [] (codes "5-0")
      (new_dedupe_cache-IsValid 3 10) refl brought brought refl (omega arith) tt (omega arith)

-- A message that the goroutine has read while `Close` came in between.
hear_panics_iff_example :
    (hear json 7 heard (record node_b.broker { is_closed = true }) ≡ none)
    ↔ SendsToClosed json 7 heard (record node_b.broker { is_closed = true })
hear_panics_iff_example = hear_panics_iff json 7 heard (record node_b.broker { is_closed = true })

generated_id : generate_node_id 1700000000000000007 7 ≡ codes "node-1700000000000000007-7"
unfolding generate_node_id format_nat digits_from
generated_id = refl

-- The relay takes the message that was heard, and the channel is empty then.
listened :
    elim (hear json 7 heard node_b.broker) [
      | none ↦ none
      | some next ↦
          some (listen_broker_round json (λ user. true) (record node_b { broker = next })).0
    ]
    ≡ some (record node_b {
      broker = record node_b.broker {
        dedupe = (is_duplicate 7 node_b.broker.dedupe (codes "5-0")).0;
      };
    })
unfolding listen_broker_round next_message hear hear_envelope hear_node offer is_duplicate
    new_dedupe_cache lookup Bytes-discrete node_message_of
listened = refl

-- A broker that has read a message that the relay has taken, and that is closed then.
abbrev closed_b : (next : RedisBroker) × Reachable json next
unfolding new_redis_broker subscribe_broker connect_round read_round hear hear_envelope hear_node
    next_message is_duplicate new_dedupe_cache lookup Bytes-discrete node_message_of offer
    close_broker check_done
closed_b = (
  _,
  turned
      (turned
        (turned
          (turned
            (turned (turned (built [] (config (codes "b")) node_b.broker refl) (subscribes none))
              (connects true none 0 refl))
            (reads 7 (some heard) _ refl refl))
          takes)
        (closes _ refl))
      looks,
)

Reachable-IsSound_example : IsSound closed_b.0
Reachable-IsSound_example = Reachable-IsSound json closed_b.0 closed_b.1
