-- ===== src/Broker/Cluster.antt =====
-- `ClusterRelay` in engine/broker.go: the relay of a node, which tells the other nodes what it publishes.
use stream_relay.Prelude.{ℕ, Bool, true, false, Option, none, some, List, [], ◌++◌, Bytes, Map}
use stream_relay.Protocol.{Error, Result, ok, err}
use stream_relay.Types.{
  Message, DeliveryResult, PublishOptions, Effect, Event, event_error, pubsub_failed,
}
use stream_relay.Memory.Rooms.{emit}
use stream_relay.Streams.Commands.{Do}
use stream_relay.RedisRoom.{redis_broadcast}
use stream_relay.RedisRelay.{Relay, get_redis_room, Published}
use stream_relay.RedisRelay.Recovery.{publish_with, close_redis_relay}
use stream_relay.Broker.{
  NodeJson, NodeMessage, BrokerMessage, RedisBroker, RedisBrokerConfig, new_redis_broker, time_of,
  publish_message, close_broker,
}
use stream_relay.Broker.Reading.{next_message}
use stream_relay.Resp.{Value}
use stream_relay.Pool.{Network, Pool, close_pool}
use stream_relay.RedisRelay.Making.{RelayConfig, new_relay}

pub record ClusterRelay : Type 0 where
  pub relay : Relay
  pub broker : RedisBroker

pub record ClusterConfig : Type 0 where
  pub config : RelayConfig
  pub node_id : Bytes
  pub broker_prefix : Bytes
  pub dedupe_size : ℕ
  pub dedupe_ttl : ℕ

abbrev pub broker_config : ClusterConfig → RedisBrokerConfig
broker_config cfg = record {
  has_client = true;
  node_id = cfg.node_id;
  prefix = cfg.broker_prefix;
  buffer_size = 0;
  dedupe_size = cfg.dedupe_size;
  dedupe_ttl = cfg.dedupe_ttl;
  max_retries = 0;
  retry_delay = 0;
}

-- `NewClusterRelay`, on what `New` made: its pool, and the relay or its error. Closing the relay closes
-- the pool.
unfoldable pub cluster_of : Bytes → ClusterConfig → Pool × Result Relay → Pool × Result ClusterRelay
cluster_of generated cfg (pool, err e) = (pool, err e)
cluster_of generated cfg (pool, ok relay) = elim (new_redis_broker generated (broker_config cfg)) [
  | err e ↦ (close_pool pool, err e)
  | ok broker ↦ (pool, ok (record { relay = relay; broker = broker }))
]

-- `generated` is the node id that is generated where none is given, the rest is for `New`.
unfoldable pub new_cluster_relay :
    (ℕ → Network)
    → Network
    → (ℕ → List Bytes → Result Value)
    → ℕ
    → Bytes
    → ClusterConfig
    → Pool × Result ClusterRelay
new_cluster_relay networks network answers now generated cfg =
    cluster_of generated cfg (new_relay networks network answers now cfg.config)

unfoldable pub message_of : NodeMessage → Message
message_of msg = record {
  id = msg.message_id;
  room_id = msg.room_id;
  sender_id = msg.sender_id;
  kind = msg.kind;
  content = msg.content;
  metadata = msg.metadata;
  timestamp = time_of msg.timestamp;
}

abbrev pub cluster_options : PublishOptions
cluster_options = record { skip_sender = true; priority = 0; ttl = 0; persist = false }

-- What the broadcast reports, or nothing where there is none.
unfoldable pub handle_broker_message :
    NodeJson → (Bytes → Bool) → ClusterRelay → BrokerMessage → Option (List DeliveryResult)
handle_broker_message json in_time cr told = elim (json.decode_node told.payload) [
  | err e ↦ none
  | ok msg ↦ elim (get_redis_room cr.relay msg.room_id) [
    | none ↦ none
    | some room ↦ some (redis_broadcast in_time room (message_of msg) (some cluster_options))
  ]
]

-- A round of the loop of `listenForBrokerMessages`: nothing where the channel is empty.
unfoldable pub listen_broker_round :
    NodeJson → (Bytes → Bool) → ClusterRelay → ClusterRelay × Option (List DeliveryResult)
listen_broker_round json in_time cr =
    let (broker, first) = next_message cr.broker in
    let next = record cr { broker = broker } in
    elim first [
      | none ↦ (next, none)
      | some told ↦ (next, handle_broker_message json in_time next told)
    ]

-- The event of a message that did not go out.
abbrev pub sync_event : Bool → ℕ → Bytes → Bytes → Option Error → List Effect
sync_event handled now id message_id none = []
sync_event handled now id message_id (some e) =
    let event : Event = record {
      kind = event_error;
      room_id = id;
      user_id = [];
      timestamp = now;
      payload = pubsub_failed message_id e;
    } in
    emit handled event

module _ {S : Type 0} (do_command : Do S) where
  -- The server, the waits of the broker, and what the relay leaves behind.
  unfoldable pub cluster_publish :
      NodeJson
      → (ℕ → Option Error)
      → (Map Bytes → Bytes)
      → (Bytes → Bool)
      → ℕ
      → ClusterRelay
      → Bytes
      → Message
      → Option PublishOptions
      → S
      → S × List ℕ × Published
  cluster_publish json cancelled encode in_time now cr id msg opts s =
      let (next, published) = publish_with do_command encode in_time now cr.relay id msg opts s in
      elim published.results [
        | err e ↦ (next, [], published)
        | ok results ↦
            let (last, waits, error) =
              publish_message do_command cancelled cr.broker json published.message next in
            let told = sync_event cr.relay.handled now id published.message.id error in
            (last, waits, record published { effects = published.effects ++ told })
      ]

-- `none` is a panic, before the relay is closed.
unfoldable pub close_cluster : ClusterRelay → Option (ClusterRelay × List Effect)
close_cluster cr = elim (close_broker cr.broker) [
  | none ↦ none
  | some broker ↦
      let (relay, effects) = close_redis_relay cr.relay in
      some (record { relay = relay; broker = broker }, effects)
]
