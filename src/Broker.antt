-- ===== src/Broker.antt =====
-- engine/broker.go, but for its cache: the messages between the nodes of a cluster, and the broker of a
-- node, which sends them over the server and hears those of the others.
pub mod Cluster
pub mod Heard
pub mod Hearing
pub mod Nodes
pub mod Panics
pub mod Reading
pub mod Retrying
pub mod Turns
pub mod Waiting
mod Tests
use stream_relay.Prelude.{
  ℕ, zero, suc, ◌+◌, ◌-◌, ◌*◌, ◌==◌, min, Bool, true, false, not, Option, none, some, List, [], ◌∷◌,
  ◌++◌, Bytes, codes, str_eq, ltb, leb, if◌then◌else◌, length, Map,
}
use stream_relay.Decimal.{ℤ, pos, negsuc, format_nat}
use stream_relay.Protocol.{Error, failure, error_text, Result, ok, err}
use stream_relay.Types.{Message}
use stream_relay.Dedupe.{DedupeCache, new_dedupe_cache, is_duplicate}
use stream_relay.Streams.Commands.{Do}
use stream_relay.RedisRelay.Recovery.{wrapped}
use stream_relay.Pool.Clients.{PubSubMessage}

pub record BrokerMessage : Type 0 where
  pub channel : Bytes
  pub payload : Bytes
  pub node_id : Bytes
  pub message_id : Bytes

pub record NodeMessage : Type 0 where
  pub node_id : Bytes
  pub room_id : Bytes
  pub message_id : Bytes
  pub sender_id : Bytes
  pub kind : Bytes
  pub content : Bytes
  pub metadata : Map Bytes
  pub timestamp : ℤ

-- The struct that `Publish` wraps its data in, and that the other nodes unwrap.
pub record Envelope : Type 0 where
  pub node_id : Bytes
  pub payload : Bytes

-- `json.Marshal` and `json.Unmarshal` on these types.
pub record NodeJson : Type 0 where
  pub encode_envelope : Envelope → Result Bytes
  pub decode_envelope : Bytes → Result Envelope
  pub encode_node : NodeMessage → Result Bytes
  pub decode_node : Bytes → Result NodeMessage

-- `has_client` says whether there is a client.
pub record RedisBrokerConfig : Type 0 where
  pub has_client : Bool
  pub node_id : Bytes
  pub prefix : Bytes
  pub buffer_size : ℕ
  pub dedupe_size : ℕ
  pub dedupe_ttl : ℕ
  pub max_retries : ℕ
  pub retry_delay : ℕ

-- Where the goroutine of `subscriptionLoop` stands, if there is one: before it subscribes, after so many
-- errors in a row, or before it reads the next message.
pub data Loop : Type 0 where
  absent : Loop
  connecting : ℕ → Loop
  reading : Loop

-- `msg_chan` is the channel, first in first out, and `buffer_size` its capacity. `is_closed` says that
-- `Close` has cancelled the context and closed the channel.
pub record RedisBroker : Type 0 where
  pub node_id : Bytes
  pub prefix : Bytes
  pub running : Bool
  pub loop : Loop
  pub msg_chan : List BrokerMessage
  pub buffer_size : ℕ
  pub is_closed : Bool
  pub dedupe : DedupeCache
  pub max_retries : ℕ
  pub retry_delay : ℕ

abbrev pub number_or : ℕ → ℕ → ℕ
number_or default zero = default
number_or default (suc n) = suc n

abbrev pub text_or : Bytes → Bytes → Bytes
text_or default [] = default
text_or default (c ∷ cs) = c ∷ cs

-- `generated` is the node id that is generated where none is given.
abbrev pub idle_broker : Bytes → RedisBrokerConfig → RedisBroker
idle_broker generated cfg = record {
  node_id = text_or generated cfg.node_id;
  prefix = text_or (codes "sr:pub:") cfg.prefix;
  running = false;
  loop = absent;
  msg_chan = [];
  buffer_size = number_or 1000 cfg.buffer_size;
  is_closed = false;
  dedupe = new_dedupe_cache cfg.dedupe_size cfg.dedupe_ttl;
  max_retries = number_or 3 cfg.max_retries;
  retry_delay = number_or 100 cfg.retry_delay;
}

unfoldable pub new_redis_broker : Bytes → RedisBrokerConfig → Result RedisBroker
new_redis_broker generated cfg =
    if not cfg.has_client
    then err (failure (codes "redis client is required"))
    else ok (idle_broker generated cfg)

-- `UnixMilli` of a timestamp, and `time.UnixMilli`; a time before 1970 does not exist in the model.
abbrev pub milli_of : Option ℕ → ℤ
milli_of none = negsuc 62135596799999
milli_of (some t) = pos t

abbrev pub time_of : ℤ → Option ℕ
time_of (pos t) = some t
time_of (negsuc t) = none

unfoldable pub node_message_of : Bytes → Message → NodeMessage
node_message_of node msg = record {
  node_id = node;
  room_id = msg.room_id;
  message_id = msg.id;
  sender_id = msg.sender_id;
  kind = msg.kind;
  content = msg.content;
  metadata = msg.metadata;
  timestamp = milli_of msg.timestamp;
}

-- `fmt.Errorf` with `%w`, of an error that may be nil.
abbrev pub last_error_text : Option Error → Bytes
last_error_text none = codes "%!w(<nil>)"
last_error_text (some e) = error_text e

-- The wait behind an attempt, unless it is the last.
abbrev pub waits_after : RedisBroker → ℕ → List ℕ
waits_after b attempt =
    if ltb attempt (b.max_retries - 1) then b.retry_delay * (attempt + 1) ∷ [] else []

module _ {S : Type 0} (do_command : Do S) (cancelled : ℕ → Option Error) (b : RedisBroker) where
  -- The loop of `Publish`, with so many attempts left: the server, the waits between the attempts, and the
  -- error. `cancelled` is what the context says after each attempt.
  unfoldable pub try_each : List Bytes → ℕ → ℕ → Option Error → S → S × List ℕ × Option Error
  try_each args zero attempt last s =
      let text = codes "publish failed after " ++ format_nat b.max_retries ++ codes " retries: " in
      (s, [], some (failure (text ++ last_error_text last)))
  try_each args (suc left) attempt last s =
      let (next, response) = do_command args s in
      elim response [
        | ok reply ↦ (next, [], none)
        | err e ↦ elim (cancelled attempt) [
          | some why ↦ (next, [], some why)
          | none ↦
              let (end, waits, error) = try_each args left (suc attempt) (some e) next in
              (end, waits_after b attempt ++ waits, error)
        ]
      ]

  unfoldable pub publish : NodeJson → Bytes → Bytes → S → S × List ℕ × Option Error
  publish json channel payload s =
      elim (json.encode_envelope (record { node_id = b.node_id; payload = payload })) [
        | err e ↦ (s, [], some (wrapped (codes "failed to marshal message") e))
        | ok text ↦
            try_each (codes "PUBLISH" ∷ (b.prefix ++ channel) ∷ text ∷ []) b.max_retries 0 none s
      ]

  unfoldable pub publish_message : NodeJson → Message → S → S × List ℕ × Option Error
  publish_message json msg s = elim (json.encode_node (node_message_of b.node_id msg)) [
    | err e ↦ (s, [], some e)
    | ok payload ↦ publish json msg.room_id payload s
  ]

-- `Subscribe`, which starts the goroutine; `made` is the error of the client that it makes for itself.
unfoldable pub subscribe_broker : Option Error → RedisBroker → RedisBroker × Option Error
subscribe_broker made b = if b.running then (b, none) else elim made [
  | some e ↦ (b, some (wrapped (codes "failed to create subscription client") e))
  | none ↦ (record b { running = true; loop = connecting 0 }, none)
]

-- `Close`: closing a channel that is closed panics.
unfoldable pub close_broker : RedisBroker → Option RedisBroker
close_broker b = if b.is_closed then none else some (record b { is_closed = true })

-- `generateNodeID`, given the nanoseconds since 1970 and those of the second.
unfoldable pub generate_node_id : ℕ → ℕ → Bytes
generate_node_id nanos nanosecond =
    codes "node-" ++ format_nat nanos ++ codes "-" ++ format_nat nanosecond
