-- ===== src/Broker/Reading.antt =====
-- The goroutines of the broker of a node (engine/broker.go), `subscriptionLoop` and `cleanupLoop`, by
-- their rounds, and the relay that takes what waits in the channel.
use stream_relay.Prelude.{
  ℕ, suc, ◌*◌, min, Bool, true, false, not, Option, none, some, [], ◌∷◌, ◌++◌, Bytes, codes, str_eq,
  ltb, leb, if◌then◌else◌, length,
}
use stream_relay.Protocol.{Error, ok, err}
use stream_relay.Dedupe.{is_duplicate, cleanup}
use stream_relay.Pool.Clients.{PubSubMessage}
use stream_relay.Broker.{
  NodeJson, NodeMessage, Envelope, BrokerMessage, absent, connecting, reading, RedisBroker,
}

-- The `select` at the start of a round of either loop: the goroutine ends when the context is cancelled.
unfoldable pub check_done : RedisBroker → RedisBroker
check_done b = if b.is_closed then record b { running = false; loop = absent } else b

-- What a subscription that fails leads to: the errors in a row, the wait, and whether the connection is
-- replaced. `made` says whether a new one can be made.
unfoldable pub subscribe_failed : Bool → ℕ → ℕ × ℕ × Bool
subscribe_failed made errors =
    let n = suc errors in
    let wait = min (n * 1000) 30000 in
    if leb 10 n then (if made then (0, wait, true) else (n, wait, false)) else (n, wait, false)

-- The first part of a round of the outer loop, after so many errors, given the error of the
-- subscription.
unfoldable pub connect_round : Bool → ℕ → Option Error → RedisBroker → RedisBroker
connect_round made errors none b = record b { loop = reading }
connect_round made errors (some e) b = record b {
  loop = connecting (subscribe_failed made errors).0;
}

-- The send at the end of a round: on a closed channel it panics, which is `none`, and on a full one the
-- message is dropped.
unfoldable pub offer : BrokerMessage → RedisBroker → Option RedisBroker
offer told b =
    if b.is_closed
    then none
    else if ltb (length b.msg_chan) b.buffer_size
    then some (record b { msg_chan = b.msg_chan ++ told ∷ [] })
    else some b

-- The end of a round of the reading loop: a message that is no duplicate is sent to the channel.
unfoldable pub hear_node : ℕ → Bytes → Envelope → NodeMessage → RedisBroker → Option RedisBroker
hear_node now channel envelope msg b =
    let (dedupe, duplicate) = is_duplicate now b.dedupe msg.message_id in
    let told : BrokerMessage = record {
      channel = channel;
      payload = envelope.payload;
      node_id = envelope.node_id;
      message_id = msg.message_id;
    } in
    let next = record b { dedupe = dedupe } in if duplicate then some next else offer told next

unfoldable pub hear_envelope : NodeJson → ℕ → Bytes → Envelope → RedisBroker → Option RedisBroker
hear_envelope json now channel envelope b =
    if str_eq envelope.node_id b.node_id then some b else elim (json.decode_node envelope.payload) [
      | err e ↦ some b
      | ok msg ↦ hear_node now channel envelope msg b
    ]

-- A round of the reading loop on a message that was read.
unfoldable pub hear : NodeJson → ℕ → PubSubMessage → RedisBroker → Option RedisBroker
hear json now msg b =
    if not (str_eq msg.kind (codes "pmessage"))
    then some b
    else elim (json.decode_envelope msg.payload) [
      | err e ↦ some b
      | ok envelope ↦ hear_envelope json now msg.channel envelope b
    ]

-- A round of the reading loop: a read that fails leads back to the outer loop, which subscribes again.
unfoldable pub read_round : NodeJson → ℕ → Option PubSubMessage → RedisBroker → Option RedisBroker
read_round json now none b = some (record b { loop = connecting 0 })
read_round json now (some msg) b = hear json now msg b

-- A tick of `cleanupLoop`.
unfoldable pub cleanup_round : ℕ → RedisBroker → RedisBroker
cleanup_round now b = record b { dedupe = cleanup now b.dedupe }

-- The loop of `listenForBrokerMessages` takes the first message from the channel.
unfoldable pub next_message : RedisBroker → RedisBroker × Option BrokerMessage
next_message b = elim b.msg_chan [
  | [] ↦ (b, none)
  | msg ∷ msgs ↦ (record b { msg_chan = msgs }, some msg)
]
