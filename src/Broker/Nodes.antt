-- ===== src/Broker/Nodes.antt =====
-- The way of a message from one node to another, and what waits in the channel of a node
-- (engine/broker.go).
use stream_relay.Prelude.{
  ℕ, suc, ◌<◌, ◌≡◌, refl, ap, Bool, true, false, Option, none, some, [], ◌∷◌, ◌++◌, Bytes, codes,
  str_eq, ltb, arith, Bytes-discrete, length,
}
use stream_relay.Protocol.{Error, ok}
use stream_relay.Types.{Message}
use stream_relay.Dedupe.{is_duplicate}
use stream_relay.Resp.{Value}
use stream_relay.Streams.Commands.{Do}
use stream_relay.RedisRoom.{Room, redis_broadcast}
use stream_relay.RedisRelay.{get_redis_room}
use stream_relay.Broker.{
  NodeJson, BrokerMessage, RedisBroker, node_message_of, try_each, publish, publish_message,
}
use stream_relay.Broker.Reading.{offer, hear_node, hear_envelope, hear}
use stream_relay.Broker.Cluster.{ClusterRelay, message_of, cluster_options, handle_broker_message}

-- The JSON of a message and of its envelope, from which both are read again.
pub record Carries (json : NodeJson) (node : Bytes) (msg : Message) : Type 0 where
  pub payload : Bytes
  pub text : Bytes
  pub node_encoded : json.encode_node (node_message_of node msg) ≡ ok payload
  pub node_decoded : json.decode_node payload ≡ ok (node_message_of node msg)
  pub envelope_encoded :
      json.encode_envelope (record { node_id = node; payload = payload }) ≡ ok text
  pub envelope_decoded :
      json.decode_envelope text ≡ ok (record { node_id = node; payload = payload })

message_of-node_message_of :
    (node : Bytes) (msg : Message) (t : ℕ)
    → msg.timestamp ≡ some t
    → message_of (node_message_of node msg) ≡ msg
unfolding message_of node_message_of
message_of-node_message_of node msg t stamped = rw stamped refl

publish_message_taken :
    {S : Type 0} (do_command : Do S) (cancelled : ℕ → Option Error) (json : NodeJson)
    (b : RedisBroker) (msg : Message) (s : S) (n : ℕ) (reply : Value)
    (c : Carries json b.node_id msg)
    → b.max_retries ≡ suc n
    → (do_command (codes "PUBLISH" ∷ (b.prefix ++ msg.room_id) ∷ c.text ∷ []) s).1 ≡ ok reply
    → publish_message do_command cancelled b json msg s
      ≡ ((do_command (codes "PUBLISH" ∷ (b.prefix ++ msg.room_id) ∷ c.text ∷ []) s).0, [], none)
unfolding publish_message publish try_each
publish_message_taken do_command cancelled json b msg s n reply c tries taken =
    rw (publish_message, c.node_encoded, publish, c.envelope_encoded, tries, try_each, taken) refl

-- A message with a timestamp that one node publishes, and whose JSON is read as it was written, goes to
-- the server as one command, if the server takes it; and when another node hears what was sent, while it
-- is not closed, has not seen the id of late and has room in its channel, the message waits there last, and handling it
-- broadcasts the same message to the room that this node has.
pub handle_broker_message-publish_message :
    {S : Type 0} (do_command : Do S) (cancelled : ℕ → Option Error) (json : NodeJson)
    (in_time : Bytes → Bool) (now : ℕ) (a : RedisBroker) (other : ClusterRelay) (msg : Message)
    (pattern : Bytes) (t n : ℕ) (s : S) (reply : Value) (room : Room)
    (c : Carries json a.node_id msg)
    → msg.timestamp ≡ some t
    → a.max_retries ≡ suc n
    → (do_command (codes "PUBLISH" ∷ (a.prefix ++ msg.room_id) ∷ c.text ∷ []) s).1 ≡ ok reply
    → str_eq a.node_id other.broker.node_id ≡ false
    → (is_duplicate now other.broker.dedupe msg.id).1 ≡ false
    → other.broker.is_closed ≡ false
    → length other.broker.msg_chan < other.broker.buffer_size
    → get_redis_room other.relay msg.room_id ≡ some room
    → (publish_message do_command cancelled a json msg s
        ≡ ((do_command (codes "PUBLISH" ∷ (a.prefix ++ msg.room_id) ∷ c.text ∷ []) s).0, [], none))
      × (told : BrokerMessage) × (next : RedisBroker) × (hear json now
            (record {
              kind = codes "pmessage";
              pattern = pattern;
              channel = a.prefix ++ msg.room_id;
              payload = c.text;
            })
            other.broker
          ≡ some next)
      × (next.msg_chan ≡ other.broker.msg_chan ++ told ∷ [])
      × (handle_broker_message json in_time (record other { broker = next }) told
          ≡ some (redis_broadcast in_time room msg (some cluster_options)))
unfolding hear hear_envelope hear_node offer handle_broker_message node_message_of get_redis_room
    Bytes-discrete
handle_broker_message-publish_message do_command cancelled json in_time now a other msg pattern t n
      s reply room c stamped tries taken differs new is_open space has =
    let b = other.broker in
    let free : ltb (length b.msg_chan) b.buffer_size ≡ true = ground (arith, space) in
    let told : BrokerMessage = record {
      channel = a.prefix ++ msg.room_id;
      payload = c.payload;
      node_id = a.node_id;
      message_id = msg.id;
    } in
    let next = record b {
      dedupe = (is_duplicate now b.dedupe msg.id).0;
      msg_chan = b.msg_chan ++ told ∷ [];
    } in
    let same = message_of-node_message_of a.node_id msg t stamped in
    (
      publish_message_taken do_command cancelled json a msg s n reply c tries taken,
      told,
      next,
      rw
          (
            hear, c.envelope_decoded, hear_envelope, differs, c.node_decoded, hear_node, new, offer,
            is_open, free,
          )
          refl,
      refl,
      rw (handle_broker_message, c.node_decoded, has)
          (ap (λ m. some (redis_broadcast in_time room m (some cluster_options))) same),
    )
