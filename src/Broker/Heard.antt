-- ===== src/Broker/Heard.antt =====
-- What becomes of one message that the broker of a node hears (engine/broker.go).
use stream_relay.Prelude.{
  ℕ, ◌≡◌, refl, ◌⊎◌, inl, inr, true, false, not, Bool-cases, Option, some, List, [], ◌∷◌, ◌++◌,
  Bytes, codes, str_eq, ltb, if◌then◌else◌, length,
}
use stream_relay.Protocol.{ok, err, Result-cases}
use stream_relay.Dedupe.{DedupeCache, is_duplicate}
use stream_relay.Dedupe.Duplicates.{after_calls}
use stream_relay.Pool.Clients.{PubSubMessage}
use stream_relay.Broker.{NodeJson, NodeMessage, Envelope, BrokerMessage, RedisBroker}
use stream_relay.Broker.Reading.{offer, hear_node, hear_envelope, hear}

-- What is heard is a message with that id, of another node.
abbrev pub Brings : NodeJson → Bytes → PubSubMessage → Bytes → Type 0
Brings json node msg id =
    (envelope : Envelope) × (told : NodeMessage) × (str_eq msg.kind (codes "pmessage") ≡ true)
    × (json.decode_envelope msg.payload ≡ ok envelope)
    × (str_eq envelope.node_id node ≡ false)
    × (json.decode_node envelope.payload ≡ ok told)
    × (told.message_id ≡ id)

-- The call of `IsDuplicate` that hearing a message makes, if any.
unfoldable pub call_of : NodeJson → Bytes → ℕ → PubSubMessage → List (ℕ × Bytes)
call_of json node now msg =
    if not (str_eq msg.kind (codes "pmessage"))
    then []
    else elim (json.decode_envelope msg.payload) [
      | err e ↦ []
      | ok envelope ↦
          if str_eq envelope.node_id node then [] else elim (json.decode_node envelope.payload) [
            | err e ↦ []
            | ok told ↦ (now, told.message_id) ∷ []
          ]
    ]

-- What hearing does: the calls of `IsDuplicate` that it makes, and the broker or a panic.
pub data Heard (json : NodeJson) (now : ℕ) (msg : PubSubMessage) (b : RedisBroker)
    : List (ℕ × Bytes) → Option RedisBroker → Type 0 where
  skipped : Heard json now msg b [] (some b)
  asked :
      (channel : Bytes) (envelope : Envelope) (told : NodeMessage)
      → str_eq envelope.node_id b.node_id ≡ false
      → Brings json b.node_id msg told.message_id
      → Heard json now msg b ((now, told.message_id) ∷ []) (hear_node now channel envelope told b)

pub hear-Heard :
    (json : NodeJson) (now : ℕ) (msg : PubSubMessage) (b : RedisBroker)
    → Heard json now msg b (call_of json b.node_id now msg) (hear json now msg b)
unfolding hear hear_envelope call_of
hear-Heard json now msg b = elim (Bool-cases (str_eq msg.kind (codes "pmessage"))) [
  | inr e ↦ rw (hear, call_of, e) skipped
  | inl e ↦ elim (Result-cases (json.decode_envelope msg.payload)) [
    | inr (error, e') ↦ rw (hear, call_of, e, e') skipped
    | inl (envelope, e') ↦ elim (Bool-cases (str_eq envelope.node_id b.node_id)) [
      | inl own ↦ rw (hear, call_of, e, e', hear_envelope, own) skipped
      | inr other ↦ elim (Result-cases (json.decode_node envelope.payload)) [
        | inr (error, e'') ↦ rw (hear, call_of, e, e', hear_envelope, other, e'') skipped
        | inl (told, e'') ↦
            rw (hear, call_of, e, e', hear_envelope, other, e'')
              (asked msg.channel envelope told other (envelope, told, e, e', other, e'', refl))
      ]
    ]
  ]
]

-- What a send does to an open channel, and what it leaves as it was.
abbrev pub Kept : RedisBroker → DedupeCache → RedisBroker → Type 0
Kept b cache next =
    (next.dedupe ≡ cache) × (next.node_id ≡ b.node_id) × (next.is_closed ≡ b.is_closed)

-- On an open channel the end of a round does not panic.
hear_node-Kept :
    (now : ℕ) (channel : Bytes) (envelope : Envelope) (told : NodeMessage) (b : RedisBroker)
    → b.is_closed ≡ false
    → (next : RedisBroker) × (hear_node now channel envelope told b ≡ some next)
      × Kept b (is_duplicate now b.dedupe told.message_id).0 next
unfolding hear_node offer
hear_node-Kept now channel envelope told b is_open =
    let msg : BrokerMessage = record {
      channel = channel;
      payload = envelope.payload;
      node_id = envelope.node_id;
      message_id = told.message_id;
    } in
    let seen = record b { dedupe = (is_duplicate now b.dedupe told.message_id).0 } in
    elim (Bool-cases (is_duplicate now b.dedupe told.message_id).1) [
      | inl e ↦ (seen, rw (hear_node, e) refl, (refl, refl, refl))
      | inr e ↦ elim (Bool-cases (ltb (length b.msg_chan) b.buffer_size)) [
        | inl room ↦ (
          record seen { msg_chan = b.msg_chan ++ msg ∷ [] },
          rw (hear_node, e, offer, is_open, room) refl,
          (refl, refl, refl),
        )
        | inr full ↦ (seen, rw (hear_node, e, offer, is_open, full) refl, (refl, refl, refl))
      ]
    ]

pub Heard-Kept :
    {json : NodeJson} {now : ℕ} {msg : PubSubMessage} {b : RedisBroker} {calls : List (ℕ × Bytes)}
    {result : Option RedisBroker}
    → Heard json now msg b calls result
    → b.is_closed ≡ false
    → (next : RedisBroker) × (result ≡ some next) × Kept b (after_calls b.dedupe calls) next
Heard-Kept {b} skipped is_open = (b, refl, (refl, refl, refl))
Heard-Kept {now} {b} (asked channel envelope told other brings) is_open =
    hear_node-Kept now channel envelope told b is_open

-- Hearing a message that brings an id asks for it.
pub call_of-Brings :
    (json : NodeJson) (node : Bytes) (now : ℕ) (msg : PubSubMessage) (id : Bytes)
    → Brings json node msg id
    → call_of json node now msg ≡ (now, id) ∷ []
unfolding call_of
call_of-Brings json node now msg id (envelope, told, e, e', other, e'', same) =
    rw (call_of, e, e', other, e'', same) refl

-- Hearing a message makes one call at most.
pub call_of-cases :
    (json : NodeJson) (node : Bytes) (now : ℕ) (msg : PubSubMessage)
    → (call_of json node now msg ≡ [])
      ⊎ ((id : Bytes) × (call_of json node now msg ≡ (now, id) ∷ []))
unfolding call_of
call_of-cases json node now msg = elim (Bool-cases (str_eq msg.kind (codes "pmessage"))) [
  | inr e ↦ inl (rw (call_of, e) refl)
  | inl e ↦ elim (Result-cases (json.decode_envelope msg.payload)) [
    | inr (error, e') ↦ inl (rw (call_of, e, e') refl)
    | inl (envelope, e') ↦ elim (Bool-cases (str_eq envelope.node_id node)) [
      | inl own ↦ inl (rw (call_of, e, e', own) refl)
      | inr other ↦ elim (Result-cases (json.decode_node envelope.payload)) [
        | inr (error, e'') ↦ inl (rw (call_of, e, e', other, e'') refl)
        | inl (told, e'') ↦ inr (told.message_id, rw (call_of, e, e', other, e'') refl)
      ]
    ]
  ]
]
