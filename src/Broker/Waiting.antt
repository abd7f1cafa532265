-- ===== src/Broker/Waiting.antt =====
-- What waits in the channel of a broker (engine/broker.go), and what a message adds to it.
use stream_relay.Prelude.{
  ℕ, ◌≤◌, ◌≡◌, inl, inr, Bool, true, false, Bool-cases, Option, none, some, List, [], ◌∷◌, ◌++◌,
  Bytes, str_eq, ltb, arith, length, length-append,
}
use stream_relay.Dedupe.{is_duplicate}
use stream_relay.Dedupe.Agreement.{CacheIsValid}
use stream_relay.Dedupe.Keeping.{is_duplicate-IsValid}
use stream_relay.Pool.Clients.{PubSubMessage}
use stream_relay.Broker.{NodeJson, BrokerMessage, Loop, absent, connecting, reading, RedisBroker}
use stream_relay.Broker.Reading.{offer, hear_node}
use stream_relay.Broker.Heard.{Heard, skipped, asked}

-- No message is from that node.
abbrev pub AllForeign : Bytes → List BrokerMessage → Type 0
AllForeign node [] = Unit
AllForeign node (msg ∷ msgs) = (str_eq msg.node_id node ≡ false) × AllForeign node msgs

abbrev pub has_loop : Loop → Bool
has_loop absent = false
has_loop (connecting errors) = true
has_loop reading = true

-- `running` says whether there is a goroutine that reads.
pub record IsSound (b : RedisBroker) : Type 0 where
  pub foreign : AllForeign b.node_id b.msg_chan
  pub bounded : length b.msg_chan ≤ b.buffer_size
  pub remembered : CacheIsValid b.dedupe
  pub looped : b.running ≡ has_loop b.loop

-- A broker is sound, if there was no panic.
unfoldable pub IfSound : Option RedisBroker → Type 0
IfSound none = Unit
IfSound (some b) = IsSound b

AllForeign-append :
    (node : Bytes) (msgs : List BrokerMessage) (msg : BrokerMessage)
    → AllForeign node msgs
    → str_eq msg.node_id node ≡ false
    → AllForeign node (msgs ++ msg ∷ [])
AllForeign-append node [] msg all last = (last, tt)
AllForeign-append node (m ∷ msgs) msg (first, all) last =
    (first, AllForeign-append node msgs msg all last)

offer-IsSound :
    (told : BrokerMessage) (b : RedisBroker)
    → str_eq told.node_id b.node_id ≡ false
    → IsSound b
    → IfSound (offer told b)
unfolding offer IfSound
offer-IsSound told b other v = elim (Bool-cases b.is_closed) [
  | inl shut ↦ rw (offer, shut) tt
  | inr e ↦ elim (Bool-cases (ltb (length b.msg_chan) b.buffer_size)) [
    | inr full ↦ simp (offer, e, full) v
    | inl room ↦
        let longer = length-append b.msg_chan (told ∷ []) in
        simp (offer, e, room)
          (record {
            foreign = AllForeign-append b.node_id b.msg_chan told v.foreign other;
            bounded = ground (arith, longer, room);
            remembered = v.remembered;
            looped = v.looped;
          })
  ]
]

pub Heard-IsSound :
    {json : NodeJson} {now : ℕ} {msg : PubSubMessage} {b : RedisBroker} {calls : List (ℕ × Bytes)}
    {result : Option RedisBroker}
    → Heard json now msg b calls result
    → IsSound b
    → IfSound result
unfolding hear_node IfSound
Heard-IsSound skipped v = v
Heard-IsSound {now} {b} (asked channel envelope told other brings) v =
    let seen = record b { dedupe = (is_duplicate now b.dedupe told.message_id).0 } in
    let msg : BrokerMessage = record {
      channel = channel;
      payload = envelope.payload;
      node_id = envelope.node_id;
      message_id = told.message_id;
    } in
    let kept : IsSound seen = record {
      foreign = v.foreign;
      bounded = v.bounded;
      remembered = is_duplicate-IsValid now b.dedupe told.message_id v.remembered;
      looped = v.looped;
    } in
    elim (Bool-cases (is_duplicate now b.dedupe told.message_id).1) [
      | inl e ↦ rw (hear_node, e) kept
      | inr e ↦ rw (hear_node, e) (offer-IsSound msg seen other kept)
    ]
