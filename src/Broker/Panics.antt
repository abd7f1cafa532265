-- ===== src/Broker/Panics.antt =====
-- When the goroutine of a broker panics (engine/broker.go): it sends to a channel that `Close` has closed.
use stream_relay.Prelude.{
  ℕ, ◌≡◌, ◌↔◌, refl, ap, ◌∙◌, inl, inr, true, false, Bool-cases, Option, none, some, List, Bytes,
}
use stream_relay.Dedupe.{is_duplicate}
use stream_relay.Pool.Clients.{PubSubMessage}
use stream_relay.Broker.{NodeJson, RedisBroker}
use stream_relay.Broker.Reading.{offer, hear_node, hear_envelope, hear}
use stream_relay.Broker.Heard.{Brings, Heard, skipped, asked, hear-Heard, Heard-Kept}

-- The broker is closed, and the message brings an id of another node that is no duplicate.
abbrev pub SendsToClosed : NodeJson → ℕ → PubSubMessage → RedisBroker → Type 0
SendsToClosed json now msg b =
    (b.is_closed ≡ true)
    × (id : Bytes) × Brings json b.node_id msg id
    × ((is_duplicate now b.dedupe id).1 ≡ false)

Heard-SendsToClosed :
    {json : NodeJson} {now : ℕ} {msg : PubSubMessage} {b : RedisBroker} {calls : List (ℕ × Bytes)}
    {result : Option RedisBroker}
    → Heard json now msg b calls result
    → b.is_closed ≡ true
    → result ≡ none
    → SendsToClosed json now msg b
unfolding hear_node
Heard-SendsToClosed skipped shut panics = absurd cc
Heard-SendsToClosed {now} {b} (asked channel envelope told other brings) shut panics =
    elim (Bool-cases (is_duplicate now b.dedupe told.message_id).1) [
      | inr e ↦ (shut, told.message_id, brings, e)
      | inl e ↦
          let fine : hear_node now channel envelope told b
              ≡ some (record b { dedupe = (is_duplicate now b.dedupe told.message_id).0 }) =
            rw (hear_node, e) refl in
          absurd cc
    ]

panics_closed :
    (json : NodeJson) (now : ℕ) (msg : PubSubMessage) (b : RedisBroker)
    → hear json now msg b ≡ none
    → SendsToClosed json now msg b
panics_closed json now msg b panics = elim (Bool-cases b.is_closed) [
  | inl shut ↦ Heard-SendsToClosed (hear-Heard json now msg b) shut panics
  | inr is_open ↦ let (next, e, kept) = Heard-Kept (hear-Heard json now msg b) is_open in absurd cc
]

closed_panics :
    (json : NodeJson) (now : ℕ) (msg : PubSubMessage) (b : RedisBroker)
    → SendsToClosed json now msg b
    → hear json now msg b ≡ none
unfolding hear hear_envelope hear_node offer
closed_panics json now msg b (shut, id, (envelope, told, e, e', other, e'', same), new) =
    let first : (is_duplicate now b.dedupe told.message_id).1 ≡ false =
      ap (λ i. (is_duplicate now b.dedupe i).1) same ∙ new in
    rw (hear, e, e', hear_envelope, other, e'', hear_node, first, offer, shut) refl

-- A message that is heard makes the goroutine panic exactly if the broker is closed and the message
-- brings an id of another node that is no duplicate.
pub hear_panics_iff :
    (json : NodeJson) (now : ℕ) (msg : PubSubMessage) (b : RedisBroker)
    → (hear json now msg b ≡ none) ↔ SendsToClosed json now msg b
hear_panics_iff json now msg b = (panics_closed json now msg b, closed_panics json now msg b)
