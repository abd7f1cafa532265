-- ===== src/Broker/Hearing.antt =====
-- What a node takes from the messages that it hears (engine/broker.go): none of its own, and none twice.
use stream_relay.Prelude.{
  ℕ, ◌-◌, ◌≤◌, ◌<◌, ◌≡◌, refl, sym, ap, subst, ◌∙◌, inl, inr, true, false, Option, none, some, List,
  [], ◌∷◌, Bytes, arith, length,
}
use stream_relay.Dedupe.{is_duplicate}
use stream_relay.Dedupe.Agreement.{CacheIsValid}
use stream_relay.Dedupe.Duplicates.{after_calls, Within, is_duplicate-after_calls}
use stream_relay.Pool.Clients.{PubSubMessage}
use stream_relay.Broker.{NodeJson, RedisBroker}
use stream_relay.Broker.Reading.{hear_node, hear_envelope, hear}
use stream_relay.Broker.Heard.{Brings, hear-Heard, Heard-Kept, call_of-Brings, call_of-cases}

-- The broker after messages that were heard, each at its time, if there was no panic.
unfoldable pub hear_each : NodeJson → List (ℕ × PubSubMessage) → RedisBroker → Option RedisBroker
hear_each json [] b = some b
hear_each json ((now, msg) ∷ events) b = elim (hear json now msg b) [
  | none ↦ none
  | some next ↦ hear_each json events next
]

-- Every message is heard less than `ttl` after `since`.
abbrev pub AllWithin : ℕ → ℕ → List (ℕ × PubSubMessage) → Type 0
AllWithin since ttl [] = Unit
AllWithin since ttl ((now, msg) ∷ events) = (now - since < ttl) × AllWithin since ttl events

-- What hearing messages in time does: calls that are no more, and come in time as well.
abbrev Calls : ℕ → ℕ → List (ℕ × PubSubMessage) → RedisBroker → RedisBroker → Type 0
Calls since ttl events b next =
    (calls : List (ℕ × Bytes)) × (next.dedupe ≡ after_calls b.dedupe calls)
    × (length calls ≤ length events)
    × Within since ttl calls
    × (next.node_id ≡ b.node_id)
    × (next.is_closed ≡ b.is_closed)

hear_each-Calls :
    (json : NodeJson) (since ttl : ℕ) (events : List (ℕ × PubSubMessage)) (b : RedisBroker)
    → AllWithin since ttl events
    → b.is_closed ≡ false
    → (after : RedisBroker) × (hear_each json events b ≡ some after)
      × Calls since ttl events b after
unfolding hear_each
hear_each-Calls json since ttl [] b young is_open =
    (b, refl, ([], refl, omega arith, tt, refl, refl))
hear_each-Calls json since ttl ((now, msg) ∷ events) b (first, young) is_open =
    let (next, e, (heard, name, opened)) = Heard-Kept (hear-Heard json now msg b) is_open in
    let (after, e', (calls, state, fewer, in_time, named, kept)) =
      hear_each-Calls json since ttl events next young (opened ∙ is_open) in
    let whole : hear_each json ((now, msg) ∷ events) b ≡ some after = rw (hear_each, e) e' in
    elim (call_of-cases json b.node_id now msg) [
      | inl none_called ↦
          let same : next.dedupe ≡ b.dedupe = heard ∙ ap (after_calls b.dedupe) none_called in
          (
            after,
            whole,
            (
              calls,
              state ∙ ap (λ d. after_calls d calls) same,
              omega (arith, fewer),
              in_time,
              named ∙ name,
              kept ∙ opened,
            ),
          )
      | inr (id, called) ↦
          let same : next.dedupe ≡ (is_duplicate now b.dedupe id).0 =
            heard ∙ ap (after_calls b.dedupe) called in
          (
            after,
            whole,
            (
              (now, id) ∷ calls,
              state ∙ ap (λ d. after_calls d calls) same,
              omega (arith, fewer),
              (first, in_time),
              named ∙ name,
              kept ∙ opened,
            ),
          )
    ]

-- A message whose id is a duplicate adds nothing to the channel.
hear_duplicate :
    (json : NodeJson) (now : ℕ) (msg : PubSubMessage) (b : RedisBroker) (id : Bytes)
    → Brings json b.node_id msg id
    → (is_duplicate now b.dedupe id).1 ≡ true
    → hear json now msg b ≡ some (record b { dedupe = (is_duplicate now b.dedupe id).0 })
unfolding hear hear_envelope hear_node
hear_duplicate json now msg b id (envelope, told, e, e', other, e'', same) seen =
    let again : (is_duplicate now b.dedupe told.message_id).1 ≡ true =
      ap (λ i. (is_duplicate now b.dedupe i).1) same ∙ seen in
    rw (hear, e, e', hear_envelope, other, e'', hear_node, again)
      (ap (λ i. some (record b { dedupe = (is_duplicate now b.dedupe i).0 })) same)

-- Of two messages of other nodes with the same id, whatever they hold, the second is dropped, if the
-- broker is not closed, the first was no duplicate, the second is heard before the duration of the cache
-- has passed, and fewer messages than the size of the cache are heard in between, all of them in that
-- time; and none of them makes the goroutine panic.
pub hear-hear_each :
    (json : NodeJson) (now later : ℕ) (b : RedisBroker) (first second : PubSubMessage)
    (events : List (ℕ × PubSubMessage)) (id : Bytes)
    → CacheIsValid b.dedupe
    → b.is_closed ≡ false
    → Brings json b.node_id first id
    → Brings json b.node_id second id
    → (is_duplicate now b.dedupe id).1 ≡ false
    → length events < b.dedupe.max_size
    → AllWithin now b.dedupe.ttl events
    → later - now < b.dedupe.ttl
    → (after last : RedisBroker) × (hear_each json ((now, first) ∷ events) b ≡ some after)
      × (hear json later second after ≡ some last)
      × (last.msg_chan ≡ after.msg_chan)
unfolding hear_each
hear-hear_each json now later b first second events id valid is_open brings again new room young
      in_time =
    let (start, e, (heard, name, opened)) = Heard-Kept (hear-Heard json now first b) is_open in
    let (after, e', (calls, state, fewer, calls_young, named, kept)) =
      hear_each-Calls json now b.dedupe.ttl events start young (opened ∙ is_open) in
    let started : start.dedupe ≡ (is_duplicate now b.dedupe id).0 =
      heard ∙ ap (after_calls b.dedupe) (call_of-Brings json b.node_id now first id brings) in
    let cache = state ∙ ap (λ d. after_calls d calls) started in
    let seen =
      is_duplicate-after_calls b.dedupe now later id calls valid new (omega (arith, fewer, room))
        calls_young in_time in
    (
      after,
      record after { dedupe = (is_duplicate later after.dedupe id).0 },
      rw (hear_each, e) e',
      hear_duplicate json later second after id
          (subst (λ n. Brings json n second id) (sym (named ∙ name)) again)
          (ap (λ d. (is_duplicate later d id).1) cache ∙ seen),
      refl,
    )
