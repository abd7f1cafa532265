-- ===== src/RedisRelay/Offsets.antt =====
-- The offset of a user in a room, as `RecoverAndDeliver` in engine/relay.go keeps it.
use stream_relay.Prelude.{◌≡◌, ◌≢◌, refl, ◌⊎◌, inl, inr, List, [], ◌∷◌, Bytes, codes}
use stream_relay.Protocol.{Result, ok}
use stream_relay.Types.{Message, Subscriber, Outcome-cases}
use stream_relay.Memory.Requests.{Ending, finished}
use stream_relay.Streams.Commands.{Do}
use stream_relay.RedisRoom.Rounds.{last_read}
use stream_relay.RedisRelay.{Relay, offset_key}
use stream_relay.RedisRelay.Recovery.{deliver_recovered}

-- A loop of deliveries that gets to its end has delivered every message.
pub deliver_recovered-last_read :
    (sub : Subscriber) (last_id : Bytes) (msgs : List Message)
    → (deliver_recovered sub last_id msgs ≡ (finished, last_read last_id msgs))
      ⊎ ((deliver_recovered sub last_id msgs).0 ≢ finished)
unfolding deliver_recovered last_read
deliver_recovered-last_read sub last_id [] = inl refl
deliver_recovered-last_read sub last_id (msg ∷ msgs) = elim (Outcome-cases (sub.receive msg 0)) [
  | inl e ↦ rw (deliver_recovered, e) (deliver_recovered-last_read sub msg.id msgs)
  | inr (inl (error, e)) ↦ inr (rw (deliver_recovered, e) (λ bad. cc))
  | inr (inr (error, e)) ↦ inr (rw (deliver_recovered, e) (λ bad. cc))
]

-- What a call that read `messages` at the state `next` leaves: it has delivered them all, and has sent the
-- server one more command, that sets the stored offset to the id of the last; or the server is as it was
-- after the read, since the deliveries did not come to their end or no last message has an id.
abbrev pub KeepsOffset :
    {S : Type 0} → Do S → Relay → Bytes → Bytes → S → Result (List Message) → S → Ending → Type 0
KeepsOffset do_command relay id user next messages after ending =
    ((msgs : List Message) × (messages ≡ ok msgs)
      × (ending ≡ finished)
      × (last_read [] msgs ≢ [])
      × (after
          ≡ (do_command (codes "SET" ∷ offset_key relay id user ∷ last_read [] msgs ∷ []) next).0))
    ⊎ ((after ≡ next)
        × ((ending ≢ finished)
            ⊎ ((msgs : List Message) × (messages ≡ ok msgs) × (last_read [] msgs ≡ []))))
