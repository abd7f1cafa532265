-- ===== src/Memory/Publishing.antt =====
-- What `Publish` and `PublishDirect` of the memory relay do, and what can be recovered afterwards.
use stream_relay.Prelude.{
  ℕ, ◌+◌, ◌*◌, ◌%◌, ◌≡◌, refl, Bool, Option, none, some, Bytes, str_eq, arith, if◌then◌else◌, Map,
  lookup, insert, lookup-insert, Option-cases, inl, inr,
}
use stream_relay.Protocol.{ok, err, room_not_found}
use stream_relay.Types.{Message, PublishOptions}
use stream_relay.Decimal.{int64_bound}
use stream_relay.Memory.{MemoryRoom, MemoryRelay}
use stream_relay.Memory.Deliveries.{broadcast}
use stream_relay.Memory.Relays.{next_seq, get_room, options_or_default, stamped, stored, publish}

next_seq_lem : (relay : MemoryRelay) → next_seq relay ≡ (relay.message_seq + 1) % (2 * int64_bound)
unfolding next_seq
next_seq_lem relay = refl

lookup_inserted :
    (rooms : Map MemoryRoom) (id other : Bytes) (room : MemoryRoom)
    → lookup other (insert id room rooms)
      ≡ (if str_eq other id then some room else lookup other rooms)
lookup_inserted rooms id other room = let law = lookup-insert other id room rooms in ground arith

-- Where a room is, `Publish` returns what the broadcast reports of the message it stamped; it stores
-- the message in that room's history exactly if that is asked for, changes no other room, and takes
-- the next number. Where there is none, it changes nothing and says that it is not found.
pub publish_lem :
    (in_time : Bytes → Bool) (now : ℕ) (relay : MemoryRelay) (id : Bytes) (msg : Message)
    (opts : Option PublishOptions) (other : Bytes)
    → let p = publish in_time now relay id msg opts in
      let options = options_or_default opts in
      let sent = stamped now relay id msg in
      let found = get_room relay id in
      (p.results ≡ (elim found [
        | none ↦ err (room_not_found id)
        | some room ↦ ok (broadcast in_time room sent (some options))
      ]))
      × (p.message ≡ (elim found [ none ↦ msg | some _ ↦ sent ]))
      × (p.relay.message_seq ≡ (elim found [
        | none ↦ relay.message_seq
        | some _ ↦ (relay.message_seq + 1) % (2 * int64_bound)
      ]))
      × (get_room p.relay other ≡ (elim found [
        | none ↦ get_room relay other
        | some room ↦
            if str_eq other id then some (stored options sent room) else get_room relay other
      ]))
unfolding publish get_room
publish_lem in_time now relay id msg opts other =
    let options = options_or_default opts in
    let sent = stamped now relay id msg in
    elim (Option-cases (get_room relay id)) [
      | inl e ↦ rw (publish, e) ((refl, refl, refl, refl))
      | inr (room, e) ↦
          rw (publish, e)
            ((
              refl,
              refl,
              next_seq_lem relay,
              lookup_inserted relay.rooms id other (stored options sent room),
            ))
    ]
