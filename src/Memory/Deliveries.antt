-- ===== src/Memory/Deliveries.antt =====
-- `Broadcast` and `safeDeliver` of `MemoryRoom` (engine/memory_relay.go).
use stream_relay.Prelude.{
  ℕ, zero, suc, ◌+◌, Bool, true, false, ◌&&◌, Option, none, some, List, [], ◌∷◌, ◌++◌, Bytes,
  str_eq, if◌then◌else◌, Map, lookup,
}
use stream_relay.Protocol.{Error, delivery_panic}
use stream_relay.Types.{
  Message, Subscriber, received, refused, panicked, DeliveryResult, delivery_success,
  delivery_failed, delivery_offline, PublishOptions, Effect,
}
use stream_relay.Memory.{MemoryRoom}
use stream_relay.Memory.Rooms.{unsubscribe}

-- The rounds of the retry loop that are left, the number of the next one, and the last error. With
-- the result comes whether the delivery panicked, and so starts an `Unsubscribe` of the user.
unfoldable pub attempts :
    Bytes → Subscriber → Message → ℕ → ℕ → Option Error → DeliveryResult × Bool
attempts user sub msg zero attempt last_err =
    (record { user_id = user; status = delivery_failed; error = last_err }, false)
attempts user sub msg (suc left) attempt last_err = elim (sub.receive msg attempt) [
  | received ↦ (record { user_id = user; status = delivery_success; error = none }, false)
  | refused e ↦ attempts user sub msg left (attempt + 1) (some e)
  | panicked e ↦ (
    record { user_id = user; status = delivery_failed; error = some (delivery_panic user e) },
    true,
  )
]

unfoldable pub safe_deliver : Bytes → Subscriber → Message → DeliveryResult × Bool
safe_deliver user sub msg = attempts user sub msg 3 0 none

-- `opts != nil && opts.SkipSender && user == msg.SenderID`
abbrev pub skips : Option PublishOptions → Message → Bytes → Bool
skips none msg user = false
skips (some opts) msg user = opts.skip_sender && str_eq user msg.sender_id

-- The deliveries to the subscribers, as far as they end while the broadcast waits: `in_time` says
-- for which user that is so.
unfoldable pub deliver_each :
    (Bytes → Bool) → Option PublishOptions → Message → Map Subscriber → List DeliveryResult
deliver_each in_time opts msg [] = []
deliver_each in_time opts msg ((user, sub) ∷ rest) =
    let results = deliver_each in_time opts msg rest in
    if skips opts msg user
    then results
    else if in_time user
    then (safe_deliver user sub msg).0 ∷ results
    else results

-- The users whom the deliveries unsubscribe in the end, because of a panic.
unfoldable pub panics : Option PublishOptions → Message → Map Subscriber → List Bytes
panics opts msg [] = []
panics opts msg ((user, sub) ∷ rest) =
    let users = panics opts msg rest in
    if skips opts msg user
    then users
    else if (safe_deliver user sub msg).1
    then user ∷ users
    else users

-- The loop that marks the offline members.
unfoldable pub offline_each :
    Option PublishOptions → Message → Map Subscriber → List Bytes → List DeliveryResult
offline_each opts msg subscribers [] = []
offline_each opts msg subscribers (member ∷ rest) =
    let results = offline_each opts msg subscribers rest in
    let offline : DeliveryResult = record {
      user_id = member;
      status = delivery_offline;
      error = none;
    } in
    if skips opts msg member
    then results
    else elim (lookup member subscribers) [ none ↦ offline ∷ results | some _ ↦ results ]

unfoldable pub broadcast :
    (Bytes → Bool) → MemoryRoom → Message → Option PublishOptions → List DeliveryResult
broadcast in_time room msg opts =
    deliver_each in_time opts msg room.subscribers
    ++ offline_each opts msg room.subscribers room.config.members

-- The calls of `Unsubscribe` that panics start, once they run.
unfoldable pub drop_panicked : Bool → ℕ → MemoryRoom → List Bytes → MemoryRoom × List Effect
drop_panicked handled now room [] = (room, [])
drop_panicked handled now room (user ∷ users) =
    let (next, effects) = unsubscribe handled now room user in
    let (last, more) = drop_panicked handled now next users in (last, effects ++ more)
