-- ===== src/RedisRelay/Twice.antt =====
-- What becomes of a message that the relay on Redis publishes: it is broadcast, and written to a stream
-- that the room itself reads.
use stream_relay.Prelude.{
  ℕ, ◌<◌, ◌≡◌, ◌≢◌, refl, sym, ap, ap₂, ◌∙◌, Bool, true, Option, some, List, [], ◌∷◌, ◌++◌, Bytes,
  arith, Map,
}
use stream_relay.Protocol.{ok}
use stream_relay.Types.{Message, Subscriber, DeliveryResult, PublishOptions}
use stream_relay.Decimal.{int64_bound}
use stream_relay.Memory.Deliveries.{deliver_each, offline_each}
use stream_relay.RedisRoom.{Room, redis_broadcast}
use stream_relay.RedisRoom.Rounds.{broadcast_options, broadcast_each, Listener, listen_round}
use stream_relay.Streams.{StreamEntry}
use stream_relay.RedisRelay.{
  Relay, get_redis_room, addressed, stream_fields, parse_stream_entry, redis_options, redis_publish,
  sent,
}
use stream_relay.RedisRelay.Entries.{parse_stream_entry-stream_fields}

-- A broadcast reads nothing of the options but whether the sender is skipped.
deliver_each_options :
    (in_time : Bytes → Bool) (a b : PublishOptions) (msg : Message) (subs : Map Subscriber)
    → a.skip_sender ≡ b.skip_sender
    → deliver_each in_time (some a) msg subs ≡ deliver_each in_time (some b) msg subs
unfolding deliver_each
deliver_each_options in_time a b msg [] same = refl
deliver_each_options in_time a b msg ((user, sub) ∷ rest) same =
    let ih = deliver_each_options in_time a b msg rest same in ground arith

offline_each_options :
    (a b : PublishOptions) (msg : Message) (subs : Map Subscriber) (members : List Bytes)
    → a.skip_sender ≡ b.skip_sender
    → offline_each (some a) msg subs members ≡ offline_each (some b) msg subs members
unfolding offline_each
offline_each_options a b msg subs [] same = refl
offline_each_options a b msg subs (m ∷ members) same =
    let ih = offline_each_options a b msg subs members same in ground arith

redis_broadcast_options :
    (in_time : Bytes → Bool) (room : Room) (msg : Message) (opts : PublishOptions)
    → opts.skip_sender ≡ true
    → redis_broadcast in_time room msg (some broadcast_options)
      ≡ redis_broadcast in_time room msg (some opts)
unfolding redis_broadcast broadcast_options
redis_broadcast_options in_time room msg opts skips =
    ap₂ (λ (xs ys : List DeliveryResult). xs ++ ys)
      (deliver_each_options in_time broadcast_options opts msg room.subscribers (sym skips))
      (offline_each_options broadcast_options opts msg room.subscribers room.config.members
        (sym skips))

published_as :
    (in_time : Bytes → Bool) (now : ℕ) (relay : Relay) (id : Bytes) (room : Room) (msg : Message)
    (new_id : Bytes) (opts : Option PublishOptions)
    → get_redis_room relay id ≡ some room
    → (redis_options opts).persist ≡ true
    → let p = redis_publish in_time (ok new_id) now relay id msg opts in
      (p.message ≡ record (addressed now id msg) { id = new_id })
      × (p.results
          ≡ ok (
              redis_broadcast in_time room
                (record (addressed now id msg) { id = new_id })
                (some (redis_options opts))))
unfolding redis_publish sent
published_as in_time now relay id room msg new_id opts e kept =
    rw (redis_publish, e, kept) ((refl, refl))

addressed_same :
    (now : ℕ) (id : Bytes) (msg : Message) (t : ℕ)
    → msg.timestamp ≡ some t
    → (addressed now id msg).timestamp ≡ some t
unfolding addressed
addressed_same now id msg t e = ground arith

room_id-addressed : (now : ℕ) (id : Bytes) (msg : Message) → (addressed now id msg).room_id ≡ id
unfolding addressed
room_id-addressed now id msg = refl

-- A message that `Publish` stores, with options that skip the sender (as the default ones do), is broadcast twice to the room: by
-- `Publish`, and with the same results by a round of the listen loop that reads just its entry. Its time is
-- set, to an int64, its metadata come back from their JSON, which is not empty, and the subscribers are the
-- same in the round.
pub listen_round-redis_publish :
    (in_time : Bytes → Bool) (encode : Map Bytes → Bytes) (decode : Bytes → Map Bytes) (now : ℕ)
    (relay : Relay) (id : Bytes) (room : Room) (msg : Message) (new_id : Bytes) (l : Listener)
    (t : ℕ) (opts : Option PublishOptions)
    → (redis_options opts).persist ≡ true
    → (redis_options opts).skip_sender ≡ true
    → decode (encode msg.metadata) ≡ msg.metadata
    → encode msg.metadata ≢ []
    → get_redis_room relay id ≡ some room
    → msg.timestamp ≡ some t
    → t < int64_bound
    → let p = redis_publish in_time (ok new_id) now relay id msg opts in
      let entry : StreamEntry = record {
        id = new_id;
        fields = stream_fields encode (addressed now id msg);
      } in
      let round =
        listen_round in_time relay.handled now room l
          (ok (parse_stream_entry decode id entry ∷ [])) in
      (results : List DeliveryResult) × (p.results ≡ ok results) × (round.deliveries ≡ results ∷ [])
unfolding listen_round broadcast_each addressed
listen_round-redis_publish in_time encode decode now relay id room msg new_id l t opts kept skips
      undoes nonempty e stamped small =
    let ready = addressed now id msg in
    let whole = record ready { id = new_id } in
    let (_, first) = published_as in_time now relay id room msg new_id opts e kept in
    let read =
      parse_stream_entry-stream_fields encode decode ready t new_id id undoes nonempty
        (addressed_same now id msg t stamped) small in
    let same : record ready { id = new_id; room_id = id } ≡ whole =
      ap (λ r. record ready { id = new_id; room_id = r }) (sym (room_id-addressed now id msg)) in
    (
      redis_broadcast in_time room whole (some (redis_options opts)),
      first,
      ap (λ m. redis_broadcast in_time room m (some broadcast_options) ∷ []) (read ∙ same)
          ∙ ap (λ r. r ∷ [])
              (redis_broadcast_options in_time room whole (redis_options opts) skips),
    )
