-- ===== src/RedisRelay/Recovery.antt =====
-- The methods of `Relay` in engine/relay.go that talk to the server: writing to and reading from
-- streams, recovery and offsets; and direct messages, statistics and closing.
use stream_relay.Prelude.{
  ℕ, zero, suc, ◌+◌, ◌-◌, ◌/◌, Bool, false, not, ◌&&◌, Option, none, some, List, [], ◌∷◌, ◌++◌,
  Bytes, codes, str_eq, if◌then◌else◌, length, Map,
}
use stream_relay.Protocol.{Error, failure, error_text, Result, ok, err, ◌>>=◌}
use stream_relay.Types.{
  Message, Subscriber, received, refused, panicked, RoomConfig, room_type_direct, PublishOptions,
  RecoveryOptions, Stats, Effect,
}
use stream_relay.DirectRooms.{generate_dm_room_id}
use stream_relay.Memory.Requests.{Ending, finished, stopped, crashed, recovery_or_default}
use stream_relay.Resp.{as_string}
use stream_relay.Streams.{StreamEntry, StreamResult, of_answer, is_null_reply}
use stream_relay.Streams.Commands.{Do, x_add, x_read, x_range}
use stream_relay.RedisRoom.{Room, redis_subscriber_count, close_redis_room}
use stream_relay.RedisRelay.{
  Relay, stream_key, offset_key, get_redis_room, get_or_create_redis_room, addressed, redis_options,
  redis_publish, Published, stream_fields, parse_stream_entry,
}

-- `fmt.Errorf("text: %w", err)`
abbrev pub wrapped : Bytes → Error → Error
wrapped text e = failure (text ++ codes ": " ++ error_text e)

abbrev pub wrap_error : {A : Type 0} → Bytes → Result A → Result A
wrap_error text (ok a) = ok a
wrap_error text (err e) = err (wrapped text e)

-- The loops that turn entries into messages.
unfoldable pub parse_each : (Bytes → Map Bytes) → Bytes → List StreamEntry → List Message
parse_each decode id [] = []
parse_each decode id (entry ∷ entries) =
    parse_stream_entry decode id entry ∷ parse_each decode id entries

unfoldable pub parse_each_stream : (Bytes → Map Bytes) → Bytes → List StreamResult → List Message
parse_each_stream decode id [] = []
parse_each_stream decode id (result ∷ results) =
    parse_each decode id result.entries ++ parse_each_stream decode id results

-- A limit of 0 or less is 100.
abbrev pub limit_or_default : ℕ → ℕ
limit_or_default zero = 100
limit_or_default (suc n) = suc n

-- The start of the range behind an id.
unfoldable pub start_after : Bytes → Bytes
start_after last_id =
    if not (str_eq last_id [])
      && not (str_eq last_id (codes "-"))
      && not (str_eq last_id (codes "0"))
    then codes "(" ++ last_id
    else codes "-"

-- The stored offset, where no id is given and one can be read.
abbrev pub id_or_stored : Bytes → Result Bytes → Bytes
id_or_stored [] (ok stored) = stored
id_or_stored [] (err e) = []
id_or_stored (c ∷ cs) stored = c ∷ cs

-- The loop of `RecoverAndDeliver`: how it ends, and the last id that was delivered.
unfoldable pub deliver_recovered : Subscriber → Bytes → List Message → Ending × Bytes
deliver_recovered sub last_id [] = (finished, last_id)
deliver_recovered sub last_id (msg ∷ msgs) = elim (sub.receive msg 0) [
  | received ↦ deliver_recovered sub msg.id msgs
  | refused e ↦ (stopped (wrapped (codes "failed to deliver recovered message") e), last_id)
  | panicked e ↦ (crashed e, last_id)
]

unfoldable pub redis_publish_direct :
    (Bytes → Bool)
    → Result Bytes
    → ℕ
    → Relay
    → Bytes
    → Bytes
    → Message
    → Option PublishOptions
    → Published
redis_publish_direct in_time added now relay sender recipient msg opts =
    let id = generate_dm_room_id sender recipient in
    let config : RoomConfig = record {
      id = id;
      kind = room_type_direct;
      history_size = 0;
      history_ttl = 0;
      members = sender ∷ recipient ∷ [];
    } in
    let (next, room) = get_or_create_redis_room now relay config in
    elim room [
      | err e ↦ record { relay = next; message = msg; effects = []; results = err e }
      | ok _ ↦
          redis_publish in_time added now next id (record msg { room_id = id; sender_id = sender })
            opts
    ]

-- The loop of `Stats`.
unfoldable pub total_redis_subscribers : Map Room → ℕ
total_redis_subscribers [] = 0
total_redis_subscribers ((id, room) ∷ rest) =
    redis_subscriber_count room + total_redis_subscribers rest

unfoldable pub redis_stats : ℕ → Relay → Stats
redis_stats now relay = record {
  active_rooms = length relay.rooms;
  active_subscribers = total_redis_subscribers relay.rooms;
  total_messages = relay.total_messages;
  messages_per_second = 0;
  pending_deliveries = 0;
  uptime = (now - relay.start_time) / 1000;
}

-- The loop of `Close`.
unfoldable pub close_redis_rooms : Map Room → List Effect
close_redis_rooms [] = []
close_redis_rooms ((id, room) ∷ rest) = (close_redis_room room).1 ++ close_redis_rooms rest

-- The rooms are closed; the connections to the server are the pool's.
unfoldable pub close_redis_relay : Relay → Relay × List Effect
close_redis_relay relay =
    if not relay.running
    then (relay, [])
    else (record relay { running = false; rooms = [] }, close_redis_rooms relay.rooms)

module _ {S : Type 0} (do_command : Do S) where
  unfoldable pub publish_to_stream :
      (Map Bytes → Bytes) → Relay → Bytes → Message → S → S × Result Bytes
  publish_to_stream encode relay id msg s =
      x_add do_command (stream_key relay id) (codes "*") (stream_fields encode msg) s

  -- `Publish` with the server: the stream is asked only where the code asks it.
  unfoldable pub publish_with :
      (Map Bytes → Bytes)
      → (Bytes → Bool)
      → ℕ
      → Relay
      → Bytes
      → Message
      → Option PublishOptions
      → S
      → S × Published
  publish_with encode in_time now relay id msg opts s =
      let unasked = redis_publish in_time (ok []) now relay id msg opts in
      elim (get_redis_room relay id) [
        | none ↦ (s, unasked)
        | some room ↦
            let (next, added) = publish_to_stream encode relay id (addressed now id msg) s in
            let answer = wrap_error (codes "failed to persist message") added in
            if (redis_options opts).persist
            then (next, redis_publish in_time answer now relay id msg opts)
            else (s, unasked)
      ]

  unfoldable pub read_from_stream :
      (Bytes → Map Bytes) → Relay → Bytes → Bytes → ℕ → Option ℕ → S → S × Result (List Message)
  read_from_stream decode relay id last_id count block s =
      let (next, results) = x_read do_command count block ((stream_key relay id, last_id) ∷ []) s in
      (next, results >>= λ found. ok (parse_each_stream decode id found))

  unfoldable pub save_offset : Relay → Bytes → Bytes → Bytes → S → S × Result (Unit {0})
  save_offset relay id user message_id s =
      let (next, response) =
        do_command (codes "SET" ∷ offset_key relay id user ∷ message_id ∷ []) s in
      (next, response >>= λ reply. ok tt)

  unfoldable pub get_offset : Relay → Bytes → Bytes → S → S × Result Bytes
  get_offset relay id user s =
      let (next, response) = do_command (codes "GET" ∷ offset_key relay id user ∷ []) s in
      (
        next,
        response >>= λ reply. if is_null_reply reply then ok [] else of_answer (as_string reply),
      )

  -- The state and the id from which a recovery starts: the offset is asked for only without an id.
  unfoldable pub recovery_start : Relay → Bytes → Bytes → Bytes → S → S × Bytes
  recovery_start relay id user from s =
      let (next, stored) = get_offset relay id user s in
      if str_eq from [] then (next, id_or_stored from stored) else (s, from)

  unfoldable pub redis_recover_messages :
      (Bytes → Map Bytes)
      → Relay
      → Bytes
      → Bytes
      → Option RecoveryOptions
      → S
      → S × Result (List Message)
  redis_recover_messages decode relay id user opts s =
      let options = recovery_or_default opts in
      let (asked, last_id) = recovery_start relay id user options.from_id s in
      let (next, entries) =
        x_range do_command (stream_key relay id) (start_after last_id) (codes "+")
          (limit_or_default options.limit) asked in
      (next, entries >>= λ found. ok (parse_each decode id found))

  unfoldable pub redis_recover_and_deliver :
      (Bytes → Map Bytes) → Relay → Bytes → Subscriber → Option RecoveryOptions → S → S × Ending
  redis_recover_and_deliver decode relay id sub opts s =
      let (next, messages) = redis_recover_messages decode relay id sub.user_id opts s in
      elim messages [
        | err e ↦ (next, stopped e)
        | ok msgs ↦
            let (ending, last_id) = deliver_recovered sub [] msgs in
            elim ending [
              | finished ↦
                  if not (str_eq last_id [])
                  then ((save_offset relay id sub.user_id last_id next).0, finished)
                  else (next, finished)
              | stopped e ↦ (next, stopped e)
              | crashed e ↦ (next, crashed e)
            ]
      ]
