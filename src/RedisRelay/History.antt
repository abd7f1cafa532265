-- ===== src/RedisRelay/History.antt =====
-- engine/history.go: the history of a room in its stream, and its loading from other storage.
use stream_relay.Prelude.{
  ℕ, zero, suc, Bool, true, false, ◌&&◌, Option, none, some, List, [], ◌∷◌, Bytes, codes, ltb,
  if◌then◌else◌, length, take, Map,
}
use stream_relay.Decimal.{ℤ, pos, negsuc}
use stream_relay.Protocol.{Error, Result, ok, err, ◌>>=◌}
use stream_relay.Types.{Message, Subscriber, received, refused, panicked}
use stream_relay.Memory.Requests.{Ending, finished, stopped, crashed}
use stream_relay.Streams.Commands.{Do, x_range, x_rev_range, x_len, x_trim}
use stream_relay.RedisRelay.{Relay, stream_key, time_or}
use stream_relay.RedisRelay.Recovery.{wrapped, parse_each, limit_or_default, publish_to_stream}

pub record ExternalHistoryOptions : Type 0 where
  pub inject_to_redis : Bool
  pub limit : ℕ

abbrev pub history_options : Option ExternalHistoryOptions → ExternalHistoryOptions
history_options none = record { inject_to_redis = false; limit = 0 }
history_options (some opts) = opts

-- No more messages than the limit, if there is one.
abbrev pub at_most : ℕ → List Message → List Message
at_most limit msgs = if ltb 0 limit && ltb limit (length msgs) then take limit msgs else msgs

-- A loop that offers messages in order; `text` is what it says of an error.
unfoldable pub deliver_all : Bytes → Subscriber → List Message → Ending
deliver_all text sub [] = finished
deliver_all text sub (msg ∷ msgs) = elim (sub.receive msg 0) [
  | received ↦ deliver_all text sub msgs
  | refused e ↦ stopped (wrapped text e)
  | panicked e ↦ crashed e
]

-- The same where the subscriber may be nil.
abbrev pub deliver_to : Bytes → Option Subscriber → List Message → Ending
deliver_to text none msgs = finished
deliver_to text (some sub) msgs = deliver_all text sub msgs

-- The messages with the id of the room, which is written into each before its delivery.
unfoldable pub in_room : Bytes → List Message → List Message
in_room id [] = []
in_room id (msg ∷ msgs) = record msg { room_id = id } ∷ in_room id msgs

-- The loop over fallback messages, which writes the id of the room into each before it offers it: the
-- messages as it leaves them, and how it ends.
unfoldable pub deliver_fallback : Bytes → Option Subscriber → List Message → List Message × Ending
deliver_fallback id none msgs = (in_room id msgs, finished)
deliver_fallback id (some sub) [] = ([], finished)
deliver_fallback id (some sub) (msg ∷ msgs) =
    let ready = record msg { room_id = id } in
    let (rest, ending) = deliver_fallback id (some sub) msgs in
    elim (sub.receive ready 0) [
      | received ↦ (ready ∷ rest, ending)
      | refused e ↦ (ready ∷ msgs, stopped (wrapped (codes "failed to deliver fallback message") e))
      | panicked e ↦ (ready ∷ msgs, crashed e)
    ]

-- What injection does to a message before it writes it.
abbrev pub prepared : ℕ → Bytes → Message → Message
prepared now id msg = record msg { room_id = id; timestamp = time_or now msg.timestamp }

abbrev pub is_zero : ℤ → Bool
is_zero (pos zero) = true
is_zero (pos (suc n)) = false
is_zero (negsuc n) = false

module _ {S : Type 0} (do_command : Do S) where
  unfoldable pub get_history_from_redis :
      (Bytes → Map Bytes) → Relay → Bytes → ℕ → S → S × Result (List Message)
  get_history_from_redis decode relay id limit s =
      let (next, entries) =
        x_range do_command (stream_key relay id) (codes "-") (codes "+") (limit_or_default limit)
          s in
      (next, entries >>= λ found. ok (parse_each decode id found))

  unfoldable pub get_history_from_redis_reverse :
      (Bytes → Map Bytes) → Relay → Bytes → ℕ → S → S × Result (List Message)
  get_history_from_redis_reverse decode relay id limit s =
      let (next, entries) =
        x_rev_range do_command (stream_key relay id) (codes "+") (codes "-")
          (limit_or_default limit) s in
      (next, entries >>= λ found. ok (parse_each decode id found))

  unfoldable pub get_redis_history_length : Relay → Bytes → S → S × Result ℤ
  get_redis_history_length relay id s = x_len do_command (stream_key relay id) s

  -- With an error comes the answer true.
  unfoldable pub is_redis_history_empty : Relay → Bytes → S → S × Bool × Option Error
  is_redis_history_empty relay id s =
      let (next, answer) = get_redis_history_length relay id s in
      elim answer [ ok n ↦ (next, is_zero n, none) | err e ↦ (next, true, some e) ]

  -- The loop ends with the first error; the messages come back as it leaves them.
  unfoldable pub inject_history_to_redis :
      (Map Bytes → Bytes) → ℕ → Relay → Bytes → List Message → S → S × List Message × Option Error
  inject_history_to_redis encode now relay id [] s = (s, [], none)
  inject_history_to_redis encode now relay id (msg ∷ msgs) s =
      let ready = prepared now id msg in
      let (next, added) = publish_to_stream do_command encode relay id ready s in
      let (last, rest, error) = inject_history_to_redis encode now relay id msgs next in
      elim added [
        | ok new_id ↦ (last, ready ∷ rest, error)
        | err e ↦ (next, ready ∷ msgs, some (wrapped (codes "failed to inject message") e))
      ]

  unfoldable pub load_external_history :
      (Map Bytes → Bytes)
      → ℕ
      → Relay
      → Bytes
      → List Message
      → Subscriber
      → Option ExternalHistoryOptions
      → S
      → S × Ending
  load_external_history encode now relay id messages sub opts s =
      let options = history_options opts in
      let msgs = at_most options.limit messages in
      let (next, stamped, error) = inject_history_to_redis encode now relay id msgs s in
      let deliver = deliver_all (codes "failed to deliver message") sub in
      if options.inject_to_redis
      then elim error [
        | some e ↦ (next, stopped (wrapped (codes "failed to inject to Redis") e))
        | none ↦ (next, deliver (in_room id stamped))
      ]
      else (s, deliver (in_room id msgs))

  -- The messages, and how the deliveries end; where the stream cannot be read there are none.
  unfoldable pub load_history_with_fallback :
      (Map Bytes → Bytes)
      → (Bytes → Map Bytes)
      → ℕ
      → Relay
      → Bytes
      → List Message
      → Option Subscriber
      → ℕ
      → S
      → S × List Message × Ending
  load_history_with_fallback encode decode now relay id fallback sub limit s =
      let most = limit_or_default limit in
      let (asked, answer) = get_history_from_redis decode relay id most s in
      elim answer [
        | err e ↦ (asked, [], stopped (wrapped (codes "failed to get Redis history") e))
        | ok (msg ∷ msgs) ↦ (
          asked,
          msg ∷ msgs,
          deliver_to (codes "failed to deliver Redis message") sub (msg ∷ msgs),
        )
        | ok [] ↦
            let msgs = at_most most fallback in
            let (next, stamped, _) = inject_history_to_redis encode now relay id msgs asked in
            let (ready, ending) = deliver_fallback id sub stamped in (next, ready, ending)
      ]

  unfoldable pub clear_redis_history : Relay → Bytes → S → S × Result (Unit {0})
  clear_redis_history relay id s =
      let (next, response) = do_command (codes "DEL" ∷ stream_key relay id ∷ []) s in
      (next, response >>= λ reply. ok tt)

  unfoldable pub trim_redis_history : Relay → Bytes → ℤ → S → S × Result ℤ
  trim_redis_history relay id max_len s = x_trim do_command (stream_key relay id) max_len true s
