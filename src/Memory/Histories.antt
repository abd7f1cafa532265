-- ===== src/Memory/Histories.antt =====
-- The histories that the memory relay hands out, and the order of its identifiers.
use stream_relay.Prelude.{
  ℕ, ◌+◌, ◌-◌, ◌≤◌, ◌<◌, ◌≡◌, refl, sym, ◌∙◌, false, ◌&&◌, some, List, [], ◌++◌, Bytes, str_eq, ltb,
  ◌==◌, arith, if◌then◌else◌, length, take, take-append-drop, length-drop, length-append,
  Bool-cases, inl, inr,
}
use stream_relay.Protocol.{Result, ok, err, Result-cases}
use stream_relay.Types.{Message, RecoveryOptions}
use stream_relay.Decimal.{pos, int64_bound, int64_of}
use stream_relay.Decimal.Laws.{int64_of-InInt64}
use stream_relay.RingBuffer.{get_all, get_since}
use stream_relay.RingBuffer.Reads.{get_last_lem}
use stream_relay.Memory.{MemoryRoom, MemoryRelay}
use stream_relay.Memory.Rooms.{get_history}
use stream_relay.Memory.MessageIds.{less, compare_message_ids}
use stream_relay.Memory.MessageIds.Order.{compare_message_ids-generate_message_id_from_time}
use stream_relay.Memory.Relays.{next_seq, generate_message_id, get_room}
use stream_relay.Memory.Requests.{recover_messages, limited, prepended, get_history_with_fallback}

-- The list is the end of the other one, and no longer than the limit, where that is not 0.
abbrev pub EndsWithin : ℕ → List Message → List Message → Type 0
EndsWithin limit whole part =
    ((front : List Message) × (whole ≡ front ++ part)) × ((0 < limit) → length part ≤ limit)

limited-EndsWithin : (limit : ℕ) (msgs : List Message) → EndsWithin limit msgs (limited limit msgs)
unfolding limited
limited-EndsWithin limit msgs =
    let k = length msgs - limit in
    elim (Bool-cases (ltb 0 limit && ltb limit (length msgs))) [
      | inl e ↦
          rw (limited, e)
            ((
              (take k msgs, sym (take-append-drop k msgs)),
              λ positive. omega (arith, length-drop k msgs),
            ))
      | inr e ↦ rw (limited, e) ((([], refl), λ positive. ground arith))
    ]

-- What `RecoverMessages` returns is the end of what the history holds behind the message that was
-- asked for, or of all that it holds, and no longer than the limit.
pub recover_messages-EndsWithin :
    (relay : MemoryRelay) (id : Bytes) (room : MemoryRoom) (opts : RecoveryOptions)
    → get_room relay id ≡ some room
    → (msgs : List Message) × (recover_messages relay id (some opts) ≡ ok msgs)
      × EndsWithin opts.limit
          (if str_eq opts.from_id []
            then get_all room.history
            else get_since (λ (m : Message). m.id) room.history opts.from_id)
          msgs
unfolding recover_messages
recover_messages-EndsWithin relay id room opts e =
    let held =
      if str_eq opts.from_id []
      then get_all room.history
      else get_since (λ (m : Message). m.id) room.history opts.from_id in
    (limited opts.limit held, rw (recover_messages, e) refl, limited-EndsWithin opts.limit held)

length-get_history :
    (room : MemoryRoom) (limit : ℕ) → 0 < limit → length (get_history room limit) ≤ limit
unfolding get_history
length-get_history room limit h =
    let (bound, _) = get_last_lem room.history limit in
    let e : (limit == 0) ≡ false = ground arith in rw (get_history, e) (omega arith)

-- What the external storage returns is not longer than what it is asked for.
abbrev pub KeepsLimit : (Bytes → ℕ → Result (List Message)) → Type 0
KeepsLimit load =
    (id : Bytes) (limit : ℕ) (msgs : List Message) → load id limit ≡ ok msgs → length msgs ≤ limit

length-prepended :
    (load : Bytes → ℕ → Result (List Message)) (id : Bytes) (left : ℕ) (msgs : List Message)
    → KeepsLimit load
    → length (prepended (load id left) msgs) ≤ left + length msgs
length-prepended load id left msgs keeps = elim (Result-cases (load id left)) [
  | inl (external, e) ↦
      let bound = keeps id left external e in rw e (omega (arith, length-append external msgs))
  | inr (p, e) ↦ rw e (omega arith)
]

-- For a room that is there, a limit above 0 and a loader of external storage that returns no more than it
-- is asked for, the messages that the memory holds within the limit are the end of what
-- `GetHistoryWithFallback` returns, and the whole is no longer than the limit.
pub get_history_with_fallback_lem :
    (relay : MemoryRelay) (id : Bytes) (room : MemoryRoom) (limit : ℕ)
    (load : Bytes → ℕ → Result (List Message))
    → get_room relay id ≡ some room
    → 0 < limit
    → KeepsLimit load
    → (msgs : List Message) × (get_history_with_fallback relay id limit (some load) ≡ ok msgs)
      × ((external : List Message) × (msgs ≡ external ++ get_history room limit))
      × (length msgs ≤ limit)
unfolding get_history_with_fallback
get_history_with_fallback_lem relay id room limit load e positive keeps =
    let msgs = get_history room limit in
    let left = limit - length msgs in
    let short = length-get_history room limit positive in
    elim (Bool-cases (ltb (length msgs) limit)) [
      | inl f ↦
          let bound = length-prepended load id left msgs keeps in
          (
            prepended (load id left) msgs,
            rw (get_history_with_fallback, e, f) refl,
            in_front (load id left) msgs,
            ground arith,
          )
      | inr f ↦ (msgs, rw (get_history_with_fallback, e, f) refl, ([], refl), short)
    ]
  where
    in_front :
        (r : Result (List Message)) (msgs : List Message)
        → (external : List Message) × (prepended r msgs ≡ external ++ msgs)
    in_front (ok external) msgs = (external, refl)
    in_front (err p) msgs = ([], refl)

int64_of_small : (n : ℕ) → n < int64_bound → int64_of n ≡ pos n
unfolding int64_of
int64_of_small n h = ground arith

next_seq_small :
    (relay : MemoryRelay)
    → relay.message_seq + 1 < int64_bound
    → next_seq relay ≡ relay.message_seq + 1
unfolding next_seq
next_seq_small relay h = omega arith

-- Of two identifiers that a relay generates one after the other the first compares less, if the clock
-- did not go back in between, until the counter has run through the positive int64 values.
pub compare_message_ids-generate_message_id :
    (now later : ℕ) (relay : MemoryRelay)
    → now ≤ later
    → later < int64_bound
    → relay.message_seq + 2 < int64_bound
    → let (next, first) = generate_message_id now relay in
      compare_message_ids first (generate_message_id later next).1 ≡ less
unfolding generate_message_id next_seq
compare_message_ids-generate_message_id now later relay ordered small room_left =
    let a : next_seq relay ≡ relay.message_seq + 1 = next_seq_small relay (omega arith) in
    let next = record relay { message_seq = next_seq relay } in
    let b : next_seq next ≡ relay.message_seq + 2 = ground arith in
    let za = int64_of_small (next_seq relay) (omega arith) in
    let zb = int64_of_small (next_seq next) (omega arith) in
    compare_message_ids-generate_message_id_from_time (pos now) (int64_of (next_seq relay))
      (pos later) (int64_of (next_seq next)) (omega arith)
      (int64_of-InInt64 (next_seq relay) (omega arith)) small
      (int64_of-InInt64 (next_seq next) (omega arith))
    ∙ ground arith
