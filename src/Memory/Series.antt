-- ===== src/Memory/Series.antt =====
-- What the history of a room of the memory relay hands out after a series of calls of `Publish`.
use stream_relay.Prelude.{
  ℕ, ◌-◌, ◌==◌, ◌≡◌, ◌≢◌, refl, sym, ap, ◌∙◌, ◌⊎◌, inl, inr, Bool, Bool-cases, ◌&&◌, Option, some,
  Option-cases, List, [], ◌∷◌, ◌++◌, Bytes, str_eq, arith, if◌then◌else◌, length, drop,
}
use stream_relay.Types.{Message, PublishOptions}
use stream_relay.RingBuffer.{RingBuffer, add, get_all}
use stream_relay.RingBuffer.Window.{IsValid, held, last, somes}
use stream_relay.RingBuffer.Refine.{length-held}
use stream_relay.RingBuffer.Reads.{get_all-held, add_each, held-add_each, get_last-drop}
use stream_relay.Memory.{MemoryRoom, MemoryRelay}
use stream_relay.Memory.Rooms.{get_history}
use stream_relay.Memory.Relays.{
  get_room, options_or_default, timestamp_or, stamped, stored, publish,
}
use stream_relay.Memory.Publishing.{publish_lem}

-- A call of `Publish`, with the clock that it reads.
pub record Posting : Type 0 where
  pub now : ℕ
  pub room : Bytes
  pub message : Message
  pub options : Option PublishOptions

abbrev pub post : (Bytes → Bool) → MemoryRelay → Posting → MemoryRelay × Message
post in_time relay c =
    let p = publish in_time c.now relay c.room c.message c.options in (p.relay, p.message)

-- The relay after these calls, and the messages as the calls leave them.
abbrev pub publish_each : (Bytes → Bool) → MemoryRelay → List Posting → MemoryRelay × List Message
publish_each in_time relay [] = (relay, [])
publish_each in_time relay (c ∷ cs) =
    let (next, message) = post in_time relay c in
    let (end, messages) = publish_each in_time next cs in (end, message ∷ messages)

-- The messages of the calls that publish to this room and ask for keeping.
abbrev pub kept_one : Bytes → Posting → Message → List (Option Message)
kept_one id c m =
    if str_eq id c.room && (options_or_default c.options).persist then some m ∷ [] else []

abbrev pub kept_for : Bytes → List Posting → List Message → List (Option Message)
kept_for id (c ∷ cs) (m ∷ ms) = kept_one id c m ++ kept_for id cs ms
kept_for id _ _ = []

-- A message that was published to this room is the one of the call, but for its id, with the room, and with
-- the time of the call if it had none.
abbrev pub IsSent : Bytes → Posting → Message → Type 0
IsSent id c m =
    (c.room ≢ id)
    ⊎ (m ≡ record c.message {
      id = m.id;
      room_id = id;
      timestamp = timestamp_or c.now c.message.timestamp;
    })

abbrev pub AllSent : Bytes → List Posting → List Message → Type 0
AllSent id (c ∷ cs) (m ∷ ms) = IsSent id c m × AllSent id cs ms
AllSent id _ _ = Unit

add_each-append :
    (rb : RingBuffer Message) (xs ys : List (Option Message))
    → add_each rb (xs ++ ys) ≡ add_each (add_each rb xs) ys
add_each-append rb [] ys = refl
add_each-append rb (x ∷ xs) ys = add_each-append (add rb x) xs ys

-- A call keeps the room, and adds its message to the history if that is asked for there.
post_lem :
    (in_time : Bytes → Bool) (relay : MemoryRelay) (id : Bytes) (room : MemoryRoom) (c : Posting)
    → get_room relay id ≡ some room
    → let (after, message) = post in_time relay c in
      (next : MemoryRoom) × (get_room after id ≡ some next)
      × (next.history ≡ add_each room.history (kept_one id c message))
      × IsSent id c message
unfolding stored stamped
post_lem in_time relay id room c e =
    let options = options_or_default c.options in
    let sent = stamped c.now relay c.room c.message in
    let (_, same, _, at) = publish_lem in_time c.now relay c.room c.message c.options id in
    elim (Bool-cases (str_eq id c.room)) [
      | inr other ↦
          let elsewhere : c.room ≢ id = λ bad. absurd (ground (arith, other, bad)) in
          let kept : get_room (post in_time relay c).0 id ≡ some room =
            elim (Option-cases (get_room relay c.room)) [
              | inl missing ↦ at ∙ rw missing e
              | inr (found, has) ↦ at ∙ rw (has, other) e
            ] in
          (room, kept, rw other refl, inl elsewhere)
      | inl here ↦
          let to : c.room ≡ id = ground (arith, here) in
          let there : get_room relay c.room ≡ some room = ap (get_room relay) to ∙ e in
          let message : (post in_time relay c).1 ≡ sent = same ∙ rw there refl in
          let placed : get_room (post in_time relay c).0 id ≡ some (stored options sent room) =
            at ∙ rw (there, here) refl in
          let is_sent : IsSent id c (post in_time relay c).1 = inr (
            message
            ∙ ap
                (λ (i : Bytes). record c.message {
                  id = i;
                  room_id = c.room;
                  timestamp = timestamp_or c.now c.message.timestamp;
                })
                (sym (ap (λ (m : Message). m.id) message))
            ∙ ap
                (λ (r : Bytes). record c.message {
                  id = (post in_time relay c).1.id;
                  room_id = r;
                  timestamp = timestamp_or c.now c.message.timestamp;
                })
                to) in
          elim (Bool-cases options.persist) [
            | inl keeps ↦ (
              record room { history = add room.history (some sent) },
              placed ∙ rw keeps refl,
              rw (here, keeps) (ap (λ (m : Message). add room.history (some m)) (sym message)),
              is_sent,
            )
            | inr drops ↦ (room, placed ∙ rw drops refl, rw (here, drops) refl, is_sent)
          ]
    ]

publish_each_lem :
    (in_time : Bytes → Bool) (relay : MemoryRelay) (id : Bytes) (room : MemoryRoom)
    (calls : List Posting)
    → get_room relay id ≡ some room
    → let (end, messages) = publish_each in_time relay calls in
      (next : MemoryRoom) × (get_room end id ≡ some next)
      × (next.history ≡ add_each room.history (kept_for id calls messages))
      × AllSent id calls messages
publish_each_lem in_time relay id room [] e = (room, e, refl, tt)
publish_each_lem in_time relay id room (c ∷ cs) e =
    let (middle, there, added, is_sent) = post_lem in_time relay id room c e in
    let (next, found, rest, all) =
      publish_each_lem in_time (post in_time relay c).0 id middle cs there in
    let m = (post in_time relay c).1 in
    let later = kept_for id cs (publish_each in_time (post in_time relay c).0 cs).1 in
    (
      next,
      found,
      rest
          ∙ ap (λ (rb : RingBuffer Message). add_each rb later) added
          ∙ sym (add_each-append room.history (kept_one id c m) later),
      (is_sent, all),
    )

held_whole : (rb : RingBuffer Message) → IsValid rb → held rb ≡ last rb.size (held rb)
held_whole rb valid =
    let long = length-held rb in
    let fits = valid.count_in in
    let nothing : 0 ≡ length (held rb) - rb.size = omega (arith, long, fits) in
    ap (λ (k : ℕ). drop k (held rb)) nothing

-- The last messages of a list within a limit, where 0 is none.
abbrev pub last_within : ℕ → List Message → List Message
last_within limit msgs = if limit == 0 then msgs else drop (length msgs - limit) msgs

-- After any calls of `Publish`, to a room that had a valid history and to others, which may be missing,
-- `GetHistory` of the room returns what the history held and then the messages that were published to this
-- room to be kept, in their order: of these the last, as many as the size of the history, less the nil
-- pointers that it held, and of those the last within the limit, where 0 is none. Each message that was
-- published to the room is the one that was given, but for its id, with the room, and with the clock's time
-- if it had none.
pub get_history-publish_each :
    (in_time : Bytes → Bool) (relay : MemoryRelay) (id : Bytes) (room : MemoryRoom)
    (calls : List Posting) (limit : ℕ)
    → get_room relay id ≡ some room
    → IsValid room.history
    → let (end, messages) = publish_each in_time relay calls in
      AllSent id calls messages
      × (next : MemoryRoom) × (get_room end id ≡ some next)
      × (get_history next limit
          ≡ last_within limit
              (somes (last room.history.size (held room.history ++ kept_for id calls messages))))
unfolding get_history
get_history-publish_each in_time relay id room calls limit e valid =
    let (next, found, added, all) = publish_each_lem in_time relay id room calls e in
    let kept = kept_for id calls (publish_each in_time relay calls).1 in
    let (_, holds) =
      held-add_each room.history (held room.history) kept valid (held_whole room.history valid) in
    let whole : get_all next.history ≡ somes (last room.history.size (held room.history ++ kept)) =
      ap get_all added ∙ get_all-held (add_each room.history kept) ∙ ap somes holds in
    (
      all,
      next,
      found,
      elim (Bool-cases (limit == 0)) [
        | inl unlimited ↦ rw (get_history, unlimited) whole
        | inr limited ↦
            rw (get_history, limited)
              (get_last-drop next.history limit
                ∙ ap (λ (ms : List Message). drop (length ms - limit) ms) whole)
      ],
    )
