-- ===== src/Memory/Recovering.antt =====
-- What can be recovered from the memory relay after a message is published.
use native.Mathlib.Decide.{dec_lt}
use stream_relay.Prelude.{
  ℕ, suc, ◌-◌, ◌≤◌, ◌<◌, ◌⊎◌, append_assoc, length-append, drop-append, ◌≡◌, ◌≢◌, refl, sym, ap,
  ◌∙◌, Bool, true, false, Option, none, some, List, [], ◌∷◌, ◌++◌, Bytes, arith, length, drop, inl,
  inr, Bool-cases, ◌==◌, ltb, if◌then◌else◌,
}
use stream_relay.Protocol.{ok}
use stream_relay.Types.{Message, PublishOptions, RecoveryOptions}
use stream_relay.RingBuffer.{RingBuffer, add, get_all, get_since}
use stream_relay.RingBuffer.Window.{IsValid, held, last, somes}
use stream_relay.RingBuffer.Refine.{held-add, length-held}
use stream_relay.RingBuffer.Reads.{get_all-held, get_since_lem, NoneHas, asks_for_all}
use stream_relay.Memory.{MemoryRoom, MemoryRelay}
use stream_relay.Memory.Relays.{get_room, stamped, stored, publish}
use stream_relay.Memory.Requests.{recover_messages, limited}
use stream_relay.Memory.Publishing.{publish_lem}

get_all-add :
    (history : RingBuffer Message) (msg : Message)
    → IsValid history
    → get_all (add history (some msg)) ≡ somes (last history.size (held history ++ some msg ∷ []))
get_all-add history msg h =
    get_all-held (add history (some msg)) ∙ ap somes (held-add history (some msg) h)

somes-append : (xs ys : List (Option Message)) → somes (xs ++ ys) ≡ somes xs ++ somes ys
somes-append [] ys = refl
somes-append (none ∷ xs) ys = somes-append xs ys
somes-append (some x ∷ xs) ys = ap (◌∷◌ x) (somes-append xs ys)

tail_of : (m b : Message) (xs ys : List Message) → m ∷ xs ≡ b ∷ ys → xs ≡ ys
tail_of m b xs ys e = cc

-- Dropping the oldest pointer keeps what stands behind a message, if another one is in front of it.
drop_oldest :
    (slots : List (Option Message)) (b : Message) (before : List Message) (seen : Message)
    (after : List Message)
    → somes slots ≡ (b ∷ before) ++ seen ∷ after
    → NoneHas (λ (m : Message). m.id) seen.id (b ∷ before)
    → (front : List Message) × (somes (drop 1 slots) ≡ front ++ seen ∷ after)
      × NoneHas (λ (m : Message). m.id) seen.id front
drop_oldest [] b before seen after e h = absurd cc
drop_oldest (none ∷ xs) b before seen after e h = (b ∷ before, e, h)
drop_oldest (some x ∷ xs) b before seen after e h =
    (before, tail_of x b (somes xs) (before ++ seen ∷ after) e, h.1)

-- The history holds the message, with these messages behind it and none with its id in front.
abbrev pub SeenIn : RingBuffer Message → Message → List Message → Type 0
SeenIn history seen after =
    (front : List Message) × (get_all history ≡ front ++ seen ∷ after)
    × NoneHas (λ (m : Message). m.id) seen.id front

seen_after_drop :
    (history : RingBuffer Message) (front after : List Message) (seen msg : Message) (k : ℕ)
    → IsValid history
    → somes (drop k (held history)) ≡ front ++ seen ∷ after
    → NoneHas (λ (m : Message). m.id) seen.id front
    → k ≤ length (held history)
    → suc (length (held history)) - history.size ≡ k
    → SeenIn (add history (some msg)) seen (after ++ msg ∷ [])
seen_after_drop history front after seen msg k h have none_has low dropped =
    let slots = held history in
    let new = some msg ∷ [] in
    let e : length (slots ++ new) - history.size ≡ k = omega (arith, length-append slots new) in
    (
      front,
      get_all-add history msg h
          ∙ ap (λ j. somes (drop j (slots ++ new))) e
          ∙ ap somes (drop-append k slots new low)
          ∙ somes-append (drop k slots) new
          ∙ ap (λ xs. xs ++ msg ∷ []) have
          ∙ append_assoc front (seen ∷ after) (msg ∷ []),
      none_has,
    )

seen-add :
    (history : RingBuffer Message) (before after : List Message) (seen msg : Message)
    → IsValid history
    → get_all history ≡ before ++ seen ∷ after
    → NoneHas (λ (m : Message). m.id) seen.id before
    → (history.count < history.size) ⊎ (before ≢ [])
    → SeenIn (add history (some msg)) seen (after ++ msg ∷ [])
seen-add history before after seen msg h all none_has (inl room_left) =
    seen_after_drop history before after seen msg 0 h (sym (get_all-held history) ∙ all) none_has
      (omega arith) (omega (arith, length-held history))
seen-add history [] after seen msg h all none_has (inr nonempty) = absurd (nonempty refl)
seen-add history (b ∷ before) after seen msg h all none_has (inr nonempty) =
    let have = sym (get_all-held history) ∙ all in
    let slots = held history in
    let (front, later, absent) = drop_oldest slots b before seen after have none_has in
    let bound = h.count_in in
    let n = length-held history in
    elim (dec_lt history.count history.size) [
      | yes less ↦
          seen_after_drop history (b ∷ before) after seen msg 0 h have none_has (omega arith)
            (omega arith)
      | no full ↦
          seen_after_drop history front after seen msg 1 h later absent (omega (arith, h.positive))
            (omega arith)
    ]

-- Of the messages, the last ones within the limit.
limited_lem :
    (limit : ℕ) (msgs : List Message)
    → limited limit msgs ≡ (if limit == 0 then msgs else drop (length msgs - limit) msgs)
unfolding limited
limited_lem limit msgs = elim (Bool-cases (limit == 0)) [
  | inl all ↦
      let unlimited : ltb 0 limit ≡ false = ground (arith, all) in rw (limited, unlimited, all) refl
  | inr some_limit ↦ elim (Bool-cases (ltb limit (length msgs))) [
    | inl more ↦
        let positive : ltb 0 limit ≡ true = ground (arith, some_limit) in
        rw (limited, positive, more, some_limit) refl
    | inr fits ↦
        let nothing : length msgs - limit ≡ 0 = ground (arith, fits) in
        let positive : ltb 0 limit ≡ true = ground (arith, some_limit) in
        rw (limited, positive, fits, some_limit, nothing) refl
  ]
]

recover_messages_from :
    (relay : MemoryRelay) (id : Bytes) (room : MemoryRoom) (opts : RecoveryOptions)
    → get_room relay id ≡ some room
    → asks_for_all opts.from_id ≡ false
    → recover_messages relay id (some opts)
      ≡ ok (limited opts.limit (get_since (λ (m : Message). m.id) room.history opts.from_id))
unfolding recover_messages
recover_messages_from relay id room opts e asks = rw (recover_messages, e) (ground arith)

-- Where the history of a room is valid and holds a message, the first with its id, which is not empty, "0"
-- or "-": after one more message was published and stored, a subscriber that recovers from that id gets
-- the messages that were stored behind it, and the new one last, or as many of the last of these as the
-- limit of the recovery, if it has one; unless the history is full and the message is the oldest in it.
pub recover_messages-publish :
    (in_time : Bytes → Bool) (now : ℕ) (relay : MemoryRelay) (id : Bytes) (room : MemoryRoom)
    (msg : Message) (opts : PublishOptions) (recovery : RecoveryOptions)
    (before after : List Message) (seen : Message)
    → get_room relay id ≡ some room
    → IsValid room.history
    → opts.persist ≡ true
    → get_all room.history ≡ before ++ seen ∷ after
    → NoneHas (λ (m : Message). m.id) seen.id before
    → asks_for_all seen.id ≡ false
    → recovery.from_id ≡ seen.id
    → (room.history.count < room.history.size) ⊎ (before ≢ [])
    → let p = publish in_time now relay id msg (some opts) in
      let behind = after ++ p.message ∷ [] in
      recover_messages p.relay id (some recovery)
      ≡ ok (if recovery.limit == 0 then behind else drop (length behind - recovery.limit) behind)
unfolding stored
recover_messages-publish in_time now relay id room msg opts recovery before after seen e valid
      persist all none_has asks from room_left =
    let sent = stamped now relay id msg in
    let p = publish in_time now relay id msg (some opts) in
    let (_, same, _, at) = publish_lem in_time now relay id msg (some opts) id in
    let next = record room { history = add room.history (some sent) } in
    let there : get_room p.relay id ≡ some next = ground arith in
    let (front, holds, absent) =
      seen-add room.history before after seen sent valid all none_has room_left in
    let behind =
      (get_since_lem (λ (m : Message). m.id) seen.id next.history).2 asks front (after ++ sent ∷ [])
        seen holds absent refl in
    let sent_is : p.message ≡ sent = ground arith in
    let asked : asks_for_all recovery.from_id ≡ false = ap asks_for_all from ∙ asks in
    recover_messages_from p.relay id next recovery there asked
    ∙ ap
        (λ (i : Bytes).
          ok (limited recovery.limit (get_since (λ (m : Message). m.id) next.history i)))
        from
    ∙ ap (λ (ms : List Message). ok (limited recovery.limit ms))
        (behind ∙ ap (λ (m : Message). after ++ m ∷ []) (sym sent_is))
    ∙ ap ok (limited_lem recovery.limit (after ++ p.message ∷ []))
