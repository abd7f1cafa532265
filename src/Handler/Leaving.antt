-- ===== src/Handler/Leaving.antt =====
-- What closing a handler does to the rooms of its subscriptions (engine/handler.go).
use stream_relay.Prelude.{
  Map, ℕ, ◌≡◌, refl, ◌∙◌, ◌⊎◌, inl, inr, Bool, true, false, Bool-cases, Option, none, some,
  Option-cases, List, [], ◌∷◌, ◌++◌, Bytes, arith, ◌==◌, keys, lookup, insert, lookup-insert,
  lookup-delete, Bytes-discrete,
}
use stream_relay.Protocol.{Error}
use stream_relay.Types.{Effect, closed, emitted}
use stream_relay.Permissions.Bits.{Permission}
use stream_relay.RedisRoom
use stream_relay.RedisRoom.{Room}
use stream_relay.RedisRelay.{Relay, get_redis_room, redis_unsubscribe}
use stream_relay.Handler.{Session, Act, transport_closed, ended}
use stream_relay.Handler.Closing.{
  Held, holds, blocked, is_stuck, acts_of, leave_each, Left, close_handler, shut, close,
}

-- The user is in no room of that channel.
abbrev pub Gone : Bytes → Relay → Bytes → Type 0
Gone user relay channel =
    (get_redis_room relay channel ≡ none)
    ⊎ ((room : Room) × (get_redis_room relay channel ≡ some room)
        × (lookup user room.subscribers ≡ none))

lookup-unsubscribe :
    (handled : Bool) (now : ℕ) (room : Room) (user : Bytes)
    → lookup user (RedisRoom.unsubscribe handled now room user).0.subscribers ≡ none
unfolding RedisRoom.unsubscribe
lookup-unsubscribe handled now room user = elim (Option-cases (lookup user room.subscribers)) [
  | inl e ↦ rw (RedisRoom.unsubscribe, e) e
  | inr (sub, e) ↦
      let deleted = lookup-delete user user room.subscribers in
      rw (RedisRoom.unsubscribe, e) (ground (arith, deleted))
]

-- The user has left the room that was unsubscribed from.
redis_unsubscribe-Gone :
    (now : ℕ) (relay : Relay) (channel user : Bytes)
    → Gone user (redis_unsubscribe now relay channel user).0 channel
unfolding redis_unsubscribe get_redis_room
redis_unsubscribe-Gone now relay channel user = elim (Option-cases (lookup channel relay.rooms)) [
  | inl e ↦ rw (redis_unsubscribe, get_redis_room, e) (inl e)
  | inr (room, e) ↦
      let left = lookup-unsubscribe relay.handled now room user in
      let next = (RedisRoom.unsubscribe relay.handled now room user).0 in
      let found = lookup-insert channel channel next relay.rooms in
      rw (redis_unsubscribe, get_redis_room, e) (inr (next, ground (arith, found), left))
]

-- And who has left another room stays out of it.
redis_unsubscribe-Gone_other :
    (now : ℕ) (relay : Relay) (channel other user : Bytes)
    → Gone user relay other
    → Gone user (redis_unsubscribe now relay channel user).0 other
unfolding redis_unsubscribe get_redis_room
redis_unsubscribe-Gone_other now relay channel other user gone =
    elim (Option-cases (lookup channel relay.rooms)) [
      | inl e ↦ rw (redis_unsubscribe, get_redis_room, e) gone
      | inr (room, e) ↦
          let left = lookup-unsubscribe relay.handled now room user in
          let next = (RedisRoom.unsubscribe relay.handled now room user).0 in
          let found = lookup-insert other channel next relay.rooms in
          elim (Bytes-discrete channel other) [
            | yes same ↦
                rw (redis_unsubscribe, get_redis_room, e) (inr (next, ground (arith, found), left))
            | no differs ↦
                let kept : lookup other (insert channel next relay.rooms)
                    ≡ lookup other relay.rooms =
                  ground (arith, found) in
                rw (redis_unsubscribe, get_redis_room, e, kept) gone
          ]
    ]

-- Where no other connection waits for a lock, only the room whose lock is held is in the way.
pub is_stuck-holds :
    (blocks : Bytes → ℕ → Bool) (held : Held) (conn : ℕ) (channel : Bytes) (effects : List Effect)
    → ((id : Bytes) (c : ℕ) → blocks id c ≡ false)
    → is_stuck blocks held conn channel effects ≡ holds held channel
unfolding is_stuck blocked
is_stuck-holds blocks held conn channel [] free = elim (Bool-cases (holds held channel)) [
  | inl e ↦ rw e refl
  | inr e ↦ rw e refl
]
is_stuck-holds blocks held conn channel (emitted event ∷ effects) free =
    is_stuck-holds blocks held conn channel effects free
is_stuck-holds blocks none conn channel (closed c ∷ effects) free =
    let ih = is_stuck-holds blocks none conn channel effects free in
    let here = free channel c in
    elim (Bool-cases (c == conn)) [ inl e ↦ rw e ih | inr e ↦ rw (e, here) ih ]
is_stuck-holds blocks (some id) conn channel (closed c ∷ effects) free =
    let ih = is_stuck-holds blocks (some id) conn channel effects free in
    let here = free channel c in
    let there = free id c in
    elim (Bool-cases (c == conn)) [ inl e ↦ rw e ih | inr e ↦ rw (e, here, there) ih ]

-- None of the channels is that of the room whose lock is held.
abbrev pub NotHeld : Held → Map Permission → Type 0
NotHeld held [] = Unit
NotHeld held ((channel, perm) ∷ subs) = (holds held channel ≡ false) × NotHeld held subs

pub none-NotHeld : (subs : Map Permission) → NotHeld none subs
none-NotHeld [] = tt
none-NotHeld ((channel, perm) ∷ subs) = (refl, none-NotHeld subs)

pub lookup-NotHeld :
    (id : Bytes) (subs : Map Permission) → lookup id subs ≡ none → NotHeld (some id) subs
unfolding lookup
lookup-NotHeld id [] h = tt
lookup-NotHeld id ((channel, perm) ∷ subs) h = let ih = lookup-NotHeld id subs in ground arith

-- The user is in no room of these subscriptions.
unfoldable pub AllGone : Bytes → Map Permission → Relay → Type 0
AllGone user [] relay = Unit
AllGone user ((channel, perm) ∷ subs) relay = Gone user relay channel × AllGone user subs relay

-- What the loop of `Close` leaves: the user is in no room of the subscriptions, nor in one more than
-- before.
abbrev pub AllLeft : Bytes → Map Permission → Relay → Left → Type 0
AllLeft user subs relay result =
    (next : Relay) × (acts : List Act) × (result ≡ some (next, acts))
    × ((channel : Bytes) → Gone user relay channel → Gone user next channel)
    × AllGone user subs next

pub leave_each-AllLeft :
    (blocks : Bytes → ℕ → Bool) (held : Held) (now conn : ℕ) (user : Bytes) (subs : Map Permission)
    (relay : Relay)
    → ((id : Bytes) (c : ℕ) → blocks id c ≡ false)
    → NotHeld held subs
    → AllLeft user subs relay (leave_each blocks held now conn user (keys subs) relay)
unfolding leave_each AllGone
leave_each-AllLeft blocks held now conn user [] relay unblocked h =
    (relay, [], refl, λ channel gone. gone, tt)
leave_each-AllLeft blocks held now conn user ((c, p) ∷ subs) relay unblocked (free, h) =
    let (after, effects, _) = redis_unsubscribe now relay c user in
    elim (Option-cases (get_redis_room relay c)) [
      | inl e ↦
          let (next, acts, end, kept, left) =
            leave_each-AllLeft blocks held now conn user subs relay unblocked h in
          (next, acts, rw (leave_each, e) end, kept, (kept c (inl e), left))
      | inr (room, e) ↦
          let passes = is_stuck-holds blocks held conn c effects unblocked ∙ free in
          let (next, acts, end, kept, left) =
            leave_each-AllLeft blocks held now conn user subs after unblocked h in
          (
            next,
            acts_of conn effects ++ acts,
            rw (leave_each, e, passes, end) refl,
            λ channel gone.
                kept channel (redis_unsubscribe-Gone_other now relay c channel user gone),
            (kept c (redis_unsubscribe-Gone now relay c user), left),
          )
    ]

-- A handler that is not closed can be closed from outside of the rooms, if no other connection waits for
-- a lock: the call ends, the transport is closed last, and the user is out of the room of every
-- subscription.
pub close-Gone :
    {S : Type 0} (blocks : Bytes → ℕ → Bool) (now : ℕ) (close_error : Option Error) (s : Session S)
    → ((id : Bytes) (c : ℕ) → blocks id c ≡ false)
    → s.handler.closed ≡ false
    → (next : Session S) × (acts : List Act) × (close blocks now close_error s
        ≡ ended next (acts ++ transport_closed ∷ []) close_error)
      × (next.handler.closed ≡ true)
      × AllGone s.handler.user_id s.handler.subscriptions next.relay
unfolding close close_handler
close-Gone blocks now close_error s unblocked is_open =
    let h = s.handler in
    let (next, acts, end, kept, left) =
      leave_each-AllLeft blocks none now h.conn h.user_id h.subscriptions s.relay unblocked
        (none-NotHeld h.subscriptions) in
    (
      record s { handler = shut h; relay = next },
      acts,
      rw (close, close_handler, is_open, end) (simp is_open refl),
      refl,
      left,
    )
