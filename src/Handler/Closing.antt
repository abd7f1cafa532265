-- ===== src/Handler/Closing.antt =====
-- `Close` in engine/handler.go, and the calls of a room that close the handler: the room calls it under
-- its lock, and it unsubscribes the user from the rooms of its subscriptions, each under its own lock.
use stream_relay.Prelude.{
  ℕ, ◌==◌, Bool, true, false, not, ◌&&◌, ◌||◌, Option, none, some, List, [], ◌∷◌, ◌++◌, Bytes,
  str_eq, if◌then◌else◌, keys,
}
use stream_relay.Protocol.{Error}
use stream_relay.Types.{Effect, closed, emitted, Subscriber, PresenceInfo}
use stream_relay.RedisRelay.{Relay, get_redis_room, redis_subscribe, redis_unsubscribe}
use stream_relay.Handler.{
  ClientHandler, Session, Act, transport_closed, relayed, Ended, ended, deadlocked,
}

-- The room whose lock the caller holds, if any.
abbrev pub Held : Type 0
Held = Option Bytes

abbrev pub holds : Held → Bytes → Bool
holds none channel = false
holds (some id) channel = str_eq id channel

-- The effects of a room, once the handler is closed: another `Close` of it returns at once.
unfoldable pub acts_of : ℕ → List Effect → List Act
acts_of conn [] = []
acts_of conn (closed c ∷ effects) =
    let acts = acts_of conn effects in if c == conn then acts else relayed (closed c) ∷ acts
acts_of conn (emitted event ∷ effects) = relayed (emitted event) ∷ acts_of conn effects

-- Whether one of the other connections that a room closes waits for a lock.
unfoldable pub blocked : (ℕ → Bool) → ℕ → List Effect → Bool
blocked waits conn [] = false
blocked waits conn (closed c ∷ effects) = not (c == conn) && waits c || blocked waits conn effects
blocked waits conn (emitted event ∷ effects) = blocked waits conn effects

-- Whether the other connection waits for the lock of the room, or for the one that the caller holds.
abbrev pub waits_for : (Bytes → ℕ → Bool) → Held → Bytes → ℕ → Bool
waits_for blocks none channel c = blocks channel c
waits_for blocks (some id) channel c = blocks channel c || blocks id c

-- Whether unsubscribing from a room in the loop of `Close` does not return.
unfoldable pub is_stuck : (Bytes → ℕ → Bool) → Held → ℕ → Bytes → List Effect → Bool
is_stuck blocks held conn channel effects =
    holds held channel || blocked (waits_for blocks held channel) conn effects

-- How a part of a call ends: with the relay and what happened; `none` is a deadlock.
abbrev pub Left : Type 0
Left = Option (Relay × List Act)

-- The loop of `Close` over the channels; a room that does not exist is passed over.
unfoldable pub leave_each : (Bytes → ℕ → Bool) → Held → ℕ → ℕ → Bytes → List Bytes → Relay → Left
leave_each blocks held now conn user [] relay = some (relay, [])
leave_each blocks held now conn user (channel ∷ channels) relay =
    elim (get_redis_room relay channel) [
      | none ↦ leave_each blocks held now conn user channels relay
      | some room ↦
          let (next, effects, _) = redis_unsubscribe now relay channel user in
          let rest = leave_each blocks held now conn user channels next in
          if is_stuck blocks held conn channel effects then none else elim rest [
            | none ↦ none
            | some (last, acts) ↦ some (last, acts_of conn effects ++ acts)
          ]
    ]

abbrev pub shut : ClientHandler → ClientHandler
shut h = record h { closed = true; ping_timer = false }

abbrev pub Shut : Type 0
Shut = Option (ClientHandler × Relay × List Act)

unfoldable pub close_handler : (Bytes → ℕ → Bool) → Held → ℕ → ClientHandler → Relay → Shut
close_handler blocks held now h relay =
    if h.closed
    then some (h, relay, [])
    else elim (leave_each blocks held now h.conn h.user_id (keys h.subscriptions) relay) [
      | none ↦ none
      | some (next, acts) ↦ some (shut h, next, acts ++ transport_closed ∷ [])
    ]

-- The effects of a call of room `channel`, which makes them under its lock: the `Close` of the handler
-- itself runs there.
unfoldable pub run_effects :
    (Bytes → ℕ → Bool) → Bytes → ℕ → ClientHandler → Relay → List Effect → Shut
run_effects blocks channel now h relay [] = some (h, relay, [])
run_effects blocks channel now h relay (closed c ∷ effects) =
    if c == h.conn
    then elim (close_handler blocks (some channel) now h relay) [
      | none ↦ none
      | some (next, left, acts) ↦ elim (run_effects blocks channel now next left effects) [
        | none ↦ none
        | some (last, end, more) ↦ some (last, end, acts ++ more)
      ]
    ]
    else if blocks channel c
    then none
    else elim (run_effects blocks channel now h relay effects) [
      | none ↦ none
      | some (last, end, acts) ↦ some (last, end, relayed (closed c) ∷ acts)
    ]
run_effects blocks channel now h relay (emitted event ∷ effects) =
    elim (run_effects blocks channel now h relay effects) [
      | none ↦ none
      | some (last, end, acts) ↦ some (last, end, relayed (emitted event) ∷ acts)
    ]

-- `relay.Unsubscribe` for the handler. What the room writes under its lock, and what a `Close` in it does
-- to other rooms, do not meet, so that the room may write first. The error of a room that is not found
-- is ignored.
unfoldable pub leave_room : (Bytes → ℕ → Bool) → ℕ → ClientHandler → Relay → Bytes → Shut
leave_room blocks now h relay channel =
    let (next, effects, _) = redis_unsubscribe now relay channel h.user_id in
    run_effects blocks channel now h next effects

-- `room.Subscribe` with the handler as the subscriber.
unfoldable pub join_room :
    (Bytes → ℕ → Bool) → ℕ → ClientHandler → Relay → Bytes → Subscriber → Option PresenceInfo → Shut
join_room blocks now h relay channel sub info =
    let (next, effects, _) = redis_subscribe now relay channel sub info in
    run_effects blocks channel now h next effects

-- `Close`, called from outside of any room.
unfoldable pub close : {S : Type 0} → (Bytes → ℕ → Bool) → ℕ → Option Error → Session S → Ended S
close blocks now close_error s = elim (close_handler blocks none now s.handler s.relay) [
  | none ↦ deadlocked
  | some (h, relay, acts) ↦
      ended (record s { handler = h; relay = relay }) acts
        (if s.handler.closed then none else close_error)
]
