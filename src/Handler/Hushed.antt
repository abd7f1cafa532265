-- ===== src/Handler/Hushed.antt =====
-- What the parts of commands do besides their replies (engine/handler.go).
use stream_relay.Prelude.{
  if◌then◌else◌, ℕ, ◌≡◌, refl, inl, inr, Bool, true, false, Option, Option-cases, List, [], ◌∷◌,
  Bytes,
}
use stream_relay.Protocol.{Result, ok, err, Result-cases}
use stream_relay.Protocol.Messages.{Push}
use stream_relay.Types.{Effect, Subscriber, PresenceInfo}
use stream_relay.RedisRelay.{Relay, get_redis_room, redis_subscribe, redis_unsubscribe}
use stream_relay.Handler.{Surroundings, ClientHandler, Act}
use stream_relay.Handler.Closing.{leave_room, join_room}
use stream_relay.Handler.Subscribing.{push_if_encoded, broadcast_join, broadcast_leave}
use stream_relay.Handler.Requesting.{relayed_each}
use stream_relay.Handler.Silence.{replies, ShutIsSilent, run_effects-IsSilent, replies-push_to_each}

pub replies-relayed_each : (effects : List Effect) → replies (relayed_each effects) ≡ []
unfolding relayed_each
replies-relayed_each [] = refl
replies-relayed_each (effect ∷ effects) = replies-relayed_each effects

replies-push_if_encoded :
    (env : Surroundings) (wanted : Subscriber → Bool) (subs : List Subscriber) (made : Result Push)
    → replies (push_if_encoded env wanted subs made) ≡ []
replies-push_if_encoded env wanted subs (err e) = refl
replies-push_if_encoded env wanted subs (ok push) =
    elim (Result-cases (env.json.encode_push push)) [
      | inl (text, e) ↦
          rw (push_if_encoded, e) (replies-push_to_each env.is_handler wanted push subs)
      | inr (error, e) ↦ rw (push_if_encoded, e) refl
    ]

pub replies-broadcast_join :
    (env : Surroundings) (h : ClientHandler) (relay : Relay) (channel : Bytes)
    → replies (broadcast_join env h relay channel) ≡ []
unfolding broadcast_join
replies-broadcast_join env h relay channel = elim (Option-cases (get_redis_room relay channel)) [
  | inl e ↦ rw (broadcast_join, e) refl
  | inr (room, e) ↦ rw (broadcast_join, e) (replies-push_if_encoded env _ _ _)
]

pub replies-broadcast_leave :
    (env : Surroundings) (h : ClientHandler) (relay : Relay) (channel : Bytes)
    → replies (broadcast_leave env h relay channel) ≡ []
unfolding broadcast_leave
replies-broadcast_leave env h relay channel = elim (Option-cases (get_redis_room relay channel)) [
  | inl e ↦ rw (broadcast_leave, e) refl
  | inr (room, e) ↦ rw (broadcast_leave, e) (replies-push_if_encoded env _ _ _)
]

pub join_room-IsSilent :
    (blocks : Bytes → ℕ → Bool) (now : ℕ) (h : ClientHandler) (relay : Relay) (channel : Bytes)
    (sub : Subscriber) (info : Option PresenceInfo)
    → ShutIsSilent (join_room blocks now h relay channel sub info)
unfolding join_room
join_room-IsSilent blocks now h relay channel sub info =
    let (next, effects, _) = redis_subscribe now relay channel sub info in
    run_effects-IsSilent blocks channel now h next effects

pub leave_room-IsSilent :
    (blocks : Bytes → ℕ → Bool) (now : ℕ) (h : ClientHandler) (relay : Relay) (channel : Bytes)
    → ShutIsSilent (leave_room blocks now h relay channel)
unfolding leave_room
leave_room-IsSilent blocks now h relay channel =
    let (next, effects, _) = redis_unsubscribe now relay channel h.user_id in
    run_effects-IsSilent blocks channel now h next effects

pub replies-if :
    (c : Bool) (acts : List Act) → replies acts ≡ [] → replies (if c then acts else []) ≡ []
replies-if true acts quiet = quiet
replies-if false acts quiet = refl
