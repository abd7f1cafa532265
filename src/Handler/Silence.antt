-- ===== src/Handler/Silence.antt =====
-- The parts of a call of the handler that reply nothing (engine/handler.go).
use stream_relay.Prelude.{
  keys, ℕ, ◌≡◌, refl, inl, inr, Bool, Bool-cases, none, some, Option-cases, List, [], ◌∷◌, ◌++◌,
  Bytes, arith, ◌==◌,
}
use stream_relay.Protocol.Messages.{Reply, Push}
use stream_relay.Types.{Effect, closed, emitted, Subscriber}
use stream_relay.RedisRelay.{Relay, get_redis_room, redis_unsubscribe}
use stream_relay.Handler.{ClientHandler, Act, replied, pushed, transport_closed, pushed_to, relayed}
use stream_relay.Handler.Closing.{
  Held, is_stuck, acts_of, leave_each, close_handler, run_effects, Left, Shut,
}
use stream_relay.Handler.Subscribing.{push_to_each}

-- The replies among what happened.
abbrev pub replies : List Act → List Reply
replies [] = []
replies (replied reply ∷ acts) = reply ∷ replies acts
replies (pushed push ∷ acts) = replies acts
replies (transport_closed ∷ acts) = replies acts
replies (pushed_to conn push ∷ acts) = replies acts
replies (relayed effect ∷ acts) = replies acts

pub replies-append : (xs ys : List Act) → replies (xs ++ ys) ≡ replies xs ++ replies ys
replies-append [] ys = refl
replies-append (replied reply ∷ xs) ys = rw (replies-append xs ys) refl
replies-append (pushed push ∷ xs) ys = replies-append xs ys
replies-append (transport_closed ∷ xs) ys = replies-append xs ys
replies-append (pushed_to conn push ∷ xs) ys = replies-append xs ys
replies-append (relayed effect ∷ xs) ys = replies-append xs ys

pub silent_append : (xs ys : List Act) → replies xs ≡ [] → replies ys ≡ [] → replies (xs ++ ys) ≡ []
silent_append xs ys x y = rw (replies-append xs ys, x, y) refl

replies-acts_of : (conn : ℕ) (effects : List Effect) → replies (acts_of conn effects) ≡ []
unfolding acts_of
replies-acts_of conn [] = refl
replies-acts_of conn (closed c ∷ effects) = let ih = replies-acts_of conn effects in ground arith
replies-acts_of conn (emitted event ∷ effects) = replies-acts_of conn effects

-- No reply is among what a part of a call did.
abbrev pub IsSilent : Left → Type 0
IsSilent none = Unit
IsSilent (some (relay, acts)) = replies acts ≡ []

abbrev pub ShutIsSilent : Shut → Type 0
ShutIsSilent none = Unit
ShutIsSilent (some (h, relay, acts)) = replies acts ≡ []

leave_each-IsSilent :
    (blocks : Bytes → ℕ → Bool) (held : Held) (now conn : ℕ) (user : Bytes) (channels : List Bytes)
    (relay : Relay)
    → IsSilent (leave_each blocks held now conn user channels relay)
unfolding leave_each
leave_each-IsSilent blocks held now conn user [] relay = refl
leave_each-IsSilent blocks held now conn user (c ∷ cs) relay =
    let skipped = leave_each-IsSilent blocks held now conn user cs relay in
    let next = (redis_unsubscribe now relay c user).0 in
    let effects = (redis_unsubscribe now relay c user).1 in
    let ih = leave_each-IsSilent blocks held now conn user cs next in
    let quiet = replies-acts_of conn effects in
    elim (Option-cases (get_redis_room relay c)) [
      | inl e ↦ rw (leave_each, e) skipped
      | inr (room, e) ↦ elim (Bool-cases (is_stuck blocks held conn c effects)) [
        | inl h ↦ rw (leave_each, e, h) tt
        | inr h ↦ elim (Option-cases (leave_each blocks held now conn user cs next)) [
          | inl stuck ↦ rw (leave_each, e, h, stuck) tt
          | inr ((last, acts), end) ↦
              let rest : replies acts ≡ [] = ground (arith, ih, end) in
              rw (leave_each, e, h, end) (silent_append (acts_of conn effects) acts quiet rest)
        ]
      ]
    ]

pub close_handler-IsSilent :
    (blocks : Bytes → ℕ → Bool) (held : Held) (now : ℕ) (h : ClientHandler) (relay : Relay)
    → ShutIsSilent (close_handler blocks held now h relay)
unfolding close_handler
close_handler-IsSilent blocks held now h relay = elim (Bool-cases h.closed) [
  | inl e ↦ rw (close_handler, e) refl
  | inr e ↦
      let ih = leave_each-IsSilent blocks held now h.conn h.user_id (keys h.subscriptions) relay in
      elim (Option-cases
        (leave_each blocks held now h.conn h.user_id (keys h.subscriptions) relay)) [
          | inl stuck ↦ rw (close_handler, e, stuck) tt
          | inr ((next, acts), end) ↦
              let rest : replies acts ≡ [] = ground (arith, ih, end) in
              rw (close_handler, e, end) (silent_append acts (transport_closed ∷ []) rest refl)
        ]
]

pub run_effects-IsSilent :
    (blocks : Bytes → ℕ → Bool) (channel : Bytes) (now : ℕ) (h : ClientHandler) (relay : Relay)
    (effects : List Effect)
    → ShutIsSilent (run_effects blocks channel now h relay effects)
unfolding run_effects
run_effects-IsSilent blocks channel now h relay [] = refl
run_effects-IsSilent blocks channel now h relay (emitted event ∷ effects) =
    let ih = run_effects-IsSilent blocks channel now h relay effects in
    elim (Option-cases (run_effects blocks channel now h relay effects)) [
      | inl stuck ↦ rw (run_effects, stuck) tt
      | inr ((last, end, acts), e) ↦
          let rest : replies acts ≡ [] = ground (arith, ih, e) in rw (run_effects, e) rest
    ]
run_effects-IsSilent blocks channel now h relay (closed c ∷ effects) =
    let ih = run_effects-IsSilent blocks channel now h relay effects in
    let shutting = close_handler-IsSilent blocks (some channel) now h relay in
    elim (Bool-cases (c == h.conn)) [
      | inr other ↦ elim (Bool-cases (blocks channel c)) [
        | inl waits ↦ rw (run_effects, other, waits) tt
        | inr free ↦ elim (Option-cases (run_effects blocks channel now h relay effects)) [
          | inl stuck ↦ rw (run_effects, other, free, stuck) tt
          | inr ((last, end, acts), e) ↦
              let rest : replies acts ≡ [] = ground (arith, ih, e) in
              rw (run_effects, other, free, e) rest
        ]
      ]
      | inl own ↦ elim (Option-cases (close_handler blocks (some channel) now h relay)) [
        | inl stuck ↦ rw (run_effects, own, stuck) tt
        | inr ((next, left, acts), e) ↦
            let first : replies acts ≡ [] = ground (arith, shutting, e) in
            let then = run_effects-IsSilent blocks channel now next left effects in
            elim (Option-cases (run_effects blocks channel now next left effects)) [
              | inl stuck ↦ rw (run_effects, own, e, stuck) tt
              | inr ((last, end, more), e') ↦
                  let rest : replies more ≡ [] = ground (arith, then, e') in
                  rw (run_effects, own, e, e') (silent_append acts more first rest)
            ]
      ]
    ]

pub replies-push_to_each :
    (is_handler : ℕ → Bool) (wanted : Subscriber → Bool) (push : Push) (subs : List Subscriber)
    → replies (push_to_each is_handler wanted push subs) ≡ []
unfolding push_to_each
replies-push_to_each is_handler wanted push [] = refl
replies-push_to_each is_handler wanted push (sub ∷ subs) =
    let ih = replies-push_to_each is_handler wanted push subs in ground arith
