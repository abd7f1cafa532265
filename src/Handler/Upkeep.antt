-- ===== src/Handler/Upkeep.antt =====
-- What every command of a client keeps of its handler (engine/handler.go).
use stream_relay.Prelude.{
  ℕ, ◌≡◌, ◌≢◌, refl, ap, subst, ◌∙◌, ◌⊎◌, inl, inr, Bool, true, false, Bool-cases, none, some,
  Option-cases, List, [], ◌∷◌, Bytes, arith, ◌==◌, Map, keys, Distinct, insert, delete,
  insert-Distinct, delete-Distinct,
}
use stream_relay.Protocol.Messages.{SubscribeRequest, ConnectRequest}
use stream_relay.Types.{Effect, closed, emitted}
use stream_relay.Permissions.Bits.{Permission}
use stream_relay.RedisRelay.{Relay}
use stream_relay.Handler.{ClientHandler}
use stream_relay.Handler.Closing.{Held, leave_each, close_handler, shut, run_effects, Shut}
use stream_relay.Handler.Connecting.{extract_user_from_token, start_ping_timer, connected_as}
use stream_relay.Handler.Subscribing.{with_subscription, without_subscription}

-- Each channel is subscribed once, and the two maps have the same channels; a client that has not
-- connected has no subscription, and one that has is somebody.
pub record IsWellFormed (h : ClientHandler) : Type 0 where
  pub once : Distinct h.subscriptions
  pub paired : keys h.chan_info ≡ keys h.subscriptions
  pub admitted : (h.connected ≡ true) ⊎ (h.subscriptions ≡ [])
  pub named : (h.connected ≡ false) ⊎ (h.user_id ≢ [])

-- The keys of a map with one more entry depend on its keys alone.
keys-insert :
    {V W : Type 0} (k : Bytes) (v : V) (w : W) (m : Map V) (n : Map W)
    → keys m ≡ keys n
    → keys (insert k v m) ≡ keys (insert k w n)
unfolding insert
keys-insert k v w [] [] e = refl
keys-insert k v w [] ((j, y) ∷ n) e = cc
keys-insert k v w ((i, x) ∷ m) [] e = cc
keys-insert k v w ((i, x) ∷ m) ((j, y) ∷ n) e =
    let same : i ≡ j = cc in
    let rest : keys m ≡ keys n = cc in let ih = keys-insert k v w m n rest in ground arith

keys-delete :
    {V W : Type 0} (k : Bytes) (m : Map V) (n : Map W)
    → keys m ≡ keys n
    → keys (delete k m) ≡ keys (delete k n)
unfolding delete
keys-delete k [] [] e = refl
keys-delete k [] ((j, y) ∷ n) e = cc
keys-delete k ((i, x) ∷ m) [] e = cc
keys-delete k ((i, x) ∷ m) ((j, y) ∷ n) e =
    let same : i ≡ j = cc in
    let rest : keys m ≡ keys n = cc in let ih = keys-delete k m n rest in ground arith

pub with_subscription-IsWellFormed :
    (channel : Bytes) (perm : Permission) (req : SubscribeRequest) (h : ClientHandler)
    → h.connected ≡ true
    → IsWellFormed h
    → IsWellFormed (with_subscription channel perm req h)
with_subscription-IsWellFormed channel perm req h is_in v = record {
  once = insert-Distinct channel perm h.subscriptions v.once;
  paired = keys-insert channel req.payload perm h.chan_info h.subscriptions v.paired;
  admitted = inl is_in;
  named = v.named;
}

pub without_subscription-IsWellFormed :
    (channel : Bytes) (h : ClientHandler)
    → IsWellFormed h
    → IsWellFormed (without_subscription channel h)
unfolding delete
without_subscription-IsWellFormed channel h v = record {
  once = delete-Distinct channel h.subscriptions v.once;
  paired = keys-delete channel h.chan_info h.subscriptions v.paired;
  admitted = elim v.admitted [ inl e ↦ inl e | inr e ↦ inr (rw e refl) ];
  named = v.named;
}

pub shut-IsWellFormed : (h : ClientHandler) → IsWellFormed h → IsWellFormed (shut h)
shut-IsWellFormed h v = record {
  once = v.once;
  paired = v.paired;
  admitted = v.admitted;
  named = v.named;
}

-- Closing does nothing to a handler, or shuts it.
abbrev pub SameOrShut : ClientHandler → ClientHandler → Type 0
SameOrShut h after = (after ≡ h) ⊎ (after ≡ shut h)

abbrev pub ShutOf : ClientHandler → Shut → Type 0
ShutOf h none = Unit
ShutOf h (some (after, relay, acts)) = SameOrShut h after

SameOrShut-SameOrShut : (a b c : ClientHandler) → SameOrShut a b → SameOrShut b c → SameOrShut a c
SameOrShut-SameOrShut a b c (inl e) (inl e') = inl (e' ∙ e)
SameOrShut-SameOrShut a b c (inl e) (inr e') = inr (e' ∙ ap shut e)
SameOrShut-SameOrShut a b c (inr e) (inl e') = inr (e' ∙ e)
SameOrShut-SameOrShut a b c (inr e) (inr e') = inr (e' ∙ ap shut e)

pub close_handler-ShutOf :
    (blocks : Bytes → ℕ → Bool) (held : Held) (now : ℕ) (h : ClientHandler) (relay : Relay)
    → ShutOf h (close_handler blocks held now h relay)
unfolding close_handler
close_handler-ShutOf blocks held now h relay = elim (Bool-cases h.closed) [
  | inl e ↦ rw (close_handler, e) (inl refl)
  | inr e ↦
      elim (Option-cases
        (leave_each blocks held now h.conn h.user_id (keys h.subscriptions) relay)) [
          | inl stuck ↦ rw (close_handler, e, stuck) tt
          | inr (left, e') ↦ rw (close_handler, e, e') (inr refl)
        ]
]

pub run_effects-ShutOf :
    (blocks : Bytes → ℕ → Bool) (channel : Bytes) (now : ℕ) (h : ClientHandler) (relay : Relay)
    (effects : List Effect)
    → ShutOf h (run_effects blocks channel now h relay effects)
unfolding run_effects
run_effects-ShutOf blocks channel now h relay [] = inl refl
run_effects-ShutOf blocks channel now h relay (emitted event ∷ effects) =
    let ih = run_effects-ShutOf blocks channel now h relay effects in
    elim (Option-cases (run_effects blocks channel now h relay effects)) [
      | inl stuck ↦ rw (run_effects, stuck) tt
      | inr (r, e) ↦ rw (run_effects, e) (subst (ShutOf h) e ih)
    ]
run_effects-ShutOf blocks channel now h relay (closed c ∷ effects) =
    let ih = run_effects-ShutOf blocks channel now h relay effects in
    let first = close_handler-ShutOf blocks (some channel) now h relay in
    elim (Bool-cases (c == h.conn)) [
      | inr other ↦ elim (Bool-cases (blocks channel c)) [
        | inl waits ↦ rw (run_effects, other, waits) tt
        | inr free ↦ elim (Option-cases (run_effects blocks channel now h relay effects)) [
          | inl stuck ↦ rw (run_effects, other, free, stuck) tt
          | inr (r, e) ↦ rw (run_effects, other, free, e) (subst (ShutOf h) e ih)
        ]
      ]
      | inl own ↦ elim (Option-cases (close_handler blocks (some channel) now h relay)) [
        | inl stuck ↦ rw (run_effects, own, stuck) tt
        | inr ((next, left, acts), e) ↦
            let rest = run_effects-ShutOf blocks channel now next left effects in
            elim (Option-cases (run_effects blocks channel now next left effects)) [
              | inl stuck ↦ rw (run_effects, own, e, stuck) tt
              | inr ((last, end, more), e') ↦
                  rw (run_effects, own, e, e')
                    (SameOrShut-SameOrShut h next last (subst (ShutOf h) e first)
                      (subst (ShutOf next) e' rest))
            ]
      ]
    ]

-- What a handler keeps when it is shut.
pub SameOrShut-IsWellFormed :
    (h after : ClientHandler)
    → SameOrShut h after
    → IsWellFormed h
    → IsWellFormed after × (after.connected ≡ h.connected)
SameOrShut-IsWellFormed h after (inl e) v = rw e (v, refl)
SameOrShut-IsWellFormed h after (inr e) v = rw e (shut-IsWellFormed h v, refl)

extract_named : (token : Bytes) → extract_user_from_token token ≢ []
unfolding extract_user_from_token
extract_named [] = λ e. absurd (ground (arith, e))
extract_named (c ∷ cs) = λ e. absurd (ground (arith, e))

pub connected_as-IsWellFormed :
    (now : ℕ) (req : ConnectRequest) (h : ClientHandler)
    → IsWellFormed h
    → IsWellFormed (start_ping_timer (connected_as now (extract_user_from_token req.token) req h))
unfolding start_ping_timer
connected_as-IsWellFormed now req h v = elim (Bool-cases (h.ping_interval == 0)) [
  | inl e ↦
      rw (start_ping_timer, e)
        (record {
          once = v.once;
          paired = v.paired;
          admitted = inl refl;
          named = inr (extract_named req.token);
        })
  | inr e ↦
      rw (start_ping_timer, e)
        (record {
          once = v.once;
          paired = v.paired;
          admitted = inl refl;
          named = inr (extract_named req.token);
        })
]
