-- ===== src/Memory/Panics.antt =====
-- Whom a broadcast of the memory relay unsubscribes, because the delivery panicked.
use stream_relay.Prelude.{
  ℕ, ◌≡◌, refl, sym, subst, Bool, false, not, ◌&&◌, ◌||◌, Option, none, some, List, [], ◌∷◌, Bytes,
  Bytes-discrete, str_eq, arith, if◌then◌else◌, Map, lookup, Lacks, Distinct, lookup-delete,
  Option-cases, inl, inr,
}
use stream_relay.Types.{Message, Subscriber, PublishOptions}
use stream_relay.Memory.{MemoryRoom}
use stream_relay.Memory.Rooms.{unsubscribe}
use stream_relay.Memory.Deliveries.{safe_deliver, skips, panics, drop_panicked}

-- Whether the user is in the list.
abbrev pub is_in : Bytes → List Bytes → Bool
is_in user [] = false
is_in user (u ∷ us) = str_eq user u || is_in user us

lookup-unsubscribe :
    (handled : Bool) (now : ℕ) (room : MemoryRoom) (user other : Bytes)
    → lookup other (unsubscribe handled now room user).0.subscribers
      ≡ (if str_eq other user then none else lookup other room.subscribers)
unfolding unsubscribe
lookup-unsubscribe handled now room user other =
    let law = lookup-delete other user room.subscribers in ground arith

lookup-drop_panicked :
    (handled : Bool) (now : ℕ) (room : MemoryRoom) (users : List Bytes) (other : Bytes)
    → lookup other (drop_panicked handled now room users).0.subscribers
      ≡ (if is_in other users then none else lookup other room.subscribers)
unfolding drop_panicked
lookup-drop_panicked handled now room [] other = refl
lookup-drop_panicked handled now room (user ∷ users) other =
    let next = (unsubscribe handled now room user).0 in
    let ih = lookup-drop_panicked handled now next users other in
    let first = lookup-unsubscribe handled now room user other in ground arith

is_in-panics_absent :
    (opts : Option PublishOptions) (msg : Message) (user : Bytes) (subs : Map Subscriber)
    → Lacks user subs
    → is_in user (panics opts msg subs) ≡ false
unfolding panics
is_in-panics_absent opts msg user [] l = refl
is_in-panics_absent opts msg user ((u, s) ∷ rest) (differs, l) =
    let ih = is_in-panics_absent opts msg user rest l in ground arith

is_in-panics :
    (opts : Option PublishOptions) (msg : Message) (user : Bytes) (subs : Map Subscriber)
    → Distinct subs
    → is_in user (panics opts msg subs) ≡ (elim (lookup user subs) [
      | none ↦ false
      | some sub ↦ not (skips opts msg user) && (safe_deliver user sub msg).1
    ])
unfolding panics lookup
is_in-panics opts msg user [] d = refl
is_in-panics opts msg user ((u, s) ∷ rest) (l, d) =
    let ih = is_in-panics opts msg user rest d in
    elim (Bytes-discrete user u) [
      | yes same ↦
          let a = is_in-panics_absent opts msg user rest (subst (λ k. Lacks k rest) (sym same) l) in
          ground arith
      | no differs ↦ ground arith
    ]

-- Once the calls that the panics of a broadcast start have run, a user is subscribed who was, unless
-- the delivery to this user panicked.
pub drop_panicked_lem :
    (handled : Bool) (now : ℕ) (room : MemoryRoom) (msg : Message) (opts : Option PublishOptions)
    (user : Bytes)
    → Distinct room.subscribers
    → lookup user (drop_panicked handled now room (panics opts msg room.subscribers)).0.subscribers
      ≡ (elim (lookup user room.subscribers) [
        | none ↦ none
        | some sub ↦
            if not (skips opts msg user) && (safe_deliver user sub msg).1 then none else some sub
      ])
drop_panicked_lem handled now room msg opts user distinct =
    let dropped = lookup-drop_panicked handled now room (panics opts msg room.subscribers) user in
    let who = is_in-panics opts msg user room.subscribers distinct in
    elim (Option-cases (lookup user room.subscribers)) [
      | inl e ↦ ground arith
      | inr (sub, e) ↦ ground arith
    ]
