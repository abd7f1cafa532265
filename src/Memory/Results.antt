-- ===== src/Memory/Results.antt =====
-- What `Broadcast` of the memory relay reports, user by user, and whom it unsubscribes.
use stream_relay.Prelude.{
  ℕ, zero, suc, ◌+◌, ◌≡◌, refl, sym, ap₂, ◌∙◌, subst, Bool, true, false, Option, none, some, List,
  [], ◌∷◌, ◌++◌, Bytes, Bytes-discrete, str_eq, arith, if◌then◌else◌, replicate, Map, lookup, Lacks,
  Distinct, Lacks-of_lookup, Option-cases, inl, inr,
}
use stream_relay.Protocol.{Error, delivery_panic}
use stream_relay.Types.{
  Message, Subscriber, received, refused, panicked, DeliveryResult, delivery_success,
  delivery_failed, delivery_offline, PublishOptions,
}
use stream_relay.Memory.{MemoryRoom}
use stream_relay.Memory.Deliveries.{
  attempts, safe_deliver, skips, deliver_each, offline_each, broadcast,
}

-- The results for one user.
abbrev pub results_for : Bytes → List DeliveryResult → List DeliveryResult
results_for user [] = []
results_for user (r ∷ rs) =
    if str_eq user r.user_id then r ∷ results_for user rs else results_for user rs

abbrev pub times : Bytes → List Bytes → ℕ
times user [] = 0
times user (u ∷ us) = if str_eq user u then suc (times user us) else times user us

results_for-append :
    (user : Bytes) (rs qs : List DeliveryResult)
    → results_for user (rs ++ qs) ≡ results_for user rs ++ results_for user qs
results_for-append user [] qs = refl
results_for-append user (r ∷ rs) qs = ground (arith, results_for-append user rs qs)

user_id-attempts :
    (user : Bytes) (sub : Subscriber) (msg : Message) (left attempt : ℕ) (last_err : Option Error)
    → (attempts user sub msg left attempt last_err).0.user_id ≡ user
unfolding attempts
user_id-attempts user sub msg zero attempt last_err = refl
user_id-attempts user sub msg (suc left) attempt last_err =
    elim (sub.receive msg attempt)
      as (λ o.
        (elim o as (λ _. DeliveryResult × Bool) [
          | received ↦ (record { user_id = user; status = delivery_success; error = none }, false)
          | refused e ↦ attempts user sub msg left (attempt + 1) (some e)
          | panicked e ↦ (
            record {
              user_id = user;
              status = delivery_failed;
              error = some (delivery_panic user e);
            },
            true,
          )
        ]).0.user_id
        ≡ user) [
          | received ↦ refl
          | refused e ↦ user_id-attempts user sub msg left (attempt + 1) (some e)
          | panicked e ↦ refl
        ]

user_id-safe_deliver :
    (user : Bytes) (sub : Subscriber) (msg : Message) → (safe_deliver user sub msg).0.user_id ≡ user
unfolding safe_deliver
user_id-safe_deliver user sub msg = user_id-attempts user sub msg 3 0 none

module _ (in_time : Bytes → Bool) (opts : Option PublishOptions) (msg : Message)
    (user : Bytes) where
  deliver_each_absent :
      (subs : Map Subscriber)
      → Lacks user subs
      → results_for user (deliver_each in_time opts msg subs) ≡ []
  unfolding deliver_each
  deliver_each_absent [] l = refl
  deliver_each_absent ((u, s) ∷ rest) (differs, l) =
      let ih = deliver_each_absent rest l in let e = user_id-safe_deliver u s msg in ground arith

  deliver_each_present :
      (subs : Map Subscriber) (sub : Subscriber)
      → Distinct subs
      → lookup user subs ≡ some sub
      → results_for user (deliver_each in_time opts msg subs) ≡ (
          if skips opts msg user
          then []
          else if in_time user
          then (safe_deliver user sub msg).0 ∷ []
          else [])
  unfolding deliver_each lookup
  deliver_each_present [] sub d found = absurd cc
  deliver_each_present ((u, s) ∷ rest) sub (l, d) found =
      let own = user_id-safe_deliver u s msg in
      elim (Bytes-discrete user u) [
        | yes same ↦
            let a = deliver_each_absent rest (subst (λ k. Lacks k rest) (sym same) l) in
            ground arith
        | no differs ↦
            let ih : lookup user rest ≡ some sub → _ = deliver_each_present rest sub d in
            ground arith
      ]

  offline_each_present :
      (subs : Map Subscriber) (members : List Bytes) (sub : Subscriber)
      → lookup user subs ≡ some sub
      → results_for user (offline_each opts msg subs members) ≡ []
  unfolding offline_each
  offline_each_present subs [] sub found = refl
  offline_each_present subs (m ∷ rest) sub found =
      let ih = offline_each_present subs rest sub found in ground arith

  offline_each_absent :
      (subs : Map Subscriber) (members : List Bytes)
      → lookup user subs ≡ none
      → results_for user (offline_each opts msg subs members) ≡ (
          if skips opts msg user
          then []
          else replicate
              (times user members)
              (record { user_id = user; status = delivery_offline; error = none }))
  unfolding offline_each
  offline_each_absent subs [] missing = ground arith
  offline_each_absent subs (m ∷ rest) missing =
      let ih = offline_each_absent subs rest missing in
      elim (Bytes-discrete user m) [ yes same ↦ ground arith | no differs ↦ ground arith ]

-- For a subscriber, `Broadcast` reports exactly the outcome of its delivery, if that ends while the
-- broadcast waits; for anyone else an offline mark for each time that the user is a member; and
-- nothing for a sender who is skipped.
pub broadcast_lem :
    (in_time : Bytes → Bool) (room : MemoryRoom) (msg : Message) (opts : Option PublishOptions)
    (user : Bytes)
    → Distinct room.subscribers
    → results_for user (broadcast in_time room msg opts) ≡ (
        if skips opts msg user then [] else elim (lookup user room.subscribers) [
          | some sub ↦ if in_time user then (safe_deliver user sub msg).0 ∷ [] else []
          | none ↦
              replicate
                (times user room.config.members)
                (record { user_id = user; status = delivery_offline; error = none })
        ])
unfolding broadcast
broadcast_lem in_time room msg opts user distinct =
    let subs = room.subscribers in
    let members = room.config.members in
    let split =
      results_for-append user (deliver_each in_time opts msg subs)
        (offline_each opts msg subs members) in
    elim (Option-cases (lookup user subs)) [
      | inl e ↦
          let absent =
            deliver_each_absent in_time opts msg user subs (Lacks-of_lookup user subs e) in
          let offline = offline_each_absent in_time opts msg user subs members e in
          split ∙ ap₂ (λ xs ys. xs ++ ys) absent offline ∙ ground arith
      | inr (sub, e) ↦
          let present = deliver_each_present in_time opts msg user subs sub distinct e in
          let online = offline_each_present in_time opts msg user subs members sub e in
          split ∙ ap₂ (λ xs ys. xs ++ ys) present online ∙ ground arith
    ]
