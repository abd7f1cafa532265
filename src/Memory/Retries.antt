-- ===== src/Memory/Retries.antt =====
-- How a delivery of the memory relay ends, after up to three calls of `Receive`.
use native.Mathlib.Decide.{ℕ_discrete}
use stream_relay.Prelude.{
  ℕ, zero, suc, ◌+◌, ◌≤◌, ◌<◌, ◌≡◌, refl, sym, ap, ◌∙◌, Bool, true, false, Option, none, some,
  Bytes, arith, inl, inr,
}
use stream_relay.Protocol.{Error, delivery_panic}
use stream_relay.Types.{
  Outcome-cases, Message, Subscriber, received, refused, panicked, DeliveryResult, delivery_success,
  delivery_failed,
}
use stream_relay.Memory.Deliveries.{attempts, safe_deliver}

-- The calls of `Receive` from `from` up to before `to` all return an error.
abbrev pub AllRefuse : Subscriber → Message → ℕ → ℕ → Type 0
AllRefuse sub msg from to =
    (i : ℕ) → from ≤ i → i < to → (e : Error) × (sub.receive msg i ≡ refused e)

-- How the retry loop ends: with the first call that does not return an error, or with the error of
-- the last one.
pub data Delivery (user : Bytes) (sub : Subscriber) (msg : Message) (from to : ℕ)
    : DeliveryResult × Bool → Type 0 where
  succeeded :
      (n : ℕ)
      → from ≤ n
      → n < to
      → AllRefuse sub msg from n
      → sub.receive msg n ≡ received
      → Delivery user sub msg from to
          (record { user_id = user; status = delivery_success; error = none }, false)
  broke :
      (n : ℕ) (e : Error)
      → from ≤ n
      → n < to
      → AllRefuse sub msg from n
      → sub.receive msg n ≡ panicked e
      → Delivery user sub msg from to (
        record { user_id = user; status = delivery_failed; error = some (delivery_panic user e) },
        true,
      )
  gave_up :
      (n : ℕ) (e : Error)
      → from ≤ n
      → suc n ≡ to
      → AllRefuse sub msg from to
      → sub.receive msg n ≡ refused e
      → Delivery user sub msg from to
          (record { user_id = user; status = delivery_failed; error = some e }, false)

none_before : (sub : Subscriber) (msg : Message) (from : ℕ) → AllRefuse sub msg from from
none_before sub msg from = λ i low high. absurd (omega arith)

refuse_first :
    (sub : Subscriber) (msg : Message) (from to : ℕ) (e : Error)
    → sub.receive msg from ≡ refused e
    → AllRefuse sub msg (from + 1) to
    → AllRefuse sub msg from to
refuse_first sub msg from to e first later = λ i low high. elim (ℕ_discrete from i) [
  | yes same ↦ (e, ap (sub.receive msg) (sym same) ∙ first)
  | no differs ↦ later i (omega arith) high
]

refused_first :
    (user : Bytes) (sub : Subscriber) (msg : Message) (from to : ℕ) (e : Error)
    (r : DeliveryResult × Bool)
    → sub.receive msg from ≡ refused e
    → Delivery user sub msg (from + 1) to r
    → Delivery user sub msg from to r
refused_first user sub msg from to e r first (succeeded n low high all last) =
    succeeded n (omega arith) high (refuse_first sub msg from n e first all) last
refused_first user sub msg from to e r first (broke n p low high all last) =
    broke n p (omega arith) high (refuse_first sub msg from n e first all) last
refused_first user sub msg from to e r first (gave_up n p low end all last) =
    gave_up n p (omega arith) end (refuse_first sub msg from to e first all) last

-- A round of the loop, given what the rounds behind it do.
round-Delivery :
    (user : Bytes) (sub : Subscriber) (msg : Message) (left attempt to : ℕ)
    (last_err : Option Error)
    → attempt < to
    → ((p : Error)
        → sub.receive msg attempt ≡ refused p
        → Delivery user sub msg attempt to (attempts user sub msg left (attempt + 1) (some p)))
    → Delivery user sub msg attempt to (attempts user sub msg (suc left) attempt last_err)
unfolding attempts
round-Delivery user sub msg left attempt to last_err high later =
    let none_yet = none_before sub msg attempt in
    elim (Outcome-cases (sub.receive msg attempt)) [
      | inl e ↦ rw (attempts, e) (succeeded attempt (omega arith) high none_yet e)
      | inr (inl (p, e)) ↦ rw (attempts, e) (later p e)
      | inr (inr (p, e)) ↦ rw (attempts, e) (broke attempt p (omega arith) high none_yet e)
    ]

attempts-Delivery :
    (user : Bytes) (sub : Subscriber) (msg : Message) (left attempt to : ℕ)
    (last_err : Option Error)
    → attempt + suc left ≡ to
    → Delivery user sub msg attempt to (attempts user sub msg (suc left) attempt last_err)
unfolding attempts
attempts-Delivery user sub msg zero attempt to last_err end =
    round-Delivery user sub msg zero attempt to last_err (omega arith) (λ p e.
      gave_up attempt p (omega arith) (omega arith)
        (refuse_first sub msg attempt to p e (λ i low high. absurd (omega arith))) e)
attempts-Delivery user sub msg (suc left) attempt to last_err end =
    round-Delivery user sub msg (suc left) attempt to last_err (omega arith) (λ p e.
      refused_first user sub msg attempt to p
        (attempts user sub msg (suc left) (attempt + 1) (some p)) e
        (attempts-Delivery user sub msg left (attempt + 1) to (some p) (omega arith)))

-- A delivery calls `Receive` up to three times: it succeeds with the first call that returns no
-- error, it fails and unsubscribes the user with the first call that panics, if every call before
-- returned an error, and its error says that this user's delivery panicked and with what, and after three errors it fails with the last one.
pub safe_deliver-Delivery :
    (user : Bytes) (sub : Subscriber) (msg : Message)
    → Delivery user sub msg 0 3 (safe_deliver user sub msg)
unfolding safe_deliver
safe_deliver-Delivery user sub msg = attempts-Delivery user sub msg 2 0 3 none refl
