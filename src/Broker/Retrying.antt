-- ===== src/Broker/Retrying.antt =====
-- The attempts of `Publish` of the broker in engine/broker.go.
use stream_relay.Prelude.{
  ℕ, zero, suc, ◌+◌, ◌-◌, ◌*◌, ◌<◌, ◌≡◌, refl, ap, ◌∙◌, ◌⊎◌, inl, inr, true, false, Option, none,
  some, List, [], ◌∷◌, ◌++◌, Bytes, codes, ltb, arith,
}
use stream_relay.Protocol.{Error, failure, ok, err, Result-cases}
use stream_relay.Resp.{Value}
use stream_relay.Streams.Commands.{Do}
use stream_relay.Broker.{NodeJson, RedisBroker, waits_after, try_each, publish}

-- So many waits, from that attempt on, each longer than the one before.
unfoldable pub waits_from : ℕ → ℕ → ℕ → List ℕ
waits_from delay attempt zero = []
waits_from delay attempt (suc n) = delay * (attempt + 1) ∷ waits_from delay (suc attempt) n

waits_after_early :
    (b : RedisBroker) (attempt : ℕ)
    → suc attempt < b.max_retries
    → waits_after b attempt ≡ b.retry_delay * (attempt + 1) ∷ []
waits_after_early b attempt early =
    let more : ltb attempt (b.max_retries - 1) ≡ true = ground (arith, early) in rw more refl

waits_after_last :
    (b : RedisBroker) (attempt : ℕ) → suc attempt ≡ b.max_retries → waits_after b attempt ≡ []
waits_after_last b attempt last =
    let done : ltb attempt (b.max_retries - 1) ≡ false = ground (arith, last) in rw done refl

-- There is no wait behind the last attempt.
last_waits :
    (b : RedisBroker) (left attempt : ℕ)
    → attempt + suc left ≡ b.max_retries
    → waits_after b attempt ++ waits_from b.retry_delay (suc attempt) (left - 1)
      ≡ waits_from b.retry_delay attempt (suc left - 1)
unfolding waits_from
last_waits b zero attempt sum = rw (waits_after_last b attempt (omega (arith, sum))) refl
last_waits b (suc left) attempt sum =
    let inner : suc left - 1 ≡ left = omega arith in
    let outer : suc (suc left) - 1 ≡ suc left = omega arith in
    rw (waits_after_early b attempt (omega (arith, sum)), inner, outer) refl

module _ {S : Type 0} (do_command : Do S) (args : List Bytes) where
  -- The server after so many attempts.
  unfoldable pub after_attempts : ℕ → S → S
  after_attempts zero s = s
  after_attempts (suc n) s = after_attempts n (do_command args s).0

  -- The server refuses so many attempts, one after the other.
  unfoldable pub AllRefused : ℕ → S → Type 0
  AllRefused zero s = Unit
  AllRefused (suc n) s =
      ((e : Error) × ((do_command args s).1 ≡ err e)) × AllRefused n (do_command args s).0

module _ {S : Type 0} (do_command : Do S) (b : RedisBroker) (args : List Bytes) where
  -- Of the attempts that are left, one is the first that the server takes, and the last that is made.
  abbrev pub Taken : ℕ → ℕ → S → S × List ℕ × Option Error → Type 0
  Taken left attempt s result =
      (k : ℕ) × (reply : Value) × (k < left)
      × AllRefused do_command args k s
      × ((do_command args (after_attempts do_command args k s)).1 ≡ ok reply)
      × (result
          ≡ (after_attempts do_command args (suc k) s, waits_from b.retry_delay attempt k, none))

  -- The server takes none of them.
  abbrev pub Exhausted : ℕ → ℕ → S → S × List ℕ × Option Error → Type 0
  Exhausted left attempt s result =
      (text : Bytes) × AllRefused do_command args left s
      × (result ≡ (
        after_attempts do_command args left s,
        waits_from b.retry_delay attempt (left - 1),
        some (failure text),
      ))

module _ {S : Type 0} (do_command : Do S) (cancelled : ℕ → Option Error) (b : RedisBroker)
    (args : List Bytes) (going : (attempt : ℕ) → cancelled attempt ≡ none) where
  try_each-cases :
      (left attempt : ℕ) (last : Option Error) (s : S)
      → attempt + left ≡ b.max_retries
      → Taken do_command b args left attempt s
          (try_each do_command cancelled b args left attempt last s)
        ⊎ Exhausted do_command b args left attempt s
            (try_each do_command cancelled b args left attempt last s)
  unfolding try_each after_attempts AllRefused waits_from
  try_each-cases zero attempt last s sum = inr (_, tt, refl)
  try_each-cases (suc left) attempt last s sum = elim (Result-cases (do_command args s).1) [
    | inl (reply, e) ↦ inl (0, reply, omega arith, tt, e, rw (try_each, e) refl)
    | inr (error, e) ↦
        let next = (do_command args s).0 in
        let rest = try_each do_command cancelled b args left (suc attempt) (some error) next in
        let step : try_each do_command cancelled b args (suc left) attempt last s
            ≡ (rest.0, waits_after b attempt ++ rest.1, rest.2) =
          rw (try_each, e, going attempt) refl in
        let whole : S × List ℕ × Option Error → S × List ℕ × Option Error =
          λ r. (r.0, waits_after b attempt ++ r.1, r.2) in
        elim (try_each-cases left (suc attempt) (some error) next (omega (arith, sum))) [
          | inl (k, reply, early, refused, taken, e') ↦
              let waits = waits_after_early b attempt (omega (arith, sum, early)) in
              inl (
                suc k,
                reply,
                omega (arith, early),
                ((error, e), refused),
                taken,
                step
                    ∙ ap whole e'
                    ∙ ap
                        (λ (w : List ℕ). (
                          after_attempts do_command args (suc k) next,
                          w ++ waits_from b.retry_delay (suc attempt) k,
                          none,
                        ))
                        waits,
              )
          | inr (text, refused, e') ↦ inr (
            text,
            ((error, e), refused),
            step
                ∙ ap whole e'
                ∙ ap
                    (λ (w : List ℕ).
                      (after_attempts do_command args left next, w, some (failure text)))
                    (last_waits b left attempt sum),
          )
        ]
  ]

-- `Publish` of a message whose envelope is encoded, while the context is not cancelled, makes one attempt
-- after the other: up to the first that the server takes, and then there is no error; or as many as the
-- broker may make, if the server takes none of them, and then there is one. Between two attempts it waits,
-- each time longer than before.
pub publish_attempts :
    {S : Type 0} (do_command : Do S) (cancelled : ℕ → Option Error) (b : RedisBroker)
    (json : NodeJson) (channel payload text : Bytes) (s : S)
    → ((attempt : ℕ) → cancelled attempt ≡ none)
    → json.encode_envelope (record { node_id = b.node_id; payload = payload }) ≡ ok text
    → let args = codes "PUBLISH" ∷ (b.prefix ++ channel) ∷ text ∷ [] in
      Taken do_command b args b.max_retries 0 s
        (publish do_command cancelled b json channel payload s)
      ⊎ Exhausted do_command b args b.max_retries 0 s
          (publish do_command cancelled b json channel payload s)
unfolding publish
publish_attempts do_command cancelled b json channel payload text s going encoded =
    rw (publish, encoded)
      (try_each-cases do_command cancelled b (codes "PUBLISH" ∷ (b.prefix ++ channel) ∷ text ∷ [])
        going b.max_retries 0 none s (omega arith))
