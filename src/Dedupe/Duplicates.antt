-- ===== src/Dedupe/Duplicates.antt =====
-- An id that was seen is a duplicate until it is out of date, or the cache has taken up as many others
-- as its size.
use stream_relay.Prelude.{
  ℕ, suc, ◌+◌, ◌-◌, ◌<◌, ◌≡◌, ◌≢◌, refl, sym, ap, ◌∙◌, subst, true, false, none, some, List, [],
  ◌∷◌, Bytes, ltb, arith, length, lookup, delete, lookup-delete, Option-cases, Bool-cases, inl, inr,
}
use stream_relay.Dedupe.{DedupeCache, remove_old, add_to_cache, is_duplicate}
use stream_relay.Dedupe.Agreement.{CacheIsValid}
use stream_relay.Dedupe.Keeping.{is_duplicate-IsValid}
use stream_relay.Dedupe.Removal.{same_fields, remove_old-Agrees}
use stream_relay.Dedupe.Recall.{Held, add-Held, added-Held, remove_old-Held}

is_duplicate-Held :
    (now : ℕ) (id other : Bytes) (d : DedupeCache) (ts k : ℕ)
    → CacheIsValid d
    → Held d id ts k
    → suc k < d.max_size
    → now - ts < d.ttl
    → Held (is_duplicate now d other).0 id ts (suc k)
unfolding is_duplicate
is_duplicate-Held now id other d ts k h held room_left young =
    let (cached, here, near) = held in
    let (_, _, size, _) = same_fields other d in
    elim (Option-cases (lookup other d.cache)) [
      | inl e ↦
          let differs : id ≢ other = λ s. absurd (ground arith) in
          rw (is_duplicate, e) (add-Held now id other d ts k differs held room_left)
      | inr (since, e) ↦ elim (Bool-cases (ltb (now - since) d.ttl)) [
        | inl seen ↦ rw (is_duplicate, e, seen) ((cached, here, omega arith))
        | inr expired ↦
            let differs : id ≢ other = λ s. absurd (ground arith) in
            rw (is_duplicate, e, expired)
              (add-Held now id other (remove_old other d) ts k differs
                (remove_old-Held id other d ts k h differs held) (omega arith))
      ]
    ]

same_limits :
    (now : ℕ) (d : DedupeCache) (id : Bytes)
    → ((is_duplicate now d id).0.max_size ≡ d.max_size) × ((is_duplicate now d id).0.ttl ≡ d.ttl)
unfolding is_duplicate add_to_cache
same_limits now d id =
    let (_, _, size, ttl) = same_fields id d in
    elim (Option-cases (lookup id d.cache)) [
      | inl e ↦ rw (is_duplicate, e) ((refl, refl))
      | inr (ts, e) ↦ elim (Bool-cases (ltb (now - ts) d.ttl)) [
        | inl seen ↦ rw (is_duplicate, e, seen) ((refl, refl))
        | inr expired ↦ rw (is_duplicate, e, expired) ((size, ttl))
      ]
    ]

-- The cache after calls of `IsDuplicate`, each at its time.
abbrev pub after_calls : DedupeCache → List (ℕ × Bytes) → DedupeCache
after_calls d [] = d
after_calls d ((now, id) ∷ calls) = after_calls (is_duplicate now d id).0 calls

-- Every call comes less than `ttl` after `since`.
abbrev pub Within : ℕ → ℕ → List (ℕ × Bytes) → Type 0
Within since ttl [] = Unit
Within since ttl ((now, id) ∷ calls) = (now - since < ttl) × Within since ttl calls

after_calls-Held :
    (d : DedupeCache) (id : Bytes) (ts k : ℕ) (calls : List (ℕ × Bytes))
    → CacheIsValid d
    → Held d id ts k
    → k + length calls < d.max_size
    → Within ts d.ttl calls
    → (lookup id (after_calls d calls).cache ≡ some ts) × ((after_calls d calls).ttl ≡ d.ttl)
after_calls-Held d id ts k [] h held room_left young = (held.0, refl)
after_calls-Held d id ts k ((now, other) ∷ calls) h held room_left (first, young) =
    let next = (is_duplicate now d other).0 in
    let (size, ttl) = same_limits now d other in
    let (cached, same) =
      after_calls-Held next id ts (suc k) calls (is_duplicate-IsValid now d other h)
        (is_duplicate-Held now id other d ts k h held (omega arith) first) (omega arith)
        (subst (λ t. Within ts t calls) (sym ttl) young) in
    (cached, same ∙ ttl)

-- What a call that reports no duplicate leaves behind.
first_call-Held :
    (now : ℕ) (d : DedupeCache) (id : Bytes)
    → CacheIsValid d
    → (is_duplicate now d id).1 ≡ false
    → Held (is_duplicate now d id).0 id now 0
unfolding is_duplicate
first_call-Held now d id h =
    let (_, _, size, _) = same_fields id d in
    let (order, _) = remove_old-Agrees id d h.agrees in
    let law = lookup-delete id id d.order in
    let gone : lookup id (delete id d.order) ≡ none = ground arith in
    let same = h.agrees.cached id in
    elim (Option-cases (lookup id d.cache)) [
      | inl e ↦
          let absent : lookup id d.order ≡ none = ground arith in
          rw (is_duplicate, e) (λ f. added-Held now id d absent h.positive)
      | inr (ts, e) ↦ elim (Bool-cases (ltb (now - ts) d.ttl)) [
        | inl seen ↦ rw (is_duplicate, e, seen) (λ f. absurd cc)
        | inr expired ↦
            rw (is_duplicate, e, expired)
              (λ f.
                added-Held now id (remove_old id d) (ap (lookup id) order ∙ gone)
                  (let p = h.positive in omega arith))
      ]
    ]

young_is_duplicate :
    (later : ℕ) (d : DedupeCache) (id : Bytes) (ts : ℕ)
    → lookup id d.cache ≡ some ts
    → later - ts < d.ttl
    → (is_duplicate later d id).1 ≡ true
unfolding is_duplicate
young_is_duplicate later d id ts e young =
    let seen : ltb (later - ts) d.ttl ≡ true = ground arith in rw (is_duplicate, e, seen) refl

-- After a call that reports no duplicate, the same id is a duplicate at any time before the cache's
-- duration has passed, whatever other ids were asked for in between, as long as these calls are fewer
-- than the size of the cache.
pub is_duplicate-after_calls :
    (d : DedupeCache) (now later : ℕ) (id : Bytes) (calls : List (ℕ × Bytes))
    → CacheIsValid d
    → (is_duplicate now d id).1 ≡ false
    → length calls < d.max_size
    → Within now d.ttl calls
    → later - now < d.ttl
    → (is_duplicate later (after_calls (is_duplicate now d id).0 calls) id).1 ≡ true
is_duplicate-after_calls d now later id calls h first room_left young in_time =
    let next = (is_duplicate now d id).0 in
    let (size, ttl) = same_limits now d id in
    let held = first_call-Held now d id h first in
    let (cached, same) =
      after_calls-Held next id now 0 calls (is_duplicate-IsValid now d id h) held (omega arith)
        (subst (λ t. Within now t calls) (sym ttl) young) in
    young_is_duplicate later (after_calls next calls) id now cached (omega arith)
