-- ===== src/Dedupe/Keeping.antt =====
-- The methods of the deduplication cache keep the list, the cache and the elements in agreement, and
-- within the size.
use stream_relay.Prelude.{
  ℕ, ◌-◌, ◌≤◌, ◌<◌, ◌≡◌, refl, sym, ap, ◌∙◌, subst, none, some, [], ◌∷◌, ◌++◌, Bytes, ltb, arith,
  length, Map, lookup, insert, delete, Lacks, lookup-delete, Lacks-of_lookup, delete_of_Lacks,
  length-delete, lookup-delete-some, Option-cases, Bool-cases, inl, inr,
}
use stream_relay.Dedupe.{
  DedupeCache, new_dedupe_cache, remove_old, add_to_cache, is_duplicate, clean_each, cleanup,
}
use stream_relay.Dedupe.Agreement.{Agrees, CacheIsValid, lookup-append, lookup_one, evict-Agrees}
use stream_relay.Dedupe.Removal.{snoc-Agrees, evict-some, remove_old-Agrees, same_fields}

-- Adding keeps the cache valid, if all but the new id agree.
pub add_to_cache-IsValid :
    (now : ℕ) (id : Bytes) (d : DedupeCache)
    → Agrees d.order (delete id d.cache) d.elements
    → Lacks id d.order
    → ((i : Bytes) (e : ℕ) → lookup i d.order ≡ some e → e < d.next_element)
    → 0 < d.max_size
    → CacheIsValid (add_to_cache now id d)
unfolding add_to_cache
add_to_cache-IsValid now id d h l unused positive =
    let e = d.next_element in
    let order = d.order ++ (id, e) ∷ [] in
    let cache = insert id now d.cache in
    let elements = insert id e d.elements in
    let all = snoc-Agrees id e now d.order d.cache d.elements h l unused in
    let (agrees, short) = evict-Agrees d.max_size order cache elements all in
    record {
      agrees = agrees;
      unused = λ i f a.
          let within = evict-some i f d.max_size order cache elements all.distinct a in
          let law = lookup-append i d.order ((id, e) ∷ []) in
          let one = lookup_one i id e in let below = unused i f in ground arith;
      bounded = short;
      positive = positive;
    }

-- An id that is in the cache for long, or not at all, is taken up anew.
pub renewed-IsValid :
    (now : ℕ) (id : Bytes) (d : DedupeCache)
    → CacheIsValid d
    → CacheIsValid (add_to_cache now id (remove_old id d))
renewed-IsValid now id d h =
    let old = remove_old id d in
    let (order, agrees) = remove_old-Agrees id d h.agrees in
    let (cache, next, size, _) = same_fields id d in
    let gone : lookup id old.order ≡ none =
      ap (lookup id) order ∙ (let law = lookup-delete id id d.order in ground arith) in
    add_to_cache-IsValid now id old
      (subst (λ c. Agrees old.order (delete id c) old.elements) (sym cache) agrees)
      (Lacks-of_lookup id old.order gone)
      (λ i e a.
        let there = lookup-delete-some i id e d.order (sym (ap (lookup i) order) ∙ a) in
        let below = h.unused i e there.1 in omega arith)
      (let p = h.positive in omega arith)

new-IsValid :
    (now : ℕ) (id : Bytes) (d : DedupeCache)
    → CacheIsValid d
    → lookup id d.cache ≡ none
    → CacheIsValid (add_to_cache now id d)
new-IsValid now id d h e =
    let cache : delete id d.cache ≡ d.cache =
      delete_of_Lacks id d.cache (Lacks-of_lookup id d.cache e) in
    let same = h.agrees.cached id in
    let absent : lookup id d.order ≡ none = ground arith in
    add_to_cache-IsValid now id d (subst (λ c. Agrees d.order c d.elements) (sym cache) h.agrees)
      (Lacks-of_lookup id d.order absent) h.unused h.positive

-- `IsDuplicate` keeps the list, the cache and the elements in agreement, and their number within the
-- size.
pub is_duplicate-IsValid :
    (now : ℕ) (d : DedupeCache) (id : Bytes)
    → CacheIsValid d
    → CacheIsValid (is_duplicate now d id).0
unfolding is_duplicate
is_duplicate-IsValid now d id h = elim (Option-cases (lookup id d.cache)) [
  | inl e ↦ rw (is_duplicate, e) (new-IsValid now id d h e)
  | inr (ts, e) ↦ elim (Bool-cases (ltb (now - ts) d.ttl)) [
    | inl seen ↦ rw (is_duplicate, e, seen) h
    | inr expired ↦ rw (is_duplicate, e, expired) (renewed-IsValid now id d h)
  ]
]

dropped-IsValid :
    (id : Bytes) (d : DedupeCache)
    → CacheIsValid d
    → CacheIsValid (record (remove_old id d) { cache = delete id d.cache })
dropped-IsValid id d h =
    let (order, agrees) = remove_old-Agrees id d h.agrees in
    let (_, next, size, _) = same_fields id d in
    let fewer = length-delete id d.order h.agrees.distinct in
    let bound = h.bounded in
    let left : length (delete id d.order) ≤ d.max_size = ground arith in
    let len = ap (λ (o : Map ℕ). length o) order in
    record {
      agrees = agrees;
      unused = λ i e a.
          let there = lookup-delete-some i id e d.order (sym (ap (lookup i) order) ∙ a) in
          let below = h.unused i e there.1 in omega arith;
      bounded = omega arith;
      positive = let p = h.positive in omega arith;
    }

clean_each-IsValid :
    (now : ℕ) (entries : Map ℕ) (d : DedupeCache)
    → CacheIsValid d
    → CacheIsValid (clean_each now entries d)
unfolding clean_each
clean_each-IsValid now [] d h = h
clean_each-IsValid now ((id, ts) ∷ rest) d h =
    let old = remove_old id d in
    elim (Bool-cases (ltb d.ttl (now - ts))) [
      | inl expired ↦ rw expired (
          clean_each-IsValid now rest (record old { cache = delete id d.cache })
            (dropped-IsValid id d h))
      | inr kept ↦ rw kept (clean_each-IsValid now rest d h)
    ]

pub new_dedupe_cache-IsValid : (max_size ttl : ℕ) → CacheIsValid (new_dedupe_cache max_size ttl)
unfolding new_dedupe_cache lookup
new_dedupe_cache-IsValid max_size ttl = record {
  agrees = record {
    distinct = tt;
    own_element = λ i j e a b. cc;
    listed = λ i. refl;
    cached = λ i. refl;
  };
  unused = λ i e a. absurd cc;
  bounded = omega arith;
  positive = ground arith;
}

-- A new cache is valid, and both methods keep it so.
pub DedupeCache-IsValid :
    (max_size ttl now : ℕ) (d : DedupeCache) (id : Bytes)
    → CacheIsValid d
    → CacheIsValid (new_dedupe_cache max_size ttl)
      × CacheIsValid (is_duplicate now d id).0
      × CacheIsValid (cleanup now d)
unfolding cleanup
DedupeCache-IsValid max_size ttl now d id h = (
  new_dedupe_cache-IsValid max_size ttl,
  is_duplicate-IsValid now d id h,
  clean_each-IsValid now d.cache d h,
)
