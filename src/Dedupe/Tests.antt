-- ===== src/Dedupe/Tests.antt =====
-- Runs of the deduplication cache, and its theorems at inputs that meet their hypotheses.
use stream_relay.Prelude.{
  ◌≡◌, refl, true, false, [], ◌∷◌, arith, codes, Bytes-discrete, lookup, insert, delete,
}
use stream_relay.Dedupe.{
  DedupeCache, new_dedupe_cache, remove_element, remove_old, evict, add_to_cache, is_duplicate,
  clean_each, cleanup,
}
use stream_relay.Dedupe.Agreement.{CacheIsValid}
use stream_relay.Dedupe.Keeping.{DedupeCache-IsValid}
use stream_relay.Dedupe.Duplicates.{after_calls, is_duplicate-after_calls}

program : Unit {0}
unfolding new_dedupe_cache remove_element remove_old evict add_to_cache is_duplicate clean_each
    cleanup lookup insert delete Bytes-discrete
program = tt

-- Two ids at most, for ten milliseconds.
abbrev small : DedupeCache
small = record { cache = []; order = []; elements = []; next_element = 0; max_size = 2; ttl = 10 }

small_made : new_dedupe_cache 2 10 ≡ small
unfolding program
small_made = refl

small-IsValid : CacheIsValid small
unfolding lookup
small-IsValid = record {
  agrees = record {
    distinct = tt;
    own_element = λ i j e a b. cc;
    listed = λ i. refl;
    cached = λ i. refl;
  };
  unused = λ i e a. absurd cc;
  bounded = omega arith;
  positive = omega arith;
}

-- The third id takes the place of the first.
forgotten :
    let full = after_calls small ((1, codes "a") ∷ (2, codes "b") ∷ (3, codes "c") ∷ []) in
    ((is_duplicate 4 full (codes "a")).1 ≡ false) × ((is_duplicate 4 full (codes "b")).1 ≡ true)
unfolding program
forgotten = (refl, refl)

cleaned : cleanup 20 (after_calls small ((1, codes "a") ∷ (15, codes "b") ∷ [])) ≡ record small {
  cache = (codes "b", 15) ∷ [];
  order = (codes "b", 1) ∷ [];
  elements = (codes "b", 1) ∷ [];
  next_element = 2;
}
unfolding program
cleaned = refl

DedupeCache-IsValid_example :
    CacheIsValid (new_dedupe_cache 2 10)
    × CacheIsValid (is_duplicate 7 small (codes "m")).0
    × CacheIsValid (cleanup 7 small)
DedupeCache-IsValid_example = DedupeCache-IsValid 2 10 7 small (codes "m") small-IsValid

is_duplicate-after_calls_example :
    (is_duplicate 9
      (after_calls (is_duplicate 1 small (codes "m")).0 ((5, codes "n") ∷ []))
      (codes "m")).1
    ≡ true
unfolding program
is_duplicate-after_calls_example =
    is_duplicate-after_calls small 1 9 (codes "m") ((5, codes "n") ∷ []) small-IsValid refl
      (omega arith) ((omega arith, tt)) (omega arith)
