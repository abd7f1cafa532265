-- ===== src/Dedupe.antt =====
-- `DedupeCache` of engine/broker.go: the message ids that a node has seen of late, so that a message
-- which comes twice is delivered once. Its lock makes each method atomic.
pub mod Agreement
pub mod Removal
pub mod Keeping
pub mod Recall
pub mod Duplicates
mod Tests
use stream_relay.Prelude.{
  ℕ, suc, ◌+◌, ◌-◌, ◌*◌, Bool, true, false, Option, none, some, List, [], ◌∷◌, ◌++◌, Bytes, ltb,
  ◌==◌, if◌then◌else◌, length, Map, lookup, insert, delete,
}

-- `order` is the linked list, oldest first: of each element its message id, and the number that stands
-- for its address; `elements` gives the addresses. `next_element` is an address that is not in use.
pub record DedupeCache : Type 0 where
  pub cache : Map ℕ
  pub order : Map ℕ
  pub elements : Map ℕ
  pub next_element : ℕ
  pub max_size : ℕ
  pub ttl : ℕ

-- A size or a duration that is negative is 0 here: the code treats the two alike.
unfoldable pub new_dedupe_cache : ℕ → ℕ → DedupeCache
new_dedupe_cache max_size ttl = record {
  cache = [];
  order = [];
  elements = [];
  next_element = 0;
  max_size = if max_size == 0 then 10000 else max_size;
  ttl = if ttl == 0 then 300000 else ttl;
}

-- `order.Remove(elem)`
unfoldable pub remove_element : ℕ → Map ℕ → Map ℕ
remove_element elem [] = []
remove_element elem ((id, e) ∷ rest) =
    let others = remove_element elem rest in if e == elem then rest else (id, e) ∷ others

-- The element of the id is removed, if there is one.
unfoldable pub remove_old : Bytes → DedupeCache → DedupeCache
remove_old id d = elim (lookup id d.elements) [
  | none ↦ d
  | some elem ↦ record d { order = remove_element elem d.order; elements = delete id d.elements }
]

-- The loop that evicts the oldest entries, on the list, the cache and the elements.
unfoldable pub evict : ℕ → Map ℕ → Map ℕ → Map ℕ → Map ℕ × Map ℕ × Map ℕ
evict max_size [] cache elements = ([], cache, elements)
evict max_size ((id, e) ∷ rest) cache elements =
    let evicted = evict max_size rest (delete id cache) (delete id elements) in
    if ltb max_size (suc (length rest)) then evicted else ((id, e) ∷ rest, cache, elements)

-- The id is added as the newest, and old entries are evicted.
unfoldable pub add_to_cache : ℕ → Bytes → DedupeCache → DedupeCache
add_to_cache now id d =
    let (order, cache, elements) =
      evict d.max_size (d.order ++ (id, d.next_element) ∷ []) (insert id now d.cache)
        (insert id d.next_element d.elements) in
    record d {
      cache = cache;
      order = order;
      elements = elements;
      next_element = d.next_element + 1;
    }

unfoldable pub is_duplicate : ℕ → DedupeCache → Bytes → DedupeCache × Bool
is_duplicate now d id = elim (lookup id d.cache) [
  | none ↦ (add_to_cache now id d, false)
  | some ts ↦
      if ltb (now - ts) d.ttl then (d, true) else (add_to_cache now id (remove_old id d), false)
]

-- The loop of `Cleanup`, over the entries that the range has still to visit.
unfoldable pub clean_each : ℕ → Map ℕ → DedupeCache → DedupeCache
clean_each now [] d = d
clean_each now ((id, ts) ∷ rest) d =
    let old = remove_old id d in
    let next = if ltb d.ttl (now - ts) then record old { cache = delete id d.cache } else d in
    clean_each now rest next

unfoldable pub cleanup : ℕ → DedupeCache → DedupeCache
cleanup now d = clean_each now d.cache d
