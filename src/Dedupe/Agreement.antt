-- ===== src/Dedupe/Agreement.antt =====
-- The list, the cache and the elements of the deduplication cache name the same ids, and no more than
-- the size allows.
use stream_relay.Prelude.{
  has_key, ℕ, suc, ◌≤◌, ◌<◌, ◌≡◌, refl, sym, none, some, [], ◌∷◌, ◌++◌, Bytes, str_eq, ltb, arith,
  if◌then◌else◌, length, Map, lookup, delete, Lacks, Distinct, lookup-delete, lookup_of_Lacks,
  Bool-cases, inl, inr,
}
use stream_relay.Dedupe.{DedupeCache, evict}

-- Each id is in the list once, with its own element; the elements are those of the list; and the cache
-- has the same ids.
pub record Agrees (order cache elements : Map ℕ) : Type 0 where
  pub distinct : Distinct order
  pub own_element :
      (i j : Bytes) (e : ℕ) → lookup i order ≡ some e → lookup j order ≡ some e → i ≡ j
  pub listed : (id : Bytes) → lookup id elements ≡ lookup id order
  pub cached : (id : Bytes) → has_key id cache ≡ has_key id order

pub record CacheIsValid (d : DedupeCache) : Type 0 where
  pub agrees : Agrees d.order d.cache d.elements
  pub unused : (id : Bytes) (e : ℕ) → lookup id d.order ≡ some e → e < d.next_element
  pub bounded : length d.order ≤ d.max_size
  pub positive : 0 < d.max_size

pub lookup-append :
    (id : Bytes) (m n : Map ℕ)
    → lookup id (m ++ n) ≡ (elim (lookup id m) [ none ↦ lookup id n | some e ↦ some e ])
unfolding lookup
lookup-append id [] n = refl
lookup-append id ((j, e) ∷ m) n = let ih = lookup-append id m n in ground arith

Lacks-append : (id : Bytes) (m n : Map ℕ) → Lacks id m → Lacks id n → Lacks id (m ++ n)
Lacks-append id [] n h k = k
Lacks-append id ((j, e) ∷ m) n (differs, h) k = (differs, Lacks-append id m n h k)

pub snoc-Distinct :
    (id : Bytes) (e : ℕ) (m : Map ℕ) → Distinct m → Lacks id m → Distinct (m ++ (id, e) ∷ [])
snoc-Distinct id e [] d l = (tt, tt)
snoc-Distinct id e ((j, f) ∷ m) (fresh, d) (differs, l) = (
  Lacks-append j m ((id, e) ∷ []) fresh (λ same. differs (sym same), tt),
  snoc-Distinct id e m d l,
)

pub lookup_one :
    (i id : Bytes) (e : ℕ) → lookup i ((id, e) ∷ []) ≡ (if str_eq i id then some e else none)
unfolding lookup
lookup_one i id e = ground arith

-- The oldest entry, and what is left without it.
lookup_rest :
    (i id : Bytes) (e : ℕ) (rest : Map ℕ)
    → Lacks id rest
    → lookup i rest ≡ (if str_eq i id then none else lookup i ((id, e) ∷ rest))
unfolding lookup
lookup_rest i id e rest l = let absent = lookup_of_Lacks id rest l in ground arith

drop_oldest :
    (id : Bytes) (e : ℕ) (rest cache elements : Map ℕ)
    → Agrees ((id, e) ∷ rest) cache elements
    → Agrees rest (delete id cache) (delete id elements)
drop_oldest id e rest cache elements h =
    let left = λ (i : Bytes). lookup_rest i id e rest h.distinct.0 in
    record {
      distinct = h.distinct.1;
      own_element = λ i j f a b. h.own_element i j f (kept i f (left i) a) (kept j f (left j) b);
      listed = λ i.
          let law = lookup-delete i id elements in
          let old = h.listed i in let now = left i in ground arith;
      cached = λ i.
          let law = lookup-delete i id cache in
          let old = h.cached i in let now = left i in ground arith;
    }
  where
    kept :
        (i : Bytes) (f : ℕ)
        → lookup i rest ≡ (if str_eq i id then none else lookup i ((id, e) ∷ rest))
        → lookup i rest ≡ some f
        → lookup i ((id, e) ∷ rest) ≡ some f
    kept i f law a = ground arith

pub evict-Agrees :
    (max_size : ℕ) (order cache elements : Map ℕ)
    → Agrees order cache elements
    → let (o, c, e) = evict max_size order cache elements in Agrees o c e × (length o ≤ max_size)
unfolding evict
evict-Agrees max_size [] cache elements h = (h, omega arith)
evict-Agrees max_size ((id, e) ∷ rest) cache elements h =
    elim (Bool-cases (ltb max_size (suc (length rest)))) [
      | inl over ↦ rw over (
          evict-Agrees max_size rest (delete id cache) (delete id elements)
            (drop_oldest id e rest cache elements h))
      | inr fits ↦ rw fits ((h, ground arith))
    ]
