-- ===== src/Dedupe/Recall.antt =====
-- How the deduplication cache moves an id that it holds towards its eviction: one place for each other
-- id that it takes up.
use stream_relay.Prelude.{
  has_key, ℕ, suc, ◌≤◌, ◌<◌, ◌≡◌, ◌≢◌, refl, sym, ap, ◌∙◌, true, none, some, [], ◌∷◌, ◌++◌, Bytes,
  Bytes-discrete, str_eq, ltb, arith, if◌then◌else◌, length, Map, lookup, insert, delete, Distinct,
  lookup-insert, lookup-delete, length-append, length-delete, Bool-cases, inl, inr,
}
use stream_relay.Dedupe.{DedupeCache, remove_old, evict, add_to_cache}
use stream_relay.Dedupe.Agreement.{CacheIsValid, lookup-append, lookup_one}
use stream_relay.Dedupe.Removal.{same_fields, remove_old-Agrees}

-- How many entries stand behind the id in the list: so many were taken up after it.
abbrev pub behind : Bytes → Map ℕ → ℕ
behind id [] = 0
behind id ((j, e) ∷ rest) = if str_eq id j then length rest else behind id rest

-- The cache has the id since `ts`, and at most `k` were taken up after it.
abbrev pub Held : DedupeCache → Bytes → ℕ → ℕ → Type 0
Held d id ts k =
    (lookup id d.cache ≡ some ts) × (has_key id d.order ≡ true) × (behind id d.order ≤ k)

evict-Held :
    (id : Bytes) (max_size : ℕ) (order cache elements : Map ℕ)
    → has_key id order ≡ true
    → behind id order < max_size
    → let (o, c, _) = evict max_size order cache elements in
      (lookup id c ≡ lookup id cache) × (has_key id o ≡ true) × (behind id o ≡ behind id order)
unfolding evict lookup
evict-Held id max_size [] cache elements here near = absurd cc
evict-Held id max_size ((j, e) ∷ rest) cache elements here near =
    elim (Bool-cases (ltb max_size (suc (length rest)))) [
      | inr fits ↦ rw fits ((refl, here, refl))
      | inl over ↦
          let differs : id ≢ j = λ s. absurd (ground arith) in
          let inside : has_key id rest ≡ true = ground arith in
          let same : behind id ((j, e) ∷ rest) ≡ behind id rest = ground arith in
          let law = lookup-delete id j cache in
          let kept : lookup id (delete j cache) ≡ lookup id cache = ground arith in
          let (c, o, b) =
            evict-Held id max_size rest (delete j cache) (delete j elements) inside (omega arith) in
          rw over ((c ∙ kept, o, b ∙ sym same))
    ]

behind-append :
    (id j : Bytes) (e : ℕ) (order : Map ℕ)
    → behind id (order ++ (j, e) ∷ []) ≤ suc (behind id order)
behind-append id j e [] = ground arith
behind-append id j e ((i, f) ∷ rest) =
    let ih = behind-append id j e rest in let n = length-append rest ((j, e) ∷ []) in ground arith

behind-delete :
    (id j : Bytes) (order : Map ℕ)
    → Distinct order
    → id ≢ j
    → behind id (delete j order) ≤ behind id order
unfolding delete
behind-delete id j [] d differs = omega arith
behind-delete id j ((i, f) ∷ rest) (l, d) differs =
    let ih = behind-delete id j rest d differs in
    let shorter : length (delete j rest) ≤ length rest =
      let n = length-delete j rest d in ground arith in
    elim (Bytes-discrete id i) [ yes same ↦ ground arith | no apart ↦ ground arith ]

behind_newest :
    (id : Bytes) (e : ℕ) (order : Map ℕ)
    → lookup id order ≡ none
    → behind id (order ++ (id, e) ∷ []) ≡ 0
unfolding lookup
behind_newest id e [] absent = ground arith
behind_newest id e ((j, f) ∷ rest) absent = let ih = behind_newest id e rest in ground arith

-- Taking up another id keeps what is held, one place further back.
pub add-Held :
    (now : ℕ) (id other : Bytes) (d : DedupeCache) (ts k : ℕ)
    → id ≢ other
    → Held d id ts k
    → suc k < d.max_size
    → Held (add_to_cache now other d) id ts (suc k)
unfolding add_to_cache
add-Held now id other d ts k differs (cached, here, near) room_left =
    let e = d.next_element in
    let order = d.order ++ (other, e) ∷ [] in
    let cache = insert other now d.cache in
    let elements = insert other e d.elements in
    let further = behind-append id other e d.order in
    let law = lookup-append id d.order ((other, e) ∷ []) in
    let inside : has_key id order ≡ true = ground arith in
    let (c, o, b) = evict-Held id d.max_size order cache elements inside (omega arith) in
    let inserted = lookup-insert id other now d.cache in
    let kept : lookup id cache ≡ some ts = ground arith in (c ∙ kept, o, omega arith)

-- The id that is taken up is held, with nothing behind it.
pub added-Held :
    (now : ℕ) (id : Bytes) (d : DedupeCache)
    → lookup id d.order ≡ none
    → 0 < d.max_size
    → Held (add_to_cache now id d) id now 0
unfolding add_to_cache
added-Held now id d absent positive =
    let e = d.next_element in
    let order = d.order ++ (id, e) ∷ [] in
    let cache = insert id now d.cache in
    let elements = insert id e d.elements in
    let law = lookup-append id d.order ((id, e) ∷ []) in
    let one = lookup_one id id e in
    let inside : has_key id order ≡ true = ground arith in
    let last = behind_newest id e d.order absent in
    let (c, o, b) = evict-Held id d.max_size order cache elements inside (omega arith) in
    let inserted = lookup-insert id id now d.cache in
    let kept : lookup id cache ≡ some now = ground arith in (c ∙ kept, o, omega arith)

pub remove_old-Held :
    (id other : Bytes) (d : DedupeCache) (ts k : ℕ)
    → CacheIsValid d
    → id ≢ other
    → Held d id ts k
    → Held (remove_old other d) id ts k
remove_old-Held id other d ts k h differs (cached, here, near) =
    let (order, _) = remove_old-Agrees other d h.agrees in
    let (cache, _, _, _) = same_fields other d in
    let nearer = behind-delete id other d.order h.agrees.distinct differs in
    let law = lookup-delete id other d.order in
    let there : has_key id (delete other d.order) ≡ true = ground arith in
    (
      ap (lookup id) cache ∙ cached,
      ap (has_key id) order ∙ there,
      let e = ap (behind id) order in omega arith,
    )
