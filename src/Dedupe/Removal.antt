-- ===== src/Dedupe/Removal.antt =====
-- Removing and adding an id keeps the list, the cache and the elements in agreement.
use stream_relay.Prelude.{
  ℕ, suc, ◌<◌, ◌≡◌, ◌≢◌, refl, sym, ◌∙◌, subst, none, some, [], ◌∷◌, ◌++◌, Bytes, Bytes-discrete,
  ltb, arith, length, Map, lookup, insert, delete, Lacks, Distinct, lookup-insert, lookup-delete,
  lookup_of_Lacks, Lacks-of_lookup, delete_of_Lacks, delete-Distinct, lookup-delete-some,
  Option-cases, Bool-cases, inl, inr,
}
use stream_relay.Dedupe.{DedupeCache, remove_element, remove_old, evict}
use stream_relay.Dedupe.Agreement.{Agrees, lookup-append, lookup_one, snoc-Distinct}

pub remove_element-delete :
    (id : Bytes) (e : ℕ) (order : Map ℕ)
    → Distinct order
    → lookup id order ≡ some e
    → ((i : Bytes) → lookup i order ≡ some e → i ≡ id)
    → remove_element e order ≡ delete id order
unfolding remove_element delete lookup
remove_element-delete id e [] d found only = absurd cc
remove_element-delete id e ((j, f) ∷ rest) (l, d) found only = elim (Bytes-discrete id j) [
  | yes same ↦
      let gone = delete_of_Lacks id rest (subst (λ k. Lacks k rest) (sym same) l) in ground arith
  | no differs ↦
      let here : lookup id rest ≡ some e = ground arith in
      let other : f ≢ e = λ s. differs (sym (only j (ground arith))) in
      let ih = remove_element-delete id e rest d here (λ i a. only i (later i a)) in ground arith
]
  where
    later : (i : Bytes) → lookup i rest ≡ some e → lookup i ((j, f) ∷ rest) ≡ some e
    later i a =
        let absent = lookup_of_Lacks j rest l in
        elim (Bytes-discrete i j) [ yes same ↦ ground arith | no differs ↦ ground arith ]

-- Without an id, all three agree if they did.
pub delete-Agrees :
    (id : Bytes) (order cache elements : Map ℕ)
    → Agrees order cache elements
    → Agrees (delete id order) (delete id cache) (delete id elements)
delete-Agrees id order cache elements h = record {
  distinct = delete-Distinct id order h.distinct;
  own_element = λ i j e a b.
      h.own_element i j e (lookup-delete-some i id e order a).1
        (lookup-delete-some j id e order b).1;
  listed = λ i.
      let a = lookup-delete i id order in
      let b = lookup-delete i id elements in let old = h.listed i in ground arith;
  cached = λ i.
      let a = lookup-delete i id order in
      let b = lookup-delete i id cache in let old = h.cached i in ground arith;
}

-- Adding an id that is not in the list, under an element that is not in use.
pub snoc-Agrees :
    (id : Bytes) (e now : ℕ) (order cache elements : Map ℕ)
    → Agrees order (delete id cache) elements
    → Lacks id order
    → ((i : Bytes) (f : ℕ) → lookup i order ≡ some f → f < e)
    → Agrees (order ++ (id, e) ∷ []) (insert id now cache) (insert id e elements)
snoc-Agrees id e now order cache elements h l unused = record {
  distinct = snoc-Distinct id e order h.distinct l;
  own_element = λ i j f a b.
      let law_i = lookup-append i order ((id, e) ∷ []) in
      let law_j = lookup-append j order ((id, e) ∷ []) in
      let one_i = lookup_one i id e in
      let one_j = lookup_one j id e in
      let own = h.own_element i j f in
      let below_i = unused i f in let below_j = unused j f in ground arith;
  listed = λ i.
      let a = lookup-append i order ((id, e) ∷ []) in
      let one = lookup_one i id e in
      let absent = lookup_of_Lacks id order l in
      let law = lookup-insert i id e elements in let old = h.listed i in ground arith;
  cached = λ i.
      let a = lookup-append i order ((id, e) ∷ []) in
      let one = lookup_one i id e in
      let law = lookup-insert i id now cache in
      let without = lookup-delete i id cache in
      let old = h.cached i in let absent = lookup_of_Lacks id order l in ground arith;
}

-- What is left after the eviction was there before.
pub evict-some :
    (i : Bytes) (f max_size : ℕ) (order cache elements : Map ℕ)
    → Distinct order
    → lookup i (evict max_size order cache elements).0 ≡ some f
    → lookup i order ≡ some f
unfolding evict lookup
evict-some i f max_size [] cache elements d a = a
evict-some i f max_size ((id, e) ∷ rest) cache elements (l, d) a =
    let ih = evict-some i f max_size rest (delete id cache) (delete id elements) d in
    let absent = lookup_of_Lacks id rest l in
    elim (Bool-cases (ltb max_size (suc (length rest)))) [
      | inr fits ↦ ground arith
      | inl over ↦
          let left : lookup i rest ≡ some f = ground arith in
          elim (Bytes-discrete i id) [ yes same ↦ ground arith | no differs ↦ ground arith ]
    ]

pub remove_old-Agrees :
    (id : Bytes) (d : DedupeCache)
    → Agrees d.order d.cache d.elements
    → let old = remove_old id d in
      (old.order ≡ delete id d.order) × Agrees old.order (delete id d.cache) old.elements
unfolding remove_old
remove_old-Agrees id d h =
    let all = delete-Agrees id d.order d.cache d.elements h in
    elim (Option-cases (lookup id d.elements)) [
      | inl e ↦
          let none_here : lookup id d.order ≡ none = sym (h.listed id) ∙ e in
          let l = Lacks-of_lookup id d.order none_here in
          let same = delete_of_Lacks id d.order l in
          let kept : delete id d.elements ≡ d.elements =
            delete_of_Lacks id d.elements (Lacks-of_lookup id d.elements e) in
          rw (remove_old, e)
            ((
              sym same,
              subst (λ o. Agrees o (delete id d.cache) d.elements) same
                  (subst (λ es. Agrees (delete id d.order) (delete id d.cache) es) kept all),
            ))
      | inr (elem, e) ↦
          let found : lookup id d.order ≡ some elem = sym (h.listed id) ∙ e in
          let removed =
            remove_element-delete id elem d.order h.distinct found
              (λ i a. h.own_element i id elem a found) in
          rw (remove_old, e)
            ((
              removed,
              subst (λ o. Agrees o (delete id d.cache) (delete id d.elements)) (sym removed) all,
            ))
    ]

pub same_fields :
    (id : Bytes) (d : DedupeCache)
    → let old = remove_old id d in
      (old.cache ≡ d.cache)
      × (old.next_element ≡ d.next_element)
      × (old.max_size ≡ d.max_size)
      × (old.ttl ≡ d.ttl)
unfolding remove_old
same_fields id d = elim (Option-cases (lookup id d.elements)) [
  | inl e ↦ rw (remove_old, e) ((refl, refl, refl, refl))
  | inr (elem, e) ↦ rw (remove_old, e) ((refl, refl, refl, refl))
]
