-- ===== src/RingBuffer/Reads.antt =====
-- What the reads of a ring buffer return, in terms of the pointers that were added.
use stream_relay.Prelude.{
  ℕ, zero, suc, ◌+◌, ◌-◌, ◌≡◌, ◌≢◌, refl, sym, ap, ◌∙◌, Bool, true, false, ◌||◌, Option, List, [],
  ◌∷◌, ◌++◌, Bytes, codes, str_eq, leb, arith, ◌==◌, if◌then◌else◌, length, drop, append_assoc,
  append-nil, length-append, length-drop, min, take, take-append-drop, Bool-cases, inl, inr,
  drop-append,
}
use stream_relay.RingBuffer.{
  RingBuffer, new_ring_buffer, add, start, collect, get_all, since, get_since, get_last,
}
use stream_relay.RingBuffer.Window.{IsValid, window, held, last, somes}
use stream_relay.RingBuffer.Refine.{new_ring_buffer-IsValid, add-IsValid, held-add}

module _ {ℓ} {A : Type ℓ} where
  collect-somes :
      (rb : RingBuffer A) (i k : ℕ)
      → collect rb i k ≡ somes (window rb.messages rb.size (start rb) i k)
  unfolding collect
  collect-somes rb i zero = refl
  collect-somes rb i (suc k) = ground (arith, collect-somes rb (i + 1) k)

  -- `GetAll` returns what the buffer holds, less the nil pointers.
  pub get_all-held : (rb : RingBuffer A) → get_all rb ≡ somes (held rb)
  unfolding get_all
  get_all-held rb = collect-somes rb 0 rb.count

  -- The messages that were added, one after the other.
  abbrev pub add_each : RingBuffer A → List (Option A) → RingBuffer A
  add_each rb [] = rb
  add_each rb (v ∷ vs) = add_each (add rb v) vs

  drop-nil : (n : ℕ) → drop {A = Option A} n [] ≡ []
  drop-nil zero = refl
  drop-nil (suc n) = refl

  drop-drop : (n m : ℕ) (xs : List (Option A)) → drop m (drop n xs) ≡ drop (n + m) xs
  drop-drop zero m xs = let e : m ≡ 0 + m = omega arith in ap (λ k. drop k xs) e
  drop-drop (suc n) m [] = drop-nil m ∙ sym (drop-nil (suc n + m))
  drop-drop (suc n) m (x ∷ xs) =
      let e : suc (n + m) ≡ suc n + m = omega arith in
      drop-drop n m xs ∙ ap (λ k. drop k (x ∷ xs)) e

  last-append-last :
      (n : ℕ) (xs ys : List (Option A)) → last n (last n xs ++ ys) ≡ last n (xs ++ ys)
  last-append-last n xs ys =
      let k = length xs - n in
      let whole = xs ++ ys in
      let e : k + (length (drop k whole) - n) ≡ length whole - n =
        omega (arith, length-drop k whole, length-append xs ys) in
      ap (last n) (sym (drop-append k xs ys (omega arith)))
      ∙ drop-drop k (length (drop k whole) - n) whole
      ∙ ap (λ j. drop j whole) e

  size-add : (rb : RingBuffer A) (v : Option A) → (add rb v).size ≡ rb.size
  unfolding add
  size-add rb v = refl

  pub held-add_each :
      (rb : RingBuffer A) (added vs : List (Option A))
      → IsValid rb
      → held rb ≡ last rb.size added
      → IsValid (add_each rb vs) × (held (add_each rb vs) ≡ last rb.size (added ++ vs))
  held-add_each rb added [] h e = (h, e ∙ ap (last rb.size) (sym (append-nil added)))
  held-add_each rb added (v ∷ vs) h e =
      let next : held (add rb v) ≡ last (add rb v).size (added ++ v ∷ []) =
        held-add rb v h
        ∙ ap (λ (xs : List (Option A)). last rb.size (xs ++ v ∷ [])) e
        ∙ last-append-last rb.size added (v ∷ [])
        ∙ ap (λ n. last n (added ++ v ∷ [])) (sym (size-add rb v)) in
      let (valid, all) = held-add_each (add rb v) (added ++ v ∷ []) vs (add-IsValid rb v h) next in
      (
        valid,
        all
            ∙ ap (λ n. last n ((added ++ v ∷ []) ++ vs)) (size-add rb v)
            ∙ ap (last rb.size) (append_assoc added (v ∷ []) vs),
      )

  -- After any additions to a new buffer, `GetAll` returns the last of them, oldest first: as many
  -- as the size that was asked for, or 100, less the nil pointers among these.
  pub get_all-add_each :
      (size : ℕ) (vs : List (Option A))
      → get_all (add_each (new_ring_buffer size) vs)
        ≡ somes (last (if size == 0 then 100 else size) vs)
  get_all-add_each size vs =
      let (valid, empty, sized) = new_ring_buffer-IsValid {A = A} size in
      let (_, all) =
        held-add_each (new_ring_buffer size) [] vs valid
          (empty ∙ sym (drop-nil (0 - (new_ring_buffer {A = A} size).size))) in
      get_all-held (add_each (new_ring_buffer size) vs) ∙ ap somes (all ∙ ap (λ n. last n vs) sized)

-- No message of the list has the id.
abbrev pub NoneHas {ℓ} : {A : Type ℓ} → (A → Bytes) → Bytes → List A → Type 0
NoneHas id_of wanted [] = Unit
NoneHas id_of wanted (m ∷ ms) = (id_of m ≢ wanted) × NoneHas id_of wanted ms

-- The ids that ask for everything.
abbrev pub asks_for_all : Bytes → Bool
asks_for_all wanted = str_eq wanted [] || str_eq wanted (codes "0") || str_eq wanted (codes "-")

module _ {ℓ} {A : Type ℓ} (id_of : A → Bytes) (wanted : Bytes) where
  since-found : (ms : List A) → since id_of wanted true ms ≡ ms
  unfolding since
  since-found [] = refl
  since-found (m ∷ ms) = ap (◌∷◌ m) (since-found ms)

  since-absent : (ms : List A) → NoneHas id_of wanted ms → since id_of wanted false ms ≡ []
  unfolding since
  since-absent [] h = refl
  since-absent (m ∷ ms) h = ground (arith, since-absent ms h.1)

  since-behind :
      (before after : List A) (m : A)
      → NoneHas id_of wanted before
      → id_of m ≡ wanted
      → since id_of wanted false (before ++ m ∷ after) ≡ after
  unfolding since
  since-behind [] after m h e = ground (arith, since-found after)
  since-behind (x ∷ before) after m h e = ground (arith, since-behind before after m h.1 e)

  -- `GetSince` returns everything for an empty id, "0" or "-". For any other id it returns what
  -- stands behind the first message with that id, and nothing if the buffer no longer holds one.
  pub get_since_lem :
      (rb : RingBuffer A)
      → (asks_for_all wanted ≡ true → get_since id_of rb wanted ≡ get_all rb)
        × (asks_for_all wanted ≡ false
            → NoneHas id_of wanted (get_all rb)
            → get_since id_of rb wanted ≡ [])
        × (asks_for_all wanted ≡ false
            → (before after : List A) (m : A) → get_all rb ≡ before ++ m ∷ after
            → NoneHas id_of wanted before
            → id_of m ≡ wanted
            → get_since id_of rb wanted ≡ after)
  unfolding get_since
  get_since_lem rb = (
    λ e. rw e (since-found (get_all rb)),
    λ e h. rw e (since-absent (get_all rb) h),
    λ e before after m all h found. rw (e, all) (since-behind before after m h found),
  )

module _ {ℓ} {A : Type ℓ} (id_of : A → Bytes) (wanted : Bytes) where
  -- What stands behind the first message with the id: nothing, if there is none.
  abbrev pub behind_first : List A → List A
  behind_first [] = []
  behind_first (m ∷ ms) = if str_eq (id_of m) wanted then ms else behind_first ms

  since-behind_first : (ms : List A) → since id_of wanted false ms ≡ behind_first ms
  unfolding since
  since-behind_first [] = refl
  since-behind_first (m ∷ ms) =
      let found = since-found id_of wanted ms in let ih = since-behind_first ms in ground arith

  -- `GetSince` returns everything for an empty id, "0" or "-"; for any other id what stands behind the
  -- first message with it, and nothing if the buffer holds none.
  pub get_since-behind_first :
      (rb : RingBuffer A)
      → get_since id_of rb wanted
        ≡ (if asks_for_all wanted then get_all rb else behind_first (get_all rb))
  unfolding get_since
  get_since-behind_first rb = elim (Bool-cases (asks_for_all wanted)) [
    | inl e ↦ rw e (since-found id_of wanted (get_all rb))
    | inr e ↦ rw e (since-behind_first (get_all rb))
  ]

pub get_last-drop {ℓ} :
    {A : Type ℓ} (rb : RingBuffer A) (n : ℕ)
    → get_last rb n ≡ drop (length (get_all rb) - n) (get_all rb)
unfolding get_last
get_last-drop rb n = elim (Bool-cases (leb (length (get_all rb)) n)) [
  | inl short ↦
      let z : 0 ≡ length (get_all rb) - n = ground arith in
      rw short (ap (λ k. drop k (get_all rb)) z)
  | inr long ↦ rw long
]

sub_sub_min : (l n : ℕ) → l - (l - n) ≡ min n l
sub_sub_min l n = omega arith

-- `GetLast` returns the end of `GetAll`, as long as was asked for or all there is.
pub get_last_lem {ℓ} :
    {A : Type ℓ} (rb : RingBuffer A) (n : ℕ)
    → (length (get_last rb n) ≡ min n (length (get_all rb)))
      × ((front : List A) × (get_all rb ≡ front ++ get_last rb n))
unfolding get_last
get_last_lem rb n =
    let all = get_all rb in
    let k = length all - n in
    let e = get_last-drop rb n in
    (
      ap length e ∙ length-drop k all ∙ sub_sub_min (length all) n,
      (take k all, sym (take-append-drop k all) ∙ ap (λ xs. take k all ++ xs) (sym e)),
    )
