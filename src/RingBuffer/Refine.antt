-- ===== src/RingBuffer/Refine.antt =====
-- Adding to a ring buffer, against adding to a list and keeping its last elements.
use native.Mathlib.Decide.{dec_lt}
use stream_relay.Prelude.{
  ℕ, zero, suc, ◌+◌, ◌-◌, ◌%◌, ◌≤◌, ◌<◌, ◌≡◌, ◌≢◌, refl, sym, ap, ap₂, ◌∙◌, Option, none, List, [],
  ◌∷◌, ◌++◌, ltb, arith, ◌==◌, if◌then◌else◌, length, get_or, set, drop, replicate, length-set,
  length-append, length-replicate, get_or-set_self,
}
use stream_relay.RingBuffer.{RingBuffer, new_ring_buffer, add, start}
use stream_relay.RingBuffer.Indices.{
  mod_cases, start_stays, past_held, outside_held, start_of_full, next_shift, next_last,
  next_outside, next_start,
}
use stream_relay.RingBuffer.Window.{
  IsValid, window, held, last, length-window, window-snoc, window-set, window-shift,
}

module _ {ℓ} {A : Type ℓ} where
  pub length-held : (rb : RingBuffer A) → length (held rb) ≡ rb.count
  length-held rb = length-window rb.messages rb.size (start rb) 0 rb.count

  new_ring_buffer_of_pos :
      (n : ℕ)
      → new_ring_buffer {A = A} (suc n)
        ≡ record { messages = replicate (suc n) none; size = suc n; head = 0; count = 0 }
  unfolding new_ring_buffer
  new_ring_buffer_of_pos n = ground arith

  -- A new buffer is valid and holds nothing, and has the size that was asked for, or 100.
  pub new_ring_buffer-IsValid :
      (size : ℕ)
      → IsValid (new_ring_buffer {A = A} size)
        × (held (new_ring_buffer {A = A} size) ≡ [])
        × ((new_ring_buffer {A = A} size).size ≡ (if size == 0 then 100 else size))
  unfolding new_ring_buffer
  new_ring_buffer-IsValid zero = (
    record {
      slots_are_size = length-replicate {A = Option A} 100 none;
      positive = omega arith;
      head_in = omega arith;
      count_in = omega arith;
    },
    refl,
    refl,
  )
  new_ring_buffer-IsValid (suc n) = rw (new_ring_buffer_of_pos n) (
    record {
      slots_are_size = length-replicate {A = Option A} (suc n) none;
      positive = omega arith;
      head_in = omega arith;
      count_in = omega arith;
    },
    refl,
    ground arith,
  )

  -- `Add` keeps the invariant.
  pub add-IsValid : (rb : RingBuffer A) (v : Option A) → IsValid rb → IsValid (add rb v)
  unfolding add
  add-IsValid rb v h =
      ground (arith, length-set rb.messages rb.head v, mod_cases (rb.head + 1) rb.size)

-- The last cell of a window that ends at the head.
window-set_last {ℓ} :
    {A : Type ℓ} (slots : List (Option A)) (size from at k : ℕ) (v : Option A)
    → at < length slots
    → (from + k) % size ≡ at
    → ((j : ℕ) → j < k → at ≢ (from + j) % size)
    → window (set slots at v) size from 0 (suc k) ≡ window slots size from 0 k ++ v ∷ []
window-set_last {A} slots size from at k v inside hits misses =
    window-snoc (set slots at v) size from 0 k
    ∙ ap₂ (λ (xs : List (Option A)) (x : Option A). xs ++ x ∷ [])
        (window-set slots size from at 0 k v (λ j lo hi. misses j (omega arith)))
        (ap (λ j. get_or (set slots at v) j none) (ap (λ j. (from + j) % size) (omega arith) ∙ hits)
          ∙ get_or-set_self slots at v none inside)

drop_one_of_full {ℓ} :
    {A : Type ℓ} (m : ℕ) (x v : Option A) (xs : List (Option A))
    → length xs ≡ m
    → last (suc m) (x ∷ xs ++ v ∷ []) ≡ xs ++ v ∷ []
drop_one_of_full m x v xs h =
    let one : suc (length (xs ++ v ∷ [])) - suc m ≡ 1 = omega (arith, length-append xs (v ∷ [])) in
    ap (λ k. drop k (x ∷ xs ++ v ∷ [])) one

last_of_short {ℓ} : {A : Type ℓ} (n : ℕ) (xs : List (Option A)) → length xs ≤ n → last n xs ≡ xs
last_of_short n xs h = let z : length xs - n ≡ 0 = omega arith in ap (λ k. drop k xs) z

module _ {ℓ} {A : Type ℓ} (rb : RingBuffer A) (v : Option A) (h : IsValid rb) where
  open rb use {messages, size, head, count}

  inside : head < length messages
  inside = omega (arith, h.slots_are_size, h.head_in)

  -- The window after the write, with the count `c` that the write leaves.
  abbrev written : ℕ → ℕ → List (Option A)
  written from c = window (set messages head v) size from 0 c

  abbrev next_count : ℕ
  next_count = if ltb count size then count + 1 else count

  held-add-written :
      held (add rb v) ≡ written (((head + 1) % size + size - next_count) % size) next_count
  unfolding add
  held-add-written = refl

  held-add_with_room : count < size → held (add rb v) ≡ last size (held rb ++ v ∷ [])
  held-add_with_room room =
      let grown : next_count ≡ suc count = ground arith in
      held-add-written
      ∙ ap (λ c. written (((head + 1) % size + size - c) % size) c) grown
      ∙ ap (λ from. written from (suc count)) (start_stays head count size h.head_in room)
      ∙ window-set_last messages size (start rb) head count v inside
          (past_held head count size h.head_in h.count_in)
          (λ j lt. outside_held head count size h.head_in j room lt)
      ∙ sym (
          last_of_short size (held rb ++ v ∷ [])
            (omega (arith, length-append (held rb) (v ∷ []), length-held rb)))

  held-add_full :
      (m : ℕ) → size ≡ suc m → count ≡ size → held (add rb v) ≡ last size (held rb ++ v ∷ [])
  held-add_full m e full =
      let kept : next_count ≡ suc m = ground arith in
      let rest = window messages size head 1 m in
      let first = get_or messages ((head + 0) % size) none in
      let whole : held rb ≡ first ∷ rest =
        ap (λ from. window messages size from 0 count)
          (ap (λ c. (head + size - c) % size) full ∙ start_of_full head size h.head_in)
        ∙ ap (window messages size head 0) (full ∙ e) in
      held-add-written
      ∙ ap (λ c. written (((head + 1) % size + size - c) % size) c) kept
      ∙ ap (λ from. written from (suc m)) (next_start head size h.head_in m e)
      ∙ window-set_last messages size ((head + 1) % size) head m v inside
          (next_last head size h.head_in m e)
          (λ j lt. next_outside head size h.head_in j (omega arith))
      ∙ ap (λ (xs : List (Option A)). xs ++ v ∷ [])
          (window-shift messages size head ((head + 1) % size) 0 m
            (λ j le. next_shift head size h.head_in j (omega arith)))
      ∙ sym (
          ap (λ (xs : List (Option A)). last size (xs ++ v ∷ [])) whole
          ∙ ap (λ n. last n (first ∷ rest ++ v ∷ [])) e
          ∙ drop_one_of_full m first v rest (length-window messages size head 1 m))

  -- Adding a pointer is appending it and keeping the last `size` of what is held: the oldest is
  -- dropped exactly when the buffer is full.
  pub held-add : held (add rb v) ≡ last size (held rb ++ v ∷ [])
  held-add = elim (dec_lt count size) [
    | yes room ↦ held-add_with_room room
    | no full ↦ held-add_full (size - 1) (omega (arith, h.positive)) (omega (arith, h.count_in))
  ]
