-- ===== src/RingBuffer/Window.antt =====
-- A ring buffer holds the last `size` pointers that were added, oldest first.
use stream_relay.Prelude.{
  ℕ, zero, suc, ◌+◌, ◌-◌, ◌%◌, ◌≤◌, ◌<◌, ◌≡◌, ◌≢◌, refl, ap, ap₂, ◌∙◌, Option, none, some, List, [],
  ◌∷◌, ◌++◌, arith, length, get_or, set, drop, get_or-set_ne,
}
use stream_relay.RingBuffer.{RingBuffer, start}

pub record IsValid {ℓ} {A : Type ℓ} (rb : RingBuffer A) : Type ℓ where
  pub slots_are_size : length rb.messages ≡ rb.size
  pub positive : 0 < rb.size
  pub head_in : rb.head < rb.size
  pub count_in : rb.count ≤ rb.size

module _ {ℓ} {A : Type ℓ} where
  -- The slots from the `i`th behind `from` on, going round at `size`.
  abbrev pub window : List (Option A) → ℕ → ℕ → ℕ → ℕ → List (Option A)
  window slots size from i zero = []
  window slots size from i (suc k) =
      get_or slots ((from + i) % size) none ∷ window slots size from (i + 1) k

  -- What the buffer holds, oldest first.
  abbrev pub held : RingBuffer A → List (Option A)
  held rb = window rb.messages rb.size (start rb) 0 rb.count

  -- The last `n` elements.
  abbrev pub last : ℕ → List (Option A) → List (Option A)
  last n xs = drop (length xs - n) xs

  -- The pointers that are not nil.
  abbrev pub somes : List (Option A) → List A
  somes [] = []
  somes (none ∷ xs) = somes xs
  somes (some a ∷ xs) = a ∷ somes xs

module _ {ℓ} {A : Type ℓ} where
  pub length-window :
      (slots : List (Option A)) (size from i k : ℕ) → length (window slots size from i k) ≡ k
  length-window slots size from i zero = refl
  length-window slots size from i (suc k) = ap suc (length-window slots size from (i + 1) k)

  pub window-snoc :
      (slots : List (Option A)) (size from i k : ℕ)
      → window slots size from i (suc k)
        ≡ window slots size from i k ++ get_or slots ((from + (i + k)) % size) none ∷ []
  window-snoc slots size from i zero =
      ap (λ j. get_or slots ((from + j) % size) none ∷ []) (omega arith)
  window-snoc slots size from i (suc k) = ap (◌∷◌ (get_or slots ((from + i) % size) none)) (
      window-snoc slots size from (i + 1) k
      ∙ ap (λ j. window slots size from (i + 1) k ++ get_or slots ((from + j) % size) none ∷ [])
          (omega arith))

  -- A write to a slot outside the window.
  pub window-set :
      (slots : List (Option A)) (size from at i k : ℕ) (v : Option A)
      → ((j : ℕ) → i ≤ j → j < i + k → at ≢ (from + j) % size)
      → window (set slots at v) size from i k ≡ window slots size from i k
  window-set slots size from at i zero v h = refl
  window-set slots size from at i (suc k) v h =
      ap₂ ◌∷◌ (get_or-set_ne slots at ((from + i) % size) v none (h i (omega arith) (omega arith)))
        (window-set slots size from at (i + 1) k v (λ j lo hi. h j (omega arith) (omega arith)))

  -- Moving the start by one is moving the index by one.
  pub window-shift :
      (slots : List (Option A)) (size from next i k : ℕ)
      → ((j : ℕ) → j ≤ i + k → (next + j) % size ≡ (from + (j + 1)) % size)
      → window slots size next i k ≡ window slots size from (i + 1) k
  window-shift slots size from next i zero h = refl
  window-shift slots size from next i (suc k) h =
      ap₂ ◌∷◌ (ap (λ j. get_or slots j none) (h i (omega arith)))
        (window-shift slots size from next (i + 1) k (λ j l. h j (omega arith)))
