-- ===== src/RingBuffer.antt =====
-- `RingBuffer` of engine/memory_relay.go: the message history of a room. A slot is a pointer, `none`
-- where it is nil. Its lock makes every method atomic.
pub mod Indices
pub mod Window
pub mod Refine
pub mod Reads
mod Tests
use stream_relay.Prelude.{
  ℕ, zero, suc, ◌+◌, ◌-◌, ◌%◌, Bool, true, false, ◌||◌, Option, none, some, List, [], ◌∷◌, Bytes,
  codes, str_eq, ltb, leb, ◌==◌, if◌then◌else◌, length, get_or, set, drop, replicate,
}

pub record RingBuffer {ℓ} (A : Type ℓ) : Type ℓ where
  pub messages : List (Option A)
  pub size : ℕ
  pub head : ℕ
  pub count : ℕ

module _ {ℓ} {A : Type ℓ} where
  -- A size that is not positive becomes 100.
  unfoldable pub new_ring_buffer : ℕ → RingBuffer A
  new_ring_buffer size =
      let n = if size == 0 then 100 else size in
      record { messages = replicate n none; size = n; head = 0; count = 0 }

  unfoldable pub add : RingBuffer A → Option A → RingBuffer A
  add rb msg = record rb {
    messages = set rb.messages rb.head msg;
    head = (rb.head + 1) % rb.size;
    count = if ltb rb.count rb.size then rb.count + 1 else rb.count;
  }

  -- `(head - count + size) % size` on ints; the sum is never negative, since `count <= size`.
  abbrev pub start : RingBuffer A → ℕ
  start rb = (rb.head + rb.size - rb.count) % rb.size

  -- The loop of `GetAll`, with the rounds that are left as its last argument.
  unfoldable pub collect : RingBuffer A → ℕ → ℕ → List A
  collect rb i zero = []
  collect rb i (suc k) =
      let rest = collect rb (i + 1) k in
      elim (get_or rb.messages ((start rb + i) % rb.size) none) [ none ↦ rest | some m ↦ m ∷ rest ]

  unfoldable pub get_all : RingBuffer A → List A
  get_all rb = collect rb 0 rb.count

  -- The loop of `GetSince`; `id_of` is the field `ID` of a message.
  unfoldable pub since : (A → Bytes) → Bytes → Bool → List A → List A
  since id_of after_id found [] = []
  since id_of after_id found (m ∷ ms) =
      let rest = since id_of after_id (found || str_eq (id_of m) after_id) ms in
      if found then m ∷ rest else rest

  unfoldable pub get_since : (A → Bytes) → RingBuffer A → Bytes → List A
  get_since id_of rb after_id =
      since id_of after_id
        (str_eq after_id [] || str_eq after_id (codes "0") || str_eq after_id (codes "-"))
        (get_all rb)

  -- The last `n` messages, for `n` from 0 on; a negative `n` would slice out of range, and the
  -- caller passes a positive one.
  unfoldable pub get_last : RingBuffer A → ℕ → List A
  get_last rb n =
      let all = get_all rb in if leb (length all) n then all else drop (length all - n) all

  unfoldable pub len : RingBuffer A → ℕ
  len rb = rb.count
