-- ===== src/RingBuffer/Tests.antt =====
-- Runs of the ring buffer, and its theorems at concrete buffers.
use stream_relay.Prelude.{
  ◌≡◌, refl, Option, some, List, [], ◌∷◌, Bytes, codes, Bytes-discrete, arith,
}
use stream_relay.RingBuffer.{
  RingBuffer, new_ring_buffer, add, collect, get_all, since, get_since, get_last,
}
use stream_relay.RingBuffer.Window.{IsValid, last, somes}
use stream_relay.RingBuffer.Reads.{add_each, get_all-add_each}

-- Messages that are their own ids.
abbrev four : List (Option Bytes)
four = some (codes "a") ∷ some (codes "b") ∷ some (codes "c") ∷ some (codes "d") ∷ []

abbrev full : RingBuffer Bytes
full = record {
  messages = some (codes "d") ∷ some (codes "b") ∷ some (codes "c") ∷ [];
  size = 3;
  head = 1;
  count = 3;
}

program : Unit {0}
unfolding new_ring_buffer add collect get_all since get_since get_last Bytes-discrete
program = tt

wraps :
    (add_each (new_ring_buffer 3) four ≡ full)
    × (get_all full ≡ codes "b" ∷ codes "c" ∷ codes "d" ∷ [])
    × (get_since (λ m. m) full (codes "c") ≡ codes "d" ∷ [])
    × (get_since (λ m. m) full (codes "a") ≡ [])
    × (get_last full 2 ≡ codes "c" ∷ codes "d" ∷ [])
unfolding program
wraps = (refl, refl, refl, refl, refl)

full-IsValid : IsValid full
full-IsValid = record {
  slots_are_size = refl;
  positive = omega arith;
  head_in = omega arith;
  count_in = omega arith;
}

get_all-add_each_example : get_all (add_each (new_ring_buffer 3) four) ≡ somes (last 3 four)
get_all-add_each_example = get_all-add_each 3 four
