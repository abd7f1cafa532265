-- ===== src/RingBuffer/Indices.antt =====
-- Index arithmetic round a buffer: `h` is the head, `c` the count, `n` the size.
use native.Mathlib.Nat.{mod-eq_of_lt, mod-eq-sub-mod}
use native.Mathlib.Decide.{dec_lt}
use stream_relay.Prelude.{ℕ, suc, ◌+◌, ◌-◌, ◌%◌, ◌≤◌, ◌<◌, ◌≡◌, ◌≢◌, ◌⊎◌, inl, inr, ◌∙◌, arith}

-- A remainder below twice the modulus.
pub mod_cases : (x n : ℕ) → x < n + n → ((x < n) × (x % n ≡ x)) ⊎ ((n ≤ x) × (x % n ≡ x - n))
mod_cases x n h = elim (dec_lt x n) [
  | yes p ↦ inl (p, mod-eq_of_lt p)
  | no p ↦ inr (
    omega arith,
    mod-eq-sub-mod {n = x} {m = n} (omega arith) ∙ mod-eq_of_lt {n = x - n} {m = n} (omega arith),
  )
]

module _ (h c n : ℕ) (inside : h < n) where
  -- with room, the start stays
  pub start_stays : c < n → ((h + 1) % n + n - suc c) % n ≡ (h + n - c) % n
  start_stays room = omega (
    arith,
    mod_cases (h + 1) n (omega arith),
    mod_cases ((h + 1) % n + n - suc c) n (omega (arith, mod_cases (h + 1) n (omega arith))),
    mod_cases (h + n - c) n (omega arith),
  )

  start_below : (h + n - c) % n < n
  start_below = omega (arith, mod_cases (h + n - c) n (omega arith))

  -- behind what is held comes the head
  pub past_held : c ≤ n → ((h + n - c) % n + c) % n ≡ h
  past_held fits = omega (
    arith,
    mod_cases (h + n - c) n (omega arith),
    mod_cases ((h + n - c) % n + c) n (omega (arith, start_below)),
  )

  pub outside_held : (j : ℕ) → c < n → j < c → h ≢ ((h + n - c) % n + j) % n
  outside_held j fits lt = omega (
    arith,
    mod_cases (h + n - c) n (omega arith),
    mod_cases ((h + n - c) % n + j) n (omega (arith, start_below)),
  )

module _ (h n : ℕ) (inside : h < n) where
  next_below : (h + 1) % n < n
  next_below = omega (arith, mod_cases (h + 1) n (omega arith))

  -- a full buffer starts at its head
  pub start_of_full : (h + n - n) % n ≡ h
  start_of_full = omega (arith, mod_cases (h + n - n) n (omega arith))

  -- and from the next head on it is the rest, round to the head
  pub next_shift : (j : ℕ) → j < n → ((h + 1) % n + j) % n ≡ (h + (j + 1)) % n
  next_shift j lt = omega (
    arith,
    mod_cases (h + 1) n (omega arith),
    mod_cases ((h + 1) % n + j) n (omega (arith, next_below)),
    mod_cases (h + (j + 1)) n (omega arith),
  )

  pub next_last : (m : ℕ) → n ≡ suc m → ((h + 1) % n + m) % n ≡ h
  next_last m e = omega (
    arith,
    mod_cases (h + 1) n (omega arith),
    mod_cases ((h + 1) % n + m) n (omega (arith, next_below)),
  )

  pub next_outside : (j : ℕ) → j + 1 < n → h ≢ ((h + 1) % n + j) % n
  next_outside j lt = omega (
    arith,
    mod_cases (h + 1) n (omega arith),
    mod_cases ((h + 1) % n + j) n (omega (arith, next_below)),
  )

  pub next_start : (m : ℕ) → n ≡ suc m → ((h + 1) % n + n - suc m) % n ≡ (h + 1) % n
  next_start m e = omega (
    arith,
    mod_cases (h + 1) n (omega arith),
    mod_cases ((h + 1) % n + n - suc m) n (omega (arith, next_below)),
  )
