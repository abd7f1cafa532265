-- ===== src/Prelude/Digits.antt =====
-- The bit operations digit by digit, and induction on the binary digits of three numbers.
use Prim.Native.Nat.{
  ℕ, zero, suc, ◌+◌, ◌*◌, ◌/◌, ◌%◌, ◌≤◌, ◌<◌, min, max, differ, bit_and, bit_or, bit_xor, digits,
  bit_and-bitwise, bit_or-bitwise, bit_xor-bitwise,
}
use mathlib.Core.Path.{◌≡◌, refl, sym, ap, ◌∙◌}
use native.Mathlib.Omega.{arith}

-- An operation on digits, `z` where the first number has run out and `f` elsewhere.
module _ (z : ℕ → ℕ) (f : ℕ → ℕ → ℕ) where
  run_out : (rounds rest : ℕ) → digits z f rounds 0 rest ≡ z rest
  run_out zero rest = refl
  run_out (suc rounds) rest = refl

  rounds_agree : (k l x y : ℕ) → x ≤ k → x ≤ l → digits z f k x y ≡ digits z f l x y
  rounds_agree k l zero y hk hl = run_out k y ∙ sym (run_out l y)
  rounds_agree zero l (suc x) y hk hl = absurd (omega arith)
  rounds_agree (suc k) zero (suc x) y hk hl = absurd (omega arith)
  rounds_agree (suc k) (suc l) (suc x) y hk hl =
      ap (λ t. t * 2 + f (suc x % 2) (y % 2))
        (rounds_agree k l (suc x / 2) (y / 2) (omega arith) (omega arith))

  -- One digit off, if that is so once the first number has run out.
  halve :
      ((y : ℕ) → z y ≡ z (y / 2) * 2 + f 0 (y % 2))
      → (x y : ℕ) → digits z f x x y ≡ digits z f (x / 2) (x / 2) (y / 2) * 2 + f (x % 2) (y % 2)
  halve at_end zero y = at_end y
  halve at_end (suc x) y =
      ap (λ t. t * 2 + f (suc x % 2) (y % 2))
        (rounds_agree x (suc x / 2) (suc x / 2) (y / 2) (omega arith) (omega arith))

pub bit_and_step : (x y : ℕ) → bit_and x y ≡ bit_and (x / 2) (y / 2) * 2 + min (x % 2) (y % 2)
bit_and_step x y = omega (
  arith,
  bit_and-bitwise x y,
  bit_and-bitwise (x / 2) (y / 2),
  halve (λ _. 0) min (λ y. omega arith) x y,
)

pub bit_or_step : (x y : ℕ) → bit_or x y ≡ bit_or (x / 2) (y / 2) * 2 + max (x % 2) (y % 2)
bit_or_step x y = omega (
  arith,
  bit_or-bitwise x y,
  bit_or-bitwise (x / 2) (y / 2),
  halve (λ y. y) max (λ y. omega arith) x y,
)

differ_below_two : (x y : ℕ) → x < 2 → y < 2 → differ x y ≡ (x + y) % 2
differ_below_two zero y p q = omega arith
differ_below_two (suc zero) zero p q = refl
differ_below_two (suc zero) (suc zero) p q = refl
differ_below_two (suc zero) (suc (suc y)) p q = absurd (omega arith)
differ_below_two (suc (suc x)) y p q = absurd (omega arith)

pub bit_xor_step : (x y : ℕ) → bit_xor x y ≡ bit_xor (x / 2) (y / 2) * 2 + (x % 2 + y % 2) % 2
bit_xor_step x y = omega (
  arith,
  bit_xor-bitwise x y,
  bit_xor-bitwise (x / 2) (y / 2),
  halve (λ y. y) differ (λ y. omega arith) x y,
  differ_below_two (x % 2) (y % 2) (omega arith) (omega arith),
)

-- The same with the halves named, for operands that are results of bit operations.
pub bit_and_halves :
    (a b a' b' : ℕ)
    → a / 2 ≡ a'
    → b / 2 ≡ b'
    → bit_and a b ≡ bit_and a' b' * 2 + min (a % 2) (b % 2)
bit_and_halves a b a' b' p q = rw (← p, ← q) (bit_and_step a b)

pub bit_xor_halves :
    (a b a' b' : ℕ)
    → a / 2 ≡ a'
    → b / 2 ≡ b'
    → bit_xor a b ≡ bit_xor a' b' * 2 + (a % 2 + b % 2) % 2
bit_xor_halves a b a' b' p q = rw (← p, ← q) (bit_xor_step a b)

-- What holds at zero, and at three numbers whenever it holds at their halves, holds everywhere.
module _ {ℓ} (P : ℕ → ℕ → ℕ → Type ℓ) (base : P 0 0 0)
    (step : (a b c : ℕ) → P (a / 2) (b / 2) (c / 2) → P a b c) where
  halves_below : (n a b c : ℕ) → a ≤ n → b ≤ n → c ≤ n → P a b c
  halves_below zero zero zero zero p q r = base
  halves_below zero zero zero (suc c) p q r = absurd (omega arith)
  halves_below zero zero (suc b) c p q r = absurd (omega arith)
  halves_below zero (suc a) b c p q r = absurd (omega arith)
  halves_below (suc n) a b c p q r =
      step a b c (halves_below n (a / 2) (b / 2) (c / 2) (omega arith) (omega arith) (omega arith))

  pub halves_induction : (a b c : ℕ) → P a b c
  halves_induction a b c = halves_below (a + b + c) a b c (omega arith) (omega arith) (omega arith)
