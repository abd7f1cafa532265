-- ===== src/Permissions/Bits/Laws.antt =====
-- The operations of `Permission` are those of a lattice of sets of rights, at every bit width.
use Prim.Native.Nat.{bit_and, bit_or, bit_xor}
use stream_relay.Prelude.Digits.{
  bit_and_step, bit_or_step, bit_and_halves, bit_xor_halves, halves_induction,
}
use stream_relay.Prelude.{◌/◌, ◌≡◌, ◌↔◌, true, arith}
use stream_relay.Permissions.Bits.{Permission, has, add, remove}

-- `has` as an equation.
has_iff : (p r : Permission) → (has p r ≡ true) ↔ (bit_and p r ≡ r)
unfolding has
has_iff p r = ground arith

-- One digit of each law; the induction is on the digits.
abbrev JoinLaws : Permission → Permission → Permission → Type 0
JoinLaws p q r =
    (bit_and (bit_or p q) q ≡ q)
    × (bit_and (bit_or p q) p ≡ p)
    × (bit_and p r ≡ r → bit_and (bit_or p q) r ≡ r)
    × (bit_and r p ≡ p → bit_and r q ≡ q → bit_and r (bit_or p q) ≡ bit_or p q)

bit_or_laws : (p q r : Permission) → JoinLaws p q r
bit_or_laws = halves_induction JoinLaws (omega arith) λ p q r ih.
    let s = bit_or (p / 2) (q / 2) in
    omega (
      arith,
      ih.0,
      ih.1,
      ih.2,
      ih.3,
      bit_or_step p q,
      bit_and_step p r,
      bit_and_step r p,
      bit_and_step r q,
      bit_and_halves (bit_or p q) q s (q / 2) (omega (arith, bit_or_step p q)) (omega arith),
      bit_and_halves (bit_or p q) p s (p / 2) (omega (arith, bit_or_step p q)) (omega arith),
      bit_and_halves (bit_or p q) r s (r / 2) (omega (arith, bit_or_step p q)) (omega arith),
      bit_and_halves r (bit_or p q) (r / 2) s (omega arith) (omega (arith, bit_or_step p q)),
    )

abbrev ClearLaws : Permission → Permission → Permission → Type 0
ClearLaws p q r =
    let c = bit_xor p (bit_and p q) in
    (bit_and c r ≡ r → bit_and p r ≡ r)
    × (bit_and c r ≡ r → bit_and q r ≡ 0)
    × (bit_and p r ≡ r → bit_and q r ≡ 0 → bit_and c r ≡ r)

remainder_laws : (p q r : Permission) → ClearLaws p q r
remainder_laws = halves_induction ClearLaws (omega arith) λ p q r ih.
    let d = bit_and (p / 2) (q / 2) in
    let c = bit_xor (p / 2) d in
    let half =
      bit_xor_halves p (bit_and p q) (p / 2) d (omega arith) (omega (arith, bit_and_step p q)) in
    omega (
      arith,
      ih.0,
      ih.1,
      ih.2,
      half,
      bit_and_step p q,
      bit_and_step p r,
      bit_and_step q r,
      bit_and_halves (bit_xor p (bit_and p q)) r c (r / 2) (omega (arith, half)) (omega arith),
    )

-- `Add` is the least upper bound: the sum has both sets of rights, and whatever has both has the sum.
pub has-add :
    (p q r : Permission)
    → (has (add p q) p ≡ true)
      × (has (add p q) q ≡ true)
      × (has r p ≡ true → has r q ≡ true → has r (add p q) ≡ true)
unfolding add
has-add p q r = (
  (has_iff _ _).1 (bit_or_laws p q r).1,
  (has_iff _ _).1 (bit_or_laws p q r).0,
  λ hp hq. (has_iff _ _).1 ((bit_or_laws p q r).3 ((has_iff _ _).0 hp) ((has_iff _ _).0 hq)),
)

-- `Add` loses no right.
pub has-add_of_has : (p q r : Permission) → has p r ≡ true → has (add p q) r ≡ true
unfolding add
has-add_of_has p q r h = (has_iff _ _).1 ((bit_or_laws p q r).2 ((has_iff _ _).0 h))

-- A right is left after `Remove` exactly when it was there and shares no bit with what is removed.
pub has-remove_iff :
    (p q r : Permission) → (has (remove p q) r ≡ true) ↔ ((has p r ≡ true) × (bit_and q r ≡ 0))
unfolding remove
has-remove_iff p q r = (
  λ h. (
    (has_iff _ _).1 ((remainder_laws p q r).0 ((has_iff _ _).0 h)),
    (remainder_laws p q r).1 ((has_iff _ _).0 h),
  ),
  λ h. (has_iff _ _).1 ((remainder_laws p q r).2 ((has_iff _ _).0 h.0) h.1),
)

abbrev TransLaw : Permission → Permission → Permission → Type 0
TransLaw p q r = bit_and p q ≡ q → bit_and q r ≡ r → bit_and p r ≡ r

bit_and_trans : (p q r : Permission) → TransLaw p q r
bit_and_trans =
    halves_induction TransLaw (omega arith)
      λ p q r ih. omega (arith, ih, bit_and_step p q, bit_and_step q r, bit_and_step p r)

-- Rights are inherited.
pub has_trans : (p q r : Permission) → has p q ≡ true → has q r ≡ true → has p r ≡ true
has_trans p q r h k = (has_iff _ _).1 (bit_and_trans p q r ((has_iff _ _).0 h) ((has_iff _ _).0 k))

abbrev ReflLaw : Permission → Permission → Permission → Type 0
ReflLaw p _ _ = bit_and p p ≡ p

pub has_self : (p : Permission) → has p p ≡ true
has_self p =
    (has_iff _ _).1 (
      halves_induction ReflLaw (omega arith) (λ p q r ih. omega (arith, ih, bit_and_step p p)) p p
        p)
