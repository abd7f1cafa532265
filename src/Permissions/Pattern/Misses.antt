-- ===== src/Permissions/Pattern/Misses.antt =====
-- Channels that match a pattern and that `matchPattern` refuses.
use stream_relay.Prelude.{
  ℕ, ◌≤◌, ◌≡◌, refl, inl, inr, false, some, [], ◌∷◌, ◌++◌, Bytes, arith, append_assoc, sym,
  drop-length-append,
}
use stream_relay.Permissions.Pattern.{
  star, string_of_byte, next_literal, starts_with, find_literal, finish, scan, at_star, continue_at,
  match_pattern,
}
use stream_relay.Permissions.Pattern.Spec.{Matches, StarFree, Ascii}
use stream_relay.Permissions.Pattern.Complete.{starts_with-append_self}

next_literal_of_StarFree : (p : Bytes) → Ascii p → StarFree p → next_literal p ≡ (p, [])
unfolding next_literal string_of_byte
next_literal_of_StarFree [] a f = refl
next_literal_of_StarFree (x ∷ p) a f = ground (arith, next_literal_of_StarFree p a.1 f.1)

find_literal_at_head : (x : ℕ) (l t : Bytes) → find_literal (x ∷ l) ((x ∷ l) ++ t) ≡ some t
unfolding find_literal
find_literal_at_head x l t = rw (starts_with-append_self (x ∷ l) t, drop-length-append (x ∷ l) t)

Matches-self : (p : Bytes) → StarFree p → Matches p p
Matches-self [] f = refl
Matches-self (x ∷ p) f = inr (f.0, (p, refl, Matches-self p f.1))

-- The search takes the first occurrence of a literal and never tries a later one: the pattern of a
-- star and an ASCII literal refuses the literal, any nonempty text, and the literal again, though
-- that matches.
pub match_pattern-suffix_miss :
    (x y : ℕ) (l text : Bytes)
    → Ascii (x ∷ l)
    → StarFree (x ∷ l)
    → Matches (star ∷ x ∷ l) (x ∷ l ++ (y ∷ text ++ x ∷ l))
      × (match_pattern (star ∷ x ∷ l) (x ∷ l ++ (y ∷ text ++ x ∷ l)) ≡ false)
unfolding match_pattern scan at_star continue_at finish
match_pattern-suffix_miss x y l text a f = (
  inl (
    refl,
    (
      x ∷ l ++ y ∷ text,
      x ∷ l,
      sym (append_assoc (x ∷ l) (y ∷ text) (x ∷ l)),
      Matches-self (x ∷ l) f,
    ),
  ),
  ground
      (arith, next_literal_of_StarFree (x ∷ l) a f, find_literal_at_head x l (y ∷ text ++ x ∷ l)),
)

-- A byte from 128 on is searched for as the two bytes of its code point: the pattern of a star and
-- such a byte refuses the byte, though that matches.
pub match_pattern-byte_miss :
    (b : ℕ)
    → 128 ≤ b
    → Matches (star ∷ b ∷ []) (b ∷ []) × (match_pattern (star ∷ b ∷ []) (b ∷ []) ≡ false)
unfolding match_pattern scan at_star continue_at next_literal string_of_byte find_literal
    starts_with
match_pattern-byte_miss b h =
    (inl (refl, ([], b ∷ [], refl, Matches-self (b ∷ []) (omega arith, tt))), ground arith)
