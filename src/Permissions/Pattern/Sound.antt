-- ===== src/Permissions/Pattern/Sound.antt =====
-- What `matchPattern` accepts does match, for patterns in ASCII; and its loop ends.
use stream_relay.Prelude.{
  ℕ, zero, suc, ◌≤◌, ◌<◌, ◌≡◌, refl, inl, inr, ap, Bool, true, false, Option, none, some, [], ◌∷◌,
  ◌++◌, Bytes, arith, append-nil, sym, length, drop, ◌==◌, Bool-cases, Bytes-discrete,
}
use stream_relay.Permissions.Pattern.{
  star, string_of_byte, next_literal, starts_with, find_literal, skip_stars, finish, scan, at_star,
  continue_at, match_pattern,
}
use stream_relay.Permissions.Pattern.Spec.{Matches, StarFree, Ascii, Matches-literal}

-- The literal is free of stars, and pattern and rest fit together.
pub record Cut (p literal rest : Bytes) : Type 0 where
  pub whole : p ≡ literal ++ rest
  pub free : StarFree literal
  pub rest_ascii : Ascii rest

pub next_literal-Cut : (p : Bytes) → Ascii p → Cut p (next_literal p).0 (next_literal p).1
unfolding next_literal string_of_byte
next_literal-Cut [] h = record { whole = refl; free = tt; rest_ascii = tt }
next_literal-Cut (x ∷ p) h = ground (arith, next_literal-Cut p h.1)

pub length-next_literal-le : (p : Bytes) → length (next_literal p).1 ≤ length p
unfolding next_literal
length-next_literal-le [] = omega arith
length-next_literal-le (x ∷ p) = ground (arith, length-next_literal-le p)

starts_with-append : (l s : Bytes) → starts_with l s ≡ true → s ≡ l ++ drop (length l) s
unfolding starts_with
starts_with-append [] s h = refl
starts_with-append (x ∷ l) [] h = cc
starts_with-append (x ∷ l) (y ∷ s) h = ground (arith, starts_with-append l s)

find_literal_sound :
    (l s t : Bytes) → find_literal l s ≡ some t → (pre : Bytes) × (s ≡ pre ++ (l ++ t))
unfolding find_literal
find_literal_sound l [] t h = cc
find_literal_sound l (y ∷ s) t h = elim (Bool-cases (starts_with l (y ∷ s))) [
  | inl here ↦ ([], ground (arith, starts_with-append l (y ∷ s)))
  | inr later ↦ let (pre, e) = find_literal_sound l s t (ground arith) in (y ∷ pre, ap (◌∷◌ y) e)
]

finish_sound : (p s : Bytes) → finish p s ≡ true → Matches p s
unfolding finish skip_stars
finish_sound [] [] h = refl
finish_sound [] (y ∷ s) h = cc
finish_sound (x ∷ p) s h = elim (Bool-cases (x == star)) [
  | inl e ↦ inl (ground arith, ([], s, refl, finish_sound p s (ground arith)))
  | inr n ↦ absurd (ground arith)
]

continue_at_sound :
    (next : Bytes → Bytes → Option Bool) (p l rest s : Bytes) (found : Option Bytes)
    → Cut p l rest
    → find_literal l s ≡ found
    → ((t : Bytes) → next rest t ≡ some true → Matches rest t)
    → continue_at next rest found ≡ some true
    → Matches (star ∷ p) s
unfolding continue_at
continue_at_sound next p l rest s none c e ih h = absurd (cc)
continue_at_sound next p l rest s (some t) c e ih h =
    let (pre, e') = find_literal_sound l s t e in
    inl (refl, (pre, l ++ t, e', subst' c.whole (Matches-literal l rest t c.free (ih t h))))
  where
    subst' : {q : Bytes} → q ≡ l ++ rest → Matches (l ++ rest) (l ++ t) → Matches q (l ++ t)
    subst' e m = rw e m

Matches-star_all : (s : Bytes) → Matches (star ∷ []) s
Matches-star_all s = inl (refl, (s, [], sym (append-nil s), refl))

at_star_sound :
    (next : Bytes → Bytes → Option Bool) (p s : Bytes)
    → Ascii p
    → ((rest t : Bytes) → Ascii rest → next rest t ≡ some true → Matches rest t)
    → at_star next p s ≡ some true
    → Matches (star ∷ p) s
unfolding at_star
at_star_sound next [] s a ih h = Matches-star_all s
at_star_sound next (x ∷ p) s a ih h =
    let c = next_literal-Cut (x ∷ p) a in
    continue_at_sound next (x ∷ p) (next_literal (x ∷ p)).0 (next_literal (x ∷ p)).1 s
      (find_literal (next_literal (x ∷ p)).0 s) c refl (λ t. ih _ t c.rest_ascii) h

scan_sound : (f : ℕ) (p s : Bytes) → Ascii p → scan f p s ≡ some true → Matches p s
unfolding scan
scan_sound zero p s a h = absurd (cc)
scan_sound (suc f) [] s a h = finish_sound [] s (ground arith)
scan_sound (suc f) (x ∷ p) [] a h = finish_sound (x ∷ p) [] (ground arith)
scan_sound (suc f) (x ∷ p) (y ∷ s) a h = elim (Bool-cases (x == star)) [
  | inl e ↦
      let e' : x ≡ star = ground arith in
      rw e' (at_star_sound (scan f) p (y ∷ s) a.1 (scan_sound f) (ground arith))
  | inr n ↦ elim (Bool-cases (x == y)) [
    | inl e ↦
        inr (ground arith, (s, ap (λ t. t ∷ s) (ground arith), scan_sound f p s a.1 (ground arith)))
    | inr d ↦ absurd (ground arith)
  ]
]

-- A pattern and a channel that `matchPattern` accepts match, if the pattern is ASCII.
pub match_pattern_sound :
    (pattern channel : Bytes)
    → Ascii pattern
    → match_pattern pattern channel ≡ true
    → Matches pattern channel
unfolding match_pattern
match_pattern_sound pattern channel a h = elim (Bytes-discrete pattern (star ∷ [])) [
  | yes e ↦ rw e (Matches-star_all channel)
  | no n ↦ scan_sound (suc (length pattern)) pattern channel a (ground arith)
]

continue_at_total :
    (next : Bytes → Bytes → Option Bool) (rest : Bytes) (found : Option Bytes)
    → ((t : Bytes) → (b : Bool) × (next rest t ≡ some b))
    → (b : Bool) × (continue_at next rest found ≡ some b)
unfolding continue_at
continue_at_total next rest none ih = (false, refl)
continue_at_total next rest (some t) ih = ih t

at_star_total :
    (next : Bytes → Bytes → Option Bool) (p s : Bytes)
    → ((rest t : Bytes) → length rest ≤ length p → (b : Bool) × (next rest t ≡ some b))
    → (b : Bool) × (at_star next p s ≡ some b)
unfolding at_star
at_star_total next [] s ih = (true, refl)
at_star_total next (x ∷ p) s ih =
    continue_at_total next (next_literal (x ∷ p)).1 (find_literal (next_literal (x ∷ p)).0 s)
      (λ t. ih _ t (length-next_literal-le (x ∷ p)))

-- The main loop ends: a fuel above the pattern's length never runs out.
pub scan_total : (f : ℕ) (p s : Bytes) → length p < f → (b : Bool) × (scan f p s ≡ some b)
unfolding scan
scan_total zero p s h = absurd (omega arith)
scan_total (suc f) [] s h = (finish [] s, refl)
scan_total (suc f) (x ∷ p) [] h = (finish (x ∷ p) [], refl)
scan_total (suc f) (x ∷ p) (y ∷ s) h = elim (Bool-cases (x == star)) [
  | inl e ↦
      let (b, r) =
        at_star_total (scan f) p (y ∷ s) (λ rest t l. scan_total f rest t (omega arith)) in
      (b, ground arith)
  | inr n ↦
      let (b, r) = scan_total f p s (omega arith) in
      elim (Bool-cases (x == y)) [ inl e ↦ (b, ground arith) | inr d ↦ (false, ground arith) ]
]
