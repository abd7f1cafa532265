-- ===== src/Permissions/Pattern/Complete.antt =====
-- What `matchPattern` refuses does not match, for the patterns that end in a star or have none.
use stream_relay.Prelude.{
  ℕ, zero, suc, ◌≤◌, ◌<◌, ◌≡◌, ◌≢◌, ◌↔◌, refl, ◌⊎◌, inl, inr, ap, Bool, true, Option, some, [], ◌∷◌,
  ◌++◌, Bytes, arith, append_assoc, sym, subst, ◌∙◌, length, drop, ◌==◌, Bool-cases, drop-append,
  drop-length-append, length-append,
}
use stream_relay.Permissions.Pattern.{
  star, next_literal, starts_with, find_literal, skip_stars, finish, scan, at_star, continue_at,
  match_pattern,
}
use stream_relay.Permissions.Pattern.Spec.{
  Matches, StarFree, Ascii, EndsInStar, Matches-extend, literal_of_Matches,
}
use stream_relay.Permissions.Pattern.Sound.{
  next_literal-Cut, length-next_literal-le, match_pattern_sound,
}

pub starts_with-append_self : (l t : Bytes) → starts_with l (l ++ t) ≡ true
unfolding starts_with
starts_with-append_self [] t = refl
starts_with-append_self (x ∷ l) t = ground (arith, starts_with-append_self l t)

append-cons-ne-nil : (run : Bytes) (x : ℕ) (t : Bytes) → run ++ x ∷ t ≢ []
append-cons-ne-nil [] x t = λ e. cc
append-cons-ne-nil (y ∷ run) x t = λ e. cc

-- The first occurrence leaves at least as much text as any other.
find_literal_complete :
    (l t run : Bytes)
    → run ++ (l ++ t) ≢ []
    → (pre : Bytes) × (find_literal l (run ++ (l ++ t)) ≡ some (pre ++ t))
unfolding find_literal starts_with
find_literal_complete [] [] [] h = absurd (h refl)
find_literal_complete [] (z ∷ t) [] h = ([], refl)
find_literal_complete [] t (y ∷ run) h = (y ∷ run, refl)
find_literal_complete (x ∷ l) t [] h =
    ([], rw (starts_with-append_self (x ∷ l) t, drop-length-append (x ∷ l) t))
find_literal_complete (x ∷ l) t (y ∷ run) h =
    let whole = y ∷ run ++ (x ∷ l ++ t) in
    elim (Bool-cases (starts_with (x ∷ l) whole)) [
      | inl here ↦ (
        drop (length (x ∷ l)) ((y ∷ run) ++ (x ∷ l)),
        ground (
          arith,
          append_assoc (y ∷ run) (x ∷ l) t,
          drop-append (length (x ∷ l)) ((y ∷ run) ++ (x ∷ l)) t,
          length-append (y ∷ run) (x ∷ l),
        ),
      )
      | inr later ↦
          let (pre, e) = find_literal_complete (x ∷ l) t run (append-cons-ne-nil run x (l ++ t)) in
          (pre, ground arith)
    ]

-- Behind the literal stands a star, if the pattern ends in one.
next_literal-EndsInStar :
    (p : Bytes)
    → EndsInStar p
    → (r : Bytes) × ((next_literal p).1 ≡ star ∷ r) × EndsInStar (star ∷ r)
unfolding next_literal
next_literal-EndsInStar [] h = absurd h
next_literal-EndsInStar (x ∷ []) h = ([], ground arith, refl)
next_literal-EndsInStar (x ∷ y ∷ p) h = elim (Bool-cases (x == star)) [
  | inl e ↦ (y ∷ p, ground arith, h)
  | inr n ↦ let (r, e, k) = next_literal-EndsInStar (y ∷ p) h in (r, ground arith, k)
]

skip_stars_of_Matches : (p : Bytes) → Matches p [] → skip_stars p ≡ []
unfolding skip_stars
skip_stars_of_Matches [] m = refl
skip_stars_of_Matches (x ∷ p) (inl (e, ([], rest, e', m))) =
    ground (arith, skip_stars_of_Matches p (rw (← e') at m))
skip_stars_of_Matches (x ∷ p) (inl (e, (z ∷ run, rest, e', m))) = absurd (cc)
skip_stars_of_Matches (x ∷ p) (inr (n, (rest, e, m))) = absurd (cc)

Matches-extend_of_star :
    (rest r tail pre : Bytes) → rest ≡ star ∷ r → Matches rest tail → Matches rest (pre ++ tail)
Matches-extend_of_star rest r tail pre e m =
    subst (λ q. Matches q (pre ++ tail)) (sym e)
      (Matches-extend r tail pre (subst (λ q. Matches q tail) e m))

continue_at-some :
    (next : Bytes → Bytes → Option Bool) (rest t : Bytes) (found : Option Bytes)
    → found ≡ some t
    → next rest t ≡ some true
    → continue_at next rest found ≡ some true
unfolding continue_at
continue_at-some next rest t found e h = rw e h

at_star_complete :
    (next : Bytes → Bytes → Option Bool) (p s : Bytes)
    → s ≢ []
    → Ascii p
    → EndsInStar (star ∷ p)
    → Matches (star ∷ p) s
    → ((rest t : Bytes)
        → length rest ≤ length p
        → Ascii rest
        → EndsInStar rest
        → Matches rest t
        → next rest t ≡ some true)
    → at_star next p s ≡ some true
unfolding at_star
at_star_complete next [] s ne a h m ih = refl
at_star_complete next (x ∷ p) s ne a h (inr (n, m)) ih = absurd (n refl)
at_star_complete next (x ∷ p) s ne a h (inl (_, (run, behind, e, m))) ih =
    let literal = (next_literal (x ∷ p)).0 in
    let rest = (next_literal (x ∷ p)).1 in
    let c = next_literal-Cut (x ∷ p) a in
    let (r, er, k) = next_literal-EndsInStar (x ∷ p) h in
    let (tail, e', m') =
      literal_of_Matches literal rest behind c.free (subst (λ q. Matches q behind) c.whole m) in
    let whole = e ∙ ap (λ t. run ++ t) e' in
    let (pre, found) = find_literal_complete literal tail run (λ z. ne (whole ∙ z)) in
    continue_at-some next rest (pre ++ tail) (find_literal literal s)
      (ap (find_literal literal) whole ∙ found)
      (ih rest (pre ++ tail) (length-next_literal-le (x ∷ p)) c.rest_ascii
        (subst EndsInStar (sym er) k) (Matches-extend_of_star rest r tail pre er m'))

EndsInStar-tail : (x : ℕ) (p : Bytes) → x ≢ star → EndsInStar (x ∷ p) → EndsInStar p
EndsInStar-tail x [] n h = absurd (n h)
EndsInStar-tail x (y ∷ p) n h = h

scan_complete :
    (f : ℕ) (p s : Bytes)
    → length p < f
    → Ascii p
    → EndsInStar p
    → Matches p s
    → scan f p s ≡ some true
unfolding scan finish
scan_complete zero p s l a h m = absurd (omega arith)
scan_complete (suc f) [] s l a h m = absurd h
scan_complete (suc f) (x ∷ p) [] l a h m = rw (skip_stars_of_Matches (x ∷ p) m)
scan_complete (suc f) (x ∷ p) (y ∷ s) l a h (inl (e, m)) =
    let starred =
      at_star_complete (scan f) p (y ∷ s) (λ z. cc) a.1 (subst (λ q. EndsInStar (q ∷ p)) e h)
        (inl (refl, m)) (λ rest t k. scan_complete f rest t (omega arith)) in
    ground arith
scan_complete (suc f) (x ∷ p) (y ∷ s) l a h (inr (n, (rest, e, m))) =
    let tail : s ≡ rest = cc in
    let onward = scan_complete f p s (omega arith) a.1 (EndsInStar-tail x p n h) (rw tail m) in
    let same : y ≡ x = cc in ground arith

Matches-of_StarFree : (p s : Bytes) → StarFree p → Matches p s → p ≡ s
Matches-of_StarFree [] s f m = sym m
Matches-of_StarFree (x ∷ p) s f (inl (e, m)) = absurd (f.0 e)
Matches-of_StarFree (x ∷ p) s f (inr (n, (rest, e, m))) =
    ap (◌∷◌ x) (Matches-of_StarFree p rest f.1 m) ∙ sym e

scan_self : (f : ℕ) (p : Bytes) → length p < f → StarFree p → scan f p p ≡ some true
unfolding scan finish skip_stars
scan_self zero p l h = absurd (omega arith)
scan_self (suc f) [] l h = refl
scan_self (suc f) (x ∷ p) l h = let onward = scan_self f p (omega arith) h.1 in ground arith

match_pattern_of_scan :
    (pattern channel : Bytes)
    → scan (suc (length pattern)) pattern channel ≡ some true
    → match_pattern pattern channel ≡ true
unfolding match_pattern
match_pattern_of_scan pattern channel h = ground arith

-- On an ASCII pattern that ends in a star or has none, `matchPattern` accepts exactly the channels
-- that match.
pub match_pattern_iff :
    (pattern channel : Bytes)
    → Ascii pattern
    → StarFree pattern ⊎ EndsInStar pattern
    → (match_pattern pattern channel ≡ true) ↔ Matches pattern channel
match_pattern_iff pattern channel a (inl free) = (
  match_pattern_sound pattern channel a,
  λ m.
      let e = Matches-of_StarFree pattern channel free m in
      match_pattern_of_scan pattern channel (
        subst (λ s. scan (suc (length pattern)) pattern s ≡ some true) e
          (scan_self (suc (length pattern)) pattern (omega arith) free)),
)
match_pattern_iff pattern channel a (inr starred) = (
  match_pattern_sound pattern channel a,
  λ m.
      match_pattern_of_scan pattern channel
        (scan_complete (suc (length pattern)) pattern channel (omega arith) a starred m),
)
