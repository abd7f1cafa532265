-- ===== src/Permissions/Pattern/Spec.antt =====
-- What it means for a channel to match a pattern, with no search order in it.
use stream_relay.Prelude.{
  ◌<◌, ◌≡◌, ◌≢◌, refl, ◌⊎◌, inl, inr, ap, [], ◌∷◌, ◌++◌, Bytes, append_assoc, sym, ◌∙◌,
}
use stream_relay.Permissions.Pattern.{star}

-- A star stands for any run of bytes, any other byte for itself.
abbrev pub Matches : Bytes → Bytes → Type 0
Matches [] s = s ≡ []
Matches (x ∷ p) s =
    ((x ≡ star) × ((run : Bytes) × (rest : Bytes) × (s ≡ run ++ rest) × Matches p rest))
    ⊎ ((x ≢ star) × ((rest : Bytes) × (s ≡ x ∷ rest) × Matches p rest))

abbrev pub StarFree : Bytes → Type 0
StarFree [] = Unit
StarFree (x ∷ p) = (x ≢ star) × StarFree p

-- Text on which Go's byte-to-string conversion is the identity.
abbrev pub Ascii : Bytes → Type 0
Ascii [] = Unit
Ascii (x ∷ p) = (x < 128) × Ascii p

abbrev pub EndsInStar : Bytes → Type 0
EndsInStar [] = ⊥
EndsInStar (x ∷ []) = x ≡ star
EndsInStar (x ∷ y ∷ p) = EndsInStar (y ∷ p)

-- A literal in front of both keeps a match.
pub Matches-literal :
    (literal p s : Bytes) → StarFree literal → Matches p s → Matches (literal ++ p) (literal ++ s)
Matches-literal [] p s h m = m
Matches-literal (x ∷ l) p s h m = inr (h.0, (l ++ s, refl, Matches-literal l p s h.1 m))

-- A literal in front of the pattern stands in front of the text, and the rest matches.
pub literal_of_Matches :
    (literal p s : Bytes)
    → StarFree literal
    → Matches (literal ++ p) s
    → (rest : Bytes) × (s ≡ literal ++ rest) × Matches p rest
literal_of_Matches [] p s h m = (s, refl, m)
literal_of_Matches (x ∷ l) p s h (inl (e, m)) = absurd (h.0 e)
literal_of_Matches (x ∷ l) p s h (inr (n, (rest, e, m))) =
    let (tail, e', m') = literal_of_Matches l p rest h.1 m in (tail, e ∙ ap (◌∷◌ x) e', m')

-- A leading star takes more of the text.
pub Matches-extend : (p s pre : Bytes) → Matches (star ∷ p) s → Matches (star ∷ p) (pre ++ s)
Matches-extend p s pre (inl (e, (run, rest, e', m))) =
    inl (e, (pre ++ run, rest, ap (λ t. pre ++ t) e' ∙ sym (append_assoc pre run rest), m))
Matches-extend p s pre (inr (n, m)) = absurd (n refl)
