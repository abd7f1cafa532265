-- ===== src/DirectRooms/Names.antt =====
-- The name of a direct room does not depend on the order of its users, and tells pairs of users apart
-- as long as no id has a colon.
use native.Mathlib.Decide.{ℕ_discrete}
use stream_relay.Prelude.{
  ℕ, ◌≡◌, ◌≢◌, ◌⊎◌, inl, inr, refl, sym, ap, ap₂, ◌∙◌, true, false, [], ◌∷◌, ◌++◌, Bytes, codes,
  arith, append_assoc, Bool-cases,
}
use stream_relay.DirectRooms.{string_lt, generate_dm_room_id}

abbrev pub colon : ℕ
colon = 58

-- No byte of the text is a colon.
abbrev pub NoColon : Bytes → Type 0
NoColon [] = Unit
NoColon (c ∷ cs) = (c ≢ colon) × NoColon cs

-- The order of strings is asymmetric.
pub string_lt_asym : (a b : Bytes) → string_lt a b ≡ true → string_lt b a ≡ false
unfolding string_lt
string_lt_asym [] [] h = refl
string_lt_asym [] (d ∷ ds) h = refl
string_lt_asym (c ∷ cs) [] h = absurd cc
string_lt_asym (c ∷ cs) (d ∷ ds) h = let ih = string_lt_asym cs ds in ground arith

string_lt_total : (a b : Bytes) → string_lt a b ≡ false → string_lt b a ≡ false → a ≡ b
unfolding string_lt
string_lt_total [] [] h k = refl
string_lt_total [] (d ∷ ds) h k = absurd cc
string_lt_total (c ∷ cs) [] h k = absurd cc
string_lt_total (c ∷ cs) (d ∷ ds) h k =
    let ih = string_lt_total cs ds in
    elim (ℕ_discrete c d) [
      | yes same ↦ let rest : cs ≡ ds = ground arith in ap₂ (◌∷◌) same rest
      | no differs ↦ absurd (ground arith)
    ]

-- Both users get the same room, whichever of them is the sender.
pub generate_dm_room_id_comm : (a b : Bytes) → generate_dm_room_id a b ≡ generate_dm_room_id b a
unfolding generate_dm_room_id
generate_dm_room_id_comm a b =
    let asym = string_lt_asym a b in let total = string_lt_total a b in ground arith

-- A text is cut at its first colon in one way.
cut_at_colon :
    (a b c d : Bytes)
    → NoColon a
    → NoColon c
    → a ++ (colon ∷ b) ≡ c ++ (colon ∷ d)
    → (a ≡ c) × (b ≡ d)
cut_at_colon [] b [] d ha hc e = (refl, cc)
cut_at_colon [] b (x ∷ c) d ha hc e = absurd (hc.0 cc)
cut_at_colon (x ∷ a) b [] d ha hc e = absurd (ha.0 cc)
cut_at_colon (x ∷ a) b (y ∷ c) d ha hc e =
    let (same, rest) = cut_at_colon a b c d ha.1 hc.1 cc in (cc, rest)

generate_cases :
    (a b : Bytes)
    → (generate_dm_room_id a b ≡ codes "dm:" ++ a ++ codes ":" ++ b)
      ⊎ (generate_dm_room_id a b ≡ codes "dm:" ++ b ++ codes ":" ++ a)
unfolding generate_dm_room_id
generate_cases a b = elim (Bool-cases (string_lt a b)) [
  | inl e ↦ inl (rw (generate_dm_room_id, e) refl)
  | inr e ↦ inr (rw (generate_dm_room_id, e) refl)
]

same_pair :
    (a b c d : Bytes)
    → NoColon a
    → NoColon c
    → codes "dm:" ++ a ++ codes ":" ++ b ≡ codes "dm:" ++ c ++ codes ":" ++ d
    → (a ≡ c) × (b ≡ d)
same_pair a b c d ha hc e =
    let rest : (a ++ codes ":") ++ b ≡ (c ++ codes ":") ++ d = cc in
    cut_at_colon a b c d ha hc
      (sym (append_assoc a (codes ":") b) ∙ rest ∙ append_assoc c (codes ":") d)

-- Two pairs of users have the same room only if they are the same two users, if no id has a colon.
pub generate_dm_room_id_injective :
    (a b c d : Bytes)
    → NoColon a
    → NoColon b
    → NoColon c
    → NoColon d
    → generate_dm_room_id a b ≡ generate_dm_room_id c d
    → ((a ≡ c) × (b ≡ d)) ⊎ ((a ≡ d) × (b ≡ c))
generate_dm_room_id_injective a b c d ha hb hc hd e = elim (generate_cases a b) [
  | inl p ↦ elim (generate_cases c d) [
    | inl q ↦ inl (same_pair a b c d ha hc (sym p ∙ e ∙ q))
    | inr q ↦ inr (same_pair a b d c ha hd (sym p ∙ e ∙ q))
  ]
  | inr p ↦ elim (generate_cases c d) [
    | inl q ↦ let (s, t) = same_pair b a c d hb hc (sym p ∙ e ∙ q) in inr (t, s)
    | inr q ↦ let (s, t) = same_pair b a d c hb hd (sym p ∙ e ∙ q) in inl (t, s)
  ]
]

-- With colons in the ids different pairs of users share a room.
pub generate_dm_room_id_collision :
    (a b c : Bytes)
    → string_lt (a ++ colon ∷ b) c ≡ true
    → string_lt a (b ++ colon ∷ c) ≡ true
    → generate_dm_room_id (a ++ colon ∷ b) c ≡ generate_dm_room_id a (b ++ colon ∷ c)
unfolding generate_dm_room_id
generate_dm_room_id_collision a b c h k =
    let left =
      append_assoc (a ++ colon ∷ b) (codes ":") c ∙ append_assoc a (colon ∷ b) (colon ∷ c) in
    let right = append_assoc a (codes ":") (b ++ colon ∷ c) in
    rw (h, k) (ap (λ xs. codes "dm:" ++ xs) (left ∙ sym right))
