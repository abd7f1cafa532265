-- ===== src/Permissions/Pattern.antt =====
-- `matchPattern` of engine/permissions.go. The indices `pi` and `ci` are the suffixes that are left
-- of the pattern and of the channel.
pub mod Spec
pub mod Sound
pub mod Complete
pub mod Misses
use stream_relay.Prelude.{
  ℕ, zero, suc, ◌+◌, ◌/◌, ◌%◌, Bool, true, false, ◌&&◌, Option, none, some, List, [], ◌∷◌, ◌++◌,
  Bytes, ltb, ◌==◌, str_eq, if◌then◌else◌, length, drop,
}

abbrev pub star : ℕ
star = b'*'

-- `string(b)` of a byte is the UTF-8 text of the code point `b`: two bytes from 128 on.
unfoldable pub string_of_byte : ℕ → Bytes
string_of_byte b = if ltb b 128 then b ∷ [] else (192 + b / 64) ∷ (128 + b % 64) ∷ []

-- The loop that gathers `nextLiteral` up to the next star: the literal, and the rest of the pattern.
unfoldable pub next_literal : Bytes → Bytes × Bytes
next_literal [] = ([], [])
next_literal (x ∷ p) =
    let (literal, rest) = next_literal p in
    if x == star then ([], x ∷ p) else (string_of_byte x ++ literal, rest)

-- `channel[ci:ci+len(s)] == s`, false where the slice would be out of range.
unfoldable pub starts_with : Bytes → Bytes → Bool
starts_with [] s = true
starts_with (x ∷ l) [] = false
starts_with (x ∷ l) (y ∷ s) = x == y && starts_with l s

-- The loop that looks for the literal in the channel: what follows its first occurrence.
unfoldable pub find_literal : Bytes → Bytes → Option Bytes
find_literal literal [] = none
find_literal literal (y ∷ s) =
    let later = find_literal literal s in
    if starts_with literal (y ∷ s) then some (drop (length literal) (y ∷ s)) else later

unfoldable pub skip_stars : Bytes → Bytes
skip_stars [] = []
skip_stars (x ∷ p) = if x == star then skip_stars p else x ∷ p

abbrev pub is_nil : Bytes → Bool
is_nil [] = true
is_nil (x ∷ s) = false

-- What follows the loop: `pi == plen && ci == clen`, behind the trailing stars.
unfoldable pub finish : Bytes → Bytes → Bool
unfolding skip_stars
finish p s = is_nil (skip_stars p) && is_nil s

abbrev pub Round : Type 0
Round = Bytes → Bytes → Option Bool

continue_at : Round → Bytes → Option Bytes → Option Bool
continue_at next rest none = some false
continue_at next rest (some s) = next rest s

-- The branch of a star, with the pattern behind it.
at_star : Round → Bytes → Bytes → Option Bool
unfolding continue_at
at_star next [] s = some true
at_star next (x ∷ p) s =
    let (literal, rest) = next_literal (x ∷ p) in continue_at next rest (find_literal literal s)

-- The main loop. `none` means that the fuel ran out.
pub scan : ℕ → Round
unfolding at_star next_literal starts_with find_literal finish string_of_byte
scan zero p s = none
scan (suc f) [] s = some (finish [] s)
scan (suc f) (x ∷ p) [] = some (finish (x ∷ p) [])
scan (suc f) (x ∷ p) (y ∷ s) = elim (x == star) [
  | true ↦ at_star (scan f) p (y ∷ s)
  | false ↦ elim (x == y) [ true ↦ scan f p s | false ↦ some false ]
]

-- Every round drops a byte of the pattern, so its length is fuel enough (`Sound.scan_total`).
unfoldable pub match_pattern : Bytes → Bytes → Bool
unfolding scan
match_pattern pattern channel =
    if str_eq pattern (star ∷ [])
    then true
    else elim (scan (suc (length pattern)) pattern channel) [ none ↦ false | some b ↦ b ]
