-- ===== src/Prelude/Strings.antt =====
-- Go strings and byte slices: lists of bytes, with a decidable equality.
use Prim.Native.Nat.{ℕ}
use Prim.Native.Char.{code}
use Prim.Native.String.{String}
use mathlib.Core.Bool.{Bool, true, false}
use mathlib.Core.List.{List, [], ◌∷◌}
use native.Mathlib.Decide.{ℕ_discrete}

abbrev pub Bytes : Type 0
Bytes = List ℕ

-- The bytes of an ASCII literal.
abbrev pub codes : String → Bytes
codes String.[] = []
codes (String.◌∷◌ c s) = code c ∷ codes s

unfoldable pub Bytes-discrete : Discrete Bytes
unfolding ℕ_discrete
Bytes-discrete = hlevel ℕ_discrete

-- `a == b` on strings. `ground` splits on the decision and has its proof.
abbrev pub str_eq : Bytes → Bytes → Bool
str_eq a b = elim (Bytes-discrete a b) [ yes _ ↦ true | no _ ↦ false ]
