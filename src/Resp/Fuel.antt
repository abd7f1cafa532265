-- ===== src/Resp/Fuel.antt =====
-- What the reads of lines, numbers and data leave of the input.
use stream_relay.Prelude.{
  ℕ, suc, ◌+◌, ◌≤◌, subst, ◌&&◌, Option, none, some, [], ◌∷◌, Bytes, leb, ◌==◌, arith, length,
  get_or, length-drop, Option-cases, Bool-cases, inl, inr,
}
use stream_relay.Decimal.{parse_int}
use stream_relay.Resp.Wire.{
  Read, done, failed, crashed, out_of_fuel, ◌>>=◌, push, until_newline, chop_return, read_line,
  read_number, read_data,
}

-- The read has had enough fuel, and leaves at most `n` bytes.
abbrev pub Within : {A : Type 0} → ℕ → Read A → Type 0
Within n (done a rest) = length rest ≤ n
Within n (failed e) = Unit
Within n crashed = Unit
Within n out_of_fuel = ⊥

pub bind-Within :
    {A B : Type 0} (n m : ℕ) (r : Read A) (f : A × Bytes → Read B)
    → Within n r
    → ((a : A) (rest : Bytes) → length rest ≤ n → Within m (f (a, rest)))
    → Within m (r >>= f)
bind-Within n m (done a rest) f h k = k a rest h
bind-Within n m (failed e) f h k = tt
bind-Within n m crashed f h k = tt
bind-Within n m out_of_fuel f h k = absurd h

pub weaken-Within : {A : Type 0} (n m : ℕ) (r : Read A) → n ≤ m → Within n r → Within m r
weaken-Within n m (done a rest) le h = omega arith
weaken-Within n m (failed e) le h = tt
weaken-Within n m crashed le h = tt
weaken-Within n m out_of_fuel le h = absurd h

-- `until_newline` leaves less than there was.
Shorter : ℕ → Option (Bytes × Bytes) → Type 0
Shorter n none = Unit
Shorter n (some (line, rest)) = length rest ≤ n

push-Shorter : (c n m : ℕ) (o : Option (Bytes × Bytes)) → n ≤ m → Shorter n o → Shorter m (push c o)
unfolding Shorter
push-Shorter c n m none le h = tt
push-Shorter c n m (some (line, rest)) le h = omega arith

until_newline-Shorter : (input : Bytes) → Shorter (length input) (until_newline input)
unfolding until_newline Shorter
until_newline-Shorter [] = tt
until_newline-Shorter (c ∷ cs) = elim (Bool-cases (c == 10)) [
  | inl newline ↦ rw newline (omega arith)
  | inr other ↦ rw other (
      push-Shorter c (length cs) (suc (length cs)) (until_newline cs) (omega arith)
        (until_newline-Shorter cs))
]

pub read_line-Within : (input : Bytes) → Within (length input) (read_line input)
unfolding read_line Shorter
read_line-Within input =
    let h = until_newline-Shorter input in
    elim (Option-cases (until_newline input)) [
      | inl e ↦ rw (read_line, e) tt
      | inr ((line, rest), e) ↦
          let shorter : length rest ≤ length input = subst (Shorter (length input)) e h in
          elim (Option-cases (chop_return line)) [
            | inl f ↦ rw (read_line, e, f) tt
            | inr (text, f) ↦ rw (read_line, e, f) shorter
          ]
    ]

pub read_number-Within : (input : Bytes) → Within (length input) (read_number input)
unfolding read_number
read_number-Within input =
    bind-Within (length input) (length input) (read_line input) _ (read_line-Within input)
      (λ line rest h. elim (Option-cases (parse_int line)) [
        | inl e ↦ rw e tt
        | inr (n, e) ↦ rw e h
      ])

-- A value that is made of a line or a number leaves what that leaves.
pub then-Within :
    {A B : Type 0} (n : ℕ) (r : Read A) (f : A → B)
    → Within n r
    → Within n (r >>= (λ p. done (f p.0) p.1))
then-Within n r f h = bind-Within n n r (λ p. done (f p.0) p.1) h (λ a rest le. le)

pub read_data-Within : (n : ℕ) (input : Bytes) → Within (length input) (read_data n input)
unfolding read_data
read_data-Within n input =
    let e = length-drop (n + 2) input in
    elim (Bool-cases (leb (n + 2) (length input))) [
      | inr short ↦ rw short tt
      | inl enough ↦ elim (Bool-cases (get_or input n 0 == 13 && get_or input (n + 1) 0 == 10)) [
        | inl ends ↦ rw (enough, ends) (omega arith)
        | inr lost ↦ rw (enough, lost) tt
      ]
    ]
