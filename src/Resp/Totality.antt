-- ===== src/Resp/Totality.antt =====
-- The reader of RESP values ends: fuel for twice the bytes of the input is enough.
use stream_relay.Prelude.{
  ℕ, zero, suc, ◌+◌, ◌-◌, ◌*◌, ◌≤◌, ◌≡◌, ◌≢◌, subst, Bool, true, false, [], ◌∷◌, Bytes, ◌==◌, arith,
  if◌then◌else◌, length, Bool-cases, inl, inr,
}
use stream_relay.Decimal.{ℤ, pos, negsuc}
use stream_relay.Resp.{simple_string, error, integer, bulk_string, array, value, Values, nil, cons}
use stream_relay.Resp.Wire.{
  Read, done, crashed, out_of_fuel, read_line, read_simple_string, read_error, read_number,
  read_integer, read_data, read_bulk_string, array_of, read_array, read_value, read_elements,
}
use stream_relay.Resp.Fuel.{
  Within, bind-Within, weaken-Within, read_line-Within, read_number-Within, then-Within,
  read_data-Within,
}

module _ (fits : ℕ → Bool) where
  read_bulk_string-Within : (input : Bytes) → Within (length input) (read_bulk_string fits input)
  unfolding read_bulk_string
  read_bulk_string-Within input =
      bind-Within (length input) (length input) (read_number input) _ (read_number-Within input)
        (λ n rest h. sized n rest h)
    where
      sized :
          (n : ℤ) (rest : Bytes)
          → length rest ≤ length input
          → Within (length input) (elim n [
            | pos len ↦ if fits (len + 2) then read_data len rest else crashed
            | negsuc zero ↦ done (value bulk_string [] (pos 0) nil true false) rest
            | negsuc (suc _) ↦ crashed
          ])
      sized (pos len) rest h = elim (Bool-cases (fits (len + 2))) [
        | inl e ↦ rw e (
            weaken-Within (length rest) (length input) (read_data len rest) h
              (read_data-Within len rest))
        | inr e ↦ rw e tt
      ]
      sized (negsuc zero) rest h = h
      sized (negsuc (suc k)) rest h = tt

  read_array-Within :
      (elements : ℕ → Bytes → Read Values) (input : Bytes)
      → ((count : ℕ) (rest : Bytes)
          → length rest ≤ length input
          → Within (length rest) (elements count rest))
      → Within (length input) (read_array fits elements input)
  unfolding read_array array_of
  read_array-Within elements input each =
      bind-Within (length input) (length input) (read_number input) _ (read_number-Within input)
        (λ n rest h. sized n rest h)
    where
      sized :
          (n : ℤ) (rest : Bytes)
          → length rest ≤ length input
          → Within (length input) (elim n [
            | pos count ↦ if fits (count * 64) then array_of (elements count rest) else crashed
            | negsuc zero ↦ done (value array [] (pos 0) nil true false) rest
            | negsuc (suc _) ↦ crashed
          ])
      sized (pos count) rest h = elim (Bool-cases (fits (count * 64))) [
        | inl e ↦ rw e (
            then-Within (length input) (elements count rest)
              (λ vs. value array [] (pos 0) vs false false)
              (weaken-Within (length rest) (length input) (elements count rest) h
                (each count rest h)))
        | inr e ↦ rw e tt
      ]
      sized (negsuc zero) rest h = h
      sized (negsuc (suc k)) rest h = tt

  ValueWithin : ℕ → Type 0
  ValueWithin fuel =
      (input : Bytes)
      → 2 * length input + 1 ≤ fuel
      → Within (length input - 1) (read_value fits fuel input)

  ElementsWithin : ℕ → Type 0
  ElementsWithin fuel =
      (count : ℕ) (input : Bytes)
      → 2 * length input + 2 ≤ fuel
      → Within (length input) (read_elements fits fuel count input)

  typed_value :
      (fuel : ℕ) (c : ℕ) (cs : Bytes)
      → ElementsWithin fuel
      → 2 * length (c ∷ cs) + 1 ≤ suc fuel
      → Within (length cs) (read_value fits (suc fuel) (c ∷ cs))
  unfolding read_value ElementsWithin read_simple_string read_error read_integer
  typed_value fuel c cs elements h =
      let line = read_line-Within cs in
      let n = length cs in
      elim (Bool-cases (c == simple_string)) [
        | inl e ↦
            rw e (
              then-Within n (read_line cs) (λ l. value simple_string l (pos 0) nil false false)
                line)
        | inr e ↦ elim (Bool-cases (c == error)) [
          | inl f ↦
              rw (e, f)
                (then-Within n (read_line cs) (λ l. value error l (pos 0) nil false true) line)
          | inr f ↦ elim (Bool-cases (c == integer)) [
            | inl g ↦
                rw (e, f, g)
                  (then-Within n (read_number cs) (λ k. value integer [] k nil false false)
                    (read_number-Within cs))
            | inr g ↦ elim (Bool-cases (c == bulk_string)) [
              | inl i ↦ rw (e, f, g, i) (read_bulk_string-Within cs)
              | inr i ↦ elim (Bool-cases (c == array)) [
                | inl j ↦
                    rw (e, f, g, i, j)
                      (read_array-Within (λ count rest. read_elements fits fuel count rest) cs
                        (λ count rest le. elements count rest (omega arith)))
                | inr j ↦ rw (e, f, g, i, j) tt
              ]
            ]
          ]
        ]
      ]

  value_step : (fuel : ℕ) → ElementsWithin fuel → ValueWithin (suc fuel)
  unfolding read_value ValueWithin
  value_step fuel elements [] h = tt
  value_step fuel elements (c ∷ cs) h =
      let e : length cs ≡ length (c ∷ cs) - 1 = omega arith in
      subst (λ k. Within k (read_value fits (suc fuel) (c ∷ cs))) e
        (typed_value fuel c cs elements h)

  elements_step : (fuel : ℕ) → ValueWithin fuel → ElementsWithin fuel → ElementsWithin (suc fuel)
  unfolding read_value ElementsWithin ValueWithin
  elements_step zero first rest zero input h = omega arith
  elements_step (suc fuel) first rest zero input h = omega arith
  elements_step zero first rest (suc count) input h = absurd (omega arith)
  elements_step (suc fuel) first rest (suc count) [] h = tt
  elements_step (suc fuel) first rest (suc count) (c ∷ cs) h =
      let n = length (c ∷ cs) in
      bind-Within (n - 1) n (read_value fits (suc fuel) (c ∷ cs)) _ (first (c ∷ cs) (omega arith))
        (λ v behind le. then-Within n (read_elements fits (suc fuel) count behind) (cons v) (
          weaken-Within (length behind) n (read_elements fits (suc fuel) count behind) (omega arith)
            (rest count behind (omega arith))))

  both_within : (fuel : ℕ) → ValueWithin fuel × ElementsWithin fuel
  unfolding ElementsWithin ValueWithin
  both_within zero = (λ input h. absurd (omega arith), λ count input h. absurd (omega arith))
  both_within (suc fuel) =
      let (first, rest) = both_within fuel in (value_step fuel rest, elements_step fuel first rest)

  -- Fuel for twice the length of the input, and one more, is enough to read a value.
  pub read_value_total :
      (fuel : ℕ) (input : Bytes)
      → 2 * length input + 1 ≤ fuel
      → read_value fits fuel input ≢ out_of_fuel
  unfolding ValueWithin
  read_value_total fuel input h =
      λ e. subst (Within (length input - 1)) e ((both_within fuel).0 input h)
