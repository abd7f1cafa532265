-- ===== src/Resp/Tests.antt =====
-- Runs of the RESP code, and its theorems at inputs that meet their hypotheses.
use stream_relay.Prelude.{
  ℕ, ◌≡◌, ◌≢◌, refl, Bool, true, false, List, [], ◌∷◌, ◌++◌, arith, Bytes, codes, Bytes-discrete,
  insert, leb,
}
use stream_relay.Decimal.{
  pos, negsuc, parse_int, positive, negative, parse_nat, digits_value, format_int, format_nat,
  digits_from,
}
use stream_relay.Resp.{
  array, Value, value, nil, ok, string, as_string, as_int, as_array, strings_of, as_string_slice,
  pairs_of, is_even, as_map,
}
use stream_relay.Resp.Wire.{
  crlf, write_arguments, write_command, done, out_of_fuel, until_newline, chop_return, read_line,
  read_simple_string, read_error, read_number, read_integer, read_data, read_bulk_string, array_of,
  read_array, read_value,
}
use stream_relay.Resp.Totality.{read_value_total}
use stream_relay.Resp.Commands.{bulk, bulks, read_value-write_command}

-- Memory for a million bytes.
abbrev fits : ℕ → Bool
fits n = leb n 1000000

program : Unit {0}
unfolding write_command write_arguments until_newline chop_return read_line read_simple_string
    read_error read_number read_integer read_data read_bulk_string array_of read_array read_value
    parse_int positive negative parse_nat digits_value format_int format_nat digits_from as_string
    as_int as_array strings_of as_string_slice pairs_of is_even as_map insert Bytes-discrete
program = tt

abbrev status_line : Bytes
status_line = codes "+OK" ++ crlf

abbrev command : List Bytes
command = codes "GET" ∷ codes "k" ∷ []

written :
    write_command command
    ≡ codes "*2"
      ++ (crlf
          ++ (codes "$3"
              ++ (crlf
                  ++ (codes "GET" ++ (crlf ++ (codes "$1" ++ (crlf ++ (codes "k" ++ crlf))))))))
unfolding program
written = refl

read_status :
    read_value fits 3 (status_line ++ codes ":7")
    ≡ done (value 43 (codes "OK") (pos 0) nil false false) (codes ":7")
unfolding program
read_status = refl

converted :
    (as_int (bulk (codes "-12")) ≡ ok (negsuc 11))
    × (as_map (
          value array []
            (pos 0)
            (bulks (codes "a" ∷ codes "1" ∷ codes "a" ∷ codes "2" ∷ []))
            false
            false)
        ≡ ok ((codes "a", codes "2") ∷ []))
unfolding program
converted = (refl, refl)

-- An array is printed in brackets, and a value of no known type as nothing.
printed :
    (string (value array [] (pos 0) (bulks (codes "a" ∷ codes "b" ∷ [])) false false)
      ≡ codes "[a b]")
    × (string (value 36 [] (pos 0) nil true false) ≡ [])
    × (string (value 0 (codes "x") (pos 0) nil false false) ≡ [])
unfolding program string
printed = (refl, refl, refl)

read_value-write_command_example :
    (v : Value) × (read_value fits 4 (write_command command ++ status_line) ≡ done v status_line)
    × (as_string_slice v ≡ ok command)
read_value-write_command_example =
    read_value-write_command fits 4 command status_line
      ((refl, omega arith, (refl, omega arith, tt))) refl (omega arith) (omega arith)

read_value_total_example : read_value fits 11 status_line ≢ out_of_fuel
read_value_total_example = read_value_total fits 11 status_line (omega arith)
