-- ===== src/DirectRooms/Tests.antt =====
-- The theorems on direct rooms at inputs that meet their hypotheses.
use stream_relay.Prelude.{◌≡◌, ◌⊎◌, refl, arith, codes}
use stream_relay.DirectRooms.{string_lt, generate_dm_room_id}
use stream_relay.DirectRooms.Names.{NoColon, generate_dm_room_id_injective}

program : Unit {0}
unfolding string_lt generate_dm_room_id
program = tt

ann-NoColon : NoColon (codes "ann")
ann-NoColon =
    (λ e. absurd (omega arith), (λ e. absurd (omega arith), (λ e. absurd (omega arith), tt)))

bob-NoColon : NoColon (codes "bob")
bob-NoColon =
    (λ e. absurd (omega arith), (λ e. absurd (omega arith), (λ e. absurd (omega arith), tt)))

generate_dm_room_id_injective_example :
    ((codes "ann" ≡ codes "bob") × (codes "bob" ≡ codes "ann"))
    ⊎ ((codes "ann" ≡ codes "ann") × (codes "bob" ≡ codes "bob"))
unfolding program
generate_dm_room_id_injective_example =
    generate_dm_room_id_injective (codes "ann") (codes "bob") (codes "bob") (codes "ann")
      ann-NoColon bob-NoColon bob-NoColon ann-NoColon refl
