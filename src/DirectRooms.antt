-- ===== src/DirectRooms.antt =====
-- `GenerateDMRoomID` (engine/relay.go): the room of two users.
pub mod Names
mod Tests
use stream_relay.Prelude.{
  ℕ, Bool, true, false, List, [], ◌∷◌, ◌++◌, Bytes, codes, ltb, if◌then◌else◌,
}

-- `a < b` on strings.
unfoldable pub string_lt : Bytes → Bytes → Bool
string_lt [] [] = false
string_lt [] (d ∷ ds) = true
string_lt (c ∷ cs) [] = false
string_lt (c ∷ cs) (d ∷ ds) =
    let rest = string_lt cs ds in if ltb c d then true else if ltb d c then false else rest

unfoldable pub generate_dm_room_id : Bytes → Bytes → Bytes
generate_dm_room_id user_a user_b =
    if string_lt user_a user_b
    then codes "dm:" ++ user_a ++ codes ":" ++ user_b
    else codes "dm:" ++ user_b ++ codes ":" ++ user_a
