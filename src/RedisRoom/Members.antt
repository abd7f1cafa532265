-- ===== src/RedisRoom/Members.antt =====
-- The members of a room.
use stream_relay.Prelude.{
  ◌≡◌, refl, not, ◌&&◌, ◌||◌, none, some, List, [], ◌∷◌, ◌++◌, Bytes, str_eq, arith, if◌then◌else◌,
  lookup, lookup-delete, Option-cases, inl, inr,
}
use stream_relay.Types.{closed}
use stream_relay.RedisRoom.{
  Room, has_member, is_member, add_member, without_member, remove_member, get_subscriber,
}

has_member-append :
    (ms : List Bytes) (user other : Bytes)
    → has_member (ms ++ other ∷ []) user ≡ (has_member ms user || str_eq other user)
unfolding has_member
has_member-append [] user other = ground arith
has_member-append (m ∷ ms) user other = let ih = has_member-append ms user other in ground arith

has_member-without_member :
    (ms : List Bytes) (user other : Bytes)
    → has_member (without_member ms other) user ≡ (has_member ms user && not (str_eq other user))
unfolding has_member without_member
has_member-without_member [] user other = refl
has_member-without_member (m ∷ ms) user other =
    let ih = has_member-without_member ms user other in ground arith

-- `AddMember` makes the user a member, and `RemoveMember` makes it none and takes its subscription,
-- closing the connection; neither changes this for anyone else.
pub is_member_lem :
    (room : Room) (user other : Bytes)
    → let (removed, effects) = remove_member room other in
      (is_member (add_member room other) user ≡ (is_member room user || str_eq other user))
      × (is_member removed user ≡ (is_member room user && not (str_eq other user)))
      × (get_subscriber removed user
          ≡ (if str_eq other user then none else get_subscriber room user))
      × (effects
          ≡ (elim (get_subscriber room other) [ none ↦ [] | some sub ↦ closed sub.conn ∷ [] ]))
unfolding is_member add_member remove_member get_subscriber
is_member_lem room user other =
    let added = has_member-append room.config.members user other in
    let left = has_member-without_member room.config.members user other in
    let law = lookup-delete user other room.subscribers in
    elim (Option-cases (lookup other room.subscribers)) [
      | inl e ↦ (ground arith, ground arith, ground arith, ground arith)
      | inr (sub, e) ↦ (ground arith, ground arith, ground arith, ground arith)
    ]
