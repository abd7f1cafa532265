-- ===== src/Permissions/Bits.antt =====
-- The type `Permission` of engine/permissions.go: a set of rights as the bits of an int.
pub mod Laws
use Prim.Native.Nat.{bit_and, bit_or, bit_xor}
use stream_relay.Prelude.{ℕ, ◌+◌, ◌*◌, ◌^◌, Bool, ◌==◌}

abbrev pub Permission : Type 0
Permission = ℕ

-- `1 << iota`, where `iota` is 1 at the first constant of the block that uses it.
abbrev pub perm_none : Permission
perm_none = 0

abbrev pub perm_subscribe : Permission
perm_subscribe = 2 ^ 1

abbrev pub perm_publish : Permission
perm_publish = 2 ^ 2

abbrev pub perm_presence : Permission
perm_presence = 2 ^ 3

abbrev pub perm_history : Permission
perm_history = 2 ^ 4

abbrev pub perm_join_leave : Permission
perm_join_leave = 2 ^ 5

infixl 65 ◌∪◌
abbrev ◌∪◌ : ℕ → ℕ → ℕ
◌∪◌ = bit_or

abbrev pub perm_all : Permission
perm_all = perm_subscribe ∪ perm_publish ∪ perm_presence ∪ perm_history ∪ perm_join_leave

abbrev pub perm_read_only : Permission
perm_read_only = perm_subscribe ∪ perm_presence ∪ perm_history

abbrev pub perm_standard : Permission
perm_standard = perm_subscribe ∪ perm_publish ∪ perm_presence

-- `p & perm == perm`
unfoldable pub has : Permission → Permission → Bool
has p perm = bit_and p perm == perm

-- `p | perm`
unfoldable pub add : Permission → Permission → Permission
add p perm = bit_or p perm

-- `p &^ perm`: Go's bit clear, the bits of `p` less those that `perm` shares.
unfoldable pub remove : Permission → Permission → Permission
remove p perm = bit_xor p (bit_and p perm)
