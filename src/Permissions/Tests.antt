-- ===== src/Permissions/Tests.antt =====
-- Runs of the permission code on concrete inputs, and the theorems at inputs that meet their
-- hypotheses.
use stream_relay.Prelude.{
  subst, ◌≡◌, ◌↔◌, inr, refl, true, false, ◌&&◌, [], ◌∷◌, Bytes, codes, lookup, Bytes-discrete,
  arith, str_eq, if◌then◌else◌,
}
use stream_relay.Protocol.{ok, err, unauthorized}
use stream_relay.Permissions.Bits.{
  perm_subscribe, perm_all, perm_read_only, perm_standard, has, add,
}
use stream_relay.Permissions.Pattern.{star, match_pattern}
use stream_relay.Permissions.Pattern.Spec.{Matches}
use stream_relay.Permissions.Pattern.Complete.{match_pattern_iff}
use stream_relay.Permissions.Pattern.Misses.{match_pattern-suffix_miss, match_pattern-byte_miss}
use stream_relay.Permissions.Checker.{
  ChannelRule, Checker, blank_rule, new_permission_checker, find_rule, find_rule_from,
  remove_user_permission, roles_of, add_roles, get_user_permissions, check_subscribe,
}
use stream_relay.Permissions.Checker.Access.{
  Barred, HoldsRoles, check_subscribe_iff, get_user_permissions-least,
}
use stream_relay.Permissions.Checker.Updates.{get_user_permissions-remove_user_permission}

constants :
    (perm_all ≡ 62) × (perm_read_only ≡ 26) × (perm_standard ≡ 14) × (has perm_read_only 4 ≡ false)
unfolding has
constants = (refl, refl, refl, refl)

abbrev chat_star : Bytes
chat_star = codes "chat:*"

patterns :
    (match_pattern chat_star (codes "chat:general") ≡ true)
    × (match_pattern chat_star (codes "news:general") ≡ false)
    × (match_pattern (codes "user:*:inbox") (codes "user:7:inbox") ≡ true)
    × (match_pattern (codes "*") [] ≡ true)
    × (match_pattern (codes "chat:**") (codes "chat:") ≡ true)
unfolding match_pattern Bytes-discrete
patterns = (refl, refl, refl, refl, refl)

match_pattern_iff_example :
    (match_pattern chat_star (codes "chat:x") ≡ true) ↔ Matches chat_star (codes "chat:x")
match_pattern_iff_example = match_pattern_iff chat_star (codes "chat:x") (omega arith) (inr refl)

-- The pattern "*a" on the channel "aba".
match_pattern-suffix_miss_example :
    Matches (codes "*a") (codes "aba") × (match_pattern (codes "*a") (codes "aba") ≡ false)
match_pattern-suffix_miss_example =
    match_pattern-suffix_miss b'a' b'b' [] [] (omega arith) (omega arith)

match_pattern-byte_miss_example :
    Matches (star ∷ 233 ∷ []) (233 ∷ []) × (match_pattern (star ∷ 233 ∷ []) (233 ∷ []) ≡ false)
match_pattern-byte_miss_example = match_pattern-byte_miss 233 (omega arith)

-- A checker with a rule that wants an identity, a role, and a user who has it.
abbrev private_rule : ChannelRule
private_rule = record blank_rule {
  pattern = chat_star;
  default_permissions = perm_standard;
  require_auth = true;
}

abbrev guarded : Checker
guarded = record new_permission_checker {
  rules = private_rule ∷ [];
  role_permissions = (codes "admin", perm_all) ∷ [];
  user_roles = (codes "ann", codes "admin" ∷ []) ∷ [];
}

abbrev room_x : Bytes
room_x = codes "chat:x"

program : Unit {0}
unfolding match_pattern find_rule find_rule_from has add lookup Bytes-discrete get_user_permissions
    check_subscribe add_roles
program = tt

rights :
    (get_user_permissions guarded (codes "ann") room_x ≡ 62)
    × (get_user_permissions guarded (codes "bob") room_x ≡ 14)
    × (check_subscribe guarded [] room_x [] ≡ err unauthorized)
unfolding program
rights = (refl, refl, refl)

barred : Barred guarded [] room_x
unfolding program
barred = (refl, refl, refl)

check_subscribe_iff_example : (check_subscribe guarded (codes "ann") room_x [] ≡ ok 62) ↔ (
    (¬ Barred guarded (codes "ann") room_x)
    × (62 ≡ get_user_permissions guarded (codes "ann") room_x)
    × (has 62 perm_subscribe ≡ true))
check_subscribe_iff_example = check_subscribe_iff guarded (codes "ann") room_x [] 62

all_default : has perm_all (find_rule guarded room_x).default_permissions ≡ true
unfolding program
all_default = refl

all_roles : HoldsRoles guarded.role_permissions (roles_of guarded (codes "ann")) perm_all
unfolding program
all_roles =
    (λ p e. let same : perm_all ≡ p = cc in subst (λ q. has perm_all q ≡ true) same refl, tt)

get_user_permissions-least_example :
    let got = get_user_permissions guarded (codes "ann") room_x in
    (has got (find_rule guarded room_x).default_permissions ≡ true)
    × HoldsRoles guarded.role_permissions (roles_of guarded (codes "ann")) got
    × (has perm_all got ≡ true)
unfolding lookup
get_user_permissions-least_example =
    get_user_permissions-least guarded (codes "ann") room_x perm_all (λ perms h. cc) all_default
      all_roles

get_user_permissions-remove_user_permission_example :
    get_user_permissions (remove_user_permission guarded (codes "bob") room_x) (codes "bob") room_x
    ≡ (if str_eq (codes "bob") (codes "bob") && str_eq room_x room_x
        then add_roles guarded.role_permissions
            (roles_of guarded (codes "bob"))
            (find_rule guarded room_x).default_permissions
        else get_user_permissions guarded (codes "bob") room_x)
get_user_permissions-remove_user_permission_example =
    get_user_permissions-remove_user_permission guarded (codes "bob") room_x (codes "bob") room_x
