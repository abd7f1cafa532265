-- ===== src/Permissions/Checker/Updates.antt =====
-- What the checker's writers change, and what they leave alone.
use stream_relay.Prelude.{
  ◌≡◌, refl, inl, inr, ap, true, ◌&&◌, none, some, List, [], ◌∷◌, ◌++◌, Bytes, Map, lookup, insert,
  delete, lookup-insert, lookup-delete, arith, str_eq, if◌then◌else◌, Option-cases,
}
use stream_relay.Permissions.Bits.{Permission, has, add}
use stream_relay.Permissions.Bits.Laws.{has-add_of_has}
use stream_relay.Permissions.Pattern.{match_pattern}
use stream_relay.Permissions.Checker.{
  ChannelRule, Checker, find_rule_from, find_rule, roles_of, add_roles, own_permission,
  get_user_permissions, add_rule, set_default_rule, set_user_permission, remove_user_permission,
  assign_role, remove_role, without_role, or_empty,
}

find_rule_from-append :
    (rules : List ChannelRule) (rule fallback : ChannelRule) (channel : Bytes)
    → find_rule_from (rules ++ rule ∷ []) fallback channel
      ≡ find_rule_from rules (if match_pattern rule.pattern channel then rule else fallback) channel
unfolding find_rule_from
find_rule_from-append [] rule fallback channel = refl
find_rule_from-append (r ∷ rules) rule fallback channel =
    ground (arith, find_rule_from-append rules rule fallback channel)

-- The first rule that matches wins: an added rule decides for a channel only where it matches and
-- no earlier rule does, just as a new default would.
pub find_rule-add_rule :
    (c : Checker) (rule : ChannelRule) (channel : Bytes)
    → find_rule (add_rule c rule) channel
      ≡ find_rule
          (set_default_rule c (if match_pattern rule.pattern channel then rule else c.default_rule))
          channel
unfolding find_rule add_rule set_default_rule
find_rule-add_rule c rule channel = find_rule_from-append c.rules rule c.default_rule channel

-- A permission set for a user on a channel is what that user has there, whatever rules and roles
-- say; no other user and no other channel is affected.
pub get_user_permissions-set_user_permission :
    (c : Checker) (user_id channel user channel' : Bytes) (perm : Permission)
    → get_user_permissions (set_user_permission c user_id channel perm) user channel' ≡ (
        if str_eq user_id user && str_eq channel channel'
        then perm
        else get_user_permissions c user channel')
unfolding get_user_permissions set_user_permission find_rule own_permission lookup
get_user_permissions-set_user_permission c user_id channel user channel' perm = ground (
  arith,
  lookup-insert user user_id (insert channel perm (or_empty (lookup user_id c.user_permissions)))
      c.user_permissions,
  lookup-insert channel' channel perm (or_empty (lookup user_id c.user_permissions)),
)

-- Removing it leaves that user what rules and roles give, and everyone else what they had.
pub get_user_permissions-remove_user_permission :
    (c : Checker) (user_id channel user channel' : Bytes)
    → get_user_permissions (remove_user_permission c user_id channel) user channel' ≡ (
        if str_eq user_id user && str_eq channel channel'
        then add_roles c.role_permissions
            (roles_of c user)
            (find_rule c channel').default_permissions
        else get_user_permissions c user channel')
unfolding get_user_permissions remove_user_permission find_rule own_permission
get_user_permissions-remove_user_permission c user_id channel user channel' =
    elim (Option-cases (lookup user_id c.user_permissions)) [
      | inl none_ ↦ ground arith
      | inr (perms, found) ↦ ground (
        arith,
        lookup-insert user user_id (delete channel perms) c.user_permissions,
        lookup-delete channel' channel perms,
      )
    ]

without_role-append :
    (role : Bytes) (roles : List Bytes)
    → without_role role (roles ++ role ∷ []) ≡ without_role role roles
unfolding without_role
without_role-append role [] = ground arith
without_role-append role (r ∷ roles) = ground (arith, without_role-append role roles)

roles_of-insert :
    (c : Checker) (user_id user : Bytes) (roles : List Bytes)
    → roles_of (record c { user_roles = insert user_id roles c.user_roles }) user
      ≡ (if str_eq user_id user then roles else roles_of c user)
roles_of-insert c user_id user roles = ground (arith, lookup-insert user user_id roles c.user_roles)

roles_of-remove_role :
    (c : Checker) (user_id role user : Bytes)
    → roles_of (remove_role c user_id role) user
      ≡ (if str_eq user_id user then without_role role (roles_of c user_id) else roles_of c user)
unfolding remove_role
roles_of-remove_role c user_id role user =
    roles_of-insert c user_id user (without_role role (roles_of c user_id))

roles_of-assign_role :
    (c : Checker) (user_id role user : Bytes)
    → roles_of (assign_role c user_id role) user
      ≡ (if str_eq user_id user then roles_of c user_id ++ role ∷ [] else roles_of c user)
unfolding assign_role
roles_of-assign_role c user_id role user =
    roles_of-insert c user_id user (roles_of c user_id ++ role ∷ [])

roles_of-remove_role-assign_role :
    (c : Checker) (user_id role user : Bytes)
    → roles_of (remove_role (assign_role c user_id role) user_id role) user
      ≡ roles_of (remove_role c user_id role) user
roles_of-remove_role-assign_role c user_id role user = ground (
  arith,
  roles_of-remove_role (assign_role c user_id role) user_id role user,
  roles_of-remove_role c user_id role user,
  roles_of-assign_role c user_id role user_id,
  roles_of-assign_role c user_id role user,
  without_role-append role (roles_of c user_id),
)

-- Removing a role right after assigning it is the same, for every user and channel, as removing it
-- without: all of its assignments go, however many there were.
pub remove_role-assign_role :
    (c : Checker) (user_id role user channel : Bytes)
    → get_user_permissions (remove_role (assign_role c user_id role) user_id role) user channel
      ≡ get_user_permissions (remove_role c user_id role) user channel
unfolding get_user_permissions remove_role assign_role find_rule own_permission
remove_role-assign_role c user_id role user channel =
    ap
      (λ roles.
        own_permission c user channel
          (add_roles c.role_permissions roles (find_rule c channel).default_permissions))
      (roles_of-remove_role-assign_role c user_id role user)

add_roles-append :
    (m : Map Permission) (roles : List Bytes) (role : Bytes) (perm : Permission)
    → add_roles m (roles ++ role ∷ []) perm ≡ (elim (lookup role m) [
      | none ↦ add_roles m roles perm
      | some p ↦ add (add_roles m roles perm) p
    ])
unfolding add_roles
add_roles-append m [] role perm = refl
add_roles-append m (r ∷ roles) role perm =
    add_roles-append m roles role (elim (lookup r m) [ none ↦ perm | some p ↦ add perm p ])

has-add_roles-append :
    (m : Map Permission) (roles : List Bytes) (role : Bytes) (perm q : Permission)
    → has (add_roles m roles perm) q ≡ true
    → has (add_roles m (roles ++ role ∷ []) perm) q ≡ true
has-add_roles-append m roles role perm q h = elim (Option-cases (lookup role m)) [
  | inl none_ ↦ ground (arith, add_roles-append m roles role perm)
  | inr (p, found) ↦
      ground
        (arith, add_roles-append m roles role perm, has-add_of_has (add_roles m roles perm) p q)
]

-- Assigning a role takes no right from anyone.
pub has-assign_role :
    (c : Checker) (user_id role user channel : Bytes) (q : Permission)
    → has (get_user_permissions c user channel) q ≡ true
    → has (get_user_permissions (assign_role c user_id role) user channel) q ≡ true
unfolding get_user_permissions assign_role find_rule own_permission
has-assign_role c user_id role user channel q h = ground (
  arith,
  roles_of-insert c user_id user (roles_of c user_id ++ role ∷ []),
  has-add_roles-append c.role_permissions (roles_of c user) role
      (find_rule c channel).default_permissions q,
)
