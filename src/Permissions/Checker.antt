-- ===== src/Permissions/Checker.antt =====
-- `ChannelRule` and `DefaultPermissionChecker` of engine/permissions.go. A method that writes
-- returns the new checker; the errors are those of engine/protocol.go.
pub mod Updates
pub mod Access
use stream_relay.Prelude.{
  ℕ, Bool, true, false, not, ◌&&◌, Option, none, some, List, [], ◌∷◌, ◌++◌, Bytes, Map, lookup,
  insert, delete, str_eq, if◌then◌else◌,
}
use stream_relay.Protocol.{Result, ok, err, unauthorized, permission_denied}
use stream_relay.Permissions.Bits.{
  Permission, perm_subscribe, perm_publish, perm_standard, has, add,
}
use stream_relay.Permissions.Pattern.{match_pattern}

-- The limits, flags and history settings of a rule are read by no code of the repository.
pub record ChannelRule : Type 0 where
  pub pattern : Bytes
  pub default_permissions : Permission
  pub require_auth : Bool
  pub allow_anonymous : Bool
  pub max_subscribers : ℕ
  pub max_publish_rate : ℕ
  pub join_leave : Bool
  pub presence : Bool
  pub history_size : ℕ
  pub history_ttl : ℕ

pub record Checker : Type 0 where
  pub rules : List ChannelRule
  pub default_rule : ChannelRule
  pub user_permissions : Map (Map Permission)
  pub role_permissions : Map Permission
  pub user_roles : Map (List Bytes)
  pub require_auth : Bool

abbrev pub blank_rule : ChannelRule
blank_rule = record {
  pattern = [];
  default_permissions = 0;
  require_auth = false;
  allow_anonymous = false;
  max_subscribers = 0;
  max_publish_rate = 0;
  join_leave = false;
  presence = false;
  history_size = 0;
  history_ttl = 0;
}

abbrev pub new_permission_checker : Checker
new_permission_checker = record {
  rules = [];
  default_rule = record blank_rule { default_permissions = perm_standard; presence = true };
  user_permissions = [];
  role_permissions = [];
  user_roles = [];
  require_auth = false;
}

unfoldable pub add_rule : Checker → ChannelRule → Checker
add_rule c rule = record c { rules = c.rules ++ rule ∷ [] }

unfoldable pub set_default_rule : Checker → ChannelRule → Checker
set_default_rule c rule = record c { default_rule = rule }

unfoldable pub set_require_auth : Checker → Bool → Checker
set_require_auth c require = record c { require_auth = require }

-- A missing inner map is made first; a nil map reads as empty.
abbrev pub or_empty {ℓ} : {V : Type ℓ} → Option (Map V) → Map V
or_empty none = []
or_empty (some m) = m

unfoldable pub set_user_permission : Checker → Bytes → Bytes → Permission → Checker
set_user_permission c user_id channel perm = record c {
  user_permissions =
      insert user_id (insert channel perm (or_empty (lookup user_id c.user_permissions)))
        c.user_permissions;
}

unfoldable pub remove_user_permission : Checker → Bytes → Bytes → Checker
remove_user_permission c user_id channel = elim (lookup user_id c.user_permissions) [
  | none ↦ c
  | some perms ↦ record c {
    user_permissions = insert user_id (delete channel perms) c.user_permissions;
  }
]

unfoldable pub set_role_permission : Checker → Bytes → Permission → Checker
set_role_permission c role perm = record c {
  role_permissions = insert role perm c.role_permissions;
}

-- `c.userRoles[userID]`, nil where there is none.
abbrev pub roles_of : Checker → Bytes → List Bytes
roles_of c user_id = elim (lookup user_id c.user_roles) [ none ↦ [] | some roles ↦ roles ]

unfoldable pub assign_role : Checker → Bytes → Bytes → Checker
assign_role c user_id role = record c {
  user_roles = insert user_id (roles_of c user_id ++ role ∷ []) c.user_roles;
}

-- The loop of `RemoveRole`, which keeps every other role.
unfoldable pub without_role : Bytes → List Bytes → List Bytes
without_role role [] = []
without_role role (r ∷ roles) =
    let rest = without_role role roles in if not (str_eq r role) then r ∷ rest else rest

unfoldable pub remove_role : Checker → Bytes → Bytes → Checker
unfolding without_role
remove_role c user_id role = record c {
  user_roles = insert user_id (without_role role (roles_of c user_id)) c.user_roles;
}

unfoldable pub find_rule_from : List ChannelRule → ChannelRule → Bytes → ChannelRule
find_rule_from [] fallback channel = fallback
find_rule_from (rule ∷ rules) fallback channel =
    if match_pattern rule.pattern channel then rule else find_rule_from rules fallback channel

unfoldable pub find_rule : Checker → Bytes → ChannelRule
find_rule c channel = find_rule_from c.rules c.default_rule channel

abbrev pub get_channel_rule : Checker → Bytes → ChannelRule
get_channel_rule = find_rule

-- The loop that adds the permissions of each role.
unfoldable pub add_roles : Map Permission → List Bytes → Permission → Permission
add_roles role_permissions [] perm = perm
add_roles role_permissions (role ∷ roles) perm =
    add_roles role_permissions roles
      (elim (lookup role role_permissions) [ none ↦ perm | some p ↦ add perm p ])

-- The lookup that ends both permission methods: a user's own entry for the channel overrides.
unfoldable pub own_permission : Checker → Bytes → Bytes → Permission → Permission
own_permission c user_id channel perm = elim (lookup user_id c.user_permissions) [
  | none ↦ perm
  | some perms ↦ elim (lookup channel perms) [ none ↦ perm | some own ↦ own ]
]

unfoldable pub check_connect : Checker → Bytes → Bytes → Result Bool
check_connect c user_id token =
    if c.require_auth && str_eq user_id [] then err unauthorized else ok true

unfoldable pub get_user_permissions : Checker → Bytes → Bytes → Permission
unfolding own_permission
get_user_permissions c user_id channel =
    own_permission c user_id channel
      (add_roles c.role_permissions (roles_of c user_id) (find_rule c channel).default_permissions)

unfoldable pub check_subscribe : Checker → Bytes → Bytes → Bytes → Result Permission
unfolding own_permission
check_subscribe c user_id channel token =
    let rule = find_rule c channel in
    let perm =
      own_permission c user_id channel
        (add_roles c.role_permissions (roles_of c user_id) rule.default_permissions) in
    if rule.require_auth && str_eq user_id [] && not rule.allow_anonymous
    then err unauthorized
    else if not (has perm perm_subscribe)
    then err permission_denied
    else ok perm

unfoldable pub check_publish : Checker → Bytes → Bytes → Result Bool
check_publish c user_id channel =
    if not (has (get_user_permissions c user_id channel) perm_publish)
    then err permission_denied
    else ok true
