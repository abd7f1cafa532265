-- ===== src/Permissions/Checker/Access.antt =====
-- What the checker answers, in terms of the permissions of a user on a channel.
use stream_relay.Prelude.{
  ◌≡◌, ◌↔◌, inl, inr, true, false, none, some, List, [], ◌∷◌, Bytes, Map, lookup, arith,
  Option-cases,
}
use stream_relay.Protocol.{ok, err, unauthorized, permission_denied}
use stream_relay.Permissions.Bits.{Permission, perm_subscribe, perm_publish, has, add}
use stream_relay.Permissions.Bits.Laws.{has-add, has_self, has_trans}
use stream_relay.Permissions.Checker.{
  Checker, find_rule, roles_of, add_roles, own_permission, get_user_permissions, check_subscribe,
  check_publish,
}

-- The rule keeps out a user without an identity.
abbrev pub Barred : Checker → Bytes → Bytes → Type 0
Barred c user_id channel =
    ((find_rule c channel).require_auth ≡ true)
    × (user_id ≡ [])
    × ((find_rule c channel).allow_anonymous ≡ false)

module _ (c : Checker) (user_id channel token : Bytes) where
  -- A subscription is granted with the user's permissions, exactly when the rule does not bar the
  -- user and those hold the right to subscribe.
  pub check_subscribe_iff :
      (p : Permission)
      → (check_subscribe c user_id channel token ≡ ok p) ↔ (
          (¬ Barred c user_id channel)
          × (p ≡ get_user_permissions c user_id channel)
          × (has p perm_subscribe ≡ true))
  unfolding check_subscribe get_user_permissions
  check_subscribe_iff p =
      (λ h. ((λ b. ground arith), ground arith, ground arith), λ h. ground (arith, h.0))

  -- A refused subscription is unauthorized exactly when the rule bars the user, and otherwise a
  -- denied permission.
  pub check_subscribe_errors :
      ((check_subscribe c user_id channel token ≡ err unauthorized) ↔ Barred c user_id channel)
      × ((check_subscribe c user_id channel token ≡ err permission_denied) ↔ (
          (¬ Barred c user_id channel)
          × (has (get_user_permissions c user_id channel) perm_subscribe ≡ false)))
  unfolding check_subscribe get_user_permissions
  check_subscribe_errors = (
    (λ h. ground arith, λ h. ground arith),
    (λ h. ((λ b. ground arith), ground arith), λ h. ground (arith, h.0)),
  )

-- Publishing is granted exactly to a user whose permissions hold the right to publish.
pub check_publish_iff :
    (c : Checker) (user_id channel : Bytes)
    → (check_publish c user_id channel ≡ ok true)
      ↔ (has (get_user_permissions c user_id channel) perm_publish ≡ true)
unfolding check_publish
check_publish_iff c user_id channel = (λ h. ground arith, λ h. ground arith)

-- `CheckPublish` does not read the rule's demand for an identity: a user whom the rule bars, and
-- who is therefore refused a subscription, may publish if the permissions hold the right to.
pub check_publish_of_Barred :
    (c : Checker) (user_id channel token : Bytes)
    → Barred c user_id channel
    → has (get_user_permissions c user_id channel) perm_publish ≡ true
    → (check_subscribe c user_id channel token ≡ err unauthorized)
      × (check_publish c user_id channel ≡ ok true)
check_publish_of_Barred c user_id channel token b h = (
  (check_subscribe_errors c user_id channel token).0.1 b,
  (check_publish_iff c user_id channel).1 h,
)

-- `q` holds the permissions of every role of the list.
abbrev pub HoldsRoles : Map Permission → List Bytes → Permission → Type 0
HoldsRoles m [] q = Unit
HoldsRoles m (role ∷ roles) q =
    ((p : Permission) → lookup role m ≡ some p → has q p ≡ true) × HoldsRoles m roles q

module _ (m : Map Permission) where
  add_roles-base :
      (roles : List Bytes) (perm : Permission) → has (add_roles m roles perm) perm ≡ true
  unfolding add_roles
  add_roles-base [] perm = has_self perm
  add_roles-base (role ∷ roles) perm = elim (Option-cases (lookup role m)) [
    | inl none_ ↦ rw none_ (add_roles-base roles perm)
    | inr (p, found) ↦
        rw found (
          has_trans _ (add perm p) perm (add_roles-base roles (add perm p)) (has-add perm p perm).0)
  ]

  HoldsRoles-mono :
      (roles : List Bytes) (q r : Permission)
      → has r q ≡ true
      → HoldsRoles m roles q
      → HoldsRoles m roles r
  HoldsRoles-mono [] q r h k = tt
  HoldsRoles-mono (role ∷ roles) q r h k =
      (λ p found. has_trans r q p h (k.0 p found), HoldsRoles-mono roles q r h k.1)

  add_roles-HoldsRoles :
      (roles : List Bytes) (perm : Permission) → HoldsRoles m roles (add_roles m roles perm)
  unfolding add_roles
  add_roles-HoldsRoles [] perm = tt
  add_roles-HoldsRoles (role ∷ roles) perm = elim (Option-cases (lookup role m)) [
    | inl none_ ↦ (λ p found. absurd (cc), rw none_ (add_roles-HoldsRoles roles perm))
    | inr (q, here) ↦ (
      λ p found.
          let same : q ≡ p = cc in
          rw here (
            has_trans _ (add perm q) p (add_roles-base roles (add perm q))
              (rw same (has-add perm p perm).1)),
      rw here (add_roles-HoldsRoles roles (add perm q)),
    )
  ]

  add_roles-least :
      (roles : List Bytes) (perm q : Permission)
      → has q perm ≡ true
      → HoldsRoles m roles q
      → has q (add_roles m roles perm) ≡ true
  unfolding add_roles
  add_roles-least [] perm q h k = h
  add_roles-least (role ∷ roles) perm q h k = elim (Option-cases (lookup role m)) [
    | inl none_ ↦ rw none_ (add_roles-least roles perm q h k.1)
    | inr (p, found) ↦
        rw found (add_roles-least roles (add perm p) q ((has-add perm p q).2 h (k.0 p found)) k.1)
  ]

pub own_permission_unset :
    (c : Checker) (user_id channel : Bytes) (perm : Permission)
    → ((perms : Map Permission)
        → lookup user_id c.user_permissions ≡ some perms
        → lookup channel perms ≡ none)
    → own_permission c user_id channel perm ≡ perm
unfolding own_permission
own_permission_unset c user_id channel perm unset =
    elim (Option-cases (lookup user_id c.user_permissions)) [
      | inl none_ ↦ ground arith
      | inr (perms, found) ↦ ground (arith, unset perms found)
    ]

-- Without an entry of the user's own for the channel, the permissions are the least set of rights
-- that holds the rule's default and the permissions of every role of the user: they hold these, and
-- whatever set `q` holds these holds them.
pub get_user_permissions-least :
    (c : Checker) (user_id channel : Bytes) (q : Permission)
    → ((perms : Map Permission)
        → lookup user_id c.user_permissions ≡ some perms
        → lookup channel perms ≡ none)
    → has q (find_rule c channel).default_permissions ≡ true
    → HoldsRoles c.role_permissions (roles_of c user_id) q
    → let got = get_user_permissions c user_id channel in
      (has got (find_rule c channel).default_permissions ≡ true)
      × HoldsRoles c.role_permissions (roles_of c user_id) got
      × (has q got ≡ true)
unfolding get_user_permissions
get_user_permissions-least c user_id channel q unset low high =
    let base = (find_rule c channel).default_permissions in
    let roles = roles_of c user_id in
    let summed = add_roles c.role_permissions roles base in
    rw (own_permission_unset c user_id channel summed unset) (
      add_roles-base c.role_permissions roles base,
      add_roles-HoldsRoles c.role_permissions roles base,
      add_roles-least c.role_permissions roles base q low high,
    )
