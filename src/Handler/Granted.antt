-- ===== src/Handler/Granted.antt =====
-- Who has given a client its rights (engine/handler.go), over the whole life of a session.
use stream_relay.Prelude.{
  ℕ, ◌≡◌, refl, sym, subst, some, ite, lookup, Bytes-discrete, ◌∙◌, ◌⊎◌, inl, inr, true, false,
  Bool-cases, [], ◌∷◌, Bytes, Map, insert, delete, ◌==◌,
}
use stream_relay.Protocol.{ok}
use stream_relay.Protocol.Messages.{Command}
use stream_relay.Permissions.Bits.{Permission}
use stream_relay.Permissions.Checking.{PermissionChecker}
use stream_relay.Streams.Commands.{Do}
use stream_relay.Handler.{Surroundings, ClientHandler, Session, new_client_handler}
use stream_relay.Handler.Connecting.{
  extract_user_from_token, granted, start_ping_timer, connected_as,
}
use stream_relay.Handler.Subscribing.{without_subscription}
use stream_relay.Handler.Upkeep.{SameOrShut}
use stream_relay.Handler.Changes.{Change, kept, pinged, connects, subscribes, unsubscribes}
use stream_relay.Handler.Endings.{heard_at, Evolves, heard_only, commanded, timed, shutting}
use stream_relay.Handler.Lives.{AskedIn, Step-Evolves, Reachable, begun, stepped}

-- In every step it is this checker that the handler asks.
abbrev pub AlwaysAsks :
    {S : Type 0} {do_command : Do S} {s : Session S}
    → PermissionChecker
    → Reachable do_command s
    → Type 0
AlwaysAsks checker (begun client_id conn interval timeout relay server) = Unit
AlwaysAsks checker (stepped before step) =
    AlwaysAsks checker before × AskedIn (λ c. c ≡ checker) step

-- A user that a token names, with which the checker lets it connect.
abbrev pub IsAdmitted : PermissionChecker → Bytes → Type 0
IsAdmitted checker user =
    (token : Bytes) × (user ≡ extract_user_from_token token)
    × (granted (checker.check_connect user token) ≡ true)

-- The checker has answered these permissions to a subscription of such a user to the channel.
abbrev pub IsGranted : PermissionChecker → Bytes → Permission → Type 0
IsGranted checker channel perm =
    (user : Bytes) × IsAdmitted checker user
    × (token : Bytes) × (checker.check_subscribe user channel token ≡ ok perm)

abbrev pub AllGranted : PermissionChecker → Map Permission → Type 0
AllGranted checker [] = Unit
AllGranted checker ((channel, perm) ∷ subscriptions) =
    IsGranted checker channel perm × AllGranted checker subscriptions

-- A client that has connected is a user whom the checker has let connect, and all its permissions are
-- answers of the checker.
pub record HasGrants (checker : PermissionChecker) (h : ClientHandler) : Type 0 where
  pub user_admitted : (h.connected ≡ false) ⊎ IsAdmitted checker h.user_id
  pub all_granted : AllGranted checker h.subscriptions

ite-AllGranted :
    {P : Type 0} (checker : PermissionChecker) (d : Dec P) (xs ys : Map Permission)
    → (P → AllGranted checker xs)
    → AllGranted checker ys
    → AllGranted checker (ite d xs ys)
ite-AllGranted checker (yes p) xs ys f all = f p
ite-AllGranted checker (no n) xs ys f all = all

AllGranted-insert :
    (checker : PermissionChecker) (channel : Bytes) (perm : Permission) (m : Map Permission)
    → IsGranted checker channel perm
    → AllGranted checker m
    → AllGranted checker (insert channel perm m)
unfolding insert
AllGranted-insert checker channel perm [] one all = (one, tt)
AllGranted-insert checker channel perm ((other, p) ∷ m) one (first, all) =
    ite-AllGranted checker (Bytes-discrete channel other) _ _
      (λ e. (subst (λ c. IsGranted checker c perm) e one, all))
      (first, AllGranted-insert checker channel perm m one all)

AllGranted-delete :
    (checker : PermissionChecker) (channel : Bytes) (m : Map Permission)
    → AllGranted checker m
    → AllGranted checker (delete channel m)
unfolding delete
AllGranted-delete checker channel [] all = tt
AllGranted-delete checker channel ((other, p) ∷ m) (first, all) =
    let ih = AllGranted-delete checker channel m all in
    ite-AllGranted checker (Bytes-discrete channel other) _ _ (λ e. ih) (first, ih)

AllGranted-lookup :
    (checker : PermissionChecker) (channel : Bytes) (perm : Permission) (m : Map Permission)
    → AllGranted checker m
    → lookup channel m ≡ some perm
    → IsGranted checker channel perm
unfolding lookup
AllGranted-lookup checker channel perm [] all e = absurd cc
AllGranted-lookup checker channel perm ((other, p) ∷ m) (first, all) e =
    go (Bytes-discrete channel other) (AllGranted-lookup checker channel perm m all) e
  where
    go :
        (d : Dec (channel ≡ other))
        → (lookup channel m ≡ some perm → IsGranted checker channel perm)
        → ite d (some p) (lookup channel m) ≡ some perm
        → IsGranted checker channel perm
    go (yes same) later e =
        let right : p ≡ perm = cc in
        subst (λ q. IsGranted checker channel q) right
          (subst (λ c. IsGranted checker c p) (sym same) first)
    go (no differs) later e = later e

SameOrShut-HasGrants :
    (checker : PermissionChecker) (h after : ClientHandler)
    → SameOrShut h after
    → HasGrants checker h
    → HasGrants checker after
SameOrShut-HasGrants checker h after (inl e) v = subst (HasGrants checker) (sym e) v
SameOrShut-HasGrants checker h after (inr e) v =
    subst (HasGrants checker) (sym e)
      (record { user_admitted = v.user_admitted; all_granted = v.all_granted })

heard_at-HasGrants :
    (checker : PermissionChecker) (now : ℕ) (h : ClientHandler)
    → HasGrants checker h
    → HasGrants checker (heard_at now h)
heard_at-HasGrants checker now h v = record {
  user_admitted = v.user_admitted;
  all_granted = v.all_granted;
}

start_ping_timer-HasGrants :
    (checker : PermissionChecker) (h : ClientHandler)
    → HasGrants checker h
    → HasGrants checker (start_ping_timer h)
unfolding start_ping_timer
start_ping_timer-HasGrants checker h v = elim (Bool-cases (h.ping_interval == 0)) [
  | inl e ↦ rw (start_ping_timer, e) v
  | inr e ↦
      rw (start_ping_timer, e)
        (record { user_admitted = v.user_admitted; all_granted = v.all_granted })
]

Change-HasGrants :
    {env : Surroundings} {cmd : Command} {h next : ClientHandler}
    → Change env cmd h next
    → HasGrants env.checker h
    → HasGrants env.checker next
Change-HasGrants kept v = v
Change-HasGrants {env} {h} pinged v = heard_at-HasGrants env.checker env.now h v
Change-HasGrants {env} {h} (connects req kind decodes may) v =
    start_ping_timer-HasGrants env.checker
      (connected_as env.now (extract_user_from_token req.token) req h)
      (record { user_admitted = inr (req.token, refl, may); all_granted = v.all_granted })
Change-HasGrants {env} {cmd} {h} (subscribes after perm req is_in kind may same) v =
    let w = SameOrShut-HasGrants env.checker h after same v in
    elim v.user_admitted [
      | inl out ↦ let bad = sym is_in ∙ out in absurd cc
      | inr admitted ↦ record {
        user_admitted = w.user_admitted;
        all_granted =
            AllGranted-insert env.checker cmd.channel perm after.subscriptions
              (h.user_id, admitted, _, may) w.all_granted;
      }
    ]
Change-HasGrants {env} {cmd} {h} (unsubscribes after perm is_in kind had same) v =
    SameOrShut-HasGrants env.checker (without_subscription cmd.channel h) after same (record {
      user_admitted = v.user_admitted;
      all_granted = AllGranted-delete env.checker cmd.channel h.subscriptions v.all_granted;
    })

Evolves-HasGrants :
    (checker : PermissionChecker) {h next : ClientHandler}
    → Evolves (λ c. c ≡ checker) h next
    → HasGrants checker h
    → HasGrants checker next
Evolves-HasGrants checker {h} (heard_only env) v = heard_at-HasGrants checker env.now h v
Evolves-HasGrants checker {h} (commanded env cmd next same change) v =
    subst (λ c. HasGrants c next) same
      (Change-HasGrants change
        (heard_at-HasGrants env.checker env.now h (subst (λ c. HasGrants c h) (sym same) v)))
Evolves-HasGrants checker timed v = record {
  user_admitted = v.user_admitted;
  all_granted = v.all_granted;
}
Evolves-HasGrants checker {h} (shutting next same) v = SameOrShut-HasGrants checker h next same v

Reachable-HasGrants :
    {S : Type 0} (do_command : Do S) (checker : PermissionChecker) {s : Session S}
    (reached : Reachable do_command s)
    → AlwaysAsks checker reached
    → HasGrants checker s.handler
unfolding new_client_handler
Reachable-HasGrants do_command checker (begun client_id conn interval timeout relay server) asks =
    record { user_admitted = inl refl; all_granted = tt }
Reachable-HasGrants do_command checker (stepped before step) (asks, asked) =
    Evolves-HasGrants checker (Step-Evolves do_command (λ c. c ≡ checker) step asked)
      (Reachable-HasGrants do_command checker before asks)

-- In every session that a new handler comes to while it asks one checker, whichever that is, the
-- permissions of the client on a channel are an answer of this checker to a subscription to the channel, by
-- some user whom the checker lets connect with a token that names it.
pub Reachable-IsGranted :
    {S : Type 0} (do_command : Do S) (checker : PermissionChecker) {s : Session S}
    (reached : Reachable do_command s) (channel : Bytes) (perm : Permission)
    → AlwaysAsks checker reached
    → lookup channel s.handler.subscriptions ≡ some perm
    → IsGranted checker channel perm
Reachable-IsGranted do_command checker {s} reached channel perm asks has =
    AllGranted-lookup checker channel perm s.handler.subscriptions
      (Reachable-HasGrants do_command checker reached asks).all_granted has
