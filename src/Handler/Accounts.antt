-- ===== src/Handler/Accounts.antt =====
-- The client of a handler (engine/handler.go) as a specification sees it: who it is, what it may do on
-- which channel, and whether it is open, whatever the handler and the relay keep of that.
use stream_relay.Prelude.{
  ◌≡◌, refl, sym, ap, subst, fun_ext, ◌∙◌, inl, inr, Bool, true, false, not, Bool-cases, Option,
  none, some, Bytes, str_eq, ◌==◌, ite, Bytes-discrete, if◌then◌else◌, lookup, lookup-insert,
  lookup-delete,
}
use stream_relay.Protocol.{ok}
use stream_relay.Protocol.Messages.{
  Command, SubscribeRequest, ConnectRequest, cmd_connect, cmd_subscribe, cmd_unsubscribe,
}
use stream_relay.Permissions.Bits.{Permission}
use stream_relay.Handler.{Surroundings, ClientHandler}
use stream_relay.Handler.Closing.{shut}
use stream_relay.Handler.Connecting.{
  decoded_connect, extract_user_from_token, granted, start_ping_timer, connected_as,
}
use stream_relay.Handler.Subscribing.{decoded_subscribe, with_subscription, without_subscription}
use stream_relay.Handler.Upkeep.{SameOrShut}
use stream_relay.Handler.Changes.{Change, kept, pinged, connects, subscribes, unsubscribes}

pub record Account : Type 0 where
  pub user : Option Bytes
  pub permission_on : Bytes → Option Permission
  pub is_open : Bool

abbrev pub account_of : ClientHandler → Account
account_of h = record {
  user = if h.connected then some h.user_id else none;
  permission_on = λ channel. lookup channel h.subscriptions;
  is_open = not h.closed;
}

abbrev pub with_permission : Bytes → Option Permission → Account → Account
with_permission channel perm a = record a {
  permission_on = λ c. ite (Bytes-discrete channel c) perm (a.permission_on c);
}

abbrev pub shut_account : Account → Account
shut_account a = record a { is_open = false }

-- The account as it is, or shut.
pub data OrShut (a : Account) : Account → Type 0 where
  as_it_is : OrShut a a
  shut_too : OrShut a (shut_account a)

-- What a command may do to an account: nothing; a connection that the checker grants gives it the user
-- of the token; a subscription of somebody gives it on the channel what the checker allows that user;
-- and the end of a subscription takes all rights on the channel. The last two may shut it besides.
pub data Move (env : Surroundings) (cmd : Command) (a : Account) : Account → Type 0 where
  stays : Move env cmd a a
  joins :
      (req : ConnectRequest)
      → str_eq cmd.kind cmd_connect ≡ true
      → decoded_connect env cmd.payload ≡ ok req
      → granted (env.checker.check_connect (extract_user_from_token req.token) req.token) ≡ true
      → Move env cmd a (record a { user = some (extract_user_from_token req.token) })
  gains :
      (user : Bytes) (perm : Permission) (b : Account)
      → str_eq cmd.kind cmd_subscribe ≡ true
      → a.user ≡ some user
      → env.checker.check_subscribe user cmd.channel (decoded_subscribe env cmd.payload).token
        ≡ ok perm
      → OrShut (with_permission cmd.channel (some perm) a) b
      → Move env cmd a b
  loses :
      (user : Bytes) (perm : Permission) (b : Account)
      → str_eq cmd.kind cmd_unsubscribe ≡ true
      → a.user ≡ some user
      → a.permission_on cmd.channel ≡ some perm
      → OrShut (with_permission cmd.channel none a) b
      → Move env cmd a b

account_of-with_subscription :
    (channel : Bytes) (perm : Permission) (req : SubscribeRequest) (h : ClientHandler)
    → with_permission channel (some perm) (account_of h)
      ≡ account_of (with_subscription channel perm req h)
account_of-with_subscription channel perm req h =
    let law : (c : Bytes)
        → ite (Bytes-discrete channel c) (some perm) (lookup c h.subscriptions)
          ≡ lookup c (with_subscription channel perm req h).subscriptions =
      λ c. sym (lookup-insert c channel perm h.subscriptions) in
    ap (λ (f : Bytes → Option Permission). record (account_of h) { permission_on = f })
      (fun_ext law)

account_of-without_subscription :
    (channel : Bytes) (h : ClientHandler)
    → with_permission channel none (account_of h) ≡ account_of (without_subscription channel h)
account_of-without_subscription channel h =
    let law : (c : Bytes)
        → ite (Bytes-discrete channel c) none (lookup c h.subscriptions)
          ≡ lookup c (without_subscription channel h).subscriptions =
      λ c. sym (lookup-delete c channel h.subscriptions) in
    ap (λ (f : Bytes → Option Permission). record (account_of h) { permission_on = f })
      (fun_ext law)

module _ (env : Surroundings) (cmd : Command) (h : ClientHandler) (is_in : h.connected ≡ true) where
  somebody : (account_of h).user ≡ some h.user_id
  somebody = rw is_in refl

  -- A subscription of a handler that was shut on the way, or not.
  pub subscribed-Move :
      (after : ClientHandler) (perm : Permission) (req : SubscribeRequest)
      → str_eq cmd.kind cmd_subscribe ≡ true
      → env.checker.check_subscribe h.user_id cmd.channel (decoded_subscribe env cmd.payload).token
        ≡ ok perm
      → SameOrShut h after
      → Move env cmd (account_of h) (account_of (with_subscription cmd.channel perm req after))
  subscribed-Move after perm req kind may same =
      let next = account_of (with_subscription cmd.channel perm req after) in
      let start = with_permission cmd.channel (some perm) (account_of h) in
      gains h.user_id perm next kind somebody may (elim same [
        | inl e ↦
            subst (OrShut start)
              (account_of-with_subscription cmd.channel perm req h
                ∙ ap (λ x. account_of (with_subscription cmd.channel perm req x)) (sym e))
              as_it_is
        | inr e ↦
            subst (OrShut start)
              (account_of-with_subscription cmd.channel perm req (shut h)
                ∙ ap (λ x. account_of (with_subscription cmd.channel perm req x)) (sym e))
              shut_too
      ])

  -- The end of a subscription, in which the handler may be shut.
  pub unsubscribed-Move :
      (after : ClientHandler) (perm : Permission)
      → str_eq cmd.kind cmd_unsubscribe ≡ true
      → lookup cmd.channel h.subscriptions ≡ some perm
      → SameOrShut (without_subscription cmd.channel h) after
      → Move env cmd (account_of h) (account_of after)
  unsubscribed-Move after perm kind had same =
      let start = with_permission cmd.channel none (account_of h) in
      loses h.user_id perm (account_of after) kind somebody had (elim same [
        | inl e ↦
            subst (OrShut start)
              (account_of-without_subscription cmd.channel h ∙ ap account_of (sym e)) as_it_is
        | inr e ↦
            subst (OrShut start)
              (account_of-without_subscription cmd.channel (shut h) ∙ ap account_of (sym e))
              shut_too
      ])

-- A connection, with the timer or without.
pub connected-Move :
    (env : Surroundings) (cmd : Command) (req : ConnectRequest) (h : ClientHandler)
    → str_eq cmd.kind cmd_connect ≡ true
    → decoded_connect env cmd.payload ≡ ok req
    → granted (env.checker.check_connect (extract_user_from_token req.token) req.token) ≡ true
    → Move env cmd (account_of h) (
        account_of
          (start_ping_timer (connected_as env.now (extract_user_from_token req.token) req h)))
unfolding start_ping_timer
connected-Move env cmd req h kind decodes may = elim (Bool-cases (h.ping_interval == 0)) [
  | inl e ↦ rw (start_ping_timer, e) (joins req kind decodes may)
  | inr e ↦ rw (start_ping_timer, e) (joins req kind decodes may)
]

-- What a command does to a handler is what the specification lets it do to the account.
pub Change-Move :
    {env : Surroundings} {cmd : Command} {h next : ClientHandler}
    → Change env cmd h next
    → Move env cmd (account_of h) (account_of next)
Change-Move kept = stays
Change-Move pinged = stays
Change-Move {env} {cmd} {h} (connects req kind decodes may) =
    connected-Move env cmd req h kind decodes may
Change-Move {env} {cmd} {h} (subscribes after perm req is_in kind may same) =
    subscribed-Move env cmd h is_in after perm req kind may same
Change-Move {env} {cmd} {h} (unsubscribes after perm is_in kind had same) =
    unsubscribed-Move env cmd h is_in after perm kind had same
