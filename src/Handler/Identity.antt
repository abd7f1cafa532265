-- ===== src/Handler/Identity.antt =====
-- Who a client is, in engine/handler.go: what a connect command makes of the handler.
use stream_relay.Prelude.{
  ℕ, ◌≡◌, inl, inr, refl, true, Bool-cases, Option, List, [], ◌∷◌, Bytes, arith, ◌==◌, ◌++◌,
}
use stream_relay.Protocol.{Error, ok}
use stream_relay.Protocol.Messages.{Command, ConnectRequest, connect_answer}
use stream_relay.Permissions.Checker.{Checker, check_connect}
use stream_relay.Permissions.Checking.{default_checker}
use stream_relay.Handler.{Surroundings, ClientHandler, Session, Act, ended, send_result}
use stream_relay.Handler.Connecting.{
  extract_user_from_token, granted, start_ping_timer, connected_as, decoded_connect, connect_result,
  handle_connect,
}

-- No token makes the user empty, which is all that the checker looks at.
check_connect-extract :
    (c : Checker) (token other : Bytes)
    → check_connect c (extract_user_from_token token) other ≡ ok true
unfolding check_connect extract_user_from_token
check_connect-extract c [] other = ground arith
check_connect-extract c (t ∷ ts) other = ground arith

-- The handler of a client that has connected with a token.
abbrev pub HasConnected : Bytes → ClientHandler → ClientHandler → Type 0
HasConnected token before after =
    (after.connected ≡ true)
    × (after.user_id ≡ extract_user_from_token token)
    × (after.subscriptions ≡ before.subscriptions)
    × (after.closed ≡ before.closed)

start_ping_timer-HasConnected :
    (now : ℕ) (req : ConnectRequest) (h : ClientHandler)
    → HasConnected req.token h
        (start_ping_timer (connected_as now (extract_user_from_token req.token) req h))
unfolding start_ping_timer
start_ping_timer-HasConnected now req h = elim (Bool-cases (h.ping_interval == 0)) [
  | inl e ↦ rw (start_ping_timer, e) (refl, refl, refl, refl)
  | inr e ↦ rw (start_ping_timer, e) (refl, refl, refl, refl)
]

-- With the checker of the package, whatever it requires, a connect command whose data decode is never
-- denied, whoever the handler was before: the user is the token, or "anonymous", and every subscription is kept.
pub handle_connect-HasConnected :
    {S : Type 0} (env : Surroundings) (cmd : Command) (s : Session S) (req : ConnectRequest)
    (c : Checker)
    → env.checker ≡ default_checker c
    → decoded_connect env cmd.payload ≡ ok req
    → (h : ClientHandler) × (acts : List Act) × (error : Option Error) × (handle_connect env cmd s
        ≡ ended (record s { handler = h }) acts error)
      × HasConnected req.token s.handler h
unfolding handle_connect
handle_connect-HasConnected env cmd s req c is_default decodes =
    let user = extract_user_from_token req.token in
    let allowed : granted (env.checker.check_connect user req.token) ≡ true =
      rw (is_default, check_connect-extract c req.token req.token) refl in
    let next = start_ping_timer (connected_as env.now user req s.handler) in
    let sent = send_result env cmd.id (connect_answer (connect_result next)) in
    (
      next,
      [] ++ sent.0,
      sent.1,
      rw (handle_connect, decodes, allowed) refl,
      start_ping_timer-HasConnected env.now req s.handler,
    )
