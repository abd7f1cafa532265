-- ===== src/Handler/Connecting.antt =====
-- Connecting, pinging and the ping timer in engine/handler.go, and the ends that all commands share.
use stream_relay.Prelude.{
  ℕ, ◌+◌, ◌-◌, ◌/◌, ◌==◌, Bool, true, false, not, Option, none, some, List, [], ◌++◌, Bytes, codes,
  str_eq, ltb, if◌then◌else◌,
}
use stream_relay.Protocol.{Error, Result, ok, err}
use stream_relay.Protocol.Messages.{
  Command, ConnectRequest, ConnectResult, connect_answer, protocol_version, new_pong_push,
  code_bad_request, code_unauthorized,
}
use stream_relay.Handler.{
  Surroundings, ClientHandler, Session, Act, Ended, ended, is_connected, send_error, send_result,
  send_push,
}
use stream_relay.Handler.Closing.{close}

unfoldable pub extract_user_from_token : Bytes → Bytes
extract_user_from_token token = if str_eq token [] then codes "anonymous" else token

abbrev pub blank_connect_request : ConnectRequest
blank_connect_request = record { token = []; payload = none; name = []; version = [] }

-- Whether a check returned true and no error.
abbrev pub granted : Result Bool → Bool
granted (ok allowed) = allowed
granted (err e) = false

unfoldable pub start_ping_timer : ClientHandler → ClientHandler
start_ping_timer h = if h.ping_interval == 0 then h else record h { ping_timer = true }

-- What `handleConnect` writes before it starts the timer.
abbrev pub connected_as : ℕ → Bytes → ConnectRequest → ClientHandler → ClientHandler
connected_as now user req h = record h {
  user_id = user;
  connected = true;
  connected_at = some now;
  conn_info = req.payload;
}

abbrev pub connect_result : ClientHandler → ConnectResult
connect_result h = record {
  client = h.client_id;
  version = protocol_version;
  expires = 0;
  ttl = 0;
  payload = none;
  ping = h.ping_interval / 1000;
  pong = true;
}

module _ (env : Surroundings) where
  abbrev pub decoded_connect : Option Bytes → Result ConnectRequest
  decoded_connect none = ok blank_connect_request
  decoded_connect (some text) = env.json.decode_connect text

  -- Whether a client has been silent for too long; one that never sent anything has.
  abbrev pub is_silent : ClientHandler → Bool
  is_silent h = elim h.last_activity [
    | none ↦ true
    | some t ↦ ltb (h.ping_interval + h.pong_timeout) (env.now - t)
  ]

module _ {S : Type 0} (env : Surroundings) where
  -- A command ends with what happened so far and the reply.
  abbrev pub ends_with : Session S → List Act → List Act × Option Error → Ended S
  ends_with s acts (sent, error) = ended s (acts ++ sent) error

  abbrev pub refuse : Command → Session S → ℕ → Bytes → Ended S
  refuse cmd s code text = ends_with s [] (send_error env cmd.id code text)

  unfoldable pub handle_connect : Command → Session S → Ended S
  handle_connect cmd s = elim (decoded_connect env cmd.payload) [
    | err e ↦ refuse cmd s code_bad_request (codes "invalid connect request")
    | ok req ↦
        let user = extract_user_from_token req.token in
        let next = start_ping_timer (connected_as env.now user req s.handler) in
        if granted (env.checker.check_connect user req.token)
        then ends_with (record s { handler = next }) []
            (send_result env cmd.id (connect_answer (connect_result next)))
        else refuse cmd s code_unauthorized (codes "connection denied")
  ]

  -- The tests that begin every command on a channel.
  unfoldable pub on_channel : Command → Session S → Ended S → Ended S
  on_channel cmd s continued =
      if not (is_connected s.handler)
      then refuse cmd s code_unauthorized (codes "not connected")
      else if str_eq cmd.channel []
      then refuse cmd s code_bad_request (codes "channel required")
      else continued

  unfoldable pub handle_ping : Command → Session S → Ended S
  handle_ping cmd s =
      ends_with (record s { handler = record s.handler { last_activity = some env.now } }) []
        (send_push env new_pong_push)

  -- What the timer does when it fires.
  unfoldable pub ping_timer_fired : Session S → Ended S
  ping_timer_fired s =
      if is_silent env s.handler
      then close env.blocks env.now env.close_error s
      else ended (record s { handler = record s.handler { ping_timer = true } }) [] none
