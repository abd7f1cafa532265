-- ===== src/Handler/Anonymous.antt =====
-- Clients without a token, in engine/handler.go and engine/permissions.go.
use stream_relay.Prelude.{◌≡◌, ◌≢◌, inl, inr, true, [], Bytes, arith}
use stream_relay.Protocol.{err, unauthorized}
use stream_relay.Permissions.Checker.{Checker, check_subscribe}
use stream_relay.Streams.Commands.{Do}
use stream_relay.Handler.{Session}
use stream_relay.Handler.Lives.{Reachable, Reachable-IsWellFormed}

check_subscribe_named :
    (c : Checker) (user channel token : Bytes)
    → user ≢ []
    → check_subscribe c user channel token ≢ err unauthorized
unfolding check_subscribe
check_subscribe_named c user channel token named = ground arith

-- A client that has connected is never refused a subscription for want of an identity, with or without
-- a token, whatever the rules of the checker require.
pub Reachable-check_subscribe :
    {S : Type 0} (do_command : Do S) {s : Session S} (c : Checker) (channel token : Bytes)
    → Reachable do_command s
    → s.handler.connected ≡ true
    → check_subscribe c s.handler.user_id channel token ≢ err unauthorized
Reachable-check_subscribe do_command {s} c channel token reached is_in =
    let v = Reachable-IsWellFormed do_command reached in
    elim v.named [
      | inl out ↦ absurd cc
      | inr named ↦ check_subscribe_named c s.handler.user_id channel token named
    ]
