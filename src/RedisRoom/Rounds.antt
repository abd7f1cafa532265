-- ===== src/RedisRoom/Rounds.antt =====
-- The rounds of `listenLoop` in engine/room.go, on what a read of the stream returned.
use stream_relay.Prelude.{
  ℕ, suc, ◌*◌, min, Bool, true, false, some, List, [], ◌∷◌, Bytes, leb, if◌then◌else◌,
}
use stream_relay.Protocol.{Result, ok, err}
use stream_relay.Types.{
  Message, PublishOptions, DeliveryResult, Event, event_error, stream_errors, Effect,
}
use stream_relay.Memory.Rooms.{emit}
use stream_relay.RedisRoom.{Room, redis_broadcast}

-- What a goroutine of `listenLoop` keeps.
pub record Listener : Type 0 where
  pub last_id : Bytes
  pub consecutive_errors : ℕ

-- The messages that a read returned are broadcast, one after the other: where the loop stands then.
unfoldable pub last_read : Bytes → List Message → Bytes
last_read last_id [] = last_id
last_read last_id (msg ∷ msgs) = last_read msg.id msgs

unfoldable pub broadcast_options : PublishOptions
broadcast_options = record { skip_sender = true; priority = 0; ttl = 0; persist = false }

unfoldable pub broadcast_each : (Bytes → Bool) → Room → List Message → List (List DeliveryResult)
broadcast_each in_time room [] = []
broadcast_each in_time room (msg ∷ msgs) =
    redis_broadcast in_time room msg (some broadcast_options) ∷ broadcast_each in_time room msgs

-- Each message that is broadcast makes the room active.
unfoldable pub active_after : ℕ → Room → List Message → Room
active_after now room [] = room
active_after now room (msg ∷ msgs) = active_after now (record room { last_active = now }) msgs

-- What a round of `listenLoop` leaves: the goroutine, the room, what the broadcasts report, the events, and
-- the wait before the next round.
pub record ListenRound : Type 0 where
  pub listener : Listener
  pub room : Room
  pub deliveries : List (List DeliveryResult)
  pub effects : List Effect
  pub wait : ℕ

-- A round of `listenLoop`, given what the read of the stream returned.
unfoldable pub listen_round :
    (Bytes → Bool) → Bool → ℕ → Room → Listener → Result (List Message) → ListenRound
listen_round in_time handled now room l (err e) =
    let n = suc l.consecutive_errors in
    let event : Event = record {
      kind = event_error;
      room_id = room.config.id;
      user_id = [];
      timestamp = now;
      payload = stream_errors n e;
    } in
    record {
      listener = record l { consecutive_errors = n };
      room = room;
      deliveries = [];
      effects = if leb 10 n then emit handled event else [];
      wait = min (n * 1000) 30000;
    }
listen_round in_time handled now room l (ok msgs) = record {
  listener = record { last_id = last_read l.last_id msgs; consecutive_errors = 0 };
  room = active_after now room msgs;
  deliveries = broadcast_each in_time room msgs;
  effects = [];
  wait = 0;
}
