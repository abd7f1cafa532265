-- ===== src/RedisRoom/Tests.antt =====
-- Runs of the room of the relay on Redis, and its theorems at inputs that meet their hypotheses.
use stream_relay.Prelude.{
  ℕ, ◌≡◌, refl, true, false, [], ◌∷◌, codes, Bytes-discrete, length, lookup, delete,
}
use stream_relay.Protocol.{failure, err}
use stream_relay.Types.{Subscriber, received, RoomConfig, room_type_group}
use stream_relay.RedisRoom.{
  Room, new_redis_room, has_member, is_member, add_member, without_member, remove_member,
  get_subscriber, start, stop, check_stop, restart_loop, listen_panicked,
}
use stream_relay.RedisRoom.Rounds.{ListenRound, listen_round, last_read, broadcast_each}
use stream_relay.RedisRoom.Listening.{Turns, made, turned, started, stopped, Turns-StopIsOpen}

program : Unit {0}
unfolding new_redis_room has_member is_member add_member without_member remove_member get_subscriber
    start stop check_stop listen_round last_read broadcast_each lookup delete Bytes-discrete
program = tt

abbrev ann : Subscriber
ann = record { user_id = codes "ann"; conn = 1; receive = λ msg n. received }

abbrev config : RoomConfig
config = record {
  id = codes "lobby";
  kind = room_type_group;
  history_size = 3;
  history_ttl = 0;
  members = codes "ann" ∷ codes "bob" ∷ [];
}

abbrev lobby : Room
lobby = record {
  config = config;
  subscribers = (codes "ann", ann) ∷ [];
  presence = [];
  running = true;
  stop_closed = false;
  loops = 1;
  last_active = 0;
}

-- The round of a goroutine that has had so many errors in a row, when the next read fails too.
abbrev failed_round : ℕ → ListenRound
failed_round errors =
    listen_round (λ user. true) true 5 lobby
      (record { last_id = codes "$"; consecutive_errors = errors }) (err (failure (codes "down")))

-- The tenth error in a row is reported, the ninth is not; both are counted, and the goroutine waits.
errors_counted :
    ((failed_round 8).listener ≡ record { last_id = codes "$"; consecutive_errors = 9 })
    × ((failed_round 8).effects ≡ [])
    × ((failed_round 8).wait ≡ 9000)
    × (length (failed_round 9).effects ≡ 1)
unfolding program
errors_counted = (refl, refl, refl, refl)

-- A goroutine that panics in a room that has stopped is not replaced.
panicked_stopped :
    let (room, effects) = listen_panicked true 5 (stop lobby) (failure (codes "oops")) in
    (room.loops ≡ 0) × (length effects ≡ 1)
unfolding program listen_panicked restart_loop
panicked_stopped = (refl, refl)

abbrev restarted : Room
restarted = start (stop (start (new_redis_room 0 config)))

restarted-Turns : Turns restarted
restarted-Turns = turned (turned (turned (made 0 config) started) stopped) started

Turns-StopIsOpen_example : restarted.stop_closed ≡ false
unfolding program
Turns-StopIsOpen_example = Turns-StopIsOpen restarted restarted-Turns refl
