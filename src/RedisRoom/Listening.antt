-- ===== src/RedisRoom/Listening.antt =====
-- The goroutines that listen to the stream of a room, and the channel that stops them.
use stream_relay.Prelude.{ℕ, suc, ◌≡◌, refl, Bool, true, false, arith}
use stream_relay.Protocol.{Error}
use stream_relay.Types.{RoomConfig}
use stream_relay.RedisRoom.{
  Room, new_redis_room, start, stop, check_stop, restart_loop, listen_panicked, close_redis_room,
}

-- A call of `Start`, `Stop` or `Close`, or a goroutine that comes to its `select` or
-- panics.
pub data Turn (room : Room) : Room → Type 0 where
  started : Turn room (start room)
  stopped : Turn room (stop room)
  shut : Turn room (close_redis_room room).0
  checked : Turn room (check_stop room)
  broke :
      (handled : Bool) (now : ℕ) (recovered : Error)
      → Turn room (listen_panicked handled now room recovered).0

pub data Turns : Room → Type 0 where
  made : (now : ℕ) (config : RoomConfig) → Turns (new_redis_room now config)
  turned : {room next : Room} → Turns room → Turn room next → Turns next

-- A room that runs has a channel that is open.
abbrev pub StopIsOpen : Room → Type 0
StopIsOpen room = room.running ≡ true → room.stop_closed ≡ false

Turn-StopIsOpen : (room next : Room) → Turn room next → StopIsOpen room → StopIsOpen next
unfolding start stop check_stop restart_loop listen_panicked close_redis_room
Turn-StopIsOpen room next started h = λ e. ground arith
Turn-StopIsOpen room next stopped h = λ e. ground arith
Turn-StopIsOpen room next shut h = λ e. ground arith
Turn-StopIsOpen room next checked h = λ e. ground arith
Turn-StopIsOpen room next (broke handled now recovered) h = λ e. ground arith

-- However `Start`, `Stop`, `Close` and the rounds of the goroutines follow each other, `Stop` never
-- closes a channel that is closed: while the room runs, its channel is open.
pub Turns-StopIsOpen : (room : Room) → Turns room → room.running ≡ true → room.stop_closed ≡ false
unfolding new_redis_room
Turns-StopIsOpen room (made now config) e = refl
Turns-StopIsOpen room (turned {room = old} before turn) e =
    Turn-StopIsOpen old room turn (Turns-StopIsOpen old before) e

-- A room that is stopped and started again before its goroutine comes to the `select` has one more
-- goroutine than before, and none of them returns when it gets there.
check_stop-restart :
    (room : Room)
    → room.running ≡ true
    → let again = start (stop room) in (again.loops ≡ suc room.loops) × (check_stop again ≡ again)
unfolding start stop check_stop
check_stop-restart room e = rw e ((refl, refl))
