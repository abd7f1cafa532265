-- ===== src/Memory.antt =====
-- engine/memory_relay.go: the relay that keeps everything in memory, with its rooms. A lock makes
-- each method atomic; the state is passed on explicitly, and the calls of `Close` on connections and
-- of the event handler are a list of effects. `now` is the clock reading of the operation. A room is
-- held by value: a pointer to it that outlives its deletion is not modelled.
pub mod Rooms
pub mod Deliveries
pub mod Relays
pub mod Requests
pub mod MessageIds
pub mod RoomInvariant
pub mod Results
pub mod Retries
pub mod Panics
pub mod RoomSets
pub mod Reachability
pub mod Publishing
pub mod Recovering
pub mod Series
pub mod Histories
pub mod Closing
mod Tests
use stream_relay.Prelude.{ℕ, Bool, Map}
use stream_relay.Types.{Message, Subscriber, RoomConfig, PresenceInfo}
use stream_relay.RingBuffer.{RingBuffer}

-- Every room belongs to a relay; whether this has an event handler is passed to the operations.
pub record MemoryRoom : Type 0 where
  pub config : RoomConfig
  pub subscribers : Map Subscriber
  pub presence : Map PresenceInfo
  pub history : RingBuffer Message
  pub last_active : ℕ

-- `message_seq` holds the 64 bits of an atomic int64; `handled` says whether there is an event
-- handler.
pub record MemoryRelay : Type 0 where
  pub rooms : Map MemoryRoom
  pub handled : Bool
  pub running : Bool
  pub start_time : ℕ
  pub message_seq : ℕ
  pub total_messages : ℕ
  pub default_history_size : ℕ
  pub default_history_ttl : ℕ

-- A size that is negative is 0 here: the code treats the two alike.
pub record MemoryConfig : Type 0 where
  pub default_history_size : ℕ
  pub default_history_ttl : ℕ
  pub handled : Bool
