-- ===== src/Types.antt =====
-- engine/types.go: messages, rooms, options, events, and the interface of a subscriber. A time is a
-- number of milliseconds since 1970, `none` for Go's zero time; a duration is in milliseconds.
use stream_relay.Prelude.{◌≡◌, refl, ◌⊎◌, inl, inr, ℕ, Bool, true, Option, List, Bytes, codes, Map}
use stream_relay.Protocol.{Error}

abbrev pub MessageType : Type 0
MessageType = Bytes

abbrev pub message_type_text : MessageType
message_type_text = codes "text"

abbrev pub message_type_system : MessageType
message_type_system = codes "system"

pub record Message : Type 0 where
  pub id : Bytes
  pub room_id : Bytes
  pub sender_id : Bytes
  pub kind : MessageType
  pub content : Bytes
  pub metadata : Map Bytes
  pub timestamp : Option ℕ

-- What a call of `Receive` does: it returns nil, it returns an error, or it panics with a value.
pub data Outcome : Type 0 where
  received : Outcome
  refused panicked : Error → Outcome

pub Outcome-cases :
    (o : Outcome)
    → (o ≡ received) ⊎ (((e : Error) × (o ≡ refused e)) ⊎ ((e : Error) × (o ≡ panicked e)))
Outcome-cases received = inl refl
Outcome-cases (refused e) = inr (inl (e, refl))
Outcome-cases (panicked e) = inr (inr (e, refl))

-- The interface that a connection handler implements: its `ID`, and what its `Receive` does with a
-- message the `n`th time that it is offered. `conn` tells two connections of one user apart, so that
-- a call of `Close` can be recorded.
pub record Subscriber : Type 0 where
  pub user_id : Bytes
  pub conn : ℕ
  pub receive : Message → ℕ → Outcome

pub data DeliveryStatus : Type 0 where
  delivery_pending delivery_success delivery_failed delivery_offline : DeliveryStatus

pub record DeliveryResult : Type 0 where
  pub user_id : Bytes
  pub status : DeliveryStatus
  pub error : Option Error

pub data RoomType : Type 0 where
  room_type_group room_type_direct room_type_unset : RoomType

-- A history size that is negative is 0 here: the code treats the two alike.
pub record RoomConfig : Type 0 where
  pub id : Bytes
  pub kind : RoomType
  pub history_size : ℕ
  pub history_ttl : ℕ
  pub members : List Bytes

pub record PublishOptions : Type 0 where
  pub skip_sender : Bool
  pub priority : ℕ
  pub ttl : ℕ
  pub persist : Bool

unfoldable pub default_publish_options : PublishOptions
default_publish_options = record { skip_sender = true; priority = 0; ttl = 0; persist = true }

-- A limit that is negative is 0 here: the code treats the two alike.
pub record RecoveryOptions : Type 0 where
  pub from_id : Bytes
  pub limit : ℕ
  pub since : Option ℕ

pub data EventType : Type 0 where
  event_connect event_disconnect event_subscribe event_unsubscribe : EventType
  event_publish event_delivery event_error : EventType

-- The data of an event: nothing; the message id and the number of deliveries of a publication; what a
-- delivery panicked with, and the message id; the number of read errors in a row, and the last one; what
-- a loop panicked with; or the id of a message that did not go out to the other nodes, and why.
pub data EventData : Type 0 where
  no_data : EventData
  publication : Bytes → ℕ → EventData
  delivery_panicked : Error → Bytes → EventData
  stream_errors : ℕ → Error → EventData
  loop_panicked : Error → EventData
  pubsub_failed : Bytes → Error → EventData

pub record Event : Type 0 where
  pub kind : EventType
  pub room_id : Bytes
  pub user_id : Bytes
  pub timestamp : ℕ
  pub payload : EventData

pub record Stats : Type 0 where
  pub active_rooms : ℕ
  pub active_subscribers : ℕ
  pub total_messages : ℕ
  pub messages_per_second : ℕ
  pub pending_deliveries : ℕ
  pub uptime : ℕ

pub record PresenceInfo : Type 0 where
  pub user_id : Bytes
  pub client_id : Bytes
  pub connected_at : Option ℕ
  pub info : Map Bytes

-- What an operation does to the world: it closes a connection, or it calls the event handler.
pub data Effect : Type 0 where
  closed : ℕ → Effect
  emitted : Event → Effect
