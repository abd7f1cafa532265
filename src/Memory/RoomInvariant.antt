-- ===== src/Memory/RoomInvariant.antt =====
-- What holds of every room of the memory relay, and that its methods keep it.
use stream_relay.Prelude.{
  has_key, ℕ, ◌≡◌, refl, Bool, Option, some, List, [], ◌∷◌, Bytes, arith, lookup, delete, Distinct,
  lookup-insert, lookup-delete, insert-Distinct, delete-Distinct, Option-cases, inl, inr,
}
use stream_relay.Types.{Message, Subscriber, RoomConfig, PresenceInfo}
use stream_relay.RingBuffer.{RingBuffer, add}
use stream_relay.RingBuffer.Window.{IsValid}
use stream_relay.RingBuffer.Refine.{new_ring_buffer-IsValid, add-IsValid}
use stream_relay.Memory.{MemoryRoom}
use stream_relay.Memory.Rooms.{
  presence_or_new, new_room, subscribe, unsubscribe, close_room, add_external,
  load_external_messages,
}
use stream_relay.Memory.Deliveries.{drop_panicked}

-- Each user is there once, under the own id; presence and subscribers name the same users; and the
-- history is a valid buffer.
pub record RoomIsValid (room : MemoryRoom) : Type 0 where
  pub one_subscriber : Distinct room.subscribers
  pub one_presence : Distinct room.presence
  pub same_users : (user : Bytes) → has_key user room.subscribers ≡ has_key user room.presence
  pub own_id :
      (user : Bytes) (sub : Subscriber)
      → lookup user room.subscribers ≡ some sub
      → sub.user_id ≡ user
  pub valid_history : IsValid room.history

pub new_room-IsValid :
    (now : ℕ) (config : RoomConfig) (size : ℕ) → RoomIsValid (new_room now config size)
unfolding new_room lookup
new_room-IsValid now config size = record {
  one_subscriber = tt;
  one_presence = tt;
  same_users = λ user. refl;
  own_id = λ user sub e. cc;
  valid_history = (new_ring_buffer-IsValid size).0;
}

pub subscribe-IsValid :
    (handled : Bool) (now : ℕ) (room : MemoryRoom) (sub : Subscriber) (info : Option PresenceInfo)
    → RoomIsValid room
    → RoomIsValid (subscribe handled now room sub info).0
unfolding subscribe
subscribe-IsValid handled now room sub info h =
    let user = sub.user_id in
    let own = presence_or_new now user info in
    record {
      one_subscriber = insert-Distinct user sub room.subscribers h.one_subscriber;
      one_presence = insert-Distinct user own room.presence h.one_presence;
      same_users = λ other.
          let e = h.same_users other in
          ground (
            arith,
            lookup-insert other user sub room.subscribers,
            lookup-insert other user own room.presence,
          );
      own_id = λ other found e.
          let old = h.own_id other found in
          ground (arith, lookup-insert other user sub room.subscribers);
      valid_history = h.valid_history;
    }

unsubscribed-IsValid :
    (room : MemoryRoom) (user : Bytes)
    → RoomIsValid room
    → RoomIsValid (record room {
      subscribers = delete user room.subscribers;
      presence = delete user room.presence;
    })
unsubscribed-IsValid room user h = record {
  one_subscriber = delete-Distinct user room.subscribers h.one_subscriber;
  one_presence = delete-Distinct user room.presence h.one_presence;
  same_users = λ other.
      let e = h.same_users other in
      ground
        (arith, lookup-delete other user room.subscribers, lookup-delete other user room.presence);
  own_id = λ other found e.
      let old = h.own_id other found in ground (arith, lookup-delete other user room.subscribers);
  valid_history = h.valid_history;
}

pub unsubscribe-IsValid :
    (handled : Bool) (now : ℕ) (room : MemoryRoom) (user : Bytes)
    → RoomIsValid room
    → RoomIsValid (unsubscribe handled now room user).0
unfolding unsubscribe
unsubscribe-IsValid handled now room user h = elim (Option-cases (lookup user room.subscribers)) [
  | inl e ↦ rw (unsubscribe, e) h
  | inr (sub, e) ↦ rw (unsubscribe, e) (unsubscribed-IsValid room user h)
]

pub drop_panicked-IsValid :
    (handled : Bool) (now : ℕ) (room : MemoryRoom) (users : List Bytes)
    → RoomIsValid room
    → RoomIsValid (drop_panicked handled now room users).0
unfolding drop_panicked
drop_panicked-IsValid handled now room [] h = h
drop_panicked-IsValid handled now room (user ∷ users) h =
    drop_panicked-IsValid handled now (unsubscribe handled now room user).0 users
      (unsubscribe-IsValid handled now room user h)

pub close_room-IsValid : (room : MemoryRoom) → RoomIsValid room → RoomIsValid (close_room room).0
unfolding close_room lookup
close_room-IsValid room h = record {
  one_subscriber = tt;
  one_presence = tt;
  same_users = λ user. refl;
  own_id = λ user sub e. cc;
  valid_history = h.valid_history;
}

pub add_external-IsValid :
    (msgs : List (Option Message)) (history : RingBuffer Message)
    → IsValid history
    → IsValid (add_external msgs history)
unfolding add_external
add_external-IsValid [] history h = h
add_external-IsValid (msg ∷ msgs) history h =
    add_external-IsValid msgs (add history msg) (add-IsValid history msg h)

-- A room whose history alone changes stays valid, if the new history is.
pub with_history-IsValid :
    (room : MemoryRoom) (history : RingBuffer Message)
    → RoomIsValid room
    → IsValid history
    → RoomIsValid (record room { history = history })
with_history-IsValid room history h valid = record {
  one_subscriber = h.one_subscriber;
  one_presence = h.one_presence;
  same_users = h.same_users;
  own_id = h.own_id;
  valid_history = valid;
}

pub load_external_messages-IsValid :
    (room : MemoryRoom) (msgs : List (Option Message))
    → RoomIsValid room
    → RoomIsValid (load_external_messages room msgs)
unfolding load_external_messages
load_external_messages-IsValid room msgs h =
    with_history-IsValid room (add_external msgs room.history) h
      (add_external-IsValid msgs room.history h.valid_history)
