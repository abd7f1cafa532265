-- ===== src/Broker/Turns.antt =====
-- The states that a broker comes to (engine/broker.go), as its methods, its goroutines and the relay
-- that takes its messages follow each other.
use stream_relay.Prelude.{
  ℕ, ◌≤◌, ◌≡◌, refl, ap, subst, ◌∙◌, inl, inr, Bool, true, false, Bool-cases, Option, none, some,
  List, [], ◌∷◌, Bytes, codes, arith, length,
}
use stream_relay.Protocol.{Error, failure, ok, err}
use stream_relay.Dedupe.Keeping.{DedupeCache-IsValid, new_dedupe_cache-IsValid}
use stream_relay.Pool.Clients.{PubSubMessage}
use stream_relay.Broker.{
  NodeJson, BrokerMessage, Loop, absent, connecting, reading, RedisBroker, RedisBrokerConfig,
  idle_broker, new_redis_broker, subscribe_broker, close_broker,
}
use stream_relay.Broker.Reading.{check_done, connect_round, read_round, cleanup_round, next_message}
use stream_relay.Broker.Heard.{hear-Heard}
use stream_relay.Broker.Waiting.{AllForeign, has_loop, IsSound, IfSound, Heard-IsSound}

-- A call of `Subscribe` or `Close` that does not panic, a goroutine that looks at the context, that
-- subscribes, reads or cleans up, or the relay that takes a message.
pub data Turn (json : NodeJson) (b : RedisBroker) : RedisBroker → Type 0 where
  subscribes : (made : Option Error) → Turn json b (subscribe_broker made b).0
  looks : Turn json b (check_done b)
  connects :
      (made : Bool) (error : Option Error) (errors : ℕ)
      → b.loop ≡ connecting errors
      → Turn json b (connect_round made errors error b)
  reads :
      (now : ℕ) (read : Option PubSubMessage) (next : RedisBroker)
      → b.loop ≡ reading
      → read_round json now read b ≡ some next
      → Turn json b next
  cleans : (now : ℕ) → Turn json b (cleanup_round now b)
  takes : Turn json b (next_message b).0
  closes : (next : RedisBroker) → close_broker b ≡ some next → Turn json b next

pub data Reachable (json : NodeJson) : RedisBroker → Type 0 where
  built :
      (generated : Bytes) (cfg : RedisBrokerConfig) (b : RedisBroker)
      → new_redis_broker generated cfg ≡ ok b
      → Reachable json b
  turned : {b next : RedisBroker} → Reachable json b → Turn json b next → Reachable json next

-- What leaves the messages, the node, the room and the cache as they were keeps a broker sound.
moved-IsSound :
    (b : RedisBroker) (running is_closed : Bool) (loop : Loop)
    → running ≡ has_loop loop
    → IsSound b
    → IsSound (record b { running = running; is_closed = is_closed; loop = loop })
moved-IsSound b running is_closed loop same v = record {
  foreign = v.foreign;
  bounded = v.bounded;
  remembered = v.remembered;
  looped = same;
}

subscribe_broker-IsSound :
    (made : Option Error) (b : RedisBroker) → IsSound b → IsSound (subscribe_broker made b).0
unfolding subscribe_broker
subscribe_broker-IsSound (some e) b v = elim (Bool-cases b.running) [
  | inl on ↦ simp (subscribe_broker, on) v
  | inr off ↦ simp (subscribe_broker, off) v
]
subscribe_broker-IsSound none b v = elim (Bool-cases b.running) [
  | inl on ↦ simp (subscribe_broker, on) v
  | inr off ↦ simp (subscribe_broker, off) (moved-IsSound b true b.is_closed (connecting 0) refl v)
]

check_done-IsSound : (b : RedisBroker) → IsSound b → IsSound (check_done b)
unfolding check_done
check_done-IsSound b v = elim (Bool-cases b.is_closed) [
  | inr e ↦ simp (check_done, e) v
  | inl e ↦ simp (check_done, e) (moved-IsSound b false true absent refl v)
]

connect_round-IsSound :
    (made : Bool) (error : Option Error) (errors : ℕ) (b : RedisBroker)
    → b.loop ≡ connecting errors
    → IsSound b
    → IsSound (connect_round made errors error b)
unfolding connect_round
connect_round-IsSound made none errors b at v =
    moved-IsSound b b.running b.is_closed reading (v.looped ∙ ap has_loop at) v
connect_round-IsSound made (some e) errors b at v =
    moved-IsSound b b.running b.is_closed _ (v.looped ∙ ap has_loop at) v

read_round-IsSound :
    (json : NodeJson) (now : ℕ) (read : Option PubSubMessage) (b : RedisBroker)
    → b.loop ≡ reading
    → IsSound b
    → IfSound (read_round json now read b)
unfolding read_round IfSound
read_round-IsSound json now none b at v =
    moved-IsSound b b.running b.is_closed (connecting 0) (v.looped ∙ ap has_loop at) v
read_round-IsSound json now (some msg) b at v = Heard-IsSound (hear-Heard json now msg b) v

next_message-IsSound :
    (b : RedisBroker) (msgs : List BrokerMessage)
    → b.msg_chan ≡ msgs
    → IsSound b
    → IsSound (next_message b).0
unfolding next_message
next_message-IsSound b [] e v = simp (next_message, e) v
next_message-IsSound b (msg ∷ msgs) e v =
    let (first, all) = subst (AllForeign b.node_id) e v.foreign in
    let fewer = subst (λ (l : List BrokerMessage). length l ≤ b.buffer_size) e v.bounded in
    simp (next_message, e)
      (record {
        foreign = all;
        bounded = omega (arith, fewer);
        remembered = v.remembered;
        looped = v.looped;
      })

close_broker-IsSound : (b : RedisBroker) → IsSound b → IfSound (close_broker b)
unfolding close_broker IfSound
close_broker-IsSound b v = elim (Bool-cases b.is_closed) [
  | inl e ↦ rw (close_broker, e) tt
  | inr e ↦ simp (close_broker, e) (moved-IsSound b b.running true b.loop v.looped v)
]

Turn-IsSound :
    (json : NodeJson) {b next : RedisBroker} → Turn json b next → IsSound b → IsSound next
unfolding cleanup_round IfSound
Turn-IsSound json {b} (subscribes made) v = subscribe_broker-IsSound made b v
Turn-IsSound json {b} looks v = check_done-IsSound b v
Turn-IsSound json {b} (connects made error errors at) v =
    connect_round-IsSound made error errors b at v
Turn-IsSound json {b} (reads now read next at e) v =
    subst IfSound e (read_round-IsSound json now read b at v)
Turn-IsSound json {b} (cleans now) v = record {
  foreign = v.foreign;
  bounded = v.bounded;
  remembered = (DedupeCache-IsValid 0 0 now b.dedupe [] v.remembered).2;
  looped = v.looped;
}
Turn-IsSound json {b} takes v = next_message-IsSound b b.msg_chan refl v
Turn-IsSound json {b} (closes next e) v = subst IfSound e (close_broker-IsSound b v)

new_redis_broker-IsSound :
    (generated : Bytes) (cfg : RedisBrokerConfig) (b : RedisBroker)
    → new_redis_broker generated cfg ≡ ok b
    → IsSound b
unfolding new_redis_broker
new_redis_broker-IsSound generated cfg b made = elim (Bool-cases cfg.has_client) [
  | inr e ↦
      let refused : new_redis_broker generated cfg
          ≡ err (failure (codes "redis client is required")) =
        rw (new_redis_broker, e) refl in
      absurd cc
  | inl e ↦
      let start = idle_broker generated cfg in
      let starts : new_redis_broker generated cfg ≡ ok start = rw (new_redis_broker, e) refl in
      let same : start ≡ b = cc in
      subst IsSound same (record {
        foreign = tt;
        bounded = omega arith;
        remembered = new_dedupe_cache-IsValid cfg.dedupe_size cfg.dedupe_ttl;
        looped = refl;
      })
]

-- However Subscribe, Close, the goroutines and the relay follow each other on a new broker, no message
-- of the node itself waits in the channel, no more wait there than it has room for, the cache of ids is
-- valid, and the broker is marked as running exactly while it has a goroutine that reads.
pub Reachable-IsSound : (json : NodeJson) (b : RedisBroker) → Reachable json b → IsSound b
Reachable-IsSound json _ (built generated cfg b e) = new_redis_broker-IsSound generated cfg b e
Reachable-IsSound json _ (turned {b = before} reached turn) =
    Turn-IsSound json turn (Reachable-IsSound json before reached)
