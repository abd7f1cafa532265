-- ===== src/RedisRelay/Making.antt =====
-- How a relay on Redis is made (engine/relay.go), and the options for it and for rooms (engine/options.go).
use stream_relay.Prelude.{ℕ, Bool, true, false, Option, none, some, List, [], ◌∷◌, Bytes, codes}
use stream_relay.Decimal.{ℤ}
use stream_relay.Protocol.{Error, failure, Result, ok, err}
use stream_relay.Types.{RoomConfig, RoomType, room_type_group}
use stream_relay.Resp.{Value}
use stream_relay.Pool.{Config, default_config, Network, Pool, new_pool, close_pool}
use stream_relay.Pool.Clients.{Call, returned, waiting, ping}
use stream_relay.RedisRelay.{Relay}
use stream_relay.RedisRelay.Recovery.{wrapped}

-- `Config` of the engine; of the event handler only whether there is one is kept.
pub record RelayConfig : Type 0 where
  pub redis : Config
  pub prefix : Bytes
  pub default_history_size : ℕ
  pub default_history_ttl : ℕ
  pub handled : Bool

abbrev pub default_relay_config : RelayConfig
default_relay_config = record {
  redis = default_config;
  prefix = codes "sr:";
  default_history_size = 1000;
  default_history_ttl = 86400000;
  handled = false;
}

-- The loops over options, in their order.
unfoldable pub apply_each : {A : Type 0} → List (A → A) → A → A
apply_each [] config = config
apply_each (option ∷ options) config = apply_each options (option config)

abbrev pub RelayOption : Type 0
RelayOption = RelayConfig → RelayConfig

abbrev pub with_redis_addr : Bytes → RelayOption
with_redis_addr addr c = record c { redis = record c.redis { addr = addr } }

abbrev pub with_redis_password : Bytes → RelayOption
with_redis_password password c = record c { redis = record c.redis { password = password } }

abbrev pub with_redis_db : ℤ → RelayOption
with_redis_db db c = record c { redis = record c.redis { db = db } }

abbrev pub with_prefix : Bytes → RelayOption
with_prefix prefix c = record c { prefix = prefix }

abbrev pub with_pool_size : ℕ → RelayOption
with_pool_size size c = record c { redis = record c.redis { pool_size = size } }

abbrev pub with_dial_timeout : ℕ → RelayOption
with_dial_timeout timeout c = record c { redis = record c.redis { dial_timeout = timeout } }

abbrev pub with_read_timeout : ℕ → RelayOption
with_read_timeout timeout c = record c { redis = record c.redis { read_timeout = timeout } }

abbrev pub with_write_timeout : ℕ → RelayOption
with_write_timeout timeout c = record c { redis = record c.redis { write_timeout = timeout } }

abbrev pub with_history_size : ℕ → RelayOption
with_history_size size c = record c { default_history_size = size }

abbrev pub with_history_ttl : ℕ → RelayOption
with_history_ttl ttl c = record c { default_history_ttl = ttl }

abbrev pub with_event_handler : Bool → RelayOption
with_event_handler handled c = record c { handled = handled }

abbrev pub with_redis_config : Config → RelayOption
with_redis_config redis c = record c { redis = redis }

abbrev pub RoomOption : Type 0
RoomOption = RoomConfig → RoomConfig

abbrev pub with_room_type : RoomType → RoomOption
with_room_type kind c = record c { kind = kind }

abbrev pub with_room_members : List Bytes → RoomOption
with_room_members members c = record c { members = members }

abbrev pub with_room_history_size : ℕ → RoomOption
with_room_history_size size c = record c { history_size = size }

abbrev pub with_room_history_ttl : ℕ → RoomOption
with_room_history_ttl ttl c = record c { history_ttl = ttl }

unfoldable pub new_room_config : Bytes → List RoomOption → RoomConfig
new_room_config id options = apply_each options (record {
  id = id;
  kind = room_type_group;
  history_size = 1000;
  history_ttl = 86400000;
  members = [];
})

abbrev pub prefix_or_default : Bytes → Bytes
prefix_or_default [] = codes "sr:"
prefix_or_default (c ∷ cs) = c ∷ cs

abbrev pub idle_relay : ℕ → RelayConfig → Relay
idle_relay now cfg = record {
  rooms = [];
  handled = cfg.handled;
  running = true;
  start_time = now;
  prefix = prefix_or_default cfg.prefix;
  total_messages = 0;
}

-- What the ping comes to; one that waits ends with its context.
abbrev pub ping_error : Call (Unit {0}) → Option Error
ping_error (returned (ok u)) = none
ping_error (returned (err e)) = some e
ping_error waiting = some (failure (codes "context deadline exceeded"))

-- The pool, and the relay or the error. `networks` is for the connections of the pool, `network` and
-- `answers` for the ping.
unfoldable pub new_relay :
    (ℕ → Network)
    → Network
    → (ℕ → List Bytes → Result Value)
    → ℕ
    → RelayConfig
    → Pool × Result Relay
new_relay networks network answers now cfg =
    let (pool, error) = new_pool networks cfg.redis in
    let (next, call) = ping network answers pool in
    elim error [
      | some e ↦ (pool, err (wrapped (codes "failed to create redis client") e))
      | none ↦ elim (ping_error call) [
        | some e ↦ (close_pool next, err (wrapped (codes "failed to ping redis") e))
        | none ↦ (next, ok (idle_relay now cfg))
      ]
    ]

unfoldable pub new_with_options :
    (ℕ → Network)
    → Network
    → (ℕ → List Bytes → Result Value)
    → ℕ
    → List RelayOption
    → Pool × Result Relay
new_with_options networks network answers now options =
    new_relay networks network answers now (apply_each options default_relay_config)
