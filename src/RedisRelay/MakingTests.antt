-- ===== src/RedisRelay/MakingTests.antt =====
-- Making a relay on Redis, with options, and what is left when that fails.
use stream_relay.Prelude.{
  ℕ, ◌<◌, ◌≡◌, refl, true, false, none, List, [], ◌∷◌, Bytes, codes, Bytes-discrete,
}
use stream_relay.Decimal.{pos}
use stream_relay.Protocol.{failure, error_text, Result, ok, err}
use stream_relay.Types.{room_type_direct}
use stream_relay.Resp.{Value, value, simple_string, nil}
use stream_relay.Pool.{
  Network, Pool, default_config, is_dead, new_pool, fill, create_conn, new_conn, get, get_from,
  take_conn, put, close_conn, close_each_conn, close_pool,
}
use stream_relay.Pool.Clients.{client_do, conn_do, ping}
use stream_relay.RedisRelay.Making.{
  default_relay_config, apply_each, with_prefix, with_pool_size, with_redis_config, new_room_config,
  with_room_type, with_room_members, with_room_history_size, new_relay, new_with_options,
}
use stream_relay.RedisRelay.Failing.{new_relay_failed}

program : Unit {0}
unfolding new_pool fill create_conn new_conn get get_from take_conn is_dead put close_conn
    close_each_conn close_pool client_do conn_do ping apply_each new_room_config new_relay
    new_with_options Bytes-discrete error_text
program = tt

abbrev up : Network
up = record {
  dial = none;
  answer = λ args. ok (value simple_string (codes "OK") (pos 0) nil false false);
}

abbrev pong : ℕ → List Bytes → Result Value
pong c args = ok (value simple_string (codes "PONG") (pos 0) nil false false)

abbrev broken : ℕ → List Bytes → Result Value
broken c args = err (failure (codes "EOF"))

-- A later option replaces what an earlier one has set, a whole configuration the options before it.
made_with_options :
    (new_with_options
      (λ n. up)
      up
      pong
      7
      (with_pool_size 3
        ∷ with_redis_config default_config
        ∷ with_prefix (codes "a:")
        ∷ with_prefix (codes "b:")
        ∷ []))
    ≡ (
      record {
        cfg = default_config;
        conns = 1 ∷ 0 ∷ [];
        is_closed = false;
        created = 2;
        next_conn = 2;
        dead = [];
      },
      ok (record {
        rooms = [];
        handled = false;
        running = true;
        start_time = 7;
        prefix = codes "b:";
        total_messages = 0;
      }),
    )
unfolding program
made_with_options = refl

room_with_options :
    new_room_config (codes "x") (
      with_room_type room_type_direct
      ∷ with_room_members (codes "ann" ∷ [])
      ∷ with_room_history_size 5
      ∷ [])
    ≡ record {
      id = codes "x";
      kind = room_type_direct;
      history_size = 5;
      history_ttl = 86400000;
      members = codes "ann" ∷ [];
    }
unfolding program
room_with_options = refl

-- The pool that is left when the ping is not answered.
abbrev left : Pool
left = record {
  cfg = default_config;
  conns = [];
  is_closed = true;
  created = 2;
  next_conn = 2;
  dead = 0 ∷ 1 ∷ [];
}

new_relay_failed_example :
    (left.is_closed ≡ true)
    × (left.conns ≡ [])
    × ((c : ℕ) → c < left.next_conn → is_dead left.dead c ≡ true)
unfolding program
new_relay_failed_example =
    new_relay_failed (λ n. up) up broken 7 default_relay_config left
      (failure (codes "failed to ping redis: EOF")) refl
