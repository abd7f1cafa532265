-- ===== src/Pool/Tests.antt =====
-- The theorems on the pool at inputs that meet their hypotheses, and runs of it.
use stream_relay.Prelude.{
  ℕ, ◌≡◌, refl, true, false, none, some, List, [], ◌∷◌, Bytes, codes, arith, Bytes-discrete,
}
use stream_relay.Decimal.{pos}
use stream_relay.Protocol.{Error, failure, Result, ok, err, ◌>>=◌}
use stream_relay.Resp.{Value, value, nil, cons, simple_string, as_array, as_string}
use stream_relay.Streams.{of_answer}
use stream_relay.Streams.Replies.{bulk, array_of}
use stream_relay.Pool.{
  Config, default_config, Network, Pool, got, waits, get, new_pool, fill, create_conn, new_conn,
  auth, close_conn, close_pool, get_from, take_conn, is_dead, close_each_conn,
}
use stream_relay.Pool.Clients.{returned, client_do, pubsub_of, read_pubsub_message}
use stream_relay.Pool.Sizes.{WithinSize, begun, stepped, lends, Reachable-WithinSize}
use stream_relay.Pool.Lapses.{after_gets, get-after_gets, read_pubsub_message-client_do}

-- A server that takes every dial and command, and one that is down.
abbrev up : Network
up = record {
  dial = none;
  answer = λ args. ok (value simple_string (codes "OK") (pos 0) nil false false);
}

abbrev refused : Error
refused = failure (codes "connection refused")

abbrev down : Network
down = record { dial = some refused; answer = λ args. err refused }

abbrev small : Config
small = record default_config { pool_size = 3 }

-- A pool of three with the connections 0 and 1 in it, and one with none.
abbrev two_idle : Pool
two_idle = record {
  cfg = small;
  conns = 0 ∷ 1 ∷ [];
  is_closed = false;
  created = 2;
  next_conn = 2;
  dead = [];
}

abbrev none_idle : Pool
none_idle = record two_idle { conns = []; created = 1 }

new_two_idle : new_pool (λ i. up) small ≡ (two_idle, none)
unfolding new_pool fill create_conn new_conn Bytes-discrete
new_two_idle = refl

new_down : (new_pool (λ i. down) small).0.is_closed ≡ true
unfolding new_pool fill create_conn new_conn close_pool close_each_conn
new_down = refl

-- A server that refuses every command, as to a client with a wrong password.
abbrev refusing : Network
refusing = record {
  dial = none;
  answer = λ args. ok (value simple_string (codes "ERR no") (pos 0) nil false true);
}

-- The connection over which AUTH fails is closed.
new_refused : (new_pool (λ i. refusing) (record small { password = codes "x" })).0 ≡ record {
  cfg = record small { password = codes "x" };
  conns = [];
  is_closed = true;
  created = 0;
  next_conn = 1;
  dead = 0 ∷ [];
}
unfolding new_pool fill create_conn new_conn auth close_conn is_dead close_pool close_each_conn
    Bytes-discrete
new_refused = refl

got_first : get up two_idle ≡ (record two_idle { conns = 1 ∷ [] }, got 0)
unfolding get get_from take_conn is_dead
got_first = refl

-- One of the two is lent.
Reachable-WithinSize_example :
    WithinSize (record { pool = record two_idle { conns = 1 ∷ [] }; lent = 0 ∷ [] })
Reachable-WithinSize_example = Reachable-WithinSize (
    stepped (begun (λ i. up) small two_idle new_two_idle)
      (lends up (record two_idle { conns = 1 ∷ [] }) 0 got_first))

get-after_gets_example :
    (after_gets (down ∷ down ∷ up ∷ []) none_idle ≡ record none_idle { created = 3 })
    × (get up (after_gets (down ∷ down ∷ up ∷ []) none_idle)
        ≡ (record none_idle { created = 3 }, waits))
get-after_gets_example = get-after_gets down up 2 (up ∷ []) none_idle refused refl refl refl refl

abbrev broken_answers : ℕ → List Bytes → Result Value
broken_answers c args = err refused

-- What comes over the connection 1, to which nothing is published: a message that another command left.
abbrev event : Value
event =
    array_of
      (cons (bulk (codes "message")) (cons (bulk (codes "news")) (cons (bulk (codes "hello")) nil)))

read_pubsub_message-client_do_example :
    read_pubsub_message up
      (λ c. ok event)
      (client_do up (λ c args. ok event) (codes "PSUBSCRIBE" ∷ codes "room:*" ∷ []) two_idle).0
    ≡ (record two_idle { conns = 0 ∷ [] }, returned (of_answer (as_array event) >>= pubsub_of))
unfolding is_dead
read_pubsub_message-client_do_example =
    read_pubsub_message-client_do up (λ c args. ok event) (λ c. ok event)
      (codes "PSUBSCRIBE" ∷ codes "room:*" ∷ []) two_idle 0 1 [] event refl refl refl refl
      (omega arith) refl

event_is_read :
    of_answer (as_array event) >>= pubsub_of
    ≡ ok (record {
      kind = codes "message";
      pattern = [];
      channel = codes "news";
      payload = codes "hello";
    })
unfolding pubsub_of as_array as_string Bytes-discrete
event_is_read = refl
