-- ===== src/Pool.antt =====
-- redis/client.go: connections, the pool that keeps them, and the client. What the network answers is an
-- argument, and so is which of two ready cases a `select` takes: the model has no `Get` that waits.
pub mod Clients
pub mod Creating
pub mod Sizes
pub mod Accounts
pub mod Made
pub mod Lapses
mod Tests
use stream_relay.Prelude.{
  ℕ, zero, suc, ◌+◌, ◌-◌, ◌==◌, min, Bool, true, false, ◌||◌, Option, none, some, List, [], ◌∷◌,
  ◌++◌, Bytes, codes, str_eq, ltb, if◌then◌else◌, length,
}
use stream_relay.Decimal.{ℤ, pos, negsuc, format_int}
use stream_relay.Protocol.{Error, failure, error_text, Result, ok, err}
use stream_relay.Resp.{Value}
use stream_relay.Streams.{text_of, is_error_reply}

abbrev pub err_closed : Error
err_closed = failure (codes "connection closed")

-- A pool size below 0 is 0 here, since the code treats the two alike, and so is a number of idle
-- connections.
pub record Config : Type 0 where
  pub addr : Bytes
  pub password : Bytes
  pub db : ℤ
  pub dial_timeout : ℕ
  pub read_timeout : ℕ
  pub write_timeout : ℕ
  pub pool_size : ℕ
  pub min_idle_conns : ℕ

abbrev pub default_config : Config
default_config = record {
  addr = codes "localhost:6379";
  password = [];
  db = pos 0;
  dial_timeout = 5000;
  read_timeout = 3000;
  write_timeout = 3000;
  pool_size = 10;
  min_idle_conns = 2;
}

-- What the network does for a new connection: whether the dial succeeds, and the answers to the commands
-- that are sent at once.
pub record Network : Type 0 where
  pub dial : Option Error
  pub answer : List Bytes → Result Value

unfoldable pub auth : Network → Bytes → Option Error
auth network password = elim (network.answer (codes "AUTH" ∷ password ∷ [])) [
  | err e ↦ some e
  | ok reply ↦
      if is_error_reply reply
      then some (failure (codes "authentication failed: " ++ text_of reply))
      else none
]

unfoldable pub select_db : Network → ℤ → Option Error
select_db network db = elim (network.answer (codes "SELECT" ∷ format_int db ∷ [])) [
  | err e ↦ some e
  | ok reply ↦
      if is_error_reply reply
      then some (failure (codes "SELECT failed: " ++ text_of reply))
      else none
]

abbrev pub is_zero_db : ℤ → Bool
is_zero_db (pos zero) = true
is_zero_db (pos (suc n)) = false
is_zero_db (negsuc n) = false

-- `conns` is the channel, first in first out, and its capacity is the size. Connections are numbered in
-- the order in which they are dialled; `dead` are those that have been closed, also in the making.
pub record Pool : Type 0 where
  pub cfg : Config
  pub conns : List ℕ
  pub is_closed : Bool
  pub created : ℕ
  pub next_conn : ℕ
  pub dead : List ℕ

unfoldable pub is_dead : List ℕ → ℕ → Bool
is_dead [] c = false
is_dead (d ∷ ds) c = (d == c) || is_dead ds c

-- What `Get` comes to: a connection, an error, or waiting for a connection that is put back.
pub data Got : Type 0 where
  got : ℕ → Got
  failed : Error → Got
  waits : Got

-- `Close` of a connection, which is closed once.
unfoldable pub close_conn : ℕ → Pool → Pool
close_conn c p = if is_dead p.dead c then p else record p { dead = c ∷ p.dead }

-- A new connection, numbered once it is dialled, and closed if what is sent first over it fails.
unfoldable pub new_conn : Config → Network → Pool → Pool × Got
new_conn cfg network p = elim network.dial [
  | some e ↦ (p, failed (failure (codes "failed to connect to Redis: " ++ error_text e)))
  | none ↦
      let c = p.next_conn in
      let opened = record p { next_conn = suc p.next_conn } in
      elim (if str_eq cfg.password [] then none else auth network cfg.password) [
        | some e ↦ (close_conn c opened, failed e)
        | none ↦ elim (if is_zero_db cfg.db then none else select_db network cfg.db) [
          | some e ↦ (close_conn c opened, failed e)
          | none ↦ (opened, got c)
        ]
      ]
]

unfoldable pub create_conn : Network → Pool → Pool × Got
create_conn network p = new_conn p.cfg network p

-- A connection that came out of the channel is taken if it is not closed, and replaced if it is.
unfoldable pub take_conn : Network → Pool → ℕ → Pool × Got
take_conn network p c = if is_dead p.dead c then create_conn network p else (p, got c)

-- A new connection is made where the channel is empty, up to the size.
unfoldable pub get_from : Network → Pool → List ℕ → Pool × Got
get_from network p (c ∷ rest) = take_conn network (record p { conns = rest }) c
get_from network p [] =
    if ltb p.created p.cfg.pool_size
    then create_conn network (record p { created = p.created + 1 })
    else (p, waits)

unfoldable pub get : Network → Pool → Pool × Got
get network p = if p.is_closed then (p, failed err_closed) else get_from network p p.conns

unfoldable pub put : ℕ → Pool → Pool
put c p =
    if is_dead p.dead c
    then p
    else if p.is_closed
    then close_conn c p
    else if ltb (length p.conns) p.cfg.pool_size
    then record p { conns = p.conns ++ c ∷ [] }
    else let closed = close_conn c p in record closed { created = closed.created - 1 }

-- The loop of `Close` over the channel.
unfoldable pub close_each_conn : List ℕ → Pool → Pool
close_each_conn [] p = p
close_each_conn (c ∷ cs) p = close_each_conn cs (close_conn c p)

unfoldable pub close_pool : Pool → Pool
close_pool p =
    if p.is_closed then p else record (close_each_conn p.conns p) { is_closed = true; conns = [] }

-- The loop of `NewPool`: as many connections as are left, each with its network.
unfoldable pub fill : (ℕ → Network) → ℕ → Pool → Pool × Option Error
fill networks zero p = (p, none)
fill networks (suc left) p =
    let (next, result) = create_conn (networks p.next_conn) p in
    elim result [
      | got c ↦
          fill networks left
            (record next { conns = next.conns ++ c ∷ []; created = next.created + 1 })
      | failed e ↦ (
        close_pool next,
        some (failure (codes "failed to create initial connection: " ++ error_text e)),
      )
      | waits ↦ (next, none)
    ]

abbrev pub size_or_default : ℕ → ℕ
size_or_default zero = 10
size_or_default (suc n) = suc n

abbrev pub empty_pool : Config → Pool
empty_pool cfg = record {
  cfg = record cfg { pool_size = size_or_default cfg.pool_size };
  conns = [];
  is_closed = false;
  created = 0;
  next_conn = 0;
  dead = [];
}

unfoldable pub new_pool : (ℕ → Network) → Config → Pool × Option Error
new_pool networks cfg =
    fill networks (min cfg.min_idle_conns (size_or_default cfg.pool_size)) (empty_pool cfg)
