-- ===== src/Pool/Clients.antt =====
-- `Client` in redis/client.go: a command on a connection of the pool, and the messages of subscriptions.
use stream_relay.Prelude.{ℕ, Bool, ◌||◌, List, [], ◌∷◌, ◌++◌, Bytes, codes, str_eq, if◌then◌else◌}
use stream_relay.Protocol.{failure, Result, ok, err, ◌>>=◌}
use stream_relay.Resp.{Value, Values, nil, cons, as_string, as_array}
use stream_relay.Streams.{of_answer, text_of, is_error_reply}
use stream_relay.Streams.Groups.{string_or_empty}
use stream_relay.Pool.{Network, Pool, is_dead, got, failed, waits, get, put, close_conn, err_closed}

-- How a call of the client ends: with a result, or it waits for a connection.
pub data Call (A : Type 0) : Type 0 where
  returned : Result A → Call A
  waiting : Call A

-- `Do` of a connection: what the network answers, unless the connection is closed.
unfoldable pub conn_do : (List Bytes → Result Value) → Pool → ℕ → List Bytes → Result Value
conn_do answer p c args = if is_dead p.dead c then err err_closed else answer args

-- `Do` of the client: whatever the command comes to, the connection is put back. `answers` is what comes
-- back over each connection.
unfoldable pub client_do :
    Network → (ℕ → List Bytes → Result Value) → List Bytes → Pool → Pool × Call Value
client_do network answers args p =
    let (next, result) = get network p in
    elim result [
      | failed e ↦ (next, returned (err e))
      | waits ↦ (next, waiting)
      | got c ↦ (put c next, returned (conn_do (answers c) next c args))
    ]

-- The reply to `PING`.
abbrev pub checked_ping : Value → Result (Unit {0})
checked_ping reply =
    if is_error_reply reply then err (failure (codes "PING failed: " ++ text_of reply)) else ok tt

abbrev pub mapped_call : {A B : Type 0} → (A → Result B) → Call A → Call B
mapped_call f (returned (ok a)) = returned (f a)
mapped_call f (returned (err e)) = returned (err e)
mapped_call f waiting = waiting

unfoldable pub ping : Network → (ℕ → List Bytes → Result Value) → Pool → Pool × Call (Unit {0})
ping network answers p =
    let (next, call) = client_do network answers (codes "PING" ∷ []) p in
    (next, mapped_call checked_ping call)

pub record PubSubMessage : Type 0 where
  pub kind : Bytes
  pub pattern : Bytes
  pub channel : Bytes
  pub payload : Bytes

abbrev pub only_kind : Bytes → PubSubMessage
only_kind kind = record { kind = kind; pattern = []; channel = []; payload = [] }

abbrev pub is_subscription : Bytes → Bool
is_subscription kind =
    str_eq kind (codes "subscribe")
    || (str_eq kind (codes "psubscribe")
        || (str_eq kind (codes "unsubscribe") || str_eq kind (codes "punsubscribe")))

abbrev pub text_or_empty : Value → Bytes
text_or_empty v = string_or_empty (as_string v)

-- The third and the fourth value of a pmessage, if there are four.
abbrev pub pmessage_of : Bytes → Value → Value → Values → PubSubMessage
pmessage_of kind a b nil = only_kind kind
pmessage_of kind a b (cons c vs) = record {
  kind = kind;
  pattern = text_or_empty a;
  channel = text_or_empty b;
  payload = text_or_empty c;
}

-- The `switch` of `ReadPubSubMessage`, on an array of at least three.
unfoldable pub pubsub_of : Values → Result PubSubMessage
pubsub_of (cons k (cons a (cons b rest))) =
    let kind = text_or_empty k in
    ok (
      if str_eq kind (codes "message")
      then record (only_kind kind) { channel = text_or_empty a; payload = text_or_empty b }
      else if str_eq kind (codes "pmessage")
      then pmessage_of kind a b rest
      else if is_subscription kind
      then record (only_kind kind) { channel = text_or_empty a }
      else only_kind kind)
pubsub_of _ = err (failure (codes "invalid pub/sub message format"))

-- The connection that is read from is kept out of the pool, and closed after a read error.
unfoldable pub read_pubsub_message : Network → (ℕ → Result Value) → Pool → Pool × Call PubSubMessage
read_pubsub_message network reads p =
    let (next, result) = get network p in
    elim result [
      | failed e ↦ (next, returned (err e))
      | waits ↦ (next, waiting)
      | got c ↦ elim (reads c) [
        | err e ↦ (close_conn c next, returned (err e))
        | ok reply ↦ (next, returned (do vs ← of_answer (as_array reply); pubsub_of vs))
      ]
    ]
