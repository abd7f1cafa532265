-- ===== src/Pool/Lapses.antt =====
-- Where the pool of redis/client.go loses connections, keeps broken ones, or gives out another one.
use stream_relay.Prelude.{
  ℕ, zero, suc, ◌+◌, ◌<◌, ◌≡◌, refl, ap, ◌∙◌, true, false, some, List, [], ◌∷◌, ◌++◌, Bytes, arith,
  ltb, length,
}
use stream_relay.Protocol.{Error, Result, ok, err, ◌>>=◌}
use stream_relay.Resp.{Value, as_array}
use stream_relay.Streams.{of_answer}
use stream_relay.Pool.{
  Network, Pool, new_conn, is_dead, Got, got, waits, create_conn, take_conn, get_from, get, put,
}
use stream_relay.Pool.Clients.{Call, returned, conn_do, client_do, pubsub_of, read_pubsub_message}

-- The pool after calls of `Get`, with the network that each of them meets.
abbrev pub after_gets : List Network → Pool → Pool
after_gets [] p = p
after_gets (network ∷ networks) p = after_gets networks (get network p).0

after_gets-append :
    (xs ys : List Network) (p : Pool) → after_gets (xs ++ ys) p ≡ after_gets ys (after_gets xs p)
after_gets-append [] ys p = refl
after_gets-append (x ∷ xs) ys p = after_gets-append xs ys (get x p).0

abbrev pub replicate : {A : Type 0} → ℕ → A → List A
replicate zero a = []
replicate (suc n) a = a ∷ replicate n a

get_failed :
    (down : Network) (p : Pool) (e : Error)
    → down.dial ≡ some e
    → p.is_closed ≡ false
    → p.conns ≡ []
    → p.created < p.cfg.pool_size
    → (get down p).0 ≡ record p { created = p.created + 1 }
unfolding get get_from create_conn new_conn
get_failed down p e dead is_open empty room =
    let below : ltb p.created p.cfg.pool_size ≡ true = ground (arith, room) in
    simp (get, is_open, empty, get_from, below, create_conn, new_conn, dead) refl

failed_gets :
    (down : Network) (n : ℕ) (p : Pool) (e : Error)
    → down.dial ≡ some e
    → p.is_closed ≡ false
    → p.conns ≡ []
    → p.created + n ≡ p.cfg.pool_size
    → after_gets (replicate n down) p ≡ record p { created = p.cfg.pool_size }
failed_gets down zero p e dead is_open empty used = ap (λ (k : ℕ). record p { created = k }) used_up
  where
    used_up : p.created ≡ p.cfg.pool_size
    used_up = omega (arith, used)
failed_gets down (suc n) p e dead is_open empty used =
    ap (after_gets (replicate n down))
      (get_failed down p e dead is_open empty (omega (arith, used)))
    ∙ failed_gets down n (record p { created = p.created + 1 }) e dead is_open empty
        (omega (arith, used))

-- A pool whose size is used up, with no connection in the channel, has `Get` wait.
get_full :
    (network : Network) (p : Pool)
    → p.is_closed ≡ false
    → p.conns ≡ []
    → p.created ≡ p.cfg.pool_size
    → get network p ≡ (p, waits)
unfolding get get_from
get_full network p is_open empty used =
    let full : ltb p.created p.cfg.pool_size ≡ false = ground (arith, used) in
    simp (get, is_open, empty, get_from, full) refl

waiting_gets :
    (networks : List Network) (p : Pool)
    → p.is_closed ≡ false
    → p.conns ≡ []
    → p.created ≡ p.cfg.pool_size
    → after_gets networks p ≡ p
waiting_gets [] p is_open empty used = refl
waiting_gets (network ∷ networks) p is_open empty used =
    let same = ap (λ (r : Pool × Got). r.0) (get_full network p is_open empty used) in
    ap (after_gets networks) same ∙ waiting_gets networks p is_open empty used

-- Calls of `Get` whose dials fail use the size of an open pool up: with no connection in the channel, and
-- as many such calls as are left up to the size, these and whatever further calls of `Get` follow, with no
-- `Put` in between, leave the pool as it was but for its count, which is the size, so that they have made no
-- connection; and the next `Get` waits, whatever the network does then.
pub get-after_gets :
    (down network : Network) (n : ℕ) (later : List Network) (p : Pool) (e : Error)
    → down.dial ≡ some e
    → p.is_closed ≡ false
    → p.conns ≡ []
    → p.created + n ≡ p.cfg.pool_size
    → let full = record p { created = p.cfg.pool_size } in
      (after_gets (replicate n down ++ later) p ≡ full)
      × (get network (after_gets (replicate n down ++ later) p) ≡ (full, waits))
get-after_gets down network n later p e dead is_open empty used =
    let full = record p { created = p.cfg.pool_size } in
    let reached : after_gets (replicate n down ++ later) p ≡ full =
      after_gets-append (replicate n down) later p
      ∙ ap (after_gets later) (failed_gets down n p e dead is_open empty used)
      ∙ waiting_gets later full is_open empty refl in
    (reached, ap (get network) reached ∙ get_full network full is_open empty refl)

get_alive :
    (network : Network) (p : Pool) (c : ℕ) (rest : List ℕ)
    → p.is_closed ≡ false
    → p.conns ≡ c ∷ rest
    → is_dead p.dead c ≡ false
    → get network p ≡ (record p { conns = rest }, got c)
unfolding get get_from take_conn
get_alive network p c rest is_open has alive =
    simp (get, is_open, has, get_from, take_conn, alive) refl

put_alive :
    (p : Pool) (c : ℕ)
    → p.is_closed ≡ false
    → is_dead p.dead c ≡ false
    → length p.conns < p.cfg.pool_size
    → put c p ≡ record p { conns = p.conns ++ c ∷ [] }
unfolding put
put_alive p c is_open alive room =
    let below : ltb (length p.conns) p.cfg.pool_size ≡ true = ground (arith, room) in
    simp (put, alive, is_open, below) refl

-- The client puts the connection of a command back, the last of the pool.
client_do_alive :
    (network : Network) (answers : ℕ → List Bytes → Result Value) (args : List Bytes) (p : Pool)
    (c : ℕ) (rest : List ℕ)
    → p.is_closed ≡ false
    → p.conns ≡ c ∷ rest
    → is_dead p.dead c ≡ false
    → length rest < p.cfg.pool_size
    → client_do network answers args p
      ≡ (record p { conns = rest ++ c ∷ [] }, returned (answers c args))
unfolding client_do conn_do
client_do_alive network answers args p c rest is_open has alive room =
    let taken = get_alive network p c rest is_open has alive in
    let result = ap (λ (r : Pool × Got). r.1) taken in
    let next = ap (λ (r : Pool × Got). r.0) taken in
    let back = put_alive (record p { conns = rest }) c is_open alive room in
    rw (client_do, result, next, back, conn_do, alive) refl

-- A connection over which a command has failed goes back into the pool, behind the others, and nothing
-- keeps it from being given out again.
pub client_do_failed :
    (network : Network) (answers : ℕ → List Bytes → Result Value) (args : List Bytes) (p : Pool)
    (c : ℕ) (rest : List ℕ) (e : Error)
    → p.is_closed ≡ false
    → p.conns ≡ c ∷ rest
    → is_dead p.dead c ≡ false
    → length rest < p.cfg.pool_size
    → answers c args ≡ err e
    → client_do network answers args p ≡ (record p { conns = rest ++ c ∷ [] }, returned (err e))
client_do_failed network answers args p c rest e is_open has alive room failing =
    client_do_alive network answers args p c rest is_open has alive room
    ∙ ap (λ (r : Result Value). (record p { conns = rest ++ c ∷ [] }, returned r)) failing

read_pubsub_message-get :
    (network : Network) (reads : ℕ → Result Value) (p q : Pool) (c : ℕ) (reply : Value)
    → get network p ≡ (q, got c)
    → reads c ≡ ok reply
    → read_pubsub_message network reads p ≡ (q, returned (of_answer (as_array reply) >>= pubsub_of))
unfolding read_pubsub_message
read_pubsub_message-get network reads p q c reply taken read =
    let result = ap (λ (r : Pool × Got). r.1) taken in
    let next = ap (λ (r : Pool × Got). r.0) taken in
    rw (read_pubsub_message, result, read, next) refl

-- Of two or more connections in the pool, a subscription goes over the first, and the message that is read
-- next comes from the second, which then is no more in the pool, while the first, which is subscribed, is.
pub read_pubsub_message-client_do :
    (network : Network) (answers : ℕ → List Bytes → Result Value) (reads : ℕ → Result Value)
    (args : List Bytes) (p : Pool) (a b : ℕ) (rest : List ℕ) (reply : Value)
    → p.is_closed ≡ false
    → p.conns ≡ a ∷ b ∷ rest
    → is_dead p.dead a ≡ false
    → is_dead p.dead b ≡ false
    → length (b ∷ rest) < p.cfg.pool_size
    → reads b ≡ ok reply
    → read_pubsub_message network reads (client_do network answers args p).0
      ≡ (record p { conns = rest ++ a ∷ [] }, returned (of_answer (as_array reply) >>= pubsub_of))
read_pubsub_message-client_do network answers reads args p a b rest reply is_open has alive awake
      room read =
    let back = record p { conns = b ∷ (rest ++ a ∷ []) } in
    let sent = client_do_alive network answers args p a (b ∷ rest) is_open has alive room in
    let taken = get_alive network back b (rest ++ a ∷ []) is_open refl awake in
    ap (λ (r : Pool × Call Value). read_pubsub_message network reads r.0) sent
    ∙ read_pubsub_message-get network reads back (record back { conns = rest ++ a ∷ [] }) b reply
        taken read
