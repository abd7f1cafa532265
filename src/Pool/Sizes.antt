-- ===== src/Pool/Sizes.antt =====
-- How many connections the pool of redis/client.go has: those in the channel and those that are lent.
use stream_relay.Prelude.{
  ℕ, zero, suc, ◌+◌, ◌≤◌, ◌<◌, min, ◌≡◌, refl, sym, ap, subst, ◌∙◌, ◌⊎◌, inl, inr, Bool, true,
  false, Bool-cases, Option, none, some, List, [], ◌∷◌, ◌++◌, codes, arith, ltb, if◌then◌else◌,
  length, length-append,
}
use stream_relay.Protocol.{Error, failure, error_text}
use stream_relay.Pool.Creating.{close_conn-same, create_conn-same}
use stream_relay.Pool.{
  Config, Network, Pool, is_dead, Got, got, failed, waits, take_conn, get_from, get, err_closed,
  close_conn, put, close_each_conn, close_pool, fill, size_or_default, empty_pool, new_pool,
}

-- A pool, and the connections that `Get` has given and `Put` has not had back.
pub record Lending : Type 0 where
  pub pool : Pool
  pub lent : List ℕ

-- Every connection is counted, and no more are counted than the size.
pub record WithinSize (l : Lending) : Type 0 where
  pub counted : length l.pool.conns + length l.lent ≤ l.pool.created
  pub limited : l.pool.created ≤ l.pool.cfg.pool_size

-- What a call of the pool does: `Get` lends a connection or fails, `Put` takes a lent one back, a lent one
-- is closed by who has it, and the pool is closed.
pub data Step (l : Lending) : Lending → Type 0 where
  lends :
      (network : Network) (next : Pool) (c : ℕ)
      → get network l.pool ≡ (next, got c)
      → Step l (record { pool = next; lent = c ∷ l.lent })
  fails :
      (network : Network) (next : Pool) (e : Error)
      → get network l.pool ≡ (next, failed e)
      → Step l (record { pool = next; lent = l.lent })
  takes_back :
      (before after : List ℕ) (c : ℕ)
      → l.lent ≡ before ++ c ∷ after
      → Step l (record { pool = put c l.pool; lent = before ++ after })
  closes_conn : (c : ℕ) → Step l (record { pool = close_conn c l.pool; lent = l.lent })
  closes_pool : Step l (record { pool = close_pool l.pool; lent = l.lent })

-- The states that a pool comes to, from one that `NewPool` has made without an error.
pub data Reachable : Lending → Type 0 where
  begun :
      (networks : ℕ → Network) (cfg : Config) (p : Pool)
      → new_pool networks cfg ≡ (p, none)
      → Reachable (record { pool = p; lent = [] })
  stepped : {l m : Lending} → Reachable l → Step l m → Reachable m

-- What `Get` does to the numbers.
abbrev Gets : Pool → Pool × Got → Type 0
Gets p (next, got c) =
    (next.cfg.pool_size ≡ p.cfg.pool_size)
    × (((suc (length next.conns) ≡ length p.conns) × (next.created ≡ p.created))
        ⊎ ((length next.conns ≡ length p.conns)
            × (next.created ≡ suc p.created)
            × (p.created < p.cfg.pool_size)))
Gets p (next, failed e) =
    (next.cfg.pool_size ≡ p.cfg.pool_size)
    × (length next.conns ≤ length p.conns)
    × (p.created ≤ next.created)
    × ((next.created ≡ p.created)
        ⊎ (suc p.created ≤ p.cfg.pool_size) × (next.created ≡ suc p.created))
Gets p (next, waits) = next ≡ p

get_popped :
    (network : Network) (p : Pool) (c : ℕ) (rest : List ℕ)
    → p.conns ≡ c ∷ rest
    → Gets p (take_conn network (record p { conns = rest }) c)
unfolding take_conn
get_popped network p c rest has = elim (Bool-cases (is_dead p.dead c)) [
  | inr alive ↦ rw (take_conn, alive) (refl, inl (rw has refl, refl))
  | inl gone ↦ elim (create_conn-same network (record p { conns = rest })) [
    | inl (error, q, e, conns, created, cfg) ↦
        let size = ap (λ (x : Config). x.pool_size) cfg in
        let long = ap (λ (xs : List ℕ). length xs) conns in
        rw (take_conn, gone, e)
          (size, rw has (omega (arith, long)), omega (arith, created), inl created)
    | inr e ↦ rw (take_conn, gone, e) (refl, inl (rw has refl, refl))
  ]
]

get_from-Gets :
    (network : Network) (p : Pool) (conns : List ℕ)
    → p.conns ≡ conns
    → Gets p (get_from network p conns)
unfolding get_from
get_from-Gets network p (c ∷ rest) has = get_popped network p c rest has
get_from-Gets network p [] has = elim (Bool-cases (ltb p.created p.cfg.pool_size)) [
  | inr full ↦ rw full refl
  | inl room ↦
      let below : p.created < p.cfg.pool_size = ground (arith, room) in
      elim (create_conn-same network (record p { created = p.created + 1 })) [
        | inl (error, q, e, conns, created, cfg) ↦
            let size = ap (λ (x : Config). x.pool_size) cfg in
            let long = ap (λ (xs : List ℕ). length xs) conns in
            rw (room, e)
              (
                size,
                omega (arith, long),
                omega (arith, created),
                inr (omega (arith, below), omega (arith, created)),
              )
        | inr e ↦ rw (room, e) (refl, inr (refl, omega arith, below))
      ]
]

if-Gets :
    (p : Pool) (c : Bool) (x y : Pool × Got) → Gets p x → Gets p y → Gets p (if c then x else y)
if-Gets p true x y a b = a
if-Gets p false x y a b = b

get-Gets : (network : Network) (p : Pool) → Gets p (get network p)
unfolding get
get-Gets network p =
    if-Gets p p.is_closed (p, failed err_closed) (get_from network p p.conns)
      (refl, omega arith, omega arith, inl refl) (get_from-Gets network p p.conns refl)

-- What `Put` does to the numbers, for a lent connection.
put-WithinSize :
    (p : Pool) (c : ℕ) (before after : List ℕ)
    → WithinSize (record { pool = p; lent = before ++ c ∷ after })
    → WithinSize (record { pool = put c p; lent = before ++ after })
unfolding put close_conn
put-WithinSize p c before after v =
    let more = length-append before (c ∷ after) in
    let fewer = length-append before after in
    let longer = length-append p.conns (c ∷ []) in ground arith

close_each_conn-same :
    (cs : List ℕ) (p : Pool)
    → ((close_each_conn cs p).created ≡ p.created) × ((close_each_conn cs p).cfg ≡ p.cfg)
unfolding close_each_conn
close_each_conn-same [] p = (refl, refl)
close_each_conn-same (c ∷ cs) p =
    let (created, cfg) = close_each_conn-same cs (close_conn c p) in
    let (_, created', cfg') = close_conn-same c p in (created ∙ created', cfg ∙ cfg')

close_pool-WithinSize :
    (p : Pool) (lent : List ℕ)
    → WithinSize (record { pool = p; lent = lent })
    → WithinSize (record { pool = close_pool p; lent = lent })
unfolding close_pool
close_pool-WithinSize p lent v =
    let (created, cfg) = close_each_conn-same p.conns p in
    let size = ap (λ (x : Config). x.pool_size) cfg in
    elim (Bool-cases p.is_closed) [
      | inl e ↦ simp (close_pool, e) v
      | inr e ↦
          simp (close_pool, e)
            (record {
              counted = omega (arith, v.counted, created);
              limited = omega (arith, v.limited, created, size);
            })
    ]

lend-WithinSize :
    (p next : Pool) (lent : List ℕ) (c : ℕ)
    → Gets p (next, got c)
    → WithinSize (record { pool = p; lent = lent })
    → WithinSize (record { pool = next; lent = c ∷ lent })
lend-WithinSize p next lent c (same, numbers) v = ground arith

fail-WithinSize :
    (p next : Pool) (lent : List ℕ) (e : Error)
    → Gets p (next, failed e)
    → WithinSize (record { pool = p; lent = lent })
    → WithinSize (record { pool = next; lent = lent })
fail-WithinSize p next lent e (same, fewer, more, numbers) v = ground arith

Step-WithinSize : {l m : Lending} → Step l m → WithinSize l → WithinSize m
Step-WithinSize {l} (lends network next c e) v =
    lend-WithinSize l.pool next l.lent c (subst (Gets l.pool) e (get-Gets network l.pool)) v
Step-WithinSize {l} (fails network next e same) v =
    fail-WithinSize l.pool next l.lent e (subst (Gets l.pool) same (get-Gets network l.pool)) v
Step-WithinSize {l} (takes_back before after c e) v =
    put-WithinSize l.pool c before after
      (subst (λ (xs : List ℕ). WithinSize (record { pool = l.pool; lent = xs })) e v)
Step-WithinSize {l} (closes_conn c) v =
    let (conns, created, cfg) = close_conn-same c l.pool in
    let size = ap (λ (x : Config). x.pool_size) cfg in
    let long = ap (λ (xs : List ℕ). length xs) conns in
    record {
      counted = omega (arith, v.counted, created, long);
      limited = omega (arith, v.limited, created, size);
    }
Step-WithinSize {l} closes_pool v = close_pool-WithinSize l.pool l.lent v

-- A pool with one connection more.
abbrev pub filled : Pool → Pool
filled p = record p {
  conns = p.conns ++ p.next_conn ∷ [];
  created = p.created + 1;
  next_conn = suc p.next_conn;
}

-- The loop of `NewPool`, from a pool that has room for what is left.
fill-WithinSize :
    (networks : ℕ → Network) (left : ℕ) (p q : Pool)
    → length p.conns ≤ p.created
    → p.created + left ≤ p.cfg.pool_size
    → fill networks left p ≡ (q, none)
    → WithinSize (record { pool = q; lent = [] })
unfolding fill
fill-WithinSize networks zero p q counted room e =
    let same : p ≡ q = cc in
    subst (λ (r : Pool). WithinSize (record { pool = r; lent = [] })) same
      (record { counted = omega (arith, counted); limited = omega (arith, room) })
fill-WithinSize networks (suc left) p q counted room e =
    elim (create_conn-same (networks p.next_conn) p) [
      | inl (error, stopped_at, failing, _, _, _) ↦
          let why = failure (codes "failed to create initial connection: " ++ error_text error) in
          let stops : (fill networks (suc left) p).1 ≡ some why = rw (fill, failing) refl in
          let fine = ap (λ (r : Pool × Option Error). r.1) e in absurd cc
      | inr made ↦
          let more = length-append p.conns (p.next_conn ∷ []) in
          let goes_on : fill networks (suc left) p ≡ fill networks left (filled p) =
            let result = ap (λ (r : Pool × Got). r.1) made in
            let next = ap (λ (r : Pool × Got). r.0) made in rw (fill, result, next) refl in
          fill-WithinSize networks left (filled p) q (omega (arith, counted, more))
            (omega (arith, room)) (sym goes_on ∙ e)
    ]

-- The connections in the channel and those that are lent are together never more than the size of the
-- pool, since each is counted and `Get` makes none beyond the size: in every state that a pool comes to
-- that `NewPool` has made without an error.
pub Reachable-WithinSize : {l : Lending} → Reachable l → WithinSize l
unfolding new_pool
Reachable-WithinSize (begun networks cfg p e) =
    fill-WithinSize networks (min cfg.min_idle_conns (size_or_default cfg.pool_size))
      (empty_pool cfg) p (omega arith) (omega arith) e
Reachable-WithinSize (stepped before step) = Step-WithinSize step (Reachable-WithinSize before)
