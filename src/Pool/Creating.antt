-- ===== src/Pool/Creating.antt =====
-- How a connection of redis/client.go is made: what is left of the pool however that ends.
use stream_relay.Prelude.{
  ℕ, suc, ◌≡◌, refl, ◌⊎◌, inl, inr, Bool-cases, none, Option-cases, [], ◌++◌, codes, str_eq,
  if◌then◌else◌,
}
use stream_relay.Protocol.{Error, failure, error_text}
use stream_relay.Pool.{
  Network, Pool, new_conn, is_dead, got, failed, create_conn, close_conn, auth, select_db,
  is_zero_db,
}

-- Closing a connection changes no number.
pub close_conn-same :
    (c : ℕ) (p : Pool)
    → ((close_conn c p).conns ≡ p.conns)
      × ((close_conn c p).created ≡ p.created)
      × ((close_conn c p).cfg ≡ p.cfg)
unfolding close_conn
close_conn-same c p = elim (Bool-cases (is_dead p.dead c)) [
  | inl e ↦ rw (close_conn, e) (refl, refl, refl)
  | inr e ↦ rw (close_conn, e) (refl, refl, refl)
]

-- The pool once a connection is dialled, and once that is closed as it could not be used.
abbrev pub dialled : Pool → Pool
dialled p = record p { next_conn = suc p.next_conn }

abbrev pub unusable : Pool → Pool
unusable p = close_conn p.next_conn (dialled p)

pub create_conn-cases :
    (network : Network) (p : Pool)
    → ((e : Error) × (create_conn network p ≡ (p, failed e)))
      ⊎ ((e : Error) × (create_conn network p ≡ (unusable p, failed e)))
      ⊎ (create_conn network p ≡ (dialled p, got p.next_conn))
unfolding create_conn new_conn
create_conn-cases network p =
    let first = if str_eq p.cfg.password [] then none else auth network p.cfg.password in
    let second = if is_zero_db p.cfg.db then none else select_db network p.cfg.db in
    elim (Option-cases network.dial) [
      | inr (error, e) ↦ inl (
        failure (codes "failed to connect to Redis: " ++ error_text error),
        rw (create_conn, new_conn, e) refl,
      )
      | inl e ↦ elim (Option-cases first) [
        | inr (error, e') ↦ inr (inl (error, rw (create_conn, new_conn, e, e') refl))
        | inl e' ↦ elim (Option-cases second) [
          | inr (error, e'') ↦ inr (inl (error, rw (create_conn, new_conn, e, e', e'') refl))
          | inl e'' ↦ inr (inr (rw (create_conn, new_conn, e, e', e'') refl))
        ]
      ]
    ]

-- Whatever fails, the numbers are the same.
pub create_conn-same :
    (network : Network) (p : Pool)
    → ((e : Error) × (q : Pool) × (create_conn network p ≡ (q, failed e))
        × (q.conns ≡ p.conns)
        × (q.created ≡ p.created)
        × (q.cfg ≡ p.cfg))
      ⊎ (create_conn network p ≡ (dialled p, got p.next_conn))
create_conn-same network p = elim (create_conn-cases network p) [
  | inl (error, e) ↦ inl (error, p, e, refl, refl, refl)
  | inr (inl (error, e)) ↦
      let (conns, created, cfg) = close_conn-same p.next_conn (dialled p) in
      inl (error, unusable p, e, conns, created, cfg)
  | inr (inr e) ↦ inr e
]
