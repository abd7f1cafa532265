-- ===== src/Pool/Made.antt =====
-- What NewPool makes, and a command leaves, is accounted for (redis/client.go).
use stream_relay.Prelude.{
  ℕ, zero, suc, ◌==◌, ◌<◌, min, ◌≡◌, refl, sym, ap, ◌∙◌, inl, inr, true, false, Bool-cases, Option,
  none, some, List, [], ◌∷◌, Bytes, arith, ltb, length,
}
use stream_relay.Protocol.{Error, Result}
use stream_relay.Resp.{Value}
use stream_relay.Pool.{
  Config, Network, Pool, is_dead, Got, got, failed, waits, get, close_conn, put, fill,
  size_or_default, empty_pool, new_pool,
}
use stream_relay.Pool.Clients.{client_do}
use stream_relay.Pool.Creating.{unusable, create_conn-cases}
use stream_relay.Pool.Sizes.{filled}
use stream_relay.Pool.Accounts.{
  Accounted, AllClosed, is_dead-append, close_pool-AllClosed, LentBy, get-LentBy,
  unusable-Accounted, unusable-is_closed,
}

-- A lent connection that is put back is in the channel, or closed.
put-Accounted :
    (c : ℕ) (p : Pool)
    → p.is_closed ≡ false
    → Accounted (c ∷ []) p
    → Accounted [] (put c p) × ((put c p).is_closed ≡ false)
unfolding put close_conn is_dead
put-Accounted d p is_open known = elim (Bool-cases (is_dead p.dead d)) [
  | inl gone ↦
      simp (put, gone)
        (
          λ c below. elim (Bool-cases (d == c)) [
            | inl same ↦
                let equal : d ≡ c = ground (arith, same) in
                inl (ap (is_dead p.dead) (sym equal) ∙ gone)
            | inr differs ↦ elim (known c below) [
              | inl e ↦ inl e
              | inr e ↦ inr (ground (arith, differs, e))
            ]
          ],
          is_open,
        )
  | inr alive ↦ elim (Bool-cases (ltb (length p.conns) p.cfg.pool_size)) [
    | inl room ↦
        simp (put, alive, is_open, room)
          (
            λ c below. elim (known c below) [
              | inl e ↦ inl e
              | inr e ↦ inr (is_dead-append p.conns d c ∙ e)
            ],
            refl,
          )
    | inr full ↦
        simp (put, alive, is_open, full, close_conn)
          (
            λ c below. elim (Bool-cases (d == c)) [
              | inl same ↦ inl (ground (arith, same))
              | inr differs ↦ elim (known c below) [
                | inl e ↦ inl (ground (arith, differs, e))
                | inr e ↦ inr (ground (arith, differs, e))
              ]
            ],
            refl,
          )
  ]
]

-- A command leaves no connection lent.
pub client_do-Accounted :
    (network : Network) (answers : ℕ → List Bytes → Result Value) (args : List Bytes) (p : Pool)
    → p.is_closed ≡ false
    → Accounted [] p
    → Accounted [] (client_do network answers args p).0
      × ((client_do network answers args p).0.is_closed ≡ false)
unfolding client_do
client_do-Accounted network answers args p is_open known =
    go (get network p) (get-LentBy network p is_open known) refl
  where
    go :
        (r : Pool × Got)
        → LentBy r
        → get network p ≡ r
        → Accounted [] (client_do network answers args p).0
          × ((client_do network answers args p).0.is_closed ≡ false)
    go (next, got c) (lent, is_open) e =
        let result = ap (λ (r : Pool × Got). r.1) e in
        let state = ap (λ (r : Pool × Got). r.0) e in
        rw (client_do, result, state) (put-Accounted c next is_open lent)
    go (next, failed error) kept e =
        let result = ap (λ (r : Pool × Got). r.1) e in
        let state = ap (λ (r : Pool × Got). r.0) e in rw (client_do, result, state) kept
    go (next, waits) kept e =
        let result = ap (λ (r : Pool × Got). r.1) e in
        let state = ap (λ (r : Pool × Got). r.0) e in rw (client_do, result, state) kept

-- What the loop of `NewPool` comes to.
abbrev pub Made : Pool × Option Error → Type 0
Made (p, none) = Accounted [] p × (p.is_closed ≡ false)
Made (p, some e) = (p.is_closed ≡ true) × (p.conns ≡ []) × AllClosed p

fill-Made :
    (networks : ℕ → Network) (left : ℕ) (p : Pool)
    → p.is_closed ≡ false
    → Accounted [] p
    → Made (fill networks left p)
unfolding fill is_dead
fill-Made networks zero p is_open known = (known, is_open)
fill-Made networks (suc left) p is_open known = elim (create_conn-cases (networks p.next_conn) p) [
  | inl (error, made) ↦
      let result = ap (λ (r : Pool × Got). r.1) made in
      let next = ap (λ (r : Pool × Got). r.0) made in
      rw (fill, result, next) (close_pool-AllClosed p is_open known)
  | inr (inl (error, made)) ↦
      let result = ap (λ (r : Pool × Got). r.1) made in
      let next = ap (λ (r : Pool × Got). r.0) made in
      rw (fill, result, next)
        (close_pool-AllClosed (unusable p) (unusable-is_closed p ∙ is_open)
          (unusable-Accounted p known))
  | inr (inr made) ↦
      let result = ap (λ (r : Pool × Got). r.1) made in
      let next = ap (λ (r : Pool × Got). r.0) made in
      let more : Accounted [] (filled p) = λ c below. elim (Bool-cases (p.next_conn == c)) [
        | inl same ↦ inr (is_dead-append p.conns p.next_conn c ∙ rw same refl)
        | inr differs ↦
            let older : c < p.next_conn = ground (arith, below, differs) in
            elim (known c older) [
              | inl e ↦ inl e
              | inr e ↦ inr (is_dead-append p.conns p.next_conn c ∙ rw differs e)
            ]
      ] in
      rw (fill, result, next) (fill-Made networks left (filled p) is_open more)
]

pub new_pool-Made : (networks : ℕ → Network) (cfg : Config) → Made (new_pool networks cfg)
unfolding new_pool
new_pool-Made networks cfg =
    fill-Made networks (min cfg.min_idle_conns (size_or_default cfg.pool_size)) (empty_pool cfg)
      refl λ c below. absurd (omega (arith, below))
