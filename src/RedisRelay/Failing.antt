-- ===== src/RedisRelay/Failing.antt =====
-- What is left open when a relay on Redis cannot be made (engine/relay.go, redis/client.go).
use stream_relay.Prelude.{
  ℕ, ◌<◌, ◌≡◌, subst, inl, inr, true, Option, Option-cases, List, [], ◌∷◌, Bytes, codes,
}
use stream_relay.Protocol.{Error, Result, ok, err}
use stream_relay.Resp.{Value}
use stream_relay.Pool.{Network, Pool, is_dead, new_pool}
use stream_relay.Pool.Clients.{ping}
use stream_relay.Pool.Accounts.{AllClosed, close_pool-AllClosed}
use stream_relay.Pool.Made.{Made, new_pool-Made, client_do-Accounted}
use stream_relay.RedisRelay.{Relay}
use stream_relay.RedisRelay.Making.{RelayConfig, ping_error, new_relay}

-- Nothing of a pool is left open, if the relay could not be made.
abbrev IsShut : Pool × Result Relay → Type 0
IsShut (p, ok relay) = Unit
IsShut (p, err e) = (p.is_closed ≡ true) × (p.conns ≡ []) × AllClosed p

new_relay-IsShut :
    (networks : ℕ → Network) (network : Network) (answers : ℕ → List Bytes → Result Value) (now : ℕ)
    (cfg : RelayConfig)
    → IsShut (new_relay networks network answers now cfg)
unfolding new_relay ping
new_relay-IsShut networks network answers now cfg =
    let made = new_pool-Made networks cfg.redis in
    let pool = (new_pool networks cfg.redis).0 in
    let call = (ping network answers pool).1 in
    elim (Option-cases (new_pool networks cfg.redis).1) [
      | inr (e, failing) ↦
          rw (new_relay, failing) (subst (λ (o : Option Error). Made (pool, o)) failing made)
      | inl fine ↦
          let (known, is_open) = subst (λ (o : Option Error). Made (pool, o)) fine made in
          let (still, opened) =
            client_do-Accounted network answers (codes "PING" ∷ []) pool is_open known in
          elim (Option-cases (ping_error call)) [
            | inl e ↦ rw (new_relay, fine, e) tt
            | inr (e, failing) ↦
                rw (new_relay, fine, failing)
                  (close_pool-AllClosed (ping network answers pool).0 opened still)
          ]
    ]

-- If `New` fails, whether its pool cannot be filled or the server does not answer the ping, its pool is
-- closed and empty, and every connection that it made is closed.
pub new_relay_failed :
    (networks : ℕ → Network) (network : Network) (answers : ℕ → List Bytes → Result Value) (now : ℕ)
    (cfg : RelayConfig) (p : Pool) (e : Error)
    → new_relay networks network answers now cfg ≡ (p, err e)
    → (p.is_closed ≡ true) × (p.conns ≡ []) × ((c : ℕ) → c < p.next_conn → is_dead p.dead c ≡ true)
new_relay_failed networks network answers now cfg p e failing =
    subst IsShut failing (new_relay-IsShut networks network answers now cfg)
