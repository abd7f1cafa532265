-- ===== src/Pool/Accounts.antt =====
-- Where the connections of a pool are (redis/client.go): in the channel, lent, or closed.
use stream_relay.Prelude.{
  ℕ, suc, ◌+◌, ◌==◌, ◌<◌, ◌≡◌, refl, sym, ap, subst, ◌∙◌, ◌⊎◌, inl, inr, true, false, Bool-cases,
  List, [], ◌∷◌, ◌++◌, arith, ltb,
}
use stream_relay.Pool.{
  Network, Pool, is_dead, Got, got, failed, waits, create_conn, take_conn, get_from, get,
  close_conn, close_each_conn, close_pool,
}
use stream_relay.Pool.Creating.{dialled, unusable, create_conn-cases}

-- Each connection that was made is closed, or it is lent or in the channel.
abbrev pub Accounted : List ℕ → Pool → Type 0
Accounted lent p =
    (c : ℕ) → c < p.next_conn → (is_dead p.dead c ≡ true) ⊎ (is_dead (lent ++ p.conns) c ≡ true)

-- Each connection that was made is closed.
abbrev pub AllClosed : Pool → Type 0
AllClosed p = (c : ℕ) → c < p.next_conn → is_dead p.dead c ≡ true

pub is_dead-append : (cs : List ℕ) (d c : ℕ) → is_dead (cs ++ d ∷ []) c ≡ is_dead (d ∷ cs) c
unfolding is_dead
is_dead-append [] d c = refl
is_dead-append (e ∷ cs) d c = let ih = is_dead-append cs d c in ground arith

close_conn_kept :
    (d : ℕ) (p : Pool)
    → ((close_conn d p).next_conn ≡ p.next_conn)
      × ((close_conn d p).conns ≡ p.conns)
      × ((c : ℕ) → is_dead (close_conn d p).dead c ≡ is_dead (d ∷ p.dead) c)
unfolding close_conn is_dead
close_conn_kept d p = elim (Bool-cases (is_dead p.dead d)) [
  | inl e ↦
      rw (close_conn, e)
        (
          refl,
          refl,
          λ c. elim (Bool-cases (d == c)) [
            | inl same ↦
                let equal : d ≡ c = ground (arith, same) in
                rw same (ap (is_dead p.dead) (sym equal) ∙ e)
            | inr differs ↦ rw differs refl
          ],
        )
  | inr e ↦ rw (close_conn, e) (refl, refl, λ c. refl)
]

-- The loop of `Close` closes what it goes over, and what was closed before stays so.
close_each_conn_kept :
    (cs : List ℕ) (p : Pool)
    → ((close_each_conn cs p).next_conn ≡ p.next_conn)
      × ((c : ℕ)
          → (is_dead p.dead c ≡ true) ⊎ (is_dead cs c ≡ true)
          → is_dead (close_each_conn cs p).dead c ≡ true)
unfolding close_each_conn is_dead
close_each_conn_kept [] p = (refl, λ c known. elim known [ inl e ↦ e | inr e ↦ absurd cc ])
close_each_conn_kept (d ∷ cs) p =
    let (made, _, dead) = close_conn_kept d p in
    let (made', closed) = close_each_conn_kept cs (close_conn d p) in
    (
      made' ∙ made,
      λ c known.
          let here = dead c in
          closed c (elim (Bool-cases (d == c)) [
            | inl same ↦ inl (here ∙ rw same refl)
            | inr differs ↦ elim known [
              | inl e ↦ inl (here ∙ rw differs e)
              | inr e ↦ inr (ground (arith, differs, e))
            ]
          ]),
    )

pub close_pool-AllClosed :
    (p : Pool)
    → p.is_closed ≡ false
    → Accounted [] p
    → ((close_pool p).is_closed ≡ true) × ((close_pool p).conns ≡ []) × AllClosed (close_pool p)
unfolding close_pool
close_pool-AllClosed p is_open known =
    let (made, closed) = close_each_conn_kept p.conns p in
    simp (close_pool, is_open)
      (refl, refl, λ c below. closed c (known c (subst (λ n. c < n) made below)))

-- A pool, and the connection that it has lent, if any.
abbrev pub LentBy : Pool × Got → Type 0
LentBy (next, got c) = Accounted (c ∷ []) next × (next.is_closed ≡ false)
LentBy (next, failed e) = Accounted [] next × (next.is_closed ≡ false)
LentBy (next, waits) = Accounted [] next × (next.is_closed ≡ false)

-- A connection that could not be used is closed.
pub unusable-Accounted : (p : Pool) → Accounted [] p → Accounted [] (unusable p)
unfolding is_dead
unusable-Accounted p known =
    let (made, conns, dead) = close_conn_kept p.next_conn (dialled p) in
    λ c below. elim (Bool-cases (p.next_conn == c)) [
      | inl same ↦ inl (dead c ∙ rw same refl)
      | inr differs ↦
          let counted : c < suc p.next_conn = subst (λ n. c < n) made below in
          let older : c < p.next_conn = ground (arith, counted, differs) in
          elim (known c older) [
            | inl e ↦ inl (dead c ∙ rw differs e)
            | inr e ↦ inr (subst (λ cs. is_dead cs c ≡ true) (sym conns) e)
          ]
    ]

pub unusable-is_closed : (p : Pool) → (unusable p).is_closed ≡ p.is_closed
unfolding close_conn
unusable-is_closed p = elim (Bool-cases (is_dead p.dead p.next_conn)) [
  | inl e ↦ rw e refl
  | inr e ↦ rw e refl
]

-- A new connection is lent.
create_conn-LentBy :
    (network : Network) (p : Pool)
    → p.is_closed ≡ false
    → Accounted [] p
    → LentBy (create_conn network p)
unfolding is_dead
create_conn-LentBy network p is_open known = elim (create_conn-cases network p) [
  | inl (e, made) ↦ rw made (known, is_open)
  | inr (inl (e, made)) ↦ rw made (unusable-Accounted p known, unusable-is_closed p ∙ is_open)
  | inr (inr made) ↦ rw made (
    λ c below. elim (Bool-cases (p.next_conn == c)) [
      | inl same ↦ inr (rw same refl)
      | inr differs ↦
          let older : c < p.next_conn = ground (arith, below, differs) in
          elim (known c older) [ inl e ↦ inl e | inr e ↦ inr (rw differs e) ]
    ],
    is_open,
  )
]

get_from-LentBy :
    (network : Network) (p : Pool) (conns : List ℕ)
    → p.conns ≡ conns
    → p.is_closed ≡ false
    → Accounted [] p
    → LentBy (get_from network p conns)
unfolding get_from take_conn is_dead
get_from-LentBy network p [] has is_open known = elim (Bool-cases (ltb p.created p.cfg.pool_size)) [
  | inr full ↦ rw full (known, is_open)
  | inl room ↦
      rw room (create_conn-LentBy network (record p { created = p.created + 1 }) is_open known)
]
get_from-LentBy network p (d ∷ rest) has is_open known =
    let there : (c : ℕ)
        → c < p.next_conn
        → (is_dead p.dead c ≡ true) ⊎ (is_dead (d ∷ rest) c ≡ true) =
      subst (λ cs. (c : ℕ) → c < p.next_conn → (is_dead p.dead c ≡ true) ⊎ (is_dead cs c ≡ true))
        has known in
    elim (Bool-cases (is_dead p.dead d)) [
      | inr alive ↦ rw (take_conn, alive) (there, is_open)
      | inl gone ↦
          rw (take_conn, gone)
            (create_conn-LentBy network (record p { conns = rest }) is_open
              λ c below. elim (Bool-cases (d == c)) [
                | inl same ↦
                    let equal : d ≡ c = ground (arith, same) in
                    inl (ap (is_dead p.dead) (sym equal) ∙ gone)
                | inr differs ↦ elim (there c below) [
                  | inl e ↦ inl e
                  | inr e ↦ inr (ground (arith, differs, e))
                ]
              ])
    ]

pub get-LentBy :
    (network : Network) (p : Pool) → p.is_closed ≡ false → Accounted [] p → LentBy (get network p)
unfolding get
get-LentBy network p is_open known =
    simp (get, is_open) (get_from-LentBy network p p.conns refl is_open known)
