-- ===== src/Sockets/Listen.antt =====
-- gko_async_server_base_init of src/async_conn.cpp: the port that the server listens at.
use gko_pool.Prelude.{
  ℕ, zero, suc, ◌-◌, ◌%◌, ◌≤◌, ◌<◌, ◌≡◌, refl, ap, arith, Bool, true, false, ◌||◌, Option, none,
  some, subst, List, ◌++◌, ◌⊎◌, inl, inr, ◌==◌, ltb, Bool-cases, ◌∙◌,
}
use gko_pool.Prelude.Int.{ℤ, pos, negsuc, pos_part}
use gko_pool.Sockets.{
  Tcp, min_port, max_port, max_lis_port, conn_tcp_server, fds, bind_next, bind_loop,
  gko_async_server_base_init,
}

-- The server listens at a port.
abbrev pub Listens : Bool → (ℕ → Tcp) → ℕ → Type 0
Listens given answers port = (fd : ℕ) × ((conn_tcp_server given port (answers port)).0 ≡ pos fd)

-- A result of the search from a port down: -1, or a port that is not above it, at which the server
-- listens. A port that is given is the only one; without one, none below min_port - 1 is tried.
abbrev pub Bound : Bool → (ℕ → Tcp) → ℕ → ℤ → Type 0
Bound given answers port result =
    (result ≡ negsuc 0)
    ⊎ ((p : ℕ) × (result ≡ pos p)
        × Listens given answers p
        × (p ≤ port)
        × (given ≡ true → p ≡ port)
        × (given ≡ false → min_port ≤ suc p))

abbrev pub EndsIn : Bool → (ℕ → Tcp) → ℕ → Option (ℤ × List ℕ) → Type 0
EndsIn given answers port r =
    (result : ℤ) × (fds : List ℕ) × (r ≡ some (result, fds)) × Bound given answers port result

in_range :
    (given : Bool) (answers : ℕ → Tcp) (port : ℕ) → Listens given answers port → port ≤ max_port
unfolding conn_tcp_server
in_range given answers port (fd, e) = ground arith

lower :
    (answers : ℕ → Tcp) (port : ℕ) (result : ℤ)
    → Bound false answers (port - 1) result
    → Bound false answers port result
lower answers port result (inl e) = inl e
lower answers port result (inr (p, e, opens, l, same, low)) =
    inr (p, e, opens, omega (arith, l), λ t. absurd (clash t), low)
  where
    clash : false ≡ true → ⊥
    clash e = cc

next_returns :
    (given : Bool) (answers : ℕ → Tcp) (port : ℕ) (ret : ℤ) (opened : Option ℕ)
    (rest : Option (ℤ × List ℕ))
    → (given ≡ false → min_port ≤ suc port)
    → ((fd : ℕ) → ret ≡ pos fd → Listens given answers port)
    → (min_port ≤ port → EndsIn given answers (port - 1) rest)
    → EndsIn given answers port (bind_next ret opened port given rest)
unfolding bind_next
next_returns given answers port (pos fd) opened rest low within later =
    (pos port, _, refl, inr (port, refl, within fd refl, omega arith, λ t. refl, low))
next_returns given answers port (negsuc n) opened rest low within later =
    elim (Bool-cases (n == 11)) [
      | inr other ↦ rw other (negsuc 0, _, refl, inl refl)
      | inl busy ↦ elim (Bool-cases (ltb port min_port || given)) [
        | inl last ↦ rw (busy, last) (negsuc 0, _, refl, inl refl)
        | inr more ↦ rw (busy, more) (onward given more (later (ground arith)))
      ]
    ]
  where
    onward :
        (given : Bool)
        → (ltb port min_port || given) ≡ false
        → EndsIn given answers (port - 1) rest
        → EndsIn given answers port (elim rest as (λ x. Option (ℤ × List ℕ)) [
          | none ↦ none
          | some (result, others) ↦ some (result, fds opened ++ others)
        ])
    onward true more r = ground arith
    onward false more (result, others, e, bound) =
        rw e (result, _, refl, lower answers port result bound)

bind_loop_returns :
    (fuel : ℕ) (given : Bool) (port : ℕ) (answers : ℕ → Tcp)
    → port < fuel
    → (given ≡ false → min_port ≤ suc port)
    → EndsIn given answers port (bind_loop fuel given port answers)
unfolding bind_loop
bind_loop_returns zero given port answers l low = absurd (omega (arith, l))
bind_loop_returns (suc fuel) given port answers l low =
    let (ret, opened) = conn_tcp_server given port (answers port) in
    next_returns given answers port ret opened (bind_loop fuel given (port - 1) answers) low
      (λ fd e. (fd, e))
      (λ more.
        bind_loop_returns fuel given (port - 1) answers (omega (arith, more, l))
          (λ e. omega (arith, more)))

-- What the server's start promises for a port that is asked for, or for none.
abbrev pub Served : ℤ → ℕ → (ℕ → Tcp) → ℤ → Type 0
Served (pos asked) random answers result =
    (result ≡ negsuc 0) ⊎ ((result ≡ pos asked) × Listens true answers asked × (asked ≤ max_port))
Served (negsuc n) random answers result =
    (result ≡ negsuc 0)
    ⊎ ((p : ℕ) × (result ≡ pos p)
        × Listens false answers p
        × (p ≤ max_lis_port - random % 500)
        × (min_port ≤ suc p))

-- The server's start ends: with more turns than the highest port that it may listen at, whatever the
-- system answers, gko_async_server_base_init returns -1 or a port at which the server listens. Where a
-- port is asked for, it is that one, and it is at most max_port. Where any will do, it is one from
-- max_lis_port less the random part below 500 down to min_port - 1.
pub gko_async_server_base_init_returns :
    (fuel : ℕ) (port : ℤ) (random : ℕ) (answers : ℕ → Tcp)
    → max_lis_port < fuel
    → pos_part port < fuel
    → (result : ℤ) × (fds : List ℕ) × (gko_async_server_base_init fuel port random answers
        ≡ some (result, fds))
      × Served port random answers result
unfolding gko_async_server_base_init
gko_async_server_base_init_returns fuel (negsuc n) random answers l m =
    let (result, fds, e, bound) =
      bind_loop_returns fuel false (max_lis_port - random % 500) answers (omega (arith, l))
        (λ e. omega arith) in
    (
      result,
      fds,
      e,
      elim bound [
        | inl bad ↦ inl bad
        | inr (p, same, opens, below, asked, low) ↦ inr (p, same, opens, below, low refl)
      ],
    )
gko_async_server_base_init_returns fuel (pos port) random answers l m =
    let (result, fds, e, bound) =
      bind_loop_returns fuel true port answers m (λ e. absurd (clash e)) in
    (
      result,
      fds,
      e,
      elim bound [
        | inl bad ↦ inl bad
        | inr (p, same, opens, below, asked, low) ↦
            let it : p ≡ port = asked refl in
            inr (
              same ∙ ap pos it,
              subst (Listens true answers) it opens,
              in_range true answers port (subst (Listens true answers) it opens),
            )
      ],
    )
  where
    clash : true ≡ false → ⊥
    clash e = cc
