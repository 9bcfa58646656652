-- ===== src/Resolver/Answers.antt =====
-- What an answer of c-ares does to a connection: dns_callback of src/async_dns.cpp on state_machine.
use gko_pool.Prelude.{
  ◌&&◌, Bool-cases, inl, inr, ℕ, suc, ◌≡◌, ◌≢◌, refl, sym, ap, subst, ◌∙◌, Bool, true, false,
  Option, none, some, List, ◌∷◌, ◌==◌, if◌then◌else◌, length, Bool-cases,
}
use gko_pool.Prelude.Int.{pos, negsuc}
use gko_pool.Client.{Client, World, State, conn_set_state, code, dns_resolve_fail}
use gko_pool.Client.Keeping.{Owned, Spares-Owned, conn_set_state-Spares}
use gko_pool.Machine.{Next, Calls, answer, state_machine}
use gko_pool.Machine.Closing.{is_member, state_machine_closes}
use gko_pool.Machine.Connecting.{Connects, conn_set_state-same, state_machine-Connects}
use gko_pool.Machine.Measure.{conn_set_state-Set}
use gko_pool.Machine.Keeping.{IsSparing, state_machine-Owned}
use gko_pool.Resolver.{
  Answer, resolved, unresolved, take_answer, del_dns_event, dns_callback, Ares, nb_gethostbyname,
  with_ares, Processed, process_answer, dns_ev_callback, times_out, has_flag,
}

-- How an answer ends: with the host's address the connection waits until its socket can be written to,
-- or is freed where there is no socket; without an address it is freed.
abbrev pub IsSettled : Answer → Client → World → Next × Client × World → Type 0
IsSettled (resolved addr) c w r = Connects (record c { client_addr = addr; dns_events = 0 }) w r
IsSettled unresolved c w r =
    (r.0 ≡ Next.stops)
    × (r.1.conn_time ≡ 0)
    × (r.2.closed ≡ c.client_fd ∷ w.closed)
    × (is_member c.id r.2.conn_set ≡ false)

Connects-same :
    (c c' : Client) (w w' : World) (r : Next × Client × World)
    → c'.id ≡ c.id
    → c'.client_addr ≡ c.client_addr
    → c'.dns_events ≡ c.dns_events
    → w'.sock ≡ w.sock
    → w'.closed ≡ w.closed
    → Connects c' w' r
    → Connects c w r
Connects-same c c' w w' r id addr events sock closed k = rw⁻¹ (id, addr, events, sock, closed) k

-- An answer settles a connection that has no descriptor yet, its client_fd being FD_BEFORE_CONNECT, -1. With
-- an address, dns_callback leaves it in the state write with the new socket, the address and no resolver
-- events; where there is no socket, or no address, it has freed its slot and taken it from the worker's
-- set, and close has been called with the negative descriptor only.
pub dns_callback_settles :
    (calls : Calls) (fuel : ℕ) (answer : Answer) (c : Client) (w : World)
    → c.client_fd ≡ negsuc 0
    → IsSettled answer c w (dns_callback calls (suc (suc fuel)) answer c w)
unfolding dns_callback take_answer del_dns_event
dns_callback_settles calls fuel (resolved addr) c w fd =
    let before = record c { client_addr = addr } in
    let (c', w') = conn_set_state before w State.connecting in
    let same = conn_set_state-same before w State.connecting in
    let set = conn_set_state-Set before w State.connecting in
    Connects-same (record c { client_addr = addr; dns_events = 0 }) (del_dns_event c') w w'
      (state_machine calls (suc (suc fuel)) (del_dns_event c') w') same.3 same.1 refl same.6 same.4
      (state_machine-Connects calls fuel (del_dns_event c') w' set.state)
dns_callback_settles calls fuel unresolved c w fd =
    let before = record c { err_no = dns_resolve_fail } in
    let (c', w') = conn_set_state before w State.closing in
    let same = conn_set_state-same before w State.closing in
    let closed =
      state_machine_closes calls (suc fuel) (del_dns_event c') w'
        (conn_set_state-Set before w State.closing).state (λ z. no_fd (sym fd ∙ sym same.0 ∙ z)) in
    let r = state_machine calls (suc (suc fuel)) (del_dns_event c') w' in
    (
      closed.0,
      closed.1,
      closed.3 ∙ (ap (λ fd. fd ∷ w'.closed) same.0 ∙ ap (λ l. c.client_fd ∷ l) same.4),
      subst (λ id. is_member id r.2.conn_set ≡ false) same.3 closed.5,
    )
  where
    no_fd : negsuc 0 ≢ pos 0
    no_fd e = cc

-- The blocks of the connection and those of others, through an answer.
pub dns_callback-Owned :
    (calls : Calls) (fuel : ℕ) (answer : Answer) (c : Client) (w : World) (others : List ℕ)
    → IsSparing calls
    → Owned c w others
    → let r = dns_callback calls fuel answer c w in Owned r.1 r.2 others
unfolding dns_callback take_answer del_dns_event
dns_callback-Owned calls fuel (resolved addr) c w others sparing o =
    let before = record c { client_addr = addr } in
    let (c', w') = conn_set_state before w State.connecting in
    state_machine-Owned calls fuel (del_dns_event c') w' others sparing
      (Spares-Owned before w c' w' others (conn_set_state-Spares before w State.connecting) o)
dns_callback-Owned calls fuel unresolved c w others sparing o =
    let before = record c { err_no = dns_resolve_fail } in
    let (c', w') = conn_set_state before w State.closing in
    state_machine-Owned calls fuel (del_dns_event c') w' others sparing
      (Spares-Owned before w c' w' others (conn_set_state-Spares before w State.closing) o)

process_answer-Owned :
    (calls : Calls) (fuel : ℕ) (answer : Option Answer) (c : Client) (w : World) (others : List ℕ)
    → IsSparing calls
    → Owned c w others
    → let r = process_answer calls fuel answer c w in Owned r.1 r.2 others
unfolding process_answer
process_answer-Owned calls fuel none c w others sparing o = o
process_answer-Owned calls fuel (some answer) c w others sparing o =
    dns_callback-Owned calls fuel answer c w others sparing o

times_out-Owned :
    (calls : Calls) (fuel : ℕ) (c : Client) (w : World) (others : List ℕ)
    → IsSparing calls
    → Owned c w others
    → let r = times_out calls fuel c w in Owned r.1 r.2 others
unfolding times_out del_dns_event dns_callback take_answer
times_out-Owned calls fuel c w others sparing o =
    dns_callback-Owned calls fuel unresolved c w others sparing o

if-Owned :
    (b : Bool) (r r' : Next × Client × World) (others : List ℕ)
    → Owned r.1 r.2 others
    → Owned r'.1 r'.2 others
    → let chosen = if b then r else r' in Owned chosen.1 chosen.2 others
if-Owned true r r' others o o' = o
if-Owned false r r' others o o' = o'

-- The same through an event of the resolver's descriptors.
pub dns_ev_callback-Owned :
    (calls : Calls) (fuel : ℕ) (processed : Processed) (ev : ℕ) (c : Client) (w : World)
    (others : List ℕ)
    → IsSparing calls
    → Owned c w others
    → let r = dns_ev_callback calls fuel processed ev c w in Owned r.1 r.2 others
unfolding dns_ev_callback del_dns_event
dns_ev_callback-Owned calls fuel processed ev c w others sparing o =
    let on_flag =
      λ (flag : ℕ) (answer : Option Answer). if has_flag ev flag then answer else none in
    let (n1, c1, w1) = process_answer calls fuel (on_flag 2 processed.on_read) c w in
    let o1 = process_answer-Owned calls fuel (on_flag 2 processed.on_read) c w others sparing o in
    let (n2, c2, w2) = process_answer calls fuel (on_flag 4 processed.on_write) c1 w1 in
    let o2 =
      process_answer-Owned calls fuel (on_flag 4 processed.on_write) c1 w1 others sparing o1 in
    let (n3, c3, w3) = process_answer calls fuel (on_flag 1 processed.on_timeout) c2 w2 in
    let o3 =
      process_answer-Owned calls fuel (on_flag 1 processed.on_timeout) c2 w2 others sparing o2 in
    if-Owned (code c.state == code State.closing) (state_machine calls fuel (del_dns_event c) w) _
      others (state_machine-Owned calls fuel (del_dns_event c) w others sparing o)
      (if-Owned (has_flag ev 1) (times_out calls fuel c3 w3) (n2, c2, w2) others
        (times_out-Owned calls fuel c3 w3 others sparing o3) o2)

-- The same through a query, answered at once or later.
pub nb_gethostbyname-Owned :
    (calls : Calls) (ares : Ares) (c : Client) (w : World) (others : List ℕ)
    → IsSparing calls
    → Owned c w others
    → let r = nb_gethostbyname calls ares c w in Owned r.0 r.1 others
unfolding nb_gethostbyname del_dns_event
nb_gethostbyname-Owned calls ares c w others sparing o =
    let (next, c', w') = process_answer calls 2 (ares.ares_gethostbyname c w) c w in
    let o' = process_answer-Owned calls 2 (ares.ares_gethostbyname c w) c w others sparing o in
    elim (Bool-cases
      ((length (ares.read_fds c' w') == 0) && (length (ares.write_fds c' w') == 0))) [
        | inl b ↦ rw b o'
        | inr b ↦ rw b o'
      ]

-- The resolver neither loses nor shares a block, where the callback leaves them alone.
pub with_ares-IsSparing :
    (calls : Calls) (ares : Ares) → IsSparing calls → IsSparing (with_ares calls ares)
unfolding answer
with_ares-IsSparing calls ares sparing =
    (sparing.0, λ c w others o. nb_gethostbyname-Owned calls ares c w others sparing o)
