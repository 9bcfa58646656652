-- ===== src/Resolver/Runs.antt =====
-- state_machine of src/async_threads.cpp with the resolver of src/async_dns.cpp, whatever c-ares answers and
-- whether it does so inside ares_gethostbyname or later.
use gko_pool.Prelude.{
  ℕ, suc, ◌+◌, ◌*◌, ◌^◌, ◌≤◌, ◌<◌, ◌≡◌, refl, sym, subst, ap, ◌∙◌, arith, true, Option, none, some,
}
use gko_pool.Client.{Client, World, State, conn_set_state, dns_resolve_fail}
use gko_pool.Transfer.Stream.{pending}
use gko_pool.Machine.{Calls, answer, state_machine}
use gko_pool.Machine.Ends.{Ends, Ends-from, closing-Ends, connecting-Ends}
use gko_pool.Machine.Graph.{Walk, here, goes, stays, found, unknown, IsQuiet, conn_set_state-type}
use gko_pool.Machine.Measure.{conn_set_state-Set, is_live}
use gko_pool.Machine.Halts.{IsCalm}
use gko_pool.Machine.Rests.{IsPatient, is_resting, state_machine_rests}
use gko_pool.Machine.Directions.{is_legal, state_machine_keeps_direction}
use gko_pool.Resolver.{
  Answer, resolved, unresolved, take_answer, del_dns_event, dns_callback, process_answer, Ares,
  nb_gethostbyname, with_ares,
}

-- An answer ends in two turns, along the edges from the state resolving.
pub dns_callback-Ends :
    (calls : Calls) (fuel : ℕ) (answer : Answer) (c : Client) (w : World)
    → Ends c.type State.resolving (dns_callback calls (suc (suc fuel)) answer c w)
unfolding dns_callback take_answer del_dns_event
dns_callback-Ends calls fuel (resolved addr) c w =
    let before = record c { client_addr = addr } in
    let set = conn_set_state before w State.connecting in
    let now = record set.0 { dns_events = 0 } in
    let r = state_machine calls (suc (suc fuel)) now set.1 in
    Ends-from r (goes here found) (
      subst (λ t. Ends t State.connecting r) (conn_set_state-type before w State.connecting)
        (connecting-Ends calls fuel now set.1 (conn_set_state-Set before w State.connecting).state))
dns_callback-Ends calls fuel unresolved c w =
    let before = record c { err_no = dns_resolve_fail } in
    let set = conn_set_state before w State.closing in
    let now = record set.0 { dns_events = 0 } in
    let r = state_machine calls (suc (suc fuel)) now set.1 in
    Ends-from r (goes here unknown) (
      subst (λ t. Ends t State.closing r) (conn_set_state-type before w State.closing)
        (closing-Ends calls (suc fuel) now set.1 (conn_set_state-Set before w State.closing).state))

process_answer-Ends :
    (calls : Calls) (answer : Option Answer) (c : Client) (w : World)
    → c.state ≡ State.resolving
    → Ends c.type State.resolving (process_answer calls 2 answer c w)
unfolding process_answer
process_answer-Ends calls none c w e = (refl, refl, stays e, ap is_resting e)
process_answer-Ends calls (some answer) c w e = dns_callback-Ends calls 0 answer c w

process_answer-type :
    (calls : Calls) (answer : Option Answer) (c : Client) (w : World)
    → (process_answer calls 2 answer c w).1.type ≡ c.type
unfolding process_answer
process_answer-type calls none c w = refl
process_answer-type calls (some answer) c w = (dns_callback-Ends calls 0 answer c w).1

-- What nb_gethostbyname does behind the answer leaves the direction and the state.
nb_gethostbyname-same :
    (calls : Calls) (ares : Ares) (c : Client) (w : World)
    → let r = nb_gethostbyname calls ares c w in
      let r' = process_answer calls 2 (ares.ares_gethostbyname c w) c w in
      (r.0.type ≡ r'.1.type) × (r.0.state ≡ r'.1.state)
unfolding nb_gethostbyname del_dns_event
nb_gethostbyname-same calls ares c w = (ground arith, ground arith)

pub with_ares-IsPatient : (calls : Calls) (ares : Ares) → IsPatient (with_ares calls ares)
with_ares-IsPatient calls ares c w e =
    ap is_resting (nb_gethostbyname-same calls ares c w).1
    ∙ (process_answer-Ends calls (ares.ares_gethostbyname c w) c w e).3

pub with_ares-IsQuiet :
    (calls : Calls) (ares : Ares)
    → ((c : Client) (w : World) → (answer calls c w).0.type ≡ c.type)
    → IsQuiet (with_ares calls ares)
unfolding answer
with_ares-IsQuiet calls ares keeps = (
  keeps,
  λ c w.
      let same = nb_gethostbyname-same calls ares c w in
      (
        same.0 ∙ process_answer-type calls (ares.ares_gethostbyname c w) c w,
        λ e.
            subst (Walk c.type State.resolving) (sym same.1)
              (process_answer-Ends calls (ares.ares_gethostbyname c w) c w e).2,
      ),
)

-- From each state that a connection in use has, and with nine turns for each byte or answer that the
-- socket still has to give and nine more, state_machine leaves the connection in a state that waits
-- for an event of its socket or of the resolver, read, write or resolving, or closed: with the resolver of
-- src/async_dns.cpp, whatever c-ares answers, at once or later. The callback must leave the socket's
-- unread bytes alone and the read buffer's size an unsigned int.
pub state_machine_settles :
    (calls : Calls) (ares : Ares) (fuel : ℕ) (c : Client) (w : World)
    → IsCalm calls
    → is_live c.state ≡ true
    → c.rbuf_size < 2 ^ 32
    → 9 * pending w.reads + 9 ≤ fuel
    → is_resting (state_machine (with_ares calls ares) fuel c w).1.state ≡ true
unfolding answer
state_machine_settles calls ares fuel c w calm live u32 enough =
    state_machine_rests (with_ares calls ares) fuel c w calm (with_ares-IsPatient calls ares) live
      u32 enough

-- A connection keeps to the states of its direction: one that comes is never resolved or connected, one
-- that goes out is never renewed, and neither is in a state that the machine does not handle. This holds
-- of what state_machine leaves with the resolver of src/async_dns.cpp, where it held before, whatever the
-- system and c-ares answer, at once or later, if the callback keeps the connection's direction.
pub state_machine_keeps_to_direction :
    (calls : Calls) (ares : Ares) (fuel : ℕ) (c : Client) (w : World)
    → ((c : Client) (w : World) → (answer calls c w).0.type ≡ c.type)
    → is_legal c.type c.state ≡ true
    → let r = state_machine (with_ares calls ares) fuel c w in
      (r.1.type ≡ c.type) × (is_legal r.1.type r.1.state ≡ true)
state_machine_keeps_to_direction calls ares fuel c w keeps legal =
    state_machine_keeps_direction (with_ares calls ares) fuel c w
      (with_ares-IsQuiet calls ares keeps) legal
