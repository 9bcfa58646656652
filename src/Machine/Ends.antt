-- ===== src/Machine/Ends.antt =====
-- The last turns of state_machine, src/async_threads.cpp, from the states connecting and closing.
use gko_pool.Prelude.{ℕ, suc, ◌≡◌, refl, sym, subst, ap, ◌∙◌, inl, inr, true, Bool-cases, arith}
use gko_pool.Prelude.Int.{pos, ltb_ℤ}
use gko_pool.Client.{
  Client, World, State, ConnType, conn_set_state, dispatch_send_error, conn_client_free,
  conn_client_clear,
}
use gko_pool.Machine.{
  Next, Calls, step_in, loop_from, state_machine, del_conn, on_closing, on_connecting, nb_connect,
  closes, event_call, ℕ,
}
use gko_pool.Machine.Closing.{loop_from_one, loop_from_on}
use gko_pool.Machine.Measure.{conn_set_state-Set}
use gko_pool.Machine.Rests.{is_resting}
use gko_pool.Machine.Graph.{
  Walk, here, goes, stays, joins, connects, unconnected, conn_set_state-type,
}

-- A loop that has ended, with the connection in a state where it waits or is closed, which it has reached
-- along the edges from a state, in its direction.
abbrev pub Ends : ConnType → State → Next × Client × World → Type 0
Ends t s r =
    (r.0 ≡ Next.stops) × (r.1.type ≡ t) × Walk t s r.1.state × (is_resting r.1.state ≡ true)

pub Ends-from :
    {t : ConnType} {s u : State} (r : Next × Client × World) → Walk t s u → Ends t u r → Ends t s r
Ends-from r walk (stopped, same, walk', rests) = (stopped, same, joins walk walk', rests)

conn_client_free-same :
    (c : Client) (w : World)
    → let r = conn_client_free c w in (r.0.type ≡ c.type) × (r.0.state ≡ c.state)
unfolding conn_client_free conn_client_clear
conn_client_free-same c w = (ground arith, ground arith)

loop_closes :
    (calls : Calls) (fuel nreqs : ℕ) (c : Client) (w : World)
    → c.state ≡ State.closing
    → Ends c.type State.closing (loop_from calls (suc fuel) nreqs c w)
unfolding step_in on_closing
loop_closes calls fuel nreqs c w e =
    let w' = record w { conn_set = del_conn c.id w.conn_set } in
    let r = conn_client_free c w' in
    let same = conn_client_free-same c w' in
    subst (Ends c.type State.closing)
      (sym (loop_from_one calls fuel nreqs c r.0 w r.1 (ap (λ s. step_in calls s nreqs c w) e)))
      (refl, same.0, stays (same.1 ∙ e), ap is_resting (same.1 ∙ e))

loop_connects :
    (calls : Calls) (fuel nreqs : ℕ) (c : Client) (w : World)
    → c.state ≡ State.connecting
    → Ends c.type State.connecting (loop_from calls (suc (suc fuel)) nreqs c w)
unfolding step_in on_connecting nb_connect closes
loop_connects calls fuel nreqs c w e =
    let c' = record c { client_fd = w.sock } in
    let w' = (event_call w).1 in
    let fine = conn_set_state c' w' State.write in
    let refused = record c' { err_no = dispatch_send_error } in
    let failed = conn_set_state refused w State.closing in
    elim (Bool-cases (ltb_ℤ w.sock (pos 0))) [
      | inr b ↦
          let wrote = (conn_set_state-Set c' w' State.write).state in
          subst (Ends c.type State.connecting)
            (sym (
              loop_from_one calls (suc fuel) nreqs c fine.0 w fine.1
                (ap (λ s. step_in calls s nreqs c w) e ∙ rw b refl)))
            (
              refl,
              conn_set_state-type c' w' State.write,
              joins (goes here connects) (stays wrote),
              ap is_resting wrote,
            )
      | inl b ↦
          let r = loop_from calls (suc fuel) nreqs failed.0 failed.1 in
          subst (Ends c.type State.connecting)
            (sym (
              loop_from_on calls (suc fuel) nreqs nreqs c failed.0 w failed.1
                (ap (λ s. step_in calls s nreqs c w) e ∙ rw b refl)))
            (Ends-from r (goes here unconnected) (
              subst (λ t. Ends t State.closing r) (conn_set_state-type refused w State.closing)
                (loop_closes calls fuel nreqs failed.0 failed.1
                  (conn_set_state-Set refused w State.closing).state)))
    ]

pub closing-Ends :
    (calls : Calls) (fuel : ℕ) (c : Client) (w : World)
    → c.state ≡ State.closing
    → Ends c.type State.closing (state_machine calls (suc fuel) c w)
unfolding state_machine
closing-Ends calls fuel c w e = loop_closes calls fuel 3 c w e

pub connecting-Ends :
    (calls : Calls) (fuel : ℕ) (c : Client) (w : World)
    → c.state ≡ State.connecting
    → Ends c.type State.connecting (state_machine calls (suc (suc fuel)) c w)
unfolding state_machine
connecting-Ends calls fuel c w e = loop_connects calls fuel 3 c w e
