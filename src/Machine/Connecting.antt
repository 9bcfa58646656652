-- ===== src/Machine/Connecting.antt =====
-- The state connecting of state_machine in src/async_threads.cpp.
use gko_pool.Prelude.{
  ℕ, suc, ◌≡◌, ◌≢◌, refl, subst, ap, ◌∙◌, sym, inl, inr, arith, true, false, ◌∷◌, if◌then◌else◌,
  Bool-cases,
}
use gko_pool.Prelude.Int.{ℤ, pos, negsuc, ltb_ℤ}
use gko_pool.Client.{Client, World, State, conn_set_state, dispatch_send_error}
use gko_pool.Machine.{
  Next, Calls, closes, event_call, on_connecting, nb_connect, step_in, loop_from, state_machine,
}
use gko_pool.Machine.Closing.{is_member, loop_from_one, loop_from_on, state_machine_closes}
use gko_pool.Machine.Measure.{conn_set_state-Set}

pub conn_set_state-same :
    (c : Client) (w : World) (state : State)
    → let r = conn_set_state c w state in
      (r.0.client_fd ≡ c.client_fd)
      × (r.0.client_addr ≡ c.client_addr)
      × (r.0.dns_events ≡ c.dns_events)
      × (r.0.id ≡ c.id)
      × (r.1.closed ≡ w.closed)
      × (r.1.conn_set ≡ w.conn_set)
      × (r.1.sock ≡ w.sock)
unfolding conn_set_state
conn_set_state-same c w state = (
  ground arith,
  ground arith,
  ground arith,
  ground arith,
  ground arith,
  ground arith,
  ground arith,
)

-- A loop that has left its connection to the event that its socket can be written to, or has freed it
-- where there is no socket.
abbrev pub Connects : Client → World → Next × Client × World → Type 0
Connects c w r =
    if ltb_ℤ w.sock (pos 0)
    then (r.0 ≡ Next.stops)
      × (r.1.conn_time ≡ 0)
      × (r.2.closed ≡ w.sock ∷ w.closed)
      × (is_member c.id r.2.conn_set ≡ false)
    else (r.0 ≡ Next.stops)
      × (r.1.state ≡ State.write)
      × (r.1.client_fd ≡ w.sock)
      × (r.1.client_addr ≡ c.client_addr)
      × (r.1.dns_events ≡ c.dns_events)

not_zero : (n : ℤ) → ltb_ℤ n (pos 0) ≡ true → n ≢ pos 0
not_zero (pos n) l e = ground arith
not_zero (negsuc n) l e = cc

pub state_machine-Connects :
    (calls : Calls) (fuel : ℕ) (c : Client) (w : World)
    → c.state ≡ State.connecting
    → Connects c w (state_machine calls (suc (suc fuel)) c w)
unfolding state_machine step_in on_connecting nb_connect closes
state_machine-Connects calls fuel c w e =
    let c' = record c { client_fd = w.sock } in
    let w' = (event_call w).1 in
    let fine = conn_set_state c' w' State.write in
    let failed = conn_set_state (record c' { err_no = dispatch_send_error }) w State.closing in
    elim (Bool-cases (ltb_ℤ w.sock (pos 0))) [
      | inr b ↦
          let same = conn_set_state-same c' w' State.write in
          rw
            (
              b,
              loop_from_one calls (suc fuel) 3 c fine.0 w fine.1
                  (ap (λ s. step_in calls s 3 c w) e ∙ rw b refl),
            )
            (refl, (conn_set_state-Set c' w' State.write).state, same.0, same.1, same.2)
      | inl b ↦
          let same =
            conn_set_state-same (record c' { err_no = dispatch_send_error }) w State.closing in
          let closed =
            state_machine_closes calls fuel failed.0 failed.1
              (conn_set_state-Set (record c' { err_no = dispatch_send_error }) w
                State.closing).state
              (λ z. not_zero w.sock b (sym same.0 ∙ z)) in
          rw
            (
              b,
              loop_from_on calls (suc fuel) 3 3 c failed.0 w failed.1
                  (ap (λ s. step_in calls s 3 c w) e ∙ rw b refl),
            )
            (
              closed.0,
              closed.1,
              closed.3 ∙ (ap (λ fd. fd ∷ failed.1.closed) same.0 ∙ ap (λ l. w.sock ∷ l) same.4),
              subst
                  (λ id.
                    is_member id (loop_from calls (suc fuel) 3 failed.0 failed.1).2.conn_set
                    ≡ false)
                  same.3 closed.5,
            )
    ]
