-- ===== src/Machine/Rests.antt =====
-- state_machine of src/async_threads.cpp: the states in which it leaves a connection.
use gko_pool.Prelude.{
  ℕ, zero, suc, ◌+◌, ◌*◌, ◌%◌, ◌^◌, ◌≤◌, ◌<◌, ◌≡◌, refl, ap, ◌∙◌, inl, inr, Bool, true, false, ltb,
  ◌==◌, Bool-cases,
}
use gko_pool.Prelude.Int.{ltb_ℤ, pos, pos_part, neg_part}
use gko_pool.Client.{Client, World, State, conn_client_free, conn_client_clear, conn_set_state}
use gko_pool.Wire.{cmd_prefix_byte, parse_cmd_head}
use gko_pool.Transfer.{ReadResult, WriteResult, aread, awrite}
use gko_pool.Transfer.Stream.{pending}
use gko_pool.Transfer.Writing.{awrite-state}
use gko_pool.Machine.{
  Turn, turn, Next, Calls, answer, update_event, is_active, after_aread, on_read, on_waiting,
  on_connecting, on_dns_cache, on_parse_header, on_parse_cmd, after_awrite, on_write, on_renew,
  on_closing, step_in, loop_from, state_machine, try_dns_cache, nb_connect, event_call,
}
use gko_pool.Machine.Measure.{is_live, conn_set_state-Set}
use gko_pool.Machine.Halts.{IsCalm, update_event-kept, state_machine_stops}

-- The states in which a connection waits for an event, or is no more.
abbrev pub is_resting : State → Bool
is_resting State.read = true
is_resting State.write = true
is_resting State.resolving = true
is_resting State.closing = true
is_resting _ = false

-- A turn that, if it ends the loop, does so in such a state.
abbrev Rests : Turn → Type 0
Rests (turn Next.stops nreqs c w) = is_resting c.state ≡ true
Rests (turn _ nreqs c w) = Unit

-- What is asked of the resolver: it leaves a connection that is being resolved in such a state.
abbrev pub IsPatient : Calls → Type 0
IsPatient calls =
    (c : Client) (w : World)
    → c.state ≡ State.resolving
    → is_resting (calls.nb_gethostbyname c w).0.state ≡ true

on_waiting-Rests : (nreqs : ℕ) (c : Client) (w : World) → Rests (on_waiting nreqs c w)
unfolding on_waiting
on_waiting-Rests nreqs c w =
    let r = update_event c w 18 in
    elim (Bool-cases r.0) [
      | inl b ↦ rw b (ap is_resting (conn_set_state-Set r.1 r.2 State.read).state)
      | inr b ↦ rw b tt
    ]

on_connecting-Rests : (nreqs : ℕ) (c : Client) (w : World) → Rests (on_connecting nreqs c w)
unfolding on_connecting nb_connect
on_connecting-Rests nreqs c w = elim (Bool-cases (ltb_ℤ w.sock (pos 0))) [
  | inl b ↦ rw b tt
  | inr b ↦ rw b (
      ap is_resting
        (conn_set_state-Set (record c { client_fd = w.sock }) (event_call w).1 State.write).state)
]

after_aread-Rests : (nreqs : ℕ) (r : ReadResult × Client × World) → Rests (after_aread nreqs r)
unfolding after_aread
after_aread-Rests nreqs (ReadResult.no_data_received, c, w) = tt
after_aread-Rests nreqs (ReadResult.header_received, c, w) = tt
after_aread-Rests nreqs (ReadResult.data_received, c, w) = tt
after_aread-Rests nreqs (ReadResult.need_more, c, w) = tt
after_aread-Rests nreqs (ReadResult.error, c, w) = tt
after_aread-Rests nreqs (ReadResult.memory_error, c, w) = tt
after_aread-Rests nreqs (ReadResult.out_of_fuel, c, w) = tt

on_parse_header-Rests : (nreqs : ℕ) (c : Client) (w : World) → Rests (on_parse_header nreqs c w)
unfolding on_parse_header
on_parse_header-Rests nreqs c w =
    let msg_len = parse_cmd_head c.received in
    let need_read = (pos_part msg_len + cmd_prefix_byte) % 2 ^ 32 in
    elim (Bool-cases (ltb_ℤ (pos 0) msg_len)) [
      | inl a ↦ elim (Bool-cases (ltb c.have_read need_read)) [
        | inl b ↦ rw (a, b) tt
        | inr b ↦ rw (a, b) tt
      ]
      | inr a ↦ elim (Bool-cases (is_active c)) [ inl b ↦ rw (a, b) tt | inr b ↦ rw (a, b) tt ]
    ]

on_parse_cmd-Rests :
    (calls : Calls) (nreqs : ℕ) (c : Client) (w : World) → Rests (on_parse_cmd calls nreqs c w)
unfolding on_parse_cmd
on_parse_cmd-Rests calls nreqs c w =
    let r1 = answer calls c w in
    let now = record r1.0 { conn_time = r1.1.now } in
    let set = conn_set_state now r1.1 State.write in
    let r3 = update_event set.0 set.1 20 in
    let kept = update_event-kept set.0 set.1 20 in
    elim (Bool-cases (is_active c)) [
      | inl a ↦ rw a tt
      | inr a ↦ elim (Bool-cases r3.0) [
        | inl b ↦ elim (Bool-cases (nreqs == 0)) [
          | inl z ↦
              rw (a, b, z)
                (ap is_resting (kept.2 ∙ (conn_set_state-Set now r1.1 State.write).state))
          | inr z ↦ rw (a, b, z) tt
        ]
        | inr b ↦ rw (a, b) tt
      ]
    ]

after_awrite-Rests :
    (nreqs : ℕ) (g : WriteResult) (c : Client) (w : World)
    → c.state ≡ State.write
    → Rests (after_awrite nreqs (g, c, w))
unfolding after_awrite
after_awrite-Rests nreqs WriteResult.data_sent c w e = tt
after_awrite-Rests nreqs WriteResult.sent_more c w e = ap is_resting e
after_awrite-Rests nreqs WriteResult.no_data_sent c w e = tt
after_awrite-Rests nreqs WriteResult.error c w e = tt

on_write-Rests :
    (nreqs : ℕ) (c : Client) (w : World) → c.state ≡ State.write → Rests (on_write nreqs c w)
unfolding on_write
on_write-Rests nreqs c w e = elim (Bool-cases (c.send_buffer == 0)) [
  | inl b ↦ rw b tt
  | inr b ↦
      let d = record c { need_send = (c.need_write + cmd_prefix_byte) % 2 ^ 32 } in
      let r = awrite d w in rw b (after_awrite-Rests nreqs r.0 r.1 r.2 (awrite-state d w ∙ e))
]

on_closing-Rests :
    (nreqs : ℕ) (c : Client) (w : World) → c.state ≡ State.closing → Rests (on_closing nreqs c w)
unfolding on_closing conn_client_free conn_client_clear
on_closing-Rests nreqs c w e =
    elim (Bool-cases (pos_part c.client_fd + neg_part c.client_fd == 0)) [
      | inl b ↦ rw b (ap is_resting e)
      | inr b ↦ rw b (ap is_resting e)
    ]

step_in-Rests :
    (calls : Calls) (s : State) (nreqs : ℕ) (c : Client) (w : World)
    → IsPatient calls
    → c.state ≡ s
    → Rests (step_in calls s nreqs c w)
unfolding step_in on_read on_renew on_dns_cache try_dns_cache
step_in-Rests calls State.nouse nreqs c w patient e = tt
step_in-Rests calls State.listening nreqs c w patient e = tt
step_in-Rests calls State.waiting nreqs c w patient e = on_waiting-Rests nreqs c w
step_in-Rests calls State.read nreqs c w patient e = after_aread-Rests nreqs (aread c w)
step_in-Rests calls State.nread nreqs c w patient e = tt
step_in-Rests calls State.parse_header nreqs c w patient e = on_parse_header-Rests nreqs c w
step_in-Rests calls State.parse_cmd nreqs c w patient e = on_parse_cmd-Rests calls nreqs c w
step_in-Rests calls State.write nreqs c w patient e = on_write-Rests nreqs c w e
step_in-Rests calls State.mwrite nreqs c w patient e = tt
step_in-Rests calls State.renew nreqs c w patient e = tt
step_in-Rests calls State.closing nreqs c w patient e = on_closing-Rests nreqs c w e
step_in-Rests calls State.connecting nreqs c w patient e = on_connecting-Rests nreqs c w
step_in-Rests calls State.dns_cache nreqs c w patient e =
    let set = conn_set_state c w State.resolving in
    patient set.0 set.1 (conn_set_state-Set c w State.resolving).state
step_in-Rests calls State.resolving nreqs c w patient e = patient c w e
step_in-Rests calls State.max_state nreqs c w patient e = tt

loop_from_rests :
    (calls : Calls) (fuel nreqs : ℕ) (c : Client) (w : World)
    → IsPatient calls
    → (loop_from calls fuel nreqs c w).0 ≡ Next.stops
    → is_resting (loop_from calls fuel nreqs c w).1.state ≡ true
unfolding loop_from
loop_from_rests calls zero nreqs c w patient e = cc
loop_from_rests calls (suc fuel) nreqs c w patient e =
    next (step_in calls c.state nreqs c w) (step_in-Rests calls c.state nreqs c w patient refl)
      (λ nreqs' d v. loop_from_rests calls fuel nreqs' d v patient) e
  where
    after : Turn → Next × Client × World
    after (turn Next.goes_on nreqs' c' w') = loop_from calls fuel nreqs' c' w'
    after (turn Next.stops nreqs' c' w') = (Next.stops, c', w')
    after (turn Next.aborts nreqs' c' w') = (Next.aborts, c', w')

    next :
        (t : Turn)
        → Rests t
        → ((nreqs' : ℕ) (d : Client) (v : World)
            → (loop_from calls fuel nreqs' d v).0 ≡ Next.stops
            → is_resting (loop_from calls fuel nreqs' d v).1.state ≡ true)
        → let r = elim t as (λ _. Next × Client × World) [
          | turn next nreqs' c' w' ↦ elim next [
            | Next.goes_on ↦ loop_from calls fuel nreqs' c' w'
            | Next.stops ↦ (Next.stops, c', w')
            | Next.aborts ↦ (Next.aborts, c', w')
          ]
        ] in
          r.0 ≡ Next.stops → is_resting r.1.state ≡ true
    next (turn Next.goes_on nreqs' d v) f rest e = rest nreqs' d v e
    next (turn Next.stops nreqs' d v) f rest e = f
    next (turn Next.aborts nreqs' d v) f rest e = cc

-- From each state that a connection in use has, and with nine turns for each byte or answer that the
-- socket still has to give and nine more, state_machine leaves the connection in a state that waits
-- for an event of its socket or of the resolver, read, write or resolving, or closed. The callback
-- must leave the socket's unread bytes alone and the read buffer's size an unsigned int, and the
-- resolver a connection that is being resolved in such a state.
pub state_machine_rests :
    (calls : Calls) (fuel : ℕ) (c : Client) (w : World)
    → IsCalm calls
    → IsPatient calls
    → is_live c.state ≡ true
    → c.rbuf_size < 2 ^ 32
    → 9 * pending w.reads + 9 ≤ fuel
    → is_resting (state_machine calls fuel c w).1.state ≡ true
unfolding state_machine
state_machine_rests calls fuel c w calm patient live u32 enough =
    loop_from_rests calls fuel 3 c w patient
      (state_machine_stops calls fuel c w calm live u32 enough)
