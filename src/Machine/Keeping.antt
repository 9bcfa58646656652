-- ===== src/Machine/Keeping.antt =====
-- The blocks of a connection through the turns of state_machine, src/async_threads.cpp.
use gko_pool.Prelude.{
  ℕ, ◌+◌, ◌%◌, ◌^◌, ◌≡◌, refl, inl, inr, arith, Bool, List, [], ◌∷◌, ◌==◌, ltb, Bool-cases,
}
use gko_pool.Prelude.Int.{ℤ, pos, ltb_ℤ}
use gko_pool.Client.{
  Client, World, State, conn_set_state, conn_renew, invilid, dispatch_send_error,
  dispatch_recv_error, server_internal_error, recv_error,
}
use gko_pool.Client.Keeping.{
  Owned, Spares, Spares-Owned, conn_set_state-Spares, conn_client_free-Owned, conn_renew-Owned,
}
use gko_pool.Transfer.{ReadResult, WriteResult, aread, awrite}
use gko_pool.Transfer.Keeping.{aread-Owned, awrite-Spares}
use gko_pool.Machine.Loop.{AfterTurn, state_machine-keeps}
use gko_pool.Machine.{
  Turn, Calls, next_event, event_call, update_event, closes, is_active, try_dns_cache, nb_connect,
  on_dns_cache, on_connecting, on_waiting, after_aread, on_read, on_parse_header, answer,
  on_parse_cmd, after_awrite, on_write, on_renew, on_closing, step_in, state_machine,
  cmd_prefix_byte, parse_cmd_head, del_conn, pos_part,
}

-- A callback that leaves the connection's blocks, their addresses and the allocator as they are, and a
-- resolver that neither loses nor shares a block.
abbrev pub IsSparing : Calls → Type 0
IsSparing calls =
    ((c : Client) (w : World) → Spares c w ((answer calls c w).0) ((answer calls c w).1))
    × ((c : Client) (w : World) (others : List ℕ)
        → Owned c w others
        → Owned ((calls.nb_gethostbyname c w).0) ((calls.nb_gethostbyname c w).1) others)

abbrev TurnOwned : List ℕ → Turn → Type 0
TurnOwned others = AfterTurn (λ c w. Owned c w others)

set-Owned :
    (c : Client) (w : World) (state : State) (others : List ℕ)
    → Owned c w others
    → Owned ((conn_set_state c w state).0) ((conn_set_state c w state).1) others
set-Owned c w state others o =
    Spares-Owned c w ((conn_set_state c w state).0) ((conn_set_state c w state).1) others
      (conn_set_state-Spares c w state) o

closes-Owned :
    (err_no : ℤ) (c : Client) (w : World) (others : List ℕ)
    → Owned c w others
    → Owned ((closes err_no c w).0) ((closes err_no c w).1) others
unfolding closes
closes-Owned err_no c w others o = set-Owned (record c { err_no = err_no }) w State.closing others o

next_event-mem : (w : World) (events : List Bool) → (next_event w events).1.mem ≡ w.mem
next_event-mem w [] = refl
next_event-mem w (b ∷ events) = refl

update_event-Spares :
    (c : Client) (w : World) (flags : ℕ)
    → Spares c w ((update_event c w flags).1) ((update_event c w flags).2)
unfolding update_event
update_event-Spares c w flags =
    let one = next_event-mem w w.events in
    let two = next_event-mem (event_call w).1 (event_call w).1.events in
    (ground arith, ground arith, ground arith, ground arith, ground (arith, one, two))

on_waiting-Owned :
    (nreqs : ℕ) (c : Client) (w : World) (others : List ℕ)
    → Owned c w others
    → TurnOwned others (on_waiting nreqs c w)
unfolding on_waiting
on_waiting-Owned nreqs c w others o =
    let (updated, c', w') = update_event c w 18 in
    let o' = Spares-Owned c w c' w' others (update_event-Spares c w 18) o in
    elim (Bool-cases updated) [
      | inl e ↦ rw e (set-Owned c' w' State.read others o')
      | inr e ↦ rw e (closes-Owned server_internal_error c' w' others o')
    ]

after_aread-Owned :
    (nreqs : ℕ) (r : ReadResult × Client × World) (others : List ℕ)
    → Owned (r.1) (r.2) others
    → TurnOwned others (after_aread nreqs r)
unfolding after_aread
after_aread-Owned nreqs (ReadResult.no_data_received, c, w) others o =
    set-Owned c w State.waiting others o
after_aread-Owned nreqs (ReadResult.header_received, c, w) others o =
    set-Owned c w State.parse_header others o
after_aread-Owned nreqs (ReadResult.data_received, c, w) others o =
    set-Owned c w State.parse_cmd others o
after_aread-Owned nreqs (ReadResult.need_more, c, w) others o = o
after_aread-Owned nreqs (ReadResult.error, c, w) others o = elim (Bool-cases (is_active c)) [
  | inl e ↦ rw e (closes-Owned dispatch_recv_error c w others o)
  | inr e ↦ rw e (set-Owned c w State.closing others o)
]
after_aread-Owned nreqs (ReadResult.memory_error, c, w) others o =
    closes-Owned server_internal_error c w others o
after_aread-Owned nreqs (ReadResult.out_of_fuel, c, w) others o = o

on_read-Owned :
    (nreqs : ℕ) (c : Client) (w : World) (others : List ℕ)
    → Owned c w others
    → TurnOwned others (on_read nreqs c w)
unfolding on_read
on_read-Owned nreqs c w others o =
    after_aread-Owned nreqs (aread c w) others (aread-Owned c w others o)

on_parse_header-Owned :
    (nreqs : ℕ) (c : Client) (w : World) (others : List ℕ)
    → Owned c w others
    → TurnOwned others (on_parse_header nreqs c w)
unfolding on_parse_header
on_parse_header-Owned nreqs c w others o =
    let msg_len = parse_cmd_head c.received in
    let c' = record c { need_read = (pos_part msg_len + cmd_prefix_byte) % 2 ^ 32 } in
    elim (Bool-cases (ltb_ℤ (pos 0) msg_len)) [
      | inl e ↦ elim (Bool-cases (ltb c'.have_read c'.need_read)) [
        | inl less ↦ rw (e, less) (set-Owned c' w State.read others o)
        | inr enough ↦ rw (e, enough) (set-Owned c' w State.parse_cmd others o)
      ]
      | inr e ↦ elim (Bool-cases (is_active c)) [
        | inl active ↦ rw (e, active) (closes-Owned dispatch_recv_error c w others o)
        | inr coming ↦ rw (e, coming) (closes-Owned recv_error c w others o)
      ]
    ]

on_parse_cmd-Owned :
    (calls : Calls) (nreqs : ℕ) (c : Client) (w : World) (others : List ℕ)
    → IsSparing calls
    → Owned c w others
    → TurnOwned others (on_parse_cmd calls nreqs c w)
unfolding on_parse_cmd
on_parse_cmd-Owned calls nreqs c w others sparing o =
    let (c1, w1) = answer calls c w in
    let o1 = Spares-Owned c w c1 w1 others (sparing.0 c w) o in
    let (c2, w2) = conn_set_state (record c1 { conn_time = w1.now }) w1 State.write in
    let o2 = set-Owned (record c1 { conn_time = w1.now }) w1 State.write others o1 in
    let (updated, c3, w3) = update_event c2 w2 20 in
    let o3 = Spares-Owned c2 w2 c3 w3 others (update_event-Spares c2 w2 20) o2 in
    let failed = record c { err_no = invilid } in
    let (c4, w4) = answer calls failed w in
    let o4 = Spares-Owned failed w c4 w4 others (sparing.0 failed w) o in
    elim (Bool-cases (is_active c)) [
      | inl e ↦ rw e (set-Owned c4 w4 State.closing others o4)
      | inr e ↦ elim (Bool-cases updated) [
        | inr failing ↦ rw (e, failing) (closes-Owned server_internal_error c3 w3 others o3)
        | inl done ↦ elim (Bool-cases (nreqs == 0)) [
          | inl last ↦ rw (e, done, last) o3
          | inr more ↦ rw (e, done, more) o3
        ]
      ]
    ]

after_awrite-Owned :
    (nreqs : ℕ) (r : WriteResult × Client × World) (others : List ℕ)
    → Owned (r.1) (r.2) others
    → TurnOwned others (after_awrite nreqs r)
unfolding after_awrite
after_awrite-Owned nreqs (WriteResult.data_sent, c, w) others o = elim (Bool-cases (is_active c)) [
  | inl e ↦ rw e (set-Owned (record c { conn_time = w.now }) w State.read others o)
  | inr e ↦ rw e (set-Owned c w State.renew others o)
]
after_awrite-Owned nreqs (WriteResult.sent_more, c, w) others o = o
after_awrite-Owned nreqs (WriteResult.no_data_sent, c, w) others o =
    closes-Owned server_internal_error c w others o
after_awrite-Owned nreqs (WriteResult.error, c, w) others o = elim (Bool-cases (is_active c)) [
  | inl e ↦ rw e (closes-Owned dispatch_send_error c w others o)
  | inr e ↦ rw e (set-Owned c w State.closing others o)
]

on_write-Owned :
    (nreqs : ℕ) (c : Client) (w : World) (others : List ℕ)
    → Owned c w others
    → TurnOwned others (on_write nreqs c w)
unfolding on_write
on_write-Owned nreqs c w others o =
    let c' = record c { need_send = (c.need_write + cmd_prefix_byte) % 2 ^ 32 } in
    let r = awrite c' w in
    elim (Bool-cases (c.send_buffer == 0)) [
      | inl e ↦ rw e (closes-Owned server_internal_error c w others o)
      | inr e ↦ rw e (
          after_awrite-Owned nreqs r others
            (Spares-Owned c' w r.1 r.2 others (awrite-Spares c' w) o))
    ]

on_renew-Owned :
    (nreqs : ℕ) (c : Client) (w : World) (others : List ℕ)
    → Owned c w others
    → TurnOwned others (on_renew nreqs c w)
unfolding on_renew
on_renew-Owned nreqs c w others o =
    let (c', w') = conn_renew c w in
    set-Owned c' w' State.waiting others (conn_renew-Owned c w others o)

on_closing-Owned :
    (nreqs : ℕ) (c : Client) (w : World) (others : List ℕ)
    → Owned c w others
    → TurnOwned others (on_closing nreqs c w)
unfolding on_closing
on_closing-Owned nreqs c w others o =
    conn_client_free-Owned c (record w { conn_set = del_conn c.id w.conn_set }) others o

on_connecting-Owned :
    (nreqs : ℕ) (c : Client) (w : World) (others : List ℕ)
    → Owned c w others
    → TurnOwned others (on_connecting nreqs c w)
unfolding on_connecting nb_connect
on_connecting-Owned nreqs c w others o =
    let c' = record c { client_fd = w.sock } in
    let w' = (event_call w).1 in
    let o' : Owned c' w' others = rw (next_event-mem w w.events) o in
    elim (Bool-cases (ltb_ℤ w.sock (pos 0))) [
      | inl e ↦ rw e (closes-Owned dispatch_send_error c' w others o)
      | inr e ↦ rw e (set-Owned c' w' State.write others o')
    ]

try_dns_cache-Spares :
    (calls : Calls) (c : Client) (w : World) → Spares c w ((try_dns_cache calls c w).0) w
unfolding try_dns_cache
try_dns_cache-Spares calls c w = (refl, refl, refl, refl, refl)

on_dns_cache-Owned :
    (calls : Calls) (nreqs : ℕ) (c : Client) (w : World) (others : List ℕ)
    → IsSparing calls
    → Owned c w others
    → TurnOwned others (on_dns_cache calls nreqs c w)
unfolding on_dns_cache
on_dns_cache-Owned calls nreqs c w others sparing o =
    let (c', ret) = try_dns_cache calls c w in
    let o' = Spares-Owned c w c' w others (try_dns_cache-Spares calls c w) o in
    let (c1, w1) = conn_set_state c' w State.resolving in
    let o1 = set-Owned c' w State.resolving others o' in
    elim (Bool-cases (ltb_ℤ ret (pos 0))) [
      | inr e ↦ rw e (set-Owned c' w State.connecting others o')
      | inl e ↦ rw e (sparing.1 c1 w1 others o1)
    ]

step_in-Owned :
    (calls : Calls) (state : State) (nreqs : ℕ) (c : Client) (w : World) (others : List ℕ)
    → IsSparing calls
    → Owned c w others
    → TurnOwned others (step_in calls state nreqs c w)
unfolding step_in
step_in-Owned calls State.nouse nreqs c w others sparing o = o
step_in-Owned calls State.listening nreqs c w others sparing o = o
step_in-Owned calls State.waiting nreqs c w others sparing o = on_waiting-Owned nreqs c w others o
step_in-Owned calls State.read nreqs c w others sparing o = on_read-Owned nreqs c w others o
step_in-Owned calls State.nread nreqs c w others sparing o = o
step_in-Owned calls State.parse_header nreqs c w others sparing o =
    on_parse_header-Owned nreqs c w others o
step_in-Owned calls State.parse_cmd nreqs c w others sparing o =
    on_parse_cmd-Owned calls nreqs c w others sparing o
step_in-Owned calls State.write nreqs c w others sparing o = on_write-Owned nreqs c w others o
step_in-Owned calls State.mwrite nreqs c w others sparing o = o
step_in-Owned calls State.renew nreqs c w others sparing o = on_renew-Owned nreqs c w others o
step_in-Owned calls State.closing nreqs c w others sparing o = on_closing-Owned nreqs c w others o
step_in-Owned calls State.connecting nreqs c w others sparing o =
    on_connecting-Owned nreqs c w others o
step_in-Owned calls State.dns_cache nreqs c w others sparing o =
    on_dns_cache-Owned calls nreqs c w others sparing o
step_in-Owned calls State.resolving nreqs c w others sparing o = sparing.1 c w others o
step_in-Owned calls State.max_state nreqs c w others sparing o = o

-- state_machine leaves the connection with the blocks that it has, and the others with theirs.
pub state_machine-Owned :
    (calls : Calls) (fuel : ℕ) (c : Client) (w : World) (others : List ℕ)
    → IsSparing calls
    → Owned c w others
    → Owned ((state_machine calls fuel c w).1) ((state_machine calls fuel c w).2) others
state_machine-Owned calls fuel c w others sparing o =
    state_machine-keeps calls (λ c w. Owned c w others)
      (λ nreqs c w. step_in-Owned calls c.state nreqs c w others sparing) fuel c w o
