-- ===== src/Machine.antt =====
-- The state machine of a connection: state_machine of src/async_threads.cpp with the calls that it
-- makes to src/async_clnt.cpp and src/async_dns.cpp.
pub mod Measure
pub mod Halts
pub mod Rests
pub mod Loop
pub mod Keeping
pub mod Graph
pub mod Walks
pub mod Directions
pub mod Closing
pub mod Connecting
pub mod Ends
pub mod Guards
mod Tests
use gko_pool.Prelude.{
  ℕ, zero, suc, ◌+◌, ◌-◌, ◌*◌, ◌%◌, ◌^◌, Bool, true, false, Option, none, some, List, [], ◌∷◌, ltb,
  leb, ◌==◌, if◌then◌else◌, not,
}
use gko_pool.Prelude.Int.{ℤ, pos, negsuc, ltb_ℤ, pos_part, ◌+ℤ◌}
use gko_pool.Wire.{cmd_prefix_byte, parse_cmd_head}
use gko_pool.Client.{
  Client, World, State, ConnType, conn_client_free, conn_renew, conn_set_state, invilid, recv_error,
  dispatch_send_error, dispatch_recv_error, server_internal_error, dns_resolve_fail,
}
use gko_pool.Transfer.{ReadResult, WriteResult, aread, awrite}

-- What one turn of the `while` does: the loop goes on, it stops, or an assertion fails.
pub data Next : Type 0 where
  goes_on stops aborts : Next

-- A turn's result: with it, nreqs, the client and the worker.
pub data Turn : Type 0 where
  turn : Next → ℕ → Client → World → Turn

-- DNS_EXPIRE_TIME and DNSCacheVal
abbrev pub dns_expire_time : ℤ
dns_expire_time = negsuc 0

pub record DnsCacheVal : Type 0 where
  pub expire_time : ℤ
  pub addr : ℕ

-- What the state machine calls: the server's callback, none where it is not set, the resolver, and what
-- the cache holds for a host's name. The resolver calls the state machine in turn, and is defined
-- behind it: Resolver.with_ares puts it here.
pub record Calls : Type 0 where
  pub on_data_callback : Option (Client → World → Client × World)
  pub nb_gethostbyname : Client → World → Client × World
  pub fetched : Client → World → Option DnsCacheVal

-- gko_pool::try_dns_cache; the entry that has expired is deleted by the dictionary, outside the model.
pub try_dns_cache : Calls → Client → World → Client × ℤ
try_dns_cache calls c w =
    if not (ltb_ℤ (pos 0) dns_expire_time) then (c, negsuc 0) else elim (calls.fetched c w) [
      | none ↦ (c, negsuc 0)
      | some val ↦
          if ltb_ℤ val.expire_time (pos w.now)
          then (c, negsuc 0)
          else (record c { client_addr = val.addr }, pos 0)
    ]

-- gko_pool::nb_connect: the socket is the client's descriptor, also where there is none.
pub nb_connect : Client → World → Client × ℤ
nb_connect c w = (record c { client_fd = w.sock }, w.sock)

-- EV_READ | EV_PERSIST and EV_WRITE | EV_PERSIST
abbrev ev_read_persist : ℕ
ev_read_persist = 18

abbrev ev_write_persist : ℕ
ev_write_persist = 20

-- One event call, event_del or event_add: whether it succeeds, and the answers left.
abbrev pub next_event : World → List Bool → Bool × World
next_event w [] = (true, w)
next_event w (b ∷ events) = (b, record w { events = events })

abbrev pub event_call : World → Bool × World
event_call w = next_event w w.events

-- gko_pool::update_event
pub update_event : Client → World → ℕ → Bool × Client × World
update_event c w new_flags =
    let (deleted, w1) = event_call w in
    let (added, w2) = event_call w1 in
    if c.ev_flags == new_flags
    then (true, c, w)
    else if deleted
    then (added, record c { ev_flags = new_flags }, w2)
    else (false, c, w1)

-- Setting err_no and then the state closing.
pub closes : ℤ → Client → World → Client × World
closes err_no c w = conn_set_state (record c { err_no = err_no }) w State.closing

abbrev pub is_active : Client → Bool
is_active c = elim c.type [ ConnType.coming ↦ false | ConnType.active ↦ true ]

-- Going on, or stopping, in the state that a call has set.
abbrev pub on : ℕ → Client × World → Turn
on nreqs (c, w) = turn Next.goes_on nreqs c w

abbrev pub stop : ℕ → Client × World → Turn
stop nreqs (c, w) = turn Next.stops nreqs c w

-- case conn_dns_cache, which falls through to conn_resolving where the cache has nothing
pub on_dns_cache : Calls → ℕ → Client → World → Turn
on_dns_cache calls nreqs c w =
    let (c', ret) = try_dns_cache calls c w in
    let (c1, w1) = conn_set_state c' w State.resolving in
    if not (ltb_ℤ ret (pos 0))
    then on nreqs (conn_set_state c' w State.connecting)
    else stop nreqs (calls.nb_gethostbyname c1 w1)

-- case conn_connecting. `event_add` failing is logged only.
pub on_connecting : ℕ → Client → World → Turn
on_connecting nreqs c w =
    let (c', connect_ret) = nb_connect c w in
    let (added, w') = event_call w in
    if ltb_ℤ connect_ret (pos 0)
    then on nreqs (closes dispatch_send_error c' w)
    else if not (ltb_ℤ c'.client_fd (pos 0))
    then stop nreqs (conn_set_state c' w' State.write)
    else on nreqs (closes dispatch_send_error c' w)

-- case conn_waiting
pub on_waiting : ℕ → Client → World → Turn
on_waiting nreqs c w =
    let (updated, c', w') = update_event c w ev_read_persist in
    if updated
    then stop nreqs (conn_set_state c' w' State.read)
    else on nreqs (closes server_internal_error c' w')

-- The switch on the result of aread.
pub after_aread : ℕ → ReadResult × Client × World → Turn
after_aread nreqs (ReadResult.no_data_received, c, w) = on nreqs (conn_set_state c w State.waiting)
after_aread nreqs (ReadResult.header_received, c, w) =
    on nreqs (conn_set_state c w State.parse_header)
after_aread nreqs (ReadResult.data_received, c, w) = on nreqs (conn_set_state c w State.parse_cmd)
after_aread nreqs (ReadResult.need_more, c, w) = on nreqs (record c { conn_time = w.now }, w)
after_aread nreqs (ReadResult.error, c, w) =
    on nreqs
      (if is_active c then closes dispatch_recv_error c w else conn_set_state c w State.closing)
after_aread nreqs (ReadResult.memory_error, c, w) = on nreqs (closes server_internal_error c w)
after_aread nreqs (ReadResult.out_of_fuel, c, w) = turn Next.aborts nreqs c w

-- case conn_read
pub on_read : ℕ → Client → World → Turn
on_read nreqs c w = after_aread nreqs (aread c w)

-- case conn_parse_header
pub on_parse_header : ℕ → Client → World → Turn
on_parse_header nreqs c w =
    let msg_len = parse_cmd_head c.received in
    let c' = record c { need_read = (pos_part msg_len + cmd_prefix_byte) % 2 ^ 32 } in
    if ltb_ℤ (pos 0) msg_len
    then (if ltb c'.have_read c'.need_read
        then on nreqs (conn_set_state c' w State.read)
        else on nreqs (conn_set_state c' w State.parse_cmd))
    else if is_active c
    then on nreqs (closes dispatch_recv_error c w)
    else on nreqs (closes recv_error c w)

-- The call of the server's callback, where it is set.
unfoldable pub answer : Calls → Client → World → Client × World
answer calls c w = elim calls.on_data_callback [ none ↦ (c, w) | some f ↦ f c w ]

-- case conn_parse_cmd; at nreqs 0 the loop stops, so that the count is never negative when read.
pub on_parse_cmd : Calls → ℕ → Client → World → Turn
on_parse_cmd calls nreqs c w =
    let (c1, w1) = answer calls c w in
    let (c2, w2) = conn_set_state (record c1 { conn_time = w1.now }) w1 State.write in
    let (updated, c3, w3) = update_event c2 w2 ev_write_persist in
    let (c4, w4) = answer calls (record c { err_no = invilid }) w in
    if is_active c
    then on nreqs (conn_set_state c4 w4 State.closing)
    else if not updated
    then on nreqs (closes server_internal_error c3 w3)
    else if nreqs == 0
    then stop nreqs (c3, w3)
    else on (nreqs - 1) (c3, w3)

-- The switch on the result of awrite.
pub after_awrite : ℕ → WriteResult × Client × World → Turn
after_awrite nreqs (WriteResult.data_sent, c, w) = on nreqs (
    if is_active c
    then conn_set_state (record c { conn_time = w.now }) w State.read
    else conn_set_state c w State.renew)
after_awrite nreqs (WriteResult.sent_more, c, w) = stop nreqs (c, w)
after_awrite nreqs (WriteResult.no_data_sent, c, w) = on nreqs (closes server_internal_error c w)
after_awrite nreqs (WriteResult.error, c, w) =
    on nreqs
      (if is_active c then closes dispatch_send_error c w else conn_set_state c w State.closing)

-- case conn_write; the header is written over the buffer's own first bytes, which are not modelled.
pub on_write : ℕ → Client → World → Turn
on_write nreqs c w =
    if c.send_buffer == 0
    then on nreqs (closes server_internal_error c w)
    else after_awrite nreqs
        (awrite (record c { need_send = (c.need_write + cmd_prefix_byte) % 2 ^ 32 }) w)

-- case conn_state_renew
pub on_renew : ℕ → Client → World → Turn
on_renew nreqs c w = let (c', w') = conn_renew c w in on nreqs (conn_set_state c' w' State.waiting)

-- thread_worker::add_conn and del_conn on the set of connections
pub del_conn : ℕ → List ℕ → List ℕ
del_conn c_id [] = []
del_conn c_id (x ∷ conn_set) =
    let rest = del_conn c_id conn_set in if x == c_id then rest else x ∷ rest

pub add_conn : ℕ → List ℕ → List ℕ
add_conn c_id conn_set = c_id ∷ del_conn c_id conn_set

-- case conn_closing
pub on_closing : ℕ → Client → World → Turn
on_closing nreqs c w =
    let (c', w', ret) = conn_client_free c (record w { conn_set = del_conn c.id w.conn_set }) in
    stop nreqs (c', w')

-- One turn of the loop of gko_pool::state_machine, by the client's state. The states listening,
-- nread and mwrite only log.
pub step_in : Calls → State → ℕ → Client → World → Turn
step_in calls State.nouse nreqs c w = turn Next.aborts nreqs c w
step_in calls State.listening nreqs c w = on nreqs (c, w)
step_in calls State.waiting nreqs c w = on_waiting nreqs c w
step_in calls State.read nreqs c w = on_read nreqs c w
step_in calls State.nread nreqs c w = on nreqs (c, w)
step_in calls State.parse_header nreqs c w = on_parse_header nreqs c w
step_in calls State.parse_cmd nreqs c w = on_parse_cmd calls nreqs c w
step_in calls State.write nreqs c w = on_write nreqs c w
step_in calls State.mwrite nreqs c w = on nreqs (c, w)
step_in calls State.renew nreqs c w = on_renew nreqs c w
step_in calls State.closing nreqs c w = on_closing nreqs c w
step_in calls State.connecting nreqs c w = on_connecting nreqs c w
step_in calls State.dns_cache nreqs c w = on_dns_cache calls nreqs c w
step_in calls State.resolving nreqs c w = stop nreqs (calls.nb_gethostbyname c w)
step_in calls State.max_state nreqs c w = turn Next.aborts nreqs c w

-- The loop; `goes_on` as its result is fuel that has run out.
pub loop_from : Calls → ℕ → ℕ → Client → World → Next × Client × World
loop_from calls zero nreqs c w = (Next.goes_on, c, w)
loop_from calls (suc fuel) nreqs c w = elim (step_in calls c.state nreqs c w) [
  | turn next nreqs' c' w' ↦ elim next [
    | Next.goes_on ↦ loop_from calls fuel nreqs' c' w'
    | Next.stops ↦ (Next.stops, c', w')
    | Next.aborts ↦ (Next.aborts, c', w')
  ]
]

pub state_machine : Calls → ℕ → Client → World → Next × Client × World
state_machine calls fuel c w = loop_from calls fuel 3 c w
