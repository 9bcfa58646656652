-- ===== src/Machine/Walks.antt =====
-- The turns of state_machine, src/async_threads.cpp, each along an edge of the graph of states.
use gko_pool.Prelude.{
  ℕ, ◌+◌, ◌%◌, ◌^◌, ◌≡◌, refl, sym, subst, ◌∙◌, inl, inr, arith, ◌==◌, ltb, Bool-cases,
}
use gko_pool.Prelude.Int.{pos, ltb_ℤ, pos_part}
use gko_pool.Wire.{cmd_prefix_byte, parse_cmd_head}
use gko_pool.Client.{
  Client, World, State, ConnType, conn_set_state, conn_renew, conn_client_free, conn_client_clear,
  invilid, recv_error, dispatch_recv_error, dispatch_send_error, server_internal_error,
}
use gko_pool.Transfer.{ReadResult, WriteResult, aread, awrite}
use gko_pool.Transfer.Same.{aread-same, awrite-same}
use gko_pool.Machine.Halts.{update_event-kept}
use gko_pool.Machine.{
  Turn, turn, Calls, event_call, update_event, is_active, try_dns_cache, nb_connect, on_dns_cache,
  on_connecting, on_waiting, after_aread, on_read, on_parse_header, answer, on_parse_cmd,
  after_awrite, on_write, on_renew, on_closing, step_in, state_machine,
}
use gko_pool.Machine.Loop.{AfterTurn, state_machine-keeps}
use gko_pool.Machine.Measure.{conn_set_state-Set}
use gko_pool.Machine.Graph.{
  Edge, listens, unwatched, nothing_yet, header, complete, unread, long, short, malformed, answers,
  done, unsent, sent, asked, renews, resolves, connects, unconnected, Walk, here, goes, stays,
  joins, TurnFollows, IsQuiet, conn_set_state-type, sets, closes-Follows, update_event-type,
  is_coming, is_going,
}

on_waiting-Follows :
    (t : ConnType) (nreqs : ℕ) (c : Client) (w : World)
    → c.type ≡ t
    → TurnFollows t State.waiting (on_waiting nreqs c w)
unfolding on_waiting
on_waiting-Follows t nreqs c w e =
    let (updated, c', w') = update_event c w 18 in
    let e' = update_event-type c w 18 ∙ e in
    elim (Bool-cases updated) [
      | inl b ↦ rw b (sets t State.waiting State.read c' w' e' listens)
      | inr b ↦ rw b (closes-Follows t State.waiting server_internal_error c' w' e' unwatched)
    ]

after_aread-Follows :
    (t : ConnType) (nreqs : ℕ) (r : ReadResult × Client × World)
    → (r.1.state ≡ State.read) × (r.1.type ≡ t)
    → TurnFollows t State.read (after_aread nreqs r)
unfolding after_aread
after_aread-Follows t nreqs (ReadResult.no_data_received, c, w) e =
    sets t State.read State.waiting c w e.1 nothing_yet
after_aread-Follows t nreqs (ReadResult.header_received, c, w) e =
    sets t State.read State.parse_header c w e.1 header
after_aread-Follows t nreqs (ReadResult.data_received, c, w) e =
    sets t State.read State.parse_cmd c w e.1 complete
after_aread-Follows t nreqs (ReadResult.need_more, c, w) e = (e.1, stays e.0)
after_aread-Follows t nreqs (ReadResult.error, c, w) e = elim (Bool-cases (is_active c)) [
  | inl b ↦ rw b (closes-Follows t State.read dispatch_recv_error c w e.1 unread)
  | inr b ↦ rw b (sets t State.read State.closing c w e.1 unread)
]
after_aread-Follows t nreqs (ReadResult.memory_error, c, w) e =
    closes-Follows t State.read server_internal_error c w e.1 unread
after_aread-Follows t nreqs (ReadResult.out_of_fuel, c, w) e = (e.1, stays e.0)

on_read-Follows :
    (t : ConnType) (nreqs : ℕ) (c : Client) (w : World)
    → c.state ≡ State.read
    → c.type ≡ t
    → TurnFollows t State.read (on_read nreqs c w)
unfolding on_read
on_read-Follows t nreqs c w s e =
    let same = aread-same c w in after_aread-Follows t nreqs (aread c w) (same.0 ∙ s, same.1 ∙ e)

on_parse_header-Follows :
    (t : ConnType) (nreqs : ℕ) (c : Client) (w : World)
    → c.type ≡ t
    → TurnFollows t State.parse_header (on_parse_header nreqs c w)
unfolding on_parse_header
on_parse_header-Follows t nreqs c w e =
    let msg_len = parse_cmd_head c.received in
    let c' = record c { need_read = (pos_part msg_len + cmd_prefix_byte) % 2 ^ 32 } in
    elim (Bool-cases (ltb_ℤ (pos 0) msg_len)) [
      | inl b ↦ elim (Bool-cases (ltb c'.have_read c'.need_read)) [
        | inl less ↦ rw (b, less) (sets t State.parse_header State.read c' w e long)
        | inr enough ↦ rw (b, enough) (sets t State.parse_header State.parse_cmd c' w e short)
      ]
      | inr b ↦ elim (Bool-cases (is_active c)) [
        | inl going ↦
            rw (b, going) (closes-Follows t State.parse_header dispatch_recv_error c w e malformed)
        | inr coming ↦
            rw (b, coming) (closes-Follows t State.parse_header recv_error c w e malformed)
      ]
    ]

on_parse_cmd-Follows :
    (calls : Calls) (t : ConnType) (nreqs : ℕ) (c : Client) (w : World)
    → IsQuiet calls
    → c.type ≡ t
    → TurnFollows t State.parse_cmd (on_parse_cmd calls nreqs c w)
unfolding on_parse_cmd
on_parse_cmd-Follows calls t nreqs c w quiet e =
    let (c1, w1) = answer calls c w in
    let answered = record c1 { conn_time = w1.now } in
    let (c2, w2) = conn_set_state answered w1 State.write in
    let (updated, c3, w3) = update_event c2 w2 20 in
    let failed = record c { err_no = invilid } in
    let (c4, w4) = answer calls failed w in
    let e2 = conn_set_state-type answered w1 State.write ∙ (quiet.0 c w ∙ e) in
    let e3 = update_event-type c2 w2 20 ∙ e2 in
    let wrote =
      (update_event-kept c2 w2 20).2 ∙ (conn_set_state-Set answered w1 State.write).state in
    elim (Bool-cases (is_active c)) [
      | inl b ↦ rw b (sets t State.parse_cmd State.closing c4 w4 (quiet.0 failed w ∙ e) done)
      | inr b ↦
          let edge : Edge t State.parse_cmd c3.state =
            subst (λ s. Edge t State.parse_cmd s) (sym wrote)
              (subst (λ t. Edge t State.parse_cmd State.write) (sym (is_coming c b) ∙ e) answers) in
          elim (Bool-cases updated) [
            | inr failing ↦
                rw (b, failing)
                  (closes-Follows t State.parse_cmd server_internal_error c3 w3 e3 done)
            | inl watched ↦ elim (Bool-cases (nreqs == 0)) [
              | inl last ↦ rw (b, watched, last) (e3, goes here edge)
              | inr next ↦ rw (b, watched, next) (e3, goes here edge)
            ]
          ]
    ]

after_awrite-Follows :
    (t : ConnType) (nreqs : ℕ) (r : WriteResult × Client × World)
    → (r.1.state ≡ State.write) × (r.1.type ≡ t)
    → TurnFollows t State.write (after_awrite nreqs r)
unfolding after_awrite
after_awrite-Follows t nreqs (WriteResult.data_sent, c, w) e = elim (Bool-cases (is_active c)) [
  | inl b ↦ rw b (
      sets t State.write State.read (record c { conn_time = w.now }) w e.1
        (subst (λ t. Edge t State.write State.read) (sym (is_going c b) ∙ e.1) asked))
  | inr b ↦ rw b (
      sets t State.write State.renew c w e.1
        (subst (λ t. Edge t State.write State.renew) (sym (is_coming c b) ∙ e.1) sent))
]
after_awrite-Follows t nreqs (WriteResult.sent_more, c, w) e = (e.1, stays e.0)
after_awrite-Follows t nreqs (WriteResult.no_data_sent, c, w) e =
    closes-Follows t State.write server_internal_error c w e.1 unsent
after_awrite-Follows t nreqs (WriteResult.error, c, w) e = elim (Bool-cases (is_active c)) [
  | inl b ↦ rw b (closes-Follows t State.write dispatch_send_error c w e.1 unsent)
  | inr b ↦ rw b (sets t State.write State.closing c w e.1 unsent)
]

on_write-Follows :
    (t : ConnType) (nreqs : ℕ) (c : Client) (w : World)
    → c.state ≡ State.write
    → c.type ≡ t
    → TurnFollows t State.write (on_write nreqs c w)
unfolding on_write
on_write-Follows t nreqs c w s e =
    let c' = record c { need_send = (c.need_write + cmd_prefix_byte) % 2 ^ 32 } in
    let same = awrite-same c' w in
    elim (Bool-cases (c.send_buffer == 0)) [
      | inl b ↦ rw b (closes-Follows t State.write server_internal_error c w e unsent)
      | inr b ↦ rw b (after_awrite-Follows t nreqs (awrite c' w) (same.0 ∙ s, same.1 ∙ e))
    ]

on_connecting-Follows :
    (t : ConnType) (nreqs : ℕ) (c : Client) (w : World)
    → c.type ≡ t
    → TurnFollows t State.connecting (on_connecting nreqs c w)
unfolding on_connecting nb_connect
on_connecting-Follows t nreqs c w e =
    let c' = record c { client_fd = w.sock } in
    elim (Bool-cases (ltb_ℤ w.sock (pos 0))) [
      | inl b ↦ rw b (closes-Follows t State.connecting dispatch_send_error c' w e unconnected)
      | inr b ↦ rw b (sets t State.connecting State.write c' (event_call w).1 e connects)
    ]

on_dns_cache-Follows :
    (calls : Calls) (t : ConnType) (nreqs : ℕ) (c : Client) (w : World)
    → IsQuiet calls
    → c.type ≡ t
    → TurnFollows t State.dns_cache (on_dns_cache calls nreqs c w)
unfolding on_dns_cache try_dns_cache
on_dns_cache-Follows calls t nreqs c w quiet e =
    let (c1, w1) = conn_set_state c w State.resolving in
    let asked = quiet.1 c1 w1 in
    let same = conn_set_state-type c w State.resolving ∙ e in
    (
      asked.0 ∙ same,
      joins (goes here resolves) (
          subst (λ t. Walk t State.resolving (calls.nb_gethostbyname c1 w1).0.state) same
            (asked.1 (conn_set_state-Set c w State.resolving).state)),
    )

on_closing-Follows :
    (t : ConnType) (nreqs : ℕ) (c : Client) (w : World)
    → c.state ≡ State.closing
    → c.type ≡ t
    → TurnFollows t State.closing (on_closing nreqs c w)
unfolding on_closing conn_client_free conn_client_clear
on_closing-Follows t nreqs c w s e = (ground (arith, e), stays (ground (arith, s)))

-- A turn stays in its state or follows the edges.
step_in-Follows :
    (calls : Calls) (s : State) (t : ConnType) (nreqs : ℕ) (c : Client) (w : World)
    → IsQuiet calls
    → c.state ≡ s
    → c.type ≡ t
    → TurnFollows t s (step_in calls s nreqs c w)
unfolding step_in on_renew conn_renew
step_in-Follows calls State.nouse t nreqs c w quiet s e = (e, stays s)
step_in-Follows calls State.listening t nreqs c w quiet s e = (e, stays s)
step_in-Follows calls State.waiting t nreqs c w quiet s e = on_waiting-Follows t nreqs c w e
step_in-Follows calls State.read t nreqs c w quiet s e = on_read-Follows t nreqs c w s e
step_in-Follows calls State.nread t nreqs c w quiet s e = (e, stays s)
step_in-Follows calls State.parse_header t nreqs c w quiet s e =
    on_parse_header-Follows t nreqs c w e
step_in-Follows calls State.parse_cmd t nreqs c w quiet s e =
    on_parse_cmd-Follows calls t nreqs c w quiet e
step_in-Follows calls State.write t nreqs c w quiet s e = on_write-Follows t nreqs c w s e
step_in-Follows calls State.mwrite t nreqs c w quiet s e = (e, stays s)
step_in-Follows calls State.renew t nreqs c w quiet s e =
    let r = conn_renew c w in sets t State.renew State.waiting r.0 r.1 e renews
step_in-Follows calls State.closing t nreqs c w quiet s e = on_closing-Follows t nreqs c w s e
step_in-Follows calls State.connecting t nreqs c w quiet s e = on_connecting-Follows t nreqs c w e
step_in-Follows calls State.dns_cache t nreqs c w quiet s e =
    on_dns_cache-Follows calls t nreqs c w quiet e
step_in-Follows calls State.resolving t nreqs c w quiet s e =
    let asked = quiet.1 c w in
    (
      asked.0 ∙ e,
      subst (λ t. Walk t State.resolving (calls.nb_gethostbyname c w).0.state) e (asked.1 s),
    )
step_in-Follows calls State.max_state t nreqs c w quiet s e = (e, stays s)

-- state_machine takes a connection along the edges, in its direction, whatever the system answers, where
-- the callback keeps the direction, and the resolver keeps it and the edges.
pub state_machine-Walk :
    (calls : Calls) (fuel : ℕ) (c : Client) (w : World)
    → IsQuiet calls
    → let r = state_machine calls fuel c w in (r.1.type ≡ c.type) × Walk c.type c.state r.1.state
state_machine-Walk calls fuel c w quiet =
    state_machine-keeps calls (λ d v. (d.type ≡ c.type) × Walk c.type c.state d.state)
      (λ nreqs d v so_far.
        extend (step_in calls d.state nreqs d v) d so_far
          (step_in-Follows calls d.state c.type nreqs d v quiet refl so_far.0))
      fuel c w (refl, here)
  where
    extend :
        (turn_of : Turn) (d : Client)
        → (d.type ≡ c.type) × Walk c.type c.state d.state
        → TurnFollows c.type d.state turn_of
        → AfterTurn (λ d v. (d.type ≡ c.type) × Walk c.type c.state d.state) turn_of
    extend (turn next nreqs d' v) d so_far (e, walk) = (e, joins so_far.1 walk)
