-- ===== src/Machine/Halts.antt =====
-- state_machine of src/async_threads.cpp: its loop ends.
use gko_pool.Prelude.{
  ℕ, zero, suc, ◌+◌, ◌*◌, ◌%◌, ◌^◌, ◌≤◌, ◌<◌, ◌≡◌, refl, ap, ◌∙◌, inl, inr, arith, Bool, true, List,
  [], ◌∷◌, ltb, ◌==◌, Bool-cases,
}
use gko_pool.Client.{Client, World, State, conn_set_state, conn_renew, invilid}
use gko_pool.Transfer.{ReadResult, WriteResult, aread, awrite}
use gko_pool.Transfer.Writing.{awrite_kept}
use gko_pool.Transfer.Stream.{pending}
use gko_pool.Transfer.Ending.{Stops, aread-Stops}
use gko_pool.Machine.{
  Turn, turn, Next, Calls, answer, update_event, is_active, after_aread, on_read, on_waiting,
  on_connecting, on_dns_cache, on_parse_header, on_parse_cmd, after_awrite, on_write, on_renew,
  on_closing, step_in, loop_from, state_machine, nb_connect, cmd_prefix_byte, parse_cmd_head, ltb_ℤ,
  pos_part, pos, event_call, next_event, try_dns_cache,
}
use gko_pool.Machine.Measure.{
  rank, is_live, measure, Falls, conn_set_state-Set, on_set-Falls, on_closes-Falls,
}

-- What is asked of the server's callback: it leaves the socket's unread bytes alone and the read
-- buffer's size an unsigned int.
abbrev pub IsCalm : Calls → Type 0
IsCalm calls =
    (c : Client) (w : World)
    → c.rbuf_size < 2 ^ 32
    → (pending (answer calls c w).1.reads ≤ pending w.reads)
      × ((answer calls c w).0.rbuf_size < 2 ^ 32)

after_aread-Falls :
    (m nreqs base : ℕ) (c : Client) (r : ReadResult × Client × World)
    → c.state ≡ State.read
    → m ≡ 9 * base + 3
    → Stops base c r
    → Falls m (after_aread nreqs r)
unfolding after_aread
after_aread-Falls m nreqs base c (ReadResult.no_data_received, d, w) s e o =
    on_set-Falls m nreqs d w State.waiting (omega (arith, o.answered)) refl o.u32
after_aread-Falls m nreqs base c (ReadResult.header_received, d, w) s e o =
    on_set-Falls m nreqs d w State.parse_header (omega (arith, o.progress refl)) refl o.u32
after_aread-Falls m nreqs base c (ReadResult.data_received, d, w) s e o =
    on_set-Falls m nreqs d w State.parse_cmd (omega (arith, o.progress refl)) refl o.u32
after_aread-Falls m nreqs base c (ReadResult.need_more, d, w) s e o =
    (omega (arith, o.progress refl, ap rank (o.state ∙ s)), ap is_live (o.state ∙ s), o.u32)
after_aread-Falls m nreqs base c (ReadResult.error, d, w) s e o = elim (Bool-cases (is_active d)) [
  | inl a ↦ rw a (on_closes-Falls m nreqs _ d w (omega (arith, o.answered)) o.u32)
  | inr a ↦ rw a (on_set-Falls m nreqs d w State.closing (omega (arith, o.answered)) refl o.u32)
]
after_aread-Falls m nreqs base c (ReadResult.memory_error, d, w) s e o =
    on_closes-Falls m nreqs _ d w (omega (arith, o.answered)) o.u32
after_aread-Falls m nreqs base c (ReadResult.out_of_fuel, d, w) s e o = absurd (o.known refl)

after_awrite-Falls :
    (m nreqs : ℕ) (g : WriteResult) (c : Client) (w : World)
    → 9 * pending w.reads + 4 ≤ m
    → c.rbuf_size < 2 ^ 32
    → Falls m (after_awrite nreqs (g, c, w))
unfolding after_awrite
after_awrite-Falls m nreqs WriteResult.data_sent c w e u32 = elim (Bool-cases (is_active c)) [
  | inl a ↦
      rw a
        (on_set-Falls m nreqs (record c { conn_time = w.now }) w State.read (omega arith) refl u32)
  | inr a ↦ rw a (on_set-Falls m nreqs c w State.renew (omega arith) refl u32)
]
after_awrite-Falls m nreqs WriteResult.sent_more c w e u32 = tt
after_awrite-Falls m nreqs WriteResult.no_data_sent c w e u32 =
    on_closes-Falls m nreqs _ c w (omega arith) u32
after_awrite-Falls m nreqs WriteResult.error c w e u32 = elim (Bool-cases (is_active c)) [
  | inl a ↦ rw a (on_closes-Falls m nreqs _ c w (omega arith) u32)
  | inr a ↦ rw a (on_set-Falls m nreqs c w State.closing (omega arith) refl u32)
]

on_write-Falls :
    (m nreqs : ℕ) (c : Client) (w : World)
    → 9 * pending w.reads + 4 ≤ m
    → c.rbuf_size < 2 ^ 32
    → Falls m (on_write nreqs c w)
unfolding on_write
on_write-Falls m nreqs c w e u32 = elim (Bool-cases (c.send_buffer == 0)) [
  | inl b ↦ rw b (on_closes-Falls m nreqs _ c w (omega arith) u32)
  | inr b ↦
      let d = record c { need_send = (c.need_write + cmd_prefix_byte) % 2 ^ 32 } in
      let r = awrite d w in
      let kept = awrite_kept d w in
      rw b (
        after_awrite-Falls m nreqs r.0 r.1 r.2 (omega (arith, ap pending kept.1, e))
          (omega (arith, kept.0, u32)))
]

next_event-reads : (w : World) (events : List Bool) → (next_event w events).1.reads ≡ w.reads
next_event-reads w [] = refl
next_event-reads w (b ∷ events) = refl

-- update_event keeps what a turn depends on.
pub update_event-kept :
    (c : Client) (w : World) (flags : ℕ)
    → ((update_event c w flags).1.rbuf_size ≡ c.rbuf_size)
      × ((update_event c w flags).2.reads ≡ w.reads)
      × ((update_event c w flags).1.state ≡ c.state)
unfolding update_event
update_event-kept c w flags = elim (Bool-cases (c.ev_flags == flags)) [
  | inl e ↦ rw e (refl, refl, refl)
  | inr e ↦ elim (Bool-cases (event_call w).0) [
    | inl d ↦
        rw (e, d)
          (
            refl,
            next_event-reads (event_call w).1 (event_call w).1.events ∙ next_event-reads w w.events,
            refl,
          )
    | inr d ↦ rw (e, d) (refl, next_event-reads w w.events, refl)
  ]
]

on_waiting-Falls :
    (m nreqs : ℕ) (c : Client) (w : World)
    → 9 * pending w.reads < m
    → c.rbuf_size < 2 ^ 32
    → Falls m (on_waiting nreqs c w)
unfolding on_waiting
on_waiting-Falls m nreqs c w e u32 =
    let kept = update_event-kept c w 18 in
    let r = update_event c w 18 in
    elim (Bool-cases r.0) [
      | inl b ↦ rw b tt
      | inr b ↦ rw b (
          on_closes-Falls m nreqs _ r.1 r.2 (omega (arith, ap pending kept.1, e))
            (omega (arith, kept.0, u32)))
    ]

on_connecting-Falls :
    (m nreqs : ℕ) (c : Client) (w : World)
    → 9 * pending w.reads < m
    → c.rbuf_size < 2 ^ 32
    → Falls m (on_connecting nreqs c w)
unfolding on_connecting nb_connect
on_connecting-Falls m nreqs c w e u32 = elim (Bool-cases (ltb_ℤ w.sock (pos 0))) [
  | inl b ↦ rw b (on_closes-Falls m nreqs _ (record c { client_fd = w.sock }) w e u32)
  | inr b ↦ rw b tt
]

on_parse_header-Falls :
    (m nreqs : ℕ) (c : Client) (w : World)
    → 9 * pending w.reads + 6 ≤ m
    → c.rbuf_size < 2 ^ 32
    → Falls m (on_parse_header nreqs c w)
unfolding on_parse_header
on_parse_header-Falls m nreqs c w e u32 =
    let msg_len = parse_cmd_head c.received in
    let d = record c { need_read = (pos_part msg_len + cmd_prefix_byte) % 2 ^ 32 } in
    elim (Bool-cases (ltb_ℤ (pos 0) msg_len)) [
      | inl a ↦ elim (Bool-cases (ltb d.have_read d.need_read)) [
        | inl b ↦ rw (a, b) (on_set-Falls m nreqs d w State.read (omega arith) refl u32)
        | inr b ↦ rw (a, b) (on_set-Falls m nreqs d w State.parse_cmd (omega arith) refl u32)
      ]
      | inr a ↦ elim (Bool-cases (is_active c)) [
        | inl b ↦ rw (a, b) (on_closes-Falls m nreqs _ c w (omega arith) u32)
        | inr b ↦ rw (a, b) (on_closes-Falls m nreqs _ c w (omega arith) u32)
      ]
    ]

on_parse_cmd-Falls :
    (m nreqs : ℕ) (calls : Calls) (c : Client) (w : World)
    → IsCalm calls
    → 9 * pending w.reads + 5 ≤ m
    → c.rbuf_size < 2 ^ 32
    → Falls m (on_parse_cmd calls nreqs c w)
unfolding on_parse_cmd
on_parse_cmd-Falls m nreqs calls c w calm e u32 =
    let r1 = answer calls c w in
    let now = record r1.0 { conn_time = r1.1.now } in
    let set = conn_set_state now r1.1 State.write in
    let is_set = conn_set_state-Set now r1.1 State.write in
    let r3 = update_event set.0 set.1 20 in
    let kept = update_event-kept set.0 set.1 20 in
    let active = record c { err_no = invilid } in
    let r4 = answer calls active w in
    elim (Bool-cases (is_active c)) [
      | inl a ↦ rw a (
          on_set-Falls m nreqs r4.0 r4.1 State.closing (omega (arith, (calm active w u32).0, e))
            refl (calm active w u32).1)
      | inr a ↦ elim (Bool-cases r3.0) [
        | inl b ↦ elim (Bool-cases (nreqs == 0)) [
          | inl z ↦ rw (a, b, z) tt
          | inr z ↦
              rw (a, b, z)
                (
                  omega (
                    arith,
                    ap rank (kept.2 ∙ is_set.state),
                    ap pending (kept.1 ∙ is_set.reads),
                    (calm c w u32).0,
                    e,
                  ),
                  ap is_live (kept.2 ∙ is_set.state),
                  omega (arith, kept.0, is_set.size, (calm c w u32).1),
                )
        ]
        | inr b ↦
            rw (a, b)
              (on_closes-Falls m nreqs _ r3.1 r3.2
                (omega (arith, ap pending (kept.1 ∙ is_set.reads), (calm c w u32).0, e))
                (omega (arith, kept.0, is_set.size, (calm c w u32).1)))
      ]
    ]

on_dns_cache-Falls :
    (m nreqs : ℕ) (calls : Calls) (c : Client) (w : World) → Falls m (on_dns_cache calls nreqs c w)
unfolding on_dns_cache try_dns_cache
on_dns_cache-Falls m nreqs calls c w = tt

on_renew-Falls :
    (m nreqs : ℕ) (c : Client) (w : World)
    → 9 * pending w.reads + 2 ≤ m
    → Falls m (on_renew nreqs c w)
unfolding on_renew conn_renew
on_renew-Falls m nreqs c w e =
    on_set-Falls m nreqs (conn_renew c w).0 (conn_renew c w).1 State.waiting (omega arith) refl
      (omega arith)

-- A turn from a state of a connection in use ends the loop or leaves less to do.
step_in-Falls :
    (nreqs : ℕ) (calls : Calls) (s : State) (c : Client) (w : World)
    → IsCalm calls
    → c.state ≡ s
    → is_live s ≡ true
    → c.rbuf_size < 2 ^ 32
    → Falls (measure s w) (step_in calls s nreqs c w)
unfolding step_in on_read
step_in-Falls nreqs calls State.nouse c w calm e live u32 = cc
step_in-Falls nreqs calls State.listening c w calm e live u32 = cc
step_in-Falls nreqs calls State.nread c w calm e live u32 = cc
step_in-Falls nreqs calls State.mwrite c w calm e live u32 = cc
step_in-Falls nreqs calls State.max_state c w calm e live u32 = cc
step_in-Falls nreqs calls State.waiting c w calm e live u32 =
    on_waiting-Falls _ nreqs c w (omega arith) u32
step_in-Falls nreqs calls State.read c w calm e live u32 =
    after_aread-Falls _ nreqs (pending w.reads) c (aread c w) e refl (aread-Stops c w u32)
step_in-Falls nreqs calls State.parse_header c w calm e live u32 =
    on_parse_header-Falls _ nreqs c w (omega arith) u32
step_in-Falls nreqs calls State.parse_cmd c w calm e live u32 =
    on_parse_cmd-Falls _ nreqs calls c w calm (omega arith) u32
step_in-Falls nreqs calls State.write c w calm e live u32 =
    on_write-Falls _ nreqs c w (omega arith) u32
step_in-Falls nreqs calls State.renew c w calm e live u32 = on_renew-Falls _ nreqs c w (omega arith)
step_in-Falls nreqs calls State.closing c w calm e live u32 = unfold on_closing in tt
step_in-Falls nreqs calls State.connecting c w calm e live u32 =
    on_connecting-Falls _ nreqs c w (omega arith) u32
step_in-Falls nreqs calls State.dns_cache c w calm e live u32 = on_dns_cache-Falls _ nreqs calls c w
step_in-Falls nreqs calls State.resolving c w calm e live u32 = tt

loop_from_stops :
    (calls : Calls) (fuel nreqs : ℕ) (c : Client) (w : World)
    → IsCalm calls
    → is_live c.state ≡ true
    → c.rbuf_size < 2 ^ 32
    → measure c.state w < fuel
    → (loop_from calls fuel nreqs c w).0 ≡ Next.stops
unfolding loop_from
loop_from_stops calls zero nreqs c w calm live u32 enough = absurd (omega arith)
loop_from_stops calls (suc fuel) nreqs c w calm live u32 enough =
    next (step_in calls c.state nreqs c w)
      (step_in-Falls nreqs calls c.state c w calm refl live u32)
      (λ nreqs' d v l h. loop_from_stops calls fuel nreqs' d v calm l h)
  where
    next :
        (t : Turn)
        → Falls (measure c.state w) t
        → ((nreqs' : ℕ) (d : Client) (v : World)
            → is_live d.state ≡ true
            → d.rbuf_size < 2 ^ 32
            → measure d.state v < fuel
            → (loop_from calls fuel nreqs' d v).0 ≡ Next.stops)
        → (elim t as (λ _. Next × Client × World) [
          | turn next nreqs' c' w' ↦ elim next [
            | Next.goes_on ↦ loop_from calls fuel nreqs' c' w'
            | Next.stops ↦ (Next.stops, c', w')
            | Next.aborts ↦ (Next.aborts, c', w')
          ]
        ]).0
          ≡ Next.stops
    next (turn Next.goes_on nreqs' d v) (less, l, h) rest = rest nreqs' d v l h (omega arith)
    next (turn Next.stops nreqs' d v) f rest = refl
    next (turn Next.aborts nreqs' d v) f rest = absurd f

-- From each state that a connection in use has, state_machine ends, whatever the socket, the event
-- library, the resolver and the allocator answer, and no assertion on the state fails: nine turns
-- for each byte or answer that the socket still has to give and nine more are enough. The callback
-- must leave the socket's unread bytes alone and the read buffer's size an unsigned int.
pub state_machine_stops :
    (calls : Calls) (fuel : ℕ) (c : Client) (w : World)
    → IsCalm calls
    → is_live c.state ≡ true
    → c.rbuf_size < 2 ^ 32
    → 9 * pending w.reads + 9 ≤ fuel
    → (state_machine calls fuel c w).0 ≡ Next.stops
unfolding state_machine
state_machine_stops calls fuel c w calm live u32 enough =
    loop_from_stops calls fuel 3 c w calm live u32 (omega (arith, rank_bound c.state, enough))
  where
    rank_bound : (s : State) → rank s < 9
    rank_bound State.nouse = omega arith
    rank_bound State.listening = omega arith
    rank_bound State.waiting = omega arith
    rank_bound State.read = omega arith
    rank_bound State.nread = omega arith
    rank_bound State.parse_header = omega arith
    rank_bound State.parse_cmd = omega arith
    rank_bound State.write = omega arith
    rank_bound State.mwrite = omega arith
    rank_bound State.renew = omega arith
    rank_bound State.closing = omega arith
    rank_bound State.connecting = omega arith
    rank_bound State.dns_cache = omega arith
    rank_bound State.resolving = omega arith
    rank_bound State.max_state = omega arith
