-- ===== src/Pool.antt =====
-- The pool of connections and of worker threads: src/async_conn.cpp, src/async_clnt.cpp and the
-- calls of src/async_threads.cpp that hand a connection over and clean up.
pub mod Slots
pub mod Cleaning
pub mod Keeping
pub mod Accept
mod Tests
use gko_pool.Prelude.{
  ℕ, zero, suc, ◌+◌, ◌-◌, ◌*◌, ◌%◌, ◌^◌, Bool, true, false, Option, none, some, List, [], ◌∷◌, ltb,
  leb, ◌==◌, if◌then◌else◌, not, ◌||◌, ◌&&◌,
}
use gko_pool.Prelude.Int.{ℤ, pos, negsuc, ltb_ℤ, pos_part, neg_part, ◌+ℤ◌}
use gko_pool.Client.{
  Client, World, State, ConnType, conn_client_clear, conn_client_free, conn_buffer_init, succ,
  server_internal_error, dispatch_recv_timeout, dispatch_send_timeout, dns_resolve_fail,
}
use gko_pool.Machine.{Calls, Next, state_machine, add_conn, del_conn}

-- The part of struct gko_pool that the calls below share. A list is indexed by its slot's number; a
-- slot without a client is `none`, and a worker's entry tells whether its thread has started. The
-- worker's own state, World, is that of the worker that a client belongs to.
pub record Pool : Type 0 where
  pub connlimit : ℕ
  pub g_client_list : ℕ → Option Client
  pub g_curr_conn : ℕ
  pub g_total_connect : ℤ
  pub worker_thread : ℕ
  pub g_worker_list : ℕ → Bool
  pub g_curr_thread : ℕ

-- The list with a client in a slot.
abbrev pub put : (ℕ → Option Client) → ℕ → Client → ℕ → Option Client
put list id c i = if i == id then some c else list i

-- A slot's client after `memset`.
abbrev zeroed : Client
zeroed = record {
  id = 0;
  worker_id = 0;
  client_fd = pos 0;
  task_id = pos 0;
  sub_task_id = pos 0;
  client_addr = 0;
  client_port = 0;
  conn_time = 0;
  state = State.nouse;
  err_no = pos 0;
  type = ConnType.coming;
  ev_flags = 0;
  r_buf_arena_id = some 0;
  read_buffer = 0;
  received = [];
  rbuf_size = 0;
  need_read = 0;
  have_read = 0;
  w_buf_arena_id = some 0;
  send_buffer = 0;
  write_buffer = 0;
  wbuf_size = 0;
  need_send = 0;
  need_write = 0;
  have_write = 0;
  dns_events = 0;
}

-- !g_client_list[tmp] || 0 == g_client_list[tmp]->conn_time
abbrev pub is_free : Option Client → Bool
is_free none = true
is_free (some c) = c.conn_time == 0

-- A loop that looks at the slots from the one after `curr`, around the end, for one that a test
-- accepts. Both finders are such a loop.
pub find_next : ℕ → ℕ → ℕ → (ℕ → Bool) → ℕ → Option ℕ
find_next zero limit curr accept i = none
find_next (suc rounds) limit curr accept i =
    let rest = find_next rounds limit curr accept (i + 1) in
    if accept ((i + curr + 1) % limit) then some ((i + curr + 1) % limit) else rest

abbrev client_at : Option Client → Client
client_at none = zeroed
client_at (some c) = c

-- The slot that a search for a free one gives is cleared and marked as used; none is -1.
pub use_slot : Pool → World → Option ℕ → Pool × World × Option ℕ
use_slot p w none = (p, w, none)
use_slot p w (some tmp) =
    let (c, w') = conn_client_clear (client_at (p.g_client_list tmp)) w in
    (
      record p {
        g_client_list = put p.g_client_list tmp (record c { conn_time = w.now });
        g_curr_conn = tmp;
      },
      w',
      some tmp,
    )

-- gko_pool::conn_client_list_find_free, without its lock
pub conn_client_list_find_free : Pool → World → Pool × World × Option ℕ
conn_client_list_find_free p w =
    use_slot p w
      (find_next p.connlimit p.connlimit p.g_curr_conn (λ i. is_free (p.g_client_list i)) 0)

-- What gko_pool::add_new_conn_client does with the slot that it has found.
pub fill_found : ℤ → ℕ → Pool → World → Option Client → Pool × World × Option Client
fill_found client_fd i p w none = (p, w, none)
fill_found client_fd i p w (some tmp) =
    let c = record tmp { id = i; client_fd = client_fd } in
    let p1 = record p { g_client_list = put p.g_client_list i c } in
    let (p2, w2) : Pool × World =
      if neg_part client_fd == 1
      then (record p1 { g_total_connect = p1.g_total_connect +ℤ pos 1 }, w)
      else (p1, record w { g_total_clients = w.g_total_clients +ℤ pos 1 }) in
    (p2, w2, some c)

pub fill_slot : ℤ → Pool × World × Option ℕ → Pool × World × Option Client
fill_slot client_fd (p, w, none) = (p, w, none)
fill_slot client_fd (p, w, some i) = fill_found client_fd i p w (p.g_client_list i)

-- gko_pool::add_new_conn_client
pub add_new_conn_client : Pool → World → ℤ → Pool × World × Option Client
add_new_conn_client p w client_fd = fill_slot client_fd (conn_client_list_find_free p w)

-- The slot that a search for a thread gives. A full round without a thread leaves the last slot's
-- number; none is -1.
pub use_thread : Pool → Option ℕ → Pool × Option ℕ
use_thread p (some tmp) = (record p { g_curr_thread = tmp }, some tmp)
use_thread p none =
    if p.worker_thread == 0
    then (p, none)
    else (p, some ((p.worker_thread - 1 + p.g_curr_thread + 1) % p.worker_thread))

-- gko_pool::thread_list_find_next, without its lock
pub thread_list_find_next : Pool → Pool × Option ℕ
thread_list_find_next p =
    use_thread p (find_next p.worker_thread p.worker_thread p.g_curr_thread p.g_worker_list 0)

-- The two gko_pool::thread_worker_dispatch: the number of a client is written to the pipe of the worker
-- that is found; the worker and the number, none where there is no worker or the write fails, which is
-- only logged. `written` is whether the write succeeds.
pub thread_worker_dispatch : Pool → ℕ → Bool → Pool × Option (ℕ × ℕ)
thread_worker_dispatch p c_id written =
    let (p', worker_id) = thread_list_find_next p in
    elim worker_id [ none ↦ (p', none) | some id ↦ (p', if written then some (id, c_id) else none) ]

-- gko_pool::thread_worker_process, on the worker `worker_id`: none where an assertion of
-- conn_buffer_init fails. `fuel` bounds the turns of the state machine.
pub thread_worker_process : Calls → ℕ → ℕ → ℕ → Client → World → Option (Next × Client × World)
thread_worker_process calls fuel worker_id c_id c w =
    let w' = record w { conn_set = add_conn c_id w.conn_set } in
    let c' = record c { worker_id = worker_id } in
    elim c.type [
      | ConnType.coming ↦ elim (conn_buffer_init c' w') [
        | none ↦ none
        | some (c1, w1) ↦ some (Next.stops, record c1 { state = State.waiting }, w1)
      ]
      | ConnType.active ↦ some (state_machine calls fuel (record c' { state = State.dns_cache }) w')
    ]

-- NET_TIMEOUT
abbrev pub net_timeout : ℕ
net_timeout = 60

abbrev pub is_timed_out : ℕ → Client → Bool
is_timed_out now c = not (c.conn_time == 0) && ltb (c.conn_time + net_timeout) now

-- A client that timed out is reported, with the error, where there is a handler, and freed.
abbrev pub reported_and_freed : ℤ → Client → World → Bool × Client × World
reported_and_freed err_no c w =
    let w' =
      if w.has_report_handler then record w { reports = (c.id, err_no) ∷ w.reports } else w in
    let (c1, w1, ret) = conn_client_free (record c { err_no = err_no }) w' in (true, c1, w1)

abbrev freed : Client → World → Bool × Client × World
freed c w = let (c1, w1, ret) = conn_client_free c w in (true, c1, w1)

-- What clean_conn_timeout does to one client that timed out: whether it is put on the list of those
-- to delete, with the client and the worker.
pub clean_one : ConnType → State → Client → World → Bool × Client × World
clean_one ConnType.coming State.waiting c w = freed c w
clean_one ConnType.coming State.read c w = freed c w
clean_one ConnType.coming State.write c w = freed c w
clean_one ConnType.active State.read c w = reported_and_freed dispatch_recv_timeout c w
clean_one ConnType.active State.write c w = reported_and_freed dispatch_send_timeout c w
clean_one ConnType.active State.connecting c w = reported_and_freed dispatch_send_timeout c w
clean_one ConnType.active State.resolving c w =
    reported_and_freed dns_resolve_fail (record c { dns_events = 0 }) w
clean_one type state c w = (false, c, w)

-- The first loop of gko_pool::clean_conn_timeout: timeout_cnt, the ids on the list, and what changes.
pub clean_each : ℕ → List ℕ → (ℕ → Option Client) → World → ℕ × List ℕ × (ℕ → Option Client) × World
clean_each now [] list w = (0, [], list, w)
clean_each now (conn_id ∷ conn_set) list w = elim (list conn_id) [
  | none ↦ clean_each now conn_set list w
  | some conn ↦
      let (listed, c, w') = clean_one conn.type conn.state conn w in
      let (cnt, ids, list', w1) = clean_each now conn_set (put list conn_id c) w' in
      let skip = clean_each now conn_set list w in
      if is_timed_out now conn
      then (cnt + 1, (if listed then conn.id ∷ ids else ids), list', w1)
      else skip
]

-- The second loop deletes the ids on the list.
pub del_conns : List ℕ → List ℕ → List ℕ
del_conns [] conn_set = conn_set
del_conns (id ∷ ids) conn_set = del_conns ids (del_conn id conn_set)

-- gko_pool::clean_conn_timeout on one worker: timeout_cnt, the clients and the worker.
pub clean_conn_timeout : ℕ → (ℕ → Option Client) → World → ℕ × (ℕ → Option Client) × World
clean_conn_timeout now list w =
    let (cnt, ids, list', w') = clean_each now w.conn_set list w in
    (cnt, list', record w' { conn_set = del_conns ids w'.conn_set })

-- gko_pool::make_active_connect up to the pipe to the worker: the result, with the id dispatched. The
-- host's name and the message's bytes are not modelled; `fail` is FAIL.
abbrev fail : ℤ
fail = pos 1

pub make_active_connect : Pool → World → ℕ → ℕ → ℤ → ℤ → ℕ → Option (ℤ × Option ℕ × Pool × World)
make_active_connect p w port len task_id sub_task_id wrote =
    let (p1, w1, conn) = add_new_conn_client p w (negsuc 0) in
    let (p2, worker_id) = thread_list_find_next p1 in
    elim conn [
      | none ↦ some (server_internal_error, none, p1, w1)
      | some c ↦ elim worker_id [
        | none ↦ some (fail, none, p2, w1)
        | some id ↦ elim (conn_buffer_init (record c { worker_id = id }) w1) [
          | none ↦ none
          | some (c1, w2) ↦ some (
            succ,
            some c.id,
            record p2 {
              g_client_list = put p2.g_client_list c.id (record c1 {
                client_port = port;
                type = ConnType.active;
                task_id = task_id;
                sub_task_id = sub_task_id;
                need_write = len;
                have_write = wrote;
              });
            },
            w2,
          )
        ]
      ]
    ]
