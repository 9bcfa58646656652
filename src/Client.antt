-- ===== src/Client.antt =====
-- One connection: struct conn_client of src/async_pool.h with the operations that reset it, in
-- src/async_conn.cpp, and the worker and the operating system that these calls meet.
pub mod Buffers
pub mod Keeping
use gko_pool.Prelude.{
  ℕ, ◌+◌, ◌-◌, ◌*◌, Bool, true, false, ◌&&◌, not, Option, none, some, List, [], ◌∷◌, ◌++◌, ltb,
  ◌==◌, if◌then◌else◌,
}
use gko_pool.Prelude.Int.{ℤ, pos, negsuc, pos_part, neg_part, ◌-ℤ◌, ltb_ℤ}
use gko_pool.Wire.{cmd_prefix_byte}
use gko_pool.Alloc.{Alloc, get_block, free_block, id2addr}

-- enum conn_states
pub data State : Type 0 where
  nouse listening waiting read nread parse_header parse_cmd write mwrite renew closing : State
  connecting dns_cache resolving max_state : State

-- enum conn_type
pub data ConnType : Type 0 where
  coming active : ConnType

-- The values of enum error_no that the connections use.
abbrev pub invilid : ℤ
invilid = negsuc 0

abbrev pub succ : ℤ
succ = pos 0

abbrev pub recv_error : ℤ
recv_error = pos 50

abbrev pub dispatch_send_timeout : ℤ
dispatch_send_timeout = pos 231

abbrev pub dispatch_recv_timeout : ℤ
dispatch_recv_timeout = pos 221

abbrev pub dispatch_send_error : ℤ
dispatch_send_error = pos 261

abbrev pub dispatch_recv_error : ℤ
dispatch_recv_error = pos 251

abbrev pub server_internal_error : ℤ
server_internal_error = pos 511

abbrev pub dns_resolve_fail : ℤ
dns_resolve_fail = pos 611

-- RBUF_SZ and WBUF_SZ
abbrev pub rbuf_sz : ℕ
rbuf_sz = 4096

abbrev pub wbuf_sz : ℕ
wbuf_sz = 4096

-- struct conn_client. A buffer is its address, 0 for NULL; `received` is what the first `have_read`
-- bytes of the read buffer hold. `need_send` is the source's __need_write, `send_buffer` its
-- __write_buffer.
pub record Client : Type 0 where
  pub id : ℕ
  pub worker_id : ℕ
  pub client_fd : ℤ
  pub task_id : ℤ
  pub sub_task_id : ℤ
  pub client_addr : ℕ
  pub client_port : ℕ
  pub conn_time : ℕ
  pub state : State
  pub err_no : ℤ
  pub type : ConnType
  pub ev_flags : ℕ
  pub r_buf_arena_id : Option ℕ
  pub read_buffer : ℕ
  pub received : List ℕ
  pub rbuf_size : ℕ
  pub need_read : ℕ
  pub have_read : ℕ
  pub w_buf_arena_id : Option ℕ
  pub send_buffer : ℕ
  pub write_buffer : ℕ
  pub wbuf_size : ℕ
  pub need_send : ℕ
  pub need_write : ℕ
  pub have_write : ℕ
  pub dns_events : ℕ

-- What one `read` finds at a socket: bytes that have come, the end of the stream, nothing yet, or an
-- error. What one `send` does: it takes some bytes, none, would block, or fails.
pub data Recv : Type 0 where
  bytes : List ℕ → Recv
  retry : Recv
  broken : Recv

pub data Send : Type 0 where
  takes : ℕ → Send
  retry : Send
  broken : Send

-- What a worker's calls act on: its allocator and its set of connections, the pool's count, the
-- descriptors closed and the reports made, and the answers that the system still has to give. An
-- empty list of answers stands for a socket that would block, and for calls that succeed.
pub record World : Type 0 where
  pub mem : Alloc
  pub conn_set : List ℕ
  pub g_total_clients : ℤ
  pub closed : List ℤ
  pub has_report_handler : Bool
  pub reports : List (ℕ × ℤ)
  pub reads : List Recv
  pub sends : List Send
  pub events : List Bool
  pub memalign : ℕ
  pub malloc : ℕ
  pub sock : ℤ
  pub now : ℕ

-- A buffer goes back to the allocator if it came from there, and to `free` if not.
pub give_back : Alloc → Option ℕ → ℕ → Alloc
give_back mem arena_id buffer = if buffer == 0 then mem else free_block mem arena_id

-- The arena's number after that: INVILID_BLOCK where a block was given back.
pub arena_after : Option ℕ → ℕ → Option ℕ
arena_after arena_id buffer = if buffer == 0 then arena_id else none

-- gko_pool::conn_client_clear, with its `event_del` and `del_dns_event`. The mark that the slot is
-- unused, `conn_time`, is reset last.
unfoldable pub conn_client_clear : Client → World → Client × World
conn_client_clear c w =
    let mem = give_back w.mem c.r_buf_arena_id c.read_buffer in
    let mem' = give_back mem c.w_buf_arena_id c.send_buffer in
    (
      record c {
        client_fd = pos 0;
        client_addr = 0;
        client_port = 0;
        err_no = succ;
        r_buf_arena_id = arena_after c.r_buf_arena_id c.read_buffer;
        read_buffer = 0;
        received = [];
        rbuf_size = rbuf_sz;
        have_read = 0;
        need_read = cmd_prefix_byte;
        w_buf_arena_id = arena_after c.w_buf_arena_id c.send_buffer;
        send_buffer = 0;
        wbuf_size = wbuf_sz - cmd_prefix_byte;
        have_write = 0;
        need_send = cmd_prefix_byte;
        need_write = 0;
        dns_events = 0;
        conn_time = 0;
      },
      record w { mem = mem' },
    )

-- gko_pool::conn_client_free; the result is 0, or -1 for a client with no descriptor.
unfoldable pub conn_client_free : Client → World → Client × World × ℤ
conn_client_free c w =
    let (c', w') = conn_client_clear c w in
    if pos_part c.client_fd + neg_part c.client_fd == 0 then (c, w, negsuc 0) else (
      c',
      record w' { closed = c.client_fd ∷ w.closed; g_total_clients = w.g_total_clients -ℤ pos 1 },
      pos 0,
    )

-- gko_pool::conn_buffer_init up to its assertions, which `none` stands for: without a block for
-- each buffer the program stops.
pub with_buffers : Client → World → Alloc → Option ℕ → Option ℕ → Option (Client × World)
with_buffers c w mem none w_id = none
with_buffers c w mem (some r) none = none
with_buffers c w mem (some r) (some s) = some (
  record c {
    err_no = invilid;
    r_buf_arena_id = some r;
    w_buf_arena_id = some s;
    read_buffer = id2addr mem (some r);
    received = [];
    rbuf_size = rbuf_sz;
    have_read = 0;
    need_read = cmd_prefix_byte;
    send_buffer = id2addr mem (some s);
    write_buffer = id2addr mem (some s) + cmd_prefix_byte;
    wbuf_size = wbuf_sz - cmd_prefix_byte;
    have_write = 0;
    need_send = cmd_prefix_byte;
    need_write = 0;
  },
  record w { mem = mem },
)

pub conn_buffer_init : Client → World → Option (Client × World)
conn_buffer_init c w =
    let (mem, r_id) = get_block w.mem w.memalign in
    let (mem', w_id) = get_block mem w.memalign in with_buffers c w mem' r_id w_id

-- gko_pool::conn_renew. The blocks are not checked here: a failure leaves a NULL buffer.
unfoldable pub conn_renew : Client → World → Client × World
conn_renew c w =
    let mem = give_back w.mem c.r_buf_arena_id c.read_buffer in
    let (mem1, r_id) = get_block mem w.memalign in
    let mem2 = give_back mem1 c.w_buf_arena_id c.send_buffer in
    let (mem3, w_id) = get_block mem2 w.memalign in
    (
      record c {
        conn_time = w.now;
        err_no = succ;
        task_id = negsuc 0;
        sub_task_id = negsuc 0;
        r_buf_arena_id = r_id;
        read_buffer = id2addr mem1 r_id;
        received = [];
        rbuf_size = rbuf_sz;
        have_read = 0;
        need_read = cmd_prefix_byte;
        w_buf_arena_id = w_id;
        send_buffer = id2addr mem3 w_id;
        write_buffer = id2addr mem3 w_id + cmd_prefix_byte;
        wbuf_size = wbuf_sz - cmd_prefix_byte;
        have_write = 0;
        need_send = cmd_prefix_byte;
        need_write = 0;
      },
      record w { mem = mem3 },
    )

-- The values of enum conn_states.
abbrev pub code : State → ℕ
code State.nouse = 0
code State.listening = 1
code State.waiting = 2
code State.read = 3
code State.nread = 4
code State.parse_header = 5
code State.parse_cmd = 6
code State.write = 7
code State.mwrite = 8
code State.renew = 9
code State.closing = 10
code State.connecting = 101
code State.dns_cache = 102
code State.resolving = 103
code State.max_state = 104

abbrev is_negative : ℤ → Bool
is_negative n = ltb_ℤ n (pos 0)

-- Whether a change to `closing` is reported: a task and a sub-task are set and so is the result.
abbrev pub is_reported : Client → Bool
is_reported c =
    not (is_negative c.task_id) && not (is_negative c.sub_task_id) && not (neg_part c.err_no == 1)

-- gko_pool::conn_set_state
unfoldable pub conn_set_state : Client → World → State → Client × World
conn_set_state c w state =
    let c' = record c { state = state } in
    if code state == code c.state then (c, w) else (
      c',
      if code state == 10 && is_reported c
          then (if w.has_report_handler
              then record w { reports = (c.id, c.err_no) ∷ w.reports }
              else w)
          else w,
    )
