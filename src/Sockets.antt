-- ===== src/Sockets.antt =====
-- Sockets: src/socket.cpp, and the start of the server in src/async_conn.cpp. The system's answers are
-- parameters.
pub mod Connect
pub mod Listen
mod Tests
use gko_pool.Prelude.{
  ℕ, zero, suc, ◌+◌, ◌-◌, ◌/◌, ◌%◌, Bool, true, false, ◌&&◌, ◌||◌, not, Option, none, some, List,
  [], ◌∷◌, ◌++◌, ltb, leb, ◌==◌, if◌then◌else◌, ◌^◌,
}
use gko_pool.Prelude.Int.{ℤ, pos, negsuc, ltb_ℤ, neg_part}

-- The four numbers that addr_itoa prints.
pub address_bytes : ℕ → List ℕ
address_bytes addr =
    addr % 256 ∷ addr / 2 ^ 8 % 256 ∷ addr / 2 ^ 16 % 256 ∷ addr / 2 ^ 24 % 256 ∷ []

-- O_NONBLOCK of Linux, as a bit of the flags
abbrev pub o_nonblock : ℕ
o_nonblock = 2048

abbrev pub is_nonblock : ℕ → Bool
is_nonblock flags = flags / o_nonblock % 2 == 1

-- setnonblock and setblock, on what F_GETFL gives and whether F_SETFL succeeds: the result and the
-- descriptor's flags.
pub setnonblock : ℤ → Bool → ℤ × Option ℕ
setnonblock (negsuc n) set = (negsuc n, none)
setnonblock (pos flags) set =
    if is_nonblock flags
    then (pos 0, some flags)
    else if set
    then (pos 0, some (flags + o_nonblock))
    else (negsuc 0, some flags)

pub setblock : ℤ → Bool → ℤ × Option ℕ
setblock (negsuc n) set = (negsuc n, none)
setblock (pos flags) set =
    if not (is_nonblock flags)
    then (pos 0, some flags)
    else if set
    then (pos 0, some (flags - o_nonblock))
    else (negsuc 0, some flags)

-- close_socket: its result, and the descriptor it closes
pub close_socket : ℤ → Bool → ℤ × Option ℕ
close_socket (negsuc n) closed = (pos 0, none)
close_socket (pos sock) closed = if closed then (pos 0, some sock) else (negsuc 0, some sock)

-- HOST_DOWN_FAIL
abbrev pub host_down_fail : ℤ
host_down_fail = negsuc 12

-- What the calls of connect_host answer: the address's length, the socket, fcntl, connect with an errno
-- of EINPROGRESS counted as success, poll, the error on the socket, and the timeouts.
pub record Answers : Type 0 where
  pub addr_len : ℕ
  pub sock : ℤ
  pub flags : ℤ
  pub set_nonblock : Bool
  pub connected : Bool
  pub polled : ℤ
  pub dest_down : Bool
  pub flags_after : ℤ
  pub set_block : Bool
  pub rcvtimeo : Bool
  pub sndtimeo : Bool
  pub closed : Bool

abbrev no_event : ℤ → Bool
no_event a = not (ltb_ℤ a (pos 0)) && not (ltb_ℤ (pos 0) a)

-- connect_host from the socket on: what it returns if no error closes the socket
pub connect_ret : Answers → ℤ
connect_ret a =
    if ltb_ℤ (setnonblock a.flags a.set_nonblock).0 (pos 0)
    then negsuc 0
    else if not a.connected
    then host_down_fail
    else if ltb_ℤ a.polled (pos 0)
    then host_down_fail
    else if no_event a.polled
    then host_down_fail
    else if a.dest_down
    then host_down_fail
    else if ltb_ℤ (setblock a.flags_after a.set_block).0 (pos 0)
    then negsuc 0
    else if not a.rcvtimeo
    then negsuc 0
    else if not a.sndtimeo
    then negsuc 0
    else a.sock

-- connect_host with a socket or without, and its end
pub connect_on : Answers → ℤ → ℤ → ℤ × Option ℕ × Option ℕ
connect_on a (negsuc n) ret = (negsuc 0, none, none)
connect_on a (pos fd) (pos r) = (pos r, some fd, none)
connect_on a (pos fd) (negsuc n) = (negsuc n, some fd, (close_socket (pos fd) a.closed).1)

-- connect_host: its result, the descriptor that it opens and the one that it closes
pub connect_host : Answers → ℤ × Option ℕ × Option ℕ
connect_host a =
    if a.addr_len == 0 then (negsuc 0, none, none) else connect_on a a.sock (connect_ret a)

-- MIN_PORT, MAX_PORT, MAX_LIS_PORT and BIND_FAIL
abbrev pub min_port : ℕ
min_port = 1025

abbrev pub max_port : ℕ
max_port = 65535

abbrev pub max_lis_port : ℕ
max_lis_port = 60000

abbrev pub bind_fail : ℤ
bind_fail = negsuc 11

-- What the calls of conn_tcp_server answer in one try.
pub record Tcp : Type 0 where
  pub is_root : Bool
  pub listen_fd : ℤ
  pub bound : Bool
  pub listening : Bool
  pub nonblocking : Bool

-- gko_pool::conn_tcp_server: its result and the descriptor that it opens. The options of the socket
-- and the event are left out.
pub conn_tcp_server : Bool → ℕ → Tcp → ℤ × Option ℕ
conn_tcp_server is_server srv_port a =
    if ltb max_port srv_port
    then (negsuc 0, none)
    else if ltb srv_port min_port && not a.is_root
    then (negsuc 0, none)
    else elim a.listen_fd [
      | negsuc n ↦ (negsuc 0, none)
      | pos fd ↦
          if not a.bound
          then (if is_server then negsuc 0 else bind_fail, some fd)
          else if not a.listening
          then (negsuc 0, some fd)
          else if not a.nonblocking
          then (negsuc 0, some fd)
          else (pos fd, some fd)
    ]

abbrev fds : Option ℕ → List ℕ
fds none = []
fds (some fd) = fd ∷ []

-- The loop of gko_async_server_base_init from the port `srv_port` on, and the descriptors opened.
pub bind_next : ℤ → Option ℕ → ℕ → Bool → Option (ℤ × List ℕ) → Option (ℤ × List ℕ)
bind_next (pos fd) opened srv_port given rest = some (pos srv_port, fds opened)
bind_next (negsuc n) opened srv_port given rest =
    if not (n == 11)
    then some (negsuc 0, fds opened)
    else if ltb srv_port min_port || given
    then some (negsuc 0, fds opened)
    else elim rest [ none ↦ none | some (result, others) ↦ some (result, fds opened ++ others) ]

pub bind_loop : ℕ → Bool → ℕ → (ℕ → Tcp) → Option (ℤ × List ℕ)
bind_loop zero given srv_port answers = none
bind_loop (suc fuel) given srv_port answers =
    let (ret, opened) = conn_tcp_server given srv_port (answers srv_port) in
    bind_next ret opened srv_port given (bind_loop fuel given (srv_port - 1) answers)

-- gko_async_server_base_init: `port` is what the caller gives, negative for any, and `random` what
-- rand_r does. The answers are by the port tried.
pub gko_async_server_base_init : ℕ → ℤ → ℕ → (ℕ → Tcp) → Option (ℤ × List ℕ)
gko_async_server_base_init fuel (negsuc n) random answers =
    bind_loop fuel false (max_lis_port - random % 500) answers
gko_async_server_base_init fuel (pos port) random answers = bind_loop fuel true port answers
