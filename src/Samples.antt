-- ===== src/Samples.antt =====
-- A connection and a worker for the runs of the other modules: a client that waits for a message of
-- 300 bytes in a buffer of 4096, and a socket that gives 290 bytes and then three more.
use gko_pool.Prelude.{true, some, [], ◌∷◌, replicate}
use gko_pool.Prelude.Int.{pos}
use gko_pool.Alloc.{new}
use gko_pool.Client.{Client, World, State, ConnType, bytes, takes}

abbrev pub sample_client : Client
sample_client = record {
  id = 7;
  worker_id = 0;
  client_fd = pos 5;
  task_id = pos 1;
  sub_task_id = pos 2;
  client_addr = 0;
  client_port = 0;
  conn_time = 1000;
  state = State.read;
  err_no = pos 0;
  type = ConnType.coming;
  ev_flags = 18;
  r_buf_arena_id = some 0;
  read_buffer = 65536;
  received = replicate 10 b'1';
  rbuf_size = 4096;
  need_read = 300;
  have_read = 10;
  w_buf_arena_id = some 1;
  send_buffer = 69632;
  write_buffer = 69642;
  wbuf_size = 4086;
  need_send = 20;
  need_write = 10;
  have_write = 4;
  dns_events = 0;
}

abbrev pub sample_world : World
sample_world = record {
  mem = new;
  conn_set = 7 ∷ [];
  g_total_clients = pos 1;
  closed = [];
  has_report_handler = true;
  reports = [];
  reads = bytes (replicate 293 b'a') ∷ [];
  sends = takes 6 ∷ takes 20 ∷ [];
  events = [];
  memalign = 65536;
  malloc = 131072;
  sock = pos 9;
  now = 1100;
}
