-- ===== src/Sockets/Tests.antt =====
-- Witnesses of the theorems on sockets, src/socket.cpp and src/async_conn.cpp.
use gko_pool.Prelude.{ℕ, ◌≡◌, ◌⊎◌, ◌==◌, not, arith, true, false, some, none, List}
use gko_pool.Prelude.Int.{ℤ, pos, negsuc}
use gko_pool.Sockets.{Answers, Tcp, connect_host, gko_async_server_base_init}
use gko_pool.Sockets.Connect.{connect_host-keeps}
use gko_pool.Sockets.Listen.{gko_async_server_base_init_returns, Served}

-- A host that does not answer in time.
abbrev timed_out : Answers
timed_out = record {
  addr_len = 4;
  sock = pos 7;
  flags = pos 2;
  set_nonblock = true;
  connected = true;
  polled = pos 0;
  dest_down = false;
  flags_after = pos 2050;
  set_block = true;
  rcvtimeo = true;
  sndtimeo = true;
  closed = true;
}

connect_host-keeps_example :
    ((fd : ℕ) × (connect_host timed_out ≡ (pos fd, some fd, none)))
    ⊎ ((n : ℕ) × ((connect_host timed_out).0 ≡ negsuc n)
        × ((connect_host timed_out).1 ≡ (connect_host timed_out).2))
connect_host-keeps_example = connect_host-keeps timed_out

-- Every port is free but 59999.
abbrev one_taken : ℕ → Tcp
one_taken port = record {
  is_root = false;
  listen_fd = pos 3;
  bound = not (port == 59999);
  listening = true;
  nonblocking = true;
}

gko_async_server_base_init_returns_example :
    (result : ℤ) × (fds : List ℕ) × (gko_async_server_base_init 60001 (negsuc 0) 1 one_taken
      ≡ some (result, fds))
    × Served (negsuc 0) 1 one_taken result
gko_async_server_base_init_returns_example =
    gko_async_server_base_init_returns 60001 (negsuc 0) 1 one_taken (omega arith) (omega arith)
