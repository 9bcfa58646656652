-- ===== src/Worker.antt =====
-- A worker and its connections: what gko_pool of src/async_threads.cpp, src/async_conn.cpp and
-- src/async_clnt.cpp does to them, step by step.
pub mod Keeping
pub mod Sharing
mod Tests
use gko_pool.Prelude.{ℕ, ◌≡◌, ◌≢◌, Option, none, some, List, [], ◌∷◌, ◌++◌}
use gko_pool.Prelude.Int.{ℤ}
use gko_pool.Alloc.{new}
use gko_pool.Client.{Client, World, ConnType, conn_buffer_init}
use gko_pool.Client.Keeping.{Spares}
use gko_pool.Machine.{Calls, Next, state_machine}
use gko_pool.Resolver.{Answer, Processed, dns_callback, dns_ev_callback}
use gko_pool.Pool.{thread_worker_process, clean_one}

-- The worker's state and the connections that have been given buffers of its allocator.
abbrev pub Worker : Type 0
Worker = World × List Client

-- What can happen at a worker.
pub data Step (calls : Calls) : Worker → Worker → Type 0 where
  -- The system: time passes, data comes, a socket takes data again.
  waits :
      {w : World} {conns : List Client} (w' : World)
      → w'.mem ≡ w.mem
      → Step calls (w, conns) (w', conns)
  -- A connection that was accepted comes over the pipe, and gets its buffers.
  accepts :
      {w : World} {conns : List Client} (fuel worker_id c_id : ℕ) (c : Client) {next : Next}
      {c' : Client} {w' : World}
      → c.type ≡ ConnType.coming
      → thread_worker_process calls fuel worker_id c_id c w ≡ some (next, c', w')
      → Step calls (w, conns) (w', c' ∷ conns)
  -- make_active_connect gives a connection its buffers and writes its message to them.
  prepares :
      {w : World} {conns : List Client} (c : Client) {c1 c' : Client} {w1 : World}
      → conn_buffer_init c w ≡ some (c1, w1)
      → Spares c1 w1 c' w1
      → Step calls (w, conns) (w1, c' ∷ conns)
  -- A connection that make_active_connect prepared comes over the pipe.
  connects :
      {w : World} (before after : List Client) (fuel worker_id c_id : ℕ) (c : Client) {next : Next}
      {c' : Client} {w' : World}
      → c.type ≡ ConnType.active
      → thread_worker_process calls fuel worker_id c_id c w ≡ some (next, c', w')
      → Step calls (w, before ++ c ∷ after) (w', before ++ c' ∷ after)
  -- An event of a connection.
  serves :
      {w : World} (before after : List Client) (fuel : ℕ) (c : Client)
      → Step calls
          (w, before ++ c ∷ after)
          ((state_machine calls fuel c w).2, before ++ (state_machine calls fuel c w).1 ∷ after)
  -- c-ares answers for a connection, or a descriptor of the resolver is ready.
  answers :
      {w : World} (before after : List Client) (fuel : ℕ) (answer : Answer) (c : Client)
      → Step calls
          (w, before ++ c ∷ after)
          (
            (dns_callback calls fuel answer c w).2,
            before ++ (dns_callback calls fuel answer c w).1 ∷ after,
          )
  resolves :
      {w : World} (before after : List Client) (fuel : ℕ) (processed : Processed) (ev : ℕ)
      (c : Client)
      → Step calls
          (w, before ++ c ∷ after)
          (
            (dns_ev_callback calls fuel processed ev c w).2,
            before ++ (dns_ev_callback calls fuel processed ev c w).1 ∷ after,
          )
  -- The clock's callback, on a connection that timed out.
  cleans :
      {w : World} (before after : List Client) (c : Client)
      → Step calls
          (w, before ++ c ∷ after)
          ((clean_one c.type c.state c w).2, before ++ (clean_one c.type c.state c w).1 ∷ after)
  -- The slot of a connection without buffers is free for another one.
  leaves :
      {w : World} (before after : List Client) (c : Client)
      → c.read_buffer ≡ 0
      → c.send_buffer ≡ 0
      → Step calls (w, before ++ c ∷ after) (w, before ++ after)

-- The states of a worker that starts with an empty allocator.
pub data Reachable (calls : Calls) : Worker → Type 0 where
  starts : {w : World} → w.mem ≡ new → Reachable calls (w, [])
  steps : {s s' : Worker} → Reachable calls s → Step calls s s' → Reachable calls s'
