-- ===== src/Worker/Tests.antt =====
-- A worker at concrete inputs, src/async_threads.cpp.
use gko_pool.Prelude.{ℕ, ◌≡◌, ◌≢◌, ◌<◌, ◌≤◌, refl, arith, none, some, [], ◌∷◌}
use gko_pool.Prelude.Int.{pos}
use gko_pool.Alloc.Invariant.{bit_at}
use gko_pool.Alloc.Ownership.{occurrences}
use gko_pool.Client.{Client, World, State, conn_buffer_init}
use gko_pool.Client.Keeping.{slots}
use gko_pool.Samples.{sample_client, sample_world}
use gko_pool.Machine.{Calls, Next, answer, state_machine}
use gko_pool.Machine.Keeping.{IsSparing}
use gko_pool.Machine.Closing.{state_machine_closes}
use gko_pool.Worker.{waits, prepares, serves, Reachable, starts, steps}
use gko_pool.Worker.Keeping.{AllOwned, all_slots, Reachable-AllOwned}
use gko_pool.Worker.Sharing.{AreFreed, blocks_unshared, blocks_drained, conn_buffer_init_served}

-- A server whose callback answers with five bytes, and a resolver whose answer comes later.
abbrev spare_calls : Calls
spare_calls = record {
  on_data_callback = some (λ c w. (record c { need_write = 5 }, w));
  nb_gethostbyname = λ c w. (c, w);
  fetched = λ c w. none;
}

spare_calls-IsSparing : IsSparing spare_calls
unfolding answer
spare_calls-IsSparing = (λ c w. (refl, refl, refl, refl, refl), λ c w others o. o)

-- A worker with an empty allocator gives a connection its buffers, and then another one, which is
-- about to be closed.
idle : Reachable spare_calls (sample_world, [])
idle = starts refl

memory : sample_world.memalign ≢ 0
memory = ground arith

conn_buffer_init_served_example :
    (r : Client × World) × (conn_buffer_init sample_client sample_world ≡ some r)
conn_buffer_init_served_example =
    conn_buffer_init_served sample_client spare_calls-IsSparing idle memory (omega arith)

first : (r : Client × World) × (conn_buffer_init sample_client sample_world ≡ some r)
first = conn_buffer_init_served sample_client spare_calls-IsSparing idle memory (omega arith)

abbrev one : Client × World
one = first.0

abbrev conn : Client
conn = one.0

abbrev after_one : World
after_one = record sample_world { mem = one.1.mem }

with_one : Reachable spare_calls (after_one, conn ∷ [])
with_one =
    steps (steps idle (prepares sample_client first.1 (refl, refl, refl, refl, refl)))
      (waits after_one refl)

second : (r : Client × World) × (conn_buffer_init sample_client after_one ≡ some r)
second = conn_buffer_init_served sample_client spare_calls-IsSparing with_one memory (omega arith)

abbrev closing_conn : Client
closing_conn = record second.0.0 { id = 8; client_fd = pos 6; state = State.closing }

abbrev two : World
two = second.0.1

with_two : Reachable spare_calls (two, closing_conn ∷ (conn ∷ []))
with_two = steps with_one (prepares sample_client second.1 (refl, refl, refl, refl, refl))

Reachable-AllOwned_example : AllOwned (two, closing_conn ∷ (conn ∷ []))
Reachable-AllOwned_example = Reachable-AllOwned spare_calls-IsSparing with_two

blocks_unshared_example :
    (occurrences 0 (slots closing_conn) ≤ 1)
    × (0 < occurrences 0 (slots closing_conn) → occurrences 0 (all_slots (conn ∷ [])) ≡ 0)
blocks_unshared_example =
    blocks_unshared [] (conn ∷ []) closing_conn spare_calls-IsSparing with_two 0

-- The first one leaves too, in the state closing.
abbrev leaving : Client
leaving = record conn { client_fd = pos 5; state = State.closing }

abbrev closed : Next × Client × World
closed = state_machine spare_calls 1 leaving one.1

with_none : Reachable spare_calls (closed.2, closed.1 ∷ [])
with_none =
    steps (steps idle (prepares sample_client first.1 (refl, refl, refl, refl, refl)))
      (serves [] [] 1 leaving)

fd_5 : pos 5 ≢ pos 0
fd_5 e = cc

is_freed : AreFreed (closed.1 ∷ [])
is_freed =
    let all = state_machine_closes spare_calls 0 leaving one.1 refl fd_5 in (all.2.0, all.2.1, tt)

blocks_drained_example :
    ((id : ℕ) → bit_at closed.2.mem.m_map id ≡ 0)
    × ((b : ℕ) → b < 256 → closed.2.mem.bucket_used b ≡ 0)
blocks_drained_example = blocks_drained spare_calls-IsSparing with_none is_freed
