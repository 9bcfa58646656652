-- ===== src/Machine/Tests.antt =====
-- Witnesses of the theorems on state_machine of src/async_threads.cpp.
use gko_pool.Prelude.{◌+◌, ◌*◌, ◌≡◌, ◌≢◌, ◌≤◌, refl, arith, none, some}
use gko_pool.Prelude.Int.{pos}
use gko_pool.Client.{Client, State}
use gko_pool.Samples.{sample_client, sample_world}
use gko_pool.Transfer.Stream.{pending}
use gko_pool.Machine.{Next, Calls, answer, state_machine}
use gko_pool.Machine.Halts.{IsCalm, state_machine_stops}
use gko_pool.Transfer.Completing.{Readable}
use gko_pool.Machine.Guards.{TurnMeets, step_in_guards}
use gko_pool.Machine.{step_in}
use gko_pool.Prelude.{inl}
use gko_pool.Machine.Closing.{IsClosed, state_machine_closes}

-- A server whose callback answers with five bytes, and a resolver whose answer comes later.
abbrev sample_calls : Calls
sample_calls = record {
  on_data_callback = some (λ c w. (record c { need_write = 5 }, w));
  nb_gethostbyname = λ c w. (c, w);
  fetched = λ c w. none;
}

sample_calls-IsCalm : IsCalm sample_calls
unfolding answer
sample_calls-IsCalm c w u32 = (omega arith, u32)

enough_fuel : 9 * pending sample_world.reads + 9 ≤ 3000
unfolding pending
enough_fuel = omega arith

state_machine_stops_example :
    (state_machine sample_calls 3000 sample_client sample_world).0 ≡ Next.stops
state_machine_stops_example =
    state_machine_stops sample_calls 3000 sample_client sample_world sample_calls-IsCalm refl
      (omega arith) enough_fuel

abbrev closing_client : Client
closing_client = record sample_client { state = State.closing }

fd_5 : pos 5 ≢ pos 0
fd_5 e = cc

state_machine_closes_example :
    IsClosed closing_client sample_world (state_machine sample_calls 1 closing_client sample_world)
state_machine_closes_example =
    state_machine_closes sample_calls 0 closing_client sample_world refl fd_5

sample-Readable : Readable sample_client
sample-Readable = record {
  fits = record {
    in_buffer = omega arith;
    wanted = omega arith;
    need_u32 = omega arith;
    size_u32 = omega arith;
    counted = refl;
  };
  small = omega arith;
}

step_in_guards_example : TurnMeets (step_in sample_calls State.read 3 sample_client sample_world)
step_in_guards_example =
    step_in_guards sample_calls 3 sample_client sample_world sample-Readable (inl refl)
