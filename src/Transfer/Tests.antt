-- ===== src/Transfer/Tests.antt =====
-- Witnesses of the theorems on aread and awrite of src/async_threads.cpp.
use gko_pool.Prelude.{
  ◌≡◌, ◌≢◌, ◌<◌, ◌≤◌, refl, arith, true, [], ◌∷◌, ◌++◌, replicate, take, if◌then◌else◌, ◌==◌,
}
use gko_pool.Wire.{cmd_prefix_byte}
use gko_pool.Client.{Client, World, bytes}
use gko_pool.Samples.{sample_client, sample_world}
use gko_pool.Transfer.{
  ReadResult, aread, awrite, aread_loop, read_once, after_read, sys_read, classify,
}
use gko_pool.Transfer.Reading.{IsClassed, Advances, has_read}
use gko_pool.Transfer.Completing.{Readable}
use gko_pool.Transfer.Message.{aread-IsClassed, aread-Advances, aread_completes, aread_exact_fit}
use gko_pool.Transfer.Writing.{IsSent, awrite-IsSent}

sample-Readable : Readable sample_client
sample-Readable = record {
  fits = record {
    in_buffer = omega arith;
    wanted = omega arith;
    need_u32 = omega arith;
    size_u32 = omega arith;
    counted = refl;
  };
  small = omega arith;
}

aread-IsClassed_example :
    ((aread sample_client sample_world).0 ≢ ReadResult.out_of_fuel)
    × IsClassed (aread sample_client sample_world).0 (aread sample_client sample_world).1
aread-IsClassed_example = aread-IsClassed sample_client sample_world sample-Readable

sample_data : (aread sample_client sample_world).0 ≡ ReadResult.data_received
unfolding aread aread_loop read_once after_read sys_read classify
sample_data = refl

sample_memory : (aread sample_client sample_world).0 ≢ ReadResult.memory_error
unfolding aread aread_loop read_once after_read sys_read classify
sample_memory e = cc

sample_has_read : has_read (aread sample_client sample_world).0 ≡ true
unfolding aread aread_loop read_once after_read sys_read classify
sample_has_read = refl

aread-Advances_example :
    Advances sample_client sample_world.reads
      (aread sample_client sample_world).1
      (aread sample_client sample_world).2.reads
aread-Advances_example = aread-Advances sample_client sample_world sample-Readable sample_memory

incomplete : 10 < 300
incomplete = omega arith

ten_or_more : cmd_prefix_byte ≤ 300
ten_or_more = omega arith

aread_completes_example :
    ((aread sample_client sample_world).0
      ≡ (if 300 == cmd_prefix_byte then ReadResult.header_received else ReadResult.data_received))
    × ((aread sample_client sample_world).1.received
        ≡ replicate 10 b'1' ++ take 290 (replicate 293 b'a'))
    × ((aread sample_client sample_world).2.reads ≡ bytes (replicate 3 b'a') ∷ [])
aread_completes_example =
    aread_completes sample_client sample_world (replicate 293 b'a') [] sample-Readable refl
      incomplete (omega arith) ten_or_more (omega arith)

-- The same client with a buffer of just the message's size.
abbrev full_client : Client
full_client = record sample_client { rbuf_size = 300 }

abbrev full_world : World
full_world = record sample_world { reads = bytes (replicate 290 b'a') ∷ [] }

full-Readable : Readable full_client
full-Readable = record {
  fits = record {
    in_buffer = omega arith;
    wanted = omega arith;
    need_u32 = omega arith;
    size_u32 = omega arith;
    counted = refl;
  };
  small = omega arith;
}

aread_exact_fit_example :
    ((aread full_client full_world).0 ≡ ReadResult.error)
    × ((aread full_client full_world).1.received ≡ replicate 10 b'1' ++ replicate 290 b'a')
aread_exact_fit_example =
    aread_exact_fit full_client full_world (replicate 290 b'a') [] full-Readable refl (omega arith)
      refl refl (omega arith)

awrite-IsSent_example :
    IsSent 4 (awrite sample_client sample_world).0 (awrite sample_client sample_world).1
awrite-IsSent_example = awrite-IsSent sample_client sample_world (omega arith) (omega arith)
