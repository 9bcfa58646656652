-- ===== src/Transfer.antt =====
-- Reading and writing a connection without blocking: aread and awrite of src/async_threads.cpp.
pub mod Stream
pub mod Reading
pub mod Completing
pub mod Message
pub mod Ending
pub mod Writing
pub mod Loop
pub mod Same
pub mod Keeping
mod Tests
use gko_pool.Prelude.{
  ℕ, zero, suc, ◌+◌, ◌-◌, ◌*◌, ◌%◌, ◌^◌, Bool, true, false, Option, none, some, List, [], ◌∷◌, ◌++◌,
  ltb, leb, ◌==◌, if◌then◌else◌, length, take, drop,
}
use gko_pool.Prelude.Int.{ℤ, pos}
use gko_pool.Wire.{cmd_prefix_byte}
use gko_pool.Alloc.{free_block}
use gko_pool.Client.{Client, World, Recv, bytes, Send, takes}

-- enum aread_result; `out_of_fuel` is the model's own.
pub data ReadResult : Type 0 where
  data_received header_received need_more no_data_received error memory_error : ReadResult
  out_of_fuel : ReadResult

-- enum awrite_result, in the values that awrite returns
pub data WriteResult : Type 0 where
  data_sent sent_more no_data_sent error : WriteResult

-- unsigned a - b, on 32 bits
abbrev pub sub_u32 : ℕ → ℕ → ℕ
sub_u32 a b = (a + 2 ^ 32 - b) % 2 ^ 32

abbrev pub min_u : ℕ → ℕ → ℕ
min_u a b = if ltb a b then a else b

-- One call `read(fd, buf, size)`: the bytes read, `none` for -1 with an error that can be retried,
-- and the answers left. A read of size 0 reads nothing and returns 0, as at the end of a stream.
pub data Got : Type 0 where
  got : List ℕ → Got
  again : Got
  failed : Got

pub sys_read : ℕ → List Recv → Got × List Recv
sys_read zero reads = (got [], reads)
sys_read (suc size) [] = (again, [])
sys_read (suc size) (Recv.retry ∷ reads) = (again, reads)
sys_read (suc size) (Recv.broken ∷ reads) = (failed, reads)
sys_read (suc size) (bytes d ∷ reads) = (
  got (take (suc size) d),
  if ltb (suc size) (length d) then bytes (drop (suc size) d) ∷ reads else reads,
)

-- The growth of a full read buffer: none where malloc or realloc fails. The first growth gives the
-- block back to the arena.
pub grow : Client → World → Option (Client × World)
grow c w =
    if w.malloc == 0
    then none
    else some (
      record c {
        r_buf_arena_id = none;
        read_buffer = w.malloc;
        rbuf_size = c.rbuf_size * 2 % 2 ^ 32;
      },
      record w { mem = free_block w.mem c.r_buf_arena_id },
    )

-- How a successful read is classed.
pub classify : Client → ReadResult
classify c =
    if ltb c.have_read c.need_read
    then ReadResult.need_more
    else if c.need_read == cmd_prefix_byte
    then ReadResult.header_received
    else if ltb cmd_prefix_byte c.need_read
    then ReadResult.data_received
    else ReadResult.error

-- The tests on the result of a read, at the loop's end: whether the loop goes on (the buffer is
-- full), the class so far, and the state.
pub after_read : ReadResult → Client → World → Got × List Recv → Bool × ReadResult × Client × World
after_read gotdata c w (again, rest) = (false, gotdata, c, record w { reads = rest })
after_read gotdata c w (failed, rest) = (false, ReadResult.error, c, record w { reads = rest })
after_read gotdata c w (got d, rest) =
    let w' = record w { reads = rest } in
    let c' = record c {
      have_read = (c.have_read + length d) % 2 ^ 32;
      received = c.received ++ d;
    } in
    if length d == 0
    then (false, ReadResult.error, c, w')
    else (length d == sub_u32 c.rbuf_size c.have_read, classify c', c', w')

pub read_once : ReadResult → Client → World → Bool × ReadResult × Client × World
read_once gotdata c w =
    let avail = sub_u32 c.rbuf_size c.have_read in
    after_read gotdata c w (sys_read (min_u (sub_u32 c.need_read c.have_read) avail) w.reads)

-- The loop of gko_pool::aread. `allocs` is num_allocs, `fuel` bounds the rounds.
pub aread_loop : ℕ → ℕ → ReadResult → Client → World → ReadResult × Client × World
aread_loop zero allocs gotdata c w = (ReadResult.out_of_fuel, c, w)
aread_loop (suc fuel) allocs gotdata c w = elim (ltb c.have_read c.rbuf_size) [
  | true ↦
      let (more, gotdata', c', w') = read_once gotdata c w in
      elim more [ true ↦ aread_loop fuel allocs gotdata' c' w' | false ↦ (gotdata', c', w') ]
  | false ↦ elim (allocs == 10) [
    | true ↦ (ReadResult.memory_error, c, w)
    | false ↦ elim (grow c w) [
      | none ↦ (ReadResult.memory_error, record c { have_read = 0; received = [] }, w)
      | some (c1, w1) ↦
          let (more, gotdata', c', w') = read_once gotdata c1 w1 in
          elim more [
            | true ↦ aread_loop fuel (allocs + 1) gotdata' c' w'
            | false ↦ (gotdata', c', w')
          ]
    ]
  ]
]

-- gko_pool::aread
pub aread : Client → World → ReadResult × Client × World
aread c w = aread_loop 12 0 ReadResult.no_data_received c w

-- The loop of gko_pool::awrite, over the answers of `send`.
pub awrite_loop : WriteResult → Client → List Send → WriteResult × Client × List Send
awrite_loop write_result c [] = (write_result, c, [])
awrite_loop write_result c (Send.retry ∷ sends) = (write_result, c, sends)
awrite_loop write_result c (Send.broken ∷ sends) = (WriteResult.error, c, sends)
awrite_loop write_result c (takes n ∷ sends) =
    let to_send = sub_u32 c.need_send c.have_write in
    let res = min_u n to_send in
    let c' = record c { have_write = (c.have_write + res) % 2 ^ 32 } in
    let more = awrite_loop WriteResult.sent_more c' sends in
    let beyond = awrite_loop write_result c' sends in
    if res == 0
    then (WriteResult.error, c, sends)
    else if ltb c'.have_write c'.need_send
    then more
    else if c'.need_send == c'.have_write
    then (WriteResult.data_sent, c', sends)
    else beyond

-- gko_pool::awrite
pub awrite : Client → World → WriteResult × Client × World
awrite c w =
    let (res, c', sends) = awrite_loop WriteResult.no_data_sent c w.sends in
    if sub_u32 c.need_send c.have_write == 0
    then (WriteResult.data_sent, c, w)
    else (res, c', record w { sends = sends })
