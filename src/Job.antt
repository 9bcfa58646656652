-- ===== src/Job.antt =====
-- A job's files and blocks, src/gingko.h, and the calls of src/gingko_base.cpp that write blocks to
-- the files and send them from there.
pub mod Files
pub mod Patch
pub mod Span
pub mod Written
pub mod Writing
pub mod Rounds
pub mod SendRound
pub mod Sending
pub mod RoundTrip
pub mod Digest
mod Tests
use gko_pool.Prelude.{
  ℕ, zero, suc, ◌+◌, ◌-◌, ◌*◌, ◌%◌, Bool, true, false, Option, none, some, List, [], ◌∷◌, ◌++◌, ltb,
  leb, ◌==◌, if◌then◌else◌, length, take, drop,
}
use gko_pool.Prelude.Int.{ℤ, pos, negsuc, ltb_ℤ, pos_part}

-- The part of s_block_t and s_job_t that places blocks in files. The size of a file is -1 for a
-- directory and -2 for a symbolic link.
pub record Block : Type 0 where
  pub size : ℕ
  pub start_off : ℕ
  pub start_f : ℕ
  pub digest : ℕ

pub record Job : Type 0 where
  pub file_size : ℕ → ℤ
  pub file_count : ℕ
  pub blocks : ℕ → Block
  pub block_count : ℕ

-- BLOCK_SIZE
abbrev pub block_size : ℕ
block_size = 2 * 1024 * 1024

-- The test of next_f's loop, negated: a file with bytes.
abbrev pub has_bytes : Job → ℕ → Bool
has_bytes jo file = ltb_ℤ (pos 0) (jo.file_size file)

-- next_f: the loop round the files, none where it has gone round without a file that has bytes, and
-- would for ever.
pub next_from : ℕ → Job → ℕ → Option ℕ
next_from zero jo file = none
next_from (suc rounds) jo file =
    let next = (1 + file) % jo.file_count in
    let rest = next_from rounds jo next in if has_bytes jo next then some next else rest

pub next_f : Job → ℕ → Option ℕ
next_f jo file = next_from jo.file_count jo file

-- next_b and prev_b
pub next_b : Job → ℕ → ℕ
next_b jo block = (block + 1) % jo.block_count

pub prev_b : Job → ℕ → ℕ
prev_b jo block = if block == 0 then jo.block_count - 1 else block - 1

-- array_sum of the first `count` entries
pub array_sum : (ℕ → ℕ) → ℕ → ℕ
array_sum a zero = 0
array_sum a (suc count) = array_sum a count + a count

-- The bytes of each file.
abbrev pub Disk : Type 0
Disk = ℕ → List ℕ

-- The bytes with some others written over them from an offset on.
abbrev pub patch : List ℕ → ℕ → List ℕ → List ℕ
patch l offset written = take offset l ++ (written ++ drop (offset + length written) l)

abbrev pub write_at : Disk → ℕ → ℕ → List ℕ → Disk
write_at disk f offset written i = if i == f then patch (disk i) offset written else disk i

-- What one round's calls of `open` and `pwrite` do: one fails, or at most so many bytes are written.
-- After the end of a list of them each pwrite writes all that is asked for.
pub data Pwrite : Type 0 where
  open_fails write_fails : Pwrite
  writes : ℕ → Pwrite

-- The bytes that a pwrite is asked for, MIN(file_size - offset, total).
abbrev pub asked : Job → ℕ → ℕ → ℕ → ℕ
asked jo f offset total =
    let room = pos_part (jo.file_size f) - offset in if ltb room total then room else total

abbrev pub at_most : ℕ → ℕ → ℕ
at_most n m = if ltb n m then n else m

-- The loop of writeblock, for offsets inside their files: the result and the disk, none where the
-- fuel has run out or next_f does not return. The rate limit and the sync are left out.
pub write_loop : ℕ → Job → Disk → ℕ → ℕ → ℕ → ℕ → List ℕ → List Pwrite → Option (ℤ × Disk)
write_loop zero jo disk f offset total counter buf answers = none
write_loop (suc fuel) jo disk f offset zero counter buf answers = some (pos counter, disk)
write_loop (suc fuel) jo disk f offset (suc left) counter buf (Pwrite.open_fails ∷ answers) =
    some (negsuc 1, disk)
write_loop (suc fuel) jo disk f offset (suc left) counter buf (Pwrite.write_fails ∷ answers) =
    some (negsuc 0, disk)
write_loop (suc fuel) jo disk f offset (suc left) counter buf (Pwrite.writes n ∷ answers) =
    let wrote = at_most n (asked jo f offset (suc left)) in
    let disk' = write_at disk f offset (take wrote (drop counter buf)) in
    elim (next_f jo f) [
      | none ↦ none
      | some next ↦ write_loop fuel jo disk' next 0 (suc left - wrote) (counter + wrote) buf answers
    ]
write_loop (suc fuel) jo disk f offset (suc left) counter buf [] =
    let wrote = asked jo f offset (suc left) in
    let disk' = write_at disk f offset (take wrote (drop counter buf)) in
    elim (next_f jo f) [
      | none ↦ none
      | some next ↦ write_loop fuel jo disk' next 0 (suc left - wrote) (counter + wrote) buf []
    ]

-- writeblock
pub writeblock : ℕ → Job → Disk → List ℕ → Block → List Pwrite → Option (ℤ × Disk)
writeblock fuel jo disk buf blk answers =
    write_loop fuel jo disk blk.start_f blk.start_off blk.size 0 buf answers

-- What one round's calls of `open` and sendfileall do; after the end of a list of them all succeed.
pub data Round : Type 0 where
  open_fails send_fails sends : Round

-- Where sendblocks stands: the file it reads, the offset there, the block and what is left of it.
pub record Position : Type 0 where
  pub f : ℕ
  pub offset : ℕ
  pub b : ℕ
  pub block_left : ℕ

-- A round of sendblocks whose calls succeed: the bytes it sends and where it leaves off, none where
-- next_f does not return.
pub send_step : Job → Position → Option (ℕ × Position)
send_step jo at =
    let file_left = pos_part (jo.file_size at.f) - at.offset in
    let next = next_b jo at.b in
    let after_file : ℕ → ℕ → Option (ℕ × Position) = λ b left. elim (next_f jo at.f) [
      | none ↦ none
      | some g ↦ some (file_left, record { f = g; offset = 0; b = b; block_left = left })
    ] in
    if ltb file_left at.block_left
    then after_file at.b (at.block_left - file_left)
    else if at.block_left == file_left
    then after_file next (jo.blocks next).size
    else some (
      at.block_left,
      record {
        f = at.f;
        offset = at.offset + at.block_left;
        b = next;
        block_left = (jo.blocks next).size;
      },
    )

-- The loop of sendblocks, for offsets inside their files: the result and the bytes sent, none where
-- the fuel has run out or next_f does not return.
pub blocks_loop : ℕ → Job → Disk → Position → ℕ → List ℕ → List Round → Option (ℤ × List ℕ)
blocks_loop zero jo disk at total out rounds = none
blocks_loop (suc fuel) jo disk at zero out rounds = some (pos 0, out)
blocks_loop (suc fuel) jo disk at (suc total) out (Round.open_fails ∷ rounds) = some (negsuc 1, out)
blocks_loop (suc fuel) jo disk at (suc total) out (Round.send_fails ∷ rounds) = some (negsuc 0, out)
blocks_loop (suc fuel) jo disk at (suc total) out (Round.sends ∷ rounds) = elim (send_step jo at) [
  | none ↦ none
  | some (n, at') ↦
      blocks_loop fuel jo disk at' (suc total - n) (out ++ take n (drop at.offset (disk at.f)))
        rounds
]
blocks_loop (suc fuel) jo disk at (suc total) out [] = elim (send_step jo at) [
  | none ↦ none
  | some (n, at') ↦
      blocks_loop fuel jo disk at' (suc total - n) (out ++ take n (drop at.offset (disk at.f))) []
]

-- sendblocks of `num` blocks from `start` on
pub sendblocks : ℕ → Job → Disk → ℕ → ℕ → List Round → Option (ℤ × List ℕ)
sendblocks fuel jo disk start num rounds =
    let last = (jo.blocks (jo.block_count - 1)).size in
    let total =
      block_size * (num - 1) + (if leb jo.block_count (start + num) then last else block_size) in
    let first = jo.blocks start in
    let at : Position = record {
      f = first.start_f;
      offset = first.start_off;
      b = start;
      block_left = first.size;
    } in
    if num == 0 then some (pos 0, []) else blocks_loop fuel jo disk at total [] rounds
