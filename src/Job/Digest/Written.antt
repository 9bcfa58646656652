-- ===== src/Job/Digest/Written.antt =====
-- writeblock of src/gingko_base.cpp and xor_hash_block of src/hash/xor_hash.cpp on one block.
use gko_pool.Prelude.{
  ℕ, ◌+◌, ◌*◌, ◌≤◌, ◌<◌, ◌≡◌, sym, ap, subst, ◌∙◌, arith, true, some, List, [], length, take, drop,
}
use gko_pool.Prelude.Int.{pos}
use gko_pool.Hash.{xor_hash, start_hash}
use gko_pool.Job.{Job, Disk, has_bytes, writeblock, patch}
use gko_pool.Job.Span.{span, Fills}
use gko_pool.Job.Writing.{writeblock_refines}
use gko_pool.Job.RoundTrip.{read_back, length-span}
use gko_pool.Job.Digest.{xor_hash_block}
use gko_pool.Job.Digest.Pieces.{NeverZero, xor_hash_block-span}

-- A block that writeblock has written passes its test again when it is read from the disk: the digest
-- that xor_hash_block makes of the files is the hash of the buffer, over however many files the block goes.
-- This is for a block that starts in the job's first file, which has bytes, and inside it, and ends within
-- the last file, where each file has its size, the calls on the files do all that is asked for, and no
-- part of the buffer, from its start on, has the hash 0. More than two turns for each file are enough.
pub xor_hash_block-writeblock :
    (fuel : ℕ) (jo : Job) (disk : Disk) (buf : List ℕ) (b : ℕ)
    → let blk = jo.blocks b in
      Fills jo disk
      → blk.start_f ≡ 0
      → has_bytes jo 0 ≡ true
      → blk.start_off < length (disk 0)
      → 0 < blk.size
      → length buf ≡ blk.size
      → blk.start_off + blk.size ≤ length (span disk 0 jo.file_count)
      → NeverZero (start_hash 0) buf
      → 2 * jo.file_count < fuel
      → (disk' : Disk) × (writeblock fuel jo disk buf blk [] ≡ some (pos blk.size, disk'))
        × (xor_hash_block fuel jo disk' b ≡ some (xor_hash buf blk.size 0))
unfolding span
xor_hash_block-writeblock fuel jo disk buf b fills from first inside some_left whole fits never
      enough =
    let blk = jo.blocks b in
    let (disk', returns, fills', laid) =
      writeblock_refines fuel jo disk buf blk jo.file_count fills (omega (arith, from))
        (ap (has_bytes jo) from ∙ first) (omega (arith, inside, ap (λ f. length (disk f)) from))
        whole (omega (arith, fits, ap (λ f. length (span disk f jo.file_count)) from))
        (omega (arith, enough)) in
    let place : length (span disk 0 blk.start_f) + blk.start_off ≡ blk.start_off =
      omega (arith, ap (λ f. length (span disk 0 f)) from) in
    let bytes : take blk.size (drop blk.start_off (span disk' 0 jo.file_count)) ≡ buf =
      ap (λ n. take n (drop blk.start_off (span disk' 0 jo.file_count))) (sym whole)
      ∙ ap (λ l. take (length buf) (drop blk.start_off l))
          (laid ∙ ap (λ n. patch (span disk 0 jo.file_count) n buf) place)
      ∙ read_back (span disk 0 jo.file_count) blk.start_off buf (omega (arith, fits)) in
    (
      disk',
      returns,
      xor_hash_block-span fuel jo disk' b fills' from some_left
            (omega (arith, inside, fills 0, fills' 0))
            (omega (arith, fits, length-span jo disk disk' 0 jo.file_count fills fills'))
            (subst (NeverZero (start_hash 0)) (sym bytes) never) (omega (arith, enough))
          ∙ ap (λ s. some (xor_hash s blk.size 0)) bytes,
    )
