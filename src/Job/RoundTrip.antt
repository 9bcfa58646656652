-- ===== src/Job/RoundTrip.antt =====
-- writeblock and sendblocks of src/gingko_base.cpp on one block.
use gko_pool.Prelude.{
  ℕ, zero, suc, ◌+◌, ◌≤◌, ◌<◌, ◌≡◌, refl, sym, ap, ◌∙◌, arith, true, some, List, [], ◌++◌, length,
  length-append, length-take, take, drop,
}
use mathlib.Core.List.{append-nil}
use gko_pool.Prelude.Int.{pos}
use gko_pool.Job.{Job, Disk, has_bytes, patch, writeblock, sendblocks}
use gko_pool.Job.Patch.{drop-append_ge, take-append_ge}
use gko_pool.Job.Span.{span, Fills, laid_out}
use gko_pool.Job.Writing.{writeblock_refines}
use gko_pool.Job.Sending.{FullBlocks, sizes-one, sendblocks_refines}

pub length-span :
    (jo : Job) (disk disk' : Disk) (f k : ℕ)
    → Fills jo disk
    → Fills jo disk'
    → length (span disk f k) ≡ length (span disk' f k)
unfolding span
length-span jo disk disk' f zero fills fills' = refl
length-span jo disk disk' f (suc k) fills fills' = omega (
  arith,
  length-append (disk f) (span disk (f + 1) k),
  length-append (disk' f) (span disk' (f + 1) k),
  fills f,
  fills' f,
  length-span jo disk disk' (f + 1) k fills fills',
)

pub read_back :
    (l : List ℕ) (offset : ℕ) (w : List ℕ)
    → offset ≤ length l
    → take (length w) (drop offset (patch l offset w)) ≡ w
read_back l offset w h =
    ap (take (length w)) (
      drop-append_ge offset 0 (take offset l) (w ++ drop (offset + length w) l)
        (omega (arith, length-take offset l, h)))
    ∙ take-append_ge (length w) 0 w (drop (offset + length w) l) (omega arith)
    ∙ append-nil w

-- A block of a job that writeblock has written is what sendblocks sends of it. Where each file has its
-- size, each block but the job's last has block_size bytes, the block's offset is inside its first
-- file, which has bytes, the block ends within the last file, and each call on the files does all that
-- is asked for, writeblock returns the block's size, and sendblocks of that one block on the disk it
-- leaves returns 0 and has sent the buffer. More turns than files are enough for both.
pub sendblocks-writeblock :
    (fuel : ℕ) (jo : Job) (disk : Disk) (buf : List ℕ) (b k : ℕ)
    → Fills jo disk
    → FullBlocks jo
    → b < jo.block_count
    → (jo.blocks b).start_f + k ≡ jo.file_count
    → has_bytes jo (jo.blocks b).start_f ≡ true
    → (jo.blocks b).start_off ≤ length (disk (jo.blocks b).start_f)
    → length buf ≡ (jo.blocks b).size
    → (jo.blocks b).start_off + (jo.blocks b).size ≤ length (span disk (jo.blocks b).start_f k)
    → k < fuel
    → (disk' : Disk) × (writeblock fuel jo disk buf (jo.blocks b) []
        ≡ some (pos (jo.blocks b).size, disk'))
      × (sendblocks fuel jo disk' b 1 [] ≡ some (pos 0, buf))
sendblocks-writeblock fuel jo disk buf b k fills full within ends from inside whole fits enough =
    let f = (jo.blocks b).start_f in
    let offset = (jo.blocks b).start_off in
    let (disk', returns, fills', laid) =
      writeblock_refines fuel jo disk buf (jo.blocks b) k fills ends from inside whole fits
        enough in
    (
      disk',
      returns,
      sendblocks_refines fuel jo disk' b 0 k fills' full (omega (arith, within)) ends from
            (omega (arith, inside, fills f, fills' f))
            (omega (arith, sizes-one jo b, fits, length-span jo disk disk' f k fills fills'))
            (omega (arith, enough))
          ∙ ap (λ s. some (pos 0, s))
              (ap
                  (λ n.
                    take n (drop (length (span disk' 0 f) + offset) (span disk' 0 jo.file_count)))
                  (sizes-one jo b ∙ sym whole)
                ∙ ap (λ n. take (length buf) (drop (n + offset) (span disk' 0 jo.file_count)))
                    (length-span jo disk' disk 0 f fills' fills)
                ∙ ap (λ l. take (length buf) (drop (length (span disk 0 f) + offset) l)) laid
                ∙ read_back (span disk 0 jo.file_count) (length (span disk 0 f) + offset) buf
                    place),
    )
  where
    place :
        length (span disk 0 (jo.blocks b).start_f) + (jo.blocks b).start_off
        ≤ length (span disk 0 jo.file_count)
    place = omega (
      arith,
      fits,
      ap length (laid_out jo disk (jo.blocks b).start_f k ends),
      length-append (span disk 0 (jo.blocks b).start_f) (span disk (jo.blocks b).start_f k),
    )
