-- ===== src/Job/Sending.antt =====
-- sendblocks of src/gingko_base.cpp: it sends a range of the files laid end to end.
use mathlib.Core.List.{append-nil}
use gko_pool.Prelude.{
  ℕ, zero, suc, ◌+◌, ◌-◌, ◌*◌, ◌≤◌, ◌<◌, ◌≡◌, refl, sym, ap, ◌∙◌, arith, true, false, some, [], leb,
  leb→le, ◌==◌, if◌then◌else◌, Bool-cases, inl, inr, length, take, drop,
}
use gko_pool.Prelude.Int.{pos}
use gko_pool.Job.{Job, Disk, block_size, has_bytes, blocks_loop, sendblocks, ℕ, suc, ◌+◌, ◌-◌}
use gko_pool.Job.Patch.{drop-append_ge}
use gko_pool.Job.Span.{span, Fills, laid_out}
use gko_pool.Job.Rounds.{sizes}
use gko_pool.Job.SendRound.{SentRange, round-Sent}

blocks_loop-SentRange : (fuel : ℕ) (jo : Job) (disk : Disk) → SentRange jo disk fuel
unfolding blocks_loop span sizes
blocks_loop-SentRange zero jo disk f k offset b n block_left total out fills ends inside sum fits
      within from enough =
    absurd (omega arith)
blocks_loop-SentRange (suc fuel) jo disk f k offset b n block_left zero out fills ends inside sum
      fits within from enough =
    ap (λ s. some (pos 0, s)) (sym (append-nil out))
blocks_loop-SentRange (suc fuel) jo disk f zero offset b n block_left (suc left) out fills ends
      inside sum fits within from enough =
    absurd (omega arith)
blocks_loop-SentRange (suc fuel) jo disk f (suc k) offset b n block_left (suc left) out fills ends
      inside sum fits within from enough =
    round-Sent fuel jo disk f k offset b n block_left left out fills ends inside sum fits within
      from enough (blocks_loop-SentRange fuel jo disk)

-- The blocks of a job that are as sendblocks takes them to be: each but the last has block_size.
abbrev pub FullBlocks : Job → Type 0
FullBlocks jo = (i : ℕ) → i + 1 < jo.block_count → (jo.blocks i).size ≡ block_size

sizes-suc : (jo : Job) (b n : ℕ) → (jo.blocks b).size + sizes jo (b + 1) n ≡ sizes jo b (suc n)
unfolding sizes
sizes-suc jo b n = refl

pub sizes-one : (jo : Job) (b : ℕ) → sizes jo b 1 ≡ (jo.blocks b).size
unfolding sizes
sizes-one jo b = omega arith

some_blocks : (n : ℕ) → (suc n == 0) ≡ false
some_blocks n = ground arith

-- The number of bytes that sendblocks sends.
sizes-total :
    (jo : Job) (start n : ℕ)
    → FullBlocks jo
    → start + suc n < jo.block_count + 1
    → sizes jo start (suc n)
      ≡ block_size * (suc n - 1)
        + (if leb jo.block_count (start + suc n)
            then (jo.blocks (jo.block_count - 1)).size
            else block_size)
unfolding sizes
sizes-total jo start zero full l = elim (Bool-cases (leb jo.block_count (start + 1))) [
  | inl e ↦ rw e (
      omega (
        arith,
        ap (λ b. (jo.blocks b).size) {x = start} {y = jo.block_count - 1}
            (omega (arith, leb→le _ _ e, l)),
      ))
  | inr e ↦ rw e (omega (arith, full start (ground arith)))
]
sizes-total jo start (suc n) full l =
    let last : ℕ → ℕ =
      λ k. if leb jo.block_count k then (jo.blocks (jo.block_count - 1)).size else block_size in
    omega (
      arith,
      full start (omega (arith, l)),
      sizes-total jo (start + 1) n full (omega (arith, l)),
      ap last {x = start + 1 + suc n} {y = start + suc (suc n)} (omega arith),
    )

-- sendblocks of blocks that the job has refines one read of the files laid end to end. Where each file
-- has its size, each block but the job's last has block_size bytes, the first block's offset is inside
-- its first file, which has bytes, the blocks end within the last file, and each call of open and
-- sendfileall succeeds, it returns 0 and what it has sent are the bytes of the files end to end from
-- the first block's place on, as many as the blocks have in all. More turns than files and blocks are
-- enough.
pub sendblocks_refines :
    (fuel : ℕ) (jo : Job) (disk : Disk) (start n k : ℕ)
    → Fills jo disk
    → FullBlocks jo
    → start + n < jo.block_count
    → (jo.blocks start).start_f + k ≡ jo.file_count
    → has_bytes jo (jo.blocks start).start_f ≡ true
    → (jo.blocks start).start_off ≤ length (disk (jo.blocks start).start_f)
    → (jo.blocks start).start_off + sizes jo start (suc n)
      ≤ length (span disk (jo.blocks start).start_f k)
    → k + n < fuel
    → sendblocks fuel jo disk start (suc n) []
      ≡ some (
        pos 0,
        take (sizes jo start (suc n)) (
            drop
              (length (span disk 0 (jo.blocks start).start_f) + (jo.blocks start).start_off)
              (span disk 0 jo.file_count)),
      )
unfolding sendblocks
sendblocks_refines fuel jo disk start n k fills full within ends from inside fits enough =
    let f = (jo.blocks start).start_f in
    let offset = (jo.blocks start).start_off in
    let total = sizes jo start (suc n) in
    rw (some_blocks n, sendblocks, sym (sizes-total jo start n full (omega (arith, within))))
      (blocks_loop-SentRange fuel jo disk f k offset start n (jo.blocks start).size total [] fills
          ends inside (sizes-suc jo start n) fits within (λ _. from) enough
        ∙ ap (λ s. some (pos 0, take total s))
            (sym (
                drop-append_ge (length (span disk 0 f) + offset) offset (span disk 0 f)
                  (span disk f k) refl)
              ∙ ap (drop (length (span disk 0 f) + offset)) (sym (laid_out jo disk f k ends))))
