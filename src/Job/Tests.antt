-- ===== src/Job/Tests.antt =====
-- Witnesses of the theorems on blocks, src/gingko_base.cpp.
use gko_pool.Prelude.{
  ℕ, zero, suc, ◌+◌, arith, get_or, ◌≡◌, refl, some, [], ◌∷◌, length, take, drop, arith, ◌≤◌,
}
use gko_pool.Prelude.Int.{ℤ, pos, negsuc}
use gko_pool.Hash.{xor_hash, start_hash}
use gko_pool.Hash.Bytes.{fold_hash}
use gko_pool.Job.Digest.{xor_hash_block}
use gko_pool.Job.Digest.Pieces.{NeverZero}
use gko_pool.Job.Digest.Written.{xor_hash_block-writeblock}
use gko_pool.Job.{Job, Disk, patch, writeblock, sendblocks}
use gko_pool.Job.Span.{span, Fills}
use gko_pool.Job.Writing.{writeblock_refines}
use gko_pool.Job.Sending.{FullBlocks, sizes-one, sendblocks_refines}
use gko_pool.Job.Rounds.{sizes}
use gko_pool.Job.RoundTrip.{sendblocks-writeblock}

-- A directory, a file of three bytes, an empty one and one of four; and a block of four bytes from the
-- byte 1 of the first file on.
abbrev sample_size : ℕ → ℤ
sample_size i = get_or (negsuc 0 ∷ pos 3 ∷ pos 0 ∷ pos 4 ∷ []) i (negsuc 0)

abbrev sample_job : Job
sample_job = record {
  file_size = sample_size;
  file_count = 4;
  blocks = λ b. record { size = 4; start_off = 1; start_f = 1; digest = 0 };
  block_count = 1;
}

abbrev sample_disk : Disk
sample_disk i = get_or ([] ∷ (10 ∷ 11 ∷ 12 ∷ []) ∷ [] ∷ (30 ∷ 31 ∷ 32 ∷ 33 ∷ []) ∷ []) i []

sample_disk-Fills : Fills sample_job sample_disk
sample_disk-Fills zero = refl
sample_disk-Fills (suc zero) = refl
sample_disk-Fills (suc (suc zero)) = refl
sample_disk-Fills (suc (suc (suc zero))) = refl
sample_disk-Fills (suc (suc (suc (suc n)))) = refl

writeblock_refines_example :
    (disk' : Disk) × (writeblock 4 sample_job sample_disk
        (1 ∷ 2 ∷ 3 ∷ 4 ∷ [])
        (sample_job.blocks 0)
        []
      ≡ some (pos 4, disk'))
    × Fills sample_job disk'
    × (span disk' 0 4
        ≡ patch (span sample_disk 0 4) (length (span sample_disk 0 1) + 1) (1 ∷ 2 ∷ 3 ∷ 4 ∷ []))
unfolding span
writeblock_refines_example =
    writeblock_refines 4 sample_job sample_disk (1 ∷ 2 ∷ 3 ∷ 4 ∷ []) (sample_job.blocks 0) 3
      sample_disk-Fills refl refl (omega arith) refl (omega arith) (omega arith)

one_block-FullBlocks : FullBlocks sample_job
one_block-FullBlocks i l = absurd (omega (arith, l))

sendblocks_refines_example :
    sendblocks 4 sample_job sample_disk 0 1 []
    ≡ some (
      pos 0,
      take (sizes sample_job 0 1) (drop (length (span sample_disk 0 1) + 1) (span sample_disk 0 4)),
    )
unfolding span
sendblocks_refines_example =
    sendblocks_refines 4 sample_job sample_disk 0 0 3 sample_disk-Fills one_block-FullBlocks
      (omega arith) refl refl (omega arith) (omega (arith, sizes-one sample_job 0)) (omega arith)

sendblocks-writeblock_example :
    (disk' : Disk) × (writeblock 4 sample_job sample_disk
        (1 ∷ 2 ∷ 3 ∷ 4 ∷ [])
        (sample_job.blocks 0)
        []
      ≡ some (pos 4, disk'))
    × (sendblocks 4 sample_job disk' 0 1 [] ≡ some (pos 0, 1 ∷ 2 ∷ 3 ∷ 4 ∷ []))
unfolding span
sendblocks-writeblock_example =
    sendblocks-writeblock 4 sample_job sample_disk (1 ∷ 2 ∷ 3 ∷ 4 ∷ []) 0 3 sample_disk-Fills
      one_block-FullBlocks (omega arith) refl refl (omega arith) refl (omega arith) (omega arith)

-- A job of two files, with a block of four bytes over both.
abbrev two_files : Job
two_files = record {
  file_size = λ i. get_or (pos 3 ∷ pos 4 ∷ []) i (negsuc 0);
  file_count = 2;
  blocks = λ b. record { size = 4; start_off = 1; start_f = 0; digest = 0 };
  block_count = 1;
}

abbrev two_file_disk : Disk
two_file_disk i = get_or ((10 ∷ 11 ∷ 12 ∷ []) ∷ (30 ∷ 31 ∷ 32 ∷ 33 ∷ []) ∷ []) i []

two_file_disk-Fills : Fills two_files two_file_disk
two_file_disk-Fills zero = refl
two_file_disk-Fills (suc zero) = refl
two_file_disk-Fills (suc (suc n)) = refl

never_zero : NeverZero (start_hash 0) (1 ∷ 2 ∷ 3 ∷ 4 ∷ [])
unfolding fold_hash
never_zero zero l m z = absurd (omega (arith, l))
never_zero (suc zero) l m z = omega (arith, z)
never_zero (suc (suc zero)) l m z = omega (arith, z)
never_zero (suc (suc (suc zero))) l m z = omega (arith, z)
never_zero (suc (suc (suc (suc n)))) l m z = absurd (omega (arith, m))

xor_hash_block-writeblock_example :
    (disk' : Disk) × (writeblock 5 two_files two_file_disk
        (1 ∷ 2 ∷ 3 ∷ 4 ∷ [])
        (two_files.blocks 0)
        []
      ≡ some (pos 4, disk'))
    × (xor_hash_block 5 two_files disk' 0 ≡ some (xor_hash (1 ∷ 2 ∷ 3 ∷ 4 ∷ []) 4 0))
unfolding span
xor_hash_block-writeblock_example =
    xor_hash_block-writeblock 5 two_files two_file_disk (1 ∷ 2 ∷ 3 ∷ 4 ∷ []) 0 two_file_disk-Fills
      refl refl (omega arith) (omega arith) refl fits_two never_zero (omega arith)
  where
    fits_two : 1 + 4 ≤ length (span two_file_disk 0 2)
    fits_two = omega arith
