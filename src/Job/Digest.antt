-- ===== src/Job/Digest.antt =====
-- xor_hash_block of src/hash/xor_hash.cpp: the digest of a block from its files.
pub mod Pieces
pub mod Written
use gko_pool.Prelude.{
  ℕ, zero, suc, ◌+◌, ◌-◌, ◌≤◌, ◌<◌, ◌≡◌, refl, arith, true, false, Option, none, some, ◌==◌, length,
  take, drop,
}
use gko_pool.Hash.{xor_hash}
use gko_pool.Job.{Job, Disk, next_f, at_most}

-- The loop of xor_hash_block, where each open and pread succeeds: `opened` is the number of the file
-- that is open, `file_i` the one that next_f goes on from, `left` what is still to be read. None where
-- the fuel has run out or next_f does not return.
pub hash_loop : ℕ → Job → Disk → ℕ → ℕ → ℕ → ℕ → ℕ → ℕ → Option ℕ
hash_loop zero jo disk start_f opened file_i offset left hash = none
hash_loop (suc fuel) jo disk start_f opened file_i offset zero hash = some hash
hash_loop (suc fuel) jo disk start_f opened file_i offset (suc left) hash =
    let tmp = at_most (suc left) (length (disk opened) - offset) in
    let piece = take tmp (drop offset (disk opened)) in
    elim (tmp == 0) [
      | true ↦ elim (next_f jo file_i) [
        | none ↦ none
        | some next ↦ hash_loop fuel jo disk start_f (start_f + next) next 0 (suc left) hash
      ]
      | false ↦
          hash_loop fuel jo disk start_f opened file_i (offset + tmp) (suc left - tmp)
            (xor_hash piece tmp hash)
    ]

pub xor_hash_block : ℕ → Job → Disk → ℕ → Option ℕ
xor_hash_block fuel jo disk block_id =
    let b = jo.blocks block_id in
    hash_loop fuel jo disk b.start_f b.start_f b.start_f b.start_off b.size 0

pub hash_loop_done :
    (fuel : ℕ) (jo : Job) (disk : Disk) (start_f opened file_i offset left hash : ℕ)
    → 0 < fuel
    → left ≡ 0
    → hash_loop fuel jo disk start_f opened file_i offset left hash ≡ some hash
unfolding hash_loop
hash_loop_done zero jo disk start_f opened file_i offset left hash l e = absurd (omega (arith, l))
hash_loop_done (suc fuel) jo disk start_f opened file_i offset zero hash l e = refl
hash_loop_done (suc fuel) jo disk start_f opened file_i offset (suc left) hash l e =
    absurd (omega (arith, e))

one_piece :
    (fuel : ℕ) (jo : Job) (disk : Disk) (f offset left hash : ℕ)
    → 1 < fuel
    → 0 < left
    → offset + left ≤ length (disk f)
    → hash_loop fuel jo disk f f f offset left hash
      ≡ some (xor_hash (take left (drop offset (disk f))) left hash)
unfolding hash_loop
one_piece zero jo disk f offset left hash l m fits = absurd (omega (arith, l))
one_piece (suc fuel) jo disk f offset zero hash l m fits = absurd (omega (arith, m))
one_piece (suc fuel) jo disk f offset (suc left) hash l m fits =
    rw (some_read, hash_loop, all)
      (hash_loop_done fuel jo disk f f f (offset + suc left) (suc left - suc left)
        (xor_hash (take (suc left) (drop offset (disk f))) (suc left) hash) (omega (arith, l))
        (omega arith))
  where
    all : at_most (suc left) (length (disk f) - offset) ≡ suc left
    all = ground (arith, fits)

    some_read : (at_most (suc left) (length (disk f) - offset) == 0) ≡ false
    some_read = ground (arith, fits)

-- The digest of a block that lies inside one file is the hash of its bytes there.
pub xor_hash_block_inside :
    (fuel : ℕ) (jo : Job) (disk : Disk) (b : ℕ)
    → 1 < fuel
    → 0 < (jo.blocks b).size
    → (jo.blocks b).start_off + (jo.blocks b).size ≤ length (disk (jo.blocks b).start_f)
    → xor_hash_block fuel jo disk b
      ≡ some (
          xor_hash
            (take (jo.blocks b).size (drop (jo.blocks b).start_off (disk (jo.blocks b).start_f)))
            (jo.blocks b).size
            0)
unfolding xor_hash_block
xor_hash_block_inside fuel jo disk b l some_left fits =
    one_piece fuel jo disk (jo.blocks b).start_f (jo.blocks b).start_off (jo.blocks b).size 0 l
      some_left fits
