-- ===== src/Alloc.antt =====
-- The block allocator of src/memory.cpp and src/memory.h: 256 buckets of 4096 slots, a bitmap with
-- a bit for each slot, and a count of the slots in use for each bucket.
use Prim.Native.Nat.{bit_or, bit_xor}
use gko_pool.Prelude.{
  ℕ, zero, suc, ◌+◌, ◌-◌, ◌*◌, ◌/◌, ◌%◌, ◌^◌, Bool, ◌&&◌, ◌||◌, not, Option, none, some, ltb, leb,
  ◌==◌, if◌then◌else◌,
}
mod Bits
mod Search
pub mod Invariant
pub mod Blocks
pub mod Release
pub mod Ownership
pub mod Shares
mod Tests

abbrev pub slot_size : ℕ
slot_size = 4096

abbrev pub bucket_capacity : ℕ
bucket_capacity = 4096

abbrev pub bucket_count : ℕ
bucket_count = 256

-- An array is a function of the index; a pointer is its address, and 0 is NULL.
pub record Alloc : Type 0 where
  pub m_map : ℕ → ℕ  -- u_int8_t
  pub bucket_s : ℕ → ℕ  -- void *
  pub bucket_used : ℕ → ℕ  -- the 16-bit pattern of an int16_t
  pub latest_bucket : ℕ

-- The array with `v` at index `i`.
abbrev pub update : (ℕ → ℕ) → ℕ → ℕ → ℕ → ℕ
update f i v j = if i == j then v else f j

-- gkoAlloc::gkoAlloc
pub new : Alloc
new = record { m_map = λ i. 0; bucket_s = λ i. 0; bucket_used = λ i. 0; latest_bucket = 0 }

-- A negative block number is `none`.
pub id2addr : Alloc → Option ℕ → ℕ
id2addr a none = 0
id2addr a (some block_id) =
    a.bucket_s (block_id / bucket_capacity) + slot_size * (block_id % bucket_capacity)

-- The loop of `get_bit`: the first `i` at which the bit, counted from the top, is clear.
scan_bits : ℕ → ℕ → ℕ → ℕ
scan_bits zero i b = i
scan_bits (suc rounds) i b =
    let rest = scan_bits rounds (i + 1) b in if b / 2 ^ (7 - i) * 128 % 256 == 0 then i else rest

-- gkoAlloc::get_bit: the index of the bit, and the byte with it set. (For a byte of eight ones the
-- source shifts by -1; `get_block` never calls it so.)
pub get_bit : ℕ → ℕ × ℕ
unfolding scan_bits
get_bit b = let i = scan_bits 8 0 b in (i, bit_or b (2 ^ (7 - i) % 256))

-- gkoAlloc::free_bit: the byte with the bit flipped.
pub free_bit : ℕ → ℕ → ℕ
free_bit b index = bit_xor b (2 ^ (7 - index) % 256)

-- Little-endian words of 2 and 4 bytes.
abbrev pub u16 : ℕ → ℕ → ℕ
u16 b0 b1 = b0 + 256 * b1

abbrev pub u32 : ℕ → ℕ → ℕ → ℕ → ℕ
u32 b0 b1 b2 b3 = u16 b0 b1 + 65536 * u16 b2 b3

-- `*(u_int64_t *) bucket_idx != ~0uLL`
pub word_has_room : (b0 b1 b2 b3 b4 b5 b6 b7 : ℕ) → Bool
word_has_room b0 b1 b2 b3 b4 b5 b6 b7 =
    not (u32 b0 b1 b2 b3 + 4294967296 * u32 b4 b5 b6 b7 == 18446744073709551615)

-- The ladder of tests that halves the word: the offset of `p_idx` in the word.
pub pick_byte : (b0 b1 b2 b3 b4 b5 b6 b7 : ℕ) → ℕ
pick_byte b0 b1 b2 b3 b4 b5 b6 b7 =
    if not (u32 b0 b1 b2 b3 == 4294967295)
    then (if not (u16 b0 b1 == 65535)
        then (if not (b0 == 255) then 0 else 1)
        else (if not (b2 == 255) then 2 else 3))
    else (if not (u16 b4 b5 == 65535)
        then (if not (b4 == 255) then 4 else 5)
        else (if not (b6 == 255) then 6 else 7))

-- The loop over the words of a bucket's bitmap, from byte `p`: the byte that has a clear bit.
pub find_byte : ℕ → ℕ → (ℕ → ℕ) → Option ℕ
find_byte zero p m = none
find_byte (suc rounds) p m =
    let rest = find_byte rounds (p + 8) m in
    if word_has_room (m p) (m (p + 1)) (m (p + 2)) (m (p + 3)) (m (p + 4)) (m (p + 5)) (m (p + 6))
      (m (p + 7))
    then some (
        p
        + pick_byte (m p) (m (p + 1)) (m (p + 2)) (m (p + 3)) (m (p + 4)) (m (p + 5)) (m (p + 6))
            (m (p + 7)))
    else rest

-- `used < BUCKET_CAPACITY`, for an int16_t pattern.
abbrev pub has_room : ℕ → Bool
has_room used = ltb used bucket_capacity || leb 32768 used

-- The loop over the buckets, from the latest one on.
pub find_bucket : ℕ → ℕ → ℕ → (ℕ → ℕ) → Option ℕ
find_bucket zero i latest used = none
find_bucket (suc rounds) i latest used =
    let rest = find_bucket rounds (i + 1) latest used in
    let the_bucket = (latest + i) % bucket_count in
    if has_room (used the_bucket) then some the_bucket else rest

-- The memory of the bucket: what posix_memalign gives, 0 if it fails, where there is none yet.
pub ensure_bucket : Alloc → ℕ → ℕ → Option Alloc
ensure_bucket a the_bucket memalign =
    if a.bucket_s the_bucket == 0
    then (if memalign == 0
        then none
        else some (record a {
          bucket_s = update a.bucket_s the_bucket memalign;
          bucket_used = update a.bucket_used the_bucket 0;
        }))
    else some a

-- The bit is set and counted in `the_bucket`.
pub take_slot : Alloc → ℕ → ℕ → Alloc × Option ℕ
take_slot a the_bucket p =
    let start = the_bucket * bucket_capacity / 8 in
    let (i, b) = get_bit (a.m_map p) in
    (
      record a {
        m_map = update a.m_map p b;
        bucket_used = update a.bucket_used the_bucket ((a.bucket_used the_bucket + 1) % 65536);
      },
      some (i + 8 * (p - start) + the_bucket * bucket_capacity),
    )

-- gkoAlloc::get_block. `memalign` is what posix_memalign gives if it is called, 0 if it fails; the
-- result `none` is INVILID_BLOCK.
pub get_block : Alloc → ℕ → Alloc × Option ℕ
get_block a memalign = elim (find_bucket bucket_count 0 a.latest_bucket a.bucket_used) [
  | none ↦ (a, none)
  | some the_bucket ↦ elim (ensure_bucket a the_bucket memalign) [
    | none ↦ (a, none)
    | some a' ↦ elim (find_byte 64 (the_bucket * bucket_capacity / 8) a'.m_map) [
      | none ↦ (a', none)
      | some p ↦ take_slot a' the_bucket p
    ]
  ]
]

-- The last part of `free_block`: an empty bucket other than the first gives its memory back.
pub release_bucket : Alloc → ℕ → Alloc
release_bucket a bucket_no =
    let used = (a.bucket_used bucket_no + 65535) % 65536 in
    let a' = record a { bucket_used = update a.bucket_used bucket_no used } in
    if used == 0 && not (bucket_no == 0)
    then record a' { bucket_s = update a.bucket_s bucket_no 0 }
    else record a' { latest_bucket = bucket_no }

-- gkoAlloc::free_block. A negative block number does nothing.
pub free_block : Alloc → Option ℕ → Alloc
free_block a none = a
free_block a (some block_id) =
    release_bucket
      (record a {
        m_map = update a.m_map (block_id / 8) (free_bit (a.m_map (block_id / 8)) (block_id % 8));
      })
      (block_id / bucket_capacity)
