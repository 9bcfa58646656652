-- ===== src/Alloc/Release.antt =====
-- The constructor of gkoAlloc and free_block, in src/memory.cpp.
use gko_pool.Prelude.{◌+◌, ◌*◌, ◌/◌, ◌%◌, ◌≤◌, ◌<◌, ◌≡◌, arith, sym, ◌⊎◌, ◌≢◌, inl, inr}
use gko_pool.Alloc.{
  Alloc, bucket_count, bucket_capacity, free_bit, release_bucket, free_block, new, update, ℕ, some,
}
use gko_pool.Alloc.Bits.{bit_clear, free_bit_flips}
use gko_pool.Alloc.Invariant.{Inv, bit_at}
use gko_pool.Alloc.Invariant.Counting.{count, count_zero}
use gko_pool.Alloc.Search.{IsBytes}
use gko_pool.Prelude.{refl, ==_iff}
use gko_pool.Alloc.Blocks.{Raises, update-Lowers, Raises-count, used-le}

-- A new allocator is well formed, and all its slots are free.
pub new-Inv : Inv new × ((id : ℕ) → bit_at new.m_map id ≡ 0)
unfolding new
new-Inv = (
  record {
    bytes = λ p. omega arith;
    counted = λ b h.
        sym (count_zero (bit_at new.m_map) (b * bucket_capacity) bucket_capacity (λ x. clear x));
    backed = λ b h k. absurd (omega arith);
    latest = omega arith;
  },
  clear,
)
  where
    clear : (id : ℕ) → bit_at (λ (i : ℕ). 0) id ≡ 0
    clear id = bit_clear (id % 8) (omega arith)

free_block-m_map :
    (a : Alloc) (id : ℕ)
    → (free_block a (some id)).m_map
      ≡ update a.m_map (id / 8) (free_bit (a.m_map (id / 8)) (id % 8))
unfolding free_block release_bucket
free_block-m_map a id = ground arith

module _ (a : Alloc) (id : ℕ) (v : Inv a) (small : id < bucket_count * bucket_capacity)
    (used : bit_at a.m_map id ≡ 1) where
  abbrev lowered : ℕ → ℕ
  lowered = update a.m_map (id / 8) (free_bit (a.m_map (id / 8)) (id % 8))

  lowered-Raises : Raises lowered a.m_map id
  lowered-Raises =
      let (byte, flip, rest) =
        free_bit_flips (a.m_map (id / 8)) (id % 8) (v.bytes (id / 8)) (omega arith) in
      let e : 8 * (id / 8) + id % 8 ≡ id = omega arith in
      rw e at (
        update-Lowers a.m_map (id / 8) (id % 8) (free_bit (a.m_map (id / 8)) (id % 8)) (omega arith)
          used (omega arith) rest)

  lowered-IsBytes : (q : ℕ) → lowered q < 256
  lowered-IsBytes q = ground (
    arith,
    v.bytes q,
    (free_bit_flips (a.m_map (id / 8)) (id % 8) (v.bytes (id / 8)) (omega arith)).0,
  )

  abbrev lowered_used : ℕ → ℕ
  lowered_used =
      update a.bucket_used (id / bucket_capacity)
        ((a.bucket_used (id / bucket_capacity) + 65535) % 65536)

  free_block-bucket_used : (free_block a (some id)).bucket_used ≡ lowered_used
  unfolding free_block release_bucket
  free_block-bucket_used = ground arith

  free_block-bucket_s :
      (b : ℕ) → ((free_block a (some id)).bucket_s b ≡ a.bucket_s b) ⊎ (lowered_used b ≡ 0)
  unfolding free_block release_bucket
  free_block-bucket_s b = ground arith

  free_block-latest : (free_block a (some id)).latest_bucket < bucket_count
  unfolding free_block release_bucket
  free_block-latest = ground (arith, v.latest)

  lowered-counted :
      (b : ℕ)
      → b < bucket_count
      → (lowered_used b ≡ count (bit_at lowered) (b * bucket_capacity) bucket_capacity)
        × (lowered_used b ≤ a.bucket_used b)
  lowered-counted b h =
      ground (arith, v.counted b h, used-le v b h, Raises-count lowered a.m_map id b lowered-Raises)

  -- Freeing a slot that is in use clears its bit and no other, and keeps the allocator well formed.
  pub free_block-Inv :
      Raises (free_block a (some id)).m_map a.m_map id × Inv (free_block a (some id))
  free_block-Inv = (
    rw (free_block-m_map a id) lowered-Raises,
    record {
      bytes = rw (free_block-m_map a id) lowered-IsBytes;
      counted = rw (free_block-m_map a id, free_block-bucket_used) (λ b h. (lowered-counted b h).0);
      backed = rw free_block-bucket_used (λ b h k. still_backed b h k (free_block-bucket_s b));
      latest = free_block-latest;
    },
  )
    where
      still_backed :
          (b : ℕ)
          → b < bucket_count
          → 0 < lowered_used b
          → ((free_block a (some id)).bucket_s b ≡ a.bucket_s b) ⊎ (lowered_used b ≡ 0)
          → (free_block a (some id)).bucket_s b ≢ 0
      still_backed b h k (inl e) = rw e (v.backed b h (omega (arith, (lowered-counted b h).1)))
      still_backed b h k (inr z) = absurd (omega arith)

-- `free_block` does not look whether the slot is in use: it flips the bit. So a second call for the
-- same slot undoes the first, and the slot is marked as it was before.
pub free_block_twice :
    (a : Alloc) (id : ℕ)
    → IsBytes a.m_map
    → let b = free_block a (some id) in
      (bit_at b.m_map id + bit_at a.m_map id ≡ 1)
      × (bit_at (free_block b (some id)).m_map id ≡ bit_at a.m_map id)
free_block_twice a id h =
    let p = id / 8 in
    let i = id % 8 in
    let (byte, flip, rest) = free_bit_flips (a.m_map p) i (h p) (omega arith) in
    let (byte', flip', rest') = free_bit_flips (free_bit (a.m_map p) i) i byte (omega arith) in
    let once = free_block-m_map a id in
    let again = free_block-m_map (free_block a (some id)) id in
    let self = (==_iff p p).1 refl in rw (again, once) (rw self (omega arith, omega arith))
