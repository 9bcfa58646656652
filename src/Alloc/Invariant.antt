-- ===== src/Alloc/Invariant.antt =====
-- The state of gkoAlloc (src/memory.cpp) between two calls: the counts agree with the bitmap, and a
-- bucket with a slot in use has its memory.
pub mod Counting
use gko_pool.Prelude.{ℕ, ◌+◌, ◌*◌, ◌/◌, ◌%◌, ◌<◌, ◌≡◌, ◌≢◌, refl, arith}
use gko_pool.Alloc.{Alloc, bucket_count, bucket_capacity}
use gko_pool.Alloc.Bits.{bit}
use gko_pool.Alloc.Search.{IsBytes}
use Counting.{count}

-- The bit of a slot: 1 where the slot is in use.
abbrev pub bit_at : (ℕ → ℕ) → ℕ → ℕ
bit_at m id = bit (m (id / 8)) (id % 8)

pub record Inv (a : Alloc) : Type 0 where
  pub bytes : IsBytes a.m_map
  pub counted :
      (b : ℕ)
      → b < bucket_count
      → a.bucket_used b ≡ count (bit_at a.m_map) (b * bucket_capacity) bucket_capacity
  pub backed : (b : ℕ) → b < bucket_count → 0 < a.bucket_used b → a.bucket_s b ≢ 0
  pub latest : a.latest_bucket < bucket_count
