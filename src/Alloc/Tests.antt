-- ===== src/Alloc/Tests.antt =====
-- Runs and witnesses of the allocator.
use gko_pool.Prelude.{ℕ, ◌≡◌, refl, arith, [], ◌∷◌, some, sym}
use gko_pool.Alloc.{
  Alloc, new, get_block, free_block, get_bit, free_bit, find_bucket, find_byte, ensure_bucket,
  take_slot, word_has_room, pick_byte, release_bucket,
}
use gko_pool.Alloc.Invariant.{bit_at}
use gko_pool.Alloc.Release.{free_block_twice}
use gko_pool.Alloc.Ownership.{History, start, got, Accounts, History-Accounts, get_block_available}

-- The first two blocks are 0 and 1, and block 0 comes back after it is freed.
abbrev one_taken : Alloc
one_taken = (get_block new 65536).0

abbrev two_taken : Alloc
two_taken = (get_block one_taken 65536).0

first_block : (get_block new 65536).1 ≡ some 0
unfolding get_block new find_bucket ensure_bucket find_byte take_slot get_bit word_has_room
    pick_byte
first_block = refl

second_block : (get_block one_taken 65536).1 ≡ some 1
unfolding get_block new find_bucket ensure_bucket find_byte take_slot get_bit word_has_room
    pick_byte
second_block = refl

reused_block : (get_block (free_block two_taken (some 0)) 65536).1 ≡ some 0
unfolding get_block new find_bucket ensure_bucket find_byte take_slot get_bit word_has_room
    pick_byte free_block release_bucket free_bit
reused_block = refl

one_held : History one_taken (0 ∷ [])
one_held = got 65536 0 start first_block

held_bit : bit_at one_taken.m_map 0 ≡ 1
held_bit = sym ((History-Accounts one_held).held 0)

free_block_twice_example :
    bit_at (free_block (free_block one_taken (some 0)) (some 0)).m_map 0 ≡ bit_at one_taken.m_map 0
free_block_twice_example =
    (free_block_twice one_taken 0 (History-Accounts one_held).well_formed.bytes).1

History-Accounts_example : Accounts one_taken (0 ∷ [])
History-Accounts_example = History-Accounts one_held

get_block_available_example : (id : ℕ) × ((get_block one_taken 65536).1 ≡ some id)
get_block_available_example = get_block_available 65536 7 one_held (omega arith) (omega arith) refl
