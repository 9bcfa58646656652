-- ===== src/Alloc/Bits.antt =====
-- get_bit, free_bit and the search for a byte with a clear bit, in src/memory.cpp.
use gko_pool.Prelude.{
  ℕ, zero, suc, ◌+◌, ◌-◌, ◌/◌, ◌%◌, ◌^◌, ◌<◌, ◌≡◌, ◌≢◌, refl, arith, Bool, ◌+◌, ◌≢◌, true, ◌&&◌,
  ◌||◌, ltb, leb, ◌==◌,
}
use gko_pool.Alloc.{get_bit, free_bit}

-- The bit at index `i`, counted from the top, of a byte.
abbrev pub bit : ℕ → ℕ → ℕ
bit b i = b / 2 ^ (7 - i) % 2

-- A test that holds of all numbers below a bound.
every : (ℕ → Bool) → ℕ → Bool
every test zero = true
every test (suc bound) = every test bound && test bound

every_holds : (test : ℕ → Bool) (bound n : ℕ) → n < bound → every test bound ≡ true → test n ≡ true
unfolding every
every_holds test zero n l e = absurd (omega arith)
every_holds test (suc bound) n l e = ground (arith, every_holds test bound n)

ok_get : ℕ → Bool
ok_get b = let (i, c) = get_bit b in ltb i 8 && ltb c 256 && (bit b i == 0) && (bit c i == 1)

keeps_others : ℕ → Bool
keeps_others b = let (i, c) = get_bit b in every (λ j. (i == j) || (bit c j == bit b j)) 8

is_first : ℕ → Bool
is_first b = every (λ j. leb (get_bit b).0 j || (bit b j == 1)) 8

ok_get_table : every ok_get 255 ≡ true
unfolding ok_get every get_bit
ok_get_table = refl

keeps_others_table : every keeps_others 255 ≡ true
unfolding keeps_others every get_bit
keeps_others_table = refl

is_first_table : every is_first 255 ≡ true
unfolding is_first every get_bit
is_first_table = refl

ok_free : ℕ → ℕ → Bool
ok_free b i = let c = free_bit b i in ltb c 256 && (bit c i + bit b i == 1)

frees_only : ℕ → ℕ → Bool
frees_only b i = every (λ j. (i == j) || (bit (free_bit b i) j == bit b j)) 8

ok_free_table : every (λ b. every (ok_free b) 8) 256 ≡ true
unfolding ok_free every free_bit
ok_free_table = refl

frees_only_table : every (λ b. every (frees_only b) 8) 256 ≡ true
unfolding frees_only every free_bit
frees_only_table = refl

get_bit_ok :
    (b : ℕ)
    → b < 255
    → let (i, c) = get_bit b in (i < 8) × (c < 256) × (bit b i ≡ 0) × (bit c i ≡ 1)
unfolding ok_get
get_bit_ok b h = ground (arith, every_holds ok_get 255 b h ok_get_table)

get_bit_others : (b j : ℕ) → b < 255 → j < 8 → (get_bit b).0 ≢ j → bit (get_bit b).1 j ≡ bit b j
unfolding keeps_others
get_bit_others b j h l n =
    ground (arith, every_holds _ 8 j l (every_holds keeps_others 255 b h keeps_others_table))

get_bit_first : (b j : ℕ) → b < 255 → j < (get_bit b).0 → bit b j ≡ 1
unfolding is_first
get_bit_first b j h l = ground (
  arith,
  get_bit_ok b h,
  every_holds _ 8 j (omega (arith, get_bit_ok b h)) (every_holds is_first 255 b h is_first_table),
)

-- `get_bit` of a byte with a clear bit finds the first clear bit from the top, sets it and leaves
-- the other bits as they were.
pub get_bit_first_clear :
    (b : ℕ)
    → b < 255
    → let (i, c) = get_bit b in
      (i < 8)
      × (c < 256)
      × (bit b i ≡ 0)
      × (bit c i ≡ 1)
      × ((j : ℕ) → j < 8 → i ≢ j → bit c j ≡ bit b j)
      × ((j : ℕ) → j < i → bit b j ≡ 1)
get_bit_first_clear b h =
    let (small, byte, was, now) = get_bit_ok b h in
    (small, byte, was, now, λ j. get_bit_others b j h, λ j. get_bit_first b j h)

-- `free_bit` flips the one bit that it is given: a used slot becomes free, a free one becomes used.
pub free_bit_flips :
    (b i : ℕ)
    → b < 256
    → i < 8
    → (free_bit b i < 256)
      × (bit (free_bit b i) i + bit b i ≡ 1)
      × ((j : ℕ) → j < 8 → i ≢ j → bit (free_bit b i) j ≡ bit b j)
unfolding ok_free frees_only
free_bit_flips b i h l =
    let t = every_holds _ 8 i l (every_holds _ 256 b h ok_free_table) in
    let u = every_holds _ 8 i l (every_holds _ 256 b h frees_only_table) in
    (ground (arith, t), ground (arith, t), λ j k n. ground (arith, every_holds _ 8 j k u))

full_table : every (λ j. bit 255 j == 1) 8 ≡ true
unfolding every
full_table = refl

-- All the bits of the byte 255 are set.
pub bit_full : (j : ℕ) → j < 8 → bit 255 j ≡ 1
bit_full j h = ground (arith, every_holds (λ j. bit 255 j == 1) 8 j h full_table)

clear_table : every (λ j. bit 0 j == 0) 8 ≡ true
unfolding every
clear_table = refl

-- All the bits of the byte 0 are clear.
pub bit_clear : (j : ℕ) → j < 8 → bit 0 j ≡ 0
bit_clear j h = ground (arith, every_holds (λ j. bit 0 j == 0) 8 j h clear_table)
