-- ===== src/Hash.antt =====
-- The hash of a block's bytes: src/hash/xor_hash.cpp, as it is compiled with ROT_XOR_HASH and
-- HASH_BYTE_NUM_ONCE 8 of src/gingko.h.
pub mod Bytes
mod Tests
use Prim.Native.Nat.{bit_xor}
use gko_pool.Prelude.{
  ℕ, zero, suc, ◌+◌, ◌-◌, ◌*◌, ◌%◌, ◌/◌, ◌^◌, Bool, List, [], ◌∷◌, leb, ◌==◌, if◌then◌else◌, get_or,
  ◌++◌, take, drop, length,
}

-- ROLL, on 32 bits
abbrev pub roll : ℕ → ℕ
roll h = h * 16777619 % 2 ^ 32

-- hval = ROLL(hval) ^ p[i]
pub mix : ℕ → List ℕ → ℕ → ℕ
mix hval p i = bit_xor (roll hval) (get_or p i 0)

-- The loop that takes eight bytes a round, from the index `i`; a buffer of `len` bytes has at most
-- `len` rounds.
pub hash_eights : ℕ → ℕ → ℕ → List ℕ → ℕ → ℕ
hash_eights zero i len p hval = hval
hash_eights (suc fuel) i len p hval =
    let h0 = mix hval p i in
    let h1 = mix h0 p (i + 1) in
    let h2 = mix h1 p (i + 2) in
    let h3 = mix h2 p (i + 3) in
    let h4 = mix h3 p (i + 4) in
    let h5 = mix h4 p (i + 5) in
    let h6 = mix h5 p (i + 6) in
    let h7 = mix h6 p (i + 7) in
    let rest = hash_eights fuel (i + 8) len p h7 in if leb (i + 8) len then rest else hval

-- A loop that takes one byte a round, `count` times from the index `i`.
pub hash_ones : ℕ → ℕ → List ℕ → ℕ → ℕ
hash_ones zero i p hval = hval
hash_ones (suc count) i p hval = hash_ones count (i + 1) p (mix hval p i)

abbrev pub offset_basis : ℕ
offset_basis = 2166136261

-- hval ? hval : 2166136261
abbrev pub start_hash : ℕ → ℕ
start_hash hval = if hval == 0 then offset_basis else hval

-- xor_hash of `len` bytes; a length that is not negative
pub xor_hash : List ℕ → ℕ → ℕ → ℕ
xor_hash key len hval =
    hash_ones (len % 8) (len - len % 8) key (hash_eights len 0 len key (start_hash hval))

-- digest_ok, on the block's size and digest
pub digest_ok : List ℕ → ℕ → ℕ → Bool
digest_ok buf size digest = xor_hash buf size 0 == digest

-- xor_hash_file on the file's bytes, with the buffer that fread reads to; a file that ends early leaves the
-- buffer's rest as it was, which is logged only.
pub xor_hash_file : ℕ → List ℕ → ℕ → ℕ → List ℕ → ℕ
xor_hash_file value file off count buf =
    let read = take count (drop off file) in xor_hash (read ++ drop (length read) buf) count value
