-- ===== src/Hash/Tests.antt =====
-- A witness of the theorem on hashes, src/hash/xor_hash.cpp.
use gko_pool.Prelude.{◌≡◌, List, [], ◌∷◌, ◌++◌, length}
use gko_pool.Hash.{xor_hash, start_hash, ℕ}
use gko_pool.Hash.Bytes.{fold_hash, xor_hash-fold_hash}

-- Ten bytes, one round of eight and two more, and a byte after them.
abbrev ten : List ℕ
ten = 3 ∷ 1 ∷ 4 ∷ 1 ∷ 5 ∷ 9 ∷ 2 ∷ 6 ∷ 5 ∷ 3 ∷ []

xor_hash-fold_hash_example : xor_hash (ten ++ 7 ∷ []) (length ten) 0 ≡ fold_hash (start_hash 0) ten
xor_hash-fold_hash_example = xor_hash-fold_hash ten (7 ∷ []) 0
