-- ===== src/Paths/Tests.antt =====
-- Witnesses of the theorems on paths, src/path.cpp.
use gko_pool.Prelude.{
  ◌≡◌, ◌≤◌, ◌<◌, ◌⊎◌, ◌+◌, arith, List, [], ◌∷◌, ◌++◌, length, take, drop, zero, suc,
}
use gko_pool.Prelude.Int.{pos, negsuc}
use gko_pool.Paths.{max_path_len, merge_path, get_base_name_index, ℕ}
use gko_pool.Paths.Merge.{IsName, merge_path-bounds, merge_path-get_base_name_index}

-- "../t", and a name, ".D".
abbrev request : List ℕ
request = b'.' ∷ b'.' ∷ b'/' ∷ b't' ∷ []

abbrev name : List ℕ
name = b'.' ∷ b'D' ∷ []

name-IsName : IsName name
name-IsName zero e = ground arith
name-IsName (suc zero) e = ground arith
name-IsName (suc (suc i)) e = ground arith

merge_path-get_base_name_index_example :
    (merge_path request name ≡ (pos 0, request ++ b'/' ∷ name))
    × (get_base_name_index ((merge_path request name).1) ≡ pos (length request + 1))
    × (merge_path
          (take (length request + 1) ((merge_path request name).1))
          (drop (length request + 1) ((merge_path request name).1))
        ≡ merge_path request name)
merge_path-get_base_name_index_example =
    merge_path-get_base_name_index request name (omega arith) (λ more e. ground arith) name-IsName
      (omega arith)

merge_path-bounds_example :
    (length ((merge_path request name).1) ≤ max_path_len)
    × ((((merge_path request name).0 ≡ negsuc 0)
          × (length ((merge_path request name).1) ≡ max_path_len))
        ⊎ (((merge_path request name).0 ≡ pos 0)
            × (length ((merge_path request name).1) < max_path_len)))
merge_path-bounds_example = merge_path-bounds request name (omega arith)
