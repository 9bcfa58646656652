-- ===== src/Paths.antt =====
-- Paths as strings, src/path.cpp. A string is its bytes before the terminator, and the buffers are
-- ones whose bytes after it are zero. Pointers are never null.
pub mod Slash
pub mod Merge
pub mod Local
mod Tests
use gko_pool.Prelude.{
  ℕ, zero, suc, ◌+◌, ◌-◌, Bool, true, false, Option, none, some, List, [], ◌∷◌, ◌++◌, leb, ◌==◌,
  if◌then◌else◌, get_or, length, take, drop,
}
use gko_pool.Prelude.Int.{ℤ, pos, negsuc}
use gko_pool.Hash.{xor_hash}

-- MAX_PATH_LEN
abbrev pub max_path_len : ℕ
max_path_len = 1024

-- A string, as strncpy leaves it in a buffer of zeros and strncat after another. For a source of n bytes
-- or more strncpy writes no terminator, and what a later strlen finds is not determined: there the
-- first n bytes stand for whatever it finds, and nothing is to be said of the result.
abbrev pub strncpy : List ℕ → ℕ → List ℕ
strncpy src n = take n src

abbrev pub strncat : List ℕ → List ℕ → ℕ → List ℕ
strncat out src n = out ++ take n src

-- "/"
abbrev pub slash : List ℕ
slash = b'/' ∷ []

-- The loop of the two functions that strip slashes, from the index `i` down to 1.
pub strip_from : ℕ → List ℕ → List ℕ
strip_from zero path = path
strip_from (suc i) path =
    let rest = strip_from i (take (suc i) path) in
    if get_or path (suc i) 0 == b'/' then rest else path

pub inplace_strip_tailing_slash : List ℕ → List ℕ
inplace_strip_tailing_slash path = strip_from (length path - 1) path

pub inplace_add_tailing_slash : List ℕ → List ℕ
inplace_add_tailing_slash path =
    let out = strip_from (length path - 1) path in strncat out slash (max_path_len - length out)

-- The loop of get_base_name_index
pub base_from : ℕ → List ℕ → ℕ
base_from zero path = 0
base_from (suc i) path =
    let rest = base_from i path in if get_or path (suc i) 0 == b'/' then suc i + 1 else rest

-- get_base_name_index without an output
pub get_base_name_index : List ℕ → ℤ
get_base_name_index [] = negsuc 0
get_base_name_index (x ∷ path) = pos (base_from (length (x ∷ path)) (x ∷ path))

-- merge_path with buffers of `size` bytes: its result and the string it leaves in `out`
pub merge_within : ℕ → List ℕ → List ℕ → ℤ × List ℕ
merge_within size dir_name base_name =
    let dir = inplace_strip_tailing_slash (strncpy dir_name size) in
    let with_slash = strncat dir slash (size - length dir) in
    let out = strncat with_slash base_name (size - length with_slash) in
    if length out == size then (negsuc 0, out) else (pos 0, out)

pub merge_path : List ℕ → List ℕ → ℤ × List ℕ
merge_path dir_name base_name = merge_within max_path_len dir_name base_name

-- change_to_local_path from the index `d` on
pub change_from : ℤ → List ℕ → List ℕ → ℤ × List ℕ
change_from (pos d) path local_path =
    let base_name = strncpy (drop d path) max_path_len in
    (pos 0, inplace_strip_tailing_slash (merge_path local_path base_name).1)
change_from (negsuc d) path local_path = (negsuc 0, path)

-- change_to_local_path: its result and the string it leaves in `path`
pub change_to_local_path : List ℕ → List ℕ → List ℕ → Bool → ℤ × List ℕ
change_to_local_path path req_path local_path dst_path_exist =
    let tmp_req_path = inplace_strip_tailing_slash (strncpy req_path max_path_len) in
    let d =
      if dst_path_exist then get_base_name_index tmp_req_path else pos (length tmp_req_path + 1) in
    change_from d path local_path

-- cwd_path_to_abs_path, on what getcwd answers
pub cwd_path_to_abs_path : Option (List ℕ) → List ℕ → Option (List ℕ)
cwd_path_to_abs_path cwd [] = none
cwd_path_to_abs_path cwd (x ∷ oldpath) =
    let joined : Option (List ℕ) = elim cwd [
      | none ↦ none
      | some dir ↦
          let out = inplace_add_tailing_slash dir in
          some (strncat out (x ∷ oldpath) (max_path_len - length out))
    ] in
    if x == b'/' then some (strncpy (x ∷ oldpath) max_path_len) else joined

-- symlink_dest_to_abs_path, on what readlink and getcwd answer
pub symlink_dest_to_abs_path : Option (List ℕ) → Option (List ℕ) → List ℕ → Option (List ℕ)
symlink_dest_to_abs_path none cwd symlink = none
symlink_dest_to_abs_path (some dest) cwd symlink =
    let beside : Option (List ℕ) = elim (cwd_path_to_abs_path cwd symlink) [
      | none ↦ none
      | some abs_path ↦ elim (get_base_name_index abs_path) [
        | negsuc n ↦ none
        | pos idx ↦ some (strncat (take idx abs_path) (strncpy dest max_path_len) max_path_len)
      ]
    ] in
    if get_or dest 0 0 == b'/' then some dest else beside
