-- ===== src/Paths/Local.antt =====
-- change_to_local_path of src/path.cpp.
use mathlib.Core.List.{append_assoc}
use gko_pool.Prelude.{
  ℕ, suc, ◌+◌, ◌≤◌, ◌<◌, ◌≡◌, refl, ap, ◌∙◌, arith, true, false, List, [], ◌∷◌, ◌++◌, length,
  length-append, take, drop,
}
use gko_pool.Prelude.Int.{pos}
use gko_pool.Paths.{
  max_path_len, slash, strncpy, inplace_strip_tailing_slash, get_base_name_index, merge_path,
  change_from, change_to_local_path,
}
use gko_pool.Paths.Slash.{
  IsStripped, inplace_strip-slashes, strip_stripped, strip_slash, take_whole,
}
use gko_pool.Paths.Merge.{IsName, merge_path_fits, index_of_name, drop_dir, length-strip}

-- A path that is changed by its bytes from an index on.
changed :
    (n : ℕ) (path rest local_path : List ℕ)
    → drop n path ≡ rest
    → length local_path ≤ max_path_len
    → length (inplace_strip_tailing_slash local_path ++ b'/' ∷ rest) < max_path_len
    → inplace_strip_tailing_slash ((merge_path local_path (strncpy (drop n path) max_path_len)).1)
      ≡ inplace_strip_tailing_slash (inplace_strip_tailing_slash local_path ++ b'/' ∷ rest)
changed n path rest local_path e h fits = ap inplace_strip_tailing_slash (
    ap (λ p. (merge_path local_path (take max_path_len p)).1) e
    ∙ ap (λ p. (merge_path local_path p).1)
        (take_whole max_path_len rest (
          omega
            (arith, fits, length-append (inplace_strip_tailing_slash local_path) (b'/' ∷ rest))))
    ∙ ap (λ r. r.1) (merge_path_fits local_path rest h fits))

drop_past : (l : List ℕ) → drop (length l + 1) l ≡ []
drop_past [] = refl
drop_past (x ∷ l) =
    ap (λ n. drop n (x ∷ l)) {x = suc (length l) + 1} {y = suc (length l + 1)} (omega arith)
    ∙ drop_past l

-- A path below the requested one, where the destination does not exist: it goes to the same place
-- below the destination. The requested path has no slash at its end, the other no slash at its own,
-- and the strings fit in max_path_len.
pub change_to_local_path-below :
    (req_path rest local_path : List ℕ)
    → IsStripped req_path
    → length req_path ≤ max_path_len
    → length local_path ≤ max_path_len
    → length (inplace_strip_tailing_slash local_path ++ b'/' ∷ rest) < max_path_len
    → IsStripped (inplace_strip_tailing_slash local_path ++ b'/' ∷ rest)
    → change_to_local_path (req_path ++ b'/' ∷ rest) req_path local_path false
      ≡ (pos 0, inplace_strip_tailing_slash local_path ++ b'/' ∷ rest)
unfolding change_to_local_path change_from
change_to_local_path-below req_path rest local_path stripped h hl fits whole =
    rw (take_whole max_path_len req_path h, strip_stripped req_path stripped)
      (ap (λ p. (pos 0, p))
        (changed (length req_path + 1) (req_path ++ b'/' ∷ rest) rest local_path
            (drop_dir req_path rest) hl fits
          ∙ strip_stripped _ whole))

-- The requested path itself, where the destination does not exist, goes to the destination without the
-- slashes at its end. The requested path has none there, and the strings fit in max_path_len.
pub change_to_local_path-itself :
    (req_path local_path : List ℕ)
    → IsStripped req_path
    → length req_path ≤ max_path_len
    → 0 < length (inplace_strip_tailing_slash local_path)
    → length local_path + 1 < max_path_len
    → change_to_local_path req_path req_path local_path false
      ≡ (pos 0, inplace_strip_tailing_slash local_path)
unfolding change_to_local_path change_from
change_to_local_path-itself req_path local_path stripped h some_left fits =
    rw (take_whole max_path_len req_path h, strip_stripped req_path stripped)
      (ap (λ p. (pos 0, p))
        (changed (length req_path + 1) req_path [] local_path (drop_past req_path)
            (omega (arith, fits))
            (omega (
              arith,
              fits,
              length-strip local_path,
              length-append (inplace_strip_tailing_slash local_path) slash,
            ))
          ∙ strip_slash _ some_left (inplace_strip-slashes local_path).0))

kept_from :
    (n : ℕ) (path req_path rest local_path : List ℕ)
    → get_base_name_index req_path ≡ pos n
    → drop n path ≡ rest
    → IsStripped req_path
    → length req_path ≤ max_path_len
    → length local_path ≤ max_path_len
    → length (inplace_strip_tailing_slash local_path ++ b'/' ∷ rest) < max_path_len
    → IsStripped (inplace_strip_tailing_slash local_path ++ b'/' ∷ rest)
    → change_to_local_path path req_path local_path true
      ≡ (pos 0, inplace_strip_tailing_slash local_path ++ b'/' ∷ rest)
unfolding change_to_local_path change_from
kept_from n path req_path rest local_path index e stripped h hl fits whole =
    rw (take_whole max_path_len req_path h, strip_stripped req_path stripped, index, change_from)
      (ap (λ p. (pos 0, p)) (changed n path rest local_path e hl fits ∙ strip_stripped _ whole))

-- A requested path that exists as a directory, or a path below it, keeps the request's base name below
-- the destination. The base name has no slash, the paths none at their ends, and the strings fit in
-- max_path_len; `rest` is what follows the requested path.
pub change_to_local_path-kept :
    (dir base_name rest local_path : List ℕ)
    → 0 < length dir
    → IsName base_name
    → IsStripped (dir ++ b'/' ∷ base_name)
    → length (dir ++ b'/' ∷ base_name) ≤ max_path_len
    → length local_path ≤ max_path_len
    → length (inplace_strip_tailing_slash local_path ++ b'/' ∷ (base_name ++ rest)) < max_path_len
    → IsStripped (inplace_strip_tailing_slash local_path ++ b'/' ∷ (base_name ++ rest))
    → change_to_local_path
        ((dir ++ b'/' ∷ base_name) ++ rest)
        (dir ++ b'/' ∷ base_name)
        local_path
        true
      ≡ (pos 0, inplace_strip_tailing_slash local_path ++ b'/' ∷ (base_name ++ rest))
change_to_local_path-kept dir base_name rest local_path some_left is_name stripped h hl fits whole =
    kept_from (length dir + 1) ((dir ++ b'/' ∷ base_name) ++ rest) (dir ++ b'/' ∷ base_name)
      (base_name ++ rest) local_path (index_of_name dir base_name some_left is_name)
      (ap (drop (length dir + 1)) (append_assoc dir (b'/' ∷ base_name) rest)
        ∙ drop_dir dir (base_name ++ rest))
      stripped h hl fits whole
