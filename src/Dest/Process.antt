-- ===== src/Dest/Process.antt =====
-- process_path of src/path.cpp: where the files of a job go.
use mathlib.Core.List.{append_assoc}
use gko_pool.Prelude.{
  ℕ, ◌≤◌, ◌<◌, ◌≡◌, ◌≢◌, refl, sym, ap, ◌∙◌, arith, true, false, Option, some, List, [], ◌∷◌, ◌++◌,
  map, subst, length-take, Bool-cases, inl, inr, ◌⊎◌, length, take,
}
use gko_pool.Prelude.Int.{pos, negsuc}
use gko_pool.Paths.{max_path_len, inplace_strip_tailing_slash, change_to_local_path}
use gko_pool.Paths.Slash.{IsStripped, strip_stripped, inplace_strip-slashes}
use gko_pool.Paths.Merge.{IsName, length-strip}
use gko_pool.Paths.Local.{change_to_local_path-kept}
use gko_pool.Dest.{
  Kind, Stat, Stats, File, with_name, has, type_of, path_type, gko_file, gko_dir, gko_none,
  gko_link, change_next, change_all, process_missing, process_path,
}
use gko_pool.Dest.Kinds.{leads_to, reached, lstat_of}

directory_flags :
    (at target : Stat)
    → leads_to at target ≡ Stat.found Kind.directory
    → (has (type_of at target) gko_none ≡ false)
      × (has (type_of at target) gko_file ≡ false)
      × (has (type_of at target) gko_dir ≡ true)
directory_flags at target e = (ground arith, ground arith, ground arith)

-- Neither a regular file nor a directory, nor a path that is missing itself.
abbrev pub Unusable : Stat → Stat → Type 0
Unusable at target =
    (leads_to at target ≢ Stat.found Kind.regular)
    × (leads_to at target ≢ Stat.found Kind.directory)
    × (at ≢ Stat.missing)

flags_of_refused :
    (at target : Stat)
    → Unusable at target
    → (has (type_of at target) gko_file ≡ false)
      × (has (type_of at target) gko_dir ≡ false)
      × ((has (type_of at target) gko_none ≡ false) ⊎ (has (type_of at target) gko_link ≡ true))
flags_of_refused at target (file, dir, there) = (ground arith, ground arith, ground arith)

-- out_path of process_path
abbrev pub out_path_of : List ℕ → List ℕ
out_path_of path = inplace_strip_tailing_slash (take max_path_len path)

abbrev target_of : Stats → List ℕ → Stat
target_of fs p = fs.stat (inplace_strip_tailing_slash (take max_path_len p))

-- A destination that exists, links followed, and is neither a regular file nor a directory, a link to
-- nothing, or one that cannot be looked up: process_path returns -1 and changes no name.
pub process_path_refuses :
    (fs : Stats) (cwd : Option (List ℕ)) (path uri : List ℕ) (files : List File)
    → Unusable (lstat_of fs (out_path_of path)) (target_of fs (out_path_of path))
    → process_path fs cwd path uri files ≡ some (negsuc 0, files)
unfolding process_path process_missing path_type
process_path_refuses fs cwd path uri files bad =
    let (no_file, no_dir, rest) = flags_of_refused _ _ bad in
    elim rest [
      | inl there ↦ rw (there, no_file, no_dir) refl
      | inr a_link ↦ elim (Bool-cases (has (path_type fs (out_path_of path)) gko_none)) [
        | inl gone ↦ rw (gone, a_link) refl
        | inr there ↦ rw (there, no_file, no_dir) refl
      ]
    ]

-- The files of a job, each with what follows the requested path in its name.
abbrev pub requested : List ℕ → File × List ℕ → File
requested uri (file, rest) = with_name file (uri ++ rest)

abbrev pub local : List ℕ → File × List ℕ → File
local place (file, rest) = with_name file (place ++ rest)

-- What change_to_local_path-kept asks of the names.
abbrev pub FitsIn : List ℕ → List ℕ → Type 0
FitsIn place rest = (length (place ++ rest) < max_path_len) × IsStripped (place ++ rest)

abbrev pub AllFit : List ℕ → List (File × List ℕ) → Type 0
AllFit place [] = Unit
AllFit place ((file, rest) ∷ files) = FitsIn place rest × AllFit place files

change_all-kept :
    (dir base_name out : List ℕ) (files : List (File × List ℕ))
    → 0 < length dir
    → IsName base_name
    → IsStripped (dir ++ b'/' ∷ base_name)
    → length (dir ++ b'/' ∷ base_name) ≤ max_path_len
    → IsStripped out
    → length out ≤ max_path_len
    → AllFit (out ++ b'/' ∷ base_name) files
    → change_all
        (map (requested (dir ++ b'/' ∷ base_name)) files)
        (dir ++ b'/' ∷ base_name)
        out
        true
      ≡ (pos 0, map (local (out ++ b'/' ∷ base_name)) files)
unfolding change_all change_next
change_all-kept dir base_name out [] some_left is_name stripped h out_stripped hl fit = refl
change_all-kept dir base_name out ((file, rest) ∷ files) some_left is_name stripped h out_stripped
      hl ((short, whole), fit) =
    rw
      (
        one,
        change_next,
        change_all-kept dir base_name out files some_left is_name stripped h out_stripped hl fit,
      )
      refl
  where
    there :
        inplace_strip_tailing_slash out ++ b'/' ∷ (base_name ++ rest)
        ≡ (out ++ b'/' ∷ base_name) ++ rest
    there =
        ap (λ p. p ++ b'/' ∷ (base_name ++ rest)) (strip_stripped out out_stripped)
        ∙ sym (append_assoc out (b'/' ∷ base_name) rest)

    one :
        change_to_local_path ((dir ++ b'/' ∷ base_name) ++ rest) (dir ++ b'/' ∷ base_name) out true
        ≡ (pos 0, (out ++ b'/' ∷ base_name) ++ rest)
    one =
        change_to_local_path-kept dir base_name rest out some_left is_name stripped h hl
          (omega (arith, short, ap length there)) (subst IsStripped (sym there) whole)
        ∙ ap (λ p. (pos 0, p)) there

-- A job downloaded into an existing directory. Where the destination, without the slashes at its end,
-- leads to a directory, the requested path has a base name after a slash and no slash at its end, each
-- file's name begins with the requested path, and each new name fits in max_path_len and has no slash
-- at its end, process_path returns 0, and each name has the destination and the base name in the
-- requested path's place and is otherwise as it was.
pub process_path-directory :
    (fs : Stats) (cwd : Option (List ℕ)) (path dir base_name : List ℕ)
    (files : List (File × List ℕ))
    → reached fs (out_path_of path) ≡ Stat.found Kind.directory
    → 0 < length dir
    → IsName base_name
    → IsStripped (dir ++ b'/' ∷ base_name)
    → length (dir ++ b'/' ∷ base_name) ≤ max_path_len
    → AllFit (out_path_of path ++ b'/' ∷ base_name) files
    → process_path fs cwd path
        (dir ++ b'/' ∷ base_name)
        (map (requested (dir ++ b'/' ∷ base_name)) files)
      ≡ some (pos 0, map (local (out_path_of path ++ b'/' ∷ base_name)) files)
unfolding process_path path_type
process_path-directory fs cwd path dir base_name files is_dir some_left is_name stripped h fit =
    let (no_none, no_file, a_dir) =
      directory_flags (lstat_of fs (out_path_of path)) (target_of fs (out_path_of path)) is_dir in
    rw (no_none, no_file, a_dir)
      (ap some (
        change_all-kept dir base_name (out_path_of path) files some_left is_name stripped h
          (inplace_strip-slashes (take max_path_len path)).0
          (omega (arith, length-strip (take max_path_len path), length-take max_path_len path))
          fit))
