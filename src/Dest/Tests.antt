-- ===== src/Dest/Tests.antt =====
-- Witnesses of the theorems on the destination of a download, src/path.cpp.
use gko_pool.Prelude.{◌≡◌, refl, arith, true, some, none, List, [], ◌∷◌, ◌++◌, map, zero, suc}
use gko_pool.Prelude.Int.{pos, negsuc}
use gko_pool.Paths.Slash.{strip_slash}
use gko_pool.Paths.Merge.{IsName}
use gko_pool.Dest.{
  Kind, Stat, Stats, File, Answer, Answers, process_path, mk_dir_symlink_file, make_one, ℕ,
  make_next, make_file, make_dir,
}
use gko_pool.Dest.Process.{requested, local, out_path_of, process_path-directory}
use gko_pool.Dest.Create.{mk_dir_symlink_file-kept, AllKept}

-- Every path is a directory.
abbrev all_directories : Stats
all_directories = record {
  lstat = λ p. Stat.found Kind.directory;
  stat = λ p. Stat.found Kind.directory;
}

abbrev a_file : File
a_file = record { name = b'f' ∷ []; sympath = []; size = pos 3; mode = 256 }

abbrev a_directory : File
a_directory = record { name = b'd' ∷ []; sympath = []; size = negsuc 0; mode = 256 }

abbrev fine : Answers
fine = record {
  made = Answer.exists;
  opened = true;
  fstat = some (pos 3);
  truncated = true;
  chmoded = true;
}

abbrev two_files : List (File × Answers)
two_files = (a_directory, fine) ∷ (a_file, fine) ∷ []

mk_dir_symlink_file-kept_example : (true ≡ true) × AllKept two_files
unfolding mk_dir_symlink_file make_one make_next make_file make_dir
mk_dir_symlink_file-kept_example = mk_dir_symlink_file-kept two_files true refl refl

-- "a/b" requested, with a file below it, for the destination "o/".
abbrev below : List (File × List ℕ)
below = (a_file, b'/' ∷ b'f' ∷ []) ∷ []

out-stripped : out_path_of (b'o' ∷ b'/' ∷ []) ≡ b'o' ∷ []
out-stripped = strip_slash (b'o' ∷ []) (omega arith) (λ more e. ground arith)

process_path-directory_example :
    process_path all_directories none
      (b'o' ∷ b'/' ∷ [])
      ((b'a' ∷ []) ++ b'/' ∷ b'b' ∷ [])
      (map (requested ((b'a' ∷ []) ++ b'/' ∷ b'b' ∷ [])) below)
    ≡ some (pos 0, map (local (out_path_of (b'o' ∷ b'/' ∷ []) ++ b'/' ∷ b'b' ∷ [])) below)
process_path-directory_example =
    process_path-directory all_directories none (b'o' ∷ b'/' ∷ []) (b'a' ∷ []) (b'b' ∷ []) below
      refl (omega arith) is_name (λ more e. ground arith) (omega arith)
      ((rw out-stripped (omega arith), rw out-stripped (λ more e. ground arith)), tt)
  where
    is_name : IsName (b'b' ∷ [])
    is_name zero e = ground arith
    is_name (suc i) e = ground arith
