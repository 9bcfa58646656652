-- ===== src/Dest/Kinds.antt =====
-- path_type of src/path.cpp: what its flags say.
use gko_pool.Prelude.{ℕ, ◌≡◌, true, List, take, arith}
use mathlib.Core.Logic.{◌↔◌}
use gko_pool.Paths.{max_path_len, inplace_strip_tailing_slash}
use gko_pool.Dest.{type_of, Kind, Stat, Stats, has, path_type, gko_file, gko_dir, gko_none, gko_err}

-- What a path leads to, links followed.
abbrev pub leads_to : Stat → Stat → Stat
leads_to (Stat.found Kind.link) target = target
leads_to at target = at

abbrev pub lstat_of : Stats → List ℕ → Stat
lstat_of fs p = fs.lstat (inplace_strip_tailing_slash (take max_path_len p))

-- ditto
abbrev pub reached : Stats → List ℕ → Stat
reached fs p =
    leads_to (lstat_of fs p) (fs.stat (inplace_strip_tailing_slash (take max_path_len p)))

flags :
    (at target : Stat)
    → ((has (type_of at target) gko_dir ≡ true) ↔ (leads_to at target ≡ Stat.found Kind.directory))
      × ((has (type_of at target) gko_file ≡ true) ↔ (leads_to at target ≡ Stat.found Kind.regular))
      × ((has (type_of at target) gko_none ≡ true) ↔ (leads_to at target ≡ Stat.missing))
      × ((type_of at target ≡ gko_err) ↔ (leads_to at target ≡ Stat.failed))
flags at target = (ground arith, ground arith, ground arith, ground arith)

-- The flags of path_type, on the path without the slashes at its end: GKO_DIR just where it leads to a
-- directory, GKO_FILE where it leads to a regular file, GKO_NONE where it leads to nothing, links
-- followed by stat, and a failure of either call other than ENOENT is GKO_ERR alone.
pub path_type-flags :
    (fs : Stats) (p : List ℕ)
    → ((has (path_type fs p) gko_dir ≡ true) ↔ (reached fs p ≡ Stat.found Kind.directory))
      × ((has (path_type fs p) gko_file ≡ true) ↔ (reached fs p ≡ Stat.found Kind.regular))
      × ((has (path_type fs p) gko_none ≡ true) ↔ (reached fs p ≡ Stat.missing))
      × ((path_type fs p ≡ gko_err) ↔ (reached fs p ≡ Stat.failed))
unfolding path_type
path_type-flags fs p =
    flags (fs.lstat (inplace_strip_tailing_slash (take max_path_len p)))
      (fs.stat (inplace_strip_tailing_slash (take max_path_len p)))
