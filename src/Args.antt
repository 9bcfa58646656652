-- ===== src/Args.antt =====
-- sep_arg of src/gingko_base.cpp: a command line cut at its tabs.
pub mod Words
mod Tests
use gko_pool.Prelude.{
  ℕ, suc, ◌+◌, Bool, true, false, ◌&&◌, not, List, [], ◌∷◌, ◌++◌, leb, ◌==◌, if◌then◌else◌, drop,
  length,
}

-- The loop from the index `i` on: the indices that it puts into arg_array, and the string as it leaves
-- it. The test of `cnt` comes after the entry is written, as in the source.
pub sep_from : List ℕ → ℕ → Bool → ℕ → ℕ → List ℕ × List ℕ
sep_from [] i toke cnt max = ([], [])
sep_from (x ∷ s) i toke cnt max =
    let tab = x == b'\t' in
    let starts = not tab && toke in
    let cnt' = if starts then cnt + 1 else cnt in
    let here = if starts then i ∷ [] else [] in
    let (rest, cut) = sep_from s (i + 1) tab cnt' max in
    if tab then (rest, 0 ∷ cut) else if leb max cnt' then (here, x ∷ s) else (here ++ rest, x ∷ cut)

pub sep_arg : List ℕ → ℕ → List ℕ × List ℕ
sep_arg inputstring max = sep_from inputstring 0 true 0 max

-- The string that a pointer to an index of a buffer stands for.
pub until_nul : List ℕ → List ℕ
until_nul [] = []
until_nul (x ∷ s) = if x == 0 then [] else x ∷ until_nul s

abbrev pub string_at : List ℕ → ℕ → List ℕ
string_at s i = until_nul (drop i s)
