-- ===== src/Args/Tests.antt =====
-- A witness of the theorem on command lines, src/gingko_base.cpp.
use gko_pool.Prelude.{◌≡◌, arith, List, [], ◌∷◌, map}
use gko_pool.Args.{sep_arg, string_at, ℕ}
use gko_pool.Args.Words.{AllWords, tabbed, sep_arg-tabbed}

-- "JO" and "a".
abbrev command : List (List ℕ)
command = (b'J' ∷ b'O' ∷ []) ∷ (b'a' ∷ []) ∷ []

command-AllWords : AllWords command
command-AllWords = (
  (
    omega arith,
    ((λ e. ground arith), ((λ e. ground arith), ((λ e. ground arith), ((λ e. ground arith), tt)))),
  ),
  ((omega arith, ((λ e. ground arith), ((λ e. ground arith), tt))), tt),
)

sep_arg-tabbed_example :
    map (string_at ((sep_arg (tabbed command) 3).1)) ((sep_arg (tabbed command) 3).0) ≡ command
sep_arg-tabbed_example = sep_arg-tabbed command 3 command-AllWords (omega arith)
