-- ===== src/Args/Words.antt =====
-- sep_arg of src/gingko_base.cpp: the arguments are the words between the tabs.
use mathlib.Core.List.{append-nil, append_assoc}
use gko_pool.Prelude.{
  ℕ, ◌+◌, ◌<◌, ◌≡◌, ◌≢◌, refl, sym, ap, ◌∙◌, arith, true, false, List, [], ◌∷◌, ◌++◌, map, length,
  length-append, drop, leb, ◌==◌,
}
use gko_pool.Args.{sep_from, sep_arg, until_nul, string_at}

-- Bytes without tabs and terminators, and words of them.
abbrev pub Plain : List ℕ → Type 0
Plain [] = Unit
Plain (x ∷ s) = (x ≢ b'\t') × ((x ≢ 0) × Plain s)

abbrev pub IsWord : List ℕ → Type 0
IsWord w = (0 < length w) × Plain w

abbrev pub AllWords : List (List ℕ) → Type 0
AllWords [] = Unit
AllWords (w ∷ ws) = IsWord w × AllWords ws

-- Words with a tab between each two.
pub tabbed : List (List ℕ) → List ℕ
tabbed [] = []
tabbed (w ∷ []) = w
tabbed (w ∷ v ∷ ws) = w ++ b'\t' ∷ tabbed (v ∷ ws)

until_nul-word : (w s : List ℕ) → Plain w → until_nul (w ++ 0 ∷ s) ≡ w
unfolding until_nul
until_nul-word [] s p = refl
until_nul-word (x ∷ w) s (tab, (nul, p)) =
    let other : (x == 0) ≡ false = ground (arith, nul) in rw (other, until_nul-word w s p) refl

until_nul-end : (w : List ℕ) → Plain w → until_nul w ≡ w
unfolding until_nul
until_nul-end [] p = refl
until_nul-end (x ∷ w) (tab, (nul, p)) =
    let other : (x == 0) ≡ false = ground (arith, nul) in rw (other, until_nul-end w p) refl

-- The rest of a word is passed over.
abbrev shifted : List ℕ → List ℕ × List ℕ → List ℕ × List ℕ
shifted w (is, s) = (is, w ++ s)

sep_from-word :
    (w s : List ℕ) (i cnt max : ℕ)
    → Plain w
    → cnt < max
    → sep_from (w ++ s) i false cnt max ≡ shifted w (sep_from s (i + length w) false cnt max)
unfolding sep_from
sep_from-word [] s i cnt max p l =
    ap (λ n. sep_from s n false cnt max) {x = i} {y = i + 0} (omega arith)
sep_from-word (x ∷ w) s i cnt max (tab, (nul, p)) l =
    let other : (x == b'\t') ≡ false = ground (arith, tab) in
    let more : leb max cnt ≡ false = ground (arith, l) in
    rw (other, more, sep_from-word w s (i + 1) cnt max p l)
      (ap (λ n. shifted (x ∷ w) (sep_from s n false cnt max)) {x = i + 1 + length w}
        {y = i + length (x ∷ w)} (omega arith))

-- The strings at some indices of what follows `before`.
abbrev strings : List ℕ → List ℕ → List (List ℕ)
strings s is = map (string_at s) is

drop-append : (before s : List ℕ) → drop (length before) (before ++ s) ≡ s
drop-append [] s = refl
drop-append (x ∷ before) s = drop-append before s

-- A word that starts at `i`, and what follows it from the index after the word on.
first_word :
    (x : ℕ) (w s : List ℕ) (i cnt max : ℕ)
    → Plain (x ∷ w)
    → cnt + 1 < max
    → sep_from ((x ∷ w) ++ s) i true cnt max ≡ (
      i ∷ (sep_from s (i + 1 + length w) false (cnt + 1) max).0,
      (x ∷ w) ++ (sep_from s (i + 1 + length w) false (cnt + 1) max).1,
    )
unfolding sep_from
first_word x w s i cnt max (tab, (nul, p)) l =
    let other : (x == b'\t') ≡ false = ground (arith, tab) in
    let more : leb max (cnt + 1) ≡ false = ground (arith, l) in
    rw (other, more, sep_from-word w s (i + 1) (cnt + 1) max p l) refl

after_tab :
    (s : List ℕ) (i cnt max : ℕ)
    → sep_from (b'\t' ∷ s) i false cnt max
      ≡ ((sep_from s (i + 1) true cnt max).0, 0 ∷ (sep_from s (i + 1) true cnt max).1)
unfolding sep_from
after_tab s i cnt max = refl

-- A last word, and one with a tab and more after it.
last_word :
    (x : ℕ) (w : List ℕ) (i cnt max : ℕ)
    → Plain (x ∷ w)
    → cnt + 1 < max
    → sep_from (x ∷ w) i true cnt max ≡ (i ∷ [], x ∷ w)
unfolding sep_from
last_word x w i cnt max p l =
    ap (λ s. sep_from s i true cnt max) (sym (append-nil (x ∷ w)))
    ∙ first_word x w [] i cnt max p l
    ∙ ap (λ s. (i ∷ [], s)) (append-nil (x ∷ w))

word_and_tab :
    (x : ℕ) (w s : List ℕ) (i cnt max : ℕ)
    → Plain (x ∷ w)
    → cnt + 1 < max
    → sep_from ((x ∷ w) ++ b'\t' ∷ s) i true cnt max ≡ (
      i ∷ (sep_from s (i + 1 + length w + 1) true (cnt + 1) max).0,
      (x ∷ w) ++ 0 ∷ (sep_from s (i + 1 + length w + 1) true (cnt + 1) max).1,
    )
word_and_tab x w s i cnt max p l =
    first_word x w (b'\t' ∷ s) i cnt max p l
    ∙ ap (λ r. (i ∷ r.0, (x ∷ w) ++ r.1)) (after_tab s (i + 1 + length w) (cnt + 1) max)

string_here :
    (before s : List ℕ) (i : ℕ) → i ≡ length before → string_at (before ++ s) i ≡ until_nul s
string_here before s i e = ap (string_at (before ++ s)) e ∙ ap until_nul (drop-append before s)

no_words :
    (before : List ℕ) (i cnt max : ℕ)
    → strings (before ++ (sep_from [] i true cnt max).1) ((sep_from [] i true cnt max).0) ≡ []
unfolding sep_from
no_words before i cnt max = refl

-- The words, wherever the line starts in its buffer.
sep_from-tabbed :
    (words : List (List ℕ)) (before : List ℕ) (i cnt max : ℕ)
    → AllWords words
    → i ≡ length before
    → cnt + length words < max
    → strings
        (before ++ (sep_from (tabbed words) i true cnt max).1)
        (sep_from (tabbed words) i true cnt max).0
      ≡ words
unfolding tabbed
sep_from-tabbed [] before i cnt max all e l = no_words before i cnt max
sep_from-tabbed ((x ∷ w) ∷ []) before i cnt max (word, all) e l =
    rw
      (
        last_word x w i cnt max word.1 (omega (arith, l)),
        string_here before (x ∷ w) i e,
        until_nul-end (x ∷ w) word.1,
      )
      refl
sep_from-tabbed ([] ∷ v) before i cnt max (word, all) e l = absurd (omega (arith, word.0))
sep_from-tabbed ((x ∷ w) ∷ v ∷ ws) before i cnt max (word, all) e l =
    let next = i + 1 + length w + 1 in
    let rest = sep_from (tabbed (v ∷ ws)) next true (cnt + 1) max in
    let before' : List ℕ = before ++ ((x ∷ w) ++ 0 ∷ []) in
    let longer : before' ++ rest.1 ≡ before ++ ((x ∷ w) ++ 0 ∷ rest.1) =
      append_assoc before ((x ∷ w) ++ 0 ∷ []) rest.1
      ∙ ap (λ s. before ++ s) (append_assoc (x ∷ w) (0 ∷ []) rest.1) in
    rw
      (
        word_and_tab x w (tabbed (v ∷ ws)) i cnt max word.1 (omega (arith, l)),
        string_here before ((x ∷ w) ++ 0 ∷ rest.1) i e,
        until_nul-word (x ∷ w) rest.1 word.1,
      )
      (ap (◌∷◌ (x ∷ w)) (
        ap (λ s. strings s rest.0) (sym longer)
        ∙ sep_from-tabbed (v ∷ ws) before' next (cnt + 1) max all
            (omega (arith, e, length-append before ((x ∷ w) ++ 0 ∷ []), length-append w (0 ∷ [])))
            (omega (arith, l))))

-- sep_arg on a line of words with a tab between each two, where there are fewer words than it may give:
-- the strings at the places that it puts into arg_array are those words, in their order. A word has a
-- byte at least and no tab or terminator.
pub sep_arg-tabbed :
    (words : List (List ℕ)) (max : ℕ)
    → AllWords words
    → length words < max
    → map (string_at ((sep_arg (tabbed words) max).1)) ((sep_arg (tabbed words) max).0) ≡ words
unfolding sep_arg
sep_arg-tabbed words max all l = sep_from-tabbed words [] 0 0 max all refl (omega (arith, l))
