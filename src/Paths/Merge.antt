-- ===== src/Paths/Merge.antt =====
-- merge_path and get_base_name_index of src/path.cpp: joining a path and taking it apart.
use mathlib.Core.List.{append_assoc}
use gko_pool.Prelude.{
  ℕ, zero, suc, ◌+◌, ◌-◌, ◌≤◌, ◌<◌, ◌≡◌, ◌≢◌, refl, sym, ap, ◌∙◌, arith, true, false, List, [], ◌∷◌,
  ◌++◌, ◌==◌, ==_iff, if◌then◌else◌, Bool-cases, inl, inr, ◌⊎◌, get_or, length, length-append,
  length-take, take, drop,
}
use gko_pool.Prelude.Int.{ℤ, pos, negsuc}
use gko_pool.Paths.{
  max_path_len, slash, inplace_strip_tailing_slash, base_from, get_base_name_index, merge_within,
  merge_path,
}
use gko_pool.Paths.Slash.{
  IsStripped, inplace_strip-slashes, slashes, strip_stripped, strip_slash, take_whole, take-append,
}

length-take_whole : (n : ℕ) (l : List ℕ) → length (take n l) ≤ n
length-take_whole n l = omega (arith, length-take n l)

pub length-strip : (path : List ℕ) → length (inplace_strip_tailing_slash path) ≤ length path
length-strip path =
    let (stripped, k, split) = inplace_strip-slashes path in
    omega (arith, ap length split, length-append (inplace_strip_tailing_slash path) (slashes k))

merge_within_fits :
    (size : ℕ) (dir base_name : List ℕ)
    → length dir ≤ size
    → length (inplace_strip_tailing_slash dir ++ b'/' ∷ base_name) < size
    → merge_within size dir base_name ≡ (pos 0, inplace_strip_tailing_slash dir ++ b'/' ∷ base_name)
unfolding merge_within
merge_within_fits size dir base_name h fits =
    rw (copied, one, all, append_assoc d slash base_name, unequal) refl
  where
    d : List ℕ
    d = inplace_strip_tailing_slash dir

    copied : take size dir ≡ dir
    copied = take_whole size dir h

    size_all : length d + suc (length base_name) < size
    size_all = omega (arith, fits, length-append d (b'/' ∷ base_name))

    one : take (size - length d) slash ≡ slash
    one = take_whole (size - length d) slash (omega (arith, size_all))

    all : take (size - length (d ++ slash)) base_name ≡ base_name
    all =
        take_whole (size - length (d ++ slash)) base_name
          (omega (arith, size_all, length-append d slash))

    unequal : (length (d ++ b'/' ∷ base_name) == size) ≡ false
    unequal = ground (arith, fits)

-- Where it fits, merge_path joins the directory without the slashes at its end and the name by one
-- slash, and returns 0.
pub merge_path_fits :
    (dir base_name : List ℕ)
    → length dir ≤ max_path_len
    → length (inplace_strip_tailing_slash dir ++ b'/' ∷ base_name) < max_path_len
    → merge_path dir base_name ≡ (pos 0, inplace_strip_tailing_slash dir ++ b'/' ∷ base_name)
unfolding merge_path
merge_path_fits dir base_name h fits = merge_within_fits max_path_len dir base_name h fits

-- What a merge into `size` bytes leaves.
abbrev Bounded : ℕ → ℤ × List ℕ → Type 0
Bounded size r =
    (length (r.1) ≤ size)
    × (((r.0 ≡ negsuc 0) × (length (r.1) ≡ size)) ⊎ ((r.0 ≡ pos 0) × (length (r.1) < size)))

by_length :
    (size : ℕ) (out : List ℕ)
    → length out ≤ size
    → Bounded size (if length out == size then (negsuc 0, out) else (pos 0, out))
by_length size out l = elim (Bool-cases (length out == size)) [
  | inl e ↦ rw e (l, inl (refl, (==_iff _ _).0 e))
  | inr e ↦ rw e (l, inr (refl, ground arith))
]

merge_within-bounds :
    (size : ℕ) (dir base_name : List ℕ) → Bounded size (merge_within size dir base_name)
unfolding merge_within
merge_within-bounds size dir base_name =
    by_length size (out ++ take (size - length out) base_name) (
      omega (
        arith,
        length-append out (take (size - length out) base_name),
        length_out,
        length-take (size - length out) base_name,
      ))
  where
    d : List ℕ
    d = inplace_strip_tailing_slash (take size dir)

    out : List ℕ
    out = d ++ take (size - length d) slash

    length_out : length out ≤ size
    length_out = omega (
      arith,
      length-append d (take (size - length d) slash),
      length-strip (take size dir),
      length-take size dir,
      length-take (size - length d) slash,
    )

-- For a directory of less than max_path_len bytes, which strncpy terminates, and any name, merge_path never
-- leaves more than max_path_len bytes before the terminator. It returns -1 just where it leaves that
-- many, so that the terminator is one byte past a buffer of max_path_len, and 0 just where there are
-- fewer.
pub merge_path-bounds :
    (dir base_name : List ℕ)
    → length dir < max_path_len
    → (length ((merge_path dir base_name).1) ≤ max_path_len)
      × ((((merge_path dir base_name).0 ≡ negsuc 0)
            × (length ((merge_path dir base_name).1) ≡ max_path_len))
          ⊎ (((merge_path dir base_name).0 ≡ pos 0)
              × (length ((merge_path dir base_name).1) < max_path_len)))
unfolding merge_path
merge_path-bounds dir base_name terminated = merge_within-bounds max_path_len dir base_name

-- The index of the base name of a string that is a directory, a slash and a name without slashes.
abbrev pub IsName : List ℕ → Type 0
IsName base_name = (i : ℕ) → get_or base_name i 0 ≢ b'/'

get_or-right : (p l : List ℕ) (i j : ℕ) → j ≡ length p + i → get_or (p ++ l) j 0 ≡ get_or l i 0
get_or-right [] l i j e = ap (λ n. get_or l n 0) (omega arith)
get_or-right (x ∷ p) l i zero e = absurd (omega (arith, e))
get_or-right (x ∷ p) l i (suc j) e = get_or-right p l i j (omega (arith, e))

base_from-name :
    (i k : ℕ) (dir base_name : List ℕ)
    → i ≡ length dir + k
    → 0 < length dir
    → IsName base_name
    → base_from i (dir ++ b'/' ∷ base_name) ≡ length dir + 1
unfolding base_from
base_from-name zero k dir base_name e h is_name = absurd (omega (arith, e, h))
base_from-name (suc i) zero dir base_name e h is_name =
    let here : (get_or (dir ++ b'/' ∷ base_name) (suc i) 0 == b'/') ≡ true =
      (==_iff _ _).1 (get_or-right dir (b'/' ∷ base_name) 0 (suc i) e) in
    rw here (omega (arith, e))
base_from-name (suc i) (suc k) dir base_name e h is_name =
    rw (other (get_or-right dir (b'/' ∷ base_name) (suc k) (suc i) e))
      (base_from-name i k dir base_name (omega (arith, e)) h is_name)
  where
    other :
        get_or (dir ++ b'/' ∷ base_name) (suc i) 0 ≡ get_or base_name k 0
        → (get_or (dir ++ b'/' ∷ base_name) (suc i) 0 == b'/') ≡ false
    other same = ground (arith, is_name k)

pub index_of_name :
    (dir base_name : List ℕ)
    → 0 < length dir
    → IsName base_name
    → get_base_name_index (dir ++ b'/' ∷ base_name) ≡ pos (length dir + 1)
unfolding get_base_name_index
index_of_name [] base_name h is_name = absurd (omega (arith, h))
index_of_name (x ∷ dir) base_name h is_name = ap pos (
    base_from-name (length (x ∷ (dir ++ b'/' ∷ base_name))) (suc (length base_name)) (x ∷ dir)
      base_name (omega (arith, length-append dir (b'/' ∷ base_name))) h is_name)

take_dir : (dir base_name : List ℕ) → take (length dir + 1) (dir ++ b'/' ∷ base_name) ≡ dir ++ slash
take_dir dir base_name =
    ap (λ n. take n (dir ++ b'/' ∷ base_name)) {x = length dir + 1} {y = length (dir ++ slash)}
      (omega (arith, length-append dir slash))
    ∙ ap (take (length (dir ++ slash))) (sym (append_assoc dir slash base_name))
    ∙ take-append (dir ++ slash) base_name

pub drop_dir :
    (dir base_name : List ℕ) → drop (length dir + 1) (dir ++ b'/' ∷ base_name) ≡ base_name
drop_dir [] base_name = refl
drop_dir (x ∷ dir) base_name =
    ap (λ n. drop n (x ∷ (dir ++ b'/' ∷ base_name))) {x = suc (length dir) + 1}
      {y = suc (length dir + 1)} (omega arith)
    ∙ drop_dir dir base_name

-- Taking a path apart and joining it again. For a directory that is not empty and has no slash at its
-- end, a name without slashes, and both within max_path_len, get_base_name_index of the path that
-- merge_path makes of them is where the name starts, and merge_path of the parts before and after that
-- index gives the path back.
pub merge_path-get_base_name_index :
    (dir base_name : List ℕ)
    → 0 < length dir
    → IsStripped dir
    → IsName base_name
    → length dir + 1 + length base_name < max_path_len
    → (merge_path dir base_name ≡ (pos 0, dir ++ b'/' ∷ base_name))
      × (get_base_name_index ((merge_path dir base_name).1) ≡ pos (length dir + 1))
      × (merge_path
            (take (length dir + 1) ((merge_path dir base_name).1))
            (drop (length dir + 1) ((merge_path dir base_name).1))
          ≡ merge_path dir base_name)
merge_path-get_base_name_index dir base_name h stripped is_name fits =
    let path : List ℕ = dir ++ b'/' ∷ base_name in
    let joined : merge_path dir base_name ≡ (pos 0, path) =
      joins dir (strip_stripped dir stripped) (omega (arith, fits)) in
    rw joined (
      refl,
      index_of_name dir base_name h is_name,
      ap (λ p. merge_path p (drop (length dir + 1) path)) (take_dir dir base_name)
          ∙ ap (merge_path (dir ++ slash)) (drop_dir dir base_name)
          ∙ joins (dir ++ slash) (strip_slash dir h stripped)
              (omega (arith, fits, length-append dir slash)),
    )
  where
    joins :
        (d : List ℕ)
        → inplace_strip_tailing_slash d ≡ dir
        → length d ≤ max_path_len
        → merge_path d base_name ≡ (pos 0, dir ++ b'/' ∷ base_name)
    joins d e l =
        merge_path_fits d base_name l (
          omega (
            arith,
            fits,
            length-append dir (b'/' ∷ base_name),
            ap (λ p. length (p ++ b'/' ∷ base_name)) e,
          ))
        ∙ ap (λ p. (pos 0, p ++ b'/' ∷ base_name)) e
