-- ===== src/Paths/Slash.antt =====
-- Stripping and adding slashes at the end, src/path.cpp.
use mathlib.Core.List.{append-nil, append_assoc}
use gko_pool.Prelude.{
  ℕ, zero, suc, ◌-◌, ◌≤◌, ◌<◌, ◌≡◌, ◌≢◌, refl, sym, ap, ◌∙◌, arith, true, false, List, [], ◌∷◌,
  ◌++◌, ◌==◌, ==_iff, Bool-cases, inl, inr, get_or, length, length-append, length-take, take,
  replicate,
}
use gko_pool.Paths.{strip_from, inplace_strip_tailing_slash}

abbrev pub slashes : ℕ → List ℕ
slashes k = replicate k b'/'

-- A string that the functions leave alone: it does not end in a slash, or it has at most one byte.
abbrev pub IsStripped : List ℕ → Type 0
IsStripped path = (1 < length path → get_or path (length path - 1) 0 ≢ b'/')

get_or-take : (n i : ℕ) (l : List ℕ) → i < n → get_or (take n l) i 0 ≡ get_or l i 0
get_or-take zero i l h = absurd (omega arith)
get_or-take (suc n) i [] h = refl
get_or-take (suc n) zero (x ∷ l) h = refl
get_or-take (suc n) (suc i) (x ∷ l) h = get_or-take n i l (omega arith)

pub take_whole : (n : ℕ) (l : List ℕ) → length l ≤ n → take n l ≡ l
take_whole zero [] h = refl
take_whole zero (x ∷ l) h = absurd (omega arith)
take_whole (suc n) [] h = refl
take_whole (suc n) (x ∷ l) h = ap (◌∷◌ x) (take_whole n l (omega arith))

-- The last byte of a string, split off.
take-last : (i : ℕ) (l : List ℕ) → length l ≡ suc i → take i l ++ get_or l i 0 ∷ [] ≡ l
take-last i [] h = absurd (omega arith)
take-last zero (x ∷ []) h = refl
take-last zero (x ∷ y ∷ l) h = absurd (omega arith)
take-last (suc i) (x ∷ l) h = ap (◌∷◌ x) (take-last i l (omega arith))

last_byte :
    (i : ℕ) (path : List ℕ)
    → length path ≡ suc (suc i)
    → (get_or path (suc i) 0 == b'/') ≡ false
    → get_or path (suc i) 0 ≢ b'/'
last_byte i path l e same = ground arith

strip_from-IsStripped :
    (i : ℕ) (path : List ℕ) → length path ≡ suc i → IsStripped (strip_from i path)
unfolding strip_from
strip_from-IsStripped zero path l = λ more. absurd (omega (arith, l, more))
strip_from-IsStripped (suc i) path l =
    elim (Bool-cases (get_or path (suc i) 0 == b'/'))
      as (λ _. IsStripped (strip_from (suc i) path)) [
        | inl e ↦
            rw (e, strip_from)
              (strip_from-IsStripped i (take (suc i) path)
                (omega (arith, length-take (suc i) path, l)))
        | inr e ↦
            rw (e, strip_from)
              (λ more same. last_byte i path l e (
                ap (λ n. get_or path n 0) {x = suc i} {y = length path - 1} (omega (arith, l))
                ∙ same))
      ]

replicate_snoc : (k : ℕ) → slashes k ++ b'/' ∷ [] ≡ slashes (suc k)
replicate_snoc zero = refl
replicate_snoc (suc k) = ap (◌∷◌ b'/') (replicate_snoc k)

one_more :
    (i k : ℕ) (path p : List ℕ)
    → length path ≡ suc (suc i)
    → (get_or path (suc i) 0 == b'/') ≡ true
    → take (suc i) path ≡ p ++ slashes k
    → path ≡ p ++ slashes (suc k)
one_more i k path p l e split =
    sym (take-last (suc i) path l)
    ∙ ap (λ c. take (suc i) path ++ c ∷ []) ((==_iff _ _).0 e)
    ∙ ap (λ q. q ++ b'/' ∷ []) split
    ∙ append_assoc p (slashes k) (b'/' ∷ [])
    ∙ ap (λ q. p ++ q) (replicate_snoc k)

-- What has been stripped are slashes.
strip_from-slashes :
    (i : ℕ) (path : List ℕ)
    → length path ≡ suc i
    → (k : ℕ) × (path ≡ strip_from i path ++ slashes k)
unfolding strip_from
strip_from-slashes zero path l = (0, sym (append-nil path))
strip_from-slashes (suc i) path l =
    elim (Bool-cases (get_or path (suc i) 0 == b'/'))
      as (λ _. (k : ℕ) × (path ≡ strip_from (suc i) path ++ slashes k)) [
        | inl e ↦
            let (k, split) =
              strip_from-slashes i (take (suc i) path)
                (omega (arith, length-take (suc i) path, l)) in
            (
              suc k,
              rw (e, strip_from) (one_more i k path (strip_from i (take (suc i) path)) l e split),
            )
        | inr e ↦ (0, rw (e, strip_from) (sym (append-nil path)))
      ]

-- inplace_strip_tailing_slash takes away slashes only, from the end, and what it leaves does not end in
-- one, a string of one byte excepted.
pub inplace_strip-slashes :
    (path : List ℕ)
    → IsStripped (inplace_strip_tailing_slash path)
      × (k : ℕ) × (path ≡ inplace_strip_tailing_slash path ++ slashes k)
unfolding inplace_strip_tailing_slash strip_from
inplace_strip-slashes [] = (λ more. absurd (omega (arith, more)), 0, refl)
inplace_strip-slashes (x ∷ path) =
    let (k, split) = strip_from-slashes (length path) (x ∷ path) refl in
    let at_end : length (x ∷ path) - 1 ≡ length path = omega arith in
    rw at_end (strip_from-IsStripped (length path) (x ∷ path) refl, k, split)

strip_from_stripped :
    (i : ℕ) (path : List ℕ) → length path ≡ suc i → IsStripped path → strip_from i path ≡ path
unfolding strip_from
strip_from_stripped zero path l h = refl
strip_from_stripped (suc i) path l h = elim (Bool-cases (get_or path (suc i) 0 == b'/')) [
  | inl e ↦ absurd (
      h (omega (arith, l)) (
        ap (λ n. get_or path n 0) {x = length path - 1} {y = suc i} (omega (arith, l))
        ∙ (==_iff _ _).0 e))
  | inr e ↦ rw e refl
]

pub strip_stripped : (path : List ℕ) → IsStripped path → inplace_strip_tailing_slash path ≡ path
unfolding inplace_strip_tailing_slash strip_from
strip_stripped [] h = refl
strip_stripped (x ∷ path) h =
    ap (λ n. strip_from n (x ∷ path)) {x = length (x ∷ path) - 1} {y = length path} (omega arith)
    ∙ strip_from_stripped (length path) (x ∷ path) refl h

pub get_or-append : (p : List ℕ) (c : ℕ) (l : List ℕ) → get_or (p ++ c ∷ l) (length p) 0 ≡ c
get_or-append [] c l = refl
get_or-append (x ∷ p) c l = get_or-append p c l

pub take-append : (p l : List ℕ) → take (length p) (p ++ l) ≡ p
take-append [] l = refl
take-append (x ∷ p) l = ap (◌∷◌ x) (take-append p l)

-- A slash more at the end is stripped.
pub strip_slash :
    (path : List ℕ)
    → 0 < length path
    → IsStripped path
    → inplace_strip_tailing_slash (path ++ b'/' ∷ []) ≡ path
unfolding inplace_strip_tailing_slash strip_from
strip_slash [] h stripped = absurd (omega (arith, h))
strip_slash (x ∷ path) h stripped =
    let p : List ℕ = x ∷ path in
    let slash : (get_or (p ++ b'/' ∷ []) (suc (length path)) 0 == b'/') ≡ true =
      (==_iff _ _).1 (get_or-append p b'/' []) in
    ap (λ n. strip_from n (p ++ b'/' ∷ [])) {x = length (p ++ b'/' ∷ []) - 1}
      {y = suc (length path)} (omega (arith, length-append p (b'/' ∷ [])))
    ∙ rw (slash, strip_from)
        (ap (strip_from (length path)) (take-append p (b'/' ∷ []))
          ∙ strip_from_stripped (length path) p refl stripped)
