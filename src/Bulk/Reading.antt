-- ===== src/Bulk/Reading.antt =====
-- readfileall and readfileall_append of src/gingko_base.cpp: which bytes of the file they read.
use gko_pool.Prelude.{
  ℕ, zero, suc, ◌+◌, ◌-◌, ◌≤◌, ◌<◌, ◌≡◌, refl, sym, ap, ◌∙◌, inl, inr, arith, true, false, some,
  List, [], ◌∷◌, ◌++◌, ltb, ◌==◌, ==_iff, if◌then◌else◌, length, take, drop, length-take,
  length-append, Bool-cases,
}
use gko_pool.Prelude.Int.{pos}
use mathlib.Core.List.{append-nil}
use gko_pool.Job.Span.{drop-drop}
use gko_pool.Job.Rounds.{take-add}
use gko_pool.Bulk.{Pread, reads, again, broken, read_file_loop, readfileall, readfileall_append}

-- Answers without an error.
abbrev pub AreReads : List Pread → Type 0
AreReads [] = Unit
AreReads (reads n ∷ rest) = AreReads rest
AreReads (again ∷ rest) = ⊥
AreReads (broken ∷ rest) = ⊥

-- The bytes that a buffer has are the first of those asked for.
abbrev pub HasRead : List ℕ → ℕ → ℕ → List ℕ → Type 0
HasRead file offset count buf = (buf ≡ take (length buf) (drop offset file)) × (length buf ≤ count)

take-take : (n m : ℕ) (l : List ℕ) → take n (take m l) ≡ take (if ltb n m then n else m) l
take-take zero m l = ground arith
take-take (suc n) zero l = ground arith
take-take (suc n) (suc m) [] = ground arith
take-take (suc n) (suc m) (x ∷ l) = elim (Bool-cases (ltb n m)) [
  | inl e ↦
      let e' : ltb (suc n) (suc m) ≡ true = ground (arith, e) in
      rw e' (ap (λ t. x ∷ t) (take-take n m l ∙ rw e refl))
  | inr e ↦
      let e' : ltb (suc n) (suc m) ≡ false = ground (arith, e) in
      rw e' (ap (λ t. x ∷ t) (take-take n m l ∙ rw e refl))
]

take-length : (n : ℕ) (l : List ℕ) → take (length (take n l)) l ≡ take n l
take-length zero l = refl
take-length (suc n) [] = refl
take-length (suc n) (x ∷ l) = ap (λ t. x ∷ t) (take-length n l)

-- A piece is the first bytes of what it is taken from.
pub piece_first : (n m : ℕ) (l : List ℕ) → take (length (take n (take m l))) l ≡ take n (take m l)
piece_first n m l = rw (take-take n m l) (take-length (if ltb n m then n else m) l)

-- One more piece behind the bytes that have been read.
pub piece_next :
    (file buf : List ℕ) (offset n m : ℕ)
    → buf ≡ take (length buf) (drop offset file)
    → let piece = take n (take m (drop (offset + length buf) file)) in
      buf ++ piece ≡ take (length (buf ++ piece)) (drop offset file)
piece_next file buf offset n m has =
    let rest = drop (offset + length buf) file in
    let piece = take n (take m rest) in
    let x = drop offset file in
    ap (λ b. b ++ piece) has
    ∙ ap (λ p. take (length buf) x ++ p)
        (sym (piece_first n m rest)
          ∙ ap (take (length piece)) (sym (drop-drop offset (length buf) file)))
    ∙ sym (take-add (length buf) (length piece) x)
    ∙ ap (λ k. take k x) (sym (length-append buf piece))

HasRead-more :
    (file buf : List ℕ) (offset count n : ℕ)
    → HasRead file offset count buf
    → HasRead file offset count
        (buf ++ take (suc n) (take (count - length buf) (drop (offset + length buf) file)))
HasRead-more file buf offset count n has =
    let rest = drop (offset + length buf) file in
    (
      piece_next file buf offset (suc n) (count - length buf) has.0,
      omega (
        arith,
        has.1,
        length-append buf (take (suc n) (take (count - length buf) rest)),
        length-take (suc n) (take (count - length buf) rest),
        length-take (count - length buf) rest,
      ),
    )

-- Where no more can be read the buffer has all there is.
all_there :
    (file buf : List ℕ) (offset count : ℕ)
    → HasRead file offset count buf
    → buf ++ take (count - length buf) (drop (offset + length buf) file)
      ≡ take count (drop offset file)
all_there file buf offset count has =
    let x = drop offset file in
    ap (λ b. b ++ take (count - length buf) (drop (offset + length buf) file)) has.0
    ∙ ap (λ r. take (length buf) x ++ take (count - length buf) r)
        (sym (drop-drop offset (length buf) file))
    ∙ sym (take-add (length buf) (count - length buf) x)
    ∙ ap (λ k. take k x) (omega (arith, has.1))

read_file_loop_all :
    (answers : List Pread) (file : List ℕ) (offset count : ℕ) (buf : List ℕ)
    → AreReads answers
    → HasRead file offset count buf
    → let r = read_file_loop answers file offset count buf in
      (r.0 ≡ false) × (r.1 ≡ take count (drop offset file))
unfolding read_file_loop
read_file_loop_all [] file offset count buf fine has = elim (Bool-cases (ltb (length buf) count)) [
  | inl e ↦ rw e (refl, all_there file buf offset count has)
  | inr e ↦ rw e (refl, has.0 ∙ ap (λ k. take k (drop offset file)) (ground (arith, e, has.1)))
]
read_file_loop_all (reads n ∷ rest) file offset count buf fine has =
    let left = drop (offset + length buf) file in
    let piece = take (suc n) (take (count - length buf) left) in
    elim (Bool-cases (ltb (length buf) count)) [
      | inr e ↦ rw e (refl, has.0 ∙ ap (λ k. take k (drop offset file)) (ground (arith, e, has.1)))
      | inl e ↦ elim (Bool-cases (length piece == 0)) [
        | inr f ↦
            rw (e, f)
              (read_file_loop_all rest file offset count (buf ++ piece) fine
                (HasRead-more file buf offset count n has))
        | inl f ↦
            rw (e, f)
              (
                refl,
                sym (append-nil buf)
                    ∙ ap (λ p. buf ++ p)
                        (sym (
                          nothing n (take (count - length buf) left)
                            ((==_iff (length piece) 0).0 f)))
                    ∙ all_there file buf offset count has,
              )
      ]
    ]
  where
    nothing : (n : ℕ) (l : List ℕ) → length (take (suc n) l) ≡ 0 → l ≡ []
    nothing n [] e = refl
    nothing n (x ∷ l) e = absurd (omega (arith, e))
read_file_loop_all (again ∷ rest) file offset count buf fine has = absurd fine
read_file_loop_all (broken ∷ rest) file offset count buf fine has = absurd fine

-- In whatever pieces pread gives the bytes, and where none of its calls fails, readfileall returns 0 and
-- readfileall_append too, with the bytes of the file from the offset on, as many as asked for, or all up to
-- the end of the file where it has not that many.
pub readfileall_pieces :
    (answers : List Pread) (file : List ℕ) (offset count : ℕ)
    → 0 < count
    → AreReads answers
    → let asked = take count (drop offset file) in
      let r = readfileall answers file offset count in
      let r' = readfileall_append answers file offset count in
      ((r.0 ≡ pos 0) × (r.1 ≡ some asked))
      × ((r'.0 ≡ pos 0) × (r'.1 ≡ asked) × (r'.2 ≡ some (length asked)))
unfolding readfileall readfileall_append
readfileall_pieces answers file offset count l fine =
    let all = read_file_loop_all answers file offset count [] fine (refl, omega arith) in
    let some_asked : (count == 0) ≡ false = ground (arith, l) in
    rw (some_asked, all.0, all.1) ((refl, refl), (refl, refl, refl))
