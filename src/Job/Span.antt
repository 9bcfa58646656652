-- ===== src/Job/Span.antt =====
-- The files of a job laid end to end: what src/gingko_base.cpp writes blocks to and sends from.
use mathlib.Core.List.{append_assoc}
use gko_pool.Prelude.{
  ℕ, zero, suc, ◌+◌, ◌-◌, ◌≤◌, ◌<◌, ◌≡◌, refl, sym, ap, ◌∙◌, arith, true, false, List, [], ◌∷◌,
  ◌++◌, Bool-cases, inl, inr, length, length-append, drop,
}
use gko_pool.Prelude.Int.{ℤ, pos, negsuc, pos_part, ltb_ℤ}
use gko_pool.Job.{Job, Disk, has_bytes}
use gko_pool.Job.Patch.{drop_all}

-- The bytes of `k` files from the file `f` on, laid end to end: the abstract view of a job.
unfoldable pub span : Disk → ℕ → ℕ → List ℕ
span disk f zero = []
span disk f (suc k) = disk f ++ span disk (f + 1) k

-- A disk with the files of a job: each has its size.
abbrev pub Fills : Job → Disk → Type 0
Fills jo disk = (i : ℕ) → length (disk i) ≡ pos_part (jo.file_size i)

pub span-same :
    (disk disk' : Disk) (f k : ℕ)
    → ((i : ℕ) → f ≤ i → disk' i ≡ disk i)
    → span disk' f k ≡ span disk f k
unfolding span
span-same disk disk' f zero same = refl
span-same disk disk' f (suc k) same =
    ap (λ l. l ++ span disk' (f + 1) k) (same f (omega arith))
    ∙ ap (λ l. disk f ++ l) (span-same disk disk' (f + 1) k (λ i l. same i (omega arith)))

pub span-before :
    (disk disk' : Disk) (f k : ℕ)
    → ((i : ℕ) → i < f + k → disk' i ≡ disk i)
    → span disk' f k ≡ span disk f k
unfolding span
span-before disk disk' f zero same = refl
span-before disk disk' f (suc k) same =
    ap (λ l. l ++ span disk' (f + 1) k) (same f (omega arith))
    ∙ ap (λ l. disk f ++ l) (span-before disk disk' (f + 1) k (λ i l. same i (omega arith)))

pub span-add :
    (disk : Disk) (f j k : ℕ) → span disk f (j + k) ≡ span disk f j ++ span disk (f + j) k
unfolding span
span-add disk f zero k =
    ap (λ n. span disk f n) {x = 0 + k} {y = k} (omega arith)
    ∙ ap (λ g. span disk g k) {x = f} {y = f + 0} (omega arith)
span-add disk f (suc j) k =
    ap (λ n. span disk f n) {x = suc j + k} {y = suc (j + k)} (omega arith)
    ∙ ap (λ l. disk f ++ l) (span-add disk (f + 1) j k)
    ∙ ap (λ g. disk f ++ (span disk (f + 1) j ++ span disk g k)) {x = f + 1 + j} {y = f + suc j}
        (omega arith)
    ∙ sym (append_assoc (disk f) (span disk (f + 1) j) (span disk (f + suc j) k))

-- All files, those before one and those from it on.
pub laid_out :
    (jo : Job) (disk : Disk) (f k : ℕ)
    → f + k ≡ jo.file_count
    → span disk 0 jo.file_count ≡ span disk 0 f ++ span disk f k
laid_out jo disk f k ends =
    ap (span disk 0) (sym ends)
    ∙ span-add disk 0 f k
    ∙ ap (λ g. span disk 0 f ++ span disk g k) {x = 0 + f} {y = f} (omega arith)

empty_size : (size : ℤ) → ltb_ℤ (pos 0) size ≡ false → pos_part size ≡ 0
empty_size (pos n) e = ground arith
empty_size (negsuc n) e = refl

no_bytes : (l : List ℕ) → length l ≡ 0 → l ≡ []
no_bytes [] e = refl
no_bytes (x ∷ l) e = absurd (omega arith)

-- Files without bytes add nothing to a span.
pub span-skip :
    (jo : Job) (disk : Disk) (f j k : ℕ)
    → Fills jo disk
    → ((i : ℕ) → i < j → has_bytes jo (f + i) ≡ false)
    → j ≤ k
    → span disk f k ≡ span disk (f + j) (k - j)
unfolding span
span-skip jo disk f zero k fills none_before l =
    ap (λ g. span disk g k) {x = f} {y = f + 0} (omega arith)
    ∙ ap (span disk (f + 0)) {x = k} {y = k - 0} (omega arith)
span-skip jo disk f (suc j) zero fills none_before l = absurd (omega arith)
span-skip jo disk f (suc j) (suc k) fills none_before l =
    ap (λ b. b ++ span disk (f + 1) k)
      (no_bytes (disk f) (fills f ∙ empty_size (jo.file_size f) first))
    ∙ span-skip jo disk (f + 1) j k fills
        (λ i li.
          ap (has_bytes jo) {x = f + 1 + i} {y = f + suc i} (omega arith)
          ∙ none_before (suc i) (omega arith))
        (omega arith)
    ∙ ap (λ g. span disk g (k - j)) {x = f + 1 + j} {y = f + suc j} (omega arith)
    ∙ ap (span disk (f + suc j)) {x = k - j} {y = suc k - suc j} (omega arith)
  where
    first : has_bytes jo f ≡ false
    first = ap (has_bytes jo) {x = f} {y = f + 0} (omega arith) ∙ none_before 0 (omega arith)

-- Where bytes follow, the first file that has some.
abbrev pub FoundAfter : Job → ℕ → ℕ → Type 0
FoundAfter jo f k =
    (j : ℕ) × (j < k)
    × (has_bytes jo (f + j) ≡ true)
    × ((i : ℕ) → i < j → has_bytes jo (f + i) ≡ false)

pub first_file :
    (jo : Job) (disk : Disk) (f k : ℕ)
    → Fills jo disk
    → 0 < length (span disk f k)
    → FoundAfter jo f k
unfolding span
first_file jo disk f zero fills some_left = absurd (omega arith)
first_file jo disk f (suc k) fills some_left =
    elim (Bool-cases (has_bytes jo f)) as (λ _. FoundAfter jo f (suc k)) [
      | inl e ↦ (
        0,
        omega arith,
        ap (has_bytes jo) {x = f + 0} {y = f} (omega arith) ∙ e,
        λ i l. absurd (omega arith),
      )
      | inr e ↦ later e (first_file jo disk (f + 1) k fills (rest e))
    ]
  where
    rest : has_bytes jo f ≡ false → 0 < length (span disk (f + 1) k)
    rest e = omega (
      arith,
      some_left,
      length-append (disk f) (span disk (f + 1) k),
      fills f,
      empty_size (jo.file_size f) e,
    )

    later : has_bytes jo f ≡ false → FoundAfter jo (f + 1) k → FoundAfter jo f (suc k)
    later e (j, l, found, before) = (
      suc j,
      omega arith,
      ap (has_bytes jo) {x = f + suc j} {y = f + 1 + j} (omega arith) ∙ found,
      earlier,
    )
      where
        earlier : (i : ℕ) → i < suc j → has_bytes jo (f + i) ≡ false
        earlier zero li = ap (has_bytes jo) {x = f + 0} {y = f} (omega arith) ∙ e
        earlier (suc i) li =
            ap (has_bytes jo) {x = f + suc i} {y = f + 1 + i} (omega arith) ∙ before i (omega arith)

pub drop-drop : (a b : ℕ) (l : List ℕ) → drop b (drop a l) ≡ drop (a + b) l
drop-drop zero b l = ap (λ n. drop n l) (omega arith)
drop-drop (suc a) b [] = drop_all b [] (omega arith) ∙ sym (drop_all (suc a + b) [] (omega arith))
drop-drop (suc a) b (x ∷ l) =
    drop-drop a b l ∙ ap (λ n. drop n (x ∷ l)) {x = suc (a + b)} {y = suc a + b} (omega arith)
