-- ===== src/Dest/Create.antt =====
-- mk_dir_symlink_file and correct_mode of src/path.cpp.
use gko_pool.Prelude.{
  ℕ, zero, suc, ◌+◌, ◌≡◌, ◌≢◌, refl, ap, arith, Bool, true, false, ◌&&◌, ◌||◌, not, Option, none,
  some, List, [], ◌∷◌, ◌++◌, inl, inr, ◌⊎◌, if◌then◌else◌, Bool-cases,
}
use gko_pool.Prelude.Int.{ℤ, pos, negsuc}
use gko_pool.Dest.{
  File, Call, Answers, Made, eq_ℤ, same_size, make_dir, make_symlink, make_file, make_one,
  make_next, mk_dir_symlink_file, needs_chmod, correct_mode,
}

-- How many descriptors a sequence of calls opens, and how many it closes.
pub opened : List Call → ℕ
opened [] = 0
opened (Call.opens name mode ∷ calls) = suc (opened calls)
opened (call ∷ calls) = opened calls

pub closed : List Call → ℕ
closed [] = 0
closed (Call.close ∷ calls) = suc (closed calls)
closed (call ∷ calls) = closed calls

opened-append : (a b : List Call) → opened (a ++ b) ≡ opened a + opened b
unfolding opened
opened-append [] b = omega arith
opened-append (call ∷ calls) b = ground (arith, opened-append calls b)

closed-append : (a b : List Call) → closed (a ++ b) ≡ closed a + closed b
unfolding closed
closed-append [] b = omega arith
closed-append (call ∷ calls) b = ground (arith, closed-append calls b)

make_one-closes :
    (size : ℤ) (file : File) (answers : Answers) (flag : Bool)
    → opened ((make_one size file answers flag).2) ≡ closed ((make_one size file answers flag).2)
unfolding make_one make_file make_dir make_symlink opened closed
make_one-closes size file answers flag = ground arith

-- mk_dir_symlink_file closes as many descriptors as it opens, whatever the calls answer and whichever
-- way it returns.
pub mk_dir_symlink_file-closes :
    (files : List (File × Answers)) (flag : Bool)
    → opened ((mk_dir_symlink_file files flag).2) ≡ closed ((mk_dir_symlink_file files flag).2)
unfolding mk_dir_symlink_file opened closed make_next
mk_dir_symlink_file-closes [] flag = refl
mk_dir_symlink_file-closes ((file, answers) ∷ files) flag =
    let made = make_one file.size file answers flag in
    next made (mk_dir_symlink_file files made.1) (make_one-closes file.size file answers flag)
      (mk_dir_symlink_file-closes files made.1)
  where
    next :
        (a b : Made)
        → opened (a.2) ≡ closed (a.2)
        → opened (b.2) ≡ closed (b.2)
        → opened ((make_next a b).2) ≡ closed ((make_next a b).2)
    next (pos n, flag', calls) (last, flag'', others) e later =
        omega (arith, opened-append calls others, closed-append calls others, e, later)
    next (negsuc n, flag', calls) b e later = e

-- A file that is neither a directory nor a symbolic link has the size that is expected.
abbrev pub SizeKept : File → Answers → Type 0
SizeKept file answers = file.size ≢ negsuc 0 → file.size ≢ negsuc 1 → answers.fstat ≡ some file.size

abbrev pub AllKept : List (File × Answers) → Type 0
AllKept [] = Unit
AllKept ((file, answers) ∷ files) = SizeKept file answers × AllKept files

eq_ℤ_sound : (a b : ℤ) → eq_ℤ a b ≡ true → a ≡ b
eq_ℤ_sound (pos a) (pos b) e = ap pos (ground arith)
eq_ℤ_sound (negsuc a) (negsuc b) e = ap negsuc (ground arith)
eq_ℤ_sound (pos a) (negsuc b) e = ground arith
eq_ℤ_sound (negsuc a) (pos b) e = ground arith

same_size_sound :
    (file : File) (size : Option ℤ) → same_size file size ≡ true → size ≡ some file.size
same_size_sound file none e = ground arith
same_size_sound file (some size) e = ap some (eq_ℤ_sound size file.size e)

make_file-kept :
    (m : ℕ) (file : File) (answers : Answers) (flag : Bool)
    → (make_file file answers flag).0 ≡ pos m
    → (make_file file answers flag).1 ≡ true
    → (flag ≡ true) × (same_size file answers.fstat ≡ true)
unfolding make_file
make_file-kept m file answers flag ok kept = ground arith

-- One file, where the flag is still set after it.
make_one-kept :
    (m : ℕ) (size : ℤ) (file : File) (answers : Answers) (flag : Bool)
    → (make_one size file answers flag).0 ≡ pos m
    → (make_one size file answers flag).1 ≡ true
    → (flag ≡ true) × (size ≢ negsuc 0 → size ≢ negsuc 1 → same_size file answers.fstat ≡ true)
unfolding make_one make_dir make_symlink
make_one-kept m (pos n) file answers flag ok kept =
    let (was, same) = make_file-kept m file answers flag ok kept in (was, λ a b. same)
make_one-kept m (negsuc zero) file answers flag ok kept = (ground arith, λ a b. absurd (a refl))
make_one-kept m (negsuc (suc zero)) file answers flag ok kept =
    (ground arith, λ a b. absurd (b refl))
make_one-kept m (negsuc (suc (suc n))) file answers flag ok kept =
    let (was, same) = make_file-kept m file answers flag ok kept in (was, λ a b. same)

make_next-parts :
    (a b : Made)
    → (make_next a b).0 ≡ pos 0
    → (make_next a b).1 ≡ true
    → (n : ℕ) × (a.0 ≡ pos n) × (b.0 ≡ pos 0) × (b.1 ≡ true)
unfolding make_next
make_next-parts (pos n, flag, calls) (last, flag', others) ok kept = (n, refl, ok, kept)
make_next-parts (negsuc n, flag, calls) b ok kept = ground arith

-- Where mk_dir_symlink_file returns 0 and leaves to_continue set, it was set before, and every file that
-- is neither a directory nor a symbolic link had the size that the job gives.
pub mk_dir_symlink_file-kept :
    (files : List (File × Answers)) (flag : Bool)
    → (mk_dir_symlink_file files flag).0 ≡ pos 0
    → (mk_dir_symlink_file files flag).1 ≡ true
    → (flag ≡ true) × AllKept files
unfolding mk_dir_symlink_file
mk_dir_symlink_file-kept [] flag ok kept = (kept, tt)
mk_dir_symlink_file-kept ((file, answers) ∷ files) flag ok kept =
    let made = make_one file.size file answers flag in
    let (n, ok1, ok_rest, kept_rest) =
      make_next-parts made (mk_dir_symlink_file files made.1) ok kept in
    let (kept1, all) = mk_dir_symlink_file-kept files made.1 ok_rest kept_rest in
    let (was, same) = make_one-kept n file.size file answers flag ok1 kept1 in
    (was, (λ a b. same_size_sound file answers.fstat (same a b), all))

-- The chmod calls that the modes need, and whether all of them succeed.
abbrev pub wanted : List (File × Answers) → List Call
wanted [] = []
wanted ((file, answers) ∷ files) =
    if needs_chmod file then Call.chmod file.name file.mode ∷ wanted files else wanted files

abbrev pub all_succeed : List (File × Answers) → Bool
all_succeed [] = true
all_succeed ((file, answers) ∷ files) =
    (not (needs_chmod file) || answers.chmoded) && all_succeed files

abbrev Corrected : List (File × Answers) → Type 0
Corrected files =
    ((all_succeed files ≡ true) × (correct_mode files ≡ (pos 0, wanted files)))
    ⊎ ((all_succeed files ≡ false) × ((correct_mode files).0 ≡ negsuc 0))

-- correct_mode returns 0 just where each chmod that is needed, for a directory or a file that its owner
-- may not write, succeeds, and has then set the mode of each of those and of no other; else it is -1.
pub correct_mode-wanted :
    (files : List (File × Answers))
    → ((all_succeed files ≡ true) × (correct_mode files ≡ (pos 0, wanted files)))
      ⊎ ((all_succeed files ≡ false) × ((correct_mode files).0 ≡ negsuc 0))
unfolding correct_mode
correct_mode-wanted [] = inl (refl, refl)
correct_mode-wanted ((file, answers) ∷ files) =
    elim (Bool-cases (needs_chmod file)) as (λ _. Corrected ((file, answers) ∷ files)) [
      | inr e ↦ rw e (correct_mode-wanted files)
      | inl e ↦ elim (Bool-cases answers.chmoded) as (λ _. Corrected ((file, answers) ∷ files)) [
        | inr bad ↦ rw (e, bad) (inr (refl, refl))
        | inl good ↦
            elim (correct_mode-wanted files) as (λ _. Corrected ((file, answers) ∷ files)) [
              | inl (all, same) ↦ rw (e, good, all, same) (inl (refl, refl))
              | inr (some_fails, result) ↦ rw (e, good, some_fails, result) (inr (refl, refl))
            ]
      ]
    ]
