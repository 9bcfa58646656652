-- ===== src/Job/Digest/Pieces.antt =====
-- xor_hash_block of src/hash/xor_hash.cpp on a block that goes over several files.
use gko_pool.Prelude.{
  ℕ, zero, suc, ◌+◌, ◌-◌, ◌*◌, ◌≤◌, ◌<◌, ◌≡◌, ◌≢◌, refl, sym, ap, ◌∙◌, arith, inl, inr, true, false,
  some, List, [], ◌∷◌, ◌++◌, ltb, ltb→lt, ◌==◌, length, take, drop, length-take, length-drop,
  length-append, Bool-cases,
}
use mathlib.Core.List.{append-nil}
use gko_pool.Prelude.Int.{ℤ, pos, negsuc, ltb_ℤ, pos_part}
use gko_pool.Hash.{xor_hash, start_hash}
use gko_pool.Hash.Bytes.{fold_hash, fold_hash-append, xor_hash_whole, start_hash_same}
use gko_pool.Job.{Job, Disk, next_f, at_most, has_bytes}
use gko_pool.Job.Patch.{take-append_le, drop-append_le, take-append_ge}
use gko_pool.Job.Span.{span, Fills, span-skip, first_file}
use gko_pool.Job.Rounds.{next_file}
use gko_pool.Job.Digest.{hash_loop, hash_loop_done, xor_hash_block}

-- No part of the bytes, from the start on, has the hash 0, which would start the hash anew.
abbrev pub NeverZero : ℕ → List ℕ → Type 0
NeverZero h bytes = (m : ℕ) → 0 < m → m < length bytes → fold_hash h (take m bytes) ≢ 0

-- A turn that reads, and one at the end of a file, which goes on to the next file with bytes.
read_turn :
    (fuel : ℕ) (jo : Job) (disk : Disk) (f offset left tmp hash : ℕ)
    → at_most left (length (disk f) - offset) ≡ tmp
    → 0 < tmp
    → hash_loop (suc fuel) jo disk 0 f f offset left hash
      ≡ hash_loop fuel jo disk 0 f f
          (offset + tmp)
          (left - tmp)
          (xor_hash (take tmp (drop offset (disk f))) tmp hash)
unfolding hash_loop
read_turn fuel jo disk f offset zero tmp hash e l = absurd (ground (arith, e, l))
read_turn fuel jo disk f offset (suc left) tmp hash e l =
    let some_read : (at_most (suc left) (length (disk f) - offset) == 0) ≡ false =
      ground (arith, e, l) in
    rw (some_read, hash_loop, e) refl

skip_turn :
    (fuel : ℕ) (jo : Job) (disk : Disk) (f g offset left hash : ℕ)
    → 0 < left
    → offset ≡ length (disk f)
    → next_f jo f ≡ some g
    → hash_loop (suc fuel) jo disk 0 f f offset left hash ≡ hash_loop fuel jo disk 0 g g 0 left hash
unfolding hash_loop
skip_turn fuel jo disk f g offset zero hash l e found = absurd (omega (arith, l))
skip_turn fuel jo disk f g offset (suc left) hash l e found =
    let none_read : (at_most (suc left) (length (disk f) - offset) == 0) ≡ true =
      ground (arith, e) in
    let here : 0 + g ≡ g = omega arith in
    rw (hash_loop, none_read, found) (ap (λ o. hash_loop fuel jo disk 0 o g 0 (suc left) hash) here)

-- The loop on the bytes from a file on, laid end to end.
abbrev Hashed : Job → Disk → ℕ → ℕ → ℕ → ℕ → ℕ → ℕ → Type 0
Hashed jo disk fuel f k offset left hash =
    hash_loop fuel jo disk 0 f f offset left hash
    ≡ some (fold_hash (start_hash hash) (take left (drop offset (span disk f k))))

-- A last piece.
last_piece :
    (fuel : ℕ) (jo : Job) (disk : Disk) (f k offset left hash : ℕ)
    → 0 < left
    → offset + left ≤ length (disk f)
    → Hashed jo disk (suc (suc fuel)) f (suc k) offset left hash
unfolding span
last_piece fuel jo disk f k offset left hash l fits =
    let piece = take left (drop offset (disk f)) in
    let all : at_most left (length (disk f) - offset) ≡ left = ground (arith, fits) in
    let whole : length piece ≡ left =
      omega (arith, length-take left (drop offset (disk f)), length-drop offset (disk f), fits) in
    let laid : take left (drop offset (disk f ++ span disk (f + 1) k)) ≡ piece =
      ap (take left) (drop-append_le offset (disk f) (span disk (f + 1) k) (omega (arith, fits)))
      ∙ take-append_le left (drop offset (disk f)) (span disk (f + 1) k)
          (omega (arith, length-drop offset (disk f), fits)) in
    read_turn (suc fuel) jo disk f offset left left hash all l
    ∙ hash_loop_done (suc fuel) jo disk 0 f f (offset + left) (left - left)
        (xor_hash piece left hash) (omega arith) (omega arith)
    ∙ ap some (
        ap (λ n. xor_hash piece n hash) (sym whole)
        ∙ xor_hash_whole piece hash
        ∙ ap (fold_hash (start_hash hash)) (sym laid))

-- The bytes of one file, and those after them.
laid_apart :
    (disk : Disk) (f k offset left : ℕ)
    → offset ≤ length (disk f)
    → length (disk f) ≤ offset + left
    → take left (drop offset (span disk f (suc k)))
      ≡ drop offset (disk f) ++ take (offset + left - length (disk f)) (span disk (f + 1) k)
unfolding span
laid_apart disk f k offset left inside more =
    ap (take left) (drop-append_le offset (disk f) (span disk (f + 1) k) inside)
    ∙ take-append_ge left (offset + left - length (disk f)) (drop offset (disk f))
        (span disk (f + 1) k) (omega (arith, inside, more, length-drop offset (disk f)))

-- What the loop does with so much fuel.
abbrev HashedRange : Job → Disk → ℕ → Type 0
HashedRange jo disk fuel =
    (k f offset left hash : ℕ)
    → f + k ≡ jo.file_count
    → 0 < left
    → offset < length (disk f)
    → offset + left ≤ length (span disk f k)
    → NeverZero (start_hash hash) (take left (drop offset (span disk f k)))
    → 2 * k ≤ fuel
    → Hashed jo disk fuel f k offset left hash

some_bytes :
    (jo : Job) (disk : Disk) (f : ℕ) → Fills jo disk → has_bytes jo f ≡ true → 0 < length (disk f)
some_bytes jo disk f fills found = omega (arith, fills f, positive (jo.file_size f) found)
  where
    positive : (n : ℤ) → ltb_ℤ (pos 0) n ≡ true → 0 < pos_part n
    positive (pos n) e = ground (arith, e)
    positive (negsuc n) e = ground (arith, e)

take_whole : (l : List ℕ) → take (length l) l ≡ l
take_whole [] = refl
take_whole (x ∷ l) = ap (λ t. x ∷ t) (take_whole l)

-- A file that is read to its end, and then the files after it.
module _ (fuel : ℕ) (jo : Job) (disk : Disk) (k f offset left hash : ℕ) (fills : Fills jo disk)
    (ends : f + suc k ≡ jo.file_count) (inside : offset < length (disk f))
    (fits : offset + left ≤ length (span disk f (suc k)))
    (never : NeverZero (start_hash hash) (take left (drop offset (span disk f (suc k)))))
    (enough : 2 * suc k ≤ suc (suc fuel)) (more : length (disk f) < offset + left) where
  piece : List ℕ
  piece = drop offset (disk f)

  later : ℕ
  later = offset + left - length (disk f)

  rest : List ℕ
  rest = take later (span disk (f + 1) k)

  length-piece : length piece ≡ length (disk f) - offset
  unfolding piece
  length-piece = length-drop offset (disk f)

  bytes : take left (drop offset (span disk f (suc k))) ≡ piece ++ rest
  unfolding piece later rest
  bytes = laid_apart disk f k offset left (omega (arith, inside)) (omega (arith, more))

  reach : length (span disk f (suc k)) ≡ length (disk f) + length (span disk (f + 1) k)
  unfolding span
  reach = length-append (disk f) (span disk (f + 1) k)

  length-rest : length rest ≡ later
  unfolding later rest
  length-rest = omega (arith, length-take later (span disk (f + 1) k), fits, reach, more)

  -- The hash of the first part is not 0, and the hash goes on from it.
  first : ℕ
  first = fold_hash (start_hash hash) piece

  never_rest : (m : ℕ) → m < length rest → fold_hash (start_hash hash) (piece ++ take m rest) ≢ 0
  unfolding piece later
  never_rest m l z =
      never (length piece + m) (omega (arith, length-piece, inside))
        (omega (arith, ap length bytes, length-append piece rest, l))
        (ap (fold_hash (start_hash hash)) (
            ap (take (length piece + m)) bytes
            ∙ take-append_ge (length piece + m) m piece rest refl)
          ∙ z)

  first_start : start_hash first ≡ first
  unfolding first later
  first_start = start_hash_same first (λ z.
      never_rest 0 (omega (arith, length-rest, more))
        (ap (fold_hash (start_hash hash)) (append-nil piece) ∙ z))

  pub round-Hashed :
      HashedRange jo disk fuel → Hashed jo disk (suc (suc fuel)) f (suc k) offset left hash
  unfolding piece later rest first
  round-Hashed ih =
      let avail = length (disk f) - offset in
      let (j, lj, found, before) =
        first_file jo disk (f + 1) k fills (omega (arith, fits, reach, more)) in
      let g = f + 1 + j in
      let skipped = span-skip jo disk (f + 1) j k fills before (omega (arith, lj)) in
      let part : take avail piece ≡ piece =
        ap (λ n. take n piece) (sym length-piece) ∙ take_whole piece in
      let read : xor_hash (take avail piece) avail hash ≡ first =
        ap (λ p. xor_hash p avail hash) part
        ∙ ap (λ n. xor_hash piece n hash) (sym length-piece)
        ∙ xor_hash_whole piece hash in
      let goes_on =
        ih (k - j) g 0 later first (omega (arith, ends, lj)) (omega (arith, more))
          (some_bytes jo disk g fills found) (omega (arith, fits, reach, ap length skipped, more))
          (λ m l ml z. never_rest m (omega (arith, ml, ap (λ s. length (take later s)) skipped)) (
            fold_hash-append piece (take m rest) (start_hash hash)
            ∙ ap (λ s. fold_hash first (take m (take later s))) skipped
            ∙ ap (λ h. fold_hash h (take m (take later (span disk g (k - j))))) (sym first_start)
            ∙ z))
          (omega (arith, enough)) in
      read_turn (suc fuel) jo disk f offset left avail hash (ground (arith, more, inside))
        (omega (arith, inside))
      ∙ ap (hash_loop (suc fuel) jo disk 0 f f (offset + avail) (left - avail)) read
      ∙ ap (λ n. hash_loop (suc fuel) jo disk 0 f f (offset + avail) n first)
          (omega (arith, inside, more))
      ∙ skip_turn fuel jo disk f g (offset + avail) later first (omega (arith, more))
          (omega (arith, inside)) (next_file jo f j (omega (arith, ends, lj)) found before)
      ∙ goes_on
      ∙ ap some (
          ap (λ h. fold_hash h (take later (span disk g (k - j)))) first_start
          ∙ ap (λ s. fold_hash first (take later s)) (sym skipped)
          ∙ sym (fold_hash-append piece rest (start_hash hash))
          ∙ ap (fold_hash (start_hash hash)) (sym bytes))

-- With two turns for each file the loop ends.
hash_loop-HashedRange :
    (fuel : ℕ) (jo : Job) (disk : Disk) → Fills jo disk → HashedRange jo disk fuel
unfolding span
hash_loop-HashedRange fuel jo disk fills zero f offset left hash ends l inside fits never enough =
    absurd (omega (arith, l, fits))
hash_loop-HashedRange zero jo disk fills (suc k) f offset left hash ends l inside fits never
      enough =
    absurd (omega (arith, enough))
hash_loop-HashedRange (suc zero) jo disk fills (suc k) f offset left hash ends l inside fits never
      enough =
    absurd (omega (arith, enough))
hash_loop-HashedRange (suc (suc fuel)) jo disk fills (suc k) f offset left hash ends l inside fits
      never enough =
    elim (Bool-cases (ltb (length (disk f)) (offset + left))) [
      | inr e ↦ last_piece fuel jo disk f k offset left hash l (ground (arith, e))
      | inl e ↦
          round-Hashed fuel jo disk k f offset left hash fills ends inside fits never enough
            (ltb→lt _ _ e) (hash_loop-HashedRange fuel jo disk fills)
    ]

-- The digest of a block that starts in the job's first file is the hash of its bytes, over however many
-- files they go, where each file has its size, the block starts inside its file and ends within the last
-- one, and no part of the bytes has the hash 0. Two turns for each file are enough.
pub xor_hash_block-span :
    (fuel : ℕ) (jo : Job) (disk : Disk) (b : ℕ)
    → let blk = jo.blocks b in
      let bytes = take blk.size (drop blk.start_off (span disk 0 jo.file_count)) in
      Fills jo disk
      → blk.start_f ≡ 0
      → 0 < blk.size
      → blk.start_off < length (disk 0)
      → blk.start_off + blk.size ≤ length (span disk 0 jo.file_count)
      → NeverZero (start_hash 0) bytes
      → 2 * jo.file_count ≤ fuel
      → xor_hash_block fuel jo disk b ≡ some (xor_hash bytes blk.size 0)
unfolding xor_hash_block
xor_hash_block-span fuel jo disk b fills from some_left inside fits never enough =
    let blk = jo.blocks b in
    let bytes = take blk.size (drop blk.start_off (span disk 0 jo.file_count)) in
    let whole : length bytes ≡ blk.size = omega (
      arith,
      length-take blk.size (drop blk.start_off (span disk 0 jo.file_count)),
      length-drop blk.start_off (span disk 0 jo.file_count),
      fits,
    ) in
    ap (λ f. hash_loop fuel jo disk f f f blk.start_off blk.size 0) from
    ∙ hash_loop-HashedRange fuel jo disk fills jo.file_count 0 blk.start_off blk.size 0
        (omega arith) some_left inside fits never enough
    ∙ ap some (sym (xor_hash_whole bytes 0) ∙ ap (λ n. xor_hash bytes n 0) whole)
