-- ===== src/Job/Rounds.antt =====
-- The rounds of sendblocks, src/gingko_base.cpp.
use native.Mathlib.Nat.{mod-eq_of_lt}
use mathlib.Core.List.{append-nil, append_assoc}
use gko_pool.Prelude.{
  ℕ, zero, suc, ◌+◌, ◌-◌, ◌≤◌, ◌<◌, ◌≡◌, refl, sym, ap, ◌∙◌, arith, true, false, Option, some, List,
  [], ◌∷◌, ◌++◌, ltb, ◌==◌, length, take, drop, length-drop,
}
use gko_pool.Prelude.Int.{ℤ, pos, pos_part}
use gko_pool.Job.{
  Job, Disk, Position, has_bytes, next_f, next_b, send_step, blocks_loop, ℕ, pos_part, suc, ◌+◌,
  ◌-◌,
}
use gko_pool.Job.Files.{next_f-next}
use gko_pool.Job.Patch.{take-append_le, drop-append_le, drop-append_ge}
use gko_pool.Job.Span.{span, Fills, span-skip, drop-drop}

-- The bytes of `n` blocks from the block `b` on.
unfoldable pub sizes : Job → ℕ → ℕ → ℕ
sizes jo b zero = 0
sizes jo b (suc n) = (jo.blocks b).size + sizes jo (b + 1) n

-- Where the loop stands.
abbrev pub pos_at : ℕ → ℕ → ℕ → ℕ → Position
pos_at f offset b block_left = record { f = f; offset = offset; b = b; block_left = block_left }

abbrev pub file_left : Job → ℕ → ℕ → ℕ
file_left jo f offset = pos_part (jo.file_size f) - offset

-- The three ways a round ends.
pub step_in_block :
    (jo : Job) (f offset b block_left g : ℕ)
    → ltb (file_left jo f offset) block_left ≡ true
    → next_f jo f ≡ some g
    → send_step jo (pos_at f offset b block_left)
      ≡ some (file_left jo f offset, pos_at g 0 b (block_left - file_left jo f offset))
unfolding send_step
step_in_block jo f offset b block_left g l e = rw (l, e) refl

pub step_both :
    (jo : Job) (f offset b block_left g : ℕ)
    → ltb (file_left jo f offset) block_left ≡ false
    → (block_left == file_left jo f offset) ≡ true
    → next_f jo f ≡ some g
    → send_step jo (pos_at f offset b block_left)
      ≡ some (file_left jo f offset, pos_at g 0 (next_b jo b) (jo.blocks (next_b jo b)).size)
unfolding send_step
step_both jo f offset b block_left g l same e = rw (l, same, e) refl

pub step_in_file :
    (jo : Job) (f offset b block_left : ℕ)
    → ltb (file_left jo f offset) block_left ≡ false
    → (block_left == file_left jo f offset) ≡ false
    → send_step jo (pos_at f offset b block_left)
      ≡ some
          (block_left, pos_at f (offset + block_left) (next_b jo b) (jo.blocks (next_b jo b)).size)
unfolding send_step
step_in_file jo f offset b block_left l same = rw (l, same) refl

pub next_b-suc : (jo : Job) (b : ℕ) → b + 1 < jo.block_count → next_b jo b ≡ b + 1
unfolding next_b
next_b-suc jo b l = mod-eq_of_lt l

pub send_loop_done :
    (fuel : ℕ) (jo : Job) (disk : Disk) (at : Position) (total : ℕ) (out : List ℕ)
    → 0 < fuel
    → total ≡ 0
    → blocks_loop fuel jo disk at total out [] ≡ some (pos 0, out)
unfolding blocks_loop
send_loop_done zero jo disk at total out l e = absurd (omega arith)
send_loop_done (suc fuel) jo disk at zero out l e = refl
send_loop_done (suc fuel) jo disk at (suc total) out l e = absurd (omega arith)

pub take_nil : (n : ℕ) → take {A = ℕ} n [] ≡ []
take_nil zero = refl
take_nil (suc n) = refl

pub take-add : (m t : ℕ) (l : List ℕ) → take (m + t) l ≡ take m l ++ take t (drop m l)
take-add zero t l = ap (λ n. take n l) {x = 0 + t} {y = t} (omega arith)
take-add (suc m) t [] =
    ap (λ n. take n []) {x = suc m + t} {y = suc (m + t)} (omega arith) ∙ sym (take_nil t)
take-add (suc m) t (x ∷ l) =
    ap (λ n. take n (x ∷ l)) {x = suc m + t} {y = suc (m + t)} (omega arith)
    ∙ ap (◌∷◌ x) (take-add m t l)

-- What is sent from a file and then from the bytes after it.
pub join :
    (out a b : List ℕ) (offset m t total : ℕ)
    → offset + m ≤ length a
    → m + t ≡ total
    → (out ++ take m (drop offset a)) ++ take t (drop (offset + m) (a ++ b))
      ≡ out ++ take total (drop offset (a ++ b))
join out a b offset m t total l e =
    append_assoc out (take m (drop offset a)) (take t (drop (offset + m) (a ++ b)))
    ∙ ap (λ r. out ++ r)
        (ap (λ r. r ++ take t (drop (offset + m) (a ++ b)))
            (sym (take-append_le m (drop offset a) b (omega (arith, l, length-drop offset a)))
              ∙ ap (take m) (sym (drop-append_le offset a b (omega (arith, l)))))
          ∙ ap (λ r. take m (drop offset (a ++ b)) ++ take t r) (sym (drop-drop offset m (a ++ b)))
          ∙ sym (take-add m t (drop offset (a ++ b)))
          ∙ ap (λ n. take n (drop offset (a ++ b))) e)

-- The rounds after one that has sent `m` bytes up to the end of its file, the rest from the file
-- `f + 1 + j` on.
pub next_round :
    (jo : Job) (disk : Disk) (f k j offset m t total : ℕ) (out : List ℕ) (r : Option (ℤ × List ℕ))
    → Fills jo disk
    → offset + m ≡ length (disk f)
    → m + t ≡ total
    → j < k
    → ((i : ℕ) → i < j → has_bytes jo (f + 1 + i) ≡ false)
    → r
      ≡ some (
        pos 0,
        (out ++ take m (drop offset (disk f))) ++ take t (drop 0 (span disk (f + 1 + j) (k - j))),
      )
    → r ≡ some (pos 0, out ++ take total (drop offset (span disk f (suc k))))
unfolding span
next_round jo disk f k j offset m t total out r fills full sum lj before e =
    let b = span disk (f + 1) k in
    e
    ∙ ap (λ s. some (pos 0, (out ++ take m (drop offset (disk f))) ++ take t s))
        (sym (span-skip jo disk (f + 1) j k fills before (omega (arith, lj)))
          ∙ sym (drop-append_ge (offset + m) 0 (disk f) b (omega (arith, full))))
    ∙ ap (λ s. some (pos 0, s)) (join out (disk f) b offset m t total (omega (arith, full)) sum)

-- A last round.
pub last_round :
    (disk : Disk) (f k offset m total : ℕ) (out : List ℕ) (r : Option (ℤ × List ℕ))
    → offset + m ≤ length (disk f)
    → m ≡ total
    → r ≡ some (pos 0, out ++ take m (drop offset (disk f)))
    → r ≡ some (pos 0, out ++ take total (drop offset (span disk f (suc k))))
unfolding span
last_round disk f k offset m total out r l sum e =
    let b = span disk (f + 1) k in
    e
    ∙ ap (λ s. some (pos 0, s)) (sym (append-nil (out ++ take m (drop offset (disk f)))))
    ∙ ap (λ s. some (pos 0, s)) (join out (disk f) b offset m 0 total l (omega (arith, sum)))

pub next_file :
    (jo : Job) (f j : ℕ)
    → f + 1 + j < jo.file_count
    → has_bytes jo (f + 1 + j) ≡ true
    → ((i : ℕ) → i < j → has_bytes jo (f + 1 + i) ≡ false)
    → next_f jo f ≡ some (f + 1 + j)
next_file jo f j l found before =
    next_f-next jo f j (omega arith)
      (ap (has_bytes jo) {x = f + suc j} {y = f + 1 + j} (omega arith) ∙ found)
      (λ i li. ap (has_bytes jo) {x = f + suc i} {y = f + 1 + i} (omega arith) ∙ before i li)
    ∙ ap some (omega arith)
