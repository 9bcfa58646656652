-- ===== src/Job/Written.antt =====
-- The rounds of writeblock, src/gingko_base.cpp.
use gko_pool.Prelude.{
  ℕ, zero, suc, ◌+◌, ◌-◌, ◌≤◌, ◌<◌, ◌≡◌, ◌≢◌, refl, sym, ap, ◌∙◌, arith, false, Option, some, List,
  [], ◌∷◌, ◌++◌, ◌==◌, ==_iff, Bool-cases, inl, inr, length, take, drop, length-take,
  take-append-drop,
}
use gko_pool.Prelude.Int.{ℤ, pos}
use gko_pool.Job.{Job, Disk, has_bytes, patch, write_at, write_loop}
use gko_pool.Job.Patch.{length-patch, patch-append_left, patch-append_across}
use gko_pool.Job.Span.{span, Fills, span-same, span-skip, drop-drop}

-- A loop that has written the rest of a buffer into the files from `f` on.
pub record Written (jo : Job) (disk : Disk) (f k offset counter : ℕ) (buf : List ℕ)
    (r : Option (ℤ × Disk)) : Type 0 where
  pub disk' : Disk
  pub returns : r ≡ some (pos (length buf), disk')
  pub fills : Fills jo disk'
  pub before : (i : ℕ) → i < f → disk' i ≡ disk i
  pub after : span disk' f k ≡ patch (span disk f k) offset (drop counter buf)

pub write_at-Fills :
    (jo : Job) (disk : Disk) (f offset : ℕ) (w : List ℕ)
    → Fills jo disk
    → offset + length w ≤ length (disk f)
    → Fills jo (write_at disk f offset w)
write_at-Fills jo disk f offset w fills l i = elim (Bool-cases (i == f)) [
  | inl e ↦ rw e (
      length-patch (disk i) offset w
        (omega (arith, l, ap (λ n. length (disk n)) ((==_iff i f).0 e)))
      ∙ fills i)
  | inr e ↦ rw e (fills i)
]

pub write_at_other :
    (disk : Disk) (f offset : ℕ) (w : List ℕ) (i : ℕ) → i ≢ f → write_at disk f offset w i ≡ disk i
write_at_other disk f offset w i ne = ground arith

pub write_at_same :
    (disk : Disk) (f offset : ℕ) (w : List ℕ) → write_at disk f offset w f ≡ patch (disk f) offset w
write_at_same disk f offset w = ground arith

-- The round that writes all that is left.
pub last-Written :
    (jo : Job) (disk : Disk) (f k offset counter : ℕ) (buf : List ℕ) (r : Option (ℤ × Disk))
    → Fills jo disk
    → offset + length (drop counter buf) ≤ length (disk f)
    → r ≡ some (pos (length buf), write_at disk f offset (drop counter buf))
    → Written jo disk f (suc k) offset counter buf r
unfolding span
last-Written jo disk f k offset counter buf r fills l e =
    let d = drop counter buf in
    let disk1 = write_at disk f offset d in
    record {
      disk' = disk1;
      returns = e;
      fills = write_at-Fills jo disk f offset d fills l;
      before = λ i li. write_at_other disk f offset d i (λ same. absurd (omega (arith, same, li)));
      after =
          ap (λ b. b ++ span disk1 (f + 1) k) (write_at_same disk f offset d)
          ∙ ap (λ b. patch (disk f) offset d ++ b)
              (span-same disk disk1 (f + 1) k (λ i li.
                write_at_other disk f offset d i (λ same. absurd (omega (arith, same, li)))))
          ∙ sym (patch-append_left (disk f) (span disk (f + 1) k) offset d l);
    }

pub patch_nothing : (l : List ℕ) (offset : ℕ) (w : List ℕ) → w ≡ [] → l ≡ patch l offset w
patch_nothing l offset w e =
    sym (take-append-drop offset l)
    ∙ ap (λ n. take offset l ++ drop n l) {x = offset} {y = offset + 0} (omega arith)
    ∙ ap (patch l offset) (sym e)

-- A round that fills its file, before the rest goes on in the file `f + 1 + j`.
pub round-Written :
    (jo : Job) (disk : Disk) (f k j offset counter wrote : ℕ) (buf : List ℕ) (r : Option (ℤ × Disk))
    → Fills jo disk
    → offset + wrote ≡ length (disk f)
    → wrote ≤ length (drop counter buf)
    → j ≤ k
    → ((i : ℕ) → i < j → has_bytes jo (f + 1 + i) ≡ false)
    → Written jo
        (write_at disk f offset (take wrote (drop counter buf)))
        (f + 1 + j)
        (k - j)
        0
        (counter + wrote)
        buf
        r
    → Written jo disk f (suc k) offset counter buf r
unfolding span
round-Written jo disk f k j offset counter wrote buf r fills full small lj none_before rest =
    let d = drop counter buf in
    let v = take wrote d in
    let disk1 = write_at disk f offset v in
    let disk' = rest.disk' in
    let tail = drop (counter + wrote) buf in
    let other : (i : ℕ) → f + 1 ≤ i → disk1 i ≡ disk i =
      λ i li. write_at_other disk f offset v i (λ same. absurd (omega (arith, same, li))) in
    let tails : span disk' (f + 1) k ≡ patch (span disk (f + 1) k) 0 tail =
      span-skip jo disk' (f + 1) j k rest.fills none_before lj
      ∙ rest.after
      ∙ ap (λ b. patch b 0 tail)
          (sym (span-skip jo disk1 (f + 1) j k fills1 none_before lj)
            ∙ span-same disk disk1 (f + 1) k other) in
    record {
      disk' = disk';
      returns = rest.returns;
      fills = rest.fills;
      before = λ i li.
          rest.before i (omega (arith, li))
          ∙ write_at_other disk f offset v i (λ same. absurd (omega (arith, same, li)));
      after =
          ap (λ b. b ++ span disk' (f + 1) k)
            (rest.before f (omega arith) ∙ write_at_same disk f offset v)
          ∙ ap (λ b. patch (disk f) offset v ++ b) tails
          ∙ sym (patch-append_across (disk f) (span disk (f + 1) k) offset v tail filled)
          ∙ ap (patch (span disk f (suc k)) offset)
              (ap (λ b. v ++ b) (sym (drop-drop counter wrote buf)) ∙ take-append-drop wrote d);
    }
  where
    taken : length (take wrote (drop counter buf)) ≡ wrote
    taken = omega (arith, length-take wrote (drop counter buf), small)

    filled : offset + length (take wrote (drop counter buf)) ≡ length (disk f)
    filled = omega (arith, taken, full)

    fills1 : Fills jo (write_at disk f offset (take wrote (drop counter buf)))
    fills1 =
        write_at-Fills jo disk f offset (take wrote (drop counter buf)) fills
          (omega (arith, filled))

pub take_whole : (n : ℕ) (l : List ℕ) → length l ≤ n → take n l ≡ l
take_whole zero [] l = refl
take_whole zero (x ∷ xs) l = absurd (omega arith)
take_whole (suc n) [] l = refl
take_whole (suc n) (x ∷ xs) l = ap (◌∷◌ x) (take_whole n xs (omega arith))

-- The round that finds nothing left.
pub write_loop_done :
    (fuel : ℕ) (jo : Job) (disk : Disk) (f offset g total counter n : ℕ) (d buf : List ℕ)
    → 0 < fuel
    → total ≡ 0
    → counter ≡ length buf
    → length d ≤ n
    → write_loop fuel jo (write_at disk f offset (take n d)) g 0 total counter buf []
      ≡ some (pos (length buf), write_at disk f offset d)
unfolding write_loop
write_loop_done zero jo disk f offset g total counter n d buf l z sum small = absurd (omega arith)
write_loop_done (suc fuel) jo disk f offset g (suc total) counter n d buf l z sum small =
    absurd (omega arith)
write_loop_done (suc fuel) jo disk f offset g zero counter n d buf l z sum small =
    ap (λ c. some (pos c, write_at disk f offset (take n d))) sum
    ∙ ap (λ w. some (pos (length buf), write_at disk f offset w)) (take_whole n d small)
