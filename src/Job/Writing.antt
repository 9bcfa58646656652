-- ===== src/Job/Writing.antt =====
-- writeblock of src/gingko_base.cpp: on the files laid end to end it is one write.
use gko_pool.Prelude.{
  ℕ, zero, suc, ◌+◌, ◌-◌, ◌≤◌, ◌<◌, ◌≡◌, refl, sym, ap, ◌∙◌, arith, true, false, some, List, [],
  ◌++◌, ltb, ltb→lt, Bool-cases, inl, inr, length, length-append, take, drop, length-take,
  length-drop,
}
use gko_pool.Prelude.Int.{pos, pos_part}
use gko_pool.Job.{Job, Block, Disk, has_bytes, next_f, patch, write_at, write_loop, writeblock}
use gko_pool.Job.Files.{next_f-next, next_f_returns}
use gko_pool.Job.Patch.{patch-append_right, drop_all}
use gko_pool.Job.Span.{span, Fills, span-same, span-before, laid_out, span-skip, first_file}
use gko_pool.Job.Written.{
  Written, write_at-Fills, write_at_other, last-Written, patch_nothing, round-Written,
  write_loop_done,
}

-- The loop, where each pwrite writes all that it is asked for.
write_loop-Written :
    (fuel : ℕ) (jo : Job) (disk : Disk) (f k offset total counter : ℕ) (buf : List ℕ)
    → Fills jo disk
    → f + k ≡ jo.file_count
    → offset ≤ length (disk f)
    → offset + total ≤ length (span disk f k)
    → counter + total ≡ length buf
    → (0 < total → has_bytes jo f ≡ true)
    → k < fuel
    → Written jo disk f k offset counter buf (write_loop fuel jo disk f offset total counter buf [])
unfolding write_loop span
write_loop-Written zero jo disk f k offset total counter buf fills ends inside fits sum from
      enough =
    absurd (omega arith)
write_loop-Written (suc fuel) jo disk f k offset zero counter buf fills ends inside fits sum from
      enough =
    record {
      disk' = disk;
      returns = ap (λ n. some (pos n, disk)) (omega arith);
      fills = fills;
      before = λ i li. refl;
      after =
          patch_nothing (span disk f k) offset (drop counter buf)
            (drop_all counter buf (omega arith));
    }
write_loop-Written (suc fuel) jo disk f zero offset (suc left) counter buf fills ends inside fits
      sum from enough =
    absurd (omega arith)
write_loop-Written (suc fuel) jo disk f (suc k) offset (suc left) counter buf fills ends inside fits
      sum from enough =
    elim (Bool-cases (ltb (pos_part (jo.file_size f) - offset) (suc left)))
      as (λ _.
        Written jo disk f (suc k) offset counter buf
          (write_loop (suc fuel) jo disk f offset (suc left) counter buf [])) [
            | inl e ↦
                let room = pos_part (jo.file_size f) - offset in
                let (j, lj, found, before) = first_file jo disk (f + 1) k fills (more e) in
                let disk1 = write_at disk f offset (take room (drop counter buf)) in
                rw (next_file j lj found before, e, write_loop)
                  (round-Written jo disk f k j offset counter room buf
                    (write_loop fuel jo disk1 (f + 1 + j) 0 (suc left - room) (counter + room) buf
                      [])
                    fills (whole e) (omega (arith, length-drop counter buf, sum, ltb→lt _ _ e))
                    (omega (arith, lj)) before
                    (write_loop-Written fuel jo disk1 (f + 1 + j) (k - j) 0 (suc left - room)
                      (counter + room) buf (fills1 e) (omega (arith, ends, lj)) (omega arith)
                      (fits1 e j lj before) (omega (arith, sum, ltb→lt _ _ e)) (λ _. found)
                      (omega (arith, enough))))
            | inr e ↦
                let (g, returned) =
                  next_f_returns jo f (omega (arith, ends)) (from (omega arith)) in
                rw (returned, e, write_loop)
                  (last-Written jo disk f k offset counter buf
                    (write_loop fuel jo
                      (write_at disk f offset (take (suc left) (drop counter buf))) g 0
                      (suc left - suc left) (counter + suc left) buf [])
                    fills (omega (arith, fills f, length-drop counter buf, sum, leb_room e, inside))
                    (write_loop_done fuel jo disk f offset g (suc left - suc left)
                      (counter + suc left) (suc left) (drop counter buf) buf (omega (arith, enough))
                      (omega arith) sum (omega (arith, length-drop counter buf, sum))))
          ]
  where
    leb_room :
        ltb (pos_part (jo.file_size f) - offset) (suc left) ≡ false
        → suc left ≤ pos_part (jo.file_size f) - offset
    leb_room e = ground arith

    more :
        ltb (pos_part (jo.file_size f) - offset) (suc left) ≡ true
        → 0 < length (span disk (f + 1) k)
    more e =
        omega
          (arith, fits, length-append (disk f) (span disk (f + 1) k), fills f, inside, ltb→lt _ _ e)

    whole :
        ltb (pos_part (jo.file_size f) - offset) (suc left) ≡ true
        → offset + (pos_part (jo.file_size f) - offset) ≡ length (disk f)
    whole e = omega (arith, fills f, inside)

    taken :
        ltb (pos_part (jo.file_size f) - offset) (suc left) ≡ true
        → offset + length (take (pos_part (jo.file_size f) - offset) (drop counter buf))
          ≤ length (disk f)
    taken e =
        omega (arith, whole e, length-take (pos_part (jo.file_size f) - offset) (drop counter buf))

    fills1 :
        ltb (pos_part (jo.file_size f) - offset) (suc left) ≡ true
        → Fills jo
            (write_at disk f offset (take (pos_part (jo.file_size f) - offset) (drop counter buf)))
    fills1 e =
        write_at-Fills jo disk f offset
          (take (pos_part (jo.file_size f) - offset) (drop counter buf)) fills (taken e)

    fits1 :
        (e : ltb (pos_part (jo.file_size f) - offset) (suc left) ≡ true) (j : ℕ)
        → j < k
        → ((i : ℕ) → i < j → has_bytes jo (f + 1 + i) ≡ false)
        → 0 + (suc left - (pos_part (jo.file_size f) - offset))
          ≤ length (
              span
                (write_at disk f offset
                  (take (pos_part (jo.file_size f) - offset) (drop counter buf)))
                (f + 1 + j)
                (k - j))
    fits1 e j lj before =
        let v = take (pos_part (jo.file_size f) - offset) (drop counter buf) in
        let disk1 = write_at disk f offset v in
        omega (
          arith,
          ap length (span-skip jo disk1 (f + 1) j k (fills1 e) before (omega (arith, lj))),
          ap length (
              span-same disk disk1 (f + 1) k (λ i li.
                write_at_other disk f offset v i (λ same. absurd (omega (arith, same, li))))),
          fits,
          length-append (disk f) (span disk (f + 1) k),
          fills f,
          inside,
          ltb→lt _ _ e,
        )

    next_file :
        (j : ℕ)
        → j < k
        → has_bytes jo (f + 1 + j) ≡ true
        → ((i : ℕ) → i < j → has_bytes jo (f + 1 + i) ≡ false)
        → next_f jo f ≡ some (f + 1 + j)
    next_file j lj found before =
        next_f-next jo f j (omega arith)
          (ap (has_bytes jo) {x = f + suc j} {y = f + 1 + j} (omega arith) ∙ found)
          (λ i li. ap (has_bytes jo) {x = f + suc i} {y = f + 1 + i} (omega arith) ∙ before i li)
        ∙ ap some (omega arith)

-- writeblock refines one write into the files laid end to end. Where each file has its size, the
-- block's offset is inside its first file, which has bytes, the block ends within the last file, and
-- each call of open and pwrite does all that is asked for, it returns the block's size, leaves
-- each file at its size, and the bytes of all files end to end are those from before with the block's bytes written over them at the block's place. More turns than
-- files are enough.
pub writeblock_refines :
    (fuel : ℕ) (jo : Job) (disk : Disk) (buf : List ℕ) (blk : Block) (k : ℕ)
    → Fills jo disk
    → blk.start_f + k ≡ jo.file_count
    → has_bytes jo blk.start_f ≡ true
    → blk.start_off ≤ length (disk blk.start_f)
    → length buf ≡ blk.size
    → blk.start_off + blk.size ≤ length (span disk blk.start_f k)
    → k < fuel
    → (disk' : Disk) × (writeblock fuel jo disk buf blk [] ≡ some (pos blk.size, disk'))
      × Fills jo disk'
      × (span disk' 0 jo.file_count
          ≡ patch
              (span disk 0 jo.file_count)
              (length (span disk 0 blk.start_f) + blk.start_off)
              buf)
unfolding writeblock
writeblock_refines fuel jo disk buf blk k fills ends from inside whole fits enough =
    let f = blk.start_f in
    let w =
      write_loop-Written fuel jo disk f k blk.start_off blk.size 0 buf fills ends inside fits
        (omega (arith, whole)) (λ _. from) enough in
    (
      w.disk',
      w.returns ∙ ap (λ n. some (pos n, w.disk')) whole,
      w.fills,
      laid_out jo w.disk' f k ends
          ∙ ap (λ b. b ++ span w.disk' f k)
              (span-before disk w.disk' 0 f (λ i l. w.before i (omega (arith, l))))
          ∙ ap (λ b. span disk 0 f ++ b) w.after
          ∙ sym (patch-append_right (span disk 0 f) (span disk f k) blk.start_off buf)
          ∙ ap (λ b. patch b (length (span disk 0 f) + blk.start_off) buf)
              (sym (laid_out jo disk f k ends)),
    )
