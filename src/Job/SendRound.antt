-- ===== src/Job/SendRound.antt =====
-- A round of sendblocks, src/gingko_base.cpp, where later rounds send the rest.
use gko_pool.Prelude.{
  ℕ, zero, suc, ◌+◌, ◌-◌, ◌≤◌, ◌<◌, ◌≡◌, refl, ap, ◌∙◌, arith, true, false, some, List, [], ◌++◌,
  ltb, ltb→lt, ◌==◌, ==_iff, Bool-cases, inl, inr, length, length-append, take, drop,
}
use gko_pool.Prelude.Int.{pos}
use gko_pool.Job.{Job, Disk, has_bytes, blocks_loop, ℕ, suc, ◌+◌, ◌-◌}
use gko_pool.Job.Files.{next_f_returns}
use gko_pool.Job.Span.{span, Fills, span-skip, first_file}
use gko_pool.Job.Rounds.{
  sizes, pos_at, file_left, step_in_block, step_both, step_in_file, next_b-suc, send_loop_done,
  join, next_round, last_round, next_file,
}

-- What the loop does with so much fuel, where each round's calls succeed and `n` blocks are left
-- after the one it is in.
abbrev pub SentRange : Job → Disk → ℕ → Type 0
SentRange jo disk fuel =
    (f k offset b n block_left total : ℕ) (out : List ℕ)
    → Fills jo disk
    → f + k ≡ jo.file_count
    → offset ≤ length (disk f)
    → block_left + sizes jo (b + 1) n ≡ total
    → offset + total ≤ length (span disk f k)
    → b + n < jo.block_count
    → (0 < total → has_bytes jo f ≡ true)
    → k + n < fuel
    → blocks_loop fuel jo disk (pos_at f offset b block_left) total out []
      ≡ some (pos 0, out ++ take total (drop offset (span disk f k)))

-- A round with bytes left to send.
module _ (fuel : ℕ) (jo : Job) (disk : Disk) (f k offset b n block_left left : ℕ) (out : List ℕ)
    (fills : Fills jo disk) (ends : f + suc k ≡ jo.file_count) (inside : offset ≤ length (disk f))
    (sum : block_left + sizes jo (b + 1) n ≡ suc left)
    (fits : offset + suc left ≤ length (span disk f (suc k))) (within : b + n < jo.block_count)
    (from : 0 < suc left → has_bytes jo f ≡ true) (enough : suc k + n < suc fuel) where
  abbrev pub Sent : Type 0
  Sent =
      blocks_loop (suc fuel) jo disk (pos_at f offset b block_left) (suc left) out []
      ≡ some (pos 0, out ++ take (suc left) (drop offset (span disk f (suc k))))

  reach : length (disk f ++ span disk (f + 1) k) ≡ length (disk f) + length (span disk (f + 1) k)
  unfolding blocks_loop span sizes
  reach = length-append (disk f) (span disk (f + 1) k)

  ends_here : ltb block_left (suc left) ≡ false → block_left ≡ suc left
  unfolding blocks_loop span sizes
  ends_here e = ground (arith, sum)

  small : ltb (file_left jo f offset) block_left ≡ false → block_left ≤ file_left jo f offset
  unfolding blocks_loop span sizes
  small e = ground arith

  rest_of :
      (n' : ℕ)
      → n ≡ suc n'
      → sizes jo (b + 1) n ≡ (jo.blocks (b + 1)).size + sizes jo (b + 1 + 1) n'
  unfolding blocks_loop span sizes
  rest_of n' e = ap (sizes jo (b + 1)) e

  none_left : n ≡ 0 → sizes jo (b + 1) n ≡ 0
  unfolding blocks_loop span sizes
  none_left e = ap (sizes jo (b + 1)) e

  both_last :
      ltb (file_left jo f offset) block_left ≡ false
      → (block_left == file_left jo f offset) ≡ true
      → block_left ≡ file_left jo f offset
      → block_left ≡ suc left
      → Sent
  unfolding blocks_loop span sizes
  both_last e same is done =
      let m = file_left jo f offset in
      let (g, returned) = next_f_returns jo f (omega (arith, ends)) (from (omega arith)) in
      rw (step_both jo f offset b block_left g e same returned, blocks_loop)
        (last_round disk f k offset m (suc left) out _ (omega (arith, fills f, inside))
          (omega (arith, is, done))
          (send_loop_done fuel jo disk _ (suc left - m) (out ++ take m (drop offset (disk f)))
            (omega (arith, enough)) (omega (arith, is, done))))

  both_more :
      SentRange jo disk fuel
      → ltb (file_left jo f offset) block_left ≡ false
      → (block_left == file_left jo f offset) ≡ true
      → block_left ≡ file_left jo f offset
      → block_left < suc left
      → (n' : ℕ) → n ≡ n'
      → Sent
  unfolding blocks_loop span sizes
  both_more ih e same is more zero en = absurd (omega (arith, none_left en, sum, more))
  both_more ih e same is more (suc n') en =
      let m = file_left jo f offset in
      let (j, lj, found, before) =
        first_file jo disk (f + 1) k fills
          (omega (arith, reach, fits, is, more, inside, fills f)) in
      rw
        (
          step_both jo f offset b block_left (f + 1 + j) e same
              (next_file jo f j (omega (arith, ends, lj)) found before),
          next_b-suc jo b (omega (arith, within, en)),
          blocks_loop,
        )
        (next_round jo disk f k j offset m (suc left - m) (suc left) out _ fills
          (omega (arith, fills f, inside)) (omega (arith, is, more)) lj before
          (ih (f + 1 + j) (k - j) 0 (b + 1) n' (jo.blocks (b + 1)).size (suc left - m)
            (out ++ take m (drop offset (disk f))) fills (omega (arith, ends, lj)) (omega arith)
            (omega (arith, sum, rest_of n' en, is))
            (omega (
              arith,
              ap length (span-skip jo disk (f + 1) j k fills before (omega (arith, lj))),
              reach,
              fits,
              fills f,
              inside,
            ))
            (omega (arith, within, en)) (λ _. found) (omega (arith, enough, en))))

  in_file_last :
      ltb (file_left jo f offset) block_left ≡ false
      → (block_left == file_left jo f offset) ≡ false
      → block_left ≡ suc left
      → Sent
  unfolding blocks_loop span sizes
  in_file_last e other done =
      rw (step_in_file jo f offset b block_left e other, blocks_loop)
        (last_round disk f k offset block_left (suc left) out _
          (omega (arith, fills f, inside, small e)) done
          (send_loop_done fuel jo disk _ (suc left - block_left)
            (out ++ take block_left (drop offset (disk f))) (omega (arith, enough))
            (omega (arith, done))))

  in_file_more :
      SentRange jo disk fuel
      → ltb (file_left jo f offset) block_left ≡ false
      → (block_left == file_left jo f offset) ≡ false
      → block_left < suc left
      → (n' : ℕ) → n ≡ n'
      → Sent
  unfolding blocks_loop span sizes
  in_file_more ih e other more zero en = absurd (omega (arith, none_left en, sum, more))
  in_file_more ih e other more (suc n') en =
      rw
        (
          step_in_file jo f offset b block_left e other,
          next_b-suc jo b (omega (arith, within, en)),
          blocks_loop,
        )
        (ih f (suc k) (offset + block_left) (b + 1) n' (jo.blocks (b + 1)).size
            (suc left - block_left) (out ++ take block_left (drop offset (disk f))) fills ends
            (omega (arith, fills f, inside, small e)) (omega (arith, sum, rest_of n' en))
            (omega (arith, fits, more)) (omega (arith, within, en)) (λ _. from (omega arith))
            (omega (arith, enough, en))
          ∙ ap (λ s. some (pos 0, s))
              (join out (disk f) (span disk (f + 1) k) offset block_left (suc left - block_left)
                (suc left) (omega (arith, fills f, inside, small e)) (omega (arith, more))))

  pub round-Sent : SentRange jo disk fuel → Sent
  unfolding blocks_loop span sizes
  round-Sent ih = elim (Bool-cases (ltb (file_left jo f offset) block_left)) as (λ _. Sent) [
    | inl e ↦
        let m = file_left jo f offset in
        let (j, lj, found, before) =
          first_file jo disk (f + 1) k fills
            (omega (arith, reach, fits, sum, inside, ltb→lt _ _ e, fills f)) in
        rw
          (
            step_in_block jo f offset b block_left (f + 1 + j) e
                (next_file jo f j (omega (arith, ends, lj)) found before),
            blocks_loop,
          )
          (next_round jo disk f k j offset m (suc left - m) (suc left) out _ fills
            (omega (arith, fills f, inside)) (omega (arith, sum, ltb→lt _ _ e)) lj before
            (ih (f + 1 + j) (k - j) 0 b n (block_left - m) (suc left - m)
              (out ++ take m (drop offset (disk f))) fills (omega (arith, ends, lj)) (omega arith)
              (omega (arith, sum, ltb→lt _ _ e))
              (omega (
                arith,
                ap length (span-skip jo disk (f + 1) j k fills before (omega (arith, lj))),
                reach,
                fits,
                fills f,
                inside,
              ))
              within (λ _. found) (omega (arith, enough))))
    | inr e ↦ elim (Bool-cases (block_left == file_left jo f offset)) as (λ _. Sent) [
      | inl same ↦ elim (Bool-cases (ltb block_left (suc left))) as (λ _. Sent) [
        | inl more ↦ both_more (ih) e same ((==_iff _ _).0 same) (ltb→lt _ _ more) n refl
        | inr no_more ↦ both_last e same ((==_iff _ _).0 same) (ends_here no_more)
      ]
      | inr other ↦ elim (Bool-cases (ltb block_left (suc left))) as (λ _. Sent) [
        | inl more ↦ in_file_more (ih) e other (ltb→lt _ _ more) n refl
        | inr no_more ↦ in_file_last e other (ends_here no_more)
      ]
    ]
  ]
