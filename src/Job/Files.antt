-- ===== src/Job/Files.antt =====
-- The order of a job's files and blocks, in src/gingko.h.
use native.Mathlib.Nat.{mod-add-mod, mod-eq_of_lt, mod_self, add-mod_right}
use gko_pool.Prelude.{
  ℕ, zero, suc, ◌+◌, ◌%◌, ◌<◌, ◌≡◌, refl, ap, ◌∙◌, arith, true, false, some, ltb, ◌==◌, Bool-cases,
  inl, inr, ◌⊎◌,
}
use gko_pool.Job.{Job, has_bytes, next_from, next_f, next_b, prev_b}

-- The next file with bytes, where those between have none.
next_from-next :
    (rounds : ℕ) (jo : Job) (f k : ℕ)
    → f + suc k < jo.file_count
    → k < rounds
    → has_bytes jo (f + suc k) ≡ true
    → ((j : ℕ) → j < k → has_bytes jo (f + suc j) ≡ false)
    → next_from rounds jo f ≡ some (f + suc k)
unfolding next_from
next_from-next zero jo f k l r yes_k none_before = absurd (omega arith)
next_from-next (suc rounds) jo f zero l r yes_k none_before = rw (at_next, yes_k) refl
  where
    at_next : (1 + f) % jo.file_count ≡ f + 1
    at_next = ap (λ n. n % jo.file_count) (omega arith) ∙ mod-eq_of_lt l
next_from-next (suc rounds) jo f (suc k) l r yes_k none_before =
    rw (at_next, none_before 0 (omega arith))
      (next_from-next rounds jo (f + 1) k (omega arith) (omega arith)
          (ap (has_bytes jo) (omega arith) ∙ yes_k)
          (λ j lj. ap (has_bytes jo) (omega arith) ∙ none_before (suc j) (omega arith))
        ∙ ap some (omega arith))
  where
    at_next : (1 + f) % jo.file_count ≡ f + 1
    at_next = ap (λ n. n % jo.file_count) (omega arith) ∙ mod-eq_of_lt (omega arith)

pub next_f-next :
    (jo : Job) (f k : ℕ)
    → f + suc k < jo.file_count
    → has_bytes jo (f + suc k) ≡ true
    → ((j : ℕ) → j < k → has_bytes jo (f + suc j) ≡ false)
    → next_f jo f ≡ some (f + suc k)
unfolding next_f
next_f-next jo f k l yes_k none_before =
    next_from-next jo.file_count jo f k l (omega arith) yes_k none_before

next_from_returns :
    (rounds : ℕ) (jo : Job) (f : ℕ)
    → 0 < rounds
    → has_bytes jo ((f + rounds) % jo.file_count) ≡ true
    → (g : ℕ) × (next_from rounds jo f ≡ some g)
unfolding next_from
next_from_returns zero jo f l h = absurd (omega arith)
next_from_returns (suc zero) jo f l h = (
  (1 + f) % jo.file_count,
  rw (ap (λ n. has_bytes jo (n % jo.file_count)) {x = 1 + f} {y = f + 1} (omega arith) ∙ h) refl,
)
next_from_returns (suc (suc rounds)) jo f l h =
    elim (Bool-cases (has_bytes jo ((1 + f) % jo.file_count))) [
      | inl e ↦ ((1 + f) % jo.file_count, rw e refl)
      | inr e ↦ rw e (
          next_from_returns (suc rounds) jo ((1 + f) % jo.file_count) (omega arith) (
            ap (has_bytes jo) (
              mod-add-mod (1 + f) jo.file_count (suc rounds)
              ∙ ap (λ n. n % jo.file_count) (omega arith))
            ∙ h))
    ]

-- Where the file that the search starts from has bytes, next_f returns: it comes back to that one.
pub next_f_returns :
    (jo : Job) (f : ℕ)
    → f < jo.file_count
    → has_bytes jo f ≡ true
    → (g : ℕ) × (next_f jo f ≡ some g)
unfolding next_f
next_f_returns jo f l h =
    next_from_returns jo.file_count jo f (omega arith)
      (ap (has_bytes jo) (add-mod_right f jo.file_count ∙ mod-eq_of_lt l) ∙ h)

-- Going one block on and one back, round the end, comes to the same block.
pub next_b-prev_b :
    (jo : Job) (block : ℕ)
    → block < jo.block_count
    → (next_b jo (prev_b jo block) ≡ block) × (prev_b jo (next_b jo block) ≡ block)
unfolding next_b prev_b
next_b-prev_b jo block l =
    (forth (Bool-cases (block == 0)), back (Bool-cases (ltb (block + 1) jo.block_count)))
  where
    round : ltb (block + 1) jo.block_count ≡ false → (block + 1) % jo.block_count ≡ 0
    round e = ap (λ n. n % jo.block_count) (ground arith) ∙ mod_self jo.block_count

    forth : ((block == 0) ≡ true) ⊎ ((block == 0) ≡ false) → next_b jo (prev_b jo block) ≡ block
    forth (inl e) =
        rw e (ap (λ n. n % jo.block_count) (omega arith) ∙ mod_self jo.block_count ∙ ground arith)
    forth (inr e) = rw e (ap (λ n. n % jo.block_count) (ground arith) ∙ mod-eq_of_lt l)

    back :
        (ltb (block + 1) jo.block_count ≡ true) ⊎ (ltb (block + 1) jo.block_count ≡ false)
        → prev_b jo (next_b jo block) ≡ block
    back (inl e) =
        rw (mod-eq_of_lt {n = block + 1} {m = jo.block_count} (ground arith)) (ground arith)
    back (inr e) = rw (round e) (ground arith)
