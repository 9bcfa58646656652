-- ===== src/Alloc/Invariant/Counting.antt =====
-- How often a bit function is 1 on a range, and what one changed bit does to that.
use gko_pool.Prelude.{ℕ, zero, suc, ◌+◌, ◌≤◌, ◌<◌, ◌≡◌, ◌≢◌, refl, ◌⊎◌, inl, inr, ap, arith}
use gko_pool.Prelude.{◌==◌, ==_iff, Bool-cases}
use native.Mathlib.Decide.{ℕ_discrete}

pub count : (ℕ → ℕ) → ℕ → ℕ → ℕ
count f lo zero = 0
count f lo (suc n) = f lo + count f (lo + 1) n

pub count-le : (f : ℕ → ℕ) (lo n : ℕ) → ((x : ℕ) → f x ≤ 1) → count f lo n ≤ n
unfolding count
count-le f lo zero h = omega arith
count-le f lo (suc n) h = omega (arith, h lo, count-le f (lo + 1) n h)

pub count_zero : (f : ℕ → ℕ) (lo n : ℕ) → ((x : ℕ) → f x ≡ 0) → count f lo n ≡ 0
unfolding count
count_zero f lo zero h = refl
count_zero f lo (suc n) h = omega (arith, h lo, count_zero f (lo + 1) n h)

pub count_full :
    (f : ℕ → ℕ) (lo n : ℕ) → ((x : ℕ) → lo ≤ x → x < lo + n → f x ≡ 1) → count f lo n ≡ n
unfolding count
count_full f lo zero h = refl
count_full f lo (suc n) h = omega (
  arith,
  h lo (omega arith) (omega arith),
  count_full f (lo + 1) n (λ x l u. h x (omega arith) (omega arith)),
)

module _ (f g : ℕ → ℕ) (id : ℕ) (same : (x : ℕ) → x ≢ id → g x ≡ f x) where
  pub count_outside : (lo n : ℕ) → (id < lo) ⊎ (lo + n ≤ id) → count g lo n ≡ count f lo n
  unfolding count
  count_outside lo zero h = refl
  count_outside lo (suc n) h = omega (arith, same lo (omega arith), count_outside (lo + 1) n (go h))
    where
      go : (id < lo) ⊎ (lo + suc n ≤ id) → (id < lo + 1) ⊎ (lo + 1 + n ≤ id)
      go (inl l) = inl (omega arith)
      go (inr l) = inr (omega arith)

  pub count_inside :
      g id ≡ f id + 1 → (lo n : ℕ) → lo ≤ id → id < lo + n → count g lo n ≡ count f lo n + 1
  unfolding count
  count_inside up lo zero l u = absurd (omega arith)
  count_inside up lo (suc n) l u = elim (ℕ_discrete lo id) [
    | yes e ↦ omega (arith, ap g e, ap f e, count_outside (lo + 1) n (inl (omega arith)))
    | no ne ↦ omega (arith, same lo ne, count_inside up (lo + 1) n (omega arith) (omega arith))
  ]

pub count_full_inv :
    (f : ℕ → ℕ) (lo n x : ℕ)
    → ((y : ℕ) → f y ≤ 1)
    → count f lo n ≡ n
    → lo ≤ x
    → x < lo + n
    → f x ≡ 1
unfolding count
count_full_inv f lo zero x h e l u = absurd (omega arith)
count_full_inv f lo (suc n) x h e l u = elim (ℕ_discrete lo x) [
  | yes here ↦ omega (arith, h lo, count-le f (lo + 1) n h, ap f here)
  | no later ↦
      count_full_inv f (lo + 1) n x h (omega (arith, h lo, count-le f (lo + 1) n h)) (omega arith)
        (omega arith)
]

-- A bit that is 1 counts.
pub count_one : (f : ℕ → ℕ) (lo n x : ℕ) → f x ≡ 1 → lo ≤ x → x < lo + n → 0 < count f lo n
unfolding count
count_one f lo zero x one l u = absurd (omega arith)
count_one f lo (suc n) x one l u = elim (Bool-cases (lo == x)) [
  | inl e ↦ omega (arith, ap f ((==_iff lo x).0 e), one)
  | inr e ↦ omega (arith, count_one f (lo + 1) n x one (ground arith) (omega arith))
]
