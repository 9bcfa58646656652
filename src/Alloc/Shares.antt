-- ===== src/Alloc/Shares.antt =====
-- Blocks of gkoAlloc (src/memory.cpp) taken, given back and addressed, in terms of who holds them.
use gko_pool.Prelude.{
  ℕ, zero, suc, ◌+◌, ◌*◌, ◌/◌, ◌≤◌, ◌<◌, ◌≡◌, ◌≢◌, refl, subst, ◌∙◌, inl, inr, arith, List, [], ◌∷◌,
  ◌++◌, Option, none, some, ◌==◌, ==_iff, ltb, length, if◌then◌else◌, Bool-cases, Option-cases,
}
use gko_pool.Alloc.{Alloc, bucket_count, bucket_capacity, get_block, free_block, id2addr}
use gko_pool.Alloc.Invariant.{bit_at}
use gko_pool.Alloc.Invariant.Counting.{count_one}
use gko_pool.Alloc.Blocks.{get_block-Outcome}
use gko_pool.Alloc.Ownership.{
  occurrences, Accounts, got-Accounts, denied-Accounts, gave-Accounts, unheld_available,
}

-- The slot that an arena's number names, as a list.
abbrev pub slot : Option ℕ → List ℕ
slot none = []
slot (some id) = id ∷ []

-- Who holds what does not depend on the order.
pub Accounts-same :
    (a : Alloc) (live live' : List ℕ)
    → ((id : ℕ) → occurrences id live' ≡ occurrences id live)
    → Accounts a live
    → Accounts a live'
Accounts-same a live live' same v = record {
  well_formed = v.well_formed;
  held = λ id. same id ∙ v.held id;
  in_range = v.in_range;
}

pub Accounts-swap :
    (a : Alloc) (x y : Option ℕ) (others : List ℕ)
    → Accounts a (slot x ++ (slot y ++ others))
    → Accounts a (slot y ++ (slot x ++ others))
Accounts-swap a x y others v =
    Accounts-same a (slot x ++ (slot y ++ others)) (slot y ++ (slot x ++ others))
      (λ id. swapped id x y) v
  where
    swapped :
        (id : ℕ) (x y : Option ℕ)
        → occurrences id (slot y ++ (slot x ++ others))
          ≡ occurrences id (slot x ++ (slot y ++ others))
    swapped id none y = refl
    swapped id (some m) none = refl
    swapped id (some m) (some n) = omega arith

pub get_block-Accounts :
    (a : Alloc) (memalign : ℕ) (live : List ℕ)
    → Accounts a live
    → Accounts (get_block a memalign).0 (slot (get_block a memalign).1 ++ live)
get_block-Accounts a memalign live v =
    elim (Option-cases (get_block a memalign).1)
      as (λ _. Accounts (get_block a memalign).0 (slot (get_block a memalign).1 ++ live)) [
        | inl e ↦ rw e (
            denied-Accounts a live memalign (get_block a memalign) v
              (get_block-Outcome a memalign v.well_formed) e)
        | inr (id, e) ↦ rw e (
            got-Accounts a live memalign id (get_block a memalign) v
              (get_block-Outcome a memalign v.well_formed) e)
      ]

pub free_block-Accounts :
    (a : Alloc) (arena_id : Option ℕ) (others : List ℕ)
    → Accounts a (slot arena_id ++ others)
    → Accounts (free_block a arena_id) others
unfolding free_block
free_block-Accounts a none others v = v
free_block-Accounts a (some id) others v = gave-Accounts a [] others id v

-- A block that somebody holds has an address.
pub id2addr_held :
    (a : Alloc) (live : List ℕ) (id : ℕ)
    → Accounts a live
    → 0 < occurrences id live
    → id2addr a (some id) ≢ 0
unfolding id2addr
id2addr_held a live id v held zero_addr =
    v.well_formed.backed (id / bucket_capacity) (omega (arith, small))
      (omega (
        arith,
        v.well_formed.counted (id / bucket_capacity) (omega (arith, small)),
        count_one (bit_at a.m_map) (id / bucket_capacity * bucket_capacity) bucket_capacity id used
            (omega arith) (omega arith),
      ))
      (omega (arith, zero_addr))
  where
    used : bit_at a.m_map id ≡ 1
    used = omega (arith, v.held id, held)

    small : id < bucket_count * bucket_capacity
    small = v.in_range id used

-- So has the block that a call of get_block gives.
pub get_block-backed :
    (a : Alloc) (memalign : ℕ) (live : List ℕ)
    → Accounts a live
    → (get_block a memalign).1 ≢ none
    → id2addr (get_block a memalign).0 (get_block a memalign).1 ≢ 0
get_block-backed a memalign live v got = elim (Option-cases (get_block a memalign).1) [
  | inl e ↦ absurd (got e)
  | inr (id, e) ↦
      let after = get_block-Accounts a memalign live v in
      rw e (
        id2addr_held (get_block a memalign).0 (id ∷ live) id
          (subst (λ o. Accounts (get_block a memalign).0 (slot o ++ live)) e after) (ground arith))
]

-- The entries of a list that are less than a bound.
below : ℕ → List ℕ → ℕ
below n [] = 0
below n (x ∷ xs) = (if ltb x n then 1 else 0) + below n xs

below-suc : (n : ℕ) (xs : List ℕ) → below (suc n) xs ≡ below n xs + occurrences n xs
unfolding below
below-suc n [] = refl
below-suc n (x ∷ xs) = ground (arith, below-suc n xs)

below-length : (n : ℕ) (xs : List ℕ) → below n xs ≤ length xs
unfolding below
below-length n [] = omega arith
below-length n (x ∷ xs) = ground (arith, below-length n xs)

below-zero : (xs : List ℕ) → below zero xs ≡ 0
unfolding below
below-zero [] = refl
below-zero (x ∷ xs) = ground (arith, below-zero xs)

-- A list with fewer entries than numbers below a bound misses one of these.
missing : (n : ℕ) (xs : List ℕ) → below n xs < n → (id : ℕ) × (id < n) × (occurrences id xs ≡ 0)
missing zero xs l = absurd (omega arith)
missing (suc n) xs l = elim (Bool-cases (occurrences n xs == 0)) [
  | inl e ↦ (n, omega arith, (==_iff (occurrences n xs) 0).0 e)
  | inr e ↦
      let (id, small, out) = missing n xs (ground (arith, below-suc n xs)) in
      (id, omega (arith, small), out)
]

-- As long as fewer slots are held than there are, `get_block` gives a block.
pub Accounts-available :
    (a : Alloc) (live : List ℕ) (memalign : ℕ)
    → Accounts a live
    → memalign ≢ 0
    → length live < bucket_count * bucket_capacity
    → (id : ℕ) × ((get_block a memalign).1 ≡ some id)
Accounts-available a live memalign v ne few =
    let (free, small, out) =
      missing (bucket_count * bucket_capacity) live
        (omega (arith, below-length (bucket_count * bucket_capacity) live)) in
    unheld_available a live memalign free v ne small out
