-- ===== src/Alloc/Ownership.antt =====
-- gkoAlloc (src/memory.cpp) and its users: who holds which slot, over any sequence of calls.
use gko_pool.Prelude.{
  ℕ, ◌+◌, ◌*◌, ◌/◌, ◌≤◌, ◌<◌, ◌≡◌, ◌≢◌, refl, sym, ap, ◌∙◌, inl, inr, arith, List, [], ◌∷◌, ◌++◌,
  Option, none, some, ◌==◌, ==_iff, if◌then◌else◌, Bool-cases,
}
use gko_pool.Alloc.{Alloc, bucket_count, bucket_capacity, get_block, free_block, new}
use gko_pool.Alloc.Invariant.{Inv, bit_at}
use gko_pool.Alloc.Invariant.Counting.{count_full_inv}
use gko_pool.Alloc.Blocks.{Raises, Outcome, served, refused, get_block-Outcome}
use gko_pool.Alloc.Release.{new-Inv, free_block-Inv}

-- How often a slot stands in a list.
abbrev pub occurrences : ℕ → List ℕ → ℕ
occurrences id [] = 0
occurrences id (x ∷ xs) = (if x == id then 1 else 0) + occurrences id xs

pub occurrences-append :
    (id : ℕ) (xs ys : List ℕ) → occurrences id (xs ++ ys) ≡ occurrences id xs + occurrences id ys
occurrences-append id [] ys = omega arith
occurrences-append id (x ∷ xs) ys = omega (arith, occurrences-append id xs ys)

-- A run of the allocator with the slots that its users hold: a user frees only what it holds.
pub data History : Alloc → List ℕ → Type 0 where
  start : History new []
  got :
      {a : Alloc} {live : List ℕ} (memalign id : ℕ)
      → History a live
      → (get_block a memalign).1 ≡ some id
      → History (get_block a memalign).0 (id ∷ live)
  denied :
      {a : Alloc} {live : List ℕ} (memalign : ℕ)
      → History a live
      → (get_block a memalign).1 ≡ none
      → History (get_block a memalign).0 live
  gave :
      {a : Alloc} (before after : List ℕ) (id : ℕ)
      → History a (before ++ id ∷ after)
      → History (free_block a (some id)) (before ++ after)

-- What holds after every run.
pub record Accounts (a : Alloc) (live : List ℕ) : Type 0 where
  pub well_formed : Inv a
  pub held : (id : ℕ) → occurrences id live ≡ bit_at a.m_map id
  pub in_range : (id : ℕ) → bit_at a.m_map id ≡ 1 → id < bucket_count * bucket_capacity

bump :
    (m m' : ℕ → ℕ) (id x : ℕ)
    → Raises m m' id
    → bit_at m' x ≡ (if id == x then 1 else 0) + bit_at m x
bump m m' id x r = elim (Bool-cases (id == x)) [
  | inl e ↦
      let k : id ≡ x = (==_iff id x).0 e in
      rw e (omega (arith, r.was, r.now, ap (bit_at m) k, ap (bit_at m') k))
  | inr e ↦ rw e (omega (arith, r.others x (λ k. cc (e, (==_iff id x).1 (sym k)))))
]

pub got-Accounts :
    (a : Alloc) (live : List ℕ) (memalign id : ℕ) (r : Alloc × Option ℕ)
    → Accounts a live
    → Outcome a memalign r
    → r.1 ≡ some id
    → Accounts r.0 (id ∷ live)
got-Accounts a live memalign id r v (served j e small up backed inv) k = record {
  well_formed = inv;
  held = λ x. ground (arith, v.held x, bump a.m_map r.0.m_map j x up, same);
  in_range = λ x one. ground (arith, small, same, bump a.m_map r.0.m_map j x up, v.in_range x);
}
  where
    same : j ≡ id
    same = ground (arith, e, k)
got-Accounts a live memalign id r v (refused e why) k = cc

pub denied-Accounts :
    (a : Alloc) (live : List ℕ) (memalign : ℕ) (r : Alloc × Option ℕ)
    → Accounts a live
    → Outcome a memalign r
    → r.1 ≡ none
    → Accounts r.0 live
denied-Accounts a live memalign r v (served j e small up backed inv) k = cc
denied-Accounts a live memalign r v (refused e why) k = rw e v

pub gave-Accounts :
    (a : Alloc) (before after : List ℕ) (id : ℕ)
    → Accounts a (before ++ id ∷ after)
    → Accounts (free_block a (some id)) (before ++ after)
gave-Accounts a before after id v = record {
  well_formed = (free_block-Inv a id v.well_formed small used).1;
  held = λ x. ground (
    arith,
    v.held x,
    occurrences-append x before (id ∷ after),
    occurrences-append x before after,
    bump (free_block a (some id)).m_map a.m_map id x lowers,
  );
  in_range = λ x one.
      v.in_range x
        (ground (arith, one, lowers.was, bump (free_block a (some id)).m_map a.m_map id x lowers));
}
  where
    used : bit_at a.m_map id ≡ 1
    used =
        ground (arith, v.held id, (==_iff id id).1 refl, occurrences-append id before (id ∷ after))

    small : id < bucket_count * bucket_capacity
    small = v.in_range id used

    lowers : Raises (free_block a (some id)).m_map a.m_map id
    lowers = (free_block-Inv a id v.well_formed small used).0

-- After every run from a new allocator in which a user frees only a block that it holds, the state is well
-- formed, and a slot's bit is set exactly if some user holds the slot, who then holds it once.
pub History-Accounts : {a : Alloc} {live : List ℕ} → History a live → Accounts a live
History-Accounts start = record {
  well_formed = new-Inv.0;
  held = λ id. sym (new-Inv.1 id);
  in_range = λ id one. absurd (omega (arith, new-Inv.1 id));
}
History-Accounts (got {a = b} {live = held} memalign id h e) =
    got-Accounts b held memalign id (get_block b memalign) (History-Accounts h)
      (get_block-Outcome b memalign (History-Accounts h).well_formed) e
History-Accounts (denied {a = b} {live = held} memalign h e) =
    denied-Accounts b held memalign (get_block b memalign) (History-Accounts h)
      (get_block-Outcome b memalign (History-Accounts h).well_formed) e
History-Accounts (gave {a = b} before after id h) =
    gave-Accounts b before after id (History-Accounts h)

-- No slot is ever handed out while a user holds it: the block that `get_block` returns after any
-- run is none of those held, and no block held is held twice.
pub get_block_unheld :
    {a : Alloc} {live : List ℕ} (memalign id : ℕ)
    → History a live
    → (get_block a memalign).1 ≡ some id
    → (occurrences id live ≡ 0) × ((x : ℕ) → occurrences x live ≤ 1)
get_block_unheld {a} {live} memalign id h e =
    (go (get_block-Outcome a memalign acc.well_formed), λ x. omega (arith, acc.held x))
  where
    acc : Accounts a live
    acc = History-Accounts h

    go : Outcome a memalign (get_block a memalign) → occurrences id live ≡ 0
    go (served j k small up backed inv) =
        let same : j ≡ id = ground (arith, e, k) in
        omega (arith, up.was, acc.held j, ap (λ i. occurrences i live) same)
    go (refused k why) = absurd (cc (k, e))

-- A slot that nobody holds keeps `get_block` from being refused, unless memory is short.
pub unheld_available :
    (a : Alloc) (live : List ℕ) (memalign free : ℕ)
    → Accounts a live
    → memalign ≢ 0
    → free < bucket_count * bucket_capacity
    → occurrences free live ≡ 0
    → (id : ℕ) × ((get_block a memalign).1 ≡ some id)
unheld_available a live memalign free acc ne small unheld =
    go (get_block-Outcome a memalign acc.well_formed)
  where
    in_use :
        ((b : ℕ) → b < bucket_count → a.bucket_used b ≡ bucket_capacity) → bit_at a.m_map free ≡ 1
    in_use full =
        count_full_inv (bit_at a.m_map) (free / bucket_capacity * bucket_capacity) bucket_capacity
          free (λ y. omega arith)
          (sym (acc.well_formed.counted (free / bucket_capacity) (omega arith))
            ∙ full (free / bucket_capacity) (omega arith))
          (omega arith) (omega arith)

    go : Outcome a memalign (get_block a memalign) → (id : ℕ) × ((get_block a memalign).1 ≡ some id)
    go (served j k _ up backed inv) = (j, k)
    go (refused k (inl z)) = absurd (ne z)
    go (refused k (inr full)) = absurd (omega (arith, in_use full, acc.held free))

-- The pool is exhausted only when it is full: as long as some slot is held by nobody and
-- posix_memalign does not fail, `get_block` returns a block, whatever calls went before.
pub get_block_available :
    {a : Alloc} {live : List ℕ} (memalign free : ℕ)
    → History a live
    → memalign ≢ 0
    → free < bucket_count * bucket_capacity
    → occurrences free live ≡ 0
    → (id : ℕ) × ((get_block a memalign).1 ≡ some id)
get_block_available {a} {live} memalign free h ne small unheld =
    unheld_available a live memalign free (History-Accounts h) ne small unheld
