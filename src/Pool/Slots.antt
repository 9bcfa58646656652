-- ===== src/Pool/Slots.antt =====
-- The searches for a free slot and for a worker, in src/async_conn.cpp and src/async_threads.cpp.
use native.Mathlib.Nat.{mod-lt, mod-eq_of_lt, add-mod_right}
use gko_pool.Prelude.{
  ℕ, zero, suc, ◌+◌, ◌-◌, ◌%◌, ◌<◌, ◌≡◌, ◌≢◌, refl, sym, subst, ap, ◌∙◌, inl, inr, arith, Bool,
  true, false, Option, none, some, ltb, Bool-cases,
}
use gko_pool.Client.{World}
use gko_pool.Pool.{
  Pool, find_next, is_free, use_slot, use_thread, conn_client_list_find_free, thread_list_find_next,
}

-- The slot of a round.
abbrev slot : ℕ → ℕ → ℕ → ℕ
slot limit curr i = (i + curr + 1) % limit

-- What a search with some rounds left finds: the first slot accepted, or none is.
Finds : ℕ → ℕ → ℕ → (ℕ → Bool) → ℕ → Option ℕ → Type 0
Finds rounds limit curr accept i none =
    (k : ℕ) → k < rounds → accept (slot limit curr (i + k)) ≡ false
Finds rounds limit curr accept i (some t) =
    (k : ℕ) × (k < rounds)
    × (t ≡ slot limit curr (i + k))
    × (accept t ≡ true)
    × ((j : ℕ) → j < k → accept (slot limit curr (i + j)) ≡ false)

Finds-next :
    (rounds limit curr : ℕ) (accept : ℕ → Bool) (i : ℕ) (r : Option ℕ)
    → accept (slot limit curr i) ≡ false
    → Finds rounds limit curr accept (i + 1) r
    → Finds (suc rounds) limit curr accept i r
unfolding Finds
Finds-next rounds limit curr accept i none refused f = earlier
  where
    earlier : (k : ℕ) → k < suc rounds → accept (slot limit curr (i + k)) ≡ false
    earlier zero l = ap (λ n. accept (slot limit curr n)) (omega arith) ∙ refused
    earlier (suc k) l = ap (λ n. accept (slot limit curr n)) (omega arith) ∙ f k (omega arith)
Finds-next rounds limit curr accept i (some t) refused (k, l, e, accepted, before) =
    (suc k, omega arith, e ∙ ap (slot limit curr) (omega arith), accepted, earlier)
  where
    earlier : (j : ℕ) → j < suc k → accept (slot limit curr (i + j)) ≡ false
    earlier zero l = ap (λ n. accept (slot limit curr n)) (omega arith) ∙ refused
    earlier (suc j) l = ap (λ n. accept (slot limit curr n)) (omega arith) ∙ before j (omega arith)

find_next-Finds :
    (rounds limit curr : ℕ) (accept : ℕ → Bool) (i : ℕ)
    → Finds rounds limit curr accept i (find_next rounds limit curr accept i)
unfolding find_next Finds
find_next-Finds zero limit curr accept i = λ k l. absurd (omega arith)
find_next-Finds (suc rounds) limit curr accept i = elim (Bool-cases (accept (slot limit curr i))) [
  | inl e ↦
      rw e (0, omega arith, ap (slot limit curr) (omega arith), e, λ j l. absurd (omega arith))
  | inr e ↦
      rw e (
        Finds-next rounds limit curr accept i _ e
          (find_next-Finds rounds limit curr accept (i + 1)))
]

-- Each slot has its round.
reached :
    (limit curr j : ℕ)
    → curr < limit
    → j < limit
    → (k : ℕ) × (k < limit) × (slot limit curr (0 + k) ≡ j)
reached limit curr j c l = elim (Bool-cases (ltb curr j)) [
  | inl e ↦ (j - (curr + 1), ground arith, ap (λ n. n % limit) (ground arith) ∙ mod-eq_of_lt l)
  | inr e ↦ (
    j + limit - (curr + 1),
    ground arith,
    ap (λ n. n % limit) (ground arith) ∙ add-mod_right j limit ∙ mod-eq_of_lt l,
  )
]

-- What a search over a full round returns is accepted, and none is only where no slot is.
found :
    (limit curr : ℕ) (accept : ℕ → Bool) (t : ℕ) (r : Option ℕ)
    → curr < limit
    → Finds limit limit curr accept 0 r
    → r ≡ some t
    → (t < limit) × (accept t ≡ true)
unfolding Finds
found limit curr accept t r l f e = go (subst (Finds limit limit curr accept 0) e f)
  where
    go : Finds limit limit curr accept 0 (some t) → (t < limit) × (accept t ≡ true)
    go (k, lk, et, accepted, before) =
        (subst (λ n. n < limit) (sym et) (mod-lt (0 + k + curr + 1) (omega arith)), accepted)

missed :
    (limit curr : ℕ) (accept : ℕ → Bool) (r : Option ℕ)
    → curr < limit
    → Finds limit limit curr accept 0 r
    → r ≡ none
    → (j : ℕ) → j < limit
    → accept j ≡ false
unfolding Finds
missed limit curr accept r l f e j h =
    let (k, lk, ek) = reached limit curr j l h in
    ap accept (sym ek) ∙ (subst (Finds limit limit curr accept 0) e f) k lk

-- What a search for a free slot gives.
pub record Taken (p : Pool) (w : World) (t : ℕ) (p' : Pool) : Type 0 where
  pub in_list : t < p.connlimit
  pub was_free : is_free (p.g_client_list t) ≡ true
  pub in_use : 0 < w.now → is_free (p'.g_client_list t) ≡ false
  pub others : (i : ℕ) → i ≢ t → p'.g_client_list i ≡ p.g_client_list i
  pub next_from : p'.g_curr_conn ≡ t

use_slot-Taken :
    (p : Pool) (w : World) (r : Option ℕ)
    → ((t : ℕ) → r ≡ some t → (t < p.connlimit) × (is_free (p.g_client_list t) ≡ true))
    → (t : ℕ) → (use_slot p w r).2 ≡ some t
    → Taken p w t (use_slot p w r).0
unfolding use_slot
use_slot-Taken p w none h t e = absurd cc
use_slot-Taken p w (some s) h t e =
    subst (λ t. Taken p w t (use_slot p w (some s)).0)
      (ap (λ o. elim o as (λ _. ℕ) [ none ↦ s | some x ↦ x ]) e)
      record {
        in_list = (h s refl).0;
        was_free = (h s refl).1;
        in_use = λ l. ground arith;
        others = λ i ne. ground arith;
        next_from = refl;
      }

use_slot-none :
    (p : Pool) (w : World) (r : Option ℕ)
    → (use_slot p w r).2 ≡ none
    → (r ≡ none) × ((use_slot p w r).0 ≡ p) × ((use_slot p w r).1 ≡ w)
unfolding use_slot
use_slot-none p w none e = (refl, refl, refl)
use_slot-none p w (some t) e = absurd cc

-- With the cursor inside the list, conn_client_list_find_free returns a slot of the list that was
-- free, marks it as used where the clock is not at 0, moves the cursor there and leaves all other
-- slots as they were; it returns -1 only where no slot of the list is free, and then changes nothing.
pub conn_client_list_find_free-Taken :
    (p : Pool) (w : World)
    → p.g_curr_conn < p.connlimit
    → let r = conn_client_list_find_free p w in
      ((t : ℕ) → r.2 ≡ some t → Taken p w t r.0)
      × (r.2 ≡ none
          → (r.0 ≡ p)
            × (r.1 ≡ w)
            × ((j : ℕ) → j < p.connlimit → is_free (p.g_client_list j) ≡ false))
unfolding conn_client_list_find_free
conn_client_list_find_free-Taken p w l =
    let accept = λ (i : ℕ). is_free (p.g_client_list i) in
    let r = find_next p.connlimit p.connlimit p.g_curr_conn accept 0 in
    let finds = find_next-Finds p.connlimit p.connlimit p.g_curr_conn accept 0 in
    (
      use_slot-Taken p w r (λ t. found p.connlimit p.g_curr_conn accept t r l finds),
      λ e.
          let nothing = use_slot-none p w r e in
          (nothing.1, nothing.2, missed p.connlimit p.g_curr_conn accept r l finds nothing.0),
    )

-- What a search for a thread gives, where some thread of the list has started.
use_thread_live :
    (p : Pool) (r : Option ℕ)
    → ((t : ℕ) → r ≡ some t → (t < p.worker_thread) × (p.g_worker_list t ≡ true))
    → (r ≢ none)
    → (t : ℕ) × ((use_thread p r).1 ≡ some t)
      × (t < p.worker_thread)
      × (p.g_worker_list t ≡ true)
      × ((use_thread p r).0.g_curr_thread ≡ t)
unfolding use_thread
use_thread_live p none h ne = absurd (ne refl)
use_thread_live p (some t) h ne = (t, refl, (h t refl).0, (h t refl).1, refl)

-- Where some thread of the list has started, thread_list_find_next returns such a thread and moves
-- the cursor there.
pub thread_list_find_next_live :
    (p : Pool) (j : ℕ)
    → p.g_curr_thread < p.worker_thread
    → j < p.worker_thread
    → p.g_worker_list j ≡ true
    → let r = thread_list_find_next p in
      (t : ℕ) × (r.1 ≡ some t)
      × (t < p.worker_thread)
      × (p.g_worker_list t ≡ true)
      × (r.0.g_curr_thread ≡ t)
unfolding thread_list_find_next
thread_list_find_next_live p j l h live =
    let n = p.worker_thread in
    let r = find_next n n p.g_curr_thread p.g_worker_list 0 in
    let finds = find_next-Finds n n p.g_curr_thread p.g_worker_list 0 in
    use_thread_live p r (λ t. found n p.g_curr_thread p.g_worker_list t r l finds)
      (λ e. dead (missed n p.g_curr_thread p.g_worker_list r l finds e j h))
  where
    dead : p.g_worker_list j ≡ false → ⊥
    dead e = cc

use_thread_dead :
    (p : Pool) (r : Option ℕ)
    → ((t : ℕ) → r ≡ some t → ⊥)
    → 0 < p.worker_thread
    → (use_thread p r).1 ≡ some ((p.worker_thread - 1 + p.g_curr_thread + 1) % p.worker_thread)
unfolding use_thread
use_thread_dead p none h l = ground arith
use_thread_dead p (some t) h l = absurd (h t refl)

-- Where no thread of the list has started, thread_list_find_next does not return -1, as its comment
-- says, but the number of the slot where the cursor is.
pub thread_list_find_next_dead :
    (p : Pool)
    → p.g_curr_thread < p.worker_thread
    → ((j : ℕ) → j < p.worker_thread → p.g_worker_list j ≡ false)
    → (thread_list_find_next p).1 ≡ some p.g_curr_thread
unfolding thread_list_find_next
thread_list_find_next_dead p l dead =
    let n = p.worker_thread in
    let r = find_next n n p.g_curr_thread p.g_worker_list 0 in
    let finds = find_next-Finds n n p.g_curr_thread p.g_worker_list 0 in
    use_thread_dead p r (λ t e. refused (found n p.g_curr_thread p.g_worker_list t r l finds e))
      (omega arith)
    ∙ ap some (ap (λ k. k % n) (omega arith) ∙ add-mod_right p.g_curr_thread n ∙ mod-eq_of_lt l)
  where
    some_false : true ≡ false → ⊥
    some_false e = cc

    refused : {t : ℕ} → (t < p.worker_thread) × (p.g_worker_list t ≡ true) → ⊥
    refused (h, live) = some_false (sym live ∙ dead _ h)
