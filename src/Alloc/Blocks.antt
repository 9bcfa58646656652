-- ===== src/Alloc/Blocks.antt =====
-- get_block and free_block of src/memory.cpp: what each does to the bitmap and to the counts.
use gko_pool.Prelude.{
  ℕ, ◌+◌, ◌*◌, ◌/◌, ◌%◌, ◌<◌, ◌≤◌, ◌≡◌, ◌≢◌, ◌⊎◌, refl, sym, ap, ◌∙◌, inl, inr, arith, Option, none,
  some, Bool-cases, Option-cases, ==_iff, ◌==◌, if◌then◌else◌,
}
use native.Mathlib.Decide.{ℕ_discrete}
use gko_pool.Alloc.{
  Alloc, bucket_count, bucket_capacity, find_bucket, find_byte, get_bit, ensure_bucket, take_slot,
  get_block, update,
}
use gko_pool.Alloc.Bits.{bit, bit_full, get_bit_first_clear}
use gko_pool.Alloc.Search.{
  find_byte-first_room, first_room-some, first_room-none, find_bucket-some, find_bucket_full,
}
use gko_pool.Alloc.Invariant.{Inv, bit_at}
use gko_pool.Alloc.Invariant.Counting.{count, count-le, count_full, count_outside, count_inside}

-- `m'` is `m` with the bit of one slot raised from 0 to 1.
pub record Raises (m m' : ℕ → ℕ) (id : ℕ) : Type 0 where
  pub was : bit_at m id ≡ 0
  pub now : bit_at m' id ≡ 1
  pub others : (x : ℕ) → x ≢ id → bit_at m' x ≡ bit_at m x

-- A change of one byte that changes one bit of it.
update-Raises :
    (m : ℕ → ℕ) (p i c : ℕ)
    → i < 8
    → bit (m p) i ≡ 0
    → bit c i ≡ 1
    → ((j : ℕ) → j < 8 → i ≢ j → bit c j ≡ bit (m p) j)
    → Raises m (update m p c) (8 * p + i)
update-Raises m p i c h z o rest = record {
  was =
      let d : (8 * p + i) / 8 ≡ p = omega arith in
      let r : (8 * p + i) % 8 ≡ i = omega arith in rw (d, r) z;
  now =
      let d : (8 * p + i) / 8 ≡ p = omega arith in
      let r : (8 * p + i) % 8 ≡ i = omega arith in rw (d, r) (rw ((==_iff p p).1 refl) o);
  others = λ x ne. elim (Bool-cases (p == x / 8)) [
    | inl here ↦
        let e : p ≡ x / 8 = (==_iff p (x / 8)).0 here in
        rw here (rest (x % 8) (omega arith) (λ k. ne (omega arith)) ∙ ap (λ y. bit (m y) (x % 8)) e)
    | inr there ↦ rw there
  ];
}

pub update-Lowers :
    (m : ℕ → ℕ) (p i c : ℕ)
    → i < 8
    → bit (m p) i ≡ 1
    → bit c i ≡ 0
    → ((j : ℕ) → j < 8 → i ≢ j → bit c j ≡ bit (m p) j)
    → Raises (update m p c) m (8 * p + i)
update-Lowers m p i c h o z rest = record {
  was =
      let d : (8 * p + i) / 8 ≡ p = omega arith in
      let r : (8 * p + i) % 8 ≡ i = omega arith in rw (d, r) (rw ((==_iff p p).1 refl) z);
  now =
      let d : (8 * p + i) / 8 ≡ p = omega arith in
      let r : (8 * p + i) % 8 ≡ i = omega arith in rw (d, r) o;
  others = λ x ne. elim (Bool-cases (p == x / 8)) [
    | inl here ↦
        let e : p ≡ x / 8 = (==_iff p (x / 8)).0 here in
        rw here
          (sym (rest (x % 8) (omega arith) (λ k. ne (omega arith)) ∙ ap (λ y. bit (m y) (x % 8)) e))
    | inr there ↦ rw there
  ];
}

-- One raised bit is counted in its own bucket and in no other.
pub Raises-count :
    (m m' : ℕ → ℕ) (id b : ℕ)
    → Raises m m' id
    → count (bit_at m') (b * bucket_capacity) bucket_capacity
      ≡ count (bit_at m) (b * bucket_capacity) bucket_capacity
        + (if id / bucket_capacity == b then 1 else 0)
Raises-count m m' id b r = elim (Bool-cases (id / bucket_capacity == b)) [
  | inl here ↦
      let e : id / bucket_capacity ≡ b = (==_iff _ b).0 here in
      rw here (
        count_inside (bit_at m) (bit_at m') id r.others (omega (arith, r.was, r.now))
          (b * bucket_capacity) bucket_capacity (omega arith) (omega arith))
  | inr there ↦ rw there (
      count_outside (bit_at m) (bit_at m') id r.others (b * bucket_capacity) bucket_capacity
        (outside (λ e. cc (there, (==_iff _ b).1 e)))
      ∙ omega arith)
]
  where
    outside :
        id / bucket_capacity ≢ b
        → (id < b * bucket_capacity) ⊎ (b * bucket_capacity + bucket_capacity ≤ id)
    outside ne = omega arith

bit_at-le : (m : ℕ → ℕ) (x : ℕ) → bit_at m x ≤ 1
bit_at-le m x = omega arith

pub used-le : {a : Alloc} → Inv a → (b : ℕ) → b < bucket_count → a.bucket_used b ≤ bucket_capacity
used-le {a} v b h = omega (
  arith,
  v.counted b h,
  count-le (bit_at a.m_map) (b * bucket_capacity) bucket_capacity (bit_at-le a.m_map),
)

-- The allocator with memory at `memalign` for bucket `b`.
abbrev pub with_memory : Alloc → ℕ → ℕ → Alloc
with_memory a b memalign = record a {
  bucket_s = update a.bucket_s b memalign;
  bucket_used = update a.bucket_used b 0;
}

ensure_bucket-cases :
    (a : Alloc) (b memalign : ℕ)
    → ((a.bucket_s b ≢ 0) × (ensure_bucket a b memalign ≡ some a))
      ⊎ (((a.bucket_s b ≡ 0)
            × (memalign ≢ 0)
            × (ensure_bucket a b memalign ≡ some (with_memory a b memalign)))
          ⊎ ((a.bucket_s b ≡ 0) × (memalign ≡ 0) × (ensure_bucket a b memalign ≡ none)))
unfolding ensure_bucket
ensure_bucket-cases a b memalign = elim (Bool-cases (a.bucket_s b == 0)) [
  | inl e ↦ elim (Bool-cases (memalign == 0)) [
    | inl f ↦ inr (inr ((==_iff _ 0).0 e, (==_iff _ 0).0 f, rw (e, f)))
    | inr f ↦ inr (inl ((==_iff _ 0).0 e, (λ z. cc (f, (==_iff _ 0).1 z)), rw (e, f)))
  ]
  | inr e ↦ inl ((λ z. cc (e, (==_iff _ 0).1 z)), rw e)
]

-- Giving a bucket its memory changes no bit and no count.
with_memory-Inv :
    (a : Alloc) (b memalign : ℕ)
    → Inv a
    → b < bucket_count
    → a.bucket_s b ≡ 0
    → memalign ≢ 0
    → Inv (with_memory a b memalign)
with_memory-Inv a b memalign v hb e ne = record {
  bytes = v.bytes;
  counted = λ c hc. elim (Bool-cases (b == c)) [
    | inl here ↦
        let k : b ≡ c = (==_iff b c).0 here in
        rw here (empty k ∙ ap a.bucket_used k ∙ v.counted c hc)
    | inr there ↦ rw there (v.counted c hc)
  ];
  backed = λ c hc. elim (Bool-cases (b == c)) [
    | inl here ↦ rw here (λ _. ne)
    | inr there ↦ rw there (v.backed c hc)
  ];
  latest = v.latest;
}
  where
    empty : {c : ℕ} → b ≡ c → 0 ≡ a.bucket_used b
    empty k = elim (ℕ_discrete (a.bucket_used b) 0) [
      | yes z ↦ sym z
      | no nz ↦ absurd (v.backed b hb (omega arith) e)
    ]

module _ (a : Alloc) (b p : ℕ) (v : Inv a) (hb : b < bucket_count) (np : a.m_map p ≢ 255) where
  abbrev at_bit : ℕ
  at_bit = (get_bit (a.m_map p)).0

  clear_bit : ℕ
  clear_bit = 8 * p + at_bit

  abbrev raised : ℕ → ℕ
  raised = update a.m_map p (get_bit (a.m_map p)).1

  byte_small : a.m_map p < 255
  byte_small = omega (arith, v.bytes p)

  raised-Raises : Raises a.m_map raised (8 * p + at_bit)
  raised-Raises =
      let (small, byte, was, now, rest, first) = get_bit_first_clear (a.m_map p) byte_small in
      update-Raises a.m_map p at_bit (get_bit (a.m_map p)).1 small was now rest

  raised-IsBytes : (q : ℕ) → raised q < 256
  raised-IsBytes q = ground (arith, v.bytes q, (get_bit_first_clear (a.m_map p) byte_small).1)

  module _ (room : a.bucket_used b < bucket_capacity) (backed : a.bucket_s b ≢ 0) (l : 512 * b ≤ p)
      (u : p < 512 * b + 512) where
    in_bucket : (8 * p + at_bit) / bucket_capacity ≡ b
    in_bucket = omega (arith, (get_bit_first_clear (a.m_map p) byte_small).0)

    take_slot-Inv : Inv (take_slot a b p).0
    unfolding take_slot
    take_slot-Inv = record {
      bytes = raised-IsBytes;
      counted = λ c hc. ground (
        arith,
        v.counted c hc,
        in_bucket,
        Raises-count a.m_map raised (8 * p + at_bit) c raised-Raises,
      );
      backed = λ c hc. ground (arith, v.backed c hc);
      latest = v.latest;
    }

    take_slot_id : (take_slot a b p).1 ≡ some (8 * p + at_bit)
    unfolding take_slot
    take_slot_id = ap some (omega arith)

-- The two ways in which a call of `get_block` can end.
pub data Outcome (a : Alloc) (memalign : ℕ) (r : Alloc × Option ℕ) : Type 0 where
  served :
      (id : ℕ)
      → r.1 ≡ some id
      → id < bucket_count * bucket_capacity
      → Raises a.m_map r.0.m_map id
      → r.0.bucket_s (id / bucket_capacity) ≢ 0
      → Inv r.0
      → Outcome a memalign r
  refused :
      r ≡ (a, none)
      → (memalign ≡ 0) ⊎ ((b : ℕ) → b < bucket_count → a.bucket_used b ≡ bucket_capacity)
      → Outcome a memalign r

-- A bucket with room has a byte with a clear bit.
find_byte-room :
    (a : Alloc) (b : ℕ)
    → Inv a
    → b < bucket_count
    → a.bucket_used b < bucket_capacity
    → find_byte 64 (b * bucket_capacity / 8) a.m_map ≢ none
find_byte-room a b v hb room e = absurd (
    omega (
      arith,
      v.counted b hb,
      count_full (bit_at a.m_map) (b * bucket_capacity) bucket_capacity all_used,
    ))
  where
    all_used :
        (x : ℕ)
        → b * bucket_capacity ≤ x
        → x < b * bucket_capacity + bucket_capacity
        → bit_at a.m_map x ≡ 1
    all_used x l u =
        let start : b * bucket_capacity / 8 ≡ 512 * b = omega arith in
        let scan = sym (find_byte-first_room 64 (b * bucket_capacity / 8) a.m_map v.bytes) ∙ e in
        let full : a.m_map (x / 8) ≡ 255 =
          first_room-none (8 * 64) (b * bucket_capacity / 8) (x / 8) a.m_map scan (omega arith)
            (omega arith) in
        rw full (bit_full (x % 8) (omega arith))

module _ (a : Alloc) (memalign : ℕ) (v : Inv a) where
  -- The rest of the call, once a bucket `b` is found that has room and memory.
  with_bucket :
      (a' : Alloc) (b : ℕ)
      → Inv a'
      → a'.m_map ≡ a.m_map
      → b < bucket_count
      → a'.bucket_used b < bucket_capacity
      → a'.bucket_s b ≢ 0
      → Outcome a memalign (elim (find_byte 64 (b * bucket_capacity / 8) a'.m_map) [
        | none ↦ (a', none)
        | some p ↦ take_slot a' b p
      ])
  with_bucket a' b v' same hb room backed =
      elim (Option-cases (find_byte 64 (b * bucket_capacity / 8) a'.m_map)) [
        | inl e ↦ absurd (find_byte-room a' b v' hb room e)
        | inr (p, e) ↦ rw e (found p e)
      ]
    where
      found :
          (p : ℕ)
          → find_byte 64 (b * bucket_capacity / 8) a'.m_map ≡ some p
          → Outcome a memalign (take_slot a' b p)
      found p e =
          let start : b * bucket_capacity / 8 ≡ 512 * b = omega arith in
          let scan =
            sym (find_byte-first_room 64 (b * bucket_capacity / 8) a'.m_map v'.bytes) ∙ e in
          let (l, u, np) = first_room-some (8 * 64) (b * bucket_capacity / 8) p a'.m_map scan in
          let l' : 512 * b ≤ p = omega arith in
          let u' : p < 512 * b + 512 = omega arith in
          let bit_index = at_bit a' b p v' hb np in
          let owner = in_bucket a' b p v' hb np room backed l' u' in
          served (8 * p + bit_index) (take_slot_id a' b p v' hb np room backed l' u') (omega arith)
            (unfold take_slot in rw (sym same) (raised-Raises a' b p v' hb np))
            (unfold take_slot in rw owner backed) (take_slot-Inv a' b p v' hb np room backed l' u')

  -- In a well-formed allocator a call of `get_block` either hands out a slot that was free, in a
  -- bucket that has its memory, sets that slot's bit and no other, and keeps the state well
  -- formed; or it changes nothing and returns INVILID_BLOCK, and then either posix_memalign failed
  -- or every slot of every bucket is in use.
  pub get_block-Outcome : Outcome a memalign (get_block a memalign)
  unfolding get_block
  get_block-Outcome =
      elim (Option-cases (find_bucket bucket_count 0 a.latest_bucket a.bucket_used)) [
        | inl e ↦ rw (e, get_block) (refused refl (inr (λ b hb. full b hb e)))
        | inr (b, e) ↦
            let (hb, room) = find_bucket-some bucket_count 0 a.latest_bucket b a.bucket_used e in
            rw (e, get_block) (chosen b hb (ground (arith, used-le v b hb)))
      ]
    where
      full :
          (b : ℕ)
          → b < bucket_count
          → find_bucket bucket_count 0 a.latest_bucket a.bucket_used ≡ none
          → a.bucket_used b ≡ bucket_capacity
      full b hb e =
          let none_free = find_bucket_full a.latest_bucket b a.bucket_used v.latest hb e in
          ground (arith, none_free, used-le v b hb)

      chosen :
          (b : ℕ)
          → b < bucket_count
          → a.bucket_used b < bucket_capacity
          → Outcome a memalign (elim (ensure_bucket a b memalign) [
            | none ↦ (a, none)
            | some a' ↦ elim (find_byte 64 (b * bucket_capacity / 8) a'.m_map) [
              | none ↦ (a', none)
              | some p ↦ take_slot a' b p
            ]
          ])
      chosen b hb room = elim (ensure_bucket-cases a b memalign) [
        | inl (backed, e) ↦ rw e (with_bucket a b v refl hb room backed)
        | inr (inl (null, ne, e)) ↦ rw e (
            with_bucket (with_memory a b memalign) b (with_memory-Inv a b memalign v hb null ne)
              refl hb (ground arith) (ground arith))
        | inr (inr (null, z, e)) ↦ rw e (refused refl (inl z))
      ]
