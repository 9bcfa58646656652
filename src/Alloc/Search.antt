-- ===== src/Alloc/Search.antt =====
-- The searches of get_block in src/memory.cpp: the ladder of word tests finds what a scan byte by
-- byte finds, and the loop over the buckets goes once round all of them.
use gko_pool.Prelude.{
  ◌%◌, ◌-◌, ℕ, zero, suc, ◌+◌, ◌*◌, ◌<◌, ◌≡◌, refl, arith, Bool, true, false, Option, none, some,
  ◌==◌, if◌then◌else◌, ◌&&◌, not, ◌∙◌, ◌≤◌, sym, Bool-cases, ◌≢◌, ap, inl, inr,
}
use gko_pool.Alloc.{
  word_has_room, pick_byte, u16, u32, find_byte, bucket_count, find_bucket, has_room,
}

-- The first byte from `p` on, among `n`, that is not 255.
pub first_room : ℕ → ℕ → (ℕ → ℕ) → Option ℕ
first_room zero p m = none
first_room (suc n) p m = let rest = first_room n (p + 1) m in if m p == 255 then rest else some p

abbrev pub IsBytes : (ℕ → ℕ) → Type 0
IsBytes m = (p : ℕ) → m p < 256

u16_full : (b0 b1 : ℕ) → b0 < 256 → b1 < 256 → (u16 b0 b1 == 65535) ≡ ((b0 == 255) && (b1 == 255))
u16_full b0 b1 h0 h1 = ground arith

u32_full :
    (h0 h1 : ℕ)
    → h0 < 65536
    → h1 < 65536
    → (h0 + 65536 * h1 == 4294967295) ≡ ((h0 == 65535) && (h1 == 65535))
u32_full h0 h1 l0 l1 = ground arith

u64_full :
    (h0 h1 : ℕ)
    → h0 < 4294967296
    → h1 < 4294967296
    → (h0 + 4294967296 * h1 == 18446744073709551615) ≡ ((h0 == 4294967295) && (h1 == 4294967295))
u64_full h0 h1 l0 l1 = ground arith

-- The ladder, on the tests of the eight bytes alone.
abbrev ladder : (f0 f1 f2 f3 f4 f5 f6 f7 : Bool) → ℕ
ladder f0 f1 f2 f3 f4 f5 f6 f7 =
    if not ((f0 && f1) && (f2 && f3))
    then (if not (f0 && f1) then (if not f0 then 0 else 1) else (if not f2 then 2 else 3))
    else (if not (f4 && f5) then (if not f4 then 4 else 5) else (if not f6 then 6 else 7))

abbrev scan8 : (f0 f1 f2 f3 f4 f5 f6 f7 : Bool) → (ℕ → Option ℕ) → Option ℕ → Option ℕ
scan8 f0 f1 f2 f3 f4 f5 f6 f7 at rest =
    if f0
    then (if f1
        then (if f2
            then (if f3
                then (if f4
                    then (if f5 then (if f6 then (if f7 then rest else at 7) else at 6) else at 5)
                    else at 4)
                else at 3)
            else at 2)
        else at 1)
    else at 0

ladder-scan8 :
    (f0 f1 f2 f3 f4 f5 f6 f7 : Bool) (at : ℕ → Option ℕ) (rest : Option ℕ)
    → (if not (((f0 && f1) && (f2 && f3)) && ((f4 && f5) && (f6 && f7)))
        then at (ladder f0 f1 f2 f3 f4 f5 f6 f7)
        else rest)
      ≡ scan8 f0 f1 f2 f3 f4 f5 f6 f7 at rest
ladder-scan8 false false f2 f3 f4 f5 f6 f7 at rest = refl
ladder-scan8 false true f2 f3 f4 f5 f6 f7 at rest = refl
ladder-scan8 true false f2 f3 f4 f5 f6 f7 at rest = refl
ladder-scan8 true true false f3 f4 f5 f6 f7 at rest = refl
ladder-scan8 true true true false f4 f5 f6 f7 at rest = refl
ladder-scan8 true true true true false false f6 f7 at rest = refl
ladder-scan8 true true true true false true f6 f7 at rest = refl
ladder-scan8 true true true true true false f6 f7 at rest = refl
ladder-scan8 true true true true true true false f7 at rest = refl
ladder-scan8 true true true true true true true false at rest = refl
ladder-scan8 true true true true true true true true at rest = refl

module _ (b0 b1 b2 b3 b4 b5 b6 b7 : ℕ) (h0 : b0 < 256) (h1 : b1 < 256) (h2 : b2 < 256)
    (h3 : b3 < 256) (h4 : b4 < 256) (h5 : b5 < 256) (h6 : b6 < 256) (h7 : b7 < 256) where
  u32_low :
      (u32 b0 b1 b2 b3 == 4294967295)
      ≡ (((b0 == 255) && (b1 == 255)) && ((b2 == 255) && (b3 == 255)))
  u32_low =
      u32_full (u16 b0 b1) (u16 b2 b3) (omega arith) (omega arith)
      ∙ rw (u16_full b0 b1 h0 h1, u16_full b2 b3 h2 h3)

  u32_high :
      (u32 b4 b5 b6 b7 == 4294967295)
      ≡ (((b4 == 255) && (b5 == 255)) && ((b6 == 255) && (b7 == 255)))
  u32_high =
      u32_full (u16 b4 b5) (u16 b6 b7) (omega arith) (omega arith)
      ∙ rw (u16_full b4 b5 h4 h5, u16_full b6 b7 h6 h7)

  pick_byte-scan8 :
      (at : ℕ → Option ℕ) (rest : Option ℕ)
      → (if word_has_room b0 b1 b2 b3 b4 b5 b6 b7
          then at (pick_byte b0 b1 b2 b3 b4 b5 b6 b7)
          else rest)
        ≡ scan8
            (b0 == 255)
            (b1 == 255)
            (b2 == 255)
            (b3 == 255)
            (b4 == 255)
            (b5 == 255)
            (b6 == 255)
            (b7 == 255)
            at
            rest
  unfolding word_has_room pick_byte
  pick_byte-scan8 at rest =
      rw (u64_full (u32 b0 b1 b2 b3) (u32 b4 b5 b6 b7) (omega arith) (omega arith)) (
        rw (u32_low, u32_high, u16_full b0 b1 h0 h1, u16_full b4 b5 h4 h5)
          (ladder-scan8 (b0 == 255) (b1 == 255) (b2 == 255) (b3 == 255) (b4 == 255) (b5 == 255)
            (b6 == 255) (b7 == 255) at rest))

-- The bytes of `rounds` words.
abbrev bytes_of : ℕ → ℕ
bytes_of zero = 0
bytes_of (suc rounds) = suc (suc (suc (suc (suc (suc (suc (suc (bytes_of rounds))))))))

bytes_of_lem : (rounds : ℕ) → bytes_of rounds ≡ 8 * rounds
bytes_of_lem zero = refl
bytes_of_lem (suc rounds) = omega (arith, bytes_of_lem rounds)

first_room_eight :
    (n p : ℕ) (m : ℕ → ℕ)
    → first_room (suc (suc (suc (suc (suc (suc (suc (suc n)))))))) p m
      ≡ scan8
          (m p == 255)
          (m (p + 1) == 255)
          (m (p + 2) == 255)
          (m (p + 3) == 255)
          (m (p + 4) == 255)
          (m (p + 5) == 255)
          (m (p + 6) == 255)
          (m (p + 7) == 255)
          (λ k. some (p + k))
          (first_room n (p + 8) m)
unfolding first_room
first_room_eight n p m =
    let e0 : p ≡ p + 0 = omega arith in
    let e2 : p + 1 + 1 ≡ p + 2 = omega arith in
    let e3 : p + 2 + 1 ≡ p + 3 = omega arith in
    let e4 : p + 3 + 1 ≡ p + 4 = omega arith in
    let e5 : p + 4 + 1 ≡ p + 5 = omega arith in
    let e6 : p + 5 + 1 ≡ p + 6 = omega arith in
    let e7 : p + 6 + 1 ≡ p + 7 = omega arith in
    let e8 : p + 7 + 1 ≡ p + 8 = omega arith in
    let z : p + 0 ≡ p = omega arith in rw (e2, e3, e4, e5, e6, e7, e8, z)

find_byte-first_room_words :
    (rounds p : ℕ) (m : ℕ → ℕ) → IsBytes m → find_byte rounds p m ≡ first_room (bytes_of rounds) p m
unfolding find_byte
find_byte-first_room_words zero p m h = unfold first_room in refl
find_byte-first_room_words (suc rounds) p m h = rw (find_byte-first_room_words rounds (p + 8) m h) (
    pick_byte-scan8 (m p) (m (p + 1)) (m (p + 2)) (m (p + 3)) (m (p + 4)) (m (p + 5)) (m (p + 6))
      (m (p + 7)) (h p) (h (p + 1)) (h (p + 2)) (h (p + 3)) (h (p + 4)) (h (p + 5)) (h (p + 6))
      (h (p + 7)) (λ k. some (p + k)) (first_room (bytes_of rounds) (p + 8) m)
    ∙ sym (first_room_eight (bytes_of rounds) p m))

-- The search of a bucket's bitmap word by word, with the ladder of 32-, 16- and 8-bit tests inside a
-- word, finds exactly what a scan of the same bytes one by one finds: the first byte that is not
-- 255, or none.
pub find_byte-first_room :
    (rounds p : ℕ) (m : ℕ → ℕ) → IsBytes m → find_byte rounds p m ≡ first_room (8 * rounds) p m
find_byte-first_room rounds p m h =
    find_byte-first_room_words rounds p m h ∙ ap (λ n. first_room n p m) (bytes_of_lem rounds)

pub first_room-some :
    (n p q : ℕ) (m : ℕ → ℕ) → first_room n p m ≡ some q → (p ≤ q) × (q < p + n) × (m q ≢ 255)
unfolding first_room
first_room-some zero p q m e = cc
first_room-some (suc n) p q m e = ground (arith, first_room-some n (p + 1) q m)

pub first_room-none :
    (n p x : ℕ) (m : ℕ → ℕ) → first_room n p m ≡ none → p ≤ x → x < p + n → m x ≡ 255
unfolding first_room
first_room-none zero p x m e l u = absurd (omega arith)
first_room-none (suc n) p x m e l u = elim (Bool-cases (m p == 255)) [
  | inl full ↦ elim (Bool-cases (p == x)) [
    | inl here ↦ ground arith
    | inr later ↦ first_room-none n (p + 1) x m (ground arith) (ground arith) (omega arith)
  ]
  | inr room ↦ absurd (ground arith)
]

pub find_bucket-some :
    (rounds i latest b : ℕ) (used : ℕ → ℕ)
    → find_bucket rounds i latest used ≡ some b
    → (b < bucket_count) × (has_room (used b) ≡ true)
unfolding find_bucket
find_bucket-some zero i latest b used e = cc
find_bucket-some (suc rounds) i latest b used e =
    ground (arith, find_bucket-some rounds (i + 1) latest b used)

find_bucket-none :
    (rounds i k latest : ℕ) (used : ℕ → ℕ)
    → find_bucket rounds i latest used ≡ none
    → i ≤ k
    → k < i + rounds
    → has_room (used ((latest + k) % bucket_count)) ≡ false
unfolding find_bucket
find_bucket-none zero i k latest used e l u = absurd (omega arith)
find_bucket-none (suc rounds) i k latest used e l u = elim (Bool-cases (i == k)) [
  | inl here ↦ ground arith
  | inr later ↦
      find_bucket-none rounds (i + 1) k latest used (ground arith) (ground arith) (omega arith)
]

-- If the loop over the buckets finds none, then no bucket at all has room: the loop starts behind
-- the latest bucket and goes once round.
pub find_bucket_full :
    (latest b : ℕ) (used : ℕ → ℕ)
    → latest < bucket_count
    → b < bucket_count
    → find_bucket bucket_count 0 latest used ≡ none
    → has_room (used b) ≡ false
find_bucket_full latest b used hl hb e =
    let k : ℕ = (b + bucket_count - latest) % bucket_count in
    let round : (latest + k) % bucket_count ≡ b = omega arith in
    rw round at (find_bucket-none bucket_count 0 k latest used e (omega arith) (omega arith))
