-- ===== src/Wire/RoundTrip.antt =====
-- The header codec of src/gingko.h: what is written is read back.
use native.Mathlib.Nat.{pow-suc}
use mathlib.Core.List.{append_assoc, append-nil}
use gko_pool.Prelude.{
  ℕ, zero, suc, ◌+◌, ◌*◌, ◌/◌, ◌%◌, ◌^◌, ◌<◌, ◌≤◌, ◌≡◌, refl, sym, ap, ◌∙◌, ◌-◌, arith, List, [],
  ◌∷◌, ◌++◌, ltb, ◌||◌, false, set, replicate, ◌⊎◌, inl, inr, length, Bool-cases, ◌==◌, ==_iff,
  lt→ltb, length-append,
}
use gko_pool.Prelude.Int.{pos, negsuc, int_of_bits, int_max, ℤ, pos_part}
use gko_pool.Wire.{cmd_prefix_byte, fill_digits, fill_cmd_head, parse_digits, parse_cmd_head}

-- The last `k` decimal digits of `n`, the highest first.
pub decimal : ℕ → ℕ → List ℕ
decimal zero n = []
decimal (suc k) n = decimal k (n / 10) ++ (n % 10 + b'0') ∷ []

set-replicate :
    (f a v : ℕ) (rest : List ℕ) → set (a ∷ replicate f a ++ rest) f v ≡ replicate f a ++ v ∷ rest
set-replicate zero a v rest = refl
set-replicate (suc f) a v rest = ap (◌∷◌ a) (set-replicate f a v rest)

replicate_comm : (k a : ℕ) (rest : List ℕ) → replicate k a ++ a ∷ rest ≡ a ∷ replicate k a ++ rest
replicate_comm zero a rest = refl
replicate_comm (suc k) a rest = ap (◌∷◌ a) (replicate_comm k a rest)

decimal-zero : (k : ℕ) → decimal k 0 ≡ replicate k b'0'
unfolding decimal
decimal-zero zero = refl
decimal-zero (suc k) = rw (decimal-zero k) (replicate_comm k b'0' [] ∙ ap (◌∷◌ b'0') (append-nil _))

fill_digits-decimal :
    (f n : ℕ) (rest : List ℕ)
    → fill_digits (suc f) f n (replicate (suc f) b'0' ++ rest) ≡ decimal (suc f) n ++ rest
unfolding fill_digits decimal
fill_digits-decimal zero n rest = ground arith
fill_digits-decimal (suc f) n rest = elim (Bool-cases (n == 0)) [
  | inl e ↦ rw e (rw ((==_iff n 0).0 e) (ap (λ l. l ++ rest) (sym (decimal-zero (suc (suc f))))))
  | inr e ↦
      let down : suc f - 1 ≡ f = omega arith in
      rw (e, set-replicate (suc f) b'0' (n % 10 + b'0') rest, down)
        (fill_digits-decimal f (n / 10) ((n % 10 + b'0') ∷ rest)
          ∙ sym (append_assoc (decimal (suc f) (n / 10)) ((n % 10 + b'0') ∷ []) rest))
]

parse_digits-decimal :
    (k r n : ℕ) (rest : List ℕ)
    → n < 10 ^ k
    → parse_digits (k + r) 0 (decimal k n ++ rest) ≡ parse_digits r (n % 2 ^ 32) rest
unfolding parse_digits decimal
parse_digits-decimal zero r n rest h =
    let e : n ≡ 0 = omega arith in let e' : 0 + r ≡ r = omega arith in rw (e, e')
parse_digits-decimal (suc k) r n rest h =
    let e : suc k + r ≡ k + suc r = omega arith in
    let smaller : n / 10 < 10 ^ k = omega (arith, pow-suc 10 k) in
    rw (e, append_assoc (decimal k (n / 10)) ((n % 10 + b'0') ∷ []) rest)
      (parse_digits-decimal k (suc r) (n / 10) ((n % 10 + b'0') ∷ rest) smaller ∙ last_digit)
  where
    last_digit :
        parse_digits (suc r) (n / 10 % 2 ^ 32) ((n % 10 + b'0') ∷ rest)
        ≡ parse_digits r (n % 2 ^ 32) rest
    last_digit =
        let v : (n / 10 % 2 ^ 32 * 10 + (n % 10 + b'0') - b'0') % 2 ^ 32 ≡ n % 2 ^ 32 =
          omega arith in
        let t : (ltb b'9' (n % 10 + b'0') || ltb (n % 10 + b'0') b'0') ≡ false = ground arith in
        rw (t, v)

-- The header that `fill_cmd_head` writes is the message length in ten decimal digits with leading
-- zeros.
pub fill_cmd_head-decimal :
    (msg_len : ℤ) → fill_cmd_head msg_len ≡ decimal cmd_prefix_byte (pos_part msg_len)
unfolding fill_cmd_head
fill_cmd_head-decimal msg_len =
    ap (fill_digits 10 9 (pos_part msg_len)) (sym (append-nil (replicate 10 b'0')))
    ∙ fill_digits-decimal 9 (pos_part msg_len) []
    ∙ append-nil _

length-decimal : (k n : ℕ) → length (decimal k n) ≡ k
unfolding decimal
length-decimal zero n = refl
length-decimal (suc k) n =
    omega
      (arith, length-append (decimal k (n / 10)) ((n % 10 + b'0') ∷ []), length-decimal k (n / 10))

pub length-fill_cmd_head : (msg_len : ℤ) → length (fill_cmd_head msg_len) ≡ cmd_prefix_byte
length-fill_cmd_head msg_len =
    ap length (fill_cmd_head-decimal msg_len) ∙ length-decimal cmd_prefix_byte (pos_part msg_len)

-- A header of ten digits that stand for n is read as the `int` that the low 32 bits of n make.
parse_cmd_head-decimal :
    (n : ℕ) (rest : List ℕ)
    → n < 10 ^ 10
    → parse_cmd_head (decimal cmd_prefix_byte n ++ rest) ≡ int_of_bits (n % 2 ^ 32)
unfolding parse_cmd_head parse_digits
parse_cmd_head-decimal n rest h = ap int_of_bits (parse_digits-decimal 10 0 n rest h)

-- What `fill_cmd_head` writes for an `int`, with any message behind it, `parse_cmd_head` reads back as
-- the same length; a negative one is written as ten zeros and is read as 0.
pub parse-fill :
    (msg_len : ℤ) (rest : List ℕ)
    → pos_part msg_len ≤ int_max
    → parse_cmd_head (fill_cmd_head msg_len ++ rest) ≡ pos (pos_part msg_len)
parse-fill msg_len rest h =
    let n = pos_part msg_len in
    let low : n % 2 ^ 32 ≡ n = omega arith in
    ap (λ l. parse_cmd_head (l ++ rest)) (fill_cmd_head-decimal msg_len)
    ∙ parse_cmd_head-decimal n rest (omega arith)
    ∙ rw low (rw (lt→ltb n (2 ^ 31) (omega arith)) refl)

-- The `int` that a length below 2^31 makes is that length.
pub int_of_length : (n : ℕ) → n ≤ int_max → int_of_bits (n % 2 ^ 32) ≡ pos n
int_of_length n h =
    let low : n % 2 ^ 32 ≡ n = omega arith in rw low (rw (lt→ltb n (2 ^ 31) (omega arith)) refl)

parse_digits_bad :
    (rounds msg_len c : ℕ) (before rest : List ℕ)
    → length before < rounds
    → (c < b'0') ⊎ (b'9' < c)
    → parse_digits rounds msg_len (before ++ c ∷ rest) ≡ 2 ^ 32 - 1
unfolding parse_digits
parse_digits_bad zero msg_len c before rest h bad = absurd (omega arith)
parse_digits_bad (suc rounds) msg_len c [] rest h bad = ground arith
parse_digits_bad (suc rounds) msg_len c (d ∷ before) rest h bad = ground (
  arith,
  parse_digits_bad rounds ((msg_len * 10 + d - b'0') % 2 ^ 32) c before rest (omega arith) bad,
)

-- A byte that is no digit among the first ten makes the length -1, whatever stands before it and
-- behind it.
pub parse_cmd_head_bad :
    (c : ℕ) (before rest : List ℕ)
    → length before < cmd_prefix_byte
    → (c < b'0') ⊎ (b'9' < c)
    → parse_cmd_head (before ++ c ∷ rest) ≡ negsuc 0
unfolding parse_cmd_head
parse_cmd_head_bad c before rest h bad = ap int_of_bits (parse_digits_bad 10 0 c before rest h bad)

bits_small : (w : ℕ) → pos_part (int_of_bits w) < 2 ^ 31
bits_small w = elim (Bool-cases (ltb w 0x80000000)) [
  | inl e ↦ let low : w < 2 ^ 31 = ground (arith, e) in rw e low
  | inr e ↦ rw e (omega arith)
]

-- The length that a header gives is an `int`.
pub parse_cmd_head_small : (cmd : List ℕ) → pos_part (parse_cmd_head cmd) < 2 ^ 31
unfolding parse_cmd_head
parse_cmd_head_small cmd = bits_small (parse_digits 10 0 cmd)
