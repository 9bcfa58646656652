-- ===== src/Limit/Rate.antt =====
-- limit.cpp: what a limiter lets through in the time that it measures and waits.
use native.Mathlib.Nat.{div-add-mod, mod-lt, mul-le-mul_left}
use gko_pool.Prelude.{
  ℕ, ◌+◌, ◌*◌, ◌/◌, ◌%◌, ◌^◌, ◌<◌, ◌≡◌, refl, Option, none, some, true, false, arith, ◌≤◌,
  Bool-cases, inl, inr,
}
use gko_pool.Prelude.Int.{pos_part, neg_part}
use gko_pool.Limit.{Timeval, timerisset, timersub, timergt, due, Limiter, limit_locked, ltb}

-- The microseconds of a time are `up t - down t`.
abbrev pub up : Timeval → ℕ
up t = pos_part t.sec * 1000000 + t.usec

abbrev pub down : Timeval → ℕ
down t = neg_part t.sec * 1000000

timersub_micros :
    (a b : Timeval)
    → a.usec < 1000000
    → b.usec < 1000000
    → up (timersub a b) + down a + up b ≡ up a + down (timersub a b) + down b
unfolding timersub
timersub_micros a b ha hb = ground arith

timersub_usec :
    (a b : Timeval) → a.usec < 1000000 → b.usec < 1000000 → (timersub a b).usec < 1000000
unfolding timersub
timersub_usec a b ha hb = ground arith

timergt-false :
    (a b : Timeval)
    → a.usec < 1000000
    → b.usec < 1000000
    → timergt a b ≡ false
    → up a + down b ≤ up b + down a
unfolding timergt
timergt-false a b ha hb e = ground arith

due_micros :
    (lamt limit_rate : ℕ)
    → 0 < limit_rate
    → lamt < 2 ^ 31
    → (1000000 * lamt < limit_rate * (up (due lamt limit_rate) + 1))
      × (down (due lamt limit_rate) ≡ 0)
unfolding due
due_micros lamt limit_rate h l =
    let fits : 1000000 * lamt % 2 ^ 64 ≡ 1000000 * lamt = omega arith in
    (rw fits (rounded (1000000 * lamt)), refl)
  where
    rounded :
        (x : ℕ)
        → x < limit_rate * (x / limit_rate / 1000000 * 1000000 + x / limit_rate % 1000000 + 1)
    rounded x =
        let whole : x / limit_rate / 1000000 * 1000000 + x / limit_rate % 1000000 ≡ x / limit_rate =
          omega arith in
        rw whole (grind (arith, div-add-mod x limit_rate, mod-lt x h))

window :
    (x r before after d : ℕ)
    → x < r * (d + 1)
    → d + before ≤ after
    → x + r * before < r * (after + 1)
window x r before after d h l = omega (arith, mul-le-mul_left r l)

-- The wait of a call, and none if it does not wait.
abbrev pub wait_up : Option Timeval → ℕ
wait_up none = 0
wait_up (some w) = up w

abbrev pub wait_down : Option Timeval → ℕ
wait_down none = 0
wait_down (some w) = down w

due_usec : (lamt limit_rate : ℕ) → (due lamt limit_rate).usec < 1000000
unfolding due
due_usec lamt limit_rate = omega arith

module _ (amount limit_rate : ℕ) (now later : Timeval) (l : Limiter) (positive : 0 < amount)
    (rate : 0 < limit_rate) (fits : l.lamt + amount < 2 ^ 31) (set : timerisset l.start ≡ true)
    (hs : l.start.usec < 1000000) (hn : now.usec < 1000000) where
  -- Every window that a limiter closes keeps the rate. When a call resets the count of bytes, then
  -- the bytes counted since the window's start take, at the rate asked for, no longer than the time
  -- that had passed and the wait that the call asks for together (times in whole microseconds, so
  -- up to one microsecond).
  pub limit_locked_keeps_rate :
      let (l', wait) = limit_locked amount limit_rate now later l in
      l'.lamt ≡ 0
      → 1000000 * (l.lamt + amount) + limit_rate * (up l.start + down now + wait_down wait)
        < limit_rate * (up now + down l.start + wait_up wait + 1)
  unfolding limit_locked
  limit_locked_keeps_rate = elim (Bool-cases (ltb (l.lamt + amount) l.thresh)) [
    | inl a ↦ rw (set, a) (λ z. absurd (omega arith))
    | inr a ↦ elim (Bool-cases (timerisset elapsed)) [
      | inr b ↦ rw (set, a, b) (λ z. absurd (omega arith))
      | inl b ↦ elim (Bool-cases (timergt whole elapsed)) [
        | inl c ↦
            rw (set, a, b, c)
              (λ _.
                window (1000000 * (l.lamt + amount)) limit_rate
                  (up l.start + down now + down (timersub whole elapsed))
                  (up now + down l.start + up (timersub whole elapsed)) (up whole) enough
                  (omega (
                    arith,
                    timersub_micros whole elapsed whole_usec elapsed_usec,
                    split,
                    start_zero,
                  )))
        | inr c ↦
            rw (set, a, b, c)
              (λ _.
                window (1000000 * (l.lamt + amount)) limit_rate (up l.start + down now + 0)
                  (up now + down l.start + 0) (up whole) enough
                  (omega (
                    arith,
                    timergt-false whole elapsed whole_usec elapsed_usec c,
                    split,
                    start_zero,
                  )))
      ]
    ]
  ]
    where
      elapsed : Timeval
      elapsed = timersub now l.start

      whole : Timeval
      whole = due (l.lamt + amount) limit_rate

      elapsed_usec : elapsed.usec < 1000000
      elapsed_usec = timersub_usec now l.start hn hs

      whole_usec : whole.usec < 1000000
      whole_usec = due_usec (l.lamt + amount) limit_rate

      split : up elapsed + down now + up l.start ≡ up now + down elapsed + down l.start
      split = timersub_micros now l.start hn hs

      enough : 1000000 * (l.lamt + amount) < limit_rate * (up whole + 1)
      enough = (due_micros (l.lamt + amount) limit_rate rate fits).0

      start_zero : down whole ≡ 0
      start_zero = (due_micros (l.lamt + amount) limit_rate rate fits).1
