-- ===== src/Limit.antt =====
-- The five rate limiters of src/limit.cpp. Their bodies are the same up to the names of their static
-- variables and of their mutex, so there is one body and a function for each.
pub mod Rate
pub mod Threshold
mod Tests
use gko_pool.Prelude.{
  Bool, ℕ, ◌+◌, ◌-◌, ◌*◌, ◌/◌, ◌%◌, ◌^◌, ◌&&◌, ◌||◌, not, Option, none, some, List, [], ◌∷◌, ltb,
  ◌==◌, if◌then◌else◌,
}
use gko_pool.Prelude.Int.{ℤ, pos, negsuc, pos_part, neg_part, ◌-ℤ◌, ltb_ℤ}

-- struct timeval; the microseconds of a normal one are below a million.
pub record Timeval : Type 0 where
  pub sec : ℤ
  pub usec : ℕ

abbrev is_zero : ℤ → Bool
is_zero n = pos_part n + neg_part n == 0

-- timerisset
abbrev pub timerisset : Timeval → Bool
timerisset t = not (is_zero t.sec && (t.usec == 0))

-- timersub: a borrow where the microseconds would be negative.
pub timersub : Timeval → Timeval → Timeval
timersub a b =
    if ltb a.usec b.usec
    then record { sec = a.sec -ℤ b.sec -ℤ pos 1; usec = a.usec + 1000000 - b.usec }
    else record { sec = a.sec -ℤ b.sec; usec = a.usec - b.usec }

-- timercmp(a, b, >)
pub timergt : Timeval → Timeval → Bool
timergt a b = if is_zero (a.sec -ℤ b.sec) then ltb b.usec a.usec else ltb_ℤ b.sec a.sec

-- The static variables of one limiter.
pub record Limiter : Type 0 where
  pub start : Timeval
  pub finish : Timeval
  pub lamt : ℕ
  pub thresh : ℕ

-- Their values before the first call.
pub new_limiter : Limiter
new_limiter = record {
  start = record { sec = pos 0; usec = 0 };
  finish = record { sec = pos 0; usec = 0 };
  lamt = 0;
  thresh = 16384;
}

-- The threshold after a wait of `rest`: halved after a long one, doubled after a very short one.
pub adjust : Timeval → ℕ → ℕ
adjust rest thresh =
    if not (is_zero rest.sec)
    then (if ltb (thresh / 2) 2048 then 2048 else thresh / 2)
    else (if ltb rest.usec 100
        then (if ltb 32768 (thresh * 2) then 32768 else thresh * 2)
        else thresh)

-- The time that `lamt` bytes take at the rate, which the source puts into the start time.
pub due : ℕ → ℕ → Timeval
due lamt limit_rate =
    let waitlen = 1000000 * lamt % 2 ^ 64 / limit_rate in
    record { sec = pos (waitlen / 1000000); usec = waitlen % 1000000 }

-- The part of a call under the mutex. `now` is the first reading of the clock, `later` the one
-- after the wait. The wait that is asked of nanosleep is the second result.
pub limit_locked : ℕ → ℕ → Timeval → Timeval → Limiter → Limiter × Option Timeval
limit_locked amount limit_rate now later l =
    let lamt = l.lamt + amount in
    let elapsed = timersub now l.start in
    let whole = due lamt limit_rate in
    let rest = timersub whole elapsed in
    if not (timerisset l.start)
    then (record l { start = now }, none)
    else if ltb lamt l.thresh
    then (record l { lamt = lamt }, none)
    else if not (timerisset elapsed)
    then (record l { lamt = lamt; finish = elapsed }, none)
    else if timergt whole elapsed
    then (
      record { start = later; finish = rest; lamt = 0; thresh = adjust rest l.thresh },
      some rest,
    )
    else (record l { start = later; finish = elapsed; lamt = 0 }, none)

-- The whole body: an amount or a rate that is not positive does nothing.
pub limit : ℤ → ℤ → Timeval → Timeval → Limiter → Limiter × Option Timeval
limit amount limit_rate now later l =
    if not (ltb_ℤ (pos 0) amount) || not (ltb_ℤ (pos 0) limit_rate)
    then (l, none)
    else limit_locked (pos_part amount) (pos_part limit_rate) now later l

-- How one nanosleep ends: after the whole time, by a signal with the time left, or by an error.
pub data Sleep : Type 0 where
  slept : Sleep
  interrupted : Timeval → Sleep
  failed : Sleep

-- The loop `while (nanosleep(&ts, &rm) == -1)`, over the ways in which its calls end: the waits that
-- it asks for, one after the other.
pub sleep_loop : Timeval → List Sleep → List Timeval
sleep_loop ts [] = []
sleep_loop ts (slept ∷ rest) = ts ∷ []
sleep_loop ts (interrupted rm ∷ rest) = ts ∷ sleep_loop rm rest
sleep_loop ts (failed ∷ rest) = ts ∷ []

-- The static variables of the five functions.
pub record Limits : Type 0 where
  pub bw_down : Limiter
  pub bw_up : Limiter
  pub disk_w : Limiter
  pub disk_r : Limiter
  pub mk_seed : Limiter

pub bw_down_limit : ℤ → ℤ → Timeval → Timeval → Limits → Limits × Option Timeval
bw_down_limit amount limit_rate now later s =
    let (l, wait) = limit amount limit_rate now later s.bw_down in (record s { bw_down = l }, wait)

pub bw_up_limit : ℤ → ℤ → Timeval → Timeval → Limits → Limits × Option Timeval
bw_up_limit amount limit_rate now later s =
    let (l, wait) = limit amount limit_rate now later s.bw_up in (record s { bw_up = l }, wait)

pub disk_w_limit : ℤ → ℤ → Timeval → Timeval → Limits → Limits × Option Timeval
disk_w_limit amount limit_rate now later s =
    let (l, wait) = limit amount limit_rate now later s.disk_w in (record s { disk_w = l }, wait)

pub disk_r_limit : ℤ → ℤ → Timeval → Timeval → Limits → Limits × Option Timeval
disk_r_limit amount limit_rate now later s =
    let (l, wait) = limit amount limit_rate now later s.disk_r in (record s { disk_r = l }, wait)

pub mk_seed_limit : ℤ → ℤ → Timeval → Timeval → Limits → Limits × Option Timeval
mk_seed_limit amount limit_rate now later s =
    let (l, wait) = limit amount limit_rate now later s.mk_seed in (record s { mk_seed = l }, wait)
