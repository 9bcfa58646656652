-- ===== src/Limit/Threshold.antt =====
-- limit.cpp: any sequence of calls of the five functions.
use gko_pool.Prelude.{◌+◌, ap, ℕ, ◌≡◌, ◌≢◌, ◌⊎◌, refl, List, [], ◌∷◌, ◌++◌, map, arith, Option}
use gko_pool.Prelude.Int.{ℤ, pos_part}
use gko_pool.Limit.{
  timersub, due, Timeval, Limiter, Limits, Sleep, slept, interrupted, sleep_loop, new_limiter,
  adjust, limit_locked, limit, bw_down_limit, bw_up_limit, disk_w_limit, disk_r_limit,
  mk_seed_limit,
}

pub data Which : Type 0 where
  bw_down bw_up disk_w disk_r mk_seed : Which

Which-discrete : Discrete Which
Which-discrete = hlevel

abbrev pub limiter_of : Which → Limits → Limiter
limiter_of bw_down s = s.bw_down
limiter_of bw_up s = s.bw_up
limiter_of disk_w s = s.disk_w
limiter_of disk_r s = s.disk_r
limiter_of mk_seed s = s.mk_seed

-- One call: of which function, with its arguments and the clock's readings.
pub record Call : Type 0 where
  pub which : Which
  pub amount : ℤ
  pub limit_rate : ℤ
  pub now : Timeval
  pub later : Timeval

abbrev function_of : Which → ℤ → ℤ → Timeval → Timeval → Limits → Limits × Option Timeval
function_of bw_down = bw_down_limit
function_of bw_up = bw_up_limit
function_of disk_w = disk_w_limit
function_of disk_r = disk_r_limit
function_of mk_seed = mk_seed_limit

abbrev pub call : Limits → Call → Limits × Option Timeval
call s c = function_of c.which c.amount c.limit_rate c.now c.later s

pub run : Limits → List Call → Limits
run s [] = s
run s (c ∷ cs) = run (call s c).0 cs

-- Each function works on its own static variables, as the common body does, and leaves those of the
-- other four as they were.
pub call-limiter_of :
    (s : Limits) (c : Call) (w : Which)
    → let one = limit c.amount c.limit_rate c.now c.later (limiter_of c.which s) in
      (limiter_of c.which (call s c).0 ≡ one.0)
      × ((call s c).1 ≡ one.1)
      × (w ≢ c.which → limiter_of w (call s c).0 ≡ limiter_of w s)
unfolding bw_down_limit bw_up_limit disk_w_limit disk_r_limit mk_seed_limit
call-limiter_of s c w = go c.which w
  where
    go :
        (k w : Which)
        → let one = limit c.amount c.limit_rate c.now c.later (limiter_of k s) in
          let r = function_of k c.amount c.limit_rate c.now c.later s in
          (limiter_of k r.0 ≡ one.0) × (r.1 ≡ one.1) × (w ≢ k → limiter_of w r.0 ≡ limiter_of w s)
    go bw_down w = (refl, refl, λ ne. ground arith)
    go bw_up w = (refl, refl, λ ne. ground arith)
    go disk_w w = (refl, refl, λ ne. ground arith)
    go disk_r w = (refl, refl, λ ne. ground arith)
    go mk_seed w = (refl, refl, λ ne. ground arith)

-- The values that a threshold takes.
abbrev pub IsThreshold : ℕ → Type 0
IsThreshold t = (t ≡ 2048) ⊎ (t ≡ 4096) ⊎ (t ≡ 8192) ⊎ (t ≡ 16384) ⊎ (t ≡ 32768)

adjust-IsThreshold : (rest : Timeval) (t : ℕ) → IsThreshold t → IsThreshold (adjust rest t)
unfolding adjust
adjust-IsThreshold rest t h = ground arith

limit_locked-IsThreshold :
    (amount limit_rate : ℕ) (now later : Timeval) (l : Limiter)
    → IsThreshold l.thresh
    → IsThreshold (limit_locked amount limit_rate now later l).0.thresh
unfolding limit_locked
limit_locked-IsThreshold amount limit_rate now later l h =
    let elapsed = timersub now l.start in
    let rest = timersub (due (l.lamt + amount) limit_rate) elapsed in
    ground (arith, adjust-IsThreshold rest l.thresh h)

limit-IsThreshold :
    (amount limit_rate : ℤ) (now later : Timeval) (l : Limiter)
    → IsThreshold l.thresh
    → IsThreshold (limit amount limit_rate now later l).0.thresh
unfolding limit
limit-IsThreshold amount limit_rate now later l h =
    ground (arith, limit_locked-IsThreshold (pos_part amount) (pos_part limit_rate) now later l h)

call-IsThreshold :
    (s : Limits) (c : Call)
    → ((w : Which) → IsThreshold (limiter_of w s).thresh)
    → (w : Which) → IsThreshold (limiter_of w (call s c).0).thresh
call-IsThreshold s c h w = elim (Which-discrete w c.which) [
  | yes e ↦
      rw (e, (call-limiter_of s c w).0)
        (limit-IsThreshold c.amount c.limit_rate c.now c.later (limiter_of c.which s) (h c.which))
  | no ne ↦ rw ((call-limiter_of s c w).2 ne) (h w)
]

abbrev pub new_limits : Limits
new_limits = record {
  bw_down = new_limiter;
  bw_up = new_limiter;
  disk_w = new_limiter;
  disk_r = new_limiter;
  mk_seed = new_limiter;
}

run-IsThreshold_from :
    (s : Limits) (cs : List Call)
    → ((w : Which) → IsThreshold (limiter_of w s).thresh)
    → (w : Which) → IsThreshold (limiter_of w (run s cs)).thresh
unfolding run
run-IsThreshold_from s [] h = h
run-IsThreshold_from s (c ∷ cs) h = run-IsThreshold_from (call s c).0 cs (call-IsThreshold s c h)

-- After any sequence of calls of the five functions, with any arguments and any clock, each of the
-- five thresholds is 2048, 4096, 8192, 16384 or 32768.
pub run-IsThreshold :
    (cs : List Call) (w : Which) → IsThreshold (limiter_of w (run new_limits cs)).thresh
unfolding new_limiter
run-IsThreshold cs = run-IsThreshold_from new_limits cs initial
  where
    initial : (w : Which) → IsThreshold (limiter_of w new_limits).thresh
    initial bw_down = omega arith
    initial bw_up = omega arith
    initial disk_w = omega arith
    initial disk_r = omega arith
    initial mk_seed = omega arith

-- The loop round nanosleep sleeps again for exactly the time that the last signal left over, as
-- often as signals come, and stops at the first call that is not interrupted.
pub sleep_loop-interrupted :
    (ts : Timeval) (left : List Timeval) (rest : List Sleep)
    → sleep_loop ts (map interrupted left ++ slept ∷ rest) ≡ ts ∷ left
unfolding sleep_loop
sleep_loop-interrupted ts [] rest = refl
sleep_loop-interrupted ts (rm ∷ left) rest = ap (◌∷◌ ts) (sleep_loop-interrupted rm left rest)
