-- ===== src/Limit/Tests.antt =====
-- Runs and witnesses of the limiters.
use gko_pool.Prelude.{ℕ, ◌+◌, ◌*◌, ◌<◌, ◌≡◌, refl, [], ◌∷◌, some, arith}
use gko_pool.Prelude.Int.{pos}
use gko_pool.Limit.{Timeval, Limiter, limit, limit_locked, adjust, timersub, timergt, due}
use gko_pool.Limit.Rate.{limit_locked_keeps_rate}
use gko_pool.Limit.Threshold.{Which, Call, IsThreshold, new_limits, run, run-IsThreshold}

abbrev at_time : ℕ → ℕ → Timeval
at_time s u = record { sec = pos s; usec = u }

abbrev counting : Limiter
counting = record { start = at_time 100 0; finish = at_time 0 0; lamt = 16000; thresh = 16384 }

-- 20000 bytes at 10000 bytes a second take two seconds; half a second has passed.
waits :
    (limit (pos 4000) (pos 10000) (at_time 100 500000) (at_time 102 0) counting).1
    ≡ some (at_time 1 500000)
unfolding limit limit_locked due timersub timergt adjust
waits = refl

resets : (limit_locked 4000 10000 (at_time 100 500000) (at_time 102 0) counting).0.lamt ≡ 0
unfolding limit_locked due timersub timergt adjust
resets = refl

limit_locked_keeps_rate_example :
    1000000 * 20000 + 10000 * (100000000 + 0 + 0) < 10000 * (100500000 + 0 + 1500000 + 1)
unfolding limit_locked due timersub timergt adjust
limit_locked_keeps_rate_example =
    limit_locked_keeps_rate 4000 10000 (at_time 100 500000) (at_time 102 0) counting (omega arith)
      (omega arith) (omega arith) refl (omega arith) (omega arith) resets

abbrev upload : Call
upload = record {
  which = Which.bw_up;
  amount = pos 4096;
  limit_rate = pos 1000;
  now = at_time 100 0;
  later = at_time 100 0;
}

run-IsThreshold_example : IsThreshold (run new_limits (upload ∷ upload ∷ [])).bw_up.thresh
run-IsThreshold_example = run-IsThreshold (upload ∷ upload ∷ []) Which.bw_up
