-- ===== src/Pool/Tests.antt =====
-- Witnesses of the theorems on the pool of connections.
use gko_pool.Prelude.{
  ℕ, ◌≡◌, ◌≢◌, ◌<◌, refl, arith, true, false, none, some, ◌==◌, if◌then◌else◌, subst,
}
use gko_pool.Prelude.Int.{pos}
use gko_pool.Client.{Client}
use gko_pool.Samples.{sample_client, sample_world}
use gko_pool.Pool.{Pool, is_free, conn_client_list_find_free, clean_conn_timeout, is_timed_out}
use gko_pool.Pool.Slots.{Taken, conn_client_list_find_free-Taken}
use gko_pool.Pool.Cleaning.{clean_conn_timeout_kept}

-- Ten slots, one of them in use, and three workers, of which the last has not started.
abbrev sample_pool : Pool
sample_pool = record {
  connlimit = 10;
  g_client_list = λ i. if i == 7 then some sample_client else none;
  g_curr_conn = 6;
  g_total_connect = pos 0;
  worker_thread = 3;
  g_worker_list = λ i. if i == 2 then false else true;
  g_curr_thread = 1;
}

conn_client_list_find_free-Taken_example :
    let r = conn_client_list_find_free sample_pool sample_world in
    ((t : ℕ) → r.2 ≡ some t → Taken sample_pool sample_world t r.0)
    × (r.2 ≡ none
        → (r.0 ≡ sample_pool)
          × (r.1 ≡ sample_world)
          × ((j : ℕ) → j < 10 → is_free (sample_pool.g_client_list j) ≡ false))
conn_client_list_find_free-Taken_example =
    conn_client_list_find_free-Taken sample_pool sample_world (omega arith)

abbrev idle_pool : Pool
idle_pool = record sample_pool { g_worker_list = λ i. false }

none_started : (j : ℕ) → j < 3 → idle_pool.g_worker_list j ≡ false
none_started j l = refl

slot_7_in_time : (c : Client) → sample_pool.g_client_list 7 ≡ some c → is_timed_out 1050 c ≡ false
slot_7_in_time c e =
    subst
      (λ o.
        is_timed_out 1050 (elim o as (λ _. Client) [ none ↦ sample_client | some d ↦ d ]) ≡ false)
      e refl

clean_conn_timeout_kept_example :
    (clean_conn_timeout 1050 sample_pool.g_client_list sample_world).1 7
    ≡ sample_pool.g_client_list 7
clean_conn_timeout_kept_example =
    clean_conn_timeout_kept 1050 sample_pool.g_client_list sample_world 7 slot_7_in_time

fd_5 : pos 5 ≢ pos 0
fd_5 e = cc
