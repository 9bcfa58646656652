-- ===== src/Pool/Keeping.antt =====
-- The blocks of a connection that a worker takes over or cleans up, src/async_threads.cpp.
use gko_pool.Prelude.{ℕ, ◌≡◌, arith, List, ◌∷◌, Option, none, some, if◌then◌else◌}
use gko_pool.Prelude.Int.{ℤ}
use gko_pool.Alloc.Ownership.{Accounts}
use gko_pool.Client.{
  Client, World, State, ConnType, conn_buffer_init, dispatch_recv_timeout, dispatch_send_timeout,
  dns_resolve_fail,
}
use gko_pool.Client.Keeping.{Owned, OwnedIfAny, conn_buffer_init-Owned, conn_client_free-Owned}
use gko_pool.Machine.{Calls, Next, add_conn}
use gko_pool.Machine.Keeping.{IsSparing, state_machine-Owned}
use gko_pool.Pool.{thread_worker_process, clean_one, reported_and_freed}

reported_and_freed-Owned :
    (err_no : ℤ) (c : Client) (w : World) (others : List ℕ)
    → Owned c w others
    → Owned ((reported_and_freed err_no c w).1) ((reported_and_freed err_no c w).2) others
reported_and_freed-Owned err_no c w others o =
    let w' =
      if w.has_report_handler then record w { reports = (c.id, err_no) ∷ w.reports } else w in
    let same : w'.mem ≡ w.mem = ground arith in
    conn_client_free-Owned (record c { err_no = err_no }) w' others (rw same o)

pub clean_one-Owned :
    (type : ConnType) (state : State) (c : Client) (w : World) (others : List ℕ)
    → Owned c w others
    → Owned ((clean_one type state c w).1) ((clean_one type state c w).2) others
unfolding clean_one
clean_one-Owned ConnType.coming State.nouse c w others o = o
clean_one-Owned ConnType.coming State.listening c w others o = o
clean_one-Owned ConnType.coming State.waiting c w others o = conn_client_free-Owned c w others o
clean_one-Owned ConnType.coming State.read c w others o = conn_client_free-Owned c w others o
clean_one-Owned ConnType.coming State.nread c w others o = o
clean_one-Owned ConnType.coming State.parse_header c w others o = o
clean_one-Owned ConnType.coming State.parse_cmd c w others o = o
clean_one-Owned ConnType.coming State.write c w others o = conn_client_free-Owned c w others o
clean_one-Owned ConnType.coming State.mwrite c w others o = o
clean_one-Owned ConnType.coming State.renew c w others o = o
clean_one-Owned ConnType.coming State.closing c w others o = o
clean_one-Owned ConnType.coming State.connecting c w others o = o
clean_one-Owned ConnType.coming State.dns_cache c w others o = o
clean_one-Owned ConnType.coming State.resolving c w others o = o
clean_one-Owned ConnType.coming State.max_state c w others o = o
clean_one-Owned ConnType.active State.nouse c w others o = o
clean_one-Owned ConnType.active State.listening c w others o = o
clean_one-Owned ConnType.active State.waiting c w others o = o
clean_one-Owned ConnType.active State.read c w others o =
    reported_and_freed-Owned dispatch_recv_timeout c w others o
clean_one-Owned ConnType.active State.nread c w others o = o
clean_one-Owned ConnType.active State.parse_header c w others o = o
clean_one-Owned ConnType.active State.parse_cmd c w others o = o
clean_one-Owned ConnType.active State.write c w others o =
    reported_and_freed-Owned dispatch_send_timeout c w others o
clean_one-Owned ConnType.active State.mwrite c w others o = o
clean_one-Owned ConnType.active State.renew c w others o = o
clean_one-Owned ConnType.active State.closing c w others o = o
clean_one-Owned ConnType.active State.connecting c w others o =
    reported_and_freed-Owned dispatch_send_timeout c w others o
clean_one-Owned ConnType.active State.dns_cache c w others o = o
clean_one-Owned ConnType.active State.resolving c w others o =
    reported_and_freed-Owned dns_resolve_fail (record c { dns_events = 0 }) w others o
clean_one-Owned ConnType.active State.max_state c w others o = o

-- What thread_worker_process leaves, if it does not abort.
abbrev pub ProcessOwned : List ℕ → Option (Next × Client × World) → Type 0
ProcessOwned others none = Unit
ProcessOwned others (some (next, c, w)) = Owned c w others

-- A connection that comes gets its blocks; one that goes out has them already.
pub coming-Owned :
    (calls : Calls) (fuel worker_id c_id : ℕ) (c : Client) (w : World) (others : List ℕ)
    → c.type ≡ ConnType.coming
    → Accounts w.mem others
    → ProcessOwned others (thread_worker_process calls fuel worker_id c_id c w)
unfolding thread_worker_process
coming-Owned calls fuel worker_id c_id c w others coming v =
    let w' = record w { conn_set = add_conn c_id w.conn_set } in
    let c' = record c { worker_id = worker_id; type = ConnType.coming } in
    rw coming (ready (conn_buffer_init c' w') (conn_buffer_init-Owned c' w' others v))
  where
    ready :
        (r : Option (Client × World))
        → OwnedIfAny others r
        → ProcessOwned others (elim r as (λ _. Option (Next × Client × World)) [
          | none ↦ none
          | some (c1, w1) ↦ some (Next.stops, record c1 { state = State.waiting }, w1)
        ])
    ready none o = o
    ready (some (c1, w1)) o = o

pub active-Owned :
    (calls : Calls) (fuel worker_id c_id : ℕ) (c : Client) (w : World) (others : List ℕ)
    → IsSparing calls
    → c.type ≡ ConnType.active
    → Owned c w others
    → ProcessOwned others (thread_worker_process calls fuel worker_id c_id c w)
unfolding thread_worker_process
active-Owned calls fuel worker_id c_id c w others sparing active o =
    let w' = record w { conn_set = add_conn c_id w.conn_set } in
    let c' = record c { worker_id = worker_id; state = State.dns_cache; type = ConnType.active } in
    rw active (state_machine-Owned calls fuel c' w' others sparing o)
