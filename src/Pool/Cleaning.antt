-- ===== src/Pool/Cleaning.antt =====
-- clean_conn_timeout of src/async_threads.cpp: which clients it leaves alone.
use gko_pool.Prelude.{
  ℕ, ◌≡◌, ◌≢◌, refl, sym, ap, ◌∙◌, inl, inr, arith, Bool, true, false, Option, some, List, [], ◌∷◌,
  ◌==◌, ==_iff, Bool-cases, Option-cases, if◌then◌else◌,
}
use gko_pool.Prelude.Int.{ℤ, pos}
use gko_pool.Client.{
  Client, World, State, ConnType, dispatch_recv_timeout, dispatch_send_timeout, dns_resolve_fail,
}
use gko_pool.Client.Buffers.{conn_client_free-Freed}
use gko_pool.Pool.{put, clean_one, clean_each, clean_conn_timeout, is_timed_out, reported_and_freed}

-- A slot whose client has not timed out is not the one of a client that has.
put_other :
    (now : ℕ) (list : ℕ → Option Client) (x i : ℕ) (conn c : Client)
    → list x ≡ some conn
    → is_timed_out now conn ≡ true
    → ((c : Client) → list i ≡ some c → is_timed_out now c ≡ false)
    → put list x c i ≡ list i
put_other now list x i conn c e t h = elim (Bool-cases (i == x)) [
  | inl same ↦ absurd (clash (h conn (ap list ((==_iff i x).0 same) ∙ e)))
  | inr other ↦ rw other refl
]
  where
    true_false : true ≡ false → ⊥
    true_false e = cc

    clash : is_timed_out now conn ≡ false → ⊥
    clash f = true_false (sym t ∙ f)

clean_each-kept :
    (now : ℕ) (conn_set : List ℕ) (list : ℕ → Option Client) (w : World) (i : ℕ)
    → ((c : Client) → list i ≡ some c → is_timed_out now c ≡ false)
    → (clean_each now conn_set list w).2 i ≡ list i
unfolding clean_each
clean_each-kept now [] list w i h = refl
clean_each-kept now (x ∷ conn_set) list w i h = elim (Option-cases (list x)) [
  | inl e ↦ rw (e, clean_each) (clean_each-kept now conn_set list w i h)
  | inr (conn, e) ↦ elim (Bool-cases (is_timed_out now conn)) [
    | inl t ↦
        rw (e, t, clean_each)
          (let list' = put list x (clean_one conn.type conn.state conn w).1 in
            let other =
              put_other now list x i conn (clean_one conn.type conn.state conn w).1 e t h in
            clean_each-kept now conn_set list' (clean_one conn.type conn.state conn w).2 i
              (λ c f. h c (sym other ∙ f))
            ∙ other)
    | inr t ↦ rw (e, t, clean_each) (clean_each-kept now conn_set list w i h)
  ]
]

-- clean_conn_timeout leaves a slot as it was, where it has no client or one that has not timed out:
-- its time is 0 or at most 60 seconds ago.
pub clean_conn_timeout_kept :
    (now : ℕ) (list : ℕ → Option Client) (w : World) (i : ℕ)
    → ((c : Client) → list i ≡ some c → is_timed_out now c ≡ false)
    → (clean_conn_timeout now list w).1 i ≡ list i
unfolding clean_conn_timeout
clean_conn_timeout_kept now list w i h = clean_each-kept now w.conn_set list w i h

-- The states in which a client that timed out is freed, by the direction of its connection.
abbrev pub is_cleaned : ConnType → State → Bool
is_cleaned ConnType.coming State.waiting = true
is_cleaned ConnType.coming State.read = true
is_cleaned ConnType.coming State.write = true
is_cleaned ConnType.active State.read = true
is_cleaned ConnType.active State.write = true
is_cleaned ConnType.active State.connecting = true
is_cleaned ConnType.active State.resolving = true
is_cleaned _ _ = false

reported_frees :
    (err_no : ℤ) (c : Client) (w : World)
    → c.client_fd ≢ pos 0
    → let r = reported_and_freed err_no c w in
      (r.0 ≡ true) × (r.1.conn_time ≡ 0) × (r.2.closed ≡ c.client_fd ∷ w.closed)
reported_frees err_no c w fd =
    let w' =
      if w.has_report_handler then record w { reports = (c.id, err_no) ∷ w.reports } else w in
    let freed = conn_client_free-Freed (record c { err_no = err_no }) w' fd in
    (refl, freed.unused, freed.closes ∙ ap (λ l. c.client_fd ∷ l) (ground arith))

-- In a state that is cleaned, a client that timed out and has a descriptor is put on the list of
-- those to delete, its descriptor is closed and its slot is free for the next client; in all other
-- states the client and the worker stay as they are.
pub clean_one_frees :
    (type : ConnType) (state : State) (c : Client) (w : World)
    → c.client_fd ≢ pos 0
    → let r = clean_one type state c w in
      if is_cleaned type state
      then (r.0 ≡ true) × (r.1.conn_time ≡ 0) × (r.2.closed ≡ c.client_fd ∷ w.closed)
      else (r.0 ≡ false) × (r.1 ≡ c) × (r.2 ≡ w)
unfolding clean_one
clean_one_frees ConnType.coming State.nouse c w fd = (refl, refl, refl)
clean_one_frees ConnType.coming State.listening c w fd = (refl, refl, refl)
clean_one_frees ConnType.coming State.waiting c w fd =
    (refl, (conn_client_free-Freed c w fd).unused, (conn_client_free-Freed c w fd).closes)
clean_one_frees ConnType.coming State.read c w fd =
    (refl, (conn_client_free-Freed c w fd).unused, (conn_client_free-Freed c w fd).closes)
clean_one_frees ConnType.coming State.nread c w fd = (refl, refl, refl)
clean_one_frees ConnType.coming State.parse_header c w fd = (refl, refl, refl)
clean_one_frees ConnType.coming State.parse_cmd c w fd = (refl, refl, refl)
clean_one_frees ConnType.coming State.write c w fd =
    (refl, (conn_client_free-Freed c w fd).unused, (conn_client_free-Freed c w fd).closes)
clean_one_frees ConnType.coming State.mwrite c w fd = (refl, refl, refl)
clean_one_frees ConnType.coming State.renew c w fd = (refl, refl, refl)
clean_one_frees ConnType.coming State.closing c w fd = (refl, refl, refl)
clean_one_frees ConnType.coming State.connecting c w fd = (refl, refl, refl)
clean_one_frees ConnType.coming State.dns_cache c w fd = (refl, refl, refl)
clean_one_frees ConnType.coming State.resolving c w fd = (refl, refl, refl)
clean_one_frees ConnType.coming State.max_state c w fd = (refl, refl, refl)
clean_one_frees ConnType.active State.nouse c w fd = (refl, refl, refl)
clean_one_frees ConnType.active State.listening c w fd = (refl, refl, refl)
clean_one_frees ConnType.active State.waiting c w fd = (refl, refl, refl)
clean_one_frees ConnType.active State.read c w fd = reported_frees dispatch_recv_timeout c w fd
clean_one_frees ConnType.active State.nread c w fd = (refl, refl, refl)
clean_one_frees ConnType.active State.parse_header c w fd = (refl, refl, refl)
clean_one_frees ConnType.active State.parse_cmd c w fd = (refl, refl, refl)
clean_one_frees ConnType.active State.write c w fd = reported_frees dispatch_send_timeout c w fd
clean_one_frees ConnType.active State.mwrite c w fd = (refl, refl, refl)
clean_one_frees ConnType.active State.renew c w fd = (refl, refl, refl)
clean_one_frees ConnType.active State.closing c w fd = (refl, refl, refl)
clean_one_frees ConnType.active State.connecting c w fd =
    reported_frees dispatch_send_timeout c w fd
clean_one_frees ConnType.active State.dns_cache c w fd = (refl, refl, refl)
clean_one_frees ConnType.active State.resolving c w fd =
    reported_frees dns_resolve_fail (record c { dns_events = 0 }) w fd
clean_one_frees ConnType.active State.max_state c w fd = (refl, refl, refl)
