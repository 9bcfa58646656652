-- ===== src/Machine/Closing.antt =====
-- The state closing of state_machine in src/async_threads.cpp.
use gko_pool.Prelude.{
  ℕ, suc, ◌≡◌, ◌≢◌, refl, subst, ap, ◌∙◌, sym, inl, inr, Bool, false, List, [], ◌∷◌, ◌==◌, ◌||◌,
  Bool-cases,
}
use gko_pool.Prelude.Int.{pos, ◌-ℤ◌}
use gko_pool.Client.{Client, World, State, conn_client_free}
use gko_pool.Client.Buffers.{conn_client_free-Freed}
use gko_pool.Machine.{Next, turn, Calls, del_conn, on_closing, step_in, loop_from, state_machine}

abbrev pub is_member : ℕ → List ℕ → Bool
is_member id [] = false
is_member id (x ∷ conn_set) = (x == id) || is_member id conn_set

is_member-del_conn : (id : ℕ) (conn_set : List ℕ) → is_member id (del_conn id conn_set) ≡ false
unfolding del_conn
is_member-del_conn id [] = refl
is_member-del_conn id (x ∷ conn_set) = elim (Bool-cases (x == id)) [
  | inl e ↦ rw e (is_member-del_conn id conn_set)
  | inr e ↦
      rw e (ap (λ b. b || is_member id (del_conn id conn_set)) e ∙ is_member-del_conn id conn_set)
]

pub loop_from_one :
    (calls : Calls) (fuel nreqs : ℕ) (c c' : Client) (w w' : World)
    → step_in calls c.state nreqs c w ≡ turn Next.stops nreqs c' w'
    → loop_from calls (suc fuel) nreqs c w ≡ (Next.stops, c', w')
unfolding loop_from
loop_from_one calls fuel nreqs c c' w w' e = rw (e, loop_from) refl

pub loop_from_on :
    (calls : Calls) (fuel nreqs nreqs' : ℕ) (c c' : Client) (w w' : World)
    → step_in calls c.state nreqs c w ≡ turn Next.goes_on nreqs' c' w'
    → loop_from calls (suc fuel) nreqs c w ≡ loop_from calls fuel nreqs' c' w'
unfolding loop_from
loop_from_on calls fuel nreqs nreqs' c c' w w' e = rw (e, loop_from) refl

-- A loop that has ended with its connection freed and taken from the worker's set.
abbrev pub IsClosed : Client → World → Next × Client × World → Type 0
IsClosed c w r =
    (r.0 ≡ Next.stops)
    × (r.1.conn_time ≡ 0)
    × ((r.1.read_buffer ≡ 0) × (r.1.send_buffer ≡ 0))
    × (r.2.closed ≡ c.client_fd ∷ w.closed)
    × (r.2.g_total_clients ≡ w.g_total_clients -ℤ pos 1)
    × (is_member c.id r.2.conn_set ≡ false)

-- From the state closing, with a descriptor that is not 0, one turn of state_machine ends the loop,
-- closes the descriptor, frees the slot and its buffers, counts one client less and takes the
-- connection from the worker's set.
pub state_machine_closes :
    (calls : Calls) (fuel : ℕ) (c : Client) (w : World)
    → c.state ≡ State.closing
    → c.client_fd ≢ pos 0
    → IsClosed c w (state_machine calls (suc fuel) c w)
unfolding state_machine step_in on_closing
state_machine_closes calls fuel c w e fd =
    let w' = record w { conn_set = del_conn c.id w.conn_set } in
    let freed = conn_client_free-Freed c w' fd in
    let r = conn_client_free c w' in
    subst (IsClosed c w)
      (sym (loop_from_one calls fuel 3 c r.0 w r.1 (ap (λ s. step_in calls s 3 c w) e)))
      (
        refl,
        freed.unused,
        freed.no_buffers,
        freed.closes,
        freed.counted,
        ap (is_member c.id) freed.conn_set ∙ is_member-del_conn c.id w.conn_set,
      )
