-- ===== src/Machine/Measure.antt =====
-- What falls with each turn of state_machine in src/async_threads.cpp.
use gko_pool.Prelude.{
  ℕ, ◌+◌, ◌*◌, ◌^◌, ◌<◌, ◌≡◌, refl, sym, ap, ◌∙◌, inl, inr, arith, Bool, true, false, ◌∷◌, ◌==◌,
  ==_iff, Bool-cases, if◌then◌else◌, ◌&&◌,
}
use gko_pool.Client.{Client, World, State, code, conn_set_state, is_reported}
use gko_pool.Transfer.Stream.{pending}
use gko_pool.Machine.{Turn, turn, Next, on, closes, ℤ}

-- How far a state is from the loop's end, when no bytes come.
abbrev pub rank : State → ℕ
rank State.closing = 0
rank State.waiting = 1
rank State.renew = 2
rank State.read = 3
rank State.write = 4
rank State.parse_cmd = 5
rank State.parse_header = 6
rank State.connecting = 7
rank State.dns_cache = 8
rank _ = 0

-- The states that a connection in use has.
abbrev pub is_live : State → Bool
is_live State.nouse = false
is_live State.listening = false
is_live State.nread = false
is_live State.mwrite = false
is_live State.max_state = false
is_live _ = true

abbrev pub measure : State → World → ℕ
measure state w = 9 * pending w.reads + rank state

-- A turn that ends the loop, or leaves less to do.
abbrev pub Falls : ℕ → Turn → Type 0
Falls m (turn Next.goes_on nreqs c w) =
    (measure c.state w < m) × (is_live c.state ≡ true) × (c.rbuf_size < 2 ^ 32)
Falls m (turn Next.stops nreqs c w) = Unit
Falls m (turn Next.aborts nreqs c w) = ⊥

abbrev decode : ℕ → State
decode n =
    if n == 0
    then State.nouse
    else if n == 1
    then State.listening
    else if n == 2
    then State.waiting
    else if n == 3
    then State.read
    else if n == 4
    then State.nread
    else if n == 5
    then State.parse_header
    else if n == 6
    then State.parse_cmd
    else if n == 7
    then State.write
    else if n == 8
    then State.mwrite
    else if n == 9
    then State.renew
    else if n == 10
    then State.closing
    else if n == 101
    then State.connecting
    else if n == 102
    then State.dns_cache
    else if n == 103
    then State.resolving
    else State.max_state

decode-code : (s : State) → decode (code s) ≡ s
decode-code State.nouse = refl
decode-code State.listening = refl
decode-code State.waiting = refl
decode-code State.read = refl
decode-code State.nread = refl
decode-code State.parse_header = refl
decode-code State.parse_cmd = refl
decode-code State.write = refl
decode-code State.mwrite = refl
decode-code State.renew = refl
decode-code State.closing = refl
decode-code State.connecting = refl
decode-code State.dns_cache = refl
decode-code State.resolving = refl
decode-code State.max_state = refl

-- What conn_set_state does to the fields that a turn depends on.
pub record Set (c : Client) (w : World) (s : State) (r : Client × World) : Type 0 where
  pub state : r.0.state ≡ s
  pub reads : r.1.reads ≡ w.reads
  pub size : r.0.rbuf_size ≡ c.rbuf_size

pub conn_set_state-Set : (c : Client) (w : World) (s : State) → Set c w s (conn_set_state c w s)
unfolding conn_set_state
conn_set_state-Set c w s = elim (Bool-cases (code s == code c.state)) [
  | inl e ↦ rw e record {
    state =
        sym (decode-code c.state)
        ∙ ap decode (sym ((==_iff (code s) (code c.state)).0 e))
        ∙ decode-code s;
    reads = refl;
    size = refl;
  }
  | inr e ↦ rw e record { state = refl; reads = reported; size = refl }
]
  where
    reported :
        (if (code s == 10) && is_reported c
          then (if w.has_report_handler
              then record w { reports = (c.id, c.err_no) ∷ w.reports }
              else w)
          else w).reads
        ≡ w.reads
    reported = ground arith

-- A turn that goes on in a state that conn_set_state sets.
pub on_set-Falls :
    (m nreqs : ℕ) (c : Client) (w : World) (s : State)
    → measure s w < m
    → is_live s ≡ true
    → c.rbuf_size < 2 ^ 32
    → Falls m (on nreqs (conn_set_state c w s))
on_set-Falls m nreqs c w s less live u32 =
    let r = conn_set_state-Set c w s in
    (
      omega (arith, ap rank r.state, ap pending r.reads, less),
      ap is_live r.state ∙ live,
      omega (arith, r.size, u32),
    )

pub on_closes-Falls :
    (m nreqs : ℕ) (err_no : ℤ) (c : Client) (w : World)
    → 9 * pending w.reads < m
    → c.rbuf_size < 2 ^ 32
    → Falls m (on nreqs (closes err_no c w))
unfolding closes
on_closes-Falls m nreqs err_no c w less u32 =
    on_set-Falls m nreqs (record c { err_no = err_no }) w State.closing (omega arith) refl u32
