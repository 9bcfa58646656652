-- ===== src/Machine/Guards.antt =====
-- The states read and parse_header of state_machine, src/async_threads.cpp: what a message that is passed on
-- has.
use gko_pool.Prelude.{
  ℕ, ◌+◌, ◌%◌, ◌^◌, ◌≤◌, ◌<◌, ◌≡◌, ◌⊎◌, refl, sym, subst, ◌∙◌, inl, inr, arith, ltb, Bool-cases,
}
use gko_pool.Prelude.Int.{ℤ, pos, pos_part, ltb_ℤ}
use gko_pool.Wire.{cmd_prefix_byte, parse_cmd_head}
use gko_pool.Wire.RoundTrip.{parse_cmd_head_small}
use gko_pool.Client.{
  Client, World, State, conn_set_state, recv_error, dispatch_recv_error, server_internal_error,
}
use gko_pool.Transfer.{ReadResult, aread}
use gko_pool.Transfer.Reading.{IsClassed}
use gko_pool.Transfer.Completing.{Readable}
use gko_pool.Transfer.Message.{aread-IsClassed}
use gko_pool.Transfer.Same.{aread-same}
use gko_pool.Machine.{
  Calls, Turn, on, closes, is_active, after_aread, on_read, on_parse_header, step_in,
}
use gko_pool.Machine.Loop.{AfterTurn}
use gko_pool.Machine.Measure.{conn_set_state-Set}

-- What a state asks of the bytes that are there and those that are needed.
abbrev pub Meets : State → ℕ → ℕ → Type 0
Meets State.parse_cmd have need = (cmd_prefix_byte < need) × (need ≤ have)
Meets State.parse_header have need = (have ≡ need) × (need ≡ cmd_prefix_byte)
Meets State.read have need = have < need
Meets _ have need = Unit

abbrev pub TurnMeets : Turn → Type 0
TurnMeets = AfterTurn (λ c w. Meets c.state c.have_read c.need_read)

conn_set_state-counts :
    (c : Client) (w : World) (s : State)
    → let r = conn_set_state c w s in (r.0.have_read ≡ c.have_read) × (r.0.need_read ≡ c.need_read)
unfolding conn_set_state
conn_set_state-counts c w s = (ground arith, ground arith)

set-Meets :
    (nreqs : ℕ) (c : Client) (w : World) (s : State)
    → Meets s c.have_read c.need_read
    → TurnMeets (on nreqs (conn_set_state c w s))
set-Meets nreqs c w s m =
    let counts = conn_set_state-counts c w s in
    rw ((conn_set_state-Set c w s).state, counts.0, counts.1) m

closes-Meets :
    (nreqs : ℕ) (err_no : ℤ) (c : Client) (w : World) → TurnMeets (on nreqs (closes err_no c w))
unfolding closes
closes-Meets nreqs err_no c w = set-Meets nreqs (record c { err_no = err_no }) w State.closing tt

after_aread-Meets :
    (nreqs : ℕ) (r : ReadResult × Client × World)
    → r.1.state ≡ State.read
    → IsClassed r.0 r.1
    → TurnMeets (after_aread nreqs r)
unfolding after_aread
after_aread-Meets nreqs (ReadResult.no_data_received, c, w) e k =
    set-Meets nreqs c w State.waiting tt
after_aread-Meets nreqs (ReadResult.header_received, c, w) e k =
    set-Meets nreqs c w State.parse_header k
after_aread-Meets nreqs (ReadResult.data_received, c, w) e k =
    set-Meets nreqs c w State.parse_cmd (k.1, omega (arith, k.0))
after_aread-Meets nreqs (ReadResult.need_more, c, w) e k = rw e k
after_aread-Meets nreqs (ReadResult.error, c, w) e k = elim (Bool-cases (is_active c)) [
  | inl b ↦ rw b (closes-Meets nreqs dispatch_recv_error c w)
  | inr b ↦ rw b (set-Meets nreqs c w State.closing tt)
]
after_aread-Meets nreqs (ReadResult.memory_error, c, w) e k =
    closes-Meets nreqs server_internal_error c w
after_aread-Meets nreqs (ReadResult.out_of_fuel, c, w) e k = absurd k

on_parse_header-Meets : (nreqs : ℕ) (c : Client) (w : World) → TurnMeets (on_parse_header nreqs c w)
unfolding on_parse_header
on_parse_header-Meets nreqs c w =
    let msg_len = parse_cmd_head c.received in
    let need = (pos_part msg_len + cmd_prefix_byte) % 2 ^ 32 in
    let c' = record c { need_read = need } in
    let small = parse_cmd_head_small c.received in
    elim (Bool-cases (ltb_ℤ (pos 0) msg_len)) [
      | inl b ↦
          let more : cmd_prefix_byte < need = ground (arith, b, small) in
          elim (Bool-cases (ltb c.have_read need)) [
            | inl less ↦ rw (b, less) (set-Meets nreqs c' w State.read (ground (arith, less)))
            | inr enough ↦
                rw (b, enough) (set-Meets nreqs c' w State.parse_cmd (more, ground (arith, enough)))
          ]
      | inr b ↦ elim (Bool-cases (is_active c)) [
        | inl going ↦ rw (b, going) (closes-Meets nreqs dispatch_recv_error c w)
        | inr coming ↦ rw (b, coming) (closes-Meets nreqs recv_error c w)
      ]
    ]

step_in-Meets :
    (calls : Calls) (s : State) (nreqs : ℕ) (c : Client) (w : World)
    → Readable c
    → c.state ≡ s
    → (s ≡ State.read) ⊎ (s ≡ State.parse_header)
    → TurnMeets (step_in calls s nreqs c w)
unfolding step_in on_read
step_in-Meets calls s nreqs c w v e (inl reading) =
    subst (λ s. TurnMeets (step_in calls s nreqs c w)) (sym reading)
      (after_aread-Meets nreqs (aread c w) ((aread-same c w).0 ∙ (e ∙ reading))
        (aread-IsClassed c w v).1)
step_in-Meets calls s nreqs c w v e (inr parsing) =
    subst (λ s. TurnMeets (step_in calls s nreqs c w)) (sym parsing)
      (on_parse_header-Meets nreqs c w)

-- A message is passed on only when it is whole. For a client whose bytes fit its buffer, of at most 2 ^ 21
-- bytes, and what it needs, a turn of state_machine from read or parse_header leads to parse_cmd, where
-- the callback is called, only with more than 10 bytes needed and all of them there; to parse_header only
-- with 10 bytes needed and just these there; and to read only with some that are needed missing.
pub step_in_guards :
    (calls : Calls) (nreqs : ℕ) (c : Client) (w : World)
    → Readable c
    → (c.state ≡ State.read) ⊎ (c.state ≡ State.parse_header)
    → TurnMeets (step_in calls c.state nreqs c w)
step_in_guards calls nreqs c w v from = step_in-Meets calls c.state nreqs c w v refl from
