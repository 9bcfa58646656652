-- ===== src/Machine/Loop.antt =====
-- Properties that the turns of state_machine, src/async_threads.cpp, keep one by one.
use gko_pool.Prelude.{ℕ, zero, suc}
use gko_pool.Client.{Client, World}
use gko_pool.Machine.{Next, Turn, turn, Calls, step_in, loop_from, state_machine}

-- What a property says of the client and the worker that a turn leaves.
abbrev pub AfterTurn {ℓ} : (Client → World → Type ℓ) → Turn → Type ℓ
AfterTurn P (turn next nreqs c w) = P c w

module _ {ℓ} (calls : Calls) (P : Client → World → Type ℓ)
    (turns : (nreqs : ℕ) (c : Client) (w : World)
      → P c w
      → AfterTurn P (step_in calls c.state nreqs c w)) where
  -- The end of the loop, or the turns after it.
  turn-keeps :
      (t : Turn) (rest : ℕ → Client → World → Next × Client × World)
      → ((nreqs : ℕ) (c : Client) (w : World) → P c w → P (rest nreqs c w).1 (rest nreqs c w).2)
      → AfterTurn P t
      → let r = elim t as (λ _. Next × Client × World) [
        | turn next nreqs' c' w' ↦ elim next as (λ _. Next × Client × World) [
          | Next.goes_on ↦ rest nreqs' c' w'
          | Next.stops ↦ (Next.stops, c', w')
          | Next.aborts ↦ (Next.aborts, c', w')
        ]
      ] in
        P r.1 r.2
  turn-keeps (turn Next.goes_on nreqs c w) rest later o = later nreqs c w o
  turn-keeps (turn Next.stops nreqs c w) rest later o = o
  turn-keeps (turn Next.aborts nreqs c w) rest later o = o

  loop_from-keeps :
      (fuel nreqs : ℕ) (c : Client) (w : World)
      → P c w
      → let r = loop_from calls fuel nreqs c w in P r.1 r.2
  unfolding loop_from
  loop_from-keeps zero nreqs c w o = o
  loop_from-keeps (suc fuel) nreqs c w o =
      turn-keeps (step_in calls c.state nreqs c w) (loop_from calls fuel) (loop_from-keeps fuel)
        (turns nreqs c w o)

  pub state_machine-keeps :
      (fuel : ℕ) (c : Client) (w : World)
      → P c w
      → let r = state_machine calls fuel c w in P r.1 r.2
  unfolding state_machine
  state_machine-keeps fuel c w o = loop_from-keeps fuel 3 c w o
