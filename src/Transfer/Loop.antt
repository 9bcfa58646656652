-- ===== src/Transfer/Loop.antt =====
-- Properties that the rounds of aread, src/async_threads.cpp, keep one by one.
use gko_pool.Prelude.{
  ℕ, zero, suc, ◌+◌, inl, inr, Bool, true, false, Option, none, some, [], ◌==◌, ltb, Bool-cases,
  Option-cases, subst,
}
use gko_pool.Client.{Client, World}
use gko_pool.Transfer.{ReadResult, grow, read_once, aread_loop, aread}

-- What a property says of a result, if there is one.
abbrev pub IfAny {ℓ} : (Client → World → Type ℓ) → Option (Client × World) → Type ℓ
IfAny P none = Unit
IfAny P (some (c, w)) = P c w

module _ {ℓ} (P : Client → World → Type ℓ)
    (grows : (c : Client) (w : World) → P c w → IfAny P (grow c w))
    (reads : (gotdata : ReadResult) (c : Client) (w : World)
      → P c w
      → let r = read_once gotdata c w in P r.2 r.3)
    (forgets : (c : Client) (w : World)
      → P c w
      → P (record c { have_read = 0; received = [] }) w) where
  -- The end of a round, or the rounds after it.
  round-keeps :
      (r : Bool × ReadResult × Client × World)
      (next : ReadResult → Client → World → ReadResult × Client × World)
      → ((gotdata : ReadResult) (c : Client) (w : World)
          → P c w
          → P (next gotdata c w).1 (next gotdata c w).2)
      → P r.2 r.3
      → let end = elim r.0 as (λ _. ReadResult × Client × World) [
        | true ↦ next r.1 r.2 r.3
        | false ↦ (r.1, r.2, r.3)
      ] in
        P end.1 end.2
  round-keeps (true, gotdata, c, w) next later o = later gotdata c w o
  round-keeps (false, gotdata, c, w) next later o = o

  aread_loop-keeps :
      (fuel allocs : ℕ) (gotdata : ReadResult) (c : Client) (w : World)
      → P c w
      → let r = aread_loop fuel allocs gotdata c w in P r.1 r.2
  unfolding aread_loop
  aread_loop-keeps zero allocs gotdata c w o = o
  aread_loop-keeps (suc fuel) allocs gotdata c w o =
      elim (Bool-cases (ltb c.have_read c.rbuf_size)) [
        | inl e ↦
            rw (e, aread_loop)
              (round-keeps (read_once gotdata c w) (aread_loop fuel allocs)
                (aread_loop-keeps fuel allocs) (reads gotdata c w o))
        | inr e ↦ elim (Bool-cases (allocs == 10)) [
          | inl f ↦ rw (e, f, aread_loop) o
          | inr f ↦ elim (Option-cases (grow c w)) [
            | inl g ↦ rw (e, f, g, aread_loop) (forgets c w o)
            | inr ((c1, w1), g) ↦
                rw (e, f, g, aread_loop)
                  (round-keeps (read_once gotdata c1 w1) (aread_loop fuel (allocs + 1))
                    (aread_loop-keeps fuel (allocs + 1))
                    (reads gotdata c1 w1 (subst (IfAny P) g (grows c w o))))
          ]
        ]
      ]

  pub aread-keeps : (c : Client) (w : World) → P c w → let r = aread c w in P r.1 r.2
  unfolding aread
  aread-keeps c w o = aread_loop-keeps 12 0 ReadResult.no_data_received c w o
