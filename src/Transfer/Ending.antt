-- ===== src/Transfer/Ending.antt =====
-- aread of src/async_threads.cpp on any client, also one whose sizes make no sense: it ends, and what
-- it reports as read has left the socket.
use gko_pool.Prelude.{
  ℕ, zero, suc, ◌+◌, ◌^◌, ◌≤◌, ◌<◌, ◌≡◌, ◌≢◌, ◌⊎◌, refl, sym, ap, ◌∙◌, inl, inr, arith, Bool, true,
  false, List, [], ltb, ◌==◌, Bool-cases, length,
}
use gko_pool.Client.{Client, World, Recv}
use gko_pool.Transfer.{
  ReadResult, classify, read_once, after_read, aread_loop, aread, Got, got, again, failed, sys_read,
}
use gko_pool.Transfer.Stream.{pending, Reads, sys_read-Reads}
use gko_pool.Transfer.Reading.{has_read, asked}
use gko_pool.Transfer.Completing.{grown, given, grow-cases}

-- What one round does.
record Round (gotdata : ReadResult) (c : Client) (w : World)
    (r : Bool × ReadResult × Client × World) : Type 0 where
  full : r.0 ≡ true → r.2.have_read ≡ r.2.rbuf_size
  size : r.2.rbuf_size ≡ c.rbuf_size
  state : r.2.state ≡ c.state
  less : pending r.3.reads ≤ pending w.reads
  progress : has_read r.1 ≡ true → (pending r.3.reads < pending w.reads) ⊎ (r.1 ≡ gotdata)
  known : gotdata ≢ ReadResult.out_of_fuel → r.1 ≢ ReadResult.out_of_fuel

classify_known : (c : Client) → classify c ≢ ReadResult.out_of_fuel
unfolding classify
classify_known c = ground arith

after_read-Round :
    (gotdata : ReadResult) (c : Client) (w : World) (r : Got × List Recv)
    → c.rbuf_size < 2 ^ 32
    → Reads (asked c) w.reads r
    → Round gotdata c w (after_read gotdata c w r)
unfolding after_read
after_read-Round gotdata c w (again, rest) u32 (kept, less) = record {
  full = λ e. cc;
  size = refl;
  state = refl;
  less = less;
  progress = λ _. inr refl;
  known = λ k. k;
}
after_read-Round gotdata c w (failed, rest) u32 (kept, less) = record {
  full = λ e. cc;
  size = refl;
  state = refl;
  less = less;
  progress = λ e. cc;
  known = λ _ e. cc;
}
after_read-Round gotdata c w (got d, rest) u32 (small, kept, less, fewer) =
    elim (Bool-cases (length d == 0)) [
      | inl e ↦ rw e record {
        full = λ f. cc;
        size = refl;
        state = refl;
        less = less;
        progress = λ f. cc;
        known = λ _ f. cc;
      }
      | inr e ↦ rw e record {
        full = λ f. ground arith;
        size = refl;
        state = refl;
        less = less;
        progress = λ _. inl (fewer (ground arith));
        known = λ _. classify_known _;
      }
    ]

read_once-Round :
    (gotdata : ReadResult) (c : Client) (w : World)
    → c.rbuf_size < 2 ^ 32
    → Round gotdata c w (read_once gotdata c w)
unfolding read_once
read_once-Round gotdata c w u32 =
    after_read-Round gotdata c w (sys_read (asked c) w.reads) u32 (sys_read-Reads (asked c) w.reads)

-- How a call ends.
pub record Stops (base : ℕ) (c : Client) (r : ReadResult × Client × World) : Type 0 where
  pub known : r.0 ≢ ReadResult.out_of_fuel
  pub answered : pending r.2.reads ≤ base
  pub progress : has_read r.0 ≡ true → pending r.2.reads < base
  pub u32 : r.1.rbuf_size < 2 ^ 32
  pub state : r.1.state ≡ c.state

-- The rounds that may still come: one that fills the buffer and one for each growth left.
abbrev Enough : ℕ → ℕ → Client → Type 0
Enough fuel allocs c = (12 ≤ fuel + allocs) ⊎ ((11 ≤ fuel + allocs) × (c.have_read ≡ c.rbuf_size))

-- What holds of a loop with some fuel.
abbrev Ends : ℕ → ℕ → Type 0
Ends base fuel =
    (allocs : ℕ) (gotdata : ReadResult) (c : Client) (w : World)
    → c.rbuf_size < 2 ^ 32
    → allocs ≤ 10
    → Enough fuel allocs c
    → gotdata ≢ ReadResult.out_of_fuel
    → pending w.reads ≤ base
    → (has_read gotdata ≡ true → pending w.reads < base)
    → Stops base c (aread_loop fuel allocs gotdata c w)

-- A round after which the loop may go on.
round-Ends :
    (base fuel allocs : ℕ) (gotdata : ReadResult) (c : Client) (w : World)
    → Ends base fuel
    → c.rbuf_size < 2 ^ 32
    → allocs ≤ 10
    → 11 ≤ fuel + allocs
    → gotdata ≢ ReadResult.out_of_fuel
    → pending w.reads ≤ base
    → (has_read gotdata ≡ true → pending w.reads < base)
    → let r = read_once gotdata c w in
      Stops base c
        (elim r.0 [ true ↦ aread_loop fuel allocs r.1 r.2 r.3 | false ↦ (r.1, r.2, r.3) ])
round-Ends base fuel allocs gotdata c w ends u32 small enough known low up =
    next (read_once gotdata c w) (read_once-Round gotdata c w u32)
  where
    progressed :
        (g : ReadResult) (rest : List Recv)
        → has_read g ≡ true
        → (pending rest < pending w.reads) ⊎ (g ≡ gotdata)
        → pending rest ≤ pending w.reads
        → pending rest < base
    progressed g rest h (inl l) less = omega arith
    progressed g rest h (inr same) less = omega (arith, up (sym (ap has_read same) ∙ h), less)

    next :
        (r : Bool × ReadResult × Client × World)
        → Round gotdata c w r
        → Stops base c
            (elim r.0 [ true ↦ aread_loop fuel allocs r.1 r.2 r.3 | false ↦ (r.1, r.2, r.3) ])
    next (true, g, c', w') o =
        let stops =
          ends allocs g c' w' (omega (arith, o.size, u32)) small (inr (enough, o.full refl))
            (o.known known) (omega (arith, o.less, low))
            (λ h. progressed g w'.reads h (o.progress h) o.less) in
        record {
          known = stops.known;
          answered = stops.answered;
          progress = stops.progress;
          u32 = stops.u32;
          state = stops.state ∙ o.state;
        }
    next (false, g, c', w') o = record {
      known = o.known known;
      answered = omega (arith, o.less, low);
      progress = λ h. progressed g w'.reads h (o.progress h) o.less;
      u32 = omega (arith, o.size, u32);
      state = o.state;
    }

aread_loop-Stops : (base fuel : ℕ) → Ends base fuel
unfolding aread_loop
aread_loop-Stops base zero allocs gotdata c w u32 small enough known low up = absurd (omega arith)
aread_loop-Stops base (suc fuel) allocs gotdata c w u32 small enough known low up =
    elim (Bool-cases (ltb c.have_read c.rbuf_size)) [
      | inl e ↦
          rw (e, aread_loop)
            (round-Ends base fuel allocs gotdata c w (aread_loop-Stops base fuel) u32 small
              (enough_now e enough) known low up)
      | inr e ↦ elim (Bool-cases (allocs == 10)) [
        | inl f ↦ rw (e, f, aread_loop) (no_memory c u32 refl)
        | inr f ↦ elim (grow-cases c w) [
          | inl g ↦
              rw (e, f, g, aread_loop)
                (no_memory (record c { have_read = 0; received = [] }) u32 refl)
          | inr g ↦
              rw (e, f, g, aread_loop)
                (regrown (
                  round-Ends base fuel (allocs + 1) gotdata (grown c w) (given c w)
                    (aread_loop-Stops base fuel) (omega arith) (ground arith) (rounds enough) known
                    low up))
        ]
      ]
    ]
  where
    no_memory :
        (d : Client)
        → d.rbuf_size < 2 ^ 32
        → d.state ≡ c.state
        → Stops base c (ReadResult.memory_error, d, w)
    no_memory d u32 same = record {
      known = λ e. cc;
      answered = low;
      progress = λ h. cc;
      u32 = u32;
      state = same;
    }

    regrown : {r : ReadResult × Client × World} → Stops base (grown c w) r → Stops base c r
    regrown stops = record {
      known = stops.known;
      answered = stops.answered;
      progress = stops.progress;
      u32 = stops.u32;
      state = stops.state;
    }

    enough_now :
        ltb c.have_read c.rbuf_size ≡ true → Enough (suc fuel) allocs c → 11 ≤ fuel + allocs
    enough_now e (inl l) = omega arith
    enough_now e (inr (l, same)) = ground arith

    rounds : Enough (suc fuel) allocs c → 11 ≤ fuel + (allocs + 1)
    rounds (inl l) = omega arith
    rounds (inr (l, same)) = omega arith

-- On any client whose buffer size is an unsigned int, aread ends; the reads that the socket can
-- still answer do not become more, and become fewer where new bytes are reported.
pub aread-Stops :
    (c : Client) (w : World) → c.rbuf_size < 2 ^ 32 → Stops (pending w.reads) c (aread c w)
unfolding aread
aread-Stops c w u32 =
    aread_loop-Stops (pending w.reads) 12 0 ReadResult.no_data_received c w u32 (omega arith)
      (inl (omega arith)) (λ e. cc) (omega arith) (λ h. cc)
