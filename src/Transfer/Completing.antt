-- ===== src/Transfer/Completing.antt =====
-- aread of src/async_threads.cpp, the whole loop: it ends, it loses no byte, and it says when the
-- message is complete.
use native.Mathlib.Nat.{pow-suc}
use gko_pool.Prelude.{
  ℕ, zero, suc, ◌+◌, ◌-◌, ◌*◌, ◌%◌, ◌^◌, ◌≤◌, ◌<◌, ◌≡◌, ◌≢◌, ◌⊎◌, refl, ap, inl, inr, arith, Bool,
  true, false, none, some, List, ltb, ◌==◌, Bool-cases, [],
}
use gko_pool.Alloc.{free_block}
use gko_pool.Prelude.{sym, ◌∙◌}
use gko_pool.Client.{Client, World, Recv}
use gko_pool.Transfer.{ReadResult, grow, read_once, aread_loop, aread}
use gko_pool.Transfer.Stream.{pending}
use gko_pool.Transfer.Reading.{
  IsClassed, Fits, has_read, Advances, Once, read_once-Once, Advances-trans,
}

-- The client and the worker after the buffer has grown.
abbrev pub grown : Client → World → Client
grown c w = record c {
  r_buf_arena_id = none;
  read_buffer = w.malloc;
  rbuf_size = c.rbuf_size * 2 % 2 ^ 32;
}

abbrev pub given : Client → World → World
given c w = record w { mem = free_block w.mem c.r_buf_arena_id }

pub grow-cases :
    (c : Client) (w : World) → (grow c w ≡ none) ⊎ (grow c w ≡ some (grown c w, given c w))
unfolding grow
grow-cases c w = elim (Bool-cases (w.malloc == 0)) [ inl e ↦ inl (rw e) | inr e ↦ inr (rw e) ]

pub grow_memory : (c : Client) (w : World) → 0 < w.malloc → grow c w ≡ some (grown c w, given c w)
unfolding grow
grow_memory c w memory = rw (fresh) refl
  where
    fresh : (w.malloc == 0) ≡ false
    fresh = ground arith

pub grown-Advances :
    (c : Client) (w : World)
    → Fits c
    → c.rbuf_size * 2 < 2 ^ 32
    → Advances c w.reads (grown c w) (given c w).reads
grown-Advances c w v room = record {
  fits = record {
    in_buffer = omega (arith, v.in_buffer);
    wanted = v.wanted;
    need_u32 = v.need_u32;
    size_u32 = omega arith;
    counted = v.counted;
  };
  same_need = refl;
  same_state = refl;
  same_type = refl;
  bytes_kept = refl;
  answered = omega arith;
}

-- How a call of aread ends.
pub record Ended (base : ℕ) (c : Client) (w : World) (r : ReadResult × Client × World)
    : Type 0 where
  pub advances : r.0 ≢ ReadResult.memory_error → Advances c w.reads r.1 r.2.reads
  pub classed : IsClassed r.0 r.1
  pub answered : pending r.2.reads ≤ pending w.reads
  pub progress : has_read r.0 ≡ true → pending r.2.reads < base

-- A loop that goes on from a later state.
Ended-from :
    (base : ℕ) (c c' : Client) (w w' : World) (r : ReadResult × Client × World)
    → Advances c w.reads c' w'.reads
    → Ended base c' w' r
    → Ended base c w r
Ended-from base c c' w w' r a e = record {
  advances = λ ne. Advances-trans a (e.advances ne);
  classed = e.classed;
  answered = omega (arith, a.answered, e.answered);
  progress = e.progress;
}

-- The end of a round: the loop stops, or goes on by `rest`.
round-Ended :
    (base : ℕ) (gotdata : ReadResult) (c : Client) (w : World)
    (r : Bool × ReadResult × Client × World) (rest : ReadResult × Client × World)
    → Once gotdata c w r
    → IsClassed gotdata c
    → pending w.reads ≤ base
    → (has_read gotdata ≡ true → pending w.reads < base)
    → (r.0 ≡ true → Ended base r.2 r.3 rest)
    → Ended base c w (elim r.0 [ true ↦ rest | false ↦ (r.1, r.2, r.3) ])
round-Ended base gotdata c w (true, g, c', w') rest o k low up more =
    Ended-from base c c' w w' rest o.advances (more refl)
round-Ended base gotdata c w (false, g, c', w') rest o k low up more = record {
  advances = λ _. o.advances;
  classed = o.classed k;
  answered = o.advances.answered;
  progress = λ h. progressed h (o.progress h);
}
  where
    progressed :
        has_read g ≡ true
        → (pending w'.reads < pending w.reads) ⊎ (g ≡ gotdata)
        → pending w'.reads < base
    progressed h (inl l) = omega arith
    progressed h (inr same) = omega (arith, up (sym (ap has_read same) ∙ h), o.advances.answered)

-- The rounds that may still come: one that fills the buffer and one for each growth left.
abbrev Enough : ℕ → ℕ → Client → Type 0
Enough fuel allocs c = (12 ≤ fuel + allocs) ⊎ ((11 ≤ fuel + allocs) × (c.have_read ≡ c.rbuf_size))

-- What one growth leaves of the room for the ones to come.
doubled :
    (s k : ℕ) → s * 2 ^ suc k ≤ 2 ^ 31 → (s * 2 ≤ 2 ^ 31) × ((s * 2 % 2 ^ 32) * 2 ^ k ≤ 2 ^ 31)
doubled s k h = halves (2 ^ k) (pow-positive k) (ground (arith, pow-suc 2 k, h))
  where
    unwrapped : s * 2 ≤ 2 ^ 31 → s * 2 % 2 ^ 32 ≡ s * 2
    unwrapped l = omega arith

    pow-positive : (k : ℕ) → 0 < 2 ^ k
    pow-positive zero = omega arith
    pow-positive (suc k) = omega (arith, pow-suc 2 k, pow-positive k)

    halves :
        (p : ℕ) → 0 < p → s * (p * 2) ≤ 2 ^ 31 → (s * 2 ≤ 2 ^ 31) × ((s * 2 % 2 ^ 32) * p ≤ 2 ^ 31)
    halves zero l h = absurd (omega arith)
    halves (suc q) l h =
        (omega (arith, h), omega (arith, h, ap (λ t. t * suc q) (unwrapped (omega (arith, h)))))

-- What the loop does after a round.
abbrev goes_on : ℕ → ℕ → Bool × ReadResult × Client × World → ReadResult × Client × World
goes_on fuel allocs r = elim r.0 [
  | true ↦ aread_loop fuel allocs r.1 r.2 r.3
  | false ↦ (r.1, r.2, r.3)
]

-- The rounds of the loop, by what their read gives.
pub aread_loop_stops :
    (fuel allocs : ℕ) (gotdata g : ReadResult) (c c' : Client) (w w' : World)
    → ltb c.have_read c.rbuf_size ≡ true
    → read_once gotdata c w ≡ (false, g, c', w')
    → aread_loop (suc fuel) allocs gotdata c w ≡ (g, c', w')
unfolding aread_loop
aread_loop_stops fuel allocs gotdata g c c' w w' e f =
    rw (e, aread_loop) (ap (goes_on fuel allocs) f)

pub aread_loop_goes_on :
    (fuel allocs : ℕ) (gotdata g : ReadResult) (c c' : Client) (w w' : World)
    → ltb c.have_read c.rbuf_size ≡ true
    → read_once gotdata c w ≡ (true, g, c', w')
    → aread_loop (suc fuel) allocs gotdata c w ≡ aread_loop fuel allocs g c' w'
unfolding aread_loop
aread_loop_goes_on fuel allocs gotdata g c c' w w' e f =
    rw (e, aread_loop) (ap (goes_on fuel allocs) f)

pub aread_loop_grows :
    (fuel : ℕ) (gotdata g : ReadResult) (c c' : Client) (w w' : World)
    → ltb c.have_read c.rbuf_size ≡ false
    → grow c w ≡ some (grown c w, given c w)
    → read_once gotdata (grown c w) (given c w) ≡ (false, g, c', w')
    → aread_loop (suc fuel) 0 gotdata c w ≡ (g, c', w')
unfolding aread_loop
aread_loop_grows fuel gotdata g c c' w w' e f h = rw (e, f, aread_loop) (ap (goes_on fuel 1) h)

-- What holds of a loop with some fuel.
abbrev Ends : ℕ → ℕ → Type 0
Ends base fuel =
    (allocs : ℕ) (gotdata : ReadResult) (c : Client) (w : World)
    → Fits c
    → IsClassed gotdata c
    → allocs ≤ 10
    → c.rbuf_size * 2 ^ (10 - allocs) ≤ 2 ^ 31
    → Enough fuel allocs c
    → pending w.reads ≤ base
    → (has_read gotdata ≡ true → pending w.reads < base)
    → Ended base c w (aread_loop fuel allocs gotdata c w)

-- A round after which the loop may go on.
round-Ends :
    (base fuel allocs : ℕ) (gotdata : ReadResult) (c : Client) (w : World)
    → Ends base fuel
    → Fits c
    → IsClassed gotdata c
    → allocs ≤ 10
    → c.rbuf_size * 2 ^ (10 - allocs) ≤ 2 ^ 31
    → 11 ≤ fuel + allocs
    → pending w.reads ≤ base
    → (has_read gotdata ≡ true → pending w.reads < base)
    → let r = read_once gotdata c w in
      Ended base c w
        (elim r.0 [ true ↦ aread_loop fuel allocs r.1 r.2 r.3 | false ↦ (r.1, r.2, r.3) ])
round-Ends base fuel allocs gotdata c w ends v k small room enough low up =
    let r = read_once gotdata c w in
    let o = read_once-Once gotdata c w v in
    round-Ended base gotdata c w r (aread_loop fuel allocs r.1 r.2 r.3) o k low up (λ more.
      ends allocs r.1 r.2 r.3 o.advances.fits (o.classed k) small
        (omega (arith, ap (λ n. n * 2 ^ (10 - allocs)) o.same_size, room))
        (inr (enough, o.full more)) (omega (arith, o.advances.answered, low))
        (λ h. progressed r.1 r.3.reads h (o.progress h) o.advances.answered))
  where
    progressed :
        (g : ReadResult) (rest : List Recv)
        → has_read g ≡ true
        → (pending rest < pending w.reads) ⊎ (g ≡ gotdata)
        → pending rest ≤ pending w.reads
        → pending rest < base
    progressed g rest h (inl l) less = omega arith
    progressed g rest h (inr same) less = omega (arith, up (sym (ap has_read same) ∙ h), less)

grown-IsClassed :
    (g : ReadResult) (c : Client) (w : World) → IsClassed g c → IsClassed g (grown c w)
grown-IsClassed ReadResult.data_received c w k = k
grown-IsClassed ReadResult.header_received c w k = k
grown-IsClassed ReadResult.need_more c w k = k
grown-IsClassed ReadResult.no_data_received c w k = k
grown-IsClassed ReadResult.error c w k = k
grown-IsClassed ReadResult.memory_error c w k = k
grown-IsClassed ReadResult.out_of_fuel c w k = k

-- A round after the buffer has grown.
growing-Ends :
    (base fuel allocs left : ℕ) (gotdata : ReadResult) (c : Client) (w : World)
    → Ends base fuel
    → Fits c
    → IsClassed gotdata c
    → allocs + suc left ≡ 10
    → c.rbuf_size * 2 ^ (10 - allocs) ≤ 2 ^ 31
    → 11 ≤ fuel + (allocs + 1)
    → pending w.reads ≤ base
    → (has_read gotdata ≡ true → pending w.reads < base)
    → let r = read_once gotdata (grown c w) (given c w) in
      Ended base c w
        (elim r.0 [ true ↦ aread_loop fuel (allocs + 1) r.1 r.2 r.3 | false ↦ (r.1, r.2, r.3) ])
growing-Ends base fuel allocs left gotdata c w ends v k sum room enough low up =
    let halved =
      doubled c.rbuf_size left
        (omega (arith, ap (λ n. c.rbuf_size * 2 ^ n) (left_room sum).0, room)) in
    let advances = grown-Advances c w v (omega (arith, halved.0)) in
    Ended-from base c (grown c w) w (given c w)
      (let r = read_once gotdata (grown c w) (given c w) in
        elim r.0 [ true ↦ aread_loop fuel (allocs + 1) r.1 r.2 r.3 | false ↦ (r.1, r.2, r.3) ])
      advances
      (round-Ends base fuel (allocs + 1) gotdata (grown c w) (given c w) ends advances.fits
        (grown-IsClassed gotdata c w k) (omega arith)
        (omega (arith, halved.1, ap (λ n. (c.rbuf_size * 2 % 2 ^ 32) * 2 ^ n) (left_room sum).1))
        enough low up)
  where
    left_room : allocs + suc left ≡ 10 → (10 - allocs ≡ suc left) × (10 - (allocs + 1) ≡ left)
    left_room sum = (omega arith, omega arith)

aread_loop-Ended : (base fuel : ℕ) → Ends base fuel
unfolding aread_loop
aread_loop-Ended base zero allocs gotdata c w v k small room enough low up = absurd (omega arith)
aread_loop-Ended base (suc fuel) allocs gotdata c w v k small room enough low up =
    elim (Bool-cases (ltb c.have_read c.rbuf_size)) [
      | inl e ↦
          rw (e, aread_loop)
            (round-Ends base fuel allocs gotdata c w (aread_loop-Ended base fuel) v k small room
              (enough_now e enough) low up)
      | inr e ↦ elim (Bool-cases (allocs == 10)) [
        | inl f ↦ rw (e, f, aread_loop) (no_memory c)
        | inr f ↦ elim (grow-cases c w) [
          | inl g ↦ rw (e, f, g, aread_loop) (no_memory (record c { have_read = 0; received = [] }))
          | inr g ↦
              rw (e, f, g, aread_loop)
                (growing-Ends base fuel allocs (9 - allocs) gotdata c w (aread_loop-Ended base fuel)
                  v k (ground arith) room (rounds enough) low up)
        ]
      ]
    ]
  where
    no_memory : (d : Client) → Ended base c w (ReadResult.memory_error, d, w)
    no_memory d = record {
      advances = λ ne. absurd (ne refl);
      classed = tt;
      answered = omega arith;
      progress = λ h. cc;
    }

    enough_now :
        ltb c.have_read c.rbuf_size ≡ true → Enough (suc fuel) allocs c → 11 ≤ fuel + allocs
    enough_now e (inl l) = omega arith
    enough_now e (inr (l, same)) = ground arith

    rounds : Enough (suc fuel) allocs c → 11 ≤ fuel + (allocs + 1)
    rounds (inl l) = omega arith
    rounds (inr (l, same)) = omega arith

-- What aread is called on: a client that fits, with a buffer that ten doublings keep in 32 bits.
pub record Readable (c : Client) : Type 0 where
  pub fits : Fits c
  pub small : c.rbuf_size ≤ 2 ^ 21

pub aread-Ended : (c : Client) (w : World) → Readable c → Ended (pending w.reads) c w (aread c w)
unfolding aread
aread-Ended c w v =
    aread_loop-Ended (pending w.reads) 12 0 ReadResult.no_data_received c w v.fits tt (omega arith)
      (omega (arith, v.small)) (inl (omega arith)) (omega arith) (λ h. cc)
