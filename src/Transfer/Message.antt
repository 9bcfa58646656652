-- ===== src/Transfer/Message.antt =====
-- What aread of src/async_threads.cpp promises its caller, the state machine of a connection.
use gko_pool.Prelude.{
  ℕ, zero, suc, ◌+◌, ◌-◌, ◌%◌, ◌^◌, ◌≤◌, ◌<◌, ◌≡◌, ◌≢◌, refl, ap, arith, true, false, List, ◌∷◌,
  ◌++◌, if◌then◌else◌, take, length, length-take, subst, ltb, ◌==◌, ==_iff, length,
}
use gko_pool.Wire.{cmd_prefix_byte}
use gko_pool.Prelude.{sym, ◌∙◌}
use gko_pool.Client.{Client, World, Recv, bytes}
use gko_pool.Transfer.{
  ReadResult, classify, read_once, after_read, aread, Got, got, sys_read, sub_u32,
}
use gko_pool.Transfer.Stream.{pending, take_all, left_over}
use gko_pool.Transfer.Reading.{IsClassed, Fits, has_read, Advances, read_once-Once, taking, asked}
use gko_pool.Transfer.Completing.{
  Readable, aread-Ended, aread_loop_stops, aread_loop_goes_on, aread_loop_grows, grown, given,
  grow_memory, grown-Advances,
}

-- On a client whose bytes fit its buffer, of at most 2 ^ 21 bytes, and what it needs, aread ends
-- within twelve rounds, and the class that it returns is right: data_received and header_received
-- say that exactly the needed bytes are there, more than 10 or 10 of them, and need_more that some
-- are missing.
pub aread-IsClassed :
    (c : Client) (w : World)
    → Readable c
    → ((aread c w).0 ≢ ReadResult.out_of_fuel) × IsClassed (aread c w).0 (aread c w).1
aread-IsClassed c w v = (
  λ e. never (aread c w).0 (aread c w).1 e (aread-Ended c w v).classed,
  (aread-Ended c w v).classed,
)
  where
    never : (g : ReadResult) (d : Client) → g ≡ ReadResult.out_of_fuel → IsClassed g d → ⊥
    never ReadResult.out_of_fuel d e k = k
    never ReadResult.data_received d e k = absurd cc
    never ReadResult.header_received d e k = absurd cc
    never ReadResult.need_more d e k = absurd cc
    never ReadResult.no_data_received d e k = absurd cc
    never ReadResult.error d e k = absurd cc
    never ReadResult.memory_error d e k = absurd cc

-- On a client whose bytes fit its buffer, of at most 2 ^ 21 bytes, and what it needs, and unless
-- memory runs out, aread loses, repeats and reorders no byte: what the client holds followed
-- by what the socket still has to give is what it was. The bytes held still fit the buffer, grown or
-- not, and what the client needs, and their number is have_read; the state, the direction of the
-- connection and the number needed stay.
pub aread-Advances :
    (c : Client) (w : World)
    → Readable c
    → (aread c w).0 ≢ ReadResult.memory_error
    → Advances c w.reads (aread c w).1 (aread c w).2.reads
aread-Advances c w v ne = (aread-Ended c w v).advances ne

-- A call of aread that reports new bytes has taken some from the socket.
pub aread_progress :
    (c : Client) (w : World)
    → Readable c
    → has_read (aread c w).0 ≡ true
    → pending (aread c w).2.reads < pending w.reads
aread_progress c w v h = (aread-Ended c w v).progress h

-- A read of bytes that have come takes as many as it asks for.
sys_read_bytes :
    (n : ℕ) (d : List ℕ) (rest : List Recv)
    → 0 < n
    → (sys_read n (bytes d ∷ rest)).0 ≡ got (take n d)
unfolding sys_read
sys_read_bytes zero d rest l = absurd (omega arith)
sys_read_bytes (suc n) d rest l = refl

sys_read_rest :
    (n : ℕ) (d : List ℕ) (rest : List Recv)
    → 0 < n
    → (sys_read n (bytes d ∷ rest)).1 ≡ left_over n d rest
unfolding sys_read
sys_read_rest zero d rest l = absurd (omega arith)
sys_read_rest (suc n) d rest l = refl

-- The end of a round whose read took the bytes x.
after_read_bytes :
    (gotdata : ReadResult) (c : Client) (w : World) (r : Got × List Recv) (x : List ℕ)
    → r.0 ≡ got x
    → 0 < length x
    → after_read gotdata c w r ≡ (
      length x == sub_u32 c.rbuf_size c.have_read,
      classify (taking c x),
      taking c x,
      record w { reads = r.1 },
    )
unfolding after_read
after_read_bytes gotdata c w (g, rest) x e l =
    subst
      (λ g. after_read gotdata c w (g, rest) ≡ (
        length x == sub_u32 c.rbuf_size c.have_read,
        classify (taking c x),
        taking c x,
        record w { reads = rest },
      ))
      (sym e) (rw (nonzero) refl)
  where
    nonzero : (length x == 0) ≡ false
    nonzero = ground arith

-- A round that takes the rest of the message, where it has come and the buffer holds it.
read_once_message :
    (gotdata : ReadResult) (c : Client) (w : World) (d : List ℕ) (rest : List Recv)
    → Fits c
    → w.reads ≡ bytes d ∷ rest
    → c.have_read < c.need_read
    → c.need_read ≤ c.rbuf_size
    → c.need_read - c.have_read ≤ length d
    → let x = take (c.need_read - c.have_read) d in
      (reads' : List Recv) × (reads' ≡ left_over (c.need_read - c.have_read) d rest)
      × (read_once gotdata c w ≡ (
        c.need_read == c.rbuf_size,
        classify (taking c x),
        taking c x,
        record w { reads = reads' },
      ))
unfolding read_once
read_once_message gotdata c w d rest v e less fits all =
    let n = c.need_read - c.have_read in
    let (g, reads') = sys_read n (bytes d ∷ rest) in
    (
      reads',
      sys_read_rest n d rest (omega (arith, less)),
      ap (λ k. after_read gotdata c w (sys_read k w.reads)) asks
          ∙ ap (λ rs. after_read gotdata c w (sys_read n rs)) e
          ∙ after_read_bytes gotdata c w (g, reads') (take n d)
              (sys_read_bytes n d rest (omega (arith, less))) taken_some
          ∙ ap
              (λ b. (
                b,
                classify (taking c (take n d)),
                taking c (take n d),
                record w { reads = reads' },
              ))
              full,
    )
  where
    taken : length (take (c.need_read - c.have_read) d) ≡ c.need_read - c.have_read
    taken = omega (arith, length-take (c.need_read - c.have_read) d, all)

    taken_some : 0 < length (take (c.need_read - c.have_read) d)
    taken_some = omega (arith, taken, less)

    asks : asked c ≡ c.need_read - c.have_read
    asks = ground (arith, v.in_buffer, v.wanted, v.need_u32, v.size_u32, fits)

    full :
        (length (take (c.need_read - c.have_read) d) == sub_u32 c.rbuf_size c.have_read)
        ≡ (c.need_read == c.rbuf_size)
    full = ground (arith, taken, v.in_buffer, v.size_u32, fits, less)

-- A round when nothing more is needed: the read of no bytes counts as the end of the stream.
read_once_nothing :
    (gotdata : ReadResult) (c : Client) (w : World)
    → Fits c
    → c.have_read ≡ c.need_read
    → read_once gotdata c w ≡ (false, ReadResult.error, c, w)
unfolding read_once after_read sys_read
read_once_nothing gotdata c w v e = ap (λ k. after_read gotdata c w (sys_read k w.reads)) nothing
  where
    nothing : asked c ≡ 0
    nothing = ground (arith, e, v.in_buffer, v.wanted, v.need_u32, v.size_u32)

-- On a client whose bytes fit its buffer, of at most 2 ^ 21 bytes, and what it needs: where the bytes
-- that a message still lacks have come at once, the message has at least 10 bytes and the buffer is
-- larger than it, aread takes exactly those, reports the header or the data as complete, and what
-- the socket still has to give is the rest of the bytes that came and all that was to come.
pub aread_completes :
    (c : Client) (w : World) (d : List ℕ) (rest : List Recv)
    → Readable c
    → w.reads ≡ bytes d ∷ rest
    → c.have_read < c.need_read
    → c.need_read < c.rbuf_size
    → cmd_prefix_byte ≤ c.need_read
    → c.need_read - c.have_read ≤ length d
    → ((aread c w).0 ≡ (
        if c.need_read == cmd_prefix_byte
        then ReadResult.header_received
        else ReadResult.data_received))
      × ((aread c w).1.received ≡ c.received ++ take (c.need_read - c.have_read) d)
      × ((aread c w).2.reads ≡ left_over (c.need_read - c.have_read) d rest)
unfolding aread classify
aread_completes c w d rest v e less fits header all =
    let message =
      read_once_message ReadResult.no_data_received c w d rest v.fits e less (omega (arith, fits))
        all in
    let ends =
      aread_loop_stops 11 0 ReadResult.no_data_received (classify (taking c x)) c (taking c x) w
        (record w { reads = message.0 }) open_buffer
        (message.2
          ∙ ap (λ b. (b, classify (taking c x), taking c x, record w { reads = message.0 }))
              not_full) in
    (
      ap (λ r. r.0) ends ∙ complete,
      ap (λ r. r.1.received) ends,
      ap (λ r. r.2.reads) ends ∙ message.1,
    )
  where
    x : List ℕ
    x = take (c.need_read - c.have_read) d

    open_buffer : ltb c.have_read c.rbuf_size ≡ true
    open_buffer = ground arith

    not_full : (c.need_read == c.rbuf_size) ≡ false
    not_full = ground arith

    complete : classify (taking c x) ≡ (
        if c.need_read == cmd_prefix_byte
        then ReadResult.header_received
        else ReadResult.data_received)
    complete = ground (arith, length-take (c.need_read - c.have_read) d)

-- Where the message fills the buffer to its last byte and its bytes come at once, aread reports an
-- error, though no read failed: the loop goes on, the buffer is doubled, and a read of no bytes
-- is taken for the end of the stream.
pub aread_exact_fit :
    (c : Client) (w : World) (d : List ℕ) (rest : List Recv)
    → Readable c
    → w.reads ≡ bytes d ∷ rest
    → c.have_read < c.need_read
    → c.need_read ≡ c.rbuf_size
    → length d ≡ c.need_read - c.have_read
    → 0 < w.malloc
    → ((aread c w).0 ≡ ReadResult.error) × ((aread c w).1.received ≡ c.received ++ d)
unfolding aread classify
aread_exact_fit c w d rest v e less exact all memory =
    let n = c.need_read - c.have_read in
    let message =
      read_once_message ReadResult.no_data_received c w d rest v.fits e less (omega (arith, exact))
        (omega (arith, all)) in
    let c1 = taking c (take n d) in
    let w1 = record w { reads = message.0 } in
    let full =
      message.2 ∙ ap (λ b. (b, classify c1, c1, w1)) ((==_iff c.need_read c.rbuf_size).1 exact) in
    let goes_on =
      aread_loop_goes_on 11 0 ReadResult.no_data_received (classify c1) c c1 w w1
        (ground (arith, exact, less)) full in
    let fits =
      subst (λ r. Fits r.2) full
        (read_once-Once ReadResult.no_data_received c w v.fits).advances.fits in
    let have = filled (take n d) (omega (arith, length-take n d, all)) in
    let ends =
      aread_loop_grows 10 (classify c1) ReadResult.error c1 (grown c1 w1) w1 (given c1 w1)
        (ground (arith, have, exact)) (grow_memory c1 w1 memory)
        (read_once_nothing (classify c1) (grown c1 w1) (given c1 w1)
          (grown-Advances c1 w1 fits (omega (arith, v.small))).fits have) in
    (
      ap (λ r. r.0) (goes_on ∙ ends),
      ap (λ r. r.1.received) (goes_on ∙ ends)
          ∙ ap (λ x. c.received ++ x) (take_all n d (omega (arith, all))),
    )
  where
    filled :
        (x : List ℕ)
        → length x ≡ c.need_read - c.have_read
        → (c.have_read + length x) % 2 ^ 32 ≡ c.need_read
    filled x same = omega (arith, same, v.fits.need_u32, less)
