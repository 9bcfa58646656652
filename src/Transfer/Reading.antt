-- ===== src/Transfer/Reading.antt =====
-- aread of src/async_threads.cpp: the bytes that it takes from the socket, and when it ends.
use mathlib.Core.List.{append_assoc}
use gko_pool.Prelude.{
  ℕ, ◌+◌, ◌%◌, ◌^◌, ◌≤◌, ◌<◌, ◌≡◌, ◌⊎◌, refl, ap, ◌∙◌, inl, inr, arith, Bool, true, false, List, [],
  ◌∷◌, ◌++◌, ◌==◌, ==_iff, Bool-cases, length, length-append,
}
use gko_pool.Wire.{cmd_prefix_byte}
use gko_pool.Transfer.Stream.{stream, pending, Reads, sys_read-Reads}
use gko_pool.Client.{Client, World, Recv}
use gko_pool.Transfer.{
  ReadResult, Got, got, again, failed, sys_read, classify, read_once, sub_u32, min_u, after_read,
}

-- A client between two reads: what it has fits its buffer and what it needs.
pub record Fits (c : Client) : Type 0 where
  pub in_buffer : c.have_read ≤ c.rbuf_size
  pub wanted : c.have_read ≤ c.need_read
  pub need_u32 : c.need_read < 2 ^ 32
  pub size_u32 : c.rbuf_size < 2 ^ 32
  pub counted : length c.received ≡ c.have_read

-- A class that says that bytes were read.
abbrev pub has_read : ReadResult → Bool
has_read ReadResult.data_received = true
has_read ReadResult.header_received = true
has_read ReadResult.need_more = true
has_read _ = false

-- How reading takes a client and its socket from one state to another.
pub record Advances (c : Client) (reads : List Recv) (c' : Client) (reads' : List Recv)
    : Type 0 where
  pub fits : Fits c'
  pub same_need : c'.need_read ≡ c.need_read
  pub same_state : c'.state ≡ c.state
  pub same_type : c'.type ≡ c.type
  pub bytes_kept : c'.received ++ stream reads' ≡ c.received ++ stream reads
  pub answered : pending reads' ≤ pending reads

pub Advances-refl : (c : Client) (reads : List Recv) → Fits c → Advances c reads c reads
Advances-refl c reads v = record {
  fits = v;
  same_need = refl;
  same_state = refl;
  same_type = refl;
  bytes_kept = refl;
  answered = omega arith;
}

pub Advances-trans :
    {c d e : Client} {p q r : List Recv} → Advances c p d q → Advances d q e r → Advances c p e r
Advances-trans a b = record {
  fits = b.fits;
  same_need = b.same_need ∙ a.same_need;
  same_state = b.same_state ∙ a.same_state;
  same_type = b.same_type ∙ a.same_type;
  bytes_kept = b.bytes_kept ∙ a.bytes_kept;
  answered = omega (arith, a.answered, b.answered);
}

-- What a class says of the client.
abbrev pub IsClassed : ReadResult → Client → Type 0
IsClassed ReadResult.data_received c = (c.have_read ≡ c.need_read) × (cmd_prefix_byte < c.need_read)
IsClassed ReadResult.header_received c =
    (c.have_read ≡ c.need_read) × (c.need_read ≡ cmd_prefix_byte)
IsClassed ReadResult.need_more c = c.have_read < c.need_read
IsClassed ReadResult.out_of_fuel c = ⊥
IsClassed ReadResult.memory_error c = Unit
IsClassed ReadResult.error c = Unit
IsClassed ReadResult.no_data_received c = Unit

classify-IsClassed : (c : Client) → c.have_read ≤ c.need_read → IsClassed (classify c) c
unfolding classify
classify-IsClassed c h = ground arith

-- What one read does, its class included.
pub record Once (gotdata : ReadResult) (c : Client) (w : World)
    (r : Bool × ReadResult × Client × World) : Type 0 where
  pub advances : Advances c w.reads r.2 r.3.reads
  pub full : r.0 ≡ true → r.2.have_read ≡ r.2.rbuf_size
  pub classed : IsClassed gotdata c → IsClassed r.1 r.2
  pub same_size : r.2.rbuf_size ≡ c.rbuf_size
  pub progress : has_read r.1 ≡ true → (pending r.3.reads < pending w.reads) ⊎ (r.1 ≡ gotdata)

-- The size that a read asks for.
abbrev pub asked : Client → ℕ
asked c = min_u (sub_u32 c.need_read c.have_read) (sub_u32 c.rbuf_size c.have_read)

asked_lem :
    (c : Client)
    → Fits c
    → (c.have_read + asked c ≤ c.rbuf_size) × (c.have_read + asked c ≤ c.need_read)
asked_lem c v = ground (arith, v.in_buffer, v.wanted, v.need_u32, v.size_u32)

-- The client with the bytes of one read.
abbrev pub taking : Client → List ℕ → Client
taking c d = record c { have_read = (c.have_read + length d) % 2 ^ 32; received = c.received ++ d }

taking-Advances :
    (c : Client) (d : List ℕ) (reads rest : List Recv)
    → Fits c
    → Reads (asked c) reads (got d, rest)
    → Advances c reads (taking c d) rest
taking-Advances c d reads rest v (small, kept, less, _) = record {
  fits = record {
    in_buffer = omega (arith, asked_lem c v, v.size_u32);
    wanted = omega (arith, asked_lem c v, v.need_u32);
    need_u32 = v.need_u32;
    size_u32 = v.size_u32;
    counted = omega (arith, length-append c.received d, v.counted, asked_lem c v, v.size_u32);
  };
  same_need = refl;
  same_state = refl;
  same_type = refl;
  bytes_kept = append_assoc c.received d (stream rest) ∙ ap (λ l. c.received ++ l) kept;
  answered = less;
}

moving-Advances :
    (c : Client) (reads rest : List Recv)
    → Fits c
    → stream rest ≡ stream reads
    → pending rest ≤ pending reads
    → Advances c reads c rest
moving-Advances c reads rest v kept less = record {
  fits = v;
  same_need = refl;
  same_state = refl;
  same_type = refl;
  bytes_kept = ap (λ l. c.received ++ l) kept;
  answered = less;
}

after_read-Once :
    (gotdata : ReadResult) (c : Client) (w : World) (r : Got × List Recv)
    → Fits c
    → Reads (asked c) w.reads r
    → Once gotdata c w (after_read gotdata c w r)
unfolding after_read
after_read-Once gotdata c w (again, rest) v (kept, less) = record {
  advances = moving-Advances c w.reads rest v kept less;
  full = λ e. cc;
  classed = λ k. k;
  same_size = refl;
  progress = λ e. inr refl;
}
after_read-Once gotdata c w (failed, rest) v (kept, less) = record {
  advances = moving-Advances c w.reads rest v kept less;
  full = λ e. cc;
  classed = λ _. tt;
  same_size = refl;
  progress = λ e. cc;
}
after_read-Once gotdata c w (got d, rest) v (small, kept, less, fewer) =
    elim (Bool-cases (length d == 0)) [
      | inl e ↦ rw e (record {
        advances =
            moving-Advances c w.reads rest v (nothing d ((==_iff (length d) 0).0 e) kept) less;
        full = λ f. cc;
        classed = λ _. tt;
        same_size = refl;
        progress = λ f. cc;
      })
      | inr e ↦ rw e (record {
        advances = taking-Advances c d w.reads rest v (small, kept, less, fewer);
        full = λ f. ground (arith, asked_lem c v, v.size_u32, v.in_buffer);
        classed = λ _. classify-IsClassed (taking c d) (omega (arith, asked_lem c v, v.need_u32));
        same_size = refl;
        progress = λ _. inl (fewer (ground arith));
      })
    ]
  where
    nothing :
        (d : List ℕ)
        → length d ≡ 0
        → d ++ stream rest ≡ stream w.reads
        → stream rest ≡ stream w.reads
    nothing [] z k = k
    nothing (x ∷ d) z k = absurd (omega arith)

pub read_once-Once :
    (gotdata : ReadResult) (c : Client) (w : World)
    → Fits c
    → Once gotdata c w (read_once gotdata c w)
unfolding read_once
read_once-Once gotdata c w v =
    after_read-Once gotdata c w (sys_read (asked c) w.reads) v (sys_read-Reads (asked c) w.reads)
