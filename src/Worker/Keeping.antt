-- ===== src/Worker/Keeping.antt =====
-- The blocks of a worker's connections, src/async_threads.cpp and src/async_conn.cpp: none is lost and
-- none is shared.
use gko_pool.Prelude.{ℕ, ◌≡◌, ◌≢◌, refl, sym, arith, List, [], ◌∷◌, ◌++◌, Option, none, some, subst}
use gko_pool.Alloc.{Alloc, new}
use gko_pool.Alloc.Ownership.{occurrences, occurrences-append, Accounts, start, History-Accounts}
use gko_pool.Alloc.Shares.{slot, Accounts-same}
use gko_pool.Client.{Client, World}
use gko_pool.Client.Keeping.{Owned, OwnedIfAny, Spares-Owned, conn_buffer_init-Owned}
use gko_pool.Machine.{Calls, state_machine}
use gko_pool.Machine.Keeping.{IsSparing, state_machine-Owned}
use gko_pool.Resolver.{dns_callback, dns_ev_callback}
use gko_pool.Resolver.Answers.{dns_callback-Owned, dns_ev_callback-Owned}
use gko_pool.Pool.Keeping.{ProcessOwned, clean_one-Owned, coming-Owned, active-Owned}
use gko_pool.Pool.{clean_one}
use gko_pool.Worker.{
  Worker, Step, waits, accepts, prepares, connects, serves, answers, resolves, cleans, leaves,
  Reachable, starts, steps,
}

-- The slots that a list of connections holds.
abbrev pub all_slots : List Client → List ℕ
all_slots [] = []
all_slots (c ∷ conns) = slot c.r_buf_arena_id ++ (slot c.w_buf_arena_id ++ all_slots conns)

-- A buffer of a block has an address.
abbrev pub IsBacked : Client → Type 0
IsBacked c =
    (c.r_buf_arena_id ≢ none → c.read_buffer ≢ 0) × (c.w_buf_arena_id ≢ none → c.send_buffer ≢ 0)

abbrev pub AreBacked : List Client → Type 0
AreBacked [] = Unit
AreBacked (c ∷ conns) = IsBacked c × AreBacked conns

-- What holds in every state of a worker.
abbrev pub AllOwned : Worker → Type 0
AllOwned (w, conns) = Accounts w.mem (all_slots conns) × AreBacked conns

-- One connection out of the list, and back.
pub occurrences-all_slots :
    (id : ℕ) (before after : List Client) (c : Client)
    → occurrences id (all_slots (before ++ c ∷ after))
      ≡ occurrences id
          (slot c.r_buf_arena_id ++ (slot c.w_buf_arena_id ++ all_slots (before ++ after)))
occurrences-all_slots id [] after c = refl
occurrences-all_slots id (d ∷ before) after c =
    let rest = all_slots (before ++ after) in
    let rest' = all_slots (before ++ c ∷ after) in
    omega (
      arith,
      occurrences-all_slots id before after c,
      occurrences-append id (slot d.r_buf_arena_id) (slot d.w_buf_arena_id ++ rest'),
      occurrences-append id (slot d.w_buf_arena_id) rest',
      occurrences-append id (slot d.r_buf_arena_id) (slot d.w_buf_arena_id ++ rest),
      occurrences-append id (slot d.w_buf_arena_id) rest,
      occurrences-append id (slot c.r_buf_arena_id) (slot c.w_buf_arena_id ++ rest),
      occurrences-append id (slot c.w_buf_arena_id) rest,
      occurrences-append id (slot c.r_buf_arena_id)
          (slot c.w_buf_arena_id ++ (slot d.r_buf_arena_id ++ (slot d.w_buf_arena_id ++ rest))),
      occurrences-append id (slot c.w_buf_arena_id)
          (slot d.r_buf_arena_id ++ (slot d.w_buf_arena_id ++ rest)),
    )

IsBacked-here :
    (before after : List Client) (c : Client) → AreBacked (before ++ c ∷ after) → IsBacked c
IsBacked-here [] after c b = b.0
IsBacked-here (d ∷ before) after c b = IsBacked-here before after c b.1

AreBacked-others :
    (before after : List Client) (c : Client)
    → AreBacked (before ++ c ∷ after)
    → AreBacked (before ++ after)
AreBacked-others [] after c b = b.1
AreBacked-others (d ∷ before) after c b = (b.0, AreBacked-others before after c b.1)

AreBacked-back :
    (before after : List Client) (c : Client)
    → IsBacked c
    → AreBacked (before ++ after)
    → AreBacked (before ++ c ∷ after)
AreBacked-back [] after c here others = (here, others)
AreBacked-back (d ∷ before) after c here others =
    (others.0, AreBacked-back before after c here others.1)

take_out :
    (w : World) (before after : List Client) (c : Client)
    → AllOwned (w, before ++ c ∷ after)
    → Owned c w (all_slots (before ++ after))
take_out w before after c o =
    let here = IsBacked-here before after c o.1 in
    (
      Accounts-same w.mem (all_slots (before ++ c ∷ after)) _
          (λ id. sym (occurrences-all_slots id before after c)) o.0,
      here.0,
      here.1,
    )

put_back :
    (w : World) (before after : List Client) (c : Client)
    → Owned c w (all_slots (before ++ after))
    → AreBacked (before ++ after)
    → AllOwned (w, before ++ c ∷ after)
put_back w before after c o others = (
  Accounts-same w.mem _ (all_slots (before ++ c ∷ after))
      (λ id. occurrences-all_slots id before after c) o.0,
  AreBacked-back before after c (o.1, o.2) others,
)

-- A call on one connection that keeps what it and the others hold.
on_one :
    (w w' : World) (before after : List Client) (c c' : Client)
    → ((others : List ℕ) → Owned c w others → Owned c' w' others)
    → AllOwned (w, before ++ c ∷ after)
    → AllOwned (w', before ++ c' ∷ after)
on_one w w' before after c c' keeps o =
    put_back w' before after c' (keeps (all_slots (before ++ after)) (take_out w before after c o))
      (AreBacked-others before after c o.1)

-- A buffer that has no address has no block.
pub no_block :
    (arena_id : Option ℕ) (buffer : ℕ)
    → buffer ≡ 0
    → (arena_id ≢ none → buffer ≢ 0)
    → arena_id ≡ none
no_block none buffer null has = refl
no_block (some id) buffer null has = absurd (has (λ e. cc) null)

-- Every step keeps it.
Step-AllOwned :
    {calls : Calls} {s s' : Worker} → IsSparing calls → Step calls s s' → AllOwned s → AllOwned s'
Step-AllOwned sparing (waits w' same) o = (rw same o.0, o.1)
Step-AllOwned {calls = calls} sparing (accepts {w} {conns} fuel worker_id c_id c coming e) o =
    let new_one =
      subst (ProcessOwned (all_slots conns)) e
        (coming-Owned calls fuel worker_id c_id c w (all_slots conns) coming o.0) in
    (new_one.0, ((new_one.1, new_one.2), o.1))
Step-AllOwned sparing (prepares {w} {conns} c {c1} {c'} {w1} e same) o =
    let ready =
      subst (OwnedIfAny (all_slots conns)) e (conn_buffer_init-Owned c w (all_slots conns) o.0) in
    let new_one = Spares-Owned c1 w1 c' w1 (all_slots conns) same ready in
    (new_one.0, ((new_one.1, new_one.2), o.1))
Step-AllOwned {calls = calls} sparing
      (connects {w} before after fuel worker_id c_id c {next} {c'} {w'} active e) o =
    on_one w w' before after c c'
      (λ others here.
        subst (ProcessOwned others) e
          (active-Owned calls fuel worker_id c_id c w others sparing active here))
      o
Step-AllOwned {calls = calls} sparing (serves {w} before after fuel c) o =
    on_one w ((state_machine calls fuel c w).2) before after c ((state_machine calls fuel c w).1)
      (λ others here. state_machine-Owned calls fuel c w others sparing here) o
Step-AllOwned {calls = calls} sparing (answers {w} before after fuel answer c) o =
    let r = dns_callback calls fuel answer c w in
    on_one w r.2 before after c r.1
      (λ others here. dns_callback-Owned calls fuel answer c w others sparing here) o
Step-AllOwned {calls = calls} sparing (resolves {w} before after fuel processed ev c) o =
    let r = dns_ev_callback calls fuel processed ev c w in
    on_one w r.2 before after c r.1
      (λ others here. dns_ev_callback-Owned calls fuel processed ev c w others sparing here) o
Step-AllOwned sparing (cleans {w} before after c) o =
    on_one w ((clean_one c.type c.state c w).2) before after c ((clean_one c.type c.state c w).1)
      (λ others here. clean_one-Owned c.type c.state c w others here) o
Step-AllOwned sparing (leaves {w} before after c r_null w_null) o =
    let here = take_out w before after c o in
    let r_none = no_block c.r_buf_arena_id c.read_buffer r_null here.1 in
    let w_none = no_block c.w_buf_arena_id c.send_buffer w_null here.2 in
    (
      subst (λ r. Accounts w.mem (slot r ++ all_slots (before ++ after))) w_none
          (subst
            (λ r. Accounts w.mem (slot r ++ (slot c.w_buf_arena_id ++ all_slots (before ++ after))))
            r_none here.0),
      AreBacked-others before after c o.1,
    )

-- In every state that a worker can reach, where the callback leaves the connections' blocks alone and the
-- resolver loses and shares none, the allocator is well formed, a block's bit in its map is 1 where a
-- connection holds it and 0 where none does, and the buffers that have a block have an address.
pub Reachable-AllOwned :
    {calls : Calls} {s : Worker} → IsSparing calls → Reachable calls s → AllOwned s
Reachable-AllOwned sparing (starts {w} fresh) = (empty w.mem fresh, tt)
  where
    empty : (mem : Alloc) → mem ≡ new → Accounts mem []
    empty mem fresh = subst (λ a. Accounts a []) (sym fresh) (History-Accounts start)
Reachable-AllOwned sparing (steps reached step) =
    Step-AllOwned sparing step (Reachable-AllOwned sparing reached)
