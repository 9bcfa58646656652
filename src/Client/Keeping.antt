-- ===== src/Client/Keeping.antt =====
-- The blocks that a connection has for its buffers, src/async_conn.cpp: the calls that take them and
-- give them back lose none and share none.
use gko_pool.Prelude.{
  ℕ, ◌+◌, ◌≡◌, ◌≢◌, refl, inl, inr, arith, List, ◌∷◌, ◌++◌, Option, none, some, ◌==◌, Bool-cases,
}
use gko_pool.Alloc.{Alloc, get_block}
use gko_pool.Alloc.Ownership.{Accounts}
use gko_pool.Alloc.Shares.{
  slot, Accounts-swap, get_block-Accounts, free_block-Accounts, get_block-backed, id2addr_held,
}
use gko_pool.Prelude.Int.{pos_part, neg_part}
use gko_pool.Client.{
  Client, World, State, give_back, arena_after, conn_client_clear, conn_client_free, with_buffers,
  conn_buffer_init, conn_renew, conn_set_state, false,
}

-- The slots that a client holds, and a client whose buffers with a block have an address.
abbrev pub slots : Client → List ℕ
slots c = slot c.r_buf_arena_id ++ slot c.w_buf_arena_id

-- A buffer goes back, and the client has no block of the arena then.
pub give_back-Accounts :
    (a : Alloc) (arena_id : Option ℕ) (buffer : ℕ) (others : List ℕ)
    → (arena_id ≢ none → buffer ≢ 0)
    → Accounts a (slot arena_id ++ others)
    → Accounts (give_back a arena_id buffer) others
unfolding give_back
give_back-Accounts a none buffer others has v = elim (Bool-cases (buffer == 0)) [
  | inl e ↦ rw e v
  | inr e ↦ rw e (free_block-Accounts a none others v)
]
give_back-Accounts a (some id) buffer others has v =
    let used : (buffer == 0) ≡ false = ground (arith, has (λ e. cc)) in
    rw used (free_block-Accounts a (some id) others v)

pub arena_after-none :
    (arena_id : Option ℕ) (buffer : ℕ)
    → (arena_id ≢ none → buffer ≢ 0)
    → arena_after arena_id buffer ≡ none
unfolding arena_after
arena_after-none none buffer has = ground arith
arena_after-none (some id) buffer has = ground (arith, has (λ e. cc))

-- A connection's slots and those that others hold, in the allocator of its worker.
abbrev pub Owned : Client → World → List ℕ → Type 0
Owned c w others =
    Accounts w.mem (slot c.r_buf_arena_id ++ (slot c.w_buf_arena_id ++ others))
    × (c.r_buf_arena_id ≢ none → c.read_buffer ≢ 0)
    × (c.w_buf_arena_id ≢ none → c.send_buffer ≢ 0)

-- A call that neither touches the buffers nor the allocator.
abbrev pub Spares : Client → World → Client → World → Type 0
Spares c w c' w' =
    (c'.r_buf_arena_id ≡ c.r_buf_arena_id)
    × (c'.read_buffer ≡ c.read_buffer)
    × (c'.w_buf_arena_id ≡ c.w_buf_arena_id)
    × (c'.send_buffer ≡ c.send_buffer)
    × (w'.mem ≡ w.mem)

pub Spares-Owned :
    (c : Client) (w : World) (c' : Client) (w' : World) (others : List ℕ)
    → Spares c w c' w'
    → Owned c w others
    → Owned c' w' others
Spares-Owned c w c' w' others s o = (rw (s.4, s.0, s.2) o.0, rw (s.0, s.1) o.1, rw (s.2, s.3) o.2)

pub conn_set_state-Spares :
    (c : Client) (w : World) (state : State)
    → let r = conn_set_state c w state in Spares c w r.0 r.1
unfolding conn_set_state
conn_set_state-Spares c w state =
    (ground arith, ground arith, ground arith, ground arith, ground arith)

-- The slots of a connection that has none are those of the others.
pub conn_client_clear-Owned :
    (c : Client) (w : World) (others : List ℕ)
    → Owned c w others
    → let r = conn_client_clear c w in
      Owned r.0 r.1 others × (r.0.r_buf_arena_id ≡ none) × (r.0.w_buf_arena_id ≡ none)
unfolding conn_client_clear
conn_client_clear-Owned c w others o =
    let r_none = arena_after-none c.r_buf_arena_id c.read_buffer o.1 in
    let w_none = arena_after-none c.w_buf_arena_id c.send_buffer o.2 in
    let one =
      give_back-Accounts w.mem c.r_buf_arena_id c.read_buffer (slot c.w_buf_arena_id ++ others) o.1
        o.0 in
    let both = give_back-Accounts _ c.w_buf_arena_id c.send_buffer others o.2 one in
    (
      (rw (r_none, w_none) both, (λ held. absurd (held r_none)), (λ held. absurd (held w_none))),
      r_none,
      w_none,
    )

pub conn_client_free-Owned :
    (c : Client) (w : World) (others : List ℕ)
    → Owned c w others
    → let r = conn_client_free c w in Owned r.0 r.1 others
unfolding conn_client_free
conn_client_free-Owned c w others o =
    elim (Bool-cases (pos_part c.client_fd + neg_part c.client_fd == 0)) [
      | inl e ↦ rw e o
      | inr e ↦
          let cleared = (conn_client_clear-Owned c w others o).0 in
          rw e ((cleared.0, cleared.1, cleared.2))
    ]

pub conn_renew-Owned :
    (c : Client) (w : World) (others : List ℕ)
    → Owned c w others
    → let r = conn_renew c w in Owned r.0 r.1 others
unfolding conn_renew
conn_renew-Owned c w others o =
    let mem = give_back w.mem c.r_buf_arena_id c.read_buffer in
    let v : Accounts mem (slot c.w_buf_arena_id ++ others) =
      give_back-Accounts w.mem c.r_buf_arena_id c.read_buffer (slot c.w_buf_arena_id ++ others) o.1
        o.0 in
    let (mem1, r_id) = get_block mem w.memalign in
    let v1 : Accounts mem1 (slot c.w_buf_arena_id ++ (slot r_id ++ others)) =
      Accounts-swap mem1 r_id c.w_buf_arena_id others
        (get_block-Accounts mem w.memalign (slot c.w_buf_arena_id ++ others) v) in
    let mem2 = give_back mem1 c.w_buf_arena_id c.send_buffer in
    let v2 : Accounts mem2 (slot r_id ++ others) =
      give_back-Accounts mem1 c.w_buf_arena_id c.send_buffer (slot r_id ++ others) o.2 v1 in
    let (mem3, w_id) = get_block mem2 w.memalign in
    (
      Accounts-swap mem3 w_id r_id others
          (get_block-Accounts mem2 w.memalign (slot r_id ++ others) v2),
      get_block-backed mem w.memalign (slot c.w_buf_arena_id ++ others) v,
      get_block-backed mem2 w.memalign (slot r_id ++ others) v2,
    )

-- A result that is owned, if there is one.
abbrev pub OwnedIfAny : List ℕ → Option (Client × World) → Type 0
OwnedIfAny others none = Unit
OwnedIfAny others (some (c, w)) = Owned c w others

with_buffers-Owned :
    (c : Client) (w : World) (mem : Alloc) (r_id w_id : Option ℕ) (others : List ℕ)
    → Accounts mem (slot r_id ++ (slot w_id ++ others))
    → OwnedIfAny others (with_buffers c w mem r_id w_id)
unfolding with_buffers
with_buffers-Owned c w mem none w_id others v = tt
with_buffers-Owned c w mem (some r) none others v = tt
with_buffers-Owned c w mem (some r) (some s) others v = (
  v,
  (λ held. id2addr_held mem (r ∷ s ∷ others) r v (ground arith)),
  (λ held. id2addr_held mem (r ∷ s ∷ others) s v (ground arith)),
)

-- A connection that conn_buffer_init gives its buffers, which had no block before, owns both blocks.
pub conn_buffer_init-Owned :
    (c : Client) (w : World) (others : List ℕ)
    → Accounts w.mem others
    → OwnedIfAny others (conn_buffer_init c w)
unfolding conn_buffer_init
conn_buffer_init-Owned c w others v =
    let (mem, r_id) = get_block w.mem w.memalign in
    let (mem', w_id) = get_block mem w.memalign in
    with_buffers-Owned c w mem' r_id w_id others (
      Accounts-swap mem' w_id r_id others (
        get_block-Accounts mem w.memalign (slot r_id ++ others)
          (get_block-Accounts w.mem w.memalign others v)))

-- With two blocks conn_buffer_init succeeds.
pub conn_buffer_init-given :
    (c : Client) (w : World) (r s : ℕ)
    → (get_block w.mem w.memalign).1 ≡ some r
    → (get_block (get_block w.mem w.memalign).0 w.memalign).1 ≡ some s
    → (result : Client × World) × (conn_buffer_init c w ≡ some result)
unfolding conn_buffer_init with_buffers
conn_buffer_init-given c w r s e e' = rw (e', e) (_, refl)
