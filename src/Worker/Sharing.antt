-- ===== src/Worker/Sharing.antt =====
-- What follows for the connections of a worker from the blocks that they hold: src/async_conn.cpp and
-- src/async_threads.cpp on the allocator of src/memory.cpp.
use gko_pool.Prelude.{
  ℕ, suc, ◌+◌, ◌*◌, ◌<◌, ◌≤◌, ◌≡◌, ◌≢◌, refl, sym, ap, ◌∙◌, arith, List, [], ◌∷◌, ◌++◌, Option,
  none, some, length, subst,
}
use gko_pool.Alloc.{bucket_count, bucket_capacity, get_block}
use gko_pool.Alloc.Invariant.{bit_at}
use gko_pool.Alloc.Invariant.Counting.{count_zero}
use gko_pool.Alloc.Ownership.{occurrences, occurrences-append, Accounts}
use gko_pool.Alloc.Shares.{slot, get_block-Accounts, Accounts-available}
use gko_pool.Client.{Client, World, conn_buffer_init}
use gko_pool.Client.Keeping.{slots, conn_buffer_init-given}
use gko_pool.Machine.{Calls}
use gko_pool.Machine.Keeping.{IsSparing}
use gko_pool.Worker.{Reachable}
use gko_pool.Worker.Keeping.{
  all_slots, Reachable-AllOwned, occurrences-all_slots, no_block, AreBacked,
}

-- No block of a connection is another one's: in every state that a worker can reach, where the callback
-- leaves the connections' blocks alone and the resolver loses and shares none, the blocks for a
-- connection's reading and writing differ, and no other connection has either of them.
pub blocks_unshared :
    {calls : Calls} {w : World} (before after : List Client) (c : Client)
    → IsSparing calls
    → Reachable calls (w, before ++ c ∷ after)
    → (id : ℕ)
    → (occurrences id (slots c) ≤ 1)
      × (0 < occurrences id (slots c) → occurrences id (all_slots (before ++ after)) ≡ 0)
blocks_unshared {w = w} before after c sparing reached id =
    let here = (Reachable-AllOwned sparing reached).0.held id in
    let out = occurrences-all_slots id before after c in
    let rest = all_slots (before ++ after) in
    let one = occurrences-append id (slot c.r_buf_arena_id) (slot c.w_buf_arena_id ++ rest) in
    let two = occurrences-append id (slot c.w_buf_arena_id) rest in
    let both = occurrences-append id (slot c.r_buf_arena_id) (slot c.w_buf_arena_id) in
    (
      omega (arith, here, out, one, two, both),
      λ held. omega (arith, here, out, one, two, both, held),
    )

-- The connections of a list have no buffers.
abbrev pub AreFreed : List Client → Type 0
AreFreed [] = Unit
AreFreed (c ∷ conns) = (c.read_buffer ≡ 0) × (c.send_buffer ≡ 0) × AreFreed conns

freed_slots :
    (w : World) (conns : List Client) → AreFreed conns → AreBacked conns → all_slots conns ≡ []
freed_slots w [] f b = refl
freed_slots w (c ∷ conns) f b =
    let r_none = no_block c.r_buf_arena_id c.read_buffer f.0 b.0.0 in
    let w_none = no_block c.w_buf_arena_id c.send_buffer f.1 b.0.1 in
    rw (r_none, w_none) (freed_slots w conns f.2 b.1)

-- No block is lost: when the connections of a worker have all been freed, in a state that it reached in
-- any way, where the callback leaves the connections' blocks alone and the resolver loses and shares
-- none, all bits of the allocator's map are 0 and so is the count of each bucket.
pub blocks_drained :
    {calls : Calls} {w : World} {conns : List Client}
    → IsSparing calls
    → Reachable calls (w, conns)
    → AreFreed conns
    → ((id : ℕ) → bit_at w.mem.m_map id ≡ 0)
      × ((b : ℕ) → b < bucket_count → w.mem.bucket_used b ≡ 0)
blocks_drained {w = w} {conns = conns} sparing reached freed = (
  clear,
  λ b small.
      v.well_formed.counted b small
      ∙ count_zero (bit_at w.mem.m_map) (b * bucket_capacity) bucket_capacity clear,
)
  where
    v : Accounts w.mem (all_slots conns)
    v = (Reachable-AllOwned sparing reached).0

    clear : (id : ℕ) → bit_at w.mem.m_map id ≡ 0
    clear id =
        sym (v.held id)
        ∙ ap (occurrences id) (freed_slots w conns freed (Reachable-AllOwned sparing reached).1)

length-slots : (o : Option ℕ) (xs : List ℕ) → length (slot o ++ xs) ≤ suc (length xs)
length-slots none xs = omega arith
length-slots (some id) xs = omega arith

length-all_slots : (conns : List Client) → length (all_slots conns) ≤ 2 * length conns
length-all_slots [] = omega arith
length-all_slots (c ∷ conns) =
    let rest = all_slots conns in
    omega (
      arith,
      length-all_slots conns,
      length-slots c.r_buf_arena_id (slot c.w_buf_arena_id ++ rest),
      length-slots c.w_buf_arena_id rest,
    )

-- conn_buffer_init does not abort for want of blocks while the allocator has two blocks for each of the
-- worker's connections and the new one, in every state that the worker can reach, where posix_memalign
-- gives memory, the callback leaves the connections' blocks alone and the resolver loses and shares none.
pub conn_buffer_init_served :
    {calls : Calls} {w : World} {conns : List Client} (c : Client)
    → IsSparing calls
    → Reachable calls (w, conns)
    → w.memalign ≢ 0
    → 2 * (length conns + 1) ≤ bucket_count * bucket_capacity
    → (r : Client × World) × (conn_buffer_init c w ≡ some r)
conn_buffer_init_served {w = w} {conns = conns} c sparing reached memory room =
    let v = (Reachable-AllOwned sparing reached).0 in
    let few = length-all_slots conns in
    let (r, e) =
      Accounts-available w.mem (all_slots conns) w.memalign v memory (omega (arith, few, room)) in
    let v1 =
      subst (λ o. Accounts (get_block w.mem w.memalign).0 (slot o ++ all_slots conns)) e
        (get_block-Accounts w.mem w.memalign (all_slots conns) v) in
    let (s, e') =
      Accounts-available (get_block w.mem w.memalign).0 (r ∷ all_slots conns) w.memalign v1 memory
        (omega (arith, few, room)) in
    conn_buffer_init-given c w r s e e'
