-- ===== src/Transfer/Keeping.antt =====
-- The blocks of a connection while aread and awrite of src/async_threads.cpp work on it.
use gko_pool.Prelude.{
  ℕ, ◌+◌, refl, inl, inr, arith, List, [], ◌∷◌, ◌++◌, ◌==◌, ◌%◌, ◌^◌, Bool-cases,
}
use gko_pool.Alloc.Shares.{slot, free_block-Accounts}
use gko_pool.Client.{Client, World, Send, takes, Recv}
use gko_pool.Transfer.Loop.{IfAny, aread-keeps}
use gko_pool.Client.Keeping.{Owned, Spares, Spares-Owned}
use gko_pool.Transfer.{
  ReadResult, WriteResult, Got, grow, sys_read, after_read, read_once, aread, awrite_loop, awrite,
  min_u, sub_u32,
}

grow-Owned :
    (c : Client) (w : World) (others : List ℕ)
    → Owned c w others
    → IfAny (λ c w. Owned c w others) (grow c w)
unfolding grow
grow-Owned c w others o = elim (Bool-cases (w.malloc == 0)) [
  | inl e ↦ rw (e, IfAny) tt
  | inr e ↦
      rw (e, IfAny)
        ((
          free_block-Accounts w.mem c.r_buf_arena_id (slot c.w_buf_arena_id ++ others) o.0,
          (λ held. absurd (held refl)),
          o.2,
        ))
]

after_read-Spares :
    (gotdata : ReadResult) (c : Client) (w : World) (g : Got × List Recv)
    → let r = after_read gotdata c w g in Spares c w r.2 r.3
unfolding after_read
after_read-Spares gotdata c w g =
    (ground arith, ground arith, ground arith, ground arith, ground arith)

read_once-Owned :
    (gotdata : ReadResult) (c : Client) (w : World) (others : List ℕ)
    → Owned c w others
    → let r = read_once gotdata c w in Owned r.2 r.3 others
unfolding read_once
read_once-Owned gotdata c w others o =
    let g =
      sys_read (min_u (sub_u32 c.need_read c.have_read) (sub_u32 c.rbuf_size c.have_read))
        w.reads in
    let r = after_read gotdata c w g in
    Spares-Owned c w r.2 r.3 others (after_read-Spares gotdata c w g) o

pub aread-Owned :
    (c : Client) (w : World) (others : List ℕ)
    → Owned c w others
    → let r = aread c w in Owned r.1 r.2 others
aread-Owned c w others o =
    aread-keeps (λ c w. Owned c w others) (λ c w. grow-Owned c w others)
      (λ g c w. read_once-Owned g c w others) (λ c w o. (o.0, o.1, o.2)) c w o

awrite_loop-Spares :
    (res : WriteResult) (c : Client) (w : World) (sends : List Send)
    → Spares c w ((awrite_loop res c sends).1) w
unfolding awrite_loop
awrite_loop-Spares res c w [] = (refl, refl, refl, refl, refl)
awrite_loop-Spares res c w (Send.retry ∷ sends) = (refl, refl, refl, refl, refl)
awrite_loop-Spares res c w (Send.broken ∷ sends) = (refl, refl, refl, refl, refl)
awrite_loop-Spares res c w (takes n ∷ sends) =
    let c' = record c {
      have_write = (c.have_write + min_u n (sub_u32 c.need_send c.have_write)) % 2 ^ 32;
    } in
    let more = awrite_loop-Spares WriteResult.sent_more c' w sends in
    let beyond = awrite_loop-Spares res c' w sends in
    (
      ground (arith, more.0, beyond.0),
      ground (arith, more.1, beyond.1),
      ground (arith, more.2, beyond.2),
      ground (arith, more.3, beyond.3),
      refl,
    )

pub awrite-Spares : (c : Client) (w : World) → Spares c w ((awrite c w).1) ((awrite c w).2)
unfolding awrite
awrite-Spares c w =
    let loop = awrite_loop-Spares WriteResult.no_data_sent c w w.sends in
    elim (Bool-cases (sub_u32 c.need_send c.have_write == 0)) [
      | inl e ↦ rw e ((refl, refl, refl, refl, refl))
      | inr e ↦ rw e ((loop.0, loop.1, loop.2, loop.3, refl))
    ]
