-- ===== src/Transfer/Same.antt =====
-- aread and awrite of src/async_threads.cpp leave the connection's state and its direction alone.
use gko_pool.Prelude.{
  ◌+◌, ◌%◌, ◌^◌, ◌≡◌, refl, ◌∙◌, inl, inr, arith, List, [], ◌∷◌, ◌==◌, Bool-cases,
}
use gko_pool.Client.{Client, World, State, ConnType, Send, takes}
use gko_pool.Transfer.{
  ReadResult, WriteResult, grow, read_once, after_read, aread, awrite, awrite_loop, min_u, sub_u32,
}
use gko_pool.Transfer.Loop.{IfAny, aread-keeps}
use gko_pool.Transfer.Writing.{awrite-state}

read_once-same :
    (gotdata : ReadResult) (c : Client) (w : World)
    → let r = read_once gotdata c w in (r.2.state ≡ c.state) × (r.2.type ≡ c.type)
unfolding read_once after_read
read_once-same gotdata c w = (ground arith, ground arith)

abbrev Is : State → ConnType → Client → World → Type 0
Is s t c w = (c.state ≡ s) × (c.type ≡ t)

grow-Is :
    (s : State) (t : ConnType) (c : Client) (w : World) → Is s t c w → IfAny (Is s t) (grow c w)
unfolding grow
grow-Is s t c w e = elim (Bool-cases (w.malloc == 0)) [
  | inl b ↦ rw (b, IfAny) tt
  | inr b ↦ rw (b, IfAny) e
]

pub aread-same :
    (c : Client) (w : World) → let r = aread c w in (r.1.state ≡ c.state) × (r.1.type ≡ c.type)
aread-same c w =
    aread-keeps (Is c.state c.type) (grow-Is c.state c.type)
      (λ g c w e. let same = read_once-same g c w in (same.0 ∙ e.0, same.1 ∙ e.1)) (λ c w e. e) c w
      (refl, refl)

awrite_loop-type :
    (res : WriteResult) (c : Client) (sends : List Send) → (awrite_loop res c sends).1.type ≡ c.type
unfolding awrite_loop
awrite_loop-type res c [] = refl
awrite_loop-type res c (Send.retry ∷ sends) = refl
awrite_loop-type res c (Send.broken ∷ sends) = refl
awrite_loop-type res c (takes n ∷ sends) =
    let c' = record c {
      have_write = (c.have_write + min_u n (sub_u32 c.need_send c.have_write)) % 2 ^ 32;
    } in
    ground (arith, awrite_loop-type WriteResult.sent_more c' sends, awrite_loop-type res c' sends)

pub awrite-same :
    (c : Client) (w : World) → let r = awrite c w in (r.1.state ≡ c.state) × (r.1.type ≡ c.type)
unfolding awrite
awrite-same c w =
    (awrite-state c w, ground (arith, awrite_loop-type WriteResult.no_data_sent c w.sends))
