-- ===== src/Transfer/Writing.antt =====
-- awrite of src/async_threads.cpp: what it sends and what it reports.
use gko_pool.Prelude.{
  ℕ, ◌+◌, ◌%◌, ◌^◌, ◌≤◌, ◌<◌, ◌≡◌, ◌⊎◌, refl, sym, inl, inr, arith, List, [], ◌∷◌, ltb, ◌==◌,
  ==_iff, Bool-cases, if◌then◌else◌, subst,
}
use gko_pool.Client.{Client, World, Send, takes}
use gko_pool.Transfer.{WriteResult, awrite, awrite_loop, sub_u32, min_u}

-- What one send of awrite does to the client.
abbrev sending : ℕ → Client → Client
sending n c = record c {
  have_write = (c.have_write + min_u n (sub_u32 c.need_send c.have_write)) % 2 ^ 32;
}

awrite_loop-rbuf_size :
    (g : WriteResult) (c : Client) (sends : List Send)
    → (awrite_loop g c sends).1.rbuf_size ≡ c.rbuf_size
unfolding awrite_loop
awrite_loop-rbuf_size g c [] = refl
awrite_loop-rbuf_size g c (Send.retry ∷ sends) = refl
awrite_loop-rbuf_size g c (Send.broken ∷ sends) = refl
awrite_loop-rbuf_size g c (takes n ∷ sends) = ground (
  arith,
  awrite_loop-rbuf_size g (sending n c) sends,
  awrite_loop-rbuf_size WriteResult.sent_more (sending n c) sends,
)

awrite_loop-state :
    (g : WriteResult) (c : Client) (sends : List Send) → (awrite_loop g c sends).1.state ≡ c.state
unfolding awrite_loop
awrite_loop-state g c [] = refl
awrite_loop-state g c (Send.retry ∷ sends) = refl
awrite_loop-state g c (Send.broken ∷ sends) = refl
awrite_loop-state g c (takes n ∷ sends) = ground (
  arith,
  awrite_loop-state g (sending n c) sends,
  awrite_loop-state WriteResult.sent_more (sending n c) sends,
)

pub awrite-state : (c : Client) (w : World) → (awrite c w).1.state ≡ c.state
unfolding awrite
awrite-state c w = ground (arith, awrite_loop-state WriteResult.no_data_sent c w.sends)

-- awrite leaves the socket's unread bytes and the read buffer alone.
pub awrite_kept :
    (c : Client) (w : World)
    → ((awrite c w).1.rbuf_size ≡ c.rbuf_size) × ((awrite c w).2.reads ≡ w.reads)
unfolding awrite
awrite_kept c w = ground (arith, awrite_loop-rbuf_size WriteResult.no_data_sent c w.sends)

-- What a result of awrite says of the client that it leaves, from the count of the bytes sent before
-- the call.
abbrev pub IsSent : ℕ → WriteResult → Client → Type 0
IsSent start WriteResult.data_sent c = c.have_write ≡ c.need_send
IsSent start WriteResult.sent_more c = (start < c.have_write) × (c.have_write < c.need_send)
IsSent start WriteResult.no_data_sent c = (c.have_write ≡ start) × (start < c.need_send)
IsSent start WriteResult.error c = (start ≤ c.have_write) × (c.have_write < c.need_send)

-- What holds of a result between two sends.
abbrev IsGoing : ℕ → WriteResult → Client → Type 0
IsGoing start g c =
    ((g ≡ WriteResult.no_data_sent) × (c.have_write ≡ start))
    ⊎ ((g ≡ WriteResult.sent_more) × (start < c.have_write))

going-IsSent :
    (start : ℕ) (g : WriteResult) (c : Client)
    → c.have_write < c.need_send
    → IsGoing start g c
    → IsSent start g c
going-IsSent start g c less (inl (e, same)) =
    subst (λ g. IsSent start g c) (sym e) (same, omega (arith, same, less))
going-IsSent start g c less (inr (e, more)) = subst (λ g. IsSent start g c) (sym e) (more, less)

going_up : (start : ℕ) (g : WriteResult) (c : Client) → IsGoing start g c → start ≤ c.have_write
going_up start g c (inl (e, same)) = omega arith
going_up start g c (inr (e, more)) = omega arith

-- The tests after a send, whatever the two calls that go on return.
abbrev after_send :
    Client
    → ℕ
    → List Send
    → WriteResult × Client × List Send
    → WriteResult × Client × List Send
    → WriteResult × Client × List Send
after_send c n sends more beyond =
    let c' = sending n c in
    if min_u n (sub_u32 c.need_send c.have_write) == 0
    then (WriteResult.error, c, sends)
    else if ltb c'.have_write c'.need_send
    then more
    else if c'.need_send == c'.have_write
    then (WriteResult.data_sent, c', sends)
    else beyond

after_send-IsSent :
    (start n : ℕ) (c : Client) (sends : List Send) (more beyond : WriteResult × Client × List Send)
    → c.have_write < c.need_send
    → c.need_send < 2 ^ 32
    → start ≤ c.have_write
    → (c.have_write < (sending n c).have_write
        → (sending n c).have_write < c.need_send
        → IsSent start more.0 more.1)
    → let r = after_send c n sends more beyond in IsSent start r.0 r.1
after_send-IsSent start n c sends more beyond less u32 up next =
    elim (Bool-cases (min_u n (sub_u32 c.need_send c.have_write) == 0)) [
      | inl e ↦ rw e (up, less)
      | inr e ↦ rw e (elim (Bool-cases (ltb (sending n c).have_write c.need_send)) [
        | inl f ↦ rw f (next (ground arith) (ground arith))
        | inr f ↦
            rw (f, (==_iff c.need_send (sending n c).have_write).1 (ground arith)) (ground arith)
      ])
    ]

awrite_loop-IsSent :
    (start : ℕ) (g : WriteResult) (c : Client) (sends : List Send)
    → c.have_write < c.need_send
    → c.need_send < 2 ^ 32
    → IsGoing start g c
    → let r = awrite_loop g c sends in IsSent start r.0 r.1
unfolding awrite_loop
awrite_loop-IsSent start g c [] less u32 go = going-IsSent start g c less go
awrite_loop-IsSent start g c (Send.retry ∷ sends) less u32 go = going-IsSent start g c less go
awrite_loop-IsSent start g c (Send.broken ∷ sends) less u32 go = (going_up start g c go, less)
awrite_loop-IsSent start g c (takes n ∷ sends) less u32 go =
    after_send-IsSent start n c sends (awrite_loop WriteResult.sent_more (sending n c) sends)
      (awrite_loop g (sending n c) sends) less u32 (going_up start g c go)
      (λ up below.
        awrite_loop-IsSent start WriteResult.sent_more (sending n c) sends below u32
          (inr (refl, omega (arith, going_up start g c go, up))))

-- Where no more is sent than is to be, awrite reports data_sent exactly when everything is sent, and
-- else how far the call has come: some bytes more, none, or an error; it never sends past the end.
pub awrite-IsSent :
    (c : Client) (w : World)
    → c.have_write ≤ c.need_send
    → c.need_send < 2 ^ 32
    → IsSent c.have_write (awrite c w).0 (awrite c w).1
unfolding awrite
awrite-IsSent c w le u32 = elim (Bool-cases (sub_u32 c.need_send c.have_write == 0)) [
  | inl e ↦ rw e (ground arith)
  | inr e ↦ rw e (
      awrite_loop-IsSent c.have_write WriteResult.no_data_sent c w.sends (ground arith) u32
        (inl (refl, refl)))
]
