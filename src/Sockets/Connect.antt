-- ===== src/Sockets/Connect.antt =====
-- connect_host of src/socket.cpp.
use gko_pool.Prelude.{
  ℕ, ◌≡◌, refl, arith, Bool, true, false, Option, none, some, ◌⊎◌, inl, inr, ◌==◌, Bool-cases,
}
use gko_pool.Prelude.Int.{ℤ, pos, negsuc}
use gko_pool.Sockets.{Answers, close_socket, connect_ret, connect_on, connect_host}

returned :
    (a : Answers)
    → (connect_ret a ≡ a.sock) ⊎ ((connect_ret a ≡ negsuc 0) ⊎ (connect_ret a ≡ negsuc 12))
unfolding connect_ret
returned a = ground arith

-- Returned or closed.
abbrev Kept : ℤ × Option ℕ × Option ℕ → Type 0
Kept r = ((fd : ℕ) × (r ≡ (pos fd, some fd, none))) ⊎ ((n : ℕ) × (r.0 ≡ negsuc n) × (r.1 ≡ r.2))

closes_it : (fd : ℕ) (closed : Bool) → some fd ≡ (close_socket (pos fd) closed).1
unfolding close_socket
closes_it fd true = refl
closes_it fd false = refl

connect_on-Kept :
    (a : Answers) (sock ret : ℤ)
    → (ret ≡ sock) ⊎ ((ret ≡ negsuc 0) ⊎ (ret ≡ negsuc 12))
    → Kept (connect_on a sock ret)
unfolding connect_on
connect_on-Kept a (negsuc n) ret e = inr (0, refl, refl)
connect_on-Kept a (pos fd) (negsuc n) e = inr (n, refl, closes_it fd a.closed)
connect_on-Kept a (pos fd) (pos r) (inl e) = inl (fd, ground arith)
connect_on-Kept a (pos fd) (pos r) (inr e) = ground arith

-- connect_host keeps no descriptor that it does not return: whatever the calls answer, either it
-- returns the socket that it has opened and closes none, or it returns a negative number and has
-- closed the socket that it opened, if it opened one.
pub connect_host-keeps :
    (a : Answers)
    → ((fd : ℕ) × (connect_host a ≡ (pos fd, some fd, none)))
      ⊎ ((n : ℕ) × ((connect_host a).0 ≡ negsuc n) × ((connect_host a).1 ≡ (connect_host a).2))
unfolding connect_host
connect_host-keeps a = elim (Bool-cases (a.addr_len == 0)) [
  | inl e ↦ rw e (inr (0, refl, refl))
  | inr e ↦ rw e (connect_on-Kept a a.sock (connect_ret a) (returned a))
]
