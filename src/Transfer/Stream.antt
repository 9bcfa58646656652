-- ===== src/Transfer/Stream.antt =====
-- The reads of src/async_threads.cpp: what one call takes from the socket.
use mathlib.Core.List.{append_assoc}
use gko_pool.Prelude.{
  ℕ, zero, suc, ◌+◌, ◌≤◌, ◌<◌, ◌≡◌, refl, sym, ap, ◌∙◌, inl, inr, arith, List, [], ◌∷◌, ◌++◌, ltb,
  if◌then◌else◌, Bool-cases, length, length-take, take, drop, take-append-drop, length-drop,
}
use gko_pool.Client.{Recv, bytes}
use gko_pool.Transfer.{Got, got, again, failed, sys_read}

-- The bytes that a socket still has to give.
pub stream : List Recv → List ℕ
stream [] = []
stream (bytes d ∷ reads) = d ++ stream reads
stream (Recv.retry ∷ reads) = stream reads
stream (Recv.broken ∷ reads) = stream reads

-- A bound on the reads that it can still answer.
unfoldable pub pending : List Recv → ℕ
pending [] = 0
pending (bytes d ∷ reads) = 1 + length d + pending reads
pending (Recv.retry ∷ reads) = 1 + pending reads
pending (Recv.broken ∷ reads) = 1 + pending reads

-- What one read of `size` bytes does to the answers.
abbrev pub Reads : ℕ → List Recv → Got × List Recv → Type 0
Reads size reads (got d, rest) =
    (length d ≤ size)
    × (d ++ stream rest ≡ stream reads)
    × (pending rest ≤ pending reads)
    × (0 < length d → pending rest < pending reads)
Reads size reads (again, rest) = (stream rest ≡ stream reads) × (pending rest ≤ pending reads)
Reads size reads (failed, rest) = (stream rest ≡ stream reads) × (pending rest ≤ pending reads)

-- What a read leaves of the bytes that have come.
abbrev pub left_over : ℕ → List ℕ → List Recv → List Recv
left_over n d reads = if ltb n (length d) then bytes (drop n d) ∷ reads else reads

pub take_all : (n : ℕ) (d : List ℕ) → length d ≤ n → take n d ≡ d
take_all zero [] h = refl
take_all zero (x ∷ d) h = absurd (omega arith)
take_all (suc n) [] h = refl
take_all (suc n) (x ∷ d) h = ap (◌∷◌ x) (take_all n d (omega arith))

stream-left_over :
    (n : ℕ) (d : List ℕ) (reads : List Recv)
    → take n d ++ stream (left_over n d reads) ≡ d ++ stream reads
stream-left_over n d reads = elim (Bool-cases (ltb n (length d))) [
  | inl e ↦ rw e (
      unfold stream in
      (sym (append_assoc (take n d) (drop n d) (stream reads))
        ∙ ap (λ l. l ++ stream reads) (take-append-drop n d)))
  | inr e ↦ rw e (ap (λ l. l ++ stream reads) (take_all n d (ground arith)))
]

pending-left_over :
    (n : ℕ) (d : List ℕ) (reads : List Recv)
    → (pending (left_over n d reads) ≤ 1 + length d + pending reads)
      × (0 < n → pending (left_over n d reads) < 1 + length d + pending reads)
unfolding pending
pending-left_over n d reads = ground (arith, length-drop n d)

pub sys_read-Reads : (size : ℕ) (reads : List Recv) → Reads size reads (sys_read size reads)
unfolding sys_read
sys_read-Reads zero reads = (omega arith, refl, omega arith, omega arith)
sys_read-Reads (suc size) [] = (refl, omega arith)
sys_read-Reads (suc size) (bytes d ∷ reads) = (
  omega (arith, length-take (suc size) d),
  stream-left_over (suc size) d reads ∙ unfold stream in refl,
  unfold pending in (pending-left_over (suc size) d reads).0,
  unfold pending in (λ _. (pending-left_over (suc size) d reads).1 (omega arith)),
)
sys_read-Reads (suc size) (Recv.retry ∷ reads) =
    (unfold stream in refl, unfold pending in omega arith)
sys_read-Reads (suc size) (Recv.broken ∷ reads) =
    (unfold stream in refl, unfold pending in omega arith)
