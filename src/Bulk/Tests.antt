-- ===== src/Bulk/Tests.antt =====
-- Runs and witnesses of the calls on whole files, src/gingko_base.cpp.
use gko_pool.Prelude.{ℕ, ◌≡◌, refl, arith, none, some, List, [], ◌∷◌, length, take, drop}
use gko_pool.Prelude.Int.{pos, negsuc}
use gko_pool.Bulk.{
  reads, again, broken, read_file_loop, readfileall, readfileall_append, Sendfile, EventBase, sends,
  blocked, fails, gsendfile, take_sent, ev_fn_gsendfile, event_loop, finish, sendfileall,
  check_ulimit,
}
use gko_pool.Bulk.Reading.{readfileall_pieces}
use gko_pool.Bulk.Sending.{sendfileall_whole}
use gko_pool.Bulk.Ending.{sendfileall_ends, sendfileall_short}

abbrev file : List ℕ
file = 1 ∷ 2 ∷ 3 ∷ 4 ∷ 5 ∷ []

abbrev asked : List ℕ
asked = 2 ∷ 3 ∷ 4 ∷ []

-- Three of the bytes from 1 on, in two pieces.
readfileall_pieces_example :
    let r = readfileall (reads 1 ∷ (reads 7 ∷ [])) file 1 3 in
    let r' = readfileall_append (reads 1 ∷ (reads 7 ∷ [])) file 1 3 in
    ((r.0 ≡ pos 0) × (r.1 ≡ some (2 ∷ 3 ∷ 4 ∷ [])))
    × ((r'.0 ≡ pos 0) × (r'.1 ≡ 2 ∷ 3 ∷ 4 ∷ []) × (r'.2 ≡ some 3))
readfileall_pieces_example = readfileall_pieces (reads 1 ∷ (reads 7 ∷ [])) file 1 3 (omega arith) tt

-- A read that would block ends the call with 0 and what came before.
blocked_read : readfileall (reads 1 ∷ (again ∷ [])) file 1 3 ≡ (pos 0, some (2 ∷ 3 ∷ []), [])
unfolding readfileall read_file_loop
blocked_read = refl

no_reading : readfileall (reads 1 ∷ (broken ∷ [])) file 1 3 ≡ (negsuc 0, none, [])
unfolding readfileall read_file_loop
no_reading = refl

abbrev busy : List Sendfile
busy = sends 2 ∷ (blocked ∷ (fails ∷ (sends 4 ∷ [])))

sent_in_two : sendfileall EventBase.waits busy file 1 3 ≡ some (pos 0, 2 ∷ 3 ∷ 4 ∷ [])
unfolding sendfileall event_loop ev_fn_gsendfile gsendfile take_sent finish
sent_in_two = refl

-- Where event_add fails, or the loop after two bytes, the result is 0 all the same.
nothing_sent : sendfileall EventBase.not_added busy file 1 3 ≡ some (pos 0, [])
unfolding sendfileall finish
nothing_sent = refl

two_sent : sendfileall EventBase.broken (sends 2 ∷ []) file 1 3 ≡ some (pos 0, 2 ∷ 3 ∷ [])
unfolding sendfileall event_loop ev_fn_gsendfile gsendfile take_sent finish
two_sent = refl

sendfileall_whole_example : (asked ≡ take 3 (drop 1 file)) × (length asked ≡ 3)
sendfileall_whole_example = sendfileall_whole busy file asked 1 3 sent_in_two

sendfileall_ends_example :
    sendfileall EventBase.waits (sends 1 ∷ (sends 1 ∷ (sends 9 ∷ []))) file 1 3
    ≡ some (pos 0, 2 ∷ 3 ∷ 4 ∷ [])
sendfileall_ends_example =
    sendfileall_ends (sends 1 ∷ (sends 1 ∷ (sends 9 ∷ []))) file 1 3
      (omega arith, (omega arith, (omega arith, tt))) (omega arith) (omega arith)

sendfileall_short_example :
    sendfileall EventBase.waits (sends 9 ∷ (sends 9 ∷ (blocked ∷ []))) file 1 8 ≡ none
sendfileall_short_example =
    sendfileall_short (sends 9 ∷ (sends 9 ∷ (blocked ∷ []))) file 1 8 tt (omega arith) (omega arith)

too_few_files : check_ulimit (some 1024) ≡ negsuc 0
unfolding check_ulimit
too_few_files = refl
