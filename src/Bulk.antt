-- ===== src/Bulk.antt =====
-- Files read and sent as a whole: readfileall, sendfileall and their companions of
-- src/gingko_base.cpp and src/gingko.h.
pub mod Reading
pub mod Sending
pub mod Ending
mod Tests
use gko_pool.Prelude.{
  ℕ, zero, suc, ◌+◌, ◌-◌, ◌*◌, Bool, true, false, Option, none, some, List, [], ◌∷◌, ◌++◌, ltb,
  ◌==◌, if◌then◌else◌, length, take, drop,
}
use gko_pool.Prelude.Int.{ℤ, pos, negsuc}

-- What one pread answers: it reads up to so many bytes and one more, or fails with an error that can be
-- retried or another one. At the end of the list it reads all that it is asked for.
pub data Pread : Type 0 where
  reads : ℕ → Pread
  again broken : Pread

abbrev minus_one : ℤ
minus_one = negsuc 0

-- The loop that readfileall and readfileall_append have: whether it ended by an error that is not
-- retried, the bytes read, and the answers left.
pub read_file_loop : List Pread → List ℕ → ℕ → ℕ → List ℕ → Bool × List ℕ × List Pread
read_file_loop [] file offset count buf =
    if ltb (length buf) count
    then (false, buf ++ take (count - length buf) (drop (offset + length buf) file), [])
    else (false, buf, [])
read_file_loop (reads n ∷ rest) file offset count buf =
    let piece = take (suc n) (take (count - length buf) (drop (offset + length buf) file)) in
    let next = read_file_loop rest file offset count (buf ++ piece) in
    if ltb (length buf) count
    then (if length piece == 0 then (false, buf, rest) else next)
    else (false, buf, reads n ∷ rest)
read_file_loop (again ∷ rest) file offset count buf =
    if ltb (length buf) count then (false, buf, rest) else (false, buf, again ∷ rest)
read_file_loop (broken ∷ rest) file offset count buf =
    if ltb (length buf) count then (true, buf, rest) else (false, buf, broken ∷ rest)

-- readfileall on the file's bytes: the result and the buffer's bytes that have been read, none where there
-- is no buffer.
pub readfileall : List Pread → List ℕ → ℕ → ℕ → ℤ × Option (List ℕ) × List Pread
readfileall answers file offset count =
    let (failed, buf, rest) = read_file_loop answers file offset count [] in
    if count == 0
    then (pos 0, none, answers)
    else if failed
    then (minus_one, none, rest)
    else (pos 0, some buf, rest)

-- readfileall_append, with the bytes that it charges to the limit on reading, none where it does not.
pub readfileall_append : List Pread → List ℕ → ℕ → ℕ → ℤ × List ℕ × Option ℕ
readfileall_append answers file offset count =
    let (failed, buf, rest) = read_file_loop answers file offset count [] in
    if count == 0
    then (pos 0, [], none)
    else if failed
    then (minus_one, buf, none)
    else (pos 0, buf, some (length buf))

-- What one call of sendfile answers: it sends up to so many bytes, fails with an error that can be retried,
-- or with another one.
pub data Sendfile : Type 0 where
  sends : ℕ → Sendfile
  blocked fails : Sendfile

-- gsendfile on Linux: the bytes sent, none for -1.
pub gsendfile : Sendfile → List ℕ → ℕ → ℕ → Option (List ℕ)
gsendfile (sends n) file offset count = some (take n (take count (drop offset file)))
gsendfile blocked file offset count = some []
gsendfile fails file offset count = none

-- struct s_gsendfile_arg_t, with the bytes that the socket has been given.
pub record SendfileArg : Type 0 where
  pub sent : ℤ
  pub send_counter : ℕ
  pub retry : ℕ
  pub offset : ℕ
  pub count : ℕ
  pub out : List ℕ

-- What ev_fn_gsendfile does with the result of gsendfile: whether the event stays, and the argument. The
-- event is deleted where all is sent, so that send_counter is never over count.
pub take_sent : SendfileArg → Option (List ℕ) → Bool × SendfileArg
take_sent a none =
    (if ltb 3 a.retry then false else true, record a { sent = minus_one; retry = a.retry + 1 })
take_sent a (some piece) =
    let counter = a.send_counter + length piece in
    (
      if counter == a.count then false else true,
      record a {
        sent = pos (length piece);
        send_counter = counter;
        retry = 0;
        out = a.out ++ piece;
      },
    )

-- ev_fn_gsendfile, without the limit on its rate.
pub ev_fn_gsendfile : Sendfile → List ℕ → SendfileArg → Bool × SendfileArg
ev_fn_gsendfile answer file a =
    take_sent a (gsendfile answer file (a.offset + a.send_counter) (a.count - a.send_counter))

-- event_base_loop, an answer for each time that the socket can be written to. At the end of the list the
-- loop fails, or it still waits, and there is no result.
pub event_loop : Bool → List Sendfile → List ℕ → SendfileArg → Option SendfileArg
event_loop breaks [] file a = if breaks then some a else none
event_loop breaks (answer ∷ rest) file a =
    let (stays, a') = ev_fn_gsendfile answer file a in
    let later = event_loop breaks rest file a' in if stays then later else some a'

-- What libevent does with the event: event_add fails; it takes the event, and event_base_loop goes on
-- until the event is deleted; or the loop fails after the answers.
pub data EventBase : Type 0 where
  not_added waits broken : EventBase

-- A failed event_add is only logged: the loop has no event and returns at once. Nor does a failure of the
-- loop change the argument.
abbrev pub run_event : EventBase → List Sendfile → List ℕ → SendfileArg → Option SendfileArg
run_event EventBase.not_added answers file a = some a
run_event EventBase.waits answers file a = event_loop false answers file a
run_event EventBase.broken answers file a = event_loop true answers file a

pub finish : SendfileArg → ℤ × List ℕ
finish a = elim a.sent [ pos n ↦ (pos 0, a.out) | negsuc n ↦ (minus_one, a.out) ]

abbrev pub new_arg : ℕ → ℕ → SendfileArg
new_arg offset count = record {
  sent = pos 0;
  send_counter = 0;
  retry = 0;
  offset = offset;
  count = count;
  out = [];
}

-- sendfileall and sendfileall2, whose bodies are the same: the result and the bytes sent.
pub sendfileall : EventBase → List Sendfile → List ℕ → ℕ → ℕ → Option (ℤ × List ℕ)
sendfileall base answers file offset count =
    if count == 0
    then some (pos 0, [])
    else elim (run_event base answers file (new_arg offset count)) [
      | none ↦ none
      | some a ↦ some (finish a)
    ]

pub sendfileall2 : EventBase → List Sendfile → List ℕ → ℕ → ℕ → Option (ℤ × List ℕ)
sendfileall2 base answers file offset count =
    if count == 0
    then some (pos 0, [])
    else elim (run_event base answers file (new_arg offset count)) [
      | none ↦ none
      | some a ↦ some (finish a)
    ]

-- check_ulimit on the limit that getrlimit gives, none where it fails.
abbrev min_nofile : ℕ
min_nofile = 2000

pub check_ulimit : Option ℕ → ℤ
check_ulimit none = minus_one
check_ulimit (some rlim_max) = if ltb rlim_max min_nofile then minus_one else pos 0
