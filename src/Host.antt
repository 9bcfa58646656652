-- ===== src/Host.antt =====
-- Messages over blocking sockets: sendall, readall, readcmd and the calls on top of them in
-- src/gingko_base.cpp.
pub mod Message
mod Tests
use gko_pool.Prelude.{
  ℕ, zero, suc, ◌+◌, ◌-◌, ◌*◌, ◌%◌, ◌^◌, Bool, true, false, Option, none, some, List, [], ◌∷◌, ◌++◌,
  ltb, leb, ◌==◌, if◌then◌else◌, length, take, drop,
}
use gko_pool.Prelude.Int.{ℤ, pos, negsuc, ltb_ℤ, pos_part, neg_part, ◌+ℤ◌, ◌-ℤ◌, int_of_bits}
use gko_pool.Wire.{cmd_prefix_byte, parse_cmd_head, fill_cmd_head}

-- What the system answers in one round of a loop that sends: poll is interrupted, fails or times
-- out, or the send takes up to some bytes, would block or fails. At the end of the list poll times out.
pub data Sending : Type 0 where
  poll_retry poll_broken poll_timeout : Sending
  takes : ℕ → Sending
  retry broken : Sending

-- The same for a loop that receives.
pub data Receiving : Type 0 where
  poll_retry poll_broken poll_timeout : Receiving
  comes : List ℕ → Receiving
  retry broken : Receiving

abbrev minus_one : ℤ
minus_one = negsuc 0

-- A count that is over the limit when it is tested, before it goes up.
abbrev is_over : ℕ → Bool
is_over count = ltb 3 count

-- The loop of sendall on the buffer `p`: the result, the bytes that the socket has taken, and the
-- answers left.
pub send_loop : List Sending → List ℕ → ℕ → ℕ → ℕ → ℤ × List ℕ × List Sending
send_loop [] p count send_counter sz =
    if ltb send_counter sz then (minus_one, [], []) else (pos send_counter, [], [])
send_loop (Sending.poll_retry ∷ rest) p count send_counter sz =
    let next = send_loop rest p (count + 1) send_counter sz in
    if ltb send_counter sz
    then (if is_over count then (minus_one, [], rest) else next)
    else (pos send_counter, [], Sending.poll_retry ∷ rest)
send_loop (Sending.poll_broken ∷ rest) p count send_counter sz =
    if ltb send_counter sz
    then (minus_one, [], rest)
    else (pos send_counter, [], Sending.poll_broken ∷ rest)
send_loop (Sending.poll_timeout ∷ rest) p count send_counter sz =
    if ltb send_counter sz
    then (minus_one, [], rest)
    else (pos send_counter, [], Sending.poll_timeout ∷ rest)
send_loop (takes n ∷ rest) p count send_counter sz =
    let sent = if ltb n (sz - send_counter) then n else sz - send_counter in
    let (result, out, left) = send_loop rest p 0 (send_counter + sent) sz in
    if ltb send_counter sz
    then (result, take sent (drop send_counter p) ++ out, left)
    else (pos send_counter, [], takes n ∷ rest)
send_loop (Sending.retry ∷ rest) p count send_counter sz =
    let next = send_loop rest p 0 send_counter sz in
    if ltb send_counter sz then next else (pos send_counter, [], Sending.retry ∷ rest)
send_loop (Sending.broken ∷ rest) p count send_counter sz =
    let next = send_loop rest p (count + 1) send_counter sz in
    if ltb send_counter sz
    then (if is_over count then (minus_one, [], rest) else next)
    else (pos send_counter, [], Sending.broken ∷ rest)

-- sendall of the first `sz` bytes of a buffer, none for NULL: the result, the bytes that the socket has
-- taken, and the answers left.
pub sendall : List Sending → Option (List ℕ) → ℕ → ℤ × List ℕ × List Sending
sendall answers p sz =
    if sz == 0
    then (pos 0, [], answers)
    else elim p [ none ↦ (minus_one, [], answers) | some bytes ↦ send_loop answers bytes 0 0 sz ]

-- The loop of readall, without the sleep of its rate limit: the result, the bytes read and the
-- answers left.
pub read_loop : List Receiving → ℕ → List ℕ → ℕ → ℤ × List ℕ × List Receiving
read_loop [] count buf data_len =
    if ltb (length buf) data_len then (minus_one, buf, []) else (pos (length buf), buf, [])
read_loop (Receiving.poll_retry ∷ rest) count buf data_len =
    let next = read_loop rest (count + 1) buf data_len in
    if ltb (length buf) data_len
    then (if is_over count then (minus_one, buf, rest) else next)
    else (pos (length buf), buf, Receiving.poll_retry ∷ rest)
read_loop (Receiving.poll_broken ∷ rest) count buf data_len =
    if ltb (length buf) data_len
    then (minus_one, buf, rest)
    else (pos (length buf), buf, Receiving.poll_broken ∷ rest)
read_loop (Receiving.poll_timeout ∷ rest) count buf data_len =
    if ltb (length buf) data_len
    then (minus_one, buf, rest)
    else (pos (length buf), buf, Receiving.poll_timeout ∷ rest)
read_loop (comes d ∷ rest) count buf data_len =
    let room = data_len - length buf in
    let next = read_loop rest count (buf ++ d) data_len in
    if ltb (length buf) data_len
    then (if length d == 0
        then (minus_one, buf, rest)
        else if ltb room (length d)
        then (pos data_len, buf ++ take room d, comes (drop room d) ∷ rest)
        else next)
    else (pos (length buf), buf, comes d ∷ rest)
read_loop (Receiving.retry ∷ rest) count buf data_len =
    let next = read_loop rest (count + 1) buf data_len in
    if ltb (length buf) data_len
    then (if is_over count then (minus_one, buf, rest) else next)
    else (pos (length buf), buf, Receiving.retry ∷ rest)
read_loop (Receiving.broken ∷ rest) count buf data_len =
    if ltb (length buf) data_len
    then (minus_one, buf, rest)
    else (pos (length buf), buf, Receiving.broken ∷ rest)

-- readall; a negative length reads nothing.
pub readall : List Receiving → ℤ → ℤ × List ℕ × List Receiving
readall answers data_len = read_loop answers 0 [] (pos_part data_len)

-- An integer wrapped to `int`.
pub wrap : ℤ → ℤ
wrap n = int_of_bits ((pos_part n + (2 ^ 32 - neg_part n % 2 ^ 32)) % 2 ^ 32)

-- The test on what the second readall of readcmd returns, after the limit on `msg_len`.
abbrev pub body_of :
    List Receiving → ℤ → ℕ → ℤ × List ℕ × List Receiving → ℤ × List ℕ × List Receiving
body_of rest msg_len max_len (ret, buf, rest') =
    if ltb_ℤ (pos max_len) msg_len
    then (minus_one, [], rest)
    else if ltb_ℤ ret (pos 0)
    then (minus_one, buf, rest')
    else (ret, buf, rest')

-- readcmd after the header has been read and parsed, with its two additions to `msg_len`
pub read_body : List Receiving → ℤ → ℕ → ℤ × List ℕ × List Receiving
read_body rest parsed max_len =
    let msg_len = wrap (parsed +ℤ pos cmd_prefix_byte) in
    body_of rest msg_len max_len (readall rest (wrap (msg_len -ℤ pos cmd_prefix_byte)))

-- readcmd
pub readcmd : List Receiving → ℕ → ℤ × List ℕ × List Receiving
readcmd answers max_len =
    let (ret, head_buf, rest) = readall answers (pos cmd_prefix_byte) in
    let body = read_body rest (parse_cmd_head head_buf) max_len in
    if ltb_ℤ ret (pos 0) then (minus_one, [], rest) else body

-- A message as it is sent: the header, with the command's length as an `int`, and the command.
pub new_cmd : List ℕ → List ℕ
new_cmd cmd = fill_cmd_head (int_of_bits (length cmd % 2 ^ 32)) ++ cmd

-- sendcmd2host of a command that fits its buffer, on the result of connect_host: the result and the bytes sent.
pub sendcmd2host : ℤ → List Sending → List ℕ → ℤ × List ℕ
sendcmd2host sock answers cmd =
    let msg = new_cmd cmd in
    let (result, sent, rest) = sendall answers (some msg) (length msg) in
    if ltb_ℤ sock (pos 0)
    then (minus_one, [])
    else if leb (length msg) cmd_prefix_byte
    then (minus_one, [])
    else (result, sent)

-- chat_with_host of a command that fits its buffer, whose answer has at most `msg_len_max` bytes, MSG_LEN: the result, the bytes sent
-- and the answer.
pub chat_with_host : ℕ → ℤ → List Sending → List Receiving → List ℕ → ℤ × List ℕ × List ℕ
chat_with_host msg_len_max sock answers receives cmd =
    let msg = new_cmd cmd in
    let (result, sent, rest) = sendall answers (some msg) (length msg) in
    let (ret, buf, left) = readcmd receives msg_len_max in
    if ltb_ℤ sock (pos 0)
    then (minus_one, [], [])
    else if leb (length msg) cmd_prefix_byte
    then (minus_one, [], [])
    else if ltb_ℤ (pos 0) result
    then (ret, sent, buf)
    else (result, sent, [])

-- send2host_fd on a descriptor, with what connect_host would give: the result, the descriptor, the
-- bytes sent and the answers left. The pointers are not NULL and cmd_len is not negative.
pub send2host_fd : ℤ → ℤ → List Sending → List ℕ → ℤ × ℤ × List ℕ × List Sending
send2host_fd fd connected answers cmd =
    let opened = if ltb_ℤ fd (pos 0) then connected else fd in
    let (result, sent, rest) = sendall answers (some cmd) (length cmd) in
    if ltb_ℤ opened (pos 0)
    then (minus_one, opened, [], answers)
    else if ltb_ℤ (pos 0) result
    then (result, opened, sent, rest)
    else (result, minus_one, sent, rest)

-- chat_fd: a second try where the first send fails, with its own connection; then the answer.
pub chat_fd : ℤ → ℤ → ℤ → List Sending → List Receiving → List ℕ → ℕ → ℤ × ℤ × List ℕ
chat_fd fd first second answers receives cmd max_response =
    let (ret1, fd1, sent1, rest1) = send2host_fd fd first answers cmd in
    let (ret2, fd2, sent2, rest2) = send2host_fd fd1 second rest1 cmd in
    let (read_ret, response, left) = readcmd receives max_response in
    if not_negative ret1
    then (read_ret, fd1, response)
    else if not_negative ret2
    then (read_ret, fd2, response)
    else (ret2, fd2, [])
  where
    not_negative : ℤ → Bool
    not_negative n = leb (neg_part n) 0
