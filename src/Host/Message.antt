-- ===== src/Host/Message.antt =====
-- The calls of src/gingko_base.cpp that send and read whole messages: they move exactly the bytes
-- asked for, or report an error.
use mathlib.Core.List.{append-nil, append_assoc}
use gko_pool.Prelude.{
  ℕ, ◌+◌, ◌-◌, ◌%◌, ◌^◌, ◌≤◌, ◌<◌, ◌≡◌, ◌⊎◌, refl, Bool, true, sym, subst, ap, ◌∙◌, inl, inr, arith,
  false, some, List, [], ◌∷◌, ◌++◌, ltb, ◌==◌, ==_iff, Bool-cases, if◌then◌else◌, length,
  length-append, length-drop, lt→ltb, take, drop, take-append-drop, length-take,
}
use gko_pool.Prelude.Int.{ℤ, pos, negsuc, ltb_ℤ, ◌+ℤ◌, ◌-ℤ◌, int_of_bits}
use gko_pool.Job.Rounds.{take-add}
use gko_pool.Job.Span.{drop-drop}
use gko_pool.Wire.{cmd_prefix_byte, fill_cmd_head, parse_cmd_head}
use gko_pool.Wire.RoundTrip.{parse-fill, int_of_length, length-fill_cmd_head, parse_cmd_head_bad}
use gko_pool.Host.{
  Sending, takes, Receiving, comes, send_loop, sendall, read_loop, readall, readcmd, read_body,
  body_of, wrap, new_cmd, Bool, pos_part,
}

-- How a call that sends the first `sz` bytes of a buffer ends: the socket has taken all of them, or the
-- result is -1 and it has taken the first ones, and not all.
abbrev pub IsWhole : List ℕ → ℕ → ℤ × List ℕ × List Sending → Type 0
IsWhole bytes sz r =
    ((r.0 ≡ pos sz) × (r.1 ≡ take sz bytes))
    ⊎ ((r.0 ≡ negsuc 0) × (r.1 ≡ take (length r.1) bytes) × (length r.1 < sz))

-- The same for the loop, from a byte on.
abbrev SendsFrom : List ℕ → ℕ → ℕ → ℤ × List ℕ × List Sending → Type 0
SendsFrom p counter sz r =
    ((r.0 ≡ pos sz) × (r.1 ≡ take (sz - counter) (drop counter p)))
    ⊎ ((r.0 ≡ negsuc 0) × (r.1 ≡ take (length r.1) (drop counter p)) × (counter + length r.1 < sz))

abbrev sent_next : ℕ → ℕ → ℕ → ℕ
sent_next n counter sz = counter + (if ltb n (sz - counter) then n else sz - counter)

joined :
    (p : List ℕ) (counter a b : ℕ)
    → take a (drop counter p) ++ take b (drop (counter + a) p) ≡ take (a + b) (drop counter p)
joined p counter a b =
    let x = drop counter p in
    ap (λ l. take a x ++ take b l) (sym (drop-drop counter a p)) ∙ sym (take-add a b x)

broken_off :
    (p : List ℕ) (counter sz : ℕ) (rest : List Sending)
    → counter < sz
    → SendsFrom p counter sz (negsuc 0, [], rest)
broken_off p counter sz rest l = inr (refl, refl, omega arith)

if-SendsFrom :
    (b : Bool) (p : List ℕ) (counter sz : ℕ) (r r' : ℤ × List ℕ × List Sending)
    → SendsFrom p counter sz r
    → SendsFrom p counter sz r'
    → SendsFrom p counter sz (if b then r else r')
if-SendsFrom true p counter sz r r' s s' = s
if-SendsFrom false p counter sz r r' s s' = s'

-- A round of the loop, from what it does where bytes are left.
round :
    (p : List ℕ) (counter sz : ℕ) (r : ℤ × List ℕ × List Sending) (answers : List Sending)
    → counter ≤ sz
    → (counter < sz → SendsFrom p counter sz r)
    → SendsFrom p counter sz (if ltb counter sz then r else (pos counter, [], answers))
round p counter sz r answers l more = elim (Bool-cases (ltb counter sz)) [
  | inl e ↦ rw e (more (ground (arith, e)))
  | inr e ↦
      let all : counter ≡ sz = ground (arith, e, l) in
      let nothing : sz - counter ≡ 0 = omega (arith, all) in
      rw e (inl (ap pos all, ap (λ k. take k (drop counter p)) (sym nothing)))
]

-- A piece that the socket takes, before what the rest of the loop sends.
piece_sent :
    (p : List ℕ) (counter sent sz : ℕ) (r : ℤ × List ℕ × List Sending)
    → counter + sent ≤ sz
    → sz ≤ length p
    → SendsFrom p (counter + sent) sz r
    → SendsFrom p counter sz (r.0, take sent (drop counter p) ++ r.1, r.2)
piece_sent p counter sent sz r fits held (inl (whole, bytes)) =
    let k = sz - (counter + sent) in
    let all : sent + k ≡ sz - counter = omega (arith, fits) in
    inl (
      whole,
      ap (λ l. take sent (drop counter p) ++ l) bytes
          ∙ joined p counter sent k
          ∙ ap (λ n. take n (drop counter p)) all,
    )
piece_sent p counter sent sz r fits held (inr (bad, bytes, short)) =
    let x = drop counter p in
    let size : length (take sent x ++ r.1) ≡ sent + length r.1 = omega (
      arith,
      length-append (take sent x) r.1,
      length-take sent x,
      length-drop counter p,
      fits,
      held,
    ) in
    inr (
      bad,
      ap (λ l. take sent x ++ l) bytes
          ∙ joined p counter sent (length r.1)
          ∙ ap (λ n. take n x) (sym size),
      omega (arith, size, short),
    )

sent_within : (n counter sz : ℕ) → counter ≤ sz → sent_next n counter sz ≤ sz
sent_within n counter sz l = ground arith

send_loop-SendsFrom :
    (answers : List Sending) (p : List ℕ) (count counter sz : ℕ)
    → counter ≤ sz
    → sz ≤ length p
    → SendsFrom p counter sz (send_loop answers p count counter sz)
unfolding send_loop
send_loop-SendsFrom [] p count counter sz l held =
    round p counter sz _ [] l (λ more. broken_off p counter sz [] more)
send_loop-SendsFrom (Sending.poll_retry ∷ rest) p count counter sz l held =
    round p counter sz _ _ l (λ more.
      if-SendsFrom (ltb 3 count) p counter sz (negsuc 0, [], rest)
        (send_loop rest p (count + 1) counter sz) (broken_off p counter sz rest more)
        (send_loop-SendsFrom rest p (count + 1) counter sz l held))
send_loop-SendsFrom (Sending.poll_broken ∷ rest) p count counter sz l held =
    round p counter sz _ _ l (λ more. broken_off p counter sz rest more)
send_loop-SendsFrom (Sending.poll_timeout ∷ rest) p count counter sz l held =
    round p counter sz _ _ l (λ more. broken_off p counter sz rest more)
send_loop-SendsFrom (takes n ∷ rest) p count counter sz l held =
    let sent = if ltb n (sz - counter) then n else sz - counter in
    round p counter sz _ _ l (λ more.
      piece_sent p counter sent sz (send_loop rest p 0 (counter + sent) sz)
        (sent_within n counter sz l) held
        (send_loop-SendsFrom rest p 0 (counter + sent) sz (sent_within n counter sz l) held))
send_loop-SendsFrom (Sending.retry ∷ rest) p count counter sz l held =
    round p counter sz _ _ l (λ more. send_loop-SendsFrom rest p 0 counter sz l held)
send_loop-SendsFrom (Sending.broken ∷ rest) p count counter sz l held =
    round p counter sz _ _ l (λ more.
      if-SendsFrom (ltb 3 count) p counter sz (negsuc 0, [], rest)
        (send_loop rest p (count + 1) counter sz) (broken_off p counter sz rest more)
        (send_loop-SendsFrom rest p (count + 1) counter sz l held))

-- The bytes that a socket still has to give.
unfoldable pub stream : List Receiving → List ℕ
stream [] = []
stream (comes d ∷ rest) = d ++ stream rest
stream (_ ∷ rest) = stream rest

-- Only bytes come, some each time.
abbrev pub IsPlain : List Receiving → Type 0
IsPlain [] = Unit
IsPlain (comes d ∷ rest) = (0 < length d) × IsPlain rest
IsPlain (_ ∷ rest) = ⊥

-- How a read of some bytes ends, where they come.
record Whole (len : ℕ) (bytes : List ℕ) (r : ℤ × List ℕ × List Receiving) : Type 0 where
  result : r.0 ≡ pos len
  size : length r.1 ≡ len
  kept : r.1 ++ stream r.2 ≡ bytes
  plain : IsPlain r.2

read_loop-Whole :
    (answers : List Receiving) (count : ℕ) (buf : List ℕ) (len : ℕ)
    → IsPlain answers
    → length buf ≤ len
    → len ≤ length buf + length (stream answers)
    → Whole len (buf ++ stream answers) (read_loop answers count buf len)
unfolding read_loop stream
read_loop-Whole [] count buf len plain small all =
    rw (shut) record { result = ap pos (omega arith); size = omega arith; kept = refl; plain = tt }
  where
    shut : ltb (length buf) len ≡ false
    shut = ground arith
read_loop-Whole (comes d ∷ rest) count buf len (some_bytes, plain) small all =
    elim (Bool-cases (ltb (length buf) len)) [
      | inl e ↦ elim (Bool-cases (ltb (len - length buf) (length d))) [
        | inl f ↦
            rw (e, nonempty, f)
              record {
                result = refl;
                size = ground (
                  arith,
                  length-append buf (take (len - length buf) d),
                  length-take (len - length buf) d,
                );
                kept =
                    append_assoc buf (take (len - length buf) d)
                      (drop (len - length buf) d ++ stream rest)
                    ∙ ap (λ l. buf ++ l)
                        (sym (
                            append_assoc (take (len - length buf) d) (drop (len - length buf) d)
                              (stream rest))
                          ∙ ap (λ l. l ++ stream rest) (take-append-drop (len - length buf) d));
                plain = (ground (arith, length-drop (len - length buf) d), plain);
              }
        | inr f ↦
            rw (e, nonempty, f)
              (subst (λ bytes. Whole len bytes (read_loop rest count (buf ++ d) len))
                (append_assoc buf d (stream rest))
                (read_loop-Whole rest count (buf ++ d) len plain
                  (ground (arith, length-append buf d))
                  (omega (arith, length-append buf d, length-append d (stream rest), all))))
      ]
      | inr e ↦ rw e record {
        result = ap pos (ground arith);
        size = ground arith;
        kept = refl;
        plain = (some_bytes, plain);
      }
    ]
  where
    nonempty : (length d == 0) ≡ false
    nonempty = ground arith
read_loop-Whole (Receiving.poll_retry ∷ rest) count buf len plain small all = absurd plain
read_loop-Whole (Receiving.poll_broken ∷ rest) count buf len plain small all = absurd plain
read_loop-Whole (Receiving.poll_timeout ∷ rest) count buf len plain small all = absurd plain
read_loop-Whole (Receiving.retry ∷ rest) count buf len plain small all = absurd plain
read_loop-Whole (Receiving.broken ∷ rest) count buf len plain small all = absurd plain

IsWhole-from :
    (bytes : List ℕ) (sz : ℕ) (r : ℤ × List ℕ × List Sending)
    → SendsFrom bytes 0 sz r
    → IsWhole bytes sz r
IsWhole-from bytes sz r (inl (whole, sent)) =
    let nothing_sent : sz - 0 ≡ sz = omega arith in
    inl (whole, sent ∙ ap (λ k. take k bytes) nothing_sent)
IsWhole-from bytes sz r (inr (bad, sent, short)) = inr (bad, sent, omega (arith, short))

-- sendall of the first sz bytes of a buffer that has them either returns sz, and the socket has taken
-- those bytes, each once and in order, or -1, and it has taken the first ones of them, and not all.
pub sendall-IsWhole :
    (answers : List Sending) (bytes : List ℕ) (sz : ℕ)
    → sz ≤ length bytes
    → IsWhole bytes sz (sendall answers (some bytes) sz)
unfolding sendall
sendall-IsWhole answers bytes sz held = elim (Bool-cases (sz == 0)) [
  | inl e ↦
      let nothing : sz ≡ 0 = (==_iff sz 0).0 e in
      rw e (inl (ap pos (sym nothing), ap (λ k. take k bytes) (sym nothing)))
  | inr e ↦ rw e (
      IsWhole-from bytes sz (send_loop answers bytes 0 0 sz)
        (send_loop-SendsFrom answers bytes 0 0 sz (omega arith) held))
]

-- Two equal lists with first parts of one length have equal parts.
append_split :
    (a b : List ℕ) {x y : List ℕ} → length a ≡ length b → a ++ x ≡ b ++ y → (a ≡ b) × (x ≡ y)
append_split [] [] l e = (refl, e)
append_split [] (c ∷ b) l e = absurd (omega arith)
append_split (c ∷ a) [] l e = absurd (omega arith)
append_split (c ∷ a) (d ∷ b) l e =
    let (same, rest) = append_split a b (omega arith) (ap tail e) in
    (ap (λ x. x ∷ a) (ap head e) ∙ ap (◌∷◌ d) same, rest)
  where
    tail : List ℕ → List ℕ
    tail [] = []
    tail (x ∷ l) = l

    head : List ℕ → ℕ
    head [] = 0
    head (x ∷ l) = x

-- readall of what has been asked for and comes, in pieces that are cut anywhere.
readall-Whole :
    (answers : List Receiving) (a rest : List ℕ)
    → IsPlain answers
    → stream answers ≡ a ++ rest
    → let r = readall answers (pos (length a)) in
      (r.0 ≡ pos (length a)) × (r.1 ≡ a) × (stream r.2 ≡ rest) × IsPlain r.2
unfolding readall
readall-Whole answers a rest plain e =
    let whole =
      read_loop-Whole answers 0 [] (length a) plain (omega arith)
        (omega (arith, ap length e, length-append a rest)) in
    let split = append_split (read_loop answers 0 [] (length a)).1 a whole.size (whole.kept ∙ e) in
    (whole.result, split.0, split.1, whole.plain)

wrap_small : (n : ℕ) → n < 2 ^ 31 → wrap (pos n) ≡ pos n
unfolding wrap
wrap_small n l = ap int_of_bits low ∙ rw (lt→ltb n (2 ^ 31) l) refl
  where
    low : (n + 2 ^ 32) % 2 ^ 32 ≡ n
    low = omega arith

pos_add : (a b : ℕ) → pos a +ℤ pos b ≡ pos (a + b)
pos_add a b = ground arith

pos_sub : (a b : ℕ) → pos (a + b) -ℤ pos b ≡ pos a
pos_sub a b = ground arith

-- The body of a message whose length the limit allows.
read_body_fits :
    (rest : List Receiving) (n max_len : ℕ)
    → n + cmd_prefix_byte ≤ max_len
    → max_len < 2 ^ 31
    → (readall rest (pos n)).0 ≡ pos n
    → read_body rest (pos n) max_len ≡ readall rest (pos n)
unfolding read_body
read_body_fits rest n max_len fits small e =
    ap (λ m. body_of rest m max_len (readall rest (wrap (m -ℤ pos 10)))) whole
    ∙ ap (λ m. body_of rest (pos (n + 10)) max_len (readall rest m))
        (ap wrap (pos_sub n 10) ∙ wrap_small n (omega arith))
    ∙ rw (within, positive) refl
  where
    whole : wrap (pos n +ℤ pos 10) ≡ pos (n + 10)
    whole = ap wrap (pos_add n 10) ∙ wrap_small (n + 10) (omega arith)

    within : ltb_ℤ (pos max_len) (pos (n + 10)) ≡ false
    within = ground arith

    positive : ltb_ℤ (readall rest (pos n)).0 (pos 0) ≡ false
    positive = ap (λ r. ltb_ℤ r (pos 0)) e ∙ ground arith

-- A message that one side sends as a header and a command, and that comes in any pieces, the other
-- reads by readcmd as that command, and leaves what follows it at the socket, where the command and
-- the header have at most max_len bytes, an int.
pub readcmd-new_cmd :
    (answers : List Receiving) (cmd rest : List ℕ) (max_len : ℕ)
    → IsPlain answers
    → stream answers ≡ new_cmd cmd ++ rest
    → length cmd + cmd_prefix_byte ≤ max_len
    → max_len < 2 ^ 31
    → let r = readcmd answers max_len in
      (r.0 ≡ pos (length cmd)) × (r.1 ≡ cmd) × (stream r.2 ≡ rest)
unfolding readcmd new_cmd
readcmd-new_cmd answers cmd rest max_len plain e fits small =
    let msg_len = int_of_bits (length cmd % 2 ^ 32) in
    let head = fill_cmd_head msg_len in
    let fits_int = int_of_length (length cmd) (omega (arith, fits, small)) in
    let first = readall-Whole answers head (cmd ++ rest) plain (e ∙ append_assoc head cmd rest) in
    let n = length cmd in
    let header =
      subst (λ k. (readall answers (pos k)).0 ≡ pos k) (length-fill_cmd_head msg_len) first.0 in
    let bytes =
      subst (λ k. (readall answers (pos k)).1 ≡ head) (length-fill_cmd_head msg_len) first.1 in
    let left =
      subst (λ k. stream (readall answers (pos k)).2 ≡ cmd ++ rest) (length-fill_cmd_head msg_len)
        first.2 in
    let plain' =
      subst (λ k. IsPlain (readall answers (pos k)).2) (length-fill_cmd_head msg_len) first.3 in
    let r = readall answers (pos 10) in
    let second = readall-Whole r.2 cmd rest plain' left in
    let parsed =
      ap parse_cmd_head (bytes ∙ sym (append-nil head))
      ∙ parse-fill msg_len [] (ground (arith, fits_int, fits, small))
      ∙ ap (λ m. pos (pos_part m)) fits_int in
    let same =
      ap
        (λ z.
          if ltb_ℤ z (pos 0)
          then (negsuc 0, [], r.2)
          else read_body r.2 (parse_cmd_head r.1) max_len)
        header
      ∙ ap (λ z. read_body r.2 z max_len) parsed
      ∙ read_body_fits r.2 n max_len fits small second.0 in
    (
      ap (λ t. t.0) same ∙ second.0,
      ap (λ t. t.1) same ∙ second.1,
      ap (λ t. stream t.2) same ∙ second.2,
    )

readall_negative : (answers : List Receiving) → (readall answers (negsuc 0)).0 ≡ pos 0
unfolding readall read_loop
readall_negative [] = refl
readall_negative (Receiving.poll_retry ∷ rest) = refl
readall_negative (Receiving.poll_broken ∷ rest) = refl
readall_negative (Receiving.poll_timeout ∷ rest) = refl
readall_negative (comes d ∷ rest) = refl
readall_negative (Receiving.retry ∷ rest) = refl
readall_negative (Receiving.broken ∷ rest) = refl

-- The body of a message whose header is malformed.
read_body_bad :
    (rest : List Receiving) (max_len : ℕ)
    → 9 ≤ max_len
    → (read_body rest (negsuc 0) max_len).0 ≡ pos 0
unfolding read_body wrap
read_body_bad rest max_len l =
    rw (within, ap (λ r. ltb_ℤ r (pos 0)) (readall_negative rest)) (readall_negative rest)
  where
    within : ltb_ℤ (pos max_len) (pos 9) ≡ false
    within = ground arith

-- Where one of the ten bytes of a header is no digit, readcmd reports no error but a command of no
-- bytes: the length -1 goes through the limit
-- and into readall, which reads nothing. The limit is at least 9.
pub readcmd_bad_header :
    (answers : List Receiving) (before after rest : List ℕ) (c max_len : ℕ)
    → IsPlain answers
    → stream answers ≡ (before ++ c ∷ after) ++ rest
    → length (before ++ c ∷ after) ≡ cmd_prefix_byte
    → length before < cmd_prefix_byte
    → (c < b'0') ⊎ (b'9' < c)
    → 9 ≤ max_len
    → (readcmd answers max_len).0 ≡ pos 0
unfolding readcmd
readcmd_bad_header answers before after rest c max_len plain e ten some_left bad l =
    let head = before ++ c ∷ after in
    let first = readall-Whole answers head rest plain e in
    let r = readall answers (pos 10) in
    let header = subst (λ k. (readall answers (pos k)).0 ≡ pos k) ten first.0 in
    let bytes = subst (λ k. (readall answers (pos k)).1 ≡ head) ten first.1 in
    let parsed = ap parse_cmd_head bytes ∙ parse_cmd_head_bad c before after some_left bad in
    ap
      (λ z.
        (if ltb_ℤ z (pos 0)
          then (negsuc 0, [], r.2)
          else read_body r.2 (parse_cmd_head r.1) max_len).0)
      header
    ∙ ap (λ z. (read_body r.2 z max_len).0) parsed
    ∙ read_body_bad r.2 max_len l
