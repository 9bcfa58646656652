-- ===== src/Bulk/Ending.antt =====
-- sendfileall of src/gingko_base.cpp: when its event loop ends, and when it does not.
use gko_pool.Prelude.{
  ℕ, ◌+◌, ◌-◌, ◌≤◌, ◌<◌, ◌≡◌, refl, ap, ◌∙◌, inl, inr, arith, false, none, some, List, [], ◌∷◌,
  ◌==◌, ==_iff, length, take, drop, length-take, length-drop, Bool-cases,
}
use gko_pool.Prelude.Int.{pos}
use gko_pool.Bulk.{
  Sendfile, EventBase, sends, blocked, fails, SendfileArg, gsendfile, take_sent, ev_fn_gsendfile,
  event_loop, finish, new_arg, sendfileall,
}
use gko_pool.Bulk.Sending.{
  Sends, piece_of, length-piece_of, piece-Sends, event_loop-Ends, start-Sends, all_sent,
}

-- Answers of a socket that takes at least a byte each time.
abbrev pub AreSends : List Sendfile → Type 0
AreSends [] = Unit
AreSends (sends n ∷ rest) = (0 < n) × AreSends rest
AreSends (blocked ∷ rest) = ⊥
AreSends (fails ∷ rest) = ⊥

-- The loop ends where the file has the bytes and the socket takes some each time.
loop_ends :
    (answers : List Sendfile) (file : List ℕ) (a : SendfileArg)
    → AreSends answers
    → a.send_counter < a.count
    → a.offset + a.count ≤ length file
    → a.count ≤ a.send_counter + length answers
    → (b : SendfileArg) × (n : ℕ) × (event_loop false answers file a ≡ some b) × (b.sent ≡ pos n)
unfolding event_loop ev_fn_gsendfile gsendfile take_sent
loop_ends [] file a fine l fits enough = absurd (omega (arith, l, enough))
loop_ends (sends n ∷ rest) file a fine l fits enough =
    let piece = piece_of file a n in
    let some_sent : 0 < length piece = omega (
      arith,
      fine.0,
      l,
      fits,
      length-take n (take (a.count - a.send_counter) (drop (a.offset + a.send_counter) file)),
      length-take (a.count - a.send_counter) (drop (a.offset + a.send_counter) file),
      length-drop (a.offset + a.send_counter) file,
    ) in
    let at_most = length-piece_of file a n in
    elim (Bool-cases (a.send_counter + length piece == a.count)) [
      | inl e ↦ rw e ((take_sent a (some piece)).1, length piece, refl, refl)
      | inr e ↦ rw e (
          loop_ends rest file (take_sent a (some piece)).1 fine.1 (ground (arith, e, at_most, l))
            fits (omega (arith, enough, some_sent)))
    ]
loop_ends (blocked ∷ rest) file a fine l fits enough = absurd fine
loop_ends (fails ∷ rest) file a fine l fits enough = absurd fine

-- sendfileall ends, where event_add and event_base_loop do not fail: where the file has the bytes that are asked for, and the socket takes at least one of
-- them each time that it can be written to, it returns 0 with all of them sent, after at most as many
-- events as bytes.
pub sendfileall_ends :
    (answers : List Sendfile) (file : List ℕ) (offset count : ℕ)
    → AreSends answers
    → offset + count ≤ length file
    → count ≤ length answers
    → sendfileall EventBase.waits answers file offset count
      ≡ some (pos 0, take count (drop offset file))
unfolding sendfileall finish
sendfileall_ends answers file offset count fine fits enough = elim (Bool-cases (count == 0)) [
  | inl z ↦ let none_asked : count ≡ 0 = (==_iff count 0).0 z in rw none_asked refl
  | inr z ↦
      let (b, n, got, sent) =
        loop_ends answers file (new_arg offset count) fine (ground (arith, z)) fits
          (omega (arith, enough)) in
      let returns : finish b ≡ (pos 0, b.out) = ap (λ k. finish (record b { sent = k })) sent in
      let whole =
        all_sent file offset count b
          (event_loop-Ends answers file (new_arg offset count) b (start-Sends file offset count)
            got)
          (ap (λ r. r.0) returns) in
      rw (z, got) (ap some (returns ∙ ap (λ o. (pos 0, o)) whole.0))
]

-- Answers without an error.
abbrev pub NoneFails : List Sendfile → Type 0
NoneFails [] = Unit
NoneFails (sends n ∷ rest) = NoneFails rest
NoneFails (blocked ∷ rest) = NoneFails rest
NoneFails (fails ∷ rest) = ⊥

not_all :
    (file : List ℕ) (a : SendfileArg)
    → Sends file a
    → 0 < a.count
    → length file < a.offset + a.count
    → (a.send_counter == a.count) ≡ false
not_all file a s l short =
    let sent = ap length s.first ∙ length-take (length a.out) (drop a.offset file) in
    let most : a.send_counter < a.count =
      omega (arith, s.counted, sent, length-drop a.offset file, l, short) in
    ground (arith, most)

loop_waits :
    (answers : List Sendfile) (file : List ℕ) (a : SendfileArg)
    → NoneFails answers
    → Sends file a
    → 0 < a.count
    → length file < a.offset + a.count
    → event_loop false answers file a ≡ none
unfolding event_loop ev_fn_gsendfile gsendfile take_sent
loop_waits [] file a fine s l short = refl
loop_waits (sends n ∷ rest) file a fine s l short =
    let s' = piece-Sends file a n s in
    rw (not_all file (take_sent a (some (piece_of file a n))).1 s' l short)
      (loop_waits rest file (take_sent a (some (piece_of file a n))).1 fine s' l short)
loop_waits (blocked ∷ rest) file a fine s l short =
    let s' = piece-Sends file a 0 s in
    rw (not_all file (take_sent a (some [])).1 s' l short)
      (loop_waits rest file (take_sent a (some [])).1 fine s' l short)
loop_waits (fails ∷ rest) file a fine s l short = absurd fine

-- Where the file ends before the bytes that are asked for, and no call of sendfile fails, sendfileall does
-- not return, however often the socket can be written to: at the file's end sendfile sends 0 bytes each
-- time, and the event stays.
pub sendfileall_short :
    (answers : List Sendfile) (file : List ℕ) (offset count : ℕ)
    → NoneFails answers
    → 0 < count
    → length file < offset + count
    → sendfileall EventBase.waits answers file offset count ≡ none
unfolding sendfileall
sendfileall_short answers file offset count fine l short =
    let some_asked : (count == 0) ≡ false = ground (arith, l) in
    rw
      (
        some_asked,
        loop_waits answers file (new_arg offset count) fine (start-Sends file offset count) l short,
      )
      refl
