-- ===== src/Bulk/Sending.antt =====
-- sendfileall of src/gingko_base.cpp: when it ends, and what it has sent then.
use gko_pool.Prelude.{
  ℕ, ◌+◌, ◌-◌, ◌≤◌, ◌≡◌, refl, sym, ap, ◌∙◌, inl, inr, arith, false, none, some, List, [], ◌∷◌,
  ◌++◌, ◌==◌, ==_iff, subst, ◌⊎◌, length, take, drop, length-take, length-append, Bool-cases, ◌⊎◌,
  subst, Option-cases,
}
use gko_pool.Prelude.Int.{ℤ, pos, negsuc}
use gko_pool.Bulk.{
  Sendfile, EventBase, sends, blocked, fails, SendfileArg, gsendfile, take_sent, ev_fn_gsendfile,
  event_loop, finish, new_arg, sendfileall,
}
use gko_pool.Bulk.Reading.{piece_next}

-- What the socket has been given is the first bytes of those asked for, and not yet all.
pub record Sends (file : List ℕ) (a : SendfileArg) : Type 0 where
  pub first : a.out ≡ take (length a.out) (drop a.offset file)
  pub counted : a.send_counter ≡ length a.out
  pub room : a.send_counter ≤ a.count

-- The bytes of a call of sendfile that sends up to `n`.
abbrev pub piece_of : List ℕ → SendfileArg → ℕ → List ℕ
piece_of file a n = take n (take (a.count - a.send_counter) (drop (a.offset + a.send_counter) file))

pub length-piece_of :
    (file : List ℕ) (a : SendfileArg) (n : ℕ)
    → length (piece_of file a n) ≤ a.count - a.send_counter
length-piece_of file a n = omega (
  arith,
  length-take n (take (a.count - a.send_counter) (drop (a.offset + a.send_counter) file)),
  length-take (a.count - a.send_counter) (drop (a.offset + a.send_counter) file),
)

pub piece-Sends :
    (file : List ℕ) (a : SendfileArg) (n : ℕ)
    → Sends file a
    → Sends file (take_sent a (some (piece_of file a n))).1
unfolding take_sent
piece-Sends file a n s = record {
  first =
      subst
        (λ k.
          let piece = take n (take (a.count - a.send_counter) (drop (a.offset + k) file)) in
          a.out ++ piece ≡ take (length (a.out ++ piece)) (drop a.offset file))
        (sym s.counted) (piece_next file a.out a.offset n (a.count - a.send_counter) s.first);
  counted = omega (arith, s.counted, length-append a.out (piece_of file a n));
  room = omega (arith, s.room, length-piece_of file a n);
}

event-Sends :
    (answer : Sendfile) (file : List ℕ) (a : SendfileArg)
    → Sends file a
    → Sends file (ev_fn_gsendfile answer file a).1
unfolding ev_fn_gsendfile gsendfile take_sent
event-Sends fails file a s = record { first = s.first; counted = s.counted; room = s.room }
event-Sends blocked file a s = piece-Sends file a 0 s
event-Sends (sends n) file a s = piece-Sends file a n s

-- What an event leaves: the job's bounds as they were, and the event deleted only at the end.
event-Ends :
    (answer : Sendfile) (file : List ℕ) (a : SendfileArg)
    → let r = ev_fn_gsendfile answer file a in
      (r.1.offset ≡ a.offset)
      × (r.1.count ≡ a.count)
      × (r.0 ≡ false → (r.1.sent ≡ negsuc 0) ⊎ (r.1.send_counter ≡ a.count))
unfolding ev_fn_gsendfile gsendfile take_sent
event-Ends fails file a = (refl, refl, λ e. inl refl)
event-Ends blocked file a = (refl, refl, λ e. inr (ground (arith, e)))
event-Ends (sends n) file a = (refl, refl, λ e. inr (ground (arith, e)))

-- A loop that has ended, with an error or with all bytes sent.
abbrev pub Ended : List ℕ → SendfileArg → SendfileArg → Type 0
Ended file a b =
    Sends file b
    × (b.offset ≡ a.offset)
    × (b.count ≡ a.count)
    × ((b.sent ≡ negsuc 0) ⊎ (b.send_counter ≡ a.count))

pub event_loop-Ends :
    (answers : List Sendfile) (file : List ℕ) (a b : SendfileArg)
    → Sends file a
    → event_loop false answers file a ≡ some b
    → Ended file a b
unfolding event_loop
event_loop-Ends [] file a b s e = absurd (nothing e)
  where
    nothing : none ≡ some b → ⊥
    nothing e = cc
event_loop-Ends (answer ∷ rest) file a b s e =
    let r = ev_fn_gsendfile answer file a in
    let ends = event-Ends answer file a in
    elim (Bool-cases r.0) [
      | inl stays ↦
          let (s', o, c, end) =
            event_loop-Ends rest file r.1 b (event-Sends answer file a s)
              (ground (arith, stays, e)) in
          (s', o ∙ ends.0, c ∙ ends.1, after end ends.1)
      | inr over ↦
          let same : r.1 ≡ b = ground (arith, over, e) in
          subst (Ended file a) same (event-Sends answer file a s, ends.0, ends.1, ends.2 over)
    ]
  where
    after :
        {x y : ℕ}
        → (b.sent ≡ negsuc 0) ⊎ (b.send_counter ≡ x)
        → x ≡ y
        → (b.sent ≡ negsuc 0) ⊎ (b.send_counter ≡ y)
    after (inl bad) e = inl bad
    after (inr all) e = inr (all ∙ e)

pub start-Sends : (file : List ℕ) (offset count : ℕ) → Sends file (new_arg offset count)
start-Sends file offset count = record { first = refl; counted = refl; room = omega arith }

pub finish-out : (b : SendfileArg) → (finish b).1 ≡ b.out
unfolding finish
finish-out b = go b.sent
  where
    go :
        (n : ℤ)
        → (elim n as (λ _. ℤ × List ℕ) [ pos n ↦ (pos 0, b.out) | negsuc n ↦ (negsuc 0, b.out) ]).1
          ≡ b.out
    go (pos n) = refl
    go (negsuc n) = refl

pub all_sent :
    (file : List ℕ) (offset count : ℕ) (b : SendfileArg)
    → Ended file (new_arg offset count) b
    → (finish b).0 ≡ pos 0
    → (b.out ≡ take count (drop offset file)) × (length b.out ≡ count)
unfolding finish
all_sent file offset count b (s, o, c, inl bad) fine =
    absurd (clash (ap (λ n. (finish (record b { sent = n })).0) (sym bad) ∙ fine))
  where
    clash : negsuc 0 ≡ pos 0 → ⊥
    clash e = cc
all_sent file offset count b (s, o, c, inr all) fine =
    let whole : length b.out ≡ count = sym s.counted ∙ all in
    (
      s.first
          ∙ (ap (λ k. take k (drop b.offset file)) whole ∙ ap (λ k. take count (drop k file)) o),
      whole,
    )

-- Where event_add takes the event and event_base_loop does not fail, sendfileall returns 0 only after it has
-- given the socket all that it is asked for, each byte once and in order: the bytes sent are those of the
-- file from the offset on, and they are `count` many.
pub sendfileall_whole :
    (answers : List Sendfile) (file out : List ℕ) (offset count : ℕ)
    → sendfileall EventBase.waits answers file offset count ≡ some (pos 0, out)
    → (out ≡ take count (drop offset file)) × (length out ≡ count)
unfolding sendfileall
sendfileall_whole answers file out offset count e = elim (Bool-cases (count == 0)) [
  | inl z ↦
      let none_asked : count ≡ 0 = (==_iff count 0).0 z in
      let empty : zero_sent ≡ zero_out = some_inj (ground (arith, z, e)) in
      rw none_asked (sym (ap (λ r. r.1) empty), ap (λ r. length r.1) (sym empty))
  | inr z ↦ elim (Option-cases (event_loop false answers file (new_arg offset count))) [
    | inl none_yet ↦ absurd (no_result (ground (arith, z, none_yet, e)))
    | inr (b, got) ↦
        let same : finish b ≡ zero_out = some_inj (ground (arith, z, got, e)) in
        let whole =
          all_sent file offset count b
            (event_loop-Ends answers file (new_arg offset count) b (start-Sends file offset count)
              got)
            (ap (λ r. r.0) same) in
        let sent : b.out ≡ out = sym (finish-out b) ∙ ap (λ r. r.1) same in
        (sym sent ∙ whole.0, ap length (sym sent) ∙ whole.1)
  ]
]
  where
    zero_sent : ℤ × List ℕ
    zero_sent = (pos 0, [])

    zero_out : ℤ × List ℕ
    zero_out = (pos 0, out)

    no_result : none ≡ some zero_out → ⊥
    no_result e = cc

    some_inj : {x y : ℤ × List ℕ} → some x ≡ some y → x ≡ y
    some_inj {x} {y} e = ap (λ o. elim o as (λ _. ℤ × List ℕ) [ none ↦ x | some r ↦ r ]) e
