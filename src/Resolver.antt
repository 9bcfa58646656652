-- ===== src/Resolver.antt =====
-- The resolver of the connections that go out: src/async_dns.cpp. What c-ares does is a parameter; the
-- cache of names is a dictionary outside the model.
pub mod Names
pub mod Answers
pub mod Runs
mod Tests
use gko_pool.Prelude.{
  ℕ, zero, suc, ◌+◌, ◌*◌, ◌/◌, ◌%◌, ◌^◌, Bool, true, false, ◌&&◌, not, Option, none, some, List, [],
  ◌∷◌, ◌++◌, ◌==◌, if◌then◌else◌, length, map,
}
use gko_pool.Prelude.Int.{ℤ, pos, negsuc, ltb_ℤ, ◌+ℤ◌, pos_part, neg_part}
use gko_pool.Client.{Client, World, State, code, conn_set_state, dns_resolve_fail}
use gko_pool.Machine.{Next, Calls, DnsCacheVal, dns_expire_time, state_machine}

-- What c-ares tells dns_callback: a host's address, or that there is none.
pub data Answer : Type 0 where
  resolved : ℕ → Answer
  unresolved : Answer

-- gko_pool::update_dns_cache: the entry that it stores, none where the cache is off.
pub update_dns_cache : ℕ → ℕ → Option DnsCacheVal
update_dns_cache now addr =
    if not (ltb_ℤ (pos 0) dns_expire_time)
    then none
    else some (record { expire_time = pos now +ℤ dns_expire_time; addr = addr })

-- gko_pool::del_dns_event
pub del_dns_event : Client → Client
del_dns_event c = record c { dns_events = 0 }

-- The state that an answer puts a client in.
pub take_answer : Answer → Client → World → Client × World
take_answer (resolved addr) c w =
    conn_set_state (record c { client_addr = addr }) w State.connecting
take_answer unresolved c w = conn_set_state (record c { err_no = dns_resolve_fail }) w State.closing

-- gko_pool::dns_callback
pub dns_callback : Calls → ℕ → Answer → Client → World → Next × Client × World
dns_callback calls fuel answer c w =
    let (c', w') = take_answer answer c w in state_machine calls fuel (del_dns_event c') w'

-- What ares_process_fd does to a client, for a descriptor to read and one to write, none for
-- ARES_SOCKET_BAD: it calls dns_callback if it has the client's answer.
pub process_answer : Calls → ℕ → Option Answer → Client → World → Next × Client × World
process_answer calls fuel none c w = (Next.stops, c, w)
process_answer calls fuel (some answer) c w = dns_callback calls fuel answer c w

-- What the three calls of ares_process_fd in dns_ev_callback answer.
pub record Processed : Type 0 where
  pub on_read : Option Answer
  pub on_write : Option Answer
  pub on_timeout : Option Answer

-- EV_TIMEOUT, EV_READ and EV_WRITE, as bits of the event's flags
abbrev pub has_flag : ℕ → ℕ → Bool
has_flag ev flag = not (ev / flag % 2 == 0)

pub times_out : Calls → ℕ → Client → World → Next × Client × World
times_out calls fuel c w =
    let (c', w') = conn_set_state (record c { err_no = dns_resolve_fail }) w State.closing in
    state_machine calls fuel (del_dns_event c') w'

-- gko_pool::dns_ev_callback
pub dns_ev_callback : Calls → ℕ → Processed → ℕ → Client → World → Next × Client × World
dns_ev_callback calls fuel processed ev c w =
    let on_flag =
      λ (flag : ℕ) (answer : Option Answer). if has_flag ev flag then answer else none in
    let (n1, c1, w1) = process_answer calls fuel (on_flag 2 processed.on_read) c w in
    let (n2, c2, w2) = process_answer calls fuel (on_flag 4 processed.on_write) c1 w1 in
    let (n3, c3, w3) = process_answer calls fuel (on_flag 1 processed.on_timeout) c2 w2 in
    if code c.state == code State.closing
    then state_machine calls fuel (del_dns_event c) w
    else if has_flag ev 1
    then times_out calls fuel c3 w3
    else (n2, c2, w2)

-- What c-ares does for nb_gethostbyname: the answer with which ares_gethostbyname calls dns_callback
-- before it returns, none where it does so later, and the descriptors that ares_fds_array gives then,
-- each list up to its ARES_SOCKET_BAD.
pub record Ares : Type 0 where
  pub ares_gethostbyname : Client → World → Option Answer
  pub read_fds : Client → World → List ℤ
  pub write_fds : Client → World → List ℤ

-- One loop over an array: an event for each descriptor, with EV_READ or EV_WRITE and EV_PERSIST.
abbrev pub watch : ℕ → List ℤ → List (ℤ × ℕ)
watch flags fds = map (λ fd. (fd, flags)) fds

-- gko_pool::nb_gethostbyname, with the events that it adds. An answer at once has two turns of the state
-- machine: from connecting or closing it makes no more.
pub nb_gethostbyname : Calls → Ares → Client → World → Client × World × List (ℤ × ℕ)
nb_gethostbyname calls ares c w =
    let (next, c', w') = process_answer calls 2 (ares.ares_gethostbyname c w) c w in
    let read_fds = ares.read_fds c' w' in
    let write_fds = ares.write_fds c' w' in
    if (length read_fds == 0) && (length write_fds == 0) then (del_dns_event c', w', []) else (
      record c' { dns_events = c'.dns_events + length read_fds + length write_fds },
      w',
      watch 18 read_fds ++ watch 20 write_fds,
    )

-- The calls of the state machine with this resolver.
abbrev pub with_ares : Calls → Ares → Calls
with_ares calls ares = record calls {
  nb_gethostbyname = λ c w. let r = nb_gethostbyname calls ares c w in (r.0, r.1);
}

-- dictGenStrCaseHashFunction on the bytes of a name, up to its NUL, and dictStrCaseKeyCompare. What
-- tolower does is a parameter, and so is what strcasecmp answers.
pub hash_from : (ℕ → ℕ) → ℕ → List ℕ → ℕ
hash_from tolower hash [] = hash
hash_from tolower hash (b ∷ buf) =
    if b == 0
    then hash
    else hash_from tolower ((hash * 2 ^ 5 % 2 ^ 32 + hash + tolower b) % 2 ^ 32) buf

pub dict_gen_str_case_hash_function : (ℕ → ℕ) → List ℕ → ℕ
dict_gen_str_case_hash_function tolower buf = hash_from tolower 5381 buf

pub dict_str_case_key_compare : (List ℕ → List ℕ → ℤ) → List ℕ → List ℕ → Bool
dict_str_case_key_compare strcasecmp key1 key2 =
    let n = strcasecmp key1 key2 in pos_part n + neg_part n == 0
