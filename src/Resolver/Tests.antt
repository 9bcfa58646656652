-- ===== src/Resolver/Tests.antt =====
-- Runs and witnesses of the resolver, src/async_dns.cpp.
use gko_pool.Machine.{answer, state_machine}
use gko_pool.Machine.Directions.{is_legal}
use gko_pool.Machine.Rests.{is_resting}
use gko_pool.Machine.Halts.{IsCalm}
use gko_pool.Transfer.Stream.{pending}
use gko_pool.Resolver.{with_ares}
use gko_pool.Resolver.Runs.{state_machine_settles, state_machine_keeps_to_direction}
use gko_pool.Client.{ConnType, World}
use gko_pool.Prelude.{◌+◌, ◌*◌, ◌≤◌, some}
use gko_pool.Prelude.{
  ℕ, ◌≡◌, refl, arith, true, none, List, [], ◌∷◌, ◌==◌, if◌then◌else◌, map, Bool-cases, ==_iff, inl,
  inr, some,
}
use gko_pool.Prelude.Int.{ℤ, pos, negsuc}
use gko_pool.Client.{Client, State}
use gko_pool.Samples.{sample_client, sample_world}
use gko_pool.Machine.{Calls}
use gko_pool.Resolver.{
  resolved, dns_callback, Ares, hash_from, dict_gen_str_case_hash_function,
  dict_str_case_key_compare,
}
use gko_pool.Resolver.Names.{c_string, dict_str_case_key_compare-hash}
use gko_pool.Resolver.Answers.{IsSettled, dns_callback_settles}

-- A client that waits for its host's address, on a server without a callback.
abbrev resolving_client : Client
resolving_client = record sample_client {
  state = State.resolving;
  client_fd = negsuc 0;
  dns_events = 2;
}

abbrev quiet_calls : Calls
quiet_calls = record {
  on_data_callback = none;
  nb_gethostbyname = λ c w. (c, w);
  fetched = λ c w. none;
}

dns_callback_settles_example :
    IsSettled
      (resolved 16777343)
      resolving_client
      sample_world
      (dns_callback quiet_calls 2 (resolved 16777343) resolving_client sample_world)
dns_callback_settles_example =
    dns_callback_settles quiet_calls 0 (resolved 16777343) resolving_client sample_world refl

-- c-ares with the answer at once.
abbrev answering : Ares
answering = record {
  ares_gethostbyname = λ c w. some (resolved 16777343);
  read_fds = λ c w. [];
  write_fds = λ c w. [];
}

-- A connection that goes out, at its start; c-ares knows its host at once.
abbrev starting_client : Client
starting_client = record resolving_client { state = State.dns_cache; type = ConnType.active }

enough_fuel : 9 * pending sample_world.reads + 9 ≤ 3000
unfolding pending
enough_fuel = omega arith

quiet_calls-IsCalm : IsCalm quiet_calls
unfolding answer
quiet_calls-IsCalm c w u32 = (omega arith, u32)

quiet_calls_keep : (c : Client) (w : World) → (answer quiet_calls c w).0.type ≡ c.type
unfolding answer
quiet_calls_keep c w = refl

state_machine_settles_example :
    is_resting
      (state_machine (with_ares quiet_calls answering) 3000 starting_client sample_world).1.state
    ≡ true
state_machine_settles_example =
    state_machine_settles quiet_calls answering 3000 starting_client sample_world quiet_calls-IsCalm
      refl (omega arith) enough_fuel

state_machine_keeps_to_direction_example :
    let r = state_machine (with_ares quiet_calls answering) 3000 starting_client sample_world in
    (r.1.type ≡ ConnType.active) × (is_legal r.1.type r.1.state ≡ true)
state_machine_keeps_to_direction_example =
    state_machine_keeps_to_direction quiet_calls answering 3000 starting_client sample_world
      quiet_calls_keep refl

-- A comparison that takes only a name and itself, up to its NUL and in lower case, for equal.
abbrev lower : ℕ → ℕ
lower b = if b == 65 then 97 else b

diff : List ℕ → List ℕ → ℤ
diff [] [] = pos 0
diff [] (b ∷ bytes) = negsuc 0
diff (a ∷ bytes) [] = pos 1
diff (a ∷ bytes) (b ∷ bytes') = let rest = diff bytes bytes' in if a == b then rest else pos 1

diff_zero : (xs ys : List ℕ) → diff xs ys ≡ pos 0 → xs ≡ ys
unfolding diff
diff_zero [] [] e = refl
diff_zero [] (b ∷ bytes) e = cc
diff_zero (a ∷ bytes) [] e = absurd (one_zero e)
  where
    one_zero : pos 1 ≡ pos 0 → ⊥
    one_zero e = ground arith
diff_zero (a ∷ bytes) (b ∷ bytes') e = elim (Bool-cases (a == b)) [
  | inl same ↦ rw ((==_iff a b).0 same, diff_zero bytes bytes' (ground (arith, same, e))) refl
  | inr other ↦ absurd (ground (arith, other, e))
]

abbrev strcasecmp : List ℕ → List ℕ → ℤ
strcasecmp a b = diff (map lower (c_string a)) (map lower (c_string b))

-- "Ab" and "aB" are one key, where tolower makes "a" of "A".
abbrev name : List ℕ
name = 65 ∷ 98 ∷ 0 ∷ []

abbrev name' : List ℕ
name' = 97 ∷ 98 ∷ 0 ∷ 7 ∷ []

same_key : dict_str_case_key_compare strcasecmp name name' ≡ true
unfolding dict_str_case_key_compare diff
same_key = refl

dict_str_case_key_compare-hash_example :
    dict_gen_str_case_hash_function lower name ≡ dict_gen_str_case_hash_function lower name'
dict_str_case_key_compare-hash_example =
    dict_str_case_key_compare-hash lower strcasecmp name name'
      (λ a b e. diff_zero (map lower (c_string a)) (map lower (c_string b)) e) same_key

name_hash : dict_gen_str_case_hash_function lower name ≡ 5863208
unfolding dict_gen_str_case_hash_function hash_from
name_hash = refl
