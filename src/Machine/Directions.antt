-- ===== src/Machine/Directions.antt =====
-- The states that a connection of each direction can have, in state_machine of src/async_threads.cpp.
use gko_pool.Prelude.{ℕ, ◌≡◌, refl, subst, sym, Bool, true, false, ◌&&◌}
use gko_pool.Client.{Client, World, State, ConnType}
use gko_pool.Machine.{Calls, state_machine}
use gko_pool.Machine.Walks.{state_machine-Walk}
use gko_pool.Machine.Graph.{
  Edge, listens, unwatched, nothing_yet, header, complete, unread, long, short, malformed, answers,
  done, unsent, sent, asked, renews, cached, resolves, connects, unconnected, found, unknown, Walk,
  here, goes, IsQuiet,
}

-- The states of a connection that comes, and of one that goes out.
abbrev pub is_served : State → Bool
is_served State.waiting = true
is_served State.read = true
is_served State.parse_header = true
is_served State.parse_cmd = true
is_served State.write = true
is_served State.renew = true
is_served State.closing = true
is_served _ = false

abbrev pub is_asking : State → Bool
is_asking State.dns_cache = true
is_asking State.resolving = true
is_asking State.connecting = true
is_asking State.write = true
is_asking State.read = true
is_asking State.waiting = true
is_asking State.parse_header = true
is_asking State.parse_cmd = true
is_asking State.closing = true
is_asking _ = false

abbrev pub is_legal : ConnType → State → Bool
is_legal ConnType.coming s = is_served s
is_legal ConnType.active s = is_asking s

both : (a b : Bool) → (a && b) ≡ true → (a ≡ true) × (b ≡ true)
both true b e = (refl, e)
both false b e = (e, cc)

common : (t : ConnType) (s : State) → (is_served s && is_asking s) ≡ true → is_legal t s ≡ true
common ConnType.coming s e = (both (is_served s) (is_asking s) e).0
common ConnType.active s e = (both (is_served s) (is_asking s) e).1

Edge-legal :
    {t : ConnType} {s s' : State} → Edge t s s' → is_legal t s ≡ true → is_legal t s' ≡ true
Edge-legal {t = t} listens legal = common t State.read refl
Edge-legal {t = t} unwatched legal = common t State.closing refl
Edge-legal {t = t} nothing_yet legal = common t State.waiting refl
Edge-legal {t = t} header legal = common t State.parse_header refl
Edge-legal {t = t} complete legal = common t State.parse_cmd refl
Edge-legal {t = t} unread legal = common t State.closing refl
Edge-legal {t = t} long legal = common t State.read refl
Edge-legal {t = t} short legal = common t State.parse_cmd refl
Edge-legal {t = t} malformed legal = common t State.closing refl
Edge-legal answers legal = refl
Edge-legal {t = t} done legal = common t State.closing refl
Edge-legal {t = t} unsent legal = common t State.closing refl
Edge-legal sent legal = refl
Edge-legal asked legal = refl
Edge-legal {t = t} renews legal = common t State.waiting refl
Edge-legal {t = ConnType.coming} cached legal = legal
Edge-legal {t = ConnType.active} cached legal = refl
Edge-legal {t = ConnType.coming} resolves legal = legal
Edge-legal {t = ConnType.active} resolves legal = refl
Edge-legal {t = ConnType.coming} found legal = legal
Edge-legal {t = ConnType.active} found legal = refl
Edge-legal {t = t} unknown legal = common t State.closing refl
Edge-legal {t = t} connects legal = common t State.write refl
Edge-legal {t = t} unconnected legal = common t State.closing refl

Walk-legal :
    {t : ConnType} {s s' : State} → Walk t s s' → is_legal t s ≡ true → is_legal t s' ≡ true
Walk-legal here legal = legal
Walk-legal (goes walk edge) legal = Edge-legal edge (Walk-legal walk legal)

-- A connection keeps to the states of its direction: one that comes is never resolved or connected, one
-- that goes out is never renewed, and neither is in a state that the machine does not handle. This holds
-- of what state_machine leaves, where it held before, whatever the system answers, if the callback keeps
-- the connection's direction, and the resolver the direction and the edges of the graph.
pub state_machine_keeps_direction :
    (calls : Calls) (fuel : ℕ) (c : Client) (w : World)
    → IsQuiet calls
    → is_legal c.type c.state ≡ true
    → let r = state_machine calls fuel c w in
      (r.1.type ≡ c.type) × (is_legal r.1.type r.1.state ≡ true)
state_machine_keeps_direction calls fuel c w quiet legal =
    let (same, walk) = state_machine-Walk calls fuel c w quiet in
    (
      same,
      subst (λ t. is_legal t (state_machine calls fuel c w).1.state ≡ true) (sym same)
          (Walk-legal walk legal),
    )

-- Nothing leads out of closing.
Walk-final : {t : ConnType} {s s' : State} → Walk t s s' → s ≡ State.closing → s' ≡ State.closing
Walk-final here e = e
Walk-final (goes walk edge) e = stuck edge (Walk-final walk e)
  where
    stuck : {t : ConnType} {s s' : State} → Edge t s s' → s ≡ State.closing → s' ≡ State.closing
    stuck listens e = cc
    stuck unwatched e = refl
    stuck nothing_yet e = cc
    stuck header e = cc
    stuck complete e = cc
    stuck unread e = refl
    stuck long e = cc
    stuck short e = cc
    stuck malformed e = refl
    stuck answers e = cc
    stuck done e = refl
    stuck unsent e = refl
    stuck sent e = cc
    stuck asked e = cc
    stuck renews e = cc
    stuck cached e = cc
    stuck resolves e = cc
    stuck found e = cc
    stuck unknown e = refl
    stuck connects e = cc
    stuck unconnected e = refl

-- Once a connection is in the state closing, state_machine leaves it there, on the same terms.
pub state_machine_stays_closed :
    (calls : Calls) (fuel : ℕ) (c : Client) (w : World)
    → IsQuiet calls
    → c.state ≡ State.closing
    → (state_machine calls fuel c w).1.state ≡ State.closing
state_machine_stays_closed calls fuel c w quiet e =
    Walk-final (state_machine-Walk calls fuel c w quiet).1 e
