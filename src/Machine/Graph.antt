-- ===== src/Machine/Graph.antt =====
-- The states of a connection as a graph: which state a turn of state_machine, src/async_threads.cpp,
-- can set, for a connection that comes and for one that goes out.
use gko_pool.Prelude.{ℕ, ◌≡◌, refl, sym, subst, ◌∙◌, arith, true, false}
use gko_pool.Prelude.Int.{ℤ}
use gko_pool.Client.{Client, World, State, ConnType, conn_set_state}
use gko_pool.Machine.{Turn, Calls, update_event, closes, is_active, answer}
use gko_pool.Machine.Loop.{AfterTurn}
use gko_pool.Machine.Measure.{conn_set_state-Set}

-- The edges that both directions have, and those of one.
pub data Edge : ConnType → State → State → Type 0 where
  listens : {t : ConnType} → Edge t State.waiting State.read
  unwatched : {t : ConnType} → Edge t State.waiting State.closing
  nothing_yet : {t : ConnType} → Edge t State.read State.waiting
  header : {t : ConnType} → Edge t State.read State.parse_header
  complete : {t : ConnType} → Edge t State.read State.parse_cmd
  unread : {t : ConnType} → Edge t State.read State.closing
  long : {t : ConnType} → Edge t State.parse_header State.read
  short : {t : ConnType} → Edge t State.parse_header State.parse_cmd
  malformed : {t : ConnType} → Edge t State.parse_header State.closing
  answers : Edge ConnType.coming State.parse_cmd State.write
  done : {t : ConnType} → Edge t State.parse_cmd State.closing
  unsent : {t : ConnType} → Edge t State.write State.closing
  sent : Edge ConnType.coming State.write State.renew
  asked : Edge ConnType.active State.write State.read
  renews : {t : ConnType} → Edge t State.renew State.waiting
  cached : {t : ConnType} → Edge t State.dns_cache State.connecting
  resolves : {t : ConnType} → Edge t State.dns_cache State.resolving
  found : {t : ConnType} → Edge t State.resolving State.connecting
  unknown : {t : ConnType} → Edge t State.resolving State.closing
  connects : {t : ConnType} → Edge t State.connecting State.write
  unconnected : {t : ConnType} → Edge t State.connecting State.closing

-- A way along the edges, from the state on the left.
pub data Walk (t : ConnType) (s : State) : State → Type 0 where
  here : Walk t s s
  goes : {u v : State} → Walk t s u → Edge t u v → Walk t s v

pub stays : {t : ConnType} {s s' : State} → s' ≡ s → Walk t s s'
stays {t = t} {s = s} e = subst (Walk t s) (sym e) here

pub joins : {t : ConnType} {s u v : State} → Walk t s u → Walk t u v → Walk t s v
joins walk here = walk
joins walk (goes walk' edge) = goes (joins walk walk') edge

-- A client that a call has moved along the edges, its direction kept.
abbrev pub Follows : ConnType → State → Client → Type 0
Follows t s c = (c.type ≡ t) × Walk t s c.state

-- A callback and a resolver that keep the connection's direction, and a resolver that moves a client
-- that is being resolved along the edges, if it has its answer at once.
abbrev pub IsQuiet : Calls → Type 0
IsQuiet calls =
    ((c : Client) (w : World) → (answer calls c w).0.type ≡ c.type)
    × ((c : Client) (w : World)
        → ((calls.nb_gethostbyname c w).0.type ≡ c.type)
          × (c.state ≡ State.resolving
              → Walk c.type State.resolving (calls.nb_gethostbyname c w).0.state))

pub conn_set_state-type :
    (c : Client) (w : World) (state : State) → (conn_set_state c w state).0.type ≡ c.type
unfolding conn_set_state
conn_set_state-type c w state = ground arith

pub sets :
    (t : ConnType) (s s' : State) (c : Client) (w : World)
    → c.type ≡ t
    → Edge t s s'
    → Follows t s (conn_set_state c w s').0
sets t s s' c w e edge = (
  conn_set_state-type c w s' ∙ e,
  goes here (subst (Edge t s) (sym (conn_set_state-Set c w s').state) edge),
)

pub closes-Follows :
    (t : ConnType) (s : State) (err_no : ℤ) (c : Client) (w : World)
    → c.type ≡ t
    → Edge t s State.closing
    → Follows t s (closes err_no c w).0
unfolding closes
closes-Follows t s err_no c w e edge =
    sets t s State.closing (record c { err_no = err_no }) w e edge

pub update_event-type :
    (c : Client) (w : World) (flags : ℕ) → (update_event c w flags).1.type ≡ c.type
unfolding update_event
update_event-type c w flags = ground arith

pub is_coming : (c : Client) → is_active c ≡ false → c.type ≡ ConnType.coming
is_coming c e = direction c.type e
  where
    direction :
        (t : ConnType)
        → (elim t [ ConnType.coming ↦ false | ConnType.active ↦ true ]) ≡ false
        → t ≡ ConnType.coming
    direction ConnType.coming e = refl
    direction ConnType.active e = cc

pub is_going : (c : Client) → is_active c ≡ true → c.type ≡ ConnType.active
is_going c e = direction c.type e
  where
    direction :
        (t : ConnType)
        → (elim t [ ConnType.coming ↦ false | ConnType.active ↦ true ]) ≡ true
        → t ≡ ConnType.active
    direction ConnType.coming e = cc
    direction ConnType.active e = refl

abbrev pub TurnFollows : ConnType → State → Turn → Type 0
TurnFollows t s = AfterTurn (λ c w. Follows t s c)
