-- ===== src/Client/Nanny.antt =====
-- client/nanny.go: the state that a ConnNanny keeps under its lock, what its daemon does from one wait
-- to the next, and the calls from outside. Connections are numbers. `open_ch` is whether the channel
-- is closed, which is how it tells its waiters that the connection is open.
use friend_net.Prelude.{
  ℕ, suc, ◌+◌, ◌≡◌, Bool, true, false, not, ◌||◌, ◌&&◌, Option, none, some, List, [], ◌∷◌, ◌++◌,
  ltb, ◌==◌, if◌then◌else◌,
}
use friend_net.Prelude.Count.{get_elem?, set}
pub mod Ending
pub mod Closing
pub mod Running
pub mod Watched
mod Tests

-- ConnStateClosed, ConnStateOpening, ConnStateOpen
pub data ConnState : Type 0 where
  closed opening opened : ConnState

pub record ConnNanny : Type 0 where
  pub is_closed : Bool
  pub should_reconnect : Bool
  pub conn_or_nil : Option ℕ
  pub state : ConnState
  pub open_ch : Bool
  -- In seconds.
  pub cur_wait : ℕ
  -- The states of the events that were published, the newest first.
  pub published : List ConnState

abbrev pub max_wait : ℕ
max_wait = 30

unfoldable pub set_state : ConnState → ConnNanny → ConnNanny
set_state s n = record n { state = s; published = s ∷ n.published }

-- Where a daemon stands: at the head of its loop, in NewConn, in the back-off, waiting for the end of
-- its connection, or returned from its loop.
pub data Phase : Type 0 where
  head connecting waiting : Phase
  watching : ℕ → Phase
  finished : Phase

unfoldable pub at_head : ConnNanny → ConnNanny × Phase
unfolding set_state
at_head n =
    if n.is_closed
    then (n, finished)
    else if not n.should_reconnect
    then (n, finished)
    else (set_state opening n, connecting)

-- Back off.
abbrev pub next_wait : ℕ → ℕ
next_wait wait = if ltb wait max_wait then wait + 1 else max_wait

unfoldable pub conn_failed : ConnNanny → ConnNanny × Phase
unfolding set_state
conn_failed n = (record (set_state closed n) { cur_wait = next_wait n.cur_wait }, waiting)

unfoldable pub conn_opened : ℕ → ConnNanny → ConnNanny × Phase
unfolding set_state
conn_opened c n = if n.is_closed || not n.should_reconnect then (n, head) else (
  record (set_state opened n) { conn_or_nil = some c; open_ch = true; cur_wait = 0 },
  watching c,
)

-- n.connOrNil == conn
abbrev pub is_conn : Option ℕ → ℕ → Bool
is_conn none c = false
is_conn (some d) c = d == c

unfoldable pub conn_ended : ℕ → ConnNanny → ConnNanny × Phase
unfolding set_state
conn_ended c n = (
  record (set_state closed n) {
    conn_or_nil = if is_conn n.conn_or_nil c then none else n.conn_or_nil;
    open_ch = false;
  },
  head,
)

-- What NewConn returns: an error, or a connection.
pub data NewConn : Type 0 where
  err : NewConn
  conn : ℕ → NewConn

-- One turn of a daemon, up to its next wait; `new` is read in NewConn only.
unfoldable pub turn : NewConn → Phase → ConnNanny → ConnNanny × Phase
unfolding at_head conn_failed conn_opened conn_ended
turn new head n = at_head n
turn err connecting n = conn_failed n
turn (conn c) connecting n = conn_opened c n
turn new waiting n = (n, head)
turn new (watching c) n = conn_ended c n
turn new finished n = (n, finished)

unfoldable pub close_nanny : ConnNanny → ConnNanny
unfolding set_state
close_nanny n = if n.is_closed then n else record (set_state closed n) {
  is_closed = true;
  should_reconnect = false;
  conn_or_nil = none;
}

-- Whether Connect starts a daemon.
abbrev pub starts_daemon : ConnNanny → Bool
starts_daemon n = not n.is_closed && not n.should_reconnect

unfoldable pub connect_nanny : ConnNanny → ConnNanny
connect_nanny n = if n.is_closed then n else record n { should_reconnect = true }

unfoldable pub disconnect_nanny : ConnNanny → ConnNanny
unfolding set_state
disconnect_nanny n = if n.is_closed then n else record (set_state closed n) {
  conn_or_nil = none;
  should_reconnect = false;
  open_ch = false;
}

-- State
unfoldable pub state_of : ConnNanny → ConnState
state_of n = if n.is_closed then closed else n.state

pub data Access : Type 0 where
  err_conn_nanny_closed : Access
  err_conn_not_open : Access
  run_on : ℕ → Access

abbrev pub is_open : ConnState → Bool
is_open closed = false
is_open opening = false
is_open opened = true

-- TryDo, up to the call of its function.
unfoldable pub try_do : ConnNanny → Access
try_do n = elim n.conn_or_nil [
  | none ↦ if n.is_closed then err_conn_nanny_closed else err_conn_not_open
  | some c ↦
      if n.is_closed
      then err_conn_nanny_closed
      else if is_open n.state
      then run_on c
      else err_conn_not_open
]

-- What WaitOpen does in one round: its result, or a wait for the channel, on which it goes on at once
-- if the channel is closed.
pub data Round : Type 0 where
  result : Access → Round
  waits : Bool → Round

unfoldable pub wait_open : ConnNanny → Round
unfolding try_do
wait_open n = elim (try_do n) [
  | err_conn_nanny_closed ↦ result err_conn_nanny_closed
  | err_conn_not_open ↦ waits n.open_ch
  | run_on c ↦ result (run_on c)
]

-- The nanny and all the daemons that were started for it.
pub record NannyWorld : Type 0 where
  pub nanny : ConnNanny
  pub daemons : List Phase

-- NewConnNanny
abbrev pub new_nanny : NannyWorld
new_nanny = record {
  nanny = record {
    is_closed = false;
    should_reconnect = true;
    conn_or_nil = none;
    state = closed;
    open_ch = false;
    cur_wait = 0;
    published = [];
  };
  daemons = head ∷ [];
}

pub data Act : Type 0 where
  take_turn : ℕ → NewConn → Act
  call_close call_connect call_disconnect : Act

abbrev pub with_turn : ℕ → List Phase → ConnNanny × Phase → NannyWorld
with_turn i ds (n, p) = record { nanny = n; daemons = set ds i p }

-- Whoever comes to the lock next: the daemon with the number, or a call.
unfoldable pub act : Act → NannyWorld → NannyWorld
unfolding turn close_nanny connect_nanny disconnect_nanny
act (take_turn i new) w = elim (get_elem? w.daemons i) [
  | none ↦ w
  | some p ↦ with_turn i w.daemons (turn new p w.nanny)
]
act call_close w = record w { nanny = close_nanny w.nanny }
act call_connect w = record {
  nanny = connect_nanny w.nanny;
  daemons = if starts_daemon w.nanny then w.daemons ++ (head ∷ []) else w.daemons;
}
act call_disconnect w = record w { nanny = disconnect_nanny w.nanny }

unfoldable pub act_all : List Act → NannyWorld → NannyWorld
unfolding act
act_all [] w = w
act_all (a ∷ acts) w = act_all acts (act a w)
