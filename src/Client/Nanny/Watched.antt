-- ===== src/Client/Nanny/Watched.antt =====
-- client/nanny.go: which connection a ConnNanny holds, whatever calls and daemons come to its lock.
use friend_net.Prelude.{
  ℕ, ◌+◌, ◌≤◌, ◌≡◌, refl, ◌⊎◌, inl, inr, Bool, true, false, not, ◌&&◌, none, some, List, [], ◌∷◌,
  ◌==◌, if◌then◌else◌, arith, Option-cases,
}
use friend_net.Prelude.Count.{count_if, get_elem?, count_if-set, count_if-append}
use friend_net.Client.Nanny.{
  ConnNanny, Phase, head, connecting, waiting, watching, finished, NewConn, err, conn, is_conn,
  turn, NannyWorld, new_nanny, Act, take_turn, call_close, call_connect, call_disconnect, with_turn,
  act, act_all,
}

abbrev pub is_watching : ℕ → Phase → Bool
is_watching c head = false
is_watching c connecting = false
is_watching c waiting = false
is_watching c (watching d) = d == c
is_watching c finished = false

abbrev pub one_if : Bool → ℕ
one_if b = if b then 1 else 0

abbrev pub wants_conn : ConnNanny → Bool
wants_conn n = not n.is_closed && n.should_reconnect

-- The connection that is held is watched by a daemon, and is held only while one is wanted.
pub record IsWatched (w : NannyWorld) : Type 0 where
  pub watched :
      (c : ℕ) → one_if (is_conn w.nanny.conn_or_nil c) ≤ count_if (is_watching c) w.daemons
  pub wanted : (c : ℕ) → one_if (is_conn w.nanny.conn_or_nil c) ≤ one_if (wants_conn w.nanny)

turn_watches :
    (new : NewConn) (p : Phase) (n : ConnNanny) (c : ℕ)
    → (one_if (is_conn (turn new p n).0.conn_or_nil c) + one_if (is_watching c p)
        ≤ one_if (is_conn n.conn_or_nil c) + one_if (is_watching c (turn new p n).1))
      ⊎ (one_if (is_conn (turn new p n).0.conn_or_nil c) ≡ 0)
unfolding turn
turn_watches new head n c = ground arith
turn_watches err connecting n c = ground arith
turn_watches (conn d) connecting n c = ground arith
turn_watches new waiting n c = ground arith
turn_watches new (watching d) n c = ground arith
turn_watches new finished n c = ground arith

turn_wants :
    (new : NewConn) (p : Phase) (n : ConnNanny) (c : ℕ)
    → one_if (is_conn n.conn_or_nil c) ≤ one_if (wants_conn n)
    → one_if (is_conn (turn new p n).0.conn_or_nil c) ≤ one_if (wants_conn (turn new p n).0)
unfolding turn
turn_wants new head n c h = ground arith
turn_wants err connecting n c h = ground arith
turn_wants (conn d) connecting n c h = ground arith
turn_wants new waiting n c h = ground arith
turn_wants new (watching d) n c h = ground arith
turn_wants new finished n c h = ground arith

moved_watches :
    (new : NewConn) (p : Phase) (w : NannyWorld) (i : ℕ)
    → get_elem? w.daemons i ≡ some p
    → IsWatched w
    → IsWatched (with_turn i w.daemons (turn new p w.nanny))
moved_watches new p w i at k = record {
  watched = λ c. ground (
    arith,
    turn_watches new p w.nanny c,
    k.watched c,
    count_if-set (is_watching c) w.daemons i (turn new p w.nanny).1 p at,
  );
  wanted = λ c. turn_wants new p w.nanny c (k.wanted c);
}

-- What a turn of a daemon makes of the world.
pub act_gone :
    (i : ℕ) (new : NewConn) (w : NannyWorld)
    → get_elem? w.daemons i ≡ none
    → act (take_turn i new) w ≡ w
unfolding act
act_gone i new w gone = rw (gone, act) refl

pub act_moved :
    (i : ℕ) (new : NewConn) (w : NannyWorld) (p : Phase)
    → get_elem? w.daemons i ≡ some p
    → act (take_turn i new) w ≡ with_turn i w.daemons (turn new p w.nanny)
unfolding act
act_moved i new w p at = rw (at, act) refl

pub act-IsWatched : (a : Act) (w : NannyWorld) → IsWatched w → IsWatched (act a w)
unfolding act
act-IsWatched (take_turn i new) w k = elim (Option-cases (get_elem? w.daemons i)) [
  | inl gone ↦ rw (act_gone i new w gone) k
  | inr (p, at) ↦ rw (act_moved i new w p at) (moved_watches new p w i at k)
]
act-IsWatched call_close w k = record {
  watched = λ c. ground (arith, k.watched c);
  wanted = λ c. ground (arith, k.wanted c);
}
act-IsWatched call_connect w k = record {
  watched = λ c. ground (arith, k.watched c, count_if-append (is_watching c) w.daemons (head ∷ []));
  wanted = λ c. ground (arith, k.wanted c);
}
act-IsWatched call_disconnect w k = record {
  watched = λ c. ground (arith, k.watched c);
  wanted = λ c. ground (arith, k.wanted c);
}

pub act_all-IsWatched :
    (acts : List Act) (w : NannyWorld) → IsWatched w → IsWatched (act_all acts w)
unfolding act_all
act_all-IsWatched [] w k = k
act_all-IsWatched (a ∷ acts) w k = act_all-IsWatched acts (act a w) (act-IsWatched a w k)

pub new_nanny-IsWatched : IsWatched new_nanny
new_nanny-IsWatched = record { watched = λ c. omega arith; wanted = λ c. omega arith }

-- Whatever calls and daemons have come to the lock of a new nanny, in any order, the connection that
-- it holds is watched by a daemon, and the nanny is neither closed nor told to disconnect_nanny.
pub act_all_watched :
    (acts : List Act) (c : ℕ)
    → is_conn (act_all acts new_nanny).nanny.conn_or_nil c ≡ true
    → (1 ≤ count_if (is_watching c) (act_all acts new_nanny).daemons)
      × ((act_all acts new_nanny).nanny.is_closed ≡ false)
      × ((act_all acts new_nanny).nanny.should_reconnect ≡ true)
act_all_watched acts c held =
    let k = act_all-IsWatched acts new_nanny new_nanny-IsWatched in
    ground (arith, held, k.watched c, k.wanted c)
