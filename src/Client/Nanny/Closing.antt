-- ===== src/Client/Nanny/Closing.antt =====
-- client/nanny.go: a ConnNanny once Close was called.
use friend_net.Prelude.{
  ℕ, ◌≡◌, refl, inl, inr, true, false, List, [], ◌∷◌, ◌++◌, arith, Option-cases,
}
use friend_net.Prelude.Count.{get_elem?}
use friend_net.Client.Nanny.{
  ConnNanny, Phase, head, connecting, waiting, watching, finished, NewConn, err, conn, is_conn,
  turn, NannyWorld, new_nanny, Act, take_turn, call_close, call_connect, call_disconnect, act,
  act_all, state_of, closed, try_do, err_conn_nanny_closed, wait_open, result,
}
use friend_net.Client.Nanny.Watched.{act_gone, act_moved, act_all-IsWatched, new_nanny-IsWatched}

turn_closed :
    (new : NewConn) (p : Phase) (n : ConnNanny)
    → n.is_closed ≡ true
    → (turn new p n).0.is_closed ≡ true
unfolding turn
turn_closed new head n h = ground (arith, h)
turn_closed err connecting n h = h
turn_closed (conn d) connecting n h = ground (arith, h)
turn_closed new waiting n h = h
turn_closed new (watching d) n h = h
turn_closed new finished n h = h

act_closed :
    (a : Act) (w : NannyWorld) → w.nanny.is_closed ≡ true → (act a w).nanny.is_closed ≡ true
unfolding act
act_closed (take_turn i new) w h = elim (Option-cases (get_elem? w.daemons i)) [
  | inl gone ↦ rw (act_gone i new w gone) h
  | inr (p, at) ↦ rw (act_moved i new w p at) (turn_closed new p w.nanny h)
]
act_closed call_close w h = ground (arith, h)
act_closed call_connect w h = ground (arith, h)
act_closed call_disconnect w h = ground (arith, h)

act_all_closed :
    (acts : List Act) (w : NannyWorld)
    → w.nanny.is_closed ≡ true
    → (act_all acts w).nanny.is_closed ≡ true
unfolding act_all
act_all_closed [] w h = h
act_all_closed (a ∷ acts) w h = act_all_closed acts (act a w) (act_closed a w h)

close_closes : (w : NannyWorld) → (act call_close w).nanny.is_closed ≡ true
unfolding act
close_closes w = ground arith

act_all_after :
    (before after : List Act) (w : NannyWorld)
    → act_all (before ++ after) w ≡ act_all after (act_all before w)
unfolding act_all
act_all_after [] after w = refl
act_all_after (a ∷ before) after w = act_all_after before after (act a w)

try_do_closed : (n : ConnNanny) → n.is_closed ≡ true → try_do n ≡ err_conn_nanny_closed
unfolding try_do
try_do_closed n h = ground (arith, h)

-- The nanny once Close was called, with what came before it and comes after it.
abbrev closed_nanny : List Act → List Act → ConnNanny
closed_nanny before after = (act_all (before ++ (call_close ∷ after)) new_nanny).nanny

is_closed_after : (before after : List Act) → (closed_nanny before after).is_closed ≡ true
unfolding act_all
is_closed_after before after =
    rw (act_all_after before (call_close ∷ after) new_nanny, closed_nanny)
      (act_all_closed after (act call_close (act_all before new_nanny))
        (close_closes (act_all before new_nanny)))

-- Close is final: whatever came before it and comes after it, the nanny holds no connection, its state
-- is that of a closed connection, and both TryDo and WaitOpen return ErrConnNannyClosed.
pub act_all-close :
    (before after : List Act) (c : ℕ)
    → (is_conn (closed_nanny before after).conn_or_nil c ≡ false)
      × (state_of (closed_nanny before after) ≡ closed)
      × (try_do (closed_nanny before after) ≡ err_conn_nanny_closed)
      × (wait_open (closed_nanny before after) ≡ result err_conn_nanny_closed)
unfolding state_of wait_open
act_all-close before after c =
    let shut = is_closed_after before after in
    let k = act_all-IsWatched (before ++ (call_close ∷ after)) new_nanny new_nanny-IsWatched in
    (
      ground (arith, shut, k.wanted c),
      rw shut refl,
      try_do_closed (closed_nanny before after) shut,
      rw (try_do_closed (closed_nanny before after) shut, wait_open) refl,
    )
