-- ===== src/Client/Nanny/Tests.antt =====
-- Runs of a ConnNanny with its daemons.
use friend_net.Prelude.{◌*◌, ◌≤◌, ◌≡◌, refl, false, some, List, [], ◌∷◌, ◌++◌, length}
use friend_net.Client.Nanny.{
  ConnNanny, closed, head, watching, err, conn, is_conn, NannyWorld, new_nanny, Act, take_turn,
  call_close, call_connect, call_disconnect, act_all, try_do, run_on, err_conn_nanny_closed,
  err_conn_not_open, wait_open, result, state_of,
}
use friend_net.Client.Nanny.Closing.{act_all-close}
use friend_net.Client.Nanny.Ending.{IsBusy, act-ends}

-- A first try that fails, and a second one that gives the connection 5.
abbrev to_open : List Act
to_open =
    take_turn 0 err
    ∷ take_turn 0 err
    ∷ take_turn 0 err
    ∷ take_turn 0 err
    ∷ take_turn 0 (conn 5)
    ∷ []

to_open_runs : try_do (act_all to_open new_nanny).nanny ≡ run_on 5
unfolding act_all try_do
to_open_runs = refl

abbrev closed_open : ConnNanny
closed_open = (act_all (to_open ++ (call_close ∷ call_connect ∷ [])) new_nanny).nanny

act_all-close_example :
    (is_conn closed_open.conn_or_nil 5 ≡ false)
    × (state_of closed_open ≡ closed)
    × (try_do closed_open ≡ err_conn_nanny_closed)
    × (wait_open closed_open ≡ result err_conn_nanny_closed)
act_all-close_example = act_all-close to_open (call_connect ∷ []) 5

-- The daemon sees the end of its connection after a Disconnect, and returns.
abbrev disconnected : NannyWorld
disconnected = act_all (to_open ++ (call_disconnect ∷ [])) new_nanny

act-ends_example : 2 ≤ 3 * length disconnected.daemons
unfolding act_all IsBusy
act-ends_example =
    act-ends ((0, err) ∷ (0, err) ∷ []) disconnected refl
      (watching 5, refl, refl, (head, refl, refl, tt))

-- Connect after Disconnect, while the first daemon is still in NewConn, starts a second daemon beside
-- it. Both get a connection; the nanny holds the second one, and the end of the first one makes it
-- say that it is closed.
abbrev two_daemons : List Act
two_daemons =
    take_turn 0 err
    ∷ call_disconnect
    ∷ call_connect
    ∷ take_turn 1 err
    ∷ take_turn 0 (conn 5)
    ∷ take_turn 1 (conn 6)
    ∷ take_turn 0 err
    ∷ []

two_daemons_runs :
    ((act_all two_daemons new_nanny).nanny.conn_or_nil ≡ some 6)
    × ((act_all two_daemons new_nanny).daemons ≡ head ∷ watching 6 ∷ [])
    × (try_do (act_all two_daemons new_nanny).nanny ≡ err_conn_not_open)
unfolding act_all try_do
two_daemons_runs = (refl, refl, refl)
