-- ===== src/Client/Nanny/Ending.antt =====
-- client/nanny.go: how the daemons of a ConnNanny end once no connection is wanted.
use friend_net.Prelude.{
  ℕ, zero, suc, ◌+◌, ◌*◌, ◌≤◌, ◌<◌, ◌≡◌, subst, true, false, some, List, [], ◌∷◌, length, arith,
}
use friend_net.Prelude.Count.{get_elem?, set}
use friend_net.Client.Nanny.{
  ConnNanny, Phase, head, connecting, waiting, watching, finished, NewConn, err, conn, turn,
  NannyWorld, take_turn, act, with_turn,
}
use friend_net.Client.Nanny.Watched.{wants_conn, act_moved}
use friend_net.Client.Nanny.Running.{is_live}

-- How many turns a daemon has at most before it returns.
rank : Phase → ℕ
rank head = 1
rank connecting = 3
rank waiting = 2
rank (watching c) = 2
rank finished = 0

ranks : List Phase → ℕ
ranks [] = 0
ranks (p ∷ ds) = rank p + ranks ds

ranks-le : (ds : List Phase) → ranks ds ≤ 3 * length ds
unfolding ranks rank
ranks-le [] = omega arith
ranks-le (head ∷ ds) = omega (arith, ranks-le ds)
ranks-le (connecting ∷ ds) = omega (arith, ranks-le ds)
ranks-le (waiting ∷ ds) = omega (arith, ranks-le ds)
ranks-le (watching c ∷ ds) = omega (arith, ranks-le ds)
ranks-le (finished ∷ ds) = omega (arith, ranks-le ds)

ranks-set :
    (ds : List Phase) (i : ℕ) (p q : Phase)
    → get_elem? ds i ≡ some p
    → ranks (set ds i q) + rank p ≡ ranks ds + rank q
unfolding ranks
ranks-set [] i p q e = cc e
ranks-set (r ∷ ds) zero p q e = ground (arith, e)
ranks-set (r ∷ ds) (suc i) p q e = omega (arith, ranks-set ds i p q e)

turn-rank :
    (new : NewConn) (p : Phase) (n : ConnNanny)
    → wants_conn n ≡ false
    → is_live p ≡ true
    → (rank (turn new p n).1 < rank p) × (wants_conn (turn new p n).0 ≡ false)
unfolding turn rank
turn-rank new head n idle live = ground arith
turn-rank err connecting n idle live = ground arith
turn-rank (conn d) connecting n idle live = ground arith
turn-rank new waiting n idle live = ground arith
turn-rank new (watching d) n idle live = ground arith
turn-rank new finished n idle live = cc live

-- Turns of daemons that have not returned, one after the other, from a world.
unfoldable pub IsBusy : List (ℕ × NewConn) → NannyWorld → Type 0
IsBusy [] w = Unit
IsBusy ((i, new) ∷ turns) w =
    (p : Phase) × (get_elem? w.daemons i ≡ some p)
    × (is_live p ≡ true)
    × IsBusy turns (act (take_turn i new) w)

busy_bound :
    (turns : List (ℕ × NewConn)) (w : NannyWorld)
    → wants_conn w.nanny ≡ false
    → IsBusy turns w
    → length turns ≤ ranks w.daemons
unfolding IsBusy
busy_bound [] w idle busy = omega arith
busy_bound ((i, new) ∷ turns) w idle (p, at, live, rest) =
    let next = act_moved i new w p at in
    let (smaller, still) = turn-rank new p w.nanny idle live in
    let rest' : IsBusy turns (with_turn i w.daemons (turn new p w.nanny)) =
      subst (λ x. IsBusy turns x) next rest in
    omega (
      arith,
      ranks-set w.daemons i p (turn new p w.nanny).1 at,
      busy_bound turns (with_turn i w.daemons (turn new p w.nanny)) still rest',
      smaller,
    )

-- Once no connection is wanted, after Disconnect or Close, and until Connect, the daemons come to an
-- end: in all they take at most three turns each, whatever NewConn returns and in whatever order they
-- take them.
pub act-ends :
    (turns : List (ℕ × NewConn)) (w : NannyWorld)
    → wants_conn w.nanny ≡ false
    → IsBusy turns w
    → length turns ≤ 3 * length w.daemons
act-ends turns w idle busy = omega (arith, busy_bound turns w idle busy, ranks-le w.daemons)
