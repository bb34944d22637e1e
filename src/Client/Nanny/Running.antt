-- ===== src/Client/Nanny/Running.antt =====
-- client/nanny.go: what a ConnNanny shows of its connection while no two of its daemons run.
use mathlib.Core.Path.{fun_ext}
use friend_net.Prelude.{
  ℕ, ◌≤◌, ◌≡◌, ◌≢◌, ◌↔◌, refl, ap, inl, inr, Bool, true, false, ◌&&◌, none, some, List, [], ◌∷◌,
  if◌then◌else◌, arith, Option-cases, Bool-cases,
}
use friend_net.Prelude.Count.{count_if, get_elem?, count_if_and_one}
use friend_net.Client.Nanny.{
  ConnNanny, is_open, Phase, head, connecting, waiting, watching, finished, NewConn, err, conn,
  is_conn, turn, NannyWorld, new_nanny, Act, take_turn, call_close, call_connect, call_disconnect,
  act, act_all, run_on, try_do, wait_open, waits,
}
use friend_net.Client.Nanny.Watched.{
  IsWatched, is_watching, one_if, act_gone, act_moved, act-IsWatched, act_all-IsWatched,
  new_nanny-IsWatched,
}

abbrev pub is_live : Phase → Bool
is_live head = true
is_live connecting = true
is_live waiting = true
is_live (watching c) = true
is_live finished = false

-- At no time do two daemons run.
abbrev pub IsCalm : List Act → NannyWorld → Type 0
IsCalm [] w = count_if is_live w.daemons ≤ 1
IsCalm (a ∷ acts) w = (count_if is_live w.daemons ≤ 1) × IsCalm acts (act a w)

abbrev has_conn : ConnNanny → Bool
has_conn n = elim n.conn_or_nil [ none ↦ false | some c ↦ true ]

-- The state says open exactly while a connection is held, and so does the channel, until Close.
record IsSound (n : ConnNanny) : Type 0 where
  shown : is_open n.state ≡ has_conn n
  signalled : (if n.is_closed then has_conn n else n.open_ch) ≡ has_conn n

-- Whether the daemon whose turn it is watches the connection that is held.
abbrev holds : ConnNanny → Phase → Bool
holds n head = false
holds n connecting = false
holds n waiting = false
holds n (watching c) = is_conn n.conn_or_nil c
holds n finished = false

module _ (new : NewConn) (n : ConnNanny) (s : IsSound n) where
  turn-IsSound : (p : Phase) → one_if (has_conn n) ≤ one_if (holds n p) → IsSound (turn new p n).0
  unfolding turn
  turn-IsSound head mine = record {
    shown = ground (arith, s.shown);
    signalled = ground (arith, s.signalled);
  }
  turn-IsSound connecting mine = in_new_conn new mine
    where
      in_new_conn :
          (new : NewConn)
          → one_if (has_conn n) ≤ one_if (holds n connecting)
          → IsSound (turn new connecting n).0
      in_new_conn err mine = record {
        shown = ground (arith, s.shown);
        signalled = ground (arith, s.signalled);
      }
      in_new_conn (conn d) mine = record {
        shown = ground (arith, s.shown);
        signalled = ground (arith, s.signalled);
      }
  turn-IsSound waiting mine = s
  turn-IsSound (watching d) mine = record {
    shown = ground (arith, s.shown);
    signalled = ground (arith, s.signalled);
  }
  turn-IsSound finished mine = s

watching-is_live : (c : ℕ) (p : Phase) → (is_watching c p && is_live p) ≡ is_watching c p
watching-is_live c head = refl
watching-is_live c connecting = refl
watching-is_live c waiting = refl
watching-is_live c (watching d) = ground arith
watching-is_live c finished = refl

-- Where one daemon runs, it is the one that watches the connection.
watches :
    (w : NannyWorld) (i : ℕ) (p : Phase) (c : ℕ)
    → IsWatched w
    → count_if is_live w.daemons ≤ 1
    → get_elem? w.daemons i ≡ some p
    → is_live p ≡ true
    → w.nanny.conn_or_nil ≡ some c
    → is_watching c p ≡ true
watches w i p c k one at live held = ground (
  arith,
  k.watched c,
  count_if_and_one is_live (is_watching c) w.daemons i p at live one,
  ap (λ (f : Phase → Bool). count_if f w.daemons) (fun_ext (watching-is_live c)),
  held,
)

mine :
    (w : NannyWorld) (i : ℕ) (p : Phase)
    → IsWatched w
    → count_if is_live w.daemons ≤ 1
    → get_elem? w.daemons i ≡ some p
    → is_live p ≡ true
    → one_if (has_conn w.nanny) ≤ one_if (holds w.nanny p)
mine w i p k one at live = elim (Option-cases w.nanny.conn_or_nil) [
  | inl idle ↦ ground (arith, idle)
  | inr (c, held) ↦ holds_it c held p (watches w i p c k one at live held)
]
  where
    holds_it :
        (c : ℕ)
        → w.nanny.conn_or_nil ≡ some c
        → (q : Phase) → is_watching c q ≡ true
        → one_if (has_conn w.nanny) ≤ one_if (holds w.nanny q)
    holds_it c held head e = cc e
    holds_it c held connecting e = cc e
    holds_it c held waiting e = cc e
    holds_it c held (watching d) e = ground (arith, held, e)
    holds_it c held finished e = cc e

returned_stays :
    (new : NewConn) (p : Phase) (n : ConnNanny) → is_live p ≡ false → (turn new p n).0 ≡ n
unfolding turn
returned_stays new head n e = cc e
returned_stays err connecting n e = cc e
returned_stays (conn d) connecting n e = cc e
returned_stays new waiting n e = refl
returned_stays new (watching d) n e = cc e
returned_stays new finished n e = refl

act-IsSound :
    (a : Act) (w : NannyWorld)
    → IsWatched w
    → count_if is_live w.daemons ≤ 1
    → IsSound w.nanny
    → IsSound (act a w).nanny
unfolding act
act-IsSound (take_turn i new) w k one s = elim (Option-cases (get_elem? w.daemons i)) [
  | inl gone ↦ rw (act_gone i new w gone) s
  | inr (p, at) ↦ elim (Bool-cases (is_live p)) [
    | inl live ↦
        rw (act_moved i new w p at) (turn-IsSound new w.nanny s p (mine w i p k one at live))
    | inr done ↦ rw (act_moved i new w p at) (rw (returned_stays new p w.nanny done) s)
  ]
]
act-IsSound call_close w k one s = record {
  shown = ground (arith, s.shown);
  signalled = ground (arith, s.signalled);
}
act-IsSound call_connect w k one s = record {
  shown = ground (arith, s.shown);
  signalled = ground (arith, s.signalled);
}
act-IsSound call_disconnect w k one s = record {
  shown = ground (arith, s.shown);
  signalled = ground (arith, s.signalled);
}

act_all-IsSound :
    (acts : List Act) (w : NannyWorld)
    → IsCalm acts w
    → IsWatched w
    → IsSound w.nanny
    → IsSound (act_all acts w).nanny
unfolding act_all
act_all-IsSound [] w calm k s = s
act_all-IsSound (a ∷ acts) w calm k s =
    act_all-IsSound acts (act a w) calm.1 (act-IsWatched a w k) (act-IsSound a w k calm.0 s)

try_do_held :
    (n : ConnNanny) (c : ℕ)
    → IsSound n
    → n.is_closed ≡ false
    → n.conn_or_nil ≡ some c
    → try_do n ≡ run_on c
unfolding try_do
try_do_held n c s wanted held = rw (held, try_do) (ground (arith, s.shown, wanted, held))

try_do_idle : (n : ConnNanny) (c : ℕ) → try_do n ≡ run_on c → n.conn_or_nil ≡ some c
unfolding try_do
try_do_idle n c e = ground (arith, e)

never_spins : (n : ConnNanny) → IsSound n → wait_open n ≢ waits true
unfolding wait_open try_do
never_spins n s e = ground (arith, s.shown, s.signalled, e)

-- After any calls on a new nanny during which no two of its daemons run at one time: TryDo runs its
-- function exactly on the connection that is held, the state says open exactly while one is held, and
-- WaitOpen, where it has no result yet, waits on a channel that is not closed, so that it does not spin.
pub act_all_shown :
    (acts : List Act) (c : ℕ)
    → IsCalm acts new_nanny
    → ((try_do (act_all acts new_nanny).nanny ≡ run_on c)
        ↔ ((act_all acts new_nanny).nanny.conn_or_nil ≡ some c))
      × (is_open (act_all acts new_nanny).nanny.state
          ≡ elim (act_all acts new_nanny).nanny.conn_or_nil [ none ↦ false | some d ↦ true ])
      × (wait_open (act_all acts new_nanny).nanny ≢ waits true)
act_all_shown acts c calm =
    let s =
      act_all-IsSound acts new_nanny calm new_nanny-IsWatched
        (record { shown = refl; signalled = refl }) in
    let k = act_all-IsWatched acts new_nanny new_nanny-IsWatched in
    let n = (act_all acts new_nanny).nanny in
    (
      (try_do_idle n c, λ held. try_do_held n c s (ground (arith, held, k.wanted c)) held),
      s.shown,
      never_spins n s,
    )
