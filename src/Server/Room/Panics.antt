-- ===== src/Server/Room/Panics.antt =====
-- The write to a nil map in handleConnect of server/room/room.go: when it can happen.
use friend_net.Prelude.{
  ◌≡◌, refl, sym, subst, ◌∙◌, ◌⊎◌, true, none, some, [], ◌∷◌, Bytes, ap, All, All-append, All-left,
  All-right, Option-cases, Bool-cases, inl, inr, ◌==◌, arith,
}
use friend_net.Prelude.Dict.{delete, text_eq}
use friend_net.Server.Room.{
  Client, Room, handle_connect, handle_disconnect, kick_client_by_username, lookup,
}
use friend_net.Server.Room.Steps.{
  Thread, closing, ending, Section, refuse, admit, connect, write, write_fails, fail, leave,
  close_all, end, World, Step, arrive, kick, close_now, move, Reaches, here, after, new_world,
}
use friend_net.Server.Room.Presence.{kick_cases}
use friend_net.Server.Room.Closing.{
  handle_connect_open, Section-closed, kick_open, begin_close_closed,
}

-- Not a `Close` that has set `isClosed`.
Idle : Thread → Type 0
Idle (closing cs) = ⊥
Idle ending = ⊥
Idle t = Unit

-- The map is there until the room is closed.
abbrev Guarded : World → Type 0
Guarded w = (w.room.is_closed ≡ true) ⊎ (All Idle w.threads × ((m : _) × (w.room.clients ≡ some m)))

abbrev Has : Room → Type 0
Has r = (m : _) × (r.clients ≡ some m)

handle_disconnect-Has : (c : Client) (r : Room) → Has r → Has (handle_disconnect c r)
unfolding handle_disconnect
handle_disconnect-Has c r (m, h) = elim (Option-cases (lookup r c.username)) [
  | inl n ↦ (m, simp (n, h, handle_disconnect))
  | inr (old, g) ↦ elim (Bool-cases (old.address == c.address)) [
    | inl e ↦ (delete m c.username, simp (g, e, h, handle_disconnect))
    | inr e ↦ (m, simp (g, e, h, handle_disconnect))
  ]
]

kick-Has : (v : Bytes) (r : Room) → Has r → Has (kick_client_by_username v r).0
kick-Has v r h = elim (kick_cases v r) [
  | inl e ↦ subst Has (sym e) h
  | inr (c, g, e) ↦ subst Has (sym e) (handle_disconnect-Has c r h)
]

Section-Idle : (r s : Room) (t x : Thread) → Section r t s x → Idle t → Has r → Idle x × Has s
unfolding Idle
Section-Idle r s t x (refuse c err e f g h) i a = (subst Idle (sym h) tt, subst Has (sym g) a)
Section-Idle r s t x (admit c e f g h) i a = (subst Idle (sym h) tt, subst Has (sym g) a)
Section-Idle r s t x (connect c e g h) i a =
    (subst Idle (sym h) tt, (handle_connect_open c r s g).1)
Section-Idle r s t x (write c e g h) i a = (subst Idle (sym h) tt, subst Has (sym g) a)
Section-Idle r s t x (write_fails c e g h) i a = (subst Idle (sym h) tt, subst Has (sym g) a)
Section-Idle r s t x (fail c e g h) i a =
    (subst Idle (sym h) tt, subst Has (sym g) (handle_disconnect-Has c r a))
Section-Idle r s t x (leave c e g h) i a =
    (subst Idle (sym h) tt, subst Has (sym g) (handle_disconnect-Has c r a))
Section-Idle r s t x (close_all cs e g h) i a = elim (subst Idle e i) [ ]
Section-Idle r s t x (end e g h) i a = elim (subst Idle e i) [ ]

Step-Guarded : (w v : World) → Step w v → Guarded w → Guarded v
unfolding Idle
Step-Guarded w v (arrive c e) (inl o) = inl (ap (λ x. x.room.is_closed) e ∙ o)
Step-Guarded w v (arrive c e) (inr (i, h)) = subst Guarded (sym e) (inr ((tt, i), h))
Step-Guarded w v (kick u e) (inl o) = inl (ap (λ x. x.room.is_closed) e ∙ (kick_open u w.room ∙ o))
Step-Guarded w v (kick u e) (inr (i, h)) = subst Guarded (sym e) (inr (i, kick-Has u w.room h))
Step-Guarded w v (close_now cs b e) g =
    inl (ap (λ x. x.room.is_closed) e ∙ begin_close_closed w.room)
Step-Guarded w v (move before behind t x a b s) (inl o) = inl (Section-closed w.room v.room t x s o)
Step-Guarded w v (move before behind t x a b s) (inr (i, h)) =
    let all = subst (All Idle) a i in
    let back = All-right Idle before (t ∷ behind) all in
    let (idle, has) = Section-Idle w.room v.room t x s back.0 h in
    inr (
      subst (All Idle) (sym b) (
          All-append Idle before (x ∷ behind) (All-left Idle before (t ∷ behind) all)
            (idle, back.1)),
      has,
    )

Reaches-Guarded : (w v : World) → Reaches w v → Guarded w → Guarded v
Reaches-Guarded w v (here _ e) g = subst Guarded (sym e) g
Reaches-Guarded w v (after u _ reaches s) g = Step-Guarded u v s (Reaches-Guarded w u reaches g)

-- In every world that a new one can become, handleConnect writes to a nil map only in a room that
-- is closed.
pub handle_connect_panics :
    (w : World) (c : Client)
    → Reaches new_world w
    → handle_connect c w.room ≡ none
    → w.room.is_closed ≡ true
unfolding handle_connect
handle_connect_panics w c reaches e =
    elim (Reaches-Guarded new_world w reaches (inr (tt, ([], refl)))) [
      | inl o ↦ o
      | inr (i, (m, h)) ↦ ground (arith, h)
    ]
