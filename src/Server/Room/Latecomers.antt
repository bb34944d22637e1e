-- ===== src/Server/Room/Latecomers.antt =====
-- Who is in a closed Room of server/room/room.go: a goroutine of Onboard that was past its check when
-- Close began may still put its client into the map.
use mathlib.Core.List.{Mem, mem-cons_self, mem-append_right}
use friend_net.Prelude.{
  ◌≡◌, refl, sym, subst, ap, ◌∙◌, true, Option, none, some, List, [], ◌∷◌, ◌++◌, append_assoc, map,
  Bytes, bytes_eq, All, All-append, All-left, All-right, Option-cases, Bool-cases, inl, inr, ◌==◌,
  arith,
}
use friend_net.Prelude.Dict.{put, delete, text_eq}
use friend_net.Server.Room.{
  Client, room_closed, Effect, client_online, client_offline, auth_accepted, bye, close_with_reason,
  Room, err_room_closed, handle_connect, handle_disconnect, check_onboard, kick_client_by_username,
  kick_refused, begin_close, close_clients, end_close, lookup, snapshot_clients, client_count,
  get_all_clients, get_client_by_username,
}
use friend_net.Server.Room.Steps.{
  Thread, checking, connecting, writing, failing, serving, closing, ending, returned, failed,
  Section, refuse, admit, connect, write, write_fails, fail, leave, close_all, end, World, Step,
  arrive, kick, close_now, move, Reaches, here, after,
}
use friend_net.Server.Room.Closing.{reads_nothing}

-- The client that a goroutine has brought past the check of Onboard.
pub admitted_of : Thread → List Client
admitted_of (checking c) = []
admitted_of (connecting c) = c ∷ []
admitted_of (writing c) = c ∷ []
admitted_of (failing c) = c ∷ []
admitted_of (serving c) = c ∷ []
admitted_of (closing cs) = []
admitted_of ending = []
admitted_of returned = []
admitted_of (failed err) = []

unfoldable pub admitted : List Thread → List Client
unfolding admitted_of
admitted [] = []
admitted (t ∷ threads) = admitted_of t ++ admitted threads

-- Everyone in the map, or past the check.
unfoldable pub held : World → List Client
unfolding admitted snapshot_clients
held w = snapshot_clients w.room ++ admitted w.threads

-- The broadcasts of a log.
unfoldable pub broadcasts : List Effect → List Effect
broadcasts [] = []
broadcasts (client_online u ∷ log) = client_online u ∷ broadcasts log
broadcasts (client_offline u ∷ log) = client_offline u ∷ broadcasts log
broadcasts (auth_accepted c ∷ log) = broadcasts log
broadcasts (bye c ∷ log) = broadcasts log
broadcasts (close_with_reason c reason ∷ log) = broadcasts log

admitted-append :
    (ts us : List Thread) (Q : Client → Type 0)
    → All Q (admitted ts)
    → All Q (admitted us)
    → All Q (admitted (ts ++ us))
unfolding admitted
admitted-append [] us Q h k = k
admitted-append (t ∷ ts) us Q h k =
    All-append Q (admitted_of t) (admitted (ts ++ us)) (All-left Q (admitted_of t) (admitted ts) h)
      (admitted-append ts us Q (All-right Q (admitted_of t) (admitted ts) h) k)

admitted_parts :
    (ts us : List Thread) (Q : Client → Type 0)
    → All Q (admitted (ts ++ us))
    → All Q (admitted ts) × All Q (admitted us)
unfolding admitted
admitted_parts [] us Q h = (tt, h)
admitted_parts (t ∷ ts) us Q h =
    let (a, b) = admitted_parts ts us Q (All-right Q (admitted_of t) (admitted (ts ++ us)) h) in
    (
      All-append Q (admitted_of t) (admitted ts)
          (All-left Q (admitted_of t) (admitted (ts ++ us)) h) a,
      b,
    )

values : List (Bytes × Client) → List Client
values m = map (λ entry. entry.1) m

values-delete :
    (m : List (Bytes × Client)) (k : Bytes) (Q : Client → Type 0)
    → All Q (values m)
    → All Q (values (delete m k))
unfolding values delete
values-delete [] k Q h = tt
values-delete ((j, v) ∷ m) k Q h = elim (Bool-cases (bytes_eq j k)) [
  | inl e ↦ rw e (values-delete m k Q h.1)
  | inr e ↦ rw e (h.0, values-delete m k Q h.1)
]

-- A closed room whose clients all have the property `Q`, and that has sent the broadcasts `sent`.
abbrev Shut : (Client → Type 0) → List Effect → Room → Type 0
Shut Q sent r = (r.is_closed ≡ true) × All Q (snapshot_clients r) × (broadcasts r.log ≡ sent)

abbrev shut_room : Option (List (Bytes × Client)) → List Effect → Room
shut_room m log = record { is_closed = true; clients = m; log = log }

is_shut_room : (r : Room) → r.is_closed ≡ true → r ≡ shut_room r.clients r.log
is_shut_room r e = rw e refl

module _ (Q : Client → Type 0) (sent : List Effect) where
  put-Shut :
      (c : Client) (m : Option (List (Bytes × Client))) (log : List Effect) (s : Room)
      → Q c
      → handle_connect c (shut_room m log) ≡ some s
      → Shut Q sent (shut_room m log)
      → Shut Q sent s
  unfolding handle_connect snapshot_clients values put broadcasts
  put-Shut c none log s q e h = ground arith
  put-Shut c (some m) log s q e h =
      let After : Option Room → Type 0 = λ r. elim r [ none ↦ Unit | some t ↦ Shut Q sent t ] in
      subst After e (refl, (q, values-delete m c.username Q h.1), h.2)

  delete-Shut :
      (c : Client) (m : Option (List (Bytes × Client))) (log : List Effect)
      → Shut Q sent (shut_room m log)
      → Shut Q sent (handle_disconnect c (shut_room m log))
  unfolding handle_disconnect lookup snapshot_clients values broadcasts
  delete-Shut c none log h = h
  delete-Shut c (some m) log h = elim (Option-cases (lookup (shut_room (some m) log) c.username)) [
    | inl n ↦ rw (n, handle_disconnect, lookup) h
    | inr (old, g) ↦ elim (Bool-cases (old.address == c.address)) [
      | inl e ↦ rw (g, e, handle_disconnect, lookup) (refl, values-delete m c.username Q h.1, h.2)
      | inr e ↦ rw (g, e, handle_disconnect, lookup) h
    ]
  ]

  handle_connect-Shut :
      (c : Client) (r s : Room) → Q c → handle_connect c r ≡ some s → Shut Q sent r → Shut Q sent s
  handle_connect-Shut c r s q e h =
      let same = is_shut_room r h.0 in
      put-Shut c r.clients r.log s q (ap (handle_connect c) (sym same) ∙ e)
        (subst (Shut Q sent) same h)

  handle_disconnect-Shut :
      (c : Client) (r : Room) → Shut Q sent r → Shut Q sent (handle_disconnect c r)
  handle_disconnect-Shut c r h =
      let same = is_shut_room r h.0 in
      subst (λ x. Shut Q sent (handle_disconnect c x)) (sym same)
        (delete-Shut c r.clients r.log (subst (Shut Q sent) same h))

  broadcasts-close_clients :
      (cs ds : List Client) (log : List Effect)
      → broadcasts (
          map (λ c. close_with_reason c.address room_closed) cs
          ++ (map (λ c. bye c.address) ds ++ log))
        ≡ broadcasts log
  unfolding broadcasts
  broadcasts-close_clients [] [] log = refl
  broadcasts-close_clients [] (d ∷ ds) log = broadcasts-close_clients [] ds log
  broadcasts-close_clients (c ∷ cs) ds log = broadcasts-close_clients cs ds log

  -- A section of a goroutine in a closed room: its client, if it is past the check, was so before.
  Section-Shut :
      (r s : Room) (t x : Thread)
      → Section r t s x
      → Shut Q sent r
      → All Q (admitted_of t)
      → Shut Q sent s × All Q (admitted_of x)
  unfolding admitted_of broadcasts close_clients end_close snapshot_clients check_onboard
  Section-Shut r s t x (refuse c err e f g k) h q = (subst (Shut Q sent) (sym g) h, rw k tt)
  Section-Shut r s t x (admit c e f g k) h q = absurd (ground (arith, f, h.0))
  Section-Shut r s t x (connect c e g k) h q =
      let mine = subst (λ y. All Q (admitted_of y)) e q in
      (handle_connect-Shut c r s mine.0 g h, rw k mine)
  Section-Shut r s t x (write c e g k) h q =
      (subst (Shut Q sent) (sym g) h, rw k (subst (λ y. All Q (admitted_of y)) e q))
  Section-Shut r s t x (write_fails c e g k) h q =
      (subst (Shut Q sent) (sym g) h, rw k (subst (λ y. All Q (admitted_of y)) e q))
  Section-Shut r s t x (fail c e g k) h q =
      (subst (Shut Q sent) (sym g) (handle_disconnect-Shut c r h), rw k tt)
  Section-Shut r s t x (leave c e g k) h q = (
    subst (Shut Q sent) (sym g) (handle_disconnect-Shut c r h),
    rw k (subst (λ y. All Q (admitted_of y)) e q),
  )
  Section-Shut r s t x (close_all cs e g k) h q =
      (subst (Shut Q sent) (sym g) (h.0, h.1, broadcasts-close_clients cs cs r.log ∙ h.2), rw k tt)
  Section-Shut r s t x (end e g k) h q = (subst (Shut Q sent) (sym g) (h.0, tt, h.2), rw k tt)

  Step-Shut :
      (w v : World)
      → Step w v
      → Shut Q sent w.room × All Q (admitted w.threads)
      → Shut Q sent v.room × All Q (admitted v.threads)
  unfolding admitted_of admitted begin_close
  Step-Shut w v (arrive c e) (h, q) = rw e (h, q)
  Step-Shut w v (kick u e) (h, q) =
      let quiet : (kick_client_by_username u w.room).0 ≡ w.room =
        ap (λ out. out.0) (reads_nothing w.room u h.0).1 in
      subst (λ x. Shut Q sent x.room × All Q (admitted x.threads)) (sym e)
        (subst (Shut Q sent) (sym quiet) h, q)
  Step-Shut w v (close_now cs b e) (h, q) = absurd (ground (arith, b, h.0))
  Step-Shut w v (move before behind t x a b s) (h, q) =
      let (front, back) =
        admitted_parts before (t ∷ behind) Q (subst (λ y. All Q (admitted y)) a q) in
      let (now, mine) =
        Section-Shut w.room v.room t x s h (All-left Q (admitted_of t) (admitted behind) back) in
      (
        now,
        subst (λ y. All Q (admitted y)) (sym b)
            (admitted-append before (x ∷ behind) Q front (
              All-append Q (admitted_of x) (admitted behind) mine
                (All-right Q (admitted_of t) (admitted behind) back))),
      )

  Reaches-Shut :
      (w v : World)
      → Reaches w v
      → Shut Q sent w.room × All Q (admitted w.threads)
      → Shut Q sent v.room × All Q (admitted v.threads)
  Reaches-Shut w v (here _ e) h =
      subst (λ x. Shut Q sent x.room × All Q (admitted x.threads)) (sym e) h
  Reaches-Shut w v (after u _ reaches s) h = Step-Shut u v s (Reaches-Shut w u reaches h)

All-Mem : (xs ys : List Client) → All (λ c. Mem c (ys ++ xs)) xs
All-Mem [] ys = tt
All-Mem (x ∷ xs) ys = (
  mem-append_right ys mem-cons_self,
  rw (append_assoc ys (x ∷ []) xs) at (All-Mem xs (ys ++ x ∷ [])),
)

-- In every later world a closed room is closed, and no further broadcast goes out. Whoever is in the map
-- then, or past the check of Onboard, was so when the room was closed; Onboard refuses all others, there
-- is no client to count, to list or to find, and another kick or Close changes nothing.
pub Reaches-closed :
    (w v : World) (u : Bytes)
    → Reaches w v
    → w.room.is_closed ≡ true
    → (broadcasts v.room.log ≡ broadcasts w.room.log)
      × All (λ c. Mem c (held w)) (held v)
      × (check_onboard v.room u ≡ some err_room_closed)
      × (kick_client_by_username u v.room ≡ (v.room, kick_refused))
      × (begin_close v.room ≡ (v.room, none))
      × (client_count v.room ≡ 0)
      × (get_all_clients v.room ≡ [])
      × (get_client_by_username v.room u ≡ none)
unfolding held
Reaches-closed w v u reaches e =
    let Held : Client → Type 0 = λ c. Mem c (held w) in
    let all = All-Mem (held w) [] in
    let (shut, past) = Reaches-Shut Held (broadcasts w.room.log) w v reaches (
      (e, All-left Held (snapshot_clients w.room) (admitted w.threads) all, refl),
      All-right Held (snapshot_clients w.room) (admitted w.threads) all,
    ) in
    let (no_one, no_kick, no_close, none_counted, none_listed, none_found) =
      reads_nothing v.room u shut.0 in
    (
      shut.2,
      All-append Held (snapshot_clients v.room) (admitted v.threads) shut.1 past,
      no_one,
      no_kick,
      no_close,
      none_counted,
      none_listed,
      none_found,
    )
