-- ===== src/Server/Room/Presence.antt =====
-- What the clients of a room are told of each other: the broadcasts that `handleConnect` and
-- `handleDisconnect` of server/room/room.go start, against the map of clients.
use friend_net.Prelude.{
  ◌≡◌, refl, sym, subst, ◌∙◌, ◌⊎◌, Bool, true, false, Option, none, some, List, [], ◌∷◌, ◌++◌, map,
  Bytes, bytes_eq, bytes_eq_iff, ◌==◌, if◌then◌else◌, Option-cases, Bool-cases, inl, inr, arith,
}
use friend_net.Prelude.Dict.{get, put, delete, get-put, get-delete, text_eq}
use friend_net.Server.Room.{
  Client, room_closed, kicked, Effect, client_online, client_offline, auth_accepted, bye,
  close_with_reason, Room, send, lookup, handle_connect, handle_disconnect, kick_client_by_username,
  begin_close, close_clients, end_close,
}
use friend_net.Server.Room.Steps.{
  Thread, Section, refuse, admit, connect, write, write_fails, fail, leave, close_all, end, World,
  Reaches, new_world, Reaches-keeps,
}

-- Whether someone who has followed the broadcasts takes a user to be online.
pub announced : List Effect → Bytes → Bool
announced [] u = false
announced (client_online v ∷ log) u = if bytes_eq v u then true else announced log u
announced (client_offline v ∷ log) u = if bytes_eq v u then false else announced log u
announced (auth_accepted c ∷ log) u = announced log u
announced (bye c ∷ log) u = announced log u
announced (close_with_reason c reason ∷ log) u = announced log u

abbrev pub is_some {ℓ} : {A : Type ℓ} → Option A → Bool
is_some none = false
is_some (some x) = true

-- The broadcasts tell whether `u` is in the map, and a client stands under its own username.
abbrev pub Present : List (Bytes × Client) → List Effect → Bytes → Type 0
Present m log u =
    (announced log u ≡ is_some (get m u)) × ((c : Client) → get m u ≡ some c → c.username ≡ u)

-- So it is as long as the room is open.
abbrev Announced : Bytes → Room → Type 0
Announced u r = elim r.is_closed [
  | true ↦ Unit
  | false ↦ elim r.clients [ none ↦ Unit | some m ↦ Present m r.log u ]
]

get-put_keeps :
    (m : List (Bytes × Client)) (c : Client) (log : List Effect) (u : Bytes)
    → Present m log u
    → Present (put m c.username c) (client_online c.username ∷ log) u
unfolding announced
get-put_keeps m c log u (a, k) =
    rw (get-put m c.username u c) (elim (Bool-cases (bytes_eq c.username u)) [
      | inl e ↦ rw e (refl, λ d x. ground (arith, bytes_eq_iff c.username u))
      | inr e ↦ rw e (a, k)
    ])

get-delete_keeps :
    (m : List (Bytes × Client)) (v : Bytes) (log : List Effect) (u : Bytes)
    → Present m log u
    → Present (delete m v) (client_offline v ∷ log) u
unfolding announced
get-delete_keeps m v log u (a, k) = rw (get-delete m v u) (elim (Bool-cases (bytes_eq v u)) [
  | inl e ↦ rw e (refl, λ d x. ground arith)
  | inr e ↦ rw e (a, k)
])

abbrev room_of : Bool → Option (List (Bytes × Client)) → List Effect → Room
room_of b m log = record { is_closed = b; clients = m; log = log }

handle_connect_keeps :
    (c : Client) (b : Bool) (m : Option (List (Bytes × Client))) (log : List Effect) (s : Room)
    (u : Bytes)
    → handle_connect c (room_of b m log) ≡ some s
    → Announced u (room_of b m log)
    → Announced u s
unfolding handle_connect
handle_connect_keeps c b none log s u e a = ground arith
handle_connect_keeps c true (some m) log s u e a =
    let After : Option Room → Type 0 = λ r. elim r [ none ↦ Unit | some t ↦ Announced u t ] in
    subst After e tt
handle_connect_keeps c false (some m) log s u e a =
    let After : Option Room → Type 0 = λ r. elim r [ none ↦ Unit | some t ↦ Announced u t ] in
    subst After e (get-put_keeps m c log u a)

handle_disconnect_keeps :
    (c : Client) (b : Bool) (m : Option (List (Bytes × Client))) (log : List Effect) (u : Bytes)
    → Announced u (room_of b m log)
    → Announced u (handle_disconnect c (room_of b m log))
unfolding handle_disconnect lookup announced
handle_disconnect_keeps c b none log u a = a
handle_disconnect_keeps c true (some m) log u a = elim (Option-cases (get m c.username)) [
  | inl n ↦ rw (n, handle_disconnect, lookup) tt
  | inr (old, g) ↦ elim (Bool-cases (old.address == c.address)) [
    | inl e ↦ rw (g, e, handle_disconnect, lookup) tt
    | inr e ↦ rw (g, e, handle_disconnect, lookup) tt
  ]
]
handle_disconnect_keeps c false (some m) log u a = elim (Option-cases (get m c.username)) [
  | inl n ↦ rw (n, handle_disconnect, lookup) a
  | inr (old, g) ↦ elim (Bool-cases (old.address == c.address)) [
    | inl e ↦ rw (g, e, handle_disconnect, lookup) (get-delete_keeps m c.username log u a)
    | inr e ↦ rw (g, e, handle_disconnect, lookup) a
  ]
]

disconnect_keeps :
    (c : Client) (r : Room) (u : Bytes) → Announced u r → Announced u (handle_disconnect c r)
disconnect_keeps c r u a = handle_disconnect_keeps c r.is_closed r.clients r.log u a

-- A message to one client, or the end of its connection, is no broadcast.
mute_keeps :
    (effect : Effect) (b : Bool) (m : Option (List (Bytes × Client))) (log : List Effect)
    (u : Bytes)
    → announced (effect ∷ log) u ≡ announced log u
    → Announced u (room_of b m log)
    → Announced u (room_of b m (effect ∷ log))
mute_keeps effect true m log u e a = tt
mute_keeps effect false none log u e a = tt
mute_keeps effect false (some m) log u e a = (e ∙ a.0, a.1)

pub kick_cases :
    (v : Bytes) (r : Room)
    → ((kick_client_by_username v r).0 ≡ r)
      ⊎ ((c : Client) × (lookup r v ≡ some c)
          × ((kick_client_by_username v r).0
              ≡ send (close_with_reason c.address kicked) (handle_disconnect c r)))
unfolding kick_client_by_username
kick_cases v r = elim (Bool-cases r.is_closed) [
  | inl e ↦ inl (simp (e, kick_client_by_username))
  | inr e ↦ elim (Option-cases (lookup r v)) [
    | inl n ↦ inl (simp (e, n, kick_client_by_username))
    | inr (c, g) ↦ inr (c, g, simp (e, g, kick_client_by_username))
  ]
]

kick_keeps :
    (v : Bytes) (r : Room) (u : Bytes) → Announced u r → Announced u (kick_client_by_username v r).0
unfolding announced
kick_keeps v r u a = elim (kick_cases v r) [
  | inl e ↦ subst (Announced u) (sym e) a
  | inr (c, g, e) ↦
      let s = handle_disconnect c r in
      subst (Announced u) (sym e) (
        mute_keeps (close_with_reason c.address kicked) s.is_closed s.clients s.log u refl
          (disconnect_keeps c r u a))
]

announced-close_clients :
    (cs ds : List Client) (log : List Effect) (u : Bytes)
    → announced
        (map (λ c. close_with_reason c.address room_closed) cs
          ++ (map (λ c. bye c.address) ds ++ log))
        u
      ≡ announced log u
unfolding announced
announced-close_clients [] [] log u = refl
announced-close_clients [] (d ∷ ds) log u = announced-close_clients [] ds log u
announced-close_clients (c ∷ cs) ds log u = announced-close_clients cs ds log u

close_clients_keeps :
    (cs : List Client) (b : Bool) (m : Option (List (Bytes × Client))) (log : List Effect)
    (u : Bytes)
    → Announced u (room_of b m log)
    → Announced u (close_clients cs (room_of b m log))
unfolding close_clients
close_clients_keeps cs true m log u a = tt
close_clients_keeps cs false none log u a = tt
close_clients_keeps cs false (some m) log u a = (announced-close_clients cs cs log u ∙ a.0, a.1)

begin_close_open :
    (r : Room) → r.is_closed ≡ false → (begin_close r).0 ≡ record r { is_closed = true }
unfolding begin_close
begin_close_open r o = rw o refl

begin_close_keeps : (r : Room) (u : Bytes) → Announced u r → Announced u (begin_close r).0
unfolding begin_close
begin_close_keeps r u a = elim (Bool-cases r.is_closed) [
  | inl e ↦ subst (Announced u) (sym (unfold begin_close in simp (e, begin_close))) a
  | inr e ↦ subst (Announced u) (sym (begin_close_open r e)) tt
]

end_close_keeps : (r : Room) (u : Bytes) → Announced u (end_close r)
unfolding end_close
end_close_keeps r u = elim (Bool-cases r.is_closed) [ inl e ↦ rw e tt | inr e ↦ rw e tt ]

Section-keeps :
    (u : Bytes) (r s : Room) (t x : Thread) → Section r t s x → Announced u r → Announced u s
unfolding announced
Section-keeps u r s t x (refuse c err e f g h) a = subst (Announced u) (sym g) a
Section-keeps u r s t x (admit c e f g h) a = subst (Announced u) (sym g) a
Section-keeps u r s t x (connect c e g h) a =
    handle_connect_keeps c r.is_closed r.clients r.log s u g a
Section-keeps u r s t x (write c e g h) a =
    subst (Announced u) (sym g)
      (mute_keeps (auth_accepted c.address) r.is_closed r.clients r.log u refl a)
Section-keeps u r s t x (write_fails c e g h) a = subst (Announced u) (sym g) a
Section-keeps u r s t x (fail c e g h) a = subst (Announced u) (sym g) (disconnect_keeps c r u a)
Section-keeps u r s t x (leave c e g h) a = subst (Announced u) (sym g) (disconnect_keeps c r u a)
Section-keeps u r s t x (close_all cs e g h) a =
    subst (Announced u) (sym g) (close_clients_keeps cs r.is_closed r.clients r.log u a)
Section-keeps u r s t x (end e g h) a = subst (Announced u) (sym g) (end_close_keeps r u)

-- In every world that a new one can become, whatever goroutines have run into each other, and until
-- Close marks the room as closed: whoever has followed the broadcasts, each taken to go out before the
-- next section of a goroutine, takes exactly the usernames of the map to be online, and each client
-- stands under its own username.
pub Reaches-Present :
    (w : World) (m : List (Bytes × Client)) (u : Bytes)
    → Reaches new_world w
    → w.room.is_closed ≡ false
    → w.room.clients ≡ some m
    → (announced w.room.log u ≡ is_some (get m u))
      × ((c : Client) → get m u ≡ some c → c.username ≡ u)
unfolding announced get
Reaches-Present w m u reaches o e =
    let a =
      Reaches-keeps (Announced u) (Section-keeps u) (λ r v. kick_keeps v r u)
        (λ r. begin_close_keeps r u) new_world w reaches (refl, λ c x. ground arith) in
    rw (o, e) at a
