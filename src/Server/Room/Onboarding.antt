-- ===== src/Server/Room/Onboarding.antt =====
-- Onboard of server/room/room.go with no one else in between, and what handleConnect and
-- handleDisconnect make of the map.
use friend_net.Prelude.{
  ◌≡◌, refl, sym, ap, ◌∙◌, Bool, false, Option, none, some, List, Bytes, bytes_eq, bytes_eq_iff,
  ◌==◌, ==_iff, if◌then◌else◌, Option-cases, Bool-cases, inl, inr, arith,
}
use friend_net.Prelude.Dict.{put, get-put, get-delete, beq_refl, text_eq}
use friend_net.Server.Room.{
  Client, client_online, auth_accepted, Room, RoomErr, err_username_already_connected, err_write,
  send, broadcast, lookup, check_onboard, handle_connect, handle_disconnect, onboard,
  get_client_by_username,
}

-- `handleDisconnect` takes out this very client, and a client that has come in its place stays.
pub lookup-handle_disconnect :
    (c : Client) (r : Room) (u : Bytes)
    → lookup (handle_disconnect c r) u ≡ (elim (lookup r c.username) [
      | none ↦ lookup r u
      | some old ↦
          if old.address == c.address
          then (if bytes_eq c.username u then none else lookup r u)
          else lookup r u
    ])
unfolding handle_disconnect lookup
lookup-handle_disconnect c r u = elim (Option-cases r.clients) [
  | inl n ↦ ground (arith, n)
  | inr (m, o) ↦ ground (arith, o, get-delete m c.username u)
]

lookup-handle_connect :
    (c : Client) (r s : Room) (u : Bytes)
    → handle_connect c r ≡ some s
    → lookup s u ≡ (if bytes_eq c.username u then some c else lookup r u)
unfolding handle_connect lookup
lookup-handle_connect c r s u e = elim (Option-cases r.clients) [
  | inl n ↦ ground (arith, n)
  | inr (m, o) ↦ ground (arith, o, get-put m c.username u c)
]

joined_then_left :
    (c : Client) (r s : Room) (u : Bytes)
    → handle_connect c r ≡ some s
    → lookup r c.username ≡ none
    → lookup (handle_disconnect c s) u ≡ lookup r u
joined_then_left c r s u e n = ground (
  arith,
  lookup-handle_disconnect c s u,
  lookup-handle_connect c r s c.username e,
  lookup-handle_connect c r s u e,
  beq_refl c.username,
  ==_iff c.address c.address,
  bytes_eq_iff c.username u,
)

handle_connect_total :
    (c : Client) (r : Room) (m : List (Bytes × Client))
    → r.clients ≡ some m
    → (s : Room) × (handle_connect c r ≡ some s) × (s.is_closed ≡ r.is_closed)
unfolding handle_connect
handle_connect_total c r m e = (
  broadcast (client_online c.username) (record r { clients = some (put m c.username c) }),
  ground arith,
  refl,
)

pub handle_disconnect_open :
    (c : Client) (r : Room) → (handle_disconnect c r).is_closed ≡ r.is_closed
unfolding handle_disconnect
handle_disconnect_open c r = elim (Option-cases (lookup r c.username)) [
  | inl n ↦ simp (n, handle_disconnect)
  | inr (old, g) ↦ elim (Bool-cases (old.address == c.address)) [
    | inl e ↦ simp (g, e, handle_disconnect)
    | inr e ↦ simp (g, e, handle_disconnect)
  ]
]

read_open : (r : Room) (u : Bytes) → r.is_closed ≡ false → get_client_by_username r u ≡ lookup r u
unfolding get_client_by_username
read_open r u o = simp o

check_onboard_free :
    (r : Room) (u : Bytes) → r.is_closed ≡ false → lookup r u ≡ none → check_onboard r u ≡ none
unfolding check_onboard
check_onboard_free r u o n = simp (o, n, check_onboard)

onboard_free :
    (written : Bool) (c : Client) (r s : Room)
    → r.is_closed ≡ false
    → handle_connect c r ≡ some s
    → s.is_closed ≡ r.is_closed
    → lookup r c.username ≡ none
    → (s : Room) × (err : Option RoomErr) × (onboard written c r ≡ some (s, err))
      × (err ≡ (elim (lookup r c.username) [
        | some old ↦ some err_username_already_connected
        | none ↦ if written then none else some err_write
      ]))
      × ((u : Bytes)
          → get_client_by_username s u ≡ (elim err [
            | none ↦ if bytes_eq c.username u then some c else get_client_by_username r u
            | some x ↦ get_client_by_username r u
          ]))
unfolding onboard
onboard_free written c r s o h p n = elim (Bool-cases written) [
  | inl w ↦
      let t = send (auth_accepted c.address) s in
      let same : (u : Bytes) → lookup t u ≡ lookup s u = unfold lookup in λ u. refl in
      (
        t,
        none,
        rw (check_onboard_free r c.username o n, h, w, onboard) refl,
        simp (n, w),
        λ u.
            read_open t u (p ∙ o)
            ∙ (same u ∙ (lookup-handle_connect c r s u h ∙ simp (read_open r u o))),
      )
  | inr w ↦
      let t = handle_disconnect c s in
      (
        t,
        some err_write,
        rw (check_onboard_free r c.username o n, h, w, onboard) refl,
        simp (n, w),
        λ u.
            read_open t u (handle_disconnect_open c s ∙ (p ∙ o))
            ∙ (joined_then_left c r s u h n ∙ sym (read_open r u o)),
      )
]

-- With no one else in between, Onboard of an open room returns, and lets a client in exactly where
-- no client has its username and it could be told. After an error everyone else is where they were,
-- and the new client is not in the room.
pub onboard_lem :
    (written : Bool) (c : Client) (r : Room) (m : List (Bytes × Client))
    → r.is_closed ≡ false
    → r.clients ≡ some m
    → (s : Room) × (err : Option RoomErr) × (onboard written c r ≡ some (s, err))
      × (err ≡ (elim (lookup r c.username) [
        | some old ↦ some err_username_already_connected
        | none ↦ if written then none else some err_write
      ]))
      × ((u : Bytes)
          → get_client_by_username s u ≡ (elim err [
            | none ↦ if bytes_eq c.username u then some c else get_client_by_username r u
            | some x ↦ get_client_by_username r u
          ]))
unfolding onboard
onboard_lem written c r m o e =
    let (s, h, p) = handle_connect_total c r m e in
    elim (Option-cases (lookup r c.username)) [
      | inr (old, g) ↦
          (r, some err_username_already_connected, simp (o, g, onboard), simp g, λ u. refl)
      | inl n ↦ onboard_free written c r s o h p n
    ]

-- A client that `Onboard` has let in is in the room.
pub onboard_joins :
    (written : Bool) (c : Client) (r s : Room)
    → onboard written c r ≡ some (s, none)
    → get_client_by_username s c.username ≡ some c
unfolding onboard check_onboard handle_connect lookup
onboard_joins written c r s e = elim (Bool-cases r.is_closed) [
  | inl o ↦ ground (arith, o)
  | inr o ↦ elim (Option-cases r.clients) [
    | inl n ↦ ground (arith, o, n)
    | inr (m, k) ↦
        let (t, err, made, spec, reads) = onboard_lem written c r m o k in
        let same : (t ≡ s) × (err ≡ none) = ground (arith, made, e) in
        ap (λ x. get_client_by_username x c.username) (sym same.0)
        ∙ (reads c.username ∙ ground (arith, same.1, beq_refl c.username))
  ]
]
