-- ===== src/Server/Room.antt =====
-- server/room/room.go: the clients of a Room. What happens under one hold of the lock `mu` is one
-- function here; the sections are put together in Steps. `log` lists what a room has sent, the
-- latest first.
pub mod Steps
pub mod Onboarding
pub mod Panics
pub mod Presence
pub mod Closing
pub mod Latecomers
mod Tests
use friend_net.Prelude.{
  ℕ, suc, ◌≡◌, Bool, true, false, Option, none, some, List, [], ◌∷◌, ◌++◌, map, Bytes, bytes_eq,
  length, ◌==◌, if◌then◌else◌,
}
use friend_net.Prelude.Dict.{Dict, get, put, delete, text_eq}

-- A *Client: `address` is what == on the pointers compares.
pub record Client : Type 0 where
  pub address : ℕ
  pub username : Bytes

pub data Reason : Type 0 where
  disconnected : Reason
  kicked : Reason
  room_closed : Reason

pub data Effect : Type 0 where
  client_online : Bytes → Effect
  client_offline : Bytes → Effect
  auth_accepted : ℕ → Effect
  bye : ℕ → Effect
  close_with_reason : ℕ → Reason → Effect

pub data RoomErr : Type 0 where
  err_room_closed : RoomErr
  err_username_already_connected : RoomErr
  err_write : RoomErr

-- The field `clients` is a map, or nil.
pub record Room : Type 0 where
  pub is_closed : Bool
  pub clients : Option (Dict Bytes Client)
  pub log : List Effect

abbrev pub new_room : Room
new_room = record { is_closed = false; clients = some []; log = [] }

-- r.clients[username]: a nil map has no entry.
pub lookup : Room → Bytes → Option Client
lookup r username = elim r.clients [ none ↦ none | some m ↦ get m username ]

abbrev pub send : Effect → Room → Room
send effect r = record r { log = effect ∷ r.log }

-- `Broadcast`: nobody is told in a closed room. Its goroutine is taken to read the clients before
-- another one has the lock.
abbrev pub broadcast : Effect → Room → Room
broadcast effect r = record r { log = if r.is_closed then r.log else effect ∷ r.log }

-- The values of the map, in any order; [] for a nil map.
pub snapshot_clients : Room → List Client
snapshot_clients r = elim r.clients [ none ↦ [] | some m ↦ map (λ entry. entry.1) m ]

pub client_count : Room → ℕ
client_count r = if r.is_closed then 0 else elim r.clients [ none ↦ 0 | some m ↦ length m ]

pub get_all_clients : Room → List Client
unfolding snapshot_clients
get_all_clients r = if r.is_closed then [] else snapshot_clients r

unfoldable pub get_client_by_username : Room → Bytes → Option Client
unfolding lookup
get_client_by_username r username = if r.is_closed then none else lookup r username

-- `handleConnect`; `none` is the panic of a write to a nil map.
unfoldable pub handle_connect : Client → Room → Option Room
handle_connect c r = elim r.clients [
  | none ↦ none
  | some m ↦
      some (broadcast (client_online c.username) (record r { clients = some (put m c.username c) }))
]

abbrev pub remove_client : Client → Room → Room
remove_client c r = record r {
  clients = elim r.clients [ none ↦ none | some m ↦ some (delete m c.username) ];
}

-- `handleDisconnect`.
unfoldable pub handle_disconnect : Client → Room → Room
unfolding lookup
handle_disconnect c r = elim (lookup r c.username) [
  | none ↦ r
  | some old ↦
      if old.address == c.address
      then broadcast (client_offline c.username)
          (send (close_with_reason c.address disconnected) (remove_client c r))
      else r
]

-- `Onboard` under the read lock; `none` lets the client in.
pub check_onboard : Room → Bytes → Option RoomErr
unfolding lookup
check_onboard r username =
    if r.is_closed
    then some err_room_closed
    else elim (lookup r username) [ none ↦ none | some _ ↦ some err_username_already_connected ]

-- `KickClientByUsername`, which returns nil, an error, or what closing the connection returns.
pub data KickResult : Type 0 where
  kick_refused : KickResult
  no_client : KickResult
  kicked_client : ℕ → KickResult

unfoldable pub kick_client_by_username : Bytes → Room → Room × KickResult
unfolding lookup handle_disconnect
kick_client_by_username username r =
    if r.is_closed then (r, kick_refused) else elim (lookup r username) [
      | none ↦ (r, no_client)
      | some c ↦ (
        send (close_with_reason c.address kicked) (handle_disconnect c r),
        kicked_client c.address,
      )
    ]

-- `Close` up to its first unlock: the clients to close, or `none` where it returns at once.
pub begin_close : Room → Room × Option (List Client)
unfolding snapshot_clients
begin_close r =
    if r.is_closed then (r, none) else (record r { is_closed = true }, some (snapshot_clients r))

-- `Close` between its locks: a BYE to each client, then the end of each connection.
pub close_clients : List Client → Room → Room
close_clients cs r = record r {
  log =
      map (λ c. close_with_reason c.address room_closed) cs
      ++ (map (λ c. bye c.address) cs ++ r.log);
}

-- `Close` from its second lock on.
pub end_close : Room → Room
end_close r = record r { clients = none }

-- The whole of `Onboard` up to its loops, with no one else in between; `written` is whether the
-- client could be told. The result is the room and nil or an error, or `none` for a panic.
unfoldable pub onboard : Bool → Client → Room → Option (Room × Option RoomErr)
unfolding check_onboard handle_connect handle_disconnect
onboard written c r = elim (check_onboard r c.username) [
  | some err ↦ some (r, some err)
  | none ↦ elim (handle_connect c r) [
    | none ↦ none
    | some joined ↦
        if written
        then some (send (auth_accepted c.address) joined, none)
        else some (handle_disconnect c joined, some err_write)
  ]
]

-- The whole of `Close` with no one else in between.
unfoldable pub close : Room → Room
unfolding begin_close close_clients end_close
close r = elim (begin_close r).1 [
  | none ↦ (begin_close r).0
  | some cs ↦ end_close (close_clients cs (begin_close r).0)
]
