-- ===== src/Server/Manager/Sync.antt =====
-- The rooms of the Manager of server/room/manager.go against those of its database.
use friend_net.Prelude.{
  ◌≡◌, refl, sym, ap, ◌∙◌, All, Bool, true, false, Option, none, some, List, [], ◌∷◌, Bytes, arith,
}
use friend_net.Prelude.Dict.{Dict, get, get-put, get-delete, text_eq}
use friend_net.Server.Room.{Room, new_room}
use friend_net.Server.Storage.{
  Storage, has_room, create_room, delete_room_by_name, get_room_by_name,
}
use friend_net.Server.Storage.Integrity.{has_room-without_room}
use friend_net.Server.Manager.{
  Server, load_rooms, new_manager, get_room, manager_create_room, manager_delete_room, close_each,
  manager_close, Command, creates, deletes, closes, obey, obey_all,
}

abbrev pub is_some {ℓ} : {A : Type ℓ} → Option A → Bool
is_some none = false
is_some (some x) = true

get-load_rooms :
    (names : List Bytes) (name : Bytes)
    → is_some (get (load_rooms names) name) ≡ has_room names name
unfolding load_rooms has_room get
get-load_rooms [] name = refl
get-load_rooms (n ∷ names) name =
    ground (arith, get-put (load_rooms names) n name new_room, get-load_rooms names name)

get-close_each :
    (rooms : Dict Bytes Room) (name : Bytes)
    → is_some (get (close_each rooms) name) ≡ is_some (get rooms name)
unfolding get
get-close_each [] name = refl
get-close_each ((n, r) ∷ rooms) name = ground (arith, get-close_each rooms name)

-- Whether the manager has the room, and whether the database has it.
abbrev known : Server → Bytes → Bool
known server name = is_some (get server.manager.rooms name)

abbrev stored : Server → Bytes → Bool
stored server name = has_room server.storage.rooms name

-- A deletion that fails.
abbrev pub fails : Command → Bool
fails (creates fault name) = false
fails (deletes fault name) = fault
fails closes = false

obey_keeps :
    (command : Command) (server : Server) (name : Bytes)
    → fails command ≡ false
    → known server name ≡ stored server name
    → known (obey command server) name ≡ stored (obey command server) name
unfolding obey manager_create_room manager_delete_room manager_close create_room delete_room_by_name
    has_room
obey_keeps (creates fault n) server name f e =
    ground (arith, e, get-put server.manager.rooms n name new_room)
obey_keeps (deletes fault n) server name f e = ground (
  arith,
  f,
  e,
  get-delete server.manager.rooms n name,
  has_room-without_room server.storage.rooms n name,
)
obey_keeps closes server name f e = ground (arith, e, get-close_each server.manager.rooms name)

-- The other way round, a failed deletion does no harm.
obey-stored :
    (command : Command) (server : Server) (name : Bytes)
    → (known server name ≡ true → stored server name ≡ true)
    → known (obey command server) name ≡ true
    → stored (obey command server) name ≡ true
unfolding obey manager_create_room manager_delete_room manager_close create_room delete_room_by_name
    has_room
obey-stored (creates fault n) server name h e =
    ground (arith, h, get-put server.manager.rooms n name new_room)
obey-stored (deletes fault n) server name h e = ground (
  arith,
  h,
  get-delete server.manager.rooms n name,
  has_room-without_room server.storage.rooms n name,
)
obey-stored closes server name h e = ground (arith, h, get-close_each server.manager.rooms name)

obey_all_keeps :
    (commands : List Command) (server : Server) (name : Bytes)
    → All (λ command. fails command ≡ false) commands
    → known server name ≡ stored server name
    → known (obey_all commands server) name ≡ stored (obey_all commands server) name
unfolding obey_all
obey_all_keeps [] server name f e = e
obey_all_keeps (command ∷ commands) server name (f, g) e =
    obey_all_keeps commands (obey command server) name g (obey_keeps command server name f e)

obey_all-stored :
    (commands : List Command) (server : Server) (name : Bytes)
    → (known server name ≡ true → stored server name ≡ true)
    → known (obey_all commands server) name ≡ true
    → stored (obey_all commands server) name ≡ true
unfolding obey_all
obey_all-stored [] server name h e = h e
obey_all-stored (command ∷ commands) server name h e =
    obey_all-stored commands (obey command server) name (obey-stored command server name h) e

new_manager_synced :
    (fault : Bool) (s : Storage) (server : Server) (name : Bytes)
    → new_manager fault s ≡ some server
    → known server name ≡ stored server name
unfolding new_manager
new_manager_synced fault s server name e = ground (arith, e, get-load_rooms s.rooms name)

-- From the start of the server, and as long as no deletion fails in the database: the manager finds a
-- room exactly where the database has it.
pub get_room-get_room_by_name :
    (fault : Bool) (s : Storage) (server : Server) (commands : List Command) (name : Bytes)
    → new_manager fault s ≡ some server
    → All (λ command. fails command ≡ false) commands
    → get_room_by_name false name (obey_all commands server).storage
      ≡ some (is_some (get_room (obey_all commands server) name))
unfolding get_room_by_name get_room
get_room-get_room_by_name fault s server commands name e f =
    ap some (sym (obey_all_keeps commands server name f (new_manager_synced fault s server name e)))

-- From the start of the server, and whatever fails: a room that the manager finds is in the database.
pub get_room_stored :
    (fault : Bool) (s : Storage) (server : Server) (commands : List Command) (name : Bytes)
    (room : Room)
    → new_manager fault s ≡ some server
    → get_room (obey_all commands server) name ≡ some room
    → get_room_by_name false name (obey_all commands server).storage ≡ some true
unfolding get_room_by_name get_room
get_room_stored fault s server commands name room e g =
    let synced = new_manager_synced fault s server name e in
    ap some (obey_all-stored commands server name (λ k. sym synced ∙ k) (ap is_some g))
