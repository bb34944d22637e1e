-- ===== src/Server/Manager.antt =====
-- server/room/manager.go: the rooms of the server, over server/storage. Each call runs here with no
-- one else in between, and a call of the storage may fail.
pub mod Sync
mod Tests
use friend_net.Prelude.{
  ◌≡◌, Bool, true, false, Option, none, some, List, [], ◌∷◌, map, Bytes, if◌then◌else◌,
}
use friend_net.Prelude.Dict.{Dict, get, put, delete, text_eq}
use friend_net.Server.Room.{Room, new_room, close}
use friend_net.Server.Storage.{Storage, StorageErr, create_room, delete_room_by_name, get_rooms}

pub record Manager : Type 0 where
  pub is_closed : Bool
  pub rooms : Dict Bytes Room

pub data ManagerErr : Type 0 where
  err_manager_closed : ManagerErr
  err_room_exists : ManagerErr
  err_storage : StorageErr → ManagerErr

-- The server: its manager and its database.
pub record Server : Type 0 where
  pub manager : Manager
  pub storage : Storage

unfoldable pub load_rooms : List Bytes → Dict Bytes Room
load_rooms [] = []
load_rooms (name ∷ names) = put (load_rooms names) name new_room

-- `NewManager`; `none` where the rooms cannot be read.
unfoldable pub new_manager : Bool → Storage → Option Server
unfolding get_rooms load_rooms
new_manager fault s = elim (get_rooms fault s) [
  | none ↦ none
  | some names ↦
      some
        (record { manager = record { is_closed = false; rooms = load_rooms names }; storage = s })
]

pub get_all : Server → List Room
get_all server =
    if server.manager.is_closed then [] else map (λ entry. entry.1) server.manager.rooms

-- `GetRoomByName` answers for a closed manager too.
unfoldable pub get_room : Server → Bytes → Option Room
get_room server name = get server.manager.rooms name

abbrev pub with_rooms : Dict Bytes Room → Storage → Server → Server
with_rooms rooms s server = record {
  manager = record server.manager { rooms = rooms };
  storage = s;
}

-- Of `CreateRoom`, what the database has answered.
abbrev pub created : Bytes → Server → Storage × Option StorageErr → Server × Option ManagerErr
created name server (s, some err) = (record server { storage = s }, some (err_storage err))
created name server (s, none) = (with_rooms (put server.manager.rooms name new_room) s server, none)

unfoldable pub manager_create_room : Bool → Bytes → Server → Server × Option ManagerErr
unfolding create_room
manager_create_room fault name server =
    if server.manager.is_closed
    then (server, some err_manager_closed)
    else elim (get server.manager.rooms name) [
      | some _ ↦ (server, some err_room_exists)
      | none ↦ created name server (create_room fault name server.storage)
    ]

abbrev pub storage_err : Option StorageErr → Option ManagerErr
storage_err none = none
storage_err (some err) = some (err_storage err)

-- `DeleteRoomByName`, with the room that it has closed, if any.
unfoldable pub manager_delete_room :
    Bool → Bytes → Server → Server × Option Room × Option ManagerErr
unfolding delete_room_by_name close
manager_delete_room fault name server =
    if server.manager.is_closed
    then (server, none, some err_manager_closed)
    else elim (get server.manager.rooms name) [
      | none ↦ (server, none, none)
      | some room ↦
          let (s, err) = delete_room_by_name fault name server.storage in
          (
            with_rooms (delete server.manager.rooms name) s server,
            some (close room),
            storage_err err,
          )
    ]

abbrev pub close_each : Dict Bytes Room → Dict Bytes Room
close_each = map (λ entry. (entry.0, close entry.1))

-- `Close`: the rooms stay in the map.
unfoldable pub manager_close : Server → Server
unfolding close
manager_close server = if server.manager.is_closed then server else record server {
  manager = record { is_closed = true; rooms = close_each server.manager.rooms };
}

-- A call of the manager, with the fault of its statement.
pub data Command : Type 0 where
  creates : Bool → Bytes → Command
  deletes : Bool → Bytes → Command
  closes : Command

pub obey : Command → Server → Server
unfolding manager_create_room manager_delete_room manager_close
obey (creates fault name) server = (manager_create_room fault name server).0
obey (deletes fault name) server = (manager_delete_room fault name server).0
obey closes server = manager_close server

pub obey_all : List Command → Server → Server
unfolding obey
obey_all [] server = server
obey_all (command ∷ commands) server = obey_all commands (obey command server)
