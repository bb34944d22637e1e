-- ===== src/Server/Manager/Tests.antt =====
-- server/room/manager.go: a room that is created, and one whose deletion fails in the database.
use friend_net.Prelude.{◌≡◌, refl, true, false, some, [], ◌∷◌, codes}
use friend_net.Prelude.Dict.{get, put, delete, text_eq}
use friend_net.Server.Room.{new_room}
use friend_net.Server.Storage.{Storage, get_rooms, get_room_by_name}
use friend_net.Server.Manager.{
  Server, new_manager, load_rooms, get_room, manager_create_room, err_room_exists, creates, deletes,
  obey, obey_all,
}
use friend_net.Server.Manager.Sync.{is_some, get_room-get_room_by_name}

abbrev lounge : Storage
lounge = record { rooms = codes "lounge" ∷ []; accounts = [] }

abbrev start : Server
start = record {
  manager = record { is_closed = false; rooms = (codes "lounge", new_room) ∷ [] };
  storage = lounge;
}

starts : new_manager false lounge ≡ some start
unfolding new_manager load_rooms get put delete get_rooms
starts = refl

twice : manager_create_room false (codes "lounge") start ≡ (start, some err_room_exists)
unfolding manager_create_room get
twice = refl

-- The room is back after the next start of the server.
undead : (obey (deletes true (codes "lounge")) start).storage ≡ lounge
unfolding obey get
undead = refl

get_room-get_room_by_name_example :
    get_room_by_name false
      (codes "cellar")
      (obey_all (creates false (codes "cellar") ∷ []) start).storage
    ≡ some
        (is_some (get_room (obey_all (creates false (codes "cellar") ∷ []) start) (codes "cellar")))
unfolding new_manager load_rooms get put delete get_rooms
get_room-get_room_by_name_example =
    get_room-get_room_by_name false lounge start (creates false (codes "cellar") ∷ [])
      (codes "cellar") refl (refl, tt)
