-- ===== src/Server/Storage/Tests.antt =====
-- server/storage/storage.go on two rooms and one account.
use friend_net.Prelude.{◌≡◌, refl, false, none, some, List, [], ◌∷◌, codes}
use friend_net.Prelude.Dict.{get, put, text_eq, pair_eq}
use friend_net.Server.Storage.{
  Storage, err_record_exists, empty_storage, has_room, create_account,
  get_account_by_room_and_username, Statement, creates_room, deletes_room, creates_account, perform,
  perform_all,
}
use friend_net.Server.Storage.Integrity.{get_account-perform}

abbrev setup : List Statement
setup =
    creates_room false (codes "lounge")
    ∷ creates_account false (codes "lounge") (codes "alice") (codes "hash")
    ∷ []

abbrev lounge : Storage
lounge = record {
  rooms = codes "lounge" ∷ [];
  accounts = ((codes "lounge", codes "alice"), codes "hash") ∷ [];
}

lounge_is_set_up : perform_all setup empty_storage ≡ lounge
unfolding perform_all perform get put has_room
lounge_is_set_up = refl

-- The error of a missing room is the one of a duplicate.
no_such_room :
    create_account false (codes "cellar") (codes "bob") (codes "hash") lounge
    ≡ (lounge, some err_record_exists)
unfolding create_account get has_room
no_such_room = refl

get_account-perform_example :
    get_account_by_room_and_username false
      (codes "lounge")
      (codes "alice")
      (perform (deletes_room false (codes "lounge")) lounge).0
    ≡ some none
unfolding get has_room
get_account-perform_example =
    get_account-perform (deletes_room false (codes "lounge")) lounge (codes "lounge")
      (codes "alice")
