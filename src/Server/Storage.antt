-- ===== src/Server/Storage.antt =====
-- server/storage/storage.go over the tables of server/storage/migration: rooms by name, accounts by
-- room and username, and a foreign key from an account to its room that deletes with it. Each
-- statement may also fail: `fault` is whether it does. Creation times are not modelled, and the
-- order of rows has no meaning.
pub mod Integrity
mod Tests
use friend_net.Prelude.{
  ◌≡◌, Bool, true, false, Option, none, some, List, [], ◌∷◌, ◌||◌, Bytes, bytes_eq, if◌then◌else◌,
}
use friend_net.Prelude.Dict.{Dict, get, put, delete, text_eq, pair_eq}

pub record Storage : Type 0 where
  pub rooms : List Bytes
  pub accounts : Dict (Bytes × Bytes) Bytes

pub data StorageErr : Type 0 where
  err_record_exists : StorageErr
  err_statement : StorageErr

abbrev pub empty_storage : Storage
empty_storage = record { rooms = []; accounts = [] }

unfoldable pub has_room : List Bytes → Bytes → Bool
has_room [] room = false
has_room (name ∷ rooms) room = bytes_eq name room || has_room rooms room

unfoldable pub without_room : List Bytes → Bytes → List Bytes
without_room [] room = []
without_room (name ∷ rooms) room =
    let rest = without_room rooms room in if bytes_eq name room then rest else name ∷ rest

-- on delete cascade
unfoldable pub without_accounts : Dict (Bytes × Bytes) Bytes → Bytes → Dict (Bytes × Bytes) Bytes
without_accounts [] room = []
without_accounts ((key, hash) ∷ accounts) room =
    let rest = without_accounts accounts room in
    if bytes_eq key.0 room then rest else (key, hash) ∷ rest

unfoldable pub create_room : Bool → Bytes → Storage → Storage × Option StorageErr
unfolding has_room
create_room fault room s =
    if fault
    then (s, some err_statement)
    else if has_room s.rooms room
    then (s, some err_record_exists)
    else (record s { rooms = room ∷ s.rooms }, none)

-- The `has` of the result and the record, or an error.
unfoldable pub get_room_by_name : Bool → Bytes → Storage → Option Bool
unfolding has_room
get_room_by_name fault room s = if fault then none else some (has_room s.rooms room)

unfoldable pub get_rooms : Bool → Storage → Option (List Bytes)
get_rooms fault s = if fault then none else some s.rooms

unfoldable pub delete_room_by_name : Bool → Bytes → Storage → Storage × Option StorageErr
unfolding without_room without_accounts
delete_room_by_name fault room s = if fault then (s, some err_statement) else (
  record { rooms = without_room s.rooms room; accounts = without_accounts s.accounts room },
  none,
)

-- The primary key and the foreign key are both constraints.
unfoldable pub create_account : Bool → Bytes → Bytes → Bytes → Storage → Storage × Option StorageErr
unfolding has_room
create_account fault room username hash s =
    if fault then (s, some err_statement) else elim (get s.accounts (room, username)) [
      | some _ ↦ (s, some err_record_exists)
      | none ↦
          if has_room s.rooms room
          then (record s { accounts = put s.accounts (room, username) hash }, none)
          else (s, some err_record_exists)
    ]

-- The password hash of the record, if any, or an error.
unfoldable pub get_account_by_room_and_username :
    Bool → Bytes → Bytes → Storage → Option (Option Bytes)
get_account_by_room_and_username fault room username s =
    if fault then none else some (get s.accounts (room, username))

abbrev pub of_room : Dict (Bytes × Bytes) Bytes → Bytes → List (Bytes × Bytes)
of_room [] room = []
of_room ((key, hash) ∷ accounts) room =
    let rest = of_room accounts room in if bytes_eq key.0 room then (key.1, hash) ∷ rest else rest

-- Usernames with their hashes.
unfoldable pub get_accounts_by_room : Bool → Bytes → Storage → Option (List (Bytes × Bytes))
get_accounts_by_room fault room s = if fault then none else some (of_room s.accounts room)

unfoldable pub update_account_password_hash :
    Bool → Bytes → Bytes → Bytes → Storage → Storage × Option StorageErr
update_account_password_hash fault room username hash s =
    if fault then (s, some err_statement) else elim (get s.accounts (room, username)) [
      | none ↦ (s, none)
      | some _ ↦ (record s { accounts = put s.accounts (room, username) hash }, none)
    ]

unfoldable pub delete_account_by_room_and_username :
    Bool → Bytes → Bytes → Storage → Storage × Option StorageErr
delete_account_by_room_and_username fault room username s =
    if fault
    then (s, some err_statement)
    else (record s { accounts = delete s.accounts (room, username) }, none)

-- A statement that changes the database, with its fault.
pub data Statement : Type 0 where
  creates_room : Bool → Bytes → Statement
  deletes_room : Bool → Bytes → Statement
  creates_account : Bool → Bytes → Bytes → Bytes → Statement
  updates_account : Bool → Bytes → Bytes → Bytes → Statement
  deletes_account : Bool → Bytes → Bytes → Statement

unfoldable pub perform : Statement → Storage → Storage × Option StorageErr
unfolding create_room delete_room_by_name create_account update_account_password_hash
    delete_account_by_room_and_username
perform (creates_room fault room) s = create_room fault room s
perform (deletes_room fault room) s = delete_room_by_name fault room s
perform (creates_account fault room username hash) s = create_account fault room username hash s
perform (updates_account fault room username hash) s =
    update_account_password_hash fault room username hash s
perform (deletes_account fault room username) s =
    delete_account_by_room_and_username fault room username s

pub perform_all : List Statement → Storage → Storage
unfolding perform
perform_all [] s = s
perform_all (statement ∷ statements) s = perform_all statements (perform statement s).0
