-- ===== src/Server/Accounts.antt =====
-- server/room/room.go: the accounts of a Room, over server/storage and common/password. Each read
-- and write of the storage may fail, and no one else uses it in between.
pub mod Passwords
mod Tests
use friend_net.Prelude.{
  ◌≡◌, Bool, true, false, Option, none, some, List, [], ◌∷◌, Bytes, if◌then◌else◌,
}
use friend_net.Common.Password.{
  PasswordErr, Checker, check, HashErr, Hashed, hashed, not_hashed, hash_with_requirements,
}
use friend_net.Server.Storage.{
  Storage, StorageErr, create_account, get_account_by_room_and_username,
  update_account_password_hash, delete_account_by_room_and_username,
}

-- Package mcfpassword: a hash, which may fail, and whether a password matches a hash and the hash
-- should be renewed. A password matches the hash that was made of it.
pub record Hashing : Type 0 where
  pub hash_password : Bytes → Option Bytes
  pub verify_password : Bytes → Bytes → Option (Bool × Bool)
  pub verify_of_hash :
      (password hash : Bytes)
      → hash_password password ≡ some hash
      → verify_password password hash ≡ some (true, false)

pub data AccountErr : Type 0 where
  err_room_closed : AccountErr
  err_account_exists : AccountErr
  err_no_such_account : AccountErr
  err_hash : HashErr → AccountErr
  err_verify : AccountErr
  err_read : AccountErr
  err_storage : StorageErr → AccountErr

-- What a Room has of them: its flag, its name and its requirements.
pub record AccountsOf : Type 0 where
  pub is_closed : Bool
  pub name : Bytes
  pub pass_reqs : List Checker

-- Whether the read and the write of an operation fail.
pub record Faults : Type 0 where
  pub read : Bool
  pub write : Bool

abbrev storage_result : Storage × Option StorageErr → Storage × Option AccountErr
storage_result (s, none) = (s, none)
storage_result (s, some err) = (s, some (err_storage err))

unfoldable pub room_create_account :
    Hashing → Faults → AccountsOf → Bytes → Bytes → Storage → Storage × Option AccountErr
unfolding get_account_by_room_and_username hash_with_requirements create_account
room_create_account hashing faults r username password s =
    if r.is_closed
    then (s, some err_room_closed)
    else elim (get_account_by_room_and_username faults.read r.name username s) [
      | none ↦ (s, some err_read)
      | some (some _) ↦ (s, some err_account_exists)
      | some none ↦
          elim (hash_with_requirements hashing.hash_password username password r.pass_reqs) [
            | not_hashed err ↦ (s, some (err_hash err))
            | hashed hash ↦ storage_result (create_account faults.write r.name username hash s)
          ]
    ]

unfoldable pub room_delete_account :
    Faults → AccountsOf → Bytes → Storage → Storage × Option AccountErr
unfolding get_account_by_room_and_username delete_account_by_room_and_username
room_delete_account faults r username s =
    if r.is_closed
    then (s, some err_room_closed)
    else elim (get_account_by_room_and_username faults.read r.name username s) [
      | none ↦ (s, some err_read)
      | some none ↦ (s, some err_no_such_account)
      | some (some _) ↦
          storage_result (delete_account_by_room_and_username faults.write r.name username s)
    ]

unfoldable pub room_update_account_password :
    Hashing → Faults → AccountsOf → Bytes → Bytes → Storage → Storage × Option AccountErr
unfolding get_account_by_room_and_username hash_with_requirements update_account_password_hash
room_update_account_password hashing faults r username password s =
    if r.is_closed
    then (s, some err_room_closed)
    else elim (hash_with_requirements hashing.hash_password username password r.pass_reqs) [
      | not_hashed err ↦ (s, some (err_hash err))
      | hashed hash ↦ elim (get_account_by_room_and_username faults.read r.name username s) [
        | none ↦ (s, some err_read)
        | some none ↦ (s, some err_no_such_account)
        | some (some _) ↦
            storage_result (update_account_password_hash faults.write r.name username hash s)
      ]
    ]

-- The bool of the result, or its error.
pub data Verified : Type 0 where
  verified : Bool → Verified
  not_verified : AccountErr → Verified

abbrev verify_result : Bool → Storage × Option StorageErr → Storage × Verified
verify_result matches (s, none) = (s, verified matches)
verify_result matches (s, some err) = (s, not_verified (err_storage err))

-- The hash is renewed where it should be, whether the password matches or not.
unfoldable pub rehash :
    Hashing → Faults → AccountsOf → Bytes → Bytes → Bool × Bool → Storage → Storage × Verified
unfolding update_account_password_hash
rehash hashing faults r username password (matches, needs_rehash) s =
    if needs_rehash
    then (elim (hashing.hash_password password) [
      | none ↦ (s, not_verified (err_hash HashErr.err_hashing))
      | some hash ↦
          verify_result matches (update_account_password_hash faults.write r.name username hash s)
    ])
    else (s, verified matches)

unfoldable pub room_verify_account_password :
    Hashing → Faults → AccountsOf → Bytes → Bytes → Storage → Storage × Verified
unfolding get_account_by_room_and_username rehash
room_verify_account_password hashing faults r username password s =
    if r.is_closed
    then (s, not_verified err_room_closed)
    else elim (get_account_by_room_and_username faults.read r.name username s) [
      | none ↦ (s, not_verified err_read)
      | some none ↦ (s, not_verified err_no_such_account)
      | some (some hash) ↦ elim (hashing.verify_password password hash) [
        | none ↦ (s, not_verified err_verify)
        | some result ↦ rehash hashing faults r username password result s
      ]
    ]
