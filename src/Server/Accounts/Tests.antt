-- ===== src/Server/Accounts/Tests.antt =====
-- Accounts of server/room/room.go with a hash that hides nothing: 2 marks one to be renewed.
use friend_net.Prelude.{
  ◌≡◌, refl, Bool, true, false, ◌||◌, Option, none, some, [], ◌∷◌, Bytes, codes, bytes_eq,
  bytes_eq_iff, ◌==◌, arith,
}
use friend_net.Prelude.Dict.{get, put, text_eq, pair_eq}
use friend_net.Common.Password.{with_min_len}
use friend_net.Server.Storage.{Storage}
use friend_net.Server.Accounts.{
  Hashing, err_account_exists, err_no_such_account, AccountsOf, room_create_account,
  room_delete_account, verified, room_verify_account_password, rehash,
}
use friend_net.Server.Accounts.Passwords.{no_faults, Renewed, room_verify_account_password_lem}

abbrev plain_verify : Bytes → Bytes → Option (Bool × Bool)
plain_verify password [] = none
plain_verify password (format ∷ hash) = some (bytes_eq password hash, format == 2)

plain_verify_of_hash :
    (password hash : Bytes)
    → some (1 ∷ password) ≡ some hash
    → plain_verify password hash ≡ some (true, false)
plain_verify_of_hash password [] e = ground arith
plain_verify_of_hash password (format ∷ hash) e = ground (arith, bytes_eq_iff password hash)

abbrev plain : Hashing
plain = record {
  hash_password = λ password. some (1 ∷ password);
  verify_password = plain_verify;
  verify_of_hash = plain_verify_of_hash;
}

abbrev room : AccountsOf
room = record { is_closed = false; name = codes "lounge"; pass_reqs = with_min_len 3 ∷ [] }

abbrev empty : Storage
empty = record { rooms = codes "lounge" ∷ []; accounts = [] }

abbrev with_alice : Bytes → Storage
with_alice hash = record {
  rooms = codes "lounge" ∷ [];
  accounts = ((codes "lounge", codes "alice"), hash) ∷ [];
}

twice :
    room_create_account plain no_faults room (codes "alice") (codes "fish") (with_alice (1 ∷ []))
    ≡ (with_alice (1 ∷ []), some err_account_exists)
unfolding room_create_account get
twice = refl

gone :
    room_delete_account no_faults room (codes "bob") (with_alice (1 ∷ []))
    ≡ (with_alice (1 ∷ []), some err_no_such_account)
unfolding room_delete_account get
gone = refl

-- A wrong password takes the place of the right one if the hash is to be renewed.
wrong_password_kept :
    room_verify_account_password plain no_faults room
      (codes "alice")
      (codes "cat")
      (with_alice (2 ∷ codes "fish"))
    ≡ (with_alice (1 ∷ codes "cat"), verified false)
unfolding room_verify_account_password rehash get put
wrong_password_kept = refl

room_verify_account_password_lem_example :
    (false ≡ false)
    × ((hash : Bytes) × (renews : Bool) × (get
            (with_alice (2 ∷ codes "fish")).accounts
            (codes "lounge", codes "alice")
          ≡ some hash)
        × (plain_verify (codes "cat") hash ≡ some (false, renews))
        × Renewed plain room
            (codes "alice")
            (codes "cat")
            (with_alice (2 ∷ codes "fish"))
            (with_alice (1 ∷ codes "cat"))
            renews
        × (room_verify_account_password plain no_faults room
              (codes "alice")
              (codes "cat")
              (with_alice (1 ∷ codes "cat"))
            ≡ (with_alice (1 ∷ codes "cat"), verified (false || renews))))
unfolding room_verify_account_password rehash get put
room_verify_account_password_lem_example =
    room_verify_account_password_lem plain no_faults room (codes "alice") (codes "cat") false
      (with_alice (2 ∷ codes "fish")) (with_alice (1 ∷ codes "cat")) refl
