-- ===== src/Server/Lobby.antt =====
-- server/lobby/lobby.go: how a connection becomes a client of a room. What the peer sends, and
-- whether the messages to it can be written, are data; names are ASCII where they are valid, so
-- that their runes are their bytes.
pub mod Admission
mod Tests
use friend_net.Prelude.{
  ℕ, ◌≡◌, Bool, true, false, ◌&&◌, Option, none, some, List, [], ◌∷◌, ◌++◌, Bytes, ◌==◌,
  if◌then◌else◌,
}
use friend_net.Prelude.Dict.{put, text_eq}
use friend_net.Common.Names.{normalize_username, normalize_room_name}
use friend_net.Protocol.{ProtoVersion, Comparison, newer, compare_proto_versions}
use friend_net.Server.Storage.{
  Storage, get_account_by_room_and_username, update_account_password_hash,
}
use friend_net.Server.Accounts.{Hashing, Faults}
use friend_net.Server.Room.{Client, Room, RoomErr, err_username_already_connected, onboard}
use friend_net.Server.Manager.{Manager, Server, get_room, with_rooms}

-- The first message of a stream, as protocol.ReadExpect gives it; or there is no stream.
pub data Received {ℓ} (A : Type ℓ) : Type ℓ where
  received : A → Received A
  unexpected : Received A
  unreadable : Received A
  no_stream : Received A

-- What the server answers.
pub data Reply : Type 0 where
  version_accepted : Reply
  version_rejected : Reply
  auth_invalid_credentials : Reply
  auth_already_connected : Reply
  unexpected_msg_type : Reply
  internal_error : Reply

pub data VersionErr : Type 0 where
  missing_version : VersionErr
  too_new : VersionErr
  too_old : VersionErr

-- The function literal of `negotiateClientVersion`, behind the read.
pub judge_version : ProtoVersion → Option ProtoVersion → Option VersionErr
unfolding compare_proto_versions
judge_version server none = some missing_version
judge_version server (some client) = elim (compare_proto_versions (some client) (some server)) [
  | Comparison.same ↦ none
  | cmp ↦
      if client.major == server.major && (client.minor == server.minor)
      then none
      else elim cmp [ newer ↦ some too_new | _ ↦ some too_old ]
]

-- The reply, and whether the client goes on. The error of a rejected version is a pointer, and
-- errors.AsType asks for the value, so that its reply is the one of any other error.
pub negotiate_client_version :
    ProtoVersion → Bool → Received (Option ProtoVersion) → List Reply × Bool
unfolding judge_version
negotiate_client_version server written (received client) = elim (judge_version server client) [
  | some err ↦ (internal_error ∷ [], false)
  | none ↦ (version_accepted ∷ [], written)
]
negotiate_client_version server written unexpected = (unexpected_msg_type ∷ [], false)
negotiate_client_version server written unreadable = (internal_error ∷ [], false)
negotiate_client_version server written no_stream = ([], false)

-- pb.MsgAuthenticate
pub record Credentials : Type 0 where
  pub room : Bytes
  pub username : Bytes
  pub password : Bytes

pub data AuthErr : Type 0 where
  invalid_credentials : AuthErr
  auth_failed : AuthErr

-- The room and the username, or the error.
pub data Authenticated : Type 0 where
  authenticated : Bytes → Bytes → Authenticated
  denied : AuthErr → Authenticated

-- The hash of a password that has matched, renewed where it should be.
pub renew : Hashing → Faults → Bytes → Bytes → Bytes → Bool → Storage → Storage × Authenticated
unfolding update_account_password_hash
renew hashing faults room username password false s = (s, authenticated room username)
renew hashing faults room username password true s = elim (hashing.hash_password password) [
  | none ↦ (s, denied auth_failed)
  | some hash ↦
      let (t, err) = update_account_password_hash faults.write room username hash s in
      elim err [ none ↦ (t, authenticated room username) | some _ ↦ (t, denied auth_failed) ]
]

pub check_password : Hashing → Faults → Bytes → Bytes → Bytes → Storage → Storage × Authenticated
unfolding renew get_account_by_room_and_username
check_password hashing faults room username password s =
    elim (get_account_by_room_and_username faults.read room username s) [
      | none ↦ (s, denied auth_failed)
      | some none ↦ (s, denied invalid_credentials)
      | some (some hash) ↦ elim (hashing.verify_password password hash) [
        | none ↦ (s, denied auth_failed)
        | some (matches, needs_rehash) ↦
            if matches
            then renew hashing faults room username password needs_rehash s
            else (s, denied invalid_credentials)
      ]
    ]

-- What one connection does: its messages, what fails, and whether the two messages to it are written.
pub record Visit : Type 0 where
  pub address : ℕ
  pub version_msg : Received (Option ProtoVersion)
  pub version_written : Bool
  pub auth_msg : Received Credentials
  pub faults : Faults
  pub accepted_written : Bool

-- The server afterwards, its replies, and the room and username under which the visitor has come in.
pub record Visited : Type 0 where
  pub server : Server
  pub replies : List Reply
  pub joined : Option (Bytes × Bytes)

abbrev pub turned_away : Server → List Reply → Visited
turned_away server replies = record { server = server; replies = replies; joined = none }

-- The end of `Onboard`, from what `Room.Onboard` has returned.
abbrev pub onboard_result :
    Bytes → Bytes → List Reply → Server → Option (Room × Option RoomErr) → Option Visited
onboard_result name username replies server none = none
onboard_result name username replies server (some (room, err)) =
    let after = with_rooms (put server.manager.rooms name room) server.storage server in
    some (elim err [
      | none ↦ record { server = after; replies = replies; joined = some (name, username) }
      | some err_username_already_connected ↦
          turned_away after (replies ++ (auth_already_connected ∷ []))
      | some _ ↦ turned_away after (replies ++ (internal_error ∷ []))
    ])

-- `Onboard` from the authenticated client on. The result `none` is a panic of the server.
pub enter : Visit → Bytes → Bytes → List Reply → Server → Option Visited
unfolding onboard get_room
enter visit name username replies server = elim (get_room server name) [
  | none ↦ some (turned_away server (replies ++ (internal_error ∷ [])))
  | some room ↦ onboard_result name username replies server (
      onboard visit.accepted_written (record { address = visit.address; username = username }) room)
]

module _ (unicode_lower : ℕ → ℕ) where
  -- The function literal of `authenticateClient`, behind the read.
  pub authenticate : Hashing → Faults → Credentials → Storage → Storage × Authenticated
  unfolding check_password
  authenticate hashing faults auth s = elim (normalize_room_name unicode_lower auth.room) [
    | none ↦ (s, denied invalid_credentials)
    | some room ↦ elim (normalize_username unicode_lower auth.username) [
      | none ↦ (s, denied invalid_credentials)
      | some username ↦ check_password hashing faults room username auth.password s
    ]
  ]

  -- `authenticateClient` and the rest of `Onboard`.
  pub admit : Hashing → Visit → List Reply → Server → Option Visited
  unfolding authenticate enter
  admit hashing visit replies server = elim visit.auth_msg [
    | received auth ↦
        let (s, result) = authenticate hashing visit.faults auth server.storage in
        let after = record server { storage = s } in
        elim result [
          | denied invalid_credentials ↦
              some (turned_away after (replies ++ (auth_invalid_credentials ∷ [])))
          | denied auth_failed ↦ some (turned_away after (replies ++ (internal_error ∷ [])))
          | authenticated name username ↦ enter visit name username replies after
        ]
    | unexpected ↦ some (turned_away server (replies ++ (unexpected_msg_type ∷ [])))
    | unreadable ↦ some (turned_away server (replies ++ (internal_error ∷ [])))
    | no_stream ↦ some (turned_away server replies)
  ]

  -- `Onboard`.
  pub lobby_onboard : ProtoVersion → Hashing → Visit → Server → Option Visited
  unfolding negotiate_client_version admit
  lobby_onboard server_ver hashing visit server =
      let (replies, goes_on) =
        negotiate_client_version server_ver visit.version_written visit.version_msg in
      if goes_on then admit hashing visit replies server else some (turned_away server replies)
