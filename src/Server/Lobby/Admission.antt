-- ===== src/Server/Lobby/Admission.antt =====
-- Who comes in through Lobby.Onboard of server/lobby/lobby.go.
use friend_net.Prelude.{
  ℕ, ◌≡◌, refl, sym, ap, ◌∙◌, ◌⊎◌, inl, inr, Bool, true, false, ◌&&◌, Option, none, some, List, [],
  ◌∷◌, Bytes, ◌==◌, if◌then◌else◌, Option-cases, Bool-cases, arith,
}
use friend_net.Prelude.Dict.{get, get-put, beq_refl, text_eq, pair_eq}
use friend_net.Common.Names.{normalize_username, normalize_room_name}
use friend_net.Protocol.{ProtoVersion, compare_proto_versions}
use friend_net.Server.Storage.{
  Storage, get_account_by_room_and_username, update_account_password_hash,
}
use friend_net.Server.Accounts.{Hashing, Faults}
use friend_net.Server.Room.{
  Client, Room, err_room_closed, err_username_already_connected, err_write, onboard,
  get_client_by_username,
}
use friend_net.Server.Room.Onboarding.{onboard_joins}
use friend_net.Server.Manager.{Server, get_room}
use friend_net.Server.Lobby.{
  Received, received, unexpected, unreadable, no_stream, Reply, version_accepted, internal_error,
  judge_version, negotiate_client_version, Credentials, AuthErr, invalid_credentials, auth_failed,
  Authenticated, authenticated, denied, check_password, renew, authenticate, Visit, Visited, enter,
  admit, lobby_onboard,
}

-- Of the versions, what the server asks for.
abbrev pub fits : ProtoVersion → Option ProtoVersion → Bool
fits server none = false
fits server (some client) = client.major == server.major && (client.minor == server.minor)

-- A version is accepted exactly where major and minor agree, and the client goes on if it could be told.
-- Every other version is answered with the internal error.
pub negotiate_client_version_lem :
    (server : ProtoVersion) (written : Bool) (client : Option ProtoVersion)
    → negotiate_client_version server written (received client) ≡ (
        if fits server client
        then (version_accepted ∷ [], written)
        else (internal_error ∷ [], false))
unfolding negotiate_client_version judge_version compare_proto_versions
negotiate_client_version_lem server written none = refl
negotiate_client_version_lem server written (some client) = ground arith

-- What a password check that succeeds has seen.
renew_joins :
    (hashing : Hashing) (faults : Faults) (room username password a b : Bytes) (needs : Bool)
    (s t : Storage)
    → renew hashing faults room username password needs s ≡ (t, authenticated a b)
    → (a ≡ room) × (b ≡ username)
unfolding renew update_account_password_hash
renew_joins hashing faults room username password a b false s t e = ground arith
renew_joins hashing faults room username password a b true s t e = ground arith

abbrev pub Matches : Hashing → Storage → Bytes → Bytes → Bytes → Type 0
Matches hashing s room username password =
    (hash : Bytes) × (needs_rehash : Bool) × (get s.accounts (room, username) ≡ some hash)
    × (hashing.verify_password password hash ≡ some (true, needs_rehash))

check_password_joins :
    (hashing : Hashing) (faults : Faults) (room username password a b : Bytes) (s t : Storage)
    → check_password hashing faults room username password s ≡ (t, authenticated a b)
    → (a ≡ room) × (b ≡ username) × Matches hashing s room username password
unfolding check_password get_account_by_room_and_username
check_password_joins hashing faults room username password a b s t e =
    elim (Option-cases (get s.accounts (room, username))) [
      | inl n ↦ ground (arith, n)
      | inr (hash, g) ↦ elim (Option-cases (hashing.verify_password password hash)) [
        | inl n ↦ ground (arith, g, n)
        | inr ((false, needs), v) ↦ ground (arith, g, v)
        | inr ((true, needs), v) ↦
            let renewed : renew hashing faults room username password needs s
                ≡ (t, authenticated a b) =
              ground (arith, g, v) in
            let (x, y) = renew_joins hashing faults room username password a b needs s t renewed in
            (x, y, (hash, needs, g, v))
      ]
    ]

move :
    (hashing : Hashing) (s : Storage) (password : Bytes) {a b room username : Bytes}
    → a ≡ room
    → b ≡ username
    → Matches hashing s room username password
    → Matches hashing s a b password
move hashing s password x y (hash, needs, g, v) = (hash, needs, rw (x, y) g, v)

module _ (unicode_lower : ℕ → ℕ) where
  abbrev pub Named : Credentials → Bytes → Bytes → Type 0
  Named auth name username =
      (normalize_room_name unicode_lower auth.room ≡ some name)
      × (normalize_username unicode_lower auth.username ≡ some username)

  authenticate_joins :
      (hashing : Hashing) (faults : Faults) (auth : Credentials) (a b : Bytes) (s t : Storage)
      → authenticate unicode_lower hashing faults auth s ≡ (t, authenticated a b)
      → Named auth a b × Matches hashing s a b auth.password
  unfolding authenticate
  authenticate_joins hashing faults auth a b s t e =
      elim (Option-cases (normalize_room_name unicode_lower auth.room)) [
        | inl n ↦ ground (arith, n)
        | inr (room, r) ↦ elim (Option-cases (normalize_username unicode_lower auth.username)) [
          | inl n ↦ ground (arith, r, n)
          | inr (username, u) ↦
              let checked : check_password hashing faults room username auth.password s
                  ≡ (t, authenticated a b) =
                ground (arith, r, u) in
              let (x, y, m) =
                check_password_joins hashing faults room username auth.password a b s t checked in
              ((r ∙ ap some (sym x), u ∙ ap some (sym y)), move hashing s auth.password x y m)
        ]
      ]

enter_joins :
    (visit : Visit) (name username a b : Bytes) (replies : List Reply) (server : Server)
    (visited : Visited)
    → enter visit name username replies server ≡ some visited
    → visited.joined ≡ some (a, b)
    → (a ≡ name)
      × (b ≡ username)
      × ((room : Room) × (get_room visited.server name ≡ some room)
          × (get_client_by_username room username
              ≡ some (record { address = visit.address; username = username })))
unfolding enter get_room
enter_joins visit name username a b replies server visited e j =
    let c : Client = record { address = visit.address; username = username } in
    elim (Option-cases (get server.manager.rooms name)) [
      | inl n ↦ ground (arith, n)
      | inr (room, g) ↦ elim (Option-cases (onboard visit.accepted_written c room)) [
        | inl n ↦ ground (arith, g, n)
        | inr ((after, none), o) ↦ (
          ground (arith, g, o),
          ground (arith, g, o),
          (
            after,
            ground (arith, g, o, get-put server.manager.rooms name name after, beq_refl name),
            onboard_joins visit.accepted_written c room after o,
          ),
        )
        | inr ((after, some err), o) ↦ elim err [
          | err_room_closed ↦ ground (arith, g, o)
          | err_username_already_connected ↦ ground (arith, g, o)
          | err_write ↦ ground (arith, g, o)
        ]
      ]
    ]

Received-cases :
    {A : Type 0} (x : Received A)
    → ((a : A) × (x ≡ received a)) ⊎ ((x ≡ unexpected) ⊎ ((x ≡ unreadable) ⊎ (x ≡ no_stream)))
Received-cases (received a) = inl (a, refl)
Received-cases unexpected = inr (inl refl)
Received-cases unreadable = inr (inr (inl refl))
Received-cases no_stream = inr (inr (inr refl))

Authenticated-cases :
    (x : Storage × Authenticated)
    → ((t : Storage) × (a : Bytes) × (b : Bytes) × (x ≡ (t, authenticated a b)))
      ⊎ ((t : Storage) × (err : AuthErr) × (x ≡ (t, denied err)))
Authenticated-cases (t, authenticated a b) = inl (t, a, b, refl)
Authenticated-cases (t, denied err) = inr (t, err, refl)

-- The visitor stands in the room under that username.
abbrev pub Inside : Visit → Server → Bytes → Bytes → Type 0
Inside visit server name username =
    (room : Room) × (get_room server name ≡ some room)
    × (get_client_by_username room username
        ≡ some (record { address = visit.address; username = username }))

module _ (unicode_lower : ℕ → ℕ) where
  joins_as :
      (hashing : Hashing) (visit : Visit) (auth : Credentials) (server : Server) (visited : Visited)
      (a b name username : Bytes)
      → visit.auth_msg ≡ received auth
      → Named unicode_lower auth a b × Matches hashing server.storage a b auth.password
      → name ≡ a
      → username ≡ b
      → Inside visit visited.server a b
      → ((auth : Credentials) × (visit.auth_msg ≡ received auth)
          × Named unicode_lower auth name username
          × Matches hashing server.storage name username auth.password)
        × Inside visit visited.server name username
  joins_as hashing visit auth server visited a b name username m k x y inside =
      rw (x, y) ((auth, m, k.0, k.1), inside)

  admit_joins :
      (hashing : Hashing) (visit : Visit) (replies : List Reply) (server : Server)
      (visited : Visited) (name username : Bytes)
      → admit unicode_lower hashing visit replies server ≡ some visited
      → visited.joined ≡ some (name, username)
      → ((auth : Credentials) × (visit.auth_msg ≡ received auth)
          × Named unicode_lower auth name username
          × Matches hashing server.storage name username auth.password)
        × Inside visit visited.server name username
  unfolding admit
  admit_joins hashing visit replies server visited name username e j =
      elim (Received-cases visit.auth_msg) [
        | inr (inl m) ↦ ground (arith, m)
        | inr (inr (inl m)) ↦ ground (arith, m)
        | inr (inr (inr m)) ↦ ground (arith, m)
        | inl (auth, m) ↦
            elim (Authenticated-cases
              (authenticate unicode_lower hashing visit.faults auth server.storage)) [
                | inr (t, invalid_credentials, r) ↦ ground (arith, m, r)
                | inr (t, auth_failed, r) ↦ ground (arith, m, r)
                | inl (t, a, b, r) ↦
                    let entered : enter visit a b replies (record server { storage = t })
                        ≡ some visited =
                      ground (arith, m, r) in
                    let (x, y, inside) =
                      enter_joins visit a b name username replies (record server { storage = t })
                        visited entered j in
                    joins_as hashing visit auth server visited a b name username m
                      (authenticate_joins unicode_lower hashing visit.faults auth a b server.storage
                        t r)
                      x y inside
              ]
      ]

  -- Whoever comes in through the lobby has sent a version that agrees with the server's in major and
  -- minor, and the name of a room, a username and a password that verifies against the account of that
  -- user in that room. The visitor then stands in that room under that username.
  pub lobby_onboard_joins :
      (server_ver : ProtoVersion) (hashing : Hashing) (visit : Visit) (server : Server)
      (visited : Visited) (name username : Bytes)
      → lobby_onboard unicode_lower server_ver hashing visit server ≡ some visited
      → visited.joined ≡ some (name, username)
      → ((version : Option ProtoVersion) × (visit.version_msg ≡ received version)
          × (fits server_ver version ≡ true))
        × ((auth : Credentials) × (visit.auth_msg ≡ received auth)
            × Named unicode_lower auth name username
            × Matches hashing server.storage name username auth.password)
        × Inside visit visited.server name username
  unfolding lobby_onboard negotiate_client_version
  lobby_onboard_joins server_ver hashing visit server visited name username e j =
      elim (Received-cases visit.version_msg) [
        | inr (inl m) ↦ ground (arith, m)
        | inr (inr (inl m)) ↦ ground (arith, m)
        | inr (inr (inr m)) ↦ ground (arith, m)
        | inl (version, m) ↦
            let spec = negotiate_client_version_lem server_ver visit.version_written version in
            elim (Bool-cases (fits server_ver version)) [
              | inr n ↦ ground (arith, m, n, spec)
              | inl f ↦
                  let (auth, inside) =
                    admit_joins hashing visit (version_accepted ∷ []) server visited name username
                      (ground (arith, m, f, spec)) j in
                  ((version, m, f), auth, inside)
            ]
      ]
