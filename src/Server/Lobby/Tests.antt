-- ===== src/Server/Lobby/Tests.antt =====
-- server/lobby/lobby.go: one client that comes in, and three that do not.
use friend_net.Prelude.{
  ℕ, ◌≡◌, refl, Bool, true, false, Option, some, [], ◌∷◌, Bytes, codes, bytes_eq, bytes_eq_iff,
  arith,
}
use friend_net.Prelude.Dict.{get, put, delete, text_eq, pair_eq}
use friend_net.Common.Names.{normalize_username, normalize_room_name}
use friend_net.Protocol.{ProtoVersion, compare_proto_versions}
use friend_net.Server.Storage.{get_account_by_room_and_username}
use friend_net.Server.Accounts.{Hashing}
use friend_net.Server.Accounts.Passwords.{no_faults}
use friend_net.Server.Room.{Room, new_room, auth_accepted, client_online, onboard, handle_connect}
use friend_net.Server.Manager.{Server, get_room}
use friend_net.Server.Lobby.{
  received, version_accepted, auth_invalid_credentials, internal_error, judge_version,
  negotiate_client_version, Credentials, check_password, renew, authenticate, Visit, Visited,
  turned_away, enter, admit, lobby_onboard,
}
use friend_net.Server.Lobby.Admission.{fits, Named, Matches, Inside, lobby_onboard_joins}

abbrev plain_verify : Bytes → Bytes → Option (Bool × Bool)
plain_verify password hash = some (bytes_eq password hash, false)

plain_verify_of_hash :
    (password hash : Bytes)
    → some password ≡ some hash
    → plain_verify password hash ≡ some (true, false)
plain_verify_of_hash password hash e = ground (arith, bytes_eq_iff password hash)

abbrev plain : Hashing
plain = record {
  hash_password = λ password. some password;
  verify_password = plain_verify;
  verify_of_hash = plain_verify_of_hash;
}

abbrev ascii : ℕ → ℕ
ascii c = c

abbrev server_ver : ProtoVersion
server_ver = record { major = 1; minor = 2; patch = 3 }

abbrev server : Server
server = record {
  manager = record { is_closed = false; rooms = (codes "lounge", new_room) ∷ [] };
  storage = record {
    rooms = codes "lounge" ∷ [];
    accounts = ((codes "lounge", codes "alice"), codes "fish") ∷ [];
  };
}

abbrev alice : Credentials
alice = record { room = codes "Lounge"; username = codes "ALICE"; password = codes "fish" }

abbrev visit : Visit
visit = record {
  address = 7;
  version_msg = received (some (record { major = 1; minor = 2; patch = 9 }));
  version_written = true;
  auth_msg = received alice;
  faults = no_faults;
  accepted_written = true;
}

abbrev lounge : Room
lounge = record {
  is_closed = false;
  clients = some ((codes "alice", record { address = 7; username = codes "alice" }) ∷ []);
  log = auth_accepted 7 ∷ client_online (codes "alice") ∷ [];
}

abbrev visited : Visited
visited = record {
  server = record {
    manager = record { is_closed = false; rooms = (codes "lounge", lounge) ∷ [] };
    storage = server.storage;
  };
  replies = version_accepted ∷ [];
  joined = some (codes "lounge", codes "alice");
}

comes_in : lobby_onboard ascii server_ver plain visit server ≡ some visited
unfolding lobby_onboard negotiate_client_version judge_version compare_proto_versions admit
    authenticate check_password renew enter normalize_username normalize_room_name
    get_account_by_room_and_username get_room onboard handle_connect get put delete
comes_in = refl

too_old :
    negotiate_client_version server_ver true
      (received (some (record { major = 1; minor = 1; patch = 0 })))
    ≡ (internal_error ∷ [], false)
unfolding negotiate_client_version judge_version compare_proto_versions
too_old = refl

wrong_password :
    admit ascii plain
      (record visit { auth_msg = received (record alice { password = codes "fowl" }) })
      []
      server
    ≡ some (turned_away server (auth_invalid_credentials ∷ []))
unfolding admit authenticate check_password normalize_username normalize_room_name
    get_account_by_room_and_username get
wrong_password = refl

lobby_onboard_joins_example :
    ((version : Option ProtoVersion) × (visit.version_msg ≡ received version)
      × (fits server_ver version ≡ true))
    × ((auth : Credentials) × (visit.auth_msg ≡ received auth)
        × Named ascii auth (codes "lounge") (codes "alice")
        × Matches plain server.storage (codes "lounge") (codes "alice") auth.password)
    × Inside visit visited.server (codes "lounge") (codes "alice")
lobby_onboard_joins_example =
    lobby_onboard_joins ascii server_ver plain visit server visited (codes "lounge") (codes "alice")
      comes_in refl
