-- ===== src/Server/Storage/Integrity.antt =====
-- What the constraints of the tables of server/storage keep, and what each statement changes.
use friend_net.Prelude.{
  ◌≡◌, ap, not, Bool, true, false, Option, none, some, List, [], ◌∷◌, ◌&&◌, Bytes, bytes_eq,
  bytes_eq_iff, if◌then◌else◌, Option-cases, inl, inr, arith,
}
use friend_net.Prelude.Dict.{
  Dict, get, get-put, get-delete, pair_beq, pair_beq_iff, text_eq, pair_eq,
}
use friend_net.Server.Storage.{
  Storage, has_room, without_room, without_accounts, create_room, Statement, creates_room,
  deletes_room, creates_account, updates_account, deletes_account, perform, perform_all,
  empty_storage, delete_room_by_name, create_account, get_account_by_room_and_username,
  get_room_by_name, update_account_password_hash, delete_account_by_room_and_username,
}

-- Every account belongs to a room that is there.
abbrev pub IsSound : Storage → Type 0
IsSound s =
    (room username hash : Bytes)
    → get s.accounts (room, username) ≡ some hash
    → has_room s.rooms room ≡ true

pub has_room-without_room :
    (rooms : List Bytes) (room other : Bytes)
    → has_room (without_room rooms room) other
      ≡ (if bytes_eq room other then false else has_room rooms other)
unfolding has_room without_room
has_room-without_room [] room other = ground arith
has_room-without_room (name ∷ rooms) room other = ground (
  arith,
  has_room-without_room rooms room other,
  bytes_eq_iff name room,
  bytes_eq_iff name other,
  bytes_eq_iff room other,
)

get-without_accounts :
    (accounts : Dict (Bytes × Bytes) Bytes) (room other username : Bytes)
    → get (without_accounts accounts room) (other, username)
      ≡ (if bytes_eq room other then none else get accounts (other, username))
unfolding without_accounts get
get-without_accounts [] room other username = ground arith
get-without_accounts (((a, b), hash) ∷ accounts) room other username = ground (
  arith,
  get-without_accounts accounts room other username,
  bytes_eq_iff a room,
  bytes_eq_iff a other,
  bytes_eq_iff room other,
)

perform-IsSound :
    (statement : Statement) (s : Storage) → IsSound s → IsSound (perform statement s).0
unfolding perform create_room delete_room_by_name create_account update_account_password_hash
    delete_account_by_room_and_username has_room
perform-IsSound (creates_room fault room) s h r u x e = ground (arith, h r u x)
perform-IsSound (deletes_room fault room) s h r u x e =
    ground (
      arith,
      h r u x,
      get-without_accounts s.accounts room r u,
      has_room-without_room s.rooms room r,
    )
perform-IsSound (creates_account fault room username hash) s h r u x e =
    ground (arith, h r u x, get-put s.accounts (room, username) (r, u) hash, bytes_eq_iff room r)
perform-IsSound (updates_account fault room username hash) s h r u x e =
    elim (Option-cases (get s.accounts (room, username))) [
      | inl n ↦ ground (arith, h r u x, n)
      | inr (old, g) ↦ ground (
        arith,
        h r u x,
        h room username old g,
        g,
        get-put s.accounts (room, username) (r, u) hash,
        bytes_eq_iff room r,
      )
    ]
perform-IsSound (deletes_account fault room username) s h r u x e =
    ground (arith, h r u x, get-delete s.accounts (room, username) (r, u))

run-IsSound :
    (statements : List Statement) (s : Storage) → IsSound s → IsSound (perform_all statements s)
unfolding perform_all
run-IsSound [] s h = h
run-IsSound (statement ∷ statements) s h =
    run-IsSound statements (perform statement s).0 (perform-IsSound statement s h)

-- Whatever statements have run on an empty database, failed ones too, every account belongs to a
-- room that is there.
pub perform_all-IsSound :
    (statements : List Statement) (room username hash : Bytes)
    → get_account_by_room_and_username false room username (perform_all statements empty_storage)
      ≡ some (some hash)
    → get_room_by_name false room (perform_all statements empty_storage) ≡ some true
unfolding get_account_by_room_and_username get_room_by_name get
perform_all-IsSound statements room username hash e = ap some (
    run-IsSound statements empty_storage (λ r u x h. ground arith) room username hash
      (ground arith))

-- Where a statement on the account of `key` meets it, and the database takes it.
abbrev pub account_after : Statement → Bytes × Bytes → Bool → Option Bytes → Option Bytes
account_after (creates_room fault room) key has old = old
account_after (deletes_room fault room) key has old =
    if not fault && bytes_eq room key.0 then none else old
account_after (creates_account fault room username hash) key has none =
    if not fault && (pair_beq (room, username) key && has) then some hash else none
account_after (creates_account fault room username hash) key has (some old) = some old
account_after (updates_account fault room username hash) key has none = none
account_after (updates_account fault room username hash) key has (some old) =
    if not fault && pair_beq (room, username) key then some hash else some old
account_after (deletes_account fault room username) key has old =
    if not fault && pair_beq (room, username) key then none else old

-- Read back after any statement, an account is what that statement makes of it: deleting a room
-- deletes its accounts and no other, creating an account never overwrites one and needs the room,
-- an update never makes one, and a failed statement changes none.
pub get_account-perform :
    (statement : Statement) (s : Storage) (room username : Bytes)
    → get_account_by_room_and_username false room username (perform statement s).0
      ≡ some (
          account_after statement
            (room, username)
            (has_room s.rooms room)
            (get s.accounts (room, username)))
unfolding perform create_room delete_room_by_name create_account update_account_password_hash
    delete_account_by_room_and_username get_account_by_room_and_username
get_account-perform (creates_room fault room) s r u = ground arith
get_account-perform (deletes_room fault room) s r u =
    ground (arith, get-without_accounts s.accounts room r u)
get_account-perform (creates_account fault room username hash) s r u =
    ground
      (arith, get-put s.accounts (room, username) (r, u) hash, pair_beq_iff (room, username) (r, u))
get_account-perform (updates_account fault room username hash) s r u =
    ground
      (arith, get-put s.accounts (room, username) (r, u) hash, pair_beq_iff (room, username) (r, u))
get_account-perform (deletes_account fault room username) s r u =
    ground (arith, get-delete s.accounts (room, username) (r, u))
