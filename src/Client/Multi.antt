-- ===== src/Client/Multi.antt =====
-- client/multi.go over the table of servers of client/storage/storage.go: the servers that a
-- MultiClient manages, by UUID. Each call is one step. A record has the columns that a call may change;
-- creation times are left out. `fault` says which statement of a call fails.
use mathlib.Core.Option
use friend_net.Prelude.{
  ◌≡◌, Bool, true, false, not, ◌||◌, ◌&&◌, Option, none, some, List, [], ◌∷◌, Bytes, if◌then◌else◌,
}
use friend_net.Prelude.Dict.{Dict, get, put, delete, text_eq}
pub mod Sync
mod Tests

pub record ServerRecord : Type 0 where
  pub name : Bytes
  pub address : Bytes
  pub room : Bytes
  pub username : Bytes
  pub password : Bytes

-- A Server is its record, as it was read or last changed: the name of the Server and the address and
-- credentials of its ConnNanny.
pub record MultiClient : Type 0 where
  pub is_closed : Bool
  pub servers : Dict Bytes ServerRecord
  -- The UUIDs whose ConnNanny was closed, the newest first.
  pub closed : List Bytes
  pub storage : Dict Bytes ServerRecord

pub data MultiErr : Type 0 where
  err_multi_client_closed : MultiErr
  err_storage : MultiErr
  err_not_found : MultiErr
  err_instance : MultiErr

unfoldable pub load_servers : Dict Bytes ServerRecord → Dict Bytes ServerRecord
load_servers [] = []
load_servers ((uuid, rec) ∷ rows) = put (load_servers rows) uuid rec

-- NewMultiClient, where neither the query nor an instance fails.
unfoldable pub new_multi_client : Dict Bytes ServerRecord → MultiClient
unfolding load_servers
new_multi_client rows = record {
  is_closed = false;
  servers = load_servers rows;
  closed = [];
  storage = rows;
}

-- UpdateServerFields: `none` is nil.
pub record UpdateServerFields : Type 0 where
  pub name : Option Bytes
  pub address : Option Bytes
  pub room : Option Bytes
  pub username : Option Bytes
  pub password : Option Bytes

abbrev pub or_else : Option Bytes → Bytes → Bytes
or_else none old = old
or_else (some new) old = new

abbrev is_nil : Option Bytes → Bool
is_nil none = true
is_nil (some b) = false

-- len(fieldStrs) == 0
unfoldable pub is_empty : UpdateServerFields → Bool
is_empty f =
    is_nil f.name
    && (is_nil f.address && (is_nil f.room && (is_nil f.username && is_nil f.password)))

unfoldable pub set_fields : UpdateServerFields → ServerRecord → ServerRecord
set_fields f r = record {
  name = or_else f.name r.name;
  address = or_else f.address r.address;
  room = or_else f.room r.room;
  username = or_else f.username r.username;
  password = or_else f.password r.password;
}

-- A change of the value of a key, if there is one.
unfoldable pub change :
    (ServerRecord → ServerRecord) → Bytes → Dict Bytes ServerRecord → Dict Bytes ServerRecord
change f uuid m = elim (get m uuid) [ none ↦ m | some r ↦ put m uuid (f r) ]

-- Storage.UpdateServer
unfoldable pub update_server :
    Bool
    → Bytes
    → UpdateServerFields
    → Dict Bytes ServerRecord
    → Dict Bytes ServerRecord × Option MultiErr
unfolding is_empty change set_fields
update_server fault uuid f rows =
    if is_empty f
    then (rows, none)
    else if fault
    then (rows, some err_storage)
    else (change (set_fields f) uuid rows, none)

-- Storage.CreateServer with the UUID that was generated, which the primary key refuses if it is taken.
unfoldable pub create_server :
    Bool
    → Bytes
    → ServerRecord
    → Dict Bytes ServerRecord
    → Dict Bytes ServerRecord × Option MultiErr
create_server fault uuid r rows = if fault then (rows, some err_storage) else elim (get rows uuid) [
  | none ↦ (put rows uuid r, none)
  | some old ↦ (rows, some err_storage)
]

pub record CreateFaults : Type 0 where
  pub insert : Bool
  pub select : Bool
  pub instance : Bool
  pub cleanup : Bool

-- The deferred deletion of a record that came to nothing; its error is not looked at.
abbrev pub undo : Bool → Bytes → MultiClient → MultiErr → MultiClient × Option MultiErr
undo fault uuid c e =
    (record c { storage = if fault then c.storage else delete c.storage uuid }, some e)

abbrev pub create_instance :
    CreateFaults → Bytes → MultiClient → Option ServerRecord → MultiClient × Option MultiErr
create_instance faults uuid c none = undo faults.cleanup uuid c err_not_found
create_instance faults uuid c (some r) =
    if faults.instance
    then undo faults.cleanup uuid c err_instance
    else (record c { servers = put c.servers uuid r }, none)

abbrev pub multi_created :
    CreateFaults
    → Bytes
    → MultiClient
    → Dict Bytes ServerRecord × Option MultiErr
    → MultiClient × Option MultiErr
multi_created faults uuid c (rows, some e) = (record c { storage = rows }, some e)
multi_created faults uuid c (rows, none) =
    if faults.select
    then undo faults.cleanup uuid (record c { storage = rows }) err_storage
    else create_instance faults uuid (record c { storage = rows }) (get rows uuid)

-- Create
unfoldable pub multi_create :
    CreateFaults → Bytes → ServerRecord → MultiClient → MultiClient × Option MultiErr
unfolding create_server
multi_create faults uuid r c =
    if c.is_closed
    then (c, some err_multi_client_closed)
    else multi_created faults uuid c (create_server faults.insert uuid r c.storage)

abbrev updated :
    Bytes
    → UpdateServerFields
    → MultiClient
    → Dict Bytes ServerRecord × Option MultiErr
    → MultiClient × Option MultiErr
updated uuid f c (rows, some e) = (record c { storage = rows }, some e)
updated uuid f c (rows, none) =
    (record c { storage = rows; servers = change (set_fields f) uuid c.servers }, none)

-- Update
unfoldable pub multi_update :
    Bool → Bytes → UpdateServerFields → MultiClient → MultiClient × Option MultiErr
unfolding update_server change set_fields
multi_update fault uuid f c =
    if c.is_closed
    then (c, some err_multi_client_closed)
    else updated uuid f c (update_server fault uuid f c.storage)

-- The log of closed connections, with that of the UUID if it was managed.
abbrev pub log_closed : Option ServerRecord → Bytes → List Bytes → List Bytes
log_closed none uuid log = log
log_closed (some r) uuid log = uuid ∷ log

-- DeleteByUuid
unfoldable pub delete_by_uuid : Bool → Bytes → MultiClient → MultiClient × Option MultiErr
delete_by_uuid fault uuid c =
    if c.is_closed
    then (c, some err_multi_client_closed)
    else if fault
    then (record c { servers = delete c.servers uuid }, some err_storage)
    else (
      record c {
        servers = delete c.servers uuid;
        storage = delete c.storage uuid;
        closed = log_closed (get c.servers uuid) uuid c.closed;
      },
      none,
    )

abbrev pub close_servers : Dict Bytes ServerRecord → List Bytes → List Bytes
close_servers [] log = log
close_servers ((uuid, r) ∷ servers) log = uuid ∷ close_servers servers log

-- Close
unfoldable pub multi_close : MultiClient → MultiClient
multi_close c =
    if c.is_closed
    then c
    else record c { is_closed = true; closed = close_servers c.servers c.closed }

-- GetByUuid
unfoldable pub multi_get_by_uuid : Bytes → MultiClient → Option ServerRecord
multi_get_by_uuid uuid c = if c.is_closed then none else get c.servers uuid

-- GetAll
unfoldable pub multi_get_all : MultiClient → Dict Bytes ServerRecord
multi_get_all c = if c.is_closed then [] else c.servers

pub data MultiCall : Type 0 where
  call_create : CreateFaults → Bytes → ServerRecord → MultiCall
  call_update : Bool → Bytes → UpdateServerFields → MultiCall
  call_delete : Bool → Bytes → MultiCall
  call_close : MultiCall

unfoldable pub obey_call : MultiCall → MultiClient → MultiClient
unfolding multi_create multi_update delete_by_uuid multi_close
obey_call (call_create faults uuid r) c = (multi_create faults uuid r c).0
obey_call (call_update fault uuid f) c = (multi_update fault uuid f c).0
obey_call (call_delete fault uuid) c = (delete_by_uuid fault uuid c).0
obey_call call_close c = multi_close c

unfoldable pub obey_calls : List MultiCall → MultiClient → MultiClient
unfolding obey_call
obey_calls [] c = c
obey_calls (call ∷ calls) c = obey_calls calls (obey_call call c)
