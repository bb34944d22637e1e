-- ===== src/Client/Downloads.antt =====
-- client/downloadmanager.go: the list of download handles beside the table download_state of
-- client/storage/storage.go, and the operations under the manager's lock. `fault` is whether the
-- statement that an operation runs fails. Pointers to servers are compared by the server's UUID,
-- since the multi client keeps one server for a UUID. An int64 is its bit pattern below 2 ^ 64.
use mathlib.Core.Option
use friend_net.Prelude.{
  ℕ, suc, ◌+◌, ◌-◌, ◌^◌, ◌≡◌, Bool, true, false, Option, none, some, List, [], ◌∷◌, ◌++◌, ◌&&◌,
  ◌||◌, Bytes, bytes_eq, if◌then◌else◌, leb, map, not,
}
use friend_net.Prelude.Count.{reject, set}
pub mod Items
pub mod Launch
pub mod Queueing
pub mod Removal
pub mod Restart
pub mod Updates
pub mod Transfer
mod Tests

-- pb.DownloadStatus
pub data Status : Type 0 where
  unspecified queued pending canceled done error : Status

pub record Handle : Type 0 where
  pub uuid : Bytes
  pub server : Bytes
  pub peer : Bytes
  pub file_path : Bytes
  pub status : Status
  -- Whether stopFnOrNil is set.
  pub stoppable : Bool
  pub file_total_size : ℕ
  pub file_downloaded_bytes : ℕ
  pub error_message : Option Bytes

-- A row of download_state.
pub record DownloadStateRecord : Type 0 where
  pub uuid : Bytes
  pub server : Bytes
  pub peer_username : Bytes
  pub status : Status
  pub file_path : Bytes
  pub file_total_size : ℕ
  pub file_downloaded_bytes : ℕ
  pub error : Option Bytes

-- What identifies a download: its UUID, server, peer and path.
abbrev pub Item : Type 0
Item = Bytes × Bytes × Bytes × Bytes

abbrev pub item_of : Handle → Item
item_of h = (h.uuid, h.server, h.peer, h.file_path)

abbrev pub row_item : DownloadStateRecord → Item
row_item r = (r.uuid, r.server, r.peer_username, r.file_path)

abbrev pub has_uuid : Bytes → Item → Bool
has_uuid uuid t = bytes_eq t.0 uuid

abbrev pub same_file : Bytes → Bytes → Bytes → Item → Bool
same_file server peer path t = bytes_eq t.1 server && bytes_eq t.2 peer && bytes_eq t.3 path

-- -1 as an int64
abbrev pub no_size : ℕ
no_size = 2 ^ 64 - 1

-- The row that the statement writes, the columns it leaves out at their defaults.
unfoldable pub fresh_record : Bytes → Bytes → Bytes → Bytes → DownloadStateRecord
fresh_record uuid server peer path = record {
  uuid = uuid;
  server = server;
  peer_username = peer;
  status = queued;
  file_path = path;
  file_total_size = no_size;
  file_downloaded_bytes = 0;
  error = none;
}

-- `insert or replace` first deletes the rows that the primary key or the unique index
-- (server, peer_username, file_path) puts in conflict with the new one.
unfoldable pub create_download_state :
    Bytes → Bytes → Bytes → Bytes → List DownloadStateRecord → List DownloadStateRecord
unfolding fresh_record
create_download_state uuid server peer path rows =
    reject (λ r. has_uuid uuid (row_item r) || same_file server peer path (row_item r)) rows
    ++ (fresh_record uuid server peer path ∷ [])

unfoldable pub delete_download_state : Bytes → List DownloadStateRecord → List DownloadStateRecord
delete_download_state uuid rows = reject (λ r. has_uuid uuid (row_item r)) rows

-- The row of the handle takes the handle's progress.
unfoldable pub update_download_state : Handle → List DownloadStateRecord → List DownloadStateRecord
update_download_state h [] = []
update_download_state h (r ∷ rows) =
    let rest = update_download_state h rows in
    if has_uuid h.uuid (row_item r)
    then (record r {
      status = h.status;
      file_total_size = h.file_total_size;
      file_downloaded_bytes = h.file_downloaded_bytes;
      error = h.error_message;
    })
      ∷ rest
    else r ∷ rest

unfoldable pub fresh_handle : Bytes → Bytes → Bytes → Bytes → Handle
fresh_handle uuid server peer path = record {
  uuid = uuid;
  server = server;
  peer = peer;
  file_path = path;
  status = queued;
  stoppable = false;
  file_total_size = no_size;
  file_downloaded_bytes = 0;
  error_message = none;
}

unfoldable pub load_handle : DownloadStateRecord → Handle
load_handle r = record {
  uuid = r.uuid;
  server = r.server;
  peer = r.peer_username;
  file_path = r.file_path;
  status = r.status;
  stoppable = false;
  file_total_size = r.file_total_size;
  file_downloaded_bytes = r.file_downloaded_bytes;
  error_message = r.error;
}

-- NewDownloadManager: rows of servers that GetByUuid of the multi client does not know are passed over.
unfoldable pub load_handles : (Bytes → Bool) → List DownloadStateRecord → List Handle
unfolding load_handle
load_handles known [] = []
load_handles known (r ∷ rows) =
    let rest = load_handles known rows in if known r.server then load_handle r ∷ rest else rest

pub record DownloadManager : Type 0 where
  pub is_closed : Bool
  pub handles : List Handle
  pub storage : List DownloadStateRecord

unfoldable pub get_by_uuid : List Handle → Bytes → Option Handle
get_by_uuid [] uuid = none
get_by_uuid (h ∷ hs) uuid = if bytes_eq h.uuid uuid then some h else get_by_uuid hs uuid

-- CANCELED and ERROR give way to a new handle.
abbrev pub is_replaceable : Status → Bool
is_replaceable canceled = true
is_replaceable error = true
is_replaceable unspecified = false
is_replaceable queued = false
is_replaceable pending = false
is_replaceable done = false

-- The search for a duplicate: `exists` where it returns; otherwise replaceSlot and uid. The `break`
-- of the source leaves the switch only, so the search goes on to the end.
pub data Duplicate : Type 0 where
  exists : Duplicate
  slot : Option (ℕ × Bytes) → Duplicate

unfoldable pub find_duplicate :
    Bytes → Bytes → Bytes → List Handle → ℕ → Option (ℕ × Bytes) → Duplicate
find_duplicate server peer path [] i found = slot found
find_duplicate server peer path (h ∷ hs) i found =
    let same = same_file server peer path (item_of h) in
    let rest =
      find_duplicate server peer path hs (suc i) (if same then some (i, h.uuid) else found) in
    if same && not (is_replaceable h.status) then exists else rest

-- uid, once the search has ended: a new one, `fresh`, unless a slot with a UUID was found.
abbrev pub pick_uuid : Bytes → Option (ℕ × Bytes) → Bytes
pick_uuid fresh none = fresh
pick_uuid fresh (some (i, uuid)) = if bytes_eq uuid [] then fresh else uuid

abbrev pub store_handle : Option (ℕ × Bytes) → Handle → List Handle → List Handle
store_handle none h hs = hs ++ (h ∷ [])
store_handle (some (i, uuid)) h hs = set hs i h

pub data StoreOutcome : Type 0 where
  succeeded : StoreOutcome
  statement_failed : StoreOutcome

unfoldable pub queue_in :
    Bool
    → Bytes
    → Bytes
    → Bytes
    → Bytes
    → DownloadManager
    → Duplicate
    → DownloadManager × StoreOutcome
unfolding create_download_state fresh_handle
queue_in fault fresh server peer path m exists = (m, succeeded)
queue_in fault fresh server peer path m (slot found) =
    let uid = pick_uuid fresh found in
    if fault then (m, statement_failed) else (
      record m {
        handles = store_handle found (fresh_handle uid server peer path) m.handles;
        storage = create_download_state uid server peer path m.storage;
      },
      succeeded,
    )

-- `fresh` is what uuid.NewV7 returns.
unfoldable pub queue :
    Bool → Bytes → Bytes → Bytes → Bytes → DownloadManager → DownloadManager × StoreOutcome
unfolding find_duplicate queue_in
queue fault fresh server peer path m =
    queue_in fault fresh server peer path m (find_duplicate server peer path m.handles 0 none)

-- The list without the first handle of the UUID.
unfoldable pub without_handle : Bytes → List Handle → List Handle
without_handle uuid [] = []
without_handle uuid (h ∷ hs) =
    let rest = without_handle uuid hs in if bytes_eq h.uuid uuid then hs else h ∷ rest

-- What the stop function does to the handle: nothing where none is set.
unfoldable pub stop_handle : Status → Handle → Handle
stop_handle status h = if h.stoppable then record h { status = status; stoppable = false } else h

-- The manager, the handle taken out, stopped, for which DM_ITEM_REMOVED is published, and the error.
unfoldable pub remove :
    Bool → Bytes → DownloadManager → DownloadManager × Option Handle × StoreOutcome
unfolding without_handle stop_handle get_by_uuid delete_download_state
remove fault uuid m = if fault then (m, none, statement_failed) else (
  record m {
    handles = without_handle uuid m.handles;
    storage = delete_download_state uuid m.storage;
  },
  Option.map (stop_handle canceled) (get_by_uuid m.handles uuid),
  succeeded,
)

-- The change of one handle, the first of the UUID, as seen through the list.
unfoldable pub change_handle : Bytes → (Handle → Handle) → List Handle → List Handle
change_handle uuid f [] = []
change_handle uuid f (h ∷ hs) =
    let rest = change_handle uuid f hs in if bytes_eq h.uuid uuid then f h ∷ hs else h ∷ rest

unfoldable pub stop_with_status : Bytes → Status → DownloadManager → DownloadManager × Bool
unfolding change_handle stop_handle get_by_uuid
stop_with_status uuid status m = elim (get_by_uuid m.handles uuid) [
  | none ↦ (m, false)
  | some h ↦ (record m { handles = change_handle uuid (stop_handle status) m.handles }, true)
]

unfoldable pub close_manager : DownloadManager → DownloadManager
close_manager m = record m { is_closed = true }
