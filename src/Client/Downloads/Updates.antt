-- ===== src/Client/Downloads/Updates.antt =====
-- client/downloadmanager.go: the channel of status updates and their batches by server and by peer.
use friend_net.Prelude.{
  ℕ, ◌≡◌, refl, ap, ◌∙◌, Bool, Option, none, some, List, [], ◌∷◌, ◌++◌, append-nil, append_assoc,
  sym, Bytes, bytes_eq, bytes_eq_iff, if◌then◌else◌, ltb, length, arith, Bool-cases, inl, inr, map,
}
use friend_net.Prelude.Dict.{Dict, get, put, get-put, text_eq}
use friend_net.Client.Downloads.{
  Handle, Item, Status, DownloadManager, DownloadStateRecord, update_download_state,
}
use friend_net.Client.Downloads.Items.{IsWellFormed, count_rows}

-- An update and the handle it is about.
pub record Update : Type 0 where
  pub ds : Handle
  pub status : Status
  pub downloaded : ℕ
  pub file_size : ℕ
  pub speed : ℕ
  pub error_message : Option Bytes

-- The channel holds 100 updates; a send to a full channel is dropped.
unfoldable pub try_send_update : Update → List Update → List Update
try_send_update u channel = if ltb (length channel) 100 then channel ++ (u ∷ []) else channel

-- m[key]
unfoldable pub batch : Dict Bytes (List Update) → Bytes → List Update
batch m key = elim (get m key) [ none ↦ [] | some us ↦ us ]

-- byServer, and byPeer for the updates of one server: `key` is the server or the peer of an update.
unfoldable pub group_by :
    (Update → Bytes) → Dict Bytes (List Update) → List Update → Dict Bytes (List Update)
unfolding batch
group_by key m [] = m
group_by key m (u ∷ us) = group_by key (put m (key u) (batch m (key u) ++ (u ∷ []))) us

unfoldable pub by_server : List Update → Dict Bytes (List Update)
unfolding group_by
by_server us = group_by (λ u. u.ds.server) [] us

unfoldable pub by_peer : List Update → Dict Bytes (List Update)
unfolding group_by
by_peer us = group_by (λ u. u.ds.peer) [] us

-- The rows that a batch writes, one statement for each update.
unfoldable pub write_updates : List Update → List DownloadStateRecord → List DownloadStateRecord
write_updates [] rows = rows
write_updates (u ∷ us) rows = write_updates us (update_download_state u.ds rows)

-- pb.DownloadManagerItem
pub record ManagerItem : Type 0 where
  pub uuid : Bytes
  pub server_uuid : Bytes
  pub peer_username : Bytes
  pub file_path : Bytes
  pub status : Status
  pub downloaded : ℕ
  pub file_size : ℕ
  pub error_message : Option Bytes

abbrev pub snapshot_state : Handle → ManagerItem
snapshot_state h = record {
  uuid = h.uuid;
  server_uuid = h.server;
  peer_username = h.peer;
  file_path = h.file_path;
  status = h.status;
  downloaded = h.file_downloaded_bytes;
  file_size = h.file_total_size;
  error_message = h.error_message;
}

unfoldable pub snapshot_states : List Handle → List ManagerItem
snapshot_states = map snapshot_state

-- The updates with the key, in their order.
pub updates_of : (Update → Bytes) → Bytes → List Update → List Update
updates_of key k [] = []
updates_of key k (u ∷ us) =
    let rest = updates_of key k us in if bytes_eq (key u) k then u ∷ rest else rest

batch-put :
    (m : Dict Bytes (List Update)) (k j : Bytes) (us : List Update)
    → batch (put m k us) j ≡ (if bytes_eq k j then us else batch m j)
unfolding batch
batch-put m k j us = ground (arith, get-put m k j us)

batch-group_by :
    (key : Update → Bytes) (k : Bytes) (us : List Update) (m : Dict Bytes (List Update))
    → batch (group_by key m us) k ≡ batch m k ++ updates_of key k us
unfolding group_by updates_of
batch-group_by key k [] m = sym (append-nil (batch m k))
batch-group_by key k (u ∷ us) m =
    let rest = batch-group_by key k us (put m (key u) (batch m (key u) ++ (u ∷ []))) in
    let grown = batch-put m (key u) k (batch m (key u) ++ (u ∷ [])) in
    elim (Bool-cases (bytes_eq (key u) k)) [
      | inl mine ↦
          let here : batch m (key u) ≡ batch m k = ap (batch m) ((bytes_eq_iff (key u) k).0 mine) in
          ground (
            arith,
            rest,
            grown,
            mine,
            here,
            append_assoc (batch m k) (u ∷ []) (updates_of key k us),
          )
      | inr other ↦ ground (arith, rest, grown, other)
    ]

-- The batch of a server, and in it the batch of a peer, hold exactly the updates of that server and
-- peer, each once and in the order in which they came.
pub batch-by_server-by_peer :
    (us : List Update) (server peer : Bytes)
    → (batch (by_server us) server ≡ updates_of (λ u. u.ds.server) server us)
      × (batch (by_peer (batch (by_server us) server)) peer
          ≡ updates_of (λ u. u.ds.peer) peer (updates_of (λ u. u.ds.server) server us))
unfolding by_server by_peer batch updates_of get
batch-by_server-by_peer us server peer =
    let servers = batch-group_by (λ u. u.ds.server) server us [] in
    (
      servers,
      ap (λ l. batch (by_peer l) peer) servers
          ∙ batch-group_by (λ u. u.ds.peer) peer (updates_of (λ u. u.ds.server) server us) [],
    )

count_rows-update :
    (q : Item → Bool) (h : Handle) (rows : List DownloadStateRecord)
    → count_rows q (update_download_state h rows) ≡ count_rows q rows
unfolding update_download_state
count_rows-update q h [] = refl
count_rows-update q h (r ∷ rows) = ground (arith, count_rows-update q h rows)

count_rows-write_updates :
    (q : Item → Bool) (us : List Update) (rows : List DownloadStateRecord)
    → count_rows q (write_updates us rows) ≡ count_rows q rows
unfolding write_updates
count_rows-write_updates q [] rows = refl
count_rows-write_updates q (u ∷ us) rows =
    count_rows-write_updates q us (update_download_state u.ds rows) ∙ count_rows-update q u.ds rows

-- Writing a batch of updates leaves the table in step with the memory: it adds and removes no row,
-- also where an update is of a handle that was removed meanwhile.
pub write_updates-IsWellFormed :
    (us : List Update) (m : DownloadManager)
    → IsWellFormed m
    → IsWellFormed (record m { storage = write_updates us m.storage })
write_updates-IsWellFormed us m wf = record {
  one_file = wf.one_file;
  one_uuid = wf.one_uuid;
  named = wf.named;
  stored = λ q. count_rows-write_updates q us m.storage ∙ wf.stored q;
}
