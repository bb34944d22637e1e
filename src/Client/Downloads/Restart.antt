-- ===== src/Client/Downloads/Restart.antt =====
-- client/downloadmanager.go: downloads that a client finds in the table when it starts.
use friend_net.Prelude.{
  ℕ, suc, ◌-◌, ◌≡◌, refl, ap, ◌∙◌, sym, Bool, false, Option, some, List, [], ◌∷◌, ◌++◌, Bytes,
  arith, take, bytes_eq_iff,
}
use friend_net.Client.Downloads.{
  Handle, Status, DownloadStateRecord, load_handle, stop_handle, find_duplicate, exists,
}
use friend_net.Client.Downloads.Launch.{scan, queued_in, scan-take, is_queued}
use friend_net.Client.Downloads.Transfer.{Session, Disk, start_download, skipped}

queued_in_skip :
    (h : Handle)
    → is_queued h.status ≡ false
    → (pre post : List Handle) → queued_in (pre ++ (h ∷ post)) ≡ queued_in (pre ++ post)
unfolding queued_in
queued_in_skip h other [] post = ground (arith, other)
queued_in_skip h other (g ∷ pre) post = ground (arith, queued_in_skip h other pre post)

find_duplicate_pending :
    (h : Handle)
    → h.status ≡ Status.pending
    → (pre post : List Handle) (i : ℕ) (found : Option (ℕ × Bytes))
    → find_duplicate h.server h.peer h.file_path (pre ++ (h ∷ post)) i found ≡ exists
unfolding find_duplicate
find_duplicate_pending h here [] post i found = ground (
  arith,
  here,
  bytes_eq_iff h.server h.server,
  bytes_eq_iff h.peer h.peer,
  bytes_eq_iff h.file_path h.file_path,
)
find_duplicate_pending h here (g ∷ pre) post i found = ground (
  arith,
  find_duplicate_pending h here pre post (suc i) found,
  find_duplicate_pending h here pre post (suc i) (some (i, g.uuid)),
)

-- A download that the table holds as PENDING, as after a crash, is resumed by nobody: wherever its
-- handle stands in the list, no tick starts a worker on it, a worker started by hand does nothing, the
-- stop function changes nothing, and Queue for its file finds that it exists.
pub load_handle_stuck :
    (r : DownloadStateRecord)
    → r.status ≡ Status.pending
    → (pre post : List Handle) (limit launched i : ℕ) (found : Option (ℕ × Bytes)) (status : Status)
      (can_mkdir can_rename : Bool) (session : Session) (d : Disk)
    → (scan limit launched (pre ++ (load_handle r ∷ post)) ≡ scan limit launched (pre ++ post))
      × (start_download can_mkdir can_rename session (load_handle r) d
          ≡ some (load_handle r, d, skipped))
      × (stop_handle status (load_handle r) ≡ load_handle r)
      × (find_duplicate r.server r.peer_username r.file_path (pre ++ (load_handle r ∷ post)) i found
          ≡ exists)
unfolding start_download load_handle stop_handle
load_handle_stuck r here pre post limit launched i found status can_mkdir can_rename session d = (
  scan-take limit launched _
      ∙ (ap (take (limit - launched))
            (queued_in_skip (load_handle r) (ground (arith, here)) pre post)
          ∙ sym (scan-take limit launched _)),
  ground (arith, here),
  refl,
  find_duplicate_pending (load_handle r) here pre post i found,
)
