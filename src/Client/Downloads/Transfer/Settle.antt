-- ===== src/Client/Downloads/Transfer/Settle.antt =====
-- client/downloadmanager.go: how a run of startDownload leaves the handle and the complete file.
use friend_net.Prelude.{
  ◌≡◌, refl, ◌⊎◌, inl, inr, Bool, Option, none, some, Bytes, arith, Bool-cases, ◌==◌, ==_iff,
}
use friend_net.Client.Downloads.{Handle, Status}
use friend_net.Client.Downloads.Transfer.{
  Failure, Session, Disk, RunEnding, settle, start_download, after_transfer, transfer, is_taken,
}

-- How the complete file and the handle go together after a run.
abbrev Agrees : Disk → Handle → Disk → Type 0
Agrees d h' d' =
    (d'.complete ≡ d.complete)
    ⊎ ((h'.status ≡ Status.done) × (h'.file_downloaded_bytes ≡ h'.file_total_size))

settle-Agrees :
    (can_rename : Bool) (result : Option Failure) (h : Handle) (d : Disk)
    → Agrees d (settle can_rename result h d).0 (settle can_rename result h d).1
unfolding settle
settle-Agrees can_rename (some e) h d = inl refl
settle-Agrees can_rename none h d =
    elim (Bool-cases (h.file_downloaded_bytes == h.file_total_size)) [
      | inl whole ↦ elim (Bool-cases can_rename) [
        | inl moved ↦ rw (whole, moved) (inr (refl, (==_iff _ _).0 whole))
        | inr stays ↦ rw (whole, stays) (inl refl)
      ]
      | inr short ↦ rw short (inl refl)
    ]

after_transfer-Agrees :
    (can_rename : Bool) (d : Disk) (t : Handle × Bytes × Option (Option Failure)) (h' : Handle)
    (d' : Disk) (ending : RunEnding)
    → after_transfer can_rename d t ≡ some (h', d', ending)
    → Agrees d h' d'
unfolding after_transfer
after_transfer-Agrees can_rename d (h, file, none) h' d' ending e = cc
after_transfer-Agrees can_rename d (h, file, some result) h' d' ending e =
    let kept = settle-Agrees can_rename result h (record d { incomplete = file }) in
    let same : settle can_rename result h (record d { incomplete = file }) ≡ (h', d', ending) =
      cc e in
    rw same at kept

-- However the connection, the peer and the file system behave, a run that ends has put a file at the
-- complete path only if the handle is then DONE and counts as many bytes as the size that is known.
pub start_download-Agrees :
    (can_mkdir can_rename : Bool) (session : Session) (h h' : Handle) (d d' : Disk)
    (ending : RunEnding)
    → start_download can_mkdir can_rename session h d ≡ some (h', d', ending)
    → (d'.complete ≡ d.complete)
      ⊎ ((h'.status ≡ Status.done) × (h'.file_downloaded_bytes ≡ h'.file_total_size))
unfolding start_download
start_download-Agrees can_mkdir can_rename session h h' d d' ending e =
    elim (Bool-cases (is_taken h.status)) [
      | inl taken ↦ inl (ground (arith, e, taken))
      | inr free ↦ elim (Bool-cases can_mkdir) [
        | inr bad ↦ inl (ground (arith, e, free, bad))
        | inl good ↦
            after_transfer-Agrees can_rename d
              (transfer session (record h { status = Status.pending }) d.incomplete) h' d' ending
              (ground (arith, e, free, good))
      ]
    ]
