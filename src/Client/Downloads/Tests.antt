-- ===== src/Client/Downloads/Tests.antt =====
-- Downloads on concrete lists, tables and files.
use friend_net.Prelude.{
  ℕ, ◌≡◌, refl, inl, Bool, true, false, none, some, [], ◌∷◌, Bytes, codes, arith, drop, ◌&&◌,
  if◌then◌else◌, bytes_eq,
}
use friend_net.Client.Downloads.{
  Handle, Status, DownloadManager, DownloadStateRecord, fresh_handle, fresh_record, queue,
  stop_with_status, load_handle, queued, succeeded, exists, stop_handle, find_duplicate,
}
use friend_net.Client.Downloads.Items.{IsWellFormed}
use friend_net.Client.Downloads.Queueing.{queue-IsWellFormed}
use friend_net.Client.Downloads.Launch.{
  scan, downloader, concurrency, is_queued, waiting, waiting-downloader, downloader-starves,
}
use friend_net.Client.Downloads.Transfer.{
  no_stream, content, Disk, read, broken, start_download, conn_closed, settled, peer_unreachable,
  is_requeued, skipped,
}
use friend_net.Client.Downloads.Transfer.Resume.{
  start_download_resumes, start_download_hole, serve, body, completed, interrupted,
}
use friend_net.Client.Downloads.Transfer.Writing.{zeros}
use friend_net.Client.Downloads.Restart.{load_handle_stuck}

abbrev srv : Bytes
srv = codes "s"

abbrev bob : Bytes
bob = codes "bob"

abbrev eve : Bytes
eve = codes "eve"

abbrev song : Bytes
song = codes "/song"

-- A manager with one handle, of a download that failed.
abbrev failed_one : DownloadManager
failed_one = record {
  is_closed = false;
  handles =
      record {
        uuid = codes "u1";
        server = srv;
        peer = bob;
        file_path = song;
        status = Status.error;
        stoppable = false;
        file_total_size = 9;
        file_downloaded_bytes = 4;
        error_message = none;
      }
      ∷ [];
  storage =
      record {
        uuid = codes "u1";
        server = srv;
        peer_username = bob;
        status = Status.error;
        file_path = song;
        file_total_size = 9;
        file_downloaded_bytes = 4;
        error = none;
      }
      ∷ [];
}

failed_one-IsWellFormed : IsWellFormed failed_one
failed_one-IsWellFormed = record {
  one_file = λ s p f. ground arith;
  one_uuid = λ u. ground arith;
  named = refl;
  stored = λ q. refl;
}

-- The failed handle gives way to a new one with its UUID.
queue_replaces : queue false (codes "u2") srv bob song failed_one ≡ (
  record failed_one {
    handles = fresh_handle (codes "u1") srv bob song ∷ [];
    storage = fresh_record (codes "u1") srv bob song ∷ [];
  },
  succeeded,
)
unfolding queue
queue_replaces = refl

queue-IsWellFormed_example : IsWellFormed (queue false (codes "u2") srv bob song failed_one).0
queue-IsWellFormed_example =
    queue-IsWellFormed false (codes "u2") srv bob song failed_one failed_one-IsWellFormed refl refl

-- Canceling a queued download changes nothing, and says that it has.
stop_queued :
    (stop_with_status
      (codes "u1")
      Status.canceled
      (record failed_one { handles = fresh_handle (codes "u1") srv bob song ∷ [] }))
    ≡ (record failed_one { handles = fresh_handle (codes "u1") srv bob song ∷ [] }, true)
unfolding stop_with_status fresh_handle
stop_queued = refl

abbrev of_bob : ℕ → Handle
of_bob n = record (fresh_handle (n ∷ []) srv bob (n ∷ [])) { status = queued }

abbrev of_eve : ℕ → Handle
of_eve n = record (fresh_handle (n ∷ []) srv eve (n ∷ [])) { status = queued }

-- A world in which bob is offline and all of eve's files are empty.
abbrev run_one : Handle → Handle
run_one h =
    elim (start_download true true
      (if bytes_eq h.peer bob then no_stream peer_unreachable else content 0 true (serve [] [])) h
      (record { incomplete = []; complete = none })) [ none ↦ h | some (h', d', ending) ↦ h' ]

abbrev is_bobs : Handle → Bool
is_bobs h = is_queued h.status && bytes_eq h.peer bob

run_one_again : (h : Handle) → is_bobs h ≡ true → is_bobs (run_one h) ≡ true
unfolding start_download
run_one_again h e = ground arith

is_bobs_queued : (h : Handle) → is_bobs h ≡ true → is_queued h.status ≡ true
is_bobs_queued h e = ground arith

-- One file of bob's, with room for one worker, keeps eve's waiting.
downloader-starves_example :
    drop 1 (downloader run_one 1 (0 ∷ 0 ∷ 0 ∷ []) (of_bob 1 ∷ of_eve 2 ∷ [])) ≡ of_eve 2 ∷ []
unfolding concurrency fresh_handle
downloader-starves_example =
    downloader-starves run_one is_bobs is_bobs_queued run_one_again 1 (0 ∷ 0 ∷ 0 ∷ [])
      (of_bob 1 ∷ []) (of_eve 2 ∷ []) (omega arith)

-- A world in which every run fails for good.
abbrev fail_one : Handle → Handle
fail_one h = record h { status = Status.error }

waiting-downloader_example :
    waiting (downloader fail_one 1 (0 ∷ 0 ∷ []) (of_bob 1 ∷ of_eve 2 ∷ [])) ≡ 0
unfolding concurrency fresh_handle
waiting-downloader_example =
    waiting-downloader fail_one 1 (0 ∷ 0 ∷ []) (of_bob 1 ∷ of_eve 2 ∷ []) (λ h. refl) (omega arith)
      (omega arith)

-- Two bytes are there, and three come in two pieces.
abbrev half : Disk
half = record { incomplete = 1 ∷ 2 ∷ []; complete = none }

abbrev at_two : Handle
at_two = record (of_bob 1) { file_downloaded_bytes = 2 }

start_download_resumes_example :
    start_download true true (content 5 true (serve ((3 ∷ 4 ∷ []) ∷ []) (5 ∷ []))) at_two half
    ≡ some (
      completed 5 at_two,
      record { incomplete = []; complete = some (1 ∷ 2 ∷ 3 ∷ 4 ∷ 5 ∷ []) },
      settled,
    )
unfolding fresh_handle body
start_download_resumes_example =
    start_download_resumes ((3 ∷ 4 ∷ []) ∷ []) (5 ∷ []) at_two half refl refl (omega arith)
      (inl refl)

-- The bytes 3 and 4 are read as the connection breaks.
start_download_hole_example :
    (start_download true true
        (content 5 true (read (3 ∷ 4 ∷ []) (some (broken conn_closed)) none ∷ []))
        at_two
        half
      ≡ some (interrupted 5 (3 ∷ 4 ∷ []) at_two, half, settled))
    × (start_download true true
          (content 5 true (serve [] (5 ∷ [])))
          (interrupted 5 (3 ∷ 4 ∷ []) at_two)
          half
        ≡ some (
          completed 5 at_two,
          record { incomplete = []; complete = some (1 ∷ 2 ∷ 0 ∷ 0 ∷ 5 ∷ []) },
          settled,
        ))
unfolding fresh_handle body zeros is_requeued
start_download_hole_example =
    start_download_hole (3 ∷ 4 ∷ []) conn_closed [] [] (5 ∷ []) at_two half 5 refl refl refl
      (omega arith) refl refl (omega arith)

-- A record that a crash has left.
abbrev crashed : DownloadStateRecord
crashed = record (fresh_record (codes "u1") srv bob song) { status = Status.pending }

load_handle_stuck_example :
    (scan 4 0 (load_handle crashed ∷ []) ≡ scan 4 0 [])
    × (start_download true true (no_stream conn_closed) (load_handle crashed) half
        ≡ some (load_handle crashed, half, skipped))
    × (stop_handle Status.canceled (load_handle crashed) ≡ load_handle crashed)
    × (find_duplicate srv bob song (load_handle crashed ∷ []) 0 none ≡ exists)
unfolding fresh_record
load_handle_stuck_example =
    load_handle_stuck crashed refl [] [] 4 0 0 none Status.canceled true true
      (no_stream conn_closed) half
