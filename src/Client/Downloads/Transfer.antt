-- ===== src/Client/Downloads/Transfer.antt =====
-- client/downloadmanager.go: startDownload, one worker's run on one handle. What the peer, the server
-- connection and the file system do is the argument `session` and the Booleans; the two files of the
-- download are its `Disk`. The stop function runs between two reads. Not modelled here are the
-- statistics it sends each second, and the crawl of a directory.
pub mod Resume
pub mod Settle
pub mod Writing
use friend_net.Prelude.{
  ℕ, zero, suc, ◌+◌, ◌%◌, ◌^◌, ◌≡◌, Bool, true, false, Option, none, some, List, [], ◌∷◌, ◌++◌,
  Bytes, if◌then◌else◌, leb, ◌==◌, length, take, drop, not,
}
use friend_net.Client.Downloads.{Handle, Status}

-- The errors that startDownload tells apart, the text of most left open.
pub data Failure : Type 0 where
  is_dir handle_stopped conn_not_open peer_unreachable client_not_online conn_closed nanny_closed :
      Failure
  other : Bytes → Failure

-- The bytes of a file with `zero` bytes in the place of what it lacks, to the length `n`.
unfoldable pub pad : ℕ → Bytes → Bytes
pad zero file = []
pad (suc n) [] = 0 ∷ pad n []
pad (suc n) (c ∷ file) = c ∷ pad n file

-- os.File.Write at `pos`: a gap before it reads as zeros, and nothing is written for no bytes.
unfoldable pub write_at : ℕ → Bytes → Bytes → Bytes
unfolding pad
write_at pos [] file = file
write_at pos (c ∷ buf) file = pad pos file ++ ((c ∷ buf) ++ drop (pos + length (c ∷ buf)) file)

-- How a read ends beside the bytes it returns: `none` for no error.
pub data ReadErr : Type 0 where
  eof : ReadErr
  broken : Failure → ReadErr

-- One turn of the loop: what the read returns, and how many bytes a failing write has written; or a
-- call of the stop function.
pub data ReadStep : Type 0 where
  read : Bytes → Option ReadErr → Option ℕ → ReadStep
  stop : Status → ReadStep

-- What happens from the call of TryDo on: no stream; a directory; or a file of that size, whether
-- the incomplete file can be opened, and the steps of the loop.
pub data Session : Type 0 where
  no_stream : Failure → Session
  directory : Session
  content : ℕ → Bool → List ReadStep → Session

pub record Disk : Type 0 where
  pub incomplete : Bytes
  pub complete : Option Bytes

abbrev pub add_downloaded : ℕ → Handle → Handle
add_downloaded n h = record h { file_downloaded_bytes = (h.file_downloaded_bytes + n) % 2 ^ 64 }

abbrev err_write : Failure
err_write = other []

-- The loop: the handle, the file, and the error it ends with; `none` while it waits for the peer.
unfoldable pub copy : List ReadStep → ℕ → Handle → Bytes → Handle × Bytes × Option (Option Failure)
unfolding write_at
copy [] pos h file = (h, file, none)
copy (stop status ∷ steps) pos h file =
    (record h { status = status; stoppable = false }, file, some (some handle_stopped))
copy (read buf (some (broken e)) written ∷ steps) pos h file =
    (add_downloaded (length buf) h, file, some (some e))
copy (read buf end (some k) ∷ steps) pos h file =
    (add_downloaded (length buf) h, write_at pos (take k buf) file, some (some err_write))
copy (read buf (some eof) none ∷ steps) pos h file =
    (add_downloaded (length buf) h, write_at pos buf file, some none)
copy (read buf none none ∷ steps) pos h file =
    copy steps (pos + length buf) (add_downloaded (length buf) h) (write_at pos buf file)

-- fileTotalSize, read as an int64, is not yet known below 0.
abbrev pub has_size : ℕ → Bool
has_size n = not (leb (2 ^ 63) n)

abbrev pub learn_size : ℕ → Handle → Handle
learn_size size h = if has_size h.file_total_size then h else record h { file_total_size = size }

abbrev err_changed : Failure
err_changed = other []

abbrev err_open_file : Failure
err_open_file = other []

abbrev err_seek : Failure
err_seek = other []

-- The function that TryDo is given.
unfoldable pub transfer : Session → Handle → Bytes → Handle × Bytes × Option (Option Failure)
unfolding copy
transfer (no_stream e) h file = (h, file, some (some e))
transfer directory h file = (h, file, some (some is_dir))
transfer (content size can_open steps) h file =
    let h' = learn_size size h in
    if not (size == h'.file_total_size)
    then (h', file, some (some err_changed))
    else if not can_open
    then (h', file, some (some err_open_file))
    else if leb (2 ^ 63) h.file_downloaded_bytes
    then (h', file, some (some err_seek))
    else copy steps h.file_downloaded_bytes (record h' { stoppable = true }) file

-- The errors after which the handle is put back in the queue.
unfoldable pub is_requeued : Failure → Bool
is_requeued conn_not_open = true
is_requeued peer_unreachable = true
is_requeued client_not_online = true
is_requeued conn_closed = true
is_requeued nanny_closed = true
is_requeued is_dir = false
is_requeued handle_stopped = false
is_requeued (other message) = false

unfoldable pub error_text : Failure → Bytes
error_text (other message) = message
error_text is_dir = []
error_text handle_stopped = []
error_text conn_not_open = []
error_text peer_unreachable = []
error_text client_not_online = []
error_text conn_closed = []
error_text nanny_closed = []

-- How the run ended: it did nothing; it failed to make a directory; it removed the handle through
-- Remove, as that of a directory; or it gave the handle its status.
pub data RunEnding : Type 0 where
  skipped no_directory removed settled : RunEnding

-- What follows the check of the final error.
unfoldable pub settle_error : Failure → Handle → Handle × RunEnding
unfolding is_requeued error_text
settle_error is_dir h = (h, removed)
settle_error handle_stopped h = (h, settled)
settle_error e h =
    if is_requeued e
    then (record h { status = Status.queued }, settled)
    else (record h { status = Status.error; error_message = some (error_text e) }, settled)

abbrev pub err_size : Failure
err_size = other []

abbrev pub err_rename : Failure
err_rename = other []

-- What follows TryDo: the size, the move to the final path, and the status.
unfoldable pub settle : Bool → Option Failure → Handle → Disk → Handle × Disk × RunEnding
unfolding settle_error
settle can_rename (some e) h d = let (h', ending) = settle_error e h in (h', d, ending)
settle can_rename none h d =
    if not (h.file_downloaded_bytes == h.file_total_size)
    then (let (h', ending) = settle_error err_size h in (h', record d { incomplete = [] }, ending))
    else if not can_rename
    then (let (h', ending) = settle_error err_rename h in (h', d, ending))
    else (
      record h { status = Status.done },
      record { incomplete = []; complete = some d.incomplete },
      settled,
    )

abbrev pub is_taken : Status → Bool
is_taken Status.pending = true
is_taken Status.done = true
is_taken Status.unspecified = false
is_taken Status.queued = false
is_taken Status.canceled = false
is_taken Status.error = false

unfoldable pub after_transfer :
    Bool → Disk → Handle × Bytes × Option (Option Failure) → Option (Handle × Disk × RunEnding)
unfolding settle
after_transfer can_rename d (h, file, none) = none
after_transfer can_rename d (h, file, some result) =
    some (settle can_rename result h (record d { incomplete = file }))

-- The run, `none` while it waits for the peer.
unfoldable pub start_download :
    Bool → Bool → Session → Handle → Disk → Option (Handle × Disk × RunEnding)
unfolding transfer after_transfer
start_download can_mkdir can_rename session h d =
    if is_taken h.status
    then some (h, d, skipped)
    else if not can_mkdir
    then some (record h { status = Status.pending }, d, no_directory)
    else after_transfer can_rename d
        (transfer session (record h { status = Status.pending }) d.incomplete)
