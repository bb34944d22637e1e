-- ===== src/Client/Downloads/Transfer/Resume.antt =====
-- client/downloadmanager.go: downloads that are resumed, read to the end by the loop of startDownload.
use friend_net.Prelude.{
  ℕ, ◌+◌, ◌≤◌, ◌<◌, ◌^◌, ◌≡◌, refl, ◌⊎◌, inl, inr, true, false, none, some, List, [], ◌∷◌, ◌++◌,
  Bytes, arith, length, length-append,
}
use friend_net.Client.Downloads.{Handle, Status}
use friend_net.Client.Downloads.Transfer.{
  ReadStep, read, eof, broken, Failure, content, Disk, add_downloaded, write_at, copy, transfer,
  start_download, is_taken, has_size, learn_size, settled, is_requeued,
}
use friend_net.Client.Downloads.Transfer.Writing.{
  length-write_at-le, write_at-write_at, write_at-length, write_at_gap, zeros,
}

-- What a peer sends that delivers the bytes to their end.
unfoldable pub serve : List Bytes → Bytes → List ReadStep
serve [] last = read last (some eof) none ∷ []
serve (c ∷ chunks) last = read c none none ∷ serve chunks last

unfoldable pub body : List Bytes → Bytes → Bytes
body [] last = last
body (c ∷ chunks) last = c ++ body chunks last

-- The loop reads such a peer to the end, and writes all of it behind the position.
copy-serve :
    (chunks : List Bytes) (last : Bytes) (pos : ℕ) (h : Handle) (file : Bytes)
    → length file ≤ pos
    → h.file_downloaded_bytes ≡ pos
    → pos + length (body chunks last) < 2 ^ 64
    → copy (serve chunks last) pos h file ≡ (
      record h { file_downloaded_bytes = pos + length (body chunks last) },
      write_at pos (body chunks last) file,
      some none,
    )
unfolding copy serve body
copy-serve [] last pos h file short at fits = ground (arith, at)
copy-serve (c ∷ chunks) last pos h file short at fits =
    let sum : pos + length (c ++ body chunks last) ≡ (pos + length c) + length (body chunks last) =
      omega (arith, length-append c (body chunks last)) in
    rw (sum, ← write_at-write_at pos c (body chunks last) file short)
      (copy-serve chunks last (pos + length c) (add_downloaded (length c) h) (write_at pos c file)
        (length-write_at-le pos c file short) (omega (arith, sum)) (omega (arith, sum)))

-- What a run that is delivered its file to the end makes of the handle.
abbrev pub completed : ℕ → Handle → Handle
completed size h = record h {
  status = Status.done;
  stoppable = true;
  file_total_size = size;
  file_downloaded_bytes = size;
}

Known : ℕ → Handle → Type 0
Known size h = (has_size h.file_total_size ≡ false) ⊎ (h.file_total_size ≡ size)

learn_size-Known :
    (size : ℕ) (h : Handle)
    → size < 2 ^ 63
    → Known size h
    → learn_size size h ≡ record h { file_total_size = size }
unfolding Known
learn_size-Known size h small (inl new) = ground (arith, new)
learn_size-Known size h small (inr same) = ground (arith, same)

transfer-serve :
    (chunks : List Bytes) (last : Bytes) (size : ℕ) (h : Handle) (file : Bytes)
    → length file ≤ h.file_downloaded_bytes
    → h.file_downloaded_bytes + length (body chunks last) ≡ size
    → size < 2 ^ 63
    → Known size h
    → transfer (content size true (serve chunks last)) h file ≡ (
      record h { stoppable = true; file_total_size = size; file_downloaded_bytes = size },
      write_at h.file_downloaded_bytes (body chunks last) file,
      some none,
    )
unfolding transfer
transfer-serve chunks last size h file short all small known = ground (
  arith,
  learn_size-Known size h small known,
  copy-serve chunks last h.file_downloaded_bytes
      (record h { file_total_size = size; stoppable = true }) file,
)

-- A run from any position at or behind the end of the incomplete file.
start_download-serve :
    (chunks : List Bytes) (last : Bytes) (size : ℕ) (h : Handle) (d : Disk)
    → is_taken h.status ≡ false
    → length d.incomplete ≤ h.file_downloaded_bytes
    → h.file_downloaded_bytes + length (body chunks last) ≡ size
    → size < 2 ^ 63
    → Known size h
    → start_download true true (content size true (serve chunks last)) h d
      ≡ some (
        completed size h,
        record {
          incomplete = [];
          complete = some (write_at h.file_downloaded_bytes (body chunks last) d.incomplete);
        },
        settled,
      )
unfolding start_download Known
start_download-serve chunks last size h d free short all small known =
    let moved =
      transfer-serve chunks last size (record h { status = Status.pending }) d.incomplete short all
        small known in
    ground (arith, free, moved)

-- A run on a handle that is not taken, whose incomplete file holds as many bytes as the handle counts,
-- ends DONE with those bytes and what the peer delivers behind them in the complete file, in whatever
-- pieces the peer delivers it, when the size that the peer states, below 2 ^ 63, is that of the whole
-- and of what the handle knows, and the file system refuses nothing.
pub start_download_resumes :
    (chunks : List Bytes) (last : Bytes) (h : Handle) (d : Disk)
    → is_taken h.status ≡ false
    → h.file_downloaded_bytes ≡ length d.incomplete
    → length (d.incomplete ++ body chunks last) < 2 ^ 63
    → (has_size h.file_total_size ≡ false)
      ⊎ (h.file_total_size ≡ length (d.incomplete ++ body chunks last))
    → start_download true true
        (content (length (d.incomplete ++ body chunks last)) true (serve chunks last))
        h
        d
      ≡ some (
        completed (length (d.incomplete ++ body chunks last)) h,
        record { incomplete = []; complete = some (d.incomplete ++ body chunks last) },
        settled,
      )
unfolding Known
start_download_resumes chunks last h d free counted small known =
    let sum = length-append d.incomplete (body chunks last) in
    let run =
      start_download-serve chunks last (length (d.incomplete ++ body chunks last)) h d free
        (omega (arith, counted)) (omega (arith, counted, sum)) small known in
    ground (arith, run, counted, write_at-length d.incomplete (body chunks last))

-- What a run leaves of the handle whose read fails with `lost` bytes in its buffer.
abbrev pub interrupted : ℕ → Bytes → Handle → Handle
interrupted size lost h = record h {
  status = Status.queued;
  stoppable = true;
  file_total_size = size;
  file_downloaded_bytes = h.file_downloaded_bytes + length lost;
}

module _ (lost : Bytes) (e : Failure) (steps : List ReadStep) (chunks : List Bytes) (last : Bytes)
    (h : Handle) (d : Disk) (size : ℕ) (free : is_taken h.status ≡ false)
    (counted : h.file_downloaded_bytes ≡ length d.incomplete)
    (all : length d.incomplete + length lost + length (body chunks last) ≡ size)
    (small : size < 2 ^ 63) (unknown : has_size h.file_total_size ≡ false)
    (requeued : is_requeued e ≡ true) where
  first_run :
      start_download true true (content size true (read lost (some (broken e)) none ∷ steps)) h d
      ≡ some (interrupted size lost h, d, settled)
  unfolding start_download is_requeued
  first_run = ground (arith, learn_size-Known size h small)

  second_run :
      1 ≤ length (body chunks last)
      → start_download true true (content size true (serve chunks last)) (interrupted size lost h) d
        ≡ some (
          completed size h,
          record {
            incomplete = [];
            complete = some (d.incomplete ++ (zeros (length lost) ++ body chunks last));
          },
          settled,
        )
  second_run some_bytes =
      let run =
        start_download-serve chunks last size (interrupted size lost h) d refl
          (omega (arith, counted)) (omega (arith, counted, all)) small (unfold Known in inr refl) in
      ground (arith, run, counted, write_at_gap (length lost) d.incomplete (body chunks last))

-- Where a read fails with bytes already in its buffer and the error puts the download back in the
-- queue, the bytes are counted and never written: the next run, to which the peer delivers all that
-- is left behind that count, ends DONE with zeros in their place in the complete file.
pub start_download_hole :
    (lost : Bytes) (e : Failure) (steps : List ReadStep) (chunks : List Bytes) (last : Bytes)
    (h : Handle) (d : Disk) (size : ℕ)
    → is_taken h.status ≡ false
    → h.file_downloaded_bytes ≡ length d.incomplete
    → length d.incomplete + length lost + length (body chunks last) ≡ size
    → size < 2 ^ 63
    → has_size h.file_total_size ≡ false
    → is_requeued e ≡ true
    → 1 ≤ length (body chunks last)
    → (start_download true true (content size true (read lost (some (broken e)) none ∷ steps)) h d
        ≡ some (interrupted size lost h, d, settled))
      × (start_download true true
            (content size true (serve chunks last))
            (interrupted size lost h)
            d
          ≡ some (
            completed size h,
            record {
              incomplete = [];
              complete = some (d.incomplete ++ (zeros (length lost) ++ body chunks last));
            },
            settled,
          ))
start_download_hole lost e steps chunks last h d size free counted all small unknown requeued
      some_bytes =
    (
      first_run lost e steps chunks last h d size free counted all small unknown requeued,
      second_run lost e steps chunks last h d size free counted all small unknown requeued
          some_bytes,
    )
