-- ===== src/Client/Serving.antt =====
-- client/room/logic.go: how a client answers the requests of its peers for its shares, which
-- client/share/manager.go keeps. A share is what its methods return. A stream takes a number of writes
-- before every further one fails; copying the content of a file is one of them.
use friend_net.Prelude.{
  ℕ, zero, suc, ◌+◌, ◌-◌, ◌≡◌, Bool, true, false, Option, none, some, List, [], ◌∷◌, ◌++◌, Bytes,
  bytes_eq, codes, String, ltb, ◌==◌, if◌then◌else◌, take, drop, length, map,
}
use friend_net.Common.Path.{
  PathErrCode, ok, err, Result, validate_path, segments_to_path, to_segments, is_root,
}
use friend_net.Client.Share.{
  FsErr, not_exist, permission, other, Fetched, panics, failed, fetched, FileMeta, root_meta,
  DirShare, get_file_meta, dir_files, get_file,
}
pub mod Pages
pub mod Content
mod Tests

-- share.Share
pub record Share : Type 0 where
  pub file_meta : Bytes → Fetched FileMeta
  pub files : Bytes → Fetched (List FileMeta)
  pub file : Bytes → ℕ → ℕ → Fetched (FileMeta × Bytes)

-- A DirShare as a Share.
abbrev pub dir_share : DirShare → Share
dir_share share = record {
  file_meta = get_file_meta share;
  files = dir_files share;
  file = get_file share;
}

-- share.Manager: the map of its shares, in the order in which a call ranges over it.
pub record ShareManager : Type 0 where
  pub is_closed : Bool
  pub share_map : List (Bytes × Share)

unfoldable pub find_share : List (Bytes × Share) → Bytes → Option Share
find_share [] name = none
find_share ((key, share) ∷ rest) name =
    let later = find_share rest name in if bytes_eq key name then some share else later

unfoldable pub share_by_name : ShareManager → Bytes → Option Share
unfolding find_share
share_by_name m name = if m.is_closed then none else find_share m.share_map name

unfoldable pub all_shares : ShareManager → List (Bytes × Share)
all_shares m = if m.is_closed then [] else m.share_map

-- What is written: the errors ERR_TYPE_INVALID_FIELDS and ERR_TYPE_FILE_NOT_EXIST, messages, and the
-- content of a file.
pub data PeerReply : Type 0 where
  invalid_path : PathErrCode → PeerReply
  no_such_path : Bytes → PeerReply
  page : List FileMeta → PeerReply
  file_meta_reply : FileMeta → PeerReply
  content : Bytes → PeerReply
  pong : PeerReply

-- The stream of a request; `aborts` is whether a write fails with a quic.StreamError.
pub record PeerStream : Type 0 where
  pub sent : List PeerReply
  pub left : ℕ
  pub aborts : Bool

-- What a handler returns, or that it panics.
pub data HandlerErr : Type 0 where
  panic err_write : HandlerErr
  err_path : PathErrCode → HandlerErr
  err_share : FsErr → HandlerErr

unfoldable pub put : PeerReply → PeerStream → PeerStream × Option HandlerErr
put r s = elim s.left [
  | zero ↦ (s, some err_write)
  | suc left ↦ (record s { sent = s.sent ++ r ∷ []; left = left }, none)
]

unfoldable pub on_ping : PeerStream → PeerStream × Option HandlerErr
unfolding put
on_ping s = put pong s

-- The loop of sendDirFiles; the files are fuel enough, since a page takes one of them at least.
unfoldable pub send_pages : ℕ → ℕ → List FileMeta → PeerStream → PeerStream × Option HandlerErr
unfolding put
send_pages zero sent files s = (s, none)
send_pages (suc fuel) sent files s =
    let end_ = if ltb (length files) (sent + 50) then length files else sent + 50 in
    let (next, result) = put (page (take (end_ - sent) (drop sent files))) s in
    let rest = send_pages fuel (sent + 50) files next in
    if ltb sent (length files)
    then elim result [ none ↦ rest | some e ↦ (next, some e) ]
    else (s, none)

unfoldable pub send_dir_files : List FileMeta → PeerStream → PeerStream × Option HandlerErr
unfolding send_pages
send_dir_files files s = send_pages (length files) 0 files s

pub data Resolved : Type 0 where
  resolve_panics at_top not_found : Resolved
  bad_path : PathErrCode → Resolved
  in_share : Share → Bytes → Resolved

abbrev found_in : Option Share → Bytes → Resolved
found_in none path = not_found
found_in (some share) path = in_share share path

abbrev below_share : ShareManager → Bytes → Result Bytes → Resolved
unfolding share_by_name
below_share m name (err e) = bad_path e
below_share m name (ok path) = found_in (share_by_name m name) path

abbrev at_segments : ShareManager → Option (List Bytes) → Resolved
unfolding share_by_name
at_segments m none = resolve_panics
at_segments m (some []) = resolve_panics
at_segments m (some (name ∷ segments)) = below_share m name (segments_to_path segments)

unfoldable pub resolve_share_and_path : ShareManager → Bytes → Resolved
unfolding share_by_name
resolve_share_and_path m path = if is_root path then at_top else at_segments m (to_segments path)

-- How each handler answers what a share returns.
abbrev pub answer :
    {A : Type 0}
    → (A → PeerStream → PeerStream × Option HandlerErr)
    → Bytes
    → Fetched A
    → PeerStream
    → PeerStream × Option HandlerErr
unfolding put
answer f path panics s = (s, some panic)
answer f path (failed not_exist) s = put (no_such_path path) s
answer f path (failed permission) s = (s, some (err_share permission))
answer f path (failed other) s = (s, some (err_share other))
answer f path (fetched x) s = f x s

-- What the three handlers have in common, up to the call of the share: what is answered at the root, and
-- below a share.
abbrev on_request :
    {A : Type 0}
    → (A → PeerStream → PeerStream × Option HandlerErr)
    → A
    → (Share → Bytes → Fetched A)
    → Bytes
    → Resolved
    → PeerStream
    → PeerStream × Option HandlerErr
unfolding put
on_request f top ask path resolve_panics s = (s, some panic)
on_request f top ask path (bad_path e) s = (s, some (err_path e))
on_request f top ask path not_found s = put (no_such_path path) s
on_request f top ask path at_top s = f top s
on_request f top ask path (in_share share inner) s = answer f path (ask share inner) s

-- validatePath, whose own write may fail unseen.
abbrev on_valid :
    Result Bytes
    → (Bytes → PeerStream → PeerStream × Option HandlerErr)
    → PeerStream
    → PeerStream × Option HandlerErr
unfolding put
on_valid (err e) f s = ((put (invalid_path e) s).0, none)
on_valid (ok path) f s = f path s

abbrev share_meta : Bytes × Share → FileMeta
share_meta (name, share) = record { name = name; is_dir = true; size = 0 }

unfoldable pub on_get_dir_files : ShareManager → Bytes → PeerStream → PeerStream × Option HandlerErr
unfolding send_dir_files resolve_share_and_path all_shares put
on_get_dir_files m path s =
    on_valid (validate_path path)
      (λ p.
        on_request send_dir_files (map share_meta (all_shares m)) (λ share inner. share.files inner)
          p (resolve_share_and_path m p))
      s

unfoldable pub on_get_file_meta : ShareManager → Bytes → PeerStream → PeerStream × Option HandlerErr
unfolding resolve_share_and_path put
on_get_file_meta m path s =
    on_valid (validate_path path)
      (λ p.
        on_request (λ meta. put (file_meta_reply meta)) root_meta
          (λ share inner. share.file_meta inner) p (resolve_share_and_path m p))
      s

-- The error of the copy.
abbrev copied : PeerStream × Option HandlerErr → PeerStream × Option HandlerErr
copied (s, none) = (s, none)
copied (s, some e) = (s, if s.aborts then none else some e)

abbrev then_content :
    FileMeta → Bytes → PeerStream × Option HandlerErr → PeerStream × Option HandlerErr
unfolding put
then_content meta bytes (s, some e) = (s, some e)
then_content meta bytes (s, none) =
    if meta.is_dir then (s, none) else copied (put (content bytes) s)

-- The metadata and, for a file, what the reader gives.
unfoldable pub send_file : FileMeta × Bytes → PeerStream → PeerStream × Option HandlerErr
unfolding put
send_file (meta, bytes) s = then_content meta bytes (put (file_meta_reply meta) s)

unfoldable pub on_get_file :
    ShareManager → Bytes → ℕ → ℕ → PeerStream → PeerStream × Option HandlerErr
unfolding resolve_share_and_path send_file put
on_get_file m path offset limit s =
    on_valid (validate_path path)
      (λ p.
        on_request send_file (root_meta, []) (λ share inner. share.file inner offset limit) p
          (resolve_share_and_path m p))
      s
