-- ===== src/Client/Share.antt =====
-- client/share/share.go: a share that is a directory. What package os and os.DirFS do below that
-- directory is the parameter `DirFs`, where the empty path is the directory itself. A uint64 is its value,
-- an int64 its bit pattern below 2 ^ 64.
use mathlib.Core.Option
use friend_net.Prelude.{
  ℕ, ◌+◌, ◌^◌, ◌≡◌, Bool, true, false, not, ◌&&◌, Option, none, some, List, [], ◌∷◌, ◌++◌, Bytes,
  bytes_eq, codes, String, join, leb, ltb, ◌==◌, if◌then◌else◌, take, drop, split,
}
use friend_net.Common.Path.{slash, is_root, to_segments}
pub mod Links
pub mod Window
mod Tests

-- fs.ErrNotExist, fs.ErrPermission and other errors.
pub data FsErr : Type 0 where
  not_exist permission other : FsErr

-- A result with an error.
pub data Fetched {ℓ} (A : Type ℓ) : Type ℓ where
  panics : Fetched A
  failed : FsErr → Fetched A
  fetched : A → Fetched A

pub data Mode : Type 0 where
  regular dir symlink irregular : Mode

-- fs.FileInfo
pub record FileInfo : Type 0 where
  pub name : Bytes
  pub mode : Mode
  pub size : ℕ

-- pb.MsgFileMeta
pub record FileMeta : Type 0 where
  pub name : Bytes
  pub is_dir : Bool
  pub size : ℕ

-- fs.DirEntry: its name and what Info returns.
pub record DirEntry : Type 0 where
  pub name : Bytes
  pub info : Fetched FileInfo

-- A file that has been opened: what it holds, and the error with which it refuses to go on to an
-- offset, if it does. One that cannot seek is read up to there.
pub record Opened : Type 0 where
  pub content : Bytes
  pub skip : ℕ → Option FsErr

pub record DirFs : Type 0 where
  pub stat : Bytes → Fetched FileInfo
  pub lstat : Bytes → Fetched FileInfo
  pub read_dir : Bytes → Fetched (List DirEntry)
  pub open_file : Bytes → Fetched Opened

pub record DirShare : Type 0 where
  pub name : Bytes
  pub follow_links : Bool
  pub fs : DirFs

abbrev pub is_symlink : Mode → Bool
is_symlink regular = false
is_symlink dir = false
is_symlink symlink = true
is_symlink irregular = false

abbrev pub is_directory : Mode → Bool
is_directory regular = false
is_directory dir = true
is_directory symlink = false
is_directory irregular = false

-- mode.IsRegular() || mode.IsDir()
abbrev pub is_plain : Mode → Bool
is_plain regular = true
is_plain dir = true
is_plain symlink = false
is_plain irregular = false

unfoldable pub is_info_ok : DirShare → FileInfo → Bool
is_info_ok share info = if share.follow_links then true else is_plain info.mode

abbrev pub checked_info : DirShare → Fetched FileInfo → Fetched FileInfo
unfolding is_info_ok
checked_info share panics = panics
checked_info share (failed e) = failed e
checked_info share (fetched info) = if is_info_ok share info then fetched info else failed not_exist

-- path.String()[1:]
unfoldable pub share_stat : DirShare → Bytes → Fetched FileInfo
unfolding is_info_ok
share_stat share [] = panics
share_stat share (c ∷ path) =
    checked_info share (if share.follow_links then share.fs.stat path else share.fs.lstat path)

abbrev pub no_link : Fetched FileInfo → Bool
no_link panics = false
no_link (failed e) = false
no_link (fetched info) = not (is_symlink info.mode)

-- The loop of pathOk: `done` is the segments that it has gone through.
unfoldable pub all_ok : DirShare → List Bytes → List Bytes → Bool
unfolding share_stat
all_ok share done [] = true
all_ok share done (s ∷ rest) =
    let path = slash ∷ join (done ++ s ∷ []) slash in
    no_link (share_stat share path) && all_ok share (done ++ s ∷ []) rest

abbrev pub or_none : Option (List Bytes) → List Bytes
or_none none = []
or_none (some segments) = segments

-- The zero path, on which ToSegments panics, is left to those who call it.
unfoldable pub path_ok : DirShare → Bytes → Bool
unfolding all_ok
path_ok share path =
    if share.follow_links
    then true
    else if is_root path
    then true
    else all_ok share [] (or_none (to_segments path))

unfoldable pub file_info_to_meta : FileInfo → FileMeta
file_info_to_meta info =
    let is_dir = is_directory info.mode in
    let size =
      if is_dir then 0 else if ltb 0 info.size && ltb info.size (2 ^ 63) then info.size else 0 in
    record { name = info.name; is_dir = is_dir; size = size }

abbrev pub root_meta : FileMeta
root_meta = record { name = codes "/"; is_dir = true; size = 0 }

abbrev pub map_fetched : {A B : Type 0} → (A → B) → Fetched A → Fetched B
map_fetched f panics = panics
map_fetched f (failed e) = failed e
map_fetched f (fetched x) = fetched (f x)

unfoldable pub get_file_meta : DirShare → Bytes → Fetched FileMeta
unfolding path_ok share_stat file_info_to_meta
get_file_meta share [] = panics
get_file_meta share (c ∷ path) =
    if is_root (c ∷ path)
    then fetched root_meta
    else if not (path_ok share (c ∷ path))
    then failed not_exist
    else map_fetched file_info_to_meta (share_stat share (c ∷ path))

-- What is left of an entry: nothing if it is gone or is not shown.
abbrev pub shown : DirShare → Fetched FileInfo → Fetched (Option FileMeta)
unfolding is_info_ok file_info_to_meta
shown share panics = panics
shown share (failed not_exist) = fetched none
shown share (failed permission) = failed permission
shown share (failed other) = failed other
shown share (fetched info) =
    fetched (if is_info_ok share info then some (file_info_to_meta info) else none)

abbrev pub entry_path : Bytes → Bytes → Bytes
entry_path path name = if is_root path then slash ∷ name else path ++ (slash ∷ name)

abbrev followed : DirShare → Bytes → Bytes → Fetched FileInfo → Fetched FileInfo
followed share path name panics = panics
followed share path name (failed e) = failed e
followed share path name (fetched info) =
    if share.follow_links && is_symlink info.mode
    then share_stat share (entry_path path name)
    else fetched info

abbrev pub add_shown : Fetched (Option FileMeta) → Fetched (List FileMeta) → Fetched (List FileMeta)
add_shown panics rest = panics
add_shown (failed e) rest = failed e
add_shown (fetched none) rest = rest
add_shown (fetched (some meta)) rest = map_fetched (λ metas. meta ∷ metas) rest

-- The loop of DirFiles over the entries.
unfoldable pub entry_metas : DirShare → Bytes → List DirEntry → Fetched (List FileMeta)
unfolding is_info_ok file_info_to_meta share_stat
entry_metas share path [] = fetched []
entry_metas share path (entry ∷ entries) =
    add_shown (shown share (followed share path entry.name entry.info))
      (entry_metas share path entries)

abbrev and_entries : DirShare → Bytes → Fetched (List DirEntry) → Fetched (List FileMeta)
and_entries share path panics = panics
and_entries share path (failed e) = failed e
and_entries share path (fetched entries) = entry_metas share path entries

unfoldable pub dir_files : DirShare → Bytes → Fetched (List FileMeta)
unfolding path_ok entry_metas
dir_files share [] = panics
dir_files share (c ∷ path) =
    if not (path_ok share (c ∷ path))
    then failed not_exist
    else and_entries share (c ∷ path) (share.fs.read_dir path)

-- What the reader of an opened file gives. The limit is converted to an int64, and a reader with a
-- limit below 0 is at its end.
unfoldable pub read_from : FileMeta → ℕ → ℕ → Fetched Opened → Fetched (FileMeta × Bytes)
read_from meta offset limit panics = panics
read_from meta offset limit (failed e) = failed e
read_from meta offset limit (fetched file) =
    let rest = drop offset file.content in
    let within = if limit == 0 then rest else if leb (2 ^ 63) limit then [] else take limit rest in
    let skipped = if ltb 0 offset then file.skip offset else none in
    elim skipped [ none ↦ fetched (meta, within) | some e ↦ failed e ]

abbrev pub get_content : DirShare → Bytes → ℕ → ℕ → Fetched FileMeta → Fetched (FileMeta × Bytes)
unfolding read_from
get_content share path offset limit panics = panics
get_content share path offset limit (failed e) = failed e
get_content share path offset limit (fetched meta) =
    if meta.is_dir
    then fetched (meta, [])
    else if leb meta.size offset
    then fetched (meta, [])
    else read_from meta offset limit (share.fs.open_file path)

-- The file's metadata and what its reader gives up to its end.
unfoldable pub get_file : DirShare → Bytes → ℕ → ℕ → Fetched (FileMeta × Bytes)
unfolding path_ok share_stat file_info_to_meta read_from
get_file share [] offset limit = panics
get_file share (c ∷ path) offset limit =
    if is_root (c ∷ path)
    then fetched (root_meta, [])
    else if not (path_ok share (c ∷ path))
    then failed not_exist
    else get_content share path offset limit
        (map_fetched file_info_to_meta (share_stat share (c ∷ path)))
