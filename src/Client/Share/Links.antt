-- ===== src/Client/Share/Links.antt =====
-- client/share/share.go: what a share that does not follow links serves.
use friend_net.Prelude.{
  ℕ, ◌≡◌, refl, inl, inr, Bool, true, false, ◌&&◌, ◌||◌, some, List, [], ◌∷◌, ◌++◌, Bytes, join,
  if◌then◌else◌, arith, All, Bool-cases,
}
use friend_net.Common.Path.{slash, is_root, to_segments}
use friend_net.Client.Share.{
  Fetched, panics, failed, fetched, FileInfo, DirFs, DirShare, is_plain, is_info_ok, checked_info,
  no_link, or_none, share_stat, all_ok, path_ok, get_file_meta, dir_files, get_file,
}

abbrev pub is_fetched : {A : Type 0} → Fetched A → Bool
is_fetched panics = false
is_fetched (failed e) = false
is_fetched (fetched x) = true

abbrev plain_info : Fetched FileInfo → Bool
plain_info panics = false
plain_info (failed e) = false
plain_info (fetched info) = is_plain info.mode

-- A regular file or a directory, and not a link to one.
abbrev pub IsPlainAt : DirFs → Bytes → Type 0
IsPlainAt fs path = plain_info (fs.lstat path) ≡ true

-- The paths below `done` that the segments lead through, the last of them included.
abbrev pub paths_to : List Bytes → List Bytes → List Bytes
paths_to done [] = []
paths_to done (s ∷ rest) = join (done ++ s ∷ []) slash ∷ paths_to (done ++ s ∷ []) rest

no_link-plain_info :
    (share : DirShare)
    → share.follow_links ≡ false
    → (info : Fetched FileInfo) → no_link (checked_info share info) ≡ true
    → plain_info info ≡ true
unfolding is_info_ok
no_link-plain_info share f panics h = h
no_link-plain_info share f (failed e) h = h
no_link-plain_info share f (fetched info) h = ground (arith, f, h)

pub if-true : {A : Type 0} → (b : Bool) (x y : A) → b ≡ true → (if b then x else y) ≡ x
if-true true x y h = refl
if-true false x y h = absurd (ground (arith, h))

pub if-false : {A : Type 0} → (b : Bool) (x y : A) → b ≡ false → (if b then x else y) ≡ y
if-false true x y h = absurd (ground (arith, h))
if-false false x y h = refl

both_true : (a b : Bool) → (a && b) ≡ true → (a ≡ true) × (b ≡ true)
both_true true b h = (refl, h)
both_true false b h = absurd (ground (arith, h))

all_ok-IsPlainAt :
    (share : DirShare) (done rest : List Bytes)
    → share.follow_links ≡ false
    → all_ok share done rest ≡ true
    → All (IsPlainAt share.fs) (paths_to done rest)
unfolding all_ok share_stat
all_ok-IsPlainAt share done [] f h = tt
all_ok-IsPlainAt share done (s ∷ rest) f h =
    let path = join (done ++ s ∷ []) slash in
    let seen =
      both_true (no_link (share_stat share (slash ∷ path))) (all_ok share (done ++ s ∷ []) rest)
        h in
    (
      no_link-plain_info share f (share.fs.lstat path)
          (rw (if-false share.follow_links (share.fs.stat path) (share.fs.lstat path) f) at seen.0),
      all_ok-IsPlainAt share (done ++ s ∷ []) rest f seen.1,
    )

pub to_segments-root :
    (path : Bytes) (segments : List Bytes)
    → is_root path ≡ true
    → to_segments path ≡ some segments
    → segments ≡ []
unfolding to_segments is_root
to_segments-root [] segments h e = absurd (ground (arith, h))
to_segments-root (c ∷ path) segments h e = ground (arith, h, e)

path_ok-IsPlainAt :
    (share : DirShare) (path : Bytes) (segments : List Bytes)
    → share.follow_links ≡ false
    → to_segments path ≡ some segments
    → path_ok share path ≡ true
    → All (IsPlainAt share.fs) (paths_to [] segments)
unfolding path_ok
path_ok-IsPlainAt share path segments f e h = elim (Bool-cases (is_root path)) [
  | inl at_root ↦
      let none_left : segments ≡ [] = to_segments-root path segments at_root e in rw none_left tt
  | inr below ↦
      let all : all_ok share [] segments ≡ true =
        rw
          (
            if-false share.follow_links true _ f,
            if-false (is_root path) true (all_ok share [] (or_none (to_segments path))) below,
            e,
          )
          at h in
      all_ok-IsPlainAt share [] segments f all
]

path_ok-root : (share : DirShare) (path : Bytes) → is_root path ≡ true → path_ok share path ≡ true
unfolding path_ok
path_ok-root share path h = ground (arith, h)

-- A path that is not let through is not served in any of the three ways.
refused :
    (share : DirShare) (path : Bytes) (offset limit : ℕ)
    → path_ok share path ≡ false
    → (is_fetched (get_file_meta share path)
        || is_fetched (get_file share path offset limit)
        || is_fetched (dir_files share path))
      ≡ false
unfolding get_file_meta get_file dir_files
refused share [] offset limit h = refl
refused share (c ∷ path) offset limit h =
    let below : is_root (c ∷ path) ≡ false = ground (arith, path_ok-root share (c ∷ path), h) in
    rw (h, below) refl

-- A share that does not follow links serves a path, be it with its metadata, its content or its
-- entries, only where every path on the way to it, itself included, is a regular file or a directory
-- and not a link.
pub share_no_links :
    (share : DirShare) (path : Bytes) (segments : List Bytes) (offset limit : ℕ)
    → share.follow_links ≡ false
    → to_segments path ≡ some segments
    → (is_fetched (get_file_meta share path)
        || is_fetched (get_file share path offset limit)
        || is_fetched (dir_files share path))
      ≡ true
    → All (IsPlainAt share.fs) (paths_to [] segments)
share_no_links share path segments offset limit f e served =
    path_ok-IsPlainAt share path segments f e
      (ground (arith, refused share path offset limit, served))
