-- ===== src/Client/Share/Window.antt =====
-- client/share/share.go: which bytes of a file GetFile gives.
use friend_net.Prelude.{
  ℕ, zero, suc, ◌^◌, ◌<◌, ◌≤◌, ◌≡◌, refl, ap, ◌∙◌, inl, inr, true, false, none, [], ◌∷◌, Bytes, leb,
  ltb, ◌==◌, if◌then◌else◌, take, drop, drop_all, length, arith, Bool-cases,
}
use friend_net.Common.Path.{is_root}
use friend_net.Client.Share.Links.{if-true, if-false}
use friend_net.Client.Share.{
  fetched, regular, FileInfo, FileMeta, Opened, DirShare, file_info_to_meta, share_stat, path_ok,
  read_from, get_content, get_file,
}

-- The bytes from the offset on, up to as many as the limit, which is none if it is 0.
abbrev pub window : ℕ → ℕ → Bytes → Bytes
window offset zero content = drop offset content
window offset (suc limit) content = take (suc limit) (drop offset content)

window_behind :
    (offset limit : ℕ) (content : Bytes)
    → length content ≤ offset
    → window offset limit content ≡ []
window_behind offset zero content h = drop_all offset content h
window_behind offset (suc limit) content h = rw (drop_all offset content h) refl

file_info_to_meta-size :
    (info : FileInfo)
    → info.mode ≡ regular
    → info.size < 2 ^ 63
    → ((file_info_to_meta info).is_dir ≡ false) × ((file_info_to_meta info).size ≡ info.size)
unfolding file_info_to_meta
file_info_to_meta-size info m h = (rw m refl, rw m (ground (arith, h)))

read_from-window :
    (meta : FileMeta) (offset limit : ℕ) (file : Opened)
    → file.skip offset ≡ none
    → limit < 2 ^ 63
    → read_from meta offset limit (fetched file) ≡ fetched (meta, window offset limit file.content)
unfolding read_from
read_from-window meta offset zero file s l =
    let no_skip : (if ltb 0 offset then file.skip offset else none) ≡ none = ground (arith, s) in
    rw (no_skip, read_from) refl
read_from-window meta offset (suc limit) file s l =
    let no_skip : (if ltb 0 offset then file.skip offset else none) ≡ none = ground (arith, s) in
    let fits : leb (2 ^ 63) (suc limit) ≡ false = ground (arith, l) in
    let positive : (suc limit == 0) ≡ false = ground arith in
    rw (no_skip, fits, positive, read_from) refl

get_content-window :
    (share : DirShare) (path : Bytes) (offset limit : ℕ) (meta : FileMeta) (file : Opened)
    → meta.is_dir ≡ false
    → meta.size ≡ length file.content
    → share.fs.open_file path ≡ fetched file
    → file.skip offset ≡ none
    → limit < 2 ^ 63
    → get_content share path offset limit (fetched meta)
      ≡ fetched (meta, window offset limit file.content)
unfolding get_content
get_content-window share path offset limit meta file d size o s l =
    if-false meta.is_dir _ _ d ∙ elim (Bool-cases (leb meta.size offset)) [
      | inl behind ↦
          let short : length file.content ≤ offset = ground (arith, size, behind) in
          if-true (leb meta.size offset) _ _ behind
          ∙ rw (window_behind offset limit file.content short) refl
      | inr inside ↦
          if-false (leb meta.size offset) _ _ inside
          ∙ ap (read_from meta offset limit) o
          ∙ read_from-window meta offset limit file s l
    ]

-- A regular file that a share lets through and can open is given from the offset on, up to as many
-- bytes as the limit, 0 for all of them, where its size is that of its content and the limit is below
-- 2 ^ 63.
pub get_file-window :
    (share : DirShare) (c : ℕ) (path : Bytes) (offset limit : ℕ) (info : FileInfo) (file : Opened)
    → is_root (c ∷ path) ≡ false
    → path_ok share (c ∷ path) ≡ true
    → share_stat share (c ∷ path) ≡ fetched info
    → info.mode ≡ regular
    → share.fs.open_file path ≡ fetched file
    → info.size ≡ length file.content
    → info.size < 2 ^ 63
    → file.skip offset ≡ none
    → limit < 2 ^ 63
    → get_file share (c ∷ path) offset limit
      ≡ fetched (file_info_to_meta info, window offset limit file.content)
unfolding get_file
get_file-window share c path offset limit info file below through there m o size h s l =
    let (d, z) = file_info_to_meta-size info m h in
    rw (through, below, there)
      (get_content-window share path offset limit (file_info_to_meta info) file d (z ∙ size) o s l)
