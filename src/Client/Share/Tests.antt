-- ===== src/Client/Share/Tests.antt =====
-- client/share/share.go: a share with a file, and a link beside it.
use friend_net.Prelude.{
  ◌≡◌, refl, false, none, [], ◌∷◌, Bytes, bytes_eq, codes, split, join, if◌then◌else◌, arith, All,
}
use friend_net.Common.Path.{is_root, to_segments}
use friend_net.Client.Share.{
  not_exist, Fetched, failed, fetched, regular, symlink, dir, FileInfo, Opened, DirShare,
  file_info_to_meta, share_stat, path_ok, get_file_meta, get_file, dir_files,
}
use friend_net.Client.Share.Links.{IsPlainAt, paths_to, share_no_links}
use friend_net.Client.Share.Window.{get_file-window}

abbrev folder : FileInfo
folder = record { name = codes "a"; mode = dir; size = 4096 }

abbrev song : FileInfo
song = record { name = codes "song"; mode = regular; size = 5 }

abbrev link : FileInfo
link = record { name = codes "link"; mode = symlink; size = 3 }

abbrev song_file : Opened
song_file = record { content = 1 ∷ 2 ∷ 3 ∷ 4 ∷ 5 ∷ []; skip = λ n. none }

abbrev info_at : Bytes → Fetched FileInfo
info_at path =
    if bytes_eq path (codes "a")
    then fetched folder
    else if bytes_eq path (codes "a/song")
    then fetched song
    else if bytes_eq path (codes "a/link")
    then fetched link
    else failed not_exist

abbrev music : DirShare
music = record {
  name = codes "music";
  follow_links = false;
  fs = record {
    stat = info_at;
    lstat = info_at;
    read_dir = λ path. fetched (
        record { name = codes "song"; info = fetched song }
        ∷ record { name = codes "link"; info = fetched link }
        ∷ []);
    open_file = λ path. fetched song_file;
  };
}

link_hidden : get_file music (codes "/a/link") 0 0 ≡ failed not_exist
unfolding is_root get_file to_segments split join
link_hidden = refl

listing : dir_files music (codes "/a") ≡ fetched (file_info_to_meta song ∷ [])
unfolding is_root dir_files to_segments split join file_info_to_meta
listing = refl

share_no_links_example : All (IsPlainAt music.fs) (paths_to [] (codes "a" ∷ codes "song" ∷ []))
unfolding is_root
share_no_links_example =
    share_no_links music (codes "/a/song") (codes "a" ∷ codes "song" ∷ []) 1 2 refl
      (unfold to_segments in unfold split in refl)
      (unfold get_file in
        unfold get_file_meta in unfold to_segments in unfold split in unfold join in refl)

get_file-window_example :
    get_file music (codes "/a/song") 1 2 ≡ fetched (file_info_to_meta song, 2 ∷ 3 ∷ [])
unfolding is_root
get_file-window_example =
    get_file-window music 47 (codes "a/song") 1 2 song song_file refl
      (unfold path_ok in unfold to_segments in unfold split in unfold join in refl)
      (unfold share_stat in refl) refl refl refl (omega arith) refl (omega arith)
