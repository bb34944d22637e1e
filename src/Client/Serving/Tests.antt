-- ===== src/Client/Serving/Tests.antt =====
-- client/room/logic.go: a client with one share.
use friend_net.Prelude.{
  ℕ, ◌≡◌, refl, true, false, none, [], ◌∷◌, bytes_eq, codes, if◌then◌else◌, arith, split, join,
  contains_byte, index_byte, ◌≢◌,
}
use friend_net.Common.Path.{root, is_root, validate_path, segments_to_path, to_segments}
use friend_net.Common.Path.Utf8.{valid_string}
use friend_net.Common.Path.Validate.{IsSegment}
use friend_net.Client.Share.{not_exist, failed, fetched, FileMeta}
use friend_net.Client.Serving.{
  Share, ShareManager, share_by_name, no_such_path, page, file_meta_reply, content, PeerStream,
  send_dir_files, on_get_file, on_get_dir_files,
}
use friend_net.Client.Serving.Pages.{IsPaged, send_dir_files-IsPaged}
use friend_net.Client.Serving.Content.{on_get_file_content}

abbrev song : FileMeta
song = record { name = codes "b"; is_dir = false; size = 3 }

abbrev music : Share
music = record {
  file_meta = λ path. fetched song;
  files = λ path. fetched (song ∷ []);
  file = λ path offset limit.
      if bytes_eq path (codes "/b") then fetched (song, 7 ∷ 8 ∷ 9 ∷ []) else failed not_exist;
}

abbrev shares : ShareManager
shares = record { is_closed = false; share_map = (codes "a", music) ∷ [] }

abbrev idle : PeerStream
idle = record { sent = []; left = 2; aborts = false }

no_file :
    on_get_file shares (codes "/a/c") 0 0 idle
    ≡ (record { sent = no_such_path (codes "/a/c") ∷ []; left = 1; aborts = false }, none)
unfolding on_get_file is_root validate_path segments_to_path to_segments split join valid_string
    contains_byte index_byte
no_file = refl

at_the_top : on_get_dir_files shares root idle ≡ (
  record {
    sent = page (record { name = codes "a"; is_dir = true; size = 0 } ∷ []) ∷ [];
    left = 1;
    aborts = false;
  },
  none,
)
unfolding on_get_dir_files is_root validate_path
at_the_top = refl

one_byte : (c : ℕ) → c ≢ 46 → c ≢ 47 → IsSegment (c ∷ [])
one_byte c dot slash = record {
  not_empty = λ e. cc;
  no_dots = (λ e. ground (arith, dot, e), λ e. cc);
  no_slash = (slash, tt);
}

send_dir_files-IsPaged_example :
    IsPaged (song ∷ song ∷ []) idle (send_dir_files (song ∷ song ∷ []) idle)
send_dir_files-IsPaged_example = send_dir_files-IsPaged (song ∷ song ∷ []) idle

on_get_file_content_example : on_get_file shares (codes "/a/b") 0 0 idle ≡ (
  record { sent = file_meta_reply song ∷ content (7 ∷ 8 ∷ 9 ∷ []) ∷ []; left = 0; aborts = false },
  none,
)
unfolding valid_string contains_byte
on_get_file_content_example =
    on_get_file_content shares (codes "a") (codes "b" ∷ []) (codes "/a/b") (codes "/b") music song
      (7 ∷ 8 ∷ 9 ∷ []) 0 0 idle
      (one_byte 97 (ground arith) (ground arith), (one_byte 98 (ground arith) (ground arith), tt))
      ((refl, refl), ((refl, refl), tt)) (unfold segments_to_path in unfold join in refl)
      (unfold segments_to_path in unfold join in refl) (unfold share_by_name in refl) refl refl
      (omega arith)
