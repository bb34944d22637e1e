-- ===== src/Client/Serving/Content.antt =====
-- client/room/logic.go: how OnGetFile finds the share and the file of a path.
use friend_net.Prelude.{
  ℕ, zero, suc, ◌-◌, ◌≤◌, ◌≡◌, refl, ◌∙◌, sym, inl, inr, Bool, false, none, some, List, [], ◌∷◌,
  ◌++◌, append_assoc, Bytes, arith, All, Bool-cases,
}
use friend_net.Common.Path.{ok, validate_path, segments_to_path, to_segments, is_root}
use friend_net.Common.Path.Validate.{IsSegment, validate_path-IsProtoPath}
use friend_net.Common.Path.Normalize.{IsClean}
use friend_net.Common.Path.Segments.{to_segments-segments_to_path}
use friend_net.Client.Share.{fetched, FileMeta}
use friend_net.Client.Share.Links.{if-false, to_segments-root}
use friend_net.Client.Serving.{
  Share, ShareManager, share_by_name, PeerReply, file_meta_reply, content, PeerStream, in_share,
  resolve_share_and_path, put, send_file, on_get_file,
}

resolve_share_and_path_lem :
    (m : ShareManager) (name : Bytes) (ss : List Bytes) (path inner : Bytes) (share : Share)
    → is_root path ≡ false
    → to_segments path ≡ some (name ∷ ss)
    → segments_to_path ss ≡ ok inner
    → share_by_name m name ≡ some share
    → resolve_share_and_path m path ≡ in_share share inner
unfolding resolve_share_and_path
resolve_share_and_path_lem m name ss path inner share r e i h =
    if-false (is_root path) _ _ r ∙ rw (e, i, h) refl

-- Below the root, the segments of a path are the ones it was made of.
path_of_segments :
    (name : Bytes) (ss : List Bytes) (path : Bytes)
    → All IsSegment (name ∷ ss)
    → All IsClean (name ∷ ss)
    → segments_to_path (name ∷ ss) ≡ ok path
    → (validate_path path ≡ ok path)
      × (to_segments path ≡ some (name ∷ ss))
      × (is_root path ≡ false)
path_of_segments name ss path h c e =
    let (q, f, v, t) = to_segments-segments_to_path (name ∷ ss) h c in
    let same : q ≡ path = cc in
    let seg : to_segments path ≡ some (name ∷ ss) = rw (sym same) t in
    (
      (validate_path-IsProtoPath path path).1 (rw (sym same) v, refl),
      seg,
      elim (Bool-cases (is_root path)) [
        | inl at_root ↦ let none_left = to_segments-root path (name ∷ ss) at_root seg in cc
        | inr below ↦ below
      ],
    )

send_file_lem :
    (meta : FileMeta) (bytes : Bytes) (sent : List PeerReply) (left : ℕ) (aborts : Bool)
    → meta.is_dir ≡ false
    → 2 ≤ left
    → send_file (meta, bytes) (record { sent = sent; left = left; aborts = aborts }) ≡ (
      record {
        sent = sent ++ file_meta_reply meta ∷ content bytes ∷ [];
        left = left - 2;
        aborts = aborts;
      },
      none,
    )
unfolding send_file put
send_file_lem meta bytes sent zero aborts d h = absurd (omega arith)
send_file_lem meta bytes sent (suc zero) aborts d h = absurd (omega arith)
send_file_lem meta bytes sent (suc (suc left)) aborts d h =
    let two_less : suc (suc left) - 2 ≡ left = omega arith in
    if-false meta.is_dir _ _ d
    ∙ rw (two_less, append_assoc sent (file_meta_reply meta ∷ []) (content bytes ∷ [])) refl

-- A path whose first segment is the name of a share, and whose others name a file in it, is answered
-- with the metadata and the content that the share gives for the path of those other segments, where
-- the stream takes two more writes.
pub on_get_file_content :
    (m : ShareManager) (name : Bytes) (ss : List Bytes) (path inner : Bytes) (share : Share)
    → (meta : FileMeta) (bytes : Bytes) (offset limit : ℕ) (s : PeerStream)
    → All IsSegment (name ∷ ss)
    → All IsClean (name ∷ ss)
    → segments_to_path (name ∷ ss) ≡ ok path
    → segments_to_path ss ≡ ok inner
    → share_by_name m name ≡ some share
    → share.file inner offset limit ≡ fetched (meta, bytes)
    → meta.is_dir ≡ false
    → 2 ≤ s.left
    → on_get_file m path offset limit s ≡ (
      record s { sent = s.sent ++ file_meta_reply meta ∷ content bytes ∷ []; left = s.left - 2 },
      none,
    )
unfolding on_get_file
on_get_file_content m name ss path inner share meta bytes offset limit s h c e i found f d l =
    let (v, t, below) = path_of_segments name ss path h c e in
    rw (v, resolve_share_and_path_lem m name ss path inner share below t i found, f)
      (send_file_lem meta bytes s.sent s.left s.aborts d l)
