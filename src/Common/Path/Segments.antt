-- ===== src/Common/Path/Segments.antt =====
-- `ToSegments`, `SegmentsToPath` and `JoinPaths` of common/path.go.
use friend_net.Prelude.{
  ◌≡◌, refl, subst, sym, ap, ◌∙◌, ◌≢◌, ◌⊎◌, inl, inr, true, none, some, List, [], ◌∷◌, ◌++◌, Bytes,
  bytes_eq_iff, contains_byte-Lacks, Lacks, join, append_assoc, append-nil, arith, All, All-append,
}
use friend_net.Prelude.Split.{split-join}
use friend_net.Common.Path.{
  ok, slash, root, check_each, segments_to_path, to_segments, is_zero, is_root, write_paths,
  join_paths,
}
use friend_net.Common.Path.Utf8.{valid_string}
use friend_net.Common.Path.Validate.{
  is_dots-false, IsSegment, IsProtoPath, at_root, below_root, All-no_slash, join-ne-nil,
}
use friend_net.Common.Path.Normalize.{IsClean, IsClean-cut, IsClean-join, IsSegment-IsProtoPath}

check_each-none : (ss : List Bytes) → All IsSegment ss → All IsClean ss → check_each ss ≡ none
unfolding check_each
check_each-none [] h c = refl
check_each-none (s ∷ ss) h c =
    ground (arith, c.0, (is_dots-false s).1 h.0.no_dots, check_each-none ss h.1 c.1)

to_segments-join :
    (s : Bytes) (ss : List Bytes)
    → All IsSegment (s ∷ ss)
    → to_segments (slash ∷ join (s ∷ ss) slash) ≡ some (s ∷ ss)
unfolding to_segments
to_segments-join s ss h = ground (
  arith,
  bytes_eq_iff (slash ∷ join (s ∷ ss) slash) root,
  join-ne-nil s ss h.0.not_empty,
  split-join slash s ss (All-no_slash (s ∷ ss) h),
)

-- The parts of a clean path are clean.
IsClean-parts :
    (path s : Bytes) (ss : List Bytes)
    → path ≡ slash ∷ join (s ∷ ss) slash
    → valid_string path ≡ true
    → Lacks 0 path
    → All IsClean (s ∷ ss)
IsClean-parts path s ss e v z =
    let c : IsClean path = (v, (contains_byte-Lacks path 0).1 z) in
    (IsClean-join s ss).0 ((IsClean-cut [] (join (s ∷ ss) slash)).0 (subst IsClean e c)).1

-- The segments of a well-formed path are well formed, and `SegmentsToPath` makes the same path of
-- them again.
pub segments_to_path-to_segments :
    (path : Bytes)
    → IsProtoPath path
    → (ss : List Bytes) × (to_segments path ≡ some ss)
      × All IsSegment ss
      × (segments_to_path ss ≡ ok path)
unfolding segments_to_path
segments_to_path-to_segments path (at_root e) =
    ([], rw e (unfold to_segments in refl), tt, rw e refl)
segments_to_path-to_segments path (below_root s ss e h v z) =
    let c = IsClean-parts path s ss e v z in
    (s ∷ ss, rw e (to_segments-join s ss h), h, rw (check_each-none (s ∷ ss) h c, e) refl)

-- Well-formed segments make a well-formed path, and `ToSegments` finds the same segments in it.
pub to_segments-segments_to_path :
    (ss : List Bytes)
    → All IsSegment ss
    → All IsClean ss
    → (path : Bytes) × (segments_to_path ss ≡ ok path)
      × IsProtoPath path
      × (to_segments path ≡ some ss)
unfolding segments_to_path
to_segments-segments_to_path [] h c = (root, refl, at_root refl, unfold to_segments in refl)
to_segments-segments_to_path (s ∷ ss) h c = (
  slash ∷ join (s ∷ ss) slash,
  rw (check_each-none (s ∷ ss) h c),
  IsSegment-IsProtoPath (s ∷ ss) h c,
  to_segments-join s ss h,
)

-- Joining lists of segments joins the texts, with one slash between them.
join-append :
    (s : Bytes) (ss : List Bytes) (t : Bytes) (ts : List Bytes)
    → join ((s ∷ ss) ++ t ∷ ts) slash ≡ join (s ∷ ss) slash ++ (slash ∷ join (t ∷ ts) slash)
unfolding join
join-append s [] t ts = refl
join-append s (q ∷ ss) t ts =
    ap (λ l. s ++ (slash ∷ l)) (join-append q ss t ts)
    ∙ sym (append_assoc s (slash ∷ join (q ∷ ss) slash) (slash ∷ join (t ∷ ts) slash))

IsProtoPath-append :
    (p q : Bytes) → IsProtoPath p → p ≢ root → IsProtoPath q → q ≢ root → IsProtoPath (p ++ q)
IsProtoPath-append p q (at_root e) a h b = absurd (a e)
IsProtoPath-append p q (below_root s ss e hs v z) a (at_root f) b = absurd (b f)
IsProtoPath-append p q (below_root s ss e hs v z) a (below_root t ts f ht w y) b =
    let cp = IsClean-parts p s ss e v z in
    let cq = IsClean-parts q t ts f w y in
    let whole =
      IsSegment-IsProtoPath ((s ∷ ss) ++ t ∷ ts) (All-append IsSegment (s ∷ ss) (t ∷ ts) hs ht)
        (All-append IsClean (s ∷ ss) (t ∷ ts) cp cq) in
    rw (e, f) (rw (join-append s ss t ts) at whole)

-- Every path so far was the root, and nothing is written; or what is written is a path, not the root.
abbrev pub Written : List Bytes → Bytes → Type 0
Written ps q = ((q ≡ []) × All (λ p. p ≡ root) ps) ⊎ (IsProtoPath q × (q ≢ root))

below-ne-root :
    (s : Bytes) (ss : List Bytes) (q : Bytes)
    → IsSegment s
    → (slash ∷ join (s ∷ ss) slash) ++ q ≢ root
below-ne-root s ss q h = go (join (s ∷ ss) slash) (join-ne-nil s ss h.not_empty)
  where
    go : (t : Bytes) → t ≢ [] → (slash ∷ t) ++ q ≢ root
    go [] a = absurd (a refl)
    go (c ∷ t) a = λ e. cc

Written-below :
    (p : Bytes) (ps : List Bytes) (q s : Bytes) (ss : List Bytes)
    → p ≡ slash ∷ join (s ∷ ss) slash
    → IsSegment s
    → IsProtoPath p
    → Written ps q
    → Written (p ∷ ps) (p ++ q)
Written-below p ps q s ss e h w (inl (n, roots)) =
    inr (rw (n, append-nil p) w, rw e (below-ne-root s ss q h))
Written-below p ps q s ss e h w (inr (v, ne)) =
    let p_ne : p ≢ root = rw e (rw append-nil at (below-ne-root s ss [] h)) in
    inr (IsProtoPath-append p q w p_ne v ne, rw e (below-ne-root s ss q h))

Written-root :
    (p : Bytes) (ps : List Bytes) (q : Bytes) → p ≡ root → Written ps q → Written (p ∷ ps) q
Written-root p ps q e (inl (n, roots)) = inl (n, (e, roots))
Written-root p ps q e (inr w) = inr w

-- The text that the second loop of `JoinPaths` has written for well-formed paths.
write_paths_lem :
    (ps : List Bytes) → All IsProtoPath ps → (q : Bytes) × (write_paths ps ≡ some q) × Written ps q
unfolding write_paths is_zero is_root
write_paths_lem [] h = ([], refl, inl (refl, tt))
write_paths_lem (p ∷ ps) (at_root e, h) =
    let (q, w, alt) = write_paths_lem ps h in (q, rw (e, w) refl, Written-root p ps q e alt)
write_paths_lem (p ∷ ps) (below_root s ss e hs v z, h) =
    let (q, w, alt) = write_paths_lem ps h in
    let ne = bytes_eq_iff (slash ∷ join (s ∷ ss) slash) root in
    (
      p ++ q,
      rw (e, w) (ground (arith, ne, join-ne-nil s ss hs.0.not_empty)),
      Written-below p ps q s ss e hs.0 (below_root s ss e hs v z) alt,
    )

-- Joining one or more well-formed paths never panics. The result is well formed, but where every
-- path is the root it is the zero path, which is no path at all.
pub join_paths_lem :
    (p : Bytes) (ps : List Bytes)
    → All IsProtoPath (p ∷ ps)
    → (q : Bytes) × (join_paths (p ∷ ps) ≡ some q) × Written (p ∷ ps) q
unfolding join_paths
join_paths_lem p ps h = write_paths_lem (p ∷ ps) h
