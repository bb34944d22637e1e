-- ===== src/Common/Path/Normalize.antt =====
-- What `NormalizePath` of common/path.go makes of a path.
use friend_net.Prelude.{
  ◌≡◌, refl, subst, ap, ◌∙◌, ◌↔◌, inl, inr, true, false, ◌||◌, Option, none, some, List, [], ◌∷◌,
  ◌++◌, Bytes, bytes_eq, bytes_eq_iff, contains_byte, contains_byte-append, contains_byte-Lacks,
  Lacks, split, join, append_assoc, append-nil, arith, Bool-cases, Option-cases, All, All-append,
}
use friend_net.Prelude.Split.{split-append, split-join}
use friend_net.Common.Path.{
  ok, slash, dot, dot_dot, root, is_dots, drop_last, resolve, normalize_path,
}
use friend_net.Common.Path.Utf8.{valid_string, valid_string-append}
use friend_net.Common.Path.Validate.{
  is_dots-false, IsSegment, IsProtoPath, at_root, below_root, All-no_slash, IsProtoPath-accepted,
  validate_path-IsProtoPath,
}

-- A segment is neither skipped nor a step up.
pub segment_kept :
    (s : Bytes)
    → IsSegment s
    → ((bytes_eq s [] || bytes_eq s dot) ≡ false) × (bytes_eq s dot_dot ≡ false)
unfolding is_dots
segment_kept s h = ground (arith, h.not_empty, (is_dots-false s).1 h.no_dots, bytes_eq_iff s [])

resolve_segments : (ss done : List Bytes) → All IsSegment ss → resolve ss done ≡ some (done ++ ss)
unfolding resolve
resolve_segments [] done h = rw append-nil
resolve_segments (s ∷ ss) done h =
    let (a, b) = segment_kept s h.0 in
    rw (a, b) (resolve_segments ss (done ++ s ∷ []) h.1 ∙ ap some (append_assoc done (s ∷ []) ss))

-- A well-formed path is its own normal form.
pub normalize_path-IsProtoPath : (path : Bytes) → IsProtoPath path → normalize_path path ≡ ok path
unfolding normalize_path
normalize_path-IsProtoPath path (at_root e) =
    rw e (unfold split resolve join in IsProtoPath-accepted root (at_root refl))
normalize_path-IsProtoPath path (below_root s ss e h v z) =
    let cut : split path slash ≡ [] ∷ s ∷ ss = rw e (
      split-append slash [] (join (s ∷ ss) slash) tt
      ∙ ap (◌∷◌ []) (split-join slash s ss (All-no_slash (s ∷ ss) h))) in
    let skipped : resolve ([] ∷ s ∷ ss) [] ≡ some (s ∷ ss) =
      unfold resolve in resolve_segments (s ∷ ss) [] h in
    rw (cut, normalize_path, skipped, ← e) (IsProtoPath-accepted path (below_root s ss e h v z))

normalized-IsProtoPath : (path q : Bytes) → normalize_path path ≡ ok q → IsProtoPath q
unfolding normalize_path
normalized-IsProtoPath path q h = elim (Option-cases (resolve (split path slash) [])) [
  | inl e ↦ absurd (cc)
  | inr (segments, e) ↦
      let (p, same) =
        (validate_path-IsProtoPath (slash ∷ join segments slash) q).0
          (rw (e, normalize_path) at h) in
      rw same p
]

-- What `NormalizePath` returns is a well-formed path, and normalizing it again changes nothing.
pub normalize_path_idem :
    (path q : Bytes) → normalize_path path ≡ ok q → IsProtoPath q × (normalize_path q ≡ ok q)
normalize_path_idem path q h =
    let p = normalized-IsProtoPath path q h in (p, normalize_path-IsProtoPath q p)

-- Valid UTF-8 with no null byte.
abbrev pub IsClean : Bytes → Type 0
IsClean s = (valid_string s ≡ true) × (contains_byte s 0 ≡ false)

pub IsClean-cut : (s t : Bytes) → IsClean (s ++ (slash ∷ t)) ↔ (IsClean s × IsClean t)
unfolding contains_byte
IsClean-cut s t = (
  λ h. ground (arith, h, valid_string-append s t slash, contains_byte-append s (slash ∷ t) 0),
  λ h. ground (arith, h, valid_string-append s t slash, contains_byte-append s (slash ∷ t) 0),
)

pub IsClean-join :
    (p : Bytes) (ps : List Bytes) → IsClean (join (p ∷ ps) slash) ↔ All IsClean (p ∷ ps)
unfolding join
IsClean-join p [] = (λ h. (h, tt), λ h. h.0)
IsClean-join p (q ∷ ps) = (
  λ h. let (a, b) = (IsClean-cut p (join (q ∷ ps) slash)).0 h in (a, (IsClean-join q ps).0 b),
  λ h. (IsClean-cut p (join (q ∷ ps) slash)).1 (h.0, (IsClean-join q ps).1 h.1),
)

-- A segment that the loop has kept.
abbrev pub IsKept : Bytes → Type 0
IsKept s = IsSegment s × IsClean s

pub All-drop_last : (ss : List Bytes) → All IsKept ss → All IsKept (drop_last ss)
unfolding drop_last
All-drop_last [] h = tt
All-drop_last (s ∷ []) h = tt
All-drop_last (s ∷ t ∷ ss) h = (h.0, All-drop_last (t ∷ ss) h.1)

-- A part that is neither skipped nor a step up is a segment.
pub part-IsSegment :
    (s : Bytes)
    → Lacks slash s
    → (bytes_eq s [] || bytes_eq s dot) ≡ false
    → bytes_eq s dot_dot ≡ false
    → IsSegment s
unfolding is_dots
part-IsSegment s l a b = record {
  not_empty = λ e. ground (arith, bytes_eq_iff s []);
  no_dots = (is_dots-false s).0 (ground arith);
  no_slash = l;
}

pub step_up :
    (done segments : List Bytes) (up : Option (List Bytes))
    → ◌≡◌ {A = Option (List Bytes)} (elim done [ [] ↦ none | d ∷ ds ↦ up ]) (some segments)
    → up ≡ some segments
step_up [] segments up e = cc
step_up (d ∷ ds) segments up e = e

pub resolve-IsKept :
    (parts done segments : List Bytes)
    → All (Lacks slash) parts
    → All IsClean parts
    → All IsKept done
    → resolve parts done ≡ some segments
    → All IsKept segments
unfolding resolve
resolve-IsKept [] done segments l c k e = subst (All IsKept) (ground arith) k
resolve-IsKept (s ∷ parts) done segments l c k e =
    elim (Bool-cases (bytes_eq s [] || bytes_eq s dot)) [
      | inl skip ↦ resolve-IsKept parts done segments l.1 c.1 k (rw skip at e)
      | inr keep ↦ elim (Bool-cases (bytes_eq s dot_dot)) [
        | inl up ↦
            resolve-IsKept parts (drop_last done) segments l.1 c.1 (All-drop_last done k)
              (step_up done segments _ (rw (keep, up) at e))
        | inr down ↦
            resolve-IsKept parts (done ++ s ∷ []) segments l.1 c.1
              (All-append IsKept done (s ∷ []) k ((part-IsSegment s l.0 keep down, c.0), tt))
              (rw (keep, down) at e)
      ]
    ]

pub All-fst : (ss : List Bytes) → All IsKept ss → All IsSegment ss × All IsClean ss
All-fst [] h = (tt, tt)
All-fst (s ∷ ss) h = let (a, b) = All-fst ss h.1 in ((h.0.0, a), (h.0.1, b))

pub IsSegment-IsProtoPath :
    (ss : List Bytes) → All IsSegment ss → All IsClean ss → IsProtoPath (slash ∷ join ss slash)
IsSegment-IsProtoPath [] h c = at_root (unfold join in refl)
IsSegment-IsProtoPath (s ∷ ss) h c =
    let (v, z) =
      (IsClean-cut [] (join (s ∷ ss) slash)).1
        ((unfold valid_string contains_byte in (refl, refl)), (IsClean-join s ss).1 c) in
    below_root s ss refl h v ((contains_byte-Lacks _ 0).0 z)

pub kept-IsProtoPath : (ss : List Bytes) → All IsKept ss → IsProtoPath (slash ∷ join ss slash)
kept-IsProtoPath ss h = let (a, c) = All-fst ss h in IsSegment-IsProtoPath ss a c
