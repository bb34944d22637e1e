-- ===== src/Common/Path/Tests.antt =====
-- common/path.go at concrete paths, most of them from common/path_test.go.
use friend_net.Prelude.{
  true, false, ◌≡◌, refl, ◌↔◌, some, List, [], ◌∷◌, Bytes, codes, index_byte, contains_byte, split,
  join, All, arith,
}
use friend_net.Common.Path.{
  ok, err, not_absolute, contains_dots, ends_with_slash, duplicate_slash, references_parent, slash,
  root, is_dots, or_path, validate_path, normalize_path, segments_to_path, join_paths,
}
use friend_net.Common.Path.Utf8.{valid_string}
use friend_net.Common.Path.Validate.{
  IsSegment, IsProtoPath, at_root, below_root, segments_error, validate_path-segments_error,
  validate_path-IsProtoPath,
}
use friend_net.Common.Path.Normalize.{normalize_path-IsProtoPath}
use friend_net.Common.Path.Parents.{Normalized, stays_inside, normalize_path_total}
use friend_net.Common.Path.Segments.{Written, join_paths_lem}

validate_examples :
    (validate_path (codes "/foo./.bar/..baz/baz..") ≡ ok (codes "/foo./.bar/..baz/baz.."))
    × (validate_path (codes "song.mp3") ≡ err not_absolute)
    × (validate_path (codes "/foo/bar/") ≡ err ends_with_slash)
    × (validate_path (codes "/pics//cats") ≡ err duplicate_slash)
    × (validate_path (codes "/foo/./bar") ≡ err contains_dots)
unfolding validate_path valid_string contains_byte index_byte
validate_examples = (refl, refl, refl, refl, refl)

normalize_examples :
    (normalize_path (codes "/foo/../bar//x/.") ≡ ok (codes "/bar/x"))
    × (normalize_path (codes "..") ≡ err references_parent)
unfolding normalize_path validate_path valid_string contains_byte index_byte split join
normalize_examples = (refl, refl)

-- `SegmentsToPath` does not look for a slash in a segment, nor for an empty segment.
segments_unchecked :
    (segments_to_path (codes "a/b" ∷ []) ≡ ok (codes "/a/b"))
    × (segments_to_path ([] ∷ codes "b" ∷ []) ≡ ok (codes "//b"))
unfolding segments_to_path valid_string contains_byte join
segments_unchecked = (refl, refl)

abbrev a_b : Bytes
a_b = codes "/a/b"

abbrev a_and_b : List Bytes
a_and_b = codes "a" ∷ codes "b" ∷ []

a_and_b-IsSegment : All IsSegment a_and_b
unfolding is_dots
a_and_b-IsSegment = (
  record {
    not_empty = λ e. cc;
    no_dots = (λ e. ground arith, λ e. ground arith);
    no_slash = omega arith;
  },
  (
    record {
      not_empty = λ e. cc;
      no_dots = (λ e. ground arith, λ e. ground arith);
      no_slash = omega arith;
    },
    tt,
  ),
)

a_b-IsProtoPath : IsProtoPath a_b
unfolding valid_string join
a_b-IsProtoPath = below_root (codes "a") (codes "b" ∷ []) refl a_and_b-IsSegment refl (omega arith)

validate_path-segments_error_example :
    validate_path a_b ≡ or_path (segments_error (split (codes "a/b") slash)) a_b
unfolding valid_string contains_byte
validate_path-segments_error_example =
    validate_path-segments_error (codes "a/b") (λ e. cc) refl refl

validate_path-IsProtoPath_example : (validate_path a_b ≡ ok a_b) ↔ (IsProtoPath a_b × (a_b ≡ a_b))
validate_path-IsProtoPath_example = validate_path-IsProtoPath a_b a_b

normalize_path-IsProtoPath_example : normalize_path a_b ≡ ok a_b
normalize_path-IsProtoPath_example = normalize_path-IsProtoPath a_b a_b-IsProtoPath

normalize_path_total_example :
    Normalized (codes "a/./b/../c") (stays_inside (split (codes "a/./b/../c") slash))
unfolding valid_string contains_byte
normalize_path_total_example = normalize_path_total (codes "a/./b/../c") (refl, refl)

stays_and_leaves :
    (stays_inside (split (codes "a/./b/../c") slash) ≡ true)
    × (stays_inside (split (codes "a/../../b") slash) ≡ false)
unfolding split
stays_and_leaves = (refl, refl)

join_paths_lem_example :
    (q : Bytes) × (join_paths (a_b ∷ root ∷ []) ≡ some q) × Written (a_b ∷ root ∷ []) q
join_paths_lem_example = join_paths_lem a_b (root ∷ []) (a_b-IsProtoPath, (at_root refl, tt))

-- Two roots are joined to the zero path.
join_roots : join_paths (root ∷ root ∷ []) ≡ some []
unfolding join_paths
join_roots = refl
