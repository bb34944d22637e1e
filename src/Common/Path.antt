-- ===== src/Common/Path.antt =====
-- common/path.go: protocol paths. A string is its list of bytes, an error its code.
pub mod Utf8
pub mod Validate
pub mod Normalize
pub mod Parents
pub mod Segments
mod Tests
use mathlib.Core.Option
use friend_net.Prelude.{
  ℕ, zero, suc, ◌+◌, ◌-◌, Bool, true, false, ◌||◌, not, ◌≡◌, refl, Option, none, some, List, [],
  ◌∷◌, ◌++◌, Bytes, codes, bytes_eq, index_byte, contains_byte, split, join, length, take, drop,
  ◌==◌, if◌then◌else◌,
}
use Utf8.{valid_string}

pub data PathErrCode : Type 0 where
  blank invalid_utf8 null_byte not_absolute contains_dots ends_with_slash : PathErrCode
  duplicate_slash references_parent : PathErrCode

-- A `(ProtoPath, error)` result.
pub data Result {ℓ} (A : Type ℓ) : Type ℓ where
  ok : A → Result A
  err : PathErrCode → Result A

abbrev pub slash : ℕ
slash = b'/'

abbrev pub dot : Bytes
dot = codes "."

abbrev pub dot_dot : Bytes
dot_dot = codes ".."

abbrev pub root : Bytes
root = slash ∷ []

unfoldable pub is_dots : Bytes → Bool
is_dots segment = bytes_eq segment dot || bytes_eq segment dot_dot

-- s[from:to]
abbrev pub slice : Bytes → ℕ → ℕ → Bytes
slice s from to = take (to - from) (drop from s)

-- What a round of the loop checks in front of `slash_idx`: that the first slash is at index 0, and
-- then that the segment that ends there is not empty and not made of dots. `next` is
-- `lastSlashIdx + 1`, so that its first value -1 is 0.
pub check_segment : Bytes → ℕ → ℕ → ℕ → Option PathErrCode
check_segment path idx next slash_idx =
    if idx == 0
    then (if slash_idx == 0 then none else some not_absolute)
    else if slash_idx == next
    then some duplicate_slash
    else if is_dots (slice path next slash_idx)
    then some contains_dots
    else none

-- The loop of `ValidatePath`, where `none` is its `break`. Each round but the last moves `idx`
-- behind one more slash, so fuel above the number of bytes is never used up.
pub check_slashes : ℕ → Bytes → ℕ → ℕ → Option PathErrCode
check_slashes zero path idx next = none
check_slashes (suc fuel) path idx next = elim (index_byte (drop idx path) slash) [
  | none ↦ check_segment path idx next (length path)
  | some k ↦
      if k + idx + 1 == length path
      then some ends_with_slash
      else elim (check_segment path idx next (k + idx)) [
        | none ↦ check_slashes fuel path (k + idx + 1) (k + idx + 1)
        | some e ↦ some e
      ]
]

abbrev pub or_path : Option PathErrCode → Bytes → Result Bytes
or_path none path = ok path
or_path (some e) path = err e

unfoldable pub validate_path : Bytes → Result Bytes
unfolding check_slashes check_segment is_dots
validate_path path =
    if bytes_eq path []
    then err blank
    else if bytes_eq path root
    then ok root
    else if not (valid_string path)
    then err invalid_utf8
    else if contains_byte path 0
    then err null_byte
    else or_path (check_slashes (length path + 1) path 0 0) path

-- The loop of `SegmentsToPath`, which checks each segment in turn.
pub check_each : List Bytes → Option PathErrCode
check_each [] = none
check_each (segment ∷ rest) =
    let later = check_each rest in
    if not (valid_string segment)
    then some invalid_utf8
    else if contains_byte segment 0
    then some null_byte
    else if is_dots segment
    then some contains_dots
    else later

unfoldable pub segments_to_path : List Bytes → Result Bytes
unfolding check_each is_dots
segments_to_path [] = ok root
segments_to_path (s ∷ ss) = or_path (check_each (s ∷ ss)) (slash ∷ join (s ∷ ss) slash)

-- segments[:len(segments)-1]
pub drop_last : List Bytes → List Bytes
drop_last [] = []
drop_last (s ∷ []) = []
drop_last (s ∷ t ∷ ss) = s ∷ drop_last (t ∷ ss)

-- The loop of `NormalizePath` over the parts; `none` is the error for a parent of the root.
pub resolve : List Bytes → List Bytes → Option (List Bytes)
resolve [] segments = some segments
resolve (part ∷ parts) segments =
    let skip = resolve parts segments in
    let up = resolve parts (drop_last segments) in
    let down = resolve parts (segments ++ part ∷ []) in
    if bytes_eq part [] || bytes_eq part dot
    then skip
    else if bytes_eq part dot_dot
    then elim segments [ [] ↦ none | s ∷ ss ↦ up ]
    else down

unfoldable pub normalize_path : Bytes → Result Bytes
unfolding resolve drop_last
normalize_path path = elim (resolve (split path slash) []) [
  | none ↦ err references_parent
  | some segments ↦ validate_path (slash ∷ join segments slash)
]

-- ProtoPath.IsZero, IsRoot and ToSegments; `none` is the panic on the zero value.
unfoldable pub is_zero : Bytes → Bool
is_zero path = bytes_eq path []

unfoldable pub is_root : Bytes → Bool
is_root path = bytes_eq path root

unfoldable pub to_segments : Bytes → Option (List Bytes)
to_segments [] = none
to_segments (c ∷ path) = if bytes_eq (c ∷ path) root then some [] else some (split path slash)

-- `JoinPaths`: the first loop calls String() on each path, which panics on a zero path.
pub write_paths : List Bytes → Option Bytes
write_paths [] = some []
write_paths (path ∷ paths) =
    let rest = write_paths paths in
    if is_zero path
    then none
    else Option.map (λ out. if is_root path then out else path ++ out) rest

unfoldable pub join_paths : List Bytes → Option Bytes
unfolding write_paths is_zero is_root
join_paths [] = some root
join_paths (p ∷ ps) = write_paths (p ∷ ps)
