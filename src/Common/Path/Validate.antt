-- ===== src/Common/Path/Validate.antt =====
-- What `ValidatePath` of common/path.go accepts.
use friend_net.Prelude.{
  ℕ, zero, suc, ◌+◌, ◌-◌, ◌<◌, ◌≡◌, refl, sym, ap, ◌∙◌, ◌≢◌, ◌↔◌, inl, inr, true, false, Option,
  none, some, List, [], ◌∷◌, ◌++◌, Bytes, bytes_eq, bytes_eq_iff, index_byte, contains_byte,
  contains_byte-Lacks, Lacks, split, join, length, drop, length-append, drop-append, take-append,
  append-nil, append_assoc, arith, ◌==◌, Bool-cases, All, if◌then◌else◌,
}
use friend_net.Prelude.Split.{
  split_cons, All-split, split-Lacks, split-append, split-join, join-split, absent, found,
  first_index,
}
use friend_net.Common.Path.{
  PathErrCode, contains_dots, ends_with_slash, duplicate_slash, ok, slash, root, is_dots, dot,
  dot_dot, slice, check_segment, check_slashes, or_path, validate_path,
}
use friend_net.Common.Path.Utf8.{valid_string}

-- A path segment: not empty, not made of dots, with no slash.
pub record IsSegment (s : Bytes) : Type 0 where
  pub not_empty : s ≢ []
  pub no_dots : (s ≢ dot) × (s ≢ dot_dot)
  pub no_slash : Lacks slash s

pub is_dots-false : (s : Bytes) → (is_dots s ≡ false) ↔ ((s ≢ dot) × (s ≢ dot_dot))
unfolding is_dots
is_dots-false s = (
  λ e. (λ a. ground (arith, bytes_eq_iff s dot, e), λ b. ground (arith, bytes_eq_iff s dot_dot, e)),
  λ n. ground (arith, bytes_eq_iff s dot, bytes_eq_iff s dot_dot, n.0, n.1),
)

-- The check of one segment, and of the segments behind the first slash in turn.
pub segment_error : Bytes → Option PathErrCode
segment_error s =
    if bytes_eq s [] then some duplicate_slash else if is_dots s then some contains_dots else none

abbrev or_else : Option PathErrCode → Option PathErrCode → Option PathErrCode
or_else none later = later
or_else (some e) later = some e

-- An empty last segment is reported before the segment in front of it.
pub segments_error : List Bytes → Option PathErrCode
unfolding segment_error
segments_error [] = none
segments_error (s ∷ []) = segment_error s
segments_error (s ∷ [] ∷ []) = some ends_with_slash
segments_error (s ∷ t ∷ ss) = or_else (segment_error s) (segments_error (t ∷ ss))

segments_error_cut :
    (s : Bytes) (x : ℕ) (rest : Bytes)
    → segments_error (s ∷ split (x ∷ rest) slash)
      ≡ or_else (segment_error s) (segments_error (split (x ∷ rest) slash))
unfolding segments_error split
segments_error_cut s x rest = elim (Bool-cases (x == slash)) [
  | inl e ↦ let (p, ps, h) = split_cons slash rest in rw (e, h)
  | inr e ↦ let (p, ps, h) = split_cons slash rest in rw (e, h)
]

segments_error_end : (s : Bytes) → segments_error (s ∷ split [] slash) ≡ some ends_with_slash
unfolding segments_error split
segments_error_end s = refl

-- The bytes between the last slash and the next one are the segment that is checked.
slice_segment :
    (front p tail : Bytes) (n : ℕ)
    → n ≡ length front
    → slice (front ++ (p ++ tail)) n (length p + n) ≡ p
slice_segment front p tail n e =
    rw (e, drop-append front (p ++ tail))
      (let l : length p + length front - length front ≡ length p = omega arith in
        rw l (take-append p tail))

check_segment-segment_error :
    (front p tail : Bytes) (n : ℕ)
    → 0 < n
    → n ≡ length front
    → check_segment (front ++ (p ++ tail)) n n (length p + n) ≡ segment_error p
unfolding check_segment segment_error
check_segment-segment_error front [] tail n pos e = ground arith
check_segment-segment_error front (x ∷ p) tail n pos e =
    ground (arith, slice_segment front (x ∷ p) tail n e)

check_segment_last :
    (front rest : Bytes) (n : ℕ)
    → 0 < n
    → n ≡ length front
    → check_segment (front ++ rest) n n (length (front ++ rest)) ≡ segment_error rest
check_segment_last front rest n pos e =
    let base = rw append-nil at (check_segment-segment_error front rest [] n pos e) in
    let l : length (front ++ rest) ≡ length rest + n = omega (arith, length-append front rest) in
    rw l base

-- The text up to and with the slash that ends the segment `p`.
regroup :
    (front p later : Bytes)
    → (front ++ (p ++ (slash ∷ []))) ++ later ≡ front ++ (p ++ (slash ∷ later))
regroup front p later = simp append_assoc

length_regroup :
    (front p later : Bytes)
    → length (front ++ (p ++ (slash ∷ later))) ≡ length front + length p + 1 + length later
length_regroup front p later =
    omega (arith, length-append front (p ++ (slash ∷ later)), length-append p (slash ∷ later))

cut_step :
    (fuel : ℕ) (front p later : Bytes) (n : ℕ)
    → 0 < n
    → n ≡ length front
    → check_slashes fuel (front ++ (p ++ (slash ∷ later))) (length p + n + 1) (length p + n + 1)
      ≡ segments_error (split later slash)
    → Lacks slash p
    → index_byte (p ++ (slash ∷ later)) slash ≡ some (length p)
    → check_slashes (suc fuel) (front ++ (p ++ (slash ∷ later))) n n
      ≡ segments_error (split (p ++ (slash ∷ later)) slash)
unfolding check_slashes
cut_step fuel front p [] n pos e ih l h =
    let d : drop n (front ++ (p ++ (slash ∷ []))) ≡ p ++ (slash ∷ []) =
      rw e (drop-append front (p ++ (slash ∷ []))) in
    rw (d, h, check_slashes, split-append slash p [] l)
      (ground (arith, length_regroup front p [], segments_error_end p))
cut_step fuel front p (x ∷ later) n pos e ih l h =
    let d : drop n (front ++ (p ++ (slash ∷ x ∷ later))) ≡ p ++ (slash ∷ x ∷ later) =
      rw e (drop-append front (p ++ (slash ∷ x ∷ later))) in
    rw (split-append slash p (x ∷ later) l, segments_error_cut p x later, d, h, check_slashes)
      (ground (
        arith,
        length_regroup front p (x ∷ later),
        ih,
        check_segment-segment_error front p (slash ∷ x ∷ later) n pos e,
      ))

check_slashes-segments_error :
    (fuel : ℕ) (front rest : Bytes) (n : ℕ)
    → 0 < n
    → n ≡ length front
    → length rest < fuel
    → check_slashes fuel (front ++ rest) n n ≡ segments_error (split rest slash)
check_slashes-segments_error zero front rest n pos e fits = absurd (omega arith)
check_slashes-segments_error (suc fuel) front rest n pos e fits = elim (first_index slash rest) [
  | absent h l ↦
      let d : drop n (front ++ rest) ≡ rest = rw e (drop-append front rest) in
      unfold check_slashes segments_error in
      rw (d, h, check_slashes, split-Lacks slash rest l) (check_segment_last front rest n pos e)
  | found p later q l h ↦
      let shorter : length p + 1 + length later ≡ length rest =
        omega (arith, ap length q, length-append p (slash ∷ later)) in
      let ih =
        check_slashes-segments_error fuel (front ++ (p ++ (slash ∷ []))) later (length p + n + 1)
          (omega arith)
          (omega (arith, length_regroup front p [], length-append front (p ++ (slash ∷ []))))
          (omega arith) in
      rw q (cut_step fuel front p later n pos e (rw (regroup front p later) at ih) l (rw q at h))
]

-- Behind the first slash, the loop of `ValidatePath` reports the first error of the segments.
pub validate_path-segments_error :
    (rest : Bytes)
    → rest ≢ []
    → valid_string (slash ∷ rest) ≡ true
    → contains_byte (slash ∷ rest) 0 ≡ false
    → validate_path (slash ∷ rest) ≡ or_path (segments_error (split rest slash)) (slash ∷ rest)
unfolding validate_path check_slashes check_segment index_byte
validate_path-segments_error [] h v z = absurd (h refl)
validate_path-segments_error (x ∷ rest) h v z = ground (
  arith,
  check_slashes-segments_error (suc (suc (length rest))) (slash ∷ []) (x ∷ rest) 1 (omega arith)
      refl (omega arith),
)

segment_error-none : (s : Bytes) → Lacks slash s → (segment_error s ≡ none) ↔ IsSegment s
unfolding segment_error
segment_error-none [] l = (λ h. cc, λ h. absurd (h.not_empty refl))
segment_error-none (x ∷ s) l = (
  λ h. record {
    not_empty = λ e. cc;
    no_dots = (is_dots-false (x ∷ s)).0 (ground arith);
    no_slash = l;
  },
  λ h. ground (arith, (is_dots-false (x ∷ s)).1 h.no_dots),
)

or_else-none : (a b : Option PathErrCode) → or_else a b ≡ none → (a ≡ none) × (b ≡ none)
or_else-none none b h = (refl, h)
or_else-none (some e) b h = cc

segments_error-none :
    (s : Bytes) (ss : List Bytes)
    → All (Lacks slash) (s ∷ ss)
    → (segments_error (s ∷ ss) ≡ none) ↔ All IsSegment (s ∷ ss)
unfolding segments_error
segments_error-none s [] l =
    (λ h. ((segment_error-none s l.0).0 h, tt), λ h. (segment_error-none s l.0).1 h.0)
segments_error-none s ([] ∷ []) l = (λ h. cc, λ h. absurd (h.1.0.not_empty refl))
segments_error-none s ([] ∷ t ∷ ss) l = (
  λ h.
      let (a, b) = or_else-none (segment_error s) (segments_error ([] ∷ t ∷ ss)) h in
      ((segment_error-none s l.0).0 a, (segments_error-none [] (t ∷ ss) l.1).0 b),
  λ h. rw ((segment_error-none s l.0).1 h.0) ((segments_error-none [] (t ∷ ss) l.1).1 h.1),
)
segments_error-none s ((c ∷ t) ∷ ss) l = (
  λ h.
      let (a, b) = or_else-none (segment_error s) (segments_error ((c ∷ t) ∷ ss)) h in
      ((segment_error-none s l.0).0 a, (segments_error-none (c ∷ t) ss l.1).0 b),
  λ h. rw ((segment_error-none s l.0).1 h.0) ((segments_error-none (c ∷ t) ss l.1).1 h.1),
)

-- A well-formed protocol path: the root, or a slash and segments with a slash between them, in
-- valid UTF-8 and with no null byte.
pub data IsProtoPath (path : Bytes) : Type 0 where
  at_root : path ≡ root → IsProtoPath path
  below_root :
      (s : Bytes) (ss : List Bytes)
      → path ≡ slash ∷ join (s ∷ ss) slash
      → All IsSegment (s ∷ ss)
      → valid_string path ≡ true
      → Lacks 0 path
      → IsProtoPath path

-- A path whose first byte is no slash is rejected in the first round.
relative_rejected :
    (fuel c : ℕ) (rest : Bytes) → c ≢ slash → check_slashes (suc fuel) (c ∷ rest) 0 0 ≢ none
unfolding check_slashes check_segment index_byte
relative_rejected fuel c rest h = ground arith

or_path-ok : (o : Option PathErrCode) (path q : Bytes) → or_path o path ≡ ok q → o ≡ none
or_path-ok none path q h = refl
or_path-ok (some e) path q h = cc

-- What an accepted path has passed.
record Passed (c : ℕ) (rest : Bytes) : Type 0 where
  starts : c ≡ slash
  goes_on : rest ≢ []
  valid : valid_string (c ∷ rest) ≡ true
  no_null : contains_byte (c ∷ rest) 0 ≡ false

accepted-Passed :
    (c : ℕ) (rest q : Bytes)
    → validate_path (c ∷ rest) ≡ ok q
    → bytes_eq (c ∷ rest) root ≡ false
    → Passed c rest
unfolding validate_path
accepted-Passed c rest q h ne = record {
  starts = ground (arith, relative_rejected (length rest + 1) c rest);
  goes_on = λ e. ground arith;
  valid = ground arith;
  no_null = ground arith;
}

segments-IsProtoPath :
    (rest q : Bytes)
    → Passed slash rest
    → validate_path (slash ∷ rest) ≡ ok q
    → IsProtoPath (slash ∷ rest)
segments-IsProtoPath rest q g h =
    let (s, ss, cut) = split_cons slash rest in
    let found : or_path (segments_error (split rest slash)) (slash ∷ rest) ≡ ok q =
      sym (validate_path-segments_error rest g.goes_on g.valid g.no_null) ∙ h in
    let parts : All (Lacks slash) (s ∷ ss) = rw cut at (All-split slash rest) in
    below_root s ss (ap (◌∷◌ slash) (sym (join-split slash rest) ∙ ap (λ l. join l slash) cut))
      ((segments_error-none s ss parts).0 (rw cut at (or_path-ok _ _ q found))) g.valid
      ((contains_byte-Lacks (slash ∷ rest) 0).0 g.no_null)

accepted-IsProtoPath : (path q : Bytes) → validate_path path ≡ ok q → IsProtoPath path
accepted-IsProtoPath [] q h = unfold validate_path in cc
accepted-IsProtoPath (c ∷ rest) q h = elim (Bool-cases (bytes_eq (c ∷ rest) root)) [
  | inl e ↦ at_root ((bytes_eq_iff (c ∷ rest) root).0 e)
  | inr ne ↦
      let g = accepted-Passed c rest q h ne in
      rw g.starts (segments-IsProtoPath rest q (rw g.starts at g) (rw g.starts at h))
]

pub All-no_slash : (ss : List Bytes) → All IsSegment ss → All (Lacks slash) ss
All-no_slash [] h = tt
All-no_slash (s ∷ ss) h = (h.0.no_slash, All-no_slash ss h.1)

pub join-ne-nil : (s : Bytes) (ss : List Bytes) → s ≢ [] → join (s ∷ ss) slash ≢ []
unfolding join
join-ne-nil [] ss h = absurd (h refl)
join-ne-nil (c ∷ s) [] h = λ e. cc
join-ne-nil (c ∷ s) (t ∷ ss) h = λ e. cc

pub IsProtoPath-accepted : (path : Bytes) → IsProtoPath path → validate_path path ≡ ok path
IsProtoPath-accepted path (at_root e) = rw e (unfold validate_path in refl)
IsProtoPath-accepted path (below_root s ss e h v z) =
    let rest = join (s ∷ ss) slash in
    let null = (contains_byte-Lacks path 0).1 z in
    let cut = split-join slash s ss (All-no_slash (s ∷ ss) h) in
    let clean = (segments_error-none s ss (All-no_slash (s ∷ ss) h)).1 h in
    rw e (
      validate_path-segments_error rest (join-ne-nil s ss h.0.not_empty) (rw e at v) (rw e at null)
      ∙ (rw (cut, clean) refl))

-- `ValidatePath` returns a path exactly when the path is a well-formed protocol path, and what it
-- returns is the path as it was given.
pub validate_path-IsProtoPath :
    (path q : Bytes) → (validate_path path ≡ ok q) ↔ (IsProtoPath path × (q ≡ path))
validate_path-IsProtoPath path q = (
  λ h. let p = accepted-IsProtoPath path q h in (p, cc (h, IsProtoPath-accepted path p)),
  λ (p, e). rw e (IsProtoPath-accepted path p),
)
