-- ===== src/Common/Path/Parents.antt =====
-- common/path.go: when `NormalizePath` fails, and what it leaves of a path.
use friend_net.Prelude.{
  ℕ, suc, ◌+◌, ◌≡◌, refl, subst, sym, ap, ◌∙◌, inl, inr, Bool, true, false, not, ◌||◌, ◌&&◌, Option,
  none, some, List, [], ◌∷◌, ◌++◌, map, length, length-append, leb, Bytes, bytes_eq, bytes_eq_iff,
  split, join, append_assoc, append-nil, arith, Bool-cases, Option-cases, All, All-append,
  All-right,
}
use friend_net.Prelude.Count.{count_if}
use friend_net.Prelude.Split.{split_cons, All-split, join-split}
use friend_net.Common.Path.{
  references_parent, ok, err, slash, dot, dot_dot, drop_last, resolve, normalize_path,
}
use friend_net.Common.Path.Validate.{IsSegment, IsProtoPath, IsProtoPath-accepted}
use friend_net.Common.Path.Normalize.{
  IsClean, IsClean-join, resolve-IsKept, All-fst, kept-IsProtoPath,
}

-- What the parts of a path mean: a step into a directory, or one to the parent.
abbrev pub is_name : Bytes → Bool
is_name s = not (bytes_eq s [] || bytes_eq s dot || bytes_eq s dot_dot)

abbrev pub is_up : Bytes → Bool
is_up s = bytes_eq s dot_dot

abbrev pub prefixes : {A : Type 0} → List A → List (List A)
prefixes [] = [] ∷ []
prefixes (x ∷ xs) = [] ∷ map (λ p. x ∷ p) (prefixes xs)

-- From a directory `n` below the root, each of the parts' prefixes has no more steps to a parent than
-- there are directories above it.
abbrev pub all_within : ℕ → List (List Bytes) → Bool
all_within n [] = true
all_within n (p ∷ ps) = leb (count_if is_up p) (n + count_if is_name p) && all_within n ps

abbrev pub stays_inside : List Bytes → Bool
stays_inside parts = all_within 0 (prefixes parts)

-- The parts become the segments by striking out empty parts and dots, and names together with the step
-- to the parent behind them.
pub data Reduces (segments : List Bytes) : List Bytes → Type 0 where
  reduced : (parts : List Bytes) → parts ≡ segments → Reduces segments parts
  without :
      (front rest : List Bytes) (s : Bytes)
      → is_name s ≡ false
      → is_up s ≡ false
      → Reduces segments (front ++ rest)
      → Reduces segments (front ++ s ∷ rest)
  without_parent :
      (front rest : List Bytes) (s : Bytes)
      → is_name s ≡ true
      → Reduces segments (front ++ rest)
      → Reduces segments (front ++ s ∷ dot_dot ∷ rest)

within_name :
    (n : ℕ) (x : Bytes) (ps : List (List Bytes))
    → is_name x ≡ true
    → is_up x ≡ false
    → all_within n (map (λ p. x ∷ p) ps) ≡ all_within (suc n) ps
within_name n x [] h k = refl
within_name n x (p ∷ ps) h k = ground (arith, h, k, within_name n x ps h k)

within_skip :
    (n : ℕ) (x : Bytes) (ps : List (List Bytes))
    → is_name x ≡ false
    → is_up x ≡ false
    → all_within n (map (λ p. x ∷ p) ps) ≡ all_within n ps
within_skip n x [] h k = refl
within_skip n x (p ∷ ps) h k = ground (arith, h, k, within_skip n x ps h k)

within_up :
    (n : ℕ) (x : Bytes) (ps : List (List Bytes))
    → is_name x ≡ false
    → is_up x ≡ true
    → all_within (suc n) (map (λ p. x ∷ p) ps) ≡ all_within n ps
within_up n x [] h k = refl
within_up n x (p ∷ ps) h k = ground (arith, h, k, within_up n x ps h k)

prefixes_cons : (xs : List Bytes) → (ps : List (List Bytes)) × (prefixes xs ≡ [] ∷ ps)
prefixes_cons [] = ([], refl)
prefixes_cons (x ∷ xs) = (map (λ p. x ∷ p) (prefixes xs), refl)

within_outside :
    (x : Bytes) (xs : List Bytes)
    → is_name x ≡ false
    → is_up x ≡ true
    → all_within 0 (map (λ p. x ∷ p) (prefixes xs)) ≡ false
within_outside x xs h k = let (ps, e) = prefixes_cons xs in rw e (ground (arith, h, k))

within_first : (n : ℕ) (ps : List (List Bytes)) → all_within n ([] ∷ ps) ≡ all_within n ps
within_first n ps = ground arith

length-drop_last :
    (d : Bytes) (ds : List Bytes) → suc (length (drop_last (d ∷ ds))) ≡ length (d ∷ ds)
unfolding drop_last
length-drop_last d [] = refl
length-drop_last d (e ∷ ds) = ap suc (length-drop_last e ds)

abbrev is_some : {A : Type 0} → Option A → Bool
is_some none = false
is_some (some x) = true

skip_not_up : (s : Bytes) → (bytes_eq s [] || bytes_eq s dot) ≡ true → is_up s ≡ false
skip_not_up [] h = refl
skip_not_up (c ∷ []) h = ground arith
skip_not_up (c ∷ d ∷ s) h = absurd (ground (arith, h))

within_parent :
    (s : Bytes) (parts done : List Bytes) (up : Option (List Bytes))
    → is_name s ≡ false
    → is_up s ≡ true
    → is_some up ≡ all_within (length (drop_last done)) (prefixes parts)
    → is_some (elim done [ [] ↦ none | d ∷ ds ↦ up ])
      ≡ all_within (length done) (map (λ p. s ∷ p) (prefixes parts))
within_parent s parts [] up h k ih = sym (within_outside s parts h k)
within_parent s parts (d ∷ ds) up h k ih =
    ih
    ∙ sym (within_up (length (drop_last (d ∷ ds))) s (prefixes parts) h k)
    ∙ ap (λ n. all_within n (map (λ p. s ∷ p) (prefixes parts))) (length-drop_last d ds)

-- The loop fails just where the path leaves the root.
resolve_within :
    (parts done : List Bytes)
    → is_some (resolve parts done) ≡ all_within (length done) (prefixes parts)
unfolding resolve
resolve_within [] done = ground arith
resolve_within (s ∷ parts) done =
    let ps = prefixes parts in
    let Goal : Option (List Bytes) → Type 0 =
      λ out. is_some out ≡ all_within (length done) (map (λ p. s ∷ p) ps) in
    let first = within_first (length done) (map (λ p. s ∷ p) ps) in
    let shown : Goal (resolve (s ∷ parts) done) =
      elim (Bool-cases (bytes_eq s [] || bytes_eq s dot)) [
        | inl skip ↦
            let up : is_up s ≡ false = skip_not_up s skip in
            let name : is_name s ≡ false = ground (arith, skip) in
            rw skip (resolve_within parts done ∙ sym (within_skip (length done) s ps name up))
        | inr keep ↦ elim (Bool-cases (bytes_eq s dot_dot)) [
          | inl up ↦
              rw (keep, up)
                (within_parent s parts done _ (ground (arith, keep, up)) up
                  (resolve_within parts (drop_last done)))
          | inr down ↦
              let name : is_name s ≡ true = ground (arith, keep, down) in
              let longer : length (done ++ s ∷ []) ≡ suc (length done) =
                omega (arith, length-append done (s ∷ [])) in
              rw (keep, down)
                (resolve_within parts (done ++ s ∷ [])
                  ∙ ap (λ n. all_within n ps) longer
                  ∙ sym (within_name (length done) s ps name down))
        ]
      ] in
    shown ∙ sym first

last_of :
    (d : Bytes) (ds : List Bytes) → (last : Bytes) × (d ∷ ds ≡ drop_last (d ∷ ds) ++ last ∷ [])
unfolding drop_last
last_of d [] = (d, refl)
last_of d (e ∷ ds) = let (last, h) = last_of e ds in (last, ap (◌∷◌ d) h)

abbrev AllNames : List Bytes → Type 0
AllNames = All (λ t. is_name t ≡ true)

all_before : (done : List Bytes) → AllNames done → AllNames (drop_last done)
unfolding drop_last
all_before [] k = tt
all_before (d ∷ []) k = tt
all_before (d ∷ e ∷ ds) k = (k.0, all_before (e ∷ ds) k.1)

without_up :
    (done parts segments : List Bytes) (up : Option (List Bytes))
    → AllNames done
    → ◌≡◌ {A = Option (List Bytes)} (elim done [ [] ↦ none | d ∷ ds ↦ up ]) (some segments)
    → (up ≡ some segments → Reduces segments (drop_last done ++ parts))
    → Reduces segments (done ++ dot_dot ∷ parts)
without_up [] parts segments up k e r = cc
without_up (d ∷ ds) parts segments up k e r =
    let (last, cut) = last_of d ds in
    let front = drop_last (d ∷ ds) in
    let name : AllNames (last ∷ []) =
      All-right (λ t. is_name t ≡ true) front (last ∷ []) (subst AllNames cut k) in
    let moved : front ++ last ∷ dot_dot ∷ parts ≡ d ∷ ds ++ dot_dot ∷ parts =
      sym (append_assoc front (last ∷ []) (dot_dot ∷ parts))
      ∙ ap (λ l. l ++ dot_dot ∷ parts) (sym cut) in
    subst (Reduces segments) moved (without_parent front parts last name.0 (r e))

-- What the loop has kept, with the parts to come, becomes what it keeps in the end.
resolve-Reduces :
    (parts done segments : List Bytes)
    → AllNames done
    → resolve parts done ≡ some segments
    → Reduces segments (done ++ parts)
unfolding resolve
resolve-Reduces [] done segments k e = reduced (done ++ []) (append-nil done ∙ ground (arith, e))
resolve-Reduces (s ∷ parts) done segments k e =
    elim (Bool-cases (bytes_eq s [] || bytes_eq s dot)) [
      | inl skip ↦
          without done parts s (ground (arith, skip)) (skip_not_up s skip)
            (resolve-Reduces parts done segments k (rw skip at e))
      | inr keep ↦ elim (Bool-cases (bytes_eq s dot_dot)) [
        | inl up ↦
            let same : s ≡ dot_dot = (bytes_eq_iff s dot_dot).0 up in
            rw same (
              without_up done parts segments _ k (rw (keep, up) at e)
                (λ h. resolve-Reduces parts (drop_last done) segments (all_before done k) h))
        | inr down ↦ rw (append_assoc done (s ∷ []) parts) at (
            resolve-Reduces parts (done ++ s ∷ []) segments
              (All-append (λ t. is_name t ≡ true) done (s ∷ []) k (ground (arith, keep, down), tt))
              (rw (keep, down) at e))
      ]
    ]

-- The result for a path that stays inside the root, or leaves it.
abbrev pub Normalized : Bytes → Bool → Type 0
Normalized path true =
    (ss : List Bytes) × Reduces ss (split path slash)
    × All IsSegment ss
    × (normalize_path path ≡ ok (slash ∷ join ss slash))
    × IsProtoPath (slash ∷ join ss slash)
Normalized path false = normalize_path path ≡ err references_parent

-- On valid UTF-8 with no null byte `NormalizePath` fails exactly where a prefix of the path has more
-- steps to a parent than names, and then with the error for that. Otherwise it returns a well-formed path:
-- that of the segments to which the parts reduce when empty parts, dots, and names together with the step
-- to a parent behind them are struck out.
pub normalize_path_total :
    (path : Bytes) → IsClean path → Normalized path (stays_inside (split path slash))
unfolding normalize_path
normalize_path_total path c =
    let (s, ss, cut) = split_cons slash path in
    let whole : join (s ∷ ss) slash ≡ path =
      ap (λ l. join l slash) (sym cut) ∙ join-split slash path in
    let clean : All IsClean (s ∷ ss) = (IsClean-join s ss).0 (rw whole c) in
    let cleaned : All IsClean (split path slash) = rw cut clean in
    let inside = resolve_within (split path slash) [] in
    elim (Option-cases (resolve (split path slash) [])) [
      | inl e ↦
          let outside : stays_inside (split path slash) ≡ false = sym inside ∙ ap is_some e in
          subst (Normalized path) (sym outside) (rw (e, normalize_path) refl)
      | inr (segments, e) ↦
          let stays : stays_inside (split path slash) ≡ true = sym inside ∙ ap is_some e in
          let kept = resolve-IsKept _ [] segments (All-split slash path) cleaned tt e in
          let p = kept-IsProtoPath segments kept in
          subst (Normalized path) (sym stays) (
            segments,
            resolve-Reduces (split path slash) [] segments tt e,
            (All-fst segments kept).0,
            rw (e, normalize_path) (IsProtoPath-accepted _ p),
            p,
          )
    ]
