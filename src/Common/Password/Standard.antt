-- ===== src/Common/Password/Standard.antt =====
-- What the checkers of common/password/password.go accept, against the parts of a password.
use friend_net.Prelude.{
  ◌≡◌, ◌≢◌, refl, ap, ◌∙◌, ◌↔◌, ◌≤◌, inl, inr, true, none, List, [], ◌∷◌, ◌++◌, Bytes, length, All,
  arith, Bool-cases,
}
use friend_net.Common.Password.{
  Checker, run_checkers, check, with_min_len, with_max_len, starts_with, contains,
  with_cannot_contain_username, server_requirements,
}

run_checkers_empty :
    (checkers : List Checker) (username password : Bytes)
    → (run_checkers checkers username password ≡ [])
      ↔ All (λ checker. checker username password ≡ none) checkers
unfolding run_checkers
run_checkers_empty [] username password = (λ e. tt, λ a. refl)
run_checkers_empty (checker ∷ checkers) username password = (
  λ e. (ground arith, (run_checkers_empty checkers username password).0 (ground arith)),
  λ a. ground (arith, (run_checkers_empty checkers username password).1 a.1),
)

-- A password passes exactly when it is not empty and every checker accepts it.
pub check_lem :
    (checkers : List Checker) (username password : Bytes)
    → (check checkers username password ≡ none)
      ↔ ((password ≢ []) × All (λ checker. checker username password ≡ none) checkers)
unfolding check
check_lem checkers username [] = (λ e. ground arith, λ a. ground arith)
check_lem checkers username (c ∷ s) = (
  λ e. (λ x. ground arith, (run_checkers_empty checkers username (c ∷ s)).0 (ground arith)),
  λ a. ground (arith, (run_checkers_empty checkers username (c ∷ s)).1 a.1),
)

starts_with_iff :
    (s prefix : Bytes) → (starts_with s prefix ≡ true) ↔ ((rest : Bytes) × (s ≡ prefix ++ rest))
unfolding starts_with
starts_with_iff s [] = (λ e. (s, refl), λ x. refl)
starts_with_iff [] (c ∷ prefix) = (λ e. ground arith, λ x. ground (arith, x.1))
starts_with_iff (b ∷ s) (c ∷ prefix) = (
  λ e. let (rest, x) = (starts_with_iff s prefix).0 (ground arith) in (rest, ground (arith, x)),
  λ x. ground (arith, (starts_with_iff s prefix).1 (x.0, ground (arith, x.1)), x.1),
)

abbrev Holds : Bytes → Bytes → Type 0
Holds s sub = (a : Bytes) × (b : Bytes) × (s ≡ a ++ (sub ++ b))

starts_with-contains : (s sub : Bytes) → starts_with s sub ≡ true → contains s sub ≡ true
unfolding contains
starts_with-contains [] sub e = e
starts_with-contains (c ∷ s) sub e = simp (e, contains)

contains_between : (a sub b : Bytes) → contains (a ++ (sub ++ b)) sub ≡ true
unfolding contains
contains_between [] sub b =
    starts_with-contains (sub ++ b) sub ((starts_with_iff (sub ++ b) sub).1 (b, refl))
contains_between (c ∷ a) sub b = ground (arith, contains_between a sub b)

-- strings.Contains finds a text exactly where it stands between two others.
contains_iff : (s sub : Bytes) → (contains s sub ≡ true) ↔ Holds s sub
unfolding contains
contains_iff [] sub = (
  λ e. let (rest, x) = (starts_with_iff [] sub).0 e in ([], rest, x),
  λ x. ap (λ t. contains t sub) x.2 ∙ contains_between x.0 sub x.1,
)
contains_iff (c ∷ s) sub = (
  λ e. elim (Bool-cases (starts_with (c ∷ s) sub)) [
    | inl y ↦ let (rest, x) = (starts_with_iff (c ∷ s) sub).0 y in ([], rest, x)
    | inr n ↦ let (a, b, x) = (contains_iff s sub).0 (ground arith) in (c ∷ a, b, ap (λ t. c ∷ t) x)
  ],
  λ x. ap (λ t. contains t sub) x.2 ∙ contains_between x.0 sub x.1,
)

refused :
    (lower : Bytes → Bytes) (username password : Bytes)
    → ¬ Holds (lower password) username
    → with_cannot_contain_username lower username password ≡ none
unfolding with_cannot_contain_username
refused lower username password n = elim (Bool-cases (contains (lower password) username)) [
  | inl y ↦ elim (n ((contains_iff (lower password) username).0 y)) [ ]
  | inr e ↦ simp e
]

-- The server takes a password exactly when it has 8 to 64 bytes and the username stands nowhere in it,
-- after both are lowered.
pub server_requirements_lem :
    (lower : Bytes → Bytes) (username password : Bytes)
    → (check (server_requirements lower) username password ≡ none) ↔ (
        (8 ≤ length password)
        × (length password ≤ 64)
        × (¬ ((a : Bytes) × (b : Bytes) × (lower password ≡ a ++ (username ++ b)))))
unfolding with_min_len with_max_len with_cannot_contain_username
server_requirements_lem lower username password = (
  λ e.
      let (n, (a, (b, (c, t)))) = (check_lem (server_requirements lower) username password).0 e in
      (
        ground arith,
        ground arith,
        λ h. ground (arith, (contains_iff (lower password) username).1 h),
      ),
  λ h. (check_lem (server_requirements lower) username password).1 (
    λ e. ground (arith, h.0),
    (ground arith, (ground arith, (refused lower username password h.2, tt))),
  ),
)
