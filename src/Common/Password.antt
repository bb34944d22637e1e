-- ===== src/Common/Password.antt =====
-- common/password/password.go: password requirements. A password and a username are their bytes,
-- and the Unicode lowercase of strings.ToLower is the parameter `lower`.
pub mod Standard
mod Tests
use friend_net.Prelude.{
  ℕ, ◌≡◌, Bool, true, false, Option, none, some, List, [], ◌∷◌, ◌++◌, ◌||◌, Bytes, codes, length,
  take, bytes_eq, ltb, ◌==◌, contains_byte, if◌then◌else◌,
}

pub data PasswordErr : Type 0 where
  err_empty_password : PasswordErr
  length_error : ℕ → ℕ → PasswordErr
  err_contains_username : PasswordErr
  err_no_number : PasswordErr
  err_no_uppercase : PasswordErr
  err_no_special_char : PasswordErr

abbrev pub Checker : Type 0
Checker = Bytes → Bytes → Option PasswordErr

-- The errors of the checkers, in their order.
unfoldable pub run_checkers : List Checker → Bytes → Bytes → List PasswordErr
run_checkers [] username password = []
run_checkers (checker ∷ checkers) username password =
    let rest = run_checkers checkers username password in
    elim (checker username password) [ none ↦ rest | some err ↦ err ∷ rest ]

abbrev pub check_empty : Bytes → List PasswordErr
check_empty [] = err_empty_password ∷ []
check_empty (c ∷ s) = []

-- `Requirements.Check`; the result is the inner errors of the Error, or `none` for nil.
unfoldable pub check : List Checker → Bytes → Bytes → Option (List PasswordErr)
unfolding run_checkers
check checkers username password =
    elim (check_empty password ++ run_checkers checkers username password) [
      | [] ↦ none
      | err ∷ errs ↦ some (err ∷ errs)
    ]

unfoldable pub with_min_len : ℕ → Checker
with_min_len min username password =
    if ltb (length password) min then some (length_error min (length password)) else none

pub with_max_len : ℕ → Checker
with_max_len max username password =
    if ltb max (length password) then some (length_error max (length password)) else none

-- strings.Contains
pub starts_with : Bytes → Bytes → Bool
starts_with s [] = true
starts_with [] (c ∷ prefix) = false
starts_with (b ∷ s) (c ∷ prefix) = let rest = starts_with s prefix in if b == c then rest else false

pub contains : Bytes → Bytes → Bool
unfolding starts_with
contains [] sub = starts_with [] sub
contains (b ∷ s) sub = let rest = contains s sub in if starts_with (b ∷ s) sub then true else rest

-- strings.ContainsAny, for ASCII characters
pub contains_any : Bytes → Bytes → Bool
contains_any [] chars = false
contains_any (b ∷ s) chars = contains_byte chars b || contains_any s chars

pub with_cannot_contain_username : (Bytes → Bytes) → Checker
unfolding contains
with_cannot_contain_username lower username password =
    if contains (lower password) username then some err_contains_username else none

abbrev pub digits : Bytes
digits = codes "0123456789"

abbrev pub uppercase : Bytes
uppercase = codes "ABCDEFGHIJKLMNOPQRSTUVWXYZ"

abbrev pub special_chars : Bytes
special_chars = codes "!?@#$%^&*()_+-=[]{}|;':\",.<>/"

pub with_require_number : Checker
unfolding contains_any
with_require_number username password =
    if contains_any password digits then none else some err_no_number

pub with_require_uppercase : Checker
unfolding contains_any
with_require_uppercase username password =
    if contains_any password uppercase then none else some err_no_uppercase

pub with_require_special_char : Checker
unfolding contains_any
with_require_special_char username password =
    if contains_any password special_chars then none else some err_no_special_char

-- `HashWithRequirements`: the password hash of package mcfpassword is a parameter.
pub data HashErr : Type 0 where
  err_requirements : List PasswordErr → HashErr
  err_hashing : HashErr

pub data Hashed : Type 0 where
  hashed : Bytes → Hashed
  not_hashed : HashErr → Hashed

unfoldable pub hash_with_requirements :
    (Bytes → Option Bytes) → Bytes → Bytes → List Checker → Hashed
unfolding check
hash_with_requirements hash_password username password requirements =
    elim (check requirements username password) [
      | some errs ↦ not_hashed (err_requirements errs)
      | none ↦ elim (hash_password password) [
        | none ↦ not_hashed err_hashing
        | some hash ↦ hashed hash
      ]
    ]

-- The requirements of server/cmd/server/main.go.
abbrev pub server_requirements : (Bytes → Bytes) → List Checker
server_requirements lower =
    with_min_len 8 ∷ with_max_len 64 ∷ with_cannot_contain_username lower ∷ []
