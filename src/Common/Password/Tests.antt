-- ===== src/Common/Password/Tests.antt =====
-- common/password/password.go on a few passwords, over ASCII.
use friend_net.Prelude.{◌+◌, ◌≡◌, refl, some, [], ◌∷◌, ◌&&◌, map, Bytes, codes, leb, if◌then◌else◌}
use friend_net.Common.Password.{
  length_error, err_empty_password, err_contains_username, err_no_number, err_no_uppercase,
  err_no_special_char, run_checkers, check, with_min_len, with_max_len,
  with_cannot_contain_username, with_require_number, with_require_uppercase,
  with_require_special_char, server_requirements,
}

abbrev lower : Bytes → Bytes
lower = map (λ c. if leb 65 c && leb c 90 then c + 32 else c)

all_errors :
    check
      (with_min_len 4
        ∷ with_require_number
        ∷ with_require_uppercase
        ∷ with_require_special_char
        ∷ [])
      (codes "bob")
      []
    ≡ some (
        err_empty_password
        ∷ length_error 4 0
        ∷ err_no_number
        ∷ err_no_uppercase
        ∷ err_no_special_char
        ∷ [])
unfolding check run_checkers with_min_len with_require_number with_require_uppercase
    with_require_special_char
all_errors = refl

own_name :
    check (server_requirements lower) (codes "bob") (codes "i am BOB")
    ≡ some (err_contains_username ∷ [])
unfolding check run_checkers with_min_len with_max_len with_cannot_contain_username
own_name = refl
