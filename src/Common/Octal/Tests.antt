-- ===== src/Common/Octal/Tests.antt =====
-- common/octal_test.go
use friend_net.Prelude.{◌≡◌, refl, [], codes}
use friend_net.Common.Octal.{value, empty_string, bad_digit, out_of_range, parse_go_octal_literal}

parse_examples :
    (parse_go_octal_literal (codes "0755") ≡ value 493)
    × (parse_go_octal_literal (codes "755") ≡ value 493)
    × (parse_go_octal_literal (codes "0") ≡ value 0)
    × (parse_go_octal_literal (codes "089") ≡ bad_digit)
    × (parse_go_octal_literal (codes "40000000000") ≡ out_of_range)
    × (parse_go_octal_literal [] ≡ empty_string)
unfolding parse_go_octal_literal
parse_examples = (refl, refl, refl, refl, refl, refl)
