-- ===== src/Common/HttpRange/Tests.antt =====
-- common/http.go: headers of HTTP clients and what ParseHttpRange makes of them.
use friend_net.Prelude.{contains_byte, split, ◌≡◌, refl, ◌++◌, ◌∷◌, ◌-◌, ◌^◌, codes, arith}
use friend_net.Common.HttpRange.{panics, invalid, range, parse_http_range}
use friend_net.Common.HttpRange.Bounds.{Within, parse_http_range-Within}
use friend_net.Common.HttpRange.Decimal.{decimal, parse_http_range-decimal}

open_ended : parse_http_range (codes "bytes=4-") 10 ≡ range 4 6
unfolding parse_http_range contains_byte split
open_ended = refl

suffix : parse_http_range (codes "bytes= -12 ") 10 ≡ range 0 10
unfolding parse_http_range contains_byte split
suffix = refl

behind_the_end : parse_http_range (codes "bytes=4-10") 10 ≡ invalid
unfolding parse_http_range contains_byte split
behind_the_end = refl

-- strconv.ParseInt takes a sign.
signed : parse_http_range (codes "bytes=+4-+5") 10 ≡ range 4 2
unfolding parse_http_range contains_byte split
signed = refl

too_large : parse_http_range (codes "bytes=9223372036854775808-") 10 ≡ invalid
unfolding parse_http_range contains_byte split
too_large = refl

size_below_zero : parse_http_range (codes "bytes=4-") (2 ^ 64 - 1) ≡ panics
unfolding parse_http_range contains_byte split
size_below_zero = refl

parse_http_range-Within_example : Within 10 (parse_http_range (codes "bytes=-3") 10)
parse_http_range-Within_example = parse_http_range-Within (codes "bytes=-3") 10 refl

parse_http_range-decimal_example :
    parse_http_range (codes "bytes=" ++ (decimal 12 ++ (45 ∷ decimal 120))) 500 ≡ range 12 109
parse_http_range-decimal_example =
    parse_http_range-decimal 12 120 500 (omega arith) (omega arith) (omega arith)
