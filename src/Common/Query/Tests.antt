-- ===== src/Common/Query/Tests.antt =====
-- common/query_test.go
use friend_net.Prelude.{
  ◌≡◌, refl, ◌↔◌, ◌%◌, true, false, none, some, codes, contains_byte, length, All,
}
use friend_net.Common.Query.{syntax_bytes, escape_query_string}
use friend_net.Common.Query.Panics.{ends_in_keyword, escape_query_string_panics}
use friend_net.Common.Query.Output.{holds_keyword, count_quotes, escape_query_string_lem}

escape_examples :
    (escape_query_string (codes "foo:bar NEAR \"x") ≡ some (codes "foo bar nEAR  x"))
    × (escape_query_string (codes "a AND b OR \"c\"") ≡ some (codes "a aND b oR \"c\""))
    × (escape_query_string (codes "TO") ≡ none)
    × (escape_query_string (codes "NEA") ≡ none)
    × (escape_query_string (codes "N") ≡ some (codes "N"))
unfolding escape_query_string contains_byte
escape_examples = (refl, refl, refl, refl, refl)

escape_query_string_panics_example :
    (escape_query_string (codes "TO") ≡ none) ↔ (ends_in_keyword (codes "TO") ≡ true)
escape_query_string_panics_example = escape_query_string_panics (codes "TO")

escape_query_string_lem_example :
    (length (codes "a aND b oR \"c\"") ≡ length (codes "a AND b OR \"c\""))
    × All (λ c. contains_byte syntax_bytes c ≡ false) (codes "a aND b oR \"c\"")
    × (holds_keyword (codes "a aND b oR \"c\"") ≡ false)
    × (count_quotes (codes "a aND b oR \"c\"") % 2 ≡ 0)
escape_query_string_lem_example =
    escape_query_string_lem (codes "a AND b OR \"c\"") (codes "a aND b oR \"c\"") escape_examples.1
