-- ===== src/Common/Query.antt =====
-- common/query.go: `EscapeQueryString` over bytes. `none` is the panic of an index out of range.
pub mod Panics
pub mod Output
mod Tests
use mathlib.Core.Option
use friend_net.Prelude.{
  ℕ, ◌+◌, ◌%◌, Bool, true, false, ◌&&◌, ◌||◌, not, Option, none, some, List, [], ◌∷◌, Bytes, codes,
  contains_byte, leb, ◌==◌, if◌then◌else◌, length,
}

-- The bytes of the long `case` list, and ':', which are written as spaces.
abbrev pub syntax_bytes : Bytes
syntax_bytes = codes "+^*(){}[]-,./\\!?:"

-- str[i+1] == w[0] && str[i+2] == w[1] && …, on what follows index i: each read may be out of range.
pub reads : Bytes → Bytes → Option Bool
reads rest [] = some true
reads [] (x ∷ word) = none
reads (c ∷ rest) (x ∷ word) = let more = reads rest word in if c == x then more else some false

-- i+k <= strLen && reads
pub keyword : ℕ → Bytes → Bytes → Option Bool
keyword k rest word = if leb k (length rest + 1) then reads rest word else some false

-- a || b, where b is not evaluated after a true a.
pub or_then : Option Bool → Option Bool → Option Bool
or_then none b = none
or_then (some true) b = some true
or_then (some false) b = b

pub replaced : Option Bool → ℕ → ℕ → Option ℕ
replaced test c d = Option.map (λ yes_it_is. if yes_it_is then d else c) test

-- One round of the loop: the byte that is left at the index. `quotes` counts this byte, too, and
-- the byte is the last quote where none follows.
pub escape_byte : ℕ → ℕ → Bytes → Option ℕ
escape_byte quotes c rest =
    if contains_byte syntax_bytes c
    then some b' '
    else if c == b'"'
    then some (if not (contains_byte rest b'"') && not (quotes % 2 == 0) then b' ' else c)
    else if c == b'N'
    then replaced (or_then (keyword 3 rest (codes "EAR")) (keyword 2 rest (codes "OT"))) c b'n'
    else if c == b'A'
    then replaced (keyword 2 rest (codes "ND")) c b'a'
    else if c == b'O'
    then replaced (keyword 1 rest (codes "R")) c b'o'
    else some c

-- quoteNum behind this byte.
abbrev pub count_quote : ℕ → ℕ → ℕ
count_quote quotes c = if c == b'"' then quotes + 1 else quotes

abbrev pub put_first : Option ℕ → Option Bytes → Option Bytes
put_first none out = none
put_first (some c) none = none
put_first (some c) (some out) = some (c ∷ out)

-- The loop from an index on. It writes at this index only, so what follows is read as it was given.
pub escape_from : ℕ → Bytes → Option Bytes
escape_from quotes [] = some []
escape_from quotes (c ∷ rest) =
    put_first (escape_byte (count_quote quotes c) c rest) (escape_from (count_quote quotes c) rest)

unfoldable pub escape_query_string : Bytes → Option Bytes
unfolding escape_from escape_byte replaced or_then keyword reads
escape_query_string query = escape_from 0 query
