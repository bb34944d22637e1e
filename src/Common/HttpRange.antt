-- ===== src/Common/HttpRange.antt =====
-- common/http.go: ParseHttpRange, with the functions of packages strings and strconv that it calls.
-- An int64 argument is its bit pattern below 2 ^ 64.
use friend_net.Prelude.{
  ℕ, zero, suc, ◌+◌, ◌-◌, ◌*◌, ◌^◌, ◌≡◌, Bool, true, false, not, ◌||◌, ◌&&◌, Option, none, some,
  List, [], ◌∷◌, ◌++◌, Bytes, bytes_eq, codes, String, contains_byte, split, leb, ltb, ◌==◌,
  if◌then◌else◌, length, drop, take,
}
use mathlib.Core.List.{reverse}
pub mod Bounds
pub mod Decimal
mod Tests

-- The result; `invalid` is (0, 0, false).
pub data HttpRange : Type 0 where
  panics : HttpRange
  invalid : HttpRange
  range : ℕ → ℕ → HttpRange

-- strings.HasPrefix
unfoldable pub has_prefix : Bytes → Bytes → Bool
has_prefix s [] = true
has_prefix [] (d ∷ p) = false
has_prefix (c ∷ s) (d ∷ p) = (c == d) && has_prefix s p

-- The encodings of the runes for which unicode.IsSpace holds.
abbrev white_space : List Bytes
white_space =
    (9 ∷ [])
    ∷ (10 ∷ [])
    ∷ (11 ∷ [])
    ∷ (12 ∷ [])
    ∷ (13 ∷ [])
    ∷ (32 ∷ [])
    ∷ (0xC2 ∷ 0x85 ∷ [])
    ∷ (0xC2 ∷ 0xA0 ∷ [])
    ∷ (0xE1 ∷ 0x9A ∷ 0x80 ∷ [])
    ∷ (0xE2 ∷ 0x80 ∷ 0x80 ∷ [])
    ∷ (0xE2 ∷ 0x80 ∷ 0x81 ∷ [])
    ∷ (0xE2 ∷ 0x80 ∷ 0x82 ∷ [])
    ∷ (0xE2 ∷ 0x80 ∷ 0x83 ∷ [])
    ∷ (0xE2 ∷ 0x80 ∷ 0x84 ∷ [])
    ∷ (0xE2 ∷ 0x80 ∷ 0x85 ∷ [])
    ∷ (0xE2 ∷ 0x80 ∷ 0x86 ∷ [])
    ∷ (0xE2 ∷ 0x80 ∷ 0x87 ∷ [])
    ∷ (0xE2 ∷ 0x80 ∷ 0x88 ∷ [])
    ∷ (0xE2 ∷ 0x80 ∷ 0x89 ∷ [])
    ∷ (0xE2 ∷ 0x80 ∷ 0x8A ∷ [])
    ∷ (0xE2 ∷ 0x80 ∷ 0xA8 ∷ [])
    ∷ (0xE2 ∷ 0x80 ∷ 0xA9 ∷ [])
    ∷ (0xE2 ∷ 0x80 ∷ 0xAF ∷ [])
    ∷ (0xE2 ∷ 0x81 ∷ 0x9F ∷ [])
    ∷ (0xE3 ∷ 0x80 ∷ 0x80 ∷ [])
    ∷ []

-- The length of the first of the prefixes that the text has, 0 if it has none.
unfoldable pub prefix_length : List Bytes → Bytes → ℕ
unfolding has_prefix
prefix_length [] s = 0
prefix_length (p ∷ ps) s = if has_prefix s p then length p else prefix_length ps s

-- A round takes one prefix away.
unfoldable pub trim_prefixes : ℕ → List Bytes → Bytes → Bytes
unfolding prefix_length
trim_prefixes zero ps s = s
trim_prefixes (suc fuel) ps s =
    let rest = trim_prefixes fuel ps (drop (prefix_length ps s) s) in
    if prefix_length ps s == 0 then s else rest

abbrev reverse_each : List Bytes → List Bytes
reverse_each [] = []
reverse_each (p ∷ ps) = reverse p ∷ reverse_each ps

-- strings.TrimSpace: at most as many rounds as bytes, in front and behind.
unfoldable pub trim_space : Bytes → Bytes
unfolding trim_prefixes
trim_space s =
    let front = trim_prefixes (length s) white_space s in
    reverse (trim_prefixes (length front) (reverse_each white_space) (reverse front))

abbrev pub is_digit : ℕ → Bool
is_digit c = leb 48 c && leb c 57

-- The value of decimal digits behind a value, `none` at a byte that is no digit.
unfoldable pub digits : ℕ → Bytes → Option ℕ
digits acc [] = some acc
digits acc (c ∷ s) = let rest = digits (acc * 10 + (c - 48)) s in if is_digit c then rest else none

-- A number and whether it is below 0.
abbrev pub in_int64 : Bool → Option ℕ → Option (Bool × ℕ)
in_int64 minus none = none
in_int64 minus (some n) =
    if minus
    then (if leb n (2 ^ 63) then some (not (n == 0), n) else none)
    else if ltb n (2 ^ 63)
    then some (false, n)
    else none

abbrev pub unsigned : Bytes → Option ℕ
unsigned [] = none
unsigned (c ∷ s) = digits 0 (c ∷ s)

-- strconv.ParseInt(s, 10, 64)
unfoldable pub parse_int : Bytes → Option (Bool × ℕ)
unfolding digits
parse_int [] = none
parse_int (c ∷ s) =
    if c == b'+'
    then in_int64 false (unsigned s)
    else if c == b'-'
    then in_int64 true (unsigned s)
    else in_int64 false (digits 0 (c ∷ s))

-- err == nil and the number is not below 0.
abbrev pub not_negative : Option (Bool × ℕ) → Option ℕ
not_negative none = none
not_negative (some (minus, n)) = if minus then none else some n

abbrev pub suffix_range : ℕ → Option ℕ → HttpRange
suffix_range size none = invalid
suffix_range size (some suffix) = let offset = size - suffix in range offset (size - offset)

abbrev pub end_range : ℕ → ℕ → Option ℕ → HttpRange
end_range size start none = invalid
end_range size start (some last) =
    if ltb last start || leb size last then invalid else range start (last - start + 1)

abbrev pub start_range : ℕ → Bytes → Option ℕ → HttpRange
start_range size last none = invalid
start_range size last (some start) =
    if leb size start
    then invalid
    else if bytes_eq last []
    then range start (size - start)
    else end_range size start (not_negative (parse_int last))

unfoldable pub parts_range : ℕ → List Bytes → HttpRange
unfolding trim_space parse_int
parts_range size (first ∷ last ∷ []) =
    let start = trim_space first in
    let end_ = trim_space last in
    if bytes_eq start [] && bytes_eq end_ []
    then invalid
    else if bytes_eq start []
    then suffix_range size (not_negative (parse_int end_))
    else start_range size end_ (not_negative (parse_int start))
parts_range size parts = invalid

unfoldable pub parse_http_range : Bytes → ℕ → HttpRange
unfolding has_prefix parts_range
parse_http_range header size =
    if leb (2 ^ 63) size
    then panics
    else if bytes_eq header []
    then range 0 0
    else if not (has_prefix header (codes "bytes="))
    then invalid
    else (let spec = drop 6 header in
        if contains_byte spec b',' then invalid else parts_range size (split spec b'-'))
