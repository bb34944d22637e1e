-- ===== src/Common/HttpRange/Bounds.antt =====
-- common/http.go: where the ranges that ParseHttpRange accepts lie.
use friend_net.Prelude.{
  ℕ, ◌+◌, ◌-◌, ◌^◌, ◌≤◌, ◌<◌, ◌≡◌, refl, ◌⊎◌, inl, inr, Bool, true, false, not, ◌||◌, ◌&&◌, Option,
  none, some, List, [], ◌∷◌, Bytes, bytes_eq, codes, contains_byte, split, leb, ltb, if◌then◌else◌,
  drop, arith, Bool-cases,
}
use friend_net.Common.HttpRange.{
  HttpRange, panics, invalid, range, has_prefix, trim_space, parse_int, not_negative, suffix_range,
  end_range, start_range, parts_range, parse_http_range,
}

-- A range that lies within a file, and is not empty or begins at its end; what is refused lies anywhere.
abbrev pub Within : ℕ → HttpRange → Type 0
Within size panics = Unit
Within size invalid = Unit
Within size (range offset limit) = (offset + limit ≤ size) × ((1 ≤ limit) ⊎ (offset ≡ size))

suffix_range-Within : (size : ℕ) (n : Option ℕ) → Within size (suffix_range size n)
suffix_range-Within size none = tt
suffix_range-Within size (some n) = elim (Bool-cases (ltb 0 (size - (size - n)))) [
  | inl some_left ↦ (omega arith, inl (ground (arith, some_left)))
  | inr none_left ↦ (omega arith, inr (ground (arith, none_left)))
]

Within-if :
    (size : ℕ) (b : Bool) (x y : HttpRange)
    → Within size x
    → (b ≡ false → Within size y)
    → Within size (if b then x else y)
Within-if size true x y hx hy = hx
Within-if size false x y hx hy = hy refl

end_range-Within :
    (size start : ℕ) (n : Option ℕ) → start < size → Within size (end_range size start n)
end_range-Within size start none h = tt
end_range-Within size start (some last) h =
    Within-if size (ltb last start || leb size last) invalid (range start (last - start + 1)) tt
      (λ good. (ground (arith, good), inl (omega arith)))

start_range-Within :
    (size : ℕ) (last : Bytes) (n : Option ℕ) → Within size (start_range size last n)
start_range-Within size last none = tt
start_range-Within size last (some start) =
    Within-if size (leb size start) invalid
      (if bytes_eq last []
        then range start (size - start)
        else end_range size start (not_negative (parse_int last)))
      tt
      (λ inside.
        let below : start < size = ground (arith, inside) in
        Within-if size (bytes_eq last []) (range start (size - start))
          (end_range size start (not_negative (parse_int last))) (omega arith, inl (omega arith))
          (λ _. end_range-Within size start (not_negative (parse_int last)) below))

parts_range-Within : (size : ℕ) (parts : List Bytes) → Within size (parts_range size parts)
unfolding parts_range
parts_range-Within size [] = tt
parts_range-Within size (a ∷ []) = tt
parts_range-Within size (a ∷ b ∷ c ∷ rest) = tt
parts_range-Within size (a ∷ b ∷ []) =
    Within-if size (bytes_eq (trim_space a) [] && bytes_eq (trim_space b) []) invalid
      (if bytes_eq (trim_space a) []
        then suffix_range size (not_negative (parse_int (trim_space b)))
        else start_range size (trim_space b) (not_negative (parse_int (trim_space a))))
      tt
      (λ _.
        Within-if size (bytes_eq (trim_space a) [])
          (suffix_range size (not_negative (parse_int (trim_space b))))
          (start_range size (trim_space b) (not_negative (parse_int (trim_space a))))
          (suffix_range-Within size (not_negative (parse_int (trim_space b))))
          (λ _. start_range-Within size (trim_space b) (not_negative (parse_int (trim_space a)))))

-- Every range that ParseHttpRange accepts for a header that is not empty lies within the file, and is
-- empty only at the end of the file.
pub parse_http_range-Within :
    (header : Bytes) (size : ℕ)
    → bytes_eq header [] ≡ false
    → Within size (parse_http_range header size)
unfolding parse_http_range
parse_http_range-Within header size there = Within-if size (leb (2 ^ 63) size) panics _ tt (λ _.
    rw there (
      Within-if size (not (has_prefix header (codes "bytes="))) invalid _ tt (λ _.
        Within-if size (contains_byte (drop 6 header) b',') invalid
          (parts_range size (split (drop 6 header) b'-')) tt
          (λ _. parts_range-Within size (split (drop 6 header) b'-')))))
