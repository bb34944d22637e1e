-- ===== src/Common/Path/Utf8.antt =====
-- utf8.ValidString of the Go library, which common/path.go calls: no overlong forms, no surrogates,
-- nothing above U+10FFFF.
use friend_net.Prelude.{
  ℕ, ◌≤◌, ◌<◌, ◌≡◌, Bool, true, false, ◌&&◌, Option, none, some, List, [], ◌∷◌, ◌++◌, Bytes, inl,
  inr, Option-cases, arith, ltb, leb, ◌==◌, if◌then◌else◌, All,
}

-- The ranges of the bytes that must follow a first byte.
abbrev Range : Type 0
Range = ℕ × ℕ

abbrev continuation : Range
continuation = (0x80, 0xbf)

first_byte : ℕ → Option (List Range)
first_byte c =
    if ltb c 0x80
    then some []
    else if ltb c 0xc2
    then none
    else if ltb c 0xe0
    then some (continuation ∷ [])
    else if c == 0xe0
    then some ((0xa0, 0xbf) ∷ continuation ∷ [])
    else if c == 0xed
    then some ((0x80, 0x9f) ∷ continuation ∷ [])
    else if ltb c 0xf0
    then some (continuation ∷ continuation ∷ [])
    else if c == 0xf0
    then some ((0x90, 0xbf) ∷ continuation ∷ continuation ∷ [])
    else if ltb c 0xf4
    then some (continuation ∷ continuation ∷ continuation ∷ [])
    else if c == 0xf4
    then some ((0x80, 0x8f) ∷ continuation ∷ continuation ∷ [])
    else none

valid_from : List Range → Bytes → Bool
valid_from [] [] = true
valid_from (r ∷ rs) [] = false
valid_from [] (c ∷ s) = elim (first_byte c) [ none ↦ false | some rs ↦ valid_from rs s ]
valid_from ((lo, hi) ∷ rs) (c ∷ s) = (leb lo c && leb c hi) && valid_from rs s

unfoldable pub valid_string : Bytes → Bool
unfolding valid_from first_byte
valid_string s = valid_from [] s

-- The bytes that continue a rune are no ASCII bytes.
abbrev Wide : List Range → Type 0
Wide = All (λ r. 0x80 ≤ r.0)

first_byte-Wide : (c : ℕ) (rs : List Range) → first_byte c ≡ some rs → Wide rs
unfolding first_byte
first_byte-Wide c rs h = ground arith

valid_from-append :
    (rs : List Range) (s t : Bytes) (c : ℕ)
    → c < 0x80
    → Wide rs
    → valid_from rs (s ++ (c ∷ t)) ≡ (valid_from rs s && valid_from [] t)
unfolding valid_from
valid_from-append [] [] t c h w = unfold first_byte in ground arith
valid_from-append ((lo, hi) ∷ rs) [] t c h w = ground arith
valid_from-append [] (x ∷ s) t c h w = elim (Option-cases (first_byte x)) [
  | inl e ↦ rw (e, valid_from)
  | inr (rs, e) ↦ rw (e, valid_from) (valid_from-append rs s t c h (first_byte-Wide x rs e))
]
valid_from-append ((lo, hi) ∷ rs) (x ∷ s) t c h w = ground (arith, valid_from-append rs s t c h w.1)

-- An ASCII byte ends every rune before it, so what stands on its two sides is checked apart.
pub valid_string-append :
    (s t : Bytes) (c : ℕ)
    → c < 0x80
    → valid_string (s ++ (c ∷ t)) ≡ (valid_string s && valid_string t)
unfolding valid_string
valid_string-append s t c h = valid_from-append [] s t c h tt
