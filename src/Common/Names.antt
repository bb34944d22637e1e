-- ===== src/Common/Names.antt =====
-- common/type.go: usernames and room names. A Go string is its list of runes here; the Unicode table
-- behind strings.ToLower is a parameter, for the runes that are not ASCII.
mod Tests
use friend_net.Prelude.{
  ℕ, suc, ◌+◌, ◌≤◌, ◌≡◌, refl, sym, ap, ◌∙◌, ◌↔◌, Bool, true, false, ◌&&◌, ◌||◌, not, Option, none,
  some, List, [], ◌∷◌, map, arith, ltb, leb, ◌==◌, if◌then◌else◌, length, Bool-cases, inl, inr,
}

-- len(s): the bytes of the runes in UTF-8.
abbrev pub rune_len : ℕ → ℕ
rune_len c = if ltb c 0x80 then 1 else if ltb c 0x800 then 2 else if ltb c 0x10000 then 3 else 4

pub byte_len : List ℕ → ℕ
byte_len [] = 0
byte_len (c ∷ s) = rune_len c + byte_len s

-- The loop's test on a rune of the lowered string.
abbrev pub is_name_rune : ℕ → Bool
is_name_rune c = (leb b'0' c && leb c b'9') || ((leb b'a' c && leb c b'z') || (c == b'_'))

pub all_name_runes : List ℕ → Bool
all_name_runes [] = true
all_name_runes (c ∷ s) = is_name_rune c && all_name_runes s

module _ (unicode_lower : ℕ → ℕ) where
  pub lower_rune : ℕ → ℕ
  lower_rune c =
      if ltb c 0x80 then (if leb b'A' c && leb c b'Z' then c + 32 else c) else unicode_lower c

  -- strings.ToLower
  pub to_lower : List ℕ → List ℕ
  unfolding lower_rune
  to_lower = map lower_rune

  unfoldable pub normalize_username : List ℕ → Option (List ℕ)
  unfolding byte_len all_name_runes to_lower
  normalize_username str =
      if ltb (byte_len str) 1 || ltb 16 (byte_len str)
      then none
      else let lower = to_lower str in if all_name_runes lower then some lower else none

  -- It ends in `UncheckedCreateNormalizedRoomName`, which lowers the name once more.
  unfoldable pub normalize_room_name : List ℕ → Option (List ℕ)
  unfolding byte_len all_name_runes to_lower
  normalize_room_name str =
      if ltb (byte_len str) 1 || ltb 16 (byte_len str)
      then none
      else let lower = to_lower str in if all_name_runes lower then some (to_lower lower) else none

-- A valid name: 1 to 16 lowercase ASCII letters, digits and underscores.
pub record IsName (s : List ℕ) : Type 0 where
  pub runes : all_name_runes s ≡ true
  pub at_least : 1 ≤ length s
  pub at_most : length s ≤ 16

length-le-byte_len : (s : List ℕ) → length s ≤ byte_len s
unfolding byte_len
length-le-byte_len [] = omega arith
length-le-byte_len (c ∷ s) = ground (arith, length-le-byte_len s)

byte_len-IsName : (s : List ℕ) → all_name_runes s ≡ true → byte_len s ≡ length s
unfolding byte_len all_name_runes
byte_len-IsName [] h = refl
byte_len-IsName (c ∷ s) h = ground (arith, byte_len-IsName s)

byte_len_nil : (s : List ℕ) → length s ≡ 0 → byte_len s ≡ 0
unfolding byte_len
byte_len_nil [] h = refl
byte_len_nil (c ∷ s) h = absurd (omega arith)

module _ (unicode_lower : ℕ → ℕ) where
  length-to_lower : (s : List ℕ) → length (to_lower unicode_lower s) ≡ length s
  unfolding to_lower
  length-to_lower [] = refl
  length-to_lower (c ∷ s) = ap suc (length-to_lower s)

  to_lower-IsName : (s : List ℕ) → all_name_runes s ≡ true → to_lower unicode_lower s ≡ s
  unfolding to_lower all_name_runes
  to_lower-IsName [] h = refl
  to_lower-IsName (c ∷ s) h = ground (arith, to_lower-IsName s)

  -- The bounds on the bytes bound the runes of the lowered name, which are as many.
  normalized-IsName : (s u : List ℕ) → normalize_username unicode_lower s ≡ some u → IsName u
  unfolding normalize_username
  normalized-IsName s u h = record {
    runes = ground (arith);
    at_least = ground (arith, length-to_lower s, byte_len_nil s);
    at_most = ground (arith, length-to_lower s, length-le-byte_len s);
  }

  IsName-normalized : (u : List ℕ) → IsName u → normalize_username unicode_lower u ≡ some u
  unfolding normalize_username
  IsName-normalized u h =
      ground (arith, h.runes, byte_len-IsName u h.runes, to_lower-IsName u h.runes)

  -- Whatever `NormalizeUsername` returns is a valid name, and the valid names are exactly those that
  -- it returns unchanged.
  pub normalize_username-IsName :
      (s u : List ℕ)
      → (normalize_username unicode_lower s ≡ some u → IsName u)
        × (IsName u ↔ (normalize_username unicode_lower u ≡ some u))
  normalize_username-IsName s u =
      (normalized-IsName s u, (IsName-normalized u, normalized-IsName u u))

  -- `NormalizeRoomName` accepts what `NormalizeUsername` accepts, with the same result: the second
  -- lowering changes nothing.
  pub normalize_room_name-normalize_username :
      (s : List ℕ) → normalize_room_name unicode_lower s ≡ normalize_username unicode_lower s
  unfolding normalize_username normalize_room_name
  normalize_room_name-normalize_username s =
      ground (arith, to_lower-IsName (to_lower unicode_lower s))
