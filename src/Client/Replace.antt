-- ===== src/Client/Replace.antt =====
-- client/fsys/replace.go and replace_linux.go: names of downloaded files that a filesystem takes. A
-- name is its list of runes; the Unicode table behind strings.ToUpper is a parameter, for the runes
-- that are not ASCII.
pub mod Safe
pub mod Paths
mod Tests
use friend_net.Prelude.{
  ℕ, ◌+◌, ◌-◌, ◌≡◌, Bool, true, false, ◌||◌, ◌&&◌, Option, none, some, List, [], ◌∷◌, map, Bytes,
  codes, bytes_eq, contains_byte, split, join, ltb, leb, ◌==◌, if◌then◌else◌,
}
use friend_net.Prelude.Dict.{Dict, get, nat_eq}

-- The cases of the switch for printable runes.
abbrev pub printable : Dict ℕ ℕ
printable =
    (b'/', 0xff0f)
    ∷ (b'\\', 0xff3c)
    ∷ (b':', 0xa789)
    ∷ (b'*', 0x2217)
    ∷ (b'?', 0xff1f)
    ∷ (b'"', 0xff02)
    ∷ (b'<', 0x2039)
    ∷ (b'>', 0x203a)
    ∷ (b'|', 0xff5c)
    ∷ (0x7f, 0x2421)
    ∷ []

-- The switch: the pictures of the control characters from 0 to 0x1f follow each other from 0x2400 on.
pub replace_rune : ℕ → ℕ
unfolding get
replace_rune r =
    if ltb r 0x20
    then 0x2400 + r
    else elim (get printable r) [ none ↦ r | some replacement ↦ replacement ]

abbrev pub is_trimmed : ℕ → Bool
is_trimmed r = (r == b' ') || (r == b'.')

-- strings.TrimRight(s, " .")
pub trim_right : List ℕ → List ℕ
trim_right [] = []
trim_right (r ∷ s) =
    let rest = trim_right s in if bytes_eq rest [] && is_trimmed r then [] else r ∷ rest

-- base[:strings.IndexByte(base, '.')], or all of it
pub up_to_dot : List ℕ → List ℕ
up_to_dot [] = []
up_to_dot (r ∷ s) = let rest = up_to_dot s in if r == b'.' then [] else r ∷ rest

abbrev pub device_names : List Bytes
device_names =
    codes "CON"
    ∷ codes "PRN"
    ∷ codes "AUX"
    ∷ codes "NUL"
    ∷ codes "COM1"
    ∷ codes "COM2"
    ∷ codes "COM3"
    ∷ codes "COM4"
    ∷ codes "COM5"
    ∷ codes "COM6"
    ∷ codes "COM7"
    ∷ codes "COM8"
    ∷ codes "COM9"
    ∷ codes "LPT1"
    ∷ codes "LPT2"
    ∷ codes "LPT3"
    ∷ codes "LPT4"
    ∷ codes "LPT5"
    ∷ codes "LPT6"
    ∷ codes "LPT7"
    ∷ codes "LPT8"
    ∷ codes "LPT9"
    ∷ []

pub is_one_of : List Bytes → List ℕ → Bool
is_one_of [] base = false
is_one_of (name ∷ names) base = bytes_eq name base || is_one_of names base

abbrev pub or_underscore : List ℕ → List ℕ
or_underscore [] = b'_' ∷ []
or_underscore (r ∷ s) = r ∷ s

module _ (unicode_upper : ℕ → ℕ) where
  pub upper_rune : ℕ → ℕ
  upper_rune c =
      if ltb c 0x80 then (if leb b'a' c && leb c b'z' then c - 32 else c) else unicode_upper c

  pub is_windows_reserved_device_name : List ℕ → Bool
  unfolding trim_right up_to_dot is_one_of upper_rune
  is_windows_reserved_device_name name =
      is_one_of device_names (map upper_rune (up_to_dot (trim_right name)))

  unfoldable pub strict_replacer : List ℕ → List ℕ
  unfolding replace_rune is_windows_reserved_device_name trim_right
  strict_replacer str =
      let out = or_underscore (trim_right (map replace_rune str)) in
      if is_windows_reserved_device_name out then b'_' ∷ out else out

abbrev pub lenient_rune : ℕ → ℕ
lenient_rune r = if r == 0 then 0x2400 else if r == b'/' then 0xff0f else r

unfoldable pub lenient_replacer_posix : List ℕ → List ℕ
lenient_replacer_posix str = or_underscore (map lenient_rune str)

-- An empty part stays empty.
abbrev pub replace_part : (List ℕ → List ℕ) → List ℕ → List ℕ
replace_part r [] = []
replace_part r (c ∷ part) = r (c ∷ part)

-- `ReplacePath`; `sep` is filepath.Separator.
unfoldable pub replace_path : (List ℕ → List ℕ) → ℕ → List ℕ → List ℕ
unfolding split join
replace_path r sep path = join (map (replace_part r) (split path sep)) sep
