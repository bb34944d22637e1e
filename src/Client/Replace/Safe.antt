-- ===== src/Client/Replace/Safe.antt =====
-- The names that StrictReplacer of client/fsys/replace.go gives.
use friend_net.Prelude.{
  ℕ, ◌≡◌, ◌≢◌, ◌↔◌, refl, ap, subst, ◌∙◌, Bool, false, ◌||◌, ◌&&◌, List, [], ◌∷◌, map, codes,
  bytes_eq, contains_byte, All, ltb, ◌==◌, Bool-cases, inl, inr, arith,
}
use friend_net.Prelude.Dict.{get, nat_eq}
use friend_net.Client.Replace.{
  replace_rune, is_trimmed, trim_right, or_underscore, is_windows_reserved_device_name,
  strict_replacer,
}

-- What no filesystem has to take: control characters and the signs of Windows.
abbrev pub is_forbidden : ℕ → Bool
is_forbidden r = ltb r 0x20 || ((r == 0x7f) || contains_byte (codes "/\\:*?\"<>|") r)

replace_rune_allowed : (r : ℕ) → is_forbidden (replace_rune r) ≡ false
unfolding replace_rune get contains_byte
replace_rune_allowed r = ground arith

replace_rune_fixed : (r : ℕ) → is_forbidden r ≡ false → replace_rune r ≡ r
unfolding replace_rune get contains_byte
replace_rune_fixed r h = ground arith

map_fixed : (s : List ℕ) → All (λ r. is_forbidden r ≡ false) s → map replace_rune s ≡ s
map_fixed [] h = refl
map_fixed (r ∷ s) h = rw (replace_rune_fixed r h.0, map_fixed s h.1) refl

map_allowed : (s : List ℕ) → All (λ r. is_forbidden r ≡ false) (map replace_rune s)
map_allowed [] = tt
map_allowed (r ∷ s) = (replace_rune_allowed r, map_allowed s)

trim_right_twice : (s : List ℕ) → trim_right (trim_right s) ≡ trim_right s
unfolding trim_right
trim_right_twice [] = refl
trim_right_twice (r ∷ s) = ground (arith, trim_right_twice s)

All-trim_right : (P : ℕ → Type 0) (s : List ℕ) → All P s → All P (trim_right s)
unfolding trim_right
All-trim_right P [] h = tt
All-trim_right P (r ∷ s) h = elim (Bool-cases (bytes_eq (trim_right s) [] && is_trimmed r)) [
  | inl e ↦ rw (e, trim_right) tt
  | inr e ↦ rw (e, trim_right) (h.0, All-trim_right P s h.1)
]

trim_right_underscore : (s : List ℕ) → trim_right (b'_' ∷ s) ≡ b'_' ∷ trim_right s
unfolding trim_right
trim_right_underscore s = ground arith

-- What StrictReplacer has put in front, or in place of nothing.
trim_right-or_underscore :
    (s : List ℕ) → trim_right (or_underscore (trim_right s)) ≡ or_underscore (trim_right s)
unfolding trim_right
trim_right-or_underscore s = ground (arith, trim_right_twice s)

All-or_underscore :
    (s : List ℕ)
    → All (λ r. is_forbidden r ≡ false) s
    → All (λ r. is_forbidden r ≡ false) (or_underscore s)
unfolding contains_byte
All-or_underscore [] h = (refl, tt)
All-or_underscore (r ∷ s) h = h

or_underscore_not_empty : (s : List ℕ) → or_underscore s ≢ []
or_underscore_not_empty [] e = ground arith
or_underscore_not_empty (r ∷ s) e = ground arith

or_underscore_fixed : (s : List ℕ) → s ≢ [] → or_underscore s ≡ s
or_underscore_fixed [] n = elim (n refl) [ ]
or_underscore_fixed (r ∷ s) n = refl

module _ (unicode_upper : ℕ → ℕ) where
  underscore_no_device :
      (s : List ℕ) → is_windows_reserved_device_name unicode_upper (b'_' ∷ s) ≡ false
  unfolding is_windows_reserved_device_name
  underscore_no_device s = rw (trim_right_underscore s) refl

  -- A name that NTFS, FAT and APFS take and that Windows does not reserve.
  pub record IsSafe (s : List ℕ) : Type 0 where
    pub not_empty : s ≢ []
    pub allowed : All (λ r. is_forbidden r ≡ false) s
    pub trimmed : trim_right s ≡ s
    pub no_device : is_windows_reserved_device_name unicode_upper s ≡ false

  replaced-IsSafe :
      (s : List ℕ)
      → is_windows_reserved_device_name unicode_upper
          (or_underscore (trim_right (map replace_rune s)))
        ≡ false
      → IsSafe (or_underscore (trim_right (map replace_rune s)))
  replaced-IsSafe s d = record {
    not_empty = or_underscore_not_empty (trim_right (map replace_rune s));
    allowed =
        All-or_underscore (trim_right (map replace_rune s))
          (All-trim_right (λ r. is_forbidden r ≡ false) (map replace_rune s) (map_allowed s));
    trimmed = trim_right-or_underscore (map replace_rune s);
    no_device = d;
  }

  prefixed-IsSafe :
      (s : List ℕ) → All (λ r. is_forbidden r ≡ false) s → trim_right s ≡ s → IsSafe (b'_' ∷ s)
  unfolding contains_byte
  prefixed-IsSafe s a t = record {
    not_empty = λ e. ground arith;
    allowed = (refl, a);
    trimmed = trim_right_underscore s ∙ ap (◌∷◌ b'_') t;
    no_device = underscore_no_device s;
  }

  replacer-IsSafe : (s : List ℕ) → IsSafe (strict_replacer unicode_upper s)
  unfolding strict_replacer
  replacer-IsSafe s =
      let out = or_underscore (trim_right (map replace_rune s)) in
      elim (Bool-cases (is_windows_reserved_device_name unicode_upper out)) [
        | inr d ↦ rw (d, strict_replacer) (replaced-IsSafe s d)
        | inl d ↦
            rw (d, strict_replacer)
              (prefixed-IsSafe out
                (All-or_underscore (trim_right (map replace_rune s)) (
                  All-trim_right (λ r. is_forbidden r ≡ false) (map replace_rune s)
                    (map_allowed s)))
                (trim_right-or_underscore (map replace_rune s)))
      ]

  IsSafe-fixed : (s : List ℕ) → IsSafe s → strict_replacer unicode_upper s ≡ s
  unfolding strict_replacer
  IsSafe-fixed s h =
      let kept : or_underscore (trim_right (map replace_rune s)) ≡ s =
        rw (map_fixed s h.allowed, h.trimmed) (or_underscore_fixed s h.not_empty) in
      rw (kept, h.no_device, strict_replacer) refl

  -- StrictReplacer gives only safe names: not empty, without control characters and the signs that Windows
  -- forbids, without a space or a dot at the end, and no device name. The safe names are exactly those
  -- that it leaves as they are.
  pub strict_replacer-IsSafe :
      (s : List ℕ)
      → IsSafe (strict_replacer unicode_upper s)
        × ((strict_replacer unicode_upper s ≡ s) ↔ IsSafe s)
  strict_replacer-IsSafe s =
      (replacer-IsSafe s, (λ e. subst IsSafe e (replacer-IsSafe s), IsSafe-fixed s))
