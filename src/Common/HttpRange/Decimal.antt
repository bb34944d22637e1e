-- ===== src/Common/HttpRange/Decimal.antt =====
-- common/http.go: the decimal ranges that an HTTP client writes, read back by ParseHttpRange.
use mathlib.Core.List.{reverse, reverse_aux, reverse-reverse}
use friend_net.Prelude.{
  ℕ, zero, suc, ◌+◌, ◌-◌, ◌*◌, ◌/◌, ◌%◌, ◌^◌, ◌≤◌, ◌<◌, ◌≡◌, refl, ap, ◌∙◌, inl, inr, Bool, true,
  false, not, ◌&&◌, some, List, [], ◌∷◌, ◌++◌, Bytes, bytes_eq, codes, contains_byte,
  contains_byte-append, contains_byte-Lacks, Lacks, split, leb, ltb, ◌==◌, if◌then◌else◌, length,
  arith, All, Bool-cases,
}
use friend_net.Prelude.Split.{split-append, split-Lacks}
use friend_net.Common.HttpRange.{
  range, has_prefix, white_space, reverse_each, prefix_length, trim_prefixes, trim_space, is_digit,
  digits, in_int64, parse_int, parts_range, parse_http_range,
}

-- The decimal digits of a number in front of a text; the fuel is more than the number.
decimal_from : ℕ → ℕ → Bytes → Bytes
decimal_from zero n s = s
decimal_from (suc fuel) n s =
    let rest = decimal_from fuel (n / 10) ((48 + n % 10) ∷ s) in
    if ltb n 10 then (48 + n) ∷ s else rest

unfoldable pub decimal : ℕ → Bytes
unfolding decimal_from
decimal n = decimal_from (suc n) n []

digits-decimal_from :
    (fuel n : ℕ) (s : Bytes) → n < fuel → digits 0 (decimal_from fuel n s) ≡ digits n s
unfolding decimal_from digits
digits-decimal_from zero n s h = absurd (omega arith)
digits-decimal_from (suc fuel) n s h = elim (Bool-cases (ltb n 10)) [
  | inl small ↦ rw small (one_digit n s (ground (arith, small)))
  | inr large ↦ rw large (
      digits-decimal_from fuel (n / 10) ((48 + n % 10) ∷ s) (ground (arith, h, large))
      ∙ next_digit n s)
]
  where
    one_digit : (n : ℕ) (s : Bytes) → n < 10 → digits 0 ((48 + n) ∷ s) ≡ digits n s
    one_digit n s h =
        let e : 0 * 10 + (48 + n - 48) ≡ n = omega arith in
        let d : is_digit (48 + n) ≡ true = ground arith in rw (e, d) refl

    next_digit : (n : ℕ) (s : Bytes) → digits (n / 10) ((48 + n % 10) ∷ s) ≡ digits n s
    next_digit n s =
        let e : n / 10 * 10 + (48 + n % 10 - 48) ≡ n = omega arith in
        let d : is_digit (48 + n % 10) ≡ true = ground arith in rw (e, d) refl

abbrev Digits : Bytes → Type 0
Digits = All (λ c. is_digit c ≡ true)

decimal_from-Digits : (fuel n : ℕ) (s : Bytes) → Digits s → Digits (decimal_from fuel n s)
unfolding decimal_from
decimal_from-Digits zero n s h = h
decimal_from-Digits (suc fuel) n s h = elim (Bool-cases (ltb n 10)) [
  | inl small ↦ rw small (ground (arith, small), h)
  | inr large ↦ rw large (decimal_from-Digits fuel (n / 10) ((48 + n % 10) ∷ s) (ground arith, h))
]

decimal_from_cons :
    (fuel n : ℕ) (s : Bytes) → n < fuel → (c : ℕ) × (t : Bytes) × (decimal_from fuel n s ≡ c ∷ t)
unfolding decimal_from
decimal_from_cons zero n s h = absurd (omega arith)
decimal_from_cons (suc fuel) n s h = elim (Bool-cases (ltb n 10)) [
  | inl small ↦ (48 + n, s, rw small refl)
  | inr large ↦
      let (c, t, e) =
        decimal_from_cons fuel (n / 10) ((48 + n % 10) ∷ s) (ground (arith, h, large)) in
      (c, t, rw large e)
]

-- Each prefix of white space begins with a byte that is no digit.
abbrev all_white : List Bytes → Bool
all_white [] = true
all_white ([] ∷ ps) = false
all_white ((k ∷ p) ∷ ps) = not (is_digit k) && all_white ps

prefix_length-Digits :
    (s : Bytes) (ps : List Bytes) → Digits s → all_white ps ≡ true → prefix_length ps s ≡ 0
unfolding prefix_length has_prefix
prefix_length-Digits s [] d h = refl
prefix_length-Digits s ([] ∷ ps) d h = absurd (ground (arith, h))
prefix_length-Digits [] ((k ∷ p) ∷ ps) d h = prefix_length-Digits [] ps d (ground (arith, h))
prefix_length-Digits (c ∷ s) ((k ∷ p) ∷ ps) d h =
    let other : (c == k) ≡ false = ground (arith, d.0, h) in
    rw other (prefix_length-Digits (c ∷ s) ps d (ground (arith, h)))

trim_prefixes-Digits :
    (fuel : ℕ) (ps : List Bytes) (s : Bytes)
    → Digits s
    → all_white ps ≡ true
    → trim_prefixes fuel ps s ≡ s
unfolding trim_prefixes
trim_prefixes-Digits zero ps s d h = refl
trim_prefixes-Digits (suc fuel) ps s d h = rw (prefix_length-Digits s ps d h) refl

reverse_aux-Digits : (s acc : Bytes) → Digits s → Digits acc → Digits (reverse_aux s acc)
reverse_aux-Digits [] acc d h = h
reverse_aux-Digits (c ∷ s) acc d h = reverse_aux-Digits s (c ∷ acc) d.1 (d.0, h)

trim_space-Digits : (s : Bytes) → Digits s → trim_space s ≡ s
unfolding trim_space
trim_space-Digits s d =
    let front = trim_prefixes-Digits (length s) white_space s d refl in
    rw front (
      ap reverse (
        trim_prefixes-Digits (length s) (reverse_each white_space) (reverse s)
          (reverse_aux-Digits s [] d tt) refl)
      ∙ reverse-reverse s)

Digits-Lacks : (c : ℕ) → is_digit c ≡ false → (s : Bytes) → Digits s → Lacks c s
Digits-Lacks c h [] d = tt
Digits-Lacks c h (x ∷ s) d = ((λ e. ground (arith, e, d.0, h)), Digits-Lacks c h s d.1)

-- A text of digits is read as the number that they write.
parse_int-Digits :
    (s : Bytes) (n : ℕ)
    → bytes_eq s [] ≡ false
    → Digits s
    → digits 0 s ≡ some n
    → n < 2 ^ 63
    → parse_int s ≡ some (false, n)
unfolding parse_int
parse_int-Digits [] n there d e h = absurd (ground (arith, there))
parse_int-Digits (c ∷ s) n there d e h =
    let plus : (c == 43) ≡ false = ground (arith, d.0) in
    let minus : (c == 45) ≡ false = ground (arith, d.0) in
    let fits : ltb n (2 ^ 63) ≡ true = ground (arith, h) in
    rw (plus, minus) (ap (in_int64 false) e ∙ rw fits refl)

decimal-Digits : (n : ℕ) → Digits (decimal n)
unfolding decimal
decimal-Digits n = decimal_from-Digits (suc n) n [] tt

pub decimal_there : (n : ℕ) → bytes_eq (decimal n) [] ≡ false
unfolding decimal
decimal_there n =
    let (c, s, e) = decimal_from_cons (suc n) n [] (omega arith) in ap (λ t. bytes_eq t []) e

pub digits-decimal : (n : ℕ) → digits 0 (decimal n) ≡ some n
unfolding decimal digits
digits-decimal n = digits-decimal_from (suc n) n [] (omega arith)

pub parse_int-decimal : (n : ℕ) → n < 2 ^ 63 → parse_int (decimal n) ≡ some (false, n)
parse_int-decimal n =
    parse_int-Digits (decimal n) n (decimal_there n) (decimal-Digits n) (digits-decimal n)

split-decimal : (a b : ℕ) → split (decimal a ++ (45 ∷ decimal b)) 45 ≡ decimal a ∷ decimal b ∷ []
split-decimal a b =
    split-append 45 (decimal a) (decimal b) (Digits-Lacks 45 refl (decimal a) (decimal-Digits a))
    ∙ ap (◌∷◌ (decimal a))
        (split-Lacks 45 (decimal b) (Digits-Lacks 45 refl (decimal b) (decimal-Digits b)))

contains_byte-decimal : (a b : ℕ) → contains_byte (decimal a ++ (45 ∷ decimal b)) 44 ≡ false
unfolding contains_byte
contains_byte-decimal a b =
    contains_byte-append (decimal a) (45 ∷ decimal b) 44 ∙ rw (no_comma a) (no_comma b)
  where
    no_comma : (n : ℕ) → contains_byte (decimal n) 44 ≡ false
    no_comma n =
        (contains_byte-Lacks (decimal n) 44).1 (Digits-Lacks 44 refl (decimal n) (decimal-Digits n))

parts_range-decimal :
    (a b size : ℕ)
    → a ≤ b
    → b < size
    → size < 2 ^ 63
    → parts_range size (decimal a ∷ decimal b ∷ []) ≡ range a (b - a + 1)
unfolding parts_range
parts_range-decimal a b size h k l =
    let outside : leb size a ≡ false = ground (arith, h, k) in
    let swapped : ltb b a ≡ false = ground (arith, h) in
    let behind : leb size b ≡ false = ground (arith, k) in
    rw
      (
        trim_space-Digits (decimal a) (decimal-Digits a),
        trim_space-Digits (decimal b) (decimal-Digits b),
        decimal_there a,
        parse_int-decimal a (omega arith),
        outside,
      )
      (rw (decimal_there b, parse_int-decimal b (omega arith), swapped, behind) refl)

-- A header for the bytes from `a` to `b`, written in decimal, asks for just those bytes of a file that
-- has them and is smaller than 2 ^ 63.
pub parse_http_range-decimal :
    (a b size : ℕ)
    → a ≤ b
    → b < size
    → size < 2 ^ 63
    → parse_http_range (codes "bytes=" ++ (decimal a ++ (45 ∷ decimal b))) size
      ≡ range a (b - a + 1)
unfolding parse_http_range has_prefix
parse_http_range-decimal a b size h k l =
    let small : leb (2 ^ 63) size ≡ false = ground (arith, l) in
    rw (small, contains_byte-decimal a b, split-decimal a b) (parts_range-decimal a b size h k l)
