-- ===== src/Common/Octal.antt =====
-- common/octal.go, with strconv.ParseUint at base 8 and 32 bits, which it calls.
mod Tests
use mathlib.Core.Bool.{false≢true}
use friend_net.Prelude.{
  ℕ, zero, suc, ◌+◌, ◌-◌, ◌*◌, ◌^◌, ◌≤◌, ◌<◌, ◌≡◌, refl, ◌≢◌, ◌↔◌, Bool, true, false, ◌||◌, ◌&&◌,
  Option, none, some, List, [], ◌∷◌, Bytes, arith, ltb, leb, ◌==◌, if◌then◌else◌, All, Bool-cases,
  inl, inr, tests, sym, ◌∙◌, ==_iff,
}

pub data Outcome : Type 0 where
  value : ℕ → Outcome
  empty_string bad_digit out_of_range : Outcome

-- strconv.ParseUint(s, 8, 32) on octal digits: a number past 32 bits is a range error.
pub parse_uint : Bytes → ℕ → Outcome
parse_uint [] n = value n
parse_uint (c ∷ s) n =
    let m = n * 8 + (c - b'0') in
    let rest = parse_uint s m in if ltb (2 ^ 32 - 1) m then out_of_range else rest

-- The loop over the digits: whether one is out of '0' to '7'.
pub has_bad_digit : Bytes → Bool
has_bad_digit [] = false
has_bad_digit (c ∷ s) = (ltb c b'0' || ltb b'7' c) || has_bad_digit s

-- `s = s[1:]` behind a leading zero.
pub parse_digits : Bytes → Outcome
unfolding parse_uint has_bad_digit
parse_digits s = if has_bad_digit s then bad_digit else parse_uint s 0

unfoldable pub parse_go_octal_literal : Bytes → Outcome
unfolding parse_digits
parse_go_octal_literal [] = empty_string
parse_go_octal_literal (c ∷ []) = if c == b'0' then value 0 else parse_digits (c ∷ [])
parse_go_octal_literal (c ∷ d ∷ s) =
    if c == b'0' then parse_digits (d ∷ s) else parse_digits (c ∷ d ∷ s)

abbrev pub IsOctal : ℕ → Type 0
IsOctal c = (b'0' ≤ c) × (c ≤ b'7')

-- The number that octal digits spell behind `n`, with no bound.
abbrev pub spelled : ℕ → Bytes → ℕ
spelled n [] = n
spelled n (c ∷ s) = spelled (n * 8 + (c - b'0')) s

le-spelled : (s : Bytes) (n : ℕ) → n ≤ spelled n s
le-spelled [] n = omega arith
le-spelled (c ∷ s) n = omega (arith, le-spelled s (n * 8 + (c - b'0')))

has_bad_digit-IsOctal : (s : Bytes) → (has_bad_digit s ≡ false) ↔ All IsOctal s
unfolding has_bad_digit
has_bad_digit-IsOctal [] = (λ h. tt, λ h. refl)
has_bad_digit-IsOctal (c ∷ s) = (
  λ h. ((ground arith, ground arith), (has_bad_digit-IsOctal s).0 (ground arith)),
  λ h. ground (arith, h.0, (has_bad_digit-IsOctal s).1 h.1),
)

parse_uint-spelled :
    (s : Bytes) (n v : ℕ)
    → n < 2 ^ 32
    → (parse_uint s n ≡ value v) ↔ ((v ≡ spelled n s) × (spelled n s < 2 ^ 32))
unfolding parse_uint
parse_uint-spelled [] n v h = (λ e. ground arith, λ (e, b). ground arith)
parse_uint-spelled (c ∷ s) n v h =
    let m = n * 8 + (c - b'0') in
    elim (Bool-cases (ltb (2 ^ 32 - 1) m)) [
      | inl big ↦ rw big ((λ e. cc), λ (e, b). absurd (omega (tests, le-spelled s m)))
      | inr small ↦ rw small (parse_uint-spelled s m v (ground arith))
    ]

parse_digits-spelled :
    (s : Bytes) (v : ℕ)
    → (parse_digits s ≡ value v) ↔ (All IsOctal s × (v ≡ spelled 0 s) × (spelled 0 s < 2 ^ 32))
unfolding parse_digits
parse_digits-spelled s v = elim (Bool-cases (has_bad_digit s)) [
  | inl bad ↦
      rw bad
        ((λ e. cc), λ (o, a, b). absurd (false≢true (sym ((has_bad_digit-IsOctal s).1 o) ∙ bad)))
  | inr good ↦
      let digits = (has_bad_digit-IsOctal s).0 good in
      let number = parse_uint-spelled s 0 v (omega arith) in
      rw good ((λ e. let (a, b) = number.0 e in (digits, a, b)), λ (o, a, b). number.1 (a, b))
]

-- A leading zero adds nothing to the number, and is an octal digit itself.
leading_zero :
    (s : Bytes) (v : ℕ)
    → (parse_digits s ≡ value v)
      ↔ (All IsOctal (b'0' ∷ s) × (v ≡ spelled 0 (b'0' ∷ s)) × (spelled 0 (b'0' ∷ s) < 2 ^ 32))
leading_zero s v =
    let (to, from) = parse_digits-spelled s v in
    (
      (λ e. let (o, a, b) = to e in (((omega arith, omega arith), o), a, b)),
      λ (o, a, b). from (o.1, a, b),
    )

accepted :
    (c : ℕ) (s : Bytes) (v : ℕ)
    → (parse_go_octal_literal (c ∷ s) ≡ value v)
      ↔ (All IsOctal (c ∷ s) × (v ≡ spelled 0 (c ∷ s)) × (spelled 0 (c ∷ s) < 2 ^ 32))
unfolding parse_go_octal_literal
accepted c [] v = elim (Bool-cases (c == b'0')) [
  | inl e ↦ rw (e, (==_iff c b'0').0 e) ((λ h. ground arith), λ h. ground arith)
  | inr e ↦ rw e (parse_digits-spelled (c ∷ []) v)
]
accepted c (d ∷ s) v = elim (Bool-cases (c == b'0')) [
  | inl e ↦ rw (e, (==_iff c b'0').0 e) (leading_zero (d ∷ s) v)
  | inr e ↦ rw e (parse_digits-spelled (c ∷ d ∷ s) v)
]

-- The literal is accepted exactly when it is one or more octal digits whose number fits in 32 bits,
-- and the result is that number: no digit is lost with the leading zero, and nothing wraps around.
pub parse_go_octal_literal_lem :
    (s : Bytes) (v : ℕ)
    → (parse_go_octal_literal s ≡ value v)
      ↔ ((s ≢ []) × All IsOctal s × (v ≡ spelled 0 s) × (spelled 0 s < 2 ^ 32))
parse_go_octal_literal_lem [] v = (unfold parse_go_octal_literal in λ e. cc, λ h. absurd (h.0 refl))
parse_go_octal_literal_lem (c ∷ s) v =
    let (to, from) = accepted c s v in
    ((λ e. let (o, a, b) = to e in ((λ n. cc), o, a, b)), λ (n, o, a, b). from (o, a, b))
