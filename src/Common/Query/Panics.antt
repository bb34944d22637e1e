-- ===== src/Common/Query/Panics.antt =====
-- Where `EscapeQueryString` of common/query.go reads behind the end of the query.
use friend_net.Prelude.{
  ℕ, ◌≡◌, refl, ◌≢◌, ◌↔◌, Bool, true, false, ◌&&◌, ◌||◌, Option, none, some, [], ◌∷◌, Bytes, codes,
  bytes_eq, contains_byte, ◌==◌, arith,
}
use friend_net.Common.Query.{
  syntax_bytes, reads, keyword, or_then, replaced, escape_byte, count_quote, put_first, escape_from,
  escape_query_string,
}

-- strings.HasSuffix
pub ends_with : Bytes → Bytes → Bool
ends_with [] word = bytes_eq [] word
ends_with (c ∷ s) word = bytes_eq (c ∷ s) word || ends_with s word

pub ends_in_keyword : Bytes → Bool
unfolding ends_with
ends_in_keyword s =
    ends_with s (codes "O") || (ends_with s (codes "AN") || ends_with s (codes "NEA"))

abbrev fails {ℓ} : {A : Type ℓ} → Option A → Bool
fails none = true
fails (some a) = false

-- The texts at which a round reads behind the end.
abbrev cut_short : ℕ → Bytes → Bool
cut_short c [] = c == b'O'
cut_short c (d ∷ []) = (c == b'A' && d == b'N') || (c == b'N' && d == b'O')
cut_short c (d ∷ e ∷ []) = c == b'N' && (d == b'E' && e == b'A')
cut_short c (d ∷ e ∷ f ∷ rest) = false

syntax_no_letter :
    (c : ℕ) → contains_byte syntax_bytes c ≡ true → (c ≢ b'N') × (c ≢ b'A') × (c ≢ b'O')
unfolding contains_byte
syntax_no_letter c h = (λ e. ground arith, λ e. ground arith, λ e. ground arith)

fails-escape_byte :
    (quotes c : ℕ) (rest : Bytes) → fails (escape_byte quotes c rest) ≡ cut_short c rest
unfolding escape_byte replaced or_then keyword reads
fails-escape_byte quotes c [] = ground (arith, syntax_no_letter c)
fails-escape_byte quotes c (d ∷ []) = ground (arith, syntax_no_letter c)
fails-escape_byte quotes c (d ∷ e ∷ []) = ground (arith, syntax_no_letter c)
fails-escape_byte quotes c (d ∷ e ∷ f ∷ rest) = ground (arith, syntax_no_letter c)

ends_in_keyword-cons :
    (c : ℕ) (rest : Bytes) → ends_in_keyword (c ∷ rest) ≡ (cut_short c rest || ends_in_keyword rest)
unfolding ends_in_keyword
ends_in_keyword-cons c [] = ground arith
ends_in_keyword-cons c (d ∷ []) = ground arith
ends_in_keyword-cons c (d ∷ e ∷ []) = ground arith
ends_in_keyword-cons c (d ∷ e ∷ f ∷ rest) = ground arith

fails-put_first : (a : Option ℕ) (b : Option Bytes) → fails (put_first a b) ≡ (fails a || fails b)
fails-put_first none b = refl
fails-put_first (some c) none = refl
fails-put_first (some c) (some out) = refl

fails-escape_from : (quotes : ℕ) (s : Bytes) → fails (escape_from quotes s) ≡ ends_in_keyword s
unfolding escape_from
fails-escape_from quotes [] = unfold ends_in_keyword in refl
fails-escape_from quotes (c ∷ rest) = rw (
  fails-put_first _ _,
  fails-escape_byte (count_quote quotes c) c rest,
  fails-escape_from (count_quote quotes c) rest,
  ends_in_keyword-cons c rest,
)

-- `EscapeQueryString` panics exactly on the queries that end in O, in AN or in NEA: its tests
-- `i+k <= strLen` admit one index too many.
pub escape_query_string_panics :
    (query : Bytes) → (escape_query_string query ≡ none) ↔ (ends_in_keyword query ≡ true)
unfolding escape_query_string
escape_query_string_panics query =
    let e = fails-escape_from 0 query in ((λ h. ground (arith, e)), λ h. ground (arith, e))
