-- ===== src/Common/Query/Output.antt =====
-- What `EscapeQueryString` of common/query.go returns.
use friend_net.Prelude.{
  ℕ, suc, ◌+◌, ◌%◌, ◌≡◌, refl, ap, ◌≤◌, ◌≢◌, ◌⊎◌, inl, inr, Bool, true, false, not, ◌&&◌, ◌||◌,
  Option, none, some, [], ◌∷◌, Bytes, codes, contains_byte, ◌==◌, if◌then◌else◌, length, arith, All,
  Bool-cases,
}
use friend_net.Common.Query.{
  syntax_bytes, reads, keyword, or_then, replaced, escape_byte, count_quote, put_first, escape_from,
  escape_query_string,
}

out_nil : (out : Bytes) → ◌≡◌ {A = Option Bytes} (some []) (some out) → out ≡ []
out_nil out h = ground arith

-- A round that succeeds, and the rounds behind it.
put_first-some :
    (a : Option ℕ) (b : Option Bytes) (out : Bytes)
    → put_first a b ≡ some out
    → (c : ℕ) × (rest : Bytes) × (a ≡ some c) × (b ≡ some rest) × (out ≡ c ∷ rest)
put_first-some none b out h = cc
put_first-some (some c) none out h = cc
put_first-some (some c) (some rest) out h = (c, rest, refl, refl, ground arith)

escape_from-cons :
    (quotes c : ℕ) (s out : Bytes)
    → escape_from quotes (c ∷ s) ≡ some out
    → (d : ℕ) × (rest : Bytes) × (escape_byte (count_quote quotes c) c s ≡ some d)
      × (escape_from (count_quote quotes c) s ≡ some rest)
      × (out ≡ d ∷ rest)
unfolding escape_from
escape_from-cons quotes c s out h = put_first-some _ _ out h

-- strings.HasPrefix
pub has_prefix : Bytes → Bytes → Bool
has_prefix s [] = true
has_prefix [] (x ∷ word) = false
has_prefix (c ∷ s) (x ∷ word) = c == x && has_prefix s word

-- A keyword of the query language starts here, or somewhere in the text.
pub starts_keyword : Bytes → Bool
unfolding has_prefix
starts_keyword s =
    (has_prefix s (codes "NEAR") || has_prefix s (codes "NOT"))
    || (has_prefix s (codes "AND") || has_prefix s (codes "OR"))

pub holds_keyword : Bytes → Bool
unfolding starts_keyword
holds_keyword [] = false
holds_keyword (c ∷ s) = starts_keyword (c ∷ s) || holds_keyword s

pub count_quotes : Bytes → ℕ
count_quotes [] = 0
count_quotes (c ∷ s) = if c == b'"' then count_quotes s + 1 else count_quotes s

-- What a round leaves is a space, a small letter for a large one, or a byte that is no syntax.
escape_byte-cases :
    (quotes c : ℕ) (rest : Bytes) (d : ℕ)
    → escape_byte quotes c rest ≡ some d
    → (d ≡ b' ')
      ⊎ ((d ≡ b'n')
          ⊎ ((d ≡ b'a') ⊎ ((d ≡ b'o') ⊎ ((d ≡ c) × (contains_byte syntax_bytes c ≡ false)))))
unfolding escape_byte replaced
escape_byte-cases quotes c rest d h = ground arith

small_plain :
    (contains_byte syntax_bytes b' ' ≡ false)
    × (contains_byte syntax_bytes b'n' ≡ false)
    × (contains_byte syntax_bytes b'a' ≡ false)
    × (contains_byte syntax_bytes b'o' ≡ false)
unfolding contains_byte
small_plain = (refl, refl, refl, refl)

escape_from-plain :
    (quotes : ℕ) (s out : Bytes)
    → escape_from quotes s ≡ some out
    → (length out ≡ length s) × All (λ c. contains_byte syntax_bytes c ≡ false) out
unfolding escape_from
escape_from-plain quotes [] out h = rw (out_nil out h) (refl, tt)
escape_from-plain quotes (c ∷ s) out h =
    let (d, rest, hd, hr, e) = escape_from-cons quotes c s out h in
    let (l, p) = escape_from-plain (count_quote quotes c) s rest hr in
    let (a, b, f, g) = small_plain in
    rw e (ap suc l, (ground (arith, escape_byte-cases (count_quote quotes c) c s d hd), p))

-- Large letters in the output stood in the query.
abbrev IsCaps : Bytes → Type 0
IsCaps = All (λ c. (b'A' ≤ c) × (c ≤ b'Z'))

has_prefix-escape_from :
    (quotes : ℕ) (s out word : Bytes)
    → IsCaps word
    → escape_from quotes s ≡ some out
    → has_prefix out word ≡ true
    → has_prefix s word ≡ true
unfolding escape_from has_prefix
has_prefix-escape_from quotes s out [] w h p = refl
has_prefix-escape_from quotes [] out (x ∷ word) w h p = ground (arith)
has_prefix-escape_from quotes (c ∷ s) out (x ∷ word) w h p =
    let (d, rest, hd, hr, e) = escape_from-cons quotes c s out h in
    let p' : has_prefix (d ∷ rest) (x ∷ word) ≡ true = rw e at p in
    let later = has_prefix-escape_from (count_quote quotes c) s rest word w.1 hr in
    ground (arith, escape_byte-cases (count_quote quotes c) c s d hd, w.0, later)

letters_plain :
    (contains_byte syntax_bytes b'N' ≡ false)
    × (contains_byte syntax_bytes b'A' ≡ false)
    × (contains_byte syntax_bytes b'O' ≡ false)
unfolding contains_byte
letters_plain = (refl, refl, refl)

-- The round at a keyword writes a small letter.
escape_byte-keyword :
    (quotes c : ℕ) (rest : Bytes)
    → starts_keyword (c ∷ rest) ≡ true
    → escape_byte quotes c rest ≢ some c
unfolding escape_byte replaced or_then keyword reads starts_keyword
escape_byte-keyword quotes c [] h = ground (arith, letters_plain)
escape_byte-keyword quotes c (d ∷ []) h = ground (arith, letters_plain)
escape_byte-keyword quotes c (d ∷ e ∷ []) h = ground (arith, letters_plain)
escape_byte-keyword quotes c (d ∷ e ∷ f ∷ rest) h = ground (arith, letters_plain)

any_of_four :
    (a b c d a' b' c' d' : Bool)
    → (a ≡ true → a' ≡ true)
    → (b ≡ true → b' ≡ true)
    → (c ≡ true → c' ≡ true)
    → (d ≡ true → d' ≡ true)
    → ((a || b) || (c || d)) ≡ true
    → ((a' || b') || (c' || d')) ≡ true
any_of_four a b c d a' b' c' d' f g h k e = ground arith

starts_keyword-escape_from :
    (quotes : ℕ) (s out : Bytes)
    → escape_from quotes s ≡ some out
    → starts_keyword out ≡ true
    → starts_keyword s ≡ true
unfolding starts_keyword
starts_keyword-escape_from quotes s out h =
    any_of_four _ _ _ _ _ _ _ _ (has_prefix-escape_from quotes s out (codes "NEAR") (omega arith) h)
      (has_prefix-escape_from quotes s out (codes "NOT") (omega arith) h)
      (has_prefix-escape_from quotes s out (codes "AND") (omega arith) h)
      (has_prefix-escape_from quotes s out (codes "OR") (omega arith) h)

-- A keyword starts with a large letter.
starts_keyword_caps : (d : ℕ) (s : Bytes) → starts_keyword (d ∷ s) ≡ true → (b'A' ≤ d) × (d ≤ b'Z')
unfolding starts_keyword has_prefix
starts_keyword_caps d s h = ground arith

no_keyword_here :
    (quotes c : ℕ) (s : Bytes) (d : ℕ) (rest : Bytes)
    → escape_from quotes (c ∷ s) ≡ some (d ∷ rest)
    → escape_byte (count_quote quotes c) c s ≡ some d
    → starts_keyword (d ∷ rest) ≡ false
no_keyword_here quotes c s d rest h hd = elim (Bool-cases (starts_keyword (d ∷ rest))) [
  | inr e ↦ e
  | inl e ↦
      let caps = starts_keyword_caps d rest e in
      let same : d ≡ c = ground (arith, escape_byte-cases (count_quote quotes c) c s d hd, caps) in
      let k = starts_keyword-escape_from quotes (c ∷ s) (d ∷ rest) h e in
      absurd (escape_byte-keyword (count_quote quotes c) c s k (rw same at hd))
]

escape_from_no_keyword :
    (quotes : ℕ) (s out : Bytes) → escape_from quotes s ≡ some out → holds_keyword out ≡ false
unfolding holds_keyword
escape_from_no_keyword quotes [] out h = unfold escape_from in rw (out_nil out h) refl
escape_from_no_keyword quotes (c ∷ s) out h =
    let (d, rest, hd, hr, e) = escape_from-cons quotes c s out h in
    let here = no_keyword_here quotes c s d rest (rw e at h) hd in
    let later = escape_from_no_keyword (count_quote quotes c) s rest hr in
    rw (e, holds_keyword, here, later)

count_quotes-contains : (s : Bytes) → contains_byte s b'"' ≡ false → count_quotes s ≡ 0
unfolding count_quotes contains_byte
count_quotes-contains [] h = refl
count_quotes-contains (c ∷ s) h = ground (arith, count_quotes-contains s)

quote_plain : contains_byte syntax_bytes b'"' ≡ false
unfolding contains_byte
quote_plain = refl

-- A quote is written as a space only where it is the last one, and the number before it is even.
escape_byte-quote :
    (quotes c : ℕ) (rest : Bytes) (d : ℕ)
    → escape_byte quotes c rest ≡ some d
    → ((c ≢ b'"') × (d ≢ b'"'))
      ⊎ ((c ≡ b'"')
          × (d ≡ (if not (contains_byte rest b'"') && not (quotes % 2 == 0) then b' ' else b'"')))
unfolding escape_byte replaced
escape_byte-quote quotes c rest d h = ground (arith, quote_plain)

-- The quotes so far and those still to be written are even in number, where one is still to come;
-- and none is written where none comes.
escape_from-quotes :
    (quotes : ℕ) (s out : Bytes)
    → escape_from quotes s ≡ some out
    → (contains_byte s b'"' ≡ false → count_quotes out ≡ 0)
      × (contains_byte s b'"' ≡ true → (quotes + count_quotes out) % 2 ≡ 0)
unfolding contains_byte count_quotes
escape_from-quotes quotes [] out h = unfold escape_from in rw (out_nil out h) ((λ e. refl), λ e. cc)
escape_from-quotes quotes (c ∷ s) out h =
    let (d, rest, hd, hr, e) = escape_from-cons quotes c s out h in
    let later = escape_from-quotes (count_quote quotes c) s rest hr in
    let here = escape_byte-quote (count_quote quotes c) c s d hd in
    rw e (ground (arith, later, here, count_quotes-contains rest), ground (arith, later, here))

-- Where `EscapeQueryString` returns, the result is as long as the query, holds none of the syntax
-- bytes and no keyword, and has an even number of quotes.
pub escape_query_string_lem :
    (query out : Bytes)
    → escape_query_string query ≡ some out
    → (length out ≡ length query)
      × All (λ c. contains_byte syntax_bytes c ≡ false) out
      × (holds_keyword out ≡ false)
      × (count_quotes out % 2 ≡ 0)
unfolding escape_query_string
escape_query_string_lem query out h =
    let (l, p) = escape_from-plain 0 query out h in
    let (none_left, even) = escape_from-quotes 0 query out h in
    (
      l,
      p,
      escape_from_no_keyword 0 query out h,
      elim (Bool-cases (contains_byte query b'"')) [
        | inl e ↦ omega (arith, even e)
        | inr e ↦ omega (arith, none_left e)
      ],
    )
