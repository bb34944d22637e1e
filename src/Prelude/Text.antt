-- ===== src/Prelude/Text.antt =====
-- Go strings as lists of byte values, with the functions of package strings that the program calls.
use Prim.Native.Char.{code}
use Prim.Native.Nat.{ℕ, suc}
use Prim.Native.String.{String}
use mathlib.Core.Path.{◌≡◌, refl}
use mathlib.Core.Logic.{◌↔◌, ◌≢◌}
use mathlib.Core.Bool.{Bool, true, false, ◌&&◌, ◌||◌}
use mathlib.Core.List.{List, [], ◌∷◌, ◌++◌}
use mathlib.Core.Option.{Option, none, some}
use mathlib.Core.Option
use native.Mathlib.Omega.{arith}
use friend_net.Prelude.Tests.{◌==◌, if◌then◌else◌}
use friend_net.Prelude.Lists.{All}

abbrev pub Bytes : Type 0
Bytes = List ℕ

-- The code points of a text: its bytes, if it is ASCII.
abbrev pub codes : String → Bytes
codes String.[] = []
codes (String.◌∷◌ c s) = code c ∷ codes s

-- s == t
abbrev pub bytes_eq : Bytes → Bytes → Bool
bytes_eq [] [] = true
bytes_eq [] (d ∷ t) = false
bytes_eq (c ∷ s) [] = false
bytes_eq (c ∷ s) (d ∷ t) = (c == d) && bytes_eq s t

pub bytes_eq_iff : (s t : Bytes) → (bytes_eq s t ≡ true) ↔ (s ≡ t)
bytes_eq_iff [] [] = (λ h. refl, λ h. refl)
bytes_eq_iff [] (d ∷ t) = (λ h. cc, λ h. cc)
bytes_eq_iff (c ∷ s) [] = (λ h. cc, λ h. cc)
bytes_eq_iff (c ∷ s) (d ∷ t) =
    (λ h. ground (arith, bytes_eq_iff s t), λ h. ground (arith, bytes_eq_iff s t))

-- strings.IndexByte: the index of the first `c`, `none` for -1.
unfoldable pub index_byte : Bytes → ℕ → Option ℕ
index_byte [] c = none
index_byte (x ∷ s) c = if x == c then some 0 else Option.map suc (index_byte s c)

-- strings.IndexByte(s, c) != -1
unfoldable pub contains_byte : Bytes → ℕ → Bool
contains_byte [] c = false
contains_byte (x ∷ s) c = (x == c) || contains_byte s c

abbrev pub Lacks : ℕ → Bytes → Type 0
Lacks c = All (λ x. x ≢ c)

pub contains_byte-append :
    (s t : Bytes) (c : ℕ) → contains_byte (s ++ t) c ≡ (contains_byte s c || contains_byte t c)
unfolding contains_byte
contains_byte-append [] t c = refl
contains_byte-append (x ∷ s) t c = ground (arith, contains_byte-append s t c)

pub contains_byte-Lacks : (s : Bytes) (c : ℕ) → (contains_byte s c ≡ false) ↔ Lacks c s
unfolding contains_byte
contains_byte-Lacks [] c = (λ h. tt, λ h. refl)
contains_byte-Lacks (x ∷ s) c = (
  λ h. (λ e. ground arith, (contains_byte-Lacks s c).0 (ground arith)),
  λ h. ground (arith, (contains_byte-Lacks s c).1 h.1),
)

-- What strings.Split makes of a byte in front of the rest: a cut, or one more byte of the first part.
abbrev grow_first : ℕ → List Bytes → List Bytes
grow_first x [] = (x ∷ []) ∷ []
grow_first x (p ∷ ps) = (x ∷ p) ∷ ps

-- strings.Split(s, string(sep)): at least one part.
unfoldable pub split : Bytes → ℕ → List Bytes
split [] sep = [] ∷ []
split (x ∷ s) sep = if x == sep then [] ∷ split s sep else grow_first x (split s sep)

-- strings.Join(parts, string(sep))
unfoldable pub join : List Bytes → ℕ → Bytes
join [] sep = []
join (p ∷ []) sep = p
join (p ∷ q ∷ ps) sep = p ++ (sep ∷ join (q ∷ ps) sep)
