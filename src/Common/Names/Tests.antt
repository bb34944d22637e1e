-- ===== src/Common/Names/Tests.antt =====
-- Names at concrete strings. 0x212A is the Kelvin sign, whose lowercase letter is an ASCII k.
use friend_net.Prelude.{ℕ, ◌≡◌, refl, [], ◌∷◌, none, some, codes, ◌==◌, if◌then◌else◌}
use friend_net.Common.Names.{normalize_username}

abbrev kelvin_lower : ℕ → ℕ
kelvin_lower c = if c == 0x212A then b'k' else c

normalize_examples :
    (normalize_username kelvin_lower (codes "Alice_01") ≡ some (codes "alice_01"))
    × (normalize_username kelvin_lower (codes "no spaces") ≡ none)
    × (normalize_username kelvin_lower (0x212A ∷ []) ≡ some (codes "k"))
    × (normalize_username kelvin_lower [] ≡ none)
unfolding normalize_username
normalize_examples = (refl, refl, refl, refl)
