-- ===== src/Client/Settings/ReadBack.antt =====
-- client/storage/setting.go: that a setting is read as it was put.
use friend_net.Prelude.{
  ℕ, ◌-◌, ◌^◌, ◌≤◌, ◌<◌, ◌≡◌, refl, ap, ◌∙◌, inl, inr, Bool, true, false, some, [], ◌∷◌, Bytes,
  bytes_eq, codes, leb, ltb, ◌==◌, arith, Bool-cases,
}
use friend_net.Prelude.Dict.{get, put, get-put, beq_refl, text_eq}
use friend_net.Common.HttpRange.{parse_int, in_int64, unsigned, digits}
use friend_net.Common.HttpRange.Decimal.{decimal, parse_int-decimal, digits-decimal, decimal_there}
use friend_net.Client.Settings.{
  SettingTable, get_setting_or, get_setting_or_put, put_setting, format_int, int_bits,
  get_setting_int_or, get_setting_int_or_put, put_setting_int, get_setting_bool_or,
  get_setting_bool_or_put, put_setting_bool,
}

get-put_same : (t : SettingTable) (key value : Bytes) → get (put t key value) key ≡ some value
get-put_same t key value = get-put t key key value ∙ rw (beq_refl key) refl

unsigned-digits : (s : Bytes) → bytes_eq s [] ≡ false → unsigned s ≡ digits 0 s
unsigned-digits [] h = absurd (ground (arith, h))
unsigned-digits (c ∷ s) h = refl

parse_int-minus : (s : Bytes) → parse_int (45 ∷ s) ≡ in_int64 true (unsigned s)
unfolding parse_int
parse_int-minus s = refl

int_bits-minus :
    (m : ℕ) → 1 ≤ m → m ≤ 2 ^ 63 → int_bits (in_int64 true (some m)) ≡ some (2 ^ 64 - m)
int_bits-minus m h k =
    let fits : leb m (2 ^ 63) ≡ true = ground (arith, k) in
    let below_zero : (m == 0) ≡ false = ground (arith, h) in rw (fits, below_zero) refl

int_bits-format_int : (n : ℕ) → n < 2 ^ 64 → int_bits (parse_int (format_int n)) ≡ some n
unfolding format_int
int_bits-format_int n h = elim (Bool-cases (ltb n (2 ^ 63))) [
  | inl small ↦ rw small (rw (parse_int-decimal n (ground (arith, small))) refl)
  | inr large ↦
      let m = 2 ^ 64 - n in
      let value : unsigned (decimal m) ≡ some m =
        unsigned-digits (decimal m) (decimal_there m) ∙ digits-decimal m in
      let back : 2 ^ 64 - m ≡ n = omega (arith, h) in
      rw large (
        ap int_bits (parse_int-minus (decimal m) ∙ ap (in_int64 true) value)
        ∙ int_bits-minus m (omega (arith, h)) (ground (arith, large))
        ∙ ap some back)
]

format_int_there : (n : ℕ) → bytes_eq (format_int n) [] ≡ false
unfolding format_int
format_int_there n = ground (arith, decimal_there n)

-- An int64 that was put is read back by GetSettingIntOr and GetSettingIntOrPut where the statements work,
-- whatever the default, and GetSettingIntOrPut leaves the table as it is.
pub put_setting_int-get :
    (write : Bool) (key : Bytes) (n def : ℕ) (t : SettingTable)
    → n < 2 ^ 64
    → (get_setting_int_or true key def (put_setting_int true key n t).0 ≡ some n)
      × (get_setting_int_or_put true write key def (put_setting_int true key n t).0
          ≡ ((put_setting_int true key n t).0, some n))
unfolding get_setting_int_or get_setting_int_or_put put_setting_int get_setting_or
    get_setting_or_put put_setting
put_setting_int-get write key n def t h =
    let same = get-put_same t key (format_int n) in
    let there = format_int_there n in
    let read_back = int_bits-format_int n h in
    (rw same (rw (there, read_back) refl), rw same (rw read_back refl))

-- The same for a Boolean.
pub put_setting_bool-get :
    (write : Bool) (key : Bytes) (b def : Bool) (t : SettingTable)
    → (get_setting_bool_or true key def (put_setting_bool true key b t).0 ≡ some b)
      × (get_setting_bool_or_put true write key def (put_setting_bool true key b t).0
          ≡ ((put_setting_bool true key b t).0, some b))
unfolding get_setting_bool_or get_setting_bool_or_put put_setting_bool get_setting_or
    get_setting_or_put put_setting
put_setting_bool-get write key true def t =
    let same = get-put_same t key (codes "true") in (rw same refl, rw same refl)
put_setting_bool-get write key false def t =
    let same = get-put_same t key (codes "false") in (rw same refl, rw same refl)
