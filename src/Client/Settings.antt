-- ===== src/Client/Settings.antt =====
-- client/storage/setting.go: the table setting, a key and its value in each row. `read` and `write` are
-- whether the statements work; an error is `none`. An int64 is its bit pattern below 2 ^ 64.
use friend_net.Prelude.{
  ℕ, ◌-◌, ◌^◌, Bool, true, false, Option, none, some, ◌∷◌, [], Bytes, bytes_eq, codes, String, ltb,
  if◌then◌else◌,
}
use friend_net.Prelude.Dict.{Dict, get, put, text_eq}
use friend_net.Common.HttpRange.{parse_int}
use friend_net.Common.HttpRange.Decimal.{decimal}
pub mod ReadBack
mod Tests

abbrev pub SettingTable : Type 0
SettingTable = Dict Bytes Bytes

abbrev or_default : Option Bytes → Bytes → Bytes
or_default none def = def
or_default (some value) def = value

unfoldable pub get_setting_or : Bool → Bytes → Bytes → SettingTable → Option Bytes
unfolding get
get_setting_or read key def t = if read then some (or_default (get t key) def) else none

-- `fn` is what the default function returns.
unfoldable pub get_setting_or_func : Bool → Bytes → Option Bytes → SettingTable → Option Bytes
unfolding get
get_setting_or_func read key fn t =
    if read then (elim (get t key) [ none ↦ fn | some value ↦ some value ]) else none

unfoldable pub get_setting_or_put_func :
    Bool → Bool → Bytes → Option Bytes → SettingTable → SettingTable × Option Bytes
unfolding get put
get_setting_or_put_func read write key none t = (t, if read then get t key else none)
get_setting_or_put_func read write key (some def) t =
    if read
    then elim (get t key) [
      | none ↦ if write then (put t key def, some def) else (t, none)
      | some value ↦ (t, some value)
    ]
    else (t, none)

unfoldable pub get_setting_or_put :
    Bool → Bool → Bytes → Bytes → SettingTable → SettingTable × Option Bytes
unfolding get put
get_setting_or_put read write key def t =
    if read
    then elim (get t key) [
      | none ↦ if write then (put t key def, some def) else (t, none)
      | some value ↦ (t, some value)
    ]
    else (t, none)

-- The table, and whether the write worked.
unfoldable pub put_setting : Bool → Bytes → Bytes → SettingTable → SettingTable × Bool
unfolding put
put_setting write key value t = if write then (put t key value, true) else (t, false)

-- strconv.FormatInt(n, 10)
unfoldable pub format_int : ℕ → Bytes
unfolding decimal
format_int n = if ltb n (2 ^ 63) then decimal n else b'-' ∷ decimal (2 ^ 64 - n)

-- The bit pattern of what strconv.ParseInt returns.
abbrev pub int_bits : Option (Bool × ℕ) → Option ℕ
int_bits none = none
int_bits (some (minus, n)) = if minus then some (2 ^ 64 - n) else some n

abbrev int_or : ℕ → Option Bytes → Option ℕ
unfolding parse_int
int_or def none = none
int_or def (some s) = if bytes_eq s [] then some def else int_bits (parse_int s)

unfoldable pub get_setting_int_or : Bool → Bytes → ℕ → SettingTable → Option ℕ
unfolding get_setting_or parse_int
get_setting_int_or read key def t = int_or def (get_setting_or read key [] t)

abbrev as_int : Option Bytes → Option ℕ
unfolding parse_int
as_int none = none
as_int (some s) = int_bits (parse_int s)

unfoldable pub get_setting_int_or_put :
    Bool → Bool → Bytes → ℕ → SettingTable → SettingTable × Option ℕ
unfolding get_setting_or_put format_int parse_int
get_setting_int_or_put read write key def t =
    let (after, s) = get_setting_or_put read write key (format_int def) t in (after, as_int s)

unfoldable pub put_setting_int : Bool → Bytes → ℕ → SettingTable → SettingTable × Bool
unfolding put_setting format_int
put_setting_int write key value t = put_setting write key (format_int value) t

abbrev pub bool_text : Bool → Bytes
bool_text true = codes "true"
bool_text false = codes "false"

abbrev as_bool : Option Bytes → Option Bool
as_bool none = none
as_bool (some s) =
    if bytes_eq s (codes "true")
    then some true
    else if bytes_eq s (codes "false")
    then some false
    else none

abbrev bool_or : Bool → Option Bytes → Option Bool
bool_or def none = none
bool_or def (some s) = if bytes_eq s [] then some def else as_bool (some s)

unfoldable pub get_setting_bool_or : Bool → Bytes → Bool → SettingTable → Option Bool
unfolding get_setting_or
get_setting_bool_or read key def t = bool_or def (get_setting_or read key [] t)

unfoldable pub get_setting_bool_or_put :
    Bool → Bool → Bytes → Bool → SettingTable → SettingTable × Option Bool
unfolding get_setting_or_put
get_setting_bool_or_put read write key def t =
    let (after, s) = get_setting_or_put read write key (bool_text def) t in (after, as_bool s)

unfoldable pub put_setting_bool : Bool → Bytes → Bool → SettingTable → SettingTable × Bool
unfolding put_setting
put_setting_bool write key value t = put_setting write key (bool_text value) t
