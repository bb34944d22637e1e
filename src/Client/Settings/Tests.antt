-- ===== src/Client/Settings/Tests.antt =====
-- client/storage/setting.go: one setting.
use friend_net.Prelude.{◌-◌, ◌^◌, ◌≡◌, refl, true, some, [], ◌∷◌, codes, arith}
use friend_net.Client.Settings.{
  SettingTable, get_setting_or_put, get_setting_int_or, get_setting_int_or_put, put_setting_int,
}
use friend_net.Client.Settings.ReadBack.{put_setting_int-get}

abbrev no_settings : SettingTable
no_settings = []

default_kept :
    get_setting_or_put true true (codes "a") (codes "b") no_settings
    ≡ ((codes "a", codes "b") ∷ [], some (codes "b"))
unfolding get_setting_or_put
default_kept = refl

-- -1 is read back.
put_setting_int-get_example :
    (get_setting_int_or true
        (codes "a")
        5
        (put_setting_int true (codes "a") (2 ^ 64 - 1) no_settings).0
      ≡ some (2 ^ 64 - 1))
    × (get_setting_int_or_put true true
          (codes "a")
          5
          (put_setting_int true (codes "a") (2 ^ 64 - 1) no_settings).0
        ≡ ((put_setting_int true (codes "a") (2 ^ 64 - 1) no_settings).0, some (2 ^ 64 - 1)))
put_setting_int-get_example =
    put_setting_int-get true (codes "a") (2 ^ 64 - 1) 5 no_settings (omega arith)
