-- ===== src/Client/Replace/Tests.antt =====
-- client/fsys/replace_test.go: a few names, over ASCII.
use friend_net.Prelude.{ℕ, ◌≡◌, ◌↔◌, refl, ◌∷◌, ◌++◌, codes}
use friend_net.Prelude.Dict.{get, nat_eq}
use friend_net.Client.Replace.{
  replace_rune, trim_right, up_to_dot, is_one_of, upper_rune, is_windows_reserved_device_name,
  strict_replacer, lenient_replacer_posix,
}
use friend_net.Client.Replace.Safe.{IsSafe, strict_replacer-IsSafe}

abbrev ascii : ℕ → ℕ
ascii c = c

device : strict_replacer ascii (codes "con.txt") ≡ codes "_con.txt"
unfolding strict_replacer replace_rune get trim_right is_windows_reserved_device_name up_to_dot
    is_one_of upper_rune
device = refl

dots : strict_replacer ascii (codes "..") ≡ codes "_"
unfolding strict_replacer replace_rune get trim_right is_windows_reserved_device_name up_to_dot
    is_one_of upper_rune
dots = refl

posix : lenient_replacer_posix (codes "a/b:c") ≡ codes "a" ++ (0xff0f ∷ codes "b:c")
unfolding lenient_replacer_posix
posix = refl

strict_replacer-IsSafe_example :
    IsSafe ascii (strict_replacer ascii (codes "a?. "))
    × ((strict_replacer ascii (codes "a?. ") ≡ codes "a?. ") ↔ IsSafe ascii (codes "a?. "))
strict_replacer-IsSafe_example = strict_replacer-IsSafe ascii (codes "a?. ")
