-- ===== src/Client/Direct/Tests.antt =====
-- client/direct/config.go: 0.0.0.0 with a port beside another address.
use friend_net.Prelude.{
  ◌≡◌, refl, true, false, Option, none, some, [], ◌∷◌, Bytes, bytes_eq, contains_byte, codes,
  if◌then◌else◌, arith,
}
use friend_net.Client.Direct.{Addr, v4, AddrPort, any_ipv4, listen_on, validate_config}
use friend_net.Client.Direct.Wildcards.{at_port, validate_config_pair}

-- 127.0.0.1 is 2130706433.
abbrev parse_addr_port : Bytes → Option AddrPort
parse_addr_port s =
    if bytes_eq s (codes "0.0.0.0:80")
    then some (at_port any_ipv4 80)
    else if bytes_eq s (codes "127.0.0.1:90")
    then some (at_port (v4 2130706433) 90)
    else none

abbrev parse_addr : Bytes → Option Addr
parse_addr s = none

validate_config_pair_example :
    validate_config parse_addr_port parse_addr false true
      (codes "0.0.0.0:80" ∷ codes "127.0.0.1:90" ∷ [])
    ≡ listen_on (at_port any_ipv4 80 ∷ [])
unfolding contains_byte
validate_config_pair_example =
    validate_config_pair parse_addr_port parse_addr (codes "0.0.0.0:80") (codes "127.0.0.1:90") 80
      2130706433 90 refl refl refl refl (ground arith) (ground arith)
