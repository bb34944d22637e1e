-- ===== src/Client/Direct.antt =====
-- client/direct/config.go: Config.Validate. netip.ParseAddrPort and netip.ParseAddr are the parameters of
-- the definitions, an address is its bits, and the map of addresses is the list of its keys, in the order
-- in which they came.
use friend_net.Prelude.{
  ℕ, Bool, true, false, not, ◌||◌, ◌&&◌, Option, none, some, List, [], ◌∷◌, ◌++◌, Bytes,
  contains_byte, ◌==◌, if◌then◌else◌,
}
pub mod Wildcards
mod Tests

pub data Addr : Type 0 where
  v4 v6 : ℕ → Addr

pub record AddrPort : Type 0 where
  pub addr : Addr
  pub port : ℕ

unfoldable pub addr_eq : Addr → Addr → Bool
addr_eq (v4 a) (v4 b) = a == b
addr_eq (v4 a) (v6 b) = false
addr_eq (v6 a) (v4 b) = false
addr_eq (v6 a) (v6 b) = a == b

-- 0.0.0.0 and ::
abbrev pub any_ipv4 : Addr
any_ipv4 = v4 0

abbrev pub any_ipv6 : Addr
any_ipv6 = v6 0

abbrev pub is6 : Addr → Bool
is6 (v4 a) = false
is6 (v6 a) = true

-- Whether the map has the key.
unfoldable pub has_addr : List AddrPort → AddrPort → Bool
unfolding addr_eq
has_addr [] a = false
has_addr (x ∷ xs) a = (addr_eq x.addr a.addr && (x.port == a.port)) || has_addr xs a

unfoldable pub put_addr : AddrPort → List AddrPort → List AddrPort
unfolding has_addr
put_addr a addrs = if has_addr addrs a then addrs else addrs ++ a ∷ []

unfoldable pub has_port : List ℕ → ℕ → Bool
has_port [] port = false
has_port (p ∷ ports) port = (p == port) || has_port ports port

-- The map with the ports of 0.0.0.0 and of :: that were written with a port.
pub record Parsed : Type 0 where
  pub addrs : List AddrPort
  pub any4_ports : List ℕ
  pub any6_ports : List ℕ

abbrev pub add_port : AddrPort → Parsed → Parsed
unfolding put_addr addr_eq
add_port val p =
    if addr_eq val.addr any_ipv4
    then record {
      addrs = put_addr val p.addrs;
      any4_ports = val.port ∷ p.any4_ports;
      any6_ports = p.any6_ports;
    }
    else if addr_eq val.addr any_ipv6
    then record {
      addrs = put_addr val p.addrs;
      any4_ports = p.any4_ports;
      any6_ports = val.port ∷ p.any6_ports;
    }
    else record p { addrs = put_addr val p.addrs }

module _ (parse_addr_port : Bytes → Option AddrPort) (parse_addr : Bytes → Option Addr) where
  abbrev parse_one : Bytes → Parsed → Option Parsed
  unfolding put_addr addr_eq
  parse_one addr p =
      if contains_byte addr b':'
      then elim (parse_addr_port addr) [ none ↦ none | some val ↦ some (add_port val p) ]
      else elim (parse_addr addr) [
        | none ↦ none
        | some a ↦ some (record p { addrs = put_addr (record { addr = a; port = 0 }) p.addrs })
      ]

  -- The loop over cfg.Addresses.
  unfoldable pub parse_each : List Bytes → Parsed → Option Parsed
  unfolding put_addr addr_eq
  parse_each [] p = some p
  parse_each (addr ∷ rest) p = elim (parse_one addr p) [ none ↦ none | some q ↦ parse_each rest q ]

-- Whether the second loop leaves an address in the map.
unfoldable pub stays : Parsed → AddrPort → Bool
unfolding has_addr has_port addr_eq
stays p a =
    let has_any4 = has_addr p.addrs (record { addr = any_ipv4; port = 0 }) in
    let has_any6 = has_addr p.addrs (record { addr = any_ipv6; port = 0 }) in
    if addr_eq a.addr any_ipv4 || addr_eq a.addr any_ipv6
    then true
    else if is6 a.addr
    then (if (a.port == 0) && has_any6 then false else has_port p.any6_ports a.port)
    else if (a.port == 0) && has_any4
    then false
    else has_port p.any4_ports a.port

unfoldable pub keep : Parsed → List AddrPort → List AddrPort
unfolding stays
keep p [] = []
keep p (a ∷ addrs) = if stays p a then a ∷ keep p addrs else keep p addrs

abbrev is_nil : List ℕ → Bool
is_nil [] = true
is_nil (p ∷ ports) = false

unfoldable pub has_any : Parsed → Bool
unfolding has_addr addr_eq
has_any p =
    has_addr p.addrs (record { addr = any_ipv4; port = 0 })
    || has_addr p.addrs (record { addr = any_ipv6; port = 0 })
    || not (is_nil p.any4_ports)
    || not (is_nil p.any6_ports)

unfoldable pub listened : Parsed → List AddrPort
unfolding has_any keep
listened p = if has_any p then keep p p.addrs else p.addrs

pub data Validated : Type 0 where
  disabled missing_cert invalid_address : Validated
  listen_on : List AddrPort → Validated

abbrev or_invalid : Option Parsed → Validated
unfolding listened
or_invalid none = invalid_address
or_invalid (some p) = listen_on (listened p)

module _ (parse_addr_port : Bytes → Option AddrPort) (parse_addr : Bytes → Option Addr) where
  -- `disable` and `has_cert` are cfg.Disable and whether cfg.Cert has a certificate.
  unfoldable pub validate_config : Bool → Bool → List Bytes → Validated
  unfolding parse_each listened
  validate_config disable has_cert addresses =
      if disable
      then disabled
      else if not has_cert
      then missing_cert
      else or_invalid (
          parse_each parse_addr_port parse_addr addresses
            (record { addrs = []; any4_ports = []; any6_ports = [] }))
