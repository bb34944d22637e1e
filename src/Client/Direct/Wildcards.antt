-- ===== src/Client/Direct/Wildcards.antt =====
-- client/direct/config.go: which addresses stay beside 0.0.0.0 with a port.
use friend_net.Prelude.{
  ℕ, ◌≡◌, ◌≢◌, refl, ap, true, false, Option, some, [], ◌∷◌, Bytes, contains_byte, ◌==◌,
  if◌then◌else◌, arith,
}
use friend_net.Client.Direct.{
  Addr, v4, AddrPort, any_ipv4, addr_eq, has_addr, put_addr, has_port, parse_each, stays, keep,
  has_any, listened, listen_on, Parsed, validate_config,
}

abbrev pub at_port : Addr → ℕ → AddrPort
at_port a port = record { addr = a; port = port }

-- What is known of the two addresses.
abbrev parsed_pair : ℕ → ℕ → ℕ → Parsed
parsed_pair p a q = record {
  addrs = at_port any_ipv4 p ∷ at_port (v4 a) q ∷ [];
  any4_ports = p ∷ [];
  any6_ports = [];
}

listened_pair :
    (p a q : ℕ)
    → a ≢ 0
    → p ≢ 0
    → listened (parsed_pair p a q)
      ≡ (if p == q then at_port any_ipv4 p ∷ at_port (v4 a) q ∷ [] else at_port any_ipv4 p ∷ [])
unfolding listened has_any keep stays has_addr has_port addr_eq
listened_pair p a q ha hp = ground (arith, ha, hp)

parse_pair :
    (parse_addr_port : Bytes → Option AddrPort) (parse_addr : Bytes → Option Addr)
    → (first second : Bytes) (p a q : ℕ) → contains_byte first 58 ≡ true
    → contains_byte second 58 ≡ true
    → parse_addr_port first ≡ some (at_port any_ipv4 p)
    → parse_addr_port second ≡ some (at_port (v4 a) q)
    → a ≢ 0
    → parse_each parse_addr_port parse_addr
        (first ∷ second ∷ [])
        (record { addrs = []; any4_ports = []; any6_ports = [] })
      ≡ some (parsed_pair p a q)
unfolding parse_each put_addr has_addr addr_eq
parse_pair parse_addr_port parse_addr first second p a q c d e f h =
    let other : (a == 0) ≡ false = ground (arith, h) in
    let apart : (0 == a) ≡ false = ground (arith, h) in
    rw (c, e, d, f, other, apart, parse_each) refl

-- Beside 0.0.0.0 with a port, an IPv4 address with a port stays just if the two ports are the same.
pub validate_config_pair :
    (parse_addr_port : Bytes → Option AddrPort) (parse_addr : Bytes → Option Addr)
    → (first second : Bytes) (p a q : ℕ) → contains_byte first 58 ≡ true
    → contains_byte second 58 ≡ true
    → parse_addr_port first ≡ some (at_port any_ipv4 p)
    → parse_addr_port second ≡ some (at_port (v4 a) q)
    → a ≢ 0
    → p ≢ 0
    → validate_config parse_addr_port parse_addr false true (first ∷ second ∷ [])
      ≡ listen_on
          (if p == q then at_port any_ipv4 p ∷ at_port (v4 a) q ∷ [] else at_port any_ipv4 p ∷ [])
unfolding validate_config
validate_config_pair parse_addr_port parse_addr first second p a q c d e f ha hp =
    rw (parse_pair parse_addr_port parse_addr first second p a q c d e f ha)
      (ap listen_on (listened_pair p a q ha hp))
