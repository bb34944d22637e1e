-- ===== src/Protocol.antt =====
-- protocol/protocol.go: the order of protocol versions.
pub mod Framing
pub mod Mappings
pub mod Order
mod Tests
use friend_net.Prelude.{
  ℕ, ◌≡◌, Bool, true, false, not, Option, none, some, ltb, ◌==◌, if◌then◌else◌,
}

-- pb.ProtoVersion
pub record ProtoVersion : Type 0 where
  pub major : ℕ
  pub minor : ℕ
  pub patch : ℕ

-- The results -1, 0 and 1.
pub data Comparison : Type 0 where
  older : Comparison
  same : Comparison
  newer : Comparison

-- One of the three blocks: what follows it decides where the numbers agree.
abbrev pub compare_numbers : ℕ → ℕ → Comparison → Comparison
compare_numbers a b rest = if not (a == b) then (if ltb a b then older else newer) else rest

unfoldable pub compare_proto_versions : Option ProtoVersion → Option ProtoVersion → Comparison
compare_proto_versions none none = same
compare_proto_versions none (some b) = older
compare_proto_versions (some a) none = newer
compare_proto_versions (some a) (some b) =
    compare_numbers a.major b.major
      (compare_numbers a.minor b.minor (compare_numbers a.patch b.patch same))
