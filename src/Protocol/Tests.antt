-- ===== src/Protocol/Tests.antt =====
-- protocol/protocol.go: three versions in order.
use friend_net.Prelude.{◌≡◌, refl, Option, some}
use friend_net.Protocol.{ProtoVersion, newer, compare_proto_versions}

abbrev v1_0_0 : Option ProtoVersion
v1_0_0 = some (record { major = 1; minor = 0; patch = 0 })

abbrev v1_2_0 : Option ProtoVersion
v1_2_0 = some (record { major = 1; minor = 2; patch = 0 })

abbrev v2_0_1 : Option ProtoVersion
v2_0_1 = some (record { major = 2; minor = 0; patch = 1 })

minor_first : compare_proto_versions v2_0_1 v1_2_0 ≡ newer
unfolding compare_proto_versions
minor_first = refl
