-- ===== src/Protocol/Order.antt =====
-- CompareProtoVersions of protocol/protocol.go as an order.
use friend_net.Prelude.{◌≡◌, refl, ap, sym, ◌∙◌, ◌↔◌, Option, none, some, arith}
use friend_net.Protocol.{ProtoVersion, Comparison, older, same, newer, compare_proto_versions}

abbrev pub flip : Comparison → Comparison
flip older = newer
flip same = same
flip newer = older

compare_same : (a b : Option ProtoVersion) → compare_proto_versions a b ≡ same → a ≡ b
unfolding compare_proto_versions
compare_same none none e = refl
compare_same none (some b) e = ground arith
compare_same (some a) none e = ground arith
compare_same (some a) (some b) e = ground arith

compare_self : (a : Option ProtoVersion) → compare_proto_versions a a ≡ same
unfolding compare_proto_versions
compare_self none = refl
compare_self (some a) = ground arith

compare_flip :
    (a b : Option ProtoVersion) → compare_proto_versions b a ≡ flip (compare_proto_versions a b)
unfolding compare_proto_versions
compare_flip none none = refl
compare_flip none (some b) = refl
compare_flip (some a) none = refl
compare_flip (some a) (some b) = ground arith

compare_trans :
    (a b c : Option ProtoVersion)
    → compare_proto_versions a b ≡ older
    → compare_proto_versions b c ≡ older
    → compare_proto_versions a c ≡ older
unfolding compare_proto_versions
compare_trans none none none e f = e
compare_trans none (some b) none e f = ground arith
compare_trans none b (some c) e f = refl
compare_trans (some a) none c e f = ground arith
compare_trans (some a) (some b) none e f = ground arith
compare_trans (some a) (some b) (some c) e f = ground arith

-- CompareProtoVersions gives 0 exactly for equal versions, the opposite sign when its arguments change
-- places, and is transitive: it is a total order, with nil before every version.
pub compare_proto_versions_lem :
    (a b c : Option ProtoVersion)
    → ((compare_proto_versions a b ≡ same) ↔ (a ≡ b))
      × (compare_proto_versions b a ≡ flip (compare_proto_versions a b))
      × (compare_proto_versions a b ≡ older
          → compare_proto_versions b c ≡ older
          → compare_proto_versions a c ≡ older)
compare_proto_versions_lem a b c = (
  (compare_same a b, λ e. ap (compare_proto_versions a) (sym e) ∙ compare_self a),
  compare_flip a b,
  compare_trans a b c,
)
