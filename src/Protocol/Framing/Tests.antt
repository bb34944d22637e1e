-- ===== src/Protocol/Framing/Tests.antt =====
-- Frames on concrete streams, with messages that are their struct and their bytes.
use friend_net.Prelude.{◌≡◌, ◌≢◌, refl, Option, some, List, [], ◌∷◌, Bytes, map, arith}
use friend_net.Protocol.Mappings.{Struct, msg_ping, msg_pong, type_of, msg_type_to_empty_msg_lem}
use friend_net.Protocol.Framing.{Protobuf, Source, more, last, eof, frame, ok, panics}
use friend_net.Protocol.Framing.Reads.{flatten, closes}
use friend_net.Protocol.Framing.RoundTrip.{write_each, read_times, read_times-write_each}
use friend_net.Protocol.Framing.Expect.{read_expect}
use friend_net.Protocol.Framing.Typed.{read_expect-ne_panics}

plain_struct :
    (s : Struct) (b : Bytes) (m : Struct × Bytes)
    → ◌≡◌ {A = Option (Struct × Bytes)} (some (s, b)) (some m)
    → m.0 ≡ s
plain_struct s b m e = ground (arith, e)

plain_again :
    (m : Struct × Bytes) (b : Bytes)
    → ◌≡◌ {A = Option Bytes} (some m.1) (some b)
    → ◌≡◌ {A = Option (Struct × Bytes)} (some (m.0, b)) (some m)
plain_again m b e = ground (arith, e)

abbrev plain : Protobuf
plain = record {
  Msg = Struct × Bytes;
  struct_of = λ m. m.0;
  marshal = λ m. some m.1;
  unmarshal = λ s b. some (s, b);
  unmarshal_struct = plain_struct;
  unmarshal-marshal = plain_again;
}

-- A ping and a pong with one byte each, in three pieces, and a byte behind them.
abbrev two : List (Struct × Bytes)
two = (msg_ping, 7 ∷ []) ∷ (msg_pong, 8 ∷ []) ∷ []

abbrev wire : Bytes
wire = 1 ∷ 0 ∷ 0 ∷ 0 ∷ 1 ∷ 0 ∷ 0 ∷ 0 ∷ 7 ∷ 2 ∷ 0 ∷ 0 ∷ 0 ∷ 1 ∷ 0 ∷ 0 ∷ 0 ∷ 8 ∷ []

abbrev pieces : Source
pieces =
    more (1 ∷ 0 ∷ 0 ∷ [])
      (more (0 ∷ 1 ∷ 0 ∷ 0 ∷ 0 ∷ 7 ∷ 2 ∷ 0 ∷ 0 ∷ 0 ∷ []) (last (1 ∷ 0 ∷ 0 ∷ 0 ∷ 8 ∷ 9 ∷ []) eof))

written : write_each plain two ≡ some wire
unfolding write_each type_of frame
written = refl

read_times-write_each_example :
    (s' : Source) × (read_times plain 2 pieces
      ≡ (map (λ (m : Struct × Bytes). ok (type_of m.0) m) two, s'))
    × (flatten s' ≡ 9 ∷ [])
    × (closes s' ≡ eof)
read_times-write_each_example =
    read_times-write_each plain two wire (9 ∷ []) pieces written (omega arith) refl refl

is_ping : 1 ≡ type_of msg_ping
unfolding type_of
is_ping = refl

read_expect-ne_panics_example : (read_expect plain 1 msg_ping pieces).0 ≢ panics
read_expect-ne_panics_example =
    read_expect-ne_panics plain 1 msg_ping pieces ((msg_type_to_empty_msg_lem 1 msg_ping).1 is_ping)
