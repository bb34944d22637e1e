-- ===== src/Protocol/Framing/Expect.antt =====
-- protocol/protocol.go and protocol/stream.go: reading a message of an expected type, and requests with
-- one reply.
use friend_net.Prelude.{ℕ, Bool, true, false, Option, none, some, if◌then◌else◌, ◌==◌, not}
use friend_net.Protocol.Mappings.{Struct, type_of}
use friend_net.Protocol.Framing.{
  Protobuf, Source, StreamErr, eof, unreachable, stream_error, closed, broken, ReadResult, ok,
  failed, panics, header_failed, payload_failed, unexpected, read_raw, read_msg,
}

-- Structs are told apart by the type that they belong to.
abbrev pub is_struct : Struct → Struct → Bool
is_struct s t = type_of s == type_of t

abbrev is_stream_error : StreamErr → Bool
is_stream_error eof = false
is_stream_error unreachable = true
is_stream_error stream_error = true
is_stream_error closed = true
is_stream_error broken = false

module _ (p : Protobuf) where
  -- What ReadNext takes for the end. ErrPeerUnreachable is an error of its own, and is not.
  abbrev pub is_end : ReadResult p → Bool
  is_end (failed (header_failed e)) = is_stream_error e
  is_end (failed (payload_failed e)) = is_stream_error e
  is_end r = false

  -- ToTyped for the struct `want`.
  unfoldable pub to_typed : Struct → ℕ → p.Msg → ReadResult p
  to_typed want typ m = if is_struct (p.struct_of m) want then ok typ m else panics

  -- ReadExpect, and SendAndReceiveExpect and SendAndReceiveAck on the reply, where Read gave a result.
  unfoldable pub expect : ℕ → Struct → ReadResult p → ReadResult p
  unfolding to_typed
  expect expected want (failed e) = failed e
  expect expected want panics = panics
  expect expected want (ok typ m) =
      if not (typ == expected) then failed (unexpected expected typ) else to_typed want typ m

  unfoldable pub read_expect : ℕ → Struct → Source → ReadResult p × Source
  unfolding read_raw read_msg expect
  read_expect expected want s =
      let (r, s') = read_raw p s in (expect expected want (read_msg p r), s')

  -- ReadNext of a TypedMsgStream: `none` stands for the io.EOF that it makes of the end of a stream.
  unfoldable pub read_next : ℕ → Struct → Source → Option (ReadResult p) × Source
  unfolding read_expect
  read_next typ want s =
      let (r, s') = read_expect typ want s in (if is_end r then none else some r, s')

  -- ReadNext of a TransformerStream.
  unfoldable pub transform_next {ℓ} :
      {R : Type ℓ} → (ℕ → p.Msg → R) → Option (ReadResult p) → Option R
  transform_next f (some (ok typ m)) = some (f typ m)
  transform_next f (some (failed e)) = none
  transform_next f (some panics) = none
  transform_next f none = none
