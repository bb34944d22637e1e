-- ===== src/Protocol/Framing.antt =====
-- protocol/protocol.go: messages on a stream, as ProtoStreamWriter writes and ProtoStreamReader reads
-- them. protobuf is the parameter `Protobuf`; the QUIC stream that is read is a `Source`, which fixes
-- in what pieces the bytes arrive and with what error they end.
pub mod Reads
pub mod Expect
pub mod RoundTrip
pub mod Typed
mod Tests
use friend_net.Prelude.{
  ℕ, zero, suc, ◌+◌, ◌-◌, ◌*◌, ◌/◌, ◌%◌, ◌≡◌, Bool, true, false, Option, none, some, List, [], ◌∷◌,
  ◌++◌, Bytes, if◌then◌else◌, leb, ltb, ◌==◌, length, take, drop, not,
}
use friend_net.Protocol.Mappings.{Struct, msg_error, msg_type_to_empty_msg}

-- What package proto does with messages of the type `Msg`. Unmarshal gives a message of the struct it
-- is given, and gives back what Marshal has encoded.
pub record Protobuf : Type 1 where
  pub Msg : Type 0
  pub struct_of : Msg → Struct
  pub marshal : Msg → Option Bytes
  pub unmarshal : Struct → Bytes → Option Msg
  pub unmarshal_struct :
      (s : Struct) (b : Bytes) (m : Msg) → unmarshal s b ≡ some m → struct_of m ≡ s
  pub unmarshal-marshal :
      (m : Msg) (b : Bytes) → marshal m ≡ some b → unmarshal (struct_of m) b ≡ some m

-- The errors of a stream: io.EOF, a stream error with ProxyPeerUnreachableStreamErrorCode, one with
-- another code, quic.ErrServerClosed or quic.ErrTransportClosed, and others.
pub data StreamErr : Type 0 where
  eof unreachable stream_error closed broken : StreamErr

-- What Read has still to return: a piece and more; a last piece, whose bytes come with the error; or
-- the error alone.
pub data Source : Type 0 where
  more : Bytes → Source → Source
  last : Bytes → StreamErr → Source
  ends : StreamErr → Source

-- The loops of ReadRaw: all of the bytes and what is left of the stream, or how far they came.
pub data Filled : Type 0 where
  filled : Bytes → Source → Filled
  ended : Bytes → StreamErr → Filled

abbrev is_eof : StreamErr → Bool
is_eof eof = true
is_eof unreachable = false
is_eof stream_error = false
is_eof closed = false
is_eof broken = false

abbrev prepend : Bytes → Filled → Filled
prepend c (filled b s) = filled (c ++ b) s
prepend c (ended b e) = ended (c ++ b) e

-- Read until `n` bytes are there. A piece that is too long is cut, and the rest is kept by the stream.
-- An error that comes with the last bytes that are wanted is let pass if it is io.EOF.
unfoldable pub fill : ℕ → Source → Filled
fill zero s = filled [] s
fill (suc n) (ends e) = ended [] e
fill (suc n) (last c e) =
    if ltb (suc n) (length c)
    then filled (take (suc n) c) (last (drop (suc n) c) e)
    else if (length c == suc n)
    then (if is_eof e then filled c (ends e) else ended c e)
    else ended c e
fill (suc n) (more c s) =
    let rest = fill (suc n - length c) s in
    if ltb (suc n) (length c)
    then filled (take (suc n) c) (more (drop (suc n) c) s)
    else prepend c rest

-- binary.LittleEndian.PutUint32, which keeps the low 32 bits, and Uint32.
abbrev pub put_uint32 : ℕ → Bytes
put_uint32 n = n % 256 ∷ (n / 256) % 256 ∷ (n / 65536) % 256 ∷ (n / 16777216) % 256 ∷ []

abbrev pub read_uint32 : Bytes → ℕ
read_uint32 [] = 0
read_uint32 (a ∷ b) = a + 256 * read_uint32 b

abbrev pub msg_header_size : ℕ
msg_header_size = 8

abbrev pub max_payload_size : ℕ
max_payload_size = 512 * 1024

-- The header and the payload.
unfoldable pub frame : ℕ → Bytes → Bytes
frame typ payload = put_uint32 typ ++ (put_uint32 (length payload) ++ payload)

module _ (p : Protobuf) where
  pub data ReadError : Type 0 where
    peer_unreachable : ReadError
    header_failed : StreamErr → ReadError
    payload_too_large : ReadError
    payload_failed : StreamErr → ReadError
    no_mapping : ReadError
    undecodable : ReadError
    -- ProtoMsgError
    proto_msg : p.Msg → ReadError
    -- UnexpectedMsgTypeError
    unexpected : ℕ → ℕ → ReadError

  -- UntypedProtoMsg, or the error.
  pub data ReadResult : Type 0 where
    ok : ℕ → p.Msg → ReadResult
    failed : ReadError → ReadResult
    -- The payload is not of the struct that the caller asks for.
    panics : ReadResult

  -- Write: what it puts on the stream, `none` where the payload cannot be marshalled.
  unfoldable pub write : ℕ → p.Msg → Option Bytes
  unfolding frame
  write typ m = elim (p.marshal m) [ none ↦ none | some b ↦ some (frame typ b) ]

  unfoldable pub decode_payload : ℕ → Bytes → ReadResult
  decode_payload typ payload = elim (msg_type_to_empty_msg typ) [
    | none ↦ failed no_mapping
    | some s ↦ elim (p.unmarshal s payload) [ none ↦ failed undecodable | some m ↦ ok typ m ]
  ]

  unfoldable pub read_payload : ℕ → Filled → ReadResult × Source
  unfolding decode_payload
  read_payload typ (ended b e) = (failed (payload_failed e), ends e)
  read_payload typ (filled b s) = (decode_payload typ b, s)

  -- ReadRaw, with what is left of the stream.
  unfoldable pub read_header : Filled → ReadResult × Source
  unfolding fill read_payload
  read_header (ended b unreachable) = (failed peer_unreachable, ends unreachable)
  read_header (ended b e) = (failed (header_failed e), ends e)
  read_header (filled h s) =
      let payload_len = read_uint32 (drop 4 h) in
      if ltb max_payload_size payload_len
      then (failed payload_too_large, s)
      else read_payload (read_uint32 (take 4 h)) (fill payload_len s)

  unfoldable pub read_raw : Source → ReadResult × Source
  unfolding fill read_header
  read_raw s = read_header (fill msg_header_size s)

  -- Read: MSG_TYPE_ERROR, 4, is returned as an error. The type assertion panics where the payload is
  -- of another struct.
  abbrev error_of : Struct → p.Msg → ReadResult
  error_of msg_error m = failed (proto_msg m)
  error_of s m = panics

  unfoldable pub read_msg : ReadResult → ReadResult
  read_msg (failed e) = failed e
  read_msg panics = panics
  read_msg (ok typ m) = if typ == 4 then error_of (p.struct_of m) m else ok typ m
