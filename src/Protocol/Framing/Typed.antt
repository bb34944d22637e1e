-- ===== src/Protocol/Framing/Typed.antt =====
-- protocol/protocol.go: the struct of what is read belongs to its type, so that no assertion panics.
use friend_net.Prelude.{
  ℕ, ◌≡◌, ◌≢◌, inl, inr, refl, ap, ◌∙◌, sym, Bool, true, false, none, some, Bytes, if◌then◌else◌,
  ◌==◌, arith, Option-cases, Bool-cases, ==_iff, take, drop,
}
use friend_net.Protocol.Mappings.{
  Struct, msg_error, type_of, msg_type_to_empty_msg, msg_type_to_empty_msg_lem,
}
use friend_net.Protocol.Framing.{
  Protobuf, Source, eof, Filled, filled, ended, ReadResult, ok, failed, panics, no_mapping,
  undecodable, payload_too_large, read_uint32, decode_payload, read_payload, read_header, read_raw,
  read_msg, fill, msg_header_size,
}
use friend_net.Protocol.Framing.Expect.{expect, read_expect, to_typed}

module _ (p : Protobuf) where
  -- A message has the struct of its type.
  abbrev Right : ReadResult p → Type 0
  Right (ok typ m) = msg_type_to_empty_msg typ ≡ some (p.struct_of m)
  Right (failed e) = Unit
  Right panics = ⊥

  decode_unknown :
      (typ : ℕ) (b : Bytes)
      → msg_type_to_empty_msg typ ≡ none
      → decode_payload p typ b ≡ failed no_mapping
  unfolding decode_payload
  decode_unknown typ b unknown = rw (unknown, decode_payload) refl

  decode_known :
      (typ : ℕ) (b : Bytes) (s : Struct) (r : ReadResult p)
      → msg_type_to_empty_msg typ ≡ some s
      → (elim (p.unmarshal s b) as (λ _. ReadResult p) [
        | none ↦ failed undecodable
        | some m ↦ ok typ m
      ])
        ≡ r
      → decode_payload p typ b ≡ r
  unfolding decode_payload
  decode_known typ b s r known e = rw (known, decode_payload) e

  decode_payload-Right : (typ : ℕ) (b : Bytes) → Right (decode_payload p typ b)
  decode_payload-Right typ b = elim (Option-cases (msg_type_to_empty_msg typ)) [
    | inl unknown ↦ rw (decode_unknown typ b unknown) tt
    | inr (s, known) ↦ elim (Option-cases (p.unmarshal s b)) [
      | inl bad ↦ rw (decode_known typ b s (failed undecodable) known (rw bad refl)) tt
      | inr (m, good) ↦
          rw (decode_known typ b s (ok typ m) known (rw good refl))
            (known ∙ ap some (sym (p.unmarshal_struct s b m good)))
    ]
  ]

  read_payload-Right : (typ : ℕ) (f : Filled) → Right (read_payload p typ f).0
  unfolding read_payload
  read_payload-Right typ (ended b e) = tt
  read_payload-Right typ (filled b s) = decode_payload-Right typ b

  Right-if :
      (t : Bool) (x y : ReadResult p × Source)
      → Right x.0
      → Right y.0
      → Right (if t then x else y).0
  Right-if true x y hx hy = hx
  Right-if false x y hx hy = hy

  read_header-Right : (f : Filled) → Right (read_header p f).0
  unfolding read_header
  read_header-Right (ended b eof) = tt
  read_header-Right (ended b e) = tt
  read_header-Right (filled h s) =
      Right-if _ (failed payload_too_large, s)
        (read_payload p (read_uint32 (take 4 h)) (fill (read_uint32 (drop 4 h)) s)) tt
        (read_payload-Right (read_uint32 (take 4 h)) (fill (read_uint32 (drop 4 h)) s))

  read_raw-Right : (s : Source) → Right (read_raw p s).0
  unfolding read_raw
  read_raw-Right s = read_header-Right (fill msg_header_size s)

  error_struct :
      (typ : ℕ) (m : p.Msg)
      → typ ≡ 4
      → msg_type_to_empty_msg typ ≡ some (p.struct_of m)
      → p.struct_of m ≡ msg_error
  unfolding type_of
  error_struct typ m four h =
      let known : msg_type_to_empty_msg typ ≡ some msg_error =
        (msg_type_to_empty_msg_lem typ msg_error).1 four in
      cc (h, known)

  -- The type assertion of Read holds for an error message that has the struct of its type.
  read_msg-Right : (r : ReadResult p) → Right r → Right (read_msg p r)
  unfolding read_msg
  read_msg-Right (failed e) h = tt
  read_msg-Right panics h = h
  read_msg-Right (ok typ m) h = elim (Bool-cases (typ == 4)) [
    | inl four ↦
        let is_error : p.struct_of m ≡ msg_error = error_struct typ m ((==_iff typ 4).0 four) h in
        rw four (rw is_error tt)
    | inr other ↦ rw other h
  ]

  wanted_struct :
      (expected typ : ℕ) (want : Struct) (m : p.Msg)
      → msg_type_to_empty_msg expected ≡ some want
      → msg_type_to_empty_msg typ ≡ some (p.struct_of m)
      → (typ == expected) ≡ true
      → p.struct_of m ≡ want
  wanted_struct expected typ want m known h same =
      let e : typ ≡ expected = (==_iff typ expected).0 same in
      cc (ap msg_type_to_empty_msg e, known, h)

  to_typed-ne_panics :
      (want : Struct) (typ : ℕ) (m : p.Msg) → p.struct_of m ≡ want → to_typed p want typ m ≢ panics
  unfolding to_typed
  to_typed-ne_panics want typ m e = ground (arith, e, ap type_of e)

  expect-ne_panics :
      (expected : ℕ) (want : Struct) (r : ReadResult p)
      → msg_type_to_empty_msg expected ≡ some want
      → Right r
      → expect p expected want r ≢ panics
  unfolding expect
  expect-ne_panics expected want (failed e) known h = λ e. cc e
  expect-ne_panics expected want panics known h = absurd h
  expect-ne_panics expected want (ok typ m) known h = elim (Bool-cases (typ == expected)) [
    | inl same ↦
        let as_wanted : p.struct_of m ≡ want = wanted_struct expected typ want m known h same in
        rw same (to_typed-ne_panics want typ m as_wanted)
    | inr other ↦ rw other (λ e. cc e)
  ]

  -- Whatever arrives on a stream, reading a message of an expected type never panics at the caller's
  -- struct or at the struct of an error message, when the expected type is mapped to the caller's
  -- struct.
  pub read_expect-ne_panics :
      (expected : ℕ) (want : Struct) (s : Source)
      → msg_type_to_empty_msg expected ≡ some want
      → (read_expect p expected want s).0 ≢ panics
  unfolding read_expect
  read_expect-ne_panics expected want s known =
      expect-ne_panics expected want (read_msg p (read_raw p s).0) known
        (read_msg-Right (read_raw p s).0 (read_raw-Right s))
