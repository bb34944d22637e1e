-- ===== src/Protocol/Framing/RoundTrip.antt =====
-- What ProtoStreamReader of protocol/protocol.go reads of what ProtoStreamWriter has written.
use friend_net.Prelude.{
  ℕ, zero, suc, ◌^◌, ◌≤◌, ◌<◌, ◌≡◌, refl, ap, ◌∙◌, false, Option, none, some, List, [], ◌∷◌, ◌++◌,
  append_assoc, Bytes, arith, length, map, All, Option-cases, inl, inr, ltb, take, drop, lt→ltb,
}
use friend_net.Protocol.Mappings.{
  type_of, msg_type_to_empty_msg_lem, type_of_bounds, msg_type_to_empty_msg_above,
}
use friend_net.Protocol.Framing.{
  Protobuf, Source, eof, frame, put_uint32, read_uint32, write, decode_payload, read_payload,
  read_header, read_raw, ReadResult, ok, failed, payload_too_large, no_mapping, max_payload_size,
  fill, filled,
}
use friend_net.Protocol.Framing.Reads.{flatten, closes, fill_front}

pub read_uint32-put_uint32 : (n : ℕ) → n < 2 ^ 32 → read_uint32 (put_uint32 n) ≡ n
read_uint32-put_uint32 n h = omega arith

le→ltb_false : (a b : ℕ) → b ≤ a → ltb a b ≡ false
le→ltb_false a b h = ground arith

module _ (p : Protobuf) where
  -- proto.Size, 0 where the message cannot be marshalled.
  abbrev pub size : p.Msg → ℕ
  size m = elim (p.marshal m) [ none ↦ 0 | some b ↦ length b ]

  -- Each message under the type that its struct belongs to.
  unfoldable pub write_each : List p.Msg → Option Bytes
  unfolding write
  write_each [] = some []
  write_each (m ∷ ms) = elim (write p (type_of (p.struct_of m)) m) [
    | none ↦ none
    | some b ↦ elim (write_each ms) [ none ↦ none | some out ↦ some (b ++ out) ]
  ]

  unfoldable pub read_times : ℕ → Source → List (ReadResult p) × Source
  unfolding read_raw
  read_times zero s = ([], s)
  read_times (suc n) s =
      let (r, s') = read_raw p s in let (rs, s'') = read_times n s' in (r ∷ rs, s'')

  read_header_fits :
      (h : Bytes) (s : Source) (typ len : ℕ)
      → read_uint32 (take 4 h) ≡ typ
      → read_uint32 (drop 4 h) ≡ len
      → len ≤ max_payload_size
      → read_header p (filled h s) ≡ read_payload p typ (fill len s)
  unfolding read_header
  read_header_fits h s typ len e1 e2 fits =
      rw (e1, e2) (rw (le→ltb_false max_payload_size len fits) refl)

  read_header_large :
      (h : Bytes) (s : Source) (len : ℕ)
      → read_uint32 (drop 4 h) ≡ len
      → max_payload_size < len
      → read_header p (filled h s) ≡ (failed payload_too_large, s)
  unfolding read_header
  read_header_large h s len e large = rw e (rw (lt→ltb max_payload_size len large) refl)

  -- One frame of a payload that is not too large.
  read_raw-frame :
      (typ : ℕ) (b rest : Bytes) (s : Source)
      → typ < 2 ^ 32
      → length b ≤ max_payload_size
      → flatten s ≡ frame typ b ++ rest
      → closes s ≡ eof
      → (s' : Source) × (read_raw p s ≡ (decode_payload p typ b, s'))
        × (flatten s' ≡ rest)
        × (closes s' ≡ eof)
  unfolding read_raw frame read_payload
  read_raw-frame typ b rest s small fits e closed =
      let (s1, header, left, closed1) =
        fill_front (put_uint32 typ ++ put_uint32 (length b)) (b ++ rest) 8 s refl e closed in
      let (s2, payload, left2, closed2) = fill_front b rest (length b) s1 refl left closed1 in
      (
        s2,
        ap (read_header p) header
            ∙ (read_header_fits (put_uint32 typ ++ put_uint32 (length b)) s1 typ (length b)
                  (read_uint32-put_uint32 typ small)
                  (read_uint32-put_uint32 (length b) (omega (arith, fits))) fits
                ∙ ap (read_payload p typ) payload),
        left2,
        closed2,
      )

  decode_payload-marshal :
      (m : p.Msg) (b : Bytes)
      → p.marshal m ≡ some b
      → decode_payload p (type_of (p.struct_of m)) b ≡ ok (type_of (p.struct_of m)) m
  unfolding decode_payload
  decode_payload-marshal m b e =
      rw
        (
          (msg_type_to_empty_msg_lem (type_of (p.struct_of m)) (p.struct_of m)).1 refl,
          decode_payload,
        )
        (rw (p.unmarshal-marshal m b e) refl)

  -- How a run of writes is put together, one message in front.
  write_each_cons :
      (m : p.Msg) (ms : List p.Msg) (out : Bytes)
      → write_each (m ∷ ms) ≡ some out
      → (b tail : Bytes) × (p.marshal m ≡ some b)
        × (write_each ms ≡ some tail)
        × (out ≡ frame (type_of (p.struct_of m)) b ++ tail)
  unfolding write_each
  write_each_cons m ms out e = elim (Option-cases (p.marshal m)) [
    | inl bad ↦ absurd (ground (arith, e, bad))
    | inr (b, good) ↦ elim (Option-cases (write_each ms)) [
      | inl bad ↦ absurd (ground (arith, e, good, bad))
      | inr (tail, good_tail) ↦ (b, tail, good, good_tail, ground (arith, e, good, good_tail))
    ]
  ]

  write_each_nil : (out : Bytes) → write_each [] ≡ some out → out ≡ []
  unfolding write_each
  write_each_nil out e = ground (arith, e)

  read_times_cons :
      (n : ℕ) (s s1 s2 : Source) (r : ReadResult p) (rs : List (ReadResult p))
      → read_raw p s ≡ (r, s1)
      → read_times n s1 ≡ (rs, s2)
      → read_times (suc n) s ≡ (r ∷ rs, s2)
  unfolding read_times
  read_times_cons n s s1 s2 r rs e1 e2 = rw e1 (rw e2 refl)

  size_marshal : (m : p.Msg) (b : Bytes) → p.marshal m ≡ some b → size m ≡ length b
  size_marshal m b e = rw (e, size) refl

  -- Messages written one after the other, each at most 512 KiB long, are read one after the other, in
  -- whatever pieces the stream returns their bytes, and what stands behind them is left; the stream
  -- ends with io.EOF.
  pub read_times-write_each :
      (ms : List p.Msg) (out rest : Bytes) (s : Source)
      → write_each ms ≡ some out
      → All (λ m. size m ≤ max_payload_size) ms
      → flatten s ≡ out ++ rest
      → closes s ≡ eof
      → (s' : Source) × (read_times (length ms) s
          ≡ (map (λ m. ok (type_of (p.struct_of m)) m) ms, s'))
        × (flatten s' ≡ rest)
        × (closes s' ≡ eof)
  unfolding read_times
  read_times-write_each [] out rest s e fits f closed =
      (s, refl, f ∙ ap (λ o. o ++ rest) (write_each_nil out e), closed)
  read_times-write_each (m ∷ ms) out rest s e fits f closed =
      let (b, tail, good, good_tail, parts) = write_each_cons m ms out e in
      let fits_b : length b ≤ max_payload_size = omega (arith, fits.0, size_marshal m b good) in
      let (s1, first, left, closed1) =
        read_raw-frame (type_of (p.struct_of m)) b (tail ++ rest) s
          (omega (arith, type_of_bounds (p.struct_of m))) fits_b
          (f
            ∙ (ap (λ o. o ++ rest) parts
                ∙ append_assoc (frame (type_of (p.struct_of m)) b) tail rest))
          closed in
      let (s2, others, left2, closed2) =
        read_times-write_each ms tail rest s1 good_tail fits.1 left closed1 in
      (
        s2,
        read_times_cons (length ms) s s1 s2 _ _
            (first ∙ ap (λ r. (r, s1)) (decode_payload-marshal m b good)) others,
        left2,
        closed2,
      )

  -- A message longer than 512 KiB and shorter than 4 GiB is written without an error, and whoever
  -- reads it gets the error that its payload is too large; the stream ends with io.EOF.
  pub read_raw-write_large :
      (typ : ℕ) (m : p.Msg) (b rest : Bytes) (s : Source)
      → p.marshal m ≡ some b
      → max_payload_size < length b
      → length b < 2 ^ 32
      → flatten s ≡ frame typ b ++ rest
      → closes s ≡ eof
      → (write p typ m ≡ some (frame typ b)) × ((read_raw p s).0 ≡ failed payload_too_large)
  unfolding write read_raw frame
  read_raw-write_large typ m b rest s e large small f closed =
      let (s1, header, left, closed1) =
        fill_front (put_uint32 typ ++ put_uint32 (length b)) (b ++ rest) 8 s refl f closed in
      (
        rw (e, write) refl,
        ap (λ h. (read_header p h).0) header
            ∙ ap (λ r. r.0)
                (read_header_large (put_uint32 typ ++ put_uint32 (length b)) s1 (length b)
                  (read_uint32-put_uint32 (length b) small) large),
      )

  -- A message of a type above 41, such as the DOWNLOAD_STATUS_UPDATE, 42, that the download manager
  -- sends, is not decoded by any reader, which finds no struct for it; the stream ends with io.EOF.
  pub read_raw_unmapped :
      (typ : ℕ) (b rest : Bytes) (s : Source)
      → 41 < typ
      → typ < 2 ^ 32
      → length b ≤ max_payload_size
      → flatten s ≡ frame typ b ++ rest
      → closes s ≡ eof
      → (read_raw p s).0 ≡ failed no_mapping
  unfolding decode_payload
  read_raw_unmapped typ b rest s large small fits f closed =
      let (s', read_so, left, closed') = read_raw-frame typ b rest s small fits f closed in
      ap (λ r. r.0) read_so ∙ rw (msg_type_to_empty_msg_above typ large, decode_payload) refl
