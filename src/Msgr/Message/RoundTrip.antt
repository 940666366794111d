-- ===== src/Msgr/Message/RoundTrip.antt =====
-- Encoding and then decoding messages and their headers, in src/msgr/message.rs.
use rados_rs.Common.{
  ℕ, ◌^◌, ◌<◌, ◌≡◌, refl, ◌∙◌, arith, true, List, [], ◌∷◌, ◌++◌, append_assoc, append-nil, length,
  length-append, ◌&&◌, sym, leb, ensure, bind-inv, ensure-inv, ok-injective, ok, ◌==◌,
}
use rados_rs.Wire.Bytes.{le_bytes, length-le_bytes}
use rados_rs.Msgr.Frame.{Tag, tag_code, Limits, Frame, malformed}
use rados_rs.Msgr.Message as Msg
use rados_rs.Msgr.Message.{Message, checked_length, validate_segments, segments_of, content_at}
use rados_rs.Wire.Encoder.Emits.{
  Emits, Emits-then, Emits-u8, Emits-u16, Emits-u32, Emits-u64, finish-new,
}
use rados_rs.Wire.Decoder.Cursor.{
  cursor, error-cursor, remaining-cursor, new-cursor, u8-cursor, u16-cursor, u32-cursor, u64-cursor,
}
use rados_rs.Wire.Decoder.Read.{pure, bind-ok, check-passes}
use rados_rs.Msgr.Message.Header.{
  MessageHeader, message_header_size, write, encode, read, whole, of_read, decode,
}

-- The fields are of the widths that the source gives them.
pub record IsWide (h : MessageHeader) : Type 0 where
  pub sequence : h.sequence < 2 ^ 64
  pub transaction_id : h.transaction_id < 2 ^ 64
  pub message_type : h.message_type < 2 ^ 16
  pub priority : h.priority < 2 ^ 16
  pub version : h.version < 2 ^ 16
  pub data_pre_padding_length : h.data_pre_padding_length < 2 ^ 32
  pub data_offset : h.data_offset < 2 ^ 16
  pub ack_sequence : h.ack_sequence < 2 ^ 64
  pub flags : h.flags < 2 ^ 8
  pub compat_version : h.compat_version < 2 ^ 16
  pub reserved : h.reserved < 2 ^ 16

-- The layout of a header.
pub header_bytes : MessageHeader → List ℕ
header_bytes h =
    le_bytes 8 h.sequence
    ++ (le_bytes 8 h.transaction_id
        ++ (le_bytes 2 h.message_type
            ++ (le_bytes 2 h.priority
                ++ (le_bytes 2 h.version
                    ++ (le_bytes 4 h.data_pre_padding_length
                        ++ (le_bytes 2 h.data_offset
                            ++ (le_bytes 8 h.ack_sequence
                                ++ (h.flags
                                    ∷ (le_bytes 2 h.compat_version ++ le_bytes 2 h.reserved)))))))))

pub length-header_bytes : (h : MessageHeader) → length (header_bytes h) ≡ message_header_size
unfolding header_bytes
length-header_bytes h = simp (length-append, length-le_bytes)

write-Emits : (h : MessageHeader) → Emits (write h) (header_bytes h)
unfolding write header_bytes
write-Emits h = simp append_assoc at (
    Emits-then
      (Emits-then
        (Emits-then
          (Emits-then
            (Emits-then
              (Emits-then
                (Emits-then
                  (Emits-then
                    (Emits-then (Emits-then (Emits-u64 h.sequence) (Emits-u64 h.transaction_id))
                      (Emits-u16 h.message_type))
                    (Emits-u16 h.priority))
                  (Emits-u16 h.version))
                (Emits-u32 h.data_pre_padding_length))
              (Emits-u16 h.data_offset))
            (Emits-u64 h.ack_sequence))
          (Emits-u8 h.flags))
        (Emits-u16 h.compat_version))
      (Emits-u16 h.reserved))

-- The encoding of a header never fails, and its bytes are those of the fields in order.
pub encode-layout : (h : MessageHeader) → encode h ≡ header_bytes h
unfolding encode
encode-layout h =
    simp (finish-new (write-Emits h) message_header_size (omega arith), length-header_bytes h)

module _ (h : MessageHeader) (w : IsWide h) where
  read-cursor :
      (front rest : List ℕ) (m : ℕ)
      → read (cursor front (header_bytes h ++ rest) m)
        ≡ ok (h, cursor (front ++ header_bytes h) rest m)
  unfolding read header_bytes
  read-cursor front rest m =
      simp
        (
          append_assoc,
          u8-cursor,
          u64-cursor h.sequence w.sequence,
          u64-cursor h.transaction_id w.transaction_id,
          u16-cursor h.message_type w.message_type,
          u16-cursor h.priority w.priority,
          u16-cursor h.version w.version,
          u32-cursor h.data_pre_padding_length w.data_pre_padding_length,
          u16-cursor h.data_offset w.data_offset,
          u64-cursor h.ack_sequence w.ack_sequence,
          u16-cursor h.compat_version w.compat_version,
          u16-cursor h.reserved w.reserved,
        )
        (check-passes (pure h) _ (error-cursor _ rest m))

  whole-cursor :
      whole (cursor [] (header_bytes h ++ []) message_header_size)
      ≡ ok (h, cursor (header_bytes h) [] message_header_size)
  unfolding whole
  whole-cursor =
      bind-ok read _ (read-cursor [] [] message_header_size)
      ∙ rw (remaining-cursor (header_bytes h) [] message_header_size) refl

-- A header of fields of the source's widths is read back from its encoding.
pub decode-encode : (h : MessageHeader) → IsWide h → decode (encode h) ≡ ok h
unfolding decode of_read
decode-encode h w =
    let there : whole (cursor [] (header_bytes h) message_header_size)
        ≡ ok (h, cursor (header_bytes h) [] message_header_size) =
      (rw (append-nil (header_bytes h)) at (whole-cursor h w)) in
    simp (encode-layout h, length-header_bytes h, new-cursor, there)

checked_length_lem : (n : ℕ) {k : ℕ} → checked_length n ≡ ok k → k ≡ n
unfolding checked_length
checked_length_lem n {k} e = ground arith

module _ (m : Message) (limits : Limits) (w : IsWide m.header) where
  decode_segments :
      {f d p : ℕ}
      → checked_length (length m.front) ≡ ok f
      → checked_length (length m.middle) ≡ ok d
      → checked_length (length m.payload) ≡ ok p
      → (m.lengths.front == f
          && m.lengths.middle == d
          && m.lengths.payload == p
          && leb m.header.data_pre_padding_length p)
        ≡ true
      → validate_segments (segments_of m) limits ≡ ok tt
      → Msg.decode (record { tag = Tag.message; segments = segments_of m }) limits ≡ ok m
  unfolding Msg.decode segments_of content_at tag_code
  decode_segments {f} {d} {p} hf hd hp hc hv =
      let front : m.lengths.front ≡ f = ground (arith, hc) in
      let middle : m.lengths.middle ≡ d = ground (arith, hc) in
      let payload : m.lengths.payload ≡ p = ground (arith, hc) in
      let padding : leb m.header.data_pre_padding_length (length m.payload) ≡ true =
        ground (arith, hc, checked_length_lem (length m.payload) hp) in
      simp (hv, decode-encode m.header w, padding, hf, hd, hp, sym front, sym middle, sym payload)

  -- A message that is encoded into a frame is read back from it, under the same limits and where
  -- the fields of its header have the source's widths.
  pub message-round_trip :
      {frame : Frame} → Msg.encode m limits ≡ ok frame → Msg.decode frame limits ≡ ok m
  unfolding Msg.encode
  message-round_trip {frame} e =
      let (f, hf, e1) = bind-inv (checked_length (length m.front)) _ e in
      let (d, hd, e2) = bind-inv (checked_length (length m.middle)) _ e1 in
      let (p, hp, e3) = bind-inv (checked_length (length m.payload)) _ e2 in
      let (tt, hc, e4) = bind-inv (ensure _ malformed) _ e3 in
      let (tt, hv, e5) = bind-inv (validate_segments (segments_of m) limits) _ e4 in
      let made : record { tag = Tag.message; segments = segments_of m } ≡ frame = ok-injective e5 in
      rw (sym made) (decode_segments hf hd hp (ensure-inv _ malformed hc) hv)
