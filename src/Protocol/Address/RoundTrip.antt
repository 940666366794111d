-- ===== src/Protocol/Address/RoundTrip.antt =====
-- Encoding and then decoding addresses, in src/protocol/address.rs.
use rados_rs.Common.{
  ℕ, ◌+◌, ◌-◌, ◌*◌, ◌/◌, ◌%◌, ◌^◌, ◌≤◌, ◌<◌, ◌≡◌, refl, sym, ◌∙◌, arith, true, false, inl, inr,
  List, [], ◌∷◌, ◌++◌, append_assoc, append-nil, length, length-append, length-replicate, take,
  drop, replicate, ok, ◌>>=◌, u32_max, ◌==◌, if◌then◌else◌, Bool-cases, le→ltb, le→leb,
  take-append_length,
}
use rados_rs.Wire.Bytes.{le_bytes, length-le_bytes}
use rados_rs.Wire.Encoder as Enc
use rados_rs.Wire.Encoder.{Encoder}
use rados_rs.Wire.Encoder.Writes.{Writes}
use rados_rs.Wire.RoundTrip.{Reads, cursor-Reads, written_form}
use rados_rs.Wire.Encoder.Emits.{enveloped}
use rados_rs.Wire.Decoder.{new, raw}
use rados_rs.Wire.Decoder.Cursor.{
  cursor, new-cursor, error-cursor, u8-cursor, u16-cursor, u32-cursor, take_slice-cursor,
}
use rados_rs.Wire.Decoder.Read.{
  ◌>>◌, pure, check, within, bind-ok, check-passes, within-new, opened, opened-cursor,
}
use rados_rs.Protocol.Features.{contains, message_address_v2}
use rados_rs.Protocol.Address.{EntityAddr, af_unspec, type_none, type_legacy, from_be}
use rados_rs.Protocol.Address.Codec.{
  legacy_socket, wire_type, encode_form, encode, decode_legacy, read_socket, read_form,
  read_address, decode_v2, decode_after_marker, decode,
}
use rados_rs.Protocol.Address.Written.{
  IsAddr, family_lem, v2_payload, v2_bytes, legacy_bytes, address_bytes, sent, encode-Emits,
  encode_lem,
}

decode_marker :
    (marker : ℕ) (front rest : List ℕ) (m : ℕ)
    → decode (cursor front (marker ∷ rest) m)
      ≡ decode_after_marker marker (cursor (front ++ marker ∷ []) rest m)
unfolding decode
decode_marker marker front rest m =
    rw (u8-cursor marker front rest m)
      (check-passes (decode_after_marker marker) _ (error-cursor (front ++ marker ∷ []) rest m))

length-v2_payload : (t : ℕ) (a : EntityAddr) → length (v2_payload t a) ≡ length a.socket_data + 14
unfolding v2_payload
length-v2_payload t a = simp (length-append, length-le_bytes) (omega arith)

module _ (a : EntityAddr) (w : IsAddr a) (t : ℕ) (ht : t < 2 ^ 32) (m : ℕ) (room : 48 ≤ m) where
  -- Data of its family's length needs no zeros.
  pad_lem :
      a.socket_data ++ replicate (length a.socket_data - length a.socket_data) 0 ≡ a.socket_data
  pad_lem =
      let none_left : length a.socket_data - length a.socket_data ≡ 0 = omega arith in
      rw none_left (append-nil a.socket_data)

  read_socket-cursor :
      (front : List ℕ)
      → read_socket t a.nonce
          (2 + length a.socket_data)
          (cursor front (le_bytes 2 a.family ++ (a.socket_data ++ [])) m)
        ≡ ok (
          record a { address_type = t; legacy_encoding = false },
          cursor (front ++ (le_bytes 2 a.family ++ a.socket_data)) [] m,
        )
  unfolding read_socket raw
  read_socket-cursor front =
      let (family, least, most) = family_lem a.family (length a.socket_data) w.socket in
      let whole : 2 + length a.socket_data - 2 ≡ length a.socket_data = omega arith in
      simp
        (
          le→leb 2 (2 + length a.socket_data) (omega arith),
          u16-cursor a.family (omega (arith, family)),
          w.socket,
          whole,
          le→ltb (length a.socket_data) (length a.socket_data) (omega arith),
          take_slice-cursor a.socket_data,
          pad_lem,
        )
        (check-passes _ _ (error-cursor _ [] m) ∙ simp append_assoc)

  read_address-cursor :
      read_address (cursor [] (v2_payload t a ++ []) m)
      ≡ ok (record a { address_type = t; legacy_encoding = false }, cursor (v2_payload t a) [] m)
  unfolding read_address read_form v2_payload
  read_address-cursor =
      let present : (2 + length a.socket_data == 0) ≡ false = ground arith in
      let (family, least, most) = family_lem a.family (length a.socket_data) w.socket in
      simp (
        append_assoc,
        u32-cursor t ht,
        u32-cursor a.nonce w.nonce,
        u32-cursor (2 + length a.socket_data) (omega (arith, most)),
        present,
        read_socket-cursor,
      )

  decode_v2-cursor :
      (front rest : List ℕ)
      → decode (cursor front (v2_bytes t a ++ rest) m)
        ≡ ok (
          record a { address_type = t; legacy_encoding = false },
          cursor (front ++ v2_bytes t a) rest m,
        )
  unfolding decode_after_marker decode_v2 v2_bytes
  decode_v2-cursor front rest =
      let (family, least, most) = family_lem a.family (length a.socket_data) w.socket in
      let payload = v2_payload t a in
      let behind = (front ++ 1 ∷ []) ++ enveloped 1 1 payload in
      decode_marker 1 front (enveloped 1 1 payload ++ rest) m
      ∙ bind-ok (opened 1) _ (
          opened-cursor 1 1 1 payload (omega arith) (omega (arith, length-v2_payload t a, most)) m
            (omega (arith, length-v2_payload t a, most)) (front ++ 1 ∷ []) rest)
      ∙ bind-ok (within (new payload m) read_address) (λ address. check >> pure address)
          {d = cursor behind rest m}
          (within-new read_address payload m read_address-cursor (cursor behind rest m))
      ∙ check-passes (pure (record a { address_type = t; legacy_encoding = false }))
          (cursor behind rest m) (error-cursor behind rest m)
      ∙ simp append_assoc

be_lem : (v : ℕ) → v / 256 * 256 + v % 256 ≡ v
be_lem v = omega arith

module _ (a : EntityAddr) (w : IsAddr a) where
  length-legacy_socket : length (legacy_socket a) ≡ 128
  unfolding legacy_socket
  length-legacy_socket =
      let (family, least, most) = family_lem a.family (length a.socket_data) w.socket in
      omega (
        arith,
        length-append a.socket_data (replicate (126 - length a.socket_data) 0),
        length-replicate {A = ℕ} (126 - length a.socket_data) 0,
        most,
      )

  family-legacy_socket : from_be (take 2 (legacy_socket a)) ≡ a.family
  unfolding legacy_socket
  family-legacy_socket = be_lem a.family

  data-legacy_socket : take (length a.socket_data) (drop 2 (legacy_socket a)) ≡ a.socket_data
  unfolding legacy_socket
  data-legacy_socket = take-append_length a.socket_data _

  module _ (m : ℕ) where
    socket-cursor :
        (front rest : List ℕ)
        → raw 128 (cursor front (legacy_socket a ++ rest) m)
          ≡ (legacy_socket a, cursor (front ++ legacy_socket a) rest m)
    unfolding raw
    socket-cursor front rest =
        rw length-legacy_socket at (take_slice-cursor (legacy_socket a) front rest m)

    padding-cursor :
        (front rest : List ℕ)
        → raw 3 (cursor front (0 ∷ 0 ∷ 0 ∷ rest) m)
          ≡ (0 ∷ 0 ∷ 0 ∷ [], cursor (front ++ 0 ∷ 0 ∷ 0 ∷ []) rest m)
    unfolding raw
    padding-cursor front rest = take_slice-cursor (0 ∷ 0 ∷ 0 ∷ []) front rest m

    decode_legacy-cursor :
        (front rest : List ℕ)
        → decode_legacy
            (cursor front (0 ∷ 0 ∷ 0 ∷ ((le_bytes 4 a.nonce ++ legacy_socket a) ++ rest)) m)
          ≡ ok (
            record a {
              address_type = if a.family == af_unspec then type_none else type_legacy;
              legacy_encoding = true;
            },
            cursor (front ++ 0 ∷ 0 ∷ 0 ∷ (le_bytes 4 a.nonce ++ legacy_socket a)) rest m,
          )
    unfolding decode_legacy
    decode_legacy-cursor front rest =
        simp (append_assoc, padding-cursor, u32-cursor a.nonce w.nonce, socket-cursor)
          (check-passes _ _ (error-cursor _ rest m)
            ∙ simp (append_assoc, family-legacy_socket, w.socket, data-legacy_socket))

legacy_split :
    (a : EntityAddr) → legacy_bytes a ≡ 0 ∷ 0 ∷ 0 ∷ 0 ∷ (le_bytes 4 a.nonce ++ legacy_socket a)
unfolding legacy_bytes le_bytes
legacy_split a = refl

legacy_lem :
    (a : EntityAddr)
    → IsAddr a
    → (m : ℕ) (front rest : List ℕ)
    → decode (cursor front (legacy_bytes a ++ rest) m)
      ≡ ok (
        record a {
          address_type = if a.family == af_unspec then type_none else type_legacy;
          legacy_encoding = true;
        },
        cursor (front ++ legacy_bytes a) rest m,
      )
unfolding decode_after_marker
legacy_lem a w m front rest = rw (legacy_split a) (
    decode_marker 0 front (0 ∷ 0 ∷ 0 ∷ ((le_bytes 4 a.nonce ++ legacy_socket a) ++ rest)) m
    ∙ decode_legacy-cursor a w m (front ++ 0 ∷ []) rest
    ∙ simp append_assoc)

pub length-address_bytes : (a : EntityAddr) (features : ℕ) → 1 ≤ length (address_bytes a features)
unfolding address_bytes v2_bytes
length-address_bytes a features = elim (Bool-cases (contains features message_address_v2)) [
  | inl v2 ↦ rw v2 (omega arith)
  | inr old ↦ rw (old, legacy_split a) (omega arith)
]

wire_type-lt :
    (a : EntityAddr) (features : ℕ) → a.address_type < 2 ^ 32 → wire_type a features < 2 ^ 32
unfolding wire_type
wire_type-lt a features h = ground arith

pub decode-cursor :
    (a : EntityAddr) (features : ℕ)
    → IsAddr a
    → (m : ℕ) → 48 ≤ m
    → (front rest : List ℕ)
    → decode (cursor front (address_bytes a features ++ rest) m)
      ≡ ok (sent a features, cursor (front ++ address_bytes a features) rest m)
unfolding address_bytes sent
decode-cursor a features w m room front rest =
    elim (Bool-cases (contains features message_address_v2)) [
      | inl v2 ↦ rw v2 (
          decode_v2-cursor a w (wire_type a features) (wire_type-lt a features w.address_type) m
            room front rest)
      | inr old ↦ rw old (legacy_lem a w m front rest)
    ]

-- An address whose fields have the source's widths and whose data has its family's length, encoded
-- under a limit of 32 bits, is read back as `sent` says, whatever follows, if the reader takes 48
-- bytes: its nonce, family and data as they are, its type as it is under the new address format,
-- except that ANY becomes LEGACY for a peer without Nautilus, and under the old format LEGACY, or
-- NONE where it has no family; and marked as of the old form exactly under the old format.
pub address-round_trip :
    (a : EntityAddr) (features : ℕ)
    → IsAddr a
    → (l : ℕ) → l ≤ u32_max
    → {w : List ℕ} → (encode a features (Enc.new l) >>= Enc.finish) ≡ ok w
    → (m : ℕ) → 48 ≤ m
    → (rest : List ℕ) → Reads (sent a features) rest (decode (new (w ++ rest) m))
address-round_trip a features addr l h {w} e m room rest =
    let writes : Writes (encode a features) (address_bytes a features) = record {
      form = encode_form a features;
      emits = encode-Emits a features;
      passes = encode_lem a addr features;
    } in
    rw (sym (written_form writes l h e), new-cursor (address_bytes a features ++ rest) m)
      (cursor-Reads (sent a features) _ rest m (decode-cursor a features addr m room [] rest))
